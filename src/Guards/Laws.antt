-- ===== src/Guards/Laws.antt =====
-- Exactly which requests the guards let through.
use whataapp_otp_project.Base.{
  ℕ, ◌≤◌, ◌<◌, ◌≡◌, refl, sym, ◌≢◌, ◌↔◌, inl, inr, String, true, Option, none, some, List, [], ◌∷◌,
  ◌===◌, arith, eq_iff, find, any, Bool-cases, Option-cases,
}
use mathlib.Core.List.{Memᴰ}
use whataapp_otp_project.Base.Collection.{Collection}
use whataapp_otp_project.Users.{User, active, EmbeddedSubscription, has_id}
use whataapp_otp_project.Guards.{
  ok, check_limit, check_user, message_limit_guard, roles_guard, ApiKey, Caller, is_active_key,
  api_key_guard, check_key,
}

-- A subscription under which a message may be sent at time `now`.
pub record Allows (now : ℕ) (sub : EmbeddedSubscription) : Type 0 where
  pub in_time : now ≤ sub.end_date
  pub is_active : sub.status ≡ active
  pub below : sub.messages_used < sub.message_limit

check_limit_iff :
    (sub : EmbeddedSubscription) (now : ℕ) → (check_limit sub now ≡ ok true) ↔ Allows now sub
unfolding check_limit
check_limit_iff sub now = (
  λ h. record { in_time = ground arith; is_active = ground arith; below = ground arith },
  λ a. ground (arith, a.in_time, a.is_active, a.below),
)

-- The user found by a search holds a subscription that allows a message.
abbrev pub MaySend : ℕ → Option User → Type 0
MaySend now o =
    (u : User) × (sub : EmbeddedSubscription) × (o ≡ some u)
    × (u.subscription ≡ some sub)
    × Allows now sub

check_user_sound : (o : Option User) (now : ℕ) → check_user o now ≡ ok true → MaySend now o
unfolding check_user
check_user_sound none now h = cc
check_user_sound (some u) now h = elim (Option-cases u.subscription) [
  | inl e ↦ ground arith
  | inr (sub, e) ↦ (u, sub, refl, e, (check_limit_iff sub now).0 (rw e at h))
]

module _ (users : Collection User) where
  open users use {Store, docs, find_one_lem}

  -- The message limit guard admits a request exactly if its user exists and has a subscription that
  -- is active, has not ended and has messages left.
  pub message_limit_guard_iff :
      (id : String) (now : ℕ) (s : Store)
      → (message_limit_guard users id now s ≡ ok true) ↔ MaySend now (find (has_id id) (docs s))
  unfolding message_limit_guard
  message_limit_guard_iff id now s = rw (find_one_lem (has_id id) s) (
    check_user_sound (find (has_id id) (docs s)) now,
    λ (u, sub, e, f, a). rw (e, check_user, f) ((check_limit_iff sub now).1 a),
  )

any-Memᴰ :
    (role : String) (roles : List String) → any (λ r. r === role) roles ≡ true → Memᴰ role roles
any-Memᴰ role [] h = cc
any-Memᴰ role (r ∷ roles) h = elim (Bool-cases (r === role)) [
  | inl hit ↦ Memᴰ.head (sym ((eq_iff r role).0 hit))
  | inr miss ↦ Memᴰ.tail (any-Memᴰ role roles (ground arith))
]

Memᴰ-any :
    (role : String) (roles : List String) → Memᴰ role roles → any (λ r. r === role) roles ≡ true
Memᴰ-any role [] m = elim m [ ]
Memᴰ-any role (r ∷ roles) (Memᴰ.head e) = ground (arith, eq_iff r role)
Memᴰ-any role (r ∷ roles) (Memᴰ.tail m) = ground (arith, Memᴰ-any role roles m)

-- A handler that asks for roles is reached exactly by the requests whose user has one of them.
pub roles_guard_iff :
    (roles : List String) (user : Option (Option String))
    → (roles_guard (some roles) user ≡ ok true)
      ↔ ((role : String) × (user ≡ some (some role)) × (role ≢ "") × Memᴰ role roles)
unfolding roles_guard
roles_guard_iff roles none = (λ h. cc, λ (r, e, _, _). cc)
roles_guard_iff roles (some none) = (λ h. cc, λ (r, e, _, _). cc)
roles_guard_iff roles (some (some role)) = (
  λ h. (role, refl, λ e. ground (arith, eq_iff role ""), any-Memᴰ role roles (ground arith)),
  λ (r, e, ne, m).
      let same : role ≡ r = ground arith in
      ground (arith, eq_iff role "", Memᴰ-any role roles (rw same m)),
)

check_key_sound :
    (key : String) (o : Option ApiKey) (caller : Caller)
    → check_key key o ≡ ok caller
    → (k : ApiKey) × (o ≡ some k)
      × (caller ≡ record { user_id = k.user_id; account_id = k.account_id })
unfolding check_key
check_key_sound key none caller h = ground arith
check_key_sound key (some k) caller h = (k, refl, ground arith)

module _ (keys : Collection ApiKey) where
  open keys use {Store, docs, find_one_lem}

  -- A caller is attached to a request exactly if the request carries a non-empty key and the first
  -- active record of that key names the caller.
  pub api_key_guard_iff :
      (header : Option String) (caller : Caller) (s : Store)
      → (api_key_guard keys header s ≡ ok caller) ↔ (
          (key : String) × (k : ApiKey) × (header ≡ some key)
          × (key ≢ "")
          × (find (is_active_key key) (docs s) ≡ some k)
          × (caller ≡ record { user_id = k.user_id; account_id = k.account_id }))
  unfolding api_key_guard
  api_key_guard_iff none caller s = (λ h. cc, λ (key, k, e, _, _, _). cc)
  api_key_guard_iff (some given) caller s = (
    λ h.
        let (k, found, same) =
          check_key_sound given (keys.find_one (is_active_key given) s) caller h in
        (
          given,
          k,
          refl,
          λ e. ground (arith, eq_iff given ""),
          rw (← find_one_lem (is_active_key given) s) found,
          same,
        ),
    λ (key, k, e, ne, found, same).
        let is_given : key ≡ given = ground arith in
        ground
          (arith, eq_iff given "", find_one_lem (is_active_key given) s, (rw is_given at found)),
  )
