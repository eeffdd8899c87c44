-- ===== src/RateLimit/Window.antt =====
-- How many requests of one client a window admits.
use whataapp_otp_project.Base.{
  ℕ, ◌+◌, ◌-◌, ◌*◌, ◌≤◌, ◌<◌, ◌≡◌, refl, ◌≢◌, inl, inr, String, Bool, true, false, none, some, List,
  [], ◌∷◌, ◌===◌, if◌then◌else◌, arith, eq_iff, eq_refl, All, Bool-cases,
}
use whataapp_otp_project.Base.JsMap
use native.Mathlib.Decide.{dec_lt}
use whataapp_otp_project.Base.JsMap.{IsKeyed, get-set, set-set, set-IsKeyed}
use whataapp_otp_project.RateLimit.{
  Config, Entry, Store, Request, Outcome, handled, too_many, request_key, cleanup_key, is_blocked,
  fresh_entry, counted, maintain, intercept_key, intercept, entry_or, effective_block, retry_after,
}
use whataapp_otp_project.RateLimit.Cleanup.{
  maintain-IsKeyed, get-maintain, window-IsCurrent, IsCurrent,
}

abbrev pub is_handled : Outcome → Bool
is_handled handled = true
is_handled (too_many n) = false

-- How many of the requests of the client with key `k` the limiter lets through.
unfoldable pub admitted : Config → String → List (Request × ℕ) → Store → ℕ
admitted c k [] s = 0
admitted c k ((r, now) ∷ rs) s =
    let (s', o) = intercept c r now s in
    (if request_key r === k then (if is_handled o then 1 else 0) else 0) + admitted c k rs s'

pub intercept_key-IsKeyed :
    (c : Config) (j : String) (now : ℕ) (s : Store)
    → IsKeyed s
    → IsKeyed (intercept_key c j now s).0
unfolding intercept_key
intercept_key-IsKeyed c j now s u =
    let next = counted c now (entry_or (JsMap.get j s) (fresh_entry c now)) in
    ground (
      arith,
      set-IsKeyed j next s u,
      maintain-IsKeyed now (JsMap.set j next s),
      set-IsKeyed j (record next { blocked_until = some (now + effective_block c * 1000) }) s u,
    )

-- A request of another client leaves a current entry alone.
pub intercept_key_other :
    (c : Config) (j k : String) (now : ℕ) (s : Store) (e : Entry)
    → IsKeyed s
    → j ≢ k
    → k ≢ cleanup_key
    → JsMap.get k s ≡ some e
    → IsCurrent now e
    → JsMap.get k (intercept_key c j now s).0 ≡ some e
unfolding intercept_key
intercept_key_other c j k now s e u ne other found live =
    let next = counted c now (entry_or (JsMap.get j s) (fresh_entry c now)) in
    ground (
      arith,
      eq_iff j k,
      set-IsKeyed j next s u,
      get-maintain now k (JsMap.set j next s) (set-IsKeyed j next s u) e other,
      get-set j k next s,
      get-set j k (record next { blocked_until = some (now + effective_block c * 1000) }) s,
    )

-- What is left of a client's allowance.
abbrev left : Config → Entry → ℕ
left c e = c.points - e.count

-- One request within the window of `e`: the entry keeps its window, and an admission uses up one
-- of the points.
record Spent (c : Config) (k : String) (e : Entry) (used : ℕ) (s : Store) : Type 0 where
  entry : Entry
  found : JsMap.get k s ≡ some entry
  same_window : entry.reset_time ≡ e.reset_time
  paid : used + left c entry ≤ left c e

abbrev pub one_more : Entry → Entry
one_more e = record e { count = e.count + 1 }

abbrev pub over_limit : Config → ℕ → Entry → Entry
over_limit c now e = record e {
  count = e.count + 1;
  blocked_until = some (now + effective_block c * 1000);
}

module _ (c : Config) (k : String) (now : ℕ) (s : Store) (e : Entry)
    (found : JsMap.get k s ≡ some e) where
  pub intercept_key_blocked :
      is_blocked e now ≡ true → intercept_key c k now s ≡ (s, too_many (retry_after e now))
  unfolding intercept_key
  intercept_key_blocked h = ground arith

  pub intercept_key_over :
      is_blocked e now ≡ false
      → now < e.reset_time
      → c.points ≤ e.count
      → intercept_key c k now s ≡ (JsMap.set k (over_limit c now e) s, too_many (effective_block c))
  unfolding intercept_key counted
  intercept_key_over h inside over = ground arith

  pub intercept_key_within :
      is_blocked e now ≡ false
      → now < e.reset_time
      → e.count < c.points
      → intercept_key c k now s ≡ (maintain now (JsMap.set k (one_more e) s), handled)
  unfolding intercept_key counted
  intercept_key_within h inside under = ground arith

  intercept_key-Spent :
      IsKeyed s
      → k ≢ cleanup_key
      → now < e.reset_time
      → Spent c k e
          (if is_handled (intercept_key c k now s).1 then 1 else 0)
          (intercept_key c k now s).0
  intercept_key-Spent u other inside = elim (Bool-cases (is_blocked e now)) [
    | inl blocked ↦
        rw (intercept_key_blocked blocked)
          (record { entry = e; found = found; same_window = refl; paid = omega arith })
    | inr free ↦ elim (dec_lt e.count c.points) [
      | yes under ↦ rw (intercept_key_within free inside under) (record {
        entry = one_more e;
        found =
            get-maintain now k (JsMap.set k (one_more e) s) (set-IsKeyed k (one_more e) s u)
              (one_more e) other (ground (arith, eq_refl k, get-set k k (one_more e) s))
              (window-IsCurrent now (one_more e) (omega arith));
        same_window = refl;
        paid = omega arith;
      })
      | no over ↦ rw (intercept_key_over free inside (omega arith)) (record {
        entry = over_limit c now e;
        found = ground (arith, eq_refl k, get-set k k (over_limit c now e) s);
        same_window = refl;
        paid = omega arith;
      })
    ]
  ]

admission : Config → String → String → ℕ → Store → ℕ
admission c k j now s =
    if j === k then (if is_handled (intercept_key c j now s).1 then 1 else 0) else 0

admission-Spent :
    (c : Config) (k j : String) (now : ℕ) (s : Store) (e : Entry)
    → IsKeyed s
    → k ≢ cleanup_key
    → JsMap.get k s ≡ some e
    → now < e.reset_time
    → Spent c k e (admission c k j now s) (intercept_key c j now s).0
unfolding admission
admission-Spent c k j now s e u other found inside = elim (Bool-cases (j === k)) [
  | inl same ↦
      rw ((eq_iff j k).0 same)
        (rw (eq_refl k) (intercept_key-Spent c k now s e found u other inside))
  | inr differs ↦ rw differs (record {
    entry = e;
    found =
        intercept_key_other c j k now s e u (λ q. ground (arith, eq_iff j k)) other found
          (window-IsCurrent now e (omega arith));
    same_window = refl;
    paid = omega arith;
  })
]

-- Of a client whose key is not the reserved one of the clean-up, at most the points that its entry
-- leaves are admitted within the entry's window, whatever the clients send and in whatever order;
-- neither other requests nor the clean-up renew them.
pub admitted-le-left :
    (c : Config) (k : String) (rs : List (Request × ℕ)) (s : Store) (e : Entry)
    → k ≢ cleanup_key
    → IsKeyed s
    → JsMap.get k s ≡ some e
    → All (λ q. q.1 < e.reset_time) rs
    → admitted c k rs s ≤ c.points - e.count
unfolding admitted intercept admission
admitted-le-left c k [] s e other u found inside = omega arith
admitted-le-left c k ((r, now) ∷ rs) s e other u found (here, later) =
    let sp = admission-Spent c k (request_key r) now s e u other found here in
    let rest =
      admitted-le-left c k rs (intercept_key c (request_key r) now s).0 sp.entry other
        (intercept_key-IsKeyed c (request_key r) now s u) sp.found (rw sp.same_window later) in
    omega (arith, sp.paid, rest)

intercept_key_unknown :
    (c : Config) (k : String) (t : ℕ) (s : Store)
    → JsMap.get k s ≡ none
    → intercept_key c k t s ≡ intercept_key c k t (JsMap.set k (fresh_entry c t) s)
unfolding intercept_key is_blocked fresh_entry
intercept_key_unknown c k t s gone =
    let f = fresh_entry c t in
    let next = counted c t f in
    ground (
      arith,
      eq_refl k,
      get-set k k f s,
      set-set k f next s,
      set-set k f (record next { blocked_until = some (t + effective_block c * 1000) }) s,
    )

-- A client that the limiter does not know, whose key is not the reserved one of the clean-up, gets
-- at most the configured points through from its first request until the duration, which is
-- positive, is over.
pub admitted-le-points :
    (c : Config) (k : String) (r : Request) (t : ℕ) (rs : List (Request × ℕ)) (s : Store)
    → k ≢ cleanup_key
    → IsKeyed s
    → JsMap.get k s ≡ none
    → request_key r ≡ k
    → 0 < c.duration
    → All (λ q. q.1 < t + c.duration * 1000) rs
    → admitted c k ((r, t) ∷ rs) s ≤ c.points
unfolding admitted intercept fresh_entry
admitted-le-points c k r t rs s other u gone key long inside =
    let f = fresh_entry c t in
    let bound =
      admitted-le-left c k ((r, t) ∷ rs) (JsMap.set k f s) f other (set-IsKeyed k f s u)
        (ground (arith, eq_refl k, get-set k k f s)) (omega arith, inside) in
    rw (key, intercept_key_unknown c k t s gone) (omega (arith, (rw key at bound)))
