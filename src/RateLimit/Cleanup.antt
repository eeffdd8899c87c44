-- ===== src/RateLimit/Cleanup.antt =====
-- The clean-up of the rate limiter's store: it forgets only what no longer matters.
use whataapp_otp_project.Base.{
  ℕ, ◌≤◌, ◌<◌, ◌≡◌, ◌≢◌, inl, inr, String, true, false, none, some, if◌then◌else◌, arith, eq_iff,
  Bool-cases, Option-cases,
}
use whataapp_otp_project.Base.JsMap
use whataapp_otp_project.Base.JsMap.{IsKeyed, get-set, get-retain, set-IsKeyed, retain-IsKeyed}
use whataapp_otp_project.RateLimit.{
  Config, Entry, Store, cleanup_key, is_live, is_blocked, fresh_entry, counted, cleanup_store,
  maintain, intercept_key,
}

pub cleanup_store-IsKeyed : (now : ℕ) (s : Store) → IsKeyed s → IsKeyed (cleanup_store now s)
unfolding cleanup_store
cleanup_store-IsKeyed now s u = retain-IsKeyed (λ k e. is_live now e) s u

pub maintain-IsKeyed : (now : ℕ) (s : Store) → IsKeyed s → IsKeyed (maintain now s)
unfolding maintain
maintain-IsKeyed now s u = ground (
  arith,
  set-IsKeyed cleanup_key (record { count = 0; reset_time = now; blocked_until = none })
      (cleanup_store now s) (cleanup_store-IsKeyed now s u),
)

-- An entry whose window or block lasts until now or later stays.
abbrev pub IsCurrent : ℕ → Entry → Type 0
IsCurrent now e = is_live now e ≡ true

pub window-IsCurrent : (now : ℕ) (e : Entry) → now ≤ e.reset_time → IsCurrent now e
unfolding is_live
window-IsCurrent now e h = ground arith

pub block-IsCurrent : (now b : ℕ) (e : Entry) → e.blocked_until ≡ some b → now < b → IsCurrent now e
unfolding is_live
block-IsCurrent now b e h lt = ground arith

module _ (now : ℕ) (k : String) (s : Store) (u : IsKeyed s) where
  pub get-cleanup_store :
      JsMap.get k (cleanup_store now s)
      ≡ elim (JsMap.get k s) [ none ↦ none | some e ↦ if is_live now e then some e else none ]
  unfolding cleanup_store
  get-cleanup_store = get-retain (λ k e. is_live now e) k s u

  pub get-maintain :
      (e : Entry)
      → k ≢ cleanup_key
      → JsMap.get k s ≡ some e
      → IsCurrent now e
      → JsMap.get k (maintain now s) ≡ some e
  unfolding maintain
  get-maintain e other found live = ground (
    arith,
    eq_iff cleanup_key k,
    get-cleanup_store,
    get-set cleanup_key k (record { count = 0; reset_time = now; blocked_until = none })
        (cleanup_store now s),
  )

stale_outcome :
    (c : Config) (k : String) (now later : ℕ) (s t : Store) (e : Entry)
    → now ≤ later
    → is_live now e ≡ false
    → JsMap.get k s ≡ some e
    → JsMap.get k t ≡ none
    → (intercept_key c k later t).1 ≡ (intercept_key c k later s).1
unfolding intercept_key is_live is_blocked counted fresh_entry
stale_outcome c k now later s t e h dead found gone = ground arith

pub same_outcome :
    (c : Config) (k : String) (now : ℕ) (s t : Store)
    → JsMap.get k t ≡ JsMap.get k s
    → (intercept_key c k now t).1 ≡ (intercept_key c k now s).1
unfolding intercept_key
same_outcome c k now s t e = ground arith

-- Whatever the clean-up deletes, the next request gets the answer that it would have got without the
-- clean-up.
pub cleanup_answer :
    (c : Config) (k : String) (now later : ℕ) (s : Store)
    → IsKeyed s
    → now ≤ later
    → (intercept_key c k later (cleanup_store now s)).1 ≡ (intercept_key c k later s).1
cleanup_answer c k now later s u h = elim (Option-cases (JsMap.get k s)) [
  | inl gone ↦ same_outcome c k later s _ (ground (arith, get-cleanup_store now k s u))
  | inr (e, found) ↦ elim (Bool-cases (is_live now e)) [
    | inl live ↦ same_outcome c k later s _ (ground (arith, get-cleanup_store now k s u))
    | inr dead ↦
        stale_outcome c k now later s _ e h dead found (ground (arith, get-cleanup_store now k s u))
  ]
]
