-- ===== src/RateLimit/Blocking.antt =====
-- Refused clients, and that one client's requests do not touch another's.
use whataapp_otp_project.Base.{
  ℕ, ◌+◌, ◌*◌, ◌≤◌, ◌<◌, ◌≡◌, refl, ◌≢◌, ◌⊎◌, inl, inr, ◌∙◌, String, true, false, Option, none,
  some, List, [], ◌∷◌, ◌===◌, arith, eq_iff, eq_refl, All, All-imp, Bool-cases, Option-cases,
}
use whataapp_otp_project.Base.JsMap
use whataapp_otp_project.Base.JsMap.{IsKeyed, get-set, set-IsKeyed}
use whataapp_otp_project.RateLimit.{
  Config, Entry, Store, Request, too_many, request_key, cleanup_key, is_blocked, fresh_entry,
  counted, maintain, intercept_key, intercept, entry_or, effective_block, retry_after,
  cleanup_store,
}
use whataapp_otp_project.RateLimit.Cleanup.{
  block-IsCurrent, cleanup_answer, same_outcome, get-cleanup_store,
}
use whataapp_otp_project.RateLimit.Window.{
  admitted, intercept_key-IsKeyed, intercept_key_other, intercept_key_blocked,
}

-- The client with key `k` is barred until time `b`.
pub record Barred (k : String) (b : ℕ) (s : Store) : Type 0 where
  pub entry : Entry
  pub found : JsMap.get k s ≡ some entry
  pub until : entry.blocked_until ≡ some b

intercept_key-Barred :
    (c : Config) (j k : String) (now b : ℕ) (s : Store)
    → IsKeyed s
    → k ≢ cleanup_key
    → now < b
    → Barred k b s
    → Barred k b (intercept_key c j now s).0
unfolding is_blocked
intercept_key-Barred c j k now b s u other early d = elim (Bool-cases (j === k)) [
  | inl same ↦
      rw
        (
          (eq_iff j k).0 same,
          intercept_key_blocked c k now s d.entry d.found (ground (arith, d.until)),
        )
        d
  | inr differs ↦ record {
    entry = d.entry;
    found =
        intercept_key_other c j k now s d.entry u (λ q. ground (arith, eq_iff j k)) other d.found
          (block-IsCurrent now b d.entry d.until early);
    until = d.until;
  }
]

Barred-admits_none :
    (c : Config) (k : String) (b : ℕ) (rs : List (Request × ℕ)) (s : Store)
    → k ≢ cleanup_key
    → IsKeyed s
    → Barred k b s
    → All (λ q. q.1 < b) rs
    → admitted c k rs s ≡ 0
unfolding admitted intercept is_blocked
Barred-admits_none c k b [] s other u d early = refl
Barred-admits_none c k b ((r, now) ∷ rs) s other u d (here, later) =
    let rest =
      Barred-admits_none c k b rs (intercept_key c (request_key r) now s).0 other
        (intercept_key-IsKeyed c (request_key r) now s u)
        (intercept_key-Barred c (request_key r) k now b s u other here d) later in
    elim (Bool-cases (request_key r === k)) [
      | inl same ↦ ground (
        arith,
        rest,
        same,
        (eq_iff (request_key r) k).0 same,
        intercept_key_blocked c k now s d.entry d.found (ground (arith, d.until)),
      )
      | inr differs ↦ ground (arith, rest, differs)
    ]

blocked_entry :
    (now : ℕ) (o : Option Entry) (f : Entry)
    → f.blocked_until ≡ none
    → is_blocked (entry_or o f) now ≡ true
    → (e : Entry) × (b : ℕ) × (o ≡ some e) × (e.blocked_until ≡ some b) × (now < b)
unfolding is_blocked
blocked_entry now none f clear h = ground arith
blocked_entry now (some e) f clear h = elim (Option-cases e.blocked_until) [
  | inl free ↦ ground arith
  | inr (b, until) ↦ (e, b, refl, until, ground arith)
]

module _ (c : Config) (k : String) (now n : ℕ) (s : Store) where
  -- A refusal leaves the client barred until the announced delay is over, to the second.
  refusal-Barred :
      (intercept_key c k now s).1 ≡ too_many n
      → (b : ℕ) × Barred k b (intercept_key c k now s).0
        × (b ≤ now + n * 1000)
        × (now + n * 1000 < b + 1000)
  unfolding intercept_key retry_after fresh_entry
  refusal-Barred h =
      let found = entry_or (JsMap.get k s) (fresh_entry c now) in
      let over = record (counted c now found) {
        blocked_until = some (now + effective_block c * 1000);
      } in
      elim (Bool-cases (is_blocked found now)) [
        | inl blocked ↦
            let (e, b, at, until, early) =
              blocked_entry now (JsMap.get k s) (fresh_entry c now) refl blocked in
            (
              b,
              record { entry = e; found = ground arith; until = until },
              ground arith,
              ground arith,
            )
        | inr free ↦ (
          now + effective_block c * 1000,
          record {
            entry = over;
            found = ground (arith, eq_refl k, get-set k k over s);
            until = refl;
          },
          ground arith,
          ground arith,
        )
      ]

  -- A refused client, whose key is not the reserved one of the clean-up, gets nothing through
  -- before the last second of the announced delay, whatever it and the other clients send.
  pub refusal_honoured :
      (rs : List (Request × ℕ))
      → IsKeyed s
      → k ≢ cleanup_key
      → (intercept_key c k now s).1 ≡ too_many n
      → All (λ q. q.1 + 1000 ≤ now + n * 1000) rs
      → admitted c k rs (intercept_key c k now s).0 ≡ 0
  refusal_honoured rs u other h early =
      let (b, barred, low, high) = refusal-Barred h in
      Barred-admits_none c k b rs _ other (intercept_key-IsKeyed c k now s u) barred
        (All-imp _ _ rs (λ q lt. omega arith) early)

  -- Once the announced delay of a refusal is over, the entry that the refusal left is no longer
  -- blocked.
  pub refusal_ends :
      (e : Entry)
      → (intercept_key c k now s).1 ≡ too_many n
      → JsMap.get k (intercept_key c k now s).0 ≡ some e
      → is_blocked e (now + n * 1000) ≡ false
  unfolding is_blocked
  refusal_ends e h at =
      let (b, barred, low, high) = refusal-Barred h in ground (arith, barred.found, barred.until)

get_after :
    (c : Config) (j k : String) (now : ℕ) (s : Store)
    → IsKeyed s
    → j ≢ k
    → k ≢ cleanup_key
    → (JsMap.get k (intercept_key c j now s).0 ≡ JsMap.get k s)
      ⊎ (JsMap.get k (intercept_key c j now s).0 ≡ JsMap.get k (cleanup_store now s))
unfolding intercept_key maintain
get_after c j k now s u ne other =
    let next = counted c now (entry_or (JsMap.get j s) (fresh_entry c now)) in
    ground (
      arith,
      eq_iff j k,
      eq_iff cleanup_key k,
      get-set j k next s,
      get-set j k (record next { blocked_until = some (now + effective_block c * 1000) }) s,
      get-set cleanup_key k (record { count = 0; reset_time = now; blocked_until = none })
          (cleanup_store now (JsMap.set j next s)),
      get-cleanup_store now k s u,
      get-cleanup_store now k (JsMap.set j next s) (set-IsKeyed j next s u),
    )

-- A request of one client changes no answer that another client, whose key is not the reserved one
-- of the clean-up, gets then or later.
pub clients_isolated :
    (c : Config) (j k : String) (now later : ℕ) (s : Store)
    → IsKeyed s
    → j ≢ k
    → k ≢ cleanup_key
    → now ≤ later
    → (intercept_key c k later (intercept_key c j now s).0).1 ≡ (intercept_key c k later s).1
clients_isolated c j k now later s u ne other h = elim (get_after c j k now s u ne other) [
  | inl kept ↦ same_outcome c k later s _ kept
  | inr cleaned ↦
      same_outcome c k later (cleanup_store now s) _ cleaned ∙ cleanup_answer c k now later s u h
]
