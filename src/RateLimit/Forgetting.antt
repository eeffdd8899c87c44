-- ===== src/RateLimit/Forgetting.antt =====
-- What the clean-up of the rate limiter forgets makes no difference to any later request.
use whataapp_otp_project.Base.{
  ℕ, ◌+◌, ◌*◌, ◌≤◌, ◌≡◌, ◌≢◌, refl, sym, ◌∙◌, ap, String, Option, none, some, List, [], ◌∷◌, ◌===◌,
  if◌then◌else◌, leb, ltb, arith, eq_iff,
}
use whataapp_otp_project.Base.JsMap
use whataapp_otp_project.Base.JsMap.{IsKeyed, get-set, set-IsKeyed}
use whataapp_otp_project.RateLimit.{
  Config, Entry, Store, Request, Outcome, handled, too_many, request_key, cleanup_key, is_live,
  is_blocked, fresh_entry, entry_or, counted, retry_after, effective_block, cleanup_store, maintain,
  intercept_key, intercept, run,
}
use whataapp_otp_project.RateLimit.Cleanup.{get-cleanup_store, cleanup_store-IsKeyed}
use whataapp_otp_project.RateLimit.Window.{intercept_key-IsKeyed}

-- What an entry still means at a time: nothing once its window and its block are over; an expired
-- block is none.
current : ℕ → Option Entry → Option Entry
current now none = none
current now (some e) =
    if is_blocked e now
    then some e
    else if leb e.reset_time now
    then none
    else some (record e { blocked_until = none })

-- The answer to a request, and the entry that it leaves, before any clean-up.
answer : Config → ℕ → Option Entry → Outcome
answer c now o =
    let found = entry_or o (fresh_entry c now) in
    if is_blocked found now
    then too_many (retry_after found now)
    else if ltb c.points (counted c now found).count
    then too_many (effective_block c)
    else handled

left_entry : Config → ℕ → Option Entry → Option Entry
left_entry c now o =
    let found = entry_or o (fresh_entry c now) in
    let next = counted c now found in
    if is_blocked found now
    then o
    else if ltb c.points next.count
    then some (record next { blocked_until = some (now + effective_block c * 1000) })
    else some next

current_later :
    (now later : ℕ) (o : Option Entry)
    → now ≤ later
    → current later (current now o) ≡ current later o
unfolding current is_blocked
current_later now later none h = refl
current_later now later (some e) h = ground arith

answer-current :
    (c : Config) (now : ℕ) (o : Option Entry) → answer c now (current now o) ≡ answer c now o
unfolding current answer is_blocked counted fresh_entry
answer-current c now none = refl
answer-current c now (some e) = ground arith

left_entry-current :
    (c : Config) (now : ℕ) (o : Option Entry)
    → current now (left_entry c now (current now o)) ≡ current now (left_entry c now o)
unfolding current left_entry is_blocked counted fresh_entry
left_entry-current c now none = refl
left_entry-current c now (some e) = ground arith

live_current :
    (now : ℕ) (o : Option Entry)
    → current now (elim o [ none ↦ none | some e ↦ if is_live now e then some e else none ])
      ≡ current now o
unfolding current is_live is_blocked
live_current now none = refl
live_current now (some e) = ground arith

current-cleanup_store :
    (now : ℕ) (j : String) (s : Store)
    → IsKeyed s
    → current now (JsMap.get j (cleanup_store now s)) ≡ current now (JsMap.get j s)
current-cleanup_store now j s u =
    ap (current now) (get-cleanup_store now j s u) ∙ live_current now (JsMap.get j s)

current-maintain :
    (now : ℕ) (j : String) (s : Store)
    → IsKeyed s
    → j ≢ cleanup_key
    → current now (JsMap.get j (maintain now s)) ≡ current now (JsMap.get j s)
unfolding maintain
current-maintain now j s u other = ground (
  arith,
  eq_iff cleanup_key j,
  current-cleanup_store now j s u,
  get-set cleanup_key j (record { count = 0; reset_time = now; blocked_until = none })
      (cleanup_store now s),
)

answer_lem :
    (c : Config) (k : String) (now : ℕ) (s : Store)
    → (intercept_key c k now s).1 ≡ answer c now (JsMap.get k s)
unfolding intercept_key answer
answer_lem c k now s = ground arith

-- What a request changes: its own entry alone, for what matters.
left_lem :
    (c : Config) (k j : String) (now : ℕ) (s : Store)
    → IsKeyed s
    → j ≢ cleanup_key
    → current now (JsMap.get j (intercept_key c k now s).0) ≡ (
        if k === j
        then current now (left_entry c now (JsMap.get k s))
        else current now (JsMap.get j s))
unfolding intercept_key left_entry
left_lem c k j now s u other =
    let found = entry_or (JsMap.get k s) (fresh_entry c now) in
    let next = counted c now found in
    let over = record next { blocked_until = some (now + effective_block c * 1000) } in
    ground (
      arith,
      eq_iff k j,
      get-set k j over s,
      get-set k j next s,
      current-maintain now j (JsMap.set k next s) (set-IsKeyed k next s u) other,
    )

-- Two stores that mean the same for every client from now on.
abbrev Alike : ℕ → Store → Store → Type 0
Alike now s t =
    (j : String) → j ≢ cleanup_key → current now (JsMap.get j s) ≡ current now (JsMap.get j t)

Alike-later : (now later : ℕ) (s t : Store) → now ≤ later → Alike now s t → Alike later s t
Alike-later now later s t h a j other =
    sym (current_later now later (JsMap.get j s) h)
    ∙ ap (current later) (a j other)
    ∙ current_later now later (JsMap.get j t) h

answer-Alike :
    (c : Config) (k : String) (now : ℕ) (s t : Store)
    → k ≢ cleanup_key
    → Alike now s t
    → (intercept_key c k now s).1 ≡ (intercept_key c k now t).1
answer-Alike c k now s t other a =
    answer_lem c k now s
    ∙ sym (answer-current c now (JsMap.get k s))
    ∙ ap (answer c now) (a k other)
    ∙ answer-current c now (JsMap.get k t)
    ∙ sym (answer_lem c k now t)

left-Alike :
    (c : Config) (k : String) (now : ℕ) (s t : Store)
    → IsKeyed s
    → IsKeyed t
    → k ≢ cleanup_key
    → Alike now s t
    → Alike now (intercept_key c k now s).0 (intercept_key c k now t).0
left-Alike c k now s t u v named a j other =
    let same : current now (left_entry c now (JsMap.get k s))
        ≡ current now (left_entry c now (JsMap.get k t)) =
      sym (left_entry-current c now (JsMap.get k s))
      ∙ ap (λ o. current now (left_entry c now o)) (a k named)
      ∙ left_entry-current c now (JsMap.get k t) in
    left_lem c k j now s u other
    ∙ ap (λ o. if k === j then o else current now (JsMap.get j s)) same
    ∙ ap (λ o. if k === j then current now (left_entry c now (JsMap.get k t)) else o) (a j other)
    ∙ sym (left_lem c k j now t v other)

-- Requests from this time on, one after the other, none under the reserved key of the clean-up.
abbrev pub From : ℕ → List (Request × ℕ) → Type 0
From now [] = Unit {0}
From now ((r, later) ∷ rs) = (now ≤ later) × (request_key r ≢ cleanup_key) × From later rs

run-Alike :
    (c : Config) (now : ℕ) (rs : List (Request × ℕ)) (s t : Store)
    → IsKeyed s
    → IsKeyed t
    → From now rs
    → Alike now s t
    → (run c rs s).1 ≡ (run c rs t).1
unfolding run intercept
run-Alike c now [] s t u v f a = refl
run-Alike c now ((r, later) ∷ rs) s t u v (h, named, rest) a =
    let k = request_key r in
    let b = Alike-later now later s t h a in
    ap (λ (o : Outcome). o ∷ (run c rs (intercept_key c k later s).0).1)
      (answer-Alike c k later s t named b)
    ∙ ap (λ os. (intercept_key c k later t).1 ∷ os)
        (run-Alike c later rs _ _ (intercept_key-IsKeyed c k later s u)
          (intercept_key-IsKeyed c k later t v) rest (left-Alike c k later s t u v named b))

-- Whatever the clean-up deletes, all the requests that are made then or later, whoever makes them
-- and however many, get the answers that they would have got without the clean-up. The keys stand
-- once in the store, the times do not go back, and no request has the reserved key of the clean-up.
pub cleanup_unobservable :
    (c : Config) (now : ℕ) (rs : List (Request × ℕ)) (s : Store)
    → IsKeyed s
    → From now rs
    → (run c rs (cleanup_store now s)).1 ≡ (run c rs s).1
cleanup_unobservable c now rs s u f =
    run-Alike c now rs (cleanup_store now s) s (cleanup_store-IsKeyed now s u) u f
      (λ j other. current-cleanup_store now j s u)
