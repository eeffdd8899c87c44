-- ===== src/Otp/Laws.antt =====
-- What the one-time passwords promise: a code is good once, for five minutes, and until the next
-- one is sent to the same number.
use whataapp_otp_project.Base.{
  ℕ, ◌+◌, ◌≤◌, ◌<◌, ◌≡◌, refl, ◌∙◌, ap, inl, inr, String, Bool, true, false, not, Option, none,
  some, List, [], ◌∷◌, ◌++◌, ◌===◌, if◌then◌else◌, arith, eq_iff, eq_refl, ltb, leb, any, All,
  if_elim, find-filter-none, find-append_none, fails_of_find, filter, find, Bool-cases,
  Option-cases,
}
use mathlib.Core.List.{append-nil}
use whataapp_otp_project.Base.Collection.{Collection, erase_first}
use whataapp_otp_project.Otp.{
  Otp, ok, err, invalid_otp, otp_has_expired, has_phone, has_code, has_id, store_otp, verify_otp,
  sweep, sweeps,
}

-- At most one code is stored for a number, under an identifier that no other record has.
abbrev pub Only : List Otp → Type 0
Only [] = Unit {0}
Only (r ∷ rs) =
    (find (has_phone r.phone_number) rs ≡ none) × (find (has_id r.id) rs ≡ none) × Only rs

-- No record for the number is left.
abbrev pub Gone : String → List Otp → Type 0
Gone phone rs = find (has_phone phone) rs ≡ none

find_code_none :
    (phone otp : String) (rs : List Otp) → Gone phone rs → find (has_code phone otp) rs ≡ none
find_code_none phone otp [] h = refl
find_code_none phone otp (r ∷ rs) h = ground (arith, find_code_none phone otp rs)

filter-Gone :
    (phone : String) (rs : List Otp) → Gone phone (filter (λ r. not (has_phone phone r)) rs)
filter-Gone phone [] = refl
filter-Gone phone (r ∷ rs) = ground (arith, filter-Gone phone rs)

find_code_last :
    (phone otp : String) (r : Otp) (rs : List Otp)
    → Gone phone rs
    → r.phone_number ≡ phone
    → find (has_code phone otp) (rs ++ r ∷ []) ≡ (if r.otp === otp then some r else none)
find_code_last phone otp r [] h e = ground (arith, eq_iff r.phone_number phone)
find_code_last phone otp r (x ∷ rs) h e = ground (arith, find_code_last phone otp r rs)

filter-Only : (p : Otp → Bool) (rs : List Otp) → Only rs → Only (filter p rs)
filter-Only p [] o = tt
filter-Only p (r ∷ rs) o = ground (
  arith,
  filter-Only p rs o.2,
  find-filter-none (has_phone r.phone_number) p rs o.0,
  find-filter-none (has_id r.id) p rs o.1,
)

append-Only :
    (rs : List Otp) (r : Otp)
    → Only rs
    → Gone r.phone_number rs
    → find (has_id r.id) rs ≡ none
    → Only (rs ++ r ∷ [])
append-Only [] r o h k = (refl, refl, tt)
append-Only (x ∷ rs) r o h k = ground (
  arith,
  append-Only rs r o.2,
  eq_iff x.phone_number r.phone_number,
  eq_iff r.phone_number x.phone_number,
  eq_iff x.id r.id,
  eq_iff r.id x.id,
  find-append_none (has_phone x.phone_number) rs (r ∷ []) o.0,
  find-append_none (has_id x.id) rs (r ∷ []) o.1,
)

find-erase_none :
    (q p : Otp → Bool) (rs : List Otp) → find q rs ≡ none → find q (erase_first p rs) ≡ none
find-erase_none q p [] h = refl
find-erase_none q p (r ∷ rs) h = ground (arith, find-erase_none q p rs)

erase-Only : (p : Otp → Bool) (rs : List Otp) → Only rs → Only (erase_first p rs)
erase-Only p [] o = tt
erase-Only p (r ∷ rs) o = ground (
  arith,
  erase-Only p rs o.2,
  find-erase_none (has_phone r.phone_number) p rs o.0,
  find-erase_none (has_id r.id) p rs o.1,
)

-- Once the record that was found is deleted, its code is found no more.
find_code_erase :
    (phone otp : String) (rs : List Otp) (r : Otp)
    → Only rs
    → find (has_code phone otp) rs ≡ some r
    → find (has_code phone otp) (erase_first (has_id r.id) rs) ≡ none
find_code_erase phone otp [] r o h = refl
find_code_erase phone otp (x ∷ rs) r o h = elim (Bool-cases (has_code phone otp x)) [
  | inl hit ↦
      let same : x.phone_number ≡ phone = (eq_iff _ _).0 (ground arith) in
      ground (arith, eq_refl x.id, find_code_none phone otp rs (rw (← same) o.0))
  | inr miss ↦ ground (
    arith,
    find_code_erase phone otp rs r o.2,
    fails_of_find (has_id x.id) (has_code phone otp) rs r o.1,
    eq_iff x.id r.id,
    eq_iff r.id x.id,
  )
]

-- What a sweep deletes.
abbrev is_old : ℕ → Otp → Bool
is_old t r = leb (r.expires_at + 300000) t

abbrev unless_old : ℕ → Option Otp → Option Otp
unless_old t none = none
unless_old t (some r) = if is_old t r then none else some r

abbrev unless_old_all : List ℕ → Option Otp → Option Otp
unless_old_all [] o = o
unless_old_all (t ∷ ts) o = unless_old_all ts (unless_old t o)

abbrev listed : Option Otp → List Otp
listed none = []
listed (some r) = r ∷ []

-- The record is the last, and the only one of the number.
abbrev IsSole : String → Option Otp → List Otp → Type 0
IsSole phone o rs = (xs : List Otp) × Gone phone xs × (rs ≡ xs ++ listed o)

abbrev stored : String → String → String → ℕ → Otp
stored phone otp id now = record {
  id = id;
  phone_number = phone;
  otp = otp;
  expires_at = now + 300000;
}

filter-append_last :
    (t : ℕ) (o : Option Otp) (xs : List Otp)
    → filter (λ r. not (is_old t r)) (xs ++ listed o)
      ≡ filter (λ r. not (is_old t r)) xs ++ listed (unless_old t o)
filter-append_last t none [] = refl
filter-append_last t (some r) [] = ground arith
filter-append_last t o (x ∷ xs) = ground (arith, filter-append_last t o xs)

filter-IsSole :
    (phone : String) (o : Option Otp) (t : ℕ) (rs : List Otp)
    → IsSole phone o rs
    → IsSole phone (unless_old t o) (filter (λ r. not (is_old t r)) rs)
filter-IsSole phone o t rs (xs, gone, all) = (
  filter (λ r. not (is_old t r)) xs,
  find-filter-none (has_phone phone) (λ r. not (is_old t r)) xs gone,
  ap (filter (λ r. not (is_old t r))) all ∙ filter-append_last t o xs,
)

abbrev Named : String → Option Otp → Type 0
Named phone none = Unit {0}
Named phone (some r) = r.phone_number ≡ phone

abbrev with_code : String → Option Otp → Option Otp
with_code given none = none
with_code given (some r) = if r.otp === given then some r else none

sole_code :
    (phone given : String) (o : Option Otp) (rs : List Otp)
    → IsSole phone o rs
    → Named phone o
    → find (has_code phone given) rs ≡ with_code given o
sole_code phone given none rs (xs, gone, all) n =
    ap (find (has_code phone given)) (all ∙ append-nil xs) ∙ find_code_none phone given xs gone
sole_code phone given (some r) rs (xs, gone, all) n =
    ap (find (has_code phone given)) all ∙ find_code_last phone given r xs gone n

unless_old_all-none : (ts : List ℕ) → unless_old_all ts none ≡ none
unless_old_all-none [] = refl
unless_old_all-none (t ∷ ts) = unless_old_all-none ts

unless_old_all_lem :
    (ts : List ℕ) (r : Otp)
    → unless_old_all ts (some r) ≡ (if any (λ t. is_old t r) ts then none else some r)
unless_old_all_lem [] r = refl
unless_old_all_lem (t ∷ ts) r = elim (Bool-cases (is_old t r)) [
  | inl e ↦ rw e (unless_old_all-none ts)
  | inr e ↦ rw e (unless_old_all_lem ts r)
]

Named-all :
    (phone : String) (r : Otp) (ts : List ℕ)
    → r.phone_number ≡ phone
    → Named phone (unless_old_all ts (some r))
Named-all phone r ts h =
    rw (unless_old_all_lem ts r) (if_elim (Named phone) (any (λ t. is_old t r) ts) tt h)

-- No sweep of the past reaches a bound of the future.
none_later :
    (bound later : ℕ) (ts : List ℕ)
    → All (λ t. t ≤ later) ts
    → later < bound
    → any (λ t. leb bound t) ts ≡ false
none_later bound later [] past h = refl
none_later bound later (t ∷ ts) past h = ground (arith, none_later bound later ts past.1 h, past.0)

module _ (c : Collection Otp) where
  open c use {Store, docs, find_one_lem, create_lem, delete_one_lem, delete_many_lem}

  sweep-IsSole :
      (phone : String) (o : Option Otp) (t : ℕ) (s : Store)
      → IsSole phone o (docs s)
      → IsSole phone (unless_old t o) (docs (sweep c t s))
  unfolding sweep
  sweep-IsSole phone o t s h =
      rw (delete_many_lem (is_old t) s) (filter-IsSole phone o t (docs s) h)

  sweeps-IsSole :
      (phone : String) (o : Option Otp) (ts : List ℕ) (s : Store)
      → IsSole phone o (docs s)
      → IsSole phone (unless_old_all ts o) (docs (sweeps c ts s))
  sweeps-IsSole phone o [] s h = h
  sweeps-IsSole phone o (t ∷ ts) s h =
      sweeps-IsSole phone (unless_old t o) ts (sweep c t s) (sweep-IsSole phone o t s h)

  store_otp-IsSole :
      (phone otp id : String) (now : ℕ) (s : Store)
      → IsSole phone (some (stored phone otp id now)) (docs (store_otp c phone otp id now s))
  unfolding store_otp
  store_otp-IsSole phone otp id now s =
      let s1 = c.delete_many (has_phone phone) s in
      (
        docs s1,
        rw (delete_many_lem (has_phone phone) s) (filter-Gone phone (docs s)),
        create_lem (stored phone otp id now) s1,
      )

  -- After a code is stored for a number, and whenever the database deletes old records up to then,
  -- a code is accepted exactly if it is that code and at most five minutes have passed. Later that
  -- code has expired, until the database deletes it, five minutes after that at the earliest; then
  -- it is invalid, as any other code is.
  pub verify-store_otp :
      (phone otp given id : String) (now later : ℕ) (ts : List ℕ) (s : Store)
      → All (λ t. t ≤ later) ts
      → (verify_otp c phone given later (sweeps c ts (store_otp c phone otp id now s))).1 ≡ (
          if otp === given
          then (if ltb (now + 300000) later
              then (if any (λ t. leb (now + 300000 + 300000) t) ts
                  then err invalid_otp
                  else err otp_has_expired)
              else ok true)
          else err invalid_otp)
  unfolding verify_otp
  verify-store_otp phone otp given id now later ts s past =
      let r = stored phone otp id now in
      let s1 = sweeps c ts (store_otp c phone otp id now s) in
      let sole = sweeps-IsSole phone (some r) ts _ (store_otp-IsSole phone otp id now s) in
      ground (
        arith,
        find_one_lem (has_code phone given) s1,
        sole_code phone given (unless_old_all ts (some r)) (docs s1) sole
            (Named-all phone r ts refl),
        unless_old_all_lem ts r,
        none_later (now + 300000 + 300000) later ts past,
      )

  -- Storing a code under a new identifier keeps at most one record for each number.
  pub store_otp-Only :
      (phone otp id : String) (now : ℕ) (s : Store)
      → Only (docs s)
      → find (has_id id) (docs s) ≡ none
      → Only (docs (store_otp c phone otp id now s))
  unfolding store_otp
  store_otp-Only phone otp id now s o fresh =
      let r : Otp = record {
        id = id;
        phone_number = phone;
        otp = otp;
        expires_at = now + 300000;
      } in
      let other = λ (x : Otp). not (has_phone phone x) in
      rw (create_lem r (c.delete_many (has_phone phone) s), delete_many_lem (has_phone phone) s)
        (append-Only (filter other (docs s)) r (filter-Only other (docs s) o)
          (filter-Gone phone (docs s)) (find-filter-none (has_id id) other (docs s) fresh))

  -- Checking a code keeps at most one record for each number.
  pub verify_otp-Only :
      (phone otp : String) (now : ℕ) (s : Store)
      → Only (docs s)
      → Only (docs (verify_otp c phone otp now s).0)
  unfolding verify_otp
  verify_otp-Only phone otp now s o = elim (Option-cases (c.find_one (has_code phone otp) s)) [
    | inl e ↦ rw (e, verify_otp) o
    | inr (r, e) ↦
        ground (arith, delete_one_lem (has_id r.id) s, erase-Only (has_id r.id) (docs s) o)
  ]

  -- Where the records are distinct, an accepted code is invalid at every later time.
  pub verify_once :
      (phone otp : String) (now later : ℕ) (s : Store)
      → Only (docs s)
      → (verify_otp c phone otp now s).1 ≡ ok true
      → (verify_otp c phone otp later (verify_otp c phone otp now s).0).1 ≡ err invalid_otp
  unfolding verify_otp
  verify_once phone otp now later s o h = elim (Option-cases (c.find_one (has_code phone otp) s)) [
    | inl e ↦ ground arith
    | inr (r, e) ↦ ground (
      arith,
      find_one_lem (has_code phone otp) s,
      delete_one_lem (has_id r.id) s,
      find_one_lem (has_code phone otp) (c.delete_one (has_id r.id) s),
      find_code_erase phone otp (docs s) r o,
    )
  ]
