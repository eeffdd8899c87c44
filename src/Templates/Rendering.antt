-- ===== src/Templates/Rendering.antt =====
-- What a template renders to.
use whataapp_otp_project.Base.{
  ℕ, zero, suc, ◌+◌, ◌≡◌, refl, sym, subst, ◌∙◌, ap, inl, inr, true, Option, none, some, List, [],
  ◌∷◌, ◌++◌, ◌==◌, any, same_units, trim, length, length-append, drop, arith, Bool-cases,
  Option-cases, All,
}
use whataapp_otp_project.Templates.Text.{
  Segment, plain, slot, opening, closing, until_close, slot_at, scan, written, or_written, fill,
  render, add_name, names_in, extract_variables,
}

inner_of : (c d : ℕ) (s v : List ℕ) → slot_at (c ∷ d ∷ s) ≡ some v → until_close s ≡ some v
inner_of c d s v h = elim (Option-cases (until_close s)) [
  | inl e ↦ absurd (ground arith)
  | inr ([], e) ↦ absurd (ground arith)
  | inr (x ∷ w, e) ↦ ground arith
]

until_close-split : (s v : List ℕ) → until_close s ≡ some v → (t : List ℕ) × (s ≡ v ++ closing ++ t)
unfolding until_close
until_close-split [] v h = absurd cc
until_close-split (c ∷ []) v h = absurd (ground arith)
until_close-split (c ∷ d ∷ s) v h = elim (Bool-cases (c == 125)) [
  | inl e ↦ elim (Bool-cases (d == 125)) [
    | inl f ↦
        let c-is : c ≡ 125 = ground arith in
        let d-is : d ≡ 125 = ground arith in
        let v-is : v ≡ [] = ground arith in (s, rw (c-is, d-is, v-is) refl)
    | inr f ↦ absurd (ground arith)
  ]
  | inr e ↦ elim (Option-cases (until_close (d ∷ s))) [
    | inl f ↦ absurd (ground arith)
    | inr (w, f) ↦
        let v-is : v ≡ c ∷ w = ground arith in
        let rest = until_close-split (d ∷ s) w f in (rest.0, rw v-is (ap (λ l. c ∷ l) rest.1))
  ]
]

slot_at-split : (s v : List ℕ) → slot_at s ≡ some v → (t : List ℕ) × (s ≡ written v ++ t)
slot_at-split [] v h = absurd cc
slot_at-split (c ∷ []) v h = absurd cc
slot_at-split (c ∷ d ∷ s) v h =
    let c-is : c ≡ 123 = ground arith in
    let d-is : d ≡ 123 = ground arith in
    let inner : until_close s ≡ some v = inner_of c d s v h in
    let rest = until_close-split s v inner in
    (rest.0, rw (c-is, d-is) (ap (λ l. opening ++ l) rest.1))

drop-append : (xs t : List ℕ) → drop (length xs) (xs ++ t) ≡ t
drop-append [] t = refl
drop-append (x ∷ xs) t = drop-append xs t

length-written : (v : List ℕ) → length (written v) ≡ suc (length v + 3)
length-written v = omega (arith, length-append v closing)

-- The variables without values: every placeholder stays.
abbrev pub no_values : List ℕ → Option (List ℕ)
no_values n = none

fill-scan : (k : ℕ) (s : List ℕ) → fill no_values (scan k s) ≡ drop k s
unfolding fill scan
fill-scan zero [] = refl
fill-scan (suc k) [] = refl
fill-scan (suc k) (c ∷ s) = fill-scan k s
fill-scan zero (c ∷ s) = elim (Option-cases (slot_at (c ∷ s))) [
  | inl e ↦ rw (scan, e) (ap (λ l. c ∷ l) (fill-scan 0 s))
  | inr (v, e) ↦
      let split = slot_at-split (c ∷ s) v e in
      let t = split.0 in
      let dropped : drop (length v + 3) s ≡ t =
        ap (drop (suc (length v + 3))) split.1
        ∙ subst (λ n. drop n (written v ++ t) ≡ t) (length-written v) (drop-append (written v) t) in
      rw (scan, e) (ap (λ l. written v ++ l) (fill-scan (length v + 3) s ∙ dropped) ∙ sym split.1)
]

-- A template is rendered unchanged where no variable has a value.
pub render_without_values : (s : List ℕ) → render no_values s ≡ s
unfolding render
render_without_values s = fill-scan 0 s

same_units-eq : (s t : List ℕ) → same_units s t ≡ true → s ≡ t
unfolding same_units
same_units-eq [] [] h = refl
same_units-eq [] (c ∷ t) h = absurd cc
same_units-eq (d ∷ s) [] h = absurd cc
same_units-eq (d ∷ s) (c ∷ t) h =
    let heads : d ≡ c = ground arith in
    rw heads (ap (λ l. c ∷ l) (same_units-eq s t (ground arith)))

module _ (P : List ℕ → Type 0) where
  any-All : (n : List ℕ) (ns : List (List ℕ)) → any (λ m. same_units m n) ns ≡ true → All P ns → P n
  any-All n [] h a = absurd cc
  any-All n (m ∷ ns) h a = elim (Bool-cases (same_units m n)) [
    | inl e ↦ subst P (same_units-eq m n e) a.0
    | inr e ↦ any-All n ns (ground arith) a.1
  ]

  last-All : (ns : List (List ℕ)) (n : List ℕ) → All P (ns ++ n ∷ []) → All P ns × P n
  last-All [] n a = (tt, a.0)
  last-All (m ∷ ns) n a = let r = last-All ns n a.1 in ((a.0, r.0), r.1)

  add_name-All : (n : List ℕ) (ns : List (List ℕ)) → All P (add_name n ns) → All P ns × P n
  add_name-All n ns = elim (Bool-cases (any (λ m. same_units m n) ns)) [
    | inl e ↦ rw e (λ a. (a, any-All n ns e a))
    | inr e ↦ rw e (last-All ns n)
  ]

  names_in-All : (ss : List Segment) (ns : List (List ℕ)) → All P (names_in ss ns) → All P ns
  unfolding names_in
  names_in-All [] ns a = a
  names_in-All (plain c ∷ ss) ns a = names_in-All ss ns a
  names_in-All (slot v ∷ ss) ns a =
      (add_name-All (trim v) ns (names_in-All ss (add_name (trim v) ns) a)).0

fill_agrees :
    (value value' : List ℕ → Option (List ℕ)) (ss : List Segment) (ns : List (List ℕ))
    → All (λ n. value n ≡ value' n) (names_in ss ns)
    → fill value ss ≡ fill value' ss
unfolding fill names_in
fill_agrees value value' [] ns a = refl
fill_agrees value value' (plain c ∷ ss) ns a = ap (λ l. c ∷ l) (fill_agrees value value' ss ns a)
fill_agrees value value' (slot v ∷ ss) ns a =
    let P : List ℕ → Type 0 = λ n. value n ≡ value' n in
    let here = (add_name-All P (trim v) ns (names_in-All P ss (add_name (trim v) ns) a)).1 in
    ap (λ o. or_written v o ++ fill value ss) here
    ∙ ap (λ l. or_written v (value' (trim v)) ++ l)
        (fill_agrees value value' ss (add_name (trim v) ns) a)

-- Two sets of values that agree on the variables extracted from a template render it alike.
pub render_agrees :
    (value value' : List ℕ → Option (List ℕ)) (s : List ℕ)
    → All (λ n. value n ≡ value' n) (extract_variables s)
    → render value s ≡ render value' s
unfolding render extract_variables
render_agrees value value' s a = fill_agrees value value' (scan 0 s) [] a
