-- ===== src/Auth/Sorting.antt =====
-- The keys of an account in the order of their age.
use whataapp_otp_project.Base.{
  ◌≤◌, ◌≡◌, refl, sym, subst, ap, ◌∙◌, inl, inr, ◌⊎◌, Bool, true, false, not, ◌&&◌, List, [], ◌∷◌,
  map, ◌===◌, if◌then◌else◌, leb, filter, All, All-imp, arith, eq_refl, eq_iff, Bool-cases,
}
use mathlib.Core.List.{Memᴰ}
use whataapp_otp_project.Base.Pairwise.{Pairwise}
use whataapp_otp_project.Guards.{ApiKey}
use whataapp_otp_project.Auth.Keys.{insert_by_age, sort_by_age, is_among}

is_among-insert :
    (k d : ApiKey) (ks : List ApiKey)
    → is_among (insert_by_age k ks) d ≡ (if k.id === d.id then true else is_among ks d)
is_among-insert k d [] = refl
is_among-insert k d (j ∷ ks) = ground (arith, is_among-insert k d ks)

pub is_among-sort : (d : ApiKey) (ks : List ApiKey) → is_among (sort_by_age ks) d ≡ is_among ks d
is_among-sort d [] = refl
is_among-sort d (k ∷ ks) = is_among-insert k d (sort_by_age ks) ∙ ground (arith, is_among-sort d ks)

-- What passes a test is among what is left by it.
pub among_filter :
    (p : ApiKey → Bool) (ks : List ApiKey)
    → All (λ k. (p k && not (is_among (filter p ks) k)) ≡ false) ks
among_filter p [] = tt
among_filter p (k ∷ ks) =
    let Q : ApiKey → Type 0 = λ j. (p j && not (is_among (filter p (k ∷ ks)) j)) ≡ false in
    let rest = among_filter p ks in
    let P : ApiKey → Type 0 = λ j. (p j && not (is_among (filter p ks) j)) ≡ false in
    elim (Bool-cases (p k)) [
      | inl e ↦
          let wider : (j : ApiKey) → P j → Q j = λ j h. rw e (ground (arith, h)) in
          (rw e (ground (arith, eq_refl k.id)), All-imp P Q ks wider rest)
      | inr e ↦
          let same : (j : ApiKey) → P j → Q j = λ j h. rw e h in
          (ground (arith, e), All-imp P Q ks same rest)
    ]

-- No two keys have one identifier.
abbrev pub Apart : ApiKey → ApiKey → Type 0
Apart a b = (a.id === b.id) ≡ false

abbrev pub IsIdentified : List ApiKey → Type 0
IsIdentified ks = Pairwise Apart ks

abbrev pub NotAfter : ApiKey → ApiKey → Type 0
NotAfter a b = a.created_at ≤ b.created_at

Memᴰ-cases : {x k : ApiKey} {ks : List ApiKey} → Memᴰ x (k ∷ ks) → (x ≡ k) ⊎ Memᴰ x ks
Memᴰ-cases (Memᴰ.head e) = inl e
Memᴰ-cases (Memᴰ.tail m) = inr m

Memᴰ-insert : (x k : ApiKey) (ks : List ApiKey) → Memᴰ x (insert_by_age k ks) → Memᴰ x (k ∷ ks)
Memᴰ-insert x k [] m = m
Memᴰ-insert x k (j ∷ ks) m = elim (Bool-cases (leb k.created_at j.created_at)) [
  | inl e ↦ rw e at m
  | inr e ↦
      let n : Memᴰ x (j ∷ insert_by_age k ks) = rw e at m in
      elim (Memᴰ-cases n) [
        | inl same ↦ Memᴰ.tail (Memᴰ.head same)
        | inr r ↦ elim (Memᴰ-cases (Memᴰ-insert x k ks r)) [
          | inl same ↦ Memᴰ.head same
          | inr q ↦ Memᴰ.tail (Memᴰ.tail q)
        ]
      ]
]

pub Memᴰ-sort : (x : ApiKey) (ks : List ApiKey) → Memᴰ x (sort_by_age ks) → Memᴰ x ks
Memᴰ-sort x [] m = m
Memᴰ-sort x (k ∷ ks) m = elim (Memᴰ-cases (Memᴰ-insert x k (sort_by_age ks) m)) [
  | inl e ↦ Memᴰ.head e
  | inr r ↦ Memᴰ.tail (Memᴰ-sort x ks r)
]

pub Memᴰ-filter :
    (p : ApiKey → Bool) (x : ApiKey) (ks : List ApiKey)
    → Memᴰ x (filter p ks)
    → Memᴰ x ks × (p x ≡ true)
Memᴰ-filter p x [] m = elim m [ ]
Memᴰ-filter p x (k ∷ ks) m = elim (Bool-cases (p k)) [
  | inr e ↦ let (r, h) = Memᴰ-filter p x ks (rw e at m) in (Memᴰ.tail r, h)
  | inl e ↦
      let n : Memᴰ x (k ∷ filter p ks) = rw e at m in
      elim (Memᴰ-cases n) [
        | inl same ↦ (Memᴰ.head same, subst (λ y. p y ≡ true) (sym same) e)
        | inr r ↦ let (q, h) = Memᴰ-filter p x ks r in (Memᴰ.tail q, h)
      ]
]

pub Memᴰ-map :
    (f : ApiKey → ApiKey) (x : ApiKey) (ks : List ApiKey) → Memᴰ x ks → Memᴰ (f x) (map f ks)
Memᴰ-map f x [] m = elim m [ ]
Memᴰ-map f x (k ∷ ks) (Memᴰ.head e) = Memᴰ.head (ap f e)
Memᴰ-map f x (k ∷ ks) (Memᴰ.tail m) = Memᴰ.tail (Memᴰ-map f x ks m)

module _ (P : ApiKey → Type 0) where
  insert-All : (k : ApiKey) (ks : List ApiKey) → P k → All P ks → All P (insert_by_age k ks)
  insert-All k [] h a = (h, tt)
  insert-All k (j ∷ ks) h a = elim (Bool-cases (leb k.created_at j.created_at)) [
    | inl e ↦ rw e (h, a)
    | inr e ↦ rw e (a.0, insert-All k ks h a.1)
  ]

  All-insert : (k : ApiKey) (ks : List ApiKey) → All P (insert_by_age k ks) → P k × All P ks
  All-insert k [] a = a
  All-insert k (j ∷ ks) a = elim (Bool-cases (leb k.created_at j.created_at)) [
    | inl e ↦ rw e at a
    | inr e ↦
        let b : P j × All P (insert_by_age k ks) = rw e at a in
        let (h, r) = All-insert k ks b.1 in (h, (b.0, r))
  ]

  pub All-sort : (ks : List ApiKey) → All P (sort_by_age ks) → All P ks
  All-sort [] a = tt
  All-sort (k ∷ ks) a = let (h, r) = All-insert k (sort_by_age ks) a in (h, All-sort ks r)

  sort-All : (ks : List ApiKey) → All P ks → All P (sort_by_age ks)
  sort-All [] a = tt
  sort-All (k ∷ ks) a = insert-All k (sort_by_age ks) a.0 (sort-All ks a.1)

  pub All-filter :
      (p : ApiKey → Bool) (ks : List ApiKey) → All P (filter p ks) → All (λ j. p j ≡ true → P j) ks
  All-filter p [] a = tt
  All-filter p (k ∷ ks) a = elim (Bool-cases (p k)) [
    | inl e ↦ let b : P k × All P (filter p ks) = rw e at a in (λ h. b.0, All-filter p ks b.1)
    | inr e ↦ (λ h. absurd (ground (arith, h, e)), All-filter p ks (rw e at a))
  ]

Apart-sym : (a b : ApiKey) → Apart a b → Apart b a
Apart-sym a b h = ground (arith, eq_iff a.id b.id, eq_iff b.id a.id)

insert-IsIdentified :
    (k : ApiKey) (ks : List ApiKey)
    → All (Apart k) ks
    → IsIdentified ks
    → IsIdentified (insert_by_age k ks)
insert-IsIdentified k [] a d = (tt, tt)
insert-IsIdentified k (j ∷ ks) a d = elim (Bool-cases (leb k.created_at j.created_at)) [
  | inl e ↦ rw e (a, d)
  | inr e ↦
      rw e (insert-All (Apart j) k ks (Apart-sym k j a.0) d.0, insert-IsIdentified k ks a.1 d.1)
]

pub sort-IsIdentified : (ks : List ApiKey) → IsIdentified ks → IsIdentified (sort_by_age ks)
sort-IsIdentified [] d = tt
sort-IsIdentified (k ∷ ks) d =
    insert-IsIdentified k (sort_by_age ks) (sort-All (Apart k) ks d.0) (sort-IsIdentified ks d.1)

insert-IsSorted :
    (k : ApiKey) (ks : List ApiKey) → Pairwise NotAfter ks → Pairwise NotAfter (insert_by_age k ks)
insert-IsSorted k [] d = (tt, tt)
insert-IsSorted k (j ∷ ks) d = elim (Bool-cases (leb k.created_at j.created_at)) [
  | inl e ↦
      let le : k.created_at ≤ j.created_at = ground arith in
      rw e ((le, All-imp (NotAfter j) (NotAfter k) ks (λ x h. omega (arith, h, le)) d.0), d)
  | inr e ↦ rw e (insert-All (NotAfter j) k ks (ground arith) d.0, insert-IsSorted k ks d.1)
]

pub sort-IsSorted : (ks : List ApiKey) → Pairwise NotAfter (sort_by_age ks)
sort-IsSorted [] = tt
sort-IsSorted (k ∷ ks) = insert-IsSorted k (sort_by_age ks) (sort-IsSorted ks)

pub not_among : (k : ApiKey) (ks : List ApiKey) → All (Apart k) ks → is_among ks k ≡ false
not_among k [] a = refl
not_among k (j ∷ ks) a = ground (arith, Apart-sym k j a.0, not_among k ks a.1)
