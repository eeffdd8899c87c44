-- ===== src/Base/Pairwise.antt =====
-- Lists in which a symmetric relation holds between any two elements, under the operations of a
-- collection: what a rule against duplicates keeps.
use mathlib.Core.Path.{◌≡◌, subst}
use mathlib.Core.Logic.{inl, inr}
use mathlib.Core.Bool.{Bool, true, false, not}
use mathlib.Core.List.{List, [], ◌∷◌, ◌++◌}
use mathlib.Core.Option.{some}
use native.Mathlib.Omega.{arith}
use whataapp_otp_project.Base.Tests.{Bool-cases}
use whataapp_otp_project.Base.Lists.{All, All-append, All-imp, filter, find}
use whataapp_otp_project.Base.Collection.{modify_first, erase_first}

module _ {D : Type 0} (P : D → Type 0) where
  pub filter-All : (p : D → Bool) (ds : List D) → All P ds → All P (filter p ds)
  filter-All p [] a = tt
  filter-All p (x ∷ ds) a = elim (Bool-cases (p x)) [
    | inl e ↦ rw e (a.0, filter-All p ds a.1)
    | inr e ↦ rw e (filter-All p ds a.1)
  ]

  pub erase-All : (p : D → Bool) (ds : List D) → All P ds → All P (erase_first p ds)
  erase-All p [] a = tt
  erase-All p (x ∷ ds) a = elim (Bool-cases (p x)) [
    | inl e ↦ rw e a.1
    | inr e ↦ rw e (a.0, erase-All p ds a.1)
  ]

  pub All-find : (p : D → Bool) (ds : List D) (d : D) → All P ds → find p ds ≡ some d → P d
  All-find p [] d a h = absurd cc
  All-find p (x ∷ ds) d a h = elim (Bool-cases (p x)) [
    | inl e ↦ let same : some x ≡ some d = ground arith in subst P (ground arith) a.0
    | inr e ↦ All-find p ds d a.1 (ground arith)
  ]

-- A list without the elements that pass.
pub dropped-All :
    {D : Type 0} (p : D → Bool) (ts : List D) → All (λ t. p t ≡ false) (filter (λ t. not (p t)) ts)
dropped-All p [] = tt
dropped-All p (t ∷ ts) = elim (Bool-cases (p t)) [
  | inl e ↦ rw e (dropped-All p ts)
  | inr e ↦ rw e (e, dropped-All p ts)
]

pub All-both :
    {D : Type 0} (P Q : D → Type 0) (ds : List D) → All P ds → All Q ds → All (λ x. P x × Q x) ds
All-both P Q [] a b = tt
All-both P Q (x ∷ ds) a b = ((a.0, b.0), All-both P Q ds a.1 b.1)

-- A change of the first element that passes, where the others keep what is wanted of it.
modify-All :
    {D : Type 0} (p : D → Bool) (f : D → D) (P Q : D → Type 0) (ds : List D)
    → ((x : D) → p x ≡ true → P x → Q (f x))
    → ((x : D) → P x → Q x)
    → All P ds
    → All Q (modify_first p f ds)
modify-All p f P Q [] changed kept a = tt
modify-All p f P Q (x ∷ ds) changed kept a = elim (Bool-cases (p x)) [
  | inl e ↦ rw e (changed x e a.0, All-imp P Q ds kept a.1)
  | inr e ↦ rw e (kept x a.0, modify-All p f P Q ds changed kept a.1)
]

module _ {D : Type 0} (R : D → D → Type 0) where
  abbrev pub Pairwise : List D → Type 0
  Pairwise [] = Unit
  Pairwise (d ∷ ds) = All (R d) ds × Pairwise ds

  pub append-Pairwise :
      (ds : List D) (d : D) → Pairwise ds → All (λ x. R x d) ds → Pairwise (ds ++ d ∷ [])
  append-Pairwise [] d h a = (tt, tt)
  append-Pairwise (x ∷ ds) d h a =
      (All-append (R x) ds (d ∷ []) h.0 (a.0, tt), append-Pairwise ds d h.1 a.1)

  pub erase-Pairwise : (p : D → Bool) (ds : List D) → Pairwise ds → Pairwise (erase_first p ds)
  erase-Pairwise p [] h = tt
  erase-Pairwise p (x ∷ ds) h = elim (Bool-cases (p x)) [
    | inl e ↦ rw e h.1
    | inr e ↦ rw e (erase-All (R x) p ds h.0, erase-Pairwise p ds h.1)
  ]

  pub filter-Pairwise : (p : D → Bool) (ds : List D) → Pairwise ds → Pairwise (filter p ds)
  filter-Pairwise p [] h = tt
  filter-Pairwise p (x ∷ ds) h = elim (Bool-cases (p x)) [
    | inl e ↦ rw e (filter-All (R x) p ds h.0, filter-Pairwise p ds h.1)
    | inr e ↦ rw e (filter-Pairwise p ds h.1)
  ]

  -- A change that leaves an element related to the elements of which `G` holds.
  pub modify-Pairwise :
      (p : D → Bool) (f : D → D) (G : D → Type 0) (ds : List D)
      → ((x y : D) → R x y → R y x)
      → ((x y : D) → p x ≡ true → G x → R x y → G y → R (f x) y)
      → Pairwise ds
      → All G ds
      → Pairwise (modify_first p f ds)
  modify-Pairwise p f G [] sy fits h g = tt
  modify-Pairwise p f G (x ∷ ds) sy fits h g = elim (Bool-cases (p x)) [
    | inl e ↦ rw e (
      All-imp (λ y. R x y × G y) (R (f x)) ds (λ y a. fits x y e g.0 a.0 a.1)
          (All-both (R x) G ds h.0 g.1),
      h.1,
    )
    | inr e ↦ rw e (
      modify-All p f (λ y. R x y × G y) (R x) ds
          (λ y k a. sy (f y) x (fits y x k a.1 (sy x y a.0) g.0)) (λ y a. a.0)
          (All-both (R x) G ds h.0 g.1),
      modify-Pairwise p f G ds sy fits h.1 g.1,
    )
  ]
