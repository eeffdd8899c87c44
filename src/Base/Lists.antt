-- ===== src/Base/Lists.antt =====
-- Lists measured by native numbers and filtered by Boolean tests, under the library's names.
use Prim.Native.Nat.{ℕ, zero, suc, ◌+◌, ◌≤◌}
use mathlib.Core.Path.{◌≡◌, refl, sym, ap, ◌∙◌}
use mathlib.Core.Logic.{inl, inr}
use mathlib.Core.Bool.{Bool, true, false}
use mathlib.Core.List.{List, [], ◌∷◌, ◌++◌, map}
use mathlib.Core.Option.{Option, none, some}
use native.Mathlib.Omega.{arith}
use whataapp_otp_project.Base.Tests.{if◌then◌else◌, Bool-cases}

module _ {ℓ} {A : Type ℓ} where
  abbrev pub length : List A → ℕ
  length [] = 0
  length (x ∷ xs) = suc (length xs)

  abbrev pub filter : (A → Bool) → List A → List A
  filter p [] = []
  filter p (x ∷ xs) = if p x then x ∷ filter p xs else filter p xs

  -- `xs.find(p)`: the first element that passes.
  abbrev pub find : (A → Bool) → List A → Option A
  find p [] = none
  find p (x ∷ xs) = if p x then some x else find p xs

  abbrev pub any : (A → Bool) → List A → Bool
  any p [] = false
  any p (x ∷ xs) = if p x then true else any p xs

  abbrev pub count : (A → Bool) → List A → ℕ
  count p [] = 0
  count p (x ∷ xs) = (if p x then 1 else 0) + count p xs

  abbrev pub drop : ℕ → List A → List A
  drop zero xs = xs
  drop (suc n) [] = []
  drop (suc n) (x ∷ xs) = drop n xs

  pub length-append : (xs ys : List A) → length (xs ++ ys) ≡ length xs + length ys
  length-append [] ys = omega arith
  length-append (x ∷ xs) ys = omega (arith, length-append xs ys)

  pub filter-append :
      (p : A → Bool) (xs ys : List A) → filter p (xs ++ ys) ≡ filter p xs ++ filter p ys
  filter-append p [] ys = refl
  filter-append p (x ∷ xs) ys = ground (arith, filter-append p xs ys)

  pub count-append : (p : A → Bool) (xs ys : List A) → count p (xs ++ ys) ≡ count p xs + count p ys
  count-append p [] ys = omega arith
  count-append p (x ∷ xs) ys = omega (arith, count-append p xs ys)

  pub count-le-length : (p : A → Bool) (xs : List A) → count p xs ≤ length xs
  count-le-length p [] = omega arith
  count-le-length p (x ∷ xs) = ground (arith, count-le-length p xs)

  pub find_passes : (p : A → Bool) (xs : List A) {a : A} → find p xs ≡ some a → p a ≡ true
  find_passes p [] h = cc
  find_passes p (x ∷ xs) {a} h = ground (arith, find_passes p xs {a = a})

module _ {ℓ} {A : Type ℓ} where
  pub find-filter-none :
      (q p : A → Bool) (xs : List A) → find q xs ≡ none → find q (filter p xs) ≡ none
  find-filter-none q p [] h = refl
  find-filter-none q p (x ∷ xs) h = ground (arith, find-filter-none q p xs)

  pub find-append_none :
      (q : A → Bool) (xs ys : List A)
      → find q xs ≡ none
      → find q ys ≡ none
      → find q (xs ++ ys) ≡ none
  find-append_none q [] ys h k = k
  find-append_none q (x ∷ xs) ys h k = ground (arith, find-append_none q xs ys)

  -- What one search finds and another does not fails the other's test.
  pub fails_of_find :
      (p q : A → Bool) (xs : List A) (a : A) → find p xs ≡ none → find q xs ≡ some a → p a ≡ false
  fails_of_find p q [] a h k = cc
  fails_of_find p q (x ∷ xs) a h k = ground (arith, fails_of_find p q xs a)

module _ {ℓ κ} {A : Type ℓ} (P : A → Type κ) where
  abbrev pub All : List A → Type κ
  All [] = Unit
  All (x ∷ xs) = P x × All xs

  pub All-append : (xs ys : List A) → All xs → All ys → All (xs ++ ys)
  All-append [] ys hx hy = hy
  All-append (x ∷ xs) ys hx hy = (hx.0, All-append xs ys hx.1 hy)

pub All-imp {ℓ κ κ'} :
    {A : Type ℓ} (P : A → Type κ) (Q : A → Type κ') (xs : List A)
    → ((a : A) → P a → Q a)
    → All P xs
    → All Q xs
All-imp P Q [] f h = tt
All-imp P Q (x ∷ xs) f h = (f x h.0, All-imp P Q xs f h.1)

module _ {ℓ κ} {A : Type ℓ} {B : Type κ} where
  pub length-map : (xs : List A) (f : A → B) → length (map f xs) ≡ length xs
  length-map [] f = refl
  length-map (x ∷ xs) f = ap suc (length-map xs f)

-- The first element that passes a test, with what stands before and after it.
pub record Earliest {ℓ} {A : Type ℓ} (p : A → Bool) (xs : List A) (a : A) : Type ℓ where
  pub before : List A
  pub after : List A
  pub split : xs ≡ before ++ a ∷ after
  pub missed : All (λ x. p x ≡ false) before
  pub hit : p a ≡ true

module _ {ℓ} {A : Type ℓ} (p : A → Bool) where
  pub find-Earliest : (xs : List A) (a : A) → find p xs ≡ some a → Earliest p xs a
  find-Earliest [] a h = absurd cc
  find-Earliest (x ∷ xs) a h = elim (Bool-cases (p x)) [
    | inl e ↦
        let same : x ≡ a = ground arith in
        record {
          before = [];
          after = xs;
          split = ap (λ b. b ∷ xs) same;
          missed = tt;
          hit = ap p (sym same) ∙ e;
        }
    | inr e ↦
        let r = find-Earliest xs a (ground arith) in
        record {
          before = x ∷ r.before;
          after = r.after;
          split = ap (λ l. x ∷ l) r.split;
          missed = (e, r.missed);
          hit = r.hit;
        }
  ]

  pub find-none-All : (xs : List A) → find p xs ≡ none → All (λ x. p x ≡ false) xs
  find-none-All [] h = tt
  find-none-All (x ∷ xs) h = ground (arith, find-none-All xs)

  pub All-find-none : (xs : List A) → All (λ x. p x ≡ false) xs → find p xs ≡ none
  All-find-none [] h = refl
  All-find-none (x ∷ xs) h = ground (arith, All-find-none xs h.1)
