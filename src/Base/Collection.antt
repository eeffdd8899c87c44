-- ===== src/Base/Collection.antt =====
-- A collection of the database, as the services see it through a Mongoose model. The database is
-- no part of the repository: its store and its operations are parameters, and the laws state what
-- its documentation says of each operation, on the list of the documents in natural order.
use mathlib.Core.Path.{◌≡◌, refl}
use mathlib.Core.Bool.{Bool, true, false, not}
use native.Mathlib.Omega.{arith}
use mathlib.Core.List.{List, [], ◌∷◌, ◌++◌, map}
use mathlib.Core.Option.{Option, none, some}
use whataapp_otp_project.Base.Tests.{if◌then◌else◌, is_some}
use whataapp_otp_project.Base.Lists.{filter, find, any}

module _ {ℓ} {D : Type ℓ} where
  -- The first document that passes is changed.
  abbrev pub modify_first : (D → Bool) → (D → D) → List D → List D
  modify_first p f [] = []
  modify_first p f (d ∷ ds) = if p d then f d ∷ ds else d ∷ modify_first p f ds

  -- The first document that passes is removed.
  abbrev pub erase_first : (D → Bool) → List D → List D
  erase_first p [] = []
  erase_first p (d ∷ ds) = if p d then ds else d ∷ erase_first p ds

module _ {ℓ} {D : Type ℓ} where
  -- A change that keeps a test passed is seen by the next search.
  pub find-modify_first :
      (p : D → Bool) (f : D → D) (ds : List D) (d : D)
      → find p ds ≡ some d
      → p (f d) ≡ true
      → find p (modify_first p f ds) ≡ some (f d)
  find-modify_first p f [] d h k = cc
  find-modify_first p f (x ∷ ds) d h k = ground (arith, find-modify_first p f ds d)

  -- A change that keeps another test's verdict does not disturb its search.
  pub find-modify_other :
      (p q : D → Bool) (f : D → D) (ds : List D) (d : D)
      → ((x : D) → q (f x) ≡ q x)
      → find q ds ≡ some d
      → p d ≡ false
      → find q (modify_first p f ds) ≡ some d
  find-modify_other p q f [] d k h o = cc
  find-modify_other p q f (x ∷ ds) d k h o = ground (arith, k x, find-modify_other p q f ds d k)

  pub find-append_some :
      (p : D → Bool) (xs ys : List D) (d : D) → find p xs ≡ some d → find p (xs ++ ys) ≡ some d
  find-append_some p [] ys d h = cc
  find-append_some p (x ∷ xs) ys d h = ground (arith, find-append_some p xs ys d)

  pub find-append_last :
      (p : D → Bool) (xs : List D) (d : D)
      → find p xs ≡ none
      → p d ≡ true
      → find p (xs ++ d ∷ []) ≡ some d
  find-append_last p [] d h k = ground arith
  find-append_last p (x ∷ xs) d h k = ground (arith, find-append_last p xs d)

  pub any-find : (p : D → Bool) (xs : List D) → any p xs ≡ is_some (find p xs)
  any-find p [] = refl
  any-find p (x ∷ xs) = ground (arith, any-find p xs)

pub record Collection (D : Type 0) : Type 1 where
  pub Store : Type 0
  pub docs : Store → List D
  pub find_one : (D → Bool) → Store → Option D
  pub find_all : (D → Bool) → Store → List D
  pub create : D → Store → Store
  pub update_one : (D → Bool) → (D → D) → Store → Store
  pub update_many : (D → Bool) → (D → D) → Store → Store
  pub upsert : (D → Bool) → (D → D) → D → Store → Store
  pub delete_one : (D → Bool) → Store → Store
  pub delete_many : (D → Bool) → Store → Store
  pub find_one_lem : (p : D → Bool) (s : Store) → find_one p s ≡ find p (docs s)
  pub find_all_lem : (p : D → Bool) (s : Store) → find_all p s ≡ filter p (docs s)
  pub create_lem : (d : D) (s : Store) → docs (create d s) ≡ docs s ++ d ∷ []
  pub update_one_lem :
      (p : D → Bool) (f : D → D) (s : Store) → docs (update_one p f s) ≡ modify_first p f (docs s)
  pub update_many_lem :
      (p : D → Bool) (f : D → D) (s : Store)
      → docs (update_many p f s) ≡ map (λ d. if p d then f d else d) (docs s)
  -- The first document that passes is changed, or the given one inserted where none does.
  pub upsert_lem :
      (p : D → Bool) (f : D → D) (d : D) (s : Store)
      → docs (upsert p f d s)
        ≡ (if any p (docs s) then modify_first p f (docs s) else docs s ++ d ∷ [])
  pub delete_one_lem : (p : D → Bool) (s : Store) → docs (delete_one p s) ≡ erase_first p (docs s)
  pub delete_many_lem :
      (p : D → Bool) (s : Store) → docs (delete_many p s) ≡ filter (λ d. not (p d)) (docs s)

-- Every law can hold: documents kept in a list.
abbrev pub in_memory : (D : Type 0) → Collection D
in_memory D = record {
  Store = List D;
  docs = λ s. s;
  find_one = find;
  find_all = filter;
  create = λ d s. s ++ d ∷ [];
  update_one = modify_first;
  update_many = λ p f. map (λ d. if p d then f d else d);
  upsert = λ p f d s. if any p s then modify_first p f s else s ++ d ∷ [];
  delete_one = erase_first;
  delete_many = λ p. filter (λ d. not (p d));
  find_one_lem = λ p s. refl;
  find_all_lem = λ p s. refl;
  create_lem = λ d s. refl;
  update_one_lem = λ p f s. refl;
  update_many_lem = λ p f s. refl;
  upsert_lem = λ p f d s. refl;
  delete_one_lem = λ p s. refl;
  delete_many_lem = λ p s. refl;
}
