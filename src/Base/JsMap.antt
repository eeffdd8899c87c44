-- ===== src/Base/JsMap.antt =====
-- JavaScript's `Map` with string keys: its entries in insertion order, each key once.
use Prim.Native.String.{String}
use mathlib.Core.Path.{◌≡◌, refl}
use mathlib.Core.Bool.{Bool}
use mathlib.Core.List.{List, [], ◌∷◌}
use mathlib.Core.Option.{Option, none, some}
use native.Mathlib.Omega.{arith}
use text.Mathlib.TextEquality.{eq_iff}
use text.Mathlib.TextPositions.{eq_refl}
use whataapp_otp_project.Base.Tests.{◌===◌, if◌then◌else◌}

module _ {ℓ} {V : Type ℓ} where
  unfoldable pub get : String → List (String × V) → Option V
  get k [] = none
  get k ((j, v) ∷ m) = if j === k then some v else get k m

  -- `map.set(k, v)`: an old key keeps its place, a new one goes last.
  unfoldable pub set : String → V → List (String × V) → List (String × V)
  set k v [] = (k, v) ∷ []
  set k v ((j, w) ∷ m) = if j === k then (k, v) ∷ m else (j, w) ∷ set k v m

  unfoldable pub delete : String → List (String × V) → List (String × V)
  delete k [] = []
  delete k ((j, w) ∷ m) = if j === k then delete k m else (j, w) ∷ delete k m

  -- A loop over `map.entries()` that deletes the entries failing a test.
  unfoldable pub retain : (String → V → Bool) → List (String × V) → List (String × V)
  retain p [] = []
  retain p ((j, w) ∷ m) = if p j w then (j, w) ∷ retain p m else retain p m

  abbrev pub IsKeyed : List (String × V) → Type ℓ
  IsKeyed [] = Unit
  IsKeyed ((j, w) ∷ m) = (get j m ≡ none) × IsKeyed m

  pub get-set :
      (k j : String) (v : V) (m : List (String × V))
      → get j (set k v m) ≡ (if k === j then some v else get j m)
  unfolding get set
  get-set k j v [] = refl
  get-set k j v ((i, w) ∷ m) = ground (arith, eq_iff k j, eq_iff i k, eq_iff i j, get-set k j v m)

  pub set-set : (k : String) (v w : V) (m : List (String × V)) → set k w (set k v m) ≡ set k w m
  unfolding set
  set-set k v w [] = ground (arith, eq_refl k)
  set-set k v w ((i, x) ∷ m) = ground (arith, eq_refl k, eq_iff i k, set-set k v w m)

  pub get-delete :
      (k j : String) (m : List (String × V))
      → get j (delete k m) ≡ (if k === j then none else get j m)
  unfolding get delete
  get-delete k j [] = ground arith
  get-delete k j ((i, w) ∷ m) = ground (arith, eq_iff k j, eq_iff i k, eq_iff i j, get-delete k j m)

  pub get-retain-none :
      (p : String → V → Bool) (j : String) (m : List (String × V))
      → get j m ≡ none
      → get j (retain p m) ≡ none
  unfolding get retain
  get-retain-none p j [] h = refl
  get-retain-none p j ((i, w) ∷ m) h = ground (arith, get-retain-none p j m)

  -- A retained value passed the test; a dropped one failed it.
  pub get-retain :
      (p : String → V → Bool) (j : String) (m : List (String × V))
      → IsKeyed m
      → get j (retain p m)
        ≡ elim (get j m) [ none ↦ none | some v ↦ if p j v then some v else none ]
  unfolding get retain
  get-retain p j [] u = refl
  get-retain p j ((i, w) ∷ m) u =
      ground (arith, eq_iff i j, get-retain p j m u.1, get-retain-none p j m)

  pub set-IsKeyed : (k : String) (v : V) (m : List (String × V)) → IsKeyed m → IsKeyed (set k v m)
  unfolding set get
  set-IsKeyed k v [] u = (refl, tt)
  set-IsKeyed k v ((i, w) ∷ m) u =
      ground (arith, eq_iff i k, eq_iff k i, set-IsKeyed k v m u.1, get-set k i v m)

  pub delete-IsKeyed : (k : String) (m : List (String × V)) → IsKeyed m → IsKeyed (delete k m)
  unfolding delete
  delete-IsKeyed k [] u = tt
  delete-IsKeyed k ((i, w) ∷ m) u = ground (arith, delete-IsKeyed k m u.1, get-delete k i m)

  pub retain-IsKeyed :
      (p : String → V → Bool) (m : List (String × V)) → IsKeyed m → IsKeyed (retain p m)
  unfolding retain
  retain-IsKeyed p [] u = tt
  retain-IsKeyed p ((i, w) ∷ m) u = ground (arith, retain-IsKeyed p m u.1, get-retain-none p i m)
