-- ===== src/Base/Texts.antt =====
-- Texts as JavaScript sees them: lists of 16-bit units, with `trim`, `includes` and `startsWith`.
use Prim.Native.Nat.{ℕ, zero, suc, ◌+◌, ◌-◌, ◌/◌, ◌%◌}
use Prim.Native.Char.{code}
use Prim.Native.String.{String}
use mathlib.Core.Bool.{Bool, true, false, ◌&&◌, ◌||◌}
use mathlib.Core.List.{List, [], ◌∷◌, reverse}
use whataapp_otp_project.Base.Tests.{ltb, leb, ◌==◌, if◌then◌else◌}

-- A character beyond the first plane is a pair of surrogates.
unfoldable pub units : String → List ℕ
units String.[] = []
units (String.◌∷◌ c s) =
    let rest = units s in
    if ltb (code c) 0x10000
    then code c ∷ rest
    else (0xd800 + (code c - 0x10000) / 0x400) ∷ (0xdc00 + (code c - 0x10000) % 0x400) ∷ rest

-- The white space of `trim`.
abbrev pub is_space : ℕ → Bool
is_space c =
    (leb 9 c && leb c 13)
    || (c == 32)
    || (c == 160)
    || (c == 0x1680)
    || (leb 0x2000 c && leb c 0x200a)
    || (c == 0x2028)
    || (c == 0x2029)
    || (c == 0x202f)
    || (c == 0x205f)
    || (c == 0x3000)
    || (c == 0xfeff)

unfoldable pub trim_start : List ℕ → List ℕ
trim_start [] = []
trim_start (c ∷ s) = let rest = trim_start s in if is_space c then rest else c ∷ s

unfoldable pub trim : List ℕ → List ℕ
unfolding trim_start
trim s = reverse (trim_start (reverse (trim_start s)))

unfoldable pub starts_with : List ℕ → List ℕ → Bool
starts_with [] s = true
starts_with (d ∷ t) [] = false
starts_with (d ∷ t) (c ∷ s) = (d == c) && starts_with t s

-- `s.includes(t)`
unfoldable pub has_part : List ℕ → List ℕ → Bool
unfolding starts_with
has_part t [] = starts_with t []
has_part t (c ∷ s) = let rest = has_part t s in if starts_with t (c ∷ s) then true else rest

unfoldable pub same_units : List ℕ → List ℕ → Bool
same_units [] [] = true
same_units (d ∷ t) (c ∷ s) = (d == c) && same_units t s
same_units [] (c ∷ s) = false
same_units (d ∷ t) [] = false

-- `s.substring(0, n)`
abbrev pub take {ℓ} : {A : Type ℓ} → ℕ → List A → List A
take zero s = []
take (suc n) [] = []
take (suc n) (c ∷ s) = c ∷ take n s

-- `s.trim()` as a text; the white space stands in the first plane.
unfoldable pub drop_spaces : String → String
drop_spaces String.[] = String.[]
drop_spaces (String.◌∷◌ c s) =
    let rest = drop_spaces s in if is_space (code c) then rest else String.◌∷◌ c s

unfoldable pub drop_last_spaces : String → String
drop_last_spaces String.[] = String.[]
drop_last_spaces (String.◌∷◌ c s) = elim (drop_last_spaces s) [
  | String.[] ↦ if is_space (code c) then String.[] else String.◌∷◌ c String.[]
  | String.◌∷◌ d t ↦ String.◌∷◌ c (String.◌∷◌ d t)
]

unfoldable pub trim_text : String → String
trim_text s = drop_last_spaces (drop_spaces s)
