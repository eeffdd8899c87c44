-- ===== src/Templates/Text.antt =====
-- The placeholders `{{name}}` of a text, as the regular expression /\{\{([^}]+)\}\}/g finds them.
use whataapp_otp_project.Base.{
  ℕ, zero, suc, ◌+◌, Option, none, some, List, [], ◌∷◌, ◌++◌, if◌then◌else◌, ◌==◌, any, same_units,
  trim, length,
}

pub data Segment : Type 0 where
  plain : ℕ → Segment
  slot : List ℕ → Segment

abbrev pub opening : List ℕ
opening = 123 ∷ 123 ∷ []

abbrev pub closing : List ℕ
closing = 125 ∷ 125 ∷ []

-- What stands before the first `}`, where another follows it.
unfoldable pub until_close : List ℕ → Option (List ℕ)
until_close [] = none
until_close (c ∷ s) =
    let rest = until_close s in
    if c == 125
    then elim s [ [] ↦ none | d ∷ t ↦ if d == 125 then some [] else none ]
    else elim rest [ none ↦ none | some v ↦ some (c ∷ v) ]

abbrev pub not_empty : Option (List ℕ) → Option (List ℕ)
not_empty none = none
not_empty (some []) = none
not_empty (some (c ∷ v)) = some (c ∷ v)

-- The name in the placeholder at the head of a text.
abbrev pub slot_at : List ℕ → Option (List ℕ)
slot_at [] = none
slot_at (c ∷ []) = none
slot_at (c ∷ d ∷ s) =
    if c == 123 then (if d == 123 then not_empty (until_close s) else none) else none

-- The units and the placeholders of a text from the left; the units that a placeholder has taken are
-- passed over.
unfoldable pub scan : ℕ → List ℕ → List Segment
scan k [] = []
scan (suc k) (c ∷ s) = scan k s
scan zero (c ∷ s) = elim (slot_at (c ∷ s)) [
  | none ↦ plain c ∷ scan 0 s
  | some v ↦ slot v ∷ scan (length v + 3) s
]

abbrev pub written : List ℕ → List ℕ
written v = opening ++ v ++ closing

-- The text with what each variable becomes; a placeholder without a value stays.
abbrev pub or_written : List ℕ → Option (List ℕ) → List ℕ
or_written v none = written v
or_written v (some t) = t

unfoldable pub fill : (List ℕ → Option (List ℕ)) → List Segment → List ℕ
fill value [] = []
fill value (plain c ∷ ss) = c ∷ fill value ss
fill value (slot v ∷ ss) = or_written v (value (trim v)) ++ fill value ss

unfoldable pub render : (List ℕ → Option (List ℕ)) → List ℕ → List ℕ
render value s = fill value (scan 0 s)

-- A set in the order of insertion.
abbrev pub add_name : List ℕ → List (List ℕ) → List (List ℕ)
add_name n ns = if any (λ m. same_units m n) ns then ns else ns ++ n ∷ []

unfoldable pub names_in : List Segment → List (List ℕ) → List (List ℕ)
names_in [] ns = ns
names_in (plain c ∷ ss) ns = names_in ss ns
names_in (slot v ∷ ss) ns = names_in ss (add_name (trim v) ns)

unfoldable pub extract_variables : List ℕ → List (List ℕ)
extract_variables s = names_in (scan 0 s) []
