-- ===== src/AutoResponder/Score.antt =====
-- src/modules/auto-responder/auto-responder.service.ts: how well a rule fits a message, and the rule
-- that fits best. Texts are lists of 16-bit units; `fold` is the case folding of the language's
-- regular expressions, a table of its runtime.
use whataapp_otp_project.Base.{
  ℕ, ◌+◌, ◌/◌, String, Bool, true, false, not, ◌&&◌, ◌||◌, Option, none, some, List, [], ◌∷◌,
  if◌then◌else◌, ltb, leb, ◌==◌, length, has_part, same_units,
}
use whataapp_otp_project.Rules.{Rule, normal}

-- `\w`, without the flag for Unicode.
abbrev pub is_word : ℕ → Bool
is_word c = (leb 48 c && leb c 57) || (leb 65 c && leb c 90) || (c == 95) || (leb 97 c && leb c 122)

abbrev pub head_is_word : List ℕ → Bool
head_is_word [] = false
head_is_word (c ∷ s) = is_word c

abbrev pub differ : Bool → Bool → Bool
differ true b = not b
differ false b = b

module _ (fold : ℕ → ℕ) where
  -- Whether the keyword stands at the head of the text, in any case, and a word ends behind it;
  -- `before` tells whether the unit before the rest of the text is of a word.
  unfoldable pub ends_word : Bool → List ℕ → List ℕ → Bool
  ends_word before [] s = differ before (head_is_word s)
  ends_word before (d ∷ k) [] = false
  ends_word before (d ∷ k) (c ∷ s) = (fold d == fold c) && ends_word (is_word c) k s

  abbrev pub starts_word : Bool → List ℕ → List ℕ → Bool
  starts_word before k s = differ before (head_is_word s) && ends_word before k s

  -- `new RegExp("\\b" + escape(keyword) + "\\b", "i").test(text)`, from a place in the text.
  unfoldable pub word_from : Bool → List ℕ → List ℕ → Bool
  word_from before k [] = starts_word before k []
  word_from before k (c ∷ s) =
      let rest = word_from (is_word c) k s in if starts_word before k (c ∷ s) then true else rest

  abbrev pub has_word : List ℕ → List ℕ → Bool
  has_word k s = word_from false k s

-- The loop over the places that both texts have; it stops at one difference too many.
unfoldable pub few_differences : ℕ → List ℕ → List ℕ → ℕ → Bool
few_differences most [] k d = leb d most
few_differences most (c ∷ s) [] d = leb d most
few_differences most (c ∷ s) (e ∷ k) d =
    let next = if c == e then d else d + 1 in
    let rest = few_differences most s k next in
    if c == e then rest else (if ltb most next then false else rest)

unfoldable pub fuzzy_match : List ℕ → List ℕ → Bool
fuzzy_match text keyword =
    if ltb (length keyword) 3 then false else few_differences (length keyword / 4) text keyword 0

module _ (fold : ℕ → ℕ) where
  unfoldable pub keyword_score : List ℕ → List ℕ → ℕ
  keyword_score message k =
      if same_units message k
      then 100
      else (if has_word fold k message
          then 50
          else (if has_part k message then 25 else (if fuzzy_match message k then 10 else 0)))

module _ (lower : String → String) (fold : ℕ → ℕ) where
  unfoldable pub score_of : List ℕ → List String → ℕ
  score_of message [] = 0
  score_of message (k ∷ ks) = keyword_score fold message (normal lower k) + score_of message ks

  abbrev pub calculate_rule_match_score : List ℕ → Rule → ℕ
  calculate_rule_match_score message r = score_of message r.keywords

-- The loop that keeps the first of the best.
unfoldable pub best_from : (Rule → ℕ) → Option Rule → ℕ → List Rule → Option Rule
best_from score best n [] = if ltb 0 n then best else none
best_from score best n (r ∷ rs) =
    let b = if ltb n (score r) then some r else best in
    let m = if ltb n (score r) then score r else n in best_from score b m rs

module _ (lower : String → String) (fold : ℕ → ℕ) where
  -- The rules are none where they could not be read.
  unfoldable pub find_best_matching_rule : String → Option (List Rule) → Option Rule
  find_best_matching_rule message none = none
  find_best_matching_rule message (some rs) =
      best_from (calculate_rule_match_score lower fold (normal lower message)) none 0 rs
