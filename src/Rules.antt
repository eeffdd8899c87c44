-- ===== src/Rules.antt =====
-- src/modules/rules/rules.service.ts: the keyword rules of an account. `toLowerCase` goes by a table
-- of the language's runtime and is a parameter of what compares texts.
pub mod Creating
pub mod Disjoint
pub mod Matching
pub mod Steps
mod Tests
use whataapp_otp_project.Base.{
  ℕ, String, Bool, true, false, not, ◌&&◌, Option, none, some, List, [], ◌∷◌, ◌++◌, ◌===◌,
  if◌then◌else◌, any, find, is_some, or_keep, units, trim, has_part, same_units,
}
use whataapp_otp_project.Base.Collection.{Collection}

-- schema/rules.schema.ts
pub record Rule : Type 0 where
  pub id : String
  pub keywords : List String
  pub response : String
  pub account : String

-- The identifier is the one that the database gives to the new rule.
pub record CreateRuleDto : Type 0 where
  pub id : String
  pub keywords : List String
  pub response : String

pub record UpdateRuleDto : Type 0 where
  pub keywords : Option (List String)
  pub response : Option String

pub data RuleError : Type 0 where
  rule_not_found : RuleError
  keyword_conflict : RuleError

pub data Result {ℓ} (A : Type ℓ) : Type ℓ where
  ok : A → Result A
  err : RuleError → Result A

abbrev pub of_account : String → Rule → Bool
of_account account r = r.account === account

abbrev pub has_id : String → Rule → Bool
has_id id r = r.id === id

abbrev pub is_of : String → String → Rule → Bool
is_of id account r = has_id id r && of_account account r

-- `keywords: { $in: ks }`
abbrev pub shares : List String → Rule → Bool
shares ks r = any (λ k. any (λ j. j === k) r.keywords) ks

abbrev pub conflicts : List String → String → Rule → Bool
conflicts ks account r = shares ks r && of_account account r

abbrev pub with_account : String → CreateRuleDto → Rule
with_account account dto = record {
  id = dto.id;
  keywords = dto.keywords;
  response = dto.response;
  account = account;
}

unfoldable pub apply_update : UpdateRuleDto → Rule → Rule
apply_update dto r = record r {
  keywords = or_keep r.keywords dto.keywords;
  response = or_keep r.response dto.response;
}

module _ (lower : String → String) where
  -- `text.toLowerCase().trim()`
  abbrev pub normal : String → List ℕ
  normal s = trim (units (lower s))

  abbrev pub says : List ℕ → Rule → Bool
  says m r = any (λ k. same_units m (normal k)) r.keywords

  abbrev pub mentions : List ℕ → Rule → Bool
  mentions m r = any (λ k. has_part (normal k) m) r.keywords

module _ (c : Collection Rule) where
  -- The loop over the requests looks at the rules that are stored, not at those before it.
  unfoldable pub new_rules : List CreateRuleDto → String → c.Store → List Rule
  new_rules [] account s = []
  new_rules (dto ∷ dtos) account s =
      let rest = new_rules dtos account s in
      elim (c.find_one (conflicts dto.keywords account) s) [
        | none ↦ with_account account dto ∷ rest
        | some r ↦ rest
      ]

  unfoldable pub insert_many : List Rule → c.Store → c.Store
  insert_many [] s = s
  insert_many (r ∷ rs) s = insert_many rs (c.create r s)

  unfoldable pub find_all_rules : String → c.Store → List Rule
  find_all_rules account s = c.find_all (of_account account) s

  unfoldable pub create : List CreateRuleDto → String → c.Store → c.Store × List Rule
  create dtos account s =
      let s1 = insert_many (new_rules dtos account s) s in (s1, find_all_rules account s1)

  unfoldable pub find_rule_by_id : String → String → c.Store → Result Rule
  find_rule_by_id id account s = elim (c.find_one (is_of id account) s) [
    | none ↦ err rule_not_found
    | some r ↦ ok r
  ]

  abbrev pub write : String → UpdateRuleDto → c.Store → c.Store
  write id dto s = c.update_one (has_id id) (apply_update dto) s

  -- `keywords: { $in: ks }, account, _id: { $ne: id }`
  abbrev pub duplicates : List String → String → String → Rule → Bool
  duplicates ks account id r = conflicts ks account r && not (has_id id r)

  unfoldable pub write_checked :
      Option (List String) → String → UpdateRuleDto → String → c.Store → c.Store × Result (Unit {0})
  write_checked none id dto account s = (write id dto s, ok tt)
  write_checked (some ks) id dto account s =
      if is_some (c.find_one (duplicates ks account id) s)
      then (s, err keyword_conflict)
      else (write id dto s, ok tt)

  unfoldable pub update_rule :
      String → UpdateRuleDto → String → c.Store → c.Store × Result (Unit {0})
  update_rule id dto account s = elim (find_rule_by_id id account s) [
    | err e ↦ (s, err e)
    | ok r ↦ write_checked dto.keywords id dto account s
  ]

  unfoldable pub delete_rule : String → String → c.Store → c.Store × Result (Unit {0})
  delete_rule id account s = elim (find_rule_by_id id account s) [
    | err e ↦ (s, err e)
    | ok r ↦ (c.delete_one (is_of id account) s, ok tt)
  ]

  unfoldable pub find_matching_rule : (String → String) → String → String → c.Store → Option Rule
  find_matching_rule lower message account s =
      let rules = find_all_rules account s in
      elim (find (says lower (normal lower message)) rules) [
        | some r ↦ some r
        | none ↦ find (mentions lower (normal lower message)) rules
      ]
