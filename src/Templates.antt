-- ===== src/Templates.antt =====
-- src/modules/templates/templates.service.ts: message templates with variables. A text is the list of
-- its 16-bit units. The times of use, the tags and the type of a template are left out, and so are the
-- readings that search, page and group in the database.
pub mod Text
pub mod Rendering
mod Tests
use whataapp_otp_project.Base.{
  ℕ, zero, suc, ◌+◌, String, Bool, true, false, not, ◌&&◌, Option, none, some, List, [], ◌∷◌, ◌++◌,
  ◌===◌, if◌then◌else◌, is_some, or_keep, same_units, map,
}
use whataapp_otp_project.Base.Collection.{Collection}
use whataapp_otp_project.Templates.Text.{extract_variables, render}

-- What is kept for a variable, by its name.
abbrev pub Values : Type 0
Values = List (List ℕ × List ℕ)

unfoldable pub value_of : List ℕ → Values → Option (List ℕ)
value_of name [] = none
value_of name ((n, v) ∷ vs) = if same_units n name then some v else value_of name vs

pub record Template : Type 0 where
  pub id : String
  pub name : String
  pub content : List ℕ
  pub account : String
  pub variables : Values
  pub usage_count : ℕ

-- The identifier is the one that the database gives to the new template.
pub record CreateTemplateDto : Type 0 where
  pub id : String
  pub name : String
  pub content : List ℕ

pub record UpdateTemplateDto : Type 0 where
  pub name : Option String
  pub content : Option (List ℕ)
  pub variables : Option Values

pub data TemplateError : Type 0 where
  name_exists : TemplateError
  template_not_found : TemplateError

pub data Result {ℓ} (A : Type ℓ) : Type ℓ where
  ok : A → Result A
  err : TemplateError → Result A

abbrev pub has_id : String → Template → Bool
has_id id t = t.id === id

abbrev pub is_of : String → String → Template → Bool
is_of id account t = has_id id t && (t.account === account)

abbrev pub is_named : String → String → Template → Bool
is_named name account t = (t.name === name) && (t.account === account)

unfoldable pub new_template : CreateTemplateDto → String → Template
new_template dto account = record {
  id = dto.id;
  name = dto.name;
  content = dto.content;
  account = account;
  variables = map (λ v. (v, [])) (extract_variables dto.content);
  usage_count = 0;
}

-- `existingVars[name] || ''`
abbrev pub or_blank : Option (List ℕ) → List ℕ
or_blank none = []
or_blank (some v) = v

-- The variables of the new text, each with the value that it had.
unfoldable pub merge_variables : List (List ℕ) → Values → Values
merge_variables [] vs = []
merge_variables (n ∷ ns) vs = (n, or_blank (value_of n vs)) ∷ merge_variables ns vs

-- An empty text is no text.
abbrev pub with_variables : UpdateTemplateDto → Template → UpdateTemplateDto
with_variables dto t = elim dto.content [
  | none ↦ dto
  | some [] ↦ dto
  | some (c ∷ s) ↦ record dto {
    variables = some (merge_variables (extract_variables (c ∷ s)) t.variables);
  }
]

unfoldable pub apply_update : UpdateTemplateDto → Template → Template
apply_update dto t = record t {
  name = or_keep t.name dto.name;
  content = or_keep t.content dto.content;
  variables = or_keep t.variables dto.variables;
}

-- Whether another template of the account has the new name, where the name changes.
abbrev pub renames : Option String → Template → Option String
renames none t = none
renames (some n) t = if (n === "") then none else (if n === t.name then none else some n)

module _ (c : Collection Template) where
  unfoldable pub create : CreateTemplateDto → String → c.Store → c.Store × Result Template
  create dto account s =
      if is_some (c.find_one (is_named dto.name account) s)
      then (s, err name_exists)
      else (c.create (new_template dto account) s, ok (new_template dto account))

  unfoldable pub find_by_id : String → String → c.Store → Result Template
  find_by_id id account s = elim (c.find_one (is_of id account) s) [
    | none ↦ err template_not_found
    | some t ↦ ok t
  ]

  abbrev pub write : String → UpdateTemplateDto → Template → c.Store → c.Store × Result (Unit {0})
  write id dto t s = (c.update_one (has_id id) (apply_update (with_variables dto t)) s, ok tt)

  abbrev pub write_named :
      Option String
      → String
      → UpdateTemplateDto
      → String
      → Template
      → c.Store
      → c.Store × Result (Unit {0})
  write_named none id dto account t s = write id dto t s
  write_named (some n) id dto account t s =
      if is_some (c.find_one (λ u. is_named n account u && not (has_id id u)) s)
      then (s, err name_exists)
      else write id dto t s

  unfoldable pub update :
      String → UpdateTemplateDto → String → c.Store → c.Store × Result (Unit {0})
  update id dto account s = elim (find_by_id id account s) [
    | err e ↦ (s, err e)
    | ok t ↦ write_named (renames dto.name t) id dto account t s
  ]

  unfoldable pub delete : String → String → c.Store → c.Store × Result (Unit {0})
  delete id account s = elim (find_by_id id account s) [
    | err e ↦ (s, err e)
    | ok t ↦ (c.delete_one (is_of id account) s, ok tt)
  ]

  abbrev pub count_use : Template → Template
  count_use t = record t { usage_count = t.usage_count + 1 }

  unfoldable pub render_template : String → Values → String → c.Store → c.Store × Result (List ℕ)
  render_template id values account s = elim (find_by_id id account s) [
    | err e ↦ (s, err e)
    | ok t ↦
        (c.update_one (has_id t.id) count_use s, ok (render (λ n. value_of n values) t.content))
  ]

  -- A default that is stored, by its name, is passed over.
  unfoldable pub create_default_templates : List CreateTemplateDto → String → c.Store → c.Store
  create_default_templates [] account s = s
  create_default_templates (dto ∷ dtos) account s =
      let s1 =
        if is_some (c.find_one (is_named dto.name account) s)
        then s
        else (create dto account s).0 in
      create_default_templates dtos account s1
