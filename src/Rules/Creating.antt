-- ===== src/Rules/Creating.antt =====
-- Which requests a call of `create` turns into rules.
use whataapp_otp_project.Base.{
  ◌≡◌, refl, sym, ◌∙◌, ap, inl, inr, String, Bool, not, List, [], ◌∷◌, ◌++◌, map, find, filter,
  is_some, Option-cases,
}
use mathlib.Core.List.{append_assoc, append-nil}
use whataapp_otp_project.Base.Collection.{Collection}
use whataapp_otp_project.Rules.{
  Rule, CreateRuleDto, conflicts, with_account, new_rules, insert_many, create,
}

-- A request none of whose keywords is stored for the account.
abbrev pub is_fresh : List Rule → String → CreateRuleDto → Bool
is_fresh rs account dto = not (is_some (find (conflicts dto.keywords account) rs))

module _ (c : Collection Rule) where
  new_rules_lem :
      (dtos : List CreateRuleDto) (account : String) (s : c.Store)
      → new_rules c dtos account s
        ≡ map (with_account account) (filter (is_fresh (c.docs s) account) dtos)
  unfolding new_rules
  new_rules_lem [] account s = refl
  new_rules_lem (dto ∷ dtos) account s =
      elim (Option-cases (find (conflicts dto.keywords account) (c.docs s))) [
        | inl e ↦
            let same = c.find_one_lem (conflicts dto.keywords account) s ∙ e in
            rw (new_rules, same, e)
              (ap (λ l. with_account account dto ∷ l) (new_rules_lem dtos account s))
        | inr (r, e) ↦
            let same = c.find_one_lem (conflicts dto.keywords account) s ∙ e in
            rw (new_rules, same, e) (new_rules_lem dtos account s)
      ]

  insert_many_lem : (rs : List Rule) (s : c.Store) → c.docs (insert_many c rs s) ≡ c.docs s ++ rs
  unfolding insert_many
  insert_many_lem [] s = sym (append-nil (c.docs s))
  insert_many_lem (r ∷ rs) s =
      insert_many_lem rs (c.create r s)
      ∙ ap (λ l. l ++ rs) (c.create_lem r s)
      ∙ append_assoc (c.docs s) (r ∷ []) rs

  -- A call of `create` adds, in their order and behind the rules there are, a rule of the account for
  -- each request none of whose keywords was stored for the account, and nothing else.
  pub create_adds :
      (dtos : List CreateRuleDto) (account : String) (s : c.Store)
      → c.docs (create c dtos account s).0
        ≡ c.docs s ++ map (with_account account) (filter (is_fresh (c.docs s) account) dtos)
  unfolding create
  create_adds dtos account s =
      insert_many_lem (new_rules c dtos account s) s
      ∙ ap (λ l. c.docs s ++ l) (new_rules_lem dtos account s)
