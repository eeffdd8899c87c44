-- ===== src/Rules/Steps.antt =====
-- What the stored rules become by the requests of the rules' controller, one after another.
use whataapp_otp_project.Base.{
  ◌≡◌, refl, sym, ◌∙◌, inl, inr, String, false, Option, none, some, List, [], ◌∷◌, find, ◌===◌,
  arith, eq_iff, Option-cases, All, All-imp, find-none-All,
}
use mathlib.Core.List.{append-nil}
use whataapp_otp_project.Base.Pairwise.{All-both, append-Pairwise, erase-Pairwise, modify-Pairwise}
use whataapp_otp_project.Base.Collection.{Collection}
use whataapp_otp_project.Rules.{
  Rule, CreateRuleDto, UpdateRuleDto, has_id, is_of, conflicts, apply_update, find_rule_by_id,
  create, duplicates, write_checked, update_rule, delete_rule, with_account,
}
use whataapp_otp_project.Rules.Creating.{create_adds}
use whataapp_otp_project.Rules.Disjoint.{Apart, Apart-sym, IsDisjoint, Belongs, Free, found-Belongs}

abbrev pub IsNewId : String → List Rule → Type 0
IsNewId id rs = All (λ x. (x.id === id) ≡ false) rs

module _ (c : Collection Rule) where
  -- One request: a rule made under an identifier that is new, one changed, one deleted.
  pub data Step : c.Store → c.Store → Type 0 where
    creates :
        (dto : CreateRuleDto) (account : String) (s : c.Store)
        → IsNewId dto.id (c.docs s)
        → Step s (create c (dto ∷ []) account s).0
    updates :
        (id : String) (dto : UpdateRuleDto) (account : String) (s : c.Store)
        → Step s (update_rule c id dto account s).0
    deletes : (id account : String) (s : c.Store) → Step s (delete_rule c id account s).0

  pub data Reach : c.Store → c.Store → Type 0 where
    here : (s : c.Store) → Reach s s
    after : (s t u : c.Store) → Reach s t → Step t u → Reach s u

  create-IsDisjoint :
      (dto : CreateRuleDto) (account : String) (s : c.Store)
      → IsNewId dto.id (c.docs s)
      → IsDisjoint (c.docs s)
      → IsDisjoint (c.docs (create c (dto ∷ []) account s).0)
  create-IsDisjoint dto account s new d =
      elim (Option-cases (find (conflicts dto.keywords account) (c.docs s))) [
        | inl e ↦
            let free = find-none-All (conflicts dto.keywords account) (c.docs s) e in
            rw (create_adds c (dto ∷ []) account s, e)
              (append-Pairwise Apart (c.docs s) (with_account account dto) d (
                All-imp
                  (λ x. ((x.id === dto.id) ≡ false) × (conflicts dto.keywords account x ≡ false))
                  (λ x. Apart x (with_account account dto)) (c.docs s)
                  (λ x h.
                    Apart-sym (with_account account dto) x
                      (ground (arith, eq_iff x.id dto.id, eq_iff dto.id x.id), h.1))
                  (All-both (λ x. (x.id === dto.id) ≡ false)
                    (λ x. conflicts dto.keywords account x ≡ false) (c.docs s) new free)))
        | inr (r, e) ↦ rw (create_adds c (dto ∷ []) account s, e, append-nil (c.docs s)) d
      ]

  write-IsDisjoint :
      (keywords : Option (List String)) (id : String) (dto : UpdateRuleDto) (account : String)
      (s : c.Store)
      → dto.keywords ≡ keywords
      → All (Belongs id account) (c.docs s)
      → IsDisjoint (c.docs s)
      → IsDisjoint (c.docs (write_checked c keywords id dto account s).0)
  unfolding write_checked apply_update
  write-IsDisjoint none id dto account s k b d =
      rw (c.update_one_lem (has_id id) (apply_update dto) s) (
        modify-Pairwise Apart (has_id id) (apply_update dto) (Belongs id account) (c.docs s)
          Apart-sym (λ x y h b a g. rw k a) d b)
  write-IsDisjoint (some ks) id dto account s k b d =
      elim (Option-cases (c.find_one (duplicates c ks account id) s)) [
        | inr (r, e) ↦ rw e d
        | inl e ↦
            let free =
              find-none-All (duplicates c ks account id) (c.docs s)
                (sym (c.find_one_lem (duplicates c ks account id) s) ∙ e) in
            rw (e, c.update_one_lem (has_id id) (apply_update dto) s)
              (modify-Pairwise Apart (has_id id) (apply_update dto)
                (λ y. Belongs id account y × Free ks account id y) (c.docs s) Apart-sym
                (λ x y h b a g. rw k (
                  ground (
                    arith,
                    b.0,
                    g.1,
                    a.0,
                    a.1,
                    eq_iff x.id id,
                    eq_iff y.id id,
                    eq_iff x.id y.id,
                    eq_iff x.account account,
                  )))
                d (All-both (Belongs id account) (Free ks account id) (c.docs s) b free))
      ]

  update-IsDisjoint :
      (id : String) (dto : UpdateRuleDto) (account : String) (s : c.Store)
      → IsDisjoint (c.docs s)
      → IsDisjoint (c.docs (update_rule c id dto account s).0)
  unfolding update_rule find_rule_by_id
  update-IsDisjoint id dto account s d = elim (Option-cases (c.find_one (is_of id account) s)) [
    | inl e ↦ rw (update_rule, find_rule_by_id, e) d
    | inr (r, e) ↦
        let b =
          found-Belongs id account (c.docs s) r d (sym (c.find_one_lem (is_of id account) s) ∙ e) in
        rw (update_rule, find_rule_by_id, e)
          (write-IsDisjoint dto.keywords id dto account s refl b d)
  ]

  delete-IsDisjoint :
      (id account : String) (s : c.Store)
      → IsDisjoint (c.docs s)
      → IsDisjoint (c.docs (delete_rule c id account s).0)
  unfolding delete_rule find_rule_by_id
  delete-IsDisjoint id account s d = elim (Option-cases (c.find_one (is_of id account) s)) [
    | inl e ↦ rw (delete_rule, find_rule_by_id, e) d
    | inr (r, e) ↦
        rw (delete_rule, find_rule_by_id, e, c.delete_one_lem (is_of id account) s)
          (erase-Pairwise Apart (is_of id account) (c.docs s) d)
  ]

  -- Rules whose identifiers differ, and of which no two of one account share a keyword, stay so
  -- when rules are made one at a time under new identifiers, changed and deleted.
  pub Reach-IsDisjoint : (s t : c.Store) → Reach s t → IsDisjoint (c.docs s) → IsDisjoint (c.docs t)
  Reach-IsDisjoint s _ (here _) d = d
  Reach-IsDisjoint s _ (after _ u _ r (creates dto account _ n)) d =
      create-IsDisjoint dto account u n (Reach-IsDisjoint s u r d)
  Reach-IsDisjoint s _ (after _ u _ r (updates id dto account _)) d =
      update-IsDisjoint id dto account u (Reach-IsDisjoint s u r d)
  Reach-IsDisjoint s _ (after _ u _ r (deletes id account _)) d =
      delete-IsDisjoint id account u (Reach-IsDisjoint s u r d)
