-- ===== src/Accounts/Numbers.antt =====
-- The stored accounts differ in identifier and phone number.
use whataapp_otp_project.Base.{
  ◌≡◌, refl, sym, ◌∙◌, inl, inr, String, true, false, Option, none, some, List, is_some, ◌===◌,
  arith, eq_iff, Option-cases, Bool-cases, All, find-none-All,
}
use whataapp_otp_project.Base.Pairwise.{
  Pairwise, All-both, append-Pairwise, erase-Pairwise, modify-Pairwise,
}
use whataapp_otp_project.Base.Collection.{Collection}
use whataapp_otp_project.Accounts.{
  Account, CreateAccountDto, UpdateAccountDto, has_id, has_number, new_account, apply_update,
  is_duplicate, create, update_account, delete_account,
}

abbrev pub Apart : Account → Account → Type 0
Apart a b = ((a.id === b.id) ≡ false) × ((a.phone_number === b.phone_number) ≡ false)

abbrev pub IsDistinct : List Account → Type 0
IsDistinct xs = Pairwise Apart xs

Apart-sym : (a b : Account) → Apart a b → Apart b a
Apart-sym a b h = ground (
  arith,
  eq_iff a.id b.id,
  eq_iff b.id a.id,
  eq_iff a.phone_number b.phone_number,
  eq_iff b.phone_number a.phone_number,
)

-- What a change of a phone number must leave alone.
abbrev Other : Option String → String → Account → Type 0
Other number id a = is_duplicate number id a ≡ false

changed-Apart :
    (id : String) (dto : UpdateAccountDto) (number : Option String) (a b : Account)
    → dto.phone_number ≡ number
    → has_id id a ≡ true
    → Apart a b
    → Other number id b
    → Apart (apply_update dto a) b
unfolding apply_update
changed-Apart id dto none a b k e h g = rw k h
changed-Apart id dto (some n) a b k e h g = rw k (
    ground (
      arith,
      h.0,
      h.1,
      eq_iff a.id id,
      eq_iff b.id id,
      eq_iff a.id b.id,
      eq_iff n b.phone_number,
      eq_iff b.phone_number n,
    ))

module _ (c : Collection Account) where
  -- A request to the service; a new account has an identifier that is not stored.
  pub data Step : c.Store → c.Store → Type 0 where
    creates :
        (dto : CreateAccountDto) (s : c.Store)
        → All (λ a. (a.id === dto.id) ≡ false) (c.docs s)
        → Step s (create c dto s).0
    updates :
        (id : String) (dto : UpdateAccountDto) (s : c.Store) → Step s (update_account c id dto s).0
    deletes : (id : String) (s : c.Store) → Step s (delete_account c id s).0

  pub data Reach : c.Store → c.Store → Type 0 where
    here : (s : c.Store) → Reach s s
    after : (s t u : c.Store) → Reach s t → Step t u → Reach s u

  create-IsDistinct :
      (dto : CreateAccountDto) (s : c.Store)
      → All (λ a. (a.id === dto.id) ≡ false) (c.docs s)
      → IsDistinct (c.docs s)
      → IsDistinct (c.docs (create c dto s).0)
  unfolding new_account create
  create-IsDistinct dto s new d = elim (Option-cases (c.find_one (has_number dto.phone_number) s)) [
    | inr (a, e) ↦ rw (create, e) d
    | inl e ↦
        let free =
          find-none-All (has_number dto.phone_number) (c.docs s)
            (sym (c.find_one_lem (has_number dto.phone_number) s) ∙ e) in
        rw (create, e, c.create_lem (new_account dto) s)
          (append-Pairwise Apart (c.docs s) (new_account dto) d (
            All-both (λ a. (a.id === dto.id) ≡ false) (λ a. has_number dto.phone_number a ≡ false)
              (c.docs s) new free))
  ]

  update-IsDistinct :
      (id : String) (dto : UpdateAccountDto) (s : c.Store)
      → IsDistinct (c.docs s)
      → IsDistinct (c.docs (update_account c id dto s).0)
  unfolding update_account
  update-IsDistinct id dto s d = elim (Option-cases (c.find_one (has_id id) s)) [
    | inl e ↦ rw (update_account, e) d
    | inr (a, e) ↦ elim (Option-cases (c.find_one (is_duplicate dto.phone_number id) s)) [
      | inr (b, f) ↦ rw (update_account, e, f) d
      | inl f ↦
          let free =
            find-none-All (is_duplicate dto.phone_number id) (c.docs s)
              (sym (c.find_one_lem (is_duplicate dto.phone_number id) s) ∙ f) in
          rw (update_account, e, f, c.update_one_lem (has_id id) (apply_update dto) s)
            (modify-Pairwise Apart (has_id id) (apply_update dto) (Other dto.phone_number id)
              (c.docs s) Apart-sym
              (λ x y k o h g. changed-Apart id dto dto.phone_number x y refl k h g) d free)
    ]
  ]

  delete-IsDistinct :
      (id : String) (s : c.Store)
      → IsDistinct (c.docs s)
      → IsDistinct (c.docs (delete_account c id s).0)
  unfolding delete_account
  delete-IsDistinct id s d = elim (Bool-cases (is_some (c.find_one (has_id id) s))) [
    | inl e ↦
        rw (delete_account, e, c.delete_one_lem (has_id id) s)
          (erase-Pairwise Apart (has_id id) (c.docs s) d)
    | inr e ↦ rw (delete_account, e) d
  ]

  -- Accounts that differ in identifier and in phone number still do when accounts are made under
  -- new identifiers, changed and deleted.
  pub Reach-IsDistinct : (s t : c.Store) → Reach s t → IsDistinct (c.docs s) → IsDistinct (c.docs t)
  Reach-IsDistinct s _ (here _) d = d
  Reach-IsDistinct s _ (after _ u _ r (creates dto _ n)) d =
      create-IsDistinct dto u n (Reach-IsDistinct s u r d)
  Reach-IsDistinct s _ (after _ u _ r (updates id dto _)) d =
      update-IsDistinct id dto u (Reach-IsDistinct s u r d)
  Reach-IsDistinct s _ (after _ u _ r (deletes id _)) d =
      delete-IsDistinct id u (Reach-IsDistinct s u r d)
