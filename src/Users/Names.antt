-- ===== src/Users/Names.antt =====
-- The stored users differ in identifier, username and email.
use whataapp_otp_project.Base.{
  ℕ, ◌≡◌, sym, ◌∙◌, inl, inr, String, true, false, Option, none, some, List, ◌===◌, is_some,
  or_keep, arith, eq_iff, Option-cases, Bool-cases, All, All-imp, find-none-All,
}
use whataapp_otp_project.Base.Pairwise.{
  Pairwise, All-both, append-Pairwise, erase-Pairwise, modify-Pairwise,
}
use whataapp_otp_project.Base.Collection.{Collection}
use whataapp_otp_project.Users.{User, has_id}
use whataapp_otp_project.Users.Service.{
  CreateUserDto, UpdateUserDto, given_and, is_taken, is_duplicate, new_user, apply_update,
  create_user, update_user, delete_user,
}

abbrev pub Apart : User → User → Type 0
Apart a b =
    ((a.id === b.id) ≡ false)
    × ((a.username === b.username) ≡ false)
    × ((a.email === b.email) ≡ false)

abbrev pub IsUnique : List User → Type 0
IsUnique xs = Pairwise Apart xs

Apart-sym : (a b : User) → Apart a b → Apart b a
Apart-sym a b h = ground (
  arith,
  h.0,
  h.1,
  h.2,
  eq_iff a.id b.id,
  eq_iff b.id a.id,
  eq_iff a.username b.username,
  eq_iff b.username a.username,
  eq_iff a.email b.email,
  eq_iff b.email a.email,
)

fresh-Apart :
    (hash : String → String) (dto : CreateUserDto) (now : ℕ) (a : User)
    → (a.id === dto.id) ≡ false
    → is_taken dto.username dto.email a ≡ false
    → Apart a (new_user hash dto now)
unfolding new_user
fresh-Apart hash dto now a n t = (n, ground (arith, t), ground (arith, t))

-- A text that is kept, or changed to one that is not taken.
or_keep-ne :
    (o : Option String) (old x : String)
    → (old === x) ≡ false
    → given_and o (λ n. x === n) ≡ false
    → (or_keep old o === x) ≡ false
or_keep-ne none old x h g = h
or_keep-ne (some n) old x h g = ground (arith, eq_iff n x, eq_iff x n)

changed-Apart :
    (hash : String → String) (id : String) (dto : UpdateUserDto) (a b : User)
    → has_id id a ≡ true
    → Apart a b
    → is_duplicate dto id b ≡ false
    → Apart (apply_update hash dto a) b
unfolding apply_update
changed-Apart hash id dto a b e h g =
    let other : has_id id b ≡ false =
      ground (arith, h.0, eq_iff a.id id, eq_iff b.id id, eq_iff a.id b.id) in
    (
      h.0,
      or_keep-ne dto.username a.username b.username h.1 (ground (arith, g, other)),
      or_keep-ne dto.email a.email b.email h.2 (ground (arith, g, other)),
    )

module _ (c : Collection User) (hash : String → String) where
  -- A request to the service; a new user has an identifier that is not stored.
  pub data Step : c.Store → c.Store → Type 0 where
    creates :
        (dto : CreateUserDto) (now : ℕ) (s : c.Store)
        → All (λ u. (u.id === dto.id) ≡ false) (c.docs s)
        → Step s (create_user c hash dto now s).0
    updates :
        (id : String) (dto : UpdateUserDto) (s : c.Store) → Step s (update_user c hash id dto s).0
    deletes : (id : String) (s : c.Store) → Step s (delete_user c id s).0

  pub data Reach : c.Store → c.Store → Type 0 where
    here : (s : c.Store) → Reach s s
    after : (s t u : c.Store) → Reach s t → Step t u → Reach s u

  create-IsUnique :
      (dto : CreateUserDto) (now : ℕ) (s : c.Store)
      → All (λ u. (u.id === dto.id) ≡ false) (c.docs s)
      → IsUnique (c.docs s)
      → IsUnique (c.docs (create_user c hash dto now s).0)
  unfolding create_user
  create-IsUnique dto now s new d =
      elim (Option-cases (c.find_one (is_taken dto.username dto.email) s)) [
        | inr (u, e) ↦ rw (create_user, e) d
        | inl e ↦
            let taken = is_taken dto.username dto.email in
            let free = find-none-All taken (c.docs s) (sym (c.find_one_lem taken s) ∙ e) in
            rw (create_user, e, c.create_lem (new_user hash dto now) s)
              (append-Pairwise Apart (c.docs s) (new_user hash dto now) d (
                All-imp (λ u. ((u.id === dto.id) ≡ false) × (taken u ≡ false))
                  (λ u. Apart u (new_user hash dto now)) (c.docs s)
                  (λ u h. fresh-Apart hash dto now u h.0 h.1)
                  (All-both (λ u. (u.id === dto.id) ≡ false) (λ u. taken u ≡ false) (c.docs s) new
                    free)))
      ]

  update-IsUnique :
      (id : String) (dto : UpdateUserDto) (s : c.Store)
      → IsUnique (c.docs s)
      → IsUnique (c.docs (update_user c hash id dto s).0)
  unfolding update_user
  update-IsUnique id dto s d = elim (Option-cases (c.find_one (has_id id) s)) [
    | inl e ↦ rw (update_user, e) d
    | inr (u, e) ↦ elim (Option-cases (c.find_one (is_duplicate dto id) s)) [
      | inr (v, f) ↦ rw (update_user, e, f) d
      | inl f ↦
          let free =
            find-none-All (is_duplicate dto id) (c.docs s)
              (sym (c.find_one_lem (is_duplicate dto id) s) ∙ f) in
          rw (update_user, e, f, c.update_one_lem (has_id id) (apply_update hash dto) s)
            (modify-Pairwise Apart (has_id id) (apply_update hash dto)
              (λ y. is_duplicate dto id y ≡ false) (c.docs s) Apart-sym
              (λ x y k o h g. changed-Apart hash id dto x y k h g) d free)
    ]
  ]

  delete-IsUnique :
      (id : String) (s : c.Store) → IsUnique (c.docs s) → IsUnique (c.docs (delete_user c id s).0)
  unfolding delete_user
  delete-IsUnique id s d = elim (Bool-cases (is_some (c.find_one (has_id id) s))) [
    | inl e ↦
        rw (delete_user, e, c.delete_one_lem (has_id id) s)
          (erase-Pairwise Apart (has_id id) (c.docs s) d)
    | inr e ↦ rw (delete_user, e) d
  ]

  -- Users that differ in identifier, in username and in email still do when users are made under new
  -- identifiers, changed and deleted.
  pub Reach-IsUnique : (s t : c.Store) → Reach s t → IsUnique (c.docs s) → IsUnique (c.docs t)
  Reach-IsUnique s _ (here _) d = d
  Reach-IsUnique s _ (after _ u _ r (creates dto now _ n)) d =
      create-IsUnique dto now u n (Reach-IsUnique s u r d)
  Reach-IsUnique s _ (after _ u _ r (updates id dto _)) d =
      update-IsUnique id dto u (Reach-IsUnique s u r d)
  Reach-IsUnique s _ (after _ u _ r (deletes id _)) d =
      delete-IsUnique id u (Reach-IsUnique s u r d)
