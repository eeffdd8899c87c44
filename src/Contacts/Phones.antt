-- ===== src/Contacts/Phones.antt =====
-- The form in which phone numbers are stored, and what is found by them.
use Prim.Native.Char.{code}
use whataapp_otp_project.Base.{
  ◌≡◌, refl, sym, subst, ◌∙◌, ap, inl, inr, String, true, false, not, ◌&&◌, Option, none, some,
  List, ltb, arith, eq_iff, eq_refl, Bool-cases, Option-cases, All, is_some, find, find_passes,
}
use whataapp_otp_project.Base.Pairwise.{All-find}
use whataapp_otp_project.Base.Collection.{Collection, find-append_last}
use whataapp_otp_project.Contacts.{
  Contact, Phone, CreateContactDto, ok, is_at, new_contact, is_dialled, keep_dialled, size,
  starts_with_plus, with_plus, format_phone_number, insert, is_complete, find_by_phone_number,
  create,
}

keep-keep_dialled : (s : String) → keep_dialled (keep_dialled s) ≡ keep_dialled s
unfolding keep_dialled
keep-keep_dialled String.[] = refl
keep-keep_dialled (String.◌∷◌ c s) = elim (Bool-cases (is_dialled (code c))) [
  | inl e ↦ rw (e, e) (ap (String.◌∷◌ c) (keep-keep_dialled s))
  | inr e ↦ rw e (keep-keep_dialled s)
]

keep-with_plus : (s : String) → keep_dialled s ≡ s → keep_dialled (with_plus s) ≡ with_plus s
unfolding keep_dialled
keep-with_plus s h = elim (Bool-cases (not (starts_with_plus s) && ltb 10 (size s))) [
  | inl e ↦ rw e (ap (String.◌∷◌ "+") h)
  | inr e ↦ rw e h
]

with-with_plus : (s : String) → with_plus (with_plus s) ≡ with_plus s
with-with_plus s = elim (Bool-cases (not (starts_with_plus s) && ltb 10 (size s))) [
  | inl e ↦ rw e refl
  | inr e ↦ ground (arith, e)
]

-- To format a phone number that was formatted changes nothing.
pub format_twice :
    (s : String) → format_phone_number (format_phone_number s) ≡ format_phone_number s
unfolding format_phone_number
format_twice s =
    ap with_plus (keep-with_plus (keep_dialled s) (keep-keep_dialled s))
    ∙ with-with_plus (keep_dialled s)

pub none_of {ℓ} : {A : Type ℓ} {o : Option A} → is_some o ≡ false → o ≡ none
none_of {o = none} h = refl
none_of {o = some a} h = absurd cc

-- Every stored number is in its form.
abbrev pub IsFormatted : List Contact → Type 0
IsFormatted ks = All (λ k. format_phone_number k.phone_number ≡ k.phone_number) ks

module _ (c : Collection Contact) (ps : Collection Phone) where
  -- Where the stored numbers are formatted and a contact is made for an account, or found, a
  -- contact is found by the given number afterwards.
  pub find-create :
      (dto : CreateContactDto) (account : String) (s : c.Store × ps.Store) (k : Contact)
      → IsFormatted (c.docs s.0)
      → (create c ps dto account s).1 ≡ ok k
      → is_some (find_by_phone_number c dto.phone_number account (create c ps dto account s).0.0)
        ≡ true
  unfolding create insert find_by_phone_number
  find-create dto account s k formatted =
      elim (Option-cases (c.find_one (is_at dto.phone_number account) s.0)) [
        | inr (x, e) ↦
            rw (create, e)
              (λ h.
                let hit =
                  find_passes (is_at dto.phone_number account) (c.docs s.0)
                    (sym (c.find_one_lem (is_at dto.phone_number account) s.0) ∙ e) in
                let raw : x.phone_number ≡ dto.phone_number =
                  ground (arith, hit, eq_iff x.phone_number dto.phone_number) in
                let same =
                  All-find (λ y. format_phone_number y.phone_number ≡ y.phone_number)
                    (is_at dto.phone_number account) (c.docs s.0) x formatted
                    (sym (c.find_one_lem (is_at dto.phone_number account) s.0) ∙ e) in
                subst (λ n. is_some (c.find_one (is_at n account) s.0) ≡ true)
                  (sym raw ∙ sym same ∙ ap format_phone_number raw) (ap is_some e))
        | inl e ↦ elim (Bool-cases (is_complete (new_contact dto account))) [
          | inr bad ↦ rw (create, e, insert, bad) (λ h. absurd cc)
          | inl good ↦
              elim (Bool-cases
                (is_some (c.find_one (is_at (format_phone_number dto.phone_number) account) s.0))) [
                  | inl f ↦ rw (create, e, insert, good, f) (λ h. absurd cc)
                  | inr f ↦
                      rw (create, e, insert, good, f)
                        (λ h.
                          let made = new_contact dto account in
                          let n = format_phone_number dto.phone_number in
                          ap is_some (
                            c.find_one_lem (is_at n account) (c.create made s.0)
                            ∙ ap (find (is_at n account)) (c.create_lem made s.0)
                            ∙ find-append_last (is_at n account) (c.docs s.0) made
                                (none_of
                                  (sym (ap is_some (c.find_one_lem (is_at n account) s.0)) ∙ f))
                                (ground (arith, eq_refl n, eq_refl account))))
                ]
        ]
      ]
