-- ===== src/Contacts/Import.antt =====
-- The import of many contacts: what is counted, and what is found afterwards.
use whataapp_otp_project.Base.{
  ◌+◌, ◌≡◌, String, Bool, true, List, All, is_some, length, count, truthy, not, ◌&&◌, some, ◌≤◌, ℕ,
}
use whataapp_otp_project.Base.Collection.{Collection}
use whataapp_otp_project.Contacts.{
  Contact, CreateContactDto, format_phone_number, find_by_phone_number, Imported,
}

-- A contact that has a name, and a number with a digit or a plus.
abbrev pub can_store : CreateContactDto → Bool
can_store dto = truthy (some dto.name) && truthy (some (format_phone_number dto.phone_number))

abbrev pub refused : CreateContactDto → Bool
refused dto = not (can_store dto)

module _ (c : Collection Contact) where
  abbrev pub is_found : CreateContactDto → String → c.Store → Bool
  is_found dto account s = is_some (find_by_phone_number c dto.phone_number account s)

  -- What some contacts of an import do: `total` of them, of which `bad` cannot be stored.
  record Imports (total bad : ℕ) (account : String) (r : Imported) (s : c.Store)
      (o : c.Store × Imported) : Type 0 where
    counts :
        o.1.imported + o.1.duplicates + o.1.errors ≡ r.imported + r.duplicates + r.errors + total
    few_errors : o.1.errors ≤ r.errors + bad
    grown : length (c.docs o.0) + r.imported ≡ length (c.docs s) + o.1.imported
    kept :
        (dto : CreateContactDto) → is_found dto account s ≡ true → is_found dto account o.0 ≡ true

  -- What an import comes to.
  pub record Outcome (dtos : List CreateContactDto) (account : String) (s : c.Store)
      (o : c.Store × Imported) : Type 0 where
    pub counted : o.1.imported + o.1.duplicates + o.1.errors ≡ length dtos
    pub few_errors : o.1.errors ≤ count refused dtos
    pub grown : length (c.docs o.0) ≡ length (c.docs s) + o.1.imported
    pub stored : All (λ dto. can_store dto ≡ true → is_found dto account o.0 ≡ true) dtos
