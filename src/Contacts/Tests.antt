-- ===== src/Contacts/Tests.antt =====
-- Concrete contacts, and the lemmas on them.
use whataapp_otp_project.Base.{◌≡◌, refl, true, [], ◌∷◌, is_some}
use whataapp_otp_project.Base.Collection.{Collection, in_memory}
use whataapp_otp_project.Contacts.{
  Contact, Phone, CreateContactDto, ok, err, duplicate_key, format_phone_number, keep_dialled, size,
  insert, find_by_phone_number, new_contact, import_one, import_all, bulk_import, create,
}
use whataapp_otp_project.Contacts.Phones.{IsFormatted, find-create}

abbrev contacts : Collection Contact
contacts = in_memory Contact

abbrev phones : Collection Phone
phones = in_memory Phone

abbrev lee : Contact
lee = record {
  id = "k1";
  name = "Lee";
  phone_number = "+963900000000";
  groups = [];
  tags = [];
  account = "a1";
}

abbrev kim : CreateContactDto
kim = record { id = "k2"; name = "Kim"; phone_number = "963 911 111 111"; groups = []; tags = [] }

formats :
    (format_phone_number "963 900-000-000" ≡ "+963900000000")
    × (format_phone_number "0900 000" ≡ "0900000")
unfolding format_phone_number keep_dialled size
formats = (refl, refl)

-- A number in another form than the stored one is searched as it is, and refused by the index.
other_form_refused :
    (create contacts phones (record kim { phone_number = "963 900 000 000" }) "a1" (lee ∷ [], [])).1
    ≡ err duplicate_key
unfolding create insert format_phone_number keep_dialled size
other_form_refused = refl

lee-IsFormatted : IsFormatted (lee ∷ [])
unfolding format_phone_number keep_dialled size
lee-IsFormatted = (refl, tt)

kim_made : (create contacts phones kim "a1" (lee ∷ [], [])).1 ≡ ok (new_contact kim "a1")
unfolding create insert format_phone_number keep_dialled size
kim_made = refl

find-create_example :
    is_some (
      find_by_phone_number contacts "963 911 111 111" "a1"
        (create contacts phones kim "a1" (lee ∷ [], [])).0.0)
    ≡ true
find-create_example =
    find-create contacts phones kim "a1" (lee ∷ [], []) (new_contact kim "a1") lee-IsFormatted
      kim_made

abbrev nobody : CreateContactDto
nobody = record kim { id = "k3"; phone_number = "-" }

one_refused :
    (bulk_import contacts (kim ∷ nobody ∷ kim ∷ []) "a1" (lee ∷ [])).1
    ≡ record { imported = 1; duplicates = 1; errors = 1 }
unfolding bulk_import import_all import_one find_by_phone_number insert format_phone_number
    keep_dialled size
one_refused = refl
