-- ===== src/Groups/Tests.antt =====
-- Concrete groups.
use whataapp_otp_project.Base.{◌≡◌, refl, none, [], ◌∷◌}
use whataapp_otp_project.Base.Collection.{Collection, in_memory}
use whataapp_otp_project.Contacts.{
  Contact, Phone, find_by_phone_number, format_phone_number, keep_dialled, size, find_contact_by_id,
  update_contact, write_number, apply_update,
}
use whataapp_otp_project.Groups.{
  Group, ContactInGroup, known_contact, place, update_members, update_group,
}

abbrev groups : Collection Group
groups = in_memory Group

abbrev contacts : Collection Contact
contacts = in_memory Contact

abbrev phones : Collection Phone
phones = in_memory Phone

abbrev lee : Contact
lee = record {
  id = "k1";
  name = "Lee";
  phone_number = "100";
  groups = "g1" ∷ [];
  tags = [];
  account = "a1";
}

abbrev team : Group
team = record { id = "g1"; name = "Team"; contacts = "k1" ∷ []; account = "a1" }

abbrev kim : ContactInGroup
kim = record { new_id = "k2"; name = "Kim"; phone_number = "200" }

-- A member at an unknown number is not added: it takes the place of the first contact.
first_contact_overwritten :
    (update_group groups contacts phones "g1"
      (record { name = none; phone_numbers = kim ∷ [] })
      "a1"
      (team ∷ [], (lee ∷ [], []))).0.1.0
    ≡ record lee { name = "Kim"; phone_number = "200" } ∷ []
unfolding update_group update_members known_contact place find_by_phone_number format_phone_number
    keep_dialled size find_contact_by_id update_contact write_number apply_update
first_contact_overwritten = refl
