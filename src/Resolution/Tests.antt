-- ===== src/Resolution/Tests.antt =====
-- Concrete recipients, and the lemma on them.
use whataapp_otp_project.Base.{◌≡◌, refl, String, List, [], ◌∷◌, any}
use whataapp_otp_project.Base.Collection.{Collection, in_memory}
use whataapp_otp_project.Contacts.{Contact, size, find_contact_by_id}
use whataapp_otp_project.Groups.{Group, find_group_by_id}
use whataapp_otp_project.Resolution.{
  all_hex, is_valid_object_id, resolve_group_contacts, resolve_object_id_recipient, resolve_one,
  resolve_all,
}
use whataapp_otp_project.Resolution.Numbers.{IsOnce, has, stands_for, resolved_exactly}

abbrev groups : Collection Group
groups = in_memory Group

abbrev contacts : Collection Contact
contacts = in_memory Contact

abbrev lee_id : String
lee_id = "0123456789abcdef01234567"

abbrev team_id : String
team_id = "ABCDEF6789abcdef01234567"

abbrev lee : Contact
lee = record {
  id = lee_id;
  name = "Lee";
  phone_number = "100";
  groups = team_id ∷ [];
  tags = [];
  account = "a1";
}

abbrev team : Group
team = record { id = team_id; name = "Team"; contacts = lee_id ∷ "gone" ∷ []; account = "a1" }

abbrev items : List String
items = "200" ∷ team_id ∷ lee_id ∷ "200" ∷ "0123456789abcdef0123456g" ∷ []

resolved :
    resolve_all groups contacts items "a1" (team ∷ []) (lee ∷ []) []
    ≡ "200" ∷ "100" ∷ "0123456789abcdef0123456g" ∷ []
unfolding resolve_all resolve_one resolve_object_id_recipient resolve_group_contacts
    is_valid_object_id all_hex size find_group_by_id find_contact_by_id
resolved = refl

resolved_exactly_example :
    IsOnce (resolve_all groups contacts items "a1" (team ∷ []) (lee ∷ []) [])
    × ((n : String)
        → has n (resolve_all groups contacts items "a1" (team ∷ []) (lee ∷ []) [])
          ≡ any (λ item. stands_for groups contacts n item "a1" (team ∷ []) (lee ∷ [])) items)
resolved_exactly_example = resolved_exactly groups contacts items "a1" (team ∷ []) (lee ∷ [])
