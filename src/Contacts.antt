-- ===== src/Contacts.antt =====
-- src/modules/contacts/contacts.service.ts and schema/contacts.schema.ts, and
-- src/modules/phone/phone.service.ts: the contacts of an account. The notes and times of a
-- contact are left out, and so is the log; the references to groups stay identifiers.
pub mod Phones
pub mod Import
mod Tests
use Prim.Native.Char.{Char, code}
use Prim.Native.String
use whataapp_otp_project.Base.{
  ℕ, zero, suc, ◌+◌, String, Bool, true, false, not, ◌&&◌, ◌||◌, Option, none, some, List, [], ◌∷◌,
  ◌++◌, ◌===◌, if◌then◌else◌, ltb, leb, ◌==◌, any, filter, is_some, truthy, or_keep,
}
use whataapp_otp_project.Base.Collection.{Collection}

pub record Contact : Type 0 where
  pub id : String
  pub name : String
  pub phone_number : String
  pub groups : List String
  pub tags : List String
  pub account : String

-- The account that the services give with a number is no field of the schema, and is not stored.
pub record Phone : Type 0 where
  pub number : String

-- The identifier is the one that the database gives to the new contact.
pub record CreateContactDto : Type 0 where
  pub id : String
  pub name : String
  pub phone_number : String
  pub groups : List String
  pub tags : List String

pub record UpdateContactDto : Type 0 where
  pub name : Option String
  pub phone_number : Option String
  pub groups : Option (List String)
  pub tags : Option (List String)
  pub account : Option String

pub data ContactError : Type 0 where
  contact_not_found : ContactError
  number_conflict : ContactError
  -- The unique index on the phone number and the account.
  duplicate_key : ContactError
  -- A required field that is empty.
  validation_failed : ContactError

pub data Result {ℓ} (A : Type ℓ) : Type ℓ where
  ok : A → Result A
  err : ContactError → Result A

-- `[\d+]`
abbrev pub is_dialled : ℕ → Bool
is_dialled c = (leb 48 c && leb c 57) || (c == 43)

unfoldable pub keep_dialled : String → String
keep_dialled String.[] = String.[]
keep_dialled (String.◌∷◌ c s) =
    let rest = keep_dialled s in if is_dialled (code c) then String.◌∷◌ c rest else rest

unfoldable pub size : String → ℕ
size String.[] = 0
size (String.◌∷◌ c s) = suc (size s)

abbrev pub starts_with_plus : String → Bool
starts_with_plus String.[] = false
starts_with_plus (String.◌∷◌ c s) = code c == 43

-- `'+' + formatted` where the number is of more than ten digits and has none.
abbrev pub with_plus : String → String
with_plus s = if not (starts_with_plus s) && ltb 10 (size s) then String.◌∷◌ "+" s else s

unfoldable pub format_phone_number : String → String
format_phone_number s = with_plus (keep_dialled s)

abbrev pub has_id : String → Contact → Bool
has_id id k = k.id === id

abbrev pub of_account : String → Contact → Bool
of_account account k = k.account === account

abbrev pub is_of : String → String → Contact → Bool
is_of id account k = has_id id k && of_account account k

abbrev pub is_at : String → String → Contact → Bool
is_at number account k = (k.phone_number === number) && of_account account k

abbrev pub is_other_at : String → String → String → Contact → Bool
is_other_at number account id k = is_at number account k && not (has_id id k)

-- The fields that are `required` and may come empty.
abbrev pub is_complete : Contact → Bool
is_complete k = truthy (some k.name) && truthy (some k.phone_number)

abbrev pub new_contact : CreateContactDto → String → Contact
new_contact dto account = record {
  id = dto.id;
  name = dto.name;
  phone_number = format_phone_number dto.phone_number;
  groups = dto.groups;
  tags = dto.tags;
  account = account;
}

unfoldable pub apply_update : UpdateContactDto → Contact → Contact
apply_update dto k = record k {
  name = or_keep k.name dto.name;
  phone_number = or_keep k.phone_number dto.phone_number;
  groups = or_keep k.groups dto.groups;
  tags = or_keep k.tags dto.tags;
  account = or_keep k.account dto.account;
}

-- `$addToSet`
abbrev pub add_to_set : String → List String → List String
add_to_set g gs = if any (λ h. h === g) gs then gs else gs ++ g ∷ []

-- `$addToSet` with `$each`
abbrev pub add_all_to_set : List String → List String → List String
add_all_to_set [] gs = gs
add_all_to_set (t ∷ ts) gs = add_all_to_set ts (add_to_set t gs)

-- `{ _id: { $in: ids }, account }`
abbrev pub is_among : List String → String → Contact → Bool
is_among ids account k = any (λ i. i === k.id) ids && of_account account k

pub record Imported : Type 0 where
  pub imported : ℕ
  pub duplicates : ℕ
  pub errors : ℕ

module _ (ps : Collection Phone) where
  unfoldable pub find_by_number : String → ps.Store → Option Phone
  find_by_number n s = ps.find_one (λ p. p.number === n) s

  unfoldable pub register_phone : String → ps.Store → ps.Store
  register_phone n s =
      if is_some (find_by_number n s) then s else ps.create (record { number = n }) s

module _ (c : Collection Contact) where
  -- The schema asks for a name and a number, which are not there if they are empty; then the database
  -- refuses a second contact of a number and an account.
  unfoldable pub insert : Contact → c.Store → Result c.Store
  insert k s =
      if is_complete k
      then (if is_some (c.find_one (is_at k.phone_number k.account) s)
          then err duplicate_key
          else ok (c.create k s))
      else err validation_failed

  unfoldable pub find_by_phone_number : String → String → c.Store → Option Contact
  find_by_phone_number n account s = c.find_one (is_at (format_phone_number n) account) s

  unfoldable pub find_contact_by_id : String → String → c.Store → Result Contact
  find_contact_by_id id account s = elim (c.find_one (is_of id account) s) [
    | none ↦ err contact_not_found
    | some k ↦ ok k
  ]

  unfoldable pub add_group_to_contacts : List String → String → String → c.Store → c.Store
  add_group_to_contacts ids g account s =
      c.update_many (is_among ids account) (λ k. record k { groups = add_to_set g k.groups }) s

  unfoldable pub remove_group_from_contacts : List String → String → String → c.Store → c.Store
  remove_group_from_contacts ids g account s =
      c.update_many (is_among ids account)
        (λ k. record k { groups = filter (λ h. not (h === g)) k.groups }) s

  unfoldable pub add_tags_to_contacts : List String → List String → String → c.Store → c.Store
  add_tags_to_contacts ids tags account s =
      c.update_many (is_among ids account) (λ k. record k { tags = add_all_to_set tags k.tags }) s

  unfoldable pub remove_tags_from_contacts : List String → List String → String → c.Store → c.Store
  remove_tags_from_contacts ids tags account s =
      c.update_many (is_among ids account)
        (λ k. record k { tags = filter (λ t. not (any (λ u. u === t) tags)) k.tags }) s

  abbrev pub write : String → UpdateContactDto → c.Store → c.Store × Result (Unit {0})
  write id dto s = (c.update_one (has_id id) (apply_update dto) s, ok tt)

  unfoldable pub write_number :
      Option String → String → UpdateContactDto → String → c.Store → c.Store × Result (Unit {0})
  write_number none id dto account s = write id dto s
  write_number (some n) id dto account s =
      if truthy (some n)
      then (if is_some (c.find_one (is_other_at (format_phone_number n) account id) s)
          then (s, err number_conflict)
          else write id (record dto { phone_number = some (format_phone_number n) }) s)
      else write id dto s

  unfoldable pub update_contact :
      String → UpdateContactDto → String → c.Store → c.Store × Result (Unit {0})
  update_contact id dto account s = elim (c.find_one (is_of id account) s) [
    | none ↦ (s, err contact_not_found)
    | some k ↦ write_number dto.phone_number id dto account s
  ]

  unfoldable pub delete_contact : String → String → c.Store → c.Store × Result (Unit {0})
  delete_contact id account s =
      if is_some (c.find_one (is_of id account) s)
      then (c.delete_one (is_of id account) s, ok tt)
      else (s, err contact_not_found)

  -- An error of one contact is counted, and the loop goes on.
  unfoldable pub import_one : CreateContactDto → String → Imported → c.Store → c.Store × Imported
  import_one dto account r s = elim (find_by_phone_number dto.phone_number account s) [
    | some k ↦ (s, record r { duplicates = r.duplicates + 1 })
    | none ↦ elim (insert (new_contact dto account) s) [
      | err e ↦ (s, record r { errors = r.errors + 1 })
      | ok s1 ↦ (s1, record r { imported = r.imported + 1 })
    ]
  ]

  unfoldable pub import_all :
      List CreateContactDto → String → Imported → c.Store → c.Store × Imported
  import_all [] account r s = (s, r)
  import_all (dto ∷ dtos) account r s =
      let (s1, r1) = import_one dto account r s in import_all dtos account r1 s1

  unfoldable pub bulk_import : List CreateContactDto → String → c.Store → c.Store × Imported
  bulk_import dtos account s =
      import_all dtos account (record { imported = 0; duplicates = 0; errors = 0 }) s

module _ (c : Collection Contact) (ps : Collection Phone) where
  -- The search is for the number as it is given; what is stored is the formatted number.
  unfoldable pub create :
      CreateContactDto → String → c.Store × ps.Store → (c.Store × ps.Store) × Result Contact
  create dto account s = elim (c.find_one (is_at dto.phone_number account) s.0) [
    | some k ↦ (s, ok k)
    | none ↦ elim (insert c (new_contact dto account) s.0) [
      | err e ↦ (s, err e)
      | ok s1 ↦ (
        (s1, register_phone ps (format_phone_number dto.phone_number) s.1),
        ok (new_contact dto account),
      )
    ]
  ]
