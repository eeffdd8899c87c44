-- ===== src/Groups.antt =====
-- src/modules/groups/groups.service.ts: groups of contacts. The identifier of a new group, and that of
-- a new contact for each member, are those that the database gives. The log is left out.
mod Tests
use whataapp_otp_project.Base.{
  ℕ, String, Bool, true, false, not, ◌&&◌, ◌||◌, Option, none, some, List, [], ◌∷◌, ◌++◌, ◌===◌,
  if◌then◌else◌, any, is_some, truthy,
}
use whataapp_otp_project.Base.Collection.{Collection}
use whataapp_otp_project.Contacts.{
  Contact, Phone, CreateContactDto, UpdateContactDto, ContactError, find_by_phone_number,
  find_contact_by_id, add_group_to_contacts, update_contact, register_phone,
}
use whataapp_otp_project.Contacts as ContactService

pub record Group : Type 0 where
  pub id : String
  pub name : String
  pub contacts : List String
  pub account : String

pub record ContactInGroup : Type 0 where
  pub new_id : String
  pub name : String
  pub phone_number : String

pub record CreateGroupDto : Type 0 where
  pub id : String
  pub name : String
  pub phone_numbers : List ContactInGroup

pub record UpdateGroupDto : Type 0 where
  pub name : Option String
  pub phone_numbers : List ContactInGroup

pub data GroupError : Type 0 where
  group_not_found : GroupError
  contact_error : ContactError → GroupError

pub data Result {ℓ} (A : Type ℓ) : Type ℓ where
  ok : A → Result A
  err : GroupError → Result A

abbrev pub has_id : String → Group → Bool
has_id id g = g.id === id

abbrev pub is_of : String → String → Group → Bool
is_of id account g = has_id id g && (g.account === account)

abbrev pub is_named : String → String → Group → Bool
is_named name account g = (g.name === name) && (g.account === account)

abbrev pub holds : List String → String → Bool
holds ids id = any (λ i. i === id) ids

abbrev pub member_dto : ContactInGroup → CreateContactDto
member_dto m = record {
  id = m.new_id;
  name = m.name;
  phone_number = m.phone_number;
  groups = [];
  tags = [];
}

abbrev pub member_update : ContactInGroup → UpdateContactDto
member_update m = record {
  name = some m.name;
  phone_number = some m.phone_number;
  groups = none;
  tags = none;
  account = none;
}

abbrev pub lift : ContactService.Result Contact → Result Contact
lift (ContactService.ok k) = ok k
lift (ContactService.err e) = err (contact_error e)

-- `existingGroup.contacts.find(async ...)`: a promise is true, so the first contact is taken.
abbrev pub first_of : List String → Option String
first_of [] = none
first_of (i ∷ is) = some i

module _ (gc : Collection Group) where
  unfoldable pub find_group_by_id : String → String → gc.Store → Result Group
  find_group_by_id id account s = elim (gc.find_one (is_of id account) s) [
    | none ↦ err group_not_found
    | some g ↦ ok g
  ]

  unfoldable pub delete_group : String → String → gc.Store → gc.Store × Result (Unit {0})
  delete_group id account s =
      if is_some (gc.find_one (is_of id account) s)
      then (gc.delete_one (is_of id account) s, ok tt)
      else (s, err group_not_found)

module _ (gc : Collection Group) (c : Collection Contact) (ps : Collection Phone) where
  abbrev pub People : Type 0
  People = c.Store × ps.Store

  -- The contact of a member: the one at its number, or a new one.
  unfoldable pub member_contact : ContactInGroup → String → People → People × Result Contact
  member_contact m account s = elim (find_by_phone_number c m.phone_number account s.0) [
    | some k ↦ (s, ok k)
    | none ↦ let (s1, made) = ContactService.create c ps (member_dto m) account s in (s1, lift made)
  ]

  -- The identifiers of the members' contacts that `held` has not, and the phones of all.
  unfoldable pub collect :
      List String → List ContactInGroup → String → People → People × Result (List String)
  collect held [] account s = (s, ok [])
  collect held (m ∷ ms) account s =
      let (s1, found) = member_contact m account s in
      elim found [
        | err e ↦ (s1, err e)
        | ok k ↦
            let (s2, rest) =
              collect held ms account (s1.0, register_phone ps m.phone_number s1.1) in
            elim rest [
              | err e ↦ (s2, err e)
              | ok ids ↦ (s2, ok (if holds held k.id then ids else k.id ∷ ids))
            ]
      ]

  abbrev pub with_contacts : List String → Group → Group
  with_contacts ids g = record g { contacts = g.contacts ++ ids }

  -- The contacts learn of a group where there are any to tell.
  abbrev pub tell : List String → String → String → People → People
  tell [] id account s = s
  tell (i ∷ ids) id account s = (add_group_to_contacts c (i ∷ ids) id account s.0, s.1)

  unfoldable pub create :
      CreateGroupDto → String → gc.Store × People → (gc.Store × People) × Result Group
  create dto account s = elim (gc.find_one (is_named dto.name account) s.0) [
    | some g ↦
        let (s1, ids) = collect g.contacts dto.phone_numbers account s.1 in
        elim ids [
          | err e ↦ ((s.0, s1), err e)
          | ok ids ↦ (
            (gc.update_one (has_id g.id) (with_contacts ids) s.0, tell ids g.id account s1),
            ok (with_contacts ids g),
          )
        ]
    | none ↦
        let (s1, ids) = collect [] dto.phone_numbers account s.1 in
        elim ids [
          | err e ↦ ((s.0, s1), err e)
          | ok ids ↦
              let g : Group = record {
                id = dto.id;
                name = dto.name;
                contacts = ids;
                account = account;
              } in
              ((gc.create g s.0, tell ids dto.id account s1), ok g)
        ]
  ]

  -- The contact at the number; else the first of the group, which must be a contact of the account.
  unfoldable pub known_contact : Group → ContactInGroup → String → c.Store → Result (Option Contact)
  known_contact g m account s = elim (find_by_phone_number c m.phone_number account s) [
    | some k ↦ ok (some k)
    | none ↦ elim (first_of g.contacts) [
      | none ↦ ok none
      | some i ↦ elim (find_contact_by_id c i account s) [
        | ContactService.ok k ↦ ok (some k)
        | ContactService.err e ↦ err (contact_error e)
      ]
    ]
  ]

  abbrev pub needs_update : Contact → ContactInGroup → Bool
  needs_update k m = not (k.name === m.name) || not (k.phone_number === m.phone_number)

  -- The identifier of the member's contact, made or changed.
  unfoldable pub place : Option Contact → ContactInGroup → String → People → People × Result String
  place none m account s =
      let (s1, made) = ContactService.create c ps (member_dto m) account s in
      elim made [
        | ContactService.ok k ↦ (s1, ok k.id)
        | ContactService.err e ↦ (s1, err (contact_error e))
      ]
  place (some k) m account s =
      if needs_update k m
      then (let (s1, done) = update_contact c k.id (member_update m) account s.0 in
          elim done [
            | ContactService.ok u ↦ ((s1, s.1), ok k.id)
            | ContactService.err e ↦ ((s1, s.1), err (contact_error e))
          ])
      else (s, ok k.id)

  unfoldable pub update_members :
      Group → List ContactInGroup → String → People → People × Result (List String)
  update_members g [] account s = (s, ok [])
  update_members g (m ∷ ms) account s = elim (known_contact g m account s.0) [
    | err e ↦ (s, err e)
    | ok known ↦
        let (s1, placed) = place known m account s in
        elim placed [
          | err e ↦ (s1, err e)
          | ok id ↦
              let (s2, rest) = update_members g ms account s1 in
              elim rest [
                | err e ↦ (s2, err e)
                | ok ids ↦ (s2, ok (if holds g.contacts id then ids else id ∷ ids))
              ]
        ]
  ]

  -- `if (dto.name)`
  abbrev pub renamed : Option String → String → String
  renamed none old = old
  renamed (some n) old = if truthy (some n) then n else old

  unfoldable pub update_group :
      String → UpdateGroupDto → String → gc.Store × People → (gc.Store × People) × Result Group
  update_group id dto account s = elim (gc.find_one (is_of id account) s.0) [
    | none ↦ (s, err group_not_found)
    | some g ↦
        let (s1, ids) = update_members g dto.phone_numbers account s.1 in
        elim ids [
          | err e ↦ ((s.0, s1), err e)
          | ok ids ↦
              let changed : Group → Group =
                λ g. record (with_contacts ids g) { name = renamed dto.name g.name } in
              ((gc.update_one (has_id g.id) changed s.0, tell ids g.id account s1), ok (changed g))
        ]
  ]
