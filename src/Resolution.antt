-- ===== src/Resolution.antt =====
-- src/modules/whatsapp/services/recipient-resolver.service.ts and message-content-resolver.service.ts:
-- which numbers a list of groups, contacts and numbers stands for, and which text a message. Whether a
-- text is an identifier for the second is a test of a library, and a parameter. The log is left out.
pub mod Numbers
mod Tests
use Prim.Native.Char.{Char, code}
use Prim.Native.String
use whataapp_otp_project.Base.{
  ℕ, zero, suc, ◌+◌, String, Bool, true, false, not, ◌&&◌, ◌||◌, Option, none, some, List, [], ◌∷◌,
  ◌++◌, ◌===◌, if◌then◌else◌, ltb, leb, ◌==◌, any, filter, is_some, truthy,
}
use whataapp_otp_project.Base.Collection.{Collection}
use whataapp_otp_project.Accounts.{Account}
use whataapp_otp_project.Contacts.{Contact, find_contact_by_id, size}
use whataapp_otp_project.Contacts as ContactService
use whataapp_otp_project.Groups.{Group, find_group_by_id}
use whataapp_otp_project.Groups as GroupService
use whataapp_otp_project.Templates.{Template, find_by_id}
use whataapp_otp_project.Templates as TemplateService

-- `[a-fA-F0-9]`
abbrev pub is_hex : ℕ → Bool
is_hex c = (leb 97 c && leb c 102) || (leb 65 c && leb c 70) || (leb 48 c && leb c 57)

unfoldable pub all_hex : String → Bool
all_hex String.[] = true
all_hex (String.◌∷◌ c s) = is_hex (code c) && all_hex s

unfoldable pub is_valid_object_id : String → Bool
is_valid_object_id s = all_hex s && (size s == 24)

-- `set.add(n)`
abbrev pub add_number : String → List String → List String
add_number n ns = if any (λ m. m === n) ns then ns else ns ++ n ∷ []

abbrev pub of_client : String → Account → Bool
of_client id a = truthy a.client_id && elim a.client_id [ none ↦ false | some i ↦ i === id ]

module _ (c : Collection Contact) where
  -- The populated contacts of a group: an identifier without a contact is left out by the database.
  unfoldable pub resolve_group_contacts : List String → c.Store → List String → List String
  resolve_group_contacts [] s ns = ns
  resolve_group_contacts (i ∷ is) s ns = elim (c.find_one (ContactService.has_id i) s) [
    | none ↦ resolve_group_contacts is s ns
    | some k ↦
        resolve_group_contacts is s
          (if truthy (some k.phone_number) then add_number k.phone_number ns else ns)
  ]

module _ (gc : Collection Group) (c : Collection Contact) where
  -- A group first, then a contact; an identifier of neither adds nothing.
  unfoldable pub resolve_object_id_recipient :
      String → String → gc.Store → c.Store → List String → List String
  resolve_object_id_recipient item account groups s ns =
      elim (find_group_by_id gc item account groups) [
        | GroupService.ok g ↦ resolve_group_contacts c g.contacts s ns
        | GroupService.err e ↦ elim (find_contact_by_id c item account s) [
          | ContactService.ok k ↦ add_number k.phone_number ns
          | ContactService.err e ↦ ns
        ]
      ]

  unfoldable pub resolve_one : String → String → gc.Store → c.Store → List String → List String
  resolve_one item account groups s ns =
      if is_valid_object_id item
      then resolve_object_id_recipient item account groups s ns
      else add_number item ns

  unfoldable pub resolve_all : List String → String → gc.Store → c.Store → List String → List String
  resolve_all [] account groups s ns = ns
  resolve_all (item ∷ items) account groups s ns =
      resolve_all items account groups s (resolve_one item account groups s ns)

-- None where the client has no account.
unfoldable pub resolve_recipients :
    (ac : Collection Account) (gc : Collection Group) (c : Collection Contact)
    → List String
    → String
    → ac.Store
    → gc.Store
    → c.Store
    → Option (List String)
resolve_recipients ac gc c items client accounts groups s =
    elim (ac.find_one (of_client client) accounts) [
      | none ↦ none
      | some a ↦ some (resolve_all gc c items a.id groups s [])
    ]

-- A message that is no identifier, or names no template of the account, is the text itself.
unfoldable pub resolve_content :
    (ac : Collection Account) (tc : Collection Template)
    → (String → Bool)
    → (String → List ℕ)
    → String
    → String
    → ac.Store
    → tc.Store
    → List ℕ
resolve_content ac tc is_valid text message client accounts s =
    if is_valid message
    then elim (ac.find_one (of_client client) accounts) [
      | none ↦ text message
      | some a ↦ elim (find_by_id tc message a.id s) [
        | TemplateService.err e ↦ text message
        | TemplateService.ok t ↦ t.content
      ]
    ]
    else text message
