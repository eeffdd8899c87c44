-- ===== src/Accounts.antt =====
-- src/modules/accounts/accounts.service.ts and its schema: the WhatsApp accounts of the users. An
-- identifier that cannot be cast reads as one that is not stored. The log is left out.
pub mod Numbers
pub mod Reading
mod Tests
use whataapp_otp_project.Base.{
  ℕ, String, Bool, true, false, not, ◌&&◌, Option, none, some, List, [], ◌∷◌, ◌===◌, if◌then◌else◌,
  is_some, or_keep, truthy,
}
use whataapp_otp_project.Base.Collection.{Collection}

pub record Account : Type 0 where
  pub id : String
  pub name : String
  pub phone_number : String
  pub user : String
  pub client_id : Option String
  pub status : String

-- The identifier is the one that the database gives to the new account.
pub record CreateAccountDto : Type 0 where
  pub id : String
  pub name : String
  pub phone_number : String
  pub user : String

pub record UpdateAccountDto : Type 0 where
  pub name : Option String
  pub phone_number : Option String
  pub user : Option String

pub data AccountError : Type 0 where
  phone_number_exists : AccountError
  account_not_found : AccountError
  no_accounts_found : AccountError
  no_session : AccountError
  is_disconnected : AccountError

pub data Result {ℓ} (A : Type ℓ) : Type ℓ where
  ok : A → Result A
  err : AccountError → Result A

pub record ClientInfo : Type 0 where
  pub client_id : String
  pub status : String

abbrev pub has_id : String → Account → Bool
has_id id a = a.id === id

abbrev pub has_number : String → Account → Bool
has_number n a = a.phone_number === n

abbrev pub of_user : String → Account → Bool
of_user user a = a.user === user

abbrev pub is_of : String → String → Account → Bool
is_of id user a = has_id id a && of_user user a

unfoldable pub new_account : CreateAccountDto → Account
new_account dto = record {
  id = dto.id;
  name = dto.name;
  phone_number = dto.phone_number;
  user = dto.user;
  client_id = none;
  status = "active";
}

unfoldable pub apply_update : UpdateAccountDto → Account → Account
apply_update dto a = record a {
  name = or_keep a.name dto.name;
  phone_number = or_keep a.phone_number dto.phone_number;
  user = or_keep a.user dto.user;
}

-- `{ phone_number: dto.phone_number, _id: { $ne: id } }`; a number that is not given is no account's.
abbrev pub is_duplicate : Option String → String → Account → Bool
is_duplicate none id a = false
is_duplicate (some n) id a = has_number n a && not (has_id id a)

unfoldable pub client_of : Option Account → Result ClientInfo
client_of none = err account_not_found
client_of (some a) = elim a.client_id [
  | none ↦ err no_session
  | some id ↦
      if truthy (some id)
      then (if a.status === "disconnected"
          then err is_disconnected
          else ok (record { client_id = id; status = a.status }))
      else err no_session
]

module _ (c : Collection Account) where
  unfoldable pub create : CreateAccountDto → c.Store → c.Store × Result Account
  create dto s =
      if is_some (c.find_one (has_number dto.phone_number) s)
      then (s, err phone_number_exists)
      else (c.create (new_account dto) s, ok (new_account dto))

  unfoldable pub find_account_by_id : String → c.Store → Result Account
  find_account_by_id id s = elim (c.find_one (has_id id) s) [
    | none ↦ err account_not_found
    | some a ↦ ok a
  ]

  unfoldable pub find_one : String → String → c.Store → Option Account
  find_one id user s = c.find_one (is_of id user) s

  unfoldable pub update_account : String → UpdateAccountDto → c.Store → c.Store × Result Account
  update_account id dto s = elim (c.find_one (has_id id) s) [
    | none ↦ (s, err account_not_found)
    | some a ↦
        if is_some (c.find_one (is_duplicate dto.phone_number id) s)
        then (s, err phone_number_exists)
        else (c.update_one (has_id id) (apply_update dto) s, ok (apply_update dto a))
  ]

  unfoldable pub delete_account : String → c.Store → c.Store × Result (Unit {0})
  delete_account id s =
      if is_some (c.find_one (has_id id) s)
      then (c.delete_one (has_id id) s, ok tt)
      else (s, err account_not_found)

  unfoldable pub find_accounts_by_user : String → c.Store → Result (List Account)
  find_accounts_by_user user s = elim (c.find_all (of_user user) s) [
    | [] ↦ err no_accounts_found
    | a ∷ rest ↦ ok (a ∷ rest)
  ]

  unfoldable pub find_client_id_by_account_id : String → String → c.Store → Result ClientInfo
  find_client_id_by_account_id id user s = client_of (c.find_one (is_of id user) s)
