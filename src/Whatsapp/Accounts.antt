-- ===== src/Whatsapp/Accounts.antt =====
-- src/modules/whatsapp/services/account.service.ts: an account that becomes ready, and one that is
-- deleted with all that belongs to it, over the other services' collections. An exception of the
-- removal from the tokens comes when the deletions are under way already; it is left out with the
-- log. The accounts' queries are those of src/modules/accounts.
pub mod Deletion
mod Tests
use whataapp_otp_project.Base.{
  ℕ, String, Bool, false, Option, none, some, List, [], ◌∷◌, ◌===◌, if◌then◌else◌,
}
use whataapp_otp_project.Base.Collection.{Collection}
use whataapp_otp_project.Users.{User}
use whataapp_otp_project.Accounts.{Account, has_id}
use whataapp_otp_project.Contacts.{Contact}
use whataapp_otp_project.Contacts
use whataapp_otp_project.Groups.{Group}
use whataapp_otp_project.Rules.{Rule}
use whataapp_otp_project.Rules
use whataapp_otp_project.Templates.{Template}
use whataapp_otp_project.Guards.{ApiKey}
use whataapp_otp_project.Auth.{Token, Jwt, Ids, Result, err, no_such_account}
use whataapp_otp_project.Auth.Keys.{get_or_create_api_key, remove_account_from_tokens}

abbrev is_client : String → Option String → Bool
is_client id none = false
is_client id (some i) = i === id

abbrev pub of_client : String → Account → Bool
of_client id a = is_client id a.client_id

abbrev pub of_group : String → Group → Bool
of_group account g = g.account === account

abbrev pub of_template : String → Template → Bool
of_template account t = t.account === account

-- What `handleAccountReady` writes. The number that it gives stands under a key that the schema does
-- not have, `phoneNumber`, which Mongoose leaves out.
unfoldable pub connected : String → String → String → Account → Account
connected name client user a = record a { name = name; client_id = some client; user = user }

-- The identifier is the one that the database gives to a new account; the status is the schema's, and a number
-- that is not there reads as empty.
abbrev pub blank : String → Account
blank id = record {
  id = id;
  name = "";
  phone_number = "";
  user = "";
  client_id = none;
  status = "active";
}

module _ (ac : Collection Account) (kc : Collection ApiKey) where
  unfoldable pub handle_account_ready :
      (String × String × String)
      → String
      → String
      → String
      → ℕ
      → ac.Store × kc.Store
      → (ac.Store × kc.Store) × Result String
  handle_account_ready (id, key_id, key) name client user now s =
      let accounts =
        ac.upsert (of_client client) (connected name client user)
          (connected name client user (blank id)) s.0 in
      elim (ac.find_one (of_client client) accounts) [
        | none ↦ ((accounts, s.1), err no_such_account)
        | some a ↦
            let (keys, key) = get_or_create_api_key ac kc key_id key user a.id now accounts s.1 in
            ((accounts, keys), key)
      ]

  unfoldable pub ensure_client_id : String → String → String → ac.Store → ac.Store
  ensure_client_id id user client s =
      ac.update_one (λ a. if has_id id a then a.user === user else false)
        (λ a. record a { client_id = some client }) s

-- The collections that a deletion reaches.
pub record Collections : Type 1 where
  pub users : Collection User
  pub accounts : Collection Account
  pub contacts : Collection Contact
  pub groups : Collection Group
  pub rules : Collection Rule
  pub templates : Collection Template
  pub tokens : Collection Token
  pub keys : Collection ApiKey

module _ (jwt : Jwt) (cs : Collections) where
  pub record World : Type 0 where
    pub users : cs.users.Store
    pub accounts : cs.accounts.Store
    pub contacts : cs.contacts.Store
    pub groups : cs.groups.Store
    pub rules : cs.rules.Store
    pub templates : cs.templates.Store
    pub tokens : cs.tokens.Store
    pub keys : cs.keys.Store

  unfoldable pub delete_account_on_logout : Ids → String → ℕ → World → World
  delete_account_on_logout ids account now w =
      elim (cs.accounts.find_one (has_id account) w.accounts) [
        | none ↦ w
        | some a ↦
            let (tokens, keys) =
              remove_account_from_tokens jwt cs.users cs.tokens cs.keys ids a.user account now
                w.users (w.tokens, w.keys) in
            record w {
              contacts = cs.contacts.delete_many (Contacts.of_account account) w.contacts;
              groups = cs.groups.delete_many (of_group account) w.groups;
              rules = cs.rules.delete_many (Rules.of_account account) w.rules;
              templates = cs.templates.delete_many (of_template account) w.templates;
              accounts = cs.accounts.delete_one (has_id account) w.accounts;
              tokens = tokens;
              keys = keys;
            }
      ]
