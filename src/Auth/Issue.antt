-- ===== src/Auth/Issue.antt =====
-- src/modules/auth/auth.service.ts: how the tokens of a user are made, exchanged and taken away. The
-- identifiers of new documents and the clock come with a call.
use whataapp_otp_project.Base.{
  ℕ, String, Bool, Option, none, some, [], ◌∷◌, ◌===◌, if◌then◌else◌, truthy,
}
use whataapp_otp_project.Base.Collection.{Collection}
use whataapp_otp_project.Users.{User}
use whataapp_otp_project.Users.Service as UserService
use whataapp_otp_project.Users.Service.{
  CreateUserDto, UserError, create_user, find_user_by_id, find_user_by_email,
}
use whataapp_otp_project.Accounts.{Account, find_account_by_id, find_accounts_by_user}
use whataapp_otp_project.Accounts as AccountService
use whataapp_otp_project.Auth.{
  access, refresh, Token, Payload, Jwt, invalid_credentials, user_not_found, account_not_found,
  unauthorized_account, invalid_refresh_token, Result, ok, err, Tokens, Ids, refresh_of,
  other_refresh, is_current, bare, new_token, signed, create_pair, renew,
}

pub data LoginMessage : Type 0 where
  no_default_account : LoginMessage
  default_account : String → LoginMessage

pub record Login : Type 0 where
  pub tokens : Tokens
  pub message : LoginMessage

abbrev pub with_account : User → String → Payload
with_account u account = record (bare u) { account_id = some account }

abbrev pub with_role : User → Payload
with_role u = record (bare u) { user_role = some u.user_role }

-- The tokens of a registration carry the role under another name.
abbrev pub registered : User → Payload
registered u = record (bare u) { role = some u.user_role }

-- `tokenRecord.accountId || undefined`
abbrev pub or_undefined : Option String → Option String
or_undefined o = if truthy o then o else none

module _ (jwt : Jwt) (tk : Collection Token) where
  -- The user's first refresh token is changed and the others deleted, or a pair is made.
  unfoldable pub store_selection : Ids → User → String → ℕ → tk.Store → tk.Store
  store_selection ids u account now s =
      let ts = signed jwt (with_account u account) now in
      elim (tk.find_one (refresh_of u.id) s) [
        | none ↦ create_pair tk ids u.id ts (some account) now s
        | some r ↦
            tk.create (new_token ids.access_id access u.id ts.access_token (some account) now) (
              tk.delete_many (other_refresh u.id r.id)
                (renew tk r.id ts.refresh_token (some account) now s))
      ]

  unfoldable pub rotate : Ids → User → Token → ℕ → tk.Store → tk.Store × Result Tokens
  rotate ids u r now s =
      let p = record (bare u) { account_id = or_undefined r.account_id } in
      let ts = signed jwt p now in
      (
        tk.delete_many (other_refresh u.id r.id) (
            renew tk r.id ts.refresh_token r.account_id now
              (tk.create (new_token ids.access_id access u.id ts.access_token r.account_id now) s)),
        ok ts,
      )

module _ (jwt : Jwt) (us : Collection User) (tk : Collection Token) where
  unfoldable pub register :
      (String → String)
      → CreateUserDto
      → Ids
      → ℕ
      → us.Store
      → tk.Store
      → us.Store × tk.Store × UserService.Result Tokens
  register hash dto ids now users s =
      let (users1, made) = create_user us hash dto now users in
      elim made [
        | UserService.err e ↦ (users1, s, UserService.err e)
        | UserService.ok u ↦
            let ts = signed jwt (registered u) now in
            (users1, create_pair tk ids u.id ts none now s, UserService.ok ts)
      ]

  -- Every failure is reported as an invalid token.
  unfoldable pub exchange :
      Ids → String → String → ℕ → us.Store → tk.Store → tk.Store × Result Tokens
  exchange ids user token now users s = elim (tk.find_one (is_current user token now) s) [
    | none ↦ (s, err invalid_refresh_token)
    | some r ↦ elim (find_user_by_id us user users) [
      | UserService.err e ↦ (s, err invalid_refresh_token)
      | UserService.ok u ↦ rotate jwt tk ids u r now s
    ]
  ]

  unfoldable pub refresh_tokens : Ids → String → ℕ → us.Store → tk.Store → tk.Store × Result Tokens
  refresh_tokens ids token now users s = elim (jwt.verify refresh token now) [
    | none ↦ (s, err invalid_refresh_token)
    | some p ↦ exchange ids p.sub token now users s
  ]

module _ (jwt : Jwt) (us : Collection User) (ac : Collection Account) (tk : Collection Token) where
  unfoldable pub select_for : Ids → User → Account → ℕ → tk.Store → tk.Store × Result Tokens
  select_for ids u a now s =
      if a.user === u.id
      then (store_selection jwt tk ids u a.id now s, ok (signed jwt (with_account u a.id) now))
      else (s, err unauthorized_account)

  unfoldable pub select_account :
      Ids → String → String → ℕ → us.Store → ac.Store → tk.Store → tk.Store × Result Tokens
  select_account ids user account now users accounts s = elim (find_user_by_id us user users) [
    | UserService.err e ↦ (s, err user_not_found)
    | UserService.ok u ↦ elim (find_account_by_id ac account accounts) [
      | AccountService.err e ↦ (s, err account_not_found)
      | AccountService.ok a ↦ select_for ids u a now s
    ]
  ]

  -- What is left of an attempt to select the first account: its tokens, or those made before.
  abbrev pub login_result : Tokens → String → tk.Store × Result Tokens → tk.Store × Result Login
  login_result before account o = elim o.1 [
    | err e ↦ (o.0, ok (record { tokens = before; message = no_default_account }))
    | ok ts ↦ (o.0, ok (record { tokens = ts; message = default_account account }))
  ]

  -- The second pair of identifiers is for the selection.
  unfoldable pub login_as :
      Ids → Ids → User → ℕ → us.Store → ac.Store → tk.Store → tk.Store × Result Login
  login_as ids ids' u now users accounts s =
      let ts = signed jwt (with_role u) now in
      let s1 = create_pair tk ids u.id ts none now s in
      elim (find_accounts_by_user ac u.id accounts) [
        | AccountService.err e ↦ (s1, ok (record { tokens = ts; message = no_default_account }))
        | AccountService.ok [] ↦ (s1, ok (record { tokens = ts; message = no_default_account }))
        | AccountService.ok (a ∷ rest) ↦
            login_result ts a.id (select_account ids' u.id a.id now users accounts s1)
      ]

  unfoldable pub login :
      (String → String → Bool)
      → String
      → String
      → Ids
      → Ids
      → ℕ
      → us.Store
      → ac.Store
      → tk.Store
      → tk.Store × Result Login
  login compare_password email password ids ids' now users accounts s =
      elim (find_user_by_email us email users) [
        | none ↦ (s, err invalid_credentials)
        | some u ↦
            if compare_password password u.password
            then login_as ids ids' u now users accounts s
            else (s, err invalid_credentials)
      ]
