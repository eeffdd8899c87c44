-- ===== src/Auth.antt =====
-- src/modules/auth/auth.service.ts, token-cleanup.service.ts, schema/refresh-token.schema.ts, and
-- src/common/strategies/jwt.strategy.ts: the tokens of the users. The signing of a token and the
-- comparison of a password are those of libraries, and parameters. The database does not fail. The
-- log is left out.
pub mod Accepted
pub mod Issue
pub mod Keys
pub mod Removal
pub mod Active
pub mod Sorting
pub mod Rotation
mod Tests
use whataapp_otp_project.Base.{
  ℕ, ◌+◌, String, Bool, true, false, not, ◌&&◌, Option, none, some, List, [], ◌∷◌, ◌===◌,
  if◌then◌else◌, ltb, is_some,
}
use whataapp_otp_project.Base.Collection.{Collection}
use whataapp_otp_project.Users.{User}

pub data TokenType : Type 0 where
  access refresh : TokenType

pub record Token : Type 0 where
  pub id : String
  pub user_id : String
  pub token : String
  pub type : TokenType
  pub account_id : Option String
  pub expires_at : ℕ

abbrev pub same_type : TokenType → TokenType → Bool
same_type access access = true
same_type refresh refresh = true
same_type access refresh = false
same_type refresh access = false

-- What a token says; `role` is the claim of a registration, `userRole` that of a login.
pub record Payload : Type 0 where
  pub sub : String
  pub email : String
  pub account_id : Option String
  pub role : Option String
  pub user_role : Option String

-- The library of JSON web tokens, under the secret of each type: a token is made of what it says and
-- the time, and read back where it is genuine and has not expired.
pub record Jwt : Type 0 where
  pub sign : TokenType → Payload → ℕ → String
  pub verify : TokenType → String → ℕ → Option Payload

pub data AuthError : Type 0 where
  invalid_credentials : AuthError
  user_not_found : AuthError
  account_not_found : AuthError
  unauthorized_account : AuthError
  invalid_refresh_token : AuthError
  no_such_account : AuthError

pub data Result {ℓ} (A : Type ℓ) : Type ℓ where
  ok : A → Result A
  err : AuthError → Result A

pub record Tokens : Type 0 where
  pub access_token : String
  pub refresh_token : String

abbrev pub day_ms : ℕ
day_ms = 86400000

-- `1d` and `7d`
abbrev pub life_of : TokenType → ℕ
life_of access = 86400000
life_of refresh = 604800000

abbrev pub of_user : String → Token → Bool
of_user user t = t.user_id === user

abbrev pub is_kind : TokenType → Token → Bool
is_kind k t = same_type t.type k

abbrev pub has_id : String → Token → Bool
has_id id t = t.id === id

abbrev pub refresh_of : String → Token → Bool
refresh_of user t = of_user user t && is_kind refresh t

abbrev pub names_account : String → Token → Bool
names_account account t = elim t.account_id [ none ↦ false | some a ↦ a === account ]

-- `{ userId, type: 'refresh', _id: { $ne: id } }`
abbrev pub other_refresh : String → String → Token → Bool
other_refresh user id t = refresh_of user t && not (has_id id t)

-- `{ userId, token, type: 'refresh', expiresAt: { $gt: now } }`
abbrev pub is_current : String → String → ℕ → Token → Bool
is_current user token now t = refresh_of user t && (t.token === token) && ltb now t.expires_at

abbrev pub bare : User → Payload
bare u = record { sub = u.id; email = u.email; account_id = none; role = none; user_role = none }

abbrev pub new_token : String → TokenType → String → String → Option String → ℕ → Token
new_token id k user token account now = record {
  id = id;
  user_id = user;
  token = token;
  type = k;
  account_id = account;
  expires_at = now + life_of k;
}

-- The identifiers that the database gives to a pair of new tokens.
pub record Ids : Type 0 where
  pub access_id : String
  pub refresh_id : String

abbrev pub signed : Jwt → Payload → ℕ → Tokens
signed jwt p now = record {
  access_token = jwt.sign access p now;
  refresh_token = jwt.sign refresh p now;
}

module _ (c : Collection Token) where
  -- `Promise.all` of the two creations.
  abbrev pub create_pair : Ids → String → Tokens → Option String → ℕ → c.Store → c.Store
  create_pair ids user ts account now s =
      c.create (new_token ids.refresh_id refresh user ts.refresh_token account now)
        (c.create (new_token ids.access_id access user ts.access_token account now) s)

  -- A refresh token that is changed where it stands.
  abbrev pub renew : String → String → Option String → ℕ → c.Store → c.Store
  renew id token account now s =
      c.update_one (has_id id)
        (λ t. record t { token = token; account_id = account; expires_at = now + life_of refresh })
        s

  unfoldable pub logout : String → c.Store → c.Store
  logout user s = c.delete_many (of_user user) s

  unfoldable pub handle_expired_tokens : ℕ → c.Store → c.Store
  handle_expired_tokens now s = c.delete_many (λ t. ltb t.expires_at now) s

-- What the strategy attaches to a request: the role is the user's of now, not that of the token.
pub record RequestUser : Type 0 where
  pub sub : String
  pub email : String
  pub account_id : Option String
  pub user_role : String

unfoldable pub validate : Payload → Option User → Option RequestUser
validate p none = none
validate p (some u) =
    some
      (record { sub = p.sub; email = p.email; account_id = p.account_id; user_role = u.user_role })
