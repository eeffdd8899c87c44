-- ===== src/Guards.antt =====
-- src/common/guards: what lets a request through to a handler.
pub mod Laws
mod Tests
use whataapp_otp_project.Base.{
  ℕ, String, Bool, true, false, ◌&&◌, ◌||◌, not, Option, none, some, List, ◌===◌, ltb, leb,
  if◌then◌else◌, any, truthy,
}
use whataapp_otp_project.Base.Collection.{Collection}
use whataapp_otp_project.Users.{
  User, UserSubscriptionStatus, active, warning, expired, EmbeddedSubscription, has_id,
}

pub data Denied : Type 0 where
  user_not_found : Denied
  subscription_inactive : Denied
  message_limit_reached : Denied
  role_not_found : Denied
  insufficient_role : Denied
  api_key_missing : Denied
  invalid_api_key : Denied
  -- Reading a field of `undefined`.
  type_error : Denied

pub data Result {ℓ} (A : Type ℓ) : Type ℓ where
  ok : A → Result A
  err : Denied → Result A

abbrev pub is_active : UserSubscriptionStatus → Bool
is_active active = true
is_active warning = false
is_active expired = false

-- message-limit.guard.ts, once the user is read.
unfoldable pub check_limit : EmbeddedSubscription → ℕ → Result Bool
check_limit sub now =
    if ltb sub.end_date now || not (is_active sub.status)
    then err subscription_inactive
    else if leb sub.message_limit sub.messages_used
    then err message_limit_reached
    else ok true

unfoldable pub check_user : Option User → ℕ → Result Bool
unfolding check_limit
check_user none now = err user_not_found
check_user (some u) now = elim u.subscription [
  | none ↦ err type_error
  | some sub ↦ check_limit sub now
]

module _ (users : Collection User) where
  open users use {Store, find_one}

  unfoldable pub message_limit_guard : String → ℕ → Store → Result Bool
  unfolding check_user
  message_limit_guard sub now s = check_user (find_one (has_id sub) s) now

-- roles.guard.ts: the roles that the handler or its class asks for, and the user of the request
-- with its role.
unfoldable pub check_role : List String → Option (Option String) → Result Bool
check_role roles none = err role_not_found
check_role roles (some none) = err role_not_found
check_role roles (some (some role)) =
    if truthy (some role)
    then if any (λ r. r === role) roles then ok true else err insufficient_role
    else err role_not_found

unfoldable pub roles_guard : Option (List String) → Option (Option String) → Result Bool
unfolding check_role
roles_guard none user = ok true
roles_guard (some roles) user = check_role roles user

-- src/modules/OTP/schema/api-key.schema.ts and api-key.guard.ts.
pub record ApiKey : Type 0 where
  pub id : String
  pub key : String
  pub user_id : String
  pub account_id : String
  pub is_active : Bool
  pub created_at : ℕ

pub record Caller : Type 0 where
  pub user_id : String
  pub account_id : String

abbrev pub is_active_key : String → ApiKey → Bool
is_active_key key k = (k.key === key) && k.is_active

-- The record found for the key of the request.
unfoldable pub check_key : String → Option ApiKey → Result Caller
check_key key o =
    if truthy (some key)
    then elim o [
      | none ↦ err invalid_api_key
      | some k ↦ ok (record { user_id = k.user_id; account_id = k.account_id })
    ]
    else err api_key_missing

module _ (keys : Collection ApiKey) where
  open keys use {Store, find_one}

  -- The caller that the guard attaches to the request.
  unfoldable pub api_key_guard : Option String → Store → Result Caller
  unfolding check_key
  api_key_guard none s = err api_key_missing
  api_key_guard (some key) s = check_key key (find_one (is_active_key key) s)
