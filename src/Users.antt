-- ===== src/Users.antt =====
-- src/modules/users/schema/users.schema.ts: users with their embedded subscription, and the free
-- plan that a new user gets. Dates are milliseconds.
pub mod Service
pub mod Names
mod Tests
use whataapp_otp_project.Base.{ℕ, ◌+◌, String, Bool, false, Option, List, [], ◌∷◌, ◌===◌}

pub data UserSubscriptionStatus : Type 0 where
  active warning expired : UserSubscriptionStatus

pub record EmbeddedSubscription : Type 0 where
  pub name : String
  pub message_limit : ℕ
  pub duration_in_days : ℕ
  pub features : List String
  pub is_custom : Bool
  pub start_date : ℕ
  pub end_date : ℕ
  pub messages_used : ℕ
  pub status : UserSubscriptionStatus

pub record User : Type 0 where
  pub id : String
  pub email : String
  pub username : String
  pub password : String
  pub user_role : String
  pub subscription : Option EmbeddedSubscription

abbrev pub day_ms : ℕ
day_ms = 86400000

unfoldable pub get_free_plan : ℕ → EmbeddedSubscription
get_free_plan now = record {
  name = "Free";
  message_limit = 5;
  duration_in_days = 30;
  features = "Basic messaging" ∷ [];
  is_custom = false;
  start_date = now;
  end_date = now + 2592000000;
  messages_used = 0;
  status = active;
}

abbrev pub has_id : String → User → Bool
has_id id u = u.id === id
