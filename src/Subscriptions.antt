-- ===== src/Subscriptions.antt =====
-- src/modules/subscriptions (plans) and src/modules/user-subscriptions (the requests of users for a
-- plan, with the approval that puts it into force). A call takes the time that the service reads
-- and the identifier that the database generates.
pub mod Laws
pub mod Lifecycle
mod Tests
use whataapp_otp_project.Base.{
  ℕ, ◌+◌, ◌*◌, String, Bool, false, Option, none, some, List, ◌===◌, if◌then◌else◌,
}
use whataapp_otp_project.Base.Collection.{Collection}
use whataapp_otp_project.Users.{User, UserSubscriptionStatus, active, EmbeddedSubscription, day_ms}
use whataapp_otp_project.Users

pub data SubscriptionStatus : Type 0 where
  pending approved rejected : SubscriptionStatus

pub record Subscription : Type 0 where
  pub id : String
  pub name : String
  pub message_limit : ℕ
  pub duration_in_days : ℕ
  pub is_active : Bool
  pub is_custom : Bool
  pub features : List String
  pub price : ℕ
  pub notes : Option String

pub record UserSubscription : Type 0 where
  pub id : String
  pub user : String
  pub name : String
  pub message_limit : ℕ
  pub duration_in_days : ℕ
  pub features : List String
  pub is_custom : Bool
  pub price : ℕ
  pub status : SubscriptionStatus
  pub approved_at : Option ℕ

pub data Error : Type 0 where
  no_such_plan : Error
  request_not_found : Error
  subscription_not_found : Error

-- What the calls answer.
pub data Reply : Type 0 where
  already_approved : Reply
  applied : Reply
  already_disapproved : Reply
  cannot_disapprove : Reply
  disapproved : Reply

pub data Result {ℓ} (A : Type ℓ) : Type ℓ where
  ok : A → Result A
  err : Error → Result A

abbrev pub has_id : String → UserSubscription → Bool
has_id id r = r.id === id

abbrev pub has_user : String → UserSubscription → Bool
has_user user r = r.user === user

abbrev pub is_plan : String → Subscription → Bool
is_plan id p = p.id === id

-- The request for a plan, in place of what the document held: the approval's date stays.
unfoldable pub renew_request : Subscription → String → UserSubscription → UserSubscription
renew_request p user r = record r {
  user = user;
  status = pending;
  name = p.name;
  message_limit = p.message_limit;
  duration_in_days = p.duration_in_days;
  features = p.features;
  is_custom = p.is_custom;
  price = p.price;
}

unfoldable pub new_request : Subscription → String → String → UserSubscription
new_request p user id = record {
  id = id;
  user = user;
  name = p.name;
  message_limit = p.message_limit;
  duration_in_days = p.duration_in_days;
  features = p.features;
  is_custom = p.is_custom;
  price = p.price;
  status = pending;
  approved_at = none;
}

-- The subscription that an approval puts into force.
unfoldable pub granted : UserSubscription → ℕ → EmbeddedSubscription
granted r now = record {
  name = r.name;
  message_limit = r.message_limit;
  duration_in_days = r.duration_in_days;
  features = r.features;
  is_custom = r.is_custom;
  start_date = now;
  end_date = now + r.duration_in_days * day_ms;
  messages_used = 0;
  status = active;
}

abbrev pub subscribe : EmbeddedSubscription → User → User
subscribe sub u = record u { subscription = some sub }

-- The collections that the two services use.
pub record Tables : Type 1 where
  pub plans : Collection Subscription
  pub requests : Collection UserSubscription
  pub users : Collection User

module _ (t : Tables) where
  pub record State : Type 0 where
    pub plans : t.plans.Store
    pub requests : t.requests.Store
    pub users : t.users.Store

  unfoldable pub create : String → String → String → State → State × Result (Unit {0})
  create plan user id s = elim (t.plans.find_one (is_plan plan) s.plans) [
    | none ↦ (s, err no_such_plan)
    | some p ↦ (
      record s {
        requests =
            t.requests.upsert (has_user user) (renew_request p user) (new_request p user id)
              s.requests;
      },
      ok tt,
    )
  ]

  -- The user's subscription is replaced first, then the request is saved.
  unfoldable pub grant : UserSubscription → ℕ → State → State
  grant r now s = record s {
    users = t.users.update_one (Users.has_id r.user) (subscribe (granted r now)) s.users;
    requests =
        t.requests.update_one (has_id r.id)
          (λ x. record x { status = approved; approved_at = some now }) s.requests;
  }

  unfoldable pub approve : String → ℕ → State → State × Result Reply
  unfolding grant
  approve id now s = elim (t.requests.find_one (has_id id) s.requests) [
    | none ↦ (s, err request_not_found)
    | some r ↦ elim r.status [
      | approved ↦ (s, ok already_approved)
      | _ ↦ (grant r now s, ok applied)
    ]
  ]

  unfoldable pub disapprove : String → State → State × Result Reply
  disapprove id s = elim (t.requests.find_one (has_id id) s.requests) [
    | none ↦ (s, err request_not_found)
    | some r ↦ elim r.status [
      | rejected ↦ (s, ok already_disapproved)
      | approved ↦ (s, ok cannot_disapprove)
      | pending ↦ (
        record s {
          requests =
              t.requests.update_one (has_id r.id) (λ x. record x { status = rejected }) s.requests;
        },
        ok disapproved,
      )
    ]
  ]

  unfoldable pub delete : String → State → State
  delete id s = record s { requests = t.requests.delete_one (has_id id) s.requests }

  -- subscriptions.service.ts: plans are made, changed, withdrawn and deleted.
  unfoldable pub create_plan : Subscription → State → State
  create_plan p s = record s { plans = t.plans.create p s.plans }

  unfoldable pub update_plan :
      String → (Subscription → Subscription) → State → State × Result (Unit {0})
  update_plan id change s = elim (t.plans.find_one (is_plan id) s.plans) [
    | none ↦ (s, err subscription_not_found)
    | some p ↦ (record s { plans = t.plans.update_one (is_plan id) change s.plans }, ok tt)
  ]

  unfoldable pub deactivate_plan : String → State → State × Result (Unit {0})
  unfolding update_plan
  deactivate_plan id s = update_plan id (λ p. record p { is_active = false }) s

  unfoldable pub delete_plan : String → State → State × Result (Unit {0})
  delete_plan id s = elim (t.plans.find_one (is_plan id) s.plans) [
    | none ↦ (s, err subscription_not_found)
    | some p ↦ (record s { plans = t.plans.delete_one (is_plan id) s.plans }, ok tt)
  ]
