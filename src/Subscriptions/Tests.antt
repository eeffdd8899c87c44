-- ===== src/Subscriptions/Tests.antt =====
-- A user asks for a plan in memory, and the theorems about it.
use whataapp_otp_project.Base.{◌≡◌, refl, ◌≢◌, true, false, none, some, [], ◌∷◌, arith, find}
use whataapp_otp_project.Base.Collection.{in_memory}
use whataapp_otp_project.Users.{User, active, EmbeddedSubscription, day_ms}
use whataapp_otp_project.Users
use whataapp_otp_project.Guards.{message_limit_guard}
use whataapp_otp_project.Guards
use whataapp_otp_project.Subscriptions.{
  approved, rejected, Subscription, UserSubscription, ok, cannot_disapprove, has_id, Tables, State,
  create, approve, disapprove, granted, subscribe,
}
use whataapp_otp_project.Subscriptions.Laws.{
  asked, people, approve_grants, approved_may_send, request_in_force,
}
use whataapp_otp_project.Subscriptions.Lifecycle.{
  approves, disapproves, decide_all, approved_is_final,
}

abbrev tables : Tables
tables = record {
  plans = in_memory Subscription;
  requests = in_memory UserSubscription;
  users = in_memory User;
}

abbrev basic : Subscription
basic = record {
  id = "p1";
  name = "Basic";
  message_limit = 100;
  duration_in_days = 30;
  is_active = true;
  is_custom = false;
  features = "basic_feature_1" ∷ [];
  price = 0;
  notes = none;
}

abbrev ann : User
ann = record {
  id = "u1";
  email = "ann@example.org";
  username = "ann";
  password = "x";
  user_role = "user";
  subscription = none;
}

abbrev request : UserSubscription
request = record {
  id = "r1";
  user = "u1";
  name = "Basic";
  message_limit = 100;
  duration_in_days = 30;
  features = "basic_feature_1" ∷ [];
  is_custom = false;
  price = 0;
  status = rejected;
  approved_at = none;
}

abbrev done : UserSubscription
done = record request { status = approved; approved_at = some 7 }

abbrev start : State tables
start = record { plans = basic ∷ []; requests = request ∷ []; users = ann ∷ [] }

abbrev fresh : State tables
fresh = record { plans = basic ∷ []; requests = []; users = ann ∷ [] }

abbrev finished : State tables
finished = record { plans = basic ∷ []; requests = done ∷ []; users = ann ∷ [] }

open_request : ◌≢◌ request.status approved
open_request = cc

approve_grants_example :
    find (Users.has_id "u1") (people tables (approve tables "r1" 5 start).0)
    ≡ some (subscribe (granted request 5) ann)
approve_grants_example = (approve_grants tables "r1" 5 start request refl open_request ann refl).0

approved_may_send_example :
    message_limit_guard tables.users "u1" 2592000005 (approve tables "r1" 5 start).0.users
    ≡ Guards.ok true
approved_may_send_example =
    approved_may_send tables "r1" 5 start request refl open_request ann 2592000005 refl
      (omega arith) (omega arith)

request_in_force_example :
    find
      (Users.has_id "u1")
      (people tables (approve tables "r9" 5 (create tables "p1" "u1" "r9" fresh).0).0)
    ≡ some (
        subscribe
          (record {
            name = "Basic";
            message_limit = 100;
            duration_in_days = 30;
            features = "basic_feature_1" ∷ [];
            is_custom = false;
            start_date = 5;
            end_date = 2592000005;
            messages_used = 0;
            status = active;
          })
          ann)
request_in_force_example =
    request_in_force tables "p1" "u1" "r9" 5 fresh basic ann refl refl refl refl

approved_is_final_example :
    find
      (has_id "r1")
      (asked tables (decide_all tables finished (disapproves "r1" ∷ approves "r1" 9 ∷ [])))
    ≡ some done
approved_is_final_example =
    approved_is_final tables "r1" done (disapproves "r1" ∷ approves "r1" 9 ∷ []) finished refl refl

disapprove-finished : (disapprove tables "r1" finished).1 ≡ ok cannot_disapprove
unfolding disapprove
disapprove-finished = refl
