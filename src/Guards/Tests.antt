-- ===== src/Guards/Tests.antt =====
-- The guards at concrete requests.
use whataapp_otp_project.Base.{◌≡◌, refl, ◌↔◌, true, false, some, List, [], ◌∷◌}
use whataapp_otp_project.Base.Collection.{in_memory}
use whataapp_otp_project.Users.{User, active}
use whataapp_otp_project.Guards.{
  ok, err, ApiKey, Caller, api_key_guard, roles_guard, message_limit_guard, subscription_inactive,
  user_not_found, insufficient_role, api_key_missing,
}
use whataapp_otp_project.Guards.Laws.{MaySend, message_limit_guard_iff}

abbrev new_user : User
new_user = record {
  id = "u1";
  email = "ann@example.org";
  username = "ann";
  password = "x";
  user_role = "user";
  subscription = some (record {
    name = "Free";
    message_limit = 5;
    duration_in_days = 30;
    features = [];
    is_custom = false;
    start_date = 0;
    end_date = 2592000000;
    messages_used = 4;
    status = active;
  });
}

limits :
    (message_limit_guard (in_memory User) "u1" 2592000000 (new_user ∷ []) ≡ ok true)
    × (message_limit_guard (in_memory User) "u1" 2592000001 (new_user ∷ [])
        ≡ err subscription_inactive)
    × (message_limit_guard (in_memory User) "u2" 1 (new_user ∷ []) ≡ err user_not_found)
unfolding message_limit_guard
limits = (refl, refl, refl)

message_limit_guard_iff_example :
    (message_limit_guard (in_memory User) "u1" 7 (new_user ∷ []) ≡ ok true)
    ↔ MaySend 7 (some new_user)
message_limit_guard_iff_example = message_limit_guard_iff (in_memory User) "u1" 7 (new_user ∷ [])

roles :
    (roles_guard (some ("admin" ∷ [])) (some (some "user")) ≡ err insufficient_role)
    × (roles_guard (some ("user" ∷ "admin" ∷ [])) (some (some "admin")) ≡ ok true)
unfolding roles_guard
roles = (refl, refl)

abbrev keys : List ApiKey
keys =
    record {
      id = "k1";
      key = "abc";
      user_id = "u0";
      account_id = "a0";
      is_active = false;
      created_at = 1;
    }
    ∷ record {
      id = "k2";
      key = "abc";
      user_id = "u1";
      account_id = "a1";
      is_active = true;
      created_at = 2;
    }
    ∷ []

api_keys :
    (api_key_guard (in_memory ApiKey) (some "abc") keys
      ≡ ok (record { user_id = "u1"; account_id = "a1" }))
    × (api_key_guard (in_memory ApiKey) (some "") keys ≡ err api_key_missing)
unfolding api_key_guard
api_keys = (refl, refl)

abbrev the_caller : Caller
the_caller = record { user_id = "u1"; account_id = "a1" }
