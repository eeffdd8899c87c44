-- ===== src/Auth/Tests.antt =====
-- Concrete users, tokens and keys, and the lemmas on them.
use whataapp_otp_project.Base.{
  ◌≡◌, ◌≢◌, refl, true, none, some, List, [], ◌∷◌, ◌==◌, if◌then◌else◌, eq_iff, arith,
}
use whataapp_otp_project.Base.Collection.{Collection, in_memory}
use whataapp_otp_project.Users.{User}
use whataapp_otp_project.Users.Service.{find_user_by_id}
use whataapp_otp_project.Accounts.{Account, find_account_by_id}
use whataapp_otp_project.Guards.{ApiKey, Caller, api_key_guard, check_key}
use whataapp_otp_project.Guards as Guard
use whataapp_otp_project.Auth.{
  refresh, Token, Payload, Jwt, invalid_refresh_token, ok, err, Tokens, Ids, logout,
}
use whataapp_otp_project.Auth.Issue.{rotate, exchange, refresh_tokens, select_for, select_account}
use whataapp_otp_project.Auth.Keys.{get_active_api_key_for_account, remove_account_from_tokens}
use whataapp_otp_project.Auth.Accepted.{refresh_once, logout_refuses}
use whataapp_otp_project.Auth.Active.{Primary, get_active-Primary}

abbrev users : Collection User
users = in_memory User

abbrev accounts : Collection Account
accounts = in_memory Account

abbrev tokens : Collection Token
tokens = in_memory Token

abbrev keys : Collection ApiKey
keys = in_memory ApiKey

abbrev ann : User
ann = record {
  id = "u1";
  email = "ann@x";
  username = "ann";
  password = "p";
  user_role = "user";
  subscription = none;
}

abbrev shop : Account
shop = record {
  id = "a1";
  name = "Shop";
  phone_number = "100";
  user = "u1";
  client_id = some "c1";
  status = "ready";
}

abbrev said : Payload
said = record { sub = "u1"; email = "ann@x"; account_id = none; role = none; user_role = none }

abbrev jwt : Jwt
jwt = record { sign = λ k p now. if now == 0 then "old" else "new"; verify = λ k t now. some said }

abbrev ids : Ids
ids = record { access_id = "t2"; refresh_id = "t3" }

abbrev stored : List Token
stored =
    record {
      id = "t1";
      user_id = "u1";
      token = "old";
      type = refresh;
      account_id = some "a1";
      expires_at = 604800000;
    }
    ∷ record {
      id = "t0";
      user_id = "u1";
      token = "older";
      type = refresh;
      account_id = none;
      expires_at = 604800000;
    }
    ∷ []

abbrev given : Tokens
given = record { access_token = "new"; refresh_token = "new" }

exchanged : (refresh_tokens jwt users tokens ids "old" 1000 (ann ∷ []) stored).1 ≡ ok given
unfolding refresh_tokens exchange find_user_by_id rotate
exchanged = refl

new_is_not_old : given.refresh_token ≢ "old"
new_is_not_old h = ground (arith, h, eq_iff "new" "old")

refresh_once_example :
    (refresh_tokens jwt users tokens ids "old" 2000
      (ann ∷ [])
      (refresh_tokens jwt users tokens ids "old" 1000 (ann ∷ []) stored).0).1
    ≡ err invalid_refresh_token
refresh_once_example =
    refresh_once jwt users tokens ids ids "old" 1000 2000 (ann ∷ []) (ann ∷ []) stored said given
      refl (λ q h. ground (arith, h)) ((refl, tt), (tt, tt)) (refl, (refl, tt)) exchanged
      new_is_not_old

logout_refuses_example :
    refresh_tokens jwt users tokens ids "old" 1000 (ann ∷ []) (logout tokens "u1" stored)
    ≡ (logout tokens "u1" stored, err invalid_refresh_token)
logout_refuses_example =
    logout_refuses jwt users tokens ids "u1" "old" 1000 (ann ∷ []) stored (λ q h. ground (arith, h))

selected :
    (select_account jwt users accounts tokens ids "u1" "a1" 1000 (ann ∷ []) (shop ∷ []) stored).1
    ≡ ok given
unfolding select_account find_user_by_id find_account_by_id select_for
selected = refl

abbrev first_key : ApiKey
first_key = record {
  id = "k1";
  key = "one";
  user_id = "u1";
  account_id = "a1";
  is_active = true;
  created_at = 5;
}

abbrev second_key : ApiKey
second_key = record first_key { id = "k2"; key = "two"; created_at = 3 }

get_active-Primary_example :
    Primary "u1" "a1"
      (first_key ∷ second_key ∷ [])
      (get_active_api_key_for_account keys "u1" "a1" (first_key ∷ second_key ∷ [])).0
      (get_active_api_key_for_account keys "u1" "a1" (first_key ∷ second_key ∷ [])).1
get_active-Primary_example =
    get_active-Primary keys "u1" "a1" (first_key ∷ second_key ∷ []) ((refl, tt), (tt, tt))

-- Where no token names the account, its key stays active, and the guard lets it through.
key_survives :
    api_key_guard keys
      (some "one")
      (remove_account_from_tokens jwt users tokens keys ids "u1" "a1" 1000
        (ann ∷ [])
        ([], first_key ∷ [])).1
    ≡ Guard.ok (record { user_id = "u1"; account_id = "a1" })
unfolding remove_account_from_tokens api_key_guard check_key
key_survives = refl
