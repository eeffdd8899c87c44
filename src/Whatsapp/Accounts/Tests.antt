-- ===== src/Whatsapp/Accounts/Tests.antt =====
-- An account that becomes ready, and its deletion with what belongs to it.
use whataapp_otp_project.Base.{◌≡◌, refl, true, none, some, [], ◌∷◌}
use whataapp_otp_project.Base.Collection.{in_memory}
use whataapp_otp_project.Users.{User}
use whataapp_otp_project.Accounts.{Account, find_accounts_by_user}
use whataapp_otp_project.Contacts.{Contact}
use whataapp_otp_project.Groups.{Group}
use whataapp_otp_project.Rules.{Rule}
use whataapp_otp_project.Templates.{Template}
use whataapp_otp_project.Guards.{ApiKey}
use whataapp_otp_project.Auth.{refresh, Token, Jwt, Ids, ok}
use whataapp_otp_project.Auth.Keys.{
  keep_oldest, get_active_api_key_for_account, make_key, get_or_create_api_key,
}
use whataapp_otp_project.Whatsapp.Accounts.{
  connected, blank, handle_account_ready, Collections, World,
}

abbrev stores : Collections
stores = record {
  users = in_memory User;
  accounts = in_memory Account;
  contacts = in_memory Contact;
  groups = in_memory Group;
  rules = in_memory Rule;
  templates = in_memory Template;
  tokens = in_memory Token;
  keys = in_memory ApiKey;
}

abbrev jwt : Jwt
jwt = record { sign = λ k p now. "new"; verify = λ k t now. none }

abbrev ids : Ids
ids = record { access_id = "t2"; refresh_id = "t3" }

abbrev ann : User
ann = record {
  id = "u1";
  email = "ann@x";
  username = "ann";
  password = "p";
  user_role = "user";
  subscription = none;
}

abbrev shop : Account
shop = connected "Shop" "c1" "u1" (blank "a1")

abbrev old_token : Token
old_token = record {
  id = "t1";
  user_id = "u1";
  token = "old";
  type = refresh;
  account_id = some "a1";
  expires_at = 604800000;
}

abbrev shop_key : ApiKey
shop_key = record {
  id = "k1";
  key = "one";
  user_id = "u1";
  account_id = "a1";
  is_active = true;
  created_at = 5;
}

abbrev full : World jwt stores
full = record {
  users = ann ∷ [];
  accounts = shop ∷ blank "a2" ∷ [];
  contacts =
      record {
        id = "p1";
        name = "Bob";
        phone_number = "+1";
        groups = [];
        tags = [];
        account = "a1";
      }
      ∷ [];
  groups = record { id = "g1"; name = "All"; contacts = "p1" ∷ []; account = "a1" } ∷ [];
  rules = record { id = "r1"; keywords = "hi" ∷ []; response = "Hello"; account = "a1" } ∷ [];
  templates = [];
  tokens = old_token ∷ [];
  keys = shop_key ∷ [];
}

ready_account :
    handle_account_ready stores.accounts stores.keys ("a1", "k1", "one") "Shop" "c1" "u1" 5 ([], [])
    ≡ ((shop ∷ [], shop_key ∷ []), ok "one")
unfolding handle_account_ready connected get_or_create_api_key get_active_api_key_for_account
    keep_oldest make_key find_accounts_by_user
ready_account = refl
