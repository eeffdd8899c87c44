-- ===== src/Auth/Keys.antt =====
-- src/modules/auth/auth.service.ts: the API keys of an account, and what goes when an account goes.
-- The identifier of a new key and the key itself come with a call.
use whataapp_otp_project.Base.{
  ℕ, String, Bool, true, false, ◌&&◌, Option, none, some, List, [], ◌∷◌, ◌===◌, if◌then◌else◌, leb,
  any, find, is_some,
}
use whataapp_otp_project.Base.Collection.{Collection}
use whataapp_otp_project.Users.{User}
use whataapp_otp_project.Users.Service as UserService
use whataapp_otp_project.Users.Service.{find_user_by_id}
use whataapp_otp_project.Accounts.{Account, find_accounts_by_user}
use whataapp_otp_project.Accounts as AccountService
use whataapp_otp_project.Guards.{ApiKey}
use whataapp_otp_project.Auth.{
  Token, Jwt, no_such_account, Result, ok, err, Ids, of_user, names_account, bare, signed,
  create_pair, account_not_found,
}

abbrev pub of_account : String → ApiKey → Bool
of_account account k = k.account_id === account

-- `{ userId, accountId, isActive: true }`
abbrev pub active_of : String → String → ApiKey → Bool
active_of user account k = (k.user_id === user) && of_account account k && k.is_active

abbrev pub deactivate : ApiKey → ApiKey
deactivate k = record k { is_active = false }

-- `sort({ createdAt: 1 })`; keys of one instant keep their order.
abbrev pub insert_by_age : ApiKey → List ApiKey → List ApiKey
insert_by_age k [] = k ∷ []
insert_by_age k (j ∷ ks) =
    if leb k.created_at j.created_at then k ∷ j ∷ ks else j ∷ insert_by_age k ks

abbrev pub sort_by_age : List ApiKey → List ApiKey
sort_by_age [] = []
sort_by_age (k ∷ ks) = insert_by_age k (sort_by_age ks)

-- `{ _id: { $in: ids } }`
abbrev pub is_among : List ApiKey → ApiKey → Bool
is_among ks k = any (λ j. j.id === k.id) ks

module _ (kc : Collection ApiKey) where
  unfoldable pub keep_oldest : List ApiKey → kc.Store → kc.Store × Option String
  keep_oldest [] s = (s, none)
  keep_oldest (k ∷ []) s = (s, some k.key)
  keep_oldest (k ∷ j ∷ ks) s = (kc.update_many (is_among (j ∷ ks)) deactivate s, some k.key)

  unfoldable pub get_active_api_key_for_account :
      String → String → kc.Store → kc.Store × Option String
  get_active_api_key_for_account user account s =
      keep_oldest (sort_by_age (kc.find_all (active_of user account) s)) s

  abbrev pub new_key : String → String → String → String → ℕ → ApiKey
  new_key id key user account now = record {
    id = id;
    key = key;
    user_id = user;
    account_id = account;
    is_active = true;
    created_at = now;
  }

  -- A key is made where the user has the account.
  unfoldable pub make_key :
      AccountService.Result (List Account)
      → String
      → String
      → String
      → String
      → ℕ
      → kc.Store
      → kc.Store × Result String
  make_key (AccountService.err e) id key user account now s = (s, err account_not_found)
  make_key (AccountService.ok accounts) id key user account now s =
      if is_some (find (λ (a : Account). a.id === account) accounts)
      then (kc.create (new_key id key user account now) s, ok key)
      else (s, err no_such_account)

module _ (ac : Collection Account) (kc : Collection ApiKey) where
  unfoldable pub get_or_create_api_key :
      String → String → String → String → ℕ → ac.Store → kc.Store → kc.Store × Result String
  get_or_create_api_key id key user account now accounts s =
      let (s1, existing) = get_active_api_key_for_account kc user account s in
      elim existing [
        | some k ↦ (s1, ok k)
        | none ↦ make_key kc (find_accounts_by_user ac user accounts) id key user account now s1
      ]

abbrev pub account_token : String → String → Token → Bool
account_token user account t = of_user user t && names_account account t

module _ (kc : Collection ApiKey) where
  unfoldable pub invalidate_keys : String → kc.Store → kc.Store
  invalidate_keys account s = elim (kc.find_all (λ k. of_account account k && k.is_active) s) [
    | [] ↦ s
    | k ∷ ks ↦ kc.update_many (of_account account) deactivate s
  ]

module _ (jwt : Jwt) (tk : Collection Token) where
  unfoldable pub replace_tokens : Ids → User → String → ℕ → tk.Store → tk.Store
  replace_tokens ids u account now s =
      tk.delete_many (account_token u.id account)
        (create_pair tk ids u.id (signed jwt (bare u) now) none now s)

module _ (jwt : Jwt) (us : Collection User) (tk : Collection Token) (kc : Collection ApiKey) where
  -- Nothing is done, to the keys neither, where no token of the user names the account. A user that
  -- is not stored is an exception.
  unfoldable pub remove_account_from_tokens :
      Ids → String → String → ℕ → us.Store → tk.Store × kc.Store → tk.Store × kc.Store
  remove_account_from_tokens ids user account now users s =
      elim (tk.find_all (account_token user account) s.0) [
        | [] ↦ s
        | t ∷ ts ↦ elim (find_user_by_id us user users) [
          | UserService.err e ↦ s
          | UserService.ok u ↦
              (replace_tokens jwt tk ids u account now s.0, invalidate_keys kc account s.1)
        ]
      ]
