-- ===== src/Auth/Accepted.antt =====
-- Which refresh tokens the service accepts after its operations.
use whataapp_otp_project.Base.{
  ℕ, ◌≡◌, ◌≢◌, refl, sym, subst, ◌∙◌, ap, inl, inr, String, false, none, some, ◌===◌, find,
  find_passes, All-find-none, All, All-imp, arith, eq_iff, Bool-cases, Option-cases,
}
use whataapp_otp_project.Base.Pairwise.{dropped-All}
use whataapp_otp_project.Base.Collection.{Collection}
use whataapp_otp_project.Users.{User}
use whataapp_otp_project.Users as UserModel
use whataapp_otp_project.Users.Service.{find_user_by_id}
use whataapp_otp_project.Accounts.{Account, find_account_by_id}
use whataapp_otp_project.Accounts as AccountService
use whataapp_otp_project.Auth.{
  refresh, Token, Payload, Jwt, invalid_refresh_token, ok, err, Tokens, Ids, of_user, is_current,
  logout,
}
use whataapp_otp_project.Auth.Issue.{
  rotate, exchange, refresh_tokens, select_for, select_account, store_selection,
}
use whataapp_otp_project.Auth.Rotation.{
  OnlyRefresh, IsIdentified, OnlyRefresh-none, rotate-OnlyRefresh, store_selection-OnlyRefresh,
  answered,
}

module _ (jwt : Jwt) (us : Collection User) (tk : Collection Token) where
  pub found_id :
      (user : String) (users : us.Store) (u : User)
      → us.find_one (UserModel.has_id user) users ≡ some u
      → u.id ≡ user
  found_id user users u e = (eq_iff u.id user).0 (
      find_passes (UserModel.has_id user) (us.docs users)
        (sym (us.find_one_lem (UserModel.has_id user) users) ∙ e))

  exchange-OnlyRefresh :
      (ids : Ids) (user token : String) (now : ℕ) (users : us.Store) (s : tk.Store) (ts : Tokens)
      → IsIdentified (tk.docs s)
      → All (λ t. (t.id === ids.access_id) ≡ false) (tk.docs s)
      → (exchange jwt us tk ids user token now users s).1 ≡ ok ts
      → OnlyRefresh user ts.refresh_token
          (tk.docs (exchange jwt us tk ids user token now users s).0)
  unfolding exchange find_user_by_id
  exchange-OnlyRefresh ids user token now users s ts d new =
      elim (Option-cases (tk.find_one (is_current user token now) s)) [
        | inl e ↦ rw (exchange, e) (λ h. absurd cc)
        | inr (r, e) ↦ elim (Option-cases (us.find_one (UserModel.has_id user) users)) [
          | inl f ↦ rw (exchange, e, find_user_by_id, f) (λ h. absurd cc)
          | inr (u, f) ↦
              rw (exchange, e, find_user_by_id, f)
                (λ h.
                  subst
                    (λ i. OnlyRefresh i ts.refresh_token (tk.docs (rotate jwt tk ids u r now s).0))
                    (found_id user users u f) (rotate-OnlyRefresh jwt tk ids u r now s ts d new h))
        ]
      ]

  -- Where a refresh token is exchanged, the token of the answer is the only refresh token that is left
  -- of the user, if no two stored tokens have one identifier and that of the new token is new.
  pub refresh_tokens-OnlyRefresh :
      (ids : Ids) (token : String) (now : ℕ) (users : us.Store) (s : tk.Store) (p : Payload)
      (ts : Tokens)
      → jwt.verify refresh token now ≡ some p
      → IsIdentified (tk.docs s)
      → All (λ t. (t.id === ids.access_id) ≡ false) (tk.docs s)
      → (refresh_tokens jwt us tk ids token now users s).1 ≡ ok ts
      → OnlyRefresh p.sub ts.refresh_token
          (tk.docs (refresh_tokens jwt us tk ids token now users s).0)
  unfolding refresh_tokens
  refresh_tokens-OnlyRefresh ids token now users s p ts v d new =
      rw (refresh_tokens, v) (exchange-OnlyRefresh ids p.sub token now users s ts d new)

  -- A user none of whose refresh tokens is this one is refused with it, and nothing is stored.
  exchange_refused :
      (ids : Ids) (user token : String) (now : ℕ) (users : us.Store) (s : tk.Store)
      → find (is_current user token now) (tk.docs s) ≡ none
      → exchange jwt us tk ids user token now users s ≡ (s, err invalid_refresh_token)
  unfolding exchange
  exchange_refused ids user token now users s f =
      rw (exchange, tk.find_one_lem (is_current user token now) s ∙ f) refl

  refresh_refused :
      (ids : Ids) (user token : String) (now : ℕ) (users : us.Store) (s : tk.Store)
      → ((p : Payload) → jwt.verify refresh token now ≡ some p → p.sub ≡ user)
      → find (is_current user token now) (tk.docs s) ≡ none
      → refresh_tokens jwt us tk ids token now users s ≡ (s, err invalid_refresh_token)
  unfolding refresh_tokens
  refresh_refused ids user token now users s says f =
      elim (Option-cases (jwt.verify refresh token now)) [
        | inl e ↦ rw (refresh_tokens, e) refl
        | inr (p, e) ↦
            rw (refresh_tokens, e)
              (exchange_refused ids p.sub token now users s
                (subst (λ u. find (is_current u token now) (tk.docs s) ≡ none) (sym (says p e)) f))
      ]

  -- A refresh token that was exchanged for another one is refused at any later time, if it then
  -- still reads as a token of the same user, no two stored tokens have one identifier and that of
  -- the new access token is new.
  pub refresh_once :
      (ids ids' : Ids) (token : String) (now later : ℕ) (users users' : us.Store) (s : tk.Store)
      (p : Payload) (ts : Tokens)
      → jwt.verify refresh token now ≡ some p
      → ((q : Payload) → jwt.verify refresh token later ≡ some q → q.sub ≡ p.sub)
      → IsIdentified (tk.docs s)
      → All (λ t. (t.id === ids.access_id) ≡ false) (tk.docs s)
      → (refresh_tokens jwt us tk ids token now users s).1 ≡ ok ts
      → ts.refresh_token ≢ token
      → (refresh_tokens jwt us tk ids' token later users'
          (refresh_tokens jwt us tk ids token now users s).0).1
        ≡ err invalid_refresh_token
  refresh_once ids ids' token now later users users' s p ts v says d new h n =
      let s1 = (refresh_tokens jwt us tk ids token now users s).0 in
      ap (λ o. o.1)
        (refresh_refused ids' p.sub token later users' s1 says (
          OnlyRefresh-none p.sub ts.refresh_token token later (tk.docs s1)
            (refresh_tokens-OnlyRefresh ids token now users s p ts v d new h) n))

  -- After a logout every refresh token that reads as one of the user is refused, and nothing is
  -- stored.
  pub logout_refuses :
      (ids : Ids) (user token : String) (now : ℕ) (users : us.Store) (s : tk.Store)
      → ((p : Payload) → jwt.verify refresh token now ≡ some p → p.sub ≡ user)
      → refresh_tokens jwt us tk ids token now users (logout tk user s)
        ≡ (logout tk user s, err invalid_refresh_token)
  unfolding logout
  logout_refuses ids user token now users s says =
      refresh_refused ids user token now users (logout tk user s) says (
        All-find-none (is_current user token now) (tk.docs (logout tk user s)) (
          All-imp (λ t. of_user user t ≡ false) (λ t. is_current user token now t ≡ false)
            (tk.docs (logout tk user s)) (λ t h. ground (arith, h))
            (rw (tk.delete_many_lem (of_user user) s) (dropped-All (of_user user) (tk.docs s)))))

module _ (jwt : Jwt) (us : Collection User) (ac : Collection Account) (tk : Collection Token) where
  -- Where an account is selected, the refresh token of the answer is the only one that is left of the
  -- user, if no two stored tokens have one identifier.
  pub select_account-OnlyRefresh :
      (ids : Ids) (user account : String) (now : ℕ) (users : us.Store) (accounts : ac.Store)
      (s : tk.Store) (ts : Tokens)
      → IsIdentified (tk.docs s)
      → (select_account jwt us ac tk ids user account now users accounts s).1 ≡ ok ts
      → OnlyRefresh user ts.refresh_token
          (tk.docs (select_account jwt us ac tk ids user account now users accounts s).0)
  unfolding select_account find_user_by_id find_account_by_id select_for
  select_account-OnlyRefresh ids user account now users accounts s ts d =
      elim (Option-cases (us.find_one (UserModel.has_id user) users)) [
        | inl e ↦ rw (select_account, find_user_by_id, e) (λ h. absurd cc)
        | inr (u, e) ↦ elim (Option-cases (ac.find_one (AccountService.has_id account) accounts)) [
          | inl f ↦ rw (select_account, find_user_by_id, e, find_account_by_id, f) (λ h. absurd cc)
          | inr (a, f) ↦ elim (Bool-cases (a.user === u.id)) [
            | inr g ↦
                rw (select_account, find_user_by_id, e, find_account_by_id, f, select_for, g)
                  (λ h. absurd cc)
            | inl g ↦
                rw (select_account, find_user_by_id, e, find_account_by_id, f, select_for, g)
                  (λ h.
                    subst
                      (λ i.
                        OnlyRefresh i ts.refresh_token
                          (tk.docs (store_selection jwt tk ids u a.id now s)))
                      (found_id jwt us tk user users u e)
                      (subst
                        (λ k.
                          OnlyRefresh u.id k (tk.docs (store_selection jwt tk ids u a.id now s)))
                        (ap answered h) (store_selection-OnlyRefresh jwt tk ids u a.id now s d)))
          ]
        ]
      ]
