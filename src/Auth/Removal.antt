-- ===== src/Auth/Removal.antt =====
-- What is left of the tokens and the API keys of an account that goes.
use whataapp_otp_project.Base.{
  ℕ, ◌≡◌, refl, sym, subst, ◌∙◌, inl, inr, ◌⊎◌, String, Bool, true, false, ◌&&◌, none, some, List,
  [], ◌∷◌, map, if◌then◌else◌, any, filter, All, arith, Bool-cases,
}
use whataapp_otp_project.Base.Collection.{Collection}
use whataapp_otp_project.Users.{User}
use whataapp_otp_project.Users as UserModel
use whataapp_otp_project.Users.Service.{find_user_by_id}
use whataapp_otp_project.Guards.{ApiKey}
use whataapp_otp_project.Auth.{Token, Jwt, Ids, bare, signed, create_pair}
use whataapp_otp_project.Auth.Keys.{
  of_account, deactivate, account_token, invalidate_keys, replace_tokens,
  remove_account_from_tokens,
}
use whataapp_otp_project.Base.Pairwise.{dropped-All}
use whataapp_otp_project.Auth.Accepted.{found_id}

List-cases {ℓ} : {A : Type ℓ} (xs : List A) → (xs ≡ []) ⊎ ((x : A) × (ys : List A) × (xs ≡ x ∷ ys))
List-cases [] = inl refl
List-cases (x ∷ xs) = inr (x, xs, refl)

pub map-All :
    (Q : ApiKey → Type 0) (g : ApiKey → ApiKey) (ks : List ApiKey)
    → All (λ k. Q (g k)) ks
    → All Q (map g ks)
map-All Q g [] a = tt
map-All Q g (k ∷ ks) a = (a.0, map-All Q g ks a.1)

all_of : (P : ApiKey → Type 0) (ks : List ApiKey) → ((k : ApiKey) → P k) → All P ks
all_of P [] h = tt
all_of P (k ∷ ks) h = (h k, all_of P ks h)

no_token : (p : Token → Bool) (ts : List Token) → filter p ts ≡ [] → any p ts ≡ true → ⊥
no_token p [] h k = absurd cc
no_token p (t ∷ ts) h k = elim (Bool-cases (p t)) [
  | inl e ↦ absurd (ground arith)
  | inr e ↦ no_token p ts (ground arith) (ground arith)
]

empty_filter : (p : ApiKey → Bool) (ks : List ApiKey) → filter p ks ≡ [] → All (λ k. p k ≡ false) ks
empty_filter p [] h = tt
empty_filter p (k ∷ ks) h = elim (Bool-cases (p k)) [
  | inl e ↦ absurd (ground arith)
  | inr e ↦ (e, empty_filter p ks (ground arith))
]

module _ (kc : Collection ApiKey) where
  invalidate_keys-All :
      (account : String) (s : kc.Store)
      → All
          (λ k. (of_account account k && k.is_active) ≡ false)
          (kc.docs (invalidate_keys kc account s))
  unfolding invalidate_keys
  invalidate_keys-All account s =
      let p : ApiKey → Bool = λ k. of_account account k && k.is_active in
      elim (List-cases (kc.find_all p s)) [
        | inl e ↦
            rw (invalidate_keys, e) (empty_filter p (kc.docs s) (sym (kc.find_all_lem p s) ∙ e))
        | inr (k, ks, e) ↦
            rw (invalidate_keys, e, kc.update_many_lem (of_account account) deactivate s)
              (map-All (λ k. p k ≡ false) (λ k. if of_account account k then deactivate k else k)
                (kc.docs s)
                (all_of (λ k. p (if of_account account k then deactivate k else k) ≡ false)
                  (kc.docs s)
                  (λ k. elim (Bool-cases (of_account account k)) [
                    | inl f ↦ rw f (ground arith)
                    | inr f ↦ rw f (ground (arith, f))
                  ])))
      ]

module _ (jwt : Jwt) (us : Collection User) (tk : Collection Token) (kc : Collection ApiKey) where
  -- Where some token of a stored user names the account, none does after the account is removed,
  -- and no API key of the account is active.
  pub remove_account_clears :
      (ids : Ids) (user account : String) (now : ℕ) (users : us.Store) (s : tk.Store × kc.Store)
      (u : User)
      → us.find_one (UserModel.has_id user) users ≡ some u
      → any (account_token user account) (tk.docs s.0) ≡ true
      → All
          (λ t. account_token user account t ≡ false)
          (tk.docs (remove_account_from_tokens jwt us tk kc ids user account now users s).0)
        × All
            (λ k. (of_account account k && k.is_active) ≡ false)
            (kc.docs (remove_account_from_tokens jwt us tk kc ids user account now users s).1)
  unfolding remove_account_from_tokens find_user_by_id replace_tokens
  remove_account_clears ids user account now users s u f some_token =
      elim (List-cases (tk.find_all (account_token user account) s.0)) [
        | inl e ↦ absurd (
            no_token (account_token user account) (tk.docs s.0)
              (sym (tk.find_all_lem (account_token user account) s.0) ∙ e) some_token)
        | inr (t, ts, e) ↦
            rw (remove_account_from_tokens, e, find_user_by_id, f)
              (
                subst
                    (λ i.
                      All (λ t. account_token i account t ≡ false)
                        (tk.docs (replace_tokens jwt tk ids u account now s.0)))
                    (found_id jwt us tk user users u f)
                    (rw
                      (
                        replace_tokens,
                        tk.delete_many_lem (account_token u.id account)
                            (create_pair tk ids u.id (signed jwt (bare u) now) none now s.0),
                      )
                      (dropped-All (account_token u.id account) (
                        tk.docs (create_pair tk ids u.id (signed jwt (bare u) now) none now s.0)))),
                invalidate_keys-All kc account s.1,
              )
      ]
