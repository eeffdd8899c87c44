-- ===== src/Auth/Rotation.antt =====
-- After a token is exchanged, a new account selected or a user logged out: which refresh tokens are
-- still accepted.
use whataapp_otp_project.Base.{
  ℕ, ◌+◌, ◌≡◌, ◌≢◌, refl, sym, subst, ◌∙◌, ap, inl, inr, String, true, false, not, ◌&&◌, Option,
  none, some, List, [], ◌∷◌, ◌++◌, ◌===◌, filter, find, find-none-All, All-find-none, All, All-imp,
  All-append, arith, eq_iff, eq_refl, Bool-cases, Option-cases, ===-ne,
}
use whataapp_otp_project.Base.Pairwise.{
  dropped-All, All-both, filter-All, append-Pairwise, Pairwise,
}
use whataapp_otp_project.Base.Collection.{Collection, modify_first}
use whataapp_otp_project.Users.{User}
use whataapp_otp_project.Auth.{
  access, refresh, Token, Jwt, Result, ok, err, Tokens, Ids, has_id, refresh_of, other_refresh,
  is_current, bare, new_token, signed, renew, life_of,
}
use whataapp_otp_project.Auth.Issue.{with_account, or_undefined, store_selection, rotate}

-- Every refresh token of the user is this one.
abbrev pub OnlyRefresh : String → String → List Token → Type 0
OnlyRefresh user token ts = All (λ t. (refresh_of user t && not (t.token === token)) ≡ false) ts

-- No two tokens have one identifier.
abbrev pub IsIdentified : List Token → Type 0
IsIdentified ts = Pairwise (λ a b. (a.id === b.id) ≡ false) ts

-- The changed token is the only one of its identifier.
renewed-All :
    (id : String) (f : Token → Token) (P : Token → Type 0) (ts : List Token)
    → ((t : Token) → (f t).id ≡ t.id)
    → ((t : Token) → has_id id t ≡ true → P (f t))
    → ((t : Token) → has_id id t ≡ false → P t)
    → IsIdentified ts
    → All P (modify_first (has_id id) f ts)
renewed-All id f P [] same hit miss d = tt
renewed-All id f P (t ∷ ts) same hit miss d = elim (Bool-cases (has_id id t)) [
  | inl e ↦ rw e (
    hit t e,
    All-imp (λ u. (t.id === u.id) ≡ false) P ts
        (λ u n. miss u (ground (arith, n, eq_iff t.id id, eq_iff u.id id, eq_iff t.id u.id))) d.0,
  )
  | inr e ↦ rw e (miss t e, renewed-All id f P ts same hit miss d.1)
]

-- A token renewed where it stands, and the user's other refresh tokens dropped.
replaced-OnlyRefresh :
    (user id token : String) (account : Option String) (now : ℕ) (ts : List Token)
    → IsIdentified ts
    → OnlyRefresh user token (
        filter
          (λ t. not (other_refresh user id t))
          (modify_first
            (has_id id)
            (λ t. record t {
              token = token;
              account_id = account;
              expires_at = now + life_of refresh;
            })
            ts))
replaced-OnlyRefresh user id token account now ts d =
    let f : Token → Token =
      λ t. record t { token = token; account_id = account; expires_at = now + life_of refresh } in
    let Q : Token → Type 0 = λ t. (has_id id t && not (t.token === token)) ≡ false in
    let changed =
      renewed-All id f Q ts (λ t. refl) (λ t e. ground (arith, eq_refl token))
        (λ t e. ground (arith, e)) d in
    let kept =
      filter-All Q (λ t. not (other_refresh user id t)) (modify_first (has_id id) f ts) changed in
    let dropped = dropped-All (other_refresh user id) (modify_first (has_id id) f ts) in
    let left = filter (λ t. not (other_refresh user id t)) (modify_first (has_id id) f ts) in
    All-imp (λ t. (other_refresh user id t ≡ false) × Q t)
      (λ t. (refresh_of user t && not (t.token === token)) ≡ false) left
      (λ t h. ground (arith, h.0, h.1))
      (All-both (λ t. other_refresh user id t ≡ false) Q left dropped kept)

-- Other tokens of the user are refused.
pub OnlyRefresh-none :
    (user token old : String) (now : ℕ) (ts : List Token)
    → OnlyRefresh user token ts
    → token ≢ old
    → find (is_current user old now) ts ≡ none
OnlyRefresh-none user token old now ts a n = All-find-none (is_current user old now) ts (
    All-imp (λ t. (refresh_of user t && not (t.token === token)) ≡ false)
      (λ t. is_current user old now t ≡ false) ts
      (λ t h. ground (arith, h, eq_iff t.token token, eq_iff t.token old, ===-ne token old n)) a)

-- The refresh token that an answer gives.
abbrev pub answered : Result Tokens → String
answered (ok ts) = ts.refresh_token
answered (err e) = ""

module _ (jwt : Jwt) (tk : Collection Token) where
  replaced_store-OnlyRefresh :
      (user id token : String) (account : Option String) (now : ℕ) (s : tk.Store)
      → IsIdentified (tk.docs s)
      → OnlyRefresh user token
          (tk.docs (tk.delete_many (other_refresh user id) (renew tk id token account now s)))
  replaced_store-OnlyRefresh user id token account now s d =
      rw
        (
          tk.delete_many_lem (other_refresh user id) (renew tk id token account now s),
          tk.update_one_lem (has_id id)
              (λ t. record t {
                token = token;
                account_id = account;
                expires_at = now + life_of refresh;
              })
              s,
        )
        (replaced-OnlyRefresh user id token account now (tk.docs s) d)

  pub rotate-OnlyRefresh :
      (ids : Ids) (u : User) (r : Token) (now : ℕ) (s : tk.Store) (ts : Tokens)
      → IsIdentified (tk.docs s)
      → All (λ t. (t.id === ids.access_id) ≡ false) (tk.docs s)
      → (rotate jwt tk ids u r now s).1 ≡ ok ts
      → OnlyRefresh u.id ts.refresh_token (tk.docs (rotate jwt tk ids u r now s).0)
  unfolding rotate
  rotate-OnlyRefresh ids u r now s ts d new h =
      let p = record (bare u) { account_id = or_undefined r.account_id } in
      let t = new_token ids.access_id access u.id (jwt.sign access p now) r.account_id now in
      subst (λ k. OnlyRefresh u.id k (tk.docs (rotate jwt tk ids u r now s).0)) (ap answered h)
        (replaced_store-OnlyRefresh u.id r.id (jwt.sign refresh p now) r.account_id now
          (tk.create t s)
          (rw (tk.create_lem t s)
            (append-Pairwise (λ a b. (a.id === b.id) ≡ false) (tk.docs s) t d new)))

  pub store_selection-OnlyRefresh :
      (ids : Ids) (u : User) (account : String) (now : ℕ) (s : tk.Store)
      → IsIdentified (tk.docs s)
      → OnlyRefresh u.id
          (signed jwt (with_account u account) now).refresh_token
          (tk.docs (store_selection jwt tk ids u account now s))
  unfolding store_selection
  store_selection-OnlyRefresh ids u account now s d =
      elim (Option-cases (tk.find_one (refresh_of u.id) s)) [
        | inr (r, e) ↦
            let ts = signed jwt (with_account u account) now in
            let s1 =
              tk.delete_many (other_refresh u.id r.id)
                (renew tk r.id ts.refresh_token (some account) now s) in
            let t = new_token ids.access_id access u.id ts.access_token (some account) now in
            rw (store_selection, e, tk.create_lem t s1)
              (All-append _ (tk.docs s1) (t ∷ [])
                (replaced_store-OnlyRefresh u.id r.id ts.refresh_token (some account) now s d)
                (ground arith, tt))
        | inl e ↦
            let ts = signed jwt (with_account u account) now in
            let a = new_token ids.access_id access u.id ts.access_token (some account) now in
            let b = new_token ids.refresh_id refresh u.id ts.refresh_token (some account) now in
            let P : Token → Type 0 =
              λ t. (refresh_of u.id t && not (t.token === ts.refresh_token)) ≡ false in
            rw (store_selection, e, tk.create_lem b (tk.create a s), tk.create_lem a s)
              (All-append P (tk.docs s ++ a ∷ []) (b ∷ [])
                (All-append P (tk.docs s) (a ∷ [])
                  (All-imp (λ t. refresh_of u.id t ≡ false) P (tk.docs s) (λ t f. ground (arith, f))
                    (find-none-All (refresh_of u.id) (tk.docs s)
                      (sym (tk.find_one_lem (refresh_of u.id) s) ∙ e)))
                  (ground arith, tt))
                (ground (arith, eq_refl ts.refresh_token), tt))
      ]
