-- ===== src/Accounts/Reading.antt =====
-- The client of an account, as the services that send ask for it.
use whataapp_otp_project.Base.{
  ◌≡◌, refl, sym, ◌∙◌, inl, inr, String, false, Option, none, some, List, find, ◌===◌, arith,
  eq_iff, truthy, Option-cases, Bool-cases, All, find-none-All, find_passes,
}
use whataapp_otp_project.Base.Collection.{Collection}
use whataapp_otp_project.Accounts.{
  Account, Result, ok, err, account_not_found, no_session, is_disconnected, ClientInfo, is_of,
  client_of, find_client_id_by_account_id,
}

-- The answers on the client of an account, from the stored accounts.
pub data Reads (id user : String) (xs : List Account) : Result ClientInfo → Type 0 where
  missing : All (λ a. is_of id user a ≡ false) xs → Reads id user xs (err account_not_found)
  without :
      (a : Account)
      → find (is_of id user) xs ≡ some a
      → truthy a.client_id ≡ false
      → Reads id user xs (err no_session)
  gone :
      (a : Account) (client : String)
      → find (is_of id user) xs ≡ some a
      → a.client_id ≡ some client
      → a.status ≡ "disconnected"
      → Reads id user xs (err is_disconnected)
  reads :
      (a : Account) (client : String)
      → a.id ≡ id
      → a.user ≡ user
      → a.client_id ≡ some client
      → (client === "") ≡ false
      → (a.status === "disconnected") ≡ false
      → Reads id user xs (ok (record { client_id = client; status = a.status }))

found-Reads :
    (id user : String) (xs : List Account) (a : Account) (client : Option String)
    → find (is_of id user) xs ≡ some a
    → a.client_id ≡ client
    → Reads id user xs (client_of (some a))
unfolding client_of
found-Reads id user xs a none f k = rw (client_of, k) (without a f (rw k refl))
found-Reads id user xs a (some i) f k = elim (Bool-cases (i === "")) [
  | inl e ↦ rw (client_of, k, e) (without a f (rw (k, e) refl))
  | inr e ↦ elim (Bool-cases (a.status === "disconnected")) [
    | inl d ↦ rw (client_of, k, e, d) (gone a i f k ((eq_iff a.status "disconnected").0 d))
    | inr d ↦
        let hit = find_passes (is_of id user) xs f in
        rw (client_of, k, e, d)
          (reads a i (ground (arith, hit, eq_iff a.id id)) (ground (arith, hit, eq_iff a.user user))
            k e d)
  ]
]

module _ (c : Collection Account) where
  -- A client is answered only where the user has the account, the account has a session, and the
  -- session is not disconnected; each refusal tells which of these fails first.
  pub find_client-Reads :
      (id user : String) (s : c.Store)
      → Reads id user (c.docs s) (find_client_id_by_account_id c id user s)
  unfolding find_client_id_by_account_id client_of
  find_client-Reads id user s = elim (Option-cases (c.find_one (is_of id user) s)) [
    | inl e ↦
        rw (find_client_id_by_account_id, e)
          (missing
            (find-none-All (is_of id user) (c.docs s) (sym (c.find_one_lem (is_of id user) s) ∙ e)))
    | inr (a, e) ↦
        rw (find_client_id_by_account_id, e)
          (found-Reads id user (c.docs s) a a.client_id (sym (c.find_one_lem (is_of id user) s) ∙ e)
            refl)
  ]
