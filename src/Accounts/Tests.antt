-- ===== src/Accounts/Tests.antt =====
-- Concrete accounts, and the lemmas on them.
use whataapp_otp_project.Base.{◌≡◌, refl, none, some, [], ◌∷◌}
use whataapp_otp_project.Base.Collection.{Collection, in_memory}
use whataapp_otp_project.Accounts.{
  Account, CreateAccountDto, UpdateAccountDto, ok, err, phone_number_exists, new_account, create,
  update_account, client_of, find_client_id_by_account_id,
}
use whataapp_otp_project.Accounts.Numbers.{
  IsDistinct, creates, updates, here, after, Reach-IsDistinct,
}

abbrev accounts : Collection Account
accounts = in_memory Account

abbrev shop : Account
shop = record {
  id = "a1";
  name = "Shop";
  phone_number = "100";
  user = "u1";
  client_id = some "c1";
  status = "ready";
}

abbrev office : CreateAccountDto
office = record { id = "a2"; name = "Office"; phone_number = "200"; user = "u1" }

abbrev moved : UpdateAccountDto
moved = record { name = none; phone_number = some "300"; user = none }

-- A change to a number that is taken is refused.
taken_number :
    (update_account accounts "a2"
      (record moved { phone_number = some "100" })
      (create accounts office (shop ∷ [])).0).1
    ≡ err phone_number_exists
unfolding update_account create new_account
taken_number = refl

shop_client :
    find_client_id_by_account_id accounts "a1" "u1" (shop ∷ [])
    ≡ ok (record { client_id = "c1"; status = "ready" })
unfolding find_client_id_by_account_id client_of
shop_client = refl

Reach-IsDistinct_example :
    IsDistinct (update_account accounts "a2" moved (create accounts office (shop ∷ [])).0).0
Reach-IsDistinct_example =
    Reach-IsDistinct accounts (shop ∷ [])
      (update_account accounts "a2" moved (create accounts office (shop ∷ [])).0).0
      (after (shop ∷ []) (create accounts office (shop ∷ [])).0
        (update_account accounts "a2" moved (create accounts office (shop ∷ [])).0).0
        (after (shop ∷ []) (shop ∷ []) (create accounts office (shop ∷ [])).0 (here (shop ∷ []))
          (creates office (shop ∷ []) (refl, tt)))
        (updates "a2" moved (create accounts office (shop ∷ [])).0))
      (tt, tt)
