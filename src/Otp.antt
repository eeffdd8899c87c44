-- ===== src/Otp.antt =====
-- src/modules/OTP/otp.service.ts: one-time passwords. The collection is a parameter; a
-- call takes the time that the service reads and the identifier that the database generates. The
-- index of schema/otp.schema.ts by which old records vanish is `sweep`.
pub mod Laws
mod Tests
use whataapp_otp_project.Base.{
  ℕ, ◌+◌, String, Bool, true, ◌&&◌, Option, none, some, List, [], ◌∷◌, ◌===◌, ltb, leb,
  if◌then◌else◌,
}
use whataapp_otp_project.Base.Collection.{Collection}

pub record Otp : Type 0 where
  pub id : String
  pub phone_number : String
  pub otp : String
  pub expires_at : ℕ

pub data Error : Type 0 where
  invalid_otp : Error
  otp_has_expired : Error

pub data Result {ℓ} (A : Type ℓ) : Type ℓ where
  ok : A → Result A
  err : Error → Result A

-- The queries `{ phone_number }`, `{ phone_number, otp }` and `{ _id }`.
abbrev pub has_phone : String → Otp → Bool
has_phone phone r = r.phone_number === phone

abbrev pub has_code : String → String → Otp → Bool
has_code phone otp r = (r.phone_number === phone) && (r.otp === otp)

abbrev pub has_id : String → Otp → Bool
has_id id r = r.id === id

module _ (c : Collection Otp) where
  open c use {Store, find_one, create, delete_one, delete_many}

  unfoldable pub store_otp : String → String → String → ℕ → Store → Store
  store_otp phone otp id now s =
      let expires_at = now + 300000 in
      create (record { id = id; phone_number = phone; otp = otp; expires_at = expires_at })
        (delete_many (has_phone phone) s)

  -- The index `expires: 300` of the schema: whenever its monitor runs, the database deletes the
  -- records that are past their time by 300 seconds.
  unfoldable pub sweep : ℕ → Store → Store
  sweep now s = delete_many (λ r. leb (r.expires_at + 300000) now) s

  abbrev pub sweeps : List ℕ → Store → Store
  sweeps [] s = s
  sweeps (t ∷ ts) s = sweeps ts (sweep t s)

  unfoldable pub verify_otp : String → String → ℕ → Store → Store × Result Bool
  verify_otp phone otp now s = elim (find_one (has_code phone otp) s) [
    | none ↦ (s, err invalid_otp)
    | some r ↦
        if ltb r.expires_at now
        then (s, err otp_has_expired)
        else (delete_one (has_id r.id) s, ok true)
  ]
