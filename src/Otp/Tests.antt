-- ===== src/Otp/Tests.antt =====
-- Runs of the one-time passwords over a collection in memory, and their theorems at inputs.
use whataapp_otp_project.Base.{◌≡◌, refl, true, List, [], ◌∷◌, arith}
use whataapp_otp_project.Base.Collection.{in_memory}
use whataapp_otp_project.Otp.{
  Otp, ok, err, invalid_otp, otp_has_expired, store_otp, verify_otp, sweep, sweeps,
}
use whataapp_otp_project.Otp.Laws.{Only, verify-store_otp, verify_once}

abbrev otps : List Otp
otps =
    record { id = "1"; phone_number = "+100"; otp = "1234"; expires_at = 500000 }
    ∷ record { id = "2"; phone_number = "+200"; otp = "1234"; expires_at = 900000 }
    ∷ []

verify_tests :
    ((verify_otp (in_memory Otp) "+100" "1234" 400000 otps).1 ≡ ok true)
    × ((verify_otp (in_memory Otp) "+100" "1234" 500001 otps).1 ≡ err otp_has_expired)
    × ((verify_otp (in_memory Otp) "+300" "1234" 1 otps).1 ≡ err invalid_otp)
unfolding verify_otp
verify_tests = (refl, refl, refl)

otps-Only : Only otps
otps-Only = (refl, refl, (refl, refl, tt))

verify-store_otp_example :
    (verify_otp (in_memory Otp) "+100" "999" 300001 (
      sweeps
        (in_memory Otp)
        (60000 ∷ 299000 ∷ [])
        (store_otp (in_memory Otp) "+100" "999" "3" 0 otps))).1
    ≡ err otp_has_expired
verify-store_otp_example =
    verify-store_otp (in_memory Otp) "+100" "999" "999" "3" 0 300001 (60000 ∷ 299000 ∷ []) otps
      (omega arith)

-- Ten minutes after it was stored, a code can be gone.
swept_away :
    (verify_otp
      (in_memory Otp)
      "+100"
      "999"
      700000
      (sweeps (in_memory Otp) (600000 ∷ []) (store_otp (in_memory Otp) "+100" "999" "3" 0 otps))).1
    ≡ err invalid_otp
unfolding verify_otp store_otp sweep
swept_away = refl

verify_once_example :
    (verify_otp
      (in_memory Otp)
      "+200"
      "1234"
      7
      (verify_otp (in_memory Otp) "+200" "1234" 5 otps).0).1
    ≡ err invalid_otp
unfolding verify_otp
verify_once_example = verify_once (in_memory Otp) "+200" "1234" 5 7 otps otps-Only refl
