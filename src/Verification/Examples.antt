-- ===== src/Verification/Examples.antt =====
-- Two users in memory, one with a phone verification, and the theorems at concrete inputs.
use reasonbridge.Prelude.{
  ℕ, ◌≡◌, refl, true, false, Bool, none, some, Option, List, [], ◌∷◌, arith, Text, text, text_eq,
}
use reasonbridge.Exec.{err, bad_request, Cause}
use reasonbridge.Database.Memory.{memory}
use reasonbridge.Verification.{
  VerificationRecord, User, State, RecordTable, UserTable, record_key, user_key, verified_now,
  new_phone_record, request_verification, request_phone_verification, verify_phone_otp,
  cancel_verification, mark_expired_verifications, complete_verification,
}
use reasonbridge.Verification.Attempts.{IsPhoneOf, IsSettled, verify_all, verify_phone_otp-settles}
use reasonbridge.Verification.Codes.{AcceptedIfOk, verify_phone_otp-IsAccepted}
use reasonbridge.Verification.Limits.{
  Operation, AreLimited, perform, perform_all, perform_all-AreLimited,
}

instance abbrev record_memory : RecordTable (List VerificationRecord)
record_memory = memory record_key (λ _ _. false)

instance abbrev user_memory : UserTable (List User)
user_memory = memory user_key (λ _ _. false)

abbrev Memory : Type 0
Memory = State (List VerificationRecord) (List User)

-- A hash of these examples is the code itself, and a number is its own normal form.
abbrev matches : Text → Text → Bool
matches code hash = text_eq code hash

abbrev normalize : Text → Option Text
normalize t = some t

abbrev user : User
user = record {
  id = 7;
  phone_number = none;
  phone_verified = false;
  is_enhanced = false;
  trust_score_integrity = 50;
}

abbrev entry : VerificationRecord
entry = new_phone_record 7 (text "+15550100") (text "123456") 300000 0

abbrev requested : Memory
requested = record { verifications = entry ∷ []; users = user ∷ [] }

abbrev before : Memory
before = record { verifications = []; users = user ∷ [] }

opened : Unit {0}
unfolding request_verification request_phone_verification verify_phone_otp cancel_verification
    mark_expired_verifications complete_verification verify_all perform perform_all
opened = tt

verification_tests :
    ((request_phone_verification normalize (text "123456") 0 7 (text "+15550100") before).1
      ≡ requested)
    × ((verify_phone_otp matches 10 7 0 (text "123456") requested).1 ≡ record requested {
      verifications = verified_now 10 entry ∷ [];
      users = record user { is_enhanced = true; trust_score_integrity = 60 } ∷ [];
    })
    × ((verify_phone_otp matches 10 7 0 (text "000000") requested).0
        ≡ err (bad_request Cause.wrong_code))
    × ((verify_phone_otp matches 10 8 0 (text "123456") requested).0
        ≡ err (bad_request Cause.wrong_user))
unfolding opened
verification_tests = (refl, refl, refl, refl)

abbrev guesses : List (ℕ × Text)
guesses = (1, text "000000") ∷ (2, text "000001") ∷ (3, text "000002") ∷ (4, text "123456") ∷ []

entry-IsPhoneOf : IsPhoneOf 7 entry
entry-IsPhoneOf = record { owner = refl; type = refl; hash = text "123456"; code = refl }

verify_phone_otp-settles_example : IsSettled matches 0 (verify_all matches 7 0 guesses requested)
verify_phone_otp-settles_example =
    verify_phone_otp-settles matches 7 0 guesses requested entry refl entry-IsPhoneOf (omega arith)

verify_phone_otp-IsAccepted_example :
    AcceptedIfOk matches 10 7 0
      (text "123456")
      requested
      (verify_phone_otp matches 10 7 0 (text "123456") requested).0
verify_phone_otp-IsAccepted_example =
    verify_phone_otp-IsAccepted matches 10 7 0 (text "123456") requested

abbrev requests : List Operation
requests =
    Operation.request_phone (text "123456") 0 7 (text "+15550100")
    ∷ Operation.verify 1 7 0 (text "000000")
    ∷ Operation.verify 2 7 0 (text "000001")
    ∷ Operation.cancel 0 7
    ∷ []

perform_all-AreLimited_example :
    AreLimited matches normalize (perform_all matches normalize requests before)
perform_all-AreLimited_example = perform_all-AreLimited matches normalize requests before tt
