-- ===== src/Verification.antt =====
-- services/user-service/src/verification/verification.service.ts: the verification records of users and
-- the one-time codes. The comparison of a code with a bcrypt hash, the hash of a new code and the
-- normal form of a phone number are parameters. The time of a call is one parameter, in milliseconds.
mod Records
pub mod Attempts
pub mod Codes
pub mod Limits
mod Examples
pub use Records.*
use reasonbridge.Prelude.{
  ℕ, ◌+◌, ◌*◌, Bool, not, ◌&&◌, Option, none, some, count, leb, ◌==◌, if◌then◌else◌, Text,
}
use reasonbridge.Exec.{
  Exec, ok, err, Cause, bad_request, unique_violation, pure, gets, guard, raise, require, ◌>>=◌,
  ◌>>◌,
}

module _ {SV SU : Type 0} ⦃tv : RecordTable SV⦄ ⦃tu : UserTable SU⦄ where
  abbrev pub inserted : Option (VerificationRecord × SV) → Exec (State SV SU) VerificationRecord
  inserted none s = (err unique_violation, s)
  inserted (some (r, t)) s = (ok r, record s { verifications = t })

  abbrev pub create_record : (ℕ → VerificationRecord) → Exec (State SV SU) VerificationRecord
  create_record mk s = inserted (tv.create s.verifications mk) s

  abbrev pub update_record :
      ℕ → (VerificationRecord → VerificationRecord) → Exec (State SV SU) (Unit {0})
  update_record id f s = (ok tt, record s { verifications = tv.update s.verifications id f })

  abbrev pub update_user : ℕ → (User → User) → Exec (State SV SU) (Unit {0})
  update_user id f s = (ok tt, record s { users = tu.update s.users id f })

  -- The provider reference of a request, or the error of an incomplete one.
  abbrev pub check_request : VerificationRequest → Exec (State SV SU) (Option Text)
  check_request (phone_request none) = raise (bad_request Cause.phone_missing)
  check_request (phone_request (some n)) = pure (some n)
  check_request government_id_request = pure none
  check_request (video_request none) = raise (bad_request Cause.challenge_missing)
  check_request (video_request (some c)) = pure (some c)

  -- The answer with its links and messages is left out.
  unfoldable pub request_verification :
      ℕ → ℕ → VerificationRequest → Exec (State SV SU) VerificationRecord
  request_verification now user_id request = do
    reference ← check_request request
    existing ←
        gets (λ s. first (tv.find_many s.verifications (is_pending_of user_id (type_of request))))
    guard (not (is_in_progress now existing)) (bad_request Cause.in_progress)
    create_record (new_record user_id (type_of request) (now + 24 * 3600000) reference)

  unfoldable pub cancel_verification : ℕ → ℕ → Exec (State SV SU) (Unit {0})
  cancel_verification id user_id = do
    found ← gets (λ s. tv.find_unique s.verifications id)
    r ← require found (bad_request Cause.verification_not_found)
    guard (r.user_id == user_id) (bad_request Cause.wrong_user)
    guard (is_pending r.status) (bad_request Cause.not_pending)
    update_record id (set_status VerificationStatus.rejected)

  unfoldable pub mark_expired_verifications : ℕ → Option ℕ → Exec (State SV SU) ℕ
  mark_expired_verifications now user_id s = (
    ok (count (is_overdue now user_id) (tv.rows s.verifications)),
    record s {
      verifications =
          tv.update_many s.verifications (is_overdue now user_id)
            (set_status VerificationStatus.expired);
    },
  )

  unfoldable pub is_verified : ℕ → VerificationType → State SV SU → Bool
  is_verified user_id type s = not (
      is_absent (
        first (
          tv.find_many s.verifications
            (λ r. is_owned user_id type r && is_verified_status r.status))))

  unfoldable pub complete_verification : ℕ → ℕ → ℕ → Exec (State SV SU) (Unit {0})
  complete_verification now id user_id = do
    found ← gets (λ s. tv.find_unique s.verifications id)
    r ← require found (bad_request Cause.verification_not_found)
    guard (r.user_id == user_id) (bad_request Cause.wrong_user)
    update_record id (verified_now now)

  -- The code is sent outside of the model; its hash is a parameter.
  unfoldable pub request_phone_verification :
      (Text → Option Text) → Text → ℕ → ℕ → Text → Exec (State SV SU) VerificationRecord
  request_phone_verification normalize hashed_otp now user_id number = do
    normalized ← require (normalize number) (bad_request Cause.phone_invalid)
    taken ← gets (λ s. first (tu.find_many s.users (is_phone_taken user_id normalized)))
    guard (is_absent taken) (bad_request Cause.phone_taken)
    existing ←
        gets
          (λ s. first (tv.find_many s.verifications (is_open now user_id VerificationType.phone)))
    guard (is_absent existing) (bad_request Cause.in_progress)
    create_record (new_phone_record user_id normalized hashed_otp (now + 5 * 60000))

  module _ (matches : Text → Text → Bool) where
    abbrev pub check_code :
        ℕ → ℕ → Text → VerificationRecord → Option Text → Exec (State SV SU) (Unit {0})
    check_code now user_id code r none = raise (bad_request Cause.no_code)
    check_code now user_id code r (some hashed_otp) =
        if matches code hashed_otp
        then (do update_record r.id (verified_now now); update_user user_id enhanced)
        else (do
          update_record r.id (count_attempt r.otp_attempts)
          raise (bad_request Cause.wrong_code))

    abbrev pub check_attempt : ℕ → ℕ → Text → VerificationRecord → Exec (State SV SU) (Unit {0})
    check_attempt now user_id code r =
        if expires_before now r.expires_at
        then (do
          update_record r.id (set_status VerificationStatus.expired)
          raise (bad_request Cause.code_expired))
        else if leb max_otp_attempts r.otp_attempts
        then (do
          update_record r.id (set_status VerificationStatus.rejected)
          raise (bad_request Cause.too_many_attempts))
        else check_code now user_id code r r.otp_code

    unfoldable pub verify_phone_otp : ℕ → ℕ → ℕ → Text → Exec (State SV SU) (Unit {0})
    verify_phone_otp now user_id id code = do
      found ← gets (λ s. tv.find_unique s.verifications id)
      r ← require found (bad_request Cause.verification_not_found)
      guard (r.user_id == user_id) (bad_request Cause.wrong_user)
      guard (same_type r.type VerificationType.phone) (bad_request Cause.not_phone)
      guard (is_pending r.status) (bad_request Cause.not_pending)
      check_attempt now user_id code r
