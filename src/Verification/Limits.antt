-- ===== src/Verification/Limits.antt =====
-- The wrong codes that the records count, after any requests.
use reasonbridge.Prelude.{
  ℕ, ◌+◌, ◌≤◌, ◌<◌, ◌≡◌, refl, Bool, Option, none, some, List, [], ◌∷◌, arith, leb, ◌==◌, All,
  Bool-cases, Option-cases, inl, inr, ◌⊎◌, ◌*◌, Text,
}
use reasonbridge.Exec.{ok, err, Error, Cause, bad_request}
use reasonbridge.Database.{All-modify_first_any, All-modify_all}
use reasonbridge.Verification.{
  VerificationRecord, VerificationType, VerificationStatus, VerificationRequest, phone_request,
  government_id_request, video_request, State, RecordTable, UserTable, same_type, is_pending,
  expires_before, is_open, is_overdue, is_in_progress, is_pending_of, type_of, check_request,
  is_absent, is_phone_taken, first, set_status, max_otp_attempts, verified_now, count_attempt,
  create_record, check_code, check_attempt, new_record, new_phone_record, verify_phone_otp,
  request_verification, request_phone_verification, cancel_verification, mark_expired_verifications,
  complete_verification,
}

abbrev pub IsLimited : VerificationRecord → Type 0
IsLimited r = r.otp_attempts ≤ 3

-- A request to the service, with its parameters.
pub data Operation : Type 0 where
  request : (now user_id : ℕ) → VerificationRequest → Operation
  request_phone : (hashed_otp : Text) (now user_id : ℕ) (number : Text) → Operation
  verify : (now user_id id : ℕ) (code : Text) → Operation
  complete : (now id user_id : ℕ) → Operation
  cancel : (id user_id : ℕ) → Operation
  mark_expired : (now : ℕ) → Option ℕ → Operation

module _ {SV SU : Type 0} ⦃tv : RecordTable SV⦄ ⦃tu : UserTable SU⦄ where
  check_request-cases :
      (r : VerificationRequest) (s : State SV SU)
      → ((e : Error) × (check_request r s ≡ (err e, s)))
        ⊎ ((o : Option Text) × (check_request r s ≡ (ok o, s)))
  check_request-cases (phone_request none) s = inl (bad_request Cause.phone_missing, refl)
  check_request-cases (phone_request (some n)) s = inr (some n, refl)
  check_request-cases government_id_request s = inr (none, refl)
  check_request-cases (video_request none) s = inl (bad_request Cause.challenge_missing, refl)
  check_request-cases (video_request (some c)) s = inr (some c, refl)

module _ {SV SU : Type 0} ⦃tv : RecordTable SV⦄ ⦃tu : UserTable SU⦄ (matches : Text → Text → Bool)
    (normalize : Text → Option Text) where
  unfoldable pub perform : Operation → State SV SU → State SV SU
  perform (request now user_id r) s = (request_verification now user_id r s).1
  perform (request_phone hash now user_id number) s =
      (request_phone_verification normalize hash now user_id number s).1
  perform (verify now user_id id code) s = (verify_phone_otp matches now user_id id code s).1
  perform (complete now id user_id) s = (complete_verification now id user_id s).1
  perform (cancel id user_id) s = (cancel_verification id user_id s).1
  perform (mark_expired now user_id) s = (mark_expired_verifications now user_id s).1

  unfoldable pub perform_all : List Operation → State SV SU → State SV SU
  perform_all [] s = s
  perform_all (o ∷ os) s = perform_all os (perform o s)

  -- Every record counts at most three wrong codes.
  abbrev pub AreLimited : State SV SU → Type 0
  AreLimited s = All IsLimited (tv.rows s.verifications)

  create_record-AreLimited :
      (mk : ℕ → VerificationRecord) (s : State SV SU)
      → ((i : ℕ) → IsLimited (mk i))
      → AreLimited s
      → AreLimited (create_record mk s).1
  create_record-AreLimited mk s few h = elim (Option-cases (tv.create s.verifications mk)) [
    | inl e ↦ rw e h
    | inr ((r, t), e) ↦
        let (i, made, _, _, held) = tv.create-some s.verifications mk e in
        rw e (rw held (rw made (few i), h))
  ]

  update_record-AreLimited :
      (id : ℕ) (f : VerificationRecord → VerificationRecord) (s : State SV SU)
      → ((r : VerificationRecord) → IsLimited r → IsLimited (f r))
      → AreLimited s
      → All IsLimited (tv.rows (tv.update s.verifications id f))
  update_record-AreLimited id f s keeps h =
      rw tv.rows-update
        (All-modify_first_any IsLimited (λ r. r.id == id) f (tv.rows s.verifications) keeps h)

  check_code-AreLimited :
      (now user_id : ℕ) (code : Text) (r : VerificationRecord) (o : Option Text) (s : State SV SU)
      → r.otp_attempts < 3
      → AreLimited s
      → AreLimited (check_code matches now user_id code r o s).1
  check_code-AreLimited now user_id code r none s few h = h
  check_code-AreLimited now user_id code r (some hash) s few h =
      elim (Bool-cases (matches code hash)) [
        | inl m ↦ rw m (update_record-AreLimited r.id (verified_now now) s (λ x k. k) h)
        | inr m ↦
            rw m (
              update_record-AreLimited r.id (count_attempt r.otp_attempts) s (λ x k. omega arith) h)
      ]

  check_attempt-AreLimited :
      (now user_id : ℕ) (code : Text) (r : VerificationRecord) (s : State SV SU)
      → AreLimited s
      → AreLimited (check_attempt matches now user_id code r s).1
  check_attempt-AreLimited now user_id code r s h =
      elim (Bool-cases (expires_before now r.expires_at)) [
        | inl x ↦
            rw x
              (update_record-AreLimited r.id (set_status VerificationStatus.expired) s (λ y k. k) h)
        | inr x ↦ elim (Bool-cases (leb max_otp_attempts r.otp_attempts)) [
          | inl l ↦
              rw (x, l)
                (update_record-AreLimited r.id (set_status VerificationStatus.rejected) s (λ y k. k)
                  h)
          | inr l ↦
              rw (x, l) (check_code-AreLimited now user_id code r r.otp_code s (ground arith) h)
        ]
      ]

  request_verification-AreLimited :
      (now user_id : ℕ) (r : VerificationRequest) (s : State SV SU)
      → AreLimited s
      → AreLimited (request_verification now user_id r s).1
  unfolding request_verification
  request_verification-AreLimited now user_id r s h = elim (check_request-cases r s) [
    | inl (e, k) ↦ rw k h
    | inr (reference, k) ↦
        elim (Bool-cases (
          is_in_progress now
            (first (tv.find_many s.verifications (is_pending_of user_id (type_of r)))))) [
              | inl p ↦ rw (k, p) h
              | inr p ↦
                  rw (k, p)
                    (create_record-AreLimited
                      (new_record user_id (type_of r) (now + 24 * 3600000) reference) s
                      (λ i. omega arith) h)
            ]
  ]

  request_phone_verification-AreLimited :
      (hash : Text) (now user_id : ℕ) (number : Text) (s : State SV SU)
      → AreLimited s
      → AreLimited (request_phone_verification normalize hash now user_id number s).1
  unfolding request_phone_verification
  request_phone_verification-AreLimited hash now user_id number s h =
      elim (Option-cases (normalize number)) [
        | inl n ↦ rw n h
        | inr (t, n) ↦
            elim (Bool-cases
              (is_absent (first (tu.find_many s.users (is_phone_taken user_id t))))) [
                | inr b ↦ rw (n, b) h
                | inl b ↦
                    elim (Bool-cases (
                      is_absent (
                        first (
                          tv.find_many s.verifications
                            (is_open now user_id VerificationType.phone))))) [
                              | inr c ↦ rw (n, b, c) h
                              | inl c ↦
                                  rw (n, b, c)
                                    (create_record-AreLimited
                                      (new_phone_record user_id t hash (now + 5 * 60000)) s
                                      (λ i. omega arith) h)
                            ]
              ]
      ]

  verify_phone_otp-AreLimited :
      (now user_id id : ℕ) (code : Text) (s : State SV SU)
      → AreLimited s
      → AreLimited (verify_phone_otp matches now user_id id code s).1
  unfolding verify_phone_otp
  verify_phone_otp-AreLimited now user_id id code s h =
      elim (Option-cases (tv.find_unique s.verifications id)) [
        | inl e ↦ rw e h
        | inr (r, e) ↦ elim (Bool-cases (r.user_id == user_id)) [
          | inr o ↦ rw (e, o) h
          | inl o ↦ elim (Bool-cases (same_type r.type VerificationType.phone)) [
            | inr y ↦ rw (e, o, y) h
            | inl y ↦ elim (Bool-cases (is_pending r.status)) [
              | inr p ↦ rw (e, o, y, p) h
              | inl p ↦ rw (e, o, y, p) (check_attempt-AreLimited now user_id code r s h)
            ]
          ]
        ]
      ]

  complete_verification-AreLimited :
      (now id user_id : ℕ) (s : State SV SU)
      → AreLimited s
      → AreLimited (complete_verification now id user_id s).1
  unfolding complete_verification
  complete_verification-AreLimited now id user_id s h =
      elim (Option-cases (tv.find_unique s.verifications id)) [
        | inl e ↦ rw e h
        | inr (r, e) ↦ elim (Bool-cases (r.user_id == user_id)) [
          | inr o ↦ rw (e, o) h
          | inl o ↦ rw (e, o) (update_record-AreLimited id (verified_now now) s (λ y k. k) h)
        ]
      ]

  cancel_verification-AreLimited :
      (id user_id : ℕ) (s : State SV SU)
      → AreLimited s
      → AreLimited (cancel_verification id user_id s).1
  unfolding cancel_verification
  cancel_verification-AreLimited id user_id s h =
      elim (Option-cases (tv.find_unique s.verifications id)) [
        | inl e ↦ rw e h
        | inr (r, e) ↦ elim (Bool-cases (r.user_id == user_id)) [
          | inr o ↦ rw (e, o) h
          | inl o ↦ elim (Bool-cases (is_pending r.status)) [
            | inr p ↦ rw (e, o, p) h
            | inl p ↦
                rw (e, o, p)
                  (update_record-AreLimited id (set_status VerificationStatus.rejected) s (λ y k. k)
                    h)
          ]
        ]
      ]

  perform-AreLimited : (o : Operation) (s : State SV SU) → AreLimited s → AreLimited (perform o s)
  unfolding perform mark_expired_verifications
  perform-AreLimited (request now user_id r) s h = request_verification-AreLimited now user_id r s h
  perform-AreLimited (request_phone hash now user_id number) s h =
      request_phone_verification-AreLimited hash now user_id number s h
  perform-AreLimited (verify now user_id id code) s h =
      verify_phone_otp-AreLimited now user_id id code s h
  perform-AreLimited (complete now id user_id) s h =
      complete_verification-AreLimited now id user_id s h
  perform-AreLimited (cancel id user_id) s h = cancel_verification-AreLimited id user_id s h
  perform-AreLimited (mark_expired now user_id) s h = rw tv.rows-update_many (
      All-modify_all IsLimited (is_overdue now user_id) (set_status VerificationStatus.expired)
        (tv.rows s.verifications) (λ x p k. k) h)

  -- From records that count at most three wrong codes each, any requests, cancellations, completions and
  -- attempts, returning or throwing, lead to such records.
  pub perform_all-AreLimited :
      (os : List Operation) (s : State SV SU) → AreLimited s → AreLimited (perform_all os s)
  unfolding perform_all
  perform_all-AreLimited [] s h = h
  perform_all-AreLimited (o ∷ os) s h =
      perform_all-AreLimited os (perform o s) (perform-AreLimited o s h)
