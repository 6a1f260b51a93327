-- ===== src/Verification/Attempts.antt =====
-- `verifyPhoneOTP` on one record: four attempts settle it.
use reasonbridge.Prelude.{
  ℕ, suc, ◌-◌, ◌≤◌, ◌≡◌, refl, ap, ◌∙◌, Bool, true, false, Option, none, some, List, [], ◌∷◌, arith,
  length, leb, ◌==◌, if◌then◌else◌, Bool-cases, inl, inr, Text,
}
use mathlib.Core.Path.{subst}
use reasonbridge.Database.{find-true, find_key-modify_first, mapped}
use reasonbridge.Database.Evolution.{find_key}
use reasonbridge.Verification.{
  VerificationRecord, VerificationType, VerificationStatus, State, RecordTable, UserTable,
  record_key, same_type, is_pending, expires_before, set_status, verified_now, count_attempt,
  verify_phone_otp, check_attempt, check_code, max_otp_attempts,
}

abbrev pub find_record : ℕ → List VerificationRecord → Option VerificationRecord
find_record id rs = find_key record_key id rs

-- A phone verification of a user that has a code.
pub record IsPhoneOf (user_id : ℕ) (r : VerificationRecord) : Type 0 where
  pub owner : (r.user_id == user_id) ≡ true
  pub type : same_type r.type VerificationType.phone ≡ true
  pub hash : Text
  pub code : r.otp_code ≡ some hash

-- The attempts after which a record is settled.
abbrev pub attempts_left : VerificationRecord → ℕ
attempts_left r = if is_pending r.status then suc (3 - r.otp_attempts) else 0

module _ (matches : Text → Text → Bool) (now : ℕ) (code : Text) (r : VerificationRecord) where
  abbrev pub next_with : Option Text → VerificationRecord
  next_with none = r
  next_with (some hash) =
      if matches code hash then verified_now now r else count_attempt r.otp_attempts r

  -- What an attempt makes of a pending record.
  abbrev pub next : VerificationRecord
  next =
      if expires_before now r.expires_at
      then set_status VerificationStatus.expired r
      else if leb max_otp_attempts r.otp_attempts
      then set_status VerificationStatus.rejected r
      else next_with r.otp_code

  next_with-IsPhoneOf :
      (user_id : ℕ) (o : Option Text) → IsPhoneOf user_id r → IsPhoneOf user_id (next_with o)
  next_with-IsPhoneOf user_id none h = h
  next_with-IsPhoneOf user_id (some hash) h = elim (Bool-cases (matches code hash)) [
    | inl v ↦ rw v (record { owner = h.owner; type = h.type; hash = h.hash; code = h.code })
    | inr v ↦ rw v (record { owner = h.owner; type = h.type; hash = h.hash; code = h.code })
  ]

  next-IsPhoneOf : (user_id : ℕ) → IsPhoneOf user_id r → IsPhoneOf user_id next
  next-IsPhoneOf user_id h = elim (Bool-cases (expires_before now r.expires_at)) [
    | inl t ↦ rw t (record { owner = h.owner; type = h.type; hash = h.hash; code = h.code })
    | inr t ↦ elim (Bool-cases (leb max_otp_attempts r.otp_attempts)) [
      | inl u ↦ rw (t, u) (record { owner = h.owner; type = h.type; hash = h.hash; code = h.code })
      | inr u ↦ rw (t, u) (next_with-IsPhoneOf user_id r.otp_code h)
    ]
  ]

  next-attempts_left :
      (hash : Text)
      → r.otp_code ≡ some hash
      → is_pending r.status ≡ true
      → suc (attempts_left next) ≤ attempts_left r
  next-attempts_left hash h p = elim (Bool-cases (expires_before now r.expires_at)) [
    | inl t ↦ rw (t, p) (omega arith)
    | inr t ↦ elim (Bool-cases (leb max_otp_attempts r.otp_attempts)) [
      | inl u ↦ rw (t, u, p) (omega arith)
      | inr u ↦ elim (Bool-cases (matches code hash)) [
        | inl v ↦ rw (t, u, h, v, p) (omega arith)
        | inr v ↦ let few : (r.otp_attempts) ≤ 2 = ground arith in rw (t, u, h, v, p) (omega arith)
      ]
    ]
  ]

module _ {SV : Type 0} ⦃tv : RecordTable SV⦄ where
  updated :
      (s : SV) (id : ℕ) (f : VerificationRecord → VerificationRecord) (r : VerificationRecord)
      → ((x : VerificationRecord) → record_key (f x) ≡ record_key x)
      → find_record id (tv.rows s) ≡ some r
      → find_record id (tv.rows (tv.update s r.id f)) ≡ some (f r)
  updated s id f r keeps h =
      let same : id ≡ r.id = ground (arith, find-true (λ x. record_key x == id) (tv.rows s) r h) in
      subst (λ k. find_record id (tv.rows (tv.update s k f)) ≡ some (f r)) same
        (rw tv.rows-update
          (find_key-modify_first record_key f keeps id (tv.rows s) ∙ ap (mapped f) h))

module _ {SV SU : Type 0} ⦃tv : RecordTable SV⦄ ⦃tu : UserTable SU⦄
    (matches : Text → Text → Bool) where
  check_code-next :
      (now user_id id : ℕ) (code : Text) (s : State SV SU) (r : VerificationRecord)
      (o : Option Text)
      → find_record id (tv.rows s.verifications) ≡ some r
      → find_record id (tv.rows (check_code matches now user_id code r o s).1.verifications)
        ≡ some (next_with matches now code r o)
  check_code-next now user_id id code s r none h = h
  check_code-next now user_id id code s r (some hash) h = elim (Bool-cases (matches code hash)) [
    | inl v ↦ rw v (updated s.verifications id (verified_now now) r (λ x. refl) h)
    | inr v ↦ rw v (updated s.verifications id (count_attempt r.otp_attempts) r (λ x. refl) h)
  ]

  check_attempt-next :
      (now user_id id : ℕ) (code : Text) (s : State SV SU) (r : VerificationRecord)
      → find_record id (tv.rows s.verifications) ≡ some r
      → find_record id (tv.rows (check_attempt matches now user_id code r s).1.verifications)
        ≡ some (next matches now code r)
  check_attempt-next now user_id id code s r h =
      elim (Bool-cases (expires_before now r.expires_at)) [
        | inl t ↦
            rw t
              (updated s.verifications id (set_status VerificationStatus.expired) r (λ x. refl) h)
        | inr t ↦ elim (Bool-cases (leb max_otp_attempts r.otp_attempts)) [
          | inl u ↦
              rw (t, u)
                (updated s.verifications id (set_status VerificationStatus.rejected) r (λ x. refl)
                  h)
          | inr u ↦ rw (t, u) (check_code-next now user_id id code s r r.otp_code h)
        ]
      ]

  verify_phone_otp-settled :
      (now user_id id : ℕ) (code : Text) (s : State SV SU) (r : VerificationRecord)
      → find_record id (tv.rows s.verifications) ≡ some r
      → IsPhoneOf user_id r
      → is_pending r.status ≡ false
      → find_record id (tv.rows (verify_phone_otp matches now user_id id code s).1.verifications)
        ≡ some r
  unfolding verify_phone_otp
  verify_phone_otp-settled now user_id id code s r h p q =
      rw (tv.find_unique-eq s.verifications id) (rw h (rw (p.owner, p.type, q) h))

  verify_phone_otp-next :
      (now user_id id : ℕ) (code : Text) (s : State SV SU) (r : VerificationRecord)
      → find_record id (tv.rows s.verifications) ≡ some r
      → IsPhoneOf user_id r
      → is_pending r.status ≡ true
      → find_record id (tv.rows (verify_phone_otp matches now user_id id code s).1.verifications)
        ≡ some (next matches now code r)
  unfolding verify_phone_otp
  verify_phone_otp-next now user_id id code s r h p q =
      let found : tv.find_unique s.verifications id ≡ some r =
        tv.find_unique-eq s.verifications id ∙ h in
      rw (found, p.owner, p.type, q) (check_attempt-next now user_id id code s r h)

  -- Attempts one after the other, each with its time and its code.
  unfoldable pub verify_all : ℕ → ℕ → List (ℕ × Text) → State SV SU → State SV SU
  verify_all user_id id [] s = s
  verify_all user_id id ((now, code) ∷ attempts) s =
      verify_all user_id id attempts (verify_phone_otp matches now user_id id code s).1

  -- The record is stored and no longer pending.
  abbrev pub IsSettled : ℕ → State SV SU → Type 0
  IsSettled id s =
      (r : VerificationRecord) × (find_record id (tv.rows s.verifications) ≡ some r)
      × (is_pending r.status ≡ false)

  verify_all-IsSettled :
      (user_id id : ℕ) (attempts : List (ℕ × Text)) (s : State SV SU) (r : VerificationRecord)
      → find_record id (tv.rows s.verifications) ≡ some r
      → IsPhoneOf user_id r
      → attempts_left r ≤ length attempts
      → IsSettled id (verify_all user_id id attempts s)
  unfolding verify_all
  verify_all-IsSettled user_id id [] s r h p few = (r, h, ground arith)
  verify_all-IsSettled user_id id ((now, code) ∷ attempts) s r h p few =
      let after = (verify_phone_otp matches now user_id id code s).1 in
      elim (Bool-cases (is_pending r.status)) [
        | inl q ↦
            let fewer = next-attempts_left matches now code r p.hash p.code q in
            verify_all-IsSettled user_id id attempts after (next matches now code r)
              (verify_phone_otp-next now user_id id code s r h p q)
              (next-IsPhoneOf matches now code r user_id p) (omega (arith, fewer))
        | inr q ↦
            let none_left : attempts_left r ≡ 0 = rw q refl in
            verify_all-IsSettled user_id id attempts after r
              (verify_phone_otp-settled now user_id id code s r h p q) p (omega arith)
      ]

  -- A stored phone verification that has a code is settled by any four attempts of its user, whatever the
  -- codes and the times are: it is verified, rejected or expired.
  pub verify_phone_otp-settles :
      (user_id id : ℕ) (attempts : List (ℕ × Text)) (s : State SV SU) (r : VerificationRecord)
      → find_record id (tv.rows s.verifications) ≡ some r
      → IsPhoneOf user_id r
      → 4 ≤ length attempts
      → IsSettled id (verify_all user_id id attempts s)
  verify_phone_otp-settles user_id id attempts s r h p four =
      verify_all-IsSettled user_id id attempts s r h p (ground arith)
