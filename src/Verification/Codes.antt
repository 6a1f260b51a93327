-- ===== src/Verification/Codes.antt =====
-- Which codes are accepted, how many attempts are counted, and how many verifications are open.
use reasonbridge.Prelude.{
  ℕ, ◌+◌, ◌<◌, ◌≡◌, refl, sym, ◌∙◌, Bool, true, false, Option, some, List, [], ◌∷◌, arith, leb,
  count, ◌==◌, Bool-cases, Option-cases, inl, inr, ◌*◌, Text,
}
use reasonbridge.Exec.{Result, ok, err}
use reasonbridge.Database.{count-and_true}
use reasonbridge.Verification.{
  VerificationRecord, VerificationType, State, RecordTable, UserTable, same_type, is_pending,
  expires_before, is_open, is_absent, is_phone_taken, first, max_otp_attempts, new_phone_record,
  verify_phone_otp, request_phone_verification,
}

no_elements :
    (xs : List VerificationRecord) → is_absent (first xs) ≡ true → count (λ _. true) xs ≡ 0
no_elements [] h = refl
no_elements (x ∷ xs) h = ground arith

module _ {SV SU : Type 0} ⦃tv : RecordTable SV⦄ ⦃tu : UserTable SU⦄
    (matches : Text → Text → Bool) where
  -- What is known of a code that was accepted.
  pub record IsAccepted (now user_id id : ℕ) (code : Text) (s : State SV SU) : Type 0 where
    pub entry : VerificationRecord
    pub hash : Text
    pub stored : tv.find_unique s.verifications id ≡ some entry
    pub owner : (entry.user_id == user_id) ≡ true
    pub type : same_type entry.type VerificationType.phone ≡ true
    pub pending : is_pending entry.status ≡ true
    pub not_expired : expires_before now entry.expires_at ≡ false
    pub few : entry.otp_attempts < 3
    pub has_hash : entry.otp_code ≡ some hash
    pub same_code : matches code hash ≡ true

  abbrev pub AcceptedIfOk : ℕ → ℕ → ℕ → Text → State SV SU → Result (Unit {0}) → Type 0
  AcceptedIfOk now user_id id code s (ok tt) = IsAccepted now user_id id code s
  AcceptedIfOk now user_id id code s (err e) = Unit {0}

  -- A call that returns was made by the user of a stored, pending phone verification that has not
  -- expired, with fewer than three wrong codes counted, and its code matches the stored hash.
  pub verify_phone_otp-IsAccepted :
      (now user_id id : ℕ) (code : Text) (s : State SV SU)
      → AcceptedIfOk now user_id id code s (verify_phone_otp matches now user_id id code s).0
  unfolding verify_phone_otp
  verify_phone_otp-IsAccepted now user_id id code s =
      elim (Option-cases (tv.find_unique s.verifications id)) [
        | inl e ↦ rw (e, AcceptedIfOk) tt
        | inr (r, e) ↦ elim (Bool-cases (r.user_id == user_id)) [
          | inr o ↦ rw (e, o, AcceptedIfOk) tt
          | inl o ↦ elim (Bool-cases (same_type r.type VerificationType.phone)) [
            | inr y ↦ rw (e, o, y, AcceptedIfOk) tt
            | inl y ↦ elim (Bool-cases (is_pending r.status)) [
              | inr p ↦ rw (e, o, y, p, AcceptedIfOk) tt
              | inl p ↦ elim (Bool-cases (expires_before now r.expires_at)) [
                | inl x ↦ rw (e, o, y, p, x, AcceptedIfOk) tt
                | inr x ↦ elim (Bool-cases (leb max_otp_attempts r.otp_attempts)) [
                  | inl l ↦ rw (e, o, y, p, x, l, AcceptedIfOk) tt
                  | inr l ↦ elim (Option-cases r.otp_code) [
                    | inl n ↦ rw (e, o, y, p, x, l, n, AcceptedIfOk) tt
                    | inr (hash, n) ↦ elim (Bool-cases (matches code hash)) [
                      | inr m ↦ rw (e, o, y, p, x, l, n, m, AcceptedIfOk) tt
                      | inl m ↦
                          rw (e, o, y, p, x, l, n, m, AcceptedIfOk)
                            (record {
                              entry = r;
                              hash = hash;
                              stored = e;
                              owner = o;
                              type = y;
                              pending = p;
                              not_expired = x;
                              few = ground arith;
                              has_hash = n;
                              same_code = m;
                            })
                    ]
                  ]
                ]
              ]
            ]
          ]
        ]
      ]

module _ {SV : Type 0} ⦃tv : RecordTable SV⦄ where
  count_of_absent :
      (s : SV) (p : VerificationRecord → Bool)
      → is_absent (first (tv.find_many s p)) ≡ true
      → count p (tv.rows s) ≡ 0
  count_of_absent s p h =
      sym (tv.count-find_many s p (λ _. true) ∙ count-and_true p (tv.rows s))
      ∙ no_elements (tv.find_many s p) h

new_phone_record-is_open :
    (now user_id : ℕ) (number hash : Text) (i : ℕ)
    → is_open now user_id VerificationType.phone
        (new_phone_record user_id number hash (now + 5 * 60000) i)
      ≡ true
new_phone_record-is_open now user_id number hash i = ground arith

module _ {SV SU : Type 0} ⦃tv : RecordTable SV⦄ ⦃tu : UserTable SU⦄ where
  -- The user of a new record has one open phone verification; an error changes nothing.
  abbrev pub OneOpenIfOk : ℕ → ℕ → State SV SU → Result VerificationRecord → State SV SU → Type 0
  OneOpenIfOk now user_id s (ok r) t =
      count (is_open now user_id VerificationType.phone) (tv.rows t.verifications) ≡ 1
  OneOpenIfOk now user_id s (err e) t = t ≡ s

  -- A request for a phone verification that returns leaves its user with one phone verification that is
  -- pending and not expired, the new one; a request that throws changes nothing.
  pub request_phone_verification-OneOpen :
      (normalize : Text → Option Text) (hash : Text) (now user_id : ℕ) (number : Text)
      (s : State SV SU)
      → OneOpenIfOk now user_id s
          (request_phone_verification normalize hash now user_id number s).0
          (request_phone_verification normalize hash now user_id number s).1
  unfolding request_phone_verification
  request_phone_verification-OneOpen normalize hash now user_id number s =
      elim (Option-cases (normalize number)) [
        | inl n ↦ rw (n, OneOpenIfOk) refl
        | inr (t, n) ↦
            elim (Bool-cases
              (is_absent (first (tu.find_many s.users (is_phone_taken user_id t))))) [
                | inr b ↦ rw (n, b, OneOpenIfOk) refl
                | inl b ↦
                    elim (Bool-cases (
                      is_absent (
                        first (
                          tv.find_many s.verifications
                            (is_open now user_id VerificationType.phone))))) [
                              | inr c ↦ rw (n, b, c, OneOpenIfOk) refl
                              | inl c ↦
                                  let mk = new_phone_record user_id t hash (now + 5 * 60000) in
                                  elim (Option-cases (tv.create s.verifications mk)) [
                                    | inl e ↦ rw (n, b, c, e, OneOpenIfOk) refl
                                    | inr ((r, u), e) ↦
                                        let (i, made, _, _, held) =
                                          tv.create-some s.verifications mk e in
                                        let new_open =
                                          new_phone_record-is_open now user_id t hash i in
                                        let none_before =
                                          count_of_absent s.verifications
                                            (is_open now user_id VerificationType.phone) c in
                                        rw (n, b, c, e)
                                          (rw (held, made, new_open) (omega (arith, none_before)))
                                  ]
                            ]
              ]
      ]
