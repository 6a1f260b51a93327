-- ===== src/Verification/Records.antt =====
-- The records of services/user-service/src/verification/verification.service.ts, and the columns of a
-- user that it reads, with the conditions of its queries and what it writes.
use reasonbridge.Prelude.{
  ℕ, ◌+◌, Bool, true, false, not, ◌&&◌, Option, none, some, List, [], ◌∷◌, ltb, ◌==◌, Text, text_eq,
}
use reasonbridge.Database.{Table}

pub data VerificationType : Type 0 where
  phone government_id video : VerificationType

pub data VerificationStatus : Type 0 where
  pending verified rejected expired : VerificationStatus

-- An optional text is `none` where the code reads it as false.
pub record VerificationRecord : Type 0 where
  pub id : ℕ
  pub user_id : ℕ
  pub type : VerificationType
  pub status : VerificationStatus
  pub verified_at : Option ℕ
  pub expires_at : Option ℕ
  pub provider_reference : Option Text
  pub otp_code : Option Text
  pub otp_expires_at : Option ℕ
  pub otp_attempts : ℕ
  pub phone_number : Option Text

-- The columns of a user that the service reads or writes; the integrity is in hundredths.
pub record User : Type 0 where
  pub id : ℕ
  pub phone_number : Option Text
  pub phone_verified : Bool
  pub is_enhanced : Bool
  pub trust_score_integrity : ℕ

abbrev pub record_key : VerificationRecord → ℕ
record_key r = r.id

abbrev pub user_key : User → ℕ
user_key u = u.id

abbrev pub RecordTable : Type 0 → Type 0
RecordTable S = Table S VerificationRecord record_key (λ _ _. false)

abbrev pub UserTable : Type 0 → Type 0
UserTable S = Table S User user_key (λ _ _. false)

pub record State (SV SU : Type 0) : Type 0 where
  pub verifications : SV
  pub users : SU

abbrev pub same_type : VerificationType → VerificationType → Bool
same_type VerificationType.phone VerificationType.phone = true
same_type VerificationType.government_id VerificationType.government_id = true
same_type VerificationType.video VerificationType.video = true
same_type _ _ = false

abbrev pub is_pending : VerificationStatus → Bool
is_pending VerificationStatus.pending = true
is_pending _ = false

abbrev pub is_verified_status : VerificationStatus → Bool
is_verified_status VerificationStatus.verified = true
is_verified_status _ = false

-- `expiresAt: { gt: now }`
abbrev pub expires_after : ℕ → Option ℕ → Bool
expires_after now none = false
expires_after now (some t) = ltb now t

-- `expiresAt: { lt: now }`, and `expiresAt && now > expiresAt`
abbrev pub expires_before : ℕ → Option ℕ → Bool
expires_before now none = false
expires_before now (some t) = ltb t now

abbrev pub max_otp_attempts : ℕ
max_otp_attempts = 3

abbrev pub set_status : VerificationStatus → VerificationRecord → VerificationRecord
set_status status r = record r { status = status }

abbrev pub verified_now : ℕ → VerificationRecord → VerificationRecord
verified_now now r = record r { status = VerificationStatus.verified; verified_at = some now }

abbrev pub count_attempt : ℕ → VerificationRecord → VerificationRecord
count_attempt attempts r = record r { otp_attempts = attempts + 1 }

abbrev pub enhanced : User → User
enhanced u = record u { is_enhanced = true; trust_score_integrity = u.trust_score_integrity + 10 }

abbrev pub is_owned : ℕ → VerificationType → VerificationRecord → Bool
is_owned user_id type r = r.user_id == user_id && same_type r.type type

abbrev pub is_pending_of : ℕ → VerificationType → VerificationRecord → Bool
is_pending_of user_id type r = is_owned user_id type r && is_pending r.status

-- A pending verification of a user that has not expired.
abbrev pub is_open : ℕ → ℕ → VerificationType → VerificationRecord → Bool
is_open now user_id type r = is_pending_of user_id type r && expires_after now r.expires_at

-- The phone number is verified by another user.
abbrev pub is_phone_taken : ℕ → Text → User → Bool
is_phone_taken user_id number u =
    has_number u.phone_number && u.phone_verified && not (u.id == user_id)
  where
    has_number : Option Text → Bool
    has_number none = false
    has_number (some n) = text_eq n number

abbrev pub new_record : ℕ → VerificationType → ℕ → Option Text → ℕ → VerificationRecord
new_record user_id type expires_at provider_reference id = record {
  id = id;
  user_id = user_id;
  type = type;
  status = VerificationStatus.pending;
  verified_at = none;
  expires_at = some expires_at;
  provider_reference = provider_reference;
  otp_code = none;
  otp_expires_at = none;
  otp_attempts = 0;
  phone_number = none;
}

abbrev pub new_phone_record : ℕ → Text → Text → ℕ → ℕ → VerificationRecord
new_phone_record user_id number hashed_otp expires_at id =
    record (new_record user_id VerificationType.phone expires_at none id) {
      otp_code = some hashed_otp;
      otp_expires_at = some expires_at;
      phone_number = some number;
    }

abbrev pub first {ℓ} : {A : Type ℓ} → List A → Option A
first [] = none
first (x ∷ xs) = some x

abbrev pub is_in_progress : ℕ → Option VerificationRecord → Bool
is_in_progress now none = false
is_in_progress now (some r) = expires_after now r.expires_at

abbrev pub is_absent {ℓ} : {A : Type ℓ} → Option A → Bool
is_absent none = true
is_absent (some a) = false

-- `VerificationRequestDto`
pub data VerificationRequest : Type 0 where
  phone_request : Option Text → VerificationRequest
  government_id_request : VerificationRequest
  video_request : Option Text → VerificationRequest

abbrev pub type_of : VerificationRequest → VerificationType
type_of (phone_request _) = VerificationType.phone
type_of government_id_request = VerificationType.government_id
type_of (video_request _) = VerificationType.video

-- `where` of `markExpiredVerifications`
abbrev pub is_overdue : ℕ → Option ℕ → VerificationRecord → Bool
is_overdue now none r = is_pending r.status && expires_before now r.expires_at
is_overdue now (some user_id) r =
    r.user_id == user_id && (is_pending r.status && expires_before now r.expires_at)
