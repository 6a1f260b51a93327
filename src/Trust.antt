-- ===== src/Trust.antt =====
-- services/user-service/src/services/trust-score.calculator.ts. The arithmetic of numbers is a parameter.
pub mod Bounds
mod Examples
use reasonbridge.Prelude.{ℕ, ◌≤◌, ◌≡◌, Bool, true, false, Option, if◌then◌else◌, leb, or_else}

-- The finite numbers of the language: literals in hundredths, the operations, and what rounding to the
-- nearest number keeps of the order.
pub record Numbers (N : Type 0) : Type 0 where
  pub at_most : N → N → Bool
  pub hundredths : ℕ → N
  pub plus : N → N → N
  pub minus : N → N → N
  pub times : N → N → N
  pub over : N → ℕ → N
  pub greater : N → N → N
  pub lesser : N → N → N
  -- `Date.now() - user.createdAt.getTime()`
  pub since : (created_at now : ℕ) → N
  pub at_most-refl : (a : N) → at_most a a ≡ true
  pub at_most-trans : (a b c : N) → at_most a b ≡ true → at_most b c ≡ true → at_most a c ≡ true
  pub hundredths_mono : (m n : ℕ) → m ≤ n → at_most (hundredths m) (hundredths n) ≡ true
  pub plus_mono :
      (a b c d : N) → at_most a b ≡ true → at_most c d ≡ true → at_most (plus a c) (plus b d) ≡ true
  pub minus_mono :
      (a b c d : N)
      → at_most a b ≡ true
      → at_most d c ≡ true
      → at_most (minus a c) (minus b d) ≡ true
  pub plus-above : (a : N) (n : ℕ) → at_most a (plus a (hundredths n)) ≡ true
  pub minus-below : (a : N) (n : ℕ) → at_most (minus a (hundredths n)) a ≡ true
  pub times_mono :
      (a b : N)
      → at_most a b ≡ true
      → at_most (times a (hundredths 15)) (times b (hundredths 15)) ≡ true
  pub over_day_mono :
      (a b : N) → at_most a b ≡ true → at_most (over a 86400000) (over b 86400000) ≡ true
  pub over_year_mono : (a b : N) → at_most a b ≡ true → at_most (over a 365) (over b 365) ≡ true
  pub greater_mono : (a b c : N) → at_most b c ≡ true → at_most (greater a b) (greater a c) ≡ true
  pub greater-above : (a b : N) → at_most a (greater a b) ≡ true
  pub greater-least :
      (a b c : N) → at_most a c ≡ true → at_most b c ≡ true → at_most (greater a b) c ≡ true
  pub lesser_mono : (a b c : N) → at_most b c ≡ true → at_most (lesser a b) (lesser a c) ≡ true
  pub lesser-below : (a b : N) → at_most (lesser a b) a ≡ true
  pub since_mono : (a b now : ℕ) → a ≤ b → at_most (since b now) (since a now) ≡ true

pub data UserStatus : Type 0 where
  active suspended banned : UserStatus

pub data VerificationLevel : Type 0 where
  basic enhanced verified_human : VerificationLevel

-- What the calculator reads of a user: whether `email` is a non-empty string, the time of the creation,
-- which may be ahead of the clock, the status and the level.
pub record User : Type 0 where
  pub has_email : Bool
  pub created_at : ℕ
  pub status : UserStatus
  pub verification_level : VerificationLevel

-- `TrustScoresDto`
pub record TrustScores (N : Type 0) : Type 0 where
  pub ability : N
  pub benevolence : N
  pub integrity : N

-- `TrustScoreUpdateDto`
pub record TrustScoreUpdate (N : Type 0) : Type 0 where
  pub ability : Option N
  pub benevolence : Option N
  pub integrity : Option N

unfoldable pub merge_scores : {N : Type 0} → TrustScores N → TrustScoreUpdate N → TrustScores N
merge_scores existing update = record {
  ability = or_else update.ability existing.ability;
  benevolence = or_else update.benevolence existing.benevolence;
  integrity = or_else update.integrity existing.integrity;
}

module _ {N : Type 0} (num : Numbers N) where
  -- `Math.max(0, Math.min(1, score))`
  abbrev pub clamp_score : N → N
  clamp_score score = num.greater (num.hundredths 0) (num.lesser (num.hundredths 100) score)

  -- `Math.min(0.15, (accountAgeDays / 365) * 0.15)`
  abbrev pub age_bonus : ℕ → User → N
  age_bonus now u = num.lesser (num.hundredths 15) (
      num.times (num.over (num.over (num.since u.created_at now) 86400000) 365) (num.hundredths 15))

  -- The score less the penalty for a status, given the one for suspended and the one for banned accounts.
  abbrev pub penalized : ℕ → ℕ → UserStatus → N → N
  penalized s b UserStatus.active score = score
  penalized s b UserStatus.suspended score = num.minus score (num.hundredths s)
  penalized s b UserStatus.banned score = num.minus score (num.hundredths b)

  -- The score with the bonus for a level, given the one for enhanced and the one for verified users.
  abbrev pub with_level : ℕ → ℕ → VerificationLevel → N → N
  with_level e v VerificationLevel.basic score = score
  with_level e v VerificationLevel.enhanced score = num.plus score (num.hundredths e)
  with_level e v VerificationLevel.verified_human score = num.plus score (num.hundredths v)

  abbrev pub with_email : Bool → N → N
  with_email true score = num.plus score (num.hundredths 5)
  with_email false score = score

  unfoldable pub calculate_ability_score : ℕ → User → N
  calculate_ability_score now u = clamp_score (
      penalized 20 30 u.status
        (num.plus (with_email u.has_email (num.hundredths 50)) (age_bonus now u)))

  unfoldable pub calculate_benevolence_score : User → N
  calculate_benevolence_score u =
      clamp_score
        (penalized 15 25 u.status (with_level 10 20 u.verification_level (num.hundredths 50)))

  unfoldable pub calculate_integrity_score : ℕ → User → N
  calculate_integrity_score now u = clamp_score (
      penalized 25 40 u.status
        (num.plus (with_level 15 25 u.verification_level (num.hundredths 50)) (age_bonus now u)))

  unfoldable pub calculate_trust_scores : ℕ → User → TrustScores N
  calculate_trust_scores now u = record {
    ability = calculate_ability_score now u;
    benevolence = calculate_benevolence_score u;
    integrity = calculate_integrity_score now u;
  }
