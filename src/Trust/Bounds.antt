-- ===== src/Trust/Bounds.antt =====
-- The range of the scores, and how they compare for two users.
use reasonbridge.Prelude.{ℕ, ◌≤◌, ◌≡◌, Bool, true, false, not, ◌||◌, arith}
use reasonbridge.Trust.{
  Numbers, UserStatus, VerificationLevel, User, TrustScores, clamp_score, age_bonus, penalized,
  with_level, with_email, calculate_ability_score, calculate_benevolence_score,
  calculate_integrity_score, calculate_trust_scores,
}

abbrev pub status_rank : UserStatus → ℕ
status_rank UserStatus.banned = 0
status_rank UserStatus.suspended = 1
status_rank UserStatus.active = 2

abbrev pub level_rank : VerificationLevel → ℕ
level_rank VerificationLevel.basic = 0
level_rank VerificationLevel.enhanced = 1
level_rank VerificationLevel.verified_human = 2

-- The second user is in no respect worse than the first.
abbrev pub IsNoWorse : User → User → Type 0
IsNoWorse u v =
    ((not u.has_email || v.has_email) ≡ true)
    × (v.created_at ≤ u.created_at)
    × (status_rank u.status ≤ status_rank v.status)
    × (level_rank u.verification_level ≤ level_rank v.verification_level)

module _ {N : Type 0} (num : Numbers N) where
  abbrev pub AtMost : N → N → Type 0
  AtMost a b = num.at_most a b ≡ true

  -- Each score of the second user is at least that of the first.
  pub record AtLeast (x y : TrustScores N) : Type 0 where
    pub ability : AtMost x.ability y.ability
    pub benevolence : AtMost x.benevolence y.benevolence
    pub integrity : AtMost x.integrity y.integrity

  abbrev pub IsScore : N → Type 0
  IsScore a = AtMost (num.hundredths 0) a × AtMost a (num.hundredths 100)

  abbrev pub AreScores : TrustScores N → Type 0
  AreScores x = IsScore x.ability × IsScore x.benevolence × IsScore x.integrity

  clamp_score-IsScore : (a : N) → IsScore (clamp_score num a)
  clamp_score-IsScore a = (
    num.greater-above _ _,
    num.greater-least _ _ _ (num.hundredths_mono 0 100 (omega arith)) (num.lesser-below _ a),
  )

  clamp_score_mono : (a b : N) → AtMost a b → AtMost (clamp_score num a) (clamp_score num b)
  clamp_score_mono a b h = num.greater_mono _ _ _ (num.lesser_mono _ a b h)

  penalized_mono :
      (s b : ℕ)
      → s ≤ b
      → (p q : UserStatus) (x y : N) → status_rank p ≤ status_rank q
      → AtMost x y
      → AtMost (penalized num s b p x) (penalized num s b q y)
  penalized_mono s b sb UserStatus.active UserStatus.active x y r h = h
  penalized_mono s b sb UserStatus.active UserStatus.suspended x y r h = absurd (omega (arith, r))
  penalized_mono s b sb UserStatus.active UserStatus.banned x y r h = absurd (omega (arith, r))
  penalized_mono s b sb UserStatus.suspended UserStatus.active x y r h =
      num.at_most-trans _ _ _ (num.minus-below x s) h
  penalized_mono s b sb UserStatus.suspended UserStatus.suspended x y r h =
      num.minus_mono _ _ _ _ h (num.at_most-refl _)
  penalized_mono s b sb UserStatus.suspended UserStatus.banned x y r h = absurd (omega (arith, r))
  penalized_mono s b sb UserStatus.banned UserStatus.active x y r h =
      num.at_most-trans _ _ _ (num.minus-below x b) h
  penalized_mono s b sb UserStatus.banned UserStatus.suspended x y r h =
      num.minus_mono _ _ _ _ h (num.hundredths_mono s b sb)
  penalized_mono s b sb UserStatus.banned UserStatus.banned x y r h =
      num.minus_mono _ _ _ _ h (num.at_most-refl _)

  with_level_mono :
      (e v : ℕ)
      → e ≤ v
      → (p q : VerificationLevel) (x : N) → level_rank p ≤ level_rank q
      → AtMost (with_level num e v p x) (with_level num e v q x)
  with_level_mono e v ev VerificationLevel.basic VerificationLevel.basic x r = num.at_most-refl _
  with_level_mono e v ev VerificationLevel.basic VerificationLevel.enhanced x r = num.plus-above x e
  with_level_mono e v ev VerificationLevel.basic VerificationLevel.verified_human x r =
      num.plus-above x v
  with_level_mono e v ev VerificationLevel.enhanced VerificationLevel.basic x r =
      absurd (omega (arith, r))
  with_level_mono e v ev VerificationLevel.enhanced VerificationLevel.enhanced x r =
      num.at_most-refl _
  with_level_mono e v ev VerificationLevel.enhanced VerificationLevel.verified_human x r =
      num.plus_mono _ _ _ _ (num.at_most-refl x) (num.hundredths_mono e v ev)
  with_level_mono e v ev VerificationLevel.verified_human VerificationLevel.basic x r =
      absurd (omega (arith, r))
  with_level_mono e v ev VerificationLevel.verified_human VerificationLevel.enhanced x r =
      absurd (omega (arith, r))
  with_level_mono e v ev VerificationLevel.verified_human VerificationLevel.verified_human x r =
      num.at_most-refl _

  with_email_mono :
      (p q : Bool) (x : N) → (not p || q) ≡ true → AtMost (with_email num p x) (with_email num q x)
  with_email_mono true true x h = num.at_most-refl _
  with_email_mono true false x h = absurd (ground (arith, h))
  with_email_mono false true x h = num.plus-above x 5
  with_email_mono false false x h = num.at_most-refl x

  age_bonus_mono :
      (now : ℕ) (u v : User)
      → v.created_at ≤ u.created_at
      → AtMost (age_bonus num now u) (age_bonus num now v)
  age_bonus_mono now u v h = num.lesser_mono _ _ _ (
      num.times_mono _ _ (
        num.over_year_mono _ _
          (num.over_day_mono _ _ (num.since_mono v.created_at u.created_at now h))))

  -- The scores of two users of whom the second has an email address if the first has one, was created no
  -- later, and has no worse status and no lower level of verification: each score of the second is at least
  -- that of the first, and those of the first are from 0 to 1.
  pub calculate_trust_scores-AtLeast :
      (now : ℕ) (u v : User)
      → IsNoWorse u v
      → AtLeast (calculate_trust_scores num now u) (calculate_trust_scores num now v)
        × AreScores (calculate_trust_scores num now u)
  unfolding calculate_trust_scores calculate_ability_score calculate_benevolence_score
      calculate_integrity_score
  calculate_trust_scores-AtLeast now u v (email, age, status, level) =
      let older = age_bonus_mono now u v age in
      (
        record {
          ability = clamp_score_mono _ _ (
              penalized_mono 20 30 (omega arith) u.status v.status _ _ status
                (num.plus_mono _ _ _ _ (with_email_mono u.has_email v.has_email _ email) older));
          benevolence = clamp_score_mono _ _ (
              penalized_mono 15 25 (omega arith) u.status v.status _ _ status (
                with_level_mono 10 20 (omega arith) u.verification_level v.verification_level _
                  level));
          integrity = clamp_score_mono _ _ (
              penalized_mono 25 40 (omega arith) u.status v.status _ _ status (
                num.plus_mono _ _ _ _
                  (with_level_mono 15 25 (omega arith) u.verification_level v.verification_level _
                    level)
                  older));
        },
        (clamp_score-IsScore _, clamp_score-IsScore _, clamp_score-IsScore _),
      )
