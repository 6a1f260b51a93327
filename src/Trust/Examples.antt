-- ===== src/Trust/Examples.antt =====
-- The scores of two users, and the theorem at a concrete input.
use reasonbridge.Prelude.{ℕ, ◌+◌, ◌-◌, ◌*◌, ◌/◌, ◌≡◌, refl, true, leb, min, max, arith, some, none}
use reasonbridge.Trust.{
  Numbers, UserStatus, VerificationLevel, User, TrustScores, merge_scores, calculate_ability_score,
  calculate_benevolence_score, calculate_integrity_score, calculate_trust_scores,
}
use reasonbridge.Trust.Bounds.{AtLeast, AreScores, calculate_trust_scores-AtLeast}

-- Millionths, rounded down, with differences that stop at 0.
abbrev millionths : Numbers ℕ
millionths = record {
  at_most = leb;
  hundredths = λ n. 10000 * n;
  plus = λ a b. a + b;
  minus = λ a b. a - b;
  times = λ a b. a * (b / 10000) / 100;
  over = λ a n. a / n;
  greater = λ a b. max a b;
  lesser = λ a b. min a b;
  since = λ created now. 1000000 * (now - created);
  at_most-refl = λ a. ground arith;
  at_most-trans = λ a b c h k. ground (arith, h, k);
  hundredths_mono = λ m n h. ground (arith, h);
  plus_mono = λ a b c d h k. ground (arith, h, k);
  minus_mono = λ a b c d h k. ground (arith, h, k);
  plus-above = λ a n. ground arith;
  minus-below = λ a n. ground arith;
  times_mono = λ a b h. ground (arith, h);
  over_day_mono = λ a b h. ground (arith, h);
  over_year_mono = λ a b h. ground (arith, h);
  greater_mono = λ a b c h. ground (arith, h);
  greater-above = λ a b. ground arith;
  greater-least = λ a b c h k. ground (arith, h, k);
  lesser_mono = λ a b c h. ground (arith, h);
  lesser-below = λ a b. ground arith;
  since_mono = λ a b now h. ground (arith, h);
}

abbrev newcomer : User
newcomer = record {
  has_email = true;
  created_at = 31536000000;
  status = UserStatus.suspended;
  verification_level = VerificationLevel.basic;
}

abbrev veteran : User
veteran = record newcomer {
  created_at = 0;
  status = UserStatus.active;
  verification_level = VerificationLevel.enhanced;
}

opened : Unit {0}
unfolding calculate_trust_scores calculate_ability_score calculate_benevolence_score
    calculate_integrity_score merge_scores
opened = tt

abbrev scores : TrustScores ℕ
scores = calculate_trust_scores millionths 31536000000 veteran

trust_tests :
    (scores ≡ record { ability = 700000; benevolence = 600000; integrity = 800000 })
    × (calculate_trust_scores millionths 31536000000 newcomer
        ≡ record { ability = 350000; benevolence = 350000; integrity = 250000 })
    × ((merge_scores scores
          (record { ability = none; benevolence = some 0; integrity = none })).benevolence
        ≡ 0)
unfolding opened
trust_tests = (refl, refl, refl)

calculate_trust_scores-AtLeast_example :
    AtLeast millionths
      (calculate_trust_scores millionths 31536000000 newcomer)
      (calculate_trust_scores millionths 31536000000 veteran)
    × AreScores millionths (calculate_trust_scores millionths 31536000000 newcomer)
calculate_trust_scores-AtLeast_example =
    calculate_trust_scores-AtLeast millionths 31536000000 newcomer veteran
      (refl, omega arith, omega arith, omega arith)
