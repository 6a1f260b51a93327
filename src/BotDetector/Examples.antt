-- ===== src/BotDetector/Examples.antt =====
-- Detection on a few responses, and the theorems at concrete inputs.
use reasonbridge.Prelude.{
  arith, ◌≤◌, ◌-◌, ◌≡◌, ◌↔◌, ◌⊎◌, ◌*◌, ◌<◌, refl, true, false, List, [], ◌∷◌,
}
use reasonbridge.BotDetector.{
  Response, AuthoredResponse, hour, detect_new_account_bot_patterns, analyze_posting_speed,
  analyze_topic_concentration, detect_coordinated_posting_patterns, analyze_timing_coordination,
  analyze_account_age_coordination,
}
use reasonbridge.BotDetector.Risk.{is_suspicious_iff}

abbrev rapid : List Response
rapid =
    record { created_at = 0; topic_id = 1 }
    ∷ record { created_at = 60000; topic_id = 2 }
    ∷ record { created_at = 120000; topic_id = 3 }
    ∷ []

-- Five responses of three new accounts within one window.
abbrev crowd : List AuthoredResponse
crowd =
    record { created_at = 0; author_id = 1; author_created_at = 0 }
    ∷ record { created_at = 1; author_id = 2; author_created_at = 0 }
    ∷ record { created_at = 2; author_id = 3; author_created_at = 0 }
    ∷ record { created_at = 3; author_id = 1; author_created_at = 0 }
    ∷ record { created_at = 4; author_id = 2; author_created_at = 0 }
    ∷ []

opened : Unit {0}
unfolding detect_new_account_bot_patterns analyze_posting_speed analyze_topic_concentration
    detect_coordinated_posting_patterns analyze_timing_coordination analyze_account_age_coordination
opened = tt

detector_tests :
    ((detect_new_account_bot_patterns hour rapid).risk_score ≡ 40)
    × ((detect_new_account_bot_patterns hour rapid).is_suspicious ≡ true)
    × ((detect_new_account_bot_patterns (48 * hour) rapid).is_suspicious ≡ false)
    × ((analyze_account_age_coordination 5 crowd).affected_user_ids ≡ 1 ∷ 2 ∷ 3 ∷ [])
    × (detect_coordinated_posting_patterns 5 crowd ≡ [])
unfolding opened
detector_tests = (refl, refl, refl, refl, refl)

is_suspicious_iff_example : ((detect_new_account_bot_patterns hour rapid).is_suspicious ≡ true) ↔ (
    (3 ≤ 3)
    × (120000 < 300000 * (3 - 1))
    × ((hour < 86400000) ⊎ ((hour < 604800000) × (5 ≤ 3) × (10 * 3 < 4 * 3))))
is_suspicious_iff_example = is_suspicious_iff hour rapid (omega arith, (omega arith, tt))
