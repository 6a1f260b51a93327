-- ===== src/BotDetector/Risk.antt =====
-- What makes a new account suspicious.
use reasonbridge.Prelude.{
  ◌-◌, refl, length, map, ℕ, ◌+◌, ◌*◌, ◌≤◌, ◌<◌, ◌≡◌, ◌≢◌, ◌↔◌, ◌⊎◌, min, true, ◌++◌, List, [], ◌∷◌,
  arith,
}
use reasonbridge.BotDetector.{
  total_time, distinct, Response, Pattern, RiskBand, analyze_posting_speed,
  analyze_topic_concentration, age_risk, age_pattern, when_positive, speed_risk, topic_risk, band,
  detect_new_account_bot_patterns,
}

speed_risk-values :
    (rs : List Response)
    → (analyze_posting_speed rs ≡ 0)
      ⊎ ((analyze_posting_speed rs ≡ 10) ⊎ (analyze_posting_speed rs ≡ 25))
unfolding analyze_posting_speed
speed_risk-values rs = ground arith

topic_risk-values :
    (rs : List Response)
    → (analyze_topic_concentration rs ≡ 0) ⊎ (analyze_topic_concentration rs ≡ 10)
unfolding analyze_topic_concentration
topic_risk-values rs = ground arith

band-low : (ps : List Pattern) (risk : ℕ) → risk ≤ 50 → band ps risk ≢ RiskBand.high_risk
band-low [] risk h = ground arith
band-low (p ∷ ps) risk h = ground arith

-- No account has a risk score above 0.50: the cap at 1.00 has no effect, and the reasoning never
-- speaks of a high risk.
pub risk_score_range :
    (age : ℕ) (rs : List Response)
    → ((detect_new_account_bot_patterns age rs).risk_score
        ≡ age_risk age + speed_risk rs + topic_risk rs)
      × ((detect_new_account_bot_patterns age rs).risk_score ≤ 50)
      × ((detect_new_account_bot_patterns age rs).reasoning ≢ RiskBand.high_risk)
unfolding detect_new_account_bot_patterns
risk_score_range age rs =
    let speed = speed_risk-values rs in
    let topic = topic_risk-values rs in
    let patterns =
      age_pattern age
      ++ (when_positive (speed_risk rs) Pattern.rapid_posting
          ++ when_positive (topic_risk rs) Pattern.topic_concentration) in
    (
      ground arith,
      ground arith,
      band-low patterns (min (age_risk age + speed_risk rs + topic_risk rs) 100) (ground arith),
    )

-- The times of the responses, each not before the one before.
abbrev pub IsAscending : List Response → Type 0
IsAscending (r ∷ s ∷ rs) = (r.created_at ≤ s.created_at) × IsAscending (s ∷ rs)
IsAscending _ = Unit

-- The time from the given one to the last response.
abbrev last_time : ℕ → List Response → ℕ
last_time t [] = t
last_time t (r ∷ rs) = last_time r.created_at rs

-- The time from the first to the last response.
abbrev pub time_span : List Response → ℕ
time_span [] = 0
time_span (r ∷ rs) = last_time r.created_at rs - r.created_at

last_time-later :
    (r : Response) (rs : List Response)
    → IsAscending (r ∷ rs)
    → r.created_at ≤ last_time r.created_at rs
last_time-later r [] h = omega arith
last_time-later r (s ∷ rs) (le, h) = omega (arith, le, last_time-later s rs h)

-- The time differences add up to the span.
total_time-span : (rs : List Response) → IsAscending rs → total_time rs ≡ time_span rs
total_time-span [] h = refl
total_time-span (r ∷ []) h = omega arith
total_time-span (r ∷ s ∷ rs) (le, h) =
    omega (arith, le, last_time-later s rs h, total_time-span (s ∷ rs) h)

speed_risk-high :
    (rs : List Response)
    → (speed_risk rs ≡ 25) ↔ ((3 ≤ length rs) × (total_time rs < 300000 * (length rs - 1)))
unfolding analyze_posting_speed
speed_risk-high rs = ground arith

topic_risk-high :
    (rs : List Response)
    → (topic_risk rs ≡ 10)
      ↔ ((5 ≤ length rs) × (10 * length (distinct (map (λ r. r.topic_id) rs)) < 4 * length rs))
unfolding analyze_topic_concentration
topic_risk-high rs = ground arith

-- Where the responses are in the order of their times: an account is suspicious exactly where it has at least
-- three responses, with less than five minutes between two of them on average from the first to the last,
-- and is younger than a day, or younger than a week with at least five responses, on fewer topics than four
-- tenths of their number.
pub is_suspicious_iff :
    (age : ℕ) (rs : List Response)
    → IsAscending rs
    → ((detect_new_account_bot_patterns age rs).is_suspicious ≡ true) ↔ (
        (3 ≤ length rs)
        × (time_span rs < 300000 * (length rs - 1))
        × ((age < 86400000)
            ⊎ ((age < 604800000)
                × (5 ≤ length rs)
                × (10 * length (distinct (map (λ r. r.topic_id) rs)) < 4 * length rs))))
unfolding detect_new_account_bot_patterns
is_suspicious_iff age rs h =
    let speed = speed_risk-values rs in
    let topic = topic_risk-values rs in
    let (s1, s2) = speed_risk-high rs in
    let (t1, t2) = topic_risk-high rs in
    let span = total_time-span rs h in ground (arith, s1, s2, t1, t2, span, speed, topic)
