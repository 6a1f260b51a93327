-- ===== src/BotDetector.antt =====
-- services/user-service/src/services/bot-detector.service.ts. Times are milliseconds, risk scores
-- hundredths. The client returns the responses of a user in ascending order of creation, at most
-- 100. Of the text of the reasoning only the band of risk is kept.
pub mod Risk
pub mod Coordination
mod Examples
use reasonbridge.Prelude.{
  ℕ, suc, ◌+◌, ◌-◌, ◌*◌, ◌/◌, min, Bool, true, false, not, List, [], ◌∷◌, ◌++◌, if◌then◌else◌,
  length, filter, map, any, ltb, leb, ◌==◌, Option, none, some,
}

pub record Response : Type 0 where
  pub created_at : ℕ
  pub topic_id : ℕ

-- `{ createdAt, author: { id, createdAt } }`
pub record AuthoredResponse : Type 0 where
  pub created_at : ℕ
  pub author_id : ℕ
  pub author_created_at : ℕ

pub data Pattern : Type 0 where
  very_new_account new_account rapid_posting topic_concentration : Pattern

pub data RiskBand : Type 0 where
  nothing_suspicious moderate_risk high_risk : RiskBand

-- `BotDetectionResult`
pub record BotDetection : Type 0 where
  pub is_suspicious : Bool
  pub risk_score : ℕ
  pub patterns : List Pattern
  pub reasoning : RiskBand

abbrev pub hour : ℕ
hour = 60 * 60 * 1000

abbrev pub minute : ℕ
minute = 60 * 1000

-- `timeDifferences`, summed up.
abbrev pub total_time : List Response → ℕ
total_time (r ∷ s ∷ rs) = (s.created_at - r.created_at) + total_time (s ∷ rs)
total_time _ = 0

-- The values of a `Set`, each once, in the order of insertion.
abbrev pub distinct : List ℕ → List ℕ
distinct [] = []
distinct (x ∷ xs) = x ∷ filter (λ y. not (y == x)) (distinct xs)

-- The contribution of the posting speed: an average below `m` minutes is a total time below
-- `m * (n - 1)` minutes.
unfoldable pub analyze_posting_speed : List Response → ℕ
analyze_posting_speed rs =
    if ltb (length rs) 3
    then 0
    else if ltb (total_time rs) (5 * minute * (length rs - 1))
    then 25
    else if ltb (total_time rs) (15 * minute * (length rs - 1))
    then 10
    else 0

-- The contribution of the topics: a ratio below 0.4.
unfoldable pub analyze_topic_concentration : List Response → ℕ
analyze_topic_concentration rs =
    if ltb (10 * length (distinct (map (λ r. r.topic_id) rs))) (4 * length rs) then 10 else 0

abbrev pub age_risk : ℕ → ℕ
age_risk age = if ltb age (24 * hour) then 15 else if ltb age (168 * hour) then 10 else 0

abbrev pub age_pattern : ℕ → List Pattern
age_pattern age =
    if ltb age (24 * hour)
    then Pattern.very_new_account ∷ []
    else if ltb age (168 * hour)
    then Pattern.new_account ∷ []
    else []

abbrev pub when_positive : ℕ → Pattern → List Pattern
when_positive risk p = if ltb 0 risk then p ∷ [] else []

abbrev pub speed_risk : List Response → ℕ
speed_risk rs = if ltb 0 (length rs) then analyze_posting_speed rs else 0

abbrev pub topic_risk : List Response → ℕ
topic_risk rs = if leb 5 (length rs) then analyze_topic_concentration rs else 0

abbrev pub band : List Pattern → ℕ → RiskBand
band [] risk = RiskBand.nothing_suspicious
band (p ∷ ps) risk = if leb 60 risk then RiskBand.high_risk else RiskBand.moderate_risk

-- The detection for a user with the age of the account and the responses.
unfoldable pub detect_new_account_bot_patterns : ℕ → List Response → BotDetection
detect_new_account_bot_patterns age rs =
    let risk = min (age_risk age + speed_risk rs + topic_risk rs) 100 in
    let patterns =
      age_pattern age
      ++ (when_positive (speed_risk rs) Pattern.rapid_posting
          ++ when_positive (topic_risk rs) Pattern.topic_concentration) in
    record {
      is_suspicious = leb 40 risk;
      risk_score = risk;
      patterns = patterns;
      reasoning = band patterns risk;
    }

-- `CoordinationPattern`, with the confidence in tenths.
pub record CoordinationPattern : Type 0 where
  pub confidence : ℕ
  pub affected_user_ids : List ℕ

-- The authors of the responses in one five-minute window.
abbrev pub window_key : AuthoredResponse → ℕ
window_key r = r.created_at / (5 * minute)

abbrev pub authors_in : ℕ → List AuthoredResponse → List ℕ
authors_in key rs = distinct (map (λ r. r.author_id) (filter (λ r. window_key r == key) rs))

abbrev pub is_coordinated : List AuthoredResponse → ℕ → Bool
is_coordinated rs key = leb 3 (length (authors_in key rs))

abbrev pub coordinated_authors : List AuthoredResponse → List ℕ → List ℕ
coordinated_authors rs [] = []
coordinated_authors rs (key ∷ keys) = authors_in key rs ++ coordinated_authors rs keys

unfoldable pub analyze_timing_coordination : List AuthoredResponse → CoordinationPattern
analyze_timing_coordination rs =
    let keys = filter (is_coordinated rs) (distinct (map window_key rs)) in
    record {
      confidence = min (2 * length keys) 10;
      affected_user_ids = distinct (coordinated_authors rs keys);
    }

abbrev pub new_accounts : ℕ → List AuthoredResponse → List ℕ
new_accounts now rs =
    distinct (map (λ r. r.author_id) (filter (λ r. ltb (now - r.author_created_at) (24 * hour)) rs))

unfoldable pub analyze_account_age_coordination : ℕ → List AuthoredResponse → CoordinationPattern
analyze_account_age_coordination now rs =
    let found = new_accounts now rs in
    if leb 3 (length found)
    then record { confidence = min (length found) 10; affected_user_ids = found }
    else record { confidence = 0; affected_user_ids = [] }

abbrev pub confident : CoordinationPattern → List CoordinationPattern
confident p = if ltb 6 p.confidence then p ∷ [] else []

unfoldable pub detect_coordinated_posting_patterns :
    ℕ → List AuthoredResponse → List CoordinationPattern
detect_coordinated_posting_patterns now rs =
    if ltb (length rs) 5
    then []
    else confident (analyze_timing_coordination rs)
      ++ confident (analyze_account_age_coordination now rs)
