-- ===== src/BotDetector/Coordination.antt =====
-- How many accounts and windows it takes before a coordination is reported.
use reasonbridge.Prelude.{
  ℕ, ◌+◌, ◌≤◌, ◌≡◌, refl, false, List, arith, if◌then◌else◌, length, length-append, filter, map,
  ltb, leb,
}
use reasonbridge.BotDetector.{
  AuthoredResponse, distinct, window_key, is_coordinated, analyze_timing_coordination, new_accounts,
  analyze_account_age_coordination, confident, detect_coordinated_posting_patterns,
}

-- The windows of five minutes in which at least three authors posted.
abbrev pub busy_windows : List AuthoredResponse → ℕ
busy_windows rs = length (filter (is_coordinated rs) (distinct (map window_key rs)))

confident-timing :
    (rs : List AuthoredResponse)
    → length (confident (analyze_timing_coordination rs))
      ≡ (if leb 4 (busy_windows rs) then 1 else 0)
unfolding analyze_timing_coordination
confident-timing rs = ground arith

confident-accounts :
    (now : ℕ) (rs : List AuthoredResponse)
    → length (confident (analyze_account_age_coordination now rs))
      ≡ (if leb 7 (length (new_accounts now rs)) then 1 else 0)
unfolding analyze_account_age_coordination
confident-accounts now rs = ground arith

-- On a topic with at least five responses, one pattern is reported for at least four windows of five
-- minutes with three authors or more, and one for at least seven different authors whose accounts
-- are younger than a day; nothing else is reported.
pub detect_thresholds :
    (now : ℕ) (rs : List AuthoredResponse)
    → 5 ≤ length rs
    → length (detect_coordinated_posting_patterns now rs)
      ≡ (if leb 4 (busy_windows rs) then 1 else 0)
        + (if leb 7 (length (new_accounts now rs)) then 1 else 0)
unfolding detect_coordinated_posting_patterns
detect_thresholds now rs h =
    let enough : ltb (length rs) 5 ≡ false = ground arith in
    rw
      (
        enough,
        length-append (confident (analyze_timing_coordination rs))
            (confident (analyze_account_age_coordination now rs)),
        confident-timing rs,
        confident-accounts now rs,
      )
      refl
