-- ===== src/Resilience/Examples.antt =====
-- Loops over a script of outcomes, and the theorems at concrete inputs.
use reasonbridge.Prelude.{
  ◌≡◌, refl, ℕ, ◌*◌, ◌==◌, true, false, some, none, List, [], ◌∷◌, arith, text, to_lower_case,
  includes,
}
use reasonbridge.Resilience.{
  Attempt, RetryConfig, HttpError, is_retryable_http_error, calculate_delay, steps, with_retry,
  retry_on_optimistic_lock,
}
use reasonbridge.Resilience.Attempts.{Decides, with_retry-Decides}
use reasonbridge.Resilience.Versions.{
  check_version, perform_optimistic_update, validate_version, with_version_increment,
}

-- The world is the list of the outcomes to come.
abbrev next : List (Attempt ℕ ℕ) → Attempt ℕ ℕ × List (Attempt ℕ ℕ)
next [] = (Attempt.threw 0, [])
next (o ∷ os) = (o, os)

abbrev config : RetryConfig ℕ
config = record {
  max_attempts = 3;
  initial_delay = 100;
  max_delay = 5000;
  backoff_factor = 2;
  jitter = false;
  is_retryable = λ e. e == 503;
}

abbrev script : List (Attempt ℕ ℕ)
script = Attempt.threw 503 ∷ Attempt.threw 503 ∷ Attempt.returned 7 ∷ []

abbrev unavailable : HttpError
unavailable = record {
  message = some (text "connect ECONNREFUSED");
  response_status = none;
  status = none;
  get_status = none;
}

opened : Unit {0}
unfolding with_retry retry_on_optimistic_lock calculate_delay is_retryable_http_error includes
    to_lower_case perform_optimistic_update check_version validate_version with_version_increment
opened = tt

retry_tests :
    (with_retry next config (λ _. 0) script
      ≡ (some (Attempt.returned 7), [], 100 * (4 * steps) ∷ 200 * (4 * steps) ∷ []))
    × (retry_on_optimistic_lock next (λ e. e == 503) 1 100 script
        ≡ (some (Attempt.threw 503), Attempt.returned 7 ∷ [], 100 ∷ []))
    × (is_retryable_http_error unavailable ≡ true)
    × (is_retryable_http_error (record unavailable { message = none; status = some 404 }) ≡ false)
unfolding opened
retry_tests = (refl, refl, refl, refl)

with_retry-Decides_example :
    (k : ℕ) × Decides next (λ e. e == 503) 3 script (with_retry next config (λ _. 0) script) k
with_retry-Decides_example = with_retry-Decides next config (λ _. 0) script (omega arith)

-- The row of a store is its version.
abbrev read : ℕ → ℕ
read s = s

abbrev write : ℕ → ℕ → Unit {0} × ℕ
write v s = (tt, v)
