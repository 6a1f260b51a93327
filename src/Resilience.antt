-- ===== src/Resilience.antt =====
-- Repeated attempts: services/api-gateway/src/resilience/retry.util.ts and
-- services/discussion-service/src/utils/optimistic-lock-handler.ts. The function that is attempted
-- is a step on a world `W`; a loop returns its outcome with the world it leaves and the delays that
-- it slept. `none` in place of an outcome stands for `throw undefined`.
pub mod Attempts
pub mod Versions
mod Examples
use reasonbridge.Prelude.{
  ℕ, zero, suc, ◌+◌, ◌-◌, ◌*◌, ◌^◌, min, Bool, true, false, not, ◌&&◌, ◌||◌, Option, none, some,
  List, [], ◌∷◌, if◌then◌else◌, leb, ltb, ◌==◌, any, Text, text, text_eq, to_lower_case,
  starts_with, includes,
}

pub data Attempt (E T : Type 0) : Type 0 where
  returned : T → Attempt E T
  threw : E → Attempt E T

-- `RetryConfig` with its defaults filled in.
pub record RetryConfig (E : Type 0) : Type 0 where
  pub max_attempts : ℕ
  pub initial_delay : ℕ
  pub max_delay : ℕ
  pub backoff_factor : ℕ
  pub jitter : Bool
  pub is_retryable : E → Bool

-- What `isRetryableHttpError` reads of the error: its message where it is an `Error`, and the first
-- truthy status code among those of Axios and of NestJS.
pub record HttpError : Type 0 where
  pub message : Option Text
  pub response_status : Option ℕ
  pub status : Option ℕ
  pub get_status : Option ℕ

abbrev pub network_errors : List Text
network_errors =
    text "ECONNREFUSED"
    ∷ text "ENOTFOUND"
    ∷ text "ETIMEDOUT"
    ∷ text "ECONNRESET"
    ∷ text "EPIPE"
    ∷ []

-- A status code of 0 is falsy; the last one is returned as it is.
abbrev pub get_error_status_code : HttpError → Option ℕ
get_error_status_code e = elim e.response_status [
  | some (suc n) ↦ some (suc n)
  | _ ↦ elim e.status [ some (suc n) ↦ some (suc n) | _ ↦ e.get_status ]
]

abbrev pub says : (Text → Bool) → Option Text → Bool
says test none = false
says test (some message) = test message

unfoldable pub is_retryable_http_error : HttpError → Bool
unfolding includes to_lower_case
is_retryable_http_error e =
    if says (λ m. any (λ code. includes code m) network_errors) e.message
    then true
    else elim (get_error_status_code e) [
      | some code ↦ leb 500 code || code == 408 || code == 429
      | none ↦ says (λ m. includes (text "timeout") (to_lower_case m)) e.message
    ]

-- `Math.random()` is a whole number of parts of `steps`, and a delay a whole number of parts of
-- `4 * steps` of a millisecond: (delay - delay / 4) + random * (delay / 4) * 2.
abbrev pub steps : ℕ
steps = 2 ^ 53

unfoldable pub calculate_delay : {E : Type 0} → ℕ → RetryConfig E → (random : ℕ) → ℕ
calculate_delay attempt config random =
    let delay =
      min (config.initial_delay * config.backoff_factor ^ (attempt - 1)) config.max_delay in
    if config.jitter then delay * (3 * steps + 2 * random) else delay * (4 * steps)

-- The end of a loop, and a turn that sleeps first.
abbrev pub Outcome : Type 0 → Type 0 → Type 0 → Type 0
Outcome W E T = Option (Attempt E T) × W × List ℕ

abbrev pub slept : {W E T : Type 0} → ℕ → Outcome W E T → Outcome W E T
slept delay (o, w, delays) = (o, w, delay ∷ delays)

abbrev pub last_thrown : {E T : Type 0} → Option E → Option (Attempt E T)
last_thrown none = none
last_thrown (some e) = some (Attempt.threw e)

module _ {W E T : Type 0} (fn : W → Attempt E T × W) where
  -- The `for` loop from an attempt on, with the turns that are left as its fuel; `random` gives the
  -- numbers of `Math.random()` by attempt.
  abbrev pub attempt_from :
      RetryConfig E → (ℕ → ℕ) → (left attempt : ℕ) → Option E → W → Outcome W E T
  attempt_from config random zero attempt last w = (last_thrown last, w, [])
  attempt_from config random (suc left) attempt last w = elim (fn w).0 [
    | Attempt.returned t ↦ (some (Attempt.returned t), (fn w).1, [])
    | Attempt.threw e ↦
        let rest = attempt_from config random left (suc attempt) (some e) (fn w).1 in
        if attempt == config.max_attempts
        then (some (Attempt.threw e), (fn w).1, [])
        else if not (config.is_retryable e)
        then (some (Attempt.threw e), (fn w).1, [])
        else slept (calculate_delay attempt config (random attempt)) rest
  ]

  unfoldable pub with_retry : RetryConfig E → (ℕ → ℕ) → W → Outcome W E T
  unfolding calculate_delay
  with_retry config random w = attempt_from config random config.max_attempts 1 none w

  -- `retryOnOptimisticLock`: `is_conflict` is the test `error instanceof OptimisticLockException`.
  abbrev pub operate_from :
      (E → Bool) → (max_retries delay_ms left attempt : ℕ) → Option E → W → Outcome W E T
  operate_from is_conflict max_retries delay_ms zero attempt last w = (last_thrown last, w, [])
  operate_from is_conflict max_retries delay_ms (suc left) attempt last w = elim (fn w).0 [
    | Attempt.returned t ↦ (some (Attempt.returned t), (fn w).1, [])
    | Attempt.threw e ↦
        let rest =
          operate_from is_conflict max_retries delay_ms left (suc attempt) (some e) (fn w).1 in
        if is_conflict e && ltb attempt max_retries
        then slept (delay_ms * (attempt + 1)) rest
        else (some (Attempt.threw e), (fn w).1, [])
  ]

  unfoldable pub retry_on_optimistic_lock :
      (E → Bool) → (max_retries delay_ms : ℕ) → W → Outcome W E T
  retry_on_optimistic_lock is_conflict max_retries delay_ms w =
      operate_from is_conflict max_retries delay_ms (suc max_retries) 0 none w
