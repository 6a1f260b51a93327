-- ===== src/Resilience/Attempts.antt =====
-- Which attempt decides the outcome, and how long the loop waits.
use reasonbridge.Prelude.{
  ℕ, zero, suc, ◌+◌, ◌-◌, ◌*◌, ◌^◌, ◌≤◌, ◌<◌, min, ◌≡◌, ◌⊎◌, refl, Bool, true, false, not, Option,
  none, some, [], arith, ltb, ◌==◌, length, Bool-cases, inl, inr,
}
use reasonbridge.Resilience.{
  Attempt, RetryConfig, Outcome, slept, attempt_from, with_retry, operate_from,
  retry_on_optimistic_lock, calculate_delay, steps,
}

Attempt-cases :
    {E T : Type 0} (o : Attempt E T)
    → ((t : T) × (o ≡ Attempt.returned t)) ⊎ ((e : E) × (o ≡ Attempt.threw e))
Attempt-cases (Attempt.returned t) = inl (t, refl)
Attempt-cases (Attempt.threw e) = inr (e, refl)

module _ {E T : Type 0} where
  -- The outcome of an attempt that no further attempt follows.
  abbrev pub is_final : (E → Bool) → Attempt E T → Bool
  is_final retried (Attempt.returned t) = true
  is_final retried (Attempt.threw e) = not (retried e)

module _ {W E T : Type 0} where
  -- The world after a number of calls, and the outcome of the next one.
  abbrev pub after : (W → Attempt E T × W) → ℕ → W → W
  after fn zero w = w
  after fn (suc k) w = after fn k (fn w).1

  abbrev pub attempt_at : (W → Attempt E T × W) → ℕ → W → Attempt E T
  attempt_at fn k w = (fn (after fn k w)).0

  -- The outcome is that of attempt `k`, counted from 0: the first one that is final, or the last of
  -- the attempts allowed; the loop called the function `suc k` times and slept `k` times.
  pub record Decides (fn : W → Attempt E T × W) (retried : E → Bool) (allowed : ℕ) (w : W)
      (o : Outcome W E T) (k : ℕ) : Type 0 where
    pub within : k < allowed
    pub earlier : (j : ℕ) → j < k → is_final retried (attempt_at fn j w) ≡ false
    pub decides : (is_final retried (attempt_at fn k w) ≡ true) ⊎ (suc k ≡ allowed)
    pub outcome : o.0 ≡ some (attempt_at fn k w)
    pub world : o.1 ≡ after fn (suc k) w
    pub waits : length o.2 ≡ k

  Decides-later :
      (fn : W → Attempt E T × W) (retried : E → Bool) (allowed : ℕ) (w : W) (delay k : ℕ)
      (o : Outcome W E T)
      → is_final retried (fn w).0 ≡ false
      → Decides fn retried allowed (fn w).1 o k
      → Decides fn retried (suc allowed) w (slept delay o) (suc k)
  Decides-later fn retried allowed w delay k o h d = record {
    within = omega (arith, d.within);
    earlier = λ j l. earlier_all j l;
    decides = elim d.decides [ inl f ↦ inl f | inr l ↦ inr (omega arith) ];
    outcome = d.outcome;
    world = d.world;
    waits = omega (arith, d.waits);
  }
    where
      earlier_all : (j : ℕ) → j < suc k → is_final retried (attempt_at fn j w) ≡ false
      earlier_all zero l = h
      earlier_all (suc j) l = d.earlier j (omega arith)

  Decides-now :
      (fn : W → Attempt E T × W) (retried : E → Bool) (allowed : ℕ) (w : W) (o : Attempt E T)
      → (fn w).0 ≡ o
      → (is_final retried o ≡ true) ⊎ (1 ≡ suc allowed)
      → Decides fn retried (suc allowed) w (some o, (fn w).1, []) 0
  Decides-now fn retried allowed w o e h = record {
    within = omega arith;
    earlier = λ j l. absurd (omega arith);
    decides = elim h [ inl f ↦ inl (rw e f) | inr l ↦ inr l ];
    outcome = rw e refl;
    world = refl;
    waits = refl;
  }

module _ {W E T : Type 0} (fn : W → Attempt E T × W) where
  attempt_from-Decides :
      (config : RetryConfig E) (random : ℕ → ℕ) (left attempt : ℕ) (last : Option E) (w : W)
      → 0 < left
      → attempt + left ≡ suc config.max_attempts
      → (k : ℕ) × Decides fn config.is_retryable left w
          (attempt_from fn config random left attempt last w)
          k
  attempt_from-Decides config random zero attempt last w h total = absurd (omega arith)
  attempt_from-Decides config random (suc left) attempt last w h total =
      elim (Attempt-cases (fn w).0) [
        | inl (t, e) ↦ (0, rw (e, attempt_from) (Decides-now fn _ left w _ e (inl refl)))
        | inr (x, e) ↦ elim (Bool-cases (attempt == config.max_attempts)) [
          | inl end ↦
              let last_one : left ≡ 0 = ground arith in
              (0, rw (e, attempt_from, end) (Decides-now fn _ left w _ e (inr (omega arith))))
          | inr more ↦ elim (Bool-cases (config.is_retryable x)) [
            | inr fatal ↦ (
              0,
              rw (e, attempt_from, more, fatal) (Decides-now fn _ left w _ e (inl (rw fatal refl))),
            )
            | inl again ↦
                let (k, d) =
                  attempt_from-Decides config random left (suc attempt) (some x) (fn w).1
                    (ground arith) (omega arith) in
                (
                  suc k,
                  rw (e, attempt_from, more, again)
                      (Decides-later fn _ left w _ k _ (rw (e, again) refl) d),
                )
          ]
        ]
      ]

  -- With at least one attempt allowed, the loop returns or throws what one of its attempts did: the
  -- first that returned or threw an error that is not retryable, else the last one allowed. It
  -- calls the function once per attempt up to that one, and sleeps once between two calls.
  pub with_retry-Decides :
      (config : RetryConfig E) (random : ℕ → ℕ) (w : W)
      → 0 < config.max_attempts
      → (k : ℕ) × Decides fn config.is_retryable config.max_attempts w
          (with_retry fn config random w)
          k
  unfolding with_retry
  with_retry-Decides config random w h =
      attempt_from-Decides config random config.max_attempts 1 none w h (omega arith)

  operate_from-Decides :
      (is_conflict : E → Bool) (max_retries delay_ms left attempt : ℕ) (last : Option E) (w : W)
      → 0 < left
      → attempt + left ≡ suc max_retries
      → (k : ℕ) × Decides fn is_conflict left w
          (operate_from fn is_conflict max_retries delay_ms left attempt last w)
          k
  operate_from-Decides is_conflict max_retries delay_ms zero attempt last w h total =
      absurd (omega arith)
  operate_from-Decides is_conflict max_retries delay_ms (suc left) attempt last w h total =
      elim (Attempt-cases (fn w).0) [
        | inl (t, e) ↦ (0, rw (e, operate_from) (Decides-now fn _ left w _ e (inl refl)))
        | inr (x, e) ↦ elim (Bool-cases (is_conflict x)) [
          | inr other ↦
              (0, rw (e, operate_from, other) (Decides-now fn _ left w _ e (inl (rw other refl))))
          | inl conflict ↦ elim (Bool-cases (ltb attempt max_retries)) [
            | inr end ↦ (
              0,
              rw (e, operate_from, conflict, end)
                  (Decides-now fn _ left w _ e (inr (ground arith))),
            )
            | inl more ↦
                let (k, d) =
                  operate_from-Decides is_conflict max_retries delay_ms left (suc attempt) (some x)
                    (fn w).1 (ground arith) (omega arith) in
                (
                  suc k,
                  rw (e, operate_from, conflict, more)
                      (Decides-later fn _ left w _ k _ (rw (e, conflict) refl) d),
                )
          ]
        ]
      ]

  -- The loop on version conflicts returns or throws what one of its attempts did: the first that did
  -- not end in a conflict, else the last of the retries and the one call before them.
  pub retry_on_optimistic_lock-Decides :
      (is_conflict : E → Bool) (max_retries delay_ms : ℕ) (w : W)
      → (k : ℕ) × Decides fn is_conflict
          (suc max_retries)
          w
          (retry_on_optimistic_lock fn is_conflict max_retries delay_ms w)
          k
  unfolding retry_on_optimistic_lock
  retry_on_optimistic_lock-Decides is_conflict max_retries delay_ms w =
      operate_from-Decides is_conflict max_retries delay_ms (suc max_retries) 0 none w (omega arith)
        (omega arith)

mul_bound : (d r n : ℕ) → r < n → d * r ≤ d * n
mul_bound zero r n h = omega arith
mul_bound (suc d) r n h = omega (arith, mul_bound d r n h)

-- The jitter moves a delay by at most a quarter of min (initial * factor ^ (attempt - 1)) maximum,
-- in either direction.
pub calculate_delay_bounds :
    {E : Type 0} (attempt : ℕ) (config : RetryConfig E) (random : ℕ)
    → random < steps
    → (3
          * steps
          * min (config.initial_delay * config.backoff_factor ^ (attempt - 1)) config.max_delay
        ≤ calculate_delay attempt config random)
      × (calculate_delay attempt config random
          ≤ 5
            * steps
            * min (config.initial_delay * config.backoff_factor ^ (attempt - 1)) config.max_delay)
unfolding calculate_delay
calculate_delay_bounds attempt config random h = elim (Bool-cases config.jitter) [
  | inr off ↦ rw off (omega arith, omega arith)
  | inl on ↦
      let base =
        min (config.initial_delay * config.backoff_factor ^ (attempt - 1)) config.max_delay in
      rw on
        (omega (arith, mul_bound base random steps h), omega (arith, mul_bound base random steps h))
]
