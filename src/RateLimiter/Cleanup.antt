-- ===== src/RateLimiter/Cleanup.antt =====
-- The periodic cleanup drops only windows that have ended.
use reasonbridge.Prelude.{
  ℕ, ◌≤◌, ◌≡◌, refl, ap, true, Option, none, some, List, [], ◌∷◌, arith, ltb, All, Text, Bool-cases,
  inl, inr,
}
use reasonbridge.RateLimiter.{
  Window, Windows, Outcome, set_window, current, count_request, use_at, cleanup, fresh_only,
}
use reasonbridge.RateLimiter.Admission.{use_all, text_eq_refl}

-- The requests of an address read its own window only.
use_all-local :
    (ip : Text) (times : List ℕ) (ws vs : Windows)
    → ws ip ≡ vs ip
    → (use_all ip times ws).0 ≡ (use_all ip times vs).0
unfolding use_at
use_all-local ip [] ws vs h = refl
use_all-local ip (now ∷ times) ws vs h =
    let rest =
      use_all-local ip times (set_window ip (some (count_request now (vs ip)).1) ws)
        (set_window ip (some (count_request now (vs ip)).1) vs) (rw (text_eq_refl ip) refl) in
    rw h (ap (λ (os : List Outcome). (count_request now (vs ip)).0 ∷ os) rest)

current-cleanup :
    (swept now : ℕ) (found : Option Window)
    → swept ≤ now
    → current now (fresh_only swept found) ≡ current now found
current-cleanup swept now none h = refl
current-cleanup swept now (some w) h = elim (Bool-cases (ltb w.reset_time swept)) [
  | inr t ↦ rw t refl
  | inl t ↦ let ended : ltb w.reset_time now ≡ true = ground arith in rw (t, ended) refl
]

-- No client can tell that a cleanup has run: from then on the requests of every address have the
-- outcomes that they would have had without it.
pub cleanup-unseen :
    (ip : Text) (swept : ℕ) (times : List ℕ) (ws : Windows)
    → All (λ now. swept ≤ now) times
    → (use_all ip times (cleanup swept ws)).0 ≡ (use_all ip times ws).0
unfolding use_at cleanup
cleanup-unseen ip swept [] ws h = refl
cleanup-unseen ip swept (now ∷ times) ws (l, ls) =
    let rest =
      use_all-local ip times (set_window ip (some (count_request now (ws ip)).1) (cleanup swept ws))
        (set_window ip (some (count_request now (ws ip)).1) ws) (rw (text_eq_refl ip) refl) in
    rw (current-cleanup swept now (ws ip) l)
      (ap (λ (os : List Outcome). (count_request now (ws ip)).0 ∷ os) rest)
