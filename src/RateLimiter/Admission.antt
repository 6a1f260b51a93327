-- ===== src/RateLimiter/Admission.antt =====
-- How many requests of one address a window admits.
use reasonbridge.Prelude.{
  ℕ, suc, ◌+◌, ◌-◌, ◌≤◌, min, ◌≡◌, refl, true, false, some, List, [], ◌∷◌, arith, ltb, Bool-cases,
  inl, inr, length, All, Text, text_eq,
}
use reasonbridge.RateLimiter.{
  Window, Windows, Outcome, default_limit, default_window_ms, set_window, current, use_at,
}

-- Requests of one address at the given times.
abbrev pub use_all : Text → List ℕ → Windows → List Outcome × Windows
use_all ip [] ws = ([], ws)
use_all ip (now ∷ later) ws =
    let (outcome, next) = use_at ip now ws in
    let (outcomes, last) = use_all ip later next in (outcome ∷ outcomes, last)

abbrev pub admissions : List Outcome → ℕ
admissions [] = 0
admissions (Outcome.admitted _ ∷ os) = suc (admissions os)
admissions (Outcome.refused _ ∷ os) = admissions os

pub text_eq_refl : (t : Text) → text_eq t t ≡ true
text_eq_refl [] = refl
text_eq_refl (c ∷ t) = ground (arith, text_eq_refl t)

-- What is left of the limit is what is admitted.
use_all-open :
    (ip : Text) (times : List ℕ) (ws : Windows) (w : Window)
    → ws ip ≡ some w
    → All (λ now. now ≤ w.reset_time) times
    → admissions (use_all ip times ws).0 ≡ min (length times) (default_limit - w.count)
unfolding use_at
use_all-open ip [] ws w h l = omega arith
use_all-open ip (now ∷ times) ws w h (l, ls) =
    let open_still : ltb w.reset_time now ≡ false = ground arith in
    let next = record w { count = suc w.count } in
    let rest =
      use_all-open ip times (set_window ip (some next) ws) next (rw (text_eq_refl ip) refl) ls in
    rw (h, open_still)
      (elim (Bool-cases (ltb default_limit (suc w.count))) [
        | inl t ↦ rw t (ground arith)
        | inr t ↦ rw t (ground arith)
      ])

-- The address has no window, or one that has ended before the time.
abbrev pub HasNoWindow : Text → ℕ → Windows → Type 0
HasNoWindow ip now ws =
    current now (ws ip) ≡ record { count = 0; reset_time = now + default_window_ms }

-- From an address without a current window, of the requests that arrive within the 60 000 ms from
-- the first one exactly the first 100 are admitted, however many there are.
pub window_admits :
    (ip : Text) (now : ℕ) (times : List ℕ) (ws : Windows)
    → HasNoWindow ip now ws
    → All (λ later. later ≤ now + default_window_ms) times
    → admissions (use_all ip (now ∷ times) ws).0 ≡ min (suc (length times)) 100
unfolding use_at
window_admits ip now times ws h l =
    let first : Window = record { count = 1; reset_time = now + default_window_ms } in
    let rest =
      use_all-open ip times (set_window ip (some first) ws) first (rw (text_eq_refl ip) refl) l in
    rw h (ground arith)

-- A request of one address changes neither the window of another nor the outcomes that the other
-- will see.
pub other_kept :
    (ip other : Text) (now : ℕ) (ws : Windows)
    → text_eq other ip ≡ false
    → (use_at ip now ws).1 other ≡ ws other
unfolding use_at
other_kept ip other now ws h = rw h refl
