-- ===== src/RateLimiter/Examples.antt =====
-- Requests from one address, and the theorems at concrete inputs.
use reasonbridge.Prelude.{◌≡◌, refl, some, none, [], ◌∷◌, min, arith, text, trim}
use reasonbridge.RateLimiter.{
  Windows, Outcome, Request, Header, get_client_ip, use_request, use_at, count_request, cleanup,
  forwarded_ip, before_comma, set_window,
}
use reasonbridge.RateLimiter.Admission.{use_all, admissions, window_admits}

-- Address a has used up its window, which ends at 5 000.
abbrev busy : Windows
busy = set_window (text "a") (some (record { count = 99; reset_time = 5000 })) (λ _. none)

abbrev proxied : Request
proxied = record {
  forwarded_for = Header.single (text " a, b");
  real_ip = Header.absent;
  remote_address = none;
}

opened : Unit {0}
unfolding use_request use_at count_request get_client_ip forwarded_ip before_comma trim cleanup
opened = tt

limiter_tests :
    ((use_request proxied 4000 busy).0 ≡ Outcome.admitted 0)
    × ((use_request proxied 4000 (use_request proxied 4000 busy).1).0 ≡ Outcome.refused 1)
    × ((use_request proxied 5001 busy).0 ≡ Outcome.admitted 99)
    × (cleanup 5001 busy (text "a") ≡ none)
unfolding opened
limiter_tests = (refl, refl, refl, refl)

window_admits_example :
    admissions (use_all (text "a") (6000 ∷ 6001 ∷ 66000 ∷ []) busy).0 ≡ min 3 100
window_admits_example =
    window_admits (text "a") 6000 (6001 ∷ 66000 ∷ []) busy refl (omega arith, (omega arith, tt))
