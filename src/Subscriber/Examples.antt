-- ===== src/Subscriber/Examples.antt =====
-- Handlers that log their calls, and the theorems at concrete inputs.
use reasonbridge.Prelude.{◌≡◌, refl, ℕ, true, none, List, [], ◌∷◌, ◌==◌, if◌then◌else◌}
use reasonbridge.Subscriber.{Handlers, Reply, Processed, registered, on, off, process_envelope}
use reasonbridge.Subscriber.Dispatch.{IsDispatched, process_envelope-IsDispatched}

-- Handler 2 throws; the world is the log of the calls, latest first.
abbrev log : ℕ → List ℕ → Reply × List ℕ
log h w = (if h == 2 then Reply.threw else Reply.done, h ∷ w)

abbrev nothing : Handlers
nothing _ = none

opened : Unit {0}
unfolding on off process_envelope
opened = tt

subscriber_tests :
    (process_envelope log 7 (on 7 3 (on 7 2 (on 7 1 nothing))) []
      ≡ (Processed.failure true, 2 ∷ 1 ∷ []))
    × (process_envelope log 7 (off 7 2 (on 7 3 (on 7 2 (on 7 1 nothing)))) []
        ≡ (Processed.success, 3 ∷ 1 ∷ []))
    × (process_envelope log 8 (on 7 2 nothing) [] ≡ (Processed.success, []))
unfolding opened
subscriber_tests = (refl, refl, refl)

process_envelope-IsDispatched_example :
    IsDispatched log (registered (on 7 2 nothing 7)) [] (process_envelope log 7 (on 7 2 nothing) [])
process_envelope-IsDispatched_example = process_envelope-IsDispatched log 7 (on 7 2 nothing) []
