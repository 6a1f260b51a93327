-- ===== src/DeadLetters/Examples.antt =====
-- A handler on queues in memory, and the theorems at concrete inputs.
use reasonbridge.Prelude.{
  ◌≡◌, refl, sym, ap, arith, ℕ, true, false, some, List, [], ◌∷◌, ◌==◌, length, suc,
}
use reasonbridge.Database.{remove_first}
use reasonbridge.DeadLetters.{
  Envelope, Message, QueueClient, State, Handler, process_message, process_batch,
}
use reasonbridge.DeadLetters.Accounting.{IsRequeued, requeued_and_held}

-- What was sent, and the receipt handles held.
pub record Queues : Type 0 where
  pub sent : List (ℕ × Envelope)
  pub held : List ℕ

some_queues : {a b : Queues} → some a ≡ some b → a ≡ b
some_queues e = ground arith

instance abbrev queues : QueueClient Queues
queues = record {
  sent = λ q. q.sent;
  held = λ q. q.held;
  send = λ q url e. some (record q { sent = (url, e) ∷ q.sent });
  delete = λ q h. some (record q { held = remove_first (λ x. x == h) q.held });
  sent-send = λ q url e c. ap (λ (x : Queues). x.sent) (sym (some_queues c));
  held-send = λ q url e c. ap (λ (x : Queues). x.held) (sym (some_queues c));
  sent-delete = λ q h c. ap (λ (x : Queues). x.sent) (sym (some_queues c));
}

-- Event 1 is to be requeued, every other is done with; the world counts the calls.
abbrev triage : Handler ℕ
triage e n = (
  some (record { success = true; should_requeue = e.event_id == 1; should_delete = false }),
  suc n,
)

abbrev message : ℕ → ℕ → Message
message handle id = record {
  receipt_handle = some handle;
  source_queue_url = 5;
  body = some (record { event_id = id; event_type = 0 });
}

abbrev start : State Queues ℕ
start = record {
  queue = record { sent = []; held = 10 ∷ 11 ∷ [] };
  world = 0;
  stats = record { total_processed = 0; requeued = 0; deleted = 0; failed = 0; pending = 0 };
}

opened : Unit {0}
unfolding process_message process_batch
opened = tt

abbrev twice : State Queues ℕ
unfolding process_message
twice =
    process_message true (some triage) (message 10 1)
      (process_message true (some triage) (message 10 1) start)

-- The requeued message stays held, and is sent again when it is received again.
dead_letter_tests :
    (twice.queue.held ≡ 10 ∷ 11 ∷ [])
    × (length twice.queue.sent ≡ 2)
    × ((process_batch true (some triage) (message 11 2 ∷ []) start).queue.held ≡ 10 ∷ [])
unfolding opened
dead_letter_tests = (refl, refl, refl)

requeued_and_held_example :
    (e : Envelope) × ((message 10 1).body ≡ some e)
    × IsRequeued
        (message 10 1)
        e
        start.queue
        (process_message true (some triage) (message 10 1) start).queue
unfolding opened
requeued_and_held_example = requeued_and_held true (some triage) (message 10 1) start refl
