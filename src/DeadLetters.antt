-- ===== src/DeadLetters.antt =====
-- DlqHandler of packages/common/src/events/DeadLetterQueueHandler.ts. The client of the message
-- queues and the registered handler are parameters; either may throw (`none`). A body that is no
-- JSON or has no event makes the code throw before the handler is called. Polling repeats
-- `process_batch` until `stop`; the monitor of the queue's depth is left out.
pub mod Accounting
mod Examples
use reasonbridge.Prelude.{
  ℕ, suc, ◌+◌, ◌≡◌, Bool, true, false, ◌||◌, Option, none, some, List, [], ◌∷◌, if◌then◌else◌,
  length,
}

pub record Envelope : Type 0 where
  pub event_id : ℕ
  pub event_type : ℕ

pub record Message : Type 0 where
  pub receipt_handle : Option ℕ
  pub source_queue_url : ℕ
  pub body : Option Envelope

-- `DlqProcessingResult`; an absent flag is false.
pub record ProcessingResult : Type 0 where
  pub success : Bool
  pub should_requeue : Bool
  pub should_delete : Bool

-- `DlqStats`
pub record Stats : Type 0 where
  pub total_processed : ℕ
  pub requeued : ℕ
  pub deleted : ℕ
  pub failed : ℕ
  pub pending : ℕ

-- The client of the queues: `SendMessageCommand` puts a message in a queue and leaves the
-- dead-letter queue as it is; `DeleteMessageCommand` sends nothing.
pub record QueueClient (Q : Type 0) : Type 0 where
  -- The messages sent, latest first, and the receipt handles in the dead-letter queue.
  pub sent : Q → List (ℕ × Envelope)
  pub held : Q → List ℕ
  pub send : Q → ℕ → Envelope → Option Q
  pub delete : Q → ℕ → Option Q
  pub sent-send :
      (q : Q) (url : ℕ) (e : Envelope) {r : Q} → send q url e ≡ some r → sent r ≡ (url, e) ∷ sent q
  pub held-send : (q : Q) (url : ℕ) (e : Envelope) {r : Q} → send q url e ≡ some r → held r ≡ held q
  pub sent-delete : (q : Q) (h : ℕ) {r : Q} → delete q h ≡ some r → sent r ≡ sent q

-- What the handler object keeps, with the queues and the world `W` of the registered handler.
pub record State (Q W : Type 0) : Type 0 where
  pub queue : Q
  pub world : W
  pub stats : Stats

abbrev pub Handler : Type 0 → Type 0
Handler W = Envelope → W → Option ProcessingResult × W

module _ {Q : Type 0} ⦃client : QueueClient Q⦄ where
  -- `deleteMessage`: without a receipt handle it returns at once.
  abbrev pub delete_message : Option ℕ → Q → Option Q
  delete_message none q = some q
  delete_message (some h) q = client.delete q h

module _ {Q W : Type 0} ⦃client : QueueClient Q⦄ where
  abbrev pub count_failed : State Q W → State Q W
  count_failed s = record s { stats = record s.stats { failed = suc s.stats.failed } }

  abbrev pub count_requeued : Option Q → State Q W → State Q W
  count_requeued none s = count_failed s
  count_requeued (some q) s = record s {
    queue = q;
    stats = record s.stats { requeued = suc s.stats.requeued };
  }

  abbrev pub count_deleted : Option Q → State Q W → State Q W
  count_deleted none s = count_failed s
  count_deleted (some q) s = record s {
    queue = q;
    stats = record s.stats { deleted = suc s.stats.deleted };
  }

  abbrev pub handle_result :
      (auto_delete : Bool) → Message → Envelope → Option ProcessingResult → State Q W → State Q W
  handle_result auto_delete m e none s = count_failed s
  handle_result auto_delete m e (some r) s =
      if r.success
      then if r.should_requeue
        then count_requeued (client.send s.queue m.source_queue_url e) s
        else if r.should_delete || auto_delete
        then count_deleted (delete_message m.receipt_handle s.queue) s
        else s
      else count_failed s

  abbrev pub counted : State Q W → State Q W
  counted s = record s { stats = record s.stats { total_processed = suc s.stats.total_processed } }

  abbrev pub handle_envelope :
      (auto_delete : Bool) → Option (Handler W) → Message → Option Envelope → State Q W → State Q W
  handle_envelope auto_delete handler m none s = count_failed s
  handle_envelope auto_delete none m (some e) s = count_failed (counted s)
  handle_envelope auto_delete (some handler) m (some e) s =
      handle_result auto_delete m e (handler e s.world).0
        (record (counted s) { world = (handler e s.world).1 })

  unfoldable pub process_message :
      (auto_delete : Bool) → Option (Handler W) → Message → State Q W → State Q W
  process_message auto_delete handler m s = handle_envelope auto_delete handler m m.body s

  abbrev pub process_messages :
      (auto_delete : Bool) → Option (Handler W) → List Message → State Q W → State Q W
  process_messages auto_delete handler [] s = s
  process_messages auto_delete handler (m ∷ ms) s =
      process_messages auto_delete handler ms (process_message auto_delete handler m s)

  -- One turn of `poll` with the messages received; without any it changes nothing.
  unfoldable pub process_batch :
      (auto_delete : Bool) → Option (Handler W) → List Message → State Q W → State Q W
  unfolding process_message
  process_batch auto_delete handler [] s = s
  process_batch auto_delete handler (m ∷ ms) s =
      process_messages auto_delete handler (m ∷ ms)
        (record s { stats = record s.stats { pending = length (m ∷ ms) } })
