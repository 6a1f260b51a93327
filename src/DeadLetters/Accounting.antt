-- ===== src/DeadLetters/Accounting.antt =====
-- What the statistics say of the messages, and what becomes of a requeued one.
use reasonbridge.Prelude.{
  ℕ, suc, ◌+◌, ◌≡◌, refl, Bool, true, ◌||◌, Option, none, some, List, [], ◌∷◌, arith, length,
  Bool-cases, Option-cases, inl, inr,
}
use reasonbridge.DeadLetters.{
  Envelope, Message, ProcessingResult, Stats, QueueClient, State, Handler, handle_result,
  handle_envelope, process_message, process_messages, process_batch, delete_message, counted,
  count_requeued, count_deleted,
}

-- The messages whose fate the statistics record.
abbrev pub settled : Stats → ℕ
settled t = t.requeued + t.deleted + t.failed

module _ {Q W : Type 0} ⦃client : QueueClient Q⦄ where
  requeued-settled :
      (o : Option Q) (s : State Q W) → settled (count_requeued o s).stats ≡ suc (settled s.stats)
  requeued-settled none s = omega arith
  requeued-settled (some q) s = omega arith

  deleted-settled :
      (o : Option Q) (s : State Q W) → settled (count_deleted o s).stats ≡ suc (settled s.stats)
  deleted-settled none s = omega arith
  deleted-settled (some q) s = omega arith

  result-settled :
      (m : Message) (e : Envelope) (o : Option ProcessingResult) (s : State Q W)
      → settled (handle_result true m e o s).stats ≡ suc (settled s.stats)
  result-settled m e none s = omega arith
  result-settled m e (some r) s = elim (Bool-cases r.success) [
    | inr bad ↦ rw bad (omega arith)
    | inl good ↦ rw good (elim (Bool-cases r.should_requeue) [
      | inl again ↦ rw again (requeued-settled _ s)
      | inr done ↦ rw done (elim (Bool-cases r.should_delete) [
        | inl asked ↦ rw asked (deleted-settled _ s)
        | inr kept ↦ rw kept (deleted-settled _ s)
      ])
    ])
  ]

  envelope-settled :
      (handler : Option (Handler W)) (m : Message) (o : Option Envelope) (s : State Q W)
      → settled (handle_envelope true handler m o s).stats ≡ suc (settled s.stats)
  envelope-settled handler m none s = omega arith
  envelope-settled none m (some e) s = omega arith
  envelope-settled (some handler) m (some e) s =
      result-settled m e (handler e s.world).0
        (record (counted s) { world = (handler e s.world).1 })

  messages-settled :
      (handler : Option (Handler W)) (ms : List Message) (s : State Q W)
      → settled (process_messages true handler ms s).stats ≡ length ms + settled s.stats
  unfolding process_message
  messages-settled handler [] s = omega arith
  messages-settled handler (m ∷ ms) s = omega (
    arith,
    messages-settled handler ms (process_message true handler m s),
    envelope-settled handler m m.body s,
  )

  -- With automatic deletion every message of a batch is counted once as requeued, deleted or failed,
  -- whatever its body is, and whatever the handler and the queues do.
  pub batch_settled :
      (handler : Option (Handler W)) (ms : List Message) (s : State Q W)
      → settled (process_batch true handler ms s).stats ≡ length ms + settled s.stats
  unfolding process_batch
  batch_settled handler [] s = omega arith
  batch_settled handler (m ∷ ms) s = messages-settled handler (m ∷ ms) _

module _ {Q : Type 0} ⦃client : QueueClient Q⦄ where
  -- What a message that was sent back to its source queue leaves.
  abbrev pub IsRequeued : Message → Envelope → Q → Q → Type 0
  IsRequeued m e before after =
      (client.sent after ≡ (m.source_queue_url, e) ∷ client.sent before)
      × (client.held after ≡ client.held before)

module _ {Q W : Type 0} ⦃client : QueueClient Q⦄ where
  sent-IsRequeued :
      (m : Message) (e : Envelope) (s : State Q W)
      → (count_requeued (client.send s.queue m.source_queue_url e) s).stats.requeued
        ≡ suc s.stats.requeued
      → IsRequeued m e s.queue (count_requeued (client.send s.queue m.source_queue_url e) s).queue
  sent-IsRequeued m e s = elim (Option-cases (client.send s.queue m.source_queue_url e)) [
    | inl none_sent ↦ rw none_sent (λ h. absurd (omega arith))
    | inr (q, c) ↦ rw c (λ _. (client.sent-send _ _ _ c, client.held-send _ _ _ c))
  ]

  not_deleted :
      (o : Option Q) (s : State Q W) → (count_deleted o s).stats.requeued ≡ s.stats.requeued
  not_deleted none s = refl
  not_deleted (some q) s = refl

  result-IsRequeued :
      (auto_delete : Bool) (m : Message) (e : Envelope) (o : Option ProcessingResult)
      (s : State Q W)
      → (handle_result auto_delete m e o s).stats.requeued ≡ suc s.stats.requeued
      → IsRequeued m e s.queue (handle_result auto_delete m e o s).queue
  result-IsRequeued auto_delete m e none s = λ h. absurd (omega arith)
  result-IsRequeued auto_delete m e (some r) s = elim (Bool-cases r.success) [
    | inr bad ↦ rw bad (λ h. absurd (omega arith))
    | inl good ↦ rw good (elim (Bool-cases r.should_requeue) [
      | inl again ↦ rw again (sent-IsRequeued m e s)
      | inr done ↦ rw done (elim (Bool-cases (r.should_delete || auto_delete)) [
        | inl gone ↦ rw gone (λ h.
            let same = not_deleted (delete_message m.receipt_handle s.queue) s in
            absurd (omega arith))
        | inr kept ↦ rw kept (λ h. absurd (omega arith))
      ])
    ])
  ]

  envelope-IsRequeued :
      (auto_delete : Bool) (handler : Option (Handler W)) (m : Message) (o : Option Envelope)
      (s : State Q W)
      → (handle_envelope auto_delete handler m o s).stats.requeued ≡ suc s.stats.requeued
      → (e : Envelope) × (o ≡ some e)
        × IsRequeued m e s.queue (handle_envelope auto_delete handler m o s).queue
  envelope-IsRequeued auto_delete handler m none s h = absurd (omega arith)
  envelope-IsRequeued auto_delete none m (some e) s h = absurd (omega arith)
  envelope-IsRequeued auto_delete (some handler) m (some e) s h = (
    e,
    refl,
    result-IsRequeued auto_delete m e (handler e s.world).0
        (record (counted s) { world = (handler e s.world).1 }) h,
  )

  -- A message that is counted as requeued was sent once to its source queue, and nothing left the
  -- dead-letter queue: its own copy is there for the next poll.
  pub requeued_and_held :
      (auto_delete : Bool) (handler : Option (Handler W)) (m : Message) (s : State Q W)
      → (process_message auto_delete handler m s).stats.requeued ≡ suc s.stats.requeued
      → (e : Envelope) × (m.body ≡ some e)
        × IsRequeued m e s.queue (process_message auto_delete handler m s).queue
  unfolding process_message
  requeued_and_held auto_delete handler m s h = envelope-IsRequeued auto_delete handler m m.body s h
