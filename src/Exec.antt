-- ===== src/Exec.antt =====
-- Asynchronous service methods as actions on an explicit state. What was written before an
-- exception stays written, so the state comes back beside the error too.
use reasonbridge.Prelude.{Bool, true, false, Option, none, some, ◌≡◌, refl, inl, inr, ◌⊎◌}

-- The kinds of row that a `NotFoundException` names.
pub data Entity : Type 0 where
  action appeal moderator response vote proposition alignment discussion topic topic_merge user
        onboarding_progress :
      Entity

-- The messages of a `BadRequestException`.
pub data Cause : Type 0 where
  reason_required reason_too_short reason_too_long : Cause
  action_not_pending action_non_punitive action_reversed : Cause
  appeal_open appeal_not_pending appeal_not_under_review appeal_not_open : Cause
  duration_not_positive duration_too_long : Cause
  own_response nuance_required : Cause
  discussion_not_active parent_elsewhere parent_deleted parent_without_discussion : Cause
  too_many_citations citation_blocked thread_too_deep : Cause
  verification_not_found wrong_user not_phone not_pending code_expired too_many_attempts : Cause
  no_code wrong_code phone_invalid phone_taken in_progress phone_missing challenge_missing : Cause
  not_permitted target_among_sources source_locked cannot_lock cannot_unlock cannot_revert
        already_rolled_back window_expired :
      Cause
  topic_not_active topic_locked : Cause
  topic_count priorities_repeated priority_out_of_range : Cause
  content_too_short content_too_long topic_archived response_not_visible : Cause

-- The exceptions that the services throw, and the error that the database client throws on a
-- violated unique or foreign key constraint or on an update of a missing row; `unfinished` stands for a loop that never
-- returns.
pub data Error : Type 0 where
  not_found : Entity → Error
  bad_request : Cause → Error
  unique_violation : Error
  forbidden : Error
  unfinished record_missing foreign_key_violation : Error
  -- `new Error('Confidence must be between 0 and 1')`, and a method called on a value without it.
  confidence_out_of_range type_error : Error

pub data Result {ℓ} (A : Type ℓ) : Type ℓ where
  ok : A → Result A
  err : Error → Result A

pub Result-cases :
    {A : Type 0} (r : Result A) → ((e : Error) × (r ≡ err e)) ⊎ ((a : A) × (r ≡ ok a))
Result-cases (ok a) = inr (a, refl)
Result-cases (err e) = inl (e, refl)

abbrev pub Exec : Type 0 → Type 0 → Type 0
Exec S A = S → Result A × S

module _ {S A : Type 0} where
  abbrev pub pure : A → Exec S A
  pure a s = (ok a, s)

  abbrev pub raise : Error → Exec S A
  raise e s = (err e, s)

  abbrev pub gets : (S → A) → Exec S A
  gets f s = (ok (f s), s)

  -- `if (!row) throw error`
  abbrev pub require : Option A → Error → Exec S A
  require none e s = (err e, s)
  require (some a) e s = (ok a, s)

module _ {S : Type 0} where
  -- `if (!test) throw error`
  abbrev pub guard : Bool → Error → Exec S (Unit {0})
  guard true e s = (ok tt, s)
  guard false e s = (err e, s)

module _ {S A B : Type 0} where
  abbrev continue : Result A → (A → Exec S B) → Exec S B
  continue (ok a) f s = f a s
  continue (err e) f s = (err e, s)

  infixl 10 ◌>>=◌ ◌>>◌
  abbrev pub ◌>>=◌ : Exec S A → (A → Exec S B) → Exec S B
  ◌>>=◌ m f s = continue (m s).0 f (m s).1

  abbrev pub ◌>>◌ : Exec S A → Exec S B → Exec S B
  ◌>>◌ m n s = continue (m s).0 (λ _. n) (m s).1

-- Returning a value after an action changes nothing.
module _ {S A B : Type 0} where
  state-continue-pure : (r : Result A) (b : B) (s : S) → (continue r (λ _. pure b) s).1 ≡ s
  state-continue-pure (ok a) b s = refl
  state-continue-pure (err e) b s = refl

  pub state->>-pure : (m : Exec S A) (b : B) (s : S) → ((m >> pure b) s).1 ≡ (m s).1
  state->>-pure m b s = state-continue-pure (m s).0 b (m s).1

-- What the client's `$transaction` does with its body: an error undoes what was written.
abbrev pub transaction : {S A : Type 0} → Exec S A → Exec S A
transaction m s = elim (m s).0 [ ok a ↦ (ok a, (m s).1) | err e ↦ (err e, s) ]

pub transaction-cases :
    {S A : Type 0} (m : Exec S A) (s : S)
    → ((e : Error) × (transaction m s ≡ (err e, s)))
      ⊎ ((a : A) × ((m s).0 ≡ ok a) × (transaction m s ≡ (ok a, (m s).1)))
transaction-cases m s = elim (Result-cases (m s).0) [
  | inl (e, h) ↦ inl (e, rw (h, transaction) refl)
  | inr (r, h) ↦ inr (r, h, rw (h, transaction) refl)
]
