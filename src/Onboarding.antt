-- ===== src/Onboarding.antt =====
-- services/user-service/src/onboarding/onboarding.service.ts and, of src/repositories of the same
-- service, onboarding-progress.repository.ts and the calls of topic-interest.repository.ts. The answers,
-- with their warnings and suggestions, are left out. auth/auth.service.ts creates the rows of progress and
-- marks the addresses as verified.
mod Records
pub mod Steps
pub mod Runs
pub mod Interests
pub mod Selection
mod Examples
pub use Records.*
use reasonbridge.Prelude.{
  ℕ, Bool, true, false, ◌&&◌, Option, none, some, List, [], ◌∷◌, map, length, leb, ◌==◌,
  if◌then◌else◌,
}
use reasonbridge.Exec.{
  Exec, Result, ok, err, Entity, Cause, not_found, bad_request, foreign_key_violation,
  unique_violation, record_missing, pure, gets, guard, require, ◌>>=◌, ◌>>◌,
}
use reasonbridge.IdSet.{added_all}
use reasonbridge.Discussions.{TopicTable}

-- `Promise.all` runs every call and answers with the first error.
abbrev pub both : {S : Type 0} → Result (Unit {0}) → Result (Unit {0}) × S → Result (Unit {0}) × S
both (ok u) r = r
both (err e) (r, s) = (err e, s)

module _ {SP SI : Type 0} ⦃tp : ProgressTable SP⦄ ⦃ti : InterestTable SI⦄ where
  abbrev pub inserted_progress : Option (OnboardingProgress × SP) → Exec (State SP SI) (Unit {0})
  inserted_progress none s = (err unique_violation, s)
  inserted_progress (some (p, t)) s = (ok tt, record s { progress = t })

  unfoldable pub create_progress : ℕ → Exec (State SP SI) (Unit {0})
  create_progress user_id s = inserted_progress (tp.create s.progress (new_progress user_id)) s

  -- `update({ where: { userId } })`
  abbrev pub updated :
      (OnboardingProgress → OnboardingProgress)
      → Option OnboardingProgress
      → Exec (State SP SI) (Unit {0})
  updated f none s = (err record_missing, s)
  updated f (some p) s = (ok tt, record s { progress = tp.update s.progress p.id f })

  abbrev pub update_of :
      ℕ → (OnboardingProgress → OnboardingProgress) → Exec (State SP SI) (Unit {0})
  update_of user_id f s = updated f (tp.find_unique_by s.progress (is_progress_of user_id)) s

  unfoldable pub mark_email_verified : ℕ → Exec (State SP SI) (Unit {0})
  mark_email_verified user_id = update_of user_id email_verified

  abbrev pub require_progress : ℕ → Exec (State SP SI) OnboardingProgress
  require_progress user_id = do
    found ← gets (λ s. tp.find_unique_by s.progress (is_progress_of user_id))
    require found (not_found Entity.onboarding_progress)

  unfoldable pub mark_orientation_viewed : ℕ → Exec (State SP SI) (Unit {0})
  mark_orientation_viewed user_id = do
    progress ← require_progress user_id
    update_of user_id orientation_viewed

  unfoldable pub mark_first_post : ℕ → ℕ → Exec (State SP SI) (Unit {0})
  mark_first_post now user_id = do
    progress ← require_progress user_id
    if progress.first_post_made then pure tt else update_of user_id (first_post_made now)

  abbrev pub delete_interests : ℕ → Exec (State SP SI) (Unit {0})
  delete_interests user_id s =
      (ok tt, record s { interests = ti.delete_many s.interests (λ x. x.user_id == user_id) })

  -- `userId` refers to a user, of whom `is_user` says whether there is one; the topics are stored.
  abbrev pub inserted_interest : Bool → Option (TopicInterest × SI) → Exec (State SP SI) (Unit {0})
  inserted_interest user none s = (err unique_violation, s)
  inserted_interest false (some (x, t)) s = (err foreign_key_violation, s)
  inserted_interest true (some (x, t)) s = (ok tt, record s { interests = t })

  abbrev pub create_interest :
      (is_user : ℕ → Bool) → ℕ → ℕ → TopicPriority → Exec (State SP SI) (Unit {0})
  create_interest is_user now user_id x s =
      inserted_interest (is_user user_id) (ti.create s.interests (new_interest now user_id x)) s

  unfoldable pub create_interests :
      (is_user : ℕ → Bool) → ℕ → ℕ → List TopicPriority → Exec (State SP SI) (Unit {0})
  create_interests is_user now user_id [] s = (ok tt, s)
  create_interests is_user now user_id (x ∷ xs) s =
      let made = create_interest is_user now user_id x s in
      both made.0 (create_interests is_user now user_id xs made.1)

  -- The callback of the transaction: it calls the repositories, which do not use the client of the
  -- transaction, so an error undoes nothing.
  abbrev pub replace_interests :
      (is_user : ℕ → Bool) → ℕ → ℕ → List TopicPriority → Exec (State SP SI) (Unit {0})
  replace_interests is_user now user_id selected = do
    delete_interests user_id
    create_interests is_user now user_id selected
    update_of user_id topics_selected

  module _ {ST : Type 0} ⦃tq : TopicTable ST⦄ (is_user : ℕ → Bool) (topics : ST) where
    unfoldable pub select_topics : ℕ → ℕ → List TopicPriority → Exec (State SP SI) (Unit {0})
    unfolding create_interests
    select_topics now user_id selected = do
      guard (leb 2 (length selected) && leb (length selected) 3) (bad_request Cause.topic_count)
      guard (length (added_all (map (λ x. x.priority) selected) []) == length selected)
          (bad_request Cause.priorities_repeated)
      guard (is_ranked selected) (bad_request Cause.priority_out_of_range)
      guard (all_exist topics selected) (not_found Entity.topic)
      replace_interests is_user now user_id selected
      progress ← require_progress user_id
      pure tt
