-- ===== src/Moderation/Machine/AiSteps.antt =====
-- The operations on recommendations: a decision while the action is pending follows the state machines, and
-- any decision keeps a sound state sound.
use reasonbridge.Prelude.{ℕ, ◌≡◌, refl, true, Text, leb, Bool-cases, Option-cases, inl, inr}
use reasonbridge.Prelude.Int.{ℤ, pos, negsuc}
use reasonbridge.Database.{All-modify_first_any}
use reasonbridge.Moderation.Types.{
  ModerationAction, World, EventQueue, ActionTable, AppealTable, UserTable, is_pending,
}
use reasonbridge.Moderation.AiReview.{
  AiRecommendationRequest, new_recommendation, approved, disagreed, submit, with_confidence,
  submit_ai_recommendation, approve_recommendation, reject_recommendation,
}
use reasonbridge.Moderation.Machine.{Follows, Follows-refl, IsSound, IsSoundAction}
use reasonbridge.Moderation.Machine.Writes.{
  Follows-update_action, Follows-create_action, Follows-queue,
}
use reasonbridge.Moderation.Machine.ActionSteps.{moves, pending_first}
use reasonbridge.Moderation.Service.{is_undecided}

module _ {SA SP SU Q : Type 0} ⦃ta : ActionTable SA⦄ ⦃tp : AppealTable SP⦄ ⦃tu : UserTable SU⦄
    ⦃eq : EventQueue Q⦄ (w : World SA SP SU Q) where
  submit-Follows :
      (request : AiRecommendationRequest) (confidence now : ℕ)
      → Follows w (submit request confidence now w).1
  submit-Follows request confidence now =
      elim (Option-cases (ta.create w.actions (new_recommendation request confidence now))) [
        | inl e ↦ rw e (Follows-refl w)
        | inr ((r, s), e) ↦
            rw e (Follows-queue _ (Follows-create_action w _ (λ i. refl) (λ i. tt) e))
      ]

  with_confidence-Follows :
      (request : AiRecommendationRequest) (now : ℕ) (c : ℤ)
      → Follows w (with_confidence request now c w).1
  with_confidence-Follows request now (negsuc n) = Follows-refl w
  with_confidence-Follows request now (pos n) = elim (Bool-cases (leb n 100)) [
    | inr t ↦ rw t (Follows-refl w)
    | inl t ↦ rw t (submit-Follows request n now)
  ]

  pub submit_ai_recommendation-Follows :
      (request : AiRecommendationRequest) (now : ℕ)
      → Follows w (submit_ai_recommendation request now w).1
  unfolding submit_ai_recommendation
  submit_ai_recommendation-Follows request now =
      with_confidence-Follows request now request.confidence

  pub approve_recommendation-Follows :
      (id by now : ℕ)
      → is_undecided (ta.find_unique w.actions id) ≡ true
      → Follows w (approve_recommendation id by now w).1
  unfolding approve_recommendation
  approve_recommendation-Follows id by now h = elim (Option-cases (ta.find_unique w.actions id)) [
    | inl e ↦ rw e (Follows-refl w)
    | inr (a, e) ↦
        let pending : is_pending a.status ≡ true = rw e at h in
        rw e (
          Follows-update_action w id (approved by now) (λ x. refl) e
            (moves refl refl refl refl refl (pending_first a.status _ pending)) refl)
  ]

  pub reject_recommendation-Follows :
      (id : ℕ) (reason : Text)
      → is_undecided (ta.find_unique w.actions id) ≡ true
      → Follows w (reject_recommendation id reason w).1
  unfolding reject_recommendation
  reject_recommendation-Follows id reason h = elim (Option-cases (ta.find_unique w.actions id)) [
    | inl e ↦ rw e (Follows-refl w)
    | inr (a, e) ↦
        let pending : is_pending a.status ≡ true = rw e at h in
        rw e (
          Follows-update_action w id (disagreed reason) (λ x. refl) e
            (moves refl refl refl refl refl (pending_first a.status _ pending)) tt)
  ]

  update-IsSound :
      (id : ℕ) (f : ModerationAction → ModerationAction)
      → ((x : ModerationAction) → IsSoundAction (f x))
      → IsSound w
      → IsSound (record w { actions = ta.update w.actions id f })
  update-IsSound id f good h = record {
    actions =
        rw ta.rows-update (All-modify_first_any IsSoundAction _ f _ (λ x _. good x) h.actions);
    appeals = h.appeals;
  }

  pub approve_recommendation-IsSound :
      (id by now : ℕ) → IsSound w → IsSound (approve_recommendation id by now w).1
  unfolding approve_recommendation
  approve_recommendation-IsSound id by now h = elim (Option-cases (ta.find_unique w.actions id)) [
    | inl e ↦ rw e h
    | inr (a, e) ↦ rw e (update-IsSound id (approved by now) (λ x. refl) h)
  ]

  pub reject_recommendation-IsSound :
      (id : ℕ) (reason : Text) → IsSound w → IsSound (reject_recommendation id reason w).1
  unfolding reject_recommendation
  reject_recommendation-IsSound id reason h = elim (Option-cases (ta.find_unique w.actions id)) [
    | inl e ↦ rw e h
    | inr (a, e) ↦ rw e (update-IsSound id (disagreed reason) (λ x. tt) h)
  ]
