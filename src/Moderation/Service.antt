-- ===== src/Moderation/Service.antt =====
-- The operations of moderation-service that write, as requests, and their runs one after another.
use reasonbridge.Prelude.{ℕ, Bool, true, ◌&&◌, Option, none, some, List, [], ◌∷◌, Text}
use reasonbridge.Moderation.Types.{
  ModerationAction, is_pending, World, EventQueue, ActionTable, AppealTable, UserTable,
}
use reasonbridge.Moderation.Actions.{
  CreateActionRequest, create_action, approve_action, reject_action, create_temporary_ban,
  auto_lift_expired_bans,
}
use reasonbridge.Moderation.Appeals.{
  Decision, create_appeal, assign_appeal_to_moderator, unassign_appeal, review_appeal,
  review_pending_appeal,
}
use reasonbridge.Moderation.AiReview.{
  AiRecommendationRequest, submit_ai_recommendation, approve_recommendation, reject_recommendation,
}

pub data Operation : Type 0 where
  create : (request : CreateActionRequest) (by now : ℕ) → Operation
  approve : (id by : ℕ) (modified : Option Text) (now : ℕ) → Operation
  reject : (id : ℕ) (reason : Text) → Operation
  ban_for : (user_id days : ℕ) (reasoning : Text) (by now : ℕ) → Operation
  lift_expired : (now : ℕ) → Operation
  appeal : (id by : ℕ) (reason : Text) (now : ℕ) → Operation
  assign : (id by : ℕ) → Operation
  unassign : (id : ℕ) → Operation
  review : (id by : ℕ) (decision : Decision) (reasoning : Text) (now : ℕ) → Operation
  review_pending : (id by : ℕ) (decision : Decision) (reasoning : Text) (now : ℕ) → Operation
  recommend : (request : AiRecommendationRequest) (now : ℕ) → Operation
  approve_recommended : (id by now : ℕ) → Operation
  reject_recommended : (id : ℕ) (reason : Text) → Operation

-- Whether no action is stored or it is pending.
abbrev pub is_undecided : Option ModerationAction → Bool
is_undecided none = true
is_undecided (some a) = is_pending a.status

module _ {SA SP SU Q : Type 0} ⦃ta : ActionTable SA⦄ ⦃tp : AppealTable SP⦄ ⦃tu : UserTable SU⦄
    ⦃eq : EventQueue Q⦄ where
  -- What an operation leaves, whether it returns or throws.
  unfoldable pub perform : Operation → World SA SP SU Q → World SA SP SU Q
  perform (create request by now) w = (create_action request by now w).1
  perform (approve id by modified now) w = (approve_action id by modified now w).1
  perform (reject id reason) w = (reject_action id reason w).1
  perform (ban_for user_id days reasoning by now) w =
      (create_temporary_ban user_id days reasoning by now w).1
  perform (lift_expired now) w = (auto_lift_expired_bans now w).1
  perform (appeal id by reason now) w = (create_appeal id by reason now w).1
  perform (assign id by) w = (assign_appeal_to_moderator id by w).1
  perform (unassign id) w = (unassign_appeal id w).1
  perform (review id by decision reasoning now) w = (review_appeal id by decision reasoning now w).1
  perform (review_pending id by decision reasoning now) w =
      (review_pending_appeal id by decision reasoning now w).1
  perform (recommend request now) w = (submit_ai_recommendation request now w).1
  perform (approve_recommended id by now) w = (approve_recommendation id by now w).1
  perform (reject_recommended id reason) w = (reject_recommendation id reason w).1

  unfoldable pub perform_all : List Operation → World SA SP SU Q → World SA SP SU Q
  unfolding perform
  perform_all [] w = w
  perform_all (o ∷ os) w = perform_all os (perform o w)

  unfoldable pub is_timely : Operation → World SA SP SU Q → Bool
  is_timely (approve_recommended id by now) w = is_undecided (ta.find_unique w.actions id)
  is_timely (reject_recommended id reason) w = is_undecided (ta.find_unique w.actions id)
  is_timely _ w = true

  -- Every decision on a recommendation of the run is made while its action is pending.
  unfoldable pub all_timely : List Operation → World SA SP SU Q → Bool
  unfolding perform is_timely
  all_timely [] w = true
  all_timely (o ∷ os) w = is_timely o w && all_timely os (perform o w)
