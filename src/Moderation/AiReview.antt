-- ===== src/Moderation/AiReview.antt =====
-- services/moderation-service/src/services/ai-review.service.ts: the operations that write. A confidence is
-- in hundredths, as the column stores it.
use reasonbridge.Prelude.{ℕ, true, false, none, some, ◌++◌, leb, Text, text}
use reasonbridge.Prelude.Int.{ℤ, pos, negsuc}
use reasonbridge.Exec.{Exec, Error, raise, gets, guard, require, pure, ◌>>=◌, ◌>>◌}
use reasonbridge.Moderation.Types.{
  ActionStatus, ModerationAction, EventQueue, World, ActionTable, AppealTable, UserTable,
  recommendation_requested,
}
use reasonbridge.Moderation.Actions.{
  map_target_type, map_action_type, map_action_to_severity, publish, insert_action, update_action,
}

pub record AiRecommendationRequest : Type 0 where
  pub target_type : Text
  pub target_id : ℕ
  pub action_type : Text
  pub reasoning : Text
  pub confidence : ℤ

abbrev pub new_recommendation : AiRecommendationRequest → ℕ → ℕ → ℕ → ModerationAction
new_recommendation request confidence now id = record {
  id = id;
  target_type = map_target_type request.target_type;
  target_id = request.target_id;
  action_type = map_action_type request.action_type;
  severity = map_action_to_severity request.action_type;
  reasoning = request.reasoning;
  ai_recommended = true;
  ai_confidence = some confidence;
  approved_by_id = none;
  approved_at = none;
  status = ActionStatus.pending;
  created_at = now;
  executed_at = none;
  is_temporary = false;
  ban_duration_days = none;
  expires_at = none;
  lifted_at = none;
}

abbrev pub approved : ℕ → ℕ → ModerationAction → ModerationAction
approved by now a = record a {
  status = ActionStatus.active;
  approved_by_id = some by;
  approved_at = some now;
  executed_at = some now;
}

abbrev pub disagreed : Text → ModerationAction → ModerationAction
disagreed reason a = record a {
  status = ActionStatus.appealed;
  reasoning = reason ++ text " [REJECTED BY MODERATOR]";
}

module _ {SA SP SU Q : Type 0} ⦃ta : ActionTable SA⦄ ⦃tp : AppealTable SP⦄ ⦃tu : UserTable SU⦄
    ⦃eq : EventQueue Q⦄ where
  abbrev pub submit : AiRecommendationRequest → ℕ → ℕ → Exec (World SA SP SU Q) ModerationAction
  submit request confidence now = do
    action ← insert_action (new_recommendation request confidence now)
    publish (
        recommendation_requested action.id request.target_id
          (map_action_to_severity request.action_type) request.reasoning confidence)
    pure action

  abbrev pub with_confidence :
      AiRecommendationRequest → ℕ → ℤ → Exec (World SA SP SU Q) ModerationAction
  with_confidence request now (negsuc n) = raise Error.confidence_out_of_range
  with_confidence request now (pos n) = do
    guard (leb n 100) Error.confidence_out_of_range
    submit request n now

  unfoldable pub submit_ai_recommendation :
      AiRecommendationRequest → ℕ → Exec (World SA SP SU Q) ModerationAction
  submit_ai_recommendation request now = with_confidence request now request.confidence

  -- `update`, which throws where there is no row
  unfoldable pub approve_recommendation : ℕ → ℕ → ℕ → Exec (World SA SP SU Q) ModerationAction
  approve_recommendation action_id approver_id now = do
    found ← gets (λ w. ta.find_unique w.actions action_id)
    action ← require found Error.record_missing
    update_action action action_id (approved approver_id now)

  unfoldable pub reject_recommendation : ℕ → Text → Exec (World SA SP SU Q) (Unit {0})
  reject_recommendation action_id reason = do
    found ← gets (λ w. ta.find_unique w.actions action_id)
    action ← require found Error.record_missing
    update_action action action_id (disagreed reason)
    pure tt
