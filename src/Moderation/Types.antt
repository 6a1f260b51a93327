-- ===== src/Moderation/Types.antt =====
-- The rows of the moderation tables (packages/db-models/prisma/schema.prisma) and the state of
-- services/moderation-service. Keys are the UUIDs, which the code only compares; times are
-- milliseconds.
use reasonbridge.Prelude.{ℕ, Bool, true, false, ◌&&◌, Option, Text, ◌==◌}
use reasonbridge.Database.{Table}

pub data TargetType : Type 0 where
  response user topic : TargetType

pub data ActionType : Type 0 where
  educate warn hide remove suspend ban : ActionType

pub data Severity : Type 0 where
  non_punitive consequential : Severity

pub data ActionStatus : Type 0 where
  pending active appealed reversed : ActionStatus

pub data AppealStatus : Type 0 where
  pending under_review upheld denied : AppealStatus

pub record ModerationAction : Type 0 where
  pub id : ℕ
  pub target_type : TargetType
  pub target_id : ℕ
  pub action_type : ActionType
  pub severity : Severity
  pub reasoning : Text
  pub ai_recommended : Bool
  pub ai_confidence : Option ℕ  -- hundredths, Decimal(3, 2)
  pub approved_by_id : Option ℕ
  pub approved_at : Option ℕ
  pub status : ActionStatus
  pub created_at : ℕ
  pub executed_at : Option ℕ
  pub is_temporary : Bool
  pub ban_duration_days : Option ℕ
  pub expires_at : Option ℕ
  pub lifted_at : Option ℕ

pub record Appeal : Type 0 where
  pub id : ℕ
  pub moderation_action_id : ℕ
  pub appellant_id : ℕ
  pub reason : Text
  pub status : AppealStatus
  pub reviewer_id : Option ℕ
  pub decision_reasoning : Option Text
  pub created_at : ℕ
  pub resolved_at : Option ℕ

pub record User : Type 0 where
  pub id : ℕ

-- Events that the services publish, with the fields that vary.
pub data Event : Type 0 where
  action_requested : (id target_id : ℕ) (severity : Severity) (reasoning : Text) (by : ℕ) → Event
  recommendation_requested :
      (id target_id : ℕ) (severity : Severity) (reasoning : Text) (ai_confidence : ℕ) → Event
  appeal_upheld : (id user_id action_id by : ℕ) → Event

abbrev pub action_key : ModerationAction → ℕ
action_key a = a.id

abbrev pub appeal_key : Appeal → ℕ
appeal_key p = p.id

abbrev pub user_key : User → ℕ
user_key u = u.id

abbrev pub no_unique : {A : Type 0} → A → A → Bool
no_unique _ _ = false

-- `@@unique([moderationActionId, appellantId])`
abbrev pub same_appeal : Appeal → Appeal → Bool
same_appeal p q =
    p.moderation_action_id == q.moderation_action_id && p.appellant_id == q.appellant_id

abbrev pub ActionTable : Type 0 → Type 0
ActionTable S = Table S ModerationAction action_key no_unique

abbrev pub AppealTable : Type 0 → Type 0
AppealTable S = Table S Appeal appeal_key same_appeal

abbrev pub UserTable : Type 0 → Type 0
UserTable S = Table S User user_key no_unique

-- `QueueService.publishEvent` over the state of the queue; `none` is an exception.
pub record EventQueue (Q : Type 0) : Type 0 where
  pub publish : Q → Event → Option Q

-- What the services of moderation-service act on.
pub record World (SA SP SU Q : Type 0) : Type 0 where
  pub actions : SA
  pub appeals : SP
  pub users : SU
  pub queue : Q

abbrev pub is_pending : ActionStatus → Bool
is_pending pending = true
is_pending _ = false

abbrev pub is_active : ActionStatus → Bool
is_active active = true
is_active _ = false

abbrev pub is_reversed : ActionStatus → Bool
is_reversed reversed = true
is_reversed _ = false

abbrev pub is_non_punitive : Severity → Bool
is_non_punitive non_punitive = true
is_non_punitive _ = false

abbrev pub is_ban : ActionType → Bool
is_ban ban = true
is_ban _ = false

abbrev pub is_user : TargetType → Bool
is_user user = true
is_user _ = false

abbrev pub awaits_review : AppealStatus → Bool
awaits_review pending = true
awaits_review _ = false

abbrev pub is_under_review : AppealStatus → Bool
is_under_review under_review = true
is_under_review _ = false
