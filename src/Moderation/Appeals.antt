-- ===== src/Moderation/Appeals.antt =====
-- services/moderation-service/src/services/appeal.service.ts, and the appeal operations of
-- moderation-actions.service.ts beside it. A response DTO is the row that it formats.
use mathlib.Core.Option
use reasonbridge.Prelude.{
  ℕ, Bool, true, false, not, ◌&&◌, ◌||◌, Option, none, some, List, ◌++◌, ltb, ◌==◌, or_else, length,
  Text, text, trim,
}
use reasonbridge.Exec.{
  Exec, ok, err, unique_violation, not_found, bad_request, Entity, Cause, pure, gets, guard,
  require, ◌>>=◌, ◌>>◌,
}
use reasonbridge.Moderation.Types.{
  AppealStatus, ActionStatus, ModerationAction, Appeal, EventQueue, World, ActionTable, AppealTable,
  UserTable, appeal_upheld, is_reversed, awaits_review, is_under_review,
}
use reasonbridge.Moderation.Actions.{publish, find_action}

pub data Decision : Type 0 where
  upheld denied : Decision

-- `request.decision === 'upheld' ? 'UPHELD' : 'DENIED'`
abbrev pub decided : Decision → AppealStatus
decided upheld = AppealStatus.upheld
decided denied = AppealStatus.denied

abbrev pub is_upheld : Decision → Bool
is_upheld upheld = true
is_upheld denied = false

abbrev pub is_open : Appeal → Bool
is_open p = awaits_review p.status || is_under_review p.status

abbrev pub any_open : Option Appeal → Bool
any_open none = false
any_open (some p) = is_open p

abbrev pub upheld_note : Text → Text → Text
upheld_note r reasoning = r ++ (text "\n\n[APPEAL UPHELD: " ++ (reasoning ++ text "]"))

-- `where: { moderationActionId_appellantId: { … } }`
abbrev pub is_appeal_of : ℕ → ℕ → Appeal → Bool
is_appeal_of action_id appellant_id p =
    p.moderation_action_id == action_id && p.appellant_id == appellant_id

abbrev pub new_appeal : ℕ → ℕ → Text → ℕ → ℕ → Appeal
new_appeal action_id appellant_id reason now id = record {
  id = id;
  moderation_action_id = action_id;
  appellant_id = appellant_id;
  reason = reason;
  status = AppealStatus.pending;
  reviewer_id = none;
  decision_reasoning = none;
  created_at = now;
  resolved_at = none;
}

-- `!reason || reason.trim().length === 0`
abbrev pub is_blank : Text → Bool
is_blank t = length t == 0 || length (trim t) == 0

-- The `where` clause of `AppealService.getPendingAppeals`.
abbrev pub is_pending_for : Option ℕ → Appeal → Bool
is_pending_for none p = awaits_review p.status
is_pending_for (some moderator_id) p =
    awaits_review p.status && or_else (Option.map (λ r. r == moderator_id) p.reviewer_id) false

module _ {SA SP SU Q : Type 0} ⦃ta : ActionTable SA⦄ ⦃tp : AppealTable SP⦄ ⦃tu : UserTable SU⦄
    ⦃eq : EventQueue Q⦄ where
  -- The checks on a text that both services make before they read the database.
  unfoldable pub check_text : Text → ℕ → Exec (World SA SP SU Q) (Unit {0})
  check_text t most = do
    guard (not (is_blank t)) (bad_request Cause.reason_required)
    guard (not (ltb (length t) 20)) (bad_request Cause.reason_too_short)
    guard (not (ltb most (length t))) (bad_request Cause.reason_too_long)

  abbrev pub find_appeal : ℕ → Exec (World SA SP SU Q) Appeal
  find_appeal id w = require (tp.find_unique w.appeals id) (not_found Entity.appeal) w

  abbrev pub inserted_appeal : Option (Appeal × SP) → Exec (World SA SP SU Q) Appeal
  inserted_appeal none w = (err unique_violation, w)
  inserted_appeal (some (r, t)) w = (ok r, record w { appeals = t })

  abbrev pub insert_appeal : (ℕ → Appeal) → Exec (World SA SP SU Q) Appeal
  insert_appeal mk w = inserted_appeal (tp.create w.appeals mk) w

  abbrev pub update_appeal : Appeal → ℕ → (Appeal → Appeal) → Exec (World SA SP SU Q) Appeal
  update_appeal row id f w = (ok (f row), record w { appeals = tp.update w.appeals id f })

  abbrev pub set_action :
      ℕ → (ModerationAction → ModerationAction) → Exec (World SA SP SU Q) (Unit {0})
  set_action id f w = (ok tt, record w { actions = ta.update w.actions id f })

  -- `AppealService.createAppeal`
  unfoldable pub create_appeal : ℕ → ℕ → Text → ℕ → Exec (World SA SP SU Q) Appeal
  create_appeal action_id appellant_id reason now = do
    check_text reason 5000
    action ← find_action action_id
    guard (not (is_reversed action.status)) (bad_request Cause.action_reversed)
    existing ← gets (λ w. tp.find_unique_by w.appeals (is_appeal_of action_id appellant_id))
    guard (not (any_open existing)) (bad_request Cause.appeal_open)
    appeal ← insert_appeal (new_appeal action_id appellant_id reason now)
    set_action action_id (λ a. record a { status = ActionStatus.appealed })
    pure appeal

  -- `AppealService.assignAppealToModerator`
  unfoldable pub assign_appeal_to_moderator : ℕ → ℕ → Exec (World SA SP SU Q) Appeal
  assign_appeal_to_moderator appeal_id moderator_id = do
    appeal ← find_appeal appeal_id
    guard (awaits_review appeal.status) (bad_request Cause.appeal_not_pending)
    found ← gets (λ w. tu.find_unique w.users moderator_id)
    require found (not_found Entity.moderator)
    update_appeal appeal appeal_id
        (λ p. record p { reviewer_id = some moderator_id; status = AppealStatus.under_review })

  -- `AppealService.unassignAppeal`
  unfoldable pub unassign_appeal : ℕ → Exec (World SA SP SU Q) Appeal
  unassign_appeal appeal_id = do
    appeal ← find_appeal appeal_id
    guard (is_under_review appeal.status) (bad_request Cause.appeal_not_under_review)
    update_appeal appeal appeal_id
        (λ p. record p { reviewer_id = none; status = AppealStatus.pending })

  -- The action of an upheld appeal is reversed, and the event is published.
  abbrev pub reverse_action :
      ℕ
      → Appeal
      → ℕ
      → Decision
      → Text
      → Option ModerationAction
      → Exec (World SA SP SU Q) (Unit {0})
  reverse_action appeal_id appeal reviewer_id upheld reasoning (some action) = do
    set_action action.id (λ a. record a {
      status = ActionStatus.reversed;
      reasoning = upheld_note action.reasoning reasoning;
    })
    publish (appeal_upheld appeal_id appeal.appellant_id action.id reviewer_id)
  reverse_action appeal_id appeal reviewer_id _ reasoning _ = pure tt

  -- What both `reviewAppeal` do once the appeal may be reviewed.
  unfoldable pub decide : ℕ → Appeal → ℕ → Decision → Text → ℕ → Exec (World SA SP SU Q) Appeal
  decide appeal_id appeal reviewer_id decision reasoning now = do
    action ← gets (λ w. ta.find_unique w.actions appeal.moderation_action_id)
    updated ← update_appeal appeal appeal_id (λ p. record p {
      status = decided decision;
      reviewer_id = some reviewer_id;
      decision_reasoning = some reasoning;
      resolved_at = some now;
    })
    reverse_action appeal_id appeal reviewer_id decision reasoning action
    pure updated

  -- `AppealService.reviewAppeal`
  unfoldable pub review_appeal : ℕ → ℕ → Decision → Text → ℕ → Exec (World SA SP SU Q) Appeal
  review_appeal appeal_id reviewer_id decision reasoning now = do
    check_text reasoning 2000
    appeal ← find_appeal appeal_id
    guard (is_open appeal) (bad_request Cause.appeal_not_open)
    decide appeal_id appeal reviewer_id decision reasoning now

  -- `ModerationActionsService.reviewAppeal`
  unfoldable pub review_pending_appeal :
      ℕ → ℕ → Decision → Text → ℕ → Exec (World SA SP SU Q) Appeal
  review_pending_appeal appeal_id reviewer_id decision reasoning now = do
    check_text reasoning 2000
    appeal ← find_appeal appeal_id
    guard (awaits_review appeal.status) (bad_request Cause.appeal_not_pending)
    decide appeal_id appeal reviewer_id decision reasoning now

  -- The appeals of `getPendingAppeals`, without its pages.
  unfoldable pub pending_appeals : Option ℕ → World SA SP SU Q → List Appeal
  pending_appeals assigned w = tp.find_many w.appeals (is_pending_for assigned)
