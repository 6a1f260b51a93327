-- ===== src/Moderation/Actions.antt =====
-- services/moderation-service/src/services/moderation-actions.service.ts: the operations on
-- moderation actions. A response DTO is the row that it formats.
use reasonbridge.Prelude.{
  ℕ, ◌+◌, ◌*◌, Bool, true, false, not, ◌&&◌, Option, none, some, List, [], ◌∷◌, ◌++◌, ltb, leb,
  ◌==◌, if◌then◌else◌, or_else, is_some, length, any, Text, text, text_eq, to_lower_case,
}
use reasonbridge.Exec.{
  Exec, ok, err, unique_violation, not_found, bad_request, Entity, Cause, gets, pure, guard,
  require, ◌>>=◌, ◌>>◌,
}
use reasonbridge.Moderation.Types.{
  TargetType, ActionType, Severity, ActionStatus, ModerationAction, Event, EventQueue, World,
  ActionTable, AppealTable, UserTable, educate, warn, hide, remove, suspend, ban, response, user,
  topic, non_punitive, consequential, action_requested, is_pending, is_active, is_non_punitive,
  is_ban, is_user,
}

-- The value of the first entry with the key, as an object literal gives it.
abbrev lookup_or : {A : Type 0} → Text → A → List (Text × A) → A
lookup_or k d [] = d
lookup_or k d ((j, v) ∷ l) = if text_eq j k then v else lookup_or k d l

unfoldable pub map_target_type : Text → TargetType
map_target_type t =
    lookup_or (to_lower_case t) response
      ((text "response", response) ∷ (text "user", user) ∷ (text "topic", topic) ∷ [])

unfoldable pub map_action_type : Text → ActionType
map_action_type t = lookup_or (to_lower_case t) educate (
    (text "educate", educate)
    ∷ (text "warn", warn)
    ∷ (text "hide", hide)
    ∷ (text "remove", remove)
    ∷ (text "suspend", suspend)
    ∷ (text "ban", ban)
    ∷ [])

unfoldable pub map_action_to_severity : Text → Severity
map_action_to_severity t =
    if any (λ a. text_eq (to_lower_case a) (to_lower_case t)) (text "educate" ∷ text "warn" ∷ [])
    then non_punitive
    else consequential

pub record CreateActionRequest : Type 0 where
  pub target_type : Text
  pub target_id : ℕ
  pub action_type : Text
  pub reasoning : Text

-- `modifiedReasoning || reasoning`: the empty string is falsy.
abbrev pub modified_or : Option Text → Text → Text
modified_or (some (c ∷ s)) r = c ∷ s
modified_or _ r = r

abbrev pub rejected_note : Text → Text → Text
rejected_note r reason = r ++ (text "\n\n[REJECTED BY MODERATOR: " ++ (reason ++ text "]"))

abbrev pub lifted_note : Text → Text
lifted_note r = r ++ text "\n\n[AUTOMATICALLY LIFTED: Temporary ban duration expired]"

-- The row that `createAction` writes, with the column defaults of the table.
abbrev pub new_action : CreateActionRequest → ℕ → ℕ → ℕ → ModerationAction
new_action request moderator_id now id = record {
  id = id;
  target_type = map_target_type request.target_type;
  target_id = request.target_id;
  action_type = map_action_type request.action_type;
  severity = map_action_to_severity request.action_type;
  reasoning = request.reasoning;
  ai_recommended = false;
  ai_confidence = none;
  approved_by_id = some moderator_id;
  approved_at = some now;
  status = ActionStatus.active;
  created_at = now;
  executed_at = some now;
  is_temporary = false;
  ban_duration_days = none;
  expires_at = none;
  lifted_at = none;
}

abbrev pub day_ms : ℕ
day_ms = 86400000

abbrev pub ban_request : ℕ → Text → CreateActionRequest
ban_request user_id reasoning = record {
  target_type = text "user";
  target_id = user_id;
  action_type = text "ban";
  reasoning = reasoning;
}

abbrev pub new_ban : ℕ → ℕ → Text → ℕ → ℕ → ℕ → ModerationAction
new_ban user_id days reasoning moderator_id now id =
    let a = new_action (ban_request user_id reasoning) moderator_id now id in
    record a {
      is_temporary = true;
      ban_duration_days = some days;
      expires_at = some (now + days * day_ms);
    }

-- `expiresAt: { lte: now }`; a null does not match.
abbrev pub due : Option ℕ → ℕ → Bool
due none now = false
due (some t) now = leb t now

-- The `where` clause of `autoLiftExpiredBans`.
abbrev pub is_expired_ban : ℕ → ModerationAction → Bool
is_expired_ban now a =
    is_ban a.action_type
    && is_active a.status
    && a.is_temporary
    && due a.expires_at now
    && not (is_some a.lifted_at)

-- The `where` clause of `getUserBanStatus`.
abbrev pub is_ban_of : ℕ → ModerationAction → Bool
is_ban_of user_id a =
    a.target_id == user_id && is_user a.target_type && is_ban a.action_type && is_active a.status

pub record BanStatus : Type 0 where
  pub is_banned : Bool
  pub is_temporary_ban : Bool
  pub expires_at : Option ℕ
  pub action : Option ModerationAction

abbrev pub ban_status : Option ModerationAction → ℕ → BanStatus
ban_status none now = record {
  is_banned = false;
  is_temporary_ban = false;
  expires_at = none;
  action = none;
}
ban_status (some a) now =
    if a.is_temporary && due a.expires_at now
    then record {
      is_banned = false;
      is_temporary_ban = true;
      expires_at = a.expires_at;
      action = none;
    }
    else record {
      is_banned = true;
      is_temporary_ban = a.is_temporary;
      expires_at = a.expires_at;
      action = some a;
    }

-- The ids of the lifted bans, and the row of each after `updateMany` with the data that
-- `autoLiftExpiredBans` computes from the first of them.
abbrev pub among : List ModerationAction → ModerationAction → Bool
among bans a = any (λ b. b.id == a.id) bans

abbrev pub lift : ModerationAction → ℕ → ModerationAction → ModerationAction
lift first now a = record a {
  status = ActionStatus.reversed;
  lifted_at = some now;
  reasoning = lifted_note first.reasoning;
}

module _ {SA SP SU Q : Type 0} ⦃ta : ActionTable SA⦄ ⦃tp : AppealTable SP⦄ ⦃tu : UserTable SU⦄
    ⦃eq : EventQueue Q⦄ where
  -- `try { publishEvent } catch { log }`
  abbrev pub publish : Event → Exec (World SA SP SU Q) (Unit {0})
  publish e w = (ok tt, record w { queue = or_else (eq.publish w.queue e) w.queue })

  -- `findUnique` and the exception where there is no row
  abbrev pub find_action : ℕ → Exec (World SA SP SU Q) ModerationAction
  find_action id w = require (ta.find_unique w.actions id) (not_found Entity.action) w

  -- `update` returns the row as it is written.
  abbrev pub update_action :
      ModerationAction
      → ℕ
      → (ModerationAction → ModerationAction)
      → Exec (World SA SP SU Q) ModerationAction
  update_action row id f w = (ok (f row), record w { actions = ta.update w.actions id f })

  abbrev pub inserted : Option (ModerationAction × SA) → Exec (World SA SP SU Q) ModerationAction
  inserted none w = (err unique_violation, w)
  inserted (some (r, t)) w = (ok r, record w { actions = t })

  abbrev pub insert_action : (ℕ → ModerationAction) → Exec (World SA SP SU Q) ModerationAction
  insert_action mk w = inserted (ta.create w.actions mk) w

  unfoldable pub create_action :
      CreateActionRequest → ℕ → ℕ → Exec (World SA SP SU Q) ModerationAction
  create_action request moderator_id now = do
    guard (not (ltb (length request.reasoning) 20)) (bad_request Cause.reason_too_short)
    action ← insert_action (new_action request moderator_id now)
    publish (
        action_requested action.id request.target_id (map_action_to_severity request.action_type)
          request.reasoning moderator_id)
    pure action

  unfoldable pub approve_action : ℕ → ℕ → Option Text → ℕ → Exec (World SA SP SU Q) ModerationAction
  approve_action action_id moderator_id modified now = do
    action ← find_action action_id
    guard (is_pending action.status) (bad_request Cause.action_not_pending)
    guard (not (is_non_punitive action.severity)) (bad_request Cause.action_non_punitive)
    update_action action action_id (λ a. record a {
      status = ActionStatus.active;
      approved_by_id = some moderator_id;
      approved_at = some now;
      executed_at = some now;
      reasoning = modified_or modified action.reasoning;
    })

  unfoldable pub reject_action : ℕ → Text → Exec (World SA SP SU Q) (Unit {0})
  reject_action action_id reason = do
    action ← find_action action_id
    guard (is_pending action.status) (bad_request Cause.action_not_pending)
    update_action action action_id (λ a. record a {
      status = ActionStatus.reversed;
      reasoning = rejected_note action.reasoning reason;
    })
    pure tt

  -- `durationDays` is a whole number of days, and a day has 24 hours.
  unfoldable pub create_temporary_ban :
      ℕ → ℕ → Text → ℕ → ℕ → Exec (World SA SP SU Q) ModerationAction
  create_temporary_ban user_id days reasoning moderator_id now = do
    guard (ltb 0 days) (bad_request Cause.duration_not_positive)
    guard (not (ltb 365 days)) (bad_request Cause.duration_too_long)
    action ← insert_action (new_ban user_id days reasoning moderator_id now)
    publish (action_requested action.id user_id consequential reasoning moderator_id)
    pure action

  abbrev pub lift_bans : List ModerationAction → ℕ → Exec (World SA SP SU Q) ℕ
  lift_bans [] now w = (ok 0, w)
  lift_bans (b ∷ bs) now w = (
    ok (length (b ∷ bs)),
    record w { actions = ta.update_many w.actions (among (b ∷ bs)) (lift b now) },
  )

  unfoldable pub auto_lift_expired_bans : ℕ → Exec (World SA SP SU Q) ℕ
  auto_lift_expired_bans now w = lift_bans (ta.find_many w.actions (is_expired_ban now)) now w

  unfoldable pub get_user_ban_status : ℕ → ℕ → Exec (World SA SP SU Q) BanStatus
  get_user_ban_status user_id now =
      gets (λ w. ban_status (ta.find_latest w.actions (is_ban_of user_id) (λ a. a.created_at)) now)
