-- ===== src/Moderation/Examples.antt =====
-- Runs of moderation-service on tables in memory, and the theorems at concrete inputs.
use reasonbridge.Prelude.{
  ◌≡◌, ◌≢◌, refl, true, some, List, [], ◌∷◌, inl, ◌==◌, Text, text, trim, to_lower_case, count,
  find, map,
}
use reasonbridge.Exec.{ok}
use reasonbridge.Database.Memory.{memory, latest}
use reasonbridge.Moderation.Types.{
  ActionStatus, AppealStatus, ModerationAction, Appeal, User, Event, is_active, World, EventQueue,
  ActionTable, AppealTable, UserTable, action_key, appeal_key, user_key, no_unique, same_appeal,
}
use reasonbridge.Moderation.Actions.{
  BanStatus, auto_lift_expired_bans, get_user_ban_status, is_expired_ban, new_ban, map_action_type,
  map_action_to_severity, map_target_type,
}
use reasonbridge.Moderation.Appeals.{
  Decision, new_appeal, check_text, decide, review_appeal, assign_appeal_to_moderator,
  create_appeal, pending_appeals,
}
use reasonbridge.Moderation.AiReview.{approve_recommendation}
use reasonbridge.Moderation.Service.{
  Operation, appeal, assign, review, approve_recommended, perform, perform_all, is_timely,
  all_timely,
}
use reasonbridge.Moderation.Machine.{IsSound, Follows}
use reasonbridge.Moderation.Lifecycle.{
  perform_all-Follows, pending_appeals_assigned, appealed_never_active,
}
use reasonbridge.Moderation.Bans.{not_banned, auto_lift_complete, appeal_lifts_ban}

instance abbrev action_memory : ActionTable (List ModerationAction)
action_memory = memory action_key no_unique

instance abbrev appeal_memory : AppealTable (List Appeal)
appeal_memory = memory appeal_key same_appeal

instance abbrev user_memory : UserTable (List User)
user_memory = memory user_key no_unique

instance abbrev event_list : EventQueue (List Event)
event_list = record { publish = λ q e. some (e ∷ q) }

abbrev Memory : Type 0
Memory = World (List ModerationAction) (List Appeal) (List User) (List Event)

abbrev why : Text
why = text "I did not write that response"

abbrev empty : Memory
empty = record { actions = []; appeals = []; users = record { id = 3 } ∷ []; queue = [] }

abbrev banned : Memory
banned = record empty { actions = new_ban 7 2 (text "repeated abuse") 3 1000 0 ∷ [] }

-- User 7 appeals the ban, moderator 3 takes the appeal and denies it.
abbrev denied_appeal : List Operation
denied_appeal = appeal 0 7 why 2000 ∷ assign 0 3 ∷ review 0 3 Decision.denied why 3000 ∷ []

abbrev in_force : BanStatus
in_force = record {
  is_banned = true;
  is_temporary_ban = true;
  expires_at = some 172801000;
  action = some (new_ban 7 2 (text "repeated abuse") 3 1000 0);
}

-- What the tests compute with.
opened : Unit {0}
unfolding perform_all perform is_timely all_timely approve_recommendation create_appeal
    review_appeal assign_appeal_to_moderator check_text decide latest get_user_ban_status
    auto_lift_expired_bans pending_appeals map_action_type map_action_to_severity map_target_type
    trim to_lower_case
opened = tt

bans_tests :
    ((get_user_ban_status 7 1500 banned).0 ≡ ok in_force)
    × ((get_user_ban_status 7 1500 (perform_all denied_appeal banned)).0 ≡ ok not_banned)
    × ((auto_lift_expired_bans 999999999 banned).0 ≡ ok 1)
unfolding opened
bans_tests = (refl, refl, refl)

banned-IsSound : IsSound banned
banned-IsSound = record { actions = (refl, tt); appeals = tt }

-- A decision on a recommendation puts an action that was appealed in force again.
recommendation_test :
    map
      (λ a. is_active a.status)
      (perform_all (approve_recommended 0 3 4000 ∷ []) (perform_all denied_appeal banned)).actions
    ≡ true ∷ []
unfolding opened
recommendation_test = refl

perform_all-Follows_example : Follows banned (perform_all denied_appeal banned)
unfolding opened
perform_all-Follows_example = perform_all-Follows denied_appeal banned refl

pending_appeals_assigned_example : pending_appeals (some 3) (perform_all denied_appeal banned) ≡ []
pending_appeals_assigned_example = pending_appeals_assigned denied_appeal banned 3 banned-IsSound

abbrev appealed_ban : ModerationAction
appealed_ban =
    let a = new_ban 7 2 (text "repeated abuse") 3 1000 0 in
    record a { status = ActionStatus.appealed }

appealed_never_active_example :
    (b : ModerationAction) × (find
        (λ r. action_key r == 0)
        (perform_all
          (review 0 3 Decision.denied why 3000 ∷ [])
          (record banned { actions = appealed_ban ∷ [] })).actions
      ≡ some b)
    × (b.status ≢ ActionStatus.active)
unfolding opened
appealed_never_active_example =
    appealed_never_active (review 0 3 Decision.denied why 3000 ∷ [])
      (record banned { actions = appealed_ban ∷ [] }) 0 appealed_ban refl (inl refl) refl

auto_lift_complete_example :
    let (r, v) = auto_lift_expired_bans 999999999 banned in
    (count (is_expired_ban 999999999) v.actions ≡ 0)
    × (r ≡ ok (count (is_expired_ban 999999999) banned.actions))
auto_lift_complete_example = auto_lift_complete banned 999999999

abbrev made_appeal : Appeal
made_appeal = new_appeal 0 7 why 2000 0

appeal_lifts_ban_example :
    (get_user_ban_status 7 1500 (create_appeal 0 7 why 2000 banned).1).0 ≡ ok not_banned
unfolding opened
appeal_lifts_ban_example =
    appeal_lifts_ban banned 0 7 why 2000 7 1500 (new_ban 7 2 (text "repeated abuse") 3 1000 0)
      made_appeal refl refl refl refl

abbrev old_appeal : Appeal
old_appeal = record made_appeal { status = AppealStatus.denied; reviewer_id = some 3 }
