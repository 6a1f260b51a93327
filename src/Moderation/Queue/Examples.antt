-- ===== src/Moderation/Queue/Examples.antt =====
-- A queue of two actions, and the theorems at concrete inputs.
use reasonbridge.Prelude.{
  arith, ◌≡◌, ◌≤◌, ◌<◌, ◌*◌, ◌+◌, refl, none, some, [], ◌∷◌, text, to_lower_case,
}
use reasonbridge.Moderation.Types.{ActionStatus, ModerationAction}
use reasonbridge.Moderation.Actions.{new_ban, map_action_to_severity}
use reasonbridge.Moderation.Queue.{
  Priority, Pending, get_queue, sort_queue_items, compare_items, action_item,
  calculate_action_priority,
}
use reasonbridge.Moderation.Queue.Durations.{
  calculate_wait_time, decimal_digits, parse_duration, parse_date, parse_time, group,
}
use reasonbridge.Moderation.Queue.Waiting.{parse_duration-calculate_wait_time}

-- Two requested bans; the first one has waited ten days.
abbrev old : ModerationAction
old = record (new_ban 7 2 (text "repeated abuse") 3 0 0) { status = ActionStatus.pending }

abbrev recent : ModerationAction
recent = record old { id = 1; target_id = 8; created_at = 863000000 }

abbrev pending : Pending
pending = record { actions = old ∷ recent ∷ []; appeals = []; action_count = 2; appeal_count = 0 }

opened : Unit {0}
unfolding get_queue sort_queue_items compare_items action_item calculate_action_priority
    calculate_wait_time decimal_digits parse_duration parse_date parse_time group
    map_action_to_severity to_lower_case
opened = tt

-- The older ban is left out of a page of one.
queue_tests :
    ((get_queue none none 1 864000000 pending).items ≡ action_item 864000000 recent ∷ [])
    × ((action_item 864000000 old).wait_time ≡ text "P10D")
    × (calculate_wait_time 7205000 ≡ text "PT2H")
    × (parse_duration (text "P1Y2M3DT4H5M6S") ≡ 36993906000)
    × ((get_queue none (some Priority.low) 1 864000000 pending).total_count ≡ 2)
unfolding opened
queue_tests = (refl, refl, refl, refl, refl)

parse_duration-calculate_wait_time_example :
    (parse_duration (calculate_wait_time 7200000) ≤ 7200000)
    × (7200000 < 2 * parse_duration (calculate_wait_time 7200000) + 1000)
parse_duration-calculate_wait_time_example =
    parse_duration-calculate_wait_time 7200000 (omega arith)
