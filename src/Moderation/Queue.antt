-- ===== src/Moderation/Queue.antt =====
-- services/moderation-service/src/services/moderation-queue.service.ts, less its metrics. The rows
-- that the client returns for a page, oldest first, and the numbers of pending rows are arguments.
pub mod Durations
pub mod Waiting
pub mod Order
mod Examples
use reasonbridge.Prelude.{
  ℕ, ◌+◌, ◌-◌, ◌*◌, ◌/◌, Bool, true, false, not, ◌&&◌, ◌||◌, Option, none, some, List, [], ◌∷◌,
  ◌++◌, map, take, if◌then◌else◌, Text, ltb, leb, ◌==◌,
}
use reasonbridge.Moderation.Queue.Durations.{parse_duration, calculate_wait_time}
use reasonbridge.Moderation.Types.{Severity, ModerationAction, Appeal, is_non_punitive}

pub data ItemType : Type 0 where
  action appeal report : ItemType

pub data Priority : Type 0 where
  high normal low : Priority

pub record QueueItem : Type 0 where
  pub item_type : ItemType
  pub id : ℕ
  pub priority : Priority
  pub wait_time : Text

pub record QueueResponse : Type 0 where
  pub items : List QueueItem
  pub total_count : ℕ

-- An appeal with its `moderationAction`.
pub record AppealRow : Type 0 where
  pub appeal : Appeal
  pub moderation_action : ModerationAction

-- `action.severity === 'MEDIUM'`: the enum has no such value.
abbrev pub is_medium : Severity → Bool
is_medium _ = false

-- `action.aiConfidence && action.aiConfidence < 0.7`, in hundredths.
abbrev pub is_unsure : Option ℕ → Bool
is_unsure none = false
is_unsure (some c) = ltb c 70

unfoldable pub calculate_action_priority : ModerationAction → Priority
calculate_action_priority a =
    if not (is_non_punitive a.severity) || is_unsure a.ai_confidence
    then Priority.high
    else if is_medium a.severity
    then Priority.normal
    else Priority.low

unfoldable pub calculate_appeal_priority : AppealRow → Priority
calculate_appeal_priority p =
    if not (is_non_punitive p.moderation_action.severity) then Priority.high else Priority.normal

abbrev pub priority_order : Priority → ℕ
priority_order Priority.high = 0
priority_order Priority.normal = 1
priority_order Priority.low = 2

-- Whether the comparison of two items is at most 0.
unfoldable pub compare_items : QueueItem → QueueItem → Bool
compare_items a b =
    ltb (priority_order a.priority) (priority_order b.priority)
    || (priority_order a.priority == priority_order b.priority
        && leb (parse_duration a.wait_time) (parse_duration b.wait_time))

-- `Array.prototype.sort`, which is stable.
abbrev pub insert_item : QueueItem → List QueueItem → List QueueItem
insert_item x [] = x ∷ []
insert_item x (y ∷ ys) = if compare_items x y then x ∷ y ∷ ys else y ∷ insert_item x ys

unfoldable pub sort_queue_items : List QueueItem → List QueueItem
unfolding compare_items
sort_queue_items [] = []
sort_queue_items (x ∷ xs) = insert_item x (sort_queue_items xs)

unfoldable pub action_item : ℕ → ModerationAction → QueueItem
unfolding calculate_action_priority
action_item now a = record {
  item_type = ItemType.action;
  id = a.id;
  priority = calculate_action_priority a;
  wait_time = calculate_wait_time (now - a.created_at);
}

unfoldable pub appeal_item : ℕ → AppealRow → QueueItem
unfolding calculate_appeal_priority
appeal_item now p = record {
  item_type = ItemType.appeal;
  id = p.appeal.id;
  priority = calculate_appeal_priority p;
  wait_time = calculate_wait_time (now - p.appeal.created_at);
}

-- `!type || type === t`
abbrev pub wants : Option ItemType → ItemType → Bool
wants none _ = true
wants (some ItemType.action) ItemType.action = true
wants (some ItemType.appeal) ItemType.appeal = true
wants _ _ = false

-- The rows that the client returned for the page, and the numbers of all pending rows.
pub record Pending : Type 0 where
  pub actions : List ModerationAction
  pub appeals : List AppealRow
  pub action_count : ℕ
  pub appeal_count : ℕ

abbrev pub queue_items : Option ItemType → ℕ → Pending → List QueueItem
queue_items type now p =
    (if wants type ItemType.action then map (action_item now) p.actions else [])
    ++ (if wants type ItemType.appeal then map (appeal_item now) p.appeals else [])

-- The parameter `priority` of the source is passed on and never read.
unfoldable pub get_queue : Option ItemType → Option Priority → ℕ → ℕ → Pending → QueueResponse
unfolding sort_queue_items action_item appeal_item
get_queue type priority page_size now p = record {
  items = take page_size (sort_queue_items (queue_items type now p));
  total_count =
      (if wants type ItemType.action then p.action_count else 0)
      + (if wants type ItemType.appeal then p.appeal_count else 0);
}
