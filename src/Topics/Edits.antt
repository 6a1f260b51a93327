-- ===== src/Topics/Edits.antt =====
-- services/discussion-service/src/topics/topics.service.ts, `updateTopic`, and `createEditRecord` of
-- topics-edit.service.ts, for updates without tags. The caches are left out; the slug of a new title is
-- that of a function handed in, since slugs are generated in Slugs.antt.
pub mod History
mod Examples
use reasonbridge.Prelude.{
  ℕ, ◌+◌, ◌*◌, Bool, true, false, not, ◌&&◌, ◌||◌, Option, none, some, List, [], ◌∷◌, ltb, ◌==◌,
  if◌then◌else◌, or_else, is_some, Text, text_eq,
}
use reasonbridge.Exec.{
  Exec, ok, err, Entity, Cause, not_found, bad_request, unique_violation, gets, guard, require,
  ◌>>=◌, ◌>>◌,
}
use reasonbridge.Database.{Table}
use reasonbridge.Topics.{TopicStatus, TopicVisibility, Topic, TopicTable, same_status}

pub record TopicEdit : Type 0 where
  pub id : ℕ
  pub topic_id : ℕ
  pub editor_id : ℕ
  pub previous_title : Option Text
  pub new_title : Option Text
  pub previous_description : Option Text
  pub new_description : Option Text
  pub change_reason : Option Text
  pub flagged_for_review : Bool

abbrev pub edit_key : TopicEdit → ℕ
edit_key e = e.id

abbrev pub EditTable : Type 0 → Type 0
EditTable S = Table S TopicEdit edit_key (λ _ _. false)

pub record EditState (ST SE : Type 0) : Type 0 where
  pub topics : ST
  pub edits : SE

-- The fields of `UpdateTopicDto` but the tags.
pub record UpdateTopic : Type 0 where
  pub title : Option Text
  pub description : Option Text
  pub visibility : Option TopicVisibility
  pub edit_reason : Option Text
  pub flag_for_review : Bool

-- `new && new !== old`
abbrev pub change_of : Option Text → Text → Option Text
change_of none old = none
change_of (some []) old = none
change_of (some (c ∷ t)) old = if text_eq (c ∷ t) old then none else some (c ∷ t)

-- The old value of what changes.
abbrev pub previous : Option Text → Text → Option Text
previous none old = none
previous (some t) old = some old

abbrev same_visibility : TopicVisibility → TopicVisibility → Bool
same_visibility TopicVisibility.everyone TopicVisibility.everyone = true
same_visibility TopicVisibility.restricted TopicVisibility.restricted = true
same_visibility TopicVisibility.unlisted TopicVisibility.unlisted = true
same_visibility _ _ = false

-- `updateDto.visibility !== topic.visibility`: a missing visibility differs from every other.
abbrev is_other_visibility : Option TopicVisibility → TopicVisibility → Bool
is_other_visibility none old = true
is_other_visibility (some v) old = not (same_visibility v old)

abbrev pub is_given : Option Text → Bool
is_given none = false
is_given (some []) = false
is_given (some (c ∷ t)) = true

-- More than 24 hours old.
abbrev pub requires_reason : ℕ → Topic → Bool
requires_reason now t = ltb (t.created_at + 24 * 3600000) now

abbrev pub has_changes : UpdateTopic → Topic → Bool
has_changes dto t =
    is_some (change_of dto.title t.title)
    || is_some (change_of dto.description t.description)
    || is_other_visibility dto.visibility t.visibility

abbrev slug_after : (Text → Text) → Option Text → Text → Text
slug_after slug_of none old = old
slug_after slug_of (some title) old = slug_of title

-- `updateData`, from the fetched topic, as a change of the stored one.
abbrev pub edited : (Text → Text) → ℕ → UpdateTopic → Topic → Topic → Topic
edited slug_of now dto t x = record x {
  last_activity_at = now;
  title = or_else (change_of dto.title t.title) x.title;
  slug = slug_after slug_of (change_of dto.title t.title) x.slug;
  description = or_else (change_of dto.description t.description) x.description;
  visibility = or_else dto.visibility x.visibility;
}

abbrev pub new_edit : ℕ → ℕ → UpdateTopic → Topic → ℕ → TopicEdit
new_edit topic_id user_id dto t id = record {
  id = id;
  topic_id = topic_id;
  editor_id = user_id;
  previous_title = previous (change_of dto.title t.title) t.title;
  new_title = change_of dto.title t.title;
  previous_description = previous (change_of dto.description t.description) t.description;
  new_description = change_of dto.description t.description;
  change_reason = dto.edit_reason;
  flagged_for_review = dto.flag_for_review;
}

module _ {ST SE : Type 0} ⦃tp : TopicTable ST⦄ ⦃te : EditTable SE⦄ where
  abbrev inserted_edit : Option (TopicEdit × SE) → Exec (EditState ST SE) (Unit {0})
  inserted_edit none s = (err unique_violation, s)
  inserted_edit (some (e, t)) s = (ok tt, record s { edits = t })

  abbrev create_edit_record : ℕ → ℕ → UpdateTopic → Topic → Exec (EditState ST SE) (Unit {0})
  create_edit_record topic_id user_id dto t s =
      inserted_edit (te.create s.edits (new_edit topic_id user_id dto t)) s

  abbrev pub record_edit : Bool → ℕ → ℕ → UpdateTopic → Topic → Exec (EditState ST SE) (Unit {0})
  record_edit true topic_id user_id dto t s = create_edit_record topic_id user_id dto t s
  record_edit false topic_id user_id dto t s = (ok tt, s)

  unfoldable pub update_topic :
      (Text → Text)
      → (now topic_id user_id : ℕ) → UpdateTopic
      → Bool
      → Exec (EditState ST SE) (Unit {0})
  update_topic slug_of now topic_id user_id dto is_moderator = do
    found ← gets (λ s. tp.find_unique s.topics topic_id)
    t ← require found (not_found Entity.topic)
    guard (t.creator_id == user_id || is_moderator) (bad_request Cause.not_permitted)
    guard (not (same_status t.status TopicStatus.locked && not is_moderator))
        (bad_request Cause.topic_locked)
    guard (not (requires_reason now t && not (is_given dto.edit_reason)))
        (bad_request Cause.reason_required)
    record_edit (has_changes dto t) topic_id user_id dto t
    (λ s. (ok tt, record s { topics = tp.update s.topics topic_id (edited slug_of now dto t) }))
