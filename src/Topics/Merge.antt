-- ===== src/Topics/Merge.antt =====
-- services/discussion-service/src/topics/topics.service.ts, `mergeTopics`. The answer is read outside
-- the transaction and left out.
pub mod Moved
pub mod Rows
pub mod Counts
pub mod Participants
pub mod Undone
mod Examples
use reasonbridge.Prelude.{
  ℕ, ◌+◌, Bool, true, false, not, Option, none, some, List, [], ◌∷◌, ◌++◌, map, length, filter,
  find, any, ◌==◌, if◌then◌else◌, Text, text,
}
use reasonbridge.Exec.{
  Exec, ok, err, Entity, Cause, not_found, bad_request, unique_violation, gets, guard, require,
  transaction, ◌>>=◌, ◌>>◌,
}
use reasonbridge.IdSet.{is_among, added_all}
use reasonbridge.Topics.{
  TopicStatus, Topic, Response, Snapshot, TopicMerge, State, TopicTable, ResponseTable, MergeTable,
  same_status, move_to,
}

pub record MergeTopics : Type 0 where
  pub source_topic_ids : List ℕ
  pub target_topic_id : ℕ
  pub merge_reason : Text

abbrev pub is_on : ℕ → Response → Bool
is_on i r = r.topic_id == i

abbrev pub is_on_any : List ℕ → Response → Bool
is_on_any ids r = is_among ids r.topic_id

abbrev snapshot : Topic → Snapshot
snapshot t = record {
  id = t.id;
  title = t.title;
  description = t.description;
  status = t.status;
  visibility = t.visibility;
  slug = t.slug;
  creator_id = t.creator_id;
  participant_count = t.participant_count;
  response_count = t.response_count;
  created_at = t.created_at;
}

abbrev pub response_total : List Topic → ℕ
response_total [] = 0
response_total (t ∷ ts) = t.response_count + response_total ts

abbrev pub redirect_note : Topic → Text → Text
redirect_note target reason =
    10 ∷ 10 ∷ text "---"
    ++ 10 ∷ text "**[MERGED]** This topic has been merged into: ["
    ++ target.title
    ++ text "](/topics/"
    ++ target.slug
    ++ text ")"
    ++ 10 ∷ text "Reason: "
    ++ reason

abbrev pub with_counts : (now responses participants : ℕ) → Topic → Topic
with_counts now responses participants t = record t {
  response_count = responses;
  participant_count = participants;
  last_activity_at = now;
}

abbrev pub merged_into : ℕ → Text → Topic → Topic → Topic
merged_into now note source t = record t {
  status = TopicStatus.archived;
  archived_at = some now;
  description = source.description ++ note;
}

abbrev pub new_merge : (now moderator_id : ℕ) → MergeTopics → List Topic → ℕ → ℕ → TopicMerge
new_merge now moderator_id dto sources participants id = record {
  id = id;
  source_topic_ids = dto.source_topic_ids;
  target_topic_id = dto.target_topic_id;
  moderator_id = moderator_id;
  merge_reason = dto.merge_reason;
  snapshots = map snapshot sources;
  responses_moved = response_total sources;
  participants_merged = participants;
  merged_at = now;
  rolled_back_at = none;
  rollback_reason = none;
}

module _ {SR : Type 0} ⦃tr : ResponseTable SR⦄ where
  -- The authors of the fetched responses of a topic, and of topics.
  abbrev pub authors : SR → ℕ → List ℕ
  authors rs i = map (λ r. r.author_id) (tr.find_many rs (is_on i))

  abbrev pub all_authors : SR → List Topic → List ℕ
  all_authors rs [] = []
  all_authors rs (t ∷ ts) = authors rs t.id ++ all_authors rs ts

module _ {ST : Type 0} ⦃tp : TopicTable ST⦄ where
  -- The loop over the sources.
  abbrev pub archive_all : ℕ → Text → List Topic → ST → ST
  archive_all now note [] s = s
  archive_all now note (t ∷ ts) s =
      archive_all now note ts (tp.update s t.id (merged_into now note t))

module _ {ST SR SM : Type 0} ⦃tp : TopicTable ST⦄ ⦃tr : ResponseTable SR⦄ ⦃tm : MergeTable SM⦄
    (now moderator_id : ℕ) (dto : MergeTopics) where
  abbrev move_responses : Exec (State ST SR SM) (Unit {0})
  move_responses s = (
    ok tt,
    record s {
      responses =
          tr.update_many s.responses (is_on_any dto.source_topic_ids)
            (move_to (some dto.target_topic_id));
    },
  )

  abbrev update_target : ℕ → ℕ → Exec (State ST SR SM) (Unit {0})
  update_target responses participants s = (
    ok tt,
    record s {
      topics = tp.update s.topics dto.target_topic_id (with_counts now responses participants);
    },
  )

  abbrev inserted_merge : Option (TopicMerge × SM) → Exec (State ST SR SM) (Unit {0})
  inserted_merge none s = (err unique_violation, s)
  inserted_merge (some (m, t)) s = (ok tt, record s { merges = t })

  abbrev archive_sources : Text → List Topic → Exec (State ST SR SM) (Unit {0})
  archive_sources note sources s =
      (ok tt, record s { topics = archive_all now note sources s.topics })

  -- The writes, from the fetched topics and the authors of their responses.
  abbrev pub write_merge : List Topic → Topic → List ℕ → List ℕ → Exec (State ST SR SM) (Unit {0})
  write_merge sources target source_authors target_authors = do
    move_responses
    update_target (target.response_count + response_total sources)
        (length (added_all (added_all source_authors []) (added_all target_authors [])))
    (λ s.
        inserted_merge
          (tm.create s.merges
            (new_merge now moderator_id dto sources (length (added_all source_authors []))))
          s)
    archive_sources (redirect_note target dto.merge_reason) sources

  -- The body of the transaction.
  unfoldable pub merge_fetched : Exec (State ST SR SM) (Unit {0})
  merge_fetched = do
    before ← gets (λ s. s)
    let ids = dto.source_topic_ids ++ dto.target_topic_id ∷ []
    let topics = tp.find_many before.topics (λ t. is_among ids t.id)
    guard (length topics == length ids) (not_found Entity.topic)
    let sources = filter (λ t. is_among dto.source_topic_ids t.id) topics
    target ← require (find (λ t. t.id == dto.target_topic_id) topics) (not_found Entity.topic)
    guard (not (any (λ t. same_status t.status TopicStatus.locked) sources))
        (bad_request Cause.source_locked)
    write_merge sources target (all_authors before.responses sources)
        (authors before.responses target.id)

  unfoldable pub merge_topics : Exec (State ST SR SM) (Unit {0})
  unfolding merge_fetched
  merge_topics = do
    guard (not (is_among dto.source_topic_ids dto.target_topic_id))
        (bad_request Cause.target_among_sources)
    transaction merge_fetched
