-- ===== src/Topics/Merge/Examples.antt =====
-- Two topics with a response each, merged in memory, and the theorems at concrete inputs.
use reasonbridge.Prelude.{arith, ℕ, ◌≡◌, refl, false, some, none, List, [], ◌∷◌, map, text}
use reasonbridge.Exec.{err, not_found, bad_request, Entity, Cause}
use reasonbridge.Database.Memory.{memory}
use reasonbridge.Topics.{
  TopicStatus, TopicVisibility, Topic, Response, TopicMerge, State, TopicTable, ResponseTable,
  MergeTable, topic_key, response_key, merge_key,
}
use reasonbridge.Topics.Merge.{MergeTopics, merge_topics, merge_fetched}
use reasonbridge.Topics.Merge.Rows.{HasCounts}
use reasonbridge.Topics.Merge.Counts.{
  TargetIfOk, merge_topics-target_counted, MovedIfOk, merge_topics-moved,
}
use reasonbridge.Topics.Merge.Undone.{IsKept, merge_topics-IsKept}
use reasonbridge.Topics.Merge.Participants.{ParticipantsIfOk, merge_topics-participants}

instance abbrev topic_memory : TopicTable (List Topic)
topic_memory = memory topic_key (λ _ _. false)

instance abbrev response_memory : ResponseTable (List Response)
response_memory = memory response_key (λ _ _. false)

instance abbrev merge_memory : MergeTable (List TopicMerge)
merge_memory = memory merge_key (λ _ _. false)

abbrev Memory : Type 0
Memory = State (List Topic) (List Response) (List TopicMerge)

abbrev topic : ℕ → Topic
topic id = record {
  id = id;
  title = text "Topic";
  description = text "Topic";
  creator_id = 7;
  status = TopicStatus.active;
  visibility = TopicVisibility.everyone;
  slug = text "topic";
  participant_count = 1;
  response_count = 1;
  created_at = 5;
  last_activity_at = 5;
  activated_at = some 5;
  archived_at = none;
  locked_at = none;
}

-- The same user has answered in both topics.
abbrev before : Memory
before = record {
  topics = topic 1 ∷ topic 2 ∷ [];
  responses =
      record { id = 0; topic_id = 1; author_id = 8; created_at = 20 }
      ∷ record { id = 1; topic_id = 2; author_id = 8; created_at = 30 }
      ∷ [];
  merges = [];
}

abbrev request : List ℕ → MergeTopics
request sources = record {
  source_topic_ids = sources;
  target_topic_id = 2;
  merge_reason = text "The same question twice";
}

unfolded : Unit {0}
unfolding merge_topics merge_fetched
unfolded = tt

abbrev after : Memory
after = (merge_topics 50 9 (request (1 ∷ [])) before).1

merge_tests :
    (map (λ t. t.response_count) after.topics ≡ 1 ∷ 2 ∷ [])
    × (map (λ t. t.participant_count) after.topics ≡ 1 ∷ 1 ∷ [])
    × (map (λ r. r.topic_id) after.responses ≡ 2 ∷ 2 ∷ [])
    × ((merge_topics 50 9 (request (2 ∷ [])) before).0
        ≡ err (bad_request Cause.target_among_sources))
    × ((merge_topics 50 9 (request (1 ∷ 1 ∷ [])) before).0 ≡ err (not_found Entity.topic))
unfolding unfolded
merge_tests = (refl, refl, refl, refl, refl)

before-HasCounts : HasCounts before.topics before.responses
before-HasCounts = record {
  distinct = (refl, (refl, tt));
  stored = ((topic 1, refl), ((topic 2, refl), tt));
  counts = (refl, (refl, tt));
}

merge_topics-moved_example :
    MovedIfOk 50 9 (request (1 ∷ [])) before (merge_topics 50 9 (request (1 ∷ [])) before)
merge_topics-moved_example = merge_topics-moved 50 9 (request (1 ∷ [])) before

merge_topics-target_counted_example :
    TargetIfOk 50 9 (request (1 ∷ [])) before (merge_topics 50 9 (request (1 ∷ [])) before)
merge_topics-target_counted_example =
    merge_topics-target_counted 50 9 (request (1 ∷ [])) before before-HasCounts

merge_topics-participants_example :
    ParticipantsIfOk 50 9 (request (1 ∷ [])) before (merge_topics 50 9 (request (1 ∷ [])) before)
merge_topics-participants_example =
    merge_topics-participants 50 9 (request (1 ∷ [])) before before-HasCounts

merge_topics-IsKept_example :
    IsKept 50 9
      (request (1 ∷ []))
      before
      0
      (record { id = 0; topic_id = 1; author_id = 8; created_at = 20 })
      (merge_topics 50 9 (request (1 ∷ [])) before)
merge_topics-IsKept_example =
    merge_topics-IsKept 50 9 (request (1 ∷ [])) before 0
      (record { id = 0; topic_id = 1; author_id = 8; created_at = 20 }) refl refl (omega arith)
