-- ===== src/Topics/Examples.antt =====
-- A topic, a response and a merge in memory, and the theorems at concrete inputs.
use reasonbridge.Prelude.{◌≡◌, refl, false, some, none, List, [], ◌∷◌, text, Text, ℕ, true}
use reasonbridge.Exec.{type_error, ok, err, bad_request, Cause}
use reasonbridge.Database.Memory.{memory}
use reasonbridge.Database.Evolution.{find_key}
use reasonbridge.Topics.{
  Cache, TopicStatus, TopicVisibility, Topic, Response, TopicMerge, State, TopicTable,
  ResponseTable, MergeTable, topic_key, response_key, merge_key, with_status, update_topic_status,
  rollback_topic_merge,
}
use reasonbridge.Topics.Status.{IsChange, update_topic_status-IsChange}

instance abbrev topic_memory : TopicTable (List Topic)
topic_memory = memory topic_key (λ _ _. false)

instance abbrev response_memory : ResponseTable (List Response)
response_memory = memory response_key (λ _ _. false)

instance abbrev merge_memory : MergeTable (List TopicMerge)
merge_memory = memory merge_key (λ _ _. false)

abbrev Memory : Type 0
Memory = State (List Topic) (List Response) (List TopicMerge)

abbrev source : Topic
source = record {
  id = 1;
  title = text "Topic";
  description = text "Merged";
  creator_id = 7;
  status = TopicStatus.archived;
  visibility = TopicVisibility.everyone;
  slug = text "topic";
  participant_count = 1;
  response_count = 1;
  created_at = 5;
  last_activity_at = 50;
  activated_at = some 10;
  archived_at = some 50;
  locked_at = none;
}

-- A response that the merge at time 50 moved from topic 1 to topic 2.
abbrev moved : Response
moved = record { id = 0; topic_id = 2; author_id = 8; created_at = 20 }

abbrev merge : TopicMerge
merge = record {
  id = 3;
  source_topic_ids = 1 ∷ [];
  target_topic_id = 2;
  moderator_id = 9;
  merge_reason = text "The same question twice";
  snapshots =
      record {
        id = 1;
        title = text "Topic";
        description = text "Topic";
        status = TopicStatus.active;
        visibility = TopicVisibility.everyone;
        slug = text "topic";
        creator_id = 7;
        participant_count = 1;
        response_count = 1;
        created_at = 5;
      }
      ∷ [];
  responses_moved = 1;
  participants_merged = 1;
  merged_at = 50;
  rolled_back_at = none;
  rollback_reason = none;
}

abbrev merged : Memory
merged = record { topics = source ∷ []; responses = moved ∷ []; merges = merge ∷ [] }

-- A cache whose keys are texts, and one whose keys are the indices of an array.
abbrev caches : Cache Text
caches = record {
  del_list = ok tt;
  keys = text "topics:list" ∷ [];
  includes = λ k i. some false;
  del = λ k. ok tt;
}

abbrev index_keys : Cache ℕ
index_keys = record { del_list = ok tt; keys = 0 ∷ []; includes = λ k i. none; del = λ k. ok tt }

opened : Unit {0}
unfolding update_topic_status rollback_topic_merge
opened = tt

topic_tests :
    ((update_topic_status caches 60 1 7 TopicStatus.active false merged).1.topics
      ≡ with_status 60 TopicStatus.active source ∷ [])
    × ((update_topic_status caches 60 1 7 TopicStatus.locked false merged).0
        ≡ err (bad_request Cause.cannot_lock))
    × (update_topic_status index_keys 60 1 7 TopicStatus.active false merged
        ≡ (err type_error, (update_topic_status caches 60 1 7 TopicStatus.active false merged).1))
    × ((rollback_topic_merge 60 3 (text "Undo") merged).0 ≡ ok tt)
unfolding opened
topic_tests = (refl, refl, refl, refl)

update_topic_status-IsChange_example :
    IsChange true 60 1 7 TopicStatus.active false merged
      (find_key topic_key 1 merged.topics)
      (update_topic_status caches 60 1 7 TopicStatus.active false merged)
update_topic_status-IsChange_example =
    update_topic_status-IsChange caches 60 1 7 TopicStatus.active false merged
