-- ===== src/Topics/Edits/Examples.antt =====
-- A topic in memory, updated twice, and the theorem at a concrete input.
use reasonbridge.Prelude.{ℕ, ◌≡◌, refl, false, some, none, List, [], ◌∷◌, map, length, text, Text}
use reasonbridge.Exec.{err, bad_request, Cause}
use reasonbridge.Database.Memory.{memory}
use reasonbridge.Topics.{TopicStatus, TopicVisibility, Topic, TopicTable, topic_key}
use reasonbridge.Topics.Edits.{TopicEdit, EditTable, EditState, UpdateTopic, edit_key, update_topic}
use reasonbridge.Topics.Edits.History.{Request, original, perform_all, original-perform_all}

instance abbrev topic_memory : TopicTable (List Topic)
topic_memory = memory topic_key (λ _ _. false)

instance abbrev edit_memory : EditTable (List TopicEdit)
edit_memory = memory edit_key (λ _ _. false)

abbrev Memory : Type 0
Memory = EditState (List Topic) (List TopicEdit)

abbrev before : Memory
before = record {
  topics =
      record {
        id = 1;
        title = text "Trains";
        description = text "Are trains cheap?";
        creator_id = 7;
        status = TopicStatus.active;
        visibility = TopicVisibility.everyone;
        slug = text "trains";
        participant_count = 0;
        response_count = 0;
        created_at = 5;
        last_activity_at = 5;
        activated_at = some 5;
        archived_at = none;
        locked_at = none;
      }
      ∷ [];
  edits = [];
}

abbrev retitle : Text → UpdateTopic
retitle title = record {
  title = some title;
  description = none;
  visibility = none;
  edit_reason = none;
  flag_for_review = false;
}

abbrev request : ℕ → UpdateTopic → Request
request now dto = record { now = now; topic_id = 1; user_id = 7; dto = dto; is_moderator = false }

abbrev requests : List Request
requests = request 10 (retitle (text "Railways")) ∷ request 20 (retitle (text "Rail")) ∷ []

-- The second title stands, and a request that changes nothing leaves a record as well.
edit_tests :
    (map (λ t. t.title) (perform_all (λ t. t) requests before).topics ≡ text "Rail" ∷ [])
    × (length (perform_all (λ t. t) requests before).edits ≡ 2)
    × (length (perform_all (λ t. t) (request 10 (retitle (text "Trains")) ∷ []) before).edits ≡ 1)
    × ((update_topic (λ t. t) 90000000 1 7 (retitle (text "Rail")) false before).0
        ≡ err (bad_request Cause.reason_required))
unfolding update_topic
edit_tests = (refl, refl, refl, refl)

original-perform_all_example : original 1 (perform_all (λ t. t) requests before) ≡ original 1 before
original-perform_all_example = original-perform_all (λ t. t) requests 1 before
