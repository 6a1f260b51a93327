-- ===== src/Discussions/Examples.antt =====
-- Discussions in memory, and the theorems at concrete inputs.
use reasonbridge.Prelude.{◌≡◌, refl, true, false, some, none, List, [], ◌∷◌, Text, text}
use reasonbridge.Database.Memory.{memory}
use reasonbridge.Citations.{UrlApi, Network}
use reasonbridge.Topics.{TopicStatus}
use reasonbridge.Responses.{
  Response, Discussion, Citation, ParticipantActivity, State, ResponseTable, DiscussionTable,
  CitationTable, ActivityTable, response_key, discussion_key, citation_key, activity_key,
  same_activity,
}
use reasonbridge.Responses.Service.{
  validate_all, create_response_for_discussion, reply_to_response, store_response,
  calculate_thread_depth, depth_from,
}
use reasonbridge.Responses.Depth.{IsThreaded}
use reasonbridge.Discussions.{
  User, Topic, UserTable, TopicTable, user_key, topic_key, CreateDiscussion, DeletionType,
  create_discussion, store_discussion, soft_delete,
}
use reasonbridge.Discussions.Opening.{IsOpening, create_discussion-IsOpening}
use reasonbridge.Discussions.Soundness.{IsSound}
use reasonbridge.Discussions.Runs.{Operation, perform, perform_all, perform_all-IsSound}
use reasonbridge.Discussions.Deletion.{soft_delete-IsThreaded}
use reasonbridge.Exec.{ok}

instance abbrev response_memory : ResponseTable (List Response)
response_memory = memory response_key (λ _ _. false)

instance abbrev discussion_memory : DiscussionTable (List Discussion)
discussion_memory = memory discussion_key (λ _ _. false)

instance abbrev citation_memory : CitationTable (List Citation)
citation_memory = memory citation_key (λ _ _. false)

instance abbrev activity_memory : ActivityTable (List ParticipantActivity)
activity_memory = memory activity_key same_activity

instance abbrev user_memory : UserTable (List User)
user_memory = memory user_key (λ _ _. false)

instance abbrev topic_memory : TopicTable (List Topic)
topic_memory = memory topic_key (λ _ _. false)

abbrev Memory : Type 0
Memory = State (List Response) (List Discussion) (List Citation) (List ParticipantActivity)

abbrev any_host : UrlApi Text
any_host = record {
  parse = λ t. some t;
  copy = λ u. u;
  protocol = λ u. text "https:";
  hostname = λ u. u;
  href = λ u. u;
  set_hostname = λ h u. h;
  set_hash = λ h u. u;
}

abbrev no_network : Network
no_network = record { is_ip = λ h. 0; resolve = λ h. none }

abbrev empty : Memory
empty = record { responses = []; discussions = []; citations = []; activities = [] }

abbrev users : List User
users = record { id = 5; email_verified = true } ∷ []

abbrev topics : List Topic
topics = record { id = 9; status = TopicStatus.active } ∷ []

abbrev opening : CreateDiscussion
opening = record { topic_id = 9; title = text "Opening"; content = text "First"; citations = [] }

unfolded : Unit {0}
unfolding perform_all perform create_discussion store_discussion create_response_for_discussion
    store_response validate_all reply_to_response calculate_thread_depth depth_from soft_delete
unfolded = tt

-- User 5 opens a discussion and user 6 answers the first response.
abbrev requests : List Operation
requests = Operation.open_discussion 100 5 opening ∷ Operation.reply 200 0 6 (text "Second") [] ∷ []

abbrev after : Memory
after = perform_all users topics any_host no_network requests empty

abbrev without_reply : List Response
without_reply = (soft_delete 300 1 after.responses).1

discussion_tests :
    ((soft_delete 300 0 after.responses).0 ≡ ok DeletionType.soft)
    × ((soft_delete 300 1 after.responses).0 ≡ ok DeletionType.hard)
    × ((soft_delete 300 0 without_reply).1 ≡ [])
unfolding unfolded
discussion_tests = (refl, refl, refl)

empty-IsSound : IsSound empty
empty-IsSound = record {
  consistent = record {
    threaded = tt;
    discussions = λ i. refl;
    distinct = tt;
    activities = λ i u. refl;
  };
  no_strays = λ i _. (refl, refl);
}

after-IsThreaded : IsThreaded after.responses
unfolding unfolded
after-IsThreaded = (refl, (_, refl), (refl, tt, tt))

create_discussion-IsOpening_example :
    IsOpening 100 5 opening empty users topics
      (create_discussion users topics any_host no_network 100 5 opening empty)
create_discussion-IsOpening_example =
    create_discussion-IsOpening 100 5 opening empty users topics any_host no_network

perform_all-IsSound_example : IsSound after
perform_all-IsSound_example =
    perform_all-IsSound users topics any_host no_network requests empty empty-IsSound

soft_delete-IsThreaded_example : IsThreaded (soft_delete 300 0 after.responses).1
soft_delete-IsThreaded_example = soft_delete-IsThreaded 300 0 after.responses after-IsThreaded
