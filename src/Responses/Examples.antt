-- ===== src/Responses/Examples.antt =====
-- A discussion in memory with a response and a reply, and the theorems at concrete inputs.
use reasonbridge.Prelude.{
  ℕ, ◌≡◌, ◌≤◌, refl, false, some, none, List, [], ◌∷◌, arith, length, Text, text, filter, ◌&&◌,
}
use reasonbridge.Database.Memory.{memory}
use reasonbridge.Citations.{UrlApi, Network}
use reasonbridge.Responses.{
  Response, Discussion, DiscussionStatus, Citation, ParticipantActivity, State, CreateResponse,
  ResponseTable, DiscussionTable, CitationTable, ActivityTable, response_key, discussion_key,
  citation_key, activity_key, same_activity,
}
use reasonbridge.Responses.Service.{
  depth_from, calculate_thread_depth, validate_all, store_response, create_response_for_discussion,
  reply_to_response,
}
use reasonbridge.Responses.Depth.{IsThreaded, calculate_thread_depth-ends}
use reasonbridge.Responses.Replies.{IsReply, reply_to_response-IsReply}
use reasonbridge.Responses.Metrics.Posting.{IsPosting, create_response_for_discussion-IsPosting}
use reasonbridge.Responses.Metrics.Counters.{IsConsistent}
use reasonbridge.Responses.Tree.{build_thread_tree}
use reasonbridge.Responses.Tree.Placement.{
  ids, is_root, is_id_in, is_reply_to, replies_of, build_thread_tree-placement,
}

instance abbrev response_memory : ResponseTable (List Response)
response_memory = memory response_key (λ _ _. false)

instance abbrev discussion_memory : DiscussionTable (List Discussion)
discussion_memory = memory discussion_key (λ _ _. false)

instance abbrev citation_memory : CitationTable (List Citation)
citation_memory = memory citation_key (λ _ _. false)

instance abbrev activity_memory : ActivityTable (List ParticipantActivity)
activity_memory = memory activity_key same_activity

abbrev Memory : Type 0
Memory = State (List Response) (List Discussion) (List Citation) (List ParticipantActivity)

abbrev any_host : UrlApi Text
any_host = record {
  parse = λ t. some t;
  copy = λ u. u;
  protocol = λ u. text "https:";
  hostname = λ u. u;
  href = λ u. u;
  set_hostname = λ h u. h;
  set_hash = λ h u. u;
}

abbrev no_network : Network
no_network = record { is_ip = λ h. 0; resolve = λ h. none }

abbrev discussion : Discussion
discussion = record {
  id = 3;
  topic_id = 9;
  creator_id = 5;
  title = text "Opening";
  status = DiscussionStatus.active;
  response_count = 0;
  participant_count = 0;
  last_activity_at = 0;
}

abbrev empty : Memory
empty = record { responses = []; discussions = discussion ∷ []; citations = []; activities = [] }

abbrev opening : CreateResponse
opening = record {
  discussion_id = 3;
  content = text "First";
  parent_response_id = none;
  citations = [];
}

opened : Unit {0}
unfolding create_response_for_discussion store_response validate_all reply_to_response
    calculate_thread_depth depth_from build_thread_tree
opened = tt

-- The state after a first response of user 5.
abbrev after_opening : Memory
after_opening = (create_response_for_discussion any_host no_network 100 5 opening empty).1

response_tests :
    (after_opening.discussions
      ≡ record discussion { response_count = 1; participant_count = 1; last_activity_at = 100 }
        ∷ [])
    × (calculate_thread_depth 0 after_opening.responses ≡ some 0)
    × (ids
          (reply_to_response any_host no_network 200 0 6
            (text "Second")
            []
            after_opening).1.responses
        ≡ 1 ∷ 0 ∷ [])
unfolding opened
response_tests = (refl, refl, refl)

empty-IsConsistent : IsConsistent empty
empty-IsConsistent = record {
  threaded = tt;
  discussions = λ i. ground arith;
  distinct = tt;
  activities = λ i u. refl;
}

after_opening-IsThreaded : IsThreaded after_opening.responses
unfolding opened
after_opening-IsThreaded = (refl, tt, tt)

calculate_thread_depth-ends_example :
    (d : ℕ) × (calculate_thread_depth 0 after_opening.responses ≡ some d)
    × d ≤ length after_opening.responses
calculate_thread_depth-ends_example =
    calculate_thread_depth-ends after_opening.responses 0 after_opening-IsThreaded

create_response_for_discussion-IsPosting_example :
    IsPosting 100 5 opening empty
      (create_response_for_discussion any_host no_network 100 5 opening empty)
create_response_for_discussion-IsPosting_example =
    create_response_for_discussion-IsPosting 100 5 opening empty any_host no_network

reply_to_response-IsReply_example :
    IsReply after_opening
      (reply_to_response any_host no_network 200 0 6 (text "Second") [] after_opening)
reply_to_response-IsReply_example =
    reply_to_response-IsReply any_host no_network 200 0 6 (text "Second") [] after_opening
      after_opening-IsThreaded

-- The responses after a reply, oldest first.
abbrev thread : List Response
thread =
    record {
      id = 0;
      topic_id = 9;
      discussion_id = some 3;
      author_id = 5;
      parent_id = none;
      content = text "First";
      version = 1;
      edit_count = 0;
      cited_sources = none;
      deleted_at = none;
    }
    ∷ record {
      id = 1;
      topic_id = 9;
      discussion_id = some 3;
      author_id = 6;
      parent_id = some 0;
      content = text "Second";
      version = 1;
      edit_count = 0;
      cited_sources = none;
      deleted_at = none;
    }
    ∷ []

build_thread_tree-placement_example :
    ((build_thread_tree thread).roots
      ≡ ids (filter (λ r. is_root (is_id_in thread) r.parent_id) thread))
    × (replies_of 0 (build_thread_tree thread)
        ≡ ids (filter (λ r. is_reply_to 0 r && is_id_in thread 0) thread))
build_thread_tree-placement_example = build_thread_tree-placement thread 0
