-- ===== src/Discussions/Runs.antt =====
-- Any requests that open discussions, respond and reply, one after another.
use reasonbridge.Prelude.{ℕ, List, [], ◌∷◌, Text}
use reasonbridge.Exec.{Result, ok, err}
use reasonbridge.Citations.{UrlApi, Network}
use reasonbridge.Responses.{
  Discussion, State, CreateResponse, CitationInput, ResponseTable, DiscussionTable, CitationTable,
  ActivityTable,
}
use reasonbridge.Responses.Service.{create_response_for_discussion, reply_to_response}
use reasonbridge.Discussions.{UserTable, TopicTable, CreateDiscussion, create_discussion}
use reasonbridge.Discussions.Opening.{IsOpening, create_discussion-IsOpening}
use reasonbridge.Discussions.Soundness.{IsSound, started-IsSound, post-IsSound, reply-IsSound}

-- A request, with its time, its user and its parameters.
pub data Operation : Type 0 where
  open_discussion : (now user_id : ℕ) → CreateDiscussion → Operation
  post : (now user_id : ℕ) → CreateResponse → Operation
  reply : (now parent_response_id user_id : ℕ) → Text → List CitationInput → Operation

module _ {SR SD SC SA SU ST U : Type 0} ⦃tr : ResponseTable SR⦄ ⦃td : DiscussionTable SD⦄
    ⦃tc : CitationTable SC⦄ ⦃ta : ActivityTable SA⦄ ⦃tu : UserTable SU⦄ ⦃tp : TopicTable ST⦄
    (users : SU) (topics : ST) (url : UrlApi U) (net : Network) where
  unfoldable pub perform : Operation → State SR SD SC SA → State SR SD SC SA
  perform (open_discussion now user_id dto) s =
      (create_discussion users topics url net now user_id dto s).1
  perform (post now user_id dto) s = (create_response_for_discussion url net now user_id dto s).1
  perform (reply now parent user_id content citations) s =
      (reply_to_response url net now parent user_id content citations s).1

  unfoldable pub perform_all : List Operation → State SR SD SC SA → State SR SD SC SA
  perform_all [] s = s
  perform_all (o ∷ os) s = perform_all os (perform o s)

  opening-IsSound :
      (now u : ℕ) (dto : CreateDiscussion) (s : State SR SD SC SA)
      (x : Result Discussion × State SR SD SC SA)
      → IsOpening now u dto s users topics x
      → IsSound s
      → IsSound x.1
  opening-IsSound now u dto s (err e, t) same h = rw same h
  opening-IsSound now u dto s (ok d, t) opened h = started-IsSound now u dto s t d opened.started h

  perform-IsSound : (o : Operation) (s : State SR SD SC SA) → IsSound s → IsSound (perform o s)
  unfolding perform
  perform-IsSound (open_discussion now u dto) s h =
      opening-IsSound now u dto s (create_discussion users topics url net now u dto s)
        (create_discussion-IsOpening now u dto s users topics url net) h
  perform-IsSound (post now u dto) s h = post-IsSound url net now u dto s h
  perform-IsSound (reply now p u content citations) s h =
      reply-IsSound url net now p u content citations s h

  -- From a sound state, the empty one for instance, any requests that open discussions, respond and
  -- reply, returning or throwing, lead to a sound state: every parent was stored before its replies,
  -- every discussion counts its responses and its participants, every participant's activity counts the
  -- responses of that user in the discussion, and every response of a discussion has it stored.
  pub perform_all-IsSound :
      (os : List Operation) (s : State SR SD SC SA) → IsSound s → IsSound (perform_all os s)
  unfolding perform_all
  perform_all-IsSound [] s h = h
  perform_all-IsSound (o ∷ os) s h = perform_all-IsSound os (perform o s) (perform-IsSound o s h)
