-- ===== src/Discussions.antt =====
-- services/discussion-service/src/discussions/discussions.service.ts, `createDiscussion`, on the tables
-- of Responses, and src/prisma/extensions/soft-delete.ts of the same service. The checks of the citations
-- are those of `createResponseForDiscussion`, and stand twice in the source. What the database deletes
-- with a row is left out.
pub mod Opening
pub mod Soundness
pub mod Runs
pub mod Deletion
mod Examples
use reasonbridge.Prelude.{
  ℕ, ◌≡◌, Bool, true, false, ◌||◌, ◌==◌, ltb, Option, none, some, List, [], ◌∷◌, count,
  if◌then◌else◌, Text, text,
}
use reasonbridge.Exec.{
  Exec, Result, ok, err, Entity, Cause, not_found, bad_request, forbidden, unique_violation, pure,
  gets, guard, require, transaction, ◌>>=◌, ◌>>◌,
}
use reasonbridge.Database.{Table}
use reasonbridge.Citations.{UrlApi, Network}
use reasonbridge.Topics.{TopicStatus, same_status}
use reasonbridge.Responses.{
  Response, Discussion, DiscussionStatus, State, CitationInput, ValidatedCitation, ResponseTable,
  DiscussionTable, CitationTable, ActivityTable,
}
use reasonbridge.Responses.Service.{
  new_activity, create_response, create_citations, inserted_activity, check_citations, validate_all,
}

-- The columns of a user and of a topic that `createDiscussion` reads.
pub record User : Type 0 where
  pub id : ℕ
  pub email_verified : Bool

pub record Topic : Type 0 where
  pub id : ℕ
  pub status : TopicStatus

abbrev pub user_key : User → ℕ
user_key u = u.id

abbrev pub topic_key : Topic → ℕ
topic_key t = t.id

abbrev pub UserTable : Type 0 → Type 0
UserTable S = Table S User user_key (λ _ _. false)

abbrev pub TopicTable : Type 0 → Type 0
TopicTable S = Table S Topic topic_key (λ _ _. false)

-- `CreateDiscussionDto` with its `InitialResponseDto`.
pub record CreateDiscussion : Type 0 where
  pub topic_id : ℕ
  pub title : Text
  pub content : Text
  pub citations : List CitationInput

abbrev pub new_discussion : ℕ → ℕ → CreateDiscussion → ℕ → Discussion
new_discussion now user_id dto id = record {
  id = id;
  topic_id = dto.topic_id;
  creator_id = user_id;
  title = dto.title;
  status = DiscussionStatus.active;
  response_count = 1;
  participant_count = 1;
  last_activity_at = now;
}

abbrev pub initial_response : ℕ → CreateDiscussion → ℕ → ℕ → Response
initial_response user_id dto discussion_id id = record {
  id = id;
  topic_id = dto.topic_id;
  discussion_id = some discussion_id;
  author_id = user_id;
  parent_id = none;
  content = dto.content;
  version = 1;
  edit_count = 0;
  cited_sources = none;
  deleted_at = none;
}

abbrev pub is_open_topic : TopicStatus → Bool
is_open_topic status =
    same_status status TopicStatus.active || same_status status TopicStatus.seeding

module _ {SR SD SC SA : Type 0} ⦃tr : ResponseTable SR⦄ ⦃td : DiscussionTable SD⦄
    ⦃tc : CitationTable SC⦄ ⦃ta : ActivityTable SA⦄ where
  abbrev inserted_discussion : Option (Discussion × SD) → Exec (State SR SD SC SA) Discussion
  inserted_discussion none s = (err unique_violation, s)
  inserted_discussion (some (d, t)) s = (ok d, record s { discussions = t })

  -- The body of the transaction.
  unfoldable pub store_discussion :
      ℕ → ℕ → CreateDiscussion → List ValidatedCitation → Exec (State SR SD SC SA) Discussion
  store_discussion now user_id dto citations = do
    discussion ←
        (λ s. inserted_discussion (td.create s.discussions (new_discussion now user_id dto)) s)
    response ← create_response (initial_response user_id dto discussion.id)
    create_citations response.id citations
    (λ s. inserted_activity (ta.create s.activities (new_activity discussion.id user_id now)) s)
    pure discussion

  -- The users and the topics are only read.
  module _ {SU ST : Type 0} ⦃tu : UserTable SU⦄ ⦃tp : TopicTable ST⦄ (users : SU) (topics : ST)
      {U : Type 0} (url : UrlApi U) (net : Network) where
    unfoldable pub create_discussion :
        ℕ → ℕ → CreateDiscussion → Exec (State SR SD SC SA) Discussion
    unfolding store_discussion validate_all
    create_discussion now user_id dto = do
      user ← require (tu.find_unique users user_id) (not_found Entity.user)
      guard user.email_verified forbidden
      topic ← require (tp.find_unique topics dto.topic_id) (not_found Entity.topic)
      guard (is_open_topic topic.status) (bad_request Cause.topic_not_active)
      citations ← check_citations url net dto.citations
      transaction (store_discussion now user_id dto citations)

pub data DeletionType : Type 0 where
  soft hard : DeletionType

abbrev pub names_parent : ℕ → Option ℕ → Bool
names_parent id none = false
names_parent id (some p) = p == id

abbrev pub is_reply_to : ℕ → Response → Bool
is_reply_to id r = names_parent id r.parent_id

abbrev pub blanked : ℕ → Response → Response
blanked now r = record r {
  deleted_at = some now;
  content = text "[deleted by author]";
  cited_sources = none;
}

module _ {SR : Type 0} ⦃tr : ResponseTable SR⦄ where
  -- `_count: { replies }` counts every stored reply.
  abbrev pub reply_count : ℕ → SR → ℕ
  reply_count id s = count (λ _. true) (tr.find_many s (is_reply_to id))

  abbrev delete_found : ℕ → Response → Exec SR DeletionType
  delete_found now r s =
      if ltb 0 (reply_count r.id s)
      then (ok DeletionType.soft, tr.update s r.id (blanked now))
      else (ok DeletionType.hard, tr.delete s r.id)

  unfoldable pub soft_delete : ℕ → ℕ → Exec SR DeletionType
  soft_delete now id = do
    found ← gets (λ s. tr.find_unique s id)
    response ← require found (not_found Entity.response)
    delete_found now response
