-- ===== src/Responses.antt =====
-- services/discussion-service/src/responses/responses.service.ts: the responses of a discussion
-- (Service), the depth of a thread (Depth), the counters (Metrics) and the tree of replies (Tree).
-- The times of one call are one parameter. Foreign keys and the logger are left out.
pub mod Service
pub mod Depth
pub mod Replies
pub mod Metrics
pub mod Tree
mod Examples
use reasonbridge.Prelude.{ℕ, ◌+◌, Bool, true, false, ◌&&◌, Option, none, some, List, ◌==◌, Text}
use reasonbridge.Database.{Table}

pub data DiscussionStatus : Type 0 where
  active archived deleted : DiscussionStatus

pub data CitationStatus : Type 0 where
  active broken unverified : CitationStatus

-- The columns of a response that the methods of a discussion read or write.
pub record Response : Type 0 where
  pub id : ℕ
  pub topic_id : ℕ
  pub discussion_id : Option ℕ
  pub author_id : ℕ
  pub parent_id : Option ℕ
  pub content : Text
  pub version : ℕ
  pub edit_count : ℕ
  pub cited_sources : Option (List Text)
  pub deleted_at : Option ℕ

pub record Discussion : Type 0 where
  pub id : ℕ
  pub topic_id : ℕ
  pub creator_id : ℕ
  pub title : Text
  pub status : DiscussionStatus
  pub response_count : ℕ
  pub participant_count : ℕ
  pub last_activity_at : ℕ

pub record Citation : Type 0 where
  pub id : ℕ
  pub response_id : ℕ
  pub original_url : Text
  pub normalized_url : Text
  pub title : Option Text
  pub resolved_ip : Option Text
  pub validation_status : CitationStatus

pub record ParticipantActivity : Type 0 where
  pub id : ℕ
  pub discussion_id : ℕ
  pub user_id : ℕ
  pub response_count : ℕ
  pub last_contribution_at : ℕ

abbrev pub response_key : Response → ℕ
response_key r = r.id

abbrev pub discussion_key : Discussion → ℕ
discussion_key d = d.id

abbrev pub citation_key : Citation → ℕ
citation_key c = c.id

abbrev pub activity_key : ParticipantActivity → ℕ
activity_key a = a.id

-- `where: { discussionId_userId: { … } }`
abbrev pub is_activity_of : ℕ → ℕ → ParticipantActivity → Bool
is_activity_of discussion_id user_id a = a.discussion_id == discussion_id && a.user_id == user_id

-- `@@unique([discussionId, userId])`
abbrev pub same_activity : ParticipantActivity → ParticipantActivity → Bool
same_activity a b = is_activity_of a.discussion_id a.user_id b

abbrev pub ResponseTable : Type 0 → Type 0
ResponseTable S = Table S Response response_key (λ _ _. false)

abbrev pub DiscussionTable : Type 0 → Type 0
DiscussionTable S = Table S Discussion discussion_key (λ _ _. false)

abbrev pub CitationTable : Type 0 → Type 0
CitationTable S = Table S Citation citation_key (λ _ _. false)

abbrev pub ActivityTable : Type 0 → Type 0
ActivityTable S = Table S ParticipantActivity activity_key same_activity

pub record State (SR SD SC SA : Type 0) : Type 0 where
  pub responses : SR
  pub discussions : SD
  pub citations : SC
  pub activities : SA

pub record CitationInput : Type 0 where
  pub url : Text
  pub title : Option Text

-- `CreateResponseDto`, as far as the method reads it.
pub record CreateResponse : Type 0 where
  pub discussion_id : ℕ
  pub content : Text
  pub parent_response_id : Option ℕ
  pub citations : List CitationInput

-- An element of `validatedCitations`.
pub record ValidatedCitation : Type 0 where
  pub original_url : Text
  pub normalized_url : Text
  pub title : Option Text
  pub resolved_ip : Option Text

abbrev pub is_active : DiscussionStatus → Bool
is_active DiscussionStatus.active = true
is_active _ = false
