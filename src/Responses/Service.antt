-- ===== src/Responses/Service.antt =====
-- `createResponseForDiscussion`, `replyToResponse` and `calculateThreadDepth`.
use reasonbridge.Prelude.{
  ℕ, zero, suc, ◌+◌, Bool, true, false, Option, none, some, List, [], ◌∷◌, length, count, ltb, leb,
  ◌==◌, Text,
}
use reasonbridge.Exec.{
  Exec, ok, err, Entity, Cause, not_found, bad_request, unique_violation, unfinished, pure, gets,
  guard, require, transaction, ◌>>=◌, ◌>>◌,
}
use reasonbridge.Citations.{UrlApi, Network, ValidationResult, validate_citation_url}
use reasonbridge.Responses.{
  Response, Discussion, Citation, ParticipantActivity, State, CreateResponse, CitationInput,
  CitationStatus, ValidatedCitation, ResponseTable, DiscussionTable, CitationTable, ActivityTable,
  is_active, is_activity_of,
}

-- `x || null`
abbrev pub nonempty : Option Text → Option Text
nonempty (some (c ∷ t)) = some (c ∷ t)
nonempty _ = none

abbrev pub is_none {ℓ} : {A : Type ℓ} → Option A → Bool
is_none none = true
is_none (some a) = false

abbrev pub new_response : ℕ → ℕ → CreateResponse → ℕ → Response
new_response topic_id user_id dto id = record {
  id = id;
  topic_id = topic_id;
  discussion_id = some dto.discussion_id;
  author_id = user_id;
  parent_id = dto.parent_response_id;
  content = dto.content;
  version = 1;
  edit_count = 0;
  cited_sources = none;
  deleted_at = none;
}

abbrev pub new_citation : ℕ → ValidatedCitation → ℕ → Citation
new_citation response_id c id = record {
  id = id;
  response_id = response_id;
  original_url = c.original_url;
  normalized_url = c.normalized_url;
  title = c.title;
  resolved_ip = c.resolved_ip;
  validation_status = CitationStatus.unverified;
}

abbrev pub new_activity : ℕ → ℕ → ℕ → ℕ → ParticipantActivity
new_activity discussion_id user_id now id = record {
  id = id;
  discussion_id = discussion_id;
  user_id = user_id;
  response_count = 1;
  last_contribution_at = now;
}

abbrev pub contributed : ℕ → ParticipantActivity → ParticipantActivity
contributed now a = record a { response_count = a.response_count + 1; last_contribution_at = now }

abbrev pub with_metrics : ℕ → ℕ → Discussion → Discussion
with_metrics participant_count now d = record d {
  response_count = d.response_count + 1;
  participant_count = participant_count;
  last_activity_at = now;
}

abbrev pub is_in_discussion : ℕ → Option ℕ → Bool
is_in_discussion i none = false
is_in_discussion i (some d) = d == i

abbrev pub validated : Option Text → ValidationResult → ValidatedCitation
validated title v = record {
  original_url = v.original_url;
  normalized_url = v.normalized_url;
  title = nonempty title;
  resolved_ip = nonempty v.resolved_ip;
}

module _ {SR : Type 0} ⦃tr : ResponseTable SR⦄ where
  -- The rounds of the loop that are left are its fuel; `none` is a loop that is still running.
  unfoldable pub depth_from : (fuel depth : ℕ) → SR → ℕ → Option ℕ
  depth_from zero depth s current_id = none
  depth_from (suc fuel) depth s current_id = elim (tr.find_unique s current_id) [
    | none ↦ some depth
    | some response ↦ elim response.parent_id [
      | none ↦ some depth
      | some parent_id ↦ depth_from fuel (suc depth) s parent_id
    ]
  ]

  unfoldable pub calculate_thread_depth : ℕ → SR → Option ℕ
  unfolding depth_from
  calculate_thread_depth response_id s = depth_from (suc (length (tr.rows s))) 0 s response_id

module _ {SR SD SC SA : Type 0} ⦃tr : ResponseTable SR⦄ ⦃td : DiscussionTable SD⦄
    ⦃tc : CitationTable SC⦄ ⦃ta : ActivityTable SA⦄ where
  abbrev pub check_parent : ℕ → Option ℕ → Exec (State SR SD SC SA) (Unit {0})
  check_parent discussion_id none = pure tt
  check_parent discussion_id (some p) = do
    found ← gets (λ s. tr.find_unique s.responses p)
    parent ← require found (not_found Entity.response)
    guard (is_in_discussion discussion_id parent.discussion_id) (bad_request Cause.parent_elsewhere)
    guard (is_none parent.deleted_at) (bad_request Cause.parent_deleted)

  abbrev pub inserted_response : Option (Response × SR) → Exec (State SR SD SC SA) Response
  inserted_response none s = (err unique_violation, s)
  inserted_response (some (r, t)) s = (ok r, record s { responses = t })

  abbrev pub create_response : (ℕ → Response) → Exec (State SR SD SC SA) Response
  create_response mk s = inserted_response (tr.create s.responses mk) s

  -- `citation.createMany`
  abbrev pub create_citations : ℕ → List ValidatedCitation → Exec (State SR SD SC SA) (Unit {0})
  create_citations response_id [] s = (ok tt, s)
  create_citations response_id (c ∷ cs) s =
      elim (tc.create s.citations (new_citation response_id c)) [
        | none ↦ (err unique_violation, s)
        | some (_, t) ↦ create_citations response_id cs (record s { citations = t })
      ]

  abbrev pub inserted_activity :
      Option (ParticipantActivity × SA) → Exec (State SR SD SC SA) (Unit {0})
  inserted_activity none s = (err unique_violation, s)
  inserted_activity (some (_, t)) s = (ok tt, record s { activities = t })

  -- `ParticipantActivity`: updated where there is one, created where there is none.
  abbrev pub track : ℕ → ℕ → ℕ → Option ParticipantActivity → Exec (State SR SD SC SA) (Unit {0})
  track now discussion_id user_id (some a) s =
      (ok tt, record s { activities = ta.update s.activities a.id (contributed now) })
  track now discussion_id user_id none s =
      inserted_activity (ta.create s.activities (new_activity discussion_id user_id now)) s

  -- The participants are counted, and the discussion is updated.
  abbrev pub update_metrics : ℕ → ℕ → Exec (State SR SD SC SA) (Unit {0})
  update_metrics now i s =
      let participants = ta.find_many s.activities (λ a. a.discussion_id == i) in
      (
        ok tt,
        record s {
          discussions =
              td.update s.discussions i (with_metrics (count (λ _. true) participants) now);
        },
      )

  -- The body of the transaction.
  unfoldable pub store_response :
      ℕ → ℕ → ℕ → CreateResponse → List ValidatedCitation → Exec (State SR SD SC SA) Response
  store_response now topic_id user_id dto citations = do
    response ← create_response (new_response topic_id user_id dto)
    create_citations response.id citations
    existing ← gets (λ s. ta.find_unique_by s.activities (is_activity_of dto.discussion_id user_id))
    track now dto.discussion_id user_id existing
    update_metrics now dto.discussion_id
    pure response

module _ {U : Type 0} (url : UrlApi U) (net : Network) where
  -- The loop over the citations: `none` where one is not safe.
  unfoldable pub validate_all : List CitationInput → Option (List ValidatedCitation)
  validate_all [] = some []
  validate_all (c ∷ cs) =
      let v = validate_citation_url url net c.url in
      elim v.safe [
        | false ↦ none
        | true ↦ elim (validate_all cs) [ none ↦ none | some vs ↦ some (validated c.title v ∷ vs) ]
      ]

  module _ {SR SD SC SA : Type 0} ⦃tr : ResponseTable SR⦄ ⦃td : DiscussionTable SD⦄
      ⦃tc : CitationTable SC⦄ ⦃ta : ActivityTable SA⦄ where
    abbrev pub check_citations :
        List CitationInput → Exec (State SR SD SC SA) (List ValidatedCitation)
    check_citations citations = do
      guard (leb (length citations) 10) (bad_request Cause.too_many_citations)
      require (validate_all citations) (bad_request Cause.citation_blocked)

    unfoldable pub create_response_for_discussion :
        ℕ → ℕ → CreateResponse → Exec (State SR SD SC SA) Response
    unfolding store_response validate_all
    create_response_for_discussion now user_id dto = do
      found ← gets (λ s. td.find_unique s.discussions dto.discussion_id)
      discussion ← require found (not_found Entity.discussion)
      guard (is_active discussion.status) (bad_request Cause.discussion_not_active)
      check_parent dto.discussion_id dto.parent_response_id
      citations ← check_citations dto.citations
      transaction (store_response now discussion.topic_id user_id dto citations)

    unfoldable pub reply_to_response :
        ℕ → ℕ → ℕ → Text → List CitationInput → Exec (State SR SD SC SA) Response
    unfolding calculate_thread_depth create_response_for_discussion
    reply_to_response now parent_response_id user_id content citations = do
      found ← gets (λ s. tr.find_unique s.responses parent_response_id)
      parent ← require found (not_found Entity.response)
      guard (is_none parent.deleted_at) (bad_request Cause.parent_deleted)
      discussion_id ← require parent.discussion_id (bad_request Cause.parent_without_discussion)
      counted ← gets (λ s. calculate_thread_depth parent_response_id s.responses)
      depth ← require counted unfinished
      guard (ltb depth 10) (bad_request Cause.thread_too_deep)
      create_response_for_discussion now user_id (record {
        discussion_id = discussion_id;
        content = content;
        parent_response_id = some parent_response_id;
        citations = citations;
      })
