-- ===== src/Responses/Replies.antt =====
-- `replyToResponse` and the limit of the depth of a thread.
use reasonbridge.Prelude.{
  ℕ, suc, ◌≤◌, ◌<◌, ◌≡◌, refl, some, List, ◌∷◌, arith, ltb, Bool-cases, Option-cases, inl, inr,
  Text,
}
use reasonbridge.Exec.{Result, ok, err}
use reasonbridge.Citations.{UrlApi, Network}
use reasonbridge.Responses.{
  Response, State, CreateResponse, CitationInput, ResponseTable, DiscussionTable, CitationTable,
  ActivityTable,
}
use reasonbridge.Responses.Service.{
  is_none, calculate_thread_depth, create_response_for_discussion, reply_to_response,
}
use reasonbridge.Responses.Depth.{IsThreaded, reply-depth}
use reasonbridge.Responses.Metrics.Posting.{IsPosting, create_response_for_discussion-IsPosting}

module _ {SR SD SC SA : Type 0} ⦃tr : ResponseTable SR⦄ ⦃td : DiscussionTable SD⦄
    ⦃tc : CitationTable SC⦄ ⦃ta : ActivityTable SA⦄ where
  -- A reply that is stored is at most ten levels below the top of its thread; an error changes no table.
  abbrev pub IsReply : State SR SD SC SA → Result Response × State SR SD SC SA → Type 0
  IsReply s (ok r, t) = (d : ℕ) × (calculate_thread_depth r.id t.responses ≡ some d) × d ≤ 10
  IsReply s (err e, t) = t ≡ s

  posting-IsReply :
      (now user_id : ℕ) (dto : CreateResponse) (s : State SR SD SC SA) (p d : ℕ)
      (x : Result Response × State SR SD SC SA)
      → IsPosting now user_id dto s x
      → IsThreaded (tr.rows s.responses)
      → dto.parent_response_id ≡ some p
      → calculate_thread_depth p s.responses ≡ some d
      → d < 10
      → IsReply s x
  posting-IsReply now user_id dto s p d (err e, t) same h named counted below = same
  posting-IsReply now user_id dto s p d (ok r, t) posted h named counted below =
      let w = posted.written in
      let threaded : IsThreaded (r ∷ tr.rows s.responses) = rw w.made (w.fresh, posted.parent, h) in
      let parent : r.parent_id ≡ some p = rw w.made named in
      (
        suc d,
        reply-depth s.responses t.responses r p d w.responses threaded parent counted,
        omega arith,
      )

  module _ {U : Type 0} (url : UrlApi U) (net : Network) where
    -- Where every parent was stored before its replies, a call that returns stores a reply at most ten
    -- levels below the top of its thread, and a call that throws leaves every table as it was.
    pub reply_to_response-IsReply :
        (now parent_response_id user_id : ℕ) (content : Text) (citations : List CitationInput)
        (s : State SR SD SC SA)
        → IsThreaded (tr.rows s.responses)
        → IsReply s (reply_to_response url net now parent_response_id user_id content citations s)
    unfolding reply_to_response
    reply_to_response-IsReply now p u content citations s h =
        elim (Option-cases (tr.find_unique s.responses p)) [
          | inl e ↦ rw e refl
          | inr (q, e) ↦ elim (Bool-cases (is_none q.deleted_at)) [
            | inr b ↦ rw (e, b) refl
            | inl b ↦ elim (Option-cases q.discussion_id) [
              | inl n ↦ rw (e, b, n) refl
              | inr (i, n) ↦ elim (Option-cases (calculate_thread_depth p s.responses)) [
                | inl c ↦ rw (e, b, n, c) refl
                | inr (d, c) ↦ elim (Bool-cases (ltb d 10)) [
                  | inr l ↦ rw (e, b, n, c, l) refl
                  | inl l ↦
                      let dto : CreateResponse = record {
                        discussion_id = i;
                        content = content;
                        parent_response_id = some p;
                        citations = citations;
                      } in
                      rw (e, b, n, c, l)
                        (posting-IsReply now u dto s p d
                          (create_response_for_discussion url net now u dto s)
                          (create_response_for_discussion-IsPosting now u dto s url net) h refl c
                          (ground arith))
                ]
              ]
            ]
          ]
        ]
