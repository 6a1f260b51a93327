-- ===== src/Discussions/Soundness.antt =====
-- The threads and the counters over any requests that open discussions, respond and reply.
use reasonbridge.Prelude.{
  ℕ, ◌≤◌, ◌≡◌, ◌≢◌, refl, sym, ap, ◌∙◌, none, some, List, [], ◌∷◌, arith, count, find, ltb, ◌==◌,
  Bool-cases, Option-cases, inl, inr, Text,
}
use reasonbridge.Exec.{Result, ok, err}
use reasonbridge.Database.{modify_first, find_key-modify_first, find_key-modify_first_other, mapped}
use reasonbridge.Database.Evolution.{find_key}
use reasonbridge.Citations.{UrlApi, Network}
use reasonbridge.Responses.{
  Response, Discussion, ParticipantActivity, State, CreateResponse, CitationInput, ResponseTable,
  DiscussionTable, CitationTable, ActivityTable, is_activity_of, discussion_key,
}
use reasonbridge.Responses.Service.{
  new_activity, with_metrics, is_none, calculate_thread_depth, create_response_for_discussion,
  reply_to_response,
}
use reasonbridge.Responses.Metrics.Posting.{
  is_active_in, IsPosted, IsPosting, create_response_for_discussion-IsPosting,
}
use reasonbridge.Responses.Metrics.Contributions.{is_in, is_by, IsTracked, contribution-count}
use reasonbridge.Responses.Metrics.Counters.{
  IsCounted, counted-eq, counted-other, IsConsistent, posting-IsConsistent, added_of,
}
use reasonbridge.Discussions.{CreateDiscussion, new_discussion, initial_response}
use reasonbridge.Discussions.Opening.{IsStarted}

-- No response and no activity is of a discussion that is not stored.
abbrev pub HasNoStrays : List Discussion → List Response → List ParticipantActivity → Type 0
HasNoStrays ds rs acts =
    (i : ℕ)
    → find_key discussion_key i ds ≡ none
    → (count (is_in i) rs ≡ 0) × (count (is_active_in i) acts ≡ 0)

by-le-in : (i u : ℕ) (rs : List Response) → count (is_by i u) rs ≤ count (is_in i) rs
by-le-in i u [] = omega arith
by-le-in i u (r ∷ rs) = ground (arith, by-le-in i u rs)

module _ (now u i j k : ℕ) (dto : CreateDiscussion) (ds : List Discussion) (rs : List Response)
    (acts : List ParticipantActivity) (fresh : find_key discussion_key i ds ≡ none)
    (no_strays : HasNoStrays ds rs acts) where
  abbrev opened : Discussion
  opened = new_discussion now u dto i

  abbrev first_response : Response
  first_response = initial_response u dto i j

  abbrev first_activity : ParticipantActivity
  first_activity = new_activity i u now k

  opening-IsCounted :
      IsCounted ds rs acts → IsCounted (opened ∷ ds) (first_response ∷ rs) (first_activity ∷ acts)
  opening-IsCounted h x = elim (Bool-cases (i == x)) [
    | inl t ↦
        let (responses, participants) = no_strays i fresh in
        rw t (
          ap some (
            counted-eq (first_response ∷ rs) (first_activity ∷ acts) opened (ground arith)
              (ground arith)))
    | inr t ↦
        let other : i ≢ x = ground arith in
        rw t (elim (Option-cases (find_key discussion_key x ds)) [
          | inl missing ↦ rw missing refl
          | inr (d, held) ↦ rw held (
              counted-other now i ds first_response rs acts (first_activity ∷ acts) refl h x d other
                (rw t (omega arith)) held)
        ])
  ]

  opening-IsTracked : IsTracked rs acts → IsTracked (first_response ∷ rs) (first_activity ∷ acts)
  opening-IsTracked h x v = elim (Bool-cases (i == x)) [
    | inl t ↦
        let same : i ≡ x = ground arith in
        let none_yet : count (is_in x) rs ≡ 0 = rw (sym same) ((no_strays i fresh).0) in
        let none_by : count (is_by x v) rs ≡ 0 = omega (arith, by-le-in x v rs) in
        elim (Bool-cases (u == v)) [
          | inl w ↦ rw (t, w) (omega arith)
          | inr w ↦ rw (t, w) (omega (arith, h x v))
        ]
    | inr t ↦ rw t (omega (arith, h x v))
  ]

  opening-HasNoStrays : HasNoStrays (opened ∷ ds) (first_response ∷ rs) (first_activity ∷ acts)
  opening-HasNoStrays x missing = elim (Bool-cases (i == x)) [
    | inl t ↦ absurd (ground arith)
    | inr t ↦
        let (responses, participants) = no_strays x (rw t at missing) in
        rw t (omega (arith, responses), omega (arith, participants))
  ]

module _ {SR SD SC SA : Type 0} ⦃tr : ResponseTable SR⦄ ⦃td : DiscussionTable SD⦄
    ⦃tc : CitationTable SC⦄ ⦃ta : ActivityTable SA⦄ where
  -- The threads and the counters are consistent, and no response or activity is without a discussion.
  pub record IsSound (s : State SR SD SC SA) : Type 0 where
    pub consistent : IsConsistent s
    pub no_strays : HasNoStrays (td.rows s.discussions) (tr.rows s.responses) (ta.rows s.activities)

  pub started-IsSound :
      (now u : ℕ) (dto : CreateDiscussion) (s t : State SR SD SC SA) (d : Discussion)
      → IsStarted now u dto s d t
      → IsSound s
      → IsSound t
  started-IsSound now u dto s t d w h =
      let ds = td.rows s.discussions in
      let rs = tr.rows s.responses in
      let acts = ta.rows s.activities in
      let c = h.consistent in
      record {
        consistent = record {
          threaded = rw w.responses (w.fresh_response, tt, c.threaded);
          discussions =
              rw (w.discussions, w.responses, w.activities)
                (opening-IsCounted now u w.id w.response_id w.activity_id dto ds rs acts w.fresh
                  h.no_strays c.discussions);
          distinct = rw w.activities (w.fresh_activity, c.distinct);
          activities =
              rw (w.responses, w.activities)
                (opening-IsTracked now u w.id w.response_id w.activity_id dto ds rs acts w.fresh
                  h.no_strays c.activities);
        };
        no_strays =
            rw (w.discussions, w.responses, w.activities)
              (opening-HasNoStrays now u w.id w.response_id w.activity_id dto ds rs acts w.fresh
                h.no_strays);
      }

  posted-HasNoStrays :
      (now u : ℕ) (dto : CreateResponse) (s t : State SR SD SC SA) (r : Response)
      → IsPosted now u dto s r t
      → HasNoStrays (td.rows s.discussions) (tr.rows s.responses) (ta.rows s.activities)
      → HasNoStrays (td.rows t.discussions) (tr.rows t.responses) (ta.rows t.activities)
  posted-HasNoStrays now u dto s t r posted h x missing =
      let w = posted.written in
      let i = dto.discussion_id in
      let ds = td.rows s.discussions in
      let d = posted.discussion in
      let f = with_metrics (count (is_active_in i) (ta.rows t.activities)) now in
      let found : find_key discussion_key i ds ≡ some d =
        sym (td.find_unique-eq s.discussions i) ∙ posted.found in
      let absent : find_key discussion_key x (modify_first (λ y. discussion_key y == i) f ds)
          ≡ none =
        rw w.discussions at missing in
      elim (Bool-cases (i == x)) [
        | inl e ↦
            let same : i ≡ x = ground arith in
            let held : find_key discussion_key x (modify_first (λ y. discussion_key y == i) f ds)
                ≡ some (f d) =
              rw (sym same)
                (find_key-modify_first discussion_key f (λ y. refl) i ds ∙ ap (mapped f) found) in
            let clash : none ≡ some (f d) = sym absent ∙ held in absurd (ground arith)
        | inr e ↦
            let other : i ≢ x = ground arith in
            let before : find_key discussion_key x ds ≡ none =
              sym (find_key-modify_first_other discussion_key f (λ y. refl) i x ds other)
              ∙ absent in
            let (responses, participants) = h x before in
            let kept =
              contribution-count now i u (find (is_activity_of i u) (ta.rows s.activities))
                (ta.rows s.activities) (ta.rows t.activities) x (added_of now u dto s r t posted)
                other in
            (rw (w.responses, w.made) (rw e (omega (arith, responses))), kept ∙ participants)
      ]

  posting-IsSound :
      (now u : ℕ) (dto : CreateResponse) (s : State SR SD SC SA)
      (x : Result Response × State SR SD SC SA)
      → IsPosting now u dto s x
      → IsSound s
      → IsSound x.1
  posting-IsSound now u dto s (err e, t) same h = rw same h
  posting-IsSound now u dto s (ok r, t) posted h = record {
    consistent = posting-IsConsistent now u dto s (ok r, t) posted h.consistent;
    no_strays = posted-HasNoStrays now u dto s t r posted h.no_strays;
  }

  module _ {U : Type 0} (url : UrlApi U) (net : Network) where
    pub post-IsSound :
        (now u : ℕ) (dto : CreateResponse) (s : State SR SD SC SA)
        → IsSound s
        → IsSound (create_response_for_discussion url net now u dto s).1
    post-IsSound now u dto s h =
        posting-IsSound now u dto s (create_response_for_discussion url net now u dto s)
          (create_response_for_discussion-IsPosting now u dto s url net) h

    pub reply-IsSound :
        (now p u : ℕ) (content : Text) (citations : List CitationInput) (s : State SR SD SC SA)
        → IsSound s
        → IsSound (reply_to_response url net now p u content citations s).1
    unfolding reply_to_response
    reply-IsSound now p u content citations s h =
        elim (Option-cases (tr.find_unique s.responses p)) [
          | inl e ↦ rw e h
          | inr (q, e) ↦ elim (Bool-cases (is_none q.deleted_at)) [
            | inr b ↦ rw (e, b) h
            | inl b ↦ elim (Option-cases q.discussion_id) [
              | inl n ↦ rw (e, b, n) h
              | inr (i, n) ↦ elim (Option-cases (calculate_thread_depth p s.responses)) [
                | inl c ↦ rw (e, b, n, c) h
                | inr (d, c) ↦ elim (Bool-cases (ltb d 10)) [
                  | inr l ↦ rw (e, b, n, c, l) h
                  | inl l ↦
                      let dto : CreateResponse = record {
                        discussion_id = i;
                        content = content;
                        parent_response_id = some p;
                        citations = citations;
                      } in
                      rw (e, b, n, c, l) (post-IsSound now u dto s h)
                ]
              ]
            ]
          ]
        ]
