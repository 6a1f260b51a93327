-- ===== src/Responses/Metrics/Posting.antt =====
-- What one call of `createResponseForDiscussion` leaves in the tables.
use reasonbridge.Prelude.{
  ℕ, ◌≡◌, refl, sym, ◌∙◌, Bool, true, Option, none, some, List, [], ◌∷◌, length, count, leb, ◌==◌,
  Bool-cases, Option-cases, inl, inr, ◌⊎◌,
}
use mathlib.Core.Path.{subst}
use reasonbridge.Exec.{
  Result, ok, err, Error, Entity, Cause, not_found, bad_request, unique_violation,
  transaction-cases,
}
use reasonbridge.Database.{modify_first, count-and_true}
use reasonbridge.Database.Evolution.{find_key}
use reasonbridge.Citations.{UrlApi, Network}
use reasonbridge.Responses.{
  Response, Discussion, ParticipantActivity, State, CreateResponse, ValidatedCitation,
  ResponseTable, DiscussionTable, CitationTable, ActivityTable, is_active, is_activity_of,
  discussion_key, activity_key,
}
use reasonbridge.Responses.Service.{
  new_response, new_activity, new_citation, contributed, with_metrics, is_in_discussion, is_none,
  validate_all, create_citations, track, check_parent, store_response,
  create_response_for_discussion,
}
use reasonbridge.Responses.Depth.{find_response, IsStored}

abbrev pub is_active_in : ℕ → ParticipantActivity → Bool
is_active_in i a = a.discussion_id == i

-- The activities of the user are the ones before with the new contribution.
abbrev pub IsContribution :
    ℕ → ℕ → ℕ → Option ParticipantActivity → (before after : List ParticipantActivity) → Type 0
IsContribution now i user_id none before after =
    (id : ℕ) × (after ≡ new_activity i user_id now id ∷ before)
    × (find_key activity_key id before ≡ none)
IsContribution now i user_id (some a) before after =
    after ≡ modify_first (λ x. activity_key x == a.id) (contributed now) before

module _ {SR SD SC SA : Type 0} ⦃tr : ResponseTable SR⦄ ⦃td : DiscussionTable SD⦄
    ⦃tc : CitationTable SC⦄ ⦃ta : ActivityTable SA⦄ (now user_id : ℕ) (dto : CreateResponse)
    (s : State SR SD SC SA) where
  -- A response is stored: the rows of the tables after the call.
  pub record IsWritten (topic_id : ℕ) (r : Response) (t : State SR SD SC SA) : Type 0 where
    pub id : ℕ
    pub made : r ≡ new_response topic_id user_id dto id
    pub fresh : find_response id (tr.rows s.responses) ≡ none
    pub responses : tr.rows t.responses ≡ r ∷ tr.rows s.responses
    pub activities :
        IsContribution now dto.discussion_id user_id
          (ta.find_unique_by s.activities (is_activity_of dto.discussion_id user_id))
          (ta.rows s.activities)
          (ta.rows t.activities)
    pub discussions :
        td.rows t.discussions
        ≡ modify_first
            (λ x. discussion_key x == dto.discussion_id)
            (with_metrics (count (is_active_in dto.discussion_id) (ta.rows t.activities)) now)
            (td.rows s.discussions)

  abbrev pub WrittenIfOk : ℕ → Result Response → State SR SD SC SA → Type 0
  WrittenIfOk topic_id (ok r) t = IsWritten topic_id r t
  WrittenIfOk topic_id (err e) t = Unit {0}

module _ {SA : Type 0} ⦃ta : ActivityTable SA⦄ where
  participants :
      (s : SA) (i : ℕ)
      → count (λ _. true) (ta.find_many s (is_active_in i)) ≡ count (is_active_in i) (ta.rows s)
  participants s i =
      ta.count-find_many s (is_active_in i) (λ _. true)
      ∙ count-and_true (is_active_in i) (ta.rows s)

module _ {SR SD SC SA : Type 0} ⦃tr : ResponseTable SR⦄ ⦃td : DiscussionTable SD⦄
    ⦃tc : CitationTable SC⦄ ⦃ta : ActivityTable SA⦄ where
  pub create_citations-cases :
      (i : ℕ) (cs : List ValidatedCitation) (s : State SR SD SC SA)
      → ((e : Error) × (t : State SR SD SC SA) × (create_citations i cs s ≡ (err e, t)))
        ⊎ ((c : SC) × (create_citations i cs s ≡ (ok tt, record s { citations = c })))
  create_citations-cases i [] s = inr (s.citations, refl)
  create_citations-cases i (c ∷ cs) s =
      elim (Option-cases (tc.create s.citations (new_citation i c))) [
        | inl e ↦ inl (unique_violation, s, rw (e, create_citations) refl)
        | inr ((x, t), e) ↦
            rw (e, create_citations) (create_citations-cases i cs (record s { citations = t }))
      ]

  track-cases :
      (now i u : ℕ) (o : Option ParticipantActivity) (s : State SR SD SC SA)
      → ((e : Error) × (t : State SR SD SC SA) × (track now i u o s ≡ (err e, t)))
        ⊎ ((a : SA) × (track now i u o s ≡ (ok tt, record s { activities = a }))
            × IsContribution now i u o (ta.rows s.activities) (ta.rows a))
  track-cases now i u (some a) s = inr (_, refl, rw ta.rows-update refl)
  track-cases now i u none s = elim (Option-cases (ta.create s.activities (new_activity i u now))) [
    | inl e ↦ inl (unique_violation, s, rw e refl)
    | inr ((x, t), e) ↦
        let (id, made, fresh, _, held) = ta.create-some s.activities _ e in
        inr (t, rw e refl, (id, held ∙ rw made refl, fresh))
  ]

  store_response-IsWritten :
      (now user_id topic_id : ℕ) (dto : CreateResponse) (citations : List ValidatedCitation)
      (s : State SR SD SC SA)
      → WrittenIfOk now user_id dto s topic_id
          (store_response now topic_id user_id dto citations s).0
          (store_response now topic_id user_id dto citations s).1
  unfolding store_response
  store_response-IsWritten now user_id topic_id dto citations s =
      elim (Option-cases (tr.create s.responses (new_response topic_id user_id dto))) [
        | inl e ↦ rw e tt
        | inr ((r, rt), e) ↦
            let (id, made, fresh, _, held) = tr.create-some s.responses _ e in
            let s1 : State SR SD SC SA = record s { responses = rt } in
            rw e (elim (create_citations-cases r.id citations s1) [
              | inl (e2, t, h) ↦ rw h tt
              | inr (c, h) ↦
                  let s2 : State SR SD SC SA = record s1 { citations = c } in
                  rw h
                    (elim (track-cases now dto.discussion_id user_id
                      (ta.find_unique_by s.activities (is_activity_of dto.discussion_id user_id))
                      s2) [
                        | inl (e3, t, k) ↦ rw k tt
                        | inr (a, k, contribution) ↦ rw k (record {
                          id = id;
                          made = made;
                          fresh = fresh;
                          responses = held;
                          activities = contribution;
                          discussions = rw (td.rows-update, participants a dto.discussion_id) refl;
                        })
                      ])
            ])
      ]

  check_parent-cases :
      (i : ℕ) (o : Option ℕ) (s : State SR SD SC SA)
      → ((e : Error) × (check_parent i o s ≡ (err e, s)))
        ⊎ ((check_parent i o s ≡ (ok tt, s)) × IsStored o (tr.rows s.responses))
  check_parent-cases i none s = inr (refl, tt)
  check_parent-cases i (some p) s = elim (Option-cases (tr.find_unique s.responses p)) [
    | inl e ↦ inl (not_found Entity.response, rw e refl)
    | inr (q, e) ↦ elim (Bool-cases (is_in_discussion i q.discussion_id)) [
      | inr b ↦ inl (bad_request Cause.parent_elsewhere, rw (e, b) refl)
      | inl b ↦ elim (Bool-cases (is_none q.deleted_at)) [
        | inr c ↦ inl (bad_request Cause.parent_deleted, rw (e, b, c) refl)
        | inl c ↦ inr (rw (e, b, c) refl, (q, sym (tr.find_unique-eq s.responses p) ∙ e))
      ]
    ]
  ]

module _ {SR SD SC SA : Type 0} ⦃tr : ResponseTable SR⦄ ⦃td : DiscussionTable SD⦄
    ⦃tc : CitationTable SC⦄ ⦃ta : ActivityTable SA⦄ (now user_id : ℕ) (dto : CreateResponse)
    (s : State SR SD SC SA) where
  pub record IsPosted (r : Response) (t : State SR SD SC SA) : Type 0 where
    pub discussion : Discussion
    pub found : td.find_unique s.discussions dto.discussion_id ≡ some discussion
    pub is_open : is_active discussion.status ≡ true
    pub parent : IsStored dto.parent_response_id (tr.rows s.responses)
    pub written : IsWritten now user_id dto s discussion.topic_id r t

  -- An error changes no table.
  abbrev pub IsPosting : Result Response × State SR SD SC SA → Type 0
  IsPosting (ok r, t) = IsPosted r t
  IsPosting (err e, t) = t ≡ s

  module _ {U : Type 0} (url : UrlApi U) (net : Network) where
    -- A call that throws leaves every table as it was. A call that returns was for an active discussion
    -- and, if it names a parent, for a stored one; it stores the response, one contribution of the user
    -- and the discussion's counters.
    pub create_response_for_discussion-IsPosting :
        IsPosting (create_response_for_discussion url net now user_id dto s)
    unfolding create_response_for_discussion
    create_response_for_discussion-IsPosting =
        elim (Option-cases (td.find_unique s.discussions dto.discussion_id)) [
          | inl e ↦ rw e refl
          | inr (d, e) ↦ elim (Bool-cases (is_active d.status)) [
            | inr b ↦ rw (e, b) refl
            | inl b ↦ elim (check_parent-cases dto.discussion_id dto.parent_response_id s) [
              | inl (x, h) ↦ rw (e, b, h) refl
              | inr (h, parent) ↦ elim (Bool-cases (leb (length dto.citations) 10)) [
                | inr l ↦ rw (e, b, h, l) refl
                | inl l ↦ elim (Option-cases (validate_all url net dto.citations)) [
                  | inl v ↦ rw (e, b, h, l, v) refl
                  | inr (cs, v) ↦
                      elim (transaction-cases (store_response now d.topic_id user_id dto cs) s) [
                        | inl (x, k) ↦ rw (e, b, h, l, v, k) refl
                        | inr (r, m, k) ↦
                            rw (e, b, h, l, v, k)
                              (record {
                                discussion = d;
                                found = e;
                                is_open = b;
                                parent = parent;
                                written =
                                    subst
                                      (λ q.
                                        WrittenIfOk now user_id dto s d.topic_id q
                                          (store_response now d.topic_id user_id dto cs s).1)
                                      m (store_response-IsWritten now user_id d.topic_id dto cs s);
                              })
                      ]
                ]
              ]
            ]
          ]
        ]
