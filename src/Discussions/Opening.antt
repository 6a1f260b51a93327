-- ===== src/Discussions/Opening.antt =====
-- What one call of `createDiscussion` leaves in the tables.
use reasonbridge.Prelude.{
  ℕ, ◌≡◌, refl, ◌∙◌, true, none, some, List, ◌∷◌, length, leb, Bool-cases, Option-cases, inl, inr,
}
use mathlib.Core.Path.{subst}
use reasonbridge.Exec.{Result, ok, err, transaction-cases}
use reasonbridge.Database.Evolution.{find_key}
use reasonbridge.Citations.{UrlApi, Network}
use reasonbridge.Responses.{
  Discussion, State, ValidatedCitation, ResponseTable, DiscussionTable, CitationTable,
  ActivityTable, discussion_key, response_key, activity_key,
}
use reasonbridge.Responses.Service.{new_activity, validate_all}
use reasonbridge.Responses.Metrics.Posting.{create_citations-cases}
use reasonbridge.Discussions.{
  User, Topic, UserTable, TopicTable, CreateDiscussion, new_discussion, initial_response,
  is_open_topic, store_discussion, create_discussion,
}

module _ {SR SD SC SA : Type 0} ⦃tr : ResponseTable SR⦄ ⦃td : DiscussionTable SD⦄
    ⦃tc : CitationTable SC⦄ ⦃ta : ActivityTable SA⦄ (now user_id : ℕ) (dto : CreateDiscussion)
    (s : State SR SD SC SA) where
  -- A discussion, its first response and the activity of its creator are stored.
  pub record IsStarted (d : Discussion) (t : State SR SD SC SA) : Type 0 where
    pub id : ℕ
    pub response_id : ℕ
    pub activity_id : ℕ
    pub made : d ≡ new_discussion now user_id dto id
    pub fresh : find_key discussion_key id (td.rows s.discussions) ≡ none
    pub fresh_response : find_key response_key response_id (tr.rows s.responses) ≡ none
    pub fresh_activity : find_key activity_key activity_id (ta.rows s.activities) ≡ none
    pub discussions :
        td.rows t.discussions ≡ new_discussion now user_id dto id ∷ td.rows s.discussions
    pub responses :
        tr.rows t.responses ≡ initial_response user_id dto id response_id ∷ tr.rows s.responses
    pub activities :
        ta.rows t.activities ≡ new_activity id user_id now activity_id ∷ ta.rows s.activities

  abbrev pub StartedIfOk : Result Discussion → State SR SD SC SA → Type 0
  StartedIfOk (ok d) t = IsStarted d t
  StartedIfOk (err e) t = Unit {0}

  store_discussion-IsStarted :
      (citations : List ValidatedCitation)
      → StartedIfOk
          (store_discussion now user_id dto citations s).0
          (store_discussion now user_id dto citations s).1
  unfolding store_discussion
  store_discussion-IsStarted citations =
      elim (Option-cases (td.create s.discussions (new_discussion now user_id dto))) [
        | inl e ↦ rw e tt
        | inr ((d, dt), e) ↦
            let (i, made, fresh, _, held) =
              td.create-some s.discussions (new_discussion now user_id dto) e in
            let mk = initial_response user_id dto d.id in
            rw e (elim (Option-cases (tr.create s.responses mk)) [
              | inl e2 ↦ rw e2 tt
              | inr ((r, rt), e2) ↦
                  let (j, made_r, fresh_r, _, held_r) = tr.create-some s.responses mk e2 in
                  let s2 : State SR SD SC SA = record s { discussions = dt; responses = rt } in
                  rw e2 (elim (create_citations-cases r.id citations s2) [
                    | inl (x, t, h) ↦ rw h tt
                    | inr (c, h) ↦
                        rw h
                          (elim (Option-cases
                            (ta.create s.activities (new_activity d.id user_id now))) [
                              | inl e3 ↦ rw e3 tt
                              | inr ((a, at), e3) ↦
                                  let (k, made_a, fresh_a, _, held_a) =
                                    ta.create-some s.activities (new_activity d.id user_id now)
                                      e3 in
                                  rw e3 (record {
                                    id = i;
                                    response_id = j;
                                    activity_id = k;
                                    made = made;
                                    fresh = fresh;
                                    fresh_response = fresh_r;
                                    fresh_activity = fresh_a;
                                    discussions = held ∙ rw made refl;
                                    responses = held_r ∙ rw made_r (rw made refl);
                                    activities = held_a ∙ rw made_a (rw made refl);
                                  })
                            ])
                  ])
            ])
      ]

  module _ {SU ST : Type 0} ⦃tu : UserTable SU⦄ ⦃tp : TopicTable ST⦄ (users : SU)
      (topics : ST) where
    pub record IsOpened (d : Discussion) (t : State SR SD SC SA) : Type 0 where
      pub user : User
      pub topic : Topic
      pub has_user : tu.find_unique users user_id ≡ some user
      pub verified : user.email_verified ≡ true
      pub has_topic : tp.find_unique topics dto.topic_id ≡ some topic
      pub is_open : is_open_topic topic.status ≡ true
      pub started : IsStarted d t

    -- An error changes no table.
    abbrev pub IsOpening : Result Discussion × State SR SD SC SA → Type 0
    IsOpening (ok d, t) = IsOpened d t
    IsOpening (err e, t) = t ≡ s

    -- A call that throws leaves every table as it was. A call that returns was of a user with a verified
    -- address, for an active or seeding topic, and stores the discussion, its first response and the
    -- activity of its creator.
    pub create_discussion-IsOpening :
        {U : Type 0} (url : UrlApi U) (net : Network)
        → IsOpening (create_discussion users topics url net now user_id dto s)
    unfolding create_discussion
    create_discussion-IsOpening url net = elim (Option-cases (tu.find_unique users user_id)) [
      | inl e ↦ rw e refl
      | inr (u, e) ↦ elim (Bool-cases u.email_verified) [
        | inr v ↦ rw (e, v) refl
        | inl v ↦ elim (Option-cases (tp.find_unique topics dto.topic_id)) [
          | inl f ↦ rw (e, v, f) refl
          | inr (p, f) ↦ elim (Bool-cases (is_open_topic p.status)) [
            | inr o ↦ rw (e, v, f, o) refl
            | inl o ↦ elim (Bool-cases (leb (length dto.citations) 10)) [
              | inr l ↦ rw (e, v, f, o, l) refl
              | inl l ↦ elim (Option-cases (validate_all url net dto.citations)) [
                | inl c ↦ rw (e, v, f, o, l, c) refl
                | inr (cs, c) ↦ elim (transaction-cases (store_discussion now user_id dto cs) s) [
                  | inl (x, k) ↦ rw (e, v, f, o, l, c, k) refl
                  | inr (d, m, k) ↦
                      rw (e, v, f, o, l, c, k)
                        (record {
                          user = u;
                          topic = p;
                          has_user = e;
                          verified = v;
                          has_topic = f;
                          is_open = o;
                          started =
                              subst (λ q. StartedIfOk q (store_discussion now user_id dto cs s).1) m
                                (store_discussion-IsStarted cs);
                        })
                ]
              ]
            ]
          ]
        ]
      ]
    ]
