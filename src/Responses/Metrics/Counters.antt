-- ===== src/Responses/Metrics/Counters.antt =====
-- The invariant of the counters and of the threads.
use reasonbridge.Prelude.{
  ℕ, ◌+◌, ◌≡◌, ◌≢◌, refl, sym, ap, ◌∙◌, false, Option, some, List, ◌∷◌, arith, count, find, ◌==◌,
  Bool-cases, Option-cases, inl, inr,
}
use reasonbridge.Exec.{Result, ok, err}
use reasonbridge.Database.{
  modify_first, find-true, IsDistinct, mapped, find_key-modify_first, find_key-modify_first_other,
}
use reasonbridge.Database.Evolution.{find_key}
use reasonbridge.Citations.{UrlApi, Network}
use reasonbridge.Responses.{
  Response, Discussion, ParticipantActivity, State, CreateResponse, ResponseTable, DiscussionTable,
  CitationTable, ActivityTable, is_activity_of, discussion_key, activity_key,
}
use reasonbridge.Responses.Service.{with_metrics, create_response_for_discussion}
use reasonbridge.Responses.Depth.{IsThreaded}
use reasonbridge.Responses.Metrics.Posting.{
  is_active_in, IsContribution, IsPosted, IsPosting, create_response_for_discussion-IsPosting,
}
use reasonbridge.Responses.Metrics.Contributions.{
  is_in, IsTracked, contribution-tally, contribution-IsDistinct, contribution-count,
}

-- A discussion with the counts of its responses and of its participants.
abbrev pub counted : List Response → List ParticipantActivity → Discussion → Discussion
counted rs acts d = record d {
  response_count = count (is_in d.id) rs;
  participant_count = count (is_active_in d.id) acts;
}

abbrev pub IsCounted : List Discussion → List Response → List ParticipantActivity → Type 0
IsCounted ds rs acts =
    (i : ℕ) → find_key discussion_key i ds ≡ mapped (counted rs acts) (find_key discussion_key i ds)

-- A discussion whose counters are the given ones is the discussion with these counters.
pub counted-eq :
    (rs : List Response) (acts : List ParticipantActivity) (d : Discussion)
    → d.response_count ≡ count (is_in d.id) rs
    → d.participant_count ≡ count (is_active_in d.id) acts
    → d ≡ counted rs acts d
counted-eq rs acts d h k = rw (sym h, sym k) refl

some-counted :
    (rs : List Response) (acts : List ParticipantActivity) (d : Discussion)
    → some d ≡ some (counted rs acts d)
    → (d.response_count ≡ count (is_in d.id) rs)
      × (d.participant_count ≡ count (is_active_in d.id) acts)
some-counted rs acts d h =
    let same : d ≡ counted rs acts d = ground arith in
    (
      ap (λ (x : Discussion). x.response_count) same,
      ap (λ (x : Discussion). x.participant_count) same,
    )

module _ (now i : ℕ) (ds : List Discussion) (r : Response) (rs : List Response)
    (before after : List ParticipantActivity) (posted : r.discussion_id ≡ some i)
    (h : IsCounted ds rs before) where
  abbrev metrics : Discussion → Discussion
  metrics = with_metrics (count (is_active_in i) after) now

  counted-this :
      (d : Discussion)
      → find_key discussion_key i ds ≡ some d
      → some (metrics d) ≡ some (counted (r ∷ rs) after (metrics d))
  counted-this d found =
      let same : d.id ≡ i = ground (arith, find-true (λ x. discussion_key x == i) ds d found) in
      let now_counted = some-counted rs before d (rw found at (h i)) in
      let responses : d.response_count + 1 ≡ count (is_in d.id) (r ∷ rs) =
        rw posted (ground (arith, now_counted.0)) in
      let participants : count (is_active_in i) after ≡ count (is_active_in d.id) after =
        rw same refl in
      ap some (counted-eq (r ∷ rs) after (metrics d) responses participants)

  pub counted-other :
      (j : ℕ) (d : Discussion)
      → i ≢ j
      → count (is_active_in j) after ≡ count (is_active_in j) before
      → find_key discussion_key j ds ≡ some d
      → some d ≡ some (counted (r ∷ rs) after d)
  counted-other j d other kept found =
      let same : d.id ≡ j = ground (arith, find-true (λ x. discussion_key x == j) ds d found) in
      let now_counted = some-counted rs before d (rw found at (h j)) in
      let elsewhere : is_in j r ≡ false = rw posted (ground arith) in
      let responses : d.response_count ≡ count (is_in d.id) (r ∷ rs) =
        rw (same, elsewhere) (omega (arith, rw same at now_counted.0)) in
      let participants : d.participant_count ≡ count (is_active_in d.id) after =
        now_counted.1 ∙ rw same (sym kept) in
      ap some (counted-eq (r ∷ rs) after d responses participants)

  IsCounted-step :
      (d : Discussion)
      → find_key discussion_key i ds ≡ some d
      → ((j : ℕ) → i ≢ j → count (is_active_in j) after ≡ count (is_active_in j) before)
      → IsCounted (modify_first (λ x. discussion_key x == i) metrics ds) (r ∷ rs) after
  IsCounted-step d found kept j = elim (Bool-cases (i == j)) [
    | inl t ↦
        let same : i ≡ j = ground arith in
        let changed = find_key-modify_first discussion_key metrics (λ x. refl) i ds in
        rw (sym same) (rw (changed, found) (counted-this d found))
    | inr t ↦
        let other : i ≢ j = ground arith in
        let unchanged =
          find_key-modify_first_other discussion_key metrics (λ x. refl) i j ds other in
        rw unchanged (elim (Option-cases (find_key discussion_key j ds)) [
          | inl missing ↦ rw missing refl
          | inr (x, held) ↦ rw held (counted-other j x other (kept j other) held)
        ])
  ]

module _ {SR SD SC SA : Type 0} ⦃tr : ResponseTable SR⦄ ⦃td : DiscussionTable SD⦄
    ⦃tc : CitationTable SC⦄ ⦃ta : ActivityTable SA⦄ where
  -- Parents are stored before their replies; every discussion counts its responses and its participants;
  -- every activity counts the responses of its user in its discussion.
  pub record IsConsistent (s : State SR SD SC SA) : Type 0 where
    pub threaded : IsThreaded (tr.rows s.responses)
    pub discussions : IsCounted (td.rows s.discussions) (tr.rows s.responses) (ta.rows s.activities)
    pub distinct : IsDistinct activity_key (ta.rows s.activities)
    pub activities : IsTracked (tr.rows s.responses) (ta.rows s.activities)

  module _ (now user_id : ℕ) (dto : CreateResponse) (s : State SR SD SC SA) where
    abbrev contribution_of : Option ParticipantActivity
    contribution_of = find (is_activity_of dto.discussion_id user_id) (ta.rows s.activities)

    pub added_of :
        (r : Response) (t : State SR SD SC SA)
        → IsPosted now user_id dto s r t
        → IsContribution now dto.discussion_id user_id contribution_of
            (ta.rows s.activities)
            (ta.rows t.activities)
    added_of r t posted =
        rw (ta.find_unique_by-eq s.activities (is_activity_of dto.discussion_id user_id)) at
          (posted.written.activities)

    written-IsThreaded :
        (r : Response) (t : State SR SD SC SA)
        → IsThreaded (tr.rows s.responses)
        → IsPosted now user_id dto s r t
        → IsThreaded (tr.rows t.responses)
    written-IsThreaded r t h posted =
        let w = posted.written in rw (w.responses) (rw (w.made) (w.fresh, posted.parent, h))

    written-IsTracked :
        (r : Response) (t : State SR SD SC SA)
        → IsConsistent s
        → IsPosted now user_id dto s r t
        → IsTracked (tr.rows t.responses) (ta.rows t.activities)
    written-IsTracked r t h posted i u =
        let w = posted.written in
        contribution-tally now dto.discussion_id user_id contribution_of (ta.rows s.activities)
          (ta.rows t.activities) i u refl h.distinct (added_of r t posted)
        ∙ rw (w.responses, w.made) (ground (arith, h.activities i u))

    written-IsCounted :
        (r : Response) (t : State SR SD SC SA)
        → IsConsistent s
        → IsPosted now user_id dto s r t
        → IsCounted (td.rows t.discussions) (tr.rows t.responses) (ta.rows t.activities)
    written-IsCounted r t h posted =
        let w = posted.written in
        let d = posted.discussion in
        let i = dto.discussion_id in
        let found : find_key discussion_key i (td.rows s.discussions) ≡ some d =
          sym (td.find_unique-eq s.discussions i) ∙ posted.found in
        let named : r.discussion_id ≡ some i = rw w.made refl in
        let kept =
          contribution-count now i user_id contribution_of (ta.rows s.activities)
            (ta.rows t.activities) in
        rw (w.discussions, w.responses)
          (IsCounted-step now i (td.rows s.discussions) r (tr.rows s.responses)
            (ta.rows s.activities) (ta.rows t.activities) named h.discussions d found
            (λ j other. kept j (added_of r t posted) other))

    pub posting-IsConsistent :
        (x : Result Response × State SR SD SC SA)
        → IsPosting now user_id dto s x
        → IsConsistent s
        → IsConsistent x.1
    posting-IsConsistent (err e, t) same h = rw same h
    posting-IsConsistent (ok r, t) posted h = record {
      threaded = written-IsThreaded r t h.threaded posted;
      discussions = written-IsCounted r t h posted;
      distinct =
          contribution-IsDistinct now dto.discussion_id user_id contribution_of
            (ta.rows s.activities) (ta.rows t.activities) h.distinct (added_of r t posted);
      activities = written-IsTracked r t h posted;
    }

    module _ {U : Type 0} (url : UrlApi U) (net : Network) where
      -- A call, returning or throwing, keeps the threads and the counters consistent: every parent was
      -- stored before its replies, every discussion counts its responses and its participants, and every
      -- participant's activity counts the responses of that user in the discussion.
      pub create_response_for_discussion-IsConsistent :
          IsConsistent s → IsConsistent (create_response_for_discussion url net now user_id dto s).1
      create_response_for_discussion-IsConsistent h =
          posting-IsConsistent (create_response_for_discussion url net now user_id dto s)
            (create_response_for_discussion-IsPosting now user_id dto s url net) h
