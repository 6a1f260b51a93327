-- ===== src/Topics/Merge/Counts.antt =====
-- The responses that the target of a merge counts.
use reasonbridge.Prelude.{
  ℕ, ◌+◌, ◌≡◌, refl, ap, ◌∙◌, Bool, true, false, not, ◌&&◌, some, List, [], ◌∷◌, ◌++◌, arith, find,
  count, ◌==◌, if◌then◌else◌, All, count_congr,
}
use reasonbridge.Exec.{Result, ok, err}
use reasonbridge.Database.{
  modify_first, find-true, mapped, find_key-modify_first, find_of_count, count_of_find,
}
use reasonbridge.Database.Evolution.{find_key}
use reasonbridge.Totals.{
  total, total-swap, count-filter, count_none, count_never, count_and-le, find-holds,
}
use reasonbridge.IdSet.{is_among}
use reasonbridge.Topics.{Topic, Response, State, TopicTable, ResponseTable, MergeTable, topic_key}
use reasonbridge.Topics.Merge.{
  MergeTopics, is_on, is_on_any, response_total, with_counts, merge_topics, redirect_note,
}
use reasonbridge.Topics.Merge.Moved.{
  fetched, sources, participants, IsMerged, MergeIfOk, merge_topics-IsMerge, moved_count,
  count-moved,
}
use reasonbridge.Topics.Merge.Rows.{
  counted, HasCounts, count_present, total_of_counted, only_sources, never_target,
  archive_rows-other,
}

module _ {ST SR SM : Type 0} ⦃tp : TopicTable ST⦄ ⦃tr : ResponseTable SR⦄ ⦃tm : MergeTable SM⦄
    (now moderator_id : ℕ) (dto : MergeTopics) (s : State ST SR SM) where
  abbrev ids : List ℕ
  ids = dto.source_topic_ids

  abbrev is_fetched : Topic → Bool
  is_fetched t = is_among (ids ++ dto.target_topic_id ∷ []) t.id

  count-sources :
      (q : Topic → Bool)
      → count q (sources now moderator_id dto s)
        ≡ count (λ t. is_fetched t && (is_among ids t.id && q t)) (tp.rows s.topics)
  count-sources q =
      count-filter (λ t. is_among ids t.id) q (fetched now moderator_id dto s)
      ∙ tp.count-find_many s.topics is_fetched (λ t. is_among ids t.id && q t)

  -- A response is of as many sources as its topic is named.
  pub source_of :
      (h : HasCounts (tp.rows s.topics) (tr.rows s.responses)) (j : ℕ) (t : Topic)
      → find_key topic_key j (tp.rows s.topics) ≡ some t
      → count (λ x. j == x.id) (sources now moderator_id dto s) ≡ (if is_among ids j then 1 else 0)
  source_of h j t found =
      count-sources (λ x. j == x.id)
      ∙ count_congr (λ x. is_fetched x && (is_among ids x.id && j == x.id))
          (λ x. is_among ids x.id && j == x.id) (tp.rows s.topics)
          (λ x. only_sources ids dto.target_topic_id x.id (j == x.id))
      ∙ count_present (is_among ids) j (tp.rows s.topics) t h.distinct found

  module _ (h : HasCounts (tp.rows s.topics) (tr.rows s.responses)) where
    abbrev rs : List Response
    rs = tr.rows s.responses

    total_of_sources :
        (xs : List Response)
        → All (λ r. (t : Topic) × (find_key topic_key r.topic_id (tp.rows s.topics) ≡ some t)) xs
        → total (λ r. count (λ t. is_on t.id r) (sources now moderator_id dto s)) xs
          ≡ count (is_on_any ids) xs
    total_of_sources [] k = refl
    total_of_sources (r ∷ xs) ((t, found), k) =
        omega (arith, source_of h r.topic_id t found, total_of_sources xs k)

    miscounted :
        (q : Topic → Bool)
        → ((t : Topic) → counted rs t ≡ true → q t ≡ false)
        → count q (tp.rows s.topics) ≡ 0
    miscounted q k =
        count_none (λ t. t.response_count ≡ count (is_on t.id) rs) q (tp.rows s.topics)
          (λ t e. k t (ground arith)) h.counts

    -- The stored counters of the sources sum to the responses that are moved.
    response_total-sources :
        response_total (sources now moderator_id dto s) ≡ count (is_on_any ids) rs
    response_total-sources =
        total_of_counted rs (sources now moderator_id dto s) (
          count-sources (λ t. not (counted rs t))
          ∙ miscounted (λ t. is_fetched t && (is_among ids t.id && not (counted rs t)))
              (λ t e. rw e (ground arith)))
        ∙ total-swap (λ t r. is_on t.id r) (sources now moderator_id dto s) rs
        ∙ total_of_sources rs h.stored

    module _ (target : Topic)
        (found : find (λ x. x.id == dto.target_topic_id) (fetched now moderator_id dto s)
          ≡ some target) where
      target-counted : target.response_count ≡ count (is_on dto.target_topic_id) rs
      target-counted =
          let same : target.id ≡ dto.target_topic_id = ground (
            arith,
            find-true (λ x. topic_key x == dto.target_topic_id) (fetched now moderator_id dto s)
                target found,
          ) in
          let right : counted rs target ≡ true =
            find-holds (λ x. x.id == dto.target_topic_id) (counted rs)
              (fetched now moderator_id dto s) target found
              (tp.count-find_many s.topics is_fetched (λ t. not (counted rs t))
                ∙ miscounted (λ t. is_fetched t && not (counted rs t))
                    (λ t e. rw e (ground arith))) in
          let eq : target.response_count ≡ count (is_on target.id) rs = ground arith in
          eq ∙ rw same refl

      target_row :
          (x : Topic) × (find_key topic_key dto.target_topic_id (tp.rows s.topics) ≡ some x)
      target_row =
          let p : Topic → Bool = λ x. topic_key x == dto.target_topic_id in
          let some_fetched = count_of_find p (fetched now moderator_id dto s) target found in
          find_of_count p (tp.rows s.topics) (
            omega (
              arith,
              some_fetched,
              count_and-le is_fetched p (tp.rows s.topics),
              tp.count-find_many s.topics is_fetched p,
            ))

    not_source :
        is_among ids dto.target_topic_id ≡ false
        → count (λ t. t.id == dto.target_topic_id) (sources now moderator_id dto s) ≡ 0
    not_source n =
        count-sources (λ t. t.id == dto.target_topic_id)
        ∙ count_never (λ t. is_fetched t && (is_among ids t.id && t.id == dto.target_topic_id))
            (tp.rows s.topics) (λ t. never_target ids dto.target_topic_id t.id (is_fetched t) n)

  -- An error changes no table. Otherwise the target is stored and counts its responses.
  abbrev pub TargetIfOk : Result (Unit {0}) × State ST SR SM → Type 0
  TargetIfOk (ok d, t) =
      (x : Topic) × (find_key topic_key dto.target_topic_id (tp.rows t.topics) ≡ some x)
      × (x.response_count ≡ count (is_on dto.target_topic_id) (tr.rows t.responses))
  TargetIfOk (err e, t) = t ≡ s

  -- The target after the writes.
  pub target-after :
      (t : State ST SR SM)
      → HasCounts (tp.rows s.topics) (tr.rows s.responses)
      → is_among ids dto.target_topic_id ≡ false
      → (w : IsMerged now moderator_id dto s t)
      → (x : Topic) × (find_key topic_key dto.target_topic_id (tp.rows t.topics)
          ≡ some (
              with_counts now
                (w.target.response_count + response_total (sources now moderator_id dto s))
                (participants now moderator_id dto s)
                x))
  target-after t h outside w =
      let i = dto.target_topic_id in
      let f =
        with_counts now (w.target.response_count + response_total (sources now moderator_id dto s))
          (participants now moderator_id dto s) in
      let (row, held) = target_row h w.target w.found in
      (
        row,
        rw w.topics (
            archive_rows-other now (redirect_note w.target dto.merge_reason) i
              (sources now moderator_id dto s)
              (modify_first (λ x. topic_key x == i) f (tp.rows s.topics)) (not_source h outside)
            ∙ find_key-modify_first topic_key f (λ x. refl) i (tp.rows s.topics)
            ∙ ap (mapped f) held),
      )

  merge-target :
      (r : Result (Unit {0}) × State ST SR SM)
      → HasCounts (tp.rows s.topics) (tr.rows s.responses)
      → MergeIfOk now moderator_id dto s r
      → TargetIfOk r
  merge-target (err e, t) h same = same
  merge-target (ok d, t) h (outside, w) =
      let i = dto.target_topic_id in
      let (row, held) = target-after t h outside w in
      let counted = target-counted h w.target w.found in
      let moved = count-moved ids i i (tr.rows s.responses) outside in
      let self : (i == i) ≡ true = ground arith in
      (
        with_counts now (w.target.response_count + response_total (sources now moderator_id dto s))
            (participants now moderator_id dto s) row,
        held,
        rw w.responses (omega (arith, counted, response_total-sources h, rw self at moved)),
      )

  -- Where every topic counts its responses, keys are distinct and the topic of every response is
  -- stored: a merge that throws changes no table, and after one that returns the target is stored and
  -- counts its responses, with those that were moved to it.
  pub merge_topics-target_counted :
      HasCounts (tp.rows s.topics) (tr.rows s.responses)
      → TargetIfOk (merge_topics now moderator_id dto s)
  merge_topics-target_counted h =
      merge-target (merge_topics now moderator_id dto s) h
        (merge_topics-IsMerge now moderator_id dto s)

  abbrev pub MovedIfOk : Result (Unit {0}) × State ST SR SM → Type 0
  MovedIfOk (ok d, t) =
      (i : ℕ)
      → count (is_on i) (tr.rows t.responses)
        ≡ moved_count ids dto.target_topic_id i (tr.rows s.responses)
  MovedIfOk (err e, t) = t ≡ s

  merge-moved :
      (r : Result (Unit {0}) × State ST SR SM) → MergeIfOk now moderator_id dto s r → MovedIfOk r
  merge-moved (err e, t) same = same
  merge-moved (ok d, t) (outside, w) =
      λ i. rw w.responses (count-moved ids dto.target_topic_id i (tr.rows s.responses) outside)

  -- A merge that throws changes no table. After one that returns, the target has its own responses and
  -- those of all sources, no source has one, and every other topic has as many as before.
  pub merge_topics-moved : MovedIfOk (merge_topics now moderator_id dto s)
  merge_topics-moved =
      merge-moved (merge_topics now moderator_id dto s)
        (merge_topics-IsMerge now moderator_id dto s)
