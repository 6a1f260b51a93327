-- ===== src/Topics/Merge/Moved.antt =====
-- What a merge leaves in the tables, and the responses of every topic after it.
use reasonbridge.Prelude.{
  ℕ, ◌+◌, ◌≡◌, refl, ◌∙◌, true, false, some, List, [], ◌∷◌, ◌++◌, arith, length, filter, find, any,
  count, ◌==◌, if◌then◌else◌, Bool-cases, Option-cases, inl, inr, Text,
}
use mathlib.Core.Path.{subst}
use reasonbridge.Exec.{Exec, Result, ok, err, transaction-cases}
use reasonbridge.Database.{modify_first, modify_all, find-true}
use reasonbridge.IdSet.{is_among, added_all}
use reasonbridge.Topics.{
  TopicStatus, Topic, Response, State, TopicTable, ResponseTable, MergeTable, same_status, move_to,
  topic_key,
}
use reasonbridge.Topics.Merge.{
  MergeTopics, is_on, is_on_any, response_total, redirect_note, with_counts, merged_into, authors,
  all_authors, archive_all, new_merge, write_merge, merge_fetched, merge_topics,
}

-- The loop over the sources, on the rows.
abbrev pub archive_rows : ℕ → Text → List Topic → List Topic → List Topic
archive_rows now note [] rows = rows
archive_rows now note (t ∷ ts) rows =
    archive_rows now note ts (modify_first (λ x. topic_key x == t.id) (merged_into now note t) rows)

rows-archive_all :
    {ST : Type 0} ⦃tp : TopicTable ST⦄ (now : ℕ) (note : Text) (ts : List Topic) (s : ST)
    → tp.rows (archive_all now note ts s) ≡ archive_rows now note ts (tp.rows s)
rows-archive_all now note [] s = refl
rows-archive_all ⦃tp⦄ now note (t ∷ ts) s =
    rows-archive_all now note ts (tp.update s t.id (merged_into now note t))
    ∙ rw (tp.rows-update s t.id (merged_into now note t)) refl

module _ {ST SR SM : Type 0} ⦃tp : TopicTable ST⦄ ⦃tr : ResponseTable SR⦄ ⦃tm : MergeTable SM⦄
    (now moderator_id : ℕ) (dto : MergeTopics) (s : State ST SR SM) where
  abbrev pub fetched : List Topic
  fetched =
      tp.find_many s.topics (λ t. is_among (dto.source_topic_ids ++ dto.target_topic_id ∷ []) t.id)

  abbrev pub sources : List Topic
  sources = filter (λ t. is_among dto.source_topic_ids t.id) fetched

  abbrev pub source_authors : List ℕ
  source_authors = added_all (all_authors s.responses sources) []

  abbrev pub participants : ℕ
  participants =
      length (added_all source_authors (added_all (authors s.responses dto.target_topic_id) []))

  -- What the writes leave in the tables.
  pub record IsMerged (t : State ST SR SM) : Type 0 where
    pub target : Topic
    pub found : find (λ x. x.id == dto.target_topic_id) fetched ≡ some target
    pub unlocked : any (λ x. same_status x.status TopicStatus.locked) sources ≡ false
    pub merge_id : ℕ
    pub topics :
        tp.rows t.topics
        ≡ archive_rows now (redirect_note target dto.merge_reason) sources (
            modify_first
              (λ x. topic_key x == dto.target_topic_id)
              (with_counts now (target.response_count + response_total sources) participants)
              (tp.rows s.topics))
    pub responses :
        tr.rows t.responses
        ≡ modify_all
            (is_on_any dto.source_topic_ids)
            (move_to (some dto.target_topic_id))
            (tr.rows s.responses)
    pub merges :
        tm.rows t.merges
        ≡ new_merge now moderator_id dto sources (length source_authors) merge_id ∷ tm.rows s.merges

  abbrev MergedIfOk : Result (Unit {0}) → State ST SR SM → Type 0
  MergedIfOk (ok d) t = IsMerged t
  MergedIfOk (err e) t = Unit {0}

  -- The writes, with the authors of the target's responses by its identifier.
  abbrev write_found : Topic → Exec (State ST SR SM) (Unit {0})
  write_found target =
      write_merge now moderator_id dto sources target (all_authors s.responses sources)
        (authors s.responses target.id)

  write_found-IsMerged :
      (target : Topic)
      → find (λ x. x.id == dto.target_topic_id) fetched ≡ some target
      → any (λ x. same_status x.status TopicStatus.locked) sources ≡ false
      → MergedIfOk (write_found target s).0 (write_found target s).1
  write_found-IsMerged target found unlocked =
      let same : target.id ≡ dto.target_topic_id =
        ground (arith, find-true (λ x. topic_key x == dto.target_topic_id) fetched target found) in
      let note = redirect_note target dto.merge_reason in
      let mk = new_merge now moderator_id dto sources (length source_authors) in
      elim (Option-cases (tm.create s.merges mk)) [
        | inl e ↦ rw e tt
        | inr ((m, mt), e) ↦
            let (i, made, _, _, held) = tm.create-some s.merges mk e in
            rw e (record {
              target = target;
              found = found;
              unlocked = unlocked;
              merge_id = i;
              topics =
                  rows-archive_all now note sources (
                    tp.update s.topics dto.target_topic_id (
                      with_counts now (target.response_count + response_total sources) (
                        length (
                          added_all source_authors
                            (added_all (authors s.responses target.id) [])))))
                  ∙ rw (tp.rows-update, same) refl;
              responses =
                  tr.rows-update_many s.responses (is_on_any dto.source_topic_ids)
                    (move_to (some dto.target_topic_id));
              merges = held ∙ rw made refl;
            })
      ]

  merge_fetched-IsMerged :
      MergedIfOk (merge_fetched now moderator_id dto s).0 (merge_fetched now moderator_id dto s).1
  unfolding merge_fetched
  merge_fetched-IsMerged =
      let ids = dto.source_topic_ids ++ dto.target_topic_id ∷ [] in
      elim (Bool-cases (length fetched == length ids)) [
        | inr b ↦ rw b tt
        | inl b ↦ elim (Option-cases (find (λ x. x.id == dto.target_topic_id) fetched)) [
          | inl e ↦ rw (b, e) tt
          | inr (target, e) ↦
              elim (Bool-cases (any (λ x. same_status x.status TopicStatus.locked) sources)) [
                | inl l ↦ rw (b, e, l) tt
                | inr l ↦ rw (b, e, l) (write_found-IsMerged target e l)
              ]
        ]
      ]

  -- An error changes no table.
  abbrev pub MergeIfOk : Result (Unit {0}) × State ST SR SM → Type 0
  MergeIfOk (ok d, t) = (is_among dto.source_topic_ids dto.target_topic_id ≡ false) × IsMerged t
  MergeIfOk (err e, t) = t ≡ s

  pub merge_topics-IsMerge : MergeIfOk (merge_topics now moderator_id dto s)
  unfolding merge_topics
  merge_topics-IsMerge = elim (Bool-cases (is_among dto.source_topic_ids dto.target_topic_id)) [
    | inl b ↦ rw b refl
    | inr b ↦ elim (transaction-cases (merge_fetched now moderator_id dto) s) [
      | inl (x, k) ↦ rw (b, k) refl
      | inr (u, m, k) ↦
          rw (b, k)
            (
              b,
              subst (λ q. MergedIfOk q (merge_fetched now moderator_id dto s).1) m
                  merge_fetched-IsMerged,
            )
    ]
  ]

-- The responses of a topic after the sources' are moved to the target.
abbrev pub moved_count : List ℕ → ℕ → ℕ → List Response → ℕ
moved_count ids target i rs =
    if target == i
    then count (is_on i) rs + count (is_on_any ids) rs
    else if is_among ids i
    then 0
    else count (is_on i) rs

apart :
    (ids : List ℕ) (i : ℕ) (r : Response)
    → is_among ids i ≡ false
    → is_on_any ids r ≡ true
    → is_on i r ≡ false
apart ids i r h k = elim (Bool-cases (is_on i r)) [
  | inl t ↦
      let same : r.topic_id ≡ i = ground arith in
      let at_i : is_among ids i ≡ true = rw same at k in absurd (ground arith)
  | inr t ↦ t
]

outside :
    (ids : List ℕ) (i : ℕ) (r : Response)
    → is_among ids i ≡ true
    → is_on_any ids r ≡ false
    → is_on i r ≡ false
outside ids i r h k = elim (Bool-cases (is_on i r)) [
  | inl t ↦
      let same : r.topic_id ≡ i = ground arith in
      let at_i : is_among ids i ≡ false = rw same at k in absurd (ground arith)
  | inr t ↦ t
]

pub count-moved :
    (ids : List ℕ) (target i : ℕ) (rs : List Response)
    → is_among ids target ≡ false
    → count (is_on i) (modify_all (is_on_any ids) (move_to (some target)) rs)
      ≡ moved_count ids target i rs
count-moved ids target i [] h = ground arith
count-moved ids target i (r ∷ rs) h =
    let rest = count-moved ids target i rs h in
    elim (Bool-cases (target == i)) [
      | inl u ↦
          let same : target ≡ i = ground arith in
          let here : is_among ids i ≡ false = rw (← same) h in
          elim (Bool-cases (is_on_any ids r)) [
            | inl t ↦ rw (t, u, apart ids i r here t) (omega (arith, rw u at rest))
            | inr t ↦ rw (t, u) (omega (arith, rw u at rest))
          ]
      | inr u ↦ elim (Bool-cases (is_among ids i)) [
        | inl v ↦ elim (Bool-cases (is_on_any ids r)) [
          | inl t ↦ rw (t, u, v) (omega (arith, rw (u, v) at rest))
          | inr t ↦ rw (t, u, v, outside ids i r v t) (omega (arith, rw (u, v) at rest))
        ]
        | inr v ↦ elim (Bool-cases (is_on_any ids r)) [
          | inl t ↦ rw (t, u, v, apart ids i r v t) (omega (arith, rw (u, v) at rest))
          | inr t ↦ rw (t, u, v) (omega (arith, rw (u, v) at rest))
        ]
      ]
    ]
