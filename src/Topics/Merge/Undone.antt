-- ===== src/Topics/Merge/Undone.antt =====
-- A merge and a rollback of it.
use reasonbridge.Prelude.{
  ℕ, ◌<◌, ◌≡◌, refl, ap, ◌∙◌, Bool, true, some, List, [], ◌∷◌, arith, length, ◌==◌, Bool-cases, inl,
  inr, Text,
}
use reasonbridge.Exec.{Result, ok, err}
use reasonbridge.Database.{modify_all}
use reasonbridge.Topics.{
  Response, State, TopicMerge, TopicTable, ResponseTable, MergeTable, move_to, rollback_topic_merge,
}
use reasonbridge.Topics.Rollback.{find_response, rollback_topic_merge-kept}
use reasonbridge.Topics.Merge.{MergeTopics, is_on_any, new_merge, merge_topics}
use reasonbridge.Topics.Merge.Moved.{sources, source_authors, MergeIfOk, merge_topics-IsMerge}

-- A moved row is found under its key.
find-moved :
    (p : Response → Bool) (target i : ℕ) (rs : List Response) (r : Response)
    → find_response i rs ≡ some r
    → p r ≡ true
    → find_response i (modify_all p (move_to (some target)) rs) ≡ some (move_to (some target) r)
find-moved p target i [] r h k = absurd (ground arith)
find-moved p target i (x ∷ xs) r h k = elim (Bool-cases (x.id == i)) [
  | inl t ↦
      let same : x ≡ r = ground arith in
      let chosen : p x ≡ true = ap p same ∙ k in
      rw (chosen, t) (ap (λ y. some (move_to (some target) y)) same)
  | inr t ↦ elim (Bool-cases (p x)) [
    | inl u ↦ rw (u, t) (find-moved p target i xs r (rw t at h) k)
    | inr u ↦ rw (u, t) (find-moved p target i xs r (rw t at h) k)
  ]
]

module _ {ST SR SM : Type 0} ⦃tp : TopicTable ST⦄ ⦃tr : ResponseTable SR⦄ ⦃tm : MergeTable SM⦄
    (now moderator_id : ℕ) (dto : MergeTopics) (s : State ST SR SM) where
  -- An error changes no table. Otherwise the merge is stored under an identifier, and whatever a
  -- rollback of it answers, a response of a source from before the merge is on the target after it.
  abbrev pub IsKept : ℕ → Response → Result (Unit {0}) × State ST SR SM → Type 0
  IsKept i r (ok d, t) =
      (m : TopicMerge) × (tm.find_unique t.merges m.id ≡ some m)
      × ((later : ℕ) (reason : Text)
          → find_response i (tr.rows (rollback_topic_merge later m.id reason t).1.responses)
            ≡ some (record r { topic_id = dto.target_topic_id }))
  IsKept i r (err e, t) = t ≡ s

  module _ (i : ℕ) (r : Response) (held : find_response i (tr.rows s.responses) ≡ some r)
      (of_source : is_on_any dto.source_topic_ids r ≡ true) (before : r.created_at < now) where
    merge-IsKept :
        (x : Result (Unit {0}) × State ST SR SM) → MergeIfOk now moderator_id dto s x → IsKept i r x
    merge-IsKept (err e, t) same = same
    merge-IsKept (ok d, t) (_, w) =
        let m =
          new_merge now moderator_id dto (sources now moderator_id dto s)
            (length (source_authors now moderator_id dto s)) w.merge_id in
        let self : (w.merge_id == w.merge_id) ≡ true = ground arith in
        let stored : tm.find_unique t.merges m.id ≡ some m =
          tm.find_unique-eq t.merges m.id ∙ rw (w.merges, self) refl in
        let moved : find_response i (tr.rows t.responses)
            ≡ some (move_to (some dto.target_topic_id) r) =
          rw w.responses (
            find-moved (is_on_any dto.source_topic_ids) dto.target_topic_id i (tr.rows s.responses)
              r held of_source) in
        (
          m,
          stored,
          λ later reason.
              rollback_topic_merge-kept later m.id i reason t m
                (move_to (some dto.target_topic_id) r) stored moved before,
        )

    -- A merge that throws changes no table. One that returns is stored, and any rollback of it right after
    -- it, returning or throwing, leaves a response that a source had before the time of the merge on the
    -- target: a rollback does not undo the merge.
    pub merge_topics-IsKept : IsKept i r (merge_topics now moderator_id dto s)
    merge_topics-IsKept =
        merge-IsKept (merge_topics now moderator_id dto s)
          (merge_topics-IsMerge now moderator_id dto s)
