-- ===== src/Topics/Rollback.antt =====
-- What the rollback of a merge moves, and how often it can be done.
use reasonbridge.Prelude.{
  ℕ, ◌+◌, ◌<◌, ◌≡◌, refl, sym, ap, ◌∙◌, Bool, false, Option, none, some, List, [], ◌∷◌, arith, leb,
  ◌==◌, Bool-cases, inl, inr, Text,
}
use reasonbridge.Exec.{ok, err, Cause, bad_request}
use reasonbridge.Database.{modify_all, find-true, find_key-modify_first, mapped}
use reasonbridge.Database.Evolution.{find_key}
use mathlib.Core.Path.{subst}
use reasonbridge.Topics.{
  Response, TopicMerge, State, TopicTable, ResponseTable, MergeTable, response_key, merge_key,
  is_unset, is_since, first, move_to, rolled_back, rollback_window, rollback_topic_merge,
}

abbrev pub find_response : ℕ → List Response → Option Response
find_response i rs = find_key response_key i rs

move_to-key : (o : Option ℕ) (r : Response) → response_key (move_to o r) ≡ response_key r
move_to-key none r = refl
move_to-key (some i) r = refl

-- A row that the test does not choose is found as before.
find-kept :
    (p : Response → Bool) (o : Option ℕ) (i : ℕ) (rs : List Response) (r : Response)
    → find_response i rs ≡ some r
    → p r ≡ false
    → find_response i (modify_all p (move_to o) rs) ≡ some r
find-kept p o i [] r h k = h
find-kept p o i (x ∷ xs) r h k = elim (Bool-cases (x.id == i)) [
  | inl t ↦
      let same : x ≡ r = ground arith in
      let unchosen : p x ≡ false = ap p same ∙ k in rw (unchosen, t) (ap some same)
  | inr t ↦ elim (Bool-cases (p x)) [
    | inl u ↦
        let other : (response_key (move_to o x) == i) ≡ false = rw (move_to-key o x) t in
        rw (u, other) (find-kept p o i xs r (rw t at h) k)
    | inr u ↦ rw (u, t) (find-kept p o i xs r (rw t at h) k)
  ]
]

module _ {SM : Type 0} ⦃tm : MergeTable SM⦄ where
  merge_after :
      (now merge_id : ℕ) (reason : Text) (s : SM) (m : TopicMerge)
      → tm.find_unique s merge_id ≡ some m
      → tm.find_unique (tm.update s m.id (rolled_back now reason)) merge_id
        ≡ some (rolled_back now reason m)
  merge_after now merge_id reason s m found =
      let h : find_key merge_key merge_id (tm.rows s) ≡ some m =
        sym (tm.find_unique-eq s merge_id) ∙ found in
      let same : merge_id ≡ m.id =
        ground (arith, find-true (λ x. merge_key x == merge_id) (tm.rows s) m h) in
      subst
        (λ k.
          tm.find_unique (tm.update s k (rolled_back now reason)) merge_id
          ≡ some (rolled_back now reason m))
        same
        (tm.find_unique-eq (tm.update s merge_id (rolled_back now reason)) merge_id
          ∙ rw tm.rows-update (
              find_key-modify_first merge_key (rolled_back now reason) (λ x. refl) merge_id
                (tm.rows s)
              ∙ ap (mapped (rolled_back now reason)) h))

module _ {ST SR SM : Type 0} ⦃tp : TopicTable ST⦄ ⦃tr : ResponseTable SR⦄ ⦃tm : MergeTable SM⦄ where
  -- A rollback of a stored merge, returning or throwing, leaves every response created before the merge
  -- as it was: one that the merge moved stays on the target.
  pub rollback_topic_merge-kept :
      (now merge_id i : ℕ) (reason : Text) (s : State ST SR SM) (m : TopicMerge) (r : Response)
      → tm.find_unique s.merges merge_id ≡ some m
      → find_response i (tr.rows s.responses) ≡ some r
      → r.created_at < m.merged_at
      → find_response i (tr.rows (rollback_topic_merge now merge_id reason s).1.responses) ≡ some r
  unfolding rollback_topic_merge
  rollback_topic_merge-kept now merge_id i reason s m r found h before =
      elim (Bool-cases (is_unset m.rolled_back_at)) [
        | inr b ↦ rw (found, b) h
        | inl b ↦ elim (Bool-cases (leb now (m.merged_at + rollback_window))) [
          | inr w ↦ rw (found, b, w) h
          | inl w ↦
              let old : is_since m r ≡ false = ground arith in
              rw (found, b, w)
                (rw tr.rows-update_many (
                  find-kept (is_since m) (first m.source_topic_ids) i (tr.rows s.responses) r h
                    old))
        ]
      ]

  -- Once a merge is rolled back, any further rollback of it throws and changes nothing.
  pub rollback_topic_merge-once :
      (now later merge_id : ℕ) (reason again : Text) (s : State ST SR SM) (m : TopicMerge)
      → tm.find_unique s.merges merge_id ≡ some m
      → (rollback_topic_merge now merge_id reason s).0 ≡ ok tt
      → rollback_topic_merge later merge_id again (rollback_topic_merge now merge_id reason s).1 ≡ (
        err (bad_request Cause.already_rolled_back),
        (rollback_topic_merge now merge_id reason s).1,
      )
  unfolding rollback_topic_merge
  rollback_topic_merge-once now later merge_id reason again s m found h =
      elim (Bool-cases (is_unset m.rolled_back_at)) [
        | inr b ↦
            let threw : err (bad_request Cause.already_rolled_back) ≡ ok tt = rw (found, b) at h in
            absurd (ground arith)
        | inl b ↦ elim (Bool-cases (leb now (m.merged_at + rollback_window))) [
          | inr w ↦
              let threw : err (bad_request Cause.window_expired) ≡ ok tt = rw (found, b, w) at h in
              absurd (ground arith)
          | inl w ↦ rw (found, b, w) (rw (merge_after now merge_id reason s.merges m found) refl)
        ]
      ]
