-- ===== src/Topics/Merge/Participants.antt =====
-- The participants that the target of a merge counts.
use reasonbridge.Prelude.{
  ℕ, ◌≡◌, refl, sym, ap, ◌∙◌, Bool, true, false, ◌&&◌, ◌||◌, List, [], ◌∷◌, ◌++◌, arith, map, any,
  length, some, ltb, ◌==◌, All, Bool-cases, inl, inr,
}
use reasonbridge.Exec.{Result, ok, err}
use reasonbridge.Database.{modify_all}
use reasonbridge.Database.Evolution.{find_key}
use reasonbridge.IdSet.{is_among, added_all, IsUnique, added_all-IsUnique, is_among-added_all}
use reasonbridge.Topics.{
  Topic, Response, State, TopicTable, ResponseTable, MergeTable, topic_key, move_to,
}
use reasonbridge.Topics.Merge.{MergeTopics, is_on, is_on_any, authors, all_authors, merge_topics}
use reasonbridge.Topics.Merge.Moved.{sources, source_authors, MergeIfOk, merge_topics-IsMerge}
use reasonbridge.Totals.{any-count}
use reasonbridge.Topics.Merge.Rows.{HasCounts}
use reasonbridge.Topics.Merge.Counts.{source_of, target-after}

any-append :
    {A : Type 0} (p : A → Bool) (xs ys : List A) → any p (xs ++ ys) ≡ (any p xs || any p ys)
any-append p [] ys = refl
any-append p (x ∷ xs) ys = ground (arith, any-append p xs ys)

any-map :
    {A B : Type 0} (p : B → Bool) (f : A → B) (xs : List A)
    → any p (map f xs) ≡ any (λ x. p (f x)) xs
any-map p f [] = refl
any-map p f (x ∷ xs) = ground (arith, any-map p f xs)

any-or :
    {A : Type 0} (p q : A → Bool) (xs : List A) → any (λ x. p x || q x) xs ≡ (any p xs || any q xs)
any-or p q [] = refl
any-or p q (x ∷ xs) = ground (arith, any-or p q xs)

any-false : {A : Type 0} (xs : List A) → any (λ _. false) xs ≡ false
any-false [] = refl
any-false (x ∷ xs) = any-false xs

any_congr :
    {A : Type 0} (p q : A → Bool) (xs : List A) → ((x : A) → p x ≡ q x) → any p xs ≡ any q xs
any_congr p q [] h = refl
any_congr p q (x ∷ xs) h = ground (arith, h x, any_congr p q xs h)

-- The authors of the responses that are of some topic of the list.
any-swap :
    (q : Response → Bool) (ts : List Topic) (rs : List Response)
    → any (λ t. any (λ r. is_on t.id r && q r) rs) ts
      ≡ any (λ r. any (λ t. is_on t.id r) ts && q r) rs
any-swap q [] rs = sym (any-false rs)
any-swap q (t ∷ ts) rs = rw (any-swap q ts rs) (
    sym (any-or (λ r. is_on t.id r && q r) (λ r. any (λ x. is_on x.id r) ts && q r) rs)
    ∙ any_congr (λ r. (is_on t.id r && q r) || (any (λ x. is_on x.id r) ts && q r))
        (λ r. any (λ x. is_on x.id r) (t ∷ ts) && q r) rs (λ r. ground arith))

-- After the sources' responses are moved, the authors of the target's responses are its own and theirs.
any-moved :
    (ids : List ℕ) (target a : ℕ) (rs : List Response)
    → any
        (λ r. is_on target r && r.author_id == a)
        (modify_all (is_on_any ids) (move_to (some target)) rs)
      ≡ (any (λ r. is_on_any ids r && r.author_id == a) rs
          || any (λ r. is_on target r && r.author_id == a) rs)
any-moved ids target a [] = refl
any-moved ids target a (r ∷ rs) =
    let self : (target == target) ≡ true = ground arith in
    elim (Bool-cases (is_on_any ids r)) [
      | inl t ↦ rw (t, any-moved ids target a rs, self) (ground arith)
      | inr t ↦ rw (t, any-moved ids target a rs) (ground arith)
    ]

module _ {SR : Type 0} ⦃tr : ResponseTable SR⦄ where
  is_among-authors :
      (rs : SR) (i a : ℕ)
      → is_among (authors rs i) a ≡ any (λ r. is_on i r && r.author_id == a) (tr.rows rs)
  is_among-authors rs i a =
      any-map (λ x. x == a) (λ r. r.author_id) (tr.find_many rs (is_on i))
      ∙ any-count (λ r. r.author_id == a) (tr.find_many rs (is_on i))
      ∙ ap (ltb 0) (tr.count-find_many rs (is_on i) (λ r. r.author_id == a))
      ∙ sym (any-count (λ r. is_on i r && r.author_id == a) (tr.rows rs))

  is_among-all_authors :
      (rs : SR) (ts : List Topic) (a : ℕ)
      → is_among (all_authors rs ts) a
        ≡ any (λ t. any (λ r. is_on t.id r && r.author_id == a) (tr.rows rs)) ts
  is_among-all_authors rs [] a = refl
  is_among-all_authors rs (t ∷ ts) a =
      any-append (λ x. x == a) (authors rs t.id) (all_authors rs ts)
      ∙ rw (is_among-authors rs t.id a, is_among-all_authors rs ts a) refl

module _ {ST SR SM : Type 0} ⦃tp : TopicTable ST⦄ ⦃tr : ResponseTable SR⦄ ⦃tm : MergeTable SM⦄
    (now moderator_id : ℕ) (dto : MergeTopics) (s : State ST SR SM) where
  -- An error changes no table. Otherwise the participants of the target, counted without repetition,
  -- are the authors of its responses.
  abbrev pub ParticipantsIfOk : Result (Unit {0}) × State ST SR SM → Type 0
  ParticipantsIfOk (ok d, t) =
      (x : Topic) × (find_key topic_key dto.target_topic_id (tp.rows t.topics) ≡ some x)
      × (set : List ℕ) × IsUnique set
      × (length set ≡ x.participant_count)
      × ((a : ℕ)
          → is_among set a
            ≡ any (λ r. is_on dto.target_topic_id r && r.author_id == a) (tr.rows t.responses))
  ParticipantsIfOk (err e, t) = t ≡ s

  module _ (h : HasCounts (tp.rows s.topics) (tr.rows s.responses)) where
    any-sources :
        (a : ℕ) (xs : List Response)
        → All (λ r. (t : Topic) × (find_key topic_key r.topic_id (tp.rows s.topics) ≡ some t)) xs
        → any (λ r. any (λ t. is_on t.id r) (sources now moderator_id dto s) && r.author_id == a) xs
          ≡ any (λ r. is_on_any dto.source_topic_ids r && r.author_id == a) xs
    any-sources a [] k = refl
    any-sources a (r ∷ xs) ((t, found), k) =
        let one : any (λ x. is_on x.id r) (sources now moderator_id dto s)
            ≡ is_on_any dto.source_topic_ids r =
          any-count (λ x. is_on x.id r) (sources now moderator_id dto s)
          ∙ rw (source_of now moderator_id dto s h r.topic_id t found) (ground arith) in
        rw (one, any-sources a xs k) refl

    -- Exactly the authors of the sources' responses are among the participants of the sources.
    is_among-source_authors :
        (a : ℕ)
        → is_among (source_authors now moderator_id dto s) a
          ≡ any (λ r. is_on_any dto.source_topic_ids r && r.author_id == a) (tr.rows s.responses)
    is_among-source_authors a =
        let ts = sources now moderator_id dto s in
        is_among-added_all (all_authors s.responses ts) [] a
        ∙ rw
            (
              is_among-all_authors s.responses ts a,
              any-swap (λ r. r.author_id == a) ts (tr.rows s.responses),
              any-sources a (tr.rows s.responses) h.stored,
            )
            (ground arith)

    merge-participants :
        (r : Result (Unit {0}) × State ST SR SM)
        → MergeIfOk now moderator_id dto s r
        → ParticipantsIfOk r
    merge-participants (err e, t) same = same
    merge-participants (ok d, t) (outside, w) =
        let ids = dto.source_topic_ids in
        let i = dto.target_topic_id in
        let (row, held) = target-after now moderator_id dto s t h outside w in
        let theirs = source_authors now moderator_id dto s in
        let own = added_all (authors s.responses i) [] in
        (
          _,
          held,
          added_all theirs own,
          added_all-IsUnique theirs own (added_all-IsUnique (authors s.responses i) [] tt),
          refl,
          λ a.
              is_among-added_all theirs own a
              ∙ rw
                  (
                    is_among-source_authors a,
                    is_among-added_all (authors s.responses i) [] a,
                    is_among-authors s.responses i a,
                    w.responses,
                    any-moved ids i a (tr.rows s.responses),
                  )
                  (ground arith),
        )

    -- Where every topic counts its responses, keys are distinct and the topic of every response is
    -- stored: a merge that throws changes no table, and after one that returns the target is stored and
    -- its participant count is the number of distinct authors of its responses.
    pub merge_topics-participants : ParticipantsIfOk (merge_topics now moderator_id dto s)
    merge_topics-participants =
        merge-participants (merge_topics now moderator_id dto s)
          (merge_topics-IsMerge now moderator_id dto s)
