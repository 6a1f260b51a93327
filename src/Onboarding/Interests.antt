-- ===== src/Onboarding/Interests.antt =====
-- The interests that the loops of `selectTopics` leave.
use reasonbridge.Prelude.{
  length, ℕ, ◌+◌, ◌<◌, ◌≡◌, ◌≢◌, refl, ap, ◌∙◌, Bool, true, false, not, ◌&&◌, ◌||◌, List, [], ◌∷◌,
  arith, count, any, filter, ltb, ◌==◌, if◌then◌else◌, Bool-cases, Option-cases, inl, inr, ◌⊎◌,
}
use reasonbridge.Exec.{Result, ok, err, unique_violation}
use reasonbridge.Totals.{any-count}
use reasonbridge.Onboarding.{
  TopicInterest, TopicPriority, State, ProgressTable, InterestTable, is_interest_of, new_interest,
  both, create_interest, create_interests,
}

abbrev pub is_ok : Result (Unit {0}) → Bool
is_ok (ok u) = true
is_ok (err e) = false

-- Some selection names the topic.
abbrev pub is_named : ℕ → List TopicPriority → Bool
is_named i xs = any (λ x. x.topic_id == i) xs

-- No topic is named twice.
abbrev pub has_no_repeat : List TopicPriority → Bool
has_no_repeat [] = true
has_no_repeat (x ∷ xs) = not (is_named x.topic_id xs) && has_no_repeat xs

module _ {S : Type 0} where
  state-both : (r : Result (Unit {0})) (x : Result (Unit {0}) × S) → (both r x).1 ≡ x.1
  state-both (ok u) x = refl
  state-both (err e) x = refl

  is_ok-both :
      (r : Result (Unit {0})) (x : Result (Unit {0}) × S)
      → is_ok (both r x).0 ≡ (is_ok r && is_ok x.0)
  is_ok-both (ok u) x = refl
  is_ok-both (err e) x = refl

module _ {SP SI : Type 0} ⦃tp : ProgressTable SP⦄ ⦃ti : InterestTable SI⦄ (is_user : ℕ → Bool)
    (now user_id : ℕ) (stored : is_user user_id ≡ true) where
  -- The interests of the user in a topic.
  abbrev held : ℕ → State SP SI → ℕ
  held i s = count (is_interest_of user_id i) (ti.rows s.interests)

  abbrev IsCreated : TopicPriority → State SP SI → Result (Unit {0}) × State SP SI → Type 0
  IsCreated x s (r, t) =
      (k : ℕ) × (held x.topic_id s ≡ 0)
      × (r ≡ ok tt)
      × (t.progress ≡ s.progress)
      × (ti.rows t.interests ≡ new_interest now user_id x k ∷ ti.rows s.interests)

  create_interest-cases :
      (x : TopicPriority) (s : State SP SI)
      → IsCreated x s (create_interest is_user now user_id x s)
        ⊎ ((0 < held x.topic_id s)
            × (create_interest is_user now user_id x s ≡ (err unique_violation, s)))
  create_interest-cases x s =
      let mk = new_interest now user_id x in
      elim (Option-cases (ti.create s.interests mk)) [
        | inl e ↦
            let (k, clash) = ti.create-none s.interests mk e in
            let counted = any-count (is_interest_of user_id x.topic_id) (ti.rows s.interests) in
            inr (ground (arith, clash, counted), rw e refl)
        | inr ((r, t), e) ↦
            let (k, made, _, clash, rows) = ti.create-some s.interests mk e in
            let counted = any-count (is_interest_of user_id x.topic_id) (ti.rows s.interests) in
            let free : any (is_interest_of user_id x.topic_id) (ti.rows s.interests) ≡ false =
              rw made at clash in
            inl (rw (e, stored) (k, ground (arith, free, counted), refl, refl, rows ∙ rw made refl))
      ]

  -- The interests of the user after the loop: those from before, and one in each further topic named.
  abbrev held_after : ℕ → List TopicPriority → State SP SI → ℕ
  held_after i xs s = if ltb 0 (held i s) then held i s else if is_named i xs then 1 else 0

  held-create :
      (x : TopicPriority) (s : State SP SI) (i : ℕ)
      → held i (create_interest is_user now user_id x s).1 ≡ held_after i (x ∷ []) s
  held-create x s i = elim (create_interest-cases x s) [
    | inl (k, free, _, _, rows) ↦
        let self : (user_id == user_id) ≡ true = ground arith in
        elim (Bool-cases (x.topic_id == i)) [
          | inl e ↦
              let at_i : x.topic_id ≡ i = ground arith in
              let none_yet : held i s ≡ 0 = rw (← at_i) free in
              rw (rows, self, e, none_yet) (omega arith)
          | inr e ↦ rw (rows, self, e) (ground arith)
        ]
    | inr (taken, same) ↦ elim (Bool-cases (x.topic_id == i)) [
      | inl e ↦
          let at_i : x.topic_id ≡ i = ground arith in
          let some_held : 0 < held i s = rw (← at_i) taken in rw (same, e) (ground arith)
      | inr e ↦ rw (same, e) (ground arith)
    ]
  ]

  pub create_interests-held :
      (xs : List TopicPriority) (s : State SP SI) (i : ℕ)
      → held i (create_interests is_user now user_id xs s).1 ≡ held_after i xs s
  unfolding create_interests
  create_interests-held [] s i = ground arith
  create_interests-held (x ∷ xs) s i =
      let made = create_interest is_user now user_id x s in
      ap (held i) (state-both made.0 (create_interests is_user now user_id xs made.1))
      ∙ create_interests-held xs made.1 i
      ∙ ground (arith, held-create x s i)

  taken_after :
      (x : TopicPriority) (xs : List TopicPriority) (s : State SP SI)
      → any (λ y. ltb 0 (held y.topic_id (create_interest is_user now user_id x s).1)) xs
        ≡ (is_named x.topic_id xs || any (λ y. ltb 0 (held y.topic_id s)) xs)
  taken_after x [] s = refl
  taken_after x (y ∷ xs) s = ground (arith, held-create x s y.topic_id, taken_after x xs s)

  is_ok-create :
      (x : TopicPriority) (s : State SP SI)
      → is_ok (create_interest is_user now user_id x s).0 ≡ not (ltb 0 (held x.topic_id s))
  is_ok-create x s = elim (create_interest-cases x s) [
    | inl (k, free, fine, _, _) ↦ rw (fine, free) refl
    | inr (taken, same) ↦ rw same (ground (arith, taken))
  ]

  -- The loop answers without an error exactly where no topic is named twice or held before.
  pub is_ok-create_interests :
      (xs : List TopicPriority) (s : State SP SI)
      → is_ok (create_interests is_user now user_id xs s).0
        ≡ (has_no_repeat xs && not (any (λ y. ltb 0 (held y.topic_id s)) xs))
  unfolding create_interests
  is_ok-create_interests [] s = refl
  is_ok-create_interests (x ∷ xs) s =
      let made = create_interest is_user now user_id x s in
      is_ok-both made.0 (create_interests is_user now user_id xs made.1)
      ∙ rw (is_ok-create x s, is_ok-create_interests xs made.1, taken_after x xs s) (ground arith)

  create_interest-others :
      (v : ℕ) (x : TopicPriority) (s : State SP SI) (i : ℕ)
      → user_id ≢ v
      → (count (is_interest_of v i) (ti.rows (create_interest is_user now user_id x s).1.interests)
          ≡ count (is_interest_of v i) (ti.rows s.interests))
        × ((create_interest is_user now user_id x s).1.progress ≡ s.progress)
  create_interest-others v x s i h = elim (create_interest-cases x s) [
    | inl (k, _, _, progress, rows) ↦
        let other : (user_id == v) ≡ false = ground arith in
        (rw (rows, other) (omega arith), progress)
    | inr (_, same) ↦ rw same (refl, refl)
  ]

  -- The loop touches no other user's interests, and no progress.
  pub create_interests-others :
      (v : ℕ) (xs : List TopicPriority) (s : State SP SI) (i : ℕ)
      → user_id ≢ v
      → (count
            (is_interest_of v i)
            (ti.rows (create_interests is_user now user_id xs s).1.interests)
          ≡ count (is_interest_of v i) (ti.rows s.interests))
        × ((create_interests is_user now user_id xs s).1.progress ≡ s.progress)
  unfolding create_interests
  create_interests-others v [] s i h = (refl, refl)
  create_interests-others v (x ∷ xs) s i h =
      let made = create_interest is_user now user_id x s in
      let (same, progress) = create_interests-others v xs made.1 i h in
      let (first, kept) = create_interest-others v x s i h in
      let back = state-both made.0 (create_interests is_user now user_id xs made.1) in
      (
        ap (λ u. count (is_interest_of v i) (ti.rows u.interests)) back ∙ same ∙ first,
        ap (λ u. u.progress) back ∙ progress ∙ kept,
      )

module _ {SP SI : Type 0} ⦃tp : ProgressTable SP⦄ ⦃ti : InterestTable SI⦄ (is_user : ℕ → Bool)
    (now user_id : ℕ) where
  -- Without a row of the user nothing is created.
  create_interest-unstored :
      (x : TopicPriority) (s : State SP SI)
      → is_user user_id ≡ false
      → (is_ok (create_interest is_user now user_id x s).0 ≡ false)
        × ((create_interest is_user now user_id x s).1 ≡ s)
  create_interest-unstored x s h =
      elim (Option-cases (ti.create s.interests (new_interest now user_id x))) [
        | inl e ↦ rw e (refl, refl)
        | inr ((r, t), e) ↦ rw (e, h) (refl, refl)
      ]

  pub create_interests-unstored :
      (xs : List TopicPriority) (s : State SP SI)
      → is_user user_id ≡ false
      → (is_ok (create_interests is_user now user_id xs s).0 ≡ (length xs == 0))
        × ((create_interests is_user now user_id xs s).1 ≡ s)
  unfolding create_interests
  create_interests-unstored [] s h = (refl, refl)
  create_interests-unstored (x ∷ xs) s h =
      let made = create_interest is_user now user_id x s in
      let rest = create_interests is_user now user_id xs made.1 in
      let (refused, same) = create_interest-unstored x s h in
      (
        is_ok-both made.0 rest ∙ ground (arith, refused),
        state-both made.0 rest ∙ (create_interests-unstored xs made.1 h).1 ∙ same,
      )

  pub create_interests-progress :
      (xs : List TopicPriority) (s : State SP SI)
      → (create_interests is_user now user_id xs s).1.progress ≡ s.progress
  create_interests-progress xs s = elim (Bool-cases (is_user user_id)) [
    | inl h ↦ (create_interests-others is_user now user_id h (user_id + 1) xs s 0 (ground arith)).1
    | inr h ↦ ap (λ u. u.progress) (create_interests-unstored xs s h).1
  ]

pub count-deleted :
    (u v i : ℕ) (xs : List TopicInterest)
    → count (is_interest_of v i) (filter (λ x. not (x.user_id == u)) xs)
      ≡ (if u == v then 0 else count (is_interest_of v i) xs)
count-deleted u v i [] = ground arith
count-deleted u v i (x ∷ xs) =
    let rest = count-deleted u v i xs in
    elim (Bool-cases (x.user_id == u)) [
      | inl a ↦ elim (Bool-cases (u == v)) [
        | inl b ↦ rw (a, b) (rw b at rest)
        | inr b ↦
            let other : (x.user_id == v) ≡ false = ground arith in
            rw (a, b, other) (omega (arith, rw b at rest))
      ]
      | inr a ↦ elim (Bool-cases (u == v)) [
        | inl b ↦
            let other : (x.user_id == v) ≡ false = ground arith in
            rw (a, b, other) (omega (arith, rw b at rest))
        | inr b ↦ rw (a, b) (omega (arith, rw b at rest))
      ]
    ]
