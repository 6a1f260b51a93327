-- ===== src/Onboarding/Selection.antt =====
-- What `selectTopics` leaves of the interests of its user, whatever it answers.
use reasonbridge.Prelude.{
  ℕ, ◌≡◌, ◌≢◌, refl, sym, ap, ◌∙◌, Bool, true, false, ◌&&◌, List, [], ◌∷◌, map, length, arith,
  count, any, ltb, leb, ◌==◌, is_some, find, if◌then◌else◌, Bool-cases, Option-cases, inl, inr,
}
use reasonbridge.Exec.{Exec, Result, Result-cases, pure, ◌>>=◌, ◌>>◌}
use reasonbridge.Database.{modify_first}
use reasonbridge.IdSet.{added_all}
use reasonbridge.Discussions.{TopicTable}
use reasonbridge.Onboarding.{
  TopicPriority, State, ProgressTable, InterestTable, is_progress_of, is_interest_of,
  topics_selected, is_ranked, all_exist, create_interests, update_of, replace_interests,
  require_progress, progress_key, select_topics,
}
use reasonbridge.Onboarding.Interests.{
  is_ok, is_named, has_no_repeat, create_interests-held, create_interests-unstored,
  create_interests-others, create_interests-progress, is_ok-create_interests, count-deleted,
}

-- A row that a search finds is found after a change of another column.
find-changed :
    {A : Type 0} (p q : A → Bool) (f : A → A) (xs : List A)
    → ((x : A) → p (f x) ≡ p x)
    → is_some (find p (modify_first q f xs)) ≡ is_some (find p xs)
find-changed p q f [] h = refl
find-changed p q f (x ∷ xs) h = elim (Bool-cases (q x)) [
  | inl t ↦ elim (Bool-cases (p x)) [ inl u ↦ rw (t, h x, u) refl | inr u ↦ rw (t, h x, u) refl ]
  | inr t ↦ elim (Bool-cases (p x)) [
    | inl u ↦ rw (t, u) refl
    | inr u ↦ rw (t, u) (find-changed p q f xs h)
  ]
]

module _ {SP : Type 0} ⦃tp : ProgressTable SP⦄ (user_id : ℕ) where
  abbrev pub has_progress : SP → Bool
  has_progress s = is_some (tp.find_unique_by s (is_progress_of user_id))

  has_progress-update :
      (s : SP) (k : ℕ) → has_progress (tp.update s k topics_selected) ≡ has_progress s
  has_progress-update s k =
      let p = is_progress_of user_id in
      ap is_some (tp.find_unique_by-eq (tp.update s k topics_selected) p)
      ∙ rw tp.rows-update
          (find-changed p (λ x. progress_key x == k) topics_selected (tp.rows s) (λ x. refl))
      ∙ ap is_some (sym (tp.find_unique_by-eq s p))

module _ {SP SI : Type 0} ⦃tp : ProgressTable SP⦄ ⦃ti : InterestTable SI⦄ (user_id : ℕ) where
  -- The last two statements: the update of the progress, and its reading.
  abbrev finish : Exec (State SP SI) (Unit {0})
  finish = do update_of user_id topics_selected; progress ← require_progress user_id; pure tt

  finish-lem :
      (s : State SP SI)
      → (is_ok (finish s).0 ≡ has_progress user_id s.progress)
        × ((finish s).1.interests ≡ s.interests)
  finish-lem s = elim (Option-cases (tp.find_unique_by s.progress (is_progress_of user_id))) [
    | inl e ↦ rw e (refl, refl)
    | inr (p, e) ↦
        let again : has_progress user_id (tp.update s.progress p.id topics_selected) ≡ true =
          has_progress-update user_id s.progress p.id ∙ rw e refl in
        elim (Option-cases (
          tp.find_unique_by (tp.update s.progress p.id topics_selected) (is_progress_of user_id))) [
            | inl f ↦ absurd (ground arith)
            | inr (q, f) ↦ rw (e, f) (refl, refl)
          ]
  ]

  module _ {ST : Type 0} ⦃tq : TopicTable ST⦄ (is_user : ℕ → Bool) (topics : ST) (now : ℕ)
      (selected : List TopicPriority) (s : State SP SI) where
    -- Two or three topics that all exist, with distinct priorities from 1 to 3.
    abbrev pub is_valid : Bool
    is_valid =
        (leb 2 (length selected) && leb (length selected) 3)
        && length (added_all (map (λ x. x.priority) selected) []) == length selected
        && is_ranked selected
        && all_exist topics selected

    -- What is left of the interests, and whether there is an error.
    pub record IsReplaced (r : Result (Unit {0})) (t : State SP SI) : Type 0 where
      pub own :
          (i : ℕ)
          → count (is_interest_of user_id i) (ti.rows t.interests)
            ≡ (if is_user user_id && is_named i selected then 1 else 0)
      pub others :
          (v i : ℕ)
          → user_id ≢ v
          → count (is_interest_of v i) (ti.rows t.interests)
            ≡ count (is_interest_of v i) (ti.rows s.interests)
      pub answer :
          is_ok r ≡ (is_user user_id && has_no_repeat selected && has_progress user_id s.progress)

    abbrev pub IsSelection : Result (Unit {0}) × State SP SI → Type 0
    IsSelection (r, t) = if is_valid then IsReplaced r t else (is_ok r ≡ false) × (t ≡ s)

    abbrev deleted : State SP SI
    deleted = record s { interests = ti.delete_many s.interests (λ x. x.user_id == user_id) }

    abbrev created : Result (Unit {0}) × State SP SI
    created = create_interests is_user now user_id selected deleted

    none_held : (i : ℕ) → count (is_interest_of user_id i) (ti.rows deleted.interests) ≡ 0
    none_held i =
        let self : (user_id == user_id) ≡ true = ground arith in
        rw ti.rows-delete_many
          (count-deleted user_id user_id i (ti.rows s.interests) ∙ rw self refl)

    own-created :
        (i : ℕ)
        → count (is_interest_of user_id i) (ti.rows created.1.interests)
          ≡ (if is_user user_id && is_named i selected then 1 else 0)
    own-created i = elim (Bool-cases (is_user user_id)) [
      | inl u ↦
          create_interests-held is_user now user_id u selected deleted i ∙ rw (none_held i, u) refl
      | inr u ↦
          let (_, same) = create_interests-unstored is_user now user_id selected deleted u in
          ap (λ x. count (is_interest_of user_id i) (ti.rows x.interests)) same
          ∙ none_held i
          ∙ rw u refl
    ]

    others-deleted :
        (v i : ℕ)
        → user_id ≢ v
        → count (is_interest_of v i) (ti.rows deleted.interests)
          ≡ count (is_interest_of v i) (ti.rows s.interests)
    others-deleted v i h =
        let other : (user_id == v) ≡ false = ground arith in
        rw ti.rows-delete_many (count-deleted user_id v i (ti.rows s.interests) ∙ rw other refl)

    others-created :
        (v i : ℕ)
        → user_id ≢ v
        → count (is_interest_of v i) (ti.rows created.1.interests)
          ≡ count (is_interest_of v i) (ti.rows s.interests)
    others-created v i h = elim (Bool-cases (is_user user_id)) [
      | inl u ↦
          (create_interests-others is_user now user_id u v selected deleted i h).0
          ∙ others-deleted v i h
      | inr u ↦
          let (_, same) = create_interests-unstored is_user now user_id selected deleted u in
          ap (λ x. count (is_interest_of v i) (ti.rows x.interests)) same ∙ others-deleted v i h
    ]

    progress-created : created.1.progress ≡ s.progress
    progress-created = create_interests-progress is_user now user_id selected deleted

    none_taken :
        (xs : List TopicPriority)
        → any
            (λ y. ltb 0 (count (is_interest_of user_id y.topic_id) (ti.rows deleted.interests)))
            xs
          ≡ false
    none_taken [] = refl
    none_taken (x ∷ xs) = rw (none_held x.topic_id) (none_taken xs)

    is_ok-created :
        (length selected == 0) ≡ false
        → is_ok created.0 ≡ (is_user user_id && has_no_repeat selected)
    is_ok-created nonempty = elim (Bool-cases (is_user user_id)) [
      | inl u ↦
          is_ok-create_interests is_user now user_id u selected deleted
          ∙ rw (none_taken selected, u) (ground arith)
      | inr u ↦
          (create_interests-unstored is_user now user_id selected deleted u).0
          ∙ nonempty
          ∙ rw u refl
    ]

    abbrev ending : Result (Unit {0}) × State SP SI
    ending =
        (do
          replace_interests is_user now user_id selected
          progress ← require_progress user_id
          pure tt)
          s

    ending-IsReplaced : (length selected == 0) ≡ false → IsReplaced ending.0 ending.1
    ending-IsReplaced nonempty = elim (Result-cases created.0) [
      | inl (e, h) ↦
          let repeated : false ≡ (is_user user_id && has_no_repeat selected) =
            rw h at (is_ok-created nonempty) in
          rw h (record {
            own = own-created;
            others = others-created;
            answer = ground (arith, repeated);
          })
      | inr (_, h) ↦
          let distinct : true ≡ (is_user user_id && has_no_repeat selected) =
            rw h at (is_ok-created nonempty) in
          let (answered, kept) = finish-lem created.1 in
          let same = ap (has_progress user_id) progress-created in
          rw h (record {
            own = λ i. ap (λ x. count (is_interest_of user_id i) (ti.rows x)) kept ∙ own-created i;
            others = λ v i d.
                ap (λ x. count (is_interest_of v i) (ti.rows x)) kept ∙ others-created v i d;
            answer = answered ∙ same ∙ ground (arith, distinct);
          })
    ]

    -- A selection that is not of two or three stored topics with distinct priorities from 1 to 3 throws
    -- and changes nothing. Any other one replaces the interests of the user, and of nobody else, by one in
    -- each topic that it names, or by none where the user is not stored, and it does so also where it throws:
    -- it answers without an error exactly where it names no topic twice and both the user and the progress of
    -- the user are stored.
    pub select_topics-IsSelection :
        IsSelection (select_topics is_user topics now user_id selected s)
    unfolding select_topics
    select_topics-IsSelection =
        elim (Bool-cases (leb 2 (length selected) && leb (length selected) 3)) [
          | inr a ↦ rw a (refl, refl)
          | inl a ↦
              elim (Bool-cases
                (length (added_all (map (λ x. x.priority) selected) []) == length selected)) [
                  | inr b ↦ rw (a, b) (refl, refl)
                  | inl b ↦ elim (Bool-cases (is_ranked selected)) [
                    | inr c ↦ rw (a, b, c) (refl, refl)
                    | inl c ↦ elim (Bool-cases (all_exist topics selected)) [
                      | inr d ↦ rw (a, b, c, d) (refl, refl)
                      | inl d ↦ rw (a, b, c, d) (ending-IsReplaced (ground arith))
                    ]
                  ]
                ]
        ]
