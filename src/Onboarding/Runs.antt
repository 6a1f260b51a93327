-- ===== src/Onboarding/Runs.antt =====
-- The progress of the users under any requests, one after another.
use mathlib.Core.Path.{subst}
use reasonbridge.Prelude.{
  Bool, ℕ, length, leb, map, ◌&&◌, ◌≡◌, refl, sym, ◌∙◌, false, some, List, [], ◌∷◌, arith, ◌==◌,
  Bool-cases, Option-cases, inl, inr,
}
use reasonbridge.Exec.{Exec, Result-cases, pure, ◌>>=◌, ◌>>◌}
use reasonbridge.Database.Evolution.{Evolves, Evolves-trans}
use reasonbridge.Discussions.{TopicTable}
use reasonbridge.Onboarding.{
  OnboardingProgress, TopicPriority, State, ProgressTable, InterestTable, progress_key,
  is_progress_of, new_progress, email_verified, topics_selected, orientation_viewed,
  first_post_made, create_progress, update_of, mark_email_verified, require_progress,
  mark_orientation_viewed, mark_first_post, create_interests, is_ranked, all_exist,
  replace_interests, select_topics, delete_interests,
}
use reasonbridge.Onboarding.Interests.{create_interests-progress}
use reasonbridge.IdSet.{added_all}
use reasonbridge.Onboarding.Steps.{
  IsReached, IsSound, Keeps, Keeps-trans, email_verified-Keeps, topics_selected-Keeps,
  orientation_viewed-Keeps, first_post_made-Keeps, is_reached-orientation_viewed, Advances,
  Advances-refl, created-Advances, changed-Advances,
}

-- A request, with its time, its user and its parameters.
pub data Operation : Type 0 where
  create verify_email view_orientation : ℕ → Operation
  post : (now user_id : ℕ) → Operation
  select : (now user_id : ℕ) → List TopicPriority → Operation

module _ {SP SI : Type 0} ⦃tp : ProgressTable SP⦄ ⦃ti : InterestTable SI⦄ where
  abbrev To : State SP SI → State SP SI → Type 0
  To s t = Advances (tp.rows s.progress) (tp.rows t.progress)

  create_progress-Advances : (u : ℕ) (s : State SP SI) → To s (create_progress u s).1
  unfolding create_progress
  create_progress-Advances u s = elim (Option-cases (tp.create s.progress (new_progress u))) [
    | inl e ↦ rw e (Advances-refl (tp.rows s.progress))
    | inr ((r, t), e) ↦
        let (k, made, fresh, _, rows) = tp.create-some s.progress (new_progress u) e in
        rw (e, rows, made) (created-Advances u k (tp.rows s.progress) fresh)
  ]

  update_of-Advances :
      (u : ℕ) (f : OnboardingProgress → OnboardingProgress) (s : State SP SI)
      → ((x : OnboardingProgress) → (f x).id ≡ x.id)
      → ((p : OnboardingProgress)
          → tp.find_unique_by s.progress (is_progress_of u) ≡ some p
          → IsReached p
          → IsReached (f p) × Keeps p (f p))
      → To s (update_of u f s).1
  update_of-Advances u f s same step =
      elim (Option-cases (tp.find_unique_by s.progress (is_progress_of u))) [
        | inl e ↦ rw e (Advances-refl (tp.rows s.progress))
        | inr (p, e) ↦
            let found = sym (tp.find_unique_by-eq s.progress (is_progress_of u)) ∙ e in
            rw (e, tp.rows-update)
              (changed-Advances f (is_progress_of u) p (tp.rows s.progress) same found (step p e))
      ]

  mark_email_verified-Advances : (u : ℕ) (s : State SP SI) → To s (mark_email_verified u s).1
  unfolding mark_email_verified
  mark_email_verified-Advances u s =
      update_of-Advances u email_verified s (λ x. refl)
        (λ p e (_, h). ((refl, h), email_verified-Keeps p))

  topics_selected-Advances : (u : ℕ) (s : State SP SI) → To s (update_of u topics_selected s).1
  topics_selected-Advances u s =
      update_of-Advances u topics_selected s (λ x. refl)
        (λ p e (_, h). ((refl, h), topics_selected-Keeps p))

  mark_orientation_viewed-Advances :
      (u : ℕ) (s : State SP SI) → To s (mark_orientation_viewed u s).1
  unfolding mark_orientation_viewed
  mark_orientation_viewed-Advances u s =
      elim (Option-cases (tp.find_unique_by s.progress (is_progress_of u))) [
        | inl e ↦ rw e (Advances-refl (tp.rows s.progress))
        | inr (q, e) ↦
            let step =
              update_of-Advances u orientation_viewed s (λ x. refl)
                (λ p e (a, h). (
                  (is_reached-orientation_viewed p.current_step p ∙ a, h),
                  orientation_viewed-Keeps p,
                )) in
            rw e step
      ]

  mark_first_post-Advances : (now u : ℕ) (s : State SP SI) → To s (mark_first_post now u s).1
  unfolding mark_first_post
  mark_first_post-Advances now u s =
      elim (Option-cases (tp.find_unique_by s.progress (is_progress_of u))) [
        | inl e ↦ rw e (Advances-refl (tp.rows s.progress))
        | inr (q, e) ↦ elim (Bool-cases q.first_post_made) [
          | inl m ↦ rw (e, m) (Advances-refl (tp.rows s.progress))
          | inr m ↦
              let step =
                update_of-Advances u (first_post_made now) s (λ x. refl)
                  (λ p e' h.
                    let same : q ≡ p = ground (arith, e, e') in
                    let unmade : p.first_post_made ≡ false = rw (← same) m in
                    ((refl, refl), first_post_made-Keeps now p unmade h)) in
              rw (e, m) step
        ]
      ]

  replace_interests-Advances :
      (is_user : ℕ → Bool) (now u : ℕ) (selected : List TopicPriority) (s : State SP SI)
      → To s (replace_interests is_user now u selected s).1
  replace_interests-Advances is_user now u selected s =
      let deleted = (delete_interests u s).1 in
      let made = create_interests is_user now u selected deleted in
      let same = create_interests-progress is_user now u selected deleted in
      elim (Result-cases made.0) [
        | inl (e, h) ↦ rw (h, same) (Advances-refl (tp.rows s.progress))
        | inr (_, h) ↦
            let step = topics_selected-Advances u made.1 in
            rw h (
              subst
                (λ x.
                  Advances (tp.rows x) (tp.rows (update_of u topics_selected made.1).1.progress))
                same step)
      ]

  -- Reading the progress at the end changes nothing.
  read-Advances :
      (u : ℕ) (m : Exec (State SP SI) (Unit {0})) (s : State SP SI)
      → To s (m s).1
      → To s ((do m; progress ← require_progress u; pure tt) s).1
  read-Advances u m s h = elim (Result-cases (m s).0) [
    | inl (e, a) ↦ rw a h
    | inr (_, a) ↦ elim (Option-cases (tp.find_unique_by (m s).1.progress (is_progress_of u))) [
      | inl e ↦ rw (a, e) h
      | inr (p, e) ↦ rw (a, e) h
    ]
  ]

  module _ {ST : Type 0} ⦃tq : TopicTable ST⦄ (is_user : ℕ → Bool) (topics : ST) where
    select_topics-Advances :
        (now u : ℕ) (selected : List TopicPriority) (s : State SP SI)
        → To s (select_topics is_user topics now u selected s).1
    unfolding select_topics
    select_topics-Advances now u selected s =
        elim (Bool-cases (leb 2 (length selected) && leb (length selected) 3)) [
          | inr a ↦ rw a (Advances-refl (tp.rows s.progress))
          | inl a ↦
              elim (Bool-cases
                (length (added_all (map (λ x. x.priority) selected) []) == length selected)) [
                  | inr b ↦ rw (a, b) (Advances-refl (tp.rows s.progress))
                  | inl b ↦ elim (Bool-cases (is_ranked selected)) [
                    | inr c ↦ rw (a, b, c) (Advances-refl (tp.rows s.progress))
                    | inl c ↦ elim (Bool-cases (all_exist topics selected)) [
                      | inr d ↦ rw (a, b, c, d) (Advances-refl (tp.rows s.progress))
                      | inl d ↦
                          rw (a, b, c, d)
                            (read-Advances u (replace_interests is_user now u selected) s
                              (replace_interests-Advances is_user now u selected s))
                    ]
                  ]
                ]
        ]

    unfoldable pub perform : Operation → State SP SI → State SP SI
    perform (create user_id) s = (create_progress user_id s).1
    perform (verify_email user_id) s = (mark_email_verified user_id s).1
    perform (view_orientation user_id) s = (mark_orientation_viewed user_id s).1
    perform (post now user_id) s = (mark_first_post now user_id s).1
    perform (select now user_id selected) s =
        (select_topics is_user topics now user_id selected s).1

    unfoldable pub perform_all : List Operation → State SP SI → State SP SI
    perform_all [] s = s
    perform_all (o ∷ os) s = perform_all os (perform o s)

    perform-Advances : (o : Operation) (s : State SP SI) → To s (perform o s)
    unfolding perform
    perform-Advances (create u) s = create_progress-Advances u s
    perform-Advances (verify_email u) s = mark_email_verified-Advances u s
    perform-Advances (view_orientation u) s = mark_orientation_viewed-Advances u s
    perform-Advances (post now u) s = mark_first_post-Advances now u s
    perform-Advances (select now u selected) s = select_topics-Advances now u selected s

    -- Any requests, returning or throwing, lead from sound rows, none for instance, to sound rows, and keep
    -- each row under its key with its user. Sound rows have distinct keys; a row at the step of the
    -- verification has no other flag than that of the orientation; at the topics the address is verified, at
    -- the orientation topics are selected, at the end the first post is made, and a row has a time of
    -- completion exactly where the first post is made. No request withdraws a flag or replaces a time of
    -- completion.
    pub perform_all-Keeps :
        (os : List Operation) (s : State SP SI)
        → IsSound (tp.rows s.progress)
        → IsSound (tp.rows (perform_all os s).progress)
          × Evolves progress_key Keeps (tp.rows s.progress) (tp.rows (perform_all os s).progress)
    unfolding perform_all
    perform_all-Keeps [] s h = Advances-refl (tp.rows s.progress) h
    perform_all-Keeps (o ∷ os) s h =
        let (sound, first) = perform-Advances o s h in
        let (final, rest) = perform_all-Keeps os (perform o s) sound in
        (final, Evolves-trans progress_key Keeps Keeps-trans _ _ _ first rest)
