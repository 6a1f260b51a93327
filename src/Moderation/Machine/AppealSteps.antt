-- ===== src/Moderation/Machine/AppealSteps.antt =====
-- Every operation on appeals follows the state machines.
use mathlib.Core.Path.{subst}
use reasonbridge.Database.{find-true}
use reasonbridge.Prelude.{
  ℕ, ◌≤◌, ◌≡◌, refl, sym, ◌==◌, ==_iff, true, false, ◌||◌, Option, none, some, arith, ltb, length,
  is_some, Text, Bool-cases, Option-cases, ◌⊎◌, inl, inr,
}
use reasonbridge.Exec.{state->>-pure, ok, err, bad_request, Cause}
use reasonbridge.Moderation.Types.{
  ActionStatus, AppealStatus, ModerationAction, Appeal, World, EventQueue, ActionTable, AppealTable,
  UserTable, is_reversed, awaits_review, is_under_review,
}
use reasonbridge.Moderation.Appeals.{
  Decision, upheld, denied, is_open, any_open, is_blank, is_appeal_of, new_appeal, create_appeal,
  assign_appeal_to_moderator, unassign_appeal, review_appeal, review_pending_appeal, decide,
  decided, check_text, reverse_action,
}
use reasonbridge.Moderation.Machine.{
  AppealMoves, Follows, Follows-refl, Follows-trans, rank, AppealAt,
}
use reasonbridge.Moderation.Machine.Writes.{
  Follows-update_action, Follows-update_appeal, Follows-create_appeal, Follows-queue,
}
use reasonbridge.Moderation.Machine.ActionSteps.{moves, reversed_last}

appealed_next : (s : ActionStatus) → is_reversed s ≡ false → rank s ≤ 2
appealed_next ActionStatus.pending h = omega arith
appealed_next ActionStatus.active h = omega arith
appealed_next ActionStatus.appealed h = omega arith
appealed_next ActionStatus.reversed h = cc

-- A write to an appeal that is open keeps what it says.
reviewed :
    {p q : Appeal}
    → q.moderation_action_id ≡ p.moderation_action_id
    → q.appellant_id ≡ p.appellant_id
    → q.reason ≡ p.reason
    → q.created_at ≡ p.created_at
    → is_open p ≡ true
    → AppealMoves p q
reviewed a u r c o = record {
  action = a;
  appellant = u;
  reason = r;
  created_at = c;
  decided = λ h. ground arith;
}

open_parts :
    (s : AppealStatus) (p : Appeal)
    → (awaits_review s || is_under_review s) ≡ true
    → AppealAt s p
    → (p.decision_reasoning ≡ none) × (p.resolved_at ≡ none)
open_parts AppealStatus.pending p o (_, d, r) = (d, r)
open_parts AppealStatus.under_review p o (_, d, r) = (d, r)
open_parts _ p o h = cc

decided-IsSound :
    (d : Decision) (p : Appeal)
    → (is_some p.reviewer_id ≡ true)
    → (is_some p.decision_reasoning ≡ true)
    → (is_some p.resolved_at ≡ true)
    → AppealAt (decided d) p
decided-IsSound upheld p a b c = (a, b, c)
decided-IsSound denied p a b c = (a, b, c)

module _ {SA SP SU Q : Type 0} ⦃ta : ActionTable SA⦄ ⦃tp : AppealTable SP⦄ ⦃tu : UserTable SU⦄
    ⦃eq : EventQueue Q⦄ (w : World SA SP SU Q) where
  pub assign_appeal_to_moderator-Follows :
      (id by : ℕ) → Follows w (assign_appeal_to_moderator id by w).1
  unfolding assign_appeal_to_moderator
  assign_appeal_to_moderator-Follows id by = elim (Option-cases (tp.find_unique w.appeals id)) [
    | inl e ↦ rw e (Follows-refl w)
    | inr (p, e) ↦ rw e (elim (Bool-cases (awaits_review p.status)) [
      | inr t ↦ rw t (Follows-refl w)
      | inl t ↦ rw t (elim (Option-cases (tu.find_unique w.users by)) [
        | inl u ↦ rw u (Follows-refl w)
        | inr (m, u) ↦ rw u (
            Follows-update_appeal w id _ (λ x. refl) e (reviewed refl refl refl refl (ground arith))
              (λ h. let (d, r) = open_parts p.status p (ground arith) h in (refl, d, r)))
      ])
    ])
  ]

  pub unassign_appeal-Follows : (id : ℕ) → Follows w (unassign_appeal id w).1
  unfolding unassign_appeal
  unassign_appeal-Follows id = elim (Option-cases (tp.find_unique w.appeals id)) [
    | inl e ↦ rw e (Follows-refl w)
    | inr (p, e) ↦ rw e (elim (Bool-cases (is_under_review p.status)) [
      | inr t ↦ rw t (Follows-refl w)
      | inl t ↦ rw t (
          Follows-update_appeal w id _ (λ x. refl) e (reviewed refl refl refl refl (ground arith))
            (λ h. let (d, r) = open_parts p.status p (ground arith) h in (refl, d, r)))
    ])
  ]

  pub check_text_cases :
      (t : Text) (most : ℕ)
      → (check_text t most w ≡ (ok tt, w))
        ⊎ ((c : Cause) × (check_text t most w ≡ (err (bad_request c), w)))
  unfolding check_text
  check_text_cases t most = elim (Bool-cases (is_blank t)) [
    | inl a ↦ inr (Cause.reason_required, rw a)
    | inr a ↦ elim (Bool-cases (ltb (length t) 20)) [
      | inl b ↦ inr (Cause.reason_too_short, rw (a, b))
      | inr b ↦ elim (Bool-cases (ltb most (length t))) [
        | inl c ↦ inr (Cause.reason_too_long, rw (a, b, c))
        | inr c ↦ inl (rw (a, b, c))
      ]
    ]
  ]

  pub create_appeal-Follows :
      (id by : ℕ) (reason : Text) (now : ℕ) → Follows w (create_appeal id by reason now w).1
  unfolding create_appeal
  create_appeal-Follows id by reason now = elim (check_text_cases reason 5000) [
    | inr (c, e) ↦ rw e (Follows-refl w)
    | inl e ↦ rw e (elim (Option-cases (ta.find_unique w.actions id)) [
      | inl f ↦ rw f (Follows-refl w)
      | inr (a, f) ↦ rw f (elim (Bool-cases (is_reversed a.status)) [
        | inl t ↦ rw t (Follows-refl w)
        | inr t ↦
            rw t (elim (Bool-cases (any_open (tp.find_unique_by w.appeals (is_appeal_of id by)))) [
              | inl u ↦ rw u (Follows-refl w)
              | inr u ↦
                  rw u (elim (Option-cases (tp.create w.appeals (new_appeal id by reason now))) [
                    | inl c ↦ rw c (Follows-refl w)
                    | inr ((p, s), c) ↦ rw c (
                        Follows-trans
                          (Follows-create_appeal w _ (λ i. refl) (λ i. (refl, refl, refl)) c)
                          (Follows-update_action (record w { appeals = s }) id _ (λ x. refl) f
                            (moves refl refl refl refl refl (appealed_next a.status t)) tt))
                  ])
            ])
      ])
    ])
  ]

  -- The row that is found under a key has that key.
  found_own :
      (id : ℕ) (a : ModerationAction)
      → ta.find_unique w.actions id ≡ some a
      → ta.find_unique w.actions a.id ≡ some a
  found_own id a e =
      let own = find-true (λ r. r.id == id) (ta.rows w.actions) a (rw ta.find_unique-eq at e) in
      let same : id ≡ a.id = sym ((==_iff _ _).0 own) in
      subst (λ j. ta.find_unique w.actions j ≡ some a) same e

  reverse_action-Follows :
      (id : ℕ) (p : Appeal) (by : ℕ) (d : Decision) (reasoning : Text) (o : Option ModerationAction)
      → ((a : ModerationAction) → o ≡ some a → ta.find_unique w.actions a.id ≡ some a)
      → Follows w (reverse_action id p by d reasoning o w).1
  reverse_action-Follows id p by upheld reasoning (some a) own = Follows-queue _ (
      Follows-update_action w a.id _ (λ x. refl) (own a refl)
        (moves refl refl refl refl refl (reversed_last _)) tt)
  reverse_action-Follows id p by upheld reasoning none own = Follows-refl w
  reverse_action-Follows id p by denied reasoning o own = Follows-refl w

module _ {SA SP SU Q : Type 0} ⦃ta : ActionTable SA⦄ ⦃tp : AppealTable SP⦄ ⦃tu : UserTable SU⦄
    ⦃eq : EventQueue Q⦄ (w : World SA SP SU Q) where
  decide-Follows :
      (id : ℕ) (p : Appeal) (by : ℕ) (d : Decision) (reasoning : Text) (now : ℕ)
      → tp.find_unique w.appeals id ≡ some p
      → is_open p ≡ true
      → Follows w (decide id p by d reasoning now w).1
  unfolding decide
  decide-Follows id p by d reasoning now e o =
      subst (Follows w) (sym (state->>-pure (reverse_action id p by d reasoning _) _ _)) (
        Follows-trans
          (Follows-update_appeal w id _ (λ x. refl) e (reviewed refl refl refl refl o)
            (λ h. decided-IsSound d _ refl refl refl))
          (reverse_action-Follows _ id p by d reasoning _ (λ a f. found_own w _ a f)))

  pub review_appeal-Follows :
      (id by : ℕ) (d : Decision) (reasoning : Text) (now : ℕ)
      → Follows w (review_appeal id by d reasoning now w).1
  unfolding review_appeal
  review_appeal-Follows id by d reasoning now = elim (check_text_cases w reasoning 2000) [
    | inr (c, e) ↦ rw e (Follows-refl w)
    | inl e ↦ rw e (elim (Option-cases (tp.find_unique w.appeals id)) [
      | inl f ↦ rw f (Follows-refl w)
      | inr (p, f) ↦ rw f (elim (Bool-cases (is_open p)) [
        | inr t ↦ rw t (Follows-refl w)
        | inl t ↦ rw t (decide-Follows id p by d reasoning now f t)
      ])
    ])
  ]

  pub review_pending_appeal-Follows :
      (id by : ℕ) (d : Decision) (reasoning : Text) (now : ℕ)
      → Follows w (review_pending_appeal id by d reasoning now w).1
  unfolding review_pending_appeal
  review_pending_appeal-Follows id by d reasoning now = elim (check_text_cases w reasoning 2000) [
    | inr (c, e) ↦ rw e (Follows-refl w)
    | inl e ↦ rw e (elim (Option-cases (tp.find_unique w.appeals id)) [
      | inl f ↦ rw f (Follows-refl w)
      | inr (p, f) ↦ rw f (elim (Bool-cases (awaits_review p.status)) [
        | inr t ↦ rw t (Follows-refl w)
        | inl t ↦ rw t (decide-Follows id p by d reasoning now f (ground arith))
      ])
    ])
  ]
