-- ===== src/Moderation/Machine/ActionSteps.antt =====
-- Every operation on moderation actions follows the state machines.
use reasonbridge.Prelude.{
  ℕ, ◌≤◌, ◌≡◌, refl, true, Option, [], ◌∷◌, arith, ltb, length, Text, Bool-cases, Option-cases, inl,
  inr,
}
use reasonbridge.Moderation.Types.{
  ActionStatus, ModerationAction, World, EventQueue, ActionTable, AppealTable, UserTable,
  is_pending, is_non_punitive,
}
use reasonbridge.Moderation.Actions.{
  CreateActionRequest, create_action, approve_action, reject_action, create_temporary_ban,
  auto_lift_expired_bans, new_action, new_ban, among, lift, is_expired_ban, lift_bans,
}
use reasonbridge.Moderation.Machine.{ActionMoves, Follows, Follows-refl, rank}
use reasonbridge.Moderation.Machine.Writes.{
  Follows-update_action, Follows-update_actions, Follows-create_action, Follows-queue,
}

-- A write of the status, the approval and the reasoning alone.
pub moves :
    {a b : ModerationAction}
    → b.target_type ≡ a.target_type
    → b.target_id ≡ a.target_id
    → b.action_type ≡ a.action_type
    → b.severity ≡ a.severity
    → b.created_at ≡ a.created_at
    → rank a.status ≤ rank b.status
    → ActionMoves a b
moves t i k s c f = record {
  target_type = t;
  target_id = i;
  action_type = k;
  severity = s;
  created_at = c;
  forward = f;
}

pub pending_first : (s : ActionStatus) (n : ℕ) → is_pending s ≡ true → rank s ≤ n
pending_first ActionStatus.pending n h = omega arith
pending_first _ n h = cc

pub reversed_last : (s : ActionStatus) → rank s ≤ 3
reversed_last ActionStatus.pending = omega arith
reversed_last _ = omega arith

module _ {SA SP SU Q : Type 0} ⦃ta : ActionTable SA⦄ ⦃tp : AppealTable SP⦄ ⦃tu : UserTable SU⦄
    ⦃eq : EventQueue Q⦄ (w : World SA SP SU Q) where
  pub approve_action-Follows :
      (id by : ℕ) (modified : Option Text) (now : ℕ)
      → Follows w (approve_action id by modified now w).1
  unfolding approve_action
  approve_action-Follows id by modified now = elim (Option-cases (ta.find_unique w.actions id)) [
    | inl e ↦ rw e (Follows-refl w)
    | inr (a, e) ↦ rw e (elim (Bool-cases (is_pending a.status)) [
      | inr t ↦ rw t (Follows-refl w)
      | inl t ↦ rw t (elim (Bool-cases (is_non_punitive a.severity)) [
        | inl u ↦ rw u (Follows-refl w)
        | inr u ↦ rw u (
            Follows-update_action w id _ (λ x. refl) e
              (moves refl refl refl refl refl (pending_first _ _ t)) refl)
      ])
    ])
  ]

  pub reject_action-Follows : (id : ℕ) (reason : Text) → Follows w (reject_action id reason w).1
  unfolding reject_action
  reject_action-Follows id reason = elim (Option-cases (ta.find_unique w.actions id)) [
    | inl e ↦ rw e (Follows-refl w)
    | inr (a, e) ↦ rw e (elim (Bool-cases (is_pending a.status)) [
      | inr t ↦ rw t (Follows-refl w)
      | inl t ↦ rw t (
          Follows-update_action w id _ (λ x. refl) e
            (moves refl refl refl refl refl (reversed_last _)) tt)
    ])
  ]

  pub create_action-Follows :
      (request : CreateActionRequest) (by now : ℕ) → Follows w (create_action request by now w).1
  unfolding create_action
  create_action-Follows request by now = elim (Bool-cases (ltb (length request.reasoning) 20)) [
    | inl t ↦ rw t (Follows-refl w)
    | inr t ↦ rw t (elim (Option-cases (ta.create w.actions (new_action request by now))) [
      | inl e ↦ rw e (Follows-refl w)
      | inr ((r, s), e) ↦
          rw e (Follows-queue _ (Follows-create_action w _ (λ i. refl) (λ i. refl) e))
    ])
  ]

  pub create_temporary_ban-Follows :
      (user_id days : ℕ) (reasoning : Text) (by now : ℕ)
      → Follows w (create_temporary_ban user_id days reasoning by now w).1
  unfolding create_temporary_ban
  create_temporary_ban-Follows user_id days reasoning by now = elim (Bool-cases (ltb 0 days)) [
    | inr t ↦ rw t (Follows-refl w)
    | inl t ↦ rw t (elim (Bool-cases (ltb 365 days)) [
      | inl u ↦ rw u (Follows-refl w)
      | inr u ↦
          rw u (elim (Option-cases (ta.create w.actions (new_ban user_id days reasoning by now))) [
            | inl e ↦ rw e (Follows-refl w)
            | inr ((r, s), e) ↦
                rw e (Follows-queue _ (Follows-create_action w _ (λ i. refl) (λ i. refl) e))
          ])
    ])
  ]

  pub auto_lift_expired_bans-Follows : (now : ℕ) → Follows w (auto_lift_expired_bans now w).1
  unfolding auto_lift_expired_bans
  auto_lift_expired_bans-Follows now =
      elim (ta.find_many w.actions (is_expired_ban now))
        as (λ bans. Follows w (lift_bans bans now w).1) [
          | [] ↦ Follows-refl w
          | b ∷ bs ↦
              Follows-update_actions w (among (b ∷ bs)) (lift b now) (λ x. refl)
                (λ x _. moves refl refl refl refl refl (reversed_last _)) (λ x. tt)
        ]
