-- ===== src/Moderation/Lifecycle.antt =====
-- Runs of the operations of moderation-service: the state machines over whole histories.
use mathlib.Core.Option
use reasonbridge.Prelude.{
  or_else, ℕ, ◌≤◌, ◌≡◌, ◌≢◌, refl, true, false, ◌&&◌, some, List, [], ◌∷◌, arith, All, count, ◌==◌,
  ◌⊎◌,
}
use reasonbridge.Moderation.Types.{
  ActionStatus, AppealStatus, awaits_review, ModerationAction, Appeal, World, EventQueue,
  ActionTable, AppealTable, UserTable,
}
use reasonbridge.Moderation.Appeals.{pending_appeals, is_pending_for}
use reasonbridge.Moderation.Service.{
  Operation, create, approve, reject, ban_for, lift_expired, appeal, assign, unassign, review,
  review_pending, recommend, approve_recommended, reject_recommended, perform, perform_all,
  is_timely, all_timely,
}
use reasonbridge.Moderation.Machine.{
  IsSound, IsSoundAppeal, AppealAt, Follows, Follows-refl, Follows-trans, rank,
}
use reasonbridge.Moderation.Machine.ActionSteps.{
  create_action-Follows, approve_action-Follows, reject_action-Follows,
  create_temporary_ban-Follows, auto_lift_expired_bans-Follows,
}
use reasonbridge.Moderation.Machine.AppealSteps.{
  create_appeal-Follows, assign_appeal_to_moderator-Follows, unassign_appeal-Follows,
  review_appeal-Follows, review_pending_appeal-Follows,
}
use reasonbridge.Moderation.Machine.AiSteps.{
  submit_ai_recommendation-Follows, approve_recommendation-Follows, reject_recommendation-Follows,
  approve_recommendation-IsSound, reject_recommendation-IsSound,
}

still_ranked : (s : ActionStatus) → 2 ≤ rank s → s ≢ ActionStatus.active
still_ranked ActionStatus.pending h = ground arith
still_ranked _ h = ground arith

later_of :
    (s : ActionStatus) → (s ≡ ActionStatus.appealed) ⊎ (s ≡ ActionStatus.reversed) → 2 ≤ rank s
later_of s h = ground arith

unreviewed :
    (by : ℕ) (s : AppealStatus) (p : Appeal)
    → AppealAt s p
    → (awaits_review s && or_else (Option.map (λ r. r == by) p.reviewer_id) false) ≡ false
unreviewed by AppealStatus.pending p (e, _, _) = ground arith
unreviewed by _ p h = refl

no_reviewer :
    (by : ℕ) (ps : List Appeal)
    → All IsSoundAppeal ps
    → count (λ p. is_pending_for (some by) p && true) ps ≡ 0
no_reviewer by [] h = refl
no_reviewer by (p ∷ ps) (g, h) = ground (arith, no_reviewer by ps h, unreviewed by p.status p g)

empty_of_count : {A : Type 0} (xs : List A) → count (λ _. true) xs ≡ 0 → xs ≡ []
empty_of_count [] h = refl
empty_of_count (x ∷ xs) h = absurd (omega arith)

module _ {SA SP SU Q : Type 0} ⦃ta : ActionTable SA⦄ ⦃tp : AppealTable SP⦄ ⦃tu : UserTable SU⦄
    ⦃eq : EventQueue Q⦄ where
  perform-Follows :
      (o : Operation) (w : World SA SP SU Q) → is_timely o w ≡ true → Follows w (perform o w)
  unfolding perform is_timely
  perform-Follows (create request by now) w h = create_action-Follows w request by now
  perform-Follows (approve id by modified now) w h = approve_action-Follows w id by modified now
  perform-Follows (reject id reason) w h = reject_action-Follows w id reason
  perform-Follows (ban_for user_id days reasoning by now) w h =
      create_temporary_ban-Follows w user_id days reasoning by now
  perform-Follows (lift_expired now) w h = auto_lift_expired_bans-Follows w now
  perform-Follows (appeal id by reason now) w h = create_appeal-Follows w id by reason now
  perform-Follows (assign id by) w h = assign_appeal_to_moderator-Follows w id by
  perform-Follows (unassign id) w h = unassign_appeal-Follows w id
  perform-Follows (review id by d reasoning now) w h = review_appeal-Follows w id by d reasoning now
  perform-Follows (review_pending id by d reasoning now) w h =
      review_pending_appeal-Follows w id by d reasoning now
  perform-Follows (recommend request now) w h = submit_ai_recommendation-Follows w request now
  perform-Follows (approve_recommended id by now) w h = approve_recommendation-Follows w id by now h
  perform-Follows (reject_recommended id reason) w h = reject_recommendation-Follows w id reason h

  perform-IsSound : (o : Operation) (w : World SA SP SU Q) → IsSound w → IsSound (perform o w)
  unfolding perform is_timely
  perform-IsSound (approve_recommended id by now) w h = approve_recommendation-IsSound w id by now h
  perform-IsSound (reject_recommended id reason) w h = reject_recommendation-IsSound w id reason h
  perform-IsSound (create request by now) w h =
      (perform-Follows (create request by now) w refl).sound h
  perform-IsSound (approve id by modified now) w h =
      (perform-Follows (approve id by modified now) w refl).sound h
  perform-IsSound (reject id reason) w h = (perform-Follows (reject id reason) w refl).sound h
  perform-IsSound (ban_for user_id days reasoning by now) w h =
      (perform-Follows (ban_for user_id days reasoning by now) w refl).sound h
  perform-IsSound (lift_expired now) w h = (perform-Follows (lift_expired now) w refl).sound h
  perform-IsSound (appeal id by reason now) w h =
      (perform-Follows (appeal id by reason now) w refl).sound h
  perform-IsSound (assign id by) w h = (perform-Follows (assign id by) w refl).sound h
  perform-IsSound (unassign id) w h = (perform-Follows (unassign id) w refl).sound h
  perform-IsSound (review id by d reasoning now) w h =
      (perform-Follows (review id by d reasoning now) w refl).sound h
  perform-IsSound (review_pending id by d reasoning now) w h =
      (perform-Follows (review_pending id by d reasoning now) w refl).sound h
  perform-IsSound (recommend request now) w h =
      (perform-Follows (recommend request now) w refl).sound h

  perform_all-IsKept :
      (os : List Operation) (w : World SA SP SU Q) → IsSound w → IsSound (perform_all os w)
  unfolding perform_all
  perform_all-IsKept [] w h = h
  perform_all-IsKept (o ∷ os) w h = perform_all-IsKept os (perform o w) (perform-IsSound o w h)

  -- Whatever operations run one after another, returning or throwing, where every decision of
  -- `AIReviewService` on a recommendation is made while its action is PENDING, or is not stored: every
  -- action and every appeal is still stored under its id; an action keeps its target, type, severity and
  -- creation time and never goes back in PENDING, ACTIVE, APPEALED, REVERSED; an appeal keeps its action,
  -- appellant, reason and creation time, and once UPHELD or DENIED nothing of it changes; and a sound state
  -- leads to a sound state.
  pub perform_all-Follows :
      (os : List Operation) (w : World SA SP SU Q)
      → all_timely os w ≡ true
      → Follows w (perform_all os w)
  unfolding perform_all all_timely
  perform_all-Follows [] w h = Follows-refl w
  perform_all-Follows (o ∷ os) w h =
      Follows-trans (perform-Follows o w (ground arith))
        (perform_all-Follows os (perform o w) (ground arith))

  -- From a sound state, after any operations, the appeals that `getPendingAppeals` finds for an
  -- assigned moderator are none: an assigned appeal is UNDER_REVIEW, and a PENDING one has no
  -- reviewer.
  pub pending_appeals_assigned :
      (os : List Operation) (w : World SA SP SU Q) (by : ℕ)
      → IsSound w
      → pending_appeals (some by) (perform_all os w) ≡ []
  unfolding pending_appeals
  pending_appeals_assigned os w by h =
      let v = perform_all os w in
      let s = perform_all-IsKept os w h in
      empty_of_count _ (
        rw (tp.count-find_many v.appeals (is_pending_for (some by)) (λ _. true))
          (no_reviewer by _ s.appeals))

  -- An action that was appealed or reversed is never in force again, as long as the decisions of
  -- `AIReviewService` on recommendations are made while their actions are PENDING, or are not stored: after
  -- any such operations, a denied appeal among them, it is still stored and its status is not ACTIVE.
  pub appealed_never_active :
      (os : List Operation) (w : World SA SP SU Q) (id : ℕ) (a : ModerationAction)
      → ta.find_unique w.actions id ≡ some a
      → (a.status ≡ ActionStatus.appealed) ⊎ (a.status ≡ ActionStatus.reversed)
      → all_timely os w ≡ true
      → (b : ModerationAction) × (ta.find_unique (perform_all os w).actions id ≡ some b)
        × (b.status ≢ ActionStatus.active)
  appealed_never_active os w id a e h timely =
      let (b, f, move) =
        (perform_all-Follows os w timely).actions id a (rw ta.find_unique-eq at e) in
      (
        b,
        rw ta.find_unique-eq f,
        still_ranked b.status (omega (arith, later_of a.status h, move.forward)),
      )
