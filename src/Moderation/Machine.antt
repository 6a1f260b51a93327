-- ===== src/Moderation/Machine.antt =====
-- The state machines that the services of moderation-service are to implement: how an action and
-- an appeal may change, and what each row satisfies at all times.
pub mod Writes
pub mod ActionSteps
pub mod AppealSteps
pub mod AiSteps
use mathlib.Core.Path.{subst}
use native.Mathlib.Nat.{le_refl, le_trans}
use reasonbridge.Prelude.{
  ℕ, ◌≤◌, ◌≡◌, refl, ◌∙◌, Bool, true, false, ◌&&◌, Option, none, some, List, ◌∷◌, arith, is_some,
  Text, All, sym,
}
use reasonbridge.Database.{
  Table, modify_first, modify_all, All-find, All-modify_first, All-modify_all,
}
use reasonbridge.Database.Evolution.{
  Evolves, Evolves-refl, Evolves-cons, Evolves-modify_first, Evolves-modify_all, Evolves-trans,
}
use reasonbridge.Moderation.Types.{
  ActionStatus, AppealStatus, ModerationAction, Appeal, World, EventQueue, ActionTable, AppealTable,
  UserTable, action_key, appeal_key,
}
use reasonbridge.Moderation.Appeals.{is_open}

-- PENDING, ACTIVE, APPEALED, REVERSED: a status is never left for an earlier one.
abbrev pub rank : ActionStatus → ℕ
rank ActionStatus.pending = 0
rank ActionStatus.active = 1
rank ActionStatus.appealed = 2
rank ActionStatus.reversed = 3

-- What an action is about never changes, and its status only moves forward.
pub record ActionMoves (a b : ModerationAction) : Type 0 where
  pub target_type : b.target_type ≡ a.target_type
  pub target_id : b.target_id ≡ a.target_id
  pub action_type : b.action_type ≡ a.action_type
  pub severity : b.severity ≡ a.severity
  pub created_at : b.created_at ≡ a.created_at
  pub forward : rank a.status ≤ rank b.status

-- What an appeal says never changes, and once it is decided nothing of it does.
pub record AppealMoves (p q : Appeal) : Type 0 where
  pub action : q.moderation_action_id ≡ p.moderation_action_id
  pub appellant : q.appellant_id ≡ p.appellant_id
  pub reason : q.reason ≡ p.reason
  pub created_at : q.created_at ≡ p.created_at
  pub decided : is_open p ≡ false → q ≡ p

-- An action that is in force was approved and carried out.
abbrev pub ActionAt : ActionStatus → ModerationAction → Type 0
ActionAt ActionStatus.active a =
    (is_some a.approved_by_id && is_some a.approved_at && is_some a.executed_at) ≡ true
ActionAt _ a = Unit

abbrev pub IsSoundAction : ModerationAction → Type 0
IsSoundAction a = ActionAt a.status a

-- A pending appeal has no reviewer, one under review has one, and only a decided one has a decision.
abbrev pub AppealAt : AppealStatus → Appeal → Type 0
AppealAt AppealStatus.pending p =
    (p.reviewer_id ≡ none) × (p.decision_reasoning ≡ none) × (p.resolved_at ≡ none)
AppealAt AppealStatus.under_review p =
    (is_some p.reviewer_id ≡ true) × (p.decision_reasoning ≡ none) × (p.resolved_at ≡ none)
AppealAt _ p =
    (is_some p.reviewer_id ≡ true)
    × (is_some p.decision_reasoning ≡ true)
    × (is_some p.resolved_at ≡ true)

abbrev pub IsSoundAppeal : Appeal → Type 0
IsSoundAppeal p = AppealAt p.status p

pub ActionMoves-refl : (a : ModerationAction) → ActionMoves a a
ActionMoves-refl a = record {
  target_type = refl;
  target_id = refl;
  action_type = refl;
  severity = refl;
  created_at = refl;
  forward = le_refl _;
}

ActionMoves-trans : (a b c : ModerationAction) → ActionMoves a b → ActionMoves b c → ActionMoves a c
ActionMoves-trans a b c f g = record {
  target_type = g.target_type ∙ f.target_type;
  target_id = g.target_id ∙ f.target_id;
  action_type = g.action_type ∙ f.action_type;
  severity = g.severity ∙ f.severity;
  created_at = g.created_at ∙ f.created_at;
  forward = le_trans f.forward g.forward;
}

pub AppealMoves-refl : (p : Appeal) → AppealMoves p p
AppealMoves-refl p = record {
  action = refl;
  appellant = refl;
  reason = refl;
  created_at = refl;
  decided = λ _. refl;
}

AppealMoves-trans : (p q r : Appeal) → AppealMoves p q → AppealMoves q r → AppealMoves p r
AppealMoves-trans p q r f g = record {
  action = g.action ∙ f.action;
  appellant = g.appellant ∙ f.appellant;
  reason = g.reason ∙ f.reason;
  created_at = g.created_at ∙ f.created_at;
  decided =
      λ h. let same = f.decided h in g.decided (subst (λ x. is_open x ≡ false) (sym same) h) ∙ same;
}

module _ {SA SP SU Q : Type 0} ⦃ta : ActionTable SA⦄ ⦃tp : AppealTable SP⦄ where
  pub record IsSound (w : World SA SP SU Q) : Type 0 where
    pub actions : All IsSoundAction (ta.rows w.actions)
    pub appeals : All IsSoundAppeal (tp.rows w.appeals)

  -- Every action and every appeal of `w` is in `v`, moved as its state machine allows, and `v` is
  -- sound if `w` is.
  pub record Follows (w v : World SA SP SU Q) : Type 0 where
    pub actions : Evolves action_key ActionMoves (ta.rows w.actions) (ta.rows v.actions)
    pub appeals : Evolves appeal_key AppealMoves (tp.rows w.appeals) (tp.rows v.appeals)
    pub sound : IsSound w → IsSound v

  pub Follows-refl : (w : World SA SP SU Q) → Follows w w
  Follows-refl w = record {
    actions = Evolves-refl action_key ActionMoves ActionMoves-refl _;
    appeals = Evolves-refl appeal_key AppealMoves AppealMoves-refl _;
    sound = λ h. h;
  }

  pub Follows-trans : {u v w : World SA SP SU Q} → Follows u v → Follows v w → Follows u w
  Follows-trans f g = record {
    actions = Evolves-trans action_key ActionMoves ActionMoves-trans _ _ _ f.actions g.actions;
    appeals = Evolves-trans appeal_key AppealMoves AppealMoves-trans _ _ _ f.appeals g.appeals;
    sound = λ h. g.sound (f.sound h);
  }
