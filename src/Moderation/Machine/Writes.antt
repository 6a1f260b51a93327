-- ===== src/Moderation/Machine/Writes.antt =====
-- The single writes to the moderation tables follow the state machines.
use reasonbridge.Prelude.{ℕ, ◌≡◌, sym, ap, ◌∙◌, Bool, true, none, some, find, ◌==◌}
use mathlib.Core.Path.{subst}
use reasonbridge.Database.{All-find, All-modify_first, All-modify_all}
use reasonbridge.Database.Evolution.{
  Evolves-refl, Evolves-cons, Evolves-modify_first, Evolves-modify_all,
}
use reasonbridge.Moderation.Types.{
  ModerationAction, Appeal, World, ActionTable, AppealTable, action_key, appeal_key,
}
use reasonbridge.Moderation.Machine.{
  ActionMoves, ActionMoves-refl, AppealMoves, AppealMoves-refl, IsSoundAction, IsSoundAppeal,
  Follows,
}

module _ {SA SP SU Q : Type 0} ⦃ta : ActionTable SA⦄ ⦃tp : AppealTable SP⦄ where
  pub Follows-update_action :
      (w : World SA SP SU Q) (id : ℕ) (f : ModerationAction → ModerationAction)
      {a : ModerationAction}
      → ((x : ModerationAction) → (f x).id ≡ x.id)
      → ta.find_unique w.actions id ≡ some a
      → ActionMoves a (f a)
      → IsSoundAction (f a)
      → Follows w (record w { actions = ta.update w.actions id f })
  Follows-update_action w id f keeps e move good =
      let found = rw ta.find_unique-eq at e in
      record {
        actions =
            rw ta.rows-update (
              Evolves-modify_first action_key ActionMoves ActionMoves-refl id f _ keeps found move);
        appeals = Evolves-refl appeal_key AppealMoves AppealMoves-refl _;
        sound = λ h. record {
          actions = rw ta.rows-update (All-modify_first IsSoundAction _ f _ h.actions found good);
          appeals = h.appeals;
        };
      }

  pub Follows-update_actions :
      (w : World SA SP SU Q) (p : ModerationAction → Bool) (f : ModerationAction → ModerationAction)
      → ((x : ModerationAction) → (f x).id ≡ x.id)
      → ((x : ModerationAction) → p x ≡ true → ActionMoves x (f x))
      → ((x : ModerationAction) → IsSoundAction (f x))
      → Follows w (record w { actions = ta.update_many w.actions p f })
  Follows-update_actions w p f keeps move good = record {
    actions =
        rw ta.rows-update_many
          (Evolves-modify_all action_key ActionMoves ActionMoves-refl p f _ keeps move);
    appeals = Evolves-refl appeal_key AppealMoves AppealMoves-refl _;
    sound = λ h. record {
      actions =
          rw ta.rows-update_many (All-modify_all IsSoundAction p f _ (λ x _ _. good x) h.actions);
      appeals = h.appeals;
    };
  }

  pub Follows-create_action :
      (w : World SA SP SU Q) (mk : ℕ → ModerationAction) {r : ModerationAction} {t : SA}
      → ((i : ℕ) → (mk i).id ≡ i)
      → ((i : ℕ) → IsSoundAction (mk i))
      → ta.create w.actions mk ≡ some (r, t)
      → Follows w (record w { actions = t })
  Follows-create_action w mk {r} {t} key good e =
      let (i, made, fresh, _, held) = ta.create-some w.actions mk e in
      let fresh' =
        subst (λ j. find (λ x. x.id == j) (ta.rows w.actions) ≡ none)
          (sym (ap action_key made ∙ key i)) fresh in
      record {
        actions = rw held (Evolves-cons action_key ActionMoves ActionMoves-refl r _ fresh');
        appeals = Evolves-refl appeal_key AppealMoves AppealMoves-refl _;
        sound = λ h. record {
          actions = rw held (subst IsSoundAction {x = mk i} (sym made) (good i), h.actions);
          appeals = h.appeals;
        };
      }

  pub Follows-update_appeal :
      (w : World SA SP SU Q) (id : ℕ) (f : Appeal → Appeal) {p : Appeal}
      → ((x : Appeal) → (f x).id ≡ x.id)
      → tp.find_unique w.appeals id ≡ some p
      → AppealMoves p (f p)
      → (IsSoundAppeal p → IsSoundAppeal (f p))
      → Follows w (record w { appeals = tp.update w.appeals id f })
  Follows-update_appeal w id f keeps e move good =
      let found = rw tp.find_unique-eq at e in
      record {
        actions = Evolves-refl action_key ActionMoves ActionMoves-refl _;
        appeals =
            rw tp.rows-update (
              Evolves-modify_first appeal_key AppealMoves AppealMoves-refl id f _ keeps found move);
        sound = λ h. record {
          actions = h.actions;
          appeals = rw tp.rows-update (
              All-modify_first IsSoundAppeal _ f _ h.appeals found
                (good (All-find IsSoundAppeal _ _ h.appeals found)));
        };
      }

  pub Follows-create_appeal :
      (w : World SA SP SU Q) (mk : ℕ → Appeal) {r : Appeal} {t : SP}
      → ((i : ℕ) → (mk i).id ≡ i)
      → ((i : ℕ) → IsSoundAppeal (mk i))
      → tp.create w.appeals mk ≡ some (r, t)
      → Follows w (record w { appeals = t })
  Follows-create_appeal w mk {r} {t} key good e =
      let (i, made, fresh, _, held) = tp.create-some w.appeals mk e in
      let same : i ≡ r.id = sym (ap appeal_key made ∙ key i) in
      let fresh' = subst (λ j. find (λ x. x.id == j) (tp.rows w.appeals) ≡ none) same fresh in
      record {
        actions = Evolves-refl action_key ActionMoves ActionMoves-refl _;
        appeals = rw held (Evolves-cons appeal_key AppealMoves AppealMoves-refl r _ fresh');
        sound = λ h. record {
          actions = h.actions;
          appeals = rw held (subst IsSoundAppeal {x = mk i} (sym made) (good i), h.appeals);
        };
      }

  pub Follows-queue :
      {w v : World SA SP SU Q} (q : Q) → Follows w v → Follows w (record v { queue = q })
  Follows-queue q f = record {
    actions = f.actions;
    appeals = f.appeals;
    sound = λ h. record { actions = (f.sound h).actions; appeals = (f.sound h).appeals };
  }
