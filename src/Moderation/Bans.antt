-- ===== src/Moderation/Bans.antt =====
-- Bans: what an appeal does to a ban in force, and what lifting the expired bans leaves.
use mathlib.Core.List.{Memᴰ}
use mathlib.Core.Path.{subst}
use reasonbridge.Prelude.{
  ℕ, ◌<◌, ◌≡◌, ◌≢◌, refl, sym, ap, ◌∙◌, Bool, true, false, ◌&&◌, none, some, List, [], ◌∷◌, arith,
  count, count_congr, find, any, length, ◌==◌, Bool-cases, Option-cases, inl, inr, Text,
}
use reasonbridge.Database.{Table, modify_all, count_of_mem, count-modify_first}
use reasonbridge.Exec.{ok}
use reasonbridge.Moderation.Types.{
  ActionStatus, ModerationAction, Appeal, World, EventQueue, ActionTable, AppealTable, UserTable,
  is_reversed, same_appeal,
}
use reasonbridge.Moderation.Actions.{
  BanStatus, get_user_ban_status, auto_lift_expired_bans, is_ban_of, is_expired_ban, among, lift,
  lift_bans,
}
use reasonbridge.Moderation.Appeals.{create_appeal, is_appeal_of, new_appeal, any_open}
use reasonbridge.Moderation.Machine.AppealSteps.{check_text_cases}

abbrev pub not_banned : BanStatus
not_banned = record {
  is_banned = false;
  is_temporary_ban = false;
  expires_at = none;
  action = none;
}

-- An expired ban is found among the expired bans by its id.
length_eq_count : {A : Type 0} (xs : List A) → length xs ≡ count (λ _. true) xs
length_eq_count [] = refl
length_eq_count (x ∷ xs) = omega (arith, length_eq_count xs)

-- `findMany` finds as many rows as match.
length-find_many :
    {S Row : Type 0} {key : Row → ℕ} {clash : Row → Row → Bool} (t : Table S Row key clash) (s : S)
    (p : Row → Bool)
    → length (t.find_many s p) ≡ count p (t.rows s)
length-find_many t s p =
    length_eq_count _
    ∙ t.count-find_many s p (λ _. true)
    ∙ count_congr _ p (t.rows s) (λ x. ground arith)

none_latest :
    {S Row : Type 0} {key : Row → ℕ} {clash : Row → Row → Bool} (t : Table S Row key clash) (s : S)
    (p : Row → Bool) (at : Row → ℕ)
    → count p (t.rows s) ≡ 0
    → t.find_latest s p at ≡ none
none_latest t s p at h = elim (Option-cases (t.find_latest s p at)) [
  | inl e ↦ e
  | inr (r, e) ↦
      let (good, mem, _) = t.find_latest-some s p at e in
      absurd (omega (arith, count_of_mem p (t.rows s) mem good, h))
]

any_of_find :
    {A : Type 0} (p c : A → Bool) (xs : List A) (q : A)
    → find p xs ≡ some q
    → ((x : A) → p x ≡ true → c x ≡ true)
    → any c xs ≡ true
any_of_find p c [] q e h = absurd (ground arith)
any_of_find p c (x ∷ xs) q e h = ground (arith, h x, any_of_find p c xs q)

among_of_count :
    (bans : List ModerationAction) (a : ModerationAction)
    → 0 < count (λ b. b.id == a.id) bans
    → among bans a ≡ true
among_of_count [] a h = absurd (omega arith)
among_of_count (b ∷ bans) a h = ground (arith, among_of_count bans a)

none_left :
    (now : ℕ) (bans : List ModerationAction) (b : ModerationAction) (rows : List ModerationAction)
    → ((a : ModerationAction) → Memᴰ a rows → is_expired_ban now a ≡ true → among bans a ≡ true)
    → count (is_expired_ban now) (modify_all (among bans) (lift b now) rows) ≡ 0
none_left now bans b [] h = refl
none_left now bans b (a ∷ rows) h = elim (Bool-cases (among bans a)) [
  | inl t ↦ rw t (ground (arith, none_left now bans b rows (λ x m. h x (Memᴰ.tail m))))
  | inr t ↦
      rw t
        (ground (arith, none_left now bans b rows (λ x m. h x (Memᴰ.tail m)), h a (Memᴰ.head refl)))
]

module _ {SA SP SU Q : Type 0} ⦃ta : ActionTable SA⦄ ⦃tp : AppealTable SP⦄ ⦃tu : UserTable SU⦄
    ⦃eq : EventQueue Q⦄ (w : World SA SP SU Q) where
  expired_among :
      (now : ℕ) (a : ModerationAction)
      → Memᴰ a (ta.rows w.actions)
      → is_expired_ban now a ≡ true
      → among (ta.find_many w.actions (is_expired_ban now)) a ≡ true
  expired_among now a m h = among_of_count _ a (
      rw (ta.count-find_many w.actions (is_expired_ban now) (λ b. b.id == a.id))
        (count_of_mem (λ b. is_expired_ban now b && (b.id == a.id)) _ m (ground arith)))

  lifted :
      (now : ℕ) (bans : List ModerationAction)
      → ((a : ModerationAction)
          → Memᴰ a (ta.rows w.actions)
          → is_expired_ban now a ≡ true
          → among bans a ≡ true)
      → length bans ≡ count (is_expired_ban now) (ta.rows w.actions)
      → (count (is_expired_ban now) (ta.rows (lift_bans bans now w).1.actions) ≡ 0)
        × ((lift_bans bans now w).0 ≡ ok (count (is_expired_ban now) (ta.rows w.actions)))
  lifted now [] h n = (sym n, ap (λ (k : ℕ). ok k) n)
  lifted now (b ∷ bs) h n =
      (rw ta.rows-update_many (none_left now (b ∷ bs) b _ h), ap (λ (k : ℕ). ok k) n)

  -- After `autoLiftExpiredBans` at `now` no expired ban is left in force, and it reports how many
  -- there were.
  pub auto_lift_complete :
      (now : ℕ)
      → let (r, v) = auto_lift_expired_bans now w in
        (count (is_expired_ban now) (ta.rows v.actions) ≡ 0)
        × (r ≡ ok (count (is_expired_ban now) (ta.rows w.actions)))
  unfolding auto_lift_expired_bans
  auto_lift_complete now =
      lifted now _ (expired_among now) (length-find_many ta w.actions (is_expired_ban now))

  -- What holds where `createAppeal` returns an appeal.
  record IsAccepted (id by : ℕ) (reason : Text) (now : ℕ) (p : Appeal) (v : World SA SP SU Q)
      : Type 0 where
    action : ModerationAction
    appeals : SP
    found : ta.find_unique w.actions id ≡ some action
    in_force : is_reversed action.status ≡ false
    none_open : any_open (tp.find_unique_by w.appeals (is_appeal_of id by)) ≡ false
    created : tp.create w.appeals (new_appeal id by reason now) ≡ some (p, appeals)
    left : v ≡ record w {
      actions = ta.update w.actions id (λ a. record a { status = ActionStatus.appealed });
      appeals = appeals;
    }

  accepted :
      (id by : ℕ) (reason : Text) (now : ℕ) (p : Appeal)
      → (create_appeal id by reason now w).0 ≡ ok p
      → IsAccepted id by reason now p (create_appeal id by reason now w).1
  unfolding create_appeal
  accepted id by reason now p = elim (check_text_cases w reason 5000) [
    | inr (c, e) ↦ rw e (λ h. cc)
    | inl e ↦ rw e (elim (Option-cases (ta.find_unique w.actions id)) [
      | inl f ↦ rw f (λ h. cc)
      | inr (a, f) ↦ rw f (elim (Bool-cases (is_reversed a.status)) [
        | inl t ↦ rw t (λ h. cc)
        | inr t ↦
            rw t (elim (Bool-cases (any_open (tp.find_unique_by w.appeals (is_appeal_of id by)))) [
              | inl u ↦ rw u (λ h. cc)
              | inr u ↦
                  rw u (elim (Option-cases (tp.create w.appeals (new_appeal id by reason now))) [
                    | inl c ↦ rw c (λ h. cc)
                    | inr ((q, s), c) ↦ rw c (λ h. record {
                      action = a;
                      appeals = s;
                      found = f;
                      in_force = t;
                      none_open = u;
                      created =
                          let same : q ≡ p = cc in
                          subst
                            (λ x. tp.create w.appeals (new_appeal id by reason now) ≡ some (x, s))
                            same c;
                      left = refl;
                    })
                  ])
            ])
      ])
    ])
  ]

  -- Where the user's only ban in force is the action, an appeal that `createAppeal` accepts ends the
  -- ban at once: `getUserBanStatus` reports that the user is not banned, at any time.
  pub appeal_lifts_ban :
      (id by : ℕ) (reason : Text) (now user_id later : ℕ) (a : ModerationAction) (p : Appeal)
      → ta.find_unique w.actions id ≡ some a
      → is_ban_of user_id a ≡ true
      → count (is_ban_of user_id) (ta.rows w.actions) ≡ 1
      → (create_appeal id by reason now w).0 ≡ ok p
      → (get_user_ban_status user_id later (create_appeal id by reason now w).1).0 ≡ ok not_banned
  unfolding get_user_ban_status
  appeal_lifts_ban id by reason now user_id later a p e ban one done =
      let acc = accepted id by reason now p done in
      let found = rw ta.find_unique-eq at e in
      let set = λ (b : ModerationAction). record b { status = ActionStatus.appealed } in
      let fewer =
        count-modify_first (is_ban_of user_id) (λ b. b.id == id) set (ta.rows w.actions) a found in
      let gone : count (is_ban_of user_id) (ta.rows (ta.update w.actions id set)) ≡ 0 =
        rw ta.rows-update (ground (arith, fewer)) in
      rw acc.left (rw (none_latest ta _ (is_ban_of user_id) (λ b. b.created_at) gone))

  -- A user who has an appeal of an action, in whatever status, cannot appeal the action again:
  -- `createAppeal` throws and changes nothing.
  pub appeal_once :
      (id by : ℕ) (reason : Text) (now : ℕ) (q : Appeal)
      → tp.find_unique_by w.appeals (is_appeal_of id by) ≡ some q
      → (p : Appeal) → (create_appeal id by reason now w).0 ≢ ok p
  appeal_once id by reason now q e p done =
      let acc = accepted id by reason now p done in
      let (i, made, _, apart, _) = tp.create-some w.appeals _ acc.created in
      let clash =
        any_of_find (is_appeal_of id by) (same_appeal (new_appeal id by reason now i))
          (tp.rows w.appeals) q (rw tp.find_unique_by-eq at e) (λ x h. ground arith) in
      cc (clash, subst (λ r. any (same_appeal r) (tp.rows w.appeals) ≡ false) made apart)
