-- ===== src/Alignments/Aggregates.antt =====
-- The stored aggregates of a proposition agree with the alignments on it.
use mathlib.Core.Path.{subst}
use reasonbridge.Prelude.{
  ℕ, ◌≡◌, ◌≢◌, refl, sym, ap, ◌∙◌, true, ◌&&◌, none, some, List, arith, count, find, ◌==◌, ==_iff,
  Bool-cases, Option-cases, inl, inr,
}
use reasonbridge.Database.{
  count-modify_first, count-remove_first, IsDistinct, find_key-modify_first,
  find_key-modify_first_other, modify_first-IsDistinct, remove_first-IsDistinct, find-find_key,
  find-true,
}
use reasonbridge.Database.Evolution.{find_key}
use reasonbridge.Alignments.{
  Stance, Alignment, Proposition, State, AlignmentTable, PropositionTable, SetAlignment,
  alignment_key, proposition_key, is_stance, is_alignment_of, is_on, stances, aggregate, realign,
  new_alignment, calculate_consensus_score, update_proposition_aggregates, set_alignment,
  remove_alignment, is_missing,
}

-- The number of alignments on a proposition with a stance.
abbrev pub aligned : Stance → ℕ → List Alignment → ℕ
aligned t i found = count (λ a. is_on i a && is_stance a.stance t) found

pub record IsAggregated (i : ℕ) (found : List Alignment) (p : Proposition) : Type 0 where
  pub supported : p.support_count ≡ aligned Stance.support i found
  pub opposed : p.oppose_count ≡ aligned Stance.oppose i found
  pub nuanced : p.nuanced_count ≡ aligned Stance.nuanced i found
  pub scored :
      p.consensus_score ≡ calculate_consensus_score p.support_count p.oppose_count p.nuanced_count

some-inj : {A : Type 0} {a b : A} → some a ≡ some b → a ≡ b
some-inj e = ground arith

module _ {SA SP : Type 0} ⦃ta : AlignmentTable SA⦄ ⦃tp : PropositionTable SP⦄ where
  -- The aggregates of the proposition with an identifier are up to date, where it is stored.
  abbrev pub IsCurrent : State SA SP → ℕ → Type 0
  IsCurrent s i =
      (p : Proposition)
      → find_key proposition_key i (tp.rows s.propositions) ≡ some p
      → IsAggregated i (ta.rows s.alignments) p

  -- All aggregates are up to date, and the alignments have distinct primary keys.
  pub record IsConsistent (s : State SA SP) : Type 0 where
    pub keyed : IsDistinct alignment_key (ta.rows s.alignments)
    pub current : (i : ℕ) → IsCurrent s i

  -- The recomputed row of the proposition.
  pub refreshed : (i : ℕ) (s : State SA SP) → IsCurrent (update_proposition_aggregates i s) i
  unfolding update_proposition_aggregates
  refreshed i s p h =
      let counted : (t : Stance)
          → stances t (ta.find_many s.alignments (is_on i)) ≡ aligned t i (ta.rows s.alignments) =
        λ t. ta.count-find_many s.alignments _ _ in
      let stored =
        sym (find_key-modify_first proposition_key _ (λ q. refl) i _) ∙ rw tp.rows-update at h in
      elim (Option-cases (find_key proposition_key i (tp.rows s.propositions))) [
        | inl e ↦ absurd (let none_is : none ≡ some p = rw e at stored in ground arith)
        | inr (q, e) ↦
            let made : aggregate _ _ _ q ≡ p = some-inj (rw e at stored) in
            subst (IsAggregated i (ta.rows s.alignments)) made (record {
              supported = counted Stance.support;
              opposed = counted Stance.oppose;
              nuanced = counted Stance.nuanced;
              scored = refl;
            })
      ]

  pub untouched :
      (i j : ℕ) (s : State SA SP)
      → i ≢ j
      → IsCurrent s j
      → IsCurrent (update_proposition_aggregates i s) j
  unfolding update_proposition_aggregates
  untouched i j s differ h p e = h p (
      sym (find_key-modify_first_other proposition_key _ (λ q. refl) i j _ differ)
      ∙ rw tp.rows-update at e)

  -- Alignments that differ from those of a consistent state on one proposition only.
  refresh-IsConsistent :
      (i : ℕ) (s : State SA SP) (found : SA)
      → IsConsistent s
      → IsDistinct alignment_key (ta.rows found)
      → ((t : Stance) (j : ℕ)
          → i ≢ j
          → aligned t j (ta.rows found) ≡ aligned t j (ta.rows s.alignments))
      → IsConsistent (update_proposition_aggregates i (record s { alignments = found }))
  unfolding update_proposition_aggregates
  refresh-IsConsistent i s found h keyed same = record {
    keyed = keyed;
    current = λ j. elim (Bool-cases (i == j)) [
      | inl e ↦ subst (IsCurrent _) ((==_iff i j).0 e) (refreshed i _)
      | inr e ↦
          let differ : i ≢ j = ground arith in
          untouched i j _ differ (λ p k.
            let c = h.current j p k in
            record {
              supported = c.supported ∙ sym (same _ j differ);
              opposed = c.opposed ∙ sym (same _ j differ);
              nuanced = c.nuanced ∙ sym (same _ j differ);
              scored = c.scored;
            })
    ];
  }

  created-IsConsistent :
      (i u : ℕ) (dto : SetAlignment) (s : State SA SP) {a : Alignment} {found : SA}
      → ta.create s.alignments (new_alignment u i dto) ≡ some (a, found)
      → IsConsistent s
      → IsConsistent (update_proposition_aggregates i (record s { alignments = found }))
  created-IsConsistent i u dto s {a} {found} c h =
      let (id, made, fresh, _, held) = ta.create-some s.alignments _ c in
      let on_it : a.proposition_id ≡ i = ap (λ (x : Alignment). x.proposition_id) made in
      let keyed_by : a.id ≡ id = ap (λ (x : Alignment). x.id) made in
      refresh-IsConsistent i s found h (rw (held, keyed_by) (fresh, h.keyed))
        (λ t j differ. rw (held, on_it) (ground arith))

  updated-IsConsistent :
      (i u : ℕ) (dto : SetAlignment) (s : State SA SP) {a : Alignment}
      → ta.find_unique_by s.alignments (is_alignment_of u i) ≡ some a
      → IsConsistent s
      → IsConsistent (
          update_proposition_aggregates i
            (record s { alignments = ta.update s.alignments a.id (realign dto) }))
  updated-IsConsistent i u dto s {a} e h =
      let found : find (is_alignment_of u i) (ta.rows s.alignments) ≡ some a =
        rw ta.find_unique_by-eq at e in
      let is_mine : is_alignment_of u i a ≡ true =
        find-true (is_alignment_of u i) (ta.rows s.alignments) a found in
      let on_it : a.proposition_id ≡ i = ground arith in
      let by_key = find-find_key alignment_key _ _ a h.keyed found in
      refresh-IsConsistent i s _ h
        (rw ta.rows-update (modify_first-IsDistinct alignment_key _ (λ q. refl) _ _ h.keyed))
        (λ t j differ.
          let change =
            count-modify_first (λ x. is_on j x && is_stance x.stance t) (λ x. x.id == a.id)
              (realign dto) (ta.rows s.alignments) a by_key in
          rw ta.rows-update (ground arith))

  deleted-IsConsistent :
      (i u : ℕ) (s : State SA SP) {a : Alignment}
      → ta.find_unique_by s.alignments (is_alignment_of u i) ≡ some a
      → IsConsistent s
      → IsConsistent
          (update_proposition_aggregates i (record s { alignments = ta.delete s.alignments a.id }))
  deleted-IsConsistent i u s {a} e h =
      let found : find (is_alignment_of u i) (ta.rows s.alignments) ≡ some a =
        rw ta.find_unique_by-eq at e in
      let is_mine : is_alignment_of u i a ≡ true =
        find-true (is_alignment_of u i) (ta.rows s.alignments) a found in
      let on_it : a.proposition_id ≡ i = ground arith in
      let by_key = find-find_key alignment_key _ _ a h.keyed found in
      refresh-IsConsistent i s _ h
        (rw ta.rows-delete (remove_first-IsDistinct alignment_key _ _ h.keyed))
        (λ t j differ.
          let change =
            count-remove_first (λ x. is_on j x && is_stance x.stance t) (λ x. x.id == a.id)
              (ta.rows s.alignments) a by_key in
          rw ta.rows-delete (ground arith))

  set_alignment-IsConsistent :
      (i u : ℕ) (dto : SetAlignment) (s : State SA SP)
      → IsConsistent s
      → IsConsistent (set_alignment i u dto s).1
  unfolding set_alignment
  set_alignment-IsConsistent i u dto s h = elim (Option-cases (tp.find_unique s.propositions i)) [
    | inl e ↦ rw e h
    | inr (p, e) ↦
        rw e
          (elim (Bool-cases
            (is_stance dto.stance Stance.nuanced && is_missing dto.nuance_explanation)) [
              | inl t ↦ rw t h
              | inr t ↦
                  rw t (elim (Option-cases (ta.find_unique_by s.alignments (is_alignment_of u i))) [
                    | inr (a, f) ↦ rw f (updated-IsConsistent i u dto s f h)
                    | inl f ↦
                        rw f (elim (Option-cases (ta.create s.alignments (new_alignment u i dto))) [
                          | inl c ↦ rw c h
                          | inr ((a, found), c) ↦ rw c (created-IsConsistent i u dto s c h)
                        ])
                  ])
            ])
  ]

  remove_alignment-IsConsistent :
      (i u : ℕ) (s : State SA SP) → IsConsistent s → IsConsistent (remove_alignment i u s).1
  unfolding remove_alignment
  remove_alignment-IsConsistent i u s h =
      elim (Option-cases (ta.find_unique_by s.alignments (is_alignment_of u i))) [
        | inl f ↦ rw f h
        | inr (a, f) ↦ rw f (deleted-IsConsistent i u s f h)
      ]

  -- Setting and removing an alignment, returning or throwing, keep every stored aggregate of every
  -- proposition equal to what the stored alignments on it give: the three counts and the score.
  pub alignments-IsConsistent :
      (i u : ℕ) (dto : SetAlignment) (s : State SA SP)
      → IsConsistent s
      → IsConsistent (set_alignment i u dto s).1 × IsConsistent (remove_alignment i u s).1
  alignments-IsConsistent i u dto s h =
      (set_alignment-IsConsistent i u dto s h, remove_alignment-IsConsistent i u s h)
