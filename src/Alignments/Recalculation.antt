-- ===== src/Alignments/Recalculation.antt =====
-- The batch that recomputes every aggregate.
use mathlib.Core.Path.{subst}
use reasonbridge.Prelude.{
  ℕ, ◌<◌, ◌≡◌, refl, ◌∙◌, sym, true, none, some, List, [], ◌∷◌, arith, count, ◌==◌, ==_iff,
  Bool-cases, Option-cases, inl, inr,
}
use reasonbridge.Database.{find_key-modify_first, find_key-modify_first_other, count_of_find}
use reasonbridge.Database.Evolution.{find_key}
use reasonbridge.Alignments.{
  Proposition, State, AlignmentTable, PropositionTable, proposition_key,
  update_proposition_aggregates, recalculate_each, recalculate_all_aggregates,
}
use reasonbridge.Alignments.Aggregates.{IsCurrent, refreshed, untouched}

module _ {SA SP : Type 0} ⦃ta : AlignmentTable SA⦄ ⦃tp : PropositionTable SP⦄ where
  abbrev Absent : State SA SP → ℕ → Type 0
  Absent s i = find_key proposition_key i (tp.rows s.propositions) ≡ none

  kept-Absent :
      (i j : ℕ) (s : State SA SP) → Absent s j → Absent (update_proposition_aggregates i s) j
  unfolding update_proposition_aggregates
  kept-Absent i j s h = rw tp.rows-update (elim (Bool-cases (i == j)) [
    | inl e ↦
        let same : i ≡ j = (==_iff i j).0 e in
        rw same (find_key-modify_first proposition_key _ (λ q. refl) j _ ∙ rw h refl)
    | inr e ↦ find_key-modify_first_other proposition_key _ (λ q. refl) i j _ (ground arith) ∙ h
  ])

  recalculate_each-Absent :
      (ps : List Proposition) (s : State SA SP) (i : ℕ)
      → Absent s i
      → Absent (recalculate_each ps s) i
  unfolding recalculate_each
  recalculate_each-Absent [] s i h = h
  recalculate_each-Absent (p ∷ ps) s i h = recalculate_each-Absent ps _ i (kept-Absent p.id i s h)

  recalculate_each-kept :
      (ps : List Proposition) (s : State SA SP) (i : ℕ)
      → IsCurrent s i
      → IsCurrent (recalculate_each ps s) i
  unfolding recalculate_each
  recalculate_each-kept [] s i h = h
  recalculate_each-kept (p ∷ ps) s i h =
      recalculate_each-kept ps _ i (elim (Bool-cases (p.id == i)) [
        | inl e ↦
            let same : p.id ≡ i = (==_iff p.id i).0 e in
            subst (λ j. IsCurrent (update_proposition_aggregates j s) i) (sym same) (refreshed i s)
        | inr e ↦ untouched p.id i s (ground arith) h
      ])

  recalculate_each-current :
      (ps : List Proposition) (s : State SA SP) (i : ℕ)
      → 0 < count (λ p. p.id == i) ps
      → IsCurrent (recalculate_each ps s) i
  unfolding recalculate_each
  recalculate_each-current [] s i h = absurd (omega arith)
  recalculate_each-current (p ∷ ps) s i h = elim (Bool-cases (p.id == i)) [
    | inl e ↦
        let same : p.id ≡ i = (==_iff p.id i).0 e in
        recalculate_each-kept ps _ i
          (subst (λ j. IsCurrent (update_proposition_aggregates j s) i) (sym same) (refreshed i s))
    | inr e ↦ recalculate_each-current ps _ i (ground arith)
  ]

  -- After the batch job, from any state at all, the aggregates of every stored proposition are what
  -- the stored alignments on it give.
  pub recalculate_all-current :
      (s : State SA SP) (i : ℕ) → IsCurrent (recalculate_all_aggregates s).1 i
  unfolding recalculate_all_aggregates
  recalculate_all-current s i =
      elim (Option-cases (find_key proposition_key i (tp.rows s.propositions))) [
        | inl e ↦ λ p f.
            let gone : Absent (recalculate_each (tp.find_many s.propositions (λ _. true)) s) i =
              recalculate_each-Absent (tp.find_many s.propositions (λ _. true)) s i e in
            absurd (let clash : none ≡ some p = sym gone ∙ f in ground arith)
        | inr (p, e) ↦
            let found = tp.count-find_many s.propositions (λ _. true) (λ q. q.id == i) in
            let held = count_of_find (λ q. q.id == i) (tp.rows s.propositions) p e in
            recalculate_each-current (tp.find_many s.propositions (λ _. true)) s i (omega arith)
      ]
