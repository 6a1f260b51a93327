-- ===== src/Alignments/Examples.antt =====
-- Alignments on tables in memory, and the theorems at concrete inputs.
use reasonbridge.Prelude.{◌≡◌, refl, false, some, none, List, [], ◌∷◌}
use reasonbridge.Database.Memory.{memory}
use reasonbridge.Alignments.{
  Stance, Alignment, Proposition, State, AlignmentTable, PropositionTable, SetAlignment,
  alignment_key, proposition_key, same_alignment, set_alignment, remove_alignment,
  recalculate_all_aggregates, recalculate_each, update_proposition_aggregates,
  calculate_consensus_score,
}
use reasonbridge.Alignments.Aggregates.{IsConsistent, alignments-IsConsistent}
use reasonbridge.Alignments.Recalculation.{recalculate_all-current}

instance abbrev alignment_memory : AlignmentTable (List Alignment)
alignment_memory = memory alignment_key same_alignment

instance abbrev proposition_memory : PropositionTable (List Proposition)
proposition_memory = memory proposition_key (λ _ _. false)

abbrev Memory : Type 0
Memory = State (List Alignment) (List Proposition)

abbrev proposed : Proposition
proposed = record {
  id = 4;
  support_count = 0;
  oppose_count = 0;
  nuanced_count = 0;
  consensus_score = none;
}

abbrev fresh : Memory
fresh = record { alignments = []; propositions = proposed ∷ [] }

abbrev agree : SetAlignment
agree = record { stance = Stance.support; nuance_explanation = none }

opened : Unit {0}
unfolding set_alignment remove_alignment recalculate_all_aggregates recalculate_each
    update_proposition_aggregates calculate_consensus_score
opened = tt

alignment_tests :
    ((set_alignment 4 7 agree fresh).1.propositions
      ≡ record proposed { support_count = 1; consensus_score = some 100 } ∷ [])
    × ((remove_alignment 4 7 (set_alignment 4 7 agree fresh).1).1 ≡ fresh)
    × ((recalculate_all_aggregates fresh).0 ≡ 1)
unfolding opened
alignment_tests = (refl, refl, refl)

-- An alignment of user 9 that the aggregates do not count yet.
abbrev stale : Memory
stale = record fresh {
  alignments =
      record {
        id = 0;
        user_id = 9;
        proposition_id = 4;
        stance = Stance.oppose;
        nuance_explanation = none;
      }
      ∷ [];
}

recalculated-IsConsistent : IsConsistent (recalculate_all_aggregates stale).1
unfolding recalculate_all_aggregates recalculate_each update_proposition_aggregates
recalculated-IsConsistent = record { keyed = (refl, tt); current = recalculate_all-current stale }

alignments-IsConsistent_example :
    IsConsistent (set_alignment 4 7 agree (recalculate_all_aggregates stale).1).1
    × IsConsistent (remove_alignment 4 7 (recalculate_all_aggregates stale).1).1
alignments-IsConsistent_example =
    alignments-IsConsistent 4 7 agree (recalculate_all_aggregates stale).1 recalculated-IsConsistent
