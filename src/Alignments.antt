-- ===== src/Alignments.antt =====
-- services/discussion-service/src/alignments: alignments.service.ts and
-- alignment-aggregation.service.ts. A DTO is the row that it copies. The consensus score is kept in
-- hundredths, computed exactly; the source computes it in floating point and rounds to hundredths.
pub mod Score
pub mod Aggregates
pub mod Recalculation
mod Examples
use reasonbridge.Prelude.{
  ℕ, ◌+◌, ◌*◌, ◌/◌, Bool, true, false, not, ◌&&◌, Option, none, some, List, [], ◌∷◌, if◌then◌else◌,
  count, length, ◌==◌, Text,
}
use reasonbridge.Exec.{
  Exec, ok, err, unique_violation, not_found, bad_request, Entity, Cause, pure, gets, guard,
  require, ◌>>=◌, ◌>>◌,
}
use reasonbridge.Database.{Table}

pub data Stance : Type 0 where
  support oppose nuanced : Stance

pub record Alignment : Type 0 where
  pub id : ℕ
  pub user_id : ℕ
  pub proposition_id : ℕ
  pub stance : Stance
  pub nuance_explanation : Option Text

pub record Proposition : Type 0 where
  pub id : ℕ
  pub support_count : ℕ
  pub oppose_count : ℕ
  pub nuanced_count : ℕ
  pub consensus_score : Option ℕ  -- hundredths, Decimal(3, 2)

abbrev pub alignment_key : Alignment → ℕ
alignment_key a = a.id

abbrev pub proposition_key : Proposition → ℕ
proposition_key p = p.id

abbrev pub is_stance : Stance → Stance → Bool
is_stance Stance.support Stance.support = true
is_stance Stance.oppose Stance.oppose = true
is_stance Stance.nuanced Stance.nuanced = true
is_stance _ _ = false

-- `where: { userId_propositionId: { … } }`
abbrev pub is_alignment_of : ℕ → ℕ → Alignment → Bool
is_alignment_of user_id proposition_id a =
    a.user_id == user_id && a.proposition_id == proposition_id

-- `@@unique([userId, propositionId])`
abbrev pub same_alignment : Alignment → Alignment → Bool
same_alignment a x = is_alignment_of a.user_id a.proposition_id x

abbrev pub AlignmentTable : Type 0 → Type 0
AlignmentTable S = Table S Alignment alignment_key same_alignment

abbrev pub PropositionTable : Type 0 → Type 0
PropositionTable S = Table S Proposition proposition_key (λ _ _. false)

pub record State (SA SP : Type 0) : Type 0 where
  pub alignments : SA
  pub propositions : SP

-- `SetAlignmentDto`
pub record SetAlignment : Type 0 where
  pub stance : Stance
  pub nuance_explanation : Option Text

-- `nuanceExplanation || null`: the empty string is falsy.
abbrev pub present : Option Text → Option Text
present (some (c ∷ t)) = some (c ∷ t)
present _ = none

abbrev pub is_missing : Option Text → Bool
is_missing t = elim (present t) [ none ↦ true | some _ ↦ false ]

abbrev pub new_alignment : ℕ → ℕ → SetAlignment → ℕ → Alignment
new_alignment user_id proposition_id dto id = record {
  id = id;
  user_id = user_id;
  proposition_id = proposition_id;
  stance = dto.stance;
  nuance_explanation = present dto.nuance_explanation;
}

abbrev pub realign : SetAlignment → Alignment → Alignment
realign dto a = record a {
  stance = dto.stance;
  nuance_explanation = present dto.nuance_explanation;
}

-- (support - oppose) / total lies in [-1, 1]; normalised to [0, 1] it is
-- (2 * support + nuanced) / (2 * total), and `Math.round` of its hundredfold rounds a half up.
unfoldable pub calculate_consensus_score : ℕ → ℕ → ℕ → Option ℕ
calculate_consensus_score s o n =
    let total = s + o + n in
    if total == 0 then none else some ((100 * (2 * s + n) + total) / (2 * total))

-- The aggregated data of a proposition with the counts.
abbrev pub aggregate : ℕ → ℕ → ℕ → Proposition → Proposition
aggregate s o n p = record p {
  support_count = s;
  oppose_count = o;
  nuanced_count = n;
  consensus_score = calculate_consensus_score s o n;
}

abbrev pub is_on : ℕ → Alignment → Bool
is_on proposition_id a = a.proposition_id == proposition_id

abbrev pub stances : Stance → List Alignment → ℕ
stances t found = count (λ a. is_stance a.stance t) found

module _ {SA SP : Type 0} ⦃ta : AlignmentTable SA⦄ ⦃tp : PropositionTable SP⦄ where
  unfoldable pub update_proposition_aggregates : ℕ → State SA SP → State SA SP
  update_proposition_aggregates id s =
      let found = ta.find_many s.alignments (is_on id) in
      record s {
        propositions = tp.update s.propositions id (
            aggregate (stances Stance.support found) (stances Stance.oppose found)
              (stances Stance.nuanced found));
      }

  abbrev pub refresh : ℕ → Exec (State SA SP) (Unit {0})
  refresh id s = (ok tt, update_proposition_aggregates id s)

  abbrev pub inserted_alignment : Option (Alignment × SA) → Exec (State SA SP) Alignment
  inserted_alignment none s = (err unique_violation, s)
  inserted_alignment (some (a, t)) s = (ok a, record s { alignments = t })

  -- The update of the user's alignment, or its creation where there is none.
  abbrev pub put_alignment : ℕ → ℕ → SetAlignment → Option Alignment → Exec (State SA SP) Alignment
  put_alignment proposition_id user_id dto none s =
      inserted_alignment (ta.create s.alignments (new_alignment user_id proposition_id dto)) s
  put_alignment proposition_id user_id dto (some a) s =
      (ok (realign dto a), record s { alignments = ta.update s.alignments a.id (realign dto) })

  unfoldable pub set_alignment : ℕ → ℕ → SetAlignment → Exec (State SA SP) Alignment
  set_alignment proposition_id user_id dto = do
    found ← gets (λ s. tp.find_unique s.propositions proposition_id)
    require found (not_found Entity.proposition)
    guard (not (is_stance dto.stance Stance.nuanced && is_missing dto.nuance_explanation))
        (bad_request Cause.nuance_required)
    existing ← gets (λ s. ta.find_unique_by s.alignments (is_alignment_of user_id proposition_id))
    alignment ← put_alignment proposition_id user_id dto existing
    refresh proposition_id
    pure alignment

  unfoldable pub remove_alignment : ℕ → ℕ → Exec (State SA SP) (Unit {0})
  remove_alignment proposition_id user_id = do
    found ← gets (λ s. ta.find_unique_by s.alignments (is_alignment_of user_id proposition_id))
    alignment ← require found (not_found Entity.alignment)
    (λ s. (ok tt, record s { alignments = ta.delete s.alignments alignment.id }))
    refresh proposition_id

  -- `getUserAlignment`
  abbrev pub get_user_alignment : ℕ → ℕ → State SA SP → Option Alignment
  get_user_alignment proposition_id user_id s =
      ta.find_unique_by s.alignments (is_alignment_of user_id proposition_id)

  unfoldable pub recalculate_each : List Proposition → State SA SP → State SA SP
  recalculate_each [] s = s
  recalculate_each (p ∷ ps) s = recalculate_each ps (update_proposition_aggregates p.id s)

  unfoldable pub recalculate_all_aggregates : State SA SP → ℕ × State SA SP
  unfolding recalculate_each
  recalculate_all_aggregates s =
      let all = tp.find_many s.propositions (λ _. true) in (length all, recalculate_each all s)
