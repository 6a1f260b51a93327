-- ===== src/Divergence.antt =====
-- services/discussion-service/src/services/divergence-point.service.ts. Scores are exact, in hundredths,
-- and a rounding takes a half up; the source uses floating point, which may fall short of an exact
-- half. The time of the analysis and the log are left out.
pub mod Bounds
mod Examples
use reasonbridge.Prelude.{
  ℕ, ◌+◌, ◌-◌, ◌*◌, ◌/◌, Bool, true, false, not, ◌&&◌, ◌||◌, Option, none, some, List, [], ◌∷◌,
  ◌++◌, map, length, filter, take, ltb, leb, ◌==◌, if◌then◌else◌, Text, text,
}
use reasonbridge.Alignments.{Stance, is_stance}
use reasonbridge.IdSet.{added_all}

pub record ParticipantAlignment : Type 0 where
  pub user_id : ℕ
  pub stance : Stance
  pub nuance_explanation : Option Text

pub record PropositionAlignment : Type 0 where
  pub id : ℕ
  pub statement : Text
  pub support_count : ℕ
  pub oppose_count : ℕ
  pub nuanced_count : ℕ
  pub alignments : List ParticipantAlignment

pub record DivergenceViewpoint : Type 0 where
  pub position : Text
  pub participant_count : ℕ
  pub percentage : ℕ
  pub reasoning : List Text

pub record DivergencePoint : Type 0 where
  pub proposition : Text
  pub proposition_id : ℕ
  pub viewpoints : List DivergenceViewpoint
  pub polarization_score : ℕ
  pub total_participants : ℕ

pub record DivergenceAnalysis : Type 0 where
  pub topic_id : ℕ
  pub divergence_points : List DivergencePoint
  pub overall_polarization : ℕ
  pub participant_count : ℕ

-- `Math.round(n / d)`, where `d` is not 0.
abbrev pub rounded : ℕ → ℕ → ℕ
rounded n d = (2 * n + d) / (2 * d)

-- An explanation that is neither missing nor empty.
abbrev explained : Option Text → List Text
explained none = []
explained (some []) = []
explained (some (c ∷ t)) = (c ∷ t) ∷ []

abbrev reasons : Stance → List ParticipantAlignment → List Text
reasons stance [] = []
reasons stance (a ∷ as_) =
    let rest = reasons stance as_ in
    if is_stance stance a.stance then explained a.nuance_explanation ++ rest else rest

abbrev reasoning_of : Text → List Text → List Text
reasoning_of fallback [] = fallback ∷ []
reasoning_of fallback (r ∷ rs) = r ∷ rs

-- A viewpoint, where somebody has it.
abbrev viewpoint :
    Text → Text → Stance → ℕ → ℕ → List ParticipantAlignment → List DivergenceViewpoint
viewpoint position fallback stance n total alignments =
    if ltb 0 n
    then record {
      position = position;
      participant_count = n;
      percentage = rounded (100 * n) total;
      reasoning = reasoning_of fallback (take 3 (reasons stance alignments));
    }
      ∷ []
    else []

-- The percentages are `for_it / total` and `against / total`.
abbrev pub calculate_polarization : (for_it against total : ℕ) → ℕ
calculate_polarization for_it against total =
    rounded (200 * (total * total - (for_it * for_it + against * against))) (total * total)

-- At least three participants, a fifth of them for and a fifth against, and less than two fifths with
-- a nuanced stance.
abbrev pub is_divergence : (for_it against other : ℕ) → Bool
is_divergence for_it against other =
    let total = for_it + against + other in
    leb 3 total && leb total (5 * for_it) && leb total (5 * against) && ltb (5 * other) (2 * total)

unfoldable pub analyze_proposition_divergence : PropositionAlignment → Option DivergencePoint
analyze_proposition_divergence p =
    let total = p.support_count + p.oppose_count + p.nuanced_count in
    if is_divergence p.support_count p.oppose_count p.nuanced_count
    then some (record {
      proposition = p.statement;
      proposition_id = p.id;
      viewpoints =
          viewpoint (text "Support") (text "Supports this proposition") Stance.support
            p.support_count total p.alignments
          ++ viewpoint (text "Oppose") (text "Opposes this proposition") Stance.oppose
              p.oppose_count total p.alignments;
      polarization_score = calculate_polarization p.support_count p.oppose_count total;
      total_participants = total;
    })
    else none

abbrev pub weighted_sum : List DivergencePoint → ℕ
weighted_sum [] = 0
weighted_sum (x ∷ xs) = x.polarization_score * x.total_participants + weighted_sum xs

abbrev pub total_weight : List DivergencePoint → ℕ
total_weight [] = 0
total_weight (x ∷ xs) = x.total_participants + total_weight xs

abbrev pub calculate_overall_polarization : List DivergencePoint → ℕ
calculate_overall_polarization [] = 0
calculate_overall_polarization (x ∷ xs) = rounded (weighted_sum (x ∷ xs)) (total_weight (x ∷ xs))

abbrev pub users : List PropositionAlignment → List ℕ
users [] = []
users (p ∷ ps) = map (λ a. a.user_id) p.alignments ++ users ps

abbrev count_unique_participants : List PropositionAlignment → ℕ
count_unique_participants ps = length (added_all (users ps) [])

abbrev pub found : Option DivergencePoint → List DivergencePoint → List DivergencePoint
found none xs = xs
found (some x) xs = x ∷ xs

abbrev pub points : List PropositionAlignment → List DivergencePoint
points [] = []
points (p ∷ ps) = found (analyze_proposition_divergence p) (points ps)

unfoldable pub identify_divergence_points : ℕ → List PropositionAlignment → DivergenceAnalysis
identify_divergence_points topic_id propositions = record {
  topic_id = topic_id;
  divergence_points = points propositions;
  overall_polarization = calculate_overall_polarization (points propositions);
  participant_count = count_unique_participants propositions;
}
