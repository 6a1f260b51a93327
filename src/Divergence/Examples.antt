-- ===== src/Divergence/Examples.antt =====
-- A proposition with three voters on each side, without and with nuanced stances.
use reasonbridge.Prelude.{ℕ, ◌≡◌, refl, [], ◌∷◌, All, map, text}
use reasonbridge.Divergence.{
  PropositionAlignment, analyze_proposition_divergence, identify_divergence_points,
}
use reasonbridge.Divergence.Bounds.{IsInRange, IsOverall, identify_divergence_points-range}

abbrev proposition : ℕ → PropositionAlignment
proposition n = record {
  id = 4;
  statement = text "Trains are cheap";
  support_count = 3;
  oppose_count = 3;
  nuanced_count = n;
  alignments = [];
}

-- With two nuanced stances of eight, the score of 1.44 is above its documented range of 0 to 1.
divergence_tests :
    (map
        (λ x. x.polarization_score)
        (identify_divergence_points 9 (proposition 0 ∷ [])).divergence_points
      ≡ 100 ∷ [])
    × ((identify_divergence_points 9 (proposition 2 ∷ [])).overall_polarization ≡ 144)
unfolding identify_divergence_points analyze_proposition_divergence
divergence_tests = (refl, refl)

identify_divergence_points-range_example :
    All IsInRange (identify_divergence_points 9 (proposition 0 ∷ [])).divergence_points
    × IsOverall
        (identify_divergence_points 9 (proposition 0 ∷ [])).divergence_points
        (identify_divergence_points 9 (proposition 0 ∷ [])).overall_polarization
identify_divergence_points-range_example =
    identify_divergence_points-range 9 (proposition 0 ∷ []) (refl, tt)
