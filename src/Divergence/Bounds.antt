-- ===== src/Divergence/Bounds.antt =====
-- The range of the polarization scores.
use reasonbridge.Prelude.{
  ℕ, ◌+◌, ◌-◌, ◌*◌, ◌≤◌, ◌<◌, ◌≡◌, refl, ap, true, List, [], ◌∷◌, arith, All, Bool-cases, inl, inr,
  leb,
}
use native.Mathlib.Nat.{le-div_iff_mul-le, mul-le-mul_left, mul-le-mul_right, mul-le-mul}
use reasonbridge.Divergence.{
  PropositionAlignment, DivergencePoint, rounded, calculate_polarization, is_divergence,
  analyze_proposition_divergence, weighted_sum, total_weight, calculate_overall_polarization,
  points, identify_divergence_points,
}

square_above : (a d : ℕ) → 4 * (a * (a + d)) ≤ (a + (a + d)) * (a + (a + d))
square_above a d = grind arith

square_below : (b d : ℕ) → 4 * ((b + d) * b) ≤ (b + d + b) * (b + d + b)
square_below b d = grind arith

square_sum : (a b : ℕ) → 4 * (a * b) ≤ (a + b) * (a + b)
square_sum a b = elim (Bool-cases (leb a b)) [
  | inl t ↦ let d : ℕ = b - a in let eq : b ≡ a + d = ground arith in rw eq (square_above a d)
  | inr t ↦ let d : ℕ = a - b in let eq : a ≡ b + d = ground arith in rw eq (square_below b d)
]

parts : (a b : ℕ) → (a + b) * (a + b) - (a * a + b * b) ≡ 2 * (a * b)
parts a b = grind arith

rounded-le : (n d k : ℕ) → 0 < d → n ≤ k * d → rounded n d ≤ k
rounded-le n d k h l = grind arith

le-rounded : (n d k : ℕ) → 0 < d → k * d ≤ n → k ≤ rounded n d
le-rounded n d k h l =
    let wide : 0 < 2 * d = omega arith in
    let doubled : k * (2 * d) ≤ 2 * n + d = grind arith in (le-div_iff_mul-le wide).1 doubled

-- Two sides of at least a fifth each, of a whole that holds both.
squares_small : (t p q : ℕ) → p + q ≤ 3 * t → (t + p) * (t + p) + (t + q) * (t + q) ≤ 17 * (t * t)
squares_small t p q h =
    let first : (p + q) * (p + q) ≤ 3 * t * (p + q) = mul-le-mul_right (p + q) h in
    let second : t * (p + q) ≤ t * (3 * t) = mul-le-mul_left t h in grind (arith, first, second)

square_positive : (t : ℕ) → 0 < t → 0 < t * t
square_positive t h = mul-le-mul h h

module _ (a b c : ℕ) (h : is_divergence a b c ≡ true) where
  abbrev total : ℕ
  total = a + b + c

  -- With a fifth of the participants on each side the score is at least 0.64.
  score_at_least : 64 ≤ calculate_polarization a b total
  score_at_least =
      let t : ℕ = total in
      let p : ℕ = 5 * a - t in
      let q : ℕ = 5 * b - t in
      let for_ : 5 * a ≡ t + p = ground arith in
      let against : 5 * b ≡ t + q = ground arith in
      let small = squares_small t p q (ground arith) in
      let square_for : 5 * a * (5 * a) ≡ (t + p) * (t + p) = ap (λ x. x * x) for_ in
      let square_against : 5 * b * (5 * b) ≡ (t + q) * (t + q) = ap (λ x. x * x) against in
      let enough : 25 * (a * a + b * b) ≤ 17 * (t * t) =
        grind (arith, square_for, square_against, small) in
      let positive : 0 < t * t = square_positive t (ground arith) in
      le-rounded (200 * (t * t - (a * a + b * b))) (t * t) 64 positive (omega (arith, enough))

  score_at_most : c ≡ 0 → calculate_polarization a b total ≤ 100
  score_at_most none_nuanced =
      let whole : total ≡ a + b = omega (arith, none_nuanced) in
      let some_voted : 0 < a + b = ground arith in
      rw whole (
        rounded-le (200 * ((a + b) * (a + b) - (a * a + b * b))) ((a + b) * (a + b)) 100
          (square_positive (a + b) some_voted) (omega (arith, parts a b, square_sum a b)))

-- A score in hundredths, of somebody.
abbrev pub IsInRange : DivergencePoint → Type 0
IsInRange x =
    (0 < x.total_participants) × (64 ≤ x.polarization_score) × (x.polarization_score ≤ 100)

sum_range :
    (xs : List DivergencePoint)
    → All IsInRange xs
    → (64 * total_weight xs ≤ weighted_sum xs) × (weighted_sum xs ≤ 100 * total_weight xs)
sum_range [] h = (omega arith, omega arith)
sum_range (x ∷ xs) ((_, low, high), h) =
    let (least, most) = sum_range xs h in
    let here_low = mul-le-mul_right x.total_participants low in
    let here_high = mul-le-mul_right x.total_participants high in
    (omega (arith, least, here_low), omega (arith, most, here_high))

-- Some point has a score, and the overall score is in the range of the scores.
overall_range :
    (x : DivergencePoint) (xs : List DivergencePoint)
    → All IsInRange (x ∷ xs)
    → (64 ≤ calculate_overall_polarization (x ∷ xs))
      × (calculate_overall_polarization (x ∷ xs) ≤ 100)
overall_range x xs ((voted, low, high), h) =
    let (least, most) = sum_range (x ∷ xs) ((voted, low, high), h) in
    let weight : 0 < total_weight (x ∷ xs) = omega (arith, voted) in
    (
      le-rounded (weighted_sum (x ∷ xs)) (total_weight (x ∷ xs)) 64 weight least,
      rounded-le (weighted_sum (x ∷ xs)) (total_weight (x ∷ xs)) 100 weight most,
    )

points_range :
    (ps : List PropositionAlignment) → All (λ p. p.nuanced_count ≡ 0) ps → All IsInRange (points ps)
unfolding analyze_proposition_divergence
points_range [] h = tt
points_range (p ∷ ps) (none_nuanced, h) =
    let a = p.support_count in
    let b = p.oppose_count in
    let c = p.nuanced_count in
    elim (Bool-cases (is_divergence a b c)) [
      | inl t ↦
          let voted : 0 < a + b + c = ground arith in
          rw t
            ((voted, score_at_least a b c t, score_at_most a b c t none_nuanced), points_range ps h)
      | inr t ↦ rw t (points_range ps h)
    ]

-- The overall score of an answer with divergence points.
abbrev pub IsOverall : List DivergencePoint → ℕ → Type 0
IsOverall [] score = score ≡ 0
IsOverall (x ∷ xs) score = (64 ≤ score) × (score ≤ 100)

calculate_overall_polarization-IsOverall :
    (xs : List DivergencePoint)
    → All IsInRange xs
    → IsOverall xs (calculate_overall_polarization xs)
calculate_overall_polarization-IsOverall [] h = refl
calculate_overall_polarization-IsOverall (x ∷ xs) h = overall_range x xs h

-- Where nobody has a nuanced stance, every divergence point has a score from 0.64 to 1, and so is the
-- overall score, which is 0 where there is no divergence point.
pub identify_divergence_points-range :
    (topic_id : ℕ) (ps : List PropositionAlignment)
    → All (λ p. p.nuanced_count ≡ 0) ps
    → All IsInRange (identify_divergence_points topic_id ps).divergence_points
      × IsOverall
          (identify_divergence_points topic_id ps).divergence_points
          (identify_divergence_points topic_id ps).overall_polarization
unfolding identify_divergence_points
identify_divergence_points-range topic_id ps h =
    let range = points_range ps h in
    (range, calculate_overall_polarization-IsOverall (points ps) range)
