-- ===== src/Alignments/Score.antt =====
-- The consensus score: its range, its ends, and how it moves.
use native.Mathlib.Nat.{div-lt_iff_lt-mul, le-div_iff_mul-le, div-mul-le_self}
use reasonbridge.Prelude.{
  ℕ, zero, suc, ap, ◌+◌, ◌*◌, ◌/◌, ◌≤◌, ◌<◌, ◌≡◌, ◌⊎◌, refl, ◌∙◌, none, some, arith, ◌==◌,
  Bool-cases, inl, inr,
}
use reasonbridge.Alignments.{calculate_consensus_score}

abbrev pub hundredths : ℕ → ℕ → ℕ → ℕ
hundredths s o n = (100 * (2 * s + n) + (s + o + n)) / (2 * (s + o + n))

score-hundredths :
    (s o n : ℕ) → 0 < s + o + n → calculate_consensus_score s o n ≡ some (hundredths s o n)
unfolding calculate_consensus_score
score-hundredths s o n h = ground arith

hundredths-below :
    (s o n k : ℕ)
    → 0 < s + o + n
    → 100 * (2 * s + n) + (s + o + n) < k * (2 * (s + o + n))
    → hundredths s o n < k
hundredths-below s o n k h l = (div-lt_iff_lt-mul (omega arith)).1 l

hundredths-le-100 : (s o n : ℕ) → 0 < s + o + n → hundredths s o n ≤ 100
hundredths-le-100 s o n h = omega (arith, hundredths-below s o n 101 h (omega arith))

-- There is no score exactly where there is no alignment, and every score lies between 0.00 and 1.00.
pub calculate_consensus_score_range :
    (s o n : ℕ)
    → ((s + o + n ≡ 0) × (calculate_consensus_score s o n ≡ none))
      ⊎ ((0 < s + o + n) × ((k : ℕ) × (calculate_consensus_score s o n ≡ some k) × (k ≤ 100)))
unfolding calculate_consensus_score
calculate_consensus_score_range s o n = elim (Bool-cases (s + o + n == 0)) [
  | inl e ↦ inl (ground arith, rw e)
  | inr e ↦ inr (ground arith, (hundredths s o n, rw e, hundredths-le-100 s o n (ground arith)))
]

le-hundredths :
    (s o n k : ℕ)
    → 0 < s + o + n
    → k * (2 * (s + o + n)) ≤ 100 * (2 * s + n) + (s + o + n)
    → k ≤ hundredths s o n
le-hundredths s o n k h l = (le-div_iff_mul-le (omega arith)).1 l

more_support : (s o n : ℕ) → 0 < s + o + n → hundredths s o n ≤ hundredths (suc s) o n
more_support s o n h = le-hundredths (suc s) o n (hundredths s o n) (omega arith) (
    omega (
      arith,
      hundredths-le-100 s o n h,
      div-mul-le_self (100 * (2 * s + n) + (s + o + n)) (2 * (s + o + n)),
    ))

less_opposed : (s o n l : ℕ) → 0 < s + o + n → l ≡ hundredths s (suc o) n → l ≤ hundredths s o n
less_opposed s o n zero h e = omega arith
less_opposed s o n (suc l) h e = le-hundredths s o n (suc l) h (
    omega (
      arith,
      ap (λ (x : ℕ). x * (2 * (s + suc o + n))) e,
      div-mul-le_self (100 * (2 * s + n) + (s + suc o + n)) (2 * (s + suc o + n)),
    ))

-- One more supporter never lowers the score of a proposition that has one, and one more opponent
-- never raises it.
pub calculate_consensus_score_mono :
    (s o n : ℕ)
    → 0 < s + o + n
    → (k l m : ℕ) × (calculate_consensus_score s (suc o) n ≡ some k)
      × (calculate_consensus_score s o n ≡ some l)
      × (calculate_consensus_score (suc s) o n ≡ some m)
      × (k ≤ l)
      × (l ≤ m)
calculate_consensus_score_mono s o n h = (
  hundredths s (suc o) n,
  hundredths s o n,
  hundredths (suc s) o n,
  score-hundredths s (suc o) n (omega arith),
  score-hundredths s o n h,
  score-hundredths (suc s) o n (omega arith),
  less_opposed s o n _ h refl,
  more_support s o n h,
)

-- The value of the quotient from its two bounds.
score-between :
    (s o n k : ℕ)
    → 0 < s + o + n
    → k * (2 * (s + o + n)) ≤ 100 * (2 * s + n) + (s + o + n)
    → 100 * (2 * s + n) + (s + o + n) < suc k * (2 * (s + o + n))
    → calculate_consensus_score s o n ≡ some k
score-between s o n k h low high =
    let value : hundredths s o n ≡ k =
      omega (arith, le-hundredths s o n k h low, hundredths-below s o n (suc k) h high) in
    score-hundredths s o n h ∙ ap (λ (x : ℕ). some x) value

-- A proposition that is only supported has score 1.00, one that is only opposed 0.00, and one with
-- as many supporters as opponents 0.50.
pub calculate_consensus_score_ends :
    (k n : ℕ)
    → (calculate_consensus_score (suc k) 0 0 ≡ some 100)
      × (calculate_consensus_score 0 (suc k) 0 ≡ some 0)
      × (calculate_consensus_score (suc k) (suc k) n ≡ some 50)
calculate_consensus_score_ends k n = (
  score-between (suc k) 0 0 100 (omega arith) (omega arith) (omega arith),
  score-between 0 (suc k) 0 0 (omega arith) (omega arith) (omega arith),
  score-between (suc k) (suc k) n 50 (omega arith) (omega arith) (omega arith),
)
