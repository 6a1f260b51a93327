-- ===== src/Clusters/Merging.antt =====
-- The loop that merges clusters ends, keeps every index and leaves no similar pair.
use reasonbridge.Prelude.{
  ℕ, zero, suc, ◌+◌, ◌<◌, ◌≡◌, ◌≢◌, refl, sym, ap, ◌∙◌, false, Option, none, some, List, [], ◌∷◌,
  arith, length, All, ◌⊎◌, Bool-cases, Option-cases, inl, inr,
}
use mathlib.Core.Path.{subst}
use reasonbridge.Clusters.{
  Arithmetic, Cluster, Best, merged, calculate_cluster_similarity, better, scan_from, scan,
  most_similar, merge_from,
}
use reasonbridge.Clusters.Occurrences.{occurrences, occurrences-merged, length-merged}

-- The positions of two clusters, the first before the second.
abbrev pub IsPair : ℕ → Option (ℕ × ℕ) → Type 0
IsPair n none = Unit {0}
IsPair n (some (i, j)) = (i < j) × (j < n)

module _ {F : Type 0} (number : Arithmetic F) (matrix : List (List F)) where
  abbrev pub similarity : Cluster → Cluster → F
  similarity c d =
      calculate_cluster_similarity number matrix c.proposition_indices d.proposition_indices

  better-IsPair :
      (n i j : ℕ) (x : F) (best : Best F)
      → i < j
      → j < n
      → IsPair n best.pair
      → IsPair n (better number matrix i j x best).pair
  better-IsPair n i j x best h k p = elim (Bool-cases (number.at_least x best.max_similarity)) [
    | inl t ↦ rw t (h, k)
    | inr t ↦ rw t p
  ]

  scan_from-IsPair :
      (n i j : ℕ) (c : Cluster) (ds : List Cluster) (best : Best F)
      → i < j
      → j + length ds ≡ n
      → IsPair n best.pair
      → IsPair n (scan_from number matrix i c j ds best).pair
  scan_from-IsPair n i j c [] best h k p = p
  scan_from-IsPair n i j c (d ∷ ds) best h k p =
      scan_from-IsPair n i (suc j) c ds (better number matrix i j (similarity c d) best)
        (omega arith) (omega arith) (better-IsPair n i j (similarity c d) best h (omega arith) p)

  scan-IsPair :
      (n i : ℕ) (cs : List Cluster) (best : Best F)
      → i + length cs ≡ n
      → IsPair n best.pair
      → IsPair n (scan number matrix i cs best).pair
  scan-IsPair n i [] best k p = p
  scan-IsPair n i (c ∷ cs) best k p =
      scan-IsPair n (suc i) cs (scan_from number matrix i c (suc i) cs best) (omega arith)
        (scan_from-IsPair n i (suc i) c cs best (omega arith) (omega arith) p)

  most_similar-IsPair :
      (threshold : F) (cs : List Cluster)
      → IsPair (length cs) (most_similar number matrix threshold cs)
  most_similar-IsPair threshold cs =
      scan-IsPair (length cs) 0 cs (record { max_similarity = threshold; pair = none })
        (omega arith) tt

  -- No two clusters are as similar as the threshold.
  abbrev pub IsApart : F → List Cluster → Type 0
  IsApart threshold [] = Unit {0}
  IsApart threshold (c ∷ cs) =
      All (λ d. number.at_least (similarity c d) threshold ≡ false) cs × IsApart threshold cs

  better-cases :
      (i j : ℕ) (x : F) (best : Best F)
      → (better number matrix i j x best ≡ record { max_similarity = x; pair = some (i, j) })
        ⊎ ((number.at_least x best.max_similarity ≡ false)
            × (better number matrix i j x best ≡ best))
  better-cases i j x best = elim (Bool-cases (number.at_least x best.max_similarity)) [
    | inl t ↦ inl (rw t refl)
    | inr t ↦ inr (t, rw t refl)
  ]

  better-found :
      (i j : ℕ) (x : F) (best : Best F)
      → best.pair ≢ none
      → (better number matrix i j x best).pair ≢ none
  better-found i j x best h = elim (better-cases i j x best) [
    | inl e ↦ rw e (ground arith)
    | inr (t, e) ↦ rw e h
  ]

  scan_from-found :
      (i j : ℕ) (c : Cluster) (ds : List Cluster) (best : Best F)
      → best.pair ≢ none
      → (scan_from number matrix i c j ds best).pair ≢ none
  scan_from-found i j c [] best h = h
  scan_from-found i j c (d ∷ ds) best h =
      scan_from-found i (suc j) c ds (better number matrix i j (similarity c d) best)
        (better-found i j (similarity c d) best h)

  scan-found :
      (i : ℕ) (cs : List Cluster) (best : Best F)
      → best.pair ≢ none
      → (scan number matrix i cs best).pair ≢ none
  scan-found i [] best h = h
  scan-found i (c ∷ cs) best h =
      scan-found (suc i) cs (scan_from number matrix i c (suc i) cs best)
        (scan_from-found i (suc i) c cs best h)

  -- A scan that finds no pair has met no similar one, and leaves the similarity to beat.
  scan_from-none :
      (i j : ℕ) (c : Cluster) (ds : List Cluster) (best : Best F)
      → (scan_from number matrix i c j ds best).pair ≡ none
      → (scan_from number matrix i c j ds best ≡ best)
        × All (λ d. number.at_least (similarity c d) best.max_similarity ≡ false) ds
  scan_from-none i j c [] best h = (refl, tt)
  scan_from-none i j c (d ∷ ds) best h = elim (better-cases i j (similarity c d) best) [
    | inl e ↦
        let b = better number matrix i j (similarity c d) best in
        absurd (scan_from-found i (suc j) c ds b (rw e (ground arith)) h)
    | inr (t, e) ↦
        let (same, rest) =
          scan_from-none i (suc j) c ds best
            (ap (λ b. (scan_from number matrix i c (suc j) ds b).pair) (sym e) ∙ h) in
        (ap (scan_from number matrix i c (suc j) ds) e ∙ same, (t, rest))
  ]

  scan-none :
      (i : ℕ) (cs : List Cluster) (best : Best F)
      → (scan number matrix i cs best).pair ≡ none
      → IsApart best.max_similarity cs
  scan-none i [] best h = tt
  scan-none i (c ∷ cs) best h =
      let after = scan_from number matrix i c (suc i) cs best in
      elim (Option-cases after.pair) [
        | inl n ↦
            let (same, rest) = scan_from-none i (suc i) c cs best n in
            (rest, subst (λ b. IsApart b.max_similarity cs) same (scan-none (suc i) cs after h))
        | inr (p, e) ↦ absurd (scan-found (suc i) cs after (rw e (ground arith)) h)
      ]

  -- With more rounds than clusters the loop ends. Every index occurs in the clusters that are left as
  -- often as in those it began with, and no two of them are as similar as the threshold.
  pub merge_from-ends :
      (fuel : ℕ) (threshold : F) (cs : List Cluster)
      → length cs < fuel
      → (ds : List Cluster) × (merge_from number matrix fuel threshold cs ≡ some ds)
        × ((k : ℕ) → occurrences k ds ≡ occurrences k cs)
        × IsApart threshold ds
  unfolding merge_from
  merge_from-ends zero threshold cs h = absurd (omega arith)
  merge_from-ends (suc fuel) threshold cs h =
      elim (Option-cases (most_similar number matrix threshold cs)) [
        | inl e ↦ (
          cs,
          rw (e, merge_from) refl,
          λ k. refl,
          scan-none 0 cs (record { max_similarity = threshold; pair = none }) e,
        )
        | inr ((i, j), e) ↦
            let pair : IsPair (length cs) (some (i, j)) =
              subst (IsPair (length cs)) e (most_similar-IsPair threshold cs) in
            let (before, inside) = pair in
            let (ds, ends, kept, apart) =
              merge_from-ends fuel threshold (merged i j cs)
                (omega (arith, length-merged i j cs before inside)) in
            (
              ds,
              rw (e, merge_from) ends,
              λ k. kept k ∙ occurrences-merged i j cs before inside k,
              apart,
            )
      ]
