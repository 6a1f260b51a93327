-- ===== src/Clusters/Occurrences.antt =====
-- How often an index occurs in clusters, and what a merge of two clusters keeps.
use reasonbridge.Prelude.{
  ℕ, zero, suc, ◌+◌, ◌<◌, ◌≡◌, refl, ap, ◌∙◌, some, List, [], ◌∷◌, arith, length, count,
  count-append, ◌==◌,
}
use reasonbridge.Clusters.{Cluster, element_at, modify_at, remove_at, absorb, absorbed, merged}

-- How often an index occurs in the clusters.
abbrev pub occurrences : ℕ → List Cluster → ℕ
occurrences k [] = 0
occurrences k (c ∷ cs) = count (λ i. i == k) c.proposition_indices + occurrences k cs

module _ {A : Type 0} where
  element_at-some : (j : ℕ) (xs : List A) → j < length xs → (x : A) × (element_at j xs ≡ some x)
  element_at-some j [] h = absurd (omega arith)
  element_at-some zero (x ∷ xs) h = (x, refl)
  element_at-some (suc j) (x ∷ xs) h = element_at-some j xs (omega arith)

  length-modify_at : (i : ℕ) (f : A → A) (xs : List A) → length (modify_at i f xs) ≡ length xs
  length-modify_at i f [] = refl
  length-modify_at zero f (x ∷ xs) = refl
  length-modify_at (suc i) f (x ∷ xs) = ap suc (length-modify_at i f xs)

  length-remove_at :
      (i : ℕ) (xs : List A) → i < length xs → suc (length (remove_at i xs)) ≡ length xs
  length-remove_at i [] h = absurd (omega arith)
  length-remove_at zero (x ∷ xs) h = refl
  length-remove_at (suc i) (x ∷ xs) h = ap suc (length-remove_at i xs (omega arith))

  element_at-modify_at :
      (i j : ℕ) (f : A → A) (xs : List A)
      → i < j
      → element_at j (modify_at i f xs) ≡ element_at j xs
  element_at-modify_at i j f [] h = refl
  element_at-modify_at i zero f (x ∷ xs) h = absurd (omega arith)
  element_at-modify_at zero (suc j) f (x ∷ xs) h = refl
  element_at-modify_at (suc i) (suc j) f (x ∷ xs) h = element_at-modify_at i j f xs (omega arith)

occurrences-absorb :
    (k i : ℕ) (d : Cluster) (cs : List Cluster)
    → i < length cs
    → occurrences k (modify_at i (absorb d) cs)
      ≡ occurrences k cs + count (λ x. x == k) d.proposition_indices
occurrences-absorb k i d [] h = absurd (omega arith)
occurrences-absorb k zero d (c ∷ cs) h =
    omega (arith, count-append (λ x. x == k) c.proposition_indices d.proposition_indices)
occurrences-absorb k (suc i) d (c ∷ cs) h = omega (arith, occurrences-absorb k i d cs (omega arith))

occurrences-remove_at :
    (k j : ℕ) (d : Cluster) (cs : List Cluster)
    → element_at j cs ≡ some d
    → occurrences k (remove_at j cs) + count (λ x. x == k) d.proposition_indices ≡ occurrences k cs
occurrences-remove_at k j d [] h = absurd (ground arith)
occurrences-remove_at k zero d (c ∷ cs) h = let same : c ≡ d = ground arith in rw same (omega arith)
occurrences-remove_at k (suc j) d (c ∷ cs) h = omega (arith, occurrences-remove_at k j d cs h)

module _ (i j : ℕ) (cs : List Cluster) (before : i < j) (inside : j < length cs) where
  pub occurrences-merged : (k : ℕ) → occurrences k (merged i j cs) ≡ occurrences k cs
  occurrences-merged k =
      let (d, held) = element_at-some j cs inside in
      let kept : element_at j (modify_at i (absorb d) cs) ≡ some d =
        element_at-modify_at i j (absorb d) cs before ∙ held in
      rw held (
        omega (
          arith,
          occurrences-remove_at k j d (modify_at i (absorb d) cs) kept,
          occurrences-absorb k i d cs (omega arith),
        ))

  pub length-merged : suc (length (merged i j cs)) ≡ length cs
  length-merged =
      let f = absorbed (element_at j cs) in
      let same = length-modify_at i f cs in
      length-remove_at j (modify_at i f cs) (omega (arith, same)) ∙ same
