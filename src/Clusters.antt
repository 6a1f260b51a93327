-- ===== src/Clusters.antt =====
-- services/discussion-service/src/services/proposition-clusterer.service.ts. The numbers of the language
-- are a parameter, so what is shown of the clusters holds for its rounding arithmetic. The texts of the
-- themes and of the reasoning are left out.
pub mod Keywords
pub mod Listing
pub mod Occurrences
pub mod Merging
pub mod Indices
pub mod Report
mod Examples
use reasonbridge.Prelude.{
  ℕ, zero, suc, ◌+◌, ◌*◌, Bool, true, false, not, ◌&&◌, Option, none, some, List, [], ◌∷◌, ◌++◌,
  map, length, filter, any, take, ltb, leb, ◌==◌, if◌then◌else◌, or_else, Text, text_eq,
}
use reasonbridge.Clusters.Keywords.{extract_keywords, union_of, intersection_of}

-- The arithmetic of `number`: a decimal `n / 100`, the operations, `>=`, `>` and `Math.round`.
pub record Arithmetic (F : Type 0) : Type 0 where
  pub hundredths : ℕ → F
  pub add : F → F → F
  pub multiply : F → F → F
  pub divide : F → F → F
  pub at_least : F → F → Bool
  pub greater : F → F → Bool
  pub round : F → F

pub record PropositionInput : Type 0 where
  pub id : ℕ
  pub statement : Text

-- A cluster under construction.
pub record Cluster : Type 0 where
  pub proposition_indices : List ℕ
  pub keywords : List Text

abbrev pub element_at {ℓ} : {A : Type ℓ} → ℕ → List A → Option A
element_at i [] = none
element_at zero (x ∷ xs) = some x
element_at (suc i) (x ∷ xs) = element_at i xs

abbrev pub modify_at {ℓ} : {A : Type ℓ} → ℕ → (A → A) → List A → List A
modify_at i f [] = []
modify_at zero f (x ∷ xs) = f x ∷ xs
modify_at (suc i) f (x ∷ xs) = x ∷ modify_at i f xs

-- `splice(i, 1)`
abbrev pub remove_at {ℓ} : {A : Type ℓ} → ℕ → List A → List A
remove_at i [] = []
remove_at zero (x ∷ xs) = xs
remove_at (suc i) (x ∷ xs) = x ∷ remove_at i xs

abbrev pub range : (from count : ℕ) → List ℕ
range i zero = []
range i (suc n) = i ∷ range (suc i) n

abbrev pub absorb : Cluster → Cluster → Cluster
absorb d c = record {
  proposition_indices = c.proposition_indices ++ d.proposition_indices;
  keywords = union_of c.keywords d.keywords;
}

abbrev pub absorbed : Option Cluster → Cluster → Cluster
absorbed none c = c
absorbed (some d) c = absorb d c

-- The two writes of a merge, of cluster `j` into cluster `i`.
abbrev pub merged : ℕ → ℕ → List Cluster → List Cluster
merged i j cs = remove_at j (modify_at i (absorbed (element_at j cs)) cs)

abbrev pub initial : ℕ → List (List Text) → List Cluster
initial idx [] = []
initial idx (ks ∷ kss) =
    record { proposition_indices = idx ∷ []; keywords = union_of [] ks } ∷ initial (suc idx) kss

-- `mergeI` and `mergeJ`, where they are not -1, and the similarity to beat.
pub record Best (F : Type 0) : Type 0 where
  pub max_similarity : F
  pub pair : Option (ℕ × ℕ)

-- `PropositionCluster`; its `id` is the number after `cluster-`.
pub record PropositionCluster (F : Type 0) : Type 0 where
  pub id : ℕ
  pub proposition_ids : List ℕ
  pub size : ℕ
  pub cohesion_score : F
  pub keywords : List Text

pub record ClusterPropositionsResult (F : Type 0) : Type 0 where
  pub clusters : List (PropositionCluster F)
  pub unclustered_proposition_ids : List ℕ
  pub quality_score : F
  pub confidence : F

module _ {F : Type 0} (number : Arithmetic F) where
  abbrev pub whole : ℕ → F
  whole n = number.hundredths (n * 100)

  abbrev calculate_similarity : List Text → List Text → F
  calculate_similarity keywords1 keywords2 =
      if leb (length keywords1) 0
      then whole 0
      else if leb (length keywords2) 0
      then whole 0
      else number.divide
          (whole (length (intersection_of (union_of [] keywords1) (union_of [] keywords2))))
          (whole (length (union_of (union_of [] keywords1) keywords2)))

  -- The element that the loop leaves at `[i][j]`.
  abbrev cell : List (List Text) → ℕ → ℕ → F
  cell kss i j =
      if i == j
      then number.hundredths 100
      else if ltb i j
      then calculate_similarity (or_else (element_at i kss) []) (or_else (element_at j kss) [])
      else calculate_similarity (or_else (element_at j kss) []) (or_else (element_at i kss) [])

  abbrev pub build_similarity_matrix : List (List Text) → List (List F)
  build_similarity_matrix kss =
      map (λ i. map (cell kss i) (range 0 (length kss))) (range 0 (length kss))

  -- `matrix[i]?.[j] ?? 0`
  abbrev similarity_at : List (List F) → ℕ → ℕ → F
  similarity_at matrix i j = or_else (element_at j (or_else (element_at i matrix) [])) (whole 0)

  module _ (matrix : List (List F)) where
    abbrev add_row : ℕ → List ℕ → F → F
    add_row i [] sum = sum
    add_row i (j ∷ js) sum = add_row i js (number.add sum (similarity_at matrix i j))

    abbrev add_rows : List ℕ → List ℕ → F → F
    add_rows [] js sum = sum
    add_rows (i ∷ is_) js sum = add_rows is_ js (add_row i js sum)

    abbrev pub average : ℕ → F → F
    average n sum = if ltb 0 n then number.divide sum (whole n) else whole 0

    abbrev pub calculate_cluster_similarity : List ℕ → List ℕ → F
    calculate_cluster_similarity xs ys = average (length xs * length ys) (add_rows xs ys (whole 0))

    -- The sum over the pairs of a cluster, and their number.
    abbrev add_pairs : List ℕ → F → F
    add_pairs [] sum = sum
    add_pairs (i ∷ is_) sum = add_pairs is_ (add_row i is_ sum)

    abbrev pair_count : List ℕ → ℕ
    pair_count [] = 0
    pair_count (i ∷ is_) = length is_ + pair_count is_

    abbrev pub calculate_cluster_cohesion : List ℕ → F
    calculate_cluster_cohesion is_ =
        if ltb (length is_) 2
        then number.hundredths 100
        else average (pair_count is_) (add_pairs is_ (whole 0))

    abbrev pub better : ℕ → ℕ → F → Best F → Best F
    better i j similarity best =
        if number.at_least similarity best.max_similarity
        then record { max_similarity = similarity; pair = some (i, j) }
        else best

    -- The inner loop, from position `j`.
    abbrev pub scan_from : ℕ → Cluster → ℕ → List Cluster → Best F → Best F
    scan_from i c j [] best = best
    scan_from i c j (d ∷ ds) best =
        scan_from i c (suc j) ds (
          better i j (calculate_cluster_similarity c.proposition_indices d.proposition_indices)
            best)

    -- The outer loop, from position `i`.
    abbrev pub scan : ℕ → List Cluster → Best F → Best F
    scan i [] best = best
    scan i (c ∷ cs) best = scan (suc i) cs (scan_from i c (suc i) cs best)

    abbrev pub most_similar : F → List Cluster → Option (ℕ × ℕ)
    most_similar threshold cs =
        (scan 0 cs (record { max_similarity = threshold; pair = none })).pair

    -- The rounds of the loop that are left are its fuel; `none` is a loop that is still running.
    unfoldable pub merge_from : ℕ → F → List Cluster → Option (List Cluster)
    merge_from zero threshold cs = none
    merge_from (suc fuel) threshold cs = elim (most_similar threshold cs) [
      | none ↦ some cs
      | some (i, j) ↦ merge_from fuel threshold (merged i j cs)
    ]
