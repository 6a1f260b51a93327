-- ===== src/Clusters/Listing.antt =====
-- Every proposition is in one reported cluster or listed as unclustered.
use reasonbridge.Prelude.{
  ℕ, suc, ◌+◌, ◌≤◌, ◌≡◌, refl, ◌∙◌, true, not, Option, none, some, List, [], ◌∷◌, arith, map,
  length, count, count-append, filter, any, if◌then◌else◌, ◌==◌, or_else, Bool-cases, Option-cases,
  inl, inr, count_congr, Text,
}
use reasonbridge.Database.{IsDistinct}
use reasonbridge.Database.Evolution.{find_key}
use reasonbridge.Clusters.Keywords.{extract_keywords}
use reasonbridge.Clusters.{
  Arithmetic, PropositionInput, Cluster, ClusterPropositionsResult, initial,
  build_similarity_matrix,
}
use reasonbridge.Clusters.Report.{
  ClusterPropositionsRequest, propositions_at, ids, is_large, report, clustered_ids, result_of,
  cluster_propositions,
}
use reasonbridge.Totals.{count_never, any-count}
use reasonbridge.Clusters.Occurrences.{occurrences}
use reasonbridge.Clusters.Merging.{merge_from-ends}
use reasonbridge.Clusters.Indices.{
  proposition_key, is_id_at, is_id_at_absent, is_id_at_unique, index_of, count-propositions_at,
  occurrences-filter, length-initial, occurrences-initial,
}

module _ {F : Type 0} (number : Arithmetic F) (ps : List PropositionInput)
    (matrix : List (List F)) where
  -- The identifiers of the report, by their index.
  count_clustered :
      (x i idx : ℕ) (cs : List Cluster)
      → IsDistinct proposition_key ps
      → is_id_at ps x i ≡ true
      → count (λ y. y == x) (clustered_ids number (report number ps matrix idx cs))
        ≡ occurrences i cs
  count_clustered x i idx [] d h = refl
  count_clustered x i idx (c ∷ cs) d h =
      let is_ = c.proposition_indices in
      count-append (λ y. y == x) (ids (propositions_at ps is_))
        (clustered_ids number (report number ps matrix (suc idx) cs))
      ∙ omega (
        arith,
        count-propositions_at ps x is_,
        count_congr (is_id_at ps x) (λ k. k == i) is_ (λ k. is_id_at_unique ps x i k d h),
        count_clustered x i (suc idx) cs d h,
      )

  count_missing :
      (x idx : ℕ) (cs : List Cluster)
      → find_key proposition_key x ps ≡ none
      → count (λ y. y == x) (clustered_ids number (report number ps matrix idx cs)) ≡ 0
  count_missing x idx [] h = refl
  count_missing x idx (c ∷ cs) h =
      let is_ = c.proposition_indices in
      count-append (λ y. y == x) (ids (propositions_at ps is_))
        (clustered_ids number (report number ps matrix (suc idx) cs))
      ∙ omega (
        arith,
        count-propositions_at ps x is_,
        count_never (is_id_at ps x) is_ (λ k. is_id_at_absent ps x k h),
        count_missing x (suc idx) cs h,
      )

count_absent :
    (ps : List PropositionInput) (x : ℕ)
    → find_key proposition_key x ps ≡ none
    → count (λ y. y == x) (ids ps) ≡ 0
count_absent [] x h = refl
count_absent (p ∷ ps) x h = ground (arith, count_absent ps x)

count_present :
    (ps : List PropositionInput) (x : ℕ) (p : PropositionInput)
    → IsDistinct proposition_key ps
    → find_key proposition_key x ps ≡ some p
    → count (λ y. y == x) (ids ps) ≡ 1
count_present [] x p d h = absurd (ground arith)
count_present (q ∷ ps) x p (n, d) h = elim (Bool-cases (q.id == x)) [
  | inl t ↦
      let same : q.id ≡ x = ground arith in rw t (omega (arith, count_absent ps x (rw same at n)))
  | inr t ↦ rw t (omega (arith, count_present ps x p d (rw t at h)))
]

-- The identifiers outside a list.
count_outside :
    (set : List ℕ) (x : ℕ) (ps : List PropositionInput)
    → count (λ y. y == x) (ids (filter (λ p. not (any (λ i. i == p.id) set)) ps))
      ≡ (if any (λ i. i == x) set then 0 else count (λ y. y == x) (ids ps))
count_outside set x [] = ground arith
count_outside set x (p ∷ ps) =
    let rest = count_outside set x ps in
    elim (Bool-cases (p.id == x)) [
      | inl t ↦
          let same : p.id ≡ x = ground arith in
          let both : any (λ i. i == p.id) set ≡ any (λ i. i == x) set = rw same refl in
          elim (Bool-cases (any (λ i. i == x) set)) [
            | inl a ↦ rw (both, a) (omega (arith, rw a at rest))
            | inr a ↦ rw (both, a, t) (omega (arith, rw a at rest))
          ]
      | inr t ↦ elim (Bool-cases (any (λ i. i == x) set)) [
        | inl a ↦ elim (Bool-cases (any (λ i. i == p.id) set)) [
          | inl b ↦ rw (a, b) (omega (arith, rw a at rest))
          | inr b ↦ rw (a, b, t) (omega (arith, rw a at rest))
        ]
        | inr a ↦ elim (Bool-cases (any (λ i. i == p.id) set)) [
          | inl b ↦ rw (a, b, t) (omega (arith, rw a at rest))
          | inr b ↦ rw (a, b, t) (omega (arith, rw a at rest))
        ]
      ]
    ]

module _ {F : Type 0} (number : Arithmetic F) (request : ClusterPropositionsRequest F) where
  abbrev ps : List PropositionInput
  ps = request.propositions

  -- A proposition stands in the clusters as often as the list of the others leaves it out.
  listed :
      (matrix : List (List F)) (cs : List Cluster) (x : ℕ)
      → IsDistinct proposition_key ps
      → ((k : ℕ) → occurrences k cs ≤ 1)
      → count (λ y. y == x) (clustered_ids number (report number ps matrix 0 cs))
          + count
              (λ y. y == x)
              (result_of number ps (report number ps matrix 0 cs)).unclustered_proposition_ids
        ≡ count (λ y. y == x) (ids ps)
  listed matrix cs x d h =
      let set = clustered_ids number (report number ps matrix 0 cs) in
      let outside = count_outside set x ps in
      let found = any-count (λ y. y == x) set in
      elim (Option-cases (find_key proposition_key x ps)) [
        | inl e ↦
            let none_clustered = count_missing number ps matrix x 0 cs e in
            ground (arith, none_clustered, outside, found, count_absent ps x e)
        | inr (p, e) ↦
            let (i, at_i) = index_of ps x p e in
            let by_index = count_clustered number ps matrix x i 0 cs d at_i in
            ground (arith, by_index, outside, found, h i, count_present ps x p d e)
      ]

  abbrev kss : List (List Text)
  kss = map (λ p. extract_keywords p.statement) ps

  -- The answer and what it lists.
  abbrev pub IsListing : Option (ClusterPropositionsResult F) → Type 0
  IsListing o =
      (r : ClusterPropositionsResult F) × (o ≡ some r)
      × ((x : ℕ)
          → count (λ y. y == x) (clustered_ids number r.clusters)
              + count (λ y. y == x) r.unclustered_proposition_ids
            ≡ count (λ y. y == x) (ids ps))

  -- With more rounds than propositions the service answers. Where the identifiers are distinct, each
  -- proposition is in one reported cluster and not in the list of the unclustered, or in that list and
  -- in no reported cluster.
  pub cluster_propositions-listed :
      IsDistinct proposition_key ps → IsListing (cluster_propositions number request)
  unfolding cluster_propositions
  cluster_propositions-listed d =
      let matrix = build_similarity_matrix number kss in
      let threshold = or_else request.similarity_threshold (number.hundredths 20) in
      let (cs, ends, kept, _) =
        merge_from-ends number matrix (suc (length kss)) threshold (initial 0 kss)
          (omega (arith, length-initial 0 kss)) in
      let large = filter is_large cs in
      let once : (k : ℕ) → occurrences k large ≤ 1 =
        λ k. omega (arith, occurrences-filter k cs, kept k, occurrences-initial k 0 kss) in
      (
        result_of number ps (report number ps matrix 0 large),
        rw ends refl,
        λ x. listed matrix large x d once,
      )
