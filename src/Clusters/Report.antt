-- ===== src/Clusters/Report.antt =====
-- The clusters that `performClustering` and `clusterPropositions` answer with.
use reasonbridge.Prelude.{
  ℕ, suc, ◌+◌, Bool, not, ◌&&◌, Option, none, some, List, [], ◌∷◌, ◌++◌, map, length, filter, any,
  take, ltb, leb, ◌==◌, if◌then◌else◌, or_else, Text,
}
use reasonbridge.Clusters.Keywords.{extract_keywords}
use reasonbridge.Clusters.{
  Arithmetic, PropositionInput, Cluster, PropositionCluster, ClusterPropositionsResult, element_at,
  initial, whole, build_similarity_matrix, calculate_cluster_cohesion, merge_from,
}

pub record ClusterPropositionsRequest (F : Type 0) : Type 0 where
  pub propositions : List PropositionInput
  pub similarity_threshold : Option F

abbrev pub prepended : Option PropositionInput → List PropositionInput → List PropositionInput
prepended none ps = ps
prepended (some p) ps = p ∷ ps

-- The propositions at the indices, less the undefined ones.
abbrev pub propositions_at : List PropositionInput → List ℕ → List PropositionInput
propositions_at ps [] = []
propositions_at ps (i ∷ is_) = prepended (element_at i ps) (propositions_at ps is_)

abbrev pub ids : List PropositionInput → List ℕ
ids ps = map (λ p. p.id) ps

-- `MIN_CLUSTER_SIZE`
abbrev pub is_large : Cluster → Bool
is_large c = leb 2 (length c.proposition_indices)

module _ {F : Type 0} (number : Arithmetic F) where
  abbrev hundredth : F → F
  hundredth x =
      number.divide (number.round (number.multiply x (whole number 100))) (whole number 100)

  module _ (ps : List PropositionInput) (matrix : List (List F)) where
    abbrev pub reported : ℕ → Cluster → PropositionCluster F
    reported idx c =
        let members = propositions_at ps c.proposition_indices in
        record {
          id = suc idx;
          proposition_ids = ids members;
          size = length members;
          cohesion_score =
              hundredth (calculate_cluster_cohesion number matrix c.proposition_indices);
          keywords = take 5 c.keywords;
        }

    abbrev pub report : ℕ → List Cluster → List (PropositionCluster F)
    report idx [] = []
    report idx (c ∷ cs) = reported idx c ∷ report (suc idx) cs

    abbrev reported_of : Option (List Cluster) → Option (List (PropositionCluster F))
    reported_of none = none
    reported_of (some cs) = some (report 0 (filter is_large cs))

    -- One round more than there are clusters.
    abbrev perform_clustering : List (List Text) → F → Option (List (PropositionCluster F))
    perform_clustering kss threshold =
        reported_of (merge_from number matrix (suc (length kss)) threshold (initial 0 kss))

  abbrev cohesion_sum : List (PropositionCluster F) → F → F
  cohesion_sum [] sum = sum
  cohesion_sum (c ∷ cs) sum = cohesion_sum cs (number.add sum c.cohesion_score)

  abbrev clustered_count : List (PropositionCluster F) → ℕ
  clustered_count [] = 0
  clustered_count (c ∷ cs) = c.size + clustered_count cs

  abbrev calculate_quality_score : List (PropositionCluster F) → ℕ → F
  calculate_quality_score [] total = whole number 0
  calculate_quality_score (c ∷ cs) total =
      let average =
        number.divide (cohesion_sum (c ∷ cs) (whole number 0)) (whole number (length (c ∷ cs))) in
      let coverage = number.divide (whole number (clustered_count (c ∷ cs))) (whole number total) in
      hundredth (
        number.add (number.multiply average (number.hundredths 70))
          (number.multiply coverage (number.hundredths 30)))

  abbrev pub clustered_ids : List (PropositionCluster F) → List ℕ
  clustered_ids [] = []
  clustered_ids (c ∷ cs) = c.proposition_ids ++ clustered_ids cs

  abbrev pub result_of :
      List PropositionInput → List (PropositionCluster F) → ClusterPropositionsResult F
  result_of ps clusters =
      let quality = calculate_quality_score clusters (length ps) in
      record {
        clusters = clusters;
        unclustered_proposition_ids =
            ids (filter (λ p. not (any (λ i. i == p.id) (clustered_ids clusters))) ps);
        quality_score = quality;
        confidence =
            if ltb 0 (length clusters) && number.greater quality (number.hundredths 50)
            then number.hundredths 70
            else number.hundredths 50;
      }

  abbrev completed :
      List PropositionInput
      → Option (List (PropositionCluster F))
      → Option (ClusterPropositionsResult F)
  completed ps none = none
  completed ps (some clusters) = some (result_of ps clusters)

  unfoldable pub cluster_propositions :
      ClusterPropositionsRequest F → Option (ClusterPropositionsResult F)
  unfolding extract_keywords
  cluster_propositions request =
      let kss = map (λ p. extract_keywords p.statement) request.propositions in
      completed request.propositions (
        perform_clustering request.propositions (build_similarity_matrix number kss) kss
          (or_else request.similarity_threshold (number.hundredths 20)))
