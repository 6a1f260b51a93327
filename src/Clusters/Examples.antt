-- ===== src/Clusters/Examples.antt =====
-- Three propositions, two of them alike, clustered with numbers in parts of 1/10000, and the theorems at
-- concrete inputs.
use reasonbridge.Prelude.{
  ℕ, ◌+◌, ◌*◌, ◌/◌, ◌≡◌, refl, Option, none, some, List, [], ◌∷◌, arith, map, ltb, leb, text, Text,
}
use reasonbridge.Clusters.Keywords.{extract_keywords}
use reasonbridge.Clusters.{
  Arithmetic, Cluster, ClusterPropositionsResult, initial, build_similarity_matrix, merge_from,
}
use reasonbridge.Clusters.Report.{ClusterPropositionsRequest, cluster_propositions}
use reasonbridge.Clusters.Occurrences.{occurrences}
use reasonbridge.Clusters.Merging.{IsApart, merge_from-ends}
use reasonbridge.Clusters.Listing.{IsListing, cluster_propositions-listed}

abbrev parts : Arithmetic ℕ
parts = record {
  hundredths = λ n. n * 100;
  add = λ a b. a + b;
  multiply = λ a b. a * b / 10000;
  divide = λ a b. a * 10000 / b;
  at_least = λ a b. leb b a;
  greater = λ a b. ltb b a;
  round = λ a. (a + 5000) / 10000 * 10000;
}

abbrev request : ClusterPropositionsRequest ℕ
request = record {
  propositions =
      record { id = 7; statement = text "Trains are cheap and clean" }
      ∷ record { id = 8; statement = text "Books help" }
      ∷ record { id = 9; statement = text "The clean trains!" }
      ∷ [];
  similarity_threshold = none;
}

unfolded : Unit {0}
unfolding cluster_propositions merge_from extract_keywords
unfolded = tt

abbrev ids_of : Option (ClusterPropositionsResult ℕ) → List (List ℕ) × List ℕ
ids_of none = ([], [])
ids_of (some r) = (map (λ c. c.proposition_ids) r.clusters, r.unclustered_proposition_ids)

cluster_tests :
    (extract_keywords (text "The clean trains!") ≡ text "clean" ∷ text "trains" ∷ [])
    × (ids_of (cluster_propositions parts request) ≡ ((7 ∷ 9 ∷ []) ∷ [], 8 ∷ []))
unfolding unfolded
cluster_tests = (refl, refl)

cluster_propositions-listed_example : IsListing parts request (cluster_propositions parts request)
cluster_propositions-listed_example =
    cluster_propositions-listed parts request (refl, (refl, (refl, tt)))

abbrev keywords : List (List Text)
keywords = (text "clean" ∷ text "trains" ∷ []) ∷ (text "trains" ∷ []) ∷ []

merge_from-ends_example :
    (ds : List Cluster) × (merge_from parts
        (build_similarity_matrix parts keywords)
        3
        2000
        (initial 0 keywords)
      ≡ some ds)
    × ((k : ℕ) → occurrences k ds ≡ occurrences k (initial 0 keywords))
    × IsApart parts (build_similarity_matrix parts keywords) 2000 ds
merge_from-ends_example =
    merge_from-ends parts (build_similarity_matrix parts keywords) 3 2000 (initial 0 keywords)
      (omega arith)
