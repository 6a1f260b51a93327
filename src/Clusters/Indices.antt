-- ===== src/Clusters/Indices.antt =====
-- The propositions at the indices of clusters, and how often an index occurs.
use reasonbridge.Prelude.{
  ℕ, zero, suc, ◌+◌, ◌≤◌, ◌<◌, ◌≡◌, refl, ap, ◌∙◌, Bool, true, false, Option, none, some, List, [],
  ◌∷◌, arith, length, count, filter, if◌then◌else◌, ◌==◌, Bool-cases, inl, inr, Text,
}
use reasonbridge.Database.{IsDistinct}
use reasonbridge.Database.Evolution.{find_key}
use reasonbridge.Clusters.{PropositionInput, Cluster, element_at, initial}
use reasonbridge.Clusters.Report.{prepended, propositions_at, ids, is_large}
use reasonbridge.Clusters.Occurrences.{occurrences}

abbrev pub proposition_key : PropositionInput → ℕ
proposition_key p = p.id

abbrev has_id : ℕ → Option PropositionInput → Bool
has_id x none = false
has_id x (some p) = p.id == x

-- The proposition at an index has the identifier.
abbrev pub is_id_at : List PropositionInput → ℕ → ℕ → Bool
is_id_at ps x k = has_id x (element_at k ps)

pub is_id_at_absent :
    (ps : List PropositionInput) (x k : ℕ)
    → find_key proposition_key x ps ≡ none
    → is_id_at ps x k ≡ false
is_id_at_absent [] x k h = refl
is_id_at_absent (p ∷ ps) x zero h = ground arith
is_id_at_absent (p ∷ ps) x (suc k) h = is_id_at_absent ps x k (ground arith)

-- Distinct identifiers stand at one index.
pub is_id_at_unique :
    (ps : List PropositionInput) (x i k : ℕ)
    → IsDistinct proposition_key ps
    → is_id_at ps x i ≡ true
    → is_id_at ps x k ≡ (k == i)
is_id_at_unique [] x i k d h = absurd (ground arith)
is_id_at_unique (p ∷ ps) x zero zero (n, d) h = h
is_id_at_unique (p ∷ ps) x zero (suc k) (n, d) h =
    let same : p.id ≡ x = ground arith in is_id_at_absent ps x k (rw same at n) ∙ ground arith
is_id_at_unique (p ∷ ps) x (suc i) zero (n, d) h = elim (Bool-cases (p.id == x)) [
  | inl t ↦
      let same : p.id ≡ x = ground arith in
      let missing : is_id_at ps x i ≡ false = is_id_at_absent ps x i (rw same at n) in
      absurd (ground arith)
  | inr t ↦ rw t (ground arith)
]
is_id_at_unique (p ∷ ps) x (suc i) (suc k) (n, d) h = is_id_at_unique ps x i k d h ∙ ground arith

pub index_of :
    (ps : List PropositionInput) (x : ℕ) (p : PropositionInput)
    → find_key proposition_key x ps ≡ some p
    → (i : ℕ) × (is_id_at ps x i ≡ true)
index_of [] x p h = absurd (ground arith)
index_of (q ∷ ps) x p h = elim (Bool-cases (q.id == x)) [
  | inl t ↦ (0, t)
  | inr t ↦ let (i, k) = index_of ps x p (rw t at h) in (suc i, k)
]

count-prepended :
    (x : ℕ) (o : Option PropositionInput) (ps : List PropositionInput)
    → count (λ i. i == x) (ids (prepended o ps))
      ≡ (if has_id x o then 1 else 0) + count (λ i. i == x) (ids ps)
count-prepended x none ps = omega arith
count-prepended x (some p) ps = omega arith

pub count-propositions_at :
    (ps : List PropositionInput) (x : ℕ) (is_ : List ℕ)
    → count (λ i. i == x) (ids (propositions_at ps is_)) ≡ count (is_id_at ps x) is_
count-propositions_at ps x [] = refl
count-propositions_at ps x (k ∷ is_) =
    count-prepended x (element_at k ps) (propositions_at ps is_)
    ∙ omega (arith, count-propositions_at ps x is_)

pub occurrences-filter :
    (k : ℕ) (cs : List Cluster) → occurrences k (filter is_large cs) ≤ occurrences k cs
occurrences-filter k [] = omega arith
occurrences-filter k (c ∷ cs) = elim (Bool-cases (is_large c)) [
  | inl t ↦ rw t (omega (arith, occurrences-filter k cs))
  | inr t ↦ rw t (omega (arith, occurrences-filter k cs))
]

pub length-initial : (idx : ℕ) (kss : List (List Text)) → length (initial idx kss) ≡ length kss
length-initial idx [] = refl
length-initial idx (ks ∷ kss) = ap suc (length-initial (suc idx) kss)

occurrences-before :
    (k idx : ℕ) (kss : List (List Text)) → k < idx → occurrences k (initial idx kss) ≡ 0
occurrences-before k idx [] h = refl
occurrences-before k idx (ks ∷ kss) h =
    let other : (idx == k) ≡ false = ground arith in
    rw other (omega (arith, occurrences-before k (suc idx) kss (omega arith)))

pub occurrences-initial : (k idx : ℕ) (kss : List (List Text)) → occurrences k (initial idx kss) ≤ 1
occurrences-initial k idx [] = omega arith
occurrences-initial k idx (ks ∷ kss) = elim (Bool-cases (idx == k)) [
  | inl t ↦
      let same : idx ≡ k = ground arith in
      rw t (omega (arith, occurrences-before k (suc idx) kss (omega arith)))
  | inr t ↦ rw t (omega (arith, occurrences-initial k (suc idx) kss))
]
