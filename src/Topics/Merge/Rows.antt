-- ===== src/Topics/Merge/Rows.antt =====
-- The rows that a merge reads: the topics by their number of responses, and those that are sources.
use reasonbridge.Prelude.{
  ℕ, ◌≡◌, ◌≢◌, refl, ◌∙◌, Bool, true, false, not, ◌&&◌, none, some, List, [], ◌∷◌, ◌++◌, arith,
  count, ◌==◌, if◌then◌else◌, All, Bool-cases, inl, inr, Text,
}
use reasonbridge.Database.{modify_first, IsDistinct, find_key-modify_first_other}
use reasonbridge.Database.Evolution.{find_key}
use reasonbridge.Totals.{total}
use reasonbridge.IdSet.{is_among, is_among-append}
use reasonbridge.Topics.{Topic, Response, topic_key}
use reasonbridge.Topics.Merge.{is_on, response_total, merged_into}
use reasonbridge.Topics.Merge.Moved.{archive_rows}

-- A topic stores the number of its responses.
abbrev pub counted : List Response → Topic → Bool
counted rs t = t.response_count == count (is_on t.id) rs

-- No two topics have the same key, the topic of every response is stored, and every topic counts its
-- responses.
pub record HasCounts (topics : List Topic) (rs : List Response) : Type 0 where
  pub distinct : IsDistinct topic_key topics
  pub stored : All (λ r. (t : Topic) × (find_key topic_key r.topic_id topics ≡ some t)) rs
  pub counts : All (λ t. t.response_count ≡ count (is_on t.id) rs) topics

count_absent :
    (f : ℕ → Bool) (j : ℕ) (ts : List Topic)
    → find_key topic_key j ts ≡ none
    → count (λ t. f t.id && (j == t.id)) ts ≡ 0
count_absent f j [] h = refl
count_absent f j (t ∷ ts) h = ground (arith, count_absent f j ts)

pub count_present :
    (f : ℕ → Bool) (j : ℕ) (ts : List Topic) (t : Topic)
    → IsDistinct topic_key ts
    → find_key topic_key j ts ≡ some t
    → count (λ x. f x.id && (j == x.id)) ts ≡ (if f j then 1 else 0)
count_present f j [] t d h = absurd (ground arith)
count_present f j (x ∷ xs) t (n, d) h = elim (Bool-cases (x.id == j)) [
  | inl e ↦
      let same : x.id ≡ j = ground arith in
      let rest = count_absent f j xs (rw same at n) in
      let self : (j == j) ≡ true = ground arith in
      elim (Bool-cases (f j)) [
        | inl k ↦ rw (same, self, k) (omega (arith, rest))
        | inr k ↦ rw (same, self, k) (omega (arith, rest))
      ]
  | inr e ↦
      let other : (j == x.id) ≡ false = ground arith in
      let rest = count_present f j xs t d (rw e at h) in
      elim (Bool-cases (f x.id)) [
        | inl k ↦ rw (other, k) (omega (arith, rest))
        | inr k ↦ rw (other, k) (omega (arith, rest))
      ]
]

pub total_of_counted :
    (rs : List Response) (ts : List Topic)
    → count (λ t. not (counted rs t)) ts ≡ 0
    → response_total ts ≡ total (λ t. count (is_on t.id) rs) ts
total_of_counted rs [] h = refl
total_of_counted rs (t ∷ ts) h = elim (Bool-cases (counted rs t)) [
  | inl e ↦
      let later : count (λ x. not (counted rs x)) ts ≡ 0 = omega (arith, rw e at h) in
      ground (arith, total_of_counted rs ts later)
  | inr e ↦ absurd (omega (arith, rw e at h))
]

pub only_sources :
    (ids : List ℕ) (target k : ℕ) (b : Bool)
    → (is_among (ids ++ target ∷ []) k && (is_among ids k && b)) ≡ (is_among ids k && b)
only_sources ids target k b = elim (Bool-cases (is_among ids k)) [
  | inl t ↦ rw (is_among-append ids target k, t) refl
  | inr t ↦ rw (is_among-append ids target k, t) (ground arith)
]

pub never_target :
    (ids : List ℕ) (i k : ℕ) (b : Bool)
    → is_among ids i ≡ false
    → (b && (is_among ids k && k == i)) ≡ false
never_target ids i k b h = elim (Bool-cases (k == i)) [
  | inl t ↦
      let same : k ≡ i = ground arith in
      let missing : is_among ids k ≡ false = rw same h in rw missing (ground arith)
  | inr t ↦ rw t (ground arith)
]

-- Archiving changes no other topic.
pub archive_rows-other :
    (now : ℕ) (note : Text) (i : ℕ) (ts rows : List Topic)
    → count (λ t. t.id == i) ts ≡ 0
    → find_key topic_key i (archive_rows now note ts rows) ≡ find_key topic_key i rows
archive_rows-other now note i [] rows h = refl
archive_rows-other now note i (t ∷ ts) rows h =
    let apart : t.id ≢ i = ground arith in
    let later : count (λ x. x.id == i) ts ≡ 0 = omega (arith, h) in
    archive_rows-other now note i ts
      (modify_first (λ x. topic_key x == t.id) (merged_into now note t) rows) later
    ∙ find_key-modify_first_other topic_key (merged_into now note t) (λ x. refl) t.id i rows apart
