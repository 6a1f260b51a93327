-- ===== src/IdSet.antt =====
-- A set of identifiers of the language, as the list of its elements in the order of their insertion.
use reasonbridge.Prelude.{
  ℕ, ◌≡◌, refl, ◌∙◌, Bool, true, false, ◌||◌, List, [], ◌∷◌, ◌++◌, arith, any, ◌==◌, Bool-cases,
  inl, inr, if◌then◌else◌,
}

abbrev pub is_among : List ℕ → ℕ → Bool
is_among ids i = any (λ j. j == i) ids

-- `Set.add`, and `forEach` of it.
abbrev added : ℕ → List ℕ → List ℕ
added a set = if is_among set a then set else set ++ a ∷ []

abbrev pub added_all : List ℕ → List ℕ → List ℕ
added_all [] set = set
added_all (a ∷ as_) set = added_all as_ (added a set)

pub is_among-append :
    (ids : List ℕ) (x j : ℕ) → is_among (ids ++ x ∷ []) j ≡ (is_among ids j || x == j)
is_among-append [] x j = ground arith
is_among-append (i ∷ ids) x j = ground (arith, is_among-append ids x j)

-- No element twice.
abbrev pub IsUnique : List ℕ → Type 0
IsUnique [] = Unit {0}
IsUnique (a ∷ set) = (is_among set a ≡ false) × IsUnique set

append-IsUnique :
    (set : List ℕ) (a : ℕ) → is_among set a ≡ false → IsUnique set → IsUnique (set ++ a ∷ [])
append-IsUnique [] a h k = (refl, tt)
append-IsUnique (b ∷ set) a h (n, k) =
    let other : (a == b) ≡ false = ground arith in
    let later : is_among set a ≡ false = ground arith in
    (rw (is_among-append set a b, n, other) refl, append-IsUnique set a later k)

added-IsUnique : (a : ℕ) (set : List ℕ) → IsUnique set → IsUnique (added a set)
added-IsUnique a set h = elim (Bool-cases (is_among set a)) [
  | inl t ↦ rw t h
  | inr t ↦ rw t (append-IsUnique set a t h)
]

pub added_all-IsUnique : (xs set : List ℕ) → IsUnique set → IsUnique (added_all xs set)
added_all-IsUnique [] set h = h
added_all-IsUnique (a ∷ xs) set h = added_all-IsUnique xs (added a set) (added-IsUnique a set h)

is_among-added :
    (a : ℕ) (set : List ℕ) (x : ℕ) → is_among (added a set) x ≡ (a == x || is_among set x)
is_among-added a set x = elim (Bool-cases (is_among set a)) [
  | inl t ↦ elim (Bool-cases (a == x)) [
    | inl u ↦
        let same : a ≡ x = ground arith in
        let here : is_among set x ≡ true = rw (← same) t in rw (t, u) here
    | inr u ↦ rw (t, u) refl
  ]
  | inr t ↦ rw (t, is_among-append set a x) (ground arith)
]

pub is_among-added_all :
    (xs set : List ℕ) (x : ℕ) → is_among (added_all xs set) x ≡ (is_among xs x || is_among set x)
is_among-added_all [] set x = refl
is_among-added_all (a ∷ xs) set x =
    is_among-added_all xs (added a set) x ∙ rw (is_among-added a set x) (ground arith)
