-- ===== src/Database/Keys.antt =====
-- Rows with distinct keys: the primary key of a table, and what is found by a key.
use reasonbridge.Prelude.{
  ℕ, ◌+◌, ◌≡◌, ◌≢◌, refl, Bool, Option, none, some, List, [], ◌∷◌, arith, find, count, ◌==◌,
  Bool-cases, inl, inr, if◌then◌else◌,
}
use reasonbridge.Database.Rows.{modify_first, remove_first}
use reasonbridge.Database.Evolution.{find_key}

abbrev pub mapped {ℓ} : {A : Type ℓ} → (A → A) → Option A → Option A
mapped f none = none
mapped f (some a) = some (f a)

module _ {A : Type 0} where
  -- What a deletion takes from a count.
  pub count-remove_first :
      (p q : A → Bool) (xs : List A) (a : A)
      → find q xs ≡ some a
      → count p (remove_first q xs) + (if p a then 1 else 0) ≡ count p xs
  count-remove_first p q [] a h = ground arith
  count-remove_first p q (x ∷ xs) a h = elim (Bool-cases (q x)) [
    | inl t ↦ let same : x ≡ a = ground arith in rw t (rw same (omega arith))
    | inr t ↦ rw t (omega (arith, count-remove_first p q xs a (rw t at h)))
  ]

module _ {A : Type 0} (key : A → ℕ) where
  -- No two rows have the same key.
  abbrev pub IsDistinct : List A → Type 0
  IsDistinct [] = Unit
  IsDistinct (x ∷ xs) = (find_key key (key x) xs ≡ none) × IsDistinct xs

  module _ (f : A → A) (keeps : (x : A) → key (f x) ≡ key x) where
    pub find_key-modify_first :
        (i : ℕ) (xs : List A)
        → find_key key i (modify_first (λ x. key x == i) f xs) ≡ mapped f (find_key key i xs)
    find_key-modify_first i [] = refl
    find_key-modify_first i (x ∷ xs) = ground (arith, keeps x, find_key-modify_first i xs)

    pub find_key-modify_first_other :
        (i j : ℕ) (xs : List A)
        → i ≢ j
        → find_key key j (modify_first (λ x. key x == i) f xs) ≡ find_key key j xs
    find_key-modify_first_other i j [] h = refl
    find_key-modify_first_other i j (x ∷ xs) h =
        ground (arith, keeps x, find_key-modify_first_other i j xs h)

    modify_first-none :
        (i j : ℕ) (xs : List A)
        → find_key key j xs ≡ none
        → find_key key j (modify_first (λ x. key x == i) f xs) ≡ none
    modify_first-none i j [] h = refl
    modify_first-none i j (x ∷ xs) h = ground (arith, keeps x, modify_first-none i j xs)

    pub modify_first-IsDistinct :
        (i : ℕ) (xs : List A) → IsDistinct xs → IsDistinct (modify_first (λ x. key x == i) f xs)
    modify_first-IsDistinct i [] h = tt
    modify_first-IsDistinct i (x ∷ xs) (n, h) = elim (Bool-cases (key x == i)) [
      | inl t ↦ rw t (rw (keeps x) n, h)
      | inr t ↦ rw t (modify_first-none i (key x) xs n, modify_first-IsDistinct i xs h)
    ]

  pub remove_first-none :
      (i j : ℕ) (xs : List A)
      → find_key key j xs ≡ none
      → find_key key j (remove_first (λ x. key x == i) xs) ≡ none
  remove_first-none i j [] h = refl
  remove_first-none i j (x ∷ xs) h = ground (arith, remove_first-none i j xs)

  pub remove_first-IsDistinct :
      (i : ℕ) (xs : List A) → IsDistinct xs → IsDistinct (remove_first (λ x. key x == i) xs)
  remove_first-IsDistinct i [] h = tt
  remove_first-IsDistinct i (x ∷ xs) (n, h) = elim (Bool-cases (key x == i)) [
    | inl t ↦ rw t h
    | inr t ↦ rw t (remove_first-none i (key x) xs n, remove_first-IsDistinct i xs h)
  ]

  not_absent :
      (p : A → Bool) (xs : List A) (r : A) → find p xs ≡ some r → find_key key (key r) xs ≢ none
  not_absent p [] r h = ground arith
  not_absent p (x ∷ xs) r h = ground (arith, not_absent p xs r)

  -- A row that any search finds is the one that its key finds.
  pub find-find_key :
      (p : A → Bool) (xs : List A) (r : A)
      → IsDistinct xs
      → find p xs ≡ some r
      → find_key key (key r) xs ≡ some r
  find-find_key p [] r h e = absurd (ground arith)
  find-find_key p (x ∷ xs) r (n, h) e = elim (Bool-cases (p x)) [
    | inl t ↦ let same : x ≡ r = ground arith in ground arith
    | inr t ↦
        let later : find p xs ≡ some r = rw t at e in
        elim (Bool-cases (key x == key r)) [
          | inl k ↦
              let same : key x ≡ key r = ground arith in
              absurd (not_absent p xs r later (rw (← same) n))
          | inr k ↦ rw k (find-find_key p xs r h later)
        ]
  ]
