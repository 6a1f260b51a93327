-- ===== src/Database/Rows.antt =====
-- Rows as lists: the effect of an update and of a deletion on what a table holds.
use mathlib.Core.Path.{subst}
use mathlib.Core.List.{Memᴰ}
use reasonbridge.Prelude.{
  ◌+◌, ◌<◌, ◌≡◌, sym, refl, ◌&&◌, Bool, true, some, List, [], ◌∷◌, arith, count, find, All,
  Bool-cases, inl, inr, if◌then◌else◌,
}

module _ {A : Type 0} where
  -- The first row that passes the test is changed.
  abbrev pub modify_first : (A → Bool) → (A → A) → List A → List A
  modify_first p f [] = []
  modify_first p f (x ∷ xs) = if p x then f x ∷ xs else x ∷ modify_first p f xs

  -- The first row that passes the test is taken out.
  abbrev pub remove_first : (A → Bool) → List A → List A
  remove_first p [] = []
  remove_first p (x ∷ xs) = if p x then xs else x ∷ remove_first p xs

  -- Every row that passes the test is changed.
  abbrev pub modify_all : (A → Bool) → (A → A) → List A → List A
  modify_all p f [] = []
  modify_all p f (x ∷ xs) = (if p x then f x else x) ∷ modify_all p f xs

module _ {A : Type 0} where
  pub find-true : (p : A → Bool) (xs : List A) (r : A) → find p xs ≡ some r → p r ≡ true
  find-true p [] r h = ground arith
  find-true p (x ∷ xs) r h = ground (arith, find-true p xs r)

  pub find_of_count : (p : A → Bool) (xs : List A) → 0 < count p xs → (r : A) × (find p xs ≡ some r)
  find_of_count p [] h = absurd (omega arith)
  find_of_count p (x ∷ xs) h = elim (Bool-cases (p x)) [
    | inl e ↦ (x, rw e)
    | inr e ↦ rw e (find_of_count p xs (ground arith))
  ]

module _ {A : Type 0} where
  pub count_of_find : (p : A → Bool) (xs : List A) (r : A) → find p xs ≡ some r → 0 < count p xs
  count_of_find p [] r h = ground arith
  count_of_find p (x ∷ xs) r h = ground (arith, count_of_find p xs r)

  pub count_of_mem : (p : A → Bool) {r : A} (xs : List A) → Memᴰ r xs → p r ≡ true → 0 < count p xs
  count_of_mem p [] m h = elim m [ ]
  count_of_mem p (x ∷ xs) (Memᴰ.head e) h =
      let t : p x ≡ true = subst (λ y. p y ≡ true) e h in ground arith
  count_of_mem p (x ∷ xs) (Memᴰ.tail m) h = ground (arith, count_of_mem p xs m h)

  pub count-modify_first :
      (p q : A → Bool) (f : A → A) (xs : List A) (a : A)
      → find q xs ≡ some a
      → count p (modify_first q f xs) + (if p a then 1 else 0)
        ≡ count p xs + (if p (f a) then 1 else 0)
  count-modify_first p q f [] a h = ground arith
  count-modify_first p q f (x ∷ xs) a h = elim (Bool-cases (q x)) [
    | inl t ↦ let same : x ≡ a = ground arith in rw t (rw same (omega arith))
    | inr t ↦ rw t (omega (arith, count-modify_first p q f xs a (rw t at h)))
  ]

module _ {A : Type 0} (P : A → Type 0) where
  pub All-find : (p : A → Bool) (xs : List A) {r : A} → All P xs → find p xs ≡ some r → P r
  All-find p [] h e = absurd (ground arith)
  All-find p (x ∷ xs) {r} (k, h) e = elim (Bool-cases (p x)) [
    | inl t ↦ let same : x ≡ r = ground arith in subst P same k
    | inr t ↦ All-find p xs h (rw t at e)
  ]

  -- The invariant of the rows is kept where the one changed row keeps it.
  pub All-modify_first :
      (p : A → Bool) (f : A → A) (xs : List A) {r : A}
      → All P xs
      → find p xs ≡ some r
      → P (f r)
      → All P (modify_first p f xs)
  All-modify_first p f [] h e k = tt
  All-modify_first p f (x ∷ xs) {r} (q, h) e k = elim (Bool-cases (p x)) [
    | inl t ↦ let same : x ≡ r = ground arith in rw t (subst (λ y. P (f y)) (sym same) k, h)
    | inr t ↦ rw t (q, All-modify_first p f xs h (rw t at e) k)
  ]

  pub All-modify_all :
      (p : A → Bool) (f : A → A) (xs : List A)
      → ((x : A) → p x ≡ true → P x → P (f x))
      → All P xs
      → All P (modify_all p f xs)
  All-modify_all p f [] k h = tt
  All-modify_all p f (x ∷ xs) k (q, h) = elim (Bool-cases (p x)) [
    | inl t ↦ rw t (k x t q, All-modify_all p f xs k h)
    | inr t ↦ rw t (q, All-modify_all p f xs k h)
  ]

  pub All-remove_first : (p : A → Bool) (xs : List A) → All P xs → All P (remove_first p xs)
  All-remove_first p [] h = tt
  All-remove_first p (x ∷ xs) (q, h) = elim (Bool-cases (p x)) [
    | inl t ↦ rw t h
    | inr t ↦ rw t (q, All-remove_first p xs h)
  ]

  pub All-modify_first_any :
      (p : A → Bool) (f : A → A) (xs : List A)
      → ((x : A) → P x → P (f x))
      → All P xs
      → All P (modify_first p f xs)
  All-modify_first_any p f [] k h = tt
  All-modify_first_any p f (x ∷ xs) k (q, h) = elim (Bool-cases (p x)) [
    | inl t ↦ rw t (k x q, h)
    | inr t ↦ rw t (q, All-modify_first_any p f xs k h)
  ]

module _ {A : Type 0} where
  -- The rows that a search by one test alone returns.
  pub count-and_true : (p : A → Bool) (xs : List A) → count (λ x. p x && true) xs ≡ count p xs
  count-and_true p [] = refl
  count-and_true p (x ∷ xs) = ground (arith, count-and_true p xs)
