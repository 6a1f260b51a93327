-- ===== src/Totals.antt =====
-- Counts and sums over lists: of a filter, and of the pairs of two lists from either side.
use reasonbridge.Prelude.{
  ℕ, ◌+◌, ◌≤◌, ◌≡◌, refl, sym, Bool, true, false, not, ◌&&◌, some, List, [], ◌∷◌, arith, filter,
  find, any, ltb, count, if◌then◌else◌, All,
}

module _ {A : Type 0} where
  pub count-filter :
      (p q : A → Bool) (xs : List A) → count q (filter p xs) ≡ count (λ x. p x && q x) xs
  count-filter p q [] = refl
  count-filter p q (x ∷ xs) = ground (arith, count-filter p q xs)

  pub count_none :
      (P : A → Type 0) (q : A → Bool) (xs : List A)
      → ((x : A) → P x → q x ≡ false)
      → All P xs
      → count q xs ≡ 0
  count_none P q [] h k = refl
  count_none P q (x ∷ xs) h (k, ks) = rw (h x k) (omega (arith, count_none P q xs h ks))

  pub count_never : (q : A → Bool) (xs : List A) → ((x : A) → q x ≡ false) → count q xs ≡ 0
  count_never q [] h = refl
  count_never q (x ∷ xs) h = rw (h x) (omega (arith, count_never q xs h))

  pub find-holds :
      (p q : A → Bool) (xs : List A) (a : A)
      → find p xs ≡ some a
      → count (λ x. not (q x)) xs ≡ 0
      → q a ≡ true
  find-holds p q [] a h k = ground arith
  find-holds p q (x ∷ xs) a h k = ground (arith, find-holds p q xs a)

  pub count_and-le : (p q : A → Bool) (xs : List A) → count (λ x. p x && q x) xs ≤ count q xs
  count_and-le p q [] = omega arith
  count_and-le p q (x ∷ xs) = ground (arith, count_and-le p q xs)

  abbrev pub total : (A → ℕ) → List A → ℕ
  total f [] = 0
  total f (x ∷ xs) = f x + total f xs

  total-add : (f g : A → ℕ) (xs : List A) → total (λ x. f x + g x) xs ≡ total f xs + total g xs
  total-add f g [] = refl
  total-add f g (x ∷ xs) = omega (arith, total-add f g xs)

  total-zero : (xs : List A) → total (λ _. 0) xs ≡ 0
  total-zero [] = refl
  total-zero (x ∷ xs) = omega (arith, total-zero xs)

  total-test : (p : A → Bool) (xs : List A) → total (λ x. if p x then 1 else 0) xs ≡ count p xs
  total-test p [] = refl
  total-test p (x ∷ xs) = omega (arith, total-test p xs)

-- Pairs counted from either side.
pub total-swap :
    {A B : Type 0} (p : A → B → Bool) (xs : List A) (ys : List B)
    → total (λ x. count (p x) ys) xs ≡ total (λ y. count (λ x. p x y) xs) ys
total-swap p [] ys = sym (total-zero ys)
total-swap p (x ∷ xs) ys = omega (
  arith,
  total-swap p xs ys,
  total-test (p x) ys,
  total-add (λ y. if p x y then 1 else 0) (λ y. count (λ z. p z y) xs) ys,
)

pub any-count : {A : Type 0} (p : A → Bool) (xs : List A) → any p xs ≡ ltb 0 (count p xs)
any-count p [] = refl
any-count p (x ∷ xs) = ground (arith, any-count p xs)
