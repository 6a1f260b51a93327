-- ===== src/Database/Memory.antt =====
-- A table as a list in memory: the interface can be met. The tests and examples run on it.
use mathlib.Core.List.{Memᴰ}
use mathlib.Core.Path.{subst}
use reasonbridge.Prelude.{
  sym, ℕ, suc, ◌≤◌, ◌≡◌, refl, Bool, true, false, ◌&&◌, Option, none, some, List, [], ◌∷◌, arith,
  ltb, ◌==◌, if◌then◌else◌, max, not, filter, count, find, any, All, All-imp, Bool-cases,
  Option-cases, inl, inr,
}
use reasonbridge.Database.{Table, modify_first, remove_first, modify_all}

module _ {Row : Type 0} where
  abbrev pub bound : (Row → ℕ) → List Row → ℕ
  bound key [] = 0
  bound key (x ∷ xs) = max (suc (key x)) (bound key xs)

  bound_fresh :
      (key : Row → ℕ) (xs : List Row) (i : ℕ) → bound key xs ≤ i → find (λ x. key x == i) xs ≡ none
  bound_fresh key [] i h = refl
  bound_fresh key (x ∷ xs) i h = ground (arith, bound_fresh key xs i)

  pub count-filter :
      (p q : Row → Bool) (xs : List Row) → count q (filter p xs) ≡ count (λ r. p r && q r) xs
  count-filter p q [] = refl
  count-filter p q (x ∷ xs) = ground (arith, count-filter p q xs)

  -- The first row that passes the test with the greatest value; the later rows go first.
  abbrev pub later : (Row → ℕ) → Row → Option Row → Row
  later at x none = x
  later at x (some y) = if ltb (at x) (at y) then y else x

  unfoldable pub latest : (Row → Bool) → (Row → ℕ) → List Row → Option Row
  latest p at [] = none
  latest p at (x ∷ xs) = let rest = latest p at xs in if p x then some (later at x rest) else rest

  pub latest-none :
      (p : Row → Bool) (at : Row → ℕ) (xs : List Row) → latest p at xs ≡ none → count p xs ≡ 0
  unfolding latest
  latest-none p at [] h = refl
  latest-none p at (x ∷ xs) h = ground (arith, latest-none p at xs)

  none_above :
      (p : Row → Bool) (at : Row → ℕ) (xs : List Row) (n : ℕ)
      → count p xs ≡ 0
      → All (λ x. p x ≡ true → at x ≤ n) xs
  none_above p at [] n h = tt
  none_above p at (x ∷ xs) n h = (λ t. absurd (ground arith), none_above p at xs n (ground arith))

  pub latest-some :
      (p : Row → Bool) (at : Row → ℕ) (xs : List Row) (r : Row)
      → latest p at xs ≡ some r
      → (p r ≡ true) × Memᴰ r xs × All (λ x. p x ≡ true → at x ≤ at r) xs
  unfolding latest
  latest-some p at [] r h = absurd (ground arith)
  latest-some p at (x ∷ xs) r h = elim (Bool-cases (p x)) [
    | inr t ↦
        let (good, mem, most) = latest-some p at xs r (rw t at h) in
        (good, Memᴰ.tail mem, (λ u. absurd (ground arith), most))
    | inl t ↦ elim (Option-cases (latest p at xs)) [
      | inl e ↦
          let same : x ≡ r = ground arith in
          (
            ground arith,
            Memᴰ.head (sym same),
            (λ _. ground arith, none_above p at xs _ (latest-none p at xs e)),
          )
      | inr (y, e) ↦
          let (good, mem, most) = latest-some p at xs y e in
          elim (Bool-cases (ltb (at x) (at y))) [
            | inl u ↦
                let same : y ≡ r = ground arith in
                (
                  ground arith,
                  Memᴰ.tail (subst (λ z. Memᴰ z xs) same mem),
                  (
                    λ _. ground arith,
                    subst (λ z. All (λ x. p x ≡ true → at x ≤ at z) xs) same most,
                  ),
                )
            | inr u ↦
                let same : x ≡ r = ground arith in
                (
                  ground arith,
                  Memᴰ.head (sym same),
                  (λ _. ground arith, All-imp xs (λ z k pz. ground (arith, k pz)) most),
                )
          ]
    ]
  ]

module _ {Row : Type 0} (key : Row → ℕ) (clash : Row → Row → Bool) where
  abbrev pub insert : List Row → (ℕ → Row) → Option (Row × List Row)
  insert s mk = let r = mk (bound key s) in if any (clash r) s then none else some (r, r ∷ s)

  pub insert-some :
      (s : List Row) (mk : ℕ → Row) {r : Row} {t : List Row}
      → insert s mk ≡ some (r, t)
      → (i : ℕ) × (r ≡ mk i)
        × (find (λ x. key x == i) s ≡ none)
        × (any (clash r) s ≡ false)
        × (t ≡ r ∷ s)
  insert-some s mk {r} {t} h = elim (Bool-cases (any (clash (mk (bound key s))) s)) [
    | inl e ↦ absurd (ground arith)
    | inr e ↦
        let made : r ≡ mk (bound key s) = ground arith in
        let held : t ≡ r ∷ s = ground arith in
        (
          bound key s,
          made,
          bound_fresh key s _ (omega arith),
          subst (λ y. any (clash y) s ≡ false) (sym made) e,
          held,
        )
  ]

  pub insert-none :
      (s : List Row) (mk : ℕ → Row) → insert s mk ≡ none → (i : ℕ) × (any (clash (mk i)) s ≡ true)
  insert-none s mk h = (bound key s, ground arith)

  abbrev pub memory : Table (List Row) Row key clash
  memory = record {
    rows = λ s. s;
    find_unique = λ s i. find (λ r. key r == i) s;
    find_unique_by = λ s p. find p s;
    find_many = λ s p. filter p s;
    find_latest = λ s p at. latest p at s;
    create = insert;
    update = λ s i f. modify_first (λ r. key r == i) f s;
    delete = λ s i. remove_first (λ r. key r == i) s;
    delete_many = λ s p. filter (λ r. not (p r)) s;
    update_many = λ s p f. modify_all p f s;
    find_unique-eq = λ s i. refl;
    find_unique_by-eq = λ s p. refl;
    count-find_many = λ s p q. count-filter p q s;
    find_latest-none = λ s p at. latest-none p at s;
    find_latest-some = λ s p at h. latest-some p at s _ h;
    create-some = insert-some;
    create-none = insert-none;
    rows-update = λ s i f. refl;
    rows-delete = λ s i. refl;
    rows-delete_many = λ s p. refl;
    rows-update_many = λ s p f. refl;
  }
