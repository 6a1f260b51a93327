-- ===== src/Database/Evolution.antt =====
-- How the rows of a table evolve: each row stays under its key and is related to what it was.
use mathlib.Core.Path.{subst, subst₂}
use reasonbridge.Prelude.{
  ℕ, ◌≡◌, sym, ◌∙◌, Bool, true, Option, none, some, List, [], ◌∷◌, arith, find, ◌==◌, ==_iff,
  Bool-cases, inl, inr,
}
use reasonbridge.Database.Rows.{modify_first, modify_all}

module _ {A : Type 0} (key : A → ℕ) where
  abbrev pub find_key : ℕ → List A → Option A
  find_key i xs = find (λ x. key x == i) xs

module _ {A : Type 0} (key : A → ℕ) (R : A → A → Type 0) where
  abbrev pub Evolves : List A → List A → Type 0
  Evolves xs ys =
      (i : ℕ) (r : A) → find_key key i xs ≡ some r → (t : A) × (find_key key i ys ≡ some t) × R r t

  module _ (R-refl : (a : A) → R a a) where
    pub Evolves-refl : (xs : List A) → Evolves xs xs
    Evolves-refl xs i r h = (r, h, R-refl r)

    -- A created row has a key of its own.
    pub Evolves-cons : (x : A) (xs : List A) → find_key key (key x) xs ≡ none → Evolves xs (x ∷ xs)
    Evolves-cons x xs fresh i r h = elim (Bool-cases (key x == i)) [
      | inl e ↦
          let same : key x ≡ i = (==_iff _ _).0 e in
          let clash : none ≡ some r = sym (subst (λ j. find_key key j xs ≡ none) same fresh) ∙ h in
          absurd (ground arith)
      | inr e ↦ (r, rw e h, R-refl r)
    ]

    pub Evolves-modify_first :
        (j : ℕ) (f : A → A) (xs : List A) {a : A}
        → ((x : A) → key (f x) ≡ key x)
        → find_key key j xs ≡ some a
        → R a (f a)
        → Evolves xs (modify_first (λ x. key x == j) f xs)
    Evolves-modify_first j f [] keeps e step i r h = absurd (ground arith)
    Evolves-modify_first j f (x ∷ xs) {a} keeps e step i r h = elim (Bool-cases (key x == j)) [
      | inl ej ↦ elim (Bool-cases (key x == i)) [
        | inl ei ↦
            let x_is_r : x ≡ r = ground arith in
            let a_is_r : a ≡ r = ground arith in
            (
              f x,
              ground (arith, keeps x),
              subst₂ (λ u v. R u (f v)) a_is_r (a_is_r ∙ sym x_is_r) step,
            )
        | inr ei ↦ (r, ground (arith, keeps x), R-refl r)
      ]
      | inr ej ↦ elim (Bool-cases (key x == i)) [
        | inl ei ↦ (r, ground arith, R-refl r)
        | inr ei ↦
            let (t, ht, st) =
              Evolves-modify_first j f xs keeps (rw ej at e) step i r (rw ei at h) in
            (t, ground arith, st)
      ]
    ]

    pub Evolves-modify_all :
        (p : A → Bool) (f : A → A) (xs : List A)
        → ((x : A) → key (f x) ≡ key x)
        → ((x : A) → p x ≡ true → R x (f x))
        → Evolves xs (modify_all p f xs)
    Evolves-modify_all p f [] keeps step i r h = absurd (ground arith)
    Evolves-modify_all p f (x ∷ xs) keeps step i r h = elim (Bool-cases (key x == i)) [
      | inl ei ↦
          let x_is_r : x ≡ r = ground arith in
          elim (Bool-cases (p x)) [
            | inl t ↦ (f x, ground (arith, keeps x), subst (λ u. R u (f x)) x_is_r (step x t))
            | inr t ↦ (r, ground arith, R-refl r)
          ]
      | inr ei ↦
          let (t, ht, st) = Evolves-modify_all p f xs keeps step i r (rw ei at h) in
          (t, ground (arith, keeps x), st)
    ]

  pub Evolves-trans :
      (R-trans : (a b c : A) → R a b → R b c → R a c) (xs ys zs : List A)
      → Evolves xs ys
      → Evolves ys zs
      → Evolves xs zs
  Evolves-trans R-trans xs ys zs f g i r h =
      let (s, hs, rs) = f i r h in let (t, ht, st) = g i s hs in (t, ht, R-trans r s t rs st)
