-- ===== src/Slugs/Unique.antt =====
-- A generated slug against the answers of the database.
use reasonbridge.Prelude.{
  ℕ, zero, suc, ◌+◌, ◌≤◌, ◌<◌, ◌≡◌, refl, true, false, not, ◌&&◌, ◌||◌, Bool, [], ◌∷◌, ◌++◌, arith,
  length, Text, Bool-cases, inl, inr,
}
use reasonbridge.Slugs.{
  Outside, hyphen, to_radix, try_from, first_slug, unique_from, generate_base_slug,
  generate_hash_suffix, generate_unique_slug,
}

module _ (out : Outside) where
  -- The query of an attempt that the loop makes.
  abbrev pub is_taken : ℕ → Text → Bool
  is_taken attempt base = out.exists attempt (base ++ hyphen ∷ to_radix 36 (out.now attempt))

  abbrev pub all_taken : (left attempt : ℕ) → Text → Bool
  all_taken zero attempt base = true
  all_taken (suc left) attempt base = is_taken attempt base && all_taken left (suc attempt) base

  -- The last query made was for the slug, and the answer was that no topic has it.
  abbrev pub is_found_free : Text × ℕ → Bool
  is_found_free (slug, zero) = false
  is_found_free (slug, suc k) = not (out.exists k slug)

  try_from-free :
      (left attempt : ℕ) (base : Text)
      → (is_found_free (try_from out left attempt base) || all_taken left attempt base) ≡ true
  unfolding try_from
  try_from-free zero attempt base = ground arith
  try_from-free (suc left) attempt base = elim (Bool-cases (is_taken attempt base)) [
    | inl t ↦ rw t (try_from-free left (suc attempt) base)
    | inr t ↦ rw (t, t) refl
  ]

  try_from-queries :
      (left attempt : ℕ) (base : Text) → (try_from out left attempt base).1 ≤ attempt + left
  unfolding try_from
  try_from-queries zero attempt base = omega arith
  try_from-queries (suc left) attempt base = elim (Bool-cases (is_taken attempt base)) [
    | inl t ↦ rw t (omega (arith, try_from-queries left (suc attempt) base))
    | inr t ↦ rw t (omega arith)
  ]

  -- The first query of a title, which is for the base with the hash behind it.
  abbrev pub is_first_taken : Text → Bool
  is_first_taken title = out.exists 0 (
      first_slug out (generate_base_slug title)
        (generate_hash_suffix (title ++ to_radix 10 (out.now 0))))

  unique_from-free :
      (base suffix : Text)
      → 0 < length base
      → (is_found_free (unique_from out base suffix)
          || (out.exists 0 (first_slug out base suffix) && all_taken 10 1 base))
        ≡ true
  unfolding unique_from
  unique_from-free [] suffix h = ground arith
  unique_from-free (c ∷ base) suffix h =
      elim (Bool-cases (out.exists 0 (first_slug out (c ∷ base) suffix))) [
        | inl t ↦ rw t (try_from-free 10 1 (c ∷ base))
        | inr t ↦ rw (t, t) refl
      ]

  unique_from-queries : (base suffix : Text) → (unique_from out base suffix).1 ≤ 11
  unfolding unique_from
  unique_from-queries [] suffix = omega arith
  unique_from-queries (c ∷ base) suffix =
      elim (Bool-cases (out.exists 0 (first_slug out (c ∷ base) suffix))) [
        | inl t ↦ rw t (try_from-queries 10 1 (c ∷ base))
        | inr t ↦ rw t (omega arith)
      ]

  -- For a title whose base has a code unit at most eleven queries are made, and the last one was for the
  -- slug returned and found it free, or the first query and all ten of the loop were answered that the
  -- slug is taken.
  pub generate_unique_slug-free :
      (title : Text)
      → 0 < length (generate_base_slug title)
      → (is_found_free (generate_unique_slug out title)
            || (is_first_taken title && all_taken 10 1 (generate_base_slug title)))
          ≡ true
        × (generate_unique_slug out title).1 ≤ 11
  unfolding generate_unique_slug
  generate_unique_slug-free title h =
      let base = generate_base_slug title in
      let suffix = generate_hash_suffix (title ++ to_radix 10 (out.now 0)) in
      (unique_from-free base suffix h, unique_from-queries base suffix)
