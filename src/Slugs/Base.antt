-- ===== src/Slugs/Base.antt =====
-- The base of a slug.
use reasonbridge.Prelude.{
  ℕ, zero, suc, ◌≤◌, ◌≡◌, refl, Bool, true, false, ◌||◌, [], ◌∷◌, ◌++◌, arith, map, take, length,
  length-take, ◌==◌, Text, is_space, trim, to_lower_case, Bool-cases, inl, inr,
}
use reasonbridge.Slugs.{
  hyphen, is_lower_or_digit, is_break, strip_quotes, blank, join_runs, drop_hyphens,
  drop_end_hyphens, trim_hyphens, generate_base_slug, all_of, starts_hyphen,
}

abbrev pub is_slug_character : ℕ → Bool
is_slug_character c = is_lower_or_digit c || c == hyphen

module _ (p : ℕ → Bool) where
  pub all_of-append :
      (s t : Text) → all_of p s ≡ true → all_of p t ≡ true → all_of p (s ++ t) ≡ true
  all_of-append [] t h k = k
  all_of-append (c ∷ s) t h k = ground (arith, all_of-append s t)

  pub all_of-take : (n : ℕ) (s : Text) → all_of p s ≡ true → all_of p (take n s) ≡ true
  all_of-take zero s h = refl
  all_of-take (suc n) [] h = refl
  all_of-take (suc n) (c ∷ s) h = ground (arith, all_of-take n s)

  all_of-drop : (s : Text) → all_of p s ≡ true → all_of p (drop_hyphens s) ≡ true
  unfolding drop_hyphens
  all_of-drop [] h = refl
  all_of-drop (c ∷ s) h = ground (arith, all_of-drop s)

  all_of-drop_end : (s : Text) → all_of p s ≡ true → all_of p (drop_end_hyphens s) ≡ true
  unfolding drop_end_hyphens
  all_of-drop_end [] h = refl
  all_of-drop_end (c ∷ s) h = ground (arith, all_of-drop_end s)

blank-word : (c : ℕ) → (is_lower_or_digit (blank c) || is_break (blank c)) ≡ true
unfolding is_space
blank-word c = elim (Bool-cases (is_lower_or_digit c || is_break c)) [
  | inl t ↦ rw t t
  | inr t ↦ rw t refl
]

blank-kept : (s : Text) → all_of (λ c. is_lower_or_digit c || is_break c) (map blank s) ≡ true
blank-kept [] = refl
blank-kept (c ∷ s) = ground (arith, blank-word c, blank-kept s)

all_of-join_runs :
    (inside : Bool) (s : Text)
    → all_of (λ c. is_lower_or_digit c || is_break c) s ≡ true
    → all_of is_slug_character (join_runs inside s) ≡ true
unfolding join_runs
all_of-join_runs inside [] h = refl
all_of-join_runs inside (c ∷ s) h =
    ground (arith, all_of-join_runs true s, all_of-join_runs false s)

drop_hyphens-start : (s : Text) → starts_hyphen (drop_hyphens s) ≡ false
unfolding drop_hyphens
drop_hyphens-start [] = refl
drop_hyphens-start (c ∷ s) = ground (arith, drop_hyphens-start s)

drop_end_hyphens-start :
    (s : Text) → starts_hyphen s ≡ false → starts_hyphen (drop_end_hyphens s) ≡ false
unfolding drop_end_hyphens
drop_end_hyphens-start [] h = refl
drop_end_hyphens-start (c ∷ s) h = ground arith

pub take-start : (n : ℕ) (s : Text) → starts_hyphen s ≡ false → starts_hyphen (take n s) ≡ false
take-start zero s h = refl
take-start (suc n) [] h = refl
take-start (suc n) (c ∷ s) h = h

-- Lower-case letters, digits and hyphens, no hyphen at the start, and at most 200 code units.
pub record IsBase (s : Text) : Type 0 where
  pub characters : all_of is_slug_character s ≡ true
  pub start : starts_hyphen s ≡ false
  pub short : length s ≤ 200

-- Whatever the title is, its base slug has only lower-case letters, digits and hyphens, does not start
-- with a hyphen, and has at most 200 code units.
pub generate_base_slug-IsBase : (title : Text) → IsBase (generate_base_slug title)
unfolding generate_base_slug trim_hyphens
generate_base_slug-IsBase title =
    let words = map blank (strip_quotes (trim (to_lower_case title))) in
    let joined = join_runs false words in
    let trimmed = drop_end_hyphens (drop_hyphens joined) in
    let characters =
      all_of-join_runs false words (blank-kept (strip_quotes (trim (to_lower_case title)))) in
    record {
      characters = all_of-take is_slug_character 200 trimmed (
          all_of-drop_end is_slug_character (drop_hyphens joined)
            (all_of-drop is_slug_character joined characters));
      start =
          take-start 200 trimmed
            (drop_end_hyphens-start (drop_hyphens joined) (drop_hyphens-start joined));
      short = length-take 200 trimmed;
    }
