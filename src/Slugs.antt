-- ===== src/Slugs.antt =====
-- services/discussion-service/src/topics/slug-generator.service.ts. The clock and the answers of the
-- database to the queries for a slug are parameters, by the number of the call; so is the text of
-- `Math.random().toString(36).substring(2, 10)`. A slug comes with the number of queries made.
pub mod Base
pub mod Hash
pub mod Rules
pub mod Unique
mod Examples
use reasonbridge.Prelude.{
  ℕ, zero, suc, ◌+◌, ◌-◌, ◌*◌, ◌/◌, ◌%◌, ◌^◌, Bool, true, false, not, ◌&&◌, ◌||◌, Option, none,
  some, List, [], ◌∷◌, ◌++◌, filter, length, map, take, ltb, leb, ◌==◌, if◌then◌else◌, Text, text,
  is_space, trim, to_lower_case,
}

abbrev pub hyphen : ℕ
hyphen = b'-'

abbrev pub is_lower_or_digit : ℕ → Bool
is_lower_or_digit c = (leb b'a' c && leb c b'z') || (leb b'0' c && leb c b'9')

-- `[\s-]`
abbrev pub is_break : ℕ → Bool
is_break c = is_space c || c == hyphen

-- `.replace(/['"]/g, '')`
abbrev pub strip_quotes : Text → Text
strip_quotes s = filter (λ c. not (c == b'\'' || c == b'"')) s

-- `.replace(/[^a-z0-9\s-]/g, ' ')`
abbrev pub blank : ℕ → ℕ
blank c = if is_lower_or_digit c || is_break c then c else b' '

-- `.replace(/[\s-]+/g, '-')`; the flag says that the code unit before was in a run.
unfoldable pub join_runs : Bool → Text → Text
join_runs inside [] = []
join_runs inside (c ∷ s) =
    let after_break = join_runs true s in
    let after_other = join_runs false s in
    if is_break c then if inside then after_break else hyphen ∷ after_break else c ∷ after_other

-- `.replace(/^-+|-+$/g, '')`
unfoldable pub drop_hyphens : Text → Text
drop_hyphens [] = []
drop_hyphens (c ∷ s) = let rest = drop_hyphens s in if c == hyphen then rest else c ∷ s

unfoldable pub drop_end_hyphens : Text → Text
drop_end_hyphens [] = []
drop_end_hyphens (c ∷ s) = elim (drop_end_hyphens s) [
  | [] ↦ if c == hyphen then [] else c ∷ []
  | d ∷ rest ↦ c ∷ d ∷ rest
]

unfoldable pub trim_hyphens : Text → Text
unfolding drop_hyphens drop_end_hyphens
trim_hyphens s = drop_end_hyphens (drop_hyphens s)

unfoldable pub generate_base_slug : Text → Text
unfolding join_runs trim_hyphens trim to_lower_case is_space
generate_base_slug title =
    take 200
      (trim_hyphens (join_runs false (map blank (strip_quotes (trim (to_lower_case title))))))

-- A 32-bit integer as its residue: `hash = (hash << 5) - hash + char` and `hash & hash`.
abbrev pub two_32 : ℕ
two_32 = 2 ^ 32

unfoldable pub hash_from : ℕ → Text → ℕ
hash_from hash [] = hash
hash_from hash (c ∷ s) = hash_from ((hash * 32 % two_32 + (two_32 - hash) + c) % two_32) s

-- `Math.abs` of the integer with a residue.
abbrev pub magnitude : ℕ → ℕ
magnitude hash = if ltb hash (2 ^ 31) then hash else two_32 - hash

abbrev pub digit : ℕ → ℕ
digit d = if ltb d 10 then b'0' + d else b'a' + (d - 10)

-- The digits of `n.toString(radix)`, at most as many as the fuel, before the digits found already.
unfoldable pub digits_of : (fuel radix n : ℕ) → Text → Text
digits_of zero radix n found = found
digits_of (suc fuel) radix n found =
    let rest = digits_of fuel radix (n / radix) (digit (n % radix) ∷ found) in
    if n == 0 then found else rest

-- A number of `Date.now()` has at most 53 bits, so 53 digits are enough in any radix.
unfoldable pub to_radix : ℕ → ℕ → Text
to_radix radix n = if n == 0 then b'0' ∷ [] else digits_of 53 radix n []

abbrev pub zeros : ℕ → Text
zeros zero = []
zeros (suc n) = b'0' ∷ zeros n

-- `padStart(n, '0')`
abbrev pub pad_start : ℕ → Text → Text
pad_start n s = zeros (n - length s) ++ s

unfoldable pub generate_hash_suffix : Text → Text
unfolding hash_from to_radix
generate_hash_suffix input = pad_start 6 (take 6 (to_radix 36 (magnitude (hash_from 0 input))))

-- What the generator reads of the outside: the times of its calls of `Date.now()`, the answers of
-- `slugExists`, and the random text.
pub record Outside : Type 0 where
  pub now : ℕ → ℕ
  pub exists : ℕ → Text → Bool
  pub random_text : Text

module _ (out : Outside) where
  -- The loop from an attempt on, with the attempts left as its fuel.
  unfoldable pub try_from : (left attempt : ℕ) → Text → Text × ℕ
  try_from zero attempt base = (take 100 base ++ hyphen ∷ out.random_text, attempt)
  try_from (suc left) attempt base =
      let slug = base ++ hyphen ∷ to_radix 36 (out.now attempt) in
      let rest = try_from left (suc attempt) base in
      if out.exists attempt slug then rest else (slug, suc attempt)

  unfoldable pub first_slug : Text → Text → Text
  first_slug base suffix =
      let slug = base ++ hyphen ∷ suffix in
      if ltb 250 (length slug) then take (250 - length suffix - 1) base ++ hyphen ∷ suffix else slug

  unfoldable pub unique_from : Text → Text → Text × ℕ
  unfolding try_from first_slug
  unique_from [] suffix = (text "topic-" ++ suffix, 0)
  unique_from (c ∷ base) suffix =
      let slug = first_slug (c ∷ base) suffix in
      if out.exists 0 slug then try_from 10 1 (c ∷ base) else (slug, 1)

  unfoldable pub generate_unique_slug : Text → Text × ℕ
  unfolding generate_base_slug generate_hash_suffix to_radix unique_from
  generate_unique_slug title =
      unique_from (generate_base_slug title)
        (generate_hash_suffix (title ++ to_radix 10 (out.now 0)))

abbrev pub all_of : (ℕ → Bool) → Text → Bool
all_of p [] = true
all_of p (c ∷ s) = p c && all_of p s

abbrev pub starts_hyphen : Text → Bool
starts_hyphen [] = false
starts_hyphen (c ∷ s) = c == hyphen

abbrev pub ends_hyphen : Text → Bool
ends_hyphen [] = false
ends_hyphen (c ∷ []) = c == hyphen
ends_hyphen (c ∷ d ∷ s) = ends_hyphen (d ∷ s)

pub data SlugCheck : Type 0 where
  valid wrong_characters wrong_length hyphen_at_end slug_taken : SlugCheck

-- `/^[a-z0-9-]+$/` wants at least one code unit.
abbrev pub has_slug_characters : Text → Bool
has_slug_characters s = ltb 0 (length s) && all_of (λ c. is_lower_or_digit c || c == hyphen) s

unfoldable pub validate_custom_slug : (Text → Bool) → Text → SlugCheck
validate_custom_slug exists s =
    if not (has_slug_characters s)
    then SlugCheck.wrong_characters
    else if ltb (length s) 3 || ltb 250 (length s)
    then SlugCheck.wrong_length
    else if starts_hyphen s || ends_hyphen s
    then SlugCheck.hyphen_at_end
    else if exists s
    then SlugCheck.slug_taken
    else SlugCheck.valid
