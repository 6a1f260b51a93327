-- ===== src/Slugs/Rules.antt =====
-- A generated slug against the rules for a custom slug.
use reasonbridge.Prelude.{
  ℕ, zero, suc, ◌+◌, ◌^◌, ◌≤◌, ◌<◌, ◌≡◌, refl, true, false, Bool, [], ◌∷◌, ◌++◌, arith, take,
  length, length-append, length-take, if◌then◌else◌, ltb, Text, text, Bool-cases, inl, inr,
}
use reasonbridge.Slugs.{
  Outside, SlugCheck, hyphen, is_lower_or_digit, hash_from, magnitude, to_radix, try_from,
  first_slug, unique_from, generate_base_slug, generate_hash_suffix, generate_unique_slug, all_of,
  starts_hyphen, ends_hyphen, validate_custom_slug,
}
use reasonbridge.Slugs.Base.{
  is_slug_character, all_of-append, all_of-take, take-start, IsBase, generate_base_slug-IsBase,
}
use reasonbridge.Slugs.Hash.{IsSuffix, to_radix-IsPrinted, generate_hash_suffix-IsSuffix}

-- At least one letter or digit, at most 11.
pub record IsWord (s : Text) : Type 0 where
  pub digits : all_of is_lower_or_digit s ≡ true
  pub some_digits : 0 < length s
  pub at_most : length s ≤ 11

digits-characters :
    (s : Text) → all_of is_lower_or_digit s ≡ true → all_of is_slug_character s ≡ true
digits-characters [] h = refl
digits-characters (c ∷ s) h = ground (arith, digits-characters s)

word-end :
    (c : ℕ) (s : Text)
    → all_of is_lower_or_digit s ≡ true
    → 0 < length s
    → ends_hyphen (c ∷ s) ≡ false
word-end c [] h k = ground arith
word-end c (d ∷ []) h k = ground arith
word-end c (d ∷ e ∷ s) h k = word-end d (e ∷ s) (ground arith) (omega arith)

append-end :
    (s word : Text)
    → all_of is_lower_or_digit word ≡ true
    → 0 < length word
    → ends_hyphen (s ++ hyphen ∷ word) ≡ false
append-end [] word h k = word-end hyphen word h k
append-end (c ∷ []) word h k = word-end hyphen word h k
append-end (c ∷ d ∷ s) word h k = append-end (d ∷ s) word h k

append-start :
    (s t : Text) → 0 < length s → starts_hyphen s ≡ false → starts_hyphen (s ++ t) ≡ false
append-start [] t k h = ground arith
append-start (c ∷ s) t k h = h

-- What `validate_custom_slug` says of a slug that follows its rules.
abbrev pub only_taken : Bool → SlugCheck
only_taken taken = if taken then SlugCheck.slug_taken else SlugCheck.valid

module _ (exists : Text → Bool) where
  joined-valid :
      (base word : Text)
      → IsBase base
      → 0 < length base
      → IsWord word
      → validate_custom_slug exists (base ++ hyphen ∷ word)
        ≡ only_taken (exists (base ++ hyphen ∷ word))
  unfolding validate_custom_slug
  joined-valid base word is_base some is_word =
      let slug = base ++ hyphen ∷ word in
      let long : length slug ≡ length base + suc (length word) =
        length-append base (hyphen ∷ word) in
      let characters : all_of is_slug_character slug ≡ true =
        all_of-append is_slug_character base (hyphen ∷ word) is_base.characters
          (digits-characters word is_word.digits) in
      let start : starts_hyphen slug ≡ false =
        append-start base (hyphen ∷ word) some is_base.start in
      let end : ends_hyphen slug ≡ false =
        append-end base word is_word.digits is_word.some_digits in
      let some_digits : 0 < length word = is_word.some_digits in
      let few : length word ≤ 11 = is_word.at_most in
      let short : length base ≤ 200 = is_base.short in
      let some_of : ltb 0 (length slug) ≡ true = ground arith in
      let enough : ltb (length slug) 3 ≡ false = ground arith in
      let not_over : ltb 250 (length slug) ≡ false = ground arith in
      rw (some_of, characters, enough, not_over, start, end) refl

take-some : (base : Text) → 0 < length base → 0 < length (take 100 base)
take-some [] h = h
take-some (c ∷ base) h = omega arith

taken-IsBase : (base : Text) → IsBase base → IsBase (take 100 base)
taken-IsBase base is_base =
    let short : length base ≤ 200 = is_base.short in
    record {
      characters = all_of-take is_slug_character 100 base is_base.characters;
      start = take-start 100 base is_base.start;
      short = omega (arith, length-take 100 base);
    }

suffix-IsWord : (n : ℕ) (s : Text) → IsSuffix n s → IsWord s
suffix-IsWord n s suffix =
    let six : length s ≡ 6 = suffix.six in
    record { digits = suffix.digits; some_digits = omega arith; at_most = omega arith }

module _ (out : Outside) (exists : Text → Bool) where
  -- A slug passes the rules for a custom slug.
  abbrev pub Follows : Text → Type 0
  Follows slug = validate_custom_slug exists slug ≡ only_taken (exists slug)

  -- The times have at most 53 bits, and the random text has one to eleven letters and digits.
  pub record IsUsual : Type 0 where
    pub times : (k : ℕ) → out.now k < 2 ^ 53
    pub random_word : IsWord out.random_text

  time-IsWord : IsUsual → (k : ℕ) → IsWord (to_radix 36 (out.now k))
  time-IsWord usual k =
      let small : out.now k < 9007199254740992 = usual.times k in
      let printed = to_radix-IsPrinted 11 (out.now k) (omega arith) (omega arith) (omega arith) in
      record {
        digits = printed.digits;
        some_digits = printed.some_digits;
        at_most = printed.at_most;
      }

  try_from-Follows :
      IsUsual
      → (left attempt : ℕ) (base : Text) → IsBase base
      → 0 < length base
      → Follows (try_from out left attempt base).0
  unfolding try_from
  try_from-Follows usual zero attempt base is_base h =
      joined-valid exists (take 100 base) out.random_text (taken-IsBase base is_base)
        (take-some base h) usual.random_word
  try_from-Follows usual (suc left) attempt base is_base h =
      let word = to_radix 36 (out.now attempt) in
      elim (Bool-cases (out.exists attempt (base ++ hyphen ∷ word))) [
        | inl t ↦ rw t (try_from-Follows usual left (suc attempt) base is_base h)
        | inr t ↦ rw t (joined-valid exists base word is_base h (time-IsWord usual attempt))
      ]

  first_slug-Follows :
      (base suffix : Text)
      → IsBase base
      → 0 < length base
      → length suffix ≡ 6
      → IsWord suffix
      → Follows (first_slug out base suffix)
  unfolding first_slug
  first_slug-Follows base suffix is_base h six word =
      let long : length (base ++ hyphen ∷ suffix) ≡ length base + suc (length suffix) =
        length-append base (hyphen ∷ suffix) in
      let short : length base ≤ 200 = is_base.short in
      let not_over : ltb 250 (length (base ++ hyphen ∷ suffix)) ≡ false = ground arith in
      rw not_over (joined-valid exists base suffix is_base h word)

  unique_from-Follows :
      IsUsual
      → (base suffix : Text) → IsBase base
      → length suffix ≡ 6
      → IsWord suffix
      → Follows (unique_from out base suffix).0
  unfolding unique_from
  unique_from-Follows usual [] suffix is_base six word =
      joined-valid exists (text "topic") suffix
        (record { characters = refl; start = refl; short = omega arith }) (omega arith) word
  unique_from-Follows usual (c ∷ base) suffix is_base six word =
      elim (Bool-cases (out.exists 0 (first_slug out (c ∷ base) suffix))) [
        | inl t ↦ rw t (try_from-Follows usual 10 1 (c ∷ base) is_base (omega arith))
        | inr t ↦ rw t (first_slug-Follows (c ∷ base) suffix is_base (omega arith) six word)
      ]

  -- The slug generated for any title, the fallbacks included, follows the rules for a custom slug: with
  -- times of at most 53 bits and a random text of one to eleven letters and digits, validating it fails
  -- only where a topic has the slug already.
  pub generate_unique_slug-Follows :
      IsUsual → (title : Text) → Follows (generate_unique_slug out title).0
  unfolding generate_unique_slug
  generate_unique_slug-Follows usual title =
      let input = title ++ to_radix 10 (out.now 0) in
      let suffix = generate_hash_suffix-IsSuffix input in
      unique_from-Follows usual (generate_base_slug title) (generate_hash_suffix input)
        (generate_base_slug-IsBase title) suffix.six
        (suffix-IsWord (magnitude (hash_from 0 input)) (generate_hash_suffix input) suffix)
