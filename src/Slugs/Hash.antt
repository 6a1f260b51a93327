-- ===== src/Slugs/Hash.antt =====
-- The suffix of a slug is the hash of its input, in six digits.
use reasonbridge.Prelude.{
  ℕ, zero, suc, ◌+◌, ◌-◌, ◌*◌, ◌/◌, ◌%◌, ◌≤◌, ◌<◌, ◌≡◌, refl, ap, ◌∙◌, true, false, [], ◌∷◌, ◌++◌,
  arith, take, length, length-append, if◌then◌else◌, leb, ◌==◌, Text, Bool-cases, inl, inr,
}
use reasonbridge.Slugs.{
  is_lower_or_digit, two_32, hash_from, magnitude, digit, digits_of, to_radix, zeros, pad_start,
  generate_hash_suffix, all_of,
}
use reasonbridge.Slugs.Base.{all_of-append}

-- The number of a digit, and of a text of digits after a number.
abbrev pub undigit : ℕ → ℕ
undigit c = if leb b'a' c then c - b'a' + 10 else c - b'0'

abbrev pub read_36 : ℕ → Text → ℕ
read_36 n [] = n
read_36 n (c ∷ s) = read_36 (n * 36 + undigit c) s

-- 36 ^ k
abbrev pub numbers : ℕ → ℕ
numbers zero = 1
numbers (suc k) = 36 * numbers k

undigit-digit : (d : ℕ) → d < 36 → undigit (digit d) ≡ d
undigit-digit d h = ground arith

digit-lower : (d : ℕ) → d < 36 → is_lower_or_digit (digit d) ≡ true
digit-lower d h = ground arith

read-digits_of :
    (fuel n : ℕ) (found : Text)
    → n < numbers fuel
    → read_36 0 (digits_of fuel 36 n found) ≡ read_36 n found
unfolding digits_of
read-digits_of zero n found h = let none_left : n ≡ 0 = omega arith in rw none_left refl
read-digits_of (suc fuel) n found h = elim (Bool-cases (n == 0)) [
  | inl t ↦ let none_left : n ≡ 0 = ground arith in rw none_left refl
  | inr t ↦
      let rest = read-digits_of fuel (n / 36) (digit (n % 36) ∷ found) (omega arith) in
      let whole : n / 36 * 36 + undigit (digit (n % 36)) ≡ n =
        omega (arith, undigit-digit (n % 36) (omega arith)) in
      rw t (rest ∙ ap (λ (m : ℕ). read_36 m found) whole)
]

digits_of-length :
    (fuel k n : ℕ) (found : Text)
    → n < numbers k
    → length (digits_of fuel 36 n found) ≤ k + length found
unfolding digits_of
digits_of-length zero k n found h = omega arith
digits_of-length (suc fuel) zero n found h =
    let none_left : (n == 0) ≡ true = ground arith in rw none_left (omega arith)
digits_of-length (suc fuel) (suc k) n found h = elim (Bool-cases (n == 0)) [
  | inl t ↦ rw t (omega arith)
  | inr t ↦
      rw t (omega (arith, digits_of-length fuel k (n / 36) (digit (n % 36) ∷ found) (omega arith)))
]

digits_of-lower :
    (fuel n : ℕ) (found : Text)
    → all_of is_lower_or_digit found ≡ true
    → all_of is_lower_or_digit (digits_of fuel 36 n found) ≡ true
unfolding digits_of
digits_of-lower zero n found h = h
digits_of-lower (suc fuel) n found h = elim (Bool-cases (n == 0)) [
  | inl t ↦ rw t h
  | inr t ↦ rw t (digits_of-lower fuel (n / 36) _ (rw (digit-lower (n % 36) (omega arith)) h))
]

digits_of-longer : (fuel n : ℕ) (found : Text) → length found ≤ length (digits_of fuel 36 n found)
unfolding digits_of
digits_of-longer zero n found = omega arith
digits_of-longer (suc fuel) n found = elim (Bool-cases (n == 0)) [
  | inl t ↦ rw t (omega arith)
  | inr t ↦ rw t (omega (arith, digits_of-longer fuel (n / 36) (digit (n % 36) ∷ found)))
]

-- What `toString(36)` prints of a number below 36 ^ k.
pub record IsPrinted (k n : ℕ) (s : Text) : Type 0 where
  pub digits : all_of is_lower_or_digit s ≡ true
  pub some_digits : 0 < length s
  pub at_most : length s ≤ k
  pub value : read_36 0 s ≡ n

some_digits_of : (fuel n : ℕ) → (n == 0) ≡ false → 0 < length (digits_of (suc fuel) 36 n [])
unfolding digits_of
some_digits_of fuel n t = rw t (omega (arith, digits_of-longer fuel (n / 36) (digit (n % 36) ∷ [])))

digits_of-IsPrinted :
    (fuel k n : ℕ)
    → (n == 0) ≡ false
    → n < numbers k
    → n < numbers (suc fuel)
    → IsPrinted k n (digits_of (suc fuel) 36 n [])
digits_of-IsPrinted fuel k n t h below = record {
  digits = digits_of-lower (suc fuel) n [] refl;
  some_digits = some_digits_of fuel n t;
  at_most = omega (arith, digits_of-length (suc fuel) k n [] h);
  value = read-digits_of (suc fuel) n [] below;
}

pub to_radix-IsPrinted :
    (k n : ℕ) → 0 < k → n < numbers k → n < numbers 53 → IsPrinted k n (to_radix 36 n)
unfolding to_radix
to_radix-IsPrinted k n hk h below = elim (Bool-cases (n == 0)) [
  | inl t ↦ rw t (record {
    digits = refl;
    some_digits = omega arith;
    at_most = omega arith;
    value = ground arith;
  })
  | inr t ↦ rw t (digits_of-IsPrinted 52 k n t h below)
]

pad_zeros : (k n : ℕ) (s : Text) → read_36 0 (zeros k ++ s) ≡ read_36 0 s
pad_zeros zero n s = refl
pad_zeros (suc k) n s = pad_zeros k n s

zeros-length : (k : ℕ) → length (zeros k) ≡ k
zeros-length zero = refl
zeros-length (suc k) = ap suc (zeros-length k)

zeros-lower : (k : ℕ) → all_of is_lower_or_digit (zeros k) ≡ true
zeros-lower zero = refl
zeros-lower (suc k) = zeros-lower k

take-short : (k : ℕ) (s : Text) → length s ≤ k → take k s ≡ s
take-short zero [] h = refl
take-short zero (c ∷ s) h = ground arith
take-short (suc k) [] h = refl
take-short (suc k) (c ∷ s) h = ap (λ (t : Text). c ∷ t) (take-short k s (omega arith))

hash_from-below : (hash : ℕ) (s : Text) → hash < two_32 → hash_from hash s < two_32
unfolding hash_from
hash_from-below hash [] h = h
hash_from-below hash (c ∷ s) h =
    hash_from-below ((hash * 32 % two_32 + (two_32 - hash) + c) % two_32) s (omega arith)

-- Six digits in base 36, and their number.
pub record IsSuffix (n : ℕ) (s : Text) : Type 0 where
  pub digits : all_of is_lower_or_digit s ≡ true
  pub six : length s ≡ 6
  pub value : read_36 0 s ≡ n

pad_start-IsSuffix : (n : ℕ) (s : Text) → IsPrinted 6 n s → IsSuffix n (pad_start 6 (take 6 s))
pad_start-IsSuffix n s printed =
    let at_most : length s ≤ 6 = printed.at_most in
    rw (take-short 6 s at_most) (record {
      digits =
          all_of-append is_lower_or_digit (zeros (6 - length s)) s (zeros-lower (6 - length s))
            printed.digits;
      six = length-append (zeros (6 - length s)) s ∙ omega (arith, zeros-length (6 - length s));
      value = pad_zeros (6 - length s) 0 s ∙ printed.value;
    })

magnitude-below : (hash : ℕ) → hash < two_32 → magnitude hash < numbers 6
magnitude-below hash h = ground arith

-- The suffix of every input has six digits in base 36, and they are the number of the absolute value of
-- the input's 32-bit hash: cutting the digits off after six loses none.
pub generate_hash_suffix-IsSuffix :
    (input : Text) → IsSuffix (magnitude (hash_from 0 input)) (generate_hash_suffix input)
unfolding generate_hash_suffix
generate_hash_suffix-IsSuffix input =
    let below = hash_from-below 0 input (omega arith) in
    let hash = magnitude (hash_from 0 input) in
    let small : hash < numbers 6 = magnitude-below (hash_from 0 input) below in
    pad_start-IsSuffix hash (to_radix 36 hash)
      (to_radix-IsPrinted 6 hash (omega arith) small (omega (arith, small)))
