-- ===== src/Citations/Ranges.antt =====
-- The textual patterns of the private ranges, against the numbers of a dotted address.
use reasonbridge.Prelude.{
  ℕ, ◌+◌, ◌/◌, ◌%◌, ◌≤◌, ◌<◌, ◌≡◌, refl, Bool, false, ◌&&◌, ◌||◌, [], ◌∷◌, ◌++◌, arith,
  if◌then◌else◌, ltb, leb, ◌==◌, Text, text, text_eq, starts_with, to_lower_case, Bool-cases, inl,
  inr,
}
use reasonbridge.Citations.{is_private_ip, has_prefix, ipv6_prefixes, sixteen_to_31, after_prefix}

-- A number below 1000 in decimal.
abbrev pub decimal : ℕ → Text
decimal n =
    if ltb n 10
    then (48 + n) ∷ []
    else if ltb n 100
    then (48 + n / 10) ∷ (48 + n % 10) ∷ []
    else (48 + n / 100) ∷ (48 + n / 10 % 10) ∷ (48 + n % 10) ∷ []

-- `a.b` and the rest of a dotted address.
abbrev pub dotted : ℕ → ℕ → Text → Text
dotted a b rest = decimal a ++ b'.' ∷ (decimal b ++ b'.' ∷ rest)

-- The ranges by their numbers.
abbrev pub is_private : ℕ → ℕ → Bool
is_private a b =
    a == 127
    || a == 10
    || (a == 192 && b == 168)
    || (a == 169 && b == 254)
    || a == 224
    || a == 0
    || a == 255
    || (a == 172 && leb 16 b && leb b 31)

decimal-head : (n : ℕ) → (d : ℕ) × (s : Text) × (decimal n ≡ d ∷ s) × (48 ≤ d) × (n < 256 → d ≤ 57)
decimal-head n = elim (Bool-cases (ltb n 10)) [
  | inl t ↦ (48 + n, [], rw t refl, omega arith, λ h. ground arith)
  | inr t ↦ elim (Bool-cases (ltb n 100)) [
    | inl u ↦ (48 + n / 10, (48 + n % 10) ∷ [], rw (t, u) refl, omega arith, λ h. ground arith)
    | inr u ↦ (
      48 + n / 100,
      (48 + n / 10 % 10) ∷ (48 + n % 10) ∷ [],
      rw (t, u) refl,
      omega arith,
      λ h. ground arith,
    )
  ]
]

-- A text that starts with a digit matches none of the patterns of IPv6.
no_ipv6 :
    (d : ℕ) (s : Text)
    → 48 ≤ d
    → d ≤ 57
    → (text_eq (d ∷ s) (text "::1") ≡ false)
      × (has_prefix ipv6_prefixes (to_lower_case (d ∷ s)) ≡ false)
unfolding to_lower_case
no_ipv6 d s h k = (ground arith, ground arith)

module _ (a b : ℕ) (rest : Text) (ha : a < 256) (hb : b < 256) where
  by_first :
      (starts_with (text "127.") (dotted a b rest) ≡ (a == 127))
      × (starts_with (text "10.") (dotted a b rest) ≡ (a == 10))
      × (starts_with (text "224.") (dotted a b rest) ≡ (a == 224))
      × (starts_with (text "0.") (dotted a b rest) ≡ (a == 0))
      × (starts_with (text "255.") (dotted a b rest) ≡ (a == 255))
  by_first = (ground arith, ground arith, ground arith, ground arith, ground arith)

  by_both :
      (starts_with (text "192.168.") (dotted a b rest) ≡ (a == 192 && b == 168))
      × (starts_with (text "169.254.") (dotted a b rest) ≡ (a == 169 && b == 254))
  by_both = (ground arith, ground arith)

  by_range :
      sixteen_to_31 (after_prefix (text "172.") (dotted a b rest))
      ≡ (a == 172 && leb 16 b && leb b 31)
  by_range = ground arith

  by_ipv6 :
      (text_eq (dotted a b rest) (text "::1") ≡ false)
      × (has_prefix ipv6_prefixes (to_lower_case (dotted a b rest)) ≡ false)
  by_ipv6 =
      let (d, s, e, low, high) = decimal-head a in
      rw e (no_ipv6 d (s ++ b'.' ∷ (decimal b ++ b'.' ∷ rest)) low (high ha))

-- On an IPv4 address in its dotted form, whose first two numbers are `a` and `b`, the textual patterns
-- match exactly the loopback, private, link-local, `0.`, `224.` and `255.` ranges by their numbers.
pub is_private_ip-dotted :
    (a b : ℕ) (rest : Text) → a < 256 → b < 256 → is_private_ip (dotted a b rest) ≡ is_private a b
unfolding is_private_ip
is_private_ip-dotted a b rest ha hb =
    let (loop, ten, multi, zero_net, broad) = by_first a b rest ha hb in
    let (private, link) = by_both a b rest ha hb in
    let (one, six) = by_ipv6 a b rest ha hb in
    rw (loop, ten, multi, zero_net, broad, private, link, by_range a b rest ha hb, one, six)
      (ground arith)
