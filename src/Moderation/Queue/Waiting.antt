-- ===== src/Moderation/Queue/Waiting.antt =====
-- The wait time that an item shows, and what its comparison reads of it.
use reasonbridge.Prelude.{
  ℕ, zero, suc, ◌+◌, ◌-◌, ◌*◌, ◌/◌, ◌%◌, ◌≤◌, ◌<◌, ◌≡◌, refl, sym, ap, ◌∙◌, Bool, true, false, [],
  ◌∷◌, ◌++◌, ltb, ◌==◌, if◌then◌else◌, arith, Text, Bool-cases, inl, inr,
}
use reasonbridge.Moderation.Queue.Durations.{
  decimal_digits, printed, is_decimal, number_from, digit_run, after_digits, group, parse_time,
  parse_date, parse_duration, calculate_wait_time, ms_per_day,
}

abbrev all_digits : Text → Bool
all_digits [] = true
all_digits (c ∷ s) = if is_decimal c then all_digits s else false

number_from-snoc :
    (n d : ℕ) (s : Text) → number_from n (s ++ d ∷ []) ≡ 10 * number_from n s + (d - 48)
number_from-snoc n d [] = refl
number_from-snoc n d (c ∷ s) = number_from-snoc (10 * n + (c - 48)) d s

all_digits-snoc :
    (d : ℕ) (s : Text) → is_decimal d ≡ true → all_digits s ≡ true → all_digits (s ++ d ∷ []) ≡ true
all_digits-snoc d [] e h = rw e refl
all_digits-snoc d (c ∷ s) e h = elim (Bool-cases (is_decimal c)) [
  | inl t ↦ rw t (all_digits-snoc d s e (rw t at h))
  | inr t ↦ absurd (ground (arith, t, h))
]

abbrev capacity : ℕ → ℕ
capacity zero = 1
capacity (suc fuel) = 10 * capacity fuel

all_digits-decimal_digits : (fuel n : ℕ) → all_digits (decimal_digits fuel n) ≡ true
unfolding decimal_digits
all_digits-decimal_digits zero n = refl
all_digits-decimal_digits (suc fuel) n =
    let last : is_decimal (48 + n % 10) ≡ true = ground arith in
    elim (Bool-cases (ltb n 10)) [
      | inl t ↦ rw (t, last) refl
      | inr t ↦ rw t (
          all_digits-snoc (48 + n % 10) (decimal_digits fuel (n / 10)) last
            (all_digits-decimal_digits fuel (n / 10)))
    ]

-- The digits read as the number where the fuel is enough.
number_from-decimal_digits :
    (fuel n : ℕ) → n < capacity fuel → number_from 0 (decimal_digits fuel n) ≡ n
unfolding decimal_digits
number_from-decimal_digits zero n h = omega (arith, h)
number_from-decimal_digits (suc fuel) n h = elim (Bool-cases (ltb n 10)) [
  | inl t ↦ rw t (ground arith)
  | inr t ↦
      let rest = number_from-decimal_digits fuel (n / 10) (omega (arith, h)) in
      rw (t, number_from-snoc 0 (48 + n % 10) (decimal_digits fuel (n / 10)), rest) (omega arith)
]

snoc-cons : (s : Text) (d : ℕ) → (e : ℕ) × (t : Text) × (s ++ d ∷ [] ≡ e ∷ t)
snoc-cons [] d = (d, [], refl)
snoc-cons (c ∷ s) d = (c, s ++ d ∷ [], refl)

decimal_digits-cons : (fuel n : ℕ) → (e : ℕ) × (t : Text) × (decimal_digits (suc fuel) n ≡ e ∷ t)
unfolding decimal_digits
decimal_digits-cons fuel n =
    snoc-cons (if ltb n 10 then [] else decimal_digits fuel (n / 10)) (48 + n % 10)

-- A run of digits before another character.
module _ (x : ℕ) (r : Text) (other : is_decimal x ≡ false) where
  digit_run-before : (s : Text) → all_digits s ≡ true → digit_run (s ++ x ∷ r) ≡ s
  digit_run-before [] h = rw other refl
  digit_run-before (c ∷ s) h = elim (Bool-cases (is_decimal c)) [
    | inl t ↦ rw t (ap (λ u. c ∷ u) (digit_run-before s (rw t at h)))
    | inr t ↦ absurd (ground (arith, t, h))
  ]

  after_digits-before : (s : Text) → all_digits s ≡ true → after_digits (s ++ x ∷ r) ≡ x ∷ r
  after_digits-before [] h = rw other refl
  after_digits-before (c ∷ s) h = elim (Bool-cases (is_decimal c)) [
    | inl t ↦ rw t (after_digits-before s (rw t at h))
    | inr t ↦ absurd (ground (arith, t, h))
  ]

  module _ (e : ℕ) (t : Text) (digits : all_digits (e ∷ t) ≡ true) where
    group-here : group x (e ∷ (t ++ x ∷ r)) ≡ (number_from 0 (e ∷ t), r)
    unfolding group
    group-here =
        let same : (x == x) ≡ true = ground arith in
        rw (digit_run-before (e ∷ t) digits, after_digits-before (e ∷ t) digits, same) refl

    group-elsewhere :
        (c : ℕ) → (x == c) ≡ false → group c (e ∷ (t ++ x ∷ r)) ≡ (0, e ∷ (t ++ x ∷ r))
    unfolding group
    group-elsewhere c differ =
        rw (digit_run-before (e ∷ t) digits, after_digits-before (e ∷ t) digits, differ) refl

module _ (n : ℕ) (h : n < capacity 17) where
  -- The number that is printed, with its first digit.
  first_digit : (e : ℕ) × (t : Text) × (printed n ≡ e ∷ t)
  first_digit = decimal_digits-cons 16 n

  module _ (e : ℕ) (t : Text) (shown : printed n ≡ e ∷ t) where
    digits : all_digits (e ∷ t) ≡ true
    digits = ap all_digits (sym shown) ∙ all_digits-decimal_digits 17 n

    value : number_from 0 (e ∷ t) ≡ n
    value = ap (number_from 0) (sym shown) ∙ number_from-decimal_digits 17 n h

    parse_days : parse_date (e ∷ (t ++ b'D' ∷ [])) ≡ n * ms_per_day
    unfolding parse_date
    parse_days =
        rw
          (
            group-elsewhere b'D' [] refl e t digits b'Y' refl,
            group-elsewhere b'D' [] refl e t digits b'M' refl,
            group-here b'D' [] refl e t digits,
            value,
          )
          (omega arith)

    parse_hours : parse_time (e ∷ (t ++ b'H' ∷ [])) ≡ n * 60 * 60 * 1000
    unfolding parse_time group
    parse_hours = rw (group-here b'H' [] refl e t digits, value) (omega arith)

    parse_minutes : parse_time (e ∷ (t ++ b'M' ∷ [])) ≡ n * 60 * 1000
    unfolding parse_time
    parse_minutes =
        rw
          (
            group-elsewhere b'M' [] refl e t digits b'H' refl,
            group-here b'M' [] refl e t digits,
            value,
          )
          (omega arith)

    parse_seconds : parse_time (e ∷ (t ++ b'S' ∷ [])) ≡ n * 1000
    unfolding parse_time
    parse_seconds =
        rw
          (
            group-elsewhere b'S' [] refl e t digits b'H' refl,
            group-elsewhere b'S' [] refl e t digits b'M' refl,
            group-here b'S' [] refl e t digits,
            value,
          )
          (omega arith)

    -- What is read back, by the unit that is shown.
    shown_days : parse_duration (b'P' ∷ (printed n ++ b'D' ∷ [])) ≡ n * ms_per_day
    unfolding parse_duration
    shown_days = rw shown parse_days

    shown_hours : parse_duration (b'P' ∷ (b'T' ∷ (printed n ++ b'H' ∷ []))) ≡ n * 60 * 60 * 1000
    unfolding parse_duration parse_date group
    shown_hours = rw (shown, parse_hours) (omega arith)

    shown_minutes : parse_duration (b'P' ∷ (b'T' ∷ (printed n ++ b'M' ∷ []))) ≡ n * 60 * 1000
    unfolding parse_duration parse_date group
    shown_minutes = rw (shown, parse_minutes) (omega arith)

    shown_seconds : parse_duration (b'P' ∷ (b'T' ∷ (printed n ++ b'S' ∷ []))) ≡ n * 1000
    unfolding parse_duration parse_date group
    shown_seconds = rw (shown, parse_seconds) (omega arith)

-- The text of a wait time of less than 10^17 milliseconds is read back as the time rounded down to its
-- largest unit: at most the time waited, and more than half of it, to within a second.
pub parse_duration-calculate_wait_time :
    (waited : ℕ)
    → waited < 100000000000000000
    → (parse_duration (calculate_wait_time waited) ≤ waited)
      × (waited < 2 * parse_duration (calculate_wait_time waited) + 1000)
unfolding calculate_wait_time
parse_duration-calculate_wait_time waited h =
    let s = waited / 1000 in
    let m = s / 60 in
    let hours = m / 60 in
    let d = hours / 24 in
    elim (Bool-cases (ltb 0 d)) [
      | inl a ↦
          let small : d < capacity 17 = omega (arith, h) in
          let (e, t, shown) = first_digit d small in
          let some_days : 0 < d = ground arith in
          rw (a, shown_days d small e t shown) (omega (arith, some_days), omega (arith, some_days))
      | inr a ↦ elim (Bool-cases (ltb 0 hours)) [
        | inl b ↦
            let small : hours < capacity 17 = omega (arith, h) in
            let (e, t, shown) = first_digit hours small in
            let some_hours : 0 < hours = ground arith in
            let no_days : d ≤ 0 = ground arith in
            rw (a, b, shown_hours hours small e t shown)
              (omega (arith, some_hours, no_days), omega (arith, some_hours, no_days))
        | inr b ↦ elim (Bool-cases (ltb 0 m)) [
          | inl c ↦
              let small : m < capacity 17 = omega (arith, h) in
              let (e, t, shown) = first_digit m small in
              let some_minutes : 0 < m = ground arith in
              let no_hours : hours ≤ 0 = ground arith in
              rw (a, b, c, shown_minutes m small e t shown)
                (omega (arith, some_minutes, no_hours), omega (arith, some_minutes, no_hours))
          | inr c ↦
              let small : s < capacity 17 = omega (arith, h) in
              let (e, t, shown) = first_digit s small in
              let no_minutes : m ≤ 0 = ground arith in
              rw (a, b, c, shown_seconds s small e t shown)
                (omega (arith, no_minutes), omega (arith, no_minutes))
        ]
      ]
    ]
