-- ===== src/Moderation/Queue/Durations.antt =====
-- The wait times of moderation-queue.service.ts as texts in ISO 8601. A fraction of the seconds, which the
-- expression of `parseDuration` allows and no wait time has, is left out.
use reasonbridge.Prelude.{
  ℕ, zero, suc, ◌+◌, ◌-◌, ◌*◌, ◌/◌, ◌%◌, Bool, ◌&&◌, [], ◌∷◌, ◌++◌, if◌then◌else◌, ltb, leb, ◌==◌,
  Text,
}

-- The digits of a number in decimal, at most as many as the fuel.
unfoldable pub decimal_digits : (fuel n : ℕ) → Text
decimal_digits zero n = []
decimal_digits (suc fuel) n =
    let more = decimal_digits fuel (n / 10) in (if ltb n 10 then [] else more) ++ (48 + n % 10) ∷ []

-- A time in milliseconds has less than 17 digits.
abbrev pub printed : ℕ → Text
printed n = decimal_digits 17 n

abbrev pub is_decimal : ℕ → Bool
is_decimal c = leb 48 c && leb c 57

-- `parseInt`, after the number of the digits before.
abbrev pub number_from : ℕ → Text → ℕ
number_from n [] = n
number_from n (c ∷ s) = number_from (10 * n + (c - 48)) s

-- `\d+`, and what is left after it.
abbrev pub digit_run : Text → Text
digit_run [] = []
digit_run (c ∷ s) = if is_decimal c then c ∷ digit_run s else []

abbrev pub after_digits : Text → Text
after_digits [] = []
after_digits (c ∷ s) = if is_decimal c then after_digits s else c ∷ s

-- `(?:(\d+)c)?`: the number, or 0, and what is left of the text.
abbrev pub found_group : (c : ℕ) → (s run rest : Text) → ℕ × Text
found_group c s [] rest = (0, s)
found_group c s (d ∷ run) [] = (0, s)
found_group c s (d ∷ run) (x ∷ rest) = if x == c then (number_from 0 (d ∷ run), rest) else (0, s)

unfoldable pub group : (c : ℕ) → Text → ℕ × Text
group c s = found_group c s (digit_run s) (after_digits s)

abbrev pub ms_per_day : ℕ
ms_per_day = 24 * 60 * 60 * 1000

unfoldable pub parse_time : Text → ℕ
unfolding group
parse_time s =
    let (hours, s1) = group b'H' s in
    let (minutes, s2) = group b'M' s1 in
    let (seconds, s3) = group b'S' s2 in
    hours * 60 * 60 * 1000 + minutes * 60 * 1000 + seconds * 1000

-- `(?:T…)?`
abbrev pub parse_after_date : Text → ℕ
parse_after_date [] = 0
parse_after_date (c ∷ s) = if c == b'T' then parse_time s else 0

unfoldable pub parse_date : Text → ℕ
unfolding group
parse_date s =
    let (years, s1) = group b'Y' s in
    let (months, s2) = group b'M' s1 in
    let (days, s3) = group b'D' s2 in
    years * 365 * ms_per_day + months * 30 * ms_per_day + days * ms_per_day + parse_after_date s3

-- The expression matches from the first `P` on.
unfoldable pub parse_duration : Text → ℕ
parse_duration [] = 0
parse_duration (c ∷ s) = let rest = parse_duration s in if c == b'P' then parse_date s else rest

-- The time since a creation that is not in the future.
unfoldable pub calculate_wait_time : (waited : ℕ) → Text
unfolding decimal_digits
calculate_wait_time waited =
    let s = waited / 1000 in
    let m = s / 60 in
    let h = m / 60 in
    let d = h / 24 in
    if ltb 0 d
    then b'P' ∷ (printed d ++ b'D' ∷ [])
    else if ltb 0 h
    then b'P' ∷ (b'T' ∷ (printed h ++ b'H' ∷ []))
    else if ltb 0 m
    then b'P' ∷ (b'T' ∷ (printed m ++ b'M' ∷ []))
    else b'P' ∷ (b'T' ∷ (printed s ++ b'S' ∷ []))
