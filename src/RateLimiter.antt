-- ===== src/RateLimiter.antt =====
-- services/user-service/src/middleware/rate-limiter.middleware.ts. The map from addresses to
-- windows is a function; a request brings its headers and the time `Date.now()` in milliseconds.
pub mod Admission
pub mod Cleanup
mod Examples
use reasonbridge.Prelude.{
  ℕ, suc, ◌+◌, ◌-◌, ◌*◌, ◌/◌, Bool, true, false, Option, none, some, List, [], ◌∷◌, if◌then◌else◌,
  ltb, ◌==◌, Text, text, text_eq, trim, map,
}

-- `{ count: number; resetTime: number }`
pub record Window : Type 0 where
  pub count : ℕ
  pub reset_time : ℕ

-- `requestCounts`
abbrev pub Windows : Type 0
Windows = Text → Option Window

abbrev pub default_limit : ℕ
default_limit = 100

abbrev pub default_window_ms : ℕ
default_window_ms = 60 * 1000

abbrev pub set_window : Text → Option Window → Windows → Windows
set_window ip w ws x = if text_eq x ip then w else ws x

-- A header of the request: absent, one value, or several.
pub data Header : Type 0 where
  absent : Header
  single : Text → Header
  several : List Text → Header

pub record Request : Type 0 where
  pub forwarded_for : Header
  pub real_ip : Header
  pub remote_address : Option Text

-- `split(',')[0]`
unfoldable pub before_comma : Text → Text
before_comma [] = []
before_comma (c ∷ s) = let rest = before_comma s in if c == b',' then [] else c ∷ rest

-- The first value of a header, `none` where it is falsy: absent, empty, or no value at all.
abbrev pub truthy : Text → Option Text
truthy [] = none
truthy (c ∷ s) = some (c ∷ s)

abbrev pub first_value : Header → Option Text
first_value Header.absent = none
first_value (Header.single t) = truthy t
first_value (Header.several []) = none
first_value (Header.several (t ∷ ts)) = truthy t

-- The address in `x-forwarded-for`, before `trim`.
unfoldable pub forwarded_ip : Header → Option Text
unfolding before_comma
forwarded_ip Header.absent = none
forwarded_ip (Header.single t) = truthy (before_comma t)
forwarded_ip (Header.several []) = none
forwarded_ip (Header.several (t ∷ ts)) = truthy t

abbrev pub remote : Option Text → Text
remote (some (c ∷ s)) = c ∷ s
remote _ = text "unknown"

unfoldable pub get_client_ip : Request → Text
get_client_ip r = elim (forwarded_ip r.forwarded_for) [
  | some ip ↦ trim ip
  | none ↦ elim (first_value r.real_ip) [ some ip ↦ ip | none ↦ remote r.remote_address ]
]

-- The outcome of a request: `next()`, with the remaining requests of the header, or status 429 with
-- the seconds of `Retry-After`.
pub data Outcome : Type 0 where
  admitted : (remaining : ℕ) → Outcome
  refused : (retry_after : ℕ) → Outcome

-- `!rateLimitData || now > rateLimitData.resetTime`
abbrev pub current : ℕ → Option Window → Window
current now none = record { count = 0; reset_time = now + default_window_ms }
current now (some w) =
    if ltb w.reset_time now then record { count = 0; reset_time = now + default_window_ms } else w

-- What `use` does with the window of the address; a division that rounds up stands for `ceil`.
unfoldable pub count_request : ℕ → Option Window → Outcome × Window
count_request now found =
    let w = current now found in
    let n = suc w.count in
    (
      if ltb default_limit n
          then Outcome.refused ((w.reset_time - now + 999) / 1000)
          else Outcome.admitted (default_limit - n),
      record w { count = n },
    )

unfoldable pub use_at : Text → ℕ → Windows → Outcome × Windows
unfolding count_request
use_at ip now ws =
    let (outcome, w) = count_request now (ws ip) in (outcome, set_window ip (some w) ws)

unfoldable pub use_request : Request → ℕ → Windows → Outcome × Windows
unfolding get_client_ip use_at
use_request r now ws = use_at (get_client_ip r) now ws

abbrev pub fresh_only : ℕ → Option Window → Option Window
fresh_only now none = none
fresh_only now (some w) = if ltb w.reset_time now then none else some w

unfoldable pub cleanup : ℕ → Windows → Windows
cleanup now ws ip = fresh_only now (ws ip)
