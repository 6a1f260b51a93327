-- ===== src/Citations.antt =====
-- services/discussion-service/src/utils/ssrf-validator.ts: the checks of a citation's URL before it
-- is stored. The URL class, `isIP` of `net` and the DNS resolver are parameters: the platform's, not
-- the repository's. The texts of the errors are left out.
pub mod Ranges
pub mod Safety
mod Examples
use reasonbridge.Prelude.{
  ℕ, suc, Bool, true, false, not, ◌&&◌, ◌||◌, Option, none, some, List, [], ◌∷◌, map, any, length,
  take, ◌++◌, ltb, leb, ◌==◌, if◌then◌else◌, Text, text, text_eq, starts_with, to_lower_case,
}

-- What the code uses of `URL`, for the URLs `U`: `new URL(text)` (`none` where it throws), a copy,
-- the fields and their setters.
pub record UrlApi (U : Type 0) : Type 0 where
  pub parse : Text → Option U
  pub copy : U → U
  pub protocol : U → Text
  pub hostname : U → Text
  pub href : U → Text
  pub set_hostname : Text → U → U
  pub set_hash : Text → U → U

-- What the code uses of the network: `isIP` (0 for no address), and the answer of
-- `dns.resolve(hostname, 'A')` at the time of the call (`none` where it throws).
pub record Network : Type 0 where
  pub is_ip : Text → ℕ
  pub resolve : Text → Option (List Text)

pub data Threat : Type 0 where
  malformed_url invalid_protocol private_ip dns_rebinding invalid_domain : Threat

-- `SSRFValidationResult`
pub record ValidationResult : Type 0 where
  pub safe : Bool
  pub original_url : Text
  pub normalized_url : Text
  pub resolved_ip : Option Text
  pub threat : Option Threat

-- What is left of a text after a prefix.
abbrev pub after_prefix : Text → Text → Option Text
after_prefix [] s = some s
after_prefix (_ ∷ _) [] = none
after_prefix (c ∷ p) (d ∷ s) = if c == d then after_prefix p s else none

abbrev pub is_digit : ℕ → Bool
is_digit c = leb b'0' c && leb c b'9'

-- `(1[6-9]|2\d|3[01])\.` at the start.
abbrev pub sixteen_to_31 : Option Text → Bool
sixteen_to_31 (some (a ∷ b ∷ c ∷ _)) =
    c == b'.'
    && ((a == b'1' && leb b'6' b && leb b b'9')
        || (a == b'2' && is_digit b)
        || (a == b'3' && leb b'0' b && leb b b'1'))
sixteen_to_31 _ = false

-- `PRIVATE_IP_RANGES` of IPv4, as the prefixes of their patterns.
abbrev pub ipv4_prefixes : List Text
ipv4_prefixes =
    text "127."
    ∷ text "10."
    ∷ text "192.168."
    ∷ text "169.254."
    ∷ text "224."
    ∷ text "0."
    ∷ text "255."
    ∷ []

-- Those of IPv6 that ignore case.
abbrev pub ipv6_prefixes : List Text
ipv6_prefixes = text "fe80:" ∷ text "fc00:" ∷ text "fd00:" ∷ text "ff00:" ∷ []

abbrev pub has_prefix : List Text → Text → Bool
has_prefix ps ip = any (λ p. starts_with p ip) ps

unfoldable pub is_private_ip : Text → Bool
unfolding to_lower_case
is_private_ip ip =
    has_prefix ipv4_prefixes ip
    || sixteen_to_31 (after_prefix (text "172.") ip)
    || text_eq ip (text "::1")
    || has_prefix ipv6_prefixes (to_lower_case ip)

abbrev pub allowed_protocols : List Text
allowed_protocols = text "http:" ∷ text "https:" ∷ []

abbrev pub max_url_length : ℕ
max_url_length = 2048

-- `split` at one code unit.
unfoldable pub split_at : ℕ → Text → List Text
split_at sep [] = [] ∷ []
split_at sep (c ∷ s) =
    let rest = split_at sep s in
    if c == sep then [] ∷ rest else elim rest [ [] ↦ (c ∷ []) ∷ [] | p ∷ ps ↦ (c ∷ p) ∷ ps ]

abbrev pub is_empty : Text → Bool
is_empty [] = true
is_empty (_ ∷ _) = false

unfoldable pub has_domain_structure : Text → Bool
unfolding split_at
has_domain_structure hostname =
    let parts = split_at b'.' hostname in not (ltb (length parts) 2 || any is_empty parts)

abbrev pub unsafe_url : Text → Text → Option Text → Threat → ValidationResult
unsafe_url original normalized ip threat = record {
  safe = false;
  original_url = original;
  normalized_url = normalized;
  resolved_ip = ip;
  threat = some threat;
}

abbrev pub safe_url : Text → Text → Text → ValidationResult
safe_url original normalized ip = record {
  safe = true;
  original_url = original;
  normalized_url = normalized;
  resolved_ip = some ip;
  threat = none;
}

-- The layers from the DNS answer on; an empty answer is one that cannot be resolved.
abbrev pub check_addresses : Text → Text → Text → Option (List Text) → ValidationResult
check_addresses original normalized hostname none =
    unsafe_url original normalized none Threat.dns_rebinding
check_addresses original normalized hostname (some []) =
    unsafe_url original normalized none Threat.dns_rebinding
check_addresses original normalized hostname (some (ip ∷ rest)) =
    if is_private_ip ip
    then unsafe_url original normalized (some ip) Threat.private_ip
    else if has_domain_structure hostname
    then safe_url original normalized ip
    else unsafe_url original normalized (some ip) Threat.invalid_domain

module _ {U : Type 0} (url : UrlApi U) where
  unfoldable pub normalize_url : U → Text
  unfolding to_lower_case
  normalize_url u =
      let v = url.copy u in
      url.href (url.set_hash [] (url.set_hostname (to_lower_case (url.hostname v)) v))

module _ {U : Type 0} (url : UrlApi U) (net : Network) where
  -- The layers after the length and the syntax.
  abbrev pub check_url : Text → U → ValidationResult
  check_url original u =
      let hostname = url.hostname u in
      if not (any (λ p. text_eq p (url.protocol u)) allowed_protocols)
      then unsafe_url original (normalize_url url u) none Threat.invalid_protocol
      else if not (net.is_ip hostname == 0)
      then if is_private_ip hostname
        then unsafe_url original (normalize_url url u) (some hostname) Threat.private_ip
        else safe_url original (normalize_url url u) hostname
      else check_addresses original (normalize_url url u) hostname (net.resolve hostname)

  abbrev pub check_parsed : Text → Option U → ValidationResult
  check_parsed original none = unsafe_url original [] none Threat.malformed_url
  check_parsed original (some u) = check_url original u

  unfoldable pub validate_citation_url : Text → ValidationResult
  unfolding normalize_url is_private_ip has_domain_structure
  validate_citation_url t =
      if ltb max_url_length (length t)
      then unsafe_url (take 100 t ++ text "...") [] none Threat.malformed_url
      else check_parsed t (url.parse t)

  unfoldable pub validate_citation_urls : List Text → List ValidationResult
  unfolding validate_citation_url
  validate_citation_urls urls = map validate_citation_url urls
