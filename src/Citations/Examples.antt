-- ===== src/Citations/Examples.antt =====
-- The checks on a few URLs, and the theorems at concrete inputs.
use reasonbridge.Prelude.{
  ◌≡◌, refl, true, false, some, none, [], ◌∷◌, arith, Text, text, text_eq, to_lower_case,
  if◌then◌else◌,
}
use reasonbridge.Citations.{
  UrlApi, Network, Threat, is_private_ip, has_domain_structure, split_at, normalize_url,
  validate_citation_url,
}
use reasonbridge.Citations.Ranges.{dotted, is_private, is_private_ip-dotted}
use reasonbridge.Citations.Safety.{IsSafe, validate_citation_url-IsSafe}

-- A URL of these examples is its host name, under https.
abbrev hosts : UrlApi Text
hosts = record {
  parse = λ t. some t;
  copy = λ u. u;
  protocol = λ u. text "https:";
  hostname = λ u. u;
  href = λ u. u;
  set_hostname = λ h u. h;
  set_hash = λ h u. u;
}

abbrev network : Network
network = record {
  is_ip = λ h. if text_eq h (text "10.0.0.1") then 4 else 0;
  resolve = λ h. if text_eq h (text "Example.org") then some (text "93.184.215.14" ∷ []) else none;
}

opened : Unit {0}
unfolding validate_citation_url is_private_ip has_domain_structure split_at normalize_url
    to_lower_case
opened = tt

citation_tests :
    ((validate_citation_url hosts network (text "Example.org")).normalized_url ≡ text "example.org")
    × ((validate_citation_url hosts network (text "10.0.0.1")).threat ≡ some Threat.private_ip)
    × ((validate_citation_url hosts network (text "localhost")).threat ≡ some Threat.dns_rebinding)
    × (is_private_ip (text "172.31.0.9") ≡ true)
    × (is_private_ip (text "172.32.0.9") ≡ false)
    × (is_private_ip (text "239.1.1.1") ≡ false)
    × (is_private_ip (text "FE80::1") ≡ true)
unfolding opened
citation_tests = (refl, refl, refl, refl, refl, refl, refl)

is_private_ip-dotted_example : is_private_ip (dotted 172 31 (text "0.9")) ≡ is_private 172 31
is_private_ip-dotted_example = is_private_ip-dotted 172 31 (text "0.9") (omega arith) (omega arith)

validate_citation_url-IsSafe_example :
    (u : Text) × (ip : Text) × IsSafe hosts network
      (text "Example.org")
      (validate_citation_url hosts network (text "Example.org"))
      u
      ip
unfolding opened
validate_citation_url-IsSafe_example =
    validate_citation_url-IsSafe hosts network (text "Example.org") refl
