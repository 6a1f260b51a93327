-- ===== src/Citations/Safety.antt =====
-- What a URL that passes the checks is.
use reasonbridge.Prelude.{
  ◌≤◌, ◌≡◌, ◌≢◌, ◌⊎◌, refl, true, false, Option, none, some, List, [], ◌∷◌, arith, ltb, ◌==◌,
  length, any, Text, text_eq, Bool-cases, Option-cases, inl, inr,
}
use reasonbridge.Citations.{
  UrlApi, Network, ValidationResult, is_private_ip, has_domain_structure, normalize_url,
  allowed_protocols, max_url_length, safe_url, check_addresses, check_url, validate_citation_url,
}

module _ {U : Type 0} (url : UrlApi U) (net : Network) where
  -- The address that was checked: the host itself where it is an address, else the first answer for
  -- the host, which has a domain's structure.
  abbrev pub IsCheckedAddress : Text → Text → Type 0
  IsCheckedAddress hostname ip =
      ((net.is_ip hostname ≢ 0) × (ip ≡ hostname))
      ⊎ ((net.is_ip hostname ≡ 0)
          × ((rest : List Text) × (net.resolve hostname ≡ some (ip ∷ rest)))
          × (has_domain_structure hostname ≡ true))

  pub record IsSafe (t : Text) (r : ValidationResult) (u : U) (ip : Text) : Type 0 where
    pub short : length t ≤ max_url_length
    pub parsed : url.parse t ≡ some u
    pub web : any (λ p. text_eq p (url.protocol u)) allowed_protocols ≡ true
    pub address : r.resolved_ip ≡ some ip
    pub public_address : is_private_ip ip ≡ false
    pub checked : IsCheckedAddress (url.hostname u) ip
    pub original : r.original_url ≡ t
    pub normalized : r.normalized_url ≡ normalize_url url u

  addresses-safe :
      (t normalized hostname : Text) (o : Option (List Text))
      → (check_addresses t normalized hostname o).safe ≡ true
      → (ip : Text) × (rest : List Text) × (o ≡ some (ip ∷ rest))
        × (is_private_ip ip ≡ false)
        × (has_domain_structure hostname ≡ true)
        × (check_addresses t normalized hostname o ≡ safe_url t normalized ip)
  addresses-safe t normalized hostname none = λ h. absurd (ground arith)
  addresses-safe t normalized hostname (some []) = λ h. absurd (ground arith)
  addresses-safe t normalized hostname (some (ip ∷ rest)) = elim (Bool-cases (is_private_ip ip)) [
    | inl p ↦ rw p (λ h. absurd (ground arith))
    | inr p ↦ elim (Bool-cases (has_domain_structure hostname)) [
      | inr d ↦ rw (p, d) (λ h. absurd (ground arith))
      | inl d ↦ rw (p, d) (λ h. (ip, rest, refl, p, refl, refl))
    ]
  ]

  url-safe :
      (t : Text) (u : U)
      → length t ≤ max_url_length
      → url.parse t ≡ some u
      → (check_url url net t u).safe ≡ true
      → (ip : Text) × IsSafe t (check_url url net t u) u ip
  url-safe t u short e =
      elim (Bool-cases (any (λ p. text_eq p (url.protocol u)) allowed_protocols)) [
        | inr w ↦ rw w (λ h. absurd (ground arith))
        | inl w ↦ elim (Bool-cases (net.is_ip (url.hostname u) == 0)) [
          | inr i ↦ elim (Bool-cases (is_private_ip (url.hostname u))) [
            | inl p ↦ rw (w, i, p) (λ h. absurd (ground arith))
            | inr p ↦
                rw (w, i, p)
                  (λ h. (
                    url.hostname u,
                    record {
                      short = short;
                      parsed = e;
                      web = w;
                      address = refl;
                      public_address = p;
                      checked = inl (ground arith, refl);
                      original = refl;
                      normalized = refl;
                    },
                  ))
          ]
          | inl i ↦
              rw (w, i)
                (λ h.
                  let (ip, rest, answer, p, d, same) = addresses-safe t _ _ _ h in
                  (
                    ip,
                    rw same (record {
                      short = short;
                      parsed = e;
                      web = w;
                      address = refl;
                      public_address = p;
                      checked = inr (ground arith, (rest, answer), d);
                      original = refl;
                      normalized = refl;
                    }),
                  ))
        ]
      ]

  -- A URL that is called safe has at most 2 048 code units, parses, and has the protocol http or
  -- https; the address recorded for it lies in none of the private ranges, and is the host itself
  -- where that is an address, else the first address that the host resolved to; and what is stored
  -- is the text given and the normalized URL.
  pub validate_citation_url-IsSafe :
      (t : Text)
      → (validate_citation_url url net t).safe ≡ true
      → (u : U) × (ip : Text) × IsSafe t (validate_citation_url url net t) u ip
  unfolding validate_citation_url
  validate_citation_url-IsSafe t = elim (Bool-cases (ltb max_url_length (length t))) [
    | inl l ↦ rw l (λ h. absurd (ground arith))
    | inr l ↦ rw l (elim (Option-cases (url.parse t)) [
      | inl e ↦ rw e (λ h. absurd (ground arith))
      | inr (u, e) ↦ rw e (λ h. let (ip, safe) = url-safe t u (ground arith) e h in (u, ip, safe))
    ])
  ]
