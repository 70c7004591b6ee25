-- ===== src/Generation/Issuers.antt =====
-- What the generation of an issuer accepts, and what it yields.
use cluster_authentication_o.Base.{
  String, ◌≡◌, ◌≢◌, ◌↔◌, ◌⊎◌, inl, inr, true, false, arith, eq_iff, is_empty, List, Option, none,
  some, ok, lookup, Bool-cases, Result-cases, Option-cases, trim_right_slash,
}
use cluster_authentication_o.Generation.Types.{TokenIssuer, Issuer, Url, Deps}
use cluster_authentication_o.Generation.Issuer.{
  check_discovery_url, discovery_url_of, certificate_authority_of, generate_issuer,
}

module _ (deps : Deps) where
  -- A discovery URL that may be used for the issuer.
  pub record IsDiscovery (t : TokenIssuer) (u : Url) : Type 0 where
    pub parsed : deps.parse_url t.discovery_url ≡ ok u
    pub differs : trim_right_slash t.discovery_url ≢ trim_right_slash t.url
    pub https : u.scheme ≡ "https"
    pub has_host : u.host ≢ ""
    pub no_user : u.user ≡ false
    pub no_query : is_empty u.raw_query ≡ true
    pub no_fragment : is_empty u.fragment ≡ true

  abbrev pub DiscoveryOf : TokenIssuer → Option String → Type 0
  DiscoveryOf t d =
      ((is_empty t.discovery_url ≡ true) × (d ≡ none))
      ⊎ ((is_empty t.discovery_url ≡ false)
          × (d ≡ some t.discovery_url)
          × ((u : Url) × IsDiscovery t u))

  -- The bundle of the named config map; no bundle without a name.
  abbrev pub AuthorityOf : TokenIssuer → String → Type 0
  AuthorityOf t ca =
      ((is_empty t.certificate_authority ≡ true) × (ca ≡ ""))
      ⊎ ((is_empty t.certificate_authority ≡ false)
          × (is_empty ca ≡ false)
          × ((cm : List (String × String)) × (deps.config_map t.certificate_authority ≡ ok cm)
              × (lookup "ca-bundle.crt" cm ≡ some ca)))

  check_sound :
      (t : TokenIssuer) (u : Url) (d : Option String)
      → deps.parse_url t.discovery_url ≡ ok u
      → check_discovery_url t u ≡ ok d
      → (d ≡ some t.discovery_url) × IsDiscovery t u
  unfolding check_discovery_url
  check_sound t u d p h = ground (
    arith,
    p,
    eq_iff (trim_right_slash t.discovery_url) (trim_right_slash t.url),
    eq_iff u.scheme "https",
    eq_iff u.host "",
  )

  check_complete :
      (t : TokenIssuer) (u : Url)
      → IsDiscovery t u
      → check_discovery_url t u ≡ ok (some t.discovery_url)
  unfolding check_discovery_url
  check_complete t u i = ground (
    arith,
    eq_iff (trim_right_slash t.discovery_url) (trim_right_slash t.url),
    eq_iff u.scheme "https",
    eq_iff u.host "",
  )

  discovery_sound :
      (t : TokenIssuer) (d : Option String) → discovery_url_of deps t ≡ ok d → DiscoveryOf t d
  discovery_sound t d h = elim (Bool-cases (is_empty t.discovery_url)) [
    | inl e ↦ inl (e, unfold discovery_url_of in ground (arith, e, h))
    | inr n ↦ elim (Result-cases (deps.parse_url t.discovery_url)) [
      | inr (e, p) ↦ absurd (unfold discovery_url_of in ground (arith, n, p, h))
      | inl (u, p) ↦
          let (q, i) = check_sound t u d p (unfold discovery_url_of in ground (arith, n, p, h)) in
          inr (n, q, (u, i))
    ]
  ]

  discovery_complete :
      (t : TokenIssuer) (d : Option String) → DiscoveryOf t d → discovery_url_of deps t ≡ ok d
  discovery_complete t d (inl (e, q)) = unfold discovery_url_of in ground (arith, e, q)
  discovery_complete t d (inr (n, q, (u, i))) =
      unfold discovery_url_of in ground (arith, n, q, i.parsed, check_complete t u i)

  authority_sound :
      (t : TokenIssuer) (ca : String) → certificate_authority_of deps t ≡ ok ca → AuthorityOf t ca
  authority_sound t ca h = elim (Bool-cases (is_empty t.certificate_authority)) [
    | inl e ↦ inl (e, unfold certificate_authority_of in ground (arith, e, h))
    | inr n ↦ elim (Result-cases (deps.config_map t.certificate_authority)) [
      | inr (e, p) ↦ absurd (unfold certificate_authority_of in ground (arith, n, p, h))
      | inl (cm, p) ↦ elim (Option-cases (lookup "ca-bundle.crt" cm)) [
        | inl q ↦ absurd (unfold certificate_authority_of in ground (arith, n, p, q, h))
        | inr (b, q) ↦
            let same : (b ≡ ca) × (is_empty b ≡ false) =
              unfold certificate_authority_of in ground (arith, n, p, q, h) in
            inr (n, ground (arith, same), (cm, p, ground (arith, q, same)))
      ]
    ]
  ]

  authority_complete :
      (t : TokenIssuer) (ca : String) → AuthorityOf t ca → certificate_authority_of deps t ≡ ok ca
  unfolding certificate_authority_of
  authority_complete t ca (inl (e, q)) = ground (arith, e, q)
  authority_complete t ca (inr (n, f, (cm, p, q))) = ground (arith, n, f, p, q)

  -- What the code promises of an issuer that it generates.
  pub record IsIssuerOf (t : TokenIssuer) (sai : String) (i : Issuer) : Type 0 where
    pub no_overlap : is_empty sai ≡ false → t.url ≢ sai
    pub same_url : i.url ≡ t.url
    pub same_audiences : i.audiences ≡ t.audiences
    pub any_audience : i.audience_match_policy ≡ "MatchAny"
    pub discovery : DiscoveryOf t i.discovery_url
    pub authority : AuthorityOf t i.certificate_authority

  issuer_sound :
      (t : TokenIssuer) (sai : String) (i : Issuer)
      → generate_issuer deps t sai ≡ ok i
      → IsIssuerOf t sai i
  issuer_sound t sai i h = elim (Result-cases (discovery_url_of deps t)) [
    | inr (e, p) ↦ absurd (unfold generate_issuer in ground (arith, p, h))
    | inl (d, p) ↦ elim (Result-cases (certificate_authority_of deps t)) [
      | inr (e, q) ↦ absurd (unfold generate_issuer in ground (arith, p, q, h))
      | inl (ca, q) ↦ record {
        no_overlap = λ n.
            λ e. absurd (unfold generate_issuer in ground (arith, p, q, h, n, e, eq_iff t.url sai));
        same_url = unfold generate_issuer in ground (arith, p, q, h);
        same_audiences = unfold generate_issuer in ground (arith, p, q, h);
        any_audience = unfold generate_issuer in ground (arith, p, q, h);
        discovery =
            discovery_sound t i.discovery_url (unfold generate_issuer in ground (arith, p, q, h));
        authority =
            authority_sound t i.certificate_authority
              (unfold generate_issuer in ground (arith, p, q, h));
      }
    ]
  ]

  issuer_complete :
      (t : TokenIssuer) (sai : String) (i : Issuer)
      → IsIssuerOf t sai i
      → generate_issuer deps t sai ≡ ok i
  unfolding generate_issuer
  issuer_complete t sai i s = ground (
    arith,
    eq_iff t.url sai,
    discovery_complete t i.discovery_url s.discovery,
    authority_complete t i.certificate_authority s.authority,
  )

  -- An issuer is generated exactly when its URL is not that of the service accounts (where that is
  -- set), its discovery URL, if it has one, parses as an https URL with a host and no user info,
  -- query or fragment that differs from the issuer's URL up to slashes at the end, and its CA, if it
  -- has one, names a config map with a bundle; it carries the provider's URL and audiences, that
  -- discovery URL and that bundle.
  pub generate_issuer_iff :
      (t : TokenIssuer) (sai : String) (i : Issuer)
      → (generate_issuer deps t sai ≡ ok i) ↔ IsIssuerOf t sai i
  generate_issuer_iff t sai i = (issuer_sound t sai i, issuer_complete t sai i)
