-- ===== src/Generation/Whole.antt =====
-- The generation of the whole resource: all providers or none, in order, and each one reachable.
use mathlib.Core.List.{Memᴰ}
use cluster_authentication_o.Base.{
  ◌≡◌, refl, ◌↔◌, ◌⊎◌, inl, inr, true, false, arith, is_empty, List, [], ◌∷◌, Option, none, some,
  Error, ok, err, All, Bool-cases, Result-cases,
}
use cluster_authentication_o.Base.Loops.{
  Collected, collect, collect_sound, collect_complete, collect_fails,
}
use cluster_authentication_o.Generation.Types.{
  OidcProvider, Authentication, Issuer, JwtAuthenticator, AuthenticationConfiguration, CertPool,
  Response, Deps,
}
use cluster_authentication_o.Generation.Generator.{
  generate_jwt_for_provider, ca_cert_pool, well_known_url, check_response, validate_ca_cert,
  validate_jwt, validate_jwts, validate_apiserver_authentication_configuration,
  generate_authentication_configuration,
}

module _ (deps : Deps) where
  -- The pool that the request trusts: the issuer's certificates, or the system's.
  abbrev pub PoolOf : Issuer → Option CertPool → Type 0
  PoolOf i pool =
      ((is_empty i.certificate_authority ≡ true) × (pool ≡ none))
      ⊎ ((is_empty i.certificate_authority ≡ false)
          × ((certs : CertPool) × (deps.new_pool i.certificate_authority ≡ ok certs)
              × (pool ≡ some certs)))

  -- The provider's well-known endpoint answers with status 200 under that trust.
  pub record IsServed (jwt : JwtAuthenticator) : Type 0 where
    pub pool : Option CertPool
    pub response : Response
    pub trusted : PoolOf jwt.issuer pool
    pub answered : deps.get_well_known (well_known_url jwt.issuer) pool ≡ ok response
    pub status : response.status_code ≡ 200

  pool_sound : (i : Issuer) (pool : Option CertPool) → ca_cert_pool deps i ≡ ok pool → PoolOf i pool
  pool_sound i pool h = elim (Bool-cases (is_empty i.certificate_authority)) [
    | inl e ↦ inl (e, unfold ca_cert_pool in ground (arith, e, h))
    | inr n ↦ elim (Result-cases (deps.new_pool i.certificate_authority)) [
      | inl (certs, p) ↦ inr (n, (certs, p, unfold ca_cert_pool in ground (arith, n, p, h)))
      | inr (e, p) ↦ absurd (unfold ca_cert_pool in ground (arith, n, p, h))
    ]
  ]

  pool_complete :
      (i : Issuer) (pool : Option CertPool) → PoolOf i pool → ca_cert_pool deps i ≡ ok pool
  unfolding ca_cert_pool
  pool_complete i pool (inl (e, p)) = ground (arith, e, p)
  pool_complete i pool (inr (n, (certs, p, q))) = ground (arith, n, p, q)

  IsServed-sound : (jwt : JwtAuthenticator) → validate_jwt deps jwt ≡ ok tt → IsServed jwt
  IsServed-sound jwt h = elim (Result-cases (ca_cert_pool deps jwt.issuer)) [
    | inr (e, p) ↦ absurd (unfold validate_jwt in ground (arith, p, h))
    | inl (pool, p) ↦ elim (Result-cases (deps.get_well_known (well_known_url jwt.issuer) pool)) [
      | inr (e, q) ↦ absurd (unfold validate_jwt validate_ca_cert in ground (arith, p, q, h))
      | inl (resp, q) ↦ record {
        pool = pool;
        response = resp;
        trusted = pool_sound jwt.issuer pool p;
        answered = q;
        status = unfold validate_jwt validate_ca_cert check_response in ground (arith, p, q, h);
      }
    ]
  ]

  IsServed-complete : (jwt : JwtAuthenticator) → IsServed jwt → validate_jwt deps jwt ≡ ok tt
  unfolding validate_jwt validate_ca_cert check_response
  IsServed-complete jwt s =
      ground (arith, pool_complete jwt.issuer s.pool s.trusted, s.answered, s.status)

  All-IsServed_sound :
      (jwts : List JwtAuthenticator) → validate_jwts deps jwts ≡ ok tt → All IsServed jwts
  unfolding validate_jwts
  All-IsServed_sound [] h = tt
  All-IsServed_sound (jwt ∷ jwts) h =
      (IsServed-sound jwt (ground (arith, h)), All-IsServed_sound jwts (ground (arith, h)))

  All-IsServed_complete :
      (jwts : List JwtAuthenticator) → All IsServed jwts → validate_jwts deps jwts ≡ ok tt
  unfolding validate_jwts
  All-IsServed_complete [] s = refl
  All-IsServed_complete (jwt ∷ jwts) s =
      ground (arith, IsServed-complete jwt s.0, All-IsServed_complete jwts s.1)

  -- The whole result: one authenticator for each provider, in order, all of them served.
  pub record IsConfigurationOf (auth : Authentication) (config : AuthenticationConfiguration)
      : Type 0 where
    pub kind : config.kind ≡ "AuthenticationConfiguration"
    pub each :
        Collected
          (generate_jwt_for_provider deps auth.service_account_issuer)
          auth.oidc_providers
          config.jwt
    pub served : All IsServed config.jwt

  configuration_sound :
      (auth : Authentication) (config : AuthenticationConfiguration)
      → generate_authentication_configuration deps auth ≡ ok config
      → IsConfigurationOf auth config
  configuration_sound auth config h =
      elim (Result-cases (
        collect (generate_jwt_for_provider deps auth.service_account_issuer) auth.oidc_providers)) [
          | inr (e, p) ↦
              absurd (unfold generate_authentication_configuration in ground (arith, p, h))
          | inl (jwts, p) ↦
              let same : config.jwt ≡ jwts =
                unfold generate_authentication_configuration in ground (arith, p, h) in
              record {
                kind = unfold generate_authentication_configuration in ground (arith, p, h);
                each =
                    collect_sound (generate_jwt_for_provider deps auth.service_account_issuer)
                      auth.oidc_providers (ground (arith, p, same));
                served = All-IsServed_sound config.jwt (
                    unfold generate_authentication_configuration
                      validate_apiserver_authentication_configuration in
                    ground (arith, p, h, same));
              }
        ]

  configuration_complete :
      (auth : Authentication) (config : AuthenticationConfiguration)
      → IsConfigurationOf auth config
      → generate_authentication_configuration deps auth ≡ ok config
  unfolding generate_authentication_configuration validate_apiserver_authentication_configuration
  configuration_complete auth config c = ground (
    arith,
    c.kind,
    collect_complete (generate_jwt_for_provider deps auth.service_account_issuer) c.each,
    All-IsServed_complete config.jwt c.served,
  )

  -- The generation of a resource yields a configuration exactly when that has one authenticator for
  -- each provider, in order, as generated for it, and the well-known endpoint of each answers with
  -- status 200 to a client that trusts the issuer's certificates (the system's where it names none).
  pub generate_configuration_iff :
      (auth : Authentication) (config : AuthenticationConfiguration)
      → (generate_authentication_configuration deps auth ≡ ok config)
        ↔ IsConfigurationOf auth config
  generate_configuration_iff auth config =
      (configuration_sound auth config, configuration_complete auth config)

  -- One provider that cannot be generated is enough for the generation of the resource to fail.
  pub one_provider_fails :
      (auth : Authentication) (p : OidcProvider) (e : Error)
      → Memᴰ p auth.oidc_providers
      → generate_jwt_for_provider deps auth.service_account_issuer p ≡ err e
      → (j : Error) × (generate_authentication_configuration deps auth ≡ err j)
  unfolding generate_authentication_configuration
  one_provider_fails auth p e m h =
      let (j, q) = collect_fails (generate_jwt_for_provider deps auth.service_account_issuer) m h in
      (j, ground (arith, q))
