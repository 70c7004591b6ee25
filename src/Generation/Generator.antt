-- ===== src/Generation/Generator.antt =====
-- generate.go: the generation for a provider and for the whole resource, the check of the email
-- claims, and the validation of the generated configuration against the providers.
use cluster_authentication_o.Base.{
  String, ◌||◌, not, is_empty, List, [], ◌∷◌, Option, none, some, Result, ok, err, errorf, context,
  ◌>>=◌, ◌>>◌, if◌then◌else◌, eqb, trim_suffix, ◌<>◌,
}
use cluster_authentication_o.Base.Loops.{collect}
use cluster_authentication_o.Generation.Expr.{
  CompilationResult, uses_email_claim, uses_email_verified_claim, any_uses_email_verified_claim,
}
use cluster_authentication_o.Generation.Types.{
  external_oidc_with_upstream_parity, OidcProvider, Authentication, Issuer, JwtAuthenticator,
  UserValidationRule, AuthenticationConfiguration, CertPool, Response, Deps,
}
use cluster_authentication_o.Generation.Issuer.{generate_issuer}
use cluster_authentication_o.Generation.Mappings.{
  OidcGenerationState, new_state, generate_claim_mappings,
}
use cluster_authentication_o.Generation.Rules.{
  generate_claim_validation_rules, generate_user_validation_rules,
}

-- the checks of the state behind its nil tests
email_verified_of : Option CompilationResult → OidcGenerationState → Result (Unit {0})
unfolding uses_email_claim uses_email_verified_claim any_uses_email_verified_claim
email_verified_of none state = ok tt
email_verified_of (some username) state =
    if not (uses_email_claim username.ast)
    then ok tt
    else if uses_email_verified_claim username.ast
        || (any_uses_email_verified_claim state.extra_results
            || any_uses_email_verified_claim state.claim_validation_results)
    then ok tt
    else err (
        errorf
          "claims.email_verified must be used in claimMappings.username.expression or claimMappings.extra[*].valueExpression or claimValidationRules[*].expression when claims.email is used in claimMappings.username.expression"
          [])

unfoldable pub validate_email_verified_usage : OidcGenerationState → Result (Unit {0})
unfolding email_verified_of
validate_email_verified_usage state = email_verified_of state.username_result state

unfoldable pub well_known_url : Issuer → String
well_known_url issuer = elim issuer.discovery_url [
  | none ↦ trim_suffix issuer.url "/" <> "/.well-known/openid-configuration"
  | some url ↦ url
]

-- the answer to the request must have the status 200
unfoldable pub check_response : Response → Result (Unit {0})
check_response resp =
    if not (eqb resp.status_code 200)
    then (do
      body ←
          context "unable to read response body; HTTP status: %s; error: %v" (resp.status ∷ [])
            resp.body
      err (errorf "unexpected well-known status code %s: %s" (resp.status ∷ body ∷ [])))
    else ok tt

unfoldable pub cert_message : Option CertPool → String
cert_message none = "using the system CAs"
cert_message (some pool) = "using the specified CA cert"

module _ (deps : Deps) where
  -- what the gate of the upstream parity adds
  unfoldable pub parity_rules :
      OidcProvider → OidcGenerationState → Result (List UserValidationRule)
  parity_rules provider state =
      if deps.enabled external_oidc_with_upstream_parity
      then (do
        context "validating email claim usage for provider %q: %v" (provider.name ∷ [])
            (validate_email_verified_usage state)
        context "generating userValidationRules for provider %q: %v" (provider.name ∷ [])
            (generate_user_validation_rules deps provider.user_validation_rules))
      else ok []

  unfoldable pub generate_jwt_for_provider : String → OidcProvider → Result JwtAuthenticator
  generate_jwt_for_provider service_account_issuer provider = do
    issuer ←
        context "generating issuer for provider %q: %v" (provider.name ∷ [])
          (generate_issuer deps provider.issuer service_account_issuer)
    (mappings, state) ←
        context "generating claimMappings for provider %q: %v" (provider.name ∷ [])
          (generate_claim_mappings deps provider.claim_mappings issuer.url new_state)
    (rules, state') ←
        context "generating claimValidationRules for provider %q: %v" (provider.name ∷ [])
          (generate_claim_validation_rules deps state provider.claim_validation_rules)
    user_rules ← parity_rules provider state'
    ok (record {
      issuer = issuer;
      claim_mappings = mappings;
      claim_validation_rules = rules;
      user_validation_rules = user_rules;
    })

  -- the pool of the issuer's certificates, none if it has no CA
  unfoldable pub ca_cert_pool : Issuer → Result (Option CertPool)
  ca_cert_pool issuer = if is_empty issuer.certificate_authority then ok none else (do
    pool ← context "issuer CA is invalid: %v" [] (deps.new_pool issuer.certificate_authority)
    ok (some pool))

  unfoldable pub validate_ca_cert : String → Option CertPool → Result (Unit {0})
  unfolding check_response
  validate_ca_cert url pool = do resp ← deps.get_well_known url pool; check_response resp

  unfoldable pub validate_jwt : JwtAuthenticator → Result (Unit {0})
  validate_jwt jwt = do
    pool ← ca_cert_pool jwt.issuer
    context "could not validate IDP URL %s: %v" (cert_message pool ∷ [])
        (validate_ca_cert (well_known_url jwt.issuer) pool)

  unfoldable pub validate_jwts : List JwtAuthenticator → Result (Unit {0})
  validate_jwts [] = ok tt
  validate_jwts (jwt ∷ jwts) = let rest = validate_jwts jwts in (do validate_jwt jwt; rest)

  unfoldable pub validate_apiserver_authentication_configuration :
      AuthenticationConfiguration → Result (Unit {0})
  validate_apiserver_authentication_configuration config = validate_jwts config.jwt

  unfoldable pub generate_authentication_configuration :
      Authentication → Result AuthenticationConfiguration
  generate_authentication_configuration auth = do
    jwts ← collect (generate_jwt_for_provider auth.service_account_issuer) auth.oidc_providers
    let config : AuthenticationConfiguration = record {
      kind = "AuthenticationConfiguration";
      jwt = jwts;
    }
    validate_apiserver_authentication_configuration config
    ok config
