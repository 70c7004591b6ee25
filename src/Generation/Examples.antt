-- ===== src/Generation/Examples.antt =====
-- A provider whose username comes from an expression over `claims.email`, generated whole.
use mathlib.Core.List.{Memᴰ}
use cluster_authentication_o.Base.{
  ◌≡◌, refl, ◌↔◌, true, false, [], ◌∷◌, none, some, Error, errorf, Result, ok, err,
  trim_right_slash,
}
use cluster_authentication_o.Base.Loops.{collect}
use cluster_authentication_o.Generation.Expr.{
  Expr, ident_expr, select_expr, CompilationResult, const_expr, string_value, call_expr, nil_expr,
  cons, nil, list_expr, opt_select, has_select_exp, uses_email_claim, uses_email_verified_claim,
  any_uses_email_verified_claim,
}
use cluster_authentication_o.Generation.Expr.Mentions.{Mentions, here, plain, has_select-Mentions}
use cluster_authentication_o.Generation.Types.{
  oidc, TokenIssuer, Issuer, no_opinion, UsernameClaimMapping, cel, OidcProvider, Authentication,
  JwtAuthenticator, ExpressionAccessor, claim_mapping, AuthenticationConfiguration,
  PrefixedClaimOrExpression, Deps,
}
use cluster_authentication_o.Generation.Issuer.{
  get_certificate_authority_from_config_map, check_discovery_url, discovery_url_of,
  certificate_authority_of, generate_issuer,
}
use cluster_authentication_o.Generation.Mappings.{
  generate_username_claim_mapping_legacy, generate_username_claim_mapping_with_parity,
  generate_username_claim_mapping, generate_groups_claim_mapping, generate_uid_claim_mapping,
  generate_extra_claim_mapping, generate_claim_mappings,
}
use cluster_authentication_o.Generation.Rules.{
  claim_rule_of, generate_claim_validation_rule, generate_claim_validation_rules,
  generate_user_validation_rules,
}
use cluster_authentication_o.Generation.Generator.{
  validate_email_verified_usage, parity_rules, generate_jwt_for_provider,
  generate_authentication_configuration,
}
use cluster_authentication_o.Generation.Emails.{IsEmailVerified, generate_jwt-IsEmailVerified}
use cluster_authentication_o.Generation.Issuers.{IsIssuerOf, generate_issuer_iff}
use cluster_authentication_o.Generation.Shapes.{
  IsUsernameOf, username_exclusive, parity_agrees, IsUidOf, uid_exclusive,
}
use cluster_authentication_o.Generation.Whole.{
  IsConfigurationOf, generate_configuration_iff, one_provider_fails,
}

abbrev email : Expr
email = select_expr (ident_expr "claims") "email"

abbrev email_verified : Expr
email_verified = select_expr (ident_expr "claims") "email_verified"

abbrev compile : ExpressionAccessor → Result CompilationResult
compile (claim_mapping e) = ok (record { ast = some email })
compile _ = ok (record { ast = some email_verified })

abbrev demo : Deps
demo = record {
  config_map = λ name. ok (("ca-bundle.crt", "PEM") ∷ []);
  enabled = λ gate. true;
  parse_url = λ s. ok (record {
    scheme = "https";
    host = "idp.example";
    user = false;
    raw_query = "";
    fragment = "";
  });
  compile_claims = compile;
  compile_user = compile;
  new_pool = λ pem. ok (pem ∷ []);
  get_well_known = λ url pool. ok (record { status_code = 200; status = "200 OK"; body = ok "{}" });
}

abbrev issuer : TokenIssuer
issuer = record {
  url = "https://idp.example/";
  audiences = "console" ∷ [];
  certificate_authority = "idp-ca";
  discovery_url = "https://idp.example/discovery";
}

abbrev username : UsernameClaimMapping
username = record {
  claim = "";
  expression = "claims.email";
  prefix_policy = no_opinion;
  prefix_string = none;
}

abbrev provider : OidcProvider
provider = record {
  name = "idp";
  issuer = issuer;
  claim_mappings = record {
    username = username;
    groups = record { claim = "groups"; expression = ""; prefix = "oidc:" };
    uid = none;
    extra = [];
  };
  claim_validation_rules =
      record { type = cel; required = none; expression = "claims.email_verified"; message = "" }
      ∷ [];
  user_validation_rules = [];
}

abbrev generated_issuer : Issuer
generated_issuer = record {
  url = "https://idp.example/";
  discovery_url = some "https://idp.example/discovery";
  certificate_authority = "PEM";
  audiences = "console" ∷ [];
  audience_match_policy = "MatchAny";
}

abbrev generated_username : PrefixedClaimOrExpression
generated_username = record { claim = ""; prefix = none; expression = "claims.email" }

abbrev jwt : JwtAuthenticator
jwt = record {
  issuer = generated_issuer;
  claim_mappings = record {
    username = generated_username;
    groups = record { claim = "groups"; prefix = some "oidc:"; expression = "" };
    uid = record { claim = "sub"; expression = "" };
    extra = [];
  };
  claim_validation_rules =
      record { claim = ""; required_value = ""; expression = "claims.email_verified"; message = "" }
      ∷ [];
  user_validation_rules = [];
}

issuer_runs : generate_issuer demo issuer "https://kubernetes.default.svc" ≡ ok generated_issuer
unfolding generate_issuer discovery_url_of check_discovery_url certificate_authority_of
    get_certificate_authority_from_config_map trim_right_slash
issuer_runs = refl

mappings_run :
    generate_username_claim_mapping demo username "https://idp.example/"
    ≡ ok (generated_username, some (record { ast = some email }))
unfolding generate_username_claim_mapping generate_username_claim_mapping_with_parity
mappings_run = refl

provider_runs : generate_jwt_for_provider demo "https://kubernetes.default.svc" provider ≡ ok jwt
unfolding generate_jwt_for_provider generate_issuer discovery_url_of check_discovery_url
    certificate_authority_of get_certificate_authority_from_config_map trim_right_slash
    generate_claim_mappings generate_username_claim_mapping
    generate_username_claim_mapping_with_parity generate_groups_claim_mapping
    generate_uid_claim_mapping generate_extra_claim_mapping generate_claim_validation_rules
    generate_claim_validation_rule claim_rule_of collect parity_rules validate_email_verified_usage
    generate_user_validation_rules uses_email_claim uses_email_verified_claim
    any_uses_email_verified_claim
provider_runs = refl

has_select-Mentions_example :
    (has_select_exp "claims" "email" (list_expr (cons email nil)) ≡ true)
    ↔ Mentions "claims" "email" (list_expr (cons email nil))
has_select-Mentions_example =
    has_select-Mentions "claims" "email" refl refl (list_expr (cons email nil))

-- The optional select `claims.?email` is found too.
optional_is_found :
    has_select_exp "claims" "email" (
      call_expr nil_expr opt_select
        (cons (ident_expr "claims") (cons (const_expr (string_value "email")) nil)))
    ≡ true
unfolding has_select_exp
optional_is_found = refl

generate_jwt-IsEmailVerified_example : IsEmailVerified demo provider
generate_jwt-IsEmailVerified_example =
    generate_jwt-IsEmailVerified demo "https://kubernetes.default.svc" provider jwt email refl
      provider_runs refl refl (here plain)

generate_issuer_iff_example :
    (generate_issuer demo issuer "https://kubernetes.default.svc" ≡ ok generated_issuer)
    ↔ IsIssuerOf demo issuer "https://kubernetes.default.svc" generated_issuer
generate_issuer_iff_example =
    generate_issuer_iff demo issuer "https://kubernetes.default.svc" generated_issuer

one_username :
    IsUsernameOf demo username "https://idp.example/" generated_username
      (some (record { ast = some email }))
one_username =
    username_exclusive demo username "https://idp.example/" generated_username
      (some (record { ast = some email })) mappings_run

abbrev by_claim : UsernameClaimMapping
by_claim = record {
  claim = "sub";
  expression = "";
  prefix_policy = no_opinion;
  prefix_string = none;
}

same_mapping :
    generate_username_claim_mapping_with_parity demo by_claim "https://idp.example"
    ≡ generate_username_claim_mapping_legacy by_claim "https://idp.example"
same_mapping = parity_agrees demo by_claim "https://idp.example" refl refl

one_uid :
    (generate_uid_claim_mapping demo none ≡ ok (record { claim = "sub"; expression = "" }))
    ↔ IsUidOf demo none (record { claim = "sub"; expression = "" })
one_uid = uid_exclusive demo none (record { claim = "sub"; expression = "" })

abbrev authentication : Authentication
authentication = record {
  type = oidc;
  service_account_issuer = "https://kubernetes.default.svc";
  oidc_providers = provider ∷ [];
}

abbrev configuration : AuthenticationConfiguration
configuration = record { kind = "AuthenticationConfiguration"; jwt = jwt ∷ [] }

generate_configuration_iff_example :
    (generate_authentication_configuration demo authentication ≡ ok configuration)
    ↔ IsConfigurationOf demo authentication configuration
generate_configuration_iff_example = generate_configuration_iff demo authentication configuration

-- A cluster whose service accounts have the URL of the provider.
abbrev overlapping : Authentication
overlapping = record authentication { service_account_issuer = "https://idp.example/" }

abbrev overlap : Error
overlap =
    Error.wrapf "generating issuer for provider %q: %v" ("idp" ∷ [])
      (errorf "issuer url cannot overlap with the ServiceAccount issuer url" [])

overlap_fails : generate_jwt_for_provider demo "https://idp.example/" provider ≡ err overlap
unfolding generate_jwt_for_provider generate_issuer
overlap_fails = refl

overlap_fails_whole : (j : Error) × (generate_authentication_configuration demo overlapping ≡ err j)
overlap_fails_whole =
    one_provider_fails demo overlapping provider overlap (Memᴰ.head refl) overlap_fails
