-- ===== src/Generation/Types.antt =====
-- The data that the generation reads and writes: the Authentication resource of config.openshift.io
-- (input) and the AuthenticationConfiguration of the kube-apiserver (output), with the fields that
-- generate.go uses, and what it takes from elsewhere. A pointer is an `Option`; an enumeration of
-- texts has a constructor for the values that the code does not know.
use cluster_authentication_o.Base.{ℕ, String, Bool, List, Option, Result}
use cluster_authentication_o.Generation.Expr.{CompilationResult}

pub data Gate : Type 0 where
  external_oidc_with_upstream_parity : Gate
  external_oidc_with_additional_claim_mappings : Gate
  external_oidc_as_webhook : Gate
  external_oidc_external_claims_sourcing : Gate

pub data AuthenticationType : Type 0 where
  integrated_oauth none_type oidc empty_type : AuthenticationType
  other_type : String → AuthenticationType

pub record TokenIssuer : Type 0 where
  pub url : String
  pub audiences : List String
  pub certificate_authority : String
  pub discovery_url : String

pub data PrefixPolicy : Type 0 where
  prefix no_prefix no_opinion : PrefixPolicy
  other_policy : String → PrefixPolicy

pub record UsernameClaimMapping : Type 0 where
  pub claim : String
  pub expression : String
  pub prefix_policy : PrefixPolicy
  pub prefix_string : Option String

pub record PrefixedClaimMapping : Type 0 where
  pub claim : String
  pub expression : String
  pub prefix : String

pub record TokenClaimOrExpressionMapping : Type 0 where
  pub claim : String
  pub expression : String

pub record ExtraMapping : Type 0 where
  pub key : String
  pub value_expression : String

pub record TokenClaimMappings : Type 0 where
  pub username : UsernameClaimMapping
  pub groups : PrefixedClaimMapping
  pub uid : Option TokenClaimOrExpressionMapping
  pub extra : List ExtraMapping

pub data RuleType : Type 0 where
  required_claim cel : RuleType
  other_rule : String → RuleType

pub record RequiredClaim : Type 0 where
  pub claim : String
  pub required_value : String

pub record TokenClaimValidationRule : Type 0 where
  pub type : RuleType
  pub required : Option RequiredClaim
  pub expression : String
  pub message : String

pub record TokenUserValidationRule : Type 0 where
  pub expression : String
  pub message : String

pub record OidcProvider : Type 0 where
  pub name : String
  pub issuer : TokenIssuer
  pub claim_mappings : TokenClaimMappings
  pub claim_validation_rules : List TokenClaimValidationRule
  pub user_validation_rules : List TokenUserValidationRule

pub record Authentication : Type 0 where
  pub type : AuthenticationType
  pub service_account_issuer : String
  pub oidc_providers : List OidcProvider

-- the output
pub record Issuer : Type 0 where
  pub url : String
  pub discovery_url : Option String
  pub certificate_authority : String
  pub audiences : List String
  pub audience_match_policy : String

pub record PrefixedClaimOrExpression : Type 0 where
  pub claim : String
  pub prefix : Option String
  pub expression : String

pub record ClaimOrExpression : Type 0 where
  pub claim : String
  pub expression : String

pub record ClaimMappings : Type 0 where
  pub username : PrefixedClaimOrExpression
  pub groups : PrefixedClaimOrExpression
  pub uid : ClaimOrExpression
  pub extra : List ExtraMapping

pub record ClaimValidationRule : Type 0 where
  pub claim : String
  pub required_value : String
  pub expression : String
  pub message : String

pub record UserValidationRule : Type 0 where
  pub expression : String
  pub message : String

pub record JwtAuthenticator : Type 0 where
  pub issuer : Issuer
  pub claim_mappings : ClaimMappings
  pub claim_validation_rules : List ClaimValidationRule
  pub user_validation_rules : List UserValidationRule

pub record AuthenticationConfiguration : Type 0 where
  pub kind : String
  pub jwt : List JwtAuthenticator

-- What the code takes from elsewhere.

-- the parts of a net/url.URL that are read; `user` tells whether there is user info
pub record Url : Type 0 where
  pub scheme : String
  pub host : String
  pub user : Bool
  pub raw_query : String
  pub fragment : String

-- what is handed to the CEL compiler
pub data ExpressionAccessor : Type 0 where
  claim_mapping : String → ExpressionAccessor
  extra_mapping : String → String → ExpressionAccessor
  claim_validation : String → ExpressionAccessor
  user_validation : String → ExpressionAccessor

-- the certificates of an x509.CertPool, each by its bytes
abbrev pub CertPool : Type 0
CertPool = List String

pub record Response : Type 0 where
  pub status_code : ℕ
  pub status : String
  pub body : Result String

pub record Deps : Type 0 where
  -- the lister of the config maps of openshift-config, giving their data
  pub config_map : String → Result (List (String × String))
  pub enabled : Gate → Bool
  -- net/url.Parse
  pub parse_url : String → Result Url
  -- the CEL compiler of the kube-apiserver, in the scope `claims` and in the scope `user`
  pub compile_claims : ExpressionAccessor → Result CompilationResult
  pub compile_user : ExpressionAccessor → Result CompilationResult
  -- cert.NewPoolFromBytes
  pub new_pool : String → Result CertPool
  -- the GET request with its retries: the certificates of the system if there is no pool
  pub get_well_known : String → Option CertPool → Result Response
