-- ===== src/ExternalOidc/Options.antt =====
-- externaloidc_controller.go: what the generator of the oauth-apiserver is given, and the choice of the
-- generator.
use cluster_authentication_o.Base.{
  String, List, [], ◌∷◌, Option, none, some, Result, ok, err, errorf, context, is_empty, lookup,
  if◌then◌else◌, ◌>>=◌,
}
use cluster_authentication_o.Generation.Types.{
  external_oidc_external_claims_sourcing, Authentication, AuthenticationConfiguration, Deps,
}
use cluster_authentication_o.Generation.Generator.{generate_authentication_configuration}
use cluster_authentication_o.Common.Oidc.{external_oidc_webhook_architecture_required}
use cluster_authentication_o.Common.Proxy.{ResolvedProxy, component_proxy_ca_file_path}

-- The options of the library's generator: its resolvers, the second of which is optional, and the
-- path of the trusted CA.
pub record GeneratorOptions : Type 0 where
  pub certificate_authority : String → Result String
  pub client_secret : Option (String → Result String)
  pub trusted_ca_file_path : Result String

-- The generator of the oauth-apiserver (a library) and json.Marshal are parameters.
pub record Setup : Type 0 where
  pub deps : Deps
  -- the lister of the secrets of openshift-config, giving their data
  pub secret : String → Result (List (String × String))
  pub resolve_proxy : Result ResolvedProxy
  pub oauth_generator : GeneratorOptions → Authentication → Result AuthenticationConfiguration
  pub marshal : AuthenticationConfiguration → Result String

abbrev or_empty : Option String → String
or_empty none = ""
or_empty (some s) = s

-- the value of a key, which is neither missing nor empty
unfoldable pub value_of : String → String → String → List (String × String) → Result String
value_of format name key entries =
    let s = or_empty (lookup key entries) in
    if is_empty s then err (errorf format ("openshift-config" ∷ name ∷ [])) else ok s

unfoldable pub certificate_authority_resolver :
    (String → Result (List (String × String))) → String → Result String
unfolding value_of
certificate_authority_resolver config_map name = do
  entries ←
      context "could not retrieve auth configmap %s/%s to check CA bundle: %w"
        ("openshift-config" ∷ name ∷ []) (config_map name)
  value_of "configmap %s/%s key \"ca-bundle.crt\" missing or empty" name "ca-bundle.crt" entries

unfoldable pub client_secret_resolver :
    (String → Result (List (String × String))) → String → Result String
unfolding value_of
client_secret_resolver secret name = do
  entries ←
      context "could not retrieve auth secret %s/%s to get client secret: %w"
        ("openshift-config" ∷ name ∷ []) (secret name)
  value_of "secret %s/%s key \"client-secret\" missing or empty" name "client-secret" entries

-- no path where the proxy has no trusted CA
unfoldable pub trusted_ca_path : Result ResolvedProxy → Result String
trusted_ca_path resolved = do
  proxy ← context "failed to resolve external OIDC proxy config: %w" [] resolved
  ok (if is_empty proxy.trusted_ca_name then "" else component_proxy_ca_file_path)

unfoldable pub generator_options : Setup → GeneratorOptions
unfolding certificate_authority_resolver client_secret_resolver trusted_ca_path
generator_options setup = record {
  certificate_authority = certificate_authority_resolver setup.deps.config_map;
  client_secret =
      if setup.deps.enabled external_oidc_external_claims_sourcing
      then some (client_secret_resolver setup.secret)
      else none;
  trusted_ca_file_path = trusted_ca_path setup.resolve_proxy;
}

-- newAuthConfigGenerator
unfoldable pub auth_config_generator : Setup → Authentication → Result AuthenticationConfiguration
unfolding generator_options
auth_config_generator setup auth =
    if external_oidc_webhook_architecture_required setup.deps.enabled
    then setup.oauth_generator (generator_options setup) auth
    else generate_authentication_configuration setup.deps auth
