-- ===== src/Endpoints/Tls.antt =====
-- getOAuthRouteTLSConfig and getOAuthEndpointTLSConfig of oauth_endpoints_controller.go. A pool lists
-- its certificates, and `certs_of` are those that AppendCertsFromPEM finds; it fails if there are none.
use cluster_authentication_o.Base.{
  String, List, [], ◌∷◌, ◌++◌, Option, none, some, Result, ok, err, errorf, context, ◌>>=◌,
  is_empty, lookup, if◌then◌else◌,
}
use cluster_authentication_o.Common.IngressConfig.{
  Ingress, Secret, get_active_router_cert_key_bytes,
}

pub record TlsConfig : Type 0 where
  pub root_cas : List String
  pub server_name : String

pub record View : Type 0 where
  -- the data of openshift-config-managed/default-ingress-cert and of the service CA
  pub default_ingress_cert : Result (List (String × String))
  pub service_ca : Result (List (String × String))
  pub ingress : Result Ingress
  pub secrets : String → Result Secret
  pub certs_of : String → List String
  pub system_ca_bundle : String
  pub trusted_ca_name : String
  -- transport.LoadCAData of openshift-config
  pub load_ca_data : String → String → Result String

-- none where nothing was appended
unfoldable pub append_certs : View → List String → String → Option (List String)
append_certs v pool pem = elim (v.certs_of pem) [ [] ↦ none | c ∷ cs ↦ some (pool ++ c ∷ cs) ]

-- certificates of the proxy that cannot be read are left out
unfoldable pub add_trusted_ca : View → List String → Result (List String)
unfolding append_certs
add_trusted_ca v pool =
    let added : Result (List String) = (do
      ca ←
          context "failed to load proxy trustedCA from \"openshift-config/%s\": %w"
            (v.trusted_ca_name ∷ []) (v.load_ca_data v.trusted_ca_name "ca-bundle.crt")
      elim (append_certs v pool ca) [ none ↦ ok pool | some p ↦ ok p ]) in
    if is_empty v.trusted_ca_name then ok pool else added

-- none where the bundle of the system has no certificates
unfoldable pub add_system_ca : View → List String → Option (List String)
unfolding append_certs
add_system_ca v pool =
    let added = append_certs v pool v.system_ca_bundle in
    if is_empty v.system_ca_bundle then some pool else added

-- the pool of the ingress's bundle, the router's certificates and the system's bundle
unfoldable pub base_pool : View → String → String → Option (List String)
unfolding append_certs add_system_ca
base_pool v default_pem certs = elim (append_certs v [] default_pem) [
  | none ↦ none
  | some p ↦ elim (append_certs v p certs) [ none ↦ none | some q ↦ add_system_ca v q ]
]

unfoldable pub route_tls_of : View → List (String × String) → String → Result (Option TlsConfig)
unfolding base_pool add_trusted_ca
route_tls_of v default_cert certs =
    let found : Result (Option TlsConfig) = elim (lookup "ca-bundle.crt" default_cert) [
      | none ↦ err (
          errorf
            "the openshift-config-managed/default-ingress-cert CM does not contain the \"ca-bundle.crt\" key"
            [])
      | some pem ↦ elim (base_pool v pem certs) [
        | none ↦ ok none
        | some pool ↦ (do
          roots ← add_trusted_ca v pool
          ok (some (record { root_cas = roots; server_name = "" })))
      ]
    ] in
    if is_empty certs then ok none else found

unfoldable pub check_domain : Ingress → Result (Unit {0})
check_domain ingress =
    if is_empty ingress.domain
    then err (errorf "ingress config domain cannot be empty" [])
    else ok tt

-- none is a nil configuration
unfoldable pub get_oauth_route_tls_config : View → Result (Option TlsConfig)
unfolding route_tls_of check_domain
get_oauth_route_tls_config v = do
  default_cert ← v.default_ingress_cert
  ingress ← v.ingress
  u ← check_domain ingress
  active ←
      get_active_router_cert_key_bytes v.secrets ingress "v4-0-config-system-router-certs"
        "v4-0-config-system-custom-router-certs"
  route_tls_of v default_cert active.0

unfoldable pub service_roots : View → String → Result TlsConfig
unfolding append_certs
service_roots v pem = elim (append_certs v [] pem) [
  | none ↦ err (errorf "no certificates could be parsed from the service-ca CA bundle" [])
  | some roots ↦
      ok (record { root_cas = roots; server_name = "oauth-openshift.openshift-authentication.svc" })
]

unfoldable pub get_oauth_endpoint_tls_config : View → Result TlsConfig
unfolding service_roots
get_oauth_endpoint_tls_config v = do
  entries ← v.service_ca
  elim (lookup "service-ca.crt" entries) [
    | none ↦ err (
        errorf
          "\"service-ca.crt\" key of the \"openshift-authentication/v4-0-config-system-service-ca\" CM is empty"
          [])
    | some pem ↦ service_roots v pem
  ]
