-- ===== src/Generation/Issuer.antt =====
-- generate.go: the issuer of a provider.
use cluster_authentication_o.Base.{
  String, not, ◌&&◌, ◌==◌, is_empty, [], ◌∷◌, Option, none, some, Result, ok, err, errorf, context,
  ◌>>=◌, lookup, if◌then◌else◌, trim_right_slash,
}
use cluster_authentication_o.Generation.Types.{TokenIssuer, Issuer, Url, Deps}

abbrev pub config_namespace : String
config_namespace = "openshift-config"

-- the data of the key, which must be there and not empty
unfoldable pub ca_of_data : String → Option String → Result String
ca_of_data name none =
    err (
      errorf "configmap %s/%s key \"ca-bundle.crt\" missing or empty"
        (config_namespace ∷ name ∷ []))
ca_of_data name (some ca) =
    if is_empty ca
    then err (
        errorf "configmap %s/%s key \"ca-bundle.crt\" missing or empty"
          (config_namespace ∷ name ∷ []))
    else ok ca

-- the tests of a discovery URL that is set, once it is parsed
unfoldable pub check_discovery_url : TokenIssuer → Url → Result (Option String)
check_discovery_url issuer u =
    if trim_right_slash issuer.discovery_url == trim_right_slash issuer.url
    then err (errorf "discovery URL must not be identical to issuer URL" [])
    else if not (u.scheme == "https")
    then err (errorf "discovery URL must use https, got %q" (u.scheme ∷ []))
    else if u.host == ""
    then err (errorf "discovery URL must include a host" [])
    else if u.user
    then err (errorf "discovery URL must not contain user info" [])
    else if not (is_empty u.raw_query)
    then err (errorf "discovery URL must not contain a query string" [])
    else if not (is_empty u.fragment)
    then err (errorf "discovery URL must not contain a fragment" [])
    else ok (some issuer.discovery_url)

module _ (deps : Deps) where
  unfoldable pub get_certificate_authority_from_config_map : String → Result String
  unfolding ca_of_data
  get_certificate_authority_from_config_map name = do
    cm ←
        context "could not retrieve auth configmap %s/%s to check CA bundle: %v"
          (config_namespace ∷ name ∷ []) (deps.config_map name)
    ca_of_data name (lookup "ca-bundle.crt" cm)

  unfoldable pub discovery_url_of : TokenIssuer → Result (Option String)
  unfolding check_discovery_url
  discovery_url_of issuer = if is_empty issuer.discovery_url then ok none else (do
    u ← context "invalid discovery URL: %v" [] (deps.parse_url issuer.discovery_url)
    check_discovery_url issuer u)

  unfoldable pub certificate_authority_of : TokenIssuer → Result String
  unfolding get_certificate_authority_from_config_map
  certificate_authority_of issuer =
      if is_empty issuer.certificate_authority
      then ok ""
      else context "getting CertificateAuthority for issuer: %v" []
          (get_certificate_authority_from_config_map issuer.certificate_authority)

  unfoldable pub generate_issuer : TokenIssuer → String → Result Issuer
  generate_issuer issuer service_account_issuer =
      if not (is_empty service_account_issuer) && issuer.url == service_account_issuer
      then err (errorf "issuer url cannot overlap with the ServiceAccount issuer url" [])
      else (do
        discovery ← discovery_url_of issuer
        ca ← certificate_authority_of issuer
        ok (record {
          url = issuer.url;
          discovery_url = discovery;
          certificate_authority = ca;
          audiences = issuer.audiences;
          audience_match_policy = "MatchAny";
        }))
