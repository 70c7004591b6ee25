-- ===== src/ProxyConfig/Providers.antt =====
-- proxyconfig_controller.go: the endpoints of the identity providers, which are asked where the
-- configuration has changed since the last sync that reached all of them.
use cluster_authentication_o.Base.{
  String, List, [], ◌∷◌, ◌++◌, Option, none, some, Error, Result, ok, err, is_empty, trim_suffix,
  ◌<>◌, ◌==◌, if◌then◌else◌,
}
use cluster_authentication_o.Common.Proxy.{ResolvedProxy}
use cluster_authentication_o.IdpConversion.Types.{
  IdentityProvider, ProviderConfig, OpenIdConfig, GitHubConfig, GitLabConfig, KeystoneConfig,
  RemoteConfig, GoogleConfig,
}
use cluster_authentication_o.ProxyConfig.Reach.{proxied, Sent, Prober, is_endpoint_reachable}

-- the cases of the switch, each none where it does not apply
unfoldable pub openid_url : Option OpenIdConfig → Option String
openid_url none = none
openid_url (some c) =
    if is_empty c.issuer
    then none
    else some (trim_suffix c.issuer "/" <> "/.well-known/openid-configuration")

unfoldable pub github_url : Option GitHubConfig → Option String
github_url none = none
github_url (some c) =
    some ("https://" <> (if is_empty c.hostname then "github.com" else c.hostname))

unfoldable pub some_url : String → Option String
some_url url = if is_empty url then none else some url

unfoldable pub gitlab_url : Option GitLabConfig → Option String
unfolding some_url
gitlab_url none = none
gitlab_url (some c) = some_url c.url

unfoldable pub keystone_url : Option KeystoneConfig → Option String
unfolding some_url
keystone_url none = none
keystone_url (some c) = some_url c.remote.url

unfoldable pub basic_auth_url : Option RemoteConfig → Option String
unfolding some_url
basic_auth_url none = none
basic_auth_url (some c) = some_url c.url

unfoldable pub google_url : Option GoogleConfig → Option String
google_url none = none
google_url (some c) = some "https://accounts.google.com"

-- the first case that applies
unfoldable pub first_url : List (Option String) → List String
first_url [] = []
first_url (none ∷ cases) = first_url cases
first_url (some url ∷ cases) = url ∷ []

unfoldable pub idp_urls : ProviderConfig → List String
unfolding first_url openid_url github_url gitlab_url keystone_url basic_auth_url google_url
idp_urls c = first_url (
    openid_url c.openid_config
    ∷ github_url c.github_config
    ∷ gitlab_url c.gitlab_config
    ∷ keystone_url c.keystone_config
    ∷ basic_auth_url c.basic_auth_config
    ∷ google_url c.google_config
    ∷ [])

unfoldable pub extract_idp_urls : List IdentityProvider → List String
unfolding idp_urls
extract_idp_urls [] = []
extract_idp_urls (p ∷ providers) = idp_urls p.config ++ extract_idp_urls providers

-- the text that is hashed
unfoldable pub hashed_lines : List String → String
hashed_lines [] = ""
hashed_lines (l ∷ lines) = l <> "\n" <> hashed_lines lines

-- `sha256` is the hexadecimal digest
unfoldable pub compute_idp_validation_hash :
    (String → String) → String → String → String → List String → String
unfolding hashed_lines
compute_idp_validation_hash sha256 http_proxy https_proxy no_proxy urls =
    sha256 (hashed_lines (http_proxy ∷ https_proxy ∷ no_proxy ∷ urls))

-- what the loop leaves: the errors, and the requests
unfoldable pub probe_each : Prober → List String → Sent → List Error × Sent
unfolding is_endpoint_reachable
probe_each p [] sent = ([], sent)
probe_each p (url ∷ urls) sent =
    let (e, later) = is_endpoint_reachable p url proxied sent in
    let (errs, end) = probe_each p urls later in (elim e [ none ↦ errs | some x ↦ x ∷ errs ], end)

-- What is kept of one sync for the next, with the requests and the warnings of the sync: each warning
-- is the list of the errors that its text joins.
pub record Validated : Type 0 where
  pub last_hash : String
  pub sent : Sent
  pub warnings : List (List Error)

unfoldable pub conclude : String → String → List Error × Sent → Validated
conclude last hash ([], sent) = record { last_hash = hash; sent = sent; warnings = [] }
conclude last hash (e ∷ errs, sent) = record {
  last_hash = last;
  sent = sent;
  warnings = (e ∷ errs) ∷ [];
}

unfoldable pub validate_urls :
    (String → String) → Prober → ResolvedProxy → String → Sent → List String → Validated
unfolding conclude probe_each
validate_urls sha256 p proxy last sent [] = record { last_hash = ""; sent = sent; warnings = [] }
validate_urls sha256 p proxy last sent (url ∷ urls) =
    let hash =
      compute_idp_validation_hash sha256 proxy.http_proxy proxy.https_proxy proxy.no_proxy
        (url ∷ urls) in
    let probed = conclude last hash (probe_each p (url ∷ urls) sent) in
    if hash == last then record { last_hash = last; sent = sent; warnings = [] } else probed

-- `providers` is spec.identityProviders of oauth/cluster
unfoldable pub validate_idp_connectivity :
    (String → String)
    → Prober
    → ResolvedProxy
    → Result (List IdentityProvider)
    → String
    → Sent
    → Validated
unfolding validate_urls extract_idp_urls
validate_idp_connectivity sha256 p proxy (err e) last sent = record {
  last_hash = last;
  sent = sent;
  warnings = [];
}
validate_idp_connectivity sha256 p proxy (ok providers) last sent =
    validate_urls sha256 p proxy last sent (extract_idp_urls providers)
