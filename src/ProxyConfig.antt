-- ===== src/ProxyConfig.antt =====
-- pkg/controllers/proxyconfig/proxyconfig_controller.go: whether the route of the OAuth server and
-- the identity providers can be reached through the proxy. A client answers the n-th request of a
-- sync, so that two requests for one URL may have different answers.
pub mod Reach
pub mod Providers
pub mod Route
pub mod Reached
pub mod Remembered
mod Examples
use cluster_authentication_o.Base.{
  ℕ, String, Bool, true, false, List, [], ◌∷◌, ◌++◌, Option, none, some, Error, errorf, Result, ok,
  err, lookup,
}
use cluster_authentication_o.Common.Proxy.{ResolvedProxy, is_proxy_configured}
use cluster_authentication_o.IdpConversion.Types.{IdentityProvider}
use cluster_authentication_o.ProxyMatching.{Net, parse_no_proxy, matches, canonical_addr}
use cluster_authentication_o.ProxyConfig.Reach.{
  Via, proxied, direct, Sent, Client, Prober, check_proxy_config,
}
use cluster_authentication_o.ProxyConfig.Providers.{Validated, validate_idp_connectivity}

pub record Url : Type 0 where
  pub scheme : String
  pub hostname : String
  pub port : String
  pub path : String

pub record View : Type 0 where
  pub text : Error → String
  pub show : ℕ → String
  pub new_request : String → Option Error
  pub sha256 : String → String
  pub net : Net
  pub oidc_available : Result Bool
  pub resolve_proxy : Result ResolvedProxy
  -- routeapihelpers.IngressURI of the route that the lister has
  pub ingress_uri : Result Url
  pub url_text : Url → String
  -- the namespaces in the order in which the map is read, each with its config maps
  pub ca_config_maps : List (String × List String)
  pub config_map : String → String → Result (List (String × String))
  pub certs_of : String → List String
  -- proxyResolver.NewTransport with the certificates of a pool
  pub new_transport : List String → Via → Result Client
  -- spec.identityProviders of oauth/cluster
  pub oauth : Result (List IdentityProvider)

unfoldable pub get_route_healthz_url : View → Result Url
get_route_healthz_url v = elim v.ingress_uri [
  | err e ↦ err e
  | ok url ↦
      ok
        (record { scheme = url.scheme; hostname = url.hostname; port = url.port; path = "healthz" })
]

abbrev bundle_of : List (String × String) → String
bundle_of entries = elim (lookup "ca-bundle.crt" entries) [ none ↦ "" | some pem ↦ pem ]

unfoldable pub add_bundle :
    View → String → String → List String → Result (List (String × String)) → Result (List String)
add_bundle v ns name pool (err e) = err e
add_bundle v ns name pool (ok entries) = elim (v.certs_of (bundle_of entries)) [
  | [] ↦ err (errorf "unable to parse CA bundle from configmap %s/%s" (ns ∷ name ∷ []))
  | c ∷ certs ↦ ok (pool ++ c ∷ certs)
]

unfoldable pub add_config_maps : View → String → List String → List String → Result (List String)
unfolding add_bundle
add_config_maps v ns [] pool = ok pool
add_config_maps v ns (name ∷ names) pool = elim (add_bundle v ns name pool (v.config_map ns name)) [
  | err e ↦ err e
  | ok next ↦ add_config_maps v ns names next
]

unfoldable pub add_namespaces :
    View → List (String × List String) → List String → Result (List String)
unfolding add_config_maps
add_namespaces v [] pool = ok pool
add_namespaces v ((ns, names) ∷ more) pool = elim (add_config_maps v ns names pool) [
  | err e ↦ err e
  | ok next ↦ add_namespaces v more next
]

unfoldable pub get_ca_pool : View → Result (List String)
unfolding add_namespaces
get_ca_pool v = add_namespaces v v.ca_config_maps []

unfoldable pub create_http_clients : View → Result (Client × Client)
unfolding get_ca_pool
create_http_clients v = elim (get_ca_pool v) [
  | err e ↦ err e
  | ok pool ↦ elim (v.new_transport pool proxied) [
    | err e ↦ err e
    | ok with_proxy ↦ elim (v.new_transport pool direct) [
      | err e ↦ err e
      | ok without_proxy ↦ ok (with_proxy, without_proxy)
    ]
  ]
]

abbrev pub prober : View → Client × Client → Prober
prober v clients = record {
  text = v.text;
  show = v.show;
  new_request = v.new_request;
  with_proxy = clients.0;
  without_proxy = clients.1;
}

-- whether NO_PROXY matches the address of the route
unfoldable pub no_proxy_matches : View → ResolvedProxy → Url → Bool
no_proxy_matches v proxy url =
    matches v.net (parse_no_proxy v.net proxy.no_proxy)
      (canonical_addr v.net url.hostname url.port url.scheme)

-- the state after a sync, and its error
abbrev pub Outcome : Type 0
Outcome = Validated × Option Error

abbrev pub unchanged : String → Sent → Option Error → Outcome
unchanged last sent e = (record { last_hash = last; sent = sent; warnings = [] }, e)

-- the identity providers are asked once the route is as it should be
unfoldable pub after_route : View → Prober → ResolvedProxy → String → Option Error × Sent → Outcome
after_route v p proxy last (some e, sent) = unchanged last sent (some e)
after_route v p proxy last (none, sent) =
    (validate_idp_connectivity v.sha256 p proxy v.oauth last sent, none)

unfoldable pub check_route :
    View → ResolvedProxy → String → Url → Result (Client × Client) → Outcome
unfolding after_route no_proxy_matches
check_route v proxy last url (err e) = unchanged last [] (some e)
check_route v proxy last url (ok clients) =
    let p = prober v clients in
    after_route v p proxy last
      (check_proxy_config p (v.url_text url) proxy.no_proxy (no_proxy_matches v proxy url) [])

unfoldable pub check_url : View → ResolvedProxy → String → Result Url → Outcome
unfolding check_route create_http_clients
check_url v proxy last (err e) = unchanged last [] (some e)
check_url v proxy last (ok url) = check_route v proxy last url (create_http_clients v)

unfoldable pub check_configured : View → ResolvedProxy → String → Bool → Outcome
unfolding check_url get_route_healthz_url
check_configured v proxy last false = unchanged last [] none
check_configured v proxy last true = check_url v proxy last (get_route_healthz_url v)

unfoldable pub check_proxy : View → String → Result ResolvedProxy → Outcome
unfolding check_configured
check_proxy v last (err e) = unchanged last [] (some e)
check_proxy v last (ok proxy) = check_configured v proxy last (is_proxy_configured proxy)

-- nothing is checked with external OIDC
unfoldable pub sync_as : View → String → Result Bool → Outcome
unfolding check_proxy
sync_as v last (err e) = unchanged last [] (some e)
sync_as v last (ok true) = unchanged last [] none
sync_as v last (ok false) = check_proxy v last v.resolve_proxy

-- `last` is lastIdPValidationHash
unfoldable pub sync : View → String → Outcome
unfolding sync_as
sync v last = sync_as v last v.oidc_available
