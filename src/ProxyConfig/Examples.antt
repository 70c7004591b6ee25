-- ===== src/ProxyConfig/Examples.antt =====
-- A route that is reached through the proxy, and a GitHub provider.
use cluster_authentication_o.Base.{
  ℕ, ◌≡◌, ◌↔◌, ◌⊎◌, refl, true, false, [], ◌∷◌, none, some, ok, err, failure, split_comma,
  has_suffix, has_prefix, is_ascii,
}
use cluster_authentication_o.Common.Proxy.{is_proxy_configured}
use cluster_authentication_o.IdpConversion.Types.{ProviderConfig, github}
use cluster_authentication_o.ProxyMatching.{
  Net, matches, match, match_some, match_ips, is_loopback_ip, parse_no_proxy, parse_entries,
  rule_of, canonical_addr,
}
use cluster_authentication_o.ProxyConfig.{
  View, sync, sync_as, check_proxy, check_configured, check_url, check_route, get_route_healthz_url,
  create_http_clients, get_ca_pool, add_namespaces, after_route, no_proxy_matches,
}
use cluster_authentication_o.ProxyConfig.Providers.{
  validate_idp_connectivity, validate_urls, conclude, probe_each, extract_idp_urls, idp_urls,
  first_url, openid_url, github_url, gitlab_url, keystone_url, basic_auth_url, google_url,
  compute_idp_validation_hash, hashed_lines,
}
use cluster_authentication_o.ProxyConfig.Reach.{
  Via, proxied, direct, Client, Prober, check_proxy_config, lazy_checker, after_expected,
  is_endpoint_reachable, answer_error, status_error,
}
use cluster_authentication_o.ProxyConfig.Route.{first_answer, needed, check_once}
use cluster_authentication_o.ProxyConfig.Remembered.{IsChecked, sync_remembers}

abbrev answering : ℕ → Client
answering code = record { client_do = λ n url. ok code }

abbrev refusing : Client
refusing = record { client_do = λ n url. err (failure "connection refused") }

abbrev clients : Prober
clients = record {
  text = λ e. "an error";
  show = λ n. "a number";
  new_request = λ url. none;
  with_proxy = answering 200;
  without_proxy = refusing;
}

check_once_example :
    (((check_proxy_config clients "https://oauth.example.com/healthz" ".svc" true []).0 ≡ none)
      ↔ ((first_answer clients "https://oauth.example.com/healthz" true []).0 ≡ none))
    × ((check_proxy_config clients "https://oauth.example.com/healthz" ".svc" true []).1
        ≡ needed clients "https://oauth.example.com/healthz" true [])
check_once_example = check_once clients "https://oauth.example.com/healthz" ".svc" true []

abbrev net : Net
net = record {
  normalise = λ s. s;
  split_host_port = λ s. ok (s, "443");
  parse_ip = λ s. none;
  parse_cidr = λ s. none;
  contains = λ cidr ip. false;
  is_loopback = λ ip. false;
  idna_to_ascii = λ s. ok s;
  join_host_port = λ host port. host;
}

abbrev hub : ProviderConfig
hub = record {
  type = github;
  basic_auth_config = none;
  github_config = some (record {
    client_id = "cluster";
    client_secret = "github-secret";
    organizations = [];
    teams = [];
    hostname = "";
    ca = "";
  });
  gitlab_config = none;
  google_config = none;
  htpasswd_config = none;
  keystone_config = none;
  ldap_config = none;
  openid_config = none;
  request_header_config = none;
}

abbrev client_for : Via → Client
client_for proxied = answering 200
client_for direct = refusing

abbrev view : View
view = record {
  text = λ e. "an error";
  show = λ n. "a number";
  new_request = λ url. none;
  sha256 = λ text. "a digest";
  net = net;
  oidc_available = ok false;
  resolve_proxy = ok (record {
    http_proxy = "";
    https_proxy = "http://proxy.corp:3128";
    no_proxy = "";
    trusted_ca_name = "";
  });
  ingress_uri =
      ok (record { scheme = "https"; hostname = "oauth.example.com"; port = ""; path = "" });
  url_text = λ url. "https://oauth.example.com/healthz";
  ca_config_maps = [];
  config_map = λ ns name. ok [];
  certs_of = λ pem. [];
  new_transport = λ pool via. ok (client_for via);
  oauth = ok (record { name = "hub"; mapping_method = "claim"; config = hub } ∷ []);
}

sync_remembers_example : ((sync view "").0.last_hash ≡ "") ⊎ IsChecked view (sync view "").0
sync_remembers_example = sync_remembers view ""

remembered : (sync view "").0.last_hash ≡ "a digest"
unfolding sync sync_as check_proxy check_configured check_url check_route is_proxy_configured
    get_route_healthz_url create_http_clients get_ca_pool add_namespaces after_route
    check_proxy_config lazy_checker after_expected is_endpoint_reachable answer_error status_error
    no_proxy_matches matches match match_some match_ips is_loopback_ip parse_no_proxy parse_entries
    rule_of split_comma has_suffix has_prefix canonical_addr is_ascii validate_idp_connectivity
    validate_urls conclude probe_each extract_idp_urls idp_urls first_url openid_url github_url
    gitlab_url keystone_url basic_auth_url google_url compute_idp_validation_hash hashed_lines
remembered = refl
