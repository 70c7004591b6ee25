-- ===== src/Common/Proxy.antt =====
-- pkg/controllers/common/proxy.go: the proxy that the components of the authentication use.
pub mod Merged
use cluster_authentication_o.Base.{
  String, Bool, true, false, not, ◌&&◌, ◌||◌, List, [], ◌∷◌, ◌++◌, Option, none, some, Error, wrapf,
  Result, ok, err, is_not_found, is_empty, join_comma, ◌==◌, if◌then◌else◌, ◌>>=◌,
}
use cluster_authentication_o.Base.SortedSets.{insert_all}

abbrev pub component_proxy_ca_file_path : String
component_proxy_ca_file_path =
    "/var/config/system/configmaps/v4-0-config-system-auth-proxy-ca/ca-bundle.crt"

pub record ResolvedProxy : Type 0 where
  pub http_proxy : String
  pub https_proxy : String
  pub no_proxy : String
  pub trusted_ca_name : String

-- operatorv1.AuthenticationProxyConfig
pub record AuthenticationProxyConfig : Type 0 where
  pub http_proxy : String
  pub https_proxy : String
  pub no_proxy : List String
  pub trusted_ca_name : String

-- The environment: KUBERNETES_SERVICE_HOST, and httpproxy.FromEnvironment without a trusted CA.
pub record Environment : Type 0 where
  pub kubernetes_service_host : String
  pub from_environment : ResolvedProxy

unfoldable pub is_proxy_configured : ResolvedProxy → Bool
is_proxy_configured p = not (is_empty p.http_proxy) || not (is_empty p.https_proxy)

unfoldable pub static_no_proxy_entries : String → List String
static_no_proxy_entries host =
    (".cluster.local" ∷ ".svc" ∷ "127.0.0.1" ∷ "localhost" ∷ [])
    ++ (if host == "" then [] else host ∷ [])

unfoldable pub merge_no_proxy : String → List String → String
merge_no_proxy host user_no_proxy =
    join_comma (insert_all user_no_proxy (insert_all (static_no_proxy_entries host) []))

-- `lister` is the answer to the read of authentication/cluster
unfoldable pub get_component_proxy_config :
    Result AuthenticationProxyConfig → Result (Option AuthenticationProxyConfig)
get_component_proxy_config (err e) =
    if is_not_found e
    then ok none
    else err (wrapf "failed to get operator.openshift.io/v1 authentication/cluster: %w" [] e)
get_component_proxy_config (ok proxy) =
    if proxy.http_proxy == "" && proxy.https_proxy == "" then ok none else ok (some proxy)

resolved_of : Environment → Option AuthenticationProxyConfig → ResolvedProxy
resolved_of env none = record (env.from_environment) { trusted_ca_name = "" }
resolved_of env (some proxy) = record {
  http_proxy = proxy.http_proxy;
  https_proxy = proxy.https_proxy;
  no_proxy = merge_no_proxy env.kubernetes_service_host proxy.no_proxy;
  trusted_ca_name = proxy.trusted_ca_name;
}

unfoldable pub resolve_proxy :
    Environment → Result Bool → Result AuthenticationProxyConfig → Result ResolvedProxy
unfolding resolved_of
resolve_proxy env auth_proxy_enabled lister = do
  enabled ← auth_proxy_enabled
  proxy ← if enabled then get_component_proxy_config lister else ok none
  ok (resolved_of env proxy)

-- the names and values of the environment variables
append_env_var : List (String × String) → String → String → List (String × String)
append_env_var vars name value = if is_empty value then vars else vars ++ (name, value) ∷ []

unfoldable pub proxy_env_vars : String → String → String → List (String × String)
unfolding append_env_var
proxy_env_vars http_proxy https_proxy no_proxy =
    append_env_var (append_env_var (append_env_var [] "NO_PROXY" no_proxy) "HTTP_PROXY" http_proxy)
      "HTTPS_PROXY" https_proxy
