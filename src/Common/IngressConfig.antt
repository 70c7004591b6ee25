-- ===== src/Common/IngressConfig.antt =====
-- pkg/controllers/common/ingress_config.go: what controllers read of the cluster's ingress, and the
-- router secret that is in use.
use cluster_authentication_o.Base.{
  ℕ, String, Bool, true, false, ◌&&◌, ◌==◌, List, [], ◌∷◌, Option, none, some, Error, Result, ok,
  err, is_not_found, ◌>>=◌, lookup, if◌then◌else◌, is_empty, ◌<>◌,
}
use cluster_authentication_o.Common.Conditions.{status_true, OperatorCondition}

pub record ComponentRouteSpec : Type 0 where
  pub namespace : String
  pub name : String
  pub hostname : String
  pub serving_cert_key_pair_secret : String

-- metav1.Condition; a time is in nanoseconds, and 0 the zero time
pub record Condition : Type 0 where
  pub type : String
  pub status : Bool
  pub reason : String
  pub message : String
  pub last_transition_time : ℕ

-- none of the hostnames where the list is nil
pub record ComponentRouteStatus : Type 0 where
  pub namespace : String
  pub name : String
  pub conditions : List Condition
  pub current_hostnames : Option (List String)

pub record Ingress : Type 0 where
  pub name : String
  pub domain : String
  pub spec_component_routes : List ComponentRouteSpec
  pub status_component_routes : List ComponentRouteStatus

pub record Secret : Type 0 where
  pub name : String
  pub entries : List (String × String)

-- the ingress, or the conditions that say why there is none
unfoldable pub get_ingress_config :
    (Error → String) → Result Ingress → String → Option Ingress × List OperatorCondition
get_ingress_config show (err e) condition_prefix = (
  none,
  record {
    type = condition_prefix <> "Degraded";
    status = status_true;
    reason = "NotFound";
    message = "Unable to get cluster ingress config: " <> show e;
    last_transition_time = 0;
  }
      ∷ [],
)
get_ingress_config show (ok ingress) condition_prefix =
    if is_empty ingress.domain
    then (
      none,
      record {
        type = condition_prefix <> "Degraded";
        status = status_true;
        reason = "Invalid";
        message = "The ingress config domain cannot be empty";
        last_transition_time = 0;
      }
          ∷ [],
    )
    else (some ingress, [])

find_spec : List ComponentRouteSpec → String → String → Option ComponentRouteSpec
find_spec [] namespace name = none
find_spec (r ∷ rs) namespace name =
    if r.namespace == namespace && r.name == name then some r else find_spec rs namespace name

unfoldable pub get_component_route_spec : Ingress → String → String → Option ComponentRouteSpec
unfolding find_spec
get_component_route_spec ingress = find_spec ingress.spec_component_routes

find_status : List ComponentRouteStatus → String → String → Option ComponentRouteStatus
find_status [] namespace name = none
find_status (r ∷ rs) namespace name =
    if r.namespace == namespace && r.name == name then some r else find_status rs namespace name

unfoldable pub get_component_route_status : Ingress → String → String → Option ComponentRouteStatus
unfolding find_status
get_component_route_status ingress = find_status ingress.status_component_routes

unfoldable pub get_custom_route_hostname : Ingress → String → String → String
get_custom_route_hostname ingress namespace name =
    elim (get_component_route_spec ingress namespace name) [ none ↦ "" | some r ↦ r.hostname ]

-- the custom secret, and the default one where there is no custom one; `secrets` is the lister of
-- the namespace
unfoldable pub get_active_router_secret : (String → Result Secret) → String → String → Result Secret
get_active_router_secret secrets default_name custom_name = elim (secrets custom_name) [
  | ok secret ↦ ok secret
  | err e ↦ if is_not_found e then secrets default_name else err e
]

-- secret.Data[key]: no bytes for a missing key
bytes_of : List (String × String) → String → String
bytes_of entries key = elim (lookup key entries) [ none ↦ "" | some b ↦ b ]

-- the certificate and the key, and whether the secret is the default one, which has both under the
-- ingress domain
unfoldable pub get_active_router_cert_key_bytes :
    (String → Result Secret) → Ingress → String → String → Result (String × String × Bool)
unfolding bytes_of
get_active_router_cert_key_bytes secrets ingress default_name custom_name = do
  secret ← get_active_router_secret secrets default_name custom_name
  if secret.name == default_name
      then ok (bytes_of secret.entries ingress.domain, bytes_of secret.entries ingress.domain, true)
      else ok (bytes_of secret.entries "tls.crt", bytes_of secret.entries "tls.key", false)
