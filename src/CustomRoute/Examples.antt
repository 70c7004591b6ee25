-- ===== src/CustomRoute/Examples.antt =====
-- A route of the OAuth server that is admitted and answers, and a custom host without its secret.
use cluster_authentication_o.Base.{
  ◌≡◌, ◌≢◌, refl, ◌⊎◌, ◌↔◌, true, false, List, [], ◌∷◌, Option, none, some, Error, not_found, wrapf,
  ok, err, All,
}
use cluster_authentication_o.Common.IngressConfig.{Ingress, get_component_route_spec}
use cluster_authentication_o.DataSync.Validation.{Crypto}
use cluster_authentication_o.CustomRoute.Conditions.{Route, Env, find_condition, default_condition}
use cluster_authentication_o.CustomRoute.Controller.{
  apply_status, View, RouteStatus, invalid, get_oauth_route_and_secret_name,
  validate_custom_tls_secret, error_list, parse_errors, override, sync, new_conditions,
}
use cluster_authentication_o.CustomRoute.Ageing.{never_degraded}
use cluster_authentication_o.CustomRoute.Reports.{types, IsServed, all_well_iff, one_of_each}
use cluster_authentication_o.CustomRoute.Operands.{IsAllowed, sync-IsAllowed}
use cluster_authentication_o.CustomRoute.Failures.{statuses, invalid_reported}

abbrev crypto : Crypto
crypto = record {
  pem_blocks = λ pem. pem ∷ [];
  parse_certificate =
      λ b. ok (record { not_before = 0; not_after = 9; ext_key_usage = []; raw = b });
  parse_private_key = λ k. ok tt;
  now = 5;
}

abbrev env : Env
env = record {
  now = 5;
  show_error = λ e. "error";
  show_errors = λ es. "errors";
  ingress_uri = λ r. none;
  new_request = λ url. none;
  get = λ url cert. ok (record { status_code = 200; peer_certificates = some (cert ∷ []) });
  parse_url = λ url. none;
  crypto = crypto;
  secrets =
      λ name. ok (record { name = name; entries = ("tls.crt", "CERT") ∷ ("tls.key", "KEY") ∷ [] });
  config_secrets = λ name. err not_found;
}

-- the last sync found the route not admitted, long ago
abbrev ingress : Ingress
ingress = record {
  name = "cluster";
  domain = "apps.example";
  spec_component_routes =
      record {
        namespace = "openshift-authentication";
        name = "oauth-openshift";
        hostname = "login.example";
        serving_cert_key_pair_secret = "custom-cert";
      }
      ∷ [];
  status_component_routes =
      record {
        namespace = "openshift-authentication";
        name = "oauth-openshift";
        conditions =
            record {
              type = "Progressing";
              status = true;
              reason = "RouteNotAdmitted";
              message = "Route not admitted: error";
              last_transition_time = 1;
            }
            ∷ [];
        current_hostnames = none;
      }
      ∷ [];
}

abbrev route : Route
route = record {
  metadata = "oauth-openshift";
  host = "oauth-openshift.apps.example";
  rest_of_spec = "443";
}

abbrev unadmitted : Env
unadmitted = record env {
  ingress_uri = λ r. some (Error.failure "no ingress");
  now = 900000000000000;
}

abbrev view : View
view = record {
  env = env;
  namespace = "openshift-authentication";
  name = "oauth-openshift";
  ingress = ok ingress;
  oidc_available = ok false;
  asset_route = route;
  listed_route = ok route;
  live_route = err not_found;
  ensure_object_meta = λ a b. (false, a);
  extracted = ok none;
  server = λ c. ok tt;
}

never_degraded_example :
    find_condition (new_conditions unadmitted ingress route []) "Degraded"
    ≡ some (default_condition unadmitted "Degraded")
never_degraded_example = never_degraded unadmitted ingress route

all_well_iff_example :
    (new_conditions env ingress route []
      ≡ default_condition env "Progressing" ∷ default_condition env "Degraded" ∷ [])
    ↔ ((◌≡◌ {A = List Error} [] [])
        × (◌≡◌ {A = Option Error} none none)
        × IsServed env "oauth-openshift.apps.example" ingress)
all_well_iff_example = all_well_iff env ingress route []

two_reports :
    ((◌≡◌ {A = List Error} [] [])
      × (types (new_conditions env ingress route []) ≡ "Progressing" ∷ "Degraded" ∷ []))
    ⊎ ((◌≢◌ {A = List Error} [] [])
        × (types (new_conditions env ingress route []) ≡ "Degraded" ∷ "Progressing" ∷ []))
two_reports = one_of_each env ingress route []

sync-IsAllowed_example : All (IsAllowed view ingress) (sync view).0
sync-IsAllowed_example = sync-IsAllowed view ingress refl

misconfigured : get_oauth_route_and_secret_name view ingress ≡ invalid not_found []
unfolding get_oauth_route_and_secret_name validate_custom_tls_secret override error_list
    parse_errors get_component_route_spec
misconfigured = refl

invalid_reported_example :
    (s : RouteStatus) × ((sync view).0 ≡ apply_status s ∷ [])
    × (s.current_hostname ≡ "oauth-openshift.apps.example")
    × (statuses s.conditions ≡ ("Degraded", true) ∷ ("Progressing", false) ∷ [])
    × ((sync view).1
        ≡ err (wrapf "custom route configuration failed verification: %v" [] not_found))
invalid_reported_example =
    invalid_reported view ingress route not_found [] refl refl misconfigured refl
