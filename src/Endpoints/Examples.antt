-- ===== src/Endpoints/Examples.antt =====
-- Two endpoints of which one answers, and a route with one host.
use mathlib.Core.List.Permᴰ
use cluster_authentication_o.Base.{
  All, String, ◌≡◌, ◌↔◌, ◌⊎◌, refl, true, false, List, [], ◌∷◌, Option, none, some, ok, has, ◌==◌,
  if◌then◌else◌, Error,
}
use cluster_authentication_o.Base.Members.{Includes}
use cluster_authentication_o.Base.SortedSets.{insert, insert_all}
use cluster_authentication_o.Common.Conditions.{status_true, AppliedCondition}
use cluster_authentication_o.Common.IngressConfig.{Ingress, get_component_route_status}
use cluster_authentication_o.Endpoints.Accessible.{Client, View, apply, sync, ask_each}
use cluster_authentication_o.Endpoints.Accessible.Asked.{IsAnswered, accessible_iff}
use cluster_authentication_o.Endpoints.Lists.{
  RouteIngress, hostnames_of, list_oauth_routes, check_hostnames, admit_all, admit, admit_each,
  delete, is_admitted_condition, check_found, to_healthz_url,
}
use cluster_authentication_o.Endpoints.Lists.Admitted.{admits, routes_admitted}

abbrev client : Client
client = record {
  client_do = λ e.
      if e == "https://10.0.0.1:6443/healthz"
      then ok (200, "200 OK")
      else ok (503, "503 Service Unavailable");
}

abbrev endpoints : List String
endpoints = "https://10.0.0.1:6443/healthz" ∷ "https://10.0.0.2:6443/healthz" ∷ []

abbrev view : View
view = record {
  controller_instance_name = "OAuthServerServiceEndpointAccessible";
  available_condition_name = "OAuthServerServiceEndpointAccessibleControllerAvailable";
  text = λ e. "an error";
  endpoint_check_disabled = some (ok false);
  endpoints = ok endpoints;
  get_tls_config = none;
  new_client = λ config. client;
  new_request = λ e. none;
  arrived = λ errs. errs;
  server = λ c. ok tt;
}

accessible_iff_example :
    (c : AppliedCondition) × (e : Option Error) × (sync view ≡ (apply view (c ∷ []) ∷ [], e))
    × ((c.status ≡ status_true) ↔ Includes (IsAnswered view client) endpoints)
    × ((e ≡ none) ↔ (
        Includes (IsAnswered view client) endpoints
        × All (IsAnswered view client) endpoints
        × (view.server (apply view (c ∷ [])) ≡ ok tt)))
accessible_iff_example =
    accessible_iff view endpoints client refl refl refl
      (Permᴰ.refl (ask_each view client endpoints))

abbrev ingress : Ingress
ingress = record {
  name = "cluster";
  domain = "apps.example.com";
  spec_component_routes = [];
  status_component_routes =
      record {
        namespace = "openshift-authentication";
        name = "oauth-openshift";
        conditions = [];
        current_hostnames = some ("oauth.example.com" ∷ []);
      }
      ∷ [];
}

abbrev admitted : List RouteIngress
admitted = record { host = "oauth.example.com"; conditions = ("Admitted", "True") ∷ [] } ∷ []

listed :
    list_oauth_routes (ok ingress) (ok admitted) ≡ ok ("https://oauth.example.com/healthz" ∷ [])
unfolding list_oauth_routes check_hostnames admit_all admit admit_each delete is_admitted_condition
    check_found to_healthz_url get_component_route_status insert_all insert
listed = refl

routes_admitted_example :
    (hosts : List String) × (hostnames_of
        (get_component_route_status ingress "openshift-authentication" "oauth-openshift")
      ≡ some hosts)
    × ((has (λ h. h == "oauth.example.com") hosts ≡ false)
        ⊎ (has (admits "oauth.example.com") admitted ≡ true))
routes_admitted_example = routes_admitted ingress admitted "oauth.example.com" listed
