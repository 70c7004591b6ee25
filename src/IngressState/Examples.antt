-- ===== src/IngressState/Examples.antt =====
-- Endpoints with a subset of two addresses on one pod, whose container has restarted.
use cluster_authentication_o.Base.{
  ◌≡◌, refl, ◌↔◌, true, false, [], ◌∷◌, Option, none, some, ok, All,
}
use cluster_authentication_o.Common.Conditions.{apply_operator_status}
use cluster_authentication_o.IngressState.{
  restarted, Reference, Pod, Endpoints, unhealthy_pod_messages, container_messages,
  containers_messages, is_pending_too_long, check_pod_status, check_each, View, sync,
}
use cluster_authentication_o.IngressState.Pods.{IsDistinct, IsRecorded, checked_once}
use cluster_authentication_o.IngressState.Subsets.{
  IsHealthy, nothing_degraded, nothing_degraded_iff,
}

abbrev pod : Pod
pod = record {
  name = "oauth-1";
  container_statuses =
      record {
        name = "server";
        ready = false;
        running = true;
        terminated = none;
        restart_count = 3;
      }
      ∷ [];
  pending = false;
  start_time = some 4;
}

abbrev target : Option Reference
target = some (record { kind = "Pod"; namespace = "openshift-authentication"; name = "oauth-1" })

abbrev endpoints : Endpoints
endpoints = record {
  uid = "uid";
  subsets = record { addresses = target ∷ target ∷ []; not_ready_addresses = [] } ∷ [];
}

abbrev view : View
view = record {
  controller_instance_name = "openshift-authentication-IngressState";
  oidc_available = ok false;
  endpoints = ok endpoints;
  pods = λ r. ok pod;
  now = 5;
  ranged = λ m. m;
  show_message = λ m. "message";
  show_number = λ n. "number";
  server = λ c. ok tt;
}

restart_is_found : unhealthy_pod_messages 5 pod ≡ restarted "oauth-1" "server" 3 ∷ []
unfolding unhealthy_pod_messages container_messages containers_messages is_pending_too_long
restart_is_found = refl

by_name :
    (r r' : Reference)
    → r.name ≡ r'.name
    → check_pod_status (λ x. ok pod) 5 r ≡ check_pod_status (λ x. ok pod) 5 r'
unfolding check_pod_status
by_name r r' e = refl

nothing_degraded_iff_example :
    ((sync view).0
      ≡ apply_operator_status "openshift-authentication-IngressState" nothing_degraded ∷ [])
    ↔ IsHealthy view endpoints
nothing_degraded_iff_example = nothing_degraded_iff view endpoints by_name refl refl

shared_pod :
    let recorded =
      (check_each
        (check_pod_status (λ x. ok pod) 5)
        (target ∷ target ∷ [])
        (record { pod_messages = []; unhealthy_pod_count = 0 })).pod_messages in
    IsDistinct recorded × All (IsRecorded recorded) (target ∷ target ∷ [])
shared_pod = checked_once (check_pod_status (λ x. ok pod) 5) (target ∷ target ∷ [])
