-- ===== src/IngressState.antt =====
-- pkg/controllers/ingressstate/ingress_state_controller.go: whether the endpoints of the OAuth server
-- have addresses and whether their pods are healthy. A message keeps its arguments; its text is a
-- parameter.
pub mod Pods
pub mod Subsets
mod Examples
use cluster_authentication_o.Base.{
  ℕ, ◌+◌, String, Bool, true, false, not, ◌&&◌, List, [], ◌∷◌, ◌++◌, Option, none, some, Error,
  errorf, Result, ok, err, is_not_found, is_empty, eqb, ltb, leb, length, lookup, ◌==◌,
  if◌then◌else◌, ◌<>◌, join_comma, map,
}
use cluster_authentication_o.Base.Calls.{Run, lift, ◌>>=◌}
use cluster_authentication_o.Common.Conditions.{
  ConditionStatus, status_true, OperatorCondition, StatusCall, StatusServer, apply_status,
  apply_controller_conditions,
}

pub data Message : Type 0 where
  terminated_with : String → String → String → Message
  restarted : String → String → ℕ → Message
  pending_too_long : String → Message
  error_getting_pod : String → Error → Message

pub record ContainerStatus : Type 0 where
  pub name : String
  pub ready : Bool
  pub running : Bool
  -- the message of a terminated state
  pub terminated : Option String
  pub restart_count : ℕ

pub record Pod : Type 0 where
  pub name : String
  pub container_statuses : List ContainerStatus
  -- the phase is Pending
  pub pending : Bool
  pub start_time : Option ℕ

pub record Reference : Type 0 where
  pub kind : String
  pub namespace : String
  pub name : String

-- The target of each address.
pub record EndpointSubset : Type 0 where
  pub addresses : List (Option Reference)
  pub not_ready_addresses : List (Option Reference)

pub record Endpoints : Type 0 where
  pub uid : String
  pub subsets : List EndpointSubset

-- five minutes
abbrev pub max_tolerated_pod_pending_duration : ℕ
max_tolerated_pod_pending_duration = 300000000000

unfoldable pub container_messages : String → ContainerStatus → List Message
container_messages pod c =
    if c.ready && c.running
    then []
    else elim c.terminated [ none ↦ [] | some m ↦ terminated_with pod c.name m ∷ [] ]
      ++ (if ltb 1 c.restart_count then restarted pod c.name c.restart_count ∷ [] else [])

unfoldable pub containers_messages : String → List ContainerStatus → List Message
containers_messages pod [] = []
containers_messages pod (c ∷ cs) = container_messages pod c ++ containers_messages pod cs

unfoldable pub is_pending_too_long : ℕ → Pod → Bool
is_pending_too_long now pod = pod.pending && elim pod.start_time [
  | none ↦ false
  | some t ↦ leb (t + max_tolerated_pod_pending_duration) now
]

unfoldable pub unhealthy_pod_messages : ℕ → Pod → List Message
unfolding container_messages containers_messages is_pending_too_long
unhealthy_pod_messages now pod =
    containers_messages pod.name pod.container_statuses
    ++ (if is_pending_too_long now pod then pending_too_long pod.name ∷ [] else [])

-- `pods` is the getter of the pods
unfoldable pub check_pod_status : (Reference → Result Pod) → ℕ → Reference → List Message
check_pod_status pods now ref = elim (pods ref) [
  | err e ↦ error_getting_pod ref.name e ∷ []
  | ok pod ↦ unhealthy_pod_messages now pod
]

unfoldable pub endpoints_degraded : String → String → OperatorCondition
endpoints_degraded reason message = record {
  type = "IngressStateEndpointsDegraded";
  status = status_true;
  reason = reason;
  message = message;
  last_transition_time = 0;
}

-- subsetWithReadyAddresses without an error: a subset or a condition
pub data Readiness : Type 0 where
  with_subset : EndpointSubset → Readiness
  with_condition : OperatorCondition → Readiness

-- a subset of which no address is ready, and some are not ready
unfoldable pub has_none_ready : EndpointSubset → Bool
has_none_ready s = eqb (length s.addresses) 0 && ltb 0 (length s.not_ready_addresses)

-- `show` is the decimal text of a number
unfoldable pub readiness_of : (ℕ → String) → List EndpointSubset → Result Readiness
readiness_of show [] = ok (
    with_condition
      (endpoints_degraded "MissingSubsets" "No subsets found for the endpoints of oauth-server"))
readiness_of show (s ∷ []) =
    if has_none_ready s
    then ok (
        with_condition (
          endpoints_degraded "NonReadyEndpoints" (
            "All "
            <> show (length s.not_ready_addresses)
            <> " endpoints for oauth-server are reporting 'not ready'")))
    else ok (with_subset s)
readiness_of show _ = err (errorf "More than one subset found for the endpoints of oauth-server" [])

unfoldable pub subset_with_ready_addresses : (ℕ → String) → Option Endpoints → Result Readiness
unfolding readiness_of
subset_with_ready_addresses show none =
    ok
      (with_condition (endpoints_degraded "MissingEndpoints" "No endpoints found for oauth-server"))
subset_with_ready_addresses show (some e) =
    if is_empty e.uid
    then ok (
        with_condition
          (endpoints_degraded "MissingEndpoints" "No endpoints found for oauth-server"))
    else readiness_of show e.subsets

-- podMessages and unhealthyPodCount
pub record Checked : Type 0 where
  pub pod_messages : List (String × List Message)
  pub unhealthy_pod_count : ℕ

unfoldable pub record_pod : String → List Message → Checked → Checked
record_pod name [] s = record s { pod_messages = (name, []) ∷ s.pod_messages }
record_pod name (m ∷ ms) s = record {
  pod_messages = (name, m ∷ ms) ∷ s.pod_messages;
  unhealthy_pod_count = s.unhealthy_pod_count + 1;
}

-- a pod that is known is not checked again
unfoldable pub check_address : (Reference → List Message) → Option Reference → Checked → Checked
check_address check none s = s
check_address check (some ref) s =
    if ref.kind == "Pod"
    then elim (lookup ref.name s.pod_messages) [
      | some _ ↦ s
      | none ↦ record_pod ref.name (check ref) s
    ]
    else s

unfoldable pub check_each : (Reference → List Message) → List (Option Reference) → Checked → Checked
check_each check [] s = s
check_each check (a ∷ addresses) s = check_each check addresses (check_address check a s)

-- the messages of all pods, in the order in which Go ranges over the map
unfoldable pub all_messages : List (String × List Message) → List Message
all_messages [] = []
all_messages ((name, ms) ∷ rest) = ms ++ all_messages rest

-- `ranged` is the order of a map, and `show` the text of a message
unfoldable pub check_addresses :
    (List (String × List Message) → List (String × List Message))
    → (Message → String)
    → (Reference → List Message)
    → List (Option Reference)
    → List OperatorCondition
unfolding all_messages
check_addresses ranged show check addresses =
    let s = check_each check addresses (record { pod_messages = []; unhealthy_pod_count = 0 }) in
    if ltb 0 s.unhealthy_pod_count
    then record {
      type = "IngressStatePodsDegraded";
      status = status_true;
      reason = "UnhealthyPods";
      message =
          "Unhealthy pods found: " <> join_comma (map show (all_messages (ranged s.pod_messages)));
      last_transition_time = 0;
    }
      ∷ []
    else []

pub record View : Type 0 where
  pub controller_instance_name : String
  pub oidc_available : Result Bool
  pub endpoints : Result Endpoints
  pub pods : Reference → Result Pod
  pub now : ℕ
  pub ranged : List (String × List Message) → List (String × List Message)
  pub show_message : Message → String
  pub show_number : ℕ → String
  pub server : StatusServer

-- endpoints that are not found are none
unfoldable pub endpoints_of : View → Result (Option Endpoints)
endpoints_of view = elim view.endpoints [
  | ok e ↦ ok (some e)
  | err e ↦ if is_not_found e then ok none else err e
]

unfoldable pub degraded_conditions : View → Readiness → List OperatorCondition
degraded_conditions view (with_condition c) = c ∷ []
degraded_conditions view (with_subset s) =
    check_addresses view.ranged view.show_message (check_pod_status view.pods view.now) s.addresses

unfoldable pub sync_state : View → Run StatusCall (Unit {0})
sync_state view = do
  endpoints ← lift (endpoints_of view)
  readiness ← lift (subset_with_ready_addresses view.show_number endpoints)
  apply_controller_conditions view.server view.controller_instance_name
      ("IngressStateEndpointsDegraded" ∷ "IngressStatePodsDegraded" ∷ [])
      (degraded_conditions view readiness)

-- external OIDC applies the empty status
unfoldable pub sync : View → Run StatusCall (Unit {0})
sync view = do
  oidc ← lift view.oidc_available
  if oidc then apply_status view.server view.controller_instance_name [] else sync_state view
