-- ===== src/Readiness/WellKnown.antt =====
-- wellknown_ready_controller.go: the check of all the kube-apiservers, and the sync.
pub mod Attempts
pub mod Outcomes
pub mod Checks
pub mod Serving
pub mod Tested
use cluster_authentication_o.Base.{
  ℕ, zero, suc, String, Bool, true, false, not, ◌&&◌, ◌||◌, List, [], ◌∷◌, ◌++◌, Option, none, some,
  Error, Result, ok, err, errorf, wrapf, context, is_not_found, is_empty, join_errors, eqb, ltb,
  length, lookup, has_part, ◌>>=◌, ◌==◌, ◌<>◌, if◌then◌else◌,
}
use cluster_authentication_o.Base.Int.{pos}
use cluster_authentication_o.Generation.Types.{AuthenticationType, integrated_oauth, empty_type}
use cluster_authentication_o.Common.Conditions.{
  ConditionStatus, status_true, status_false, status_unknown, OperatorCondition, AppliedCondition,
}
use cluster_authentication_o.Readiness.Degradation.{
  Degradation, condition_name, to_condition, is_degraded,
}
use cluster_authentication_o.Readiness.Addresses.{ApiServers, get_api_server_ips}
use cluster_authentication_o.Readiness.Endpoint.{
  Response, NetworkErrors, Call, View, Fault, error_of, no_oauth_metadata, metadata_of,
  get_oauth_metadata, is_connection_refused_error, well_known_roundtrip_error_hint, attempt_error,
  attempt, check_status, received_values, check_response, well_known_of, attempts, check_answer,
  metadata_error, check_well_known_endpoint_ready, get, apply_operator_status, plain, observed,
}

-- the loop over the addresses: the calls and the errors, in order
unfoldable pub check_each : View → List String → List Call × List Error
check_each v [] = ([], [])
check_each v (ip ∷ ips) =
    let (calls, e) = check_well_known_endpoint_ready v ip in
    let (later, errs) = check_each v ips in
    (calls ++ later, elim e [ none ↦ errs | some x ↦ x ∷ errs ])

unfoldable pub is_operator_managed_metadata : AuthenticationType → Bool
is_operator_managed_metadata integrated_oauth = true
is_operator_managed_metadata empty_type = true
is_operator_managed_metadata t = false

-- the errors, and the number of addresses
unfoldable pub availability_of : List Error → ℕ → Bool × Option Fault
availability_of errs n = elim (join_errors errs) [
  | none ↦ (true, none)
  | some e ↦
      if ltb (length errs) n
      then (
        true,
        some (
            observed (record {
              reason = "AtLeastOneWellKnownEndpointUnavailable";
              unwrap = e;
              max_age = pos 300000000000;
            })),
      )
      else (false, some (plain e))
]

-- what the check of the addresses needs
unfoldable pub addresses_of : View → Result (List String)
addresses_of v = do
  ca ← context "failed to read SA ca.crt: %v" [] v.ca_data
  rt ← context "failed to build transport for SA ca.crt: %v" [] (v.transport_for ca)
  context "failed to get API server IPs: %v (check kube-apiserver that it deploys correctly)" []
      (get_api_server_ips v.api_servers)

unfoldable pub is_well_known_endpoints_ready :
    View → AuthenticationType → String → List Call × Bool × Option Fault
unfolding availability_of
is_well_known_endpoints_ready v type user_metadata =
    if not (is_operator_managed_metadata type) || not (is_empty user_metadata)
    then ([], true, none)
    else elim (addresses_of v) [
      | err e ↦ ([], false, some (plain e))
      | ok ips ↦
          let (calls, errs) = check_each v ips in
          let (available, fault) = availability_of errs (length ips) in (calls, available, fault)
    ]

abbrev pub available : ConditionStatus → String → String → AppliedCondition
available status reason message = record {
  type = "WellKnownAvailable";
  status = status;
  reason = reason;
  message = message;
}

abbrev pub degradation_observed : ConditionStatus → AppliedCondition
degradation_observed status = record {
  type = condition_name "WellKnownReadyController";
  status = status;
  reason = "";
  message = "";
}

-- the two conditions that the deferred update applies, and the error that the sync returns
unfoldable pub availability_condition : View → Bool → Error → AppliedCondition
availability_condition v avail e =
    if avail
    then available status_true "AtLeastOneWellKnownEndpointAvailable" ""
    else available status_false "NotReady" ("No well-known endpoints are available: " <> v.text e)

unfoldable pub degradation_of :
    View → List OperatorCondition → Fault → AppliedCondition × Option Error
degradation_of v status (plain e) = (degradation_observed status_true, some e)
degradation_of v status (observed d) =
    if is_degraded v.text v.now d "WellKnownReadyController" (some status)
    then (degradation_observed status_true, some d.unwrap)
    else (to_condition v.text d "WellKnownReadyController", none)

unfoldable pub outcome_of :
    View → List OperatorCondition → Bool → Option Fault → List AppliedCondition × Option Error
unfolding availability_condition degradation_of
outcome_of v status avail none =
    (available status_true "AsExpected" "" ∷ degradation_observed status_false ∷ [], none)
outcome_of v status avail (some f) =
    let (observed_condition, e) = degradation_of v status f in
    (availability_condition v avail (error_of f) ∷ observed_condition ∷ [], e)

unfoldable pub route_outcome : View → Error → List AppliedCondition × Option Error
route_outcome v e =
    if is_not_found e
    then (
      available status_false "PrereqsNotReady" (v.text e) ∷ degradation_observed status_true ∷ [],
      some e,
    )
    else (
      available status_unknown "SyncError" (v.text e) ∷ degradation_observed status_false ∷ [],
      some e,
    )

-- the check, the deferred update of the status, whose error is only logged, and the error
unfoldable pub sync_checks :
    View → List OperatorCondition → AuthenticationType → String → List Call × Option Error
unfolding outcome_of route_outcome
sync_checks v status type user_metadata =
    let name = v.controller_instance_name in
    let (calls, avail, fault) = is_well_known_endpoints_ready v type user_metadata in
    elim v.route [
      | err e ↦
          let (conditions, x) = route_outcome v e in (apply_operator_status name conditions ∷ [], x)
      | ok r ↦
          let (conditions, x) = outcome_of v status avail fault in
          (calls ++ apply_operator_status name conditions ∷ [], x)
    ]

-- with external OIDC, the empty status removes the conditions
unfoldable pub sync_status :
    View → List OperatorCondition → AuthenticationType → String → List Call × Option Error
sync_status v status type user_metadata =
    let name = v.controller_instance_name in
    let checked = sync_checks v status type user_metadata in
    elim v.oidc_available [
      | err e ↦ ([], some e)
      | ok oidc ↦
          if oidc
          then (
            apply_operator_status name [] ∷ [],
            elim (v.apply_status name []) [ ok u ↦ none | err e ↦ some e ],
          )
          else checked
    ]

unfoldable pub sync : View → List Call × Option Error
sync v = elim v.operator_state [
  | err e ↦ ([], some e)
  | ok status ↦ elim v.authentication [
    | err e ↦ ([], some e)
    | ok a ↦ elim v.infrastructure [ err e ↦ ([], some e) | ok u ↦ sync_status v status a.0 a.1 ]
  ]
]
