-- ===== src/Endpoints/Accessible.antt =====
-- pkg/libs/endpointaccessible/endpoint_accessible_controller.go: whether some endpoint answers. The
-- endpoints are asked at the same time: `arrived` is the order in which their errors come.
pub mod Asked
use cluster_authentication_o.Base.{
  ℕ, String, Bool, true, false, not, ◌&&◌, ◌||◌, List, [], ◌∷◌, ◌++◌, Option, none, some, Error,
  Result, ok, err, errorf, wrapf, join_errors, is_not_found, has_part, leb, ltb, eqb, length, ◌<>◌,
  if◌then◌else◌,
}
use cluster_authentication_o.Common.Conditions.{
  ConditionStatus, status_true, status_false, AppliedCondition, StatusCall, apply_operator_status,
}
use cluster_authentication_o.Endpoints.Tls.{TlsConfig}

-- the client with its proxy and its TLS configuration: the code and the text of a status
pub record Client : Type 0 where
  pub client_do : String → Result (ℕ × String)

-- TLSClientConfig of the transport: it skips the verification, or is what getTLSConfigFn gave, which
-- may be nil
pub data TlsClientConfig : Type 0 where
  insecure_skip_verify : TlsClientConfig
  given : Option TlsConfig → TlsClientConfig

pub record View : Type 0 where
  pub controller_instance_name : String
  pub available_condition_name : String
  pub text : Error → String
  -- none where there is no such function
  pub endpoint_check_disabled : Option (Result Bool)
  pub endpoints : Result (List String)
  -- getTLSConfigFn, where there is one
  pub get_tls_config : Option (Result (Option TlsConfig))
  -- http.Client with a transport of the proxy function and the configuration
  pub new_client : TlsClientConfig → Client
  -- http.NewRequest
  pub new_request : String → Option Error
  pub arrived : List Error → List Error
  pub server : StatusCall → Result (Unit {0})

unfoldable pub build_tls_client : View → Result Client
build_tls_client v = elim v.get_tls_config [
  | none ↦ ok (v.new_client insecure_skip_verify)
  | some r ↦ elim r [ err e ↦ err e | ok config ↦ ok (v.new_client (given config)) ]
]

unfoldable pub humanize_error : View → Error → Error
humanize_error v e =
    if has_part (v.text e) ":53: no such host"
    then wrapf "%v (this is likely result of malfunctioning DNS server)" [] e
    else e

unfoldable pub is_success : ℕ → Bool
is_success status_code = not (ltb 299 status_code || ltb status_code 200)

-- what one goroutine sends, if anything
unfoldable pub ask : View → Client → String → Option Error
unfolding humanize_error is_success
ask v client endpoint = elim (v.new_request endpoint) [
  | some e ↦ some (humanize_error v e)
  | none ↦ elim (client.client_do endpoint) [
    | err e ↦ some (humanize_error v e)
    | ok (status_code, text) ↦
        if is_success status_code
        then none
        else some (errorf "%q returned %q" (endpoint ∷ text ∷ []))
  ]
]

unfoldable pub ask_each : View → Client → List String → List Error
ask_each v client [] = []
ask_each v client (e ∷ endpoints) =
    let rest = ask_each v client endpoints in
    elim (ask v client e) [ none ↦ rest | some x ↦ x ∷ rest ]

abbrev pub available : View → ConditionStatus → String → String → AppliedCondition
available v status reason message = record {
  type = v.available_condition_name;
  status = status;
  reason = reason;
  message = message;
}

-- the text of an aggregate of errors
unfoldable pub aggregate_text : View → List Error → String
aggregate_text v errs = elim (join_errors errs) [ none ↦ "" | some e ↦ v.text e ]

abbrev pub apply : View → List AppliedCondition → StatusCall
apply v conditions = apply_operator_status v.controller_instance_name conditions

abbrev pub answer_errors : Result (Unit {0}) → List Error
answer_errors (ok u) = []
answer_errors (err e) = e ∷ []

-- an error of the update is one more error
unfoldable pub reported : View → List Error → AppliedCondition → List StatusCall × Option Error
reported v errs condition = (
  apply v (condition ∷ []) ∷ [],
  join_errors (errs ++ answer_errors (v.server (apply v (condition ∷ [])))),
)

unfoldable pub with_missing : ℕ → List Error → List Error
with_missing n errs =
    if eqb n 0 then errs ++ errorf "failed to get oauth-openshift endpoints" [] ∷ [] else errs

-- `n` is the number of endpoints
unfoldable pub report : View → ℕ → List Error → List StatusCall × Option Error
unfolding reported with_missing aggregate_text
report v n errs =
    if ltb 0 n && ltb (length errs) n
    then reported v errs (available v status_true "AsExpected" "")
    else reported v (with_missing n errs)
        (available v status_false "EndpointUnavailable" (aggregate_text v (with_missing n errs)))

abbrev pub of_answer : Result (Unit {0}) → Option Error
of_answer (ok u) = none
of_answer (err e) = some e

unfoldable pub list_failed : View → Error → List StatusCall × Option Error
list_failed v e =
    let condition = available v status_false "ResourceNotFound" (v.text e) in
    if is_not_found e
    then (apply v (condition ∷ []) ∷ [], of_answer (v.server (apply v (condition ∷ []))))
    else ([], some e)

unfoldable pub check_endpoints : View → Result (List String) → List StatusCall × Option Error
unfolding report list_failed build_tls_client
check_endpoints v (err e) = list_failed v e
check_endpoints v (ok endpoints) = elim (build_tls_client v) [
  | err e ↦ ([], some e)
  | ok client ↦ report v (length endpoints) (v.arrived (ask_each v client endpoints))
]

-- a check that is disabled applies the empty status
unfoldable pub sync_enabled : View → Bool → List StatusCall × Option Error
unfolding check_endpoints
sync_enabled v true = (apply v [] ∷ [], of_answer (v.server (apply v [])))
sync_enabled v false = check_endpoints v v.endpoints

unfoldable pub sync : View → List StatusCall × Option Error
unfolding sync_enabled
sync v = elim v.endpoint_check_disabled [
  | none ↦ sync_enabled v false
  | some r ↦ elim r [ err e ↦ ([], some e) | ok skip ↦ sync_enabled v skip ]
]
