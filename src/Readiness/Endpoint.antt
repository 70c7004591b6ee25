-- ===== src/Readiness/Endpoint.antt =====
-- wellknown_ready_controller.go: the metadata, and the check of one kube-apiserver. A decoded JSON
-- object is a text that equal objects share.
use cluster_authentication_o.Base.{
  ℕ, zero, suc, String, Bool, ◌||◌, List, [], ◌∷◌, Option, none, some, Error, Result, ok, err,
  errorf, wrapf, context, is_empty, eqb, lookup, has_part, ◌==◌, ◌<>◌, if◌then◌else◌,
}
use cluster_authentication_o.Base.Int.{pos}
use cluster_authentication_o.Generation.Types.{AuthenticationType}
use cluster_authentication_o.Common.Conditions.{OperatorCondition, AppliedCondition}
use cluster_authentication_o.Readiness.Degradation.{Degradation}
use cluster_authentication_o.Readiness.Addresses.{ApiServers}

-- the status code, and what the reading of the body gives
pub record Response : Type 0 where
  pub status_code : ℕ
  pub body : Result String

-- the tests of apimachinery on a network error
pub record NetworkErrors : Type 0 where
  pub is_connection_refused : Error → Bool
  pub is_no_routes : Error → Bool
  pub is_connection_reset : Error → Bool
  pub is_probable_eof : Error → Bool
  pub is_server_timeout : Error → Bool
  pub is_too_many_requests : Error → Bool

pub data Call : Type 0 where
  get : String → Call
  apply_operator_status : String → List AppliedCondition → Call

-- What the controller reads, and the answers to its calls.
pub record View : Type 0 where
  pub controller_instance_name : String
  pub text : Error → String
  pub now : ℕ
  pub network_errors : NetworkErrors
  -- the conditions of the operator status
  pub operator_state : Result (List OperatorCondition)
  -- spec.type and spec.oauthMetadata.name of authentications.config.openshift.io/cluster
  pub authentication : Result (AuthenticationType × String)
  pub infrastructure : Result (Unit {0})
  pub oidc_available : Result Bool
  -- the route openshift-authentication/oauth-openshift
  pub route : Result (Unit {0})
  pub ca_data : Result String
  pub transport_for : String → Result (Unit {0})
  pub api_servers : ApiServers
  -- the data of openshift-config-managed/oauth-openshift
  pub oauth_config_map : Result (List (String × String))
  pub unmarshal : String → Result String
  -- whether http.NewRequest takes the URL
  pub new_request : String → Result (Unit {0})
  -- the answer to each attempt, counted from 0
  pub round_trip : String → ℕ → Result Response
  pub apply_status : String → List AppliedCondition → Result (Unit {0})

-- an error, which may be a ControllerDegradationObservedError
pub data Fault : Type 0 where
  plain : Error → Fault
  observed : Degradation → Fault

unfoldable pub error_of : Fault → Error
error_of (plain e) = e
error_of (observed d) = d.unwrap

abbrev pub no_oauth_metadata : Degradation
no_oauth_metadata = record {
  reason = "NoOAuthMetadata";
  unwrap =
      errorf
        "the openshift-config-managed/oauth-openshift configMap is missing data in the 'oauthMetadata' key"
        [];
  max_age = pos 60000000000;
}

-- the first error, or the metadata
unfoldable pub metadata_of : View → String → Option Fault × String
metadata_of v json =
    let decoded = v.unmarshal json in
    if is_empty json then (some (observed no_oauth_metadata), "") else elim decoded [
      | err e ↦ (some (plain (wrapf "failed to unmarshal cm metadata: %w" [] e)), "")
      | ok metadata ↦ (none, metadata)
    ]

unfoldable pub get_oauth_metadata : View → Option Fault × String
get_oauth_metadata v = elim v.oauth_config_map [
  | err e ↦ (some (plain e), "")
  | ok entries ↦ elim (lookup "oauthMetadata" entries) [
    | none ↦ (some (observed no_oauth_metadata), "")
    | some json ↦ metadata_of v json
  ]
]

unfoldable pub is_connection_refused_error : View → Error → Bool
is_connection_refused_error v e = has_part (v.text e) "connection refused"

unfoldable pub well_known_roundtrip_error_hint : View → Error → String
unfolding is_connection_refused_error
well_known_roundtrip_error_hint v e =
    let n = v.network_errors in
    if is_connection_refused_error v e || n.is_connection_refused e
    then " (kube-apiserver is probably not running on that node, killed before graceful termination or crash-looping)"
    else if n.is_no_routes e
    then " (check node networking, the SDN might have stale routing information for pod IPs on that node)"
    else if n.is_connection_reset e || (n.is_probable_eof e || n.is_connection_reset e)
    then " (check cluster networking, it might be temporarily unstable)"
    else if n.is_server_timeout e || n.is_too_many_requests e
    then " (check kube-apiserver on that node, it might be under too heavy load)"
    else if has_part (v.text e) ":53"
    then " (check DNS on that node)"
    else ""

unfoldable pub attempt_error : View → String → Error → Error
attempt_error v url e =
    wrapf "failed to GET kube-apiserver oauth endpoint %s: %w%s"
      (url ∷ well_known_roundtrip_error_hint v e ∷ []) e

-- the loop of attempts: `left` are left, after `i` of them, of which the last gave `last`
unfoldable pub attempt : View → String → ℕ → ℕ → Result Response → List Call × Result Response
attempt v url zero i last = ([], last)
attempt v url (suc left) i last = elim (v.round_trip url i) [
  | ok resp ↦ (get url ∷ [], ok resp)
  | err e ↦
      let (calls, r) = attempt v url left (suc i) (err (attempt_error v url e)) in
      (get url ∷ calls, r)
]

unfoldable pub check_status : String → Response → Option Error
check_status url resp =
    if eqb resp.status_code 200
    then none
    else if eqb resp.status_code 404
    then some (
        errorf
          "kube-apiserver oauth endpoint %s is not yet served and authentication operator keeps waiting (check kube-apiserver operator, and check that instances roll out successfully, which can take several minutes per instance)"
          (url ∷ []))
    else some (
        errorf
          "kube-apiserver oauth endpoint %s replied with unexpected status: %s (check kube-apiserver logs if this error persists)"
          (url ∷ []))

unfoldable pub received_values : View → String → Response → Result String
received_values v url resp = elim resp.body [
  | err e ↦ err (
      wrapf "failed to read %s body: %v (check kube-apiserver logs if this error persists)"
        (url ∷ []) e)
  | ok body ↦
      context "failed to unmarshal %s JSON: %v (check kube-apiserver logs if this error persists)"
        (url ∷ []) (v.unmarshal body)
]

unfoldable pub check_response : View → String → String → Response → Option Error
check_response v url expected resp = elim (check_status url resp) [
  | some e ↦ some e
  | none ↦ elim (received_values v url resp) [
    | err e ↦ some e
    | ok values ↦
        if expected == values
        then none
        else some (
            errorf
              "the %s endpoint returns different oauth metadata than is stored in openshift-config-managed/oauth-openshift ConfigMap (check kube-apiserver operator that instances roll out, which happens when oauth metadata changes)"
              (url ∷ []))
  ]
]

unfoldable pub well_known_of : String → String
well_known_of ip = "https://" <> ip <> "/.well-known/oauth-authorization-server"

-- what the loop of attempts ended with; its initial value is overwritten by the first attempt
unfoldable pub attempts : View → String → List Call × Result Response
attempts v url = attempt v url 3 0 (err (errorf "no attempt" []))

unfoldable pub check_answer : View → String → String → Result Response → Option Error
check_answer v url expected (err e) = some e
check_answer v url expected (ok resp) = check_response v url expected resp

-- the wrapped error is no ControllerDegradationObservedError any more
unfoldable pub metadata_error : Fault → Error
metadata_error f =
    wrapf
      "failed to get oauth metadata from openshift-config-managed/oauth-openshift ConfigMap: %w (check authentication operator, it is supposed to create this)"
      [] (error_of f)

unfoldable pub check_well_known_endpoint_ready : View → String → List Call × Option Error
check_well_known_endpoint_ready v ip =
    let url = well_known_of ip in
    let (calls, answer) = attempts v url in
    let (fault, expected) = get_oauth_metadata v in
    elim fault [
      | some f ↦ ([], some (metadata_error f))
      | none ↦ elim (v.new_request url) [
        | err e ↦ ([], some (wrapf "failed to build request to well-known %s: %v" (url ∷ []) e))
        | ok u ↦ (calls, check_answer v url expected answer)
      ]
    ]
