-- ===== src/CustomRoute/Conditions.antt =====
-- pkg/controllers/customroute/custom_route_conditions.go: the conditions that are reported for the
-- route. A condition's status is a Boolean; a function that returns nil conditions returns `[]`.
use cluster_authentication_o.Base.{
  ℕ, ◌+◌, String, Bool, true, false, not, ◌&&◌, ◌==◌, List, [], ◌∷◌, ◌++◌, Option, none, some,
  Error, errorf, Result, ok, err, of_error, ◌>>=◌, ◌>>◌, ltb, eqb, has, if◌then◌else◌, ◌<>◌,
}
use cluster_authentication_o.Common.IngressConfig.{
  Condition, Ingress, Secret, get_component_route_status, get_active_router_cert_key_bytes,
}
use cluster_authentication_o.DataSync.Validation.{Crypto}

pub record Route : Type 0 where
  pub metadata : String
  pub host : String
  pub rest_of_spec : String

-- the answer of the route's health endpoint; no certificates where there is no TLS state
pub record Answer : Type 0 where
  pub status_code : ℕ
  pub peer_certificates : Option (List String)

pub record Env : Type 0 where
  -- metav1.Now()
  pub now : ℕ
  -- `%v` of an error and of a list of errors
  pub show_error : Error → String
  pub show_errors : List Error → String
  -- routeapihelpers.IngressURI: the error, if the route is not admitted
  pub ingress_uri : Route → Option Error
  -- http.NewRequest, and the request with a transport that trusts the given certificates
  pub new_request : String → Option Error
  pub get : String → String → Result Answer
  -- net/url.Parse
  pub parse_url : String → Option Error
  pub crypto : Crypto
  -- the secrets of openshift-authentication and of openshift-config
  pub secrets : String → Result Secret
  pub config_secrets : String → Result Secret

unfoldable pub find_condition : List Condition → String → Option Condition
find_condition [] t = none
find_condition (c ∷ cs) t = if c.type == t then some c else find_condition cs t

abbrev pub default_condition : Env → String → Condition
default_condition env t = record {
  type = t;
  status = false;
  reason = "AsExpected";
  message = "All is well";
  last_transition_time = env.now;
}

-- one round of the loop over the types
unfoldable pub ensure_condition : Env → String → List Condition → List Condition
ensure_condition env t cs = elim (find_condition cs t) [
  | none ↦ cs ++ default_condition env t ∷ []
  | some c ↦ cs
]

unfoldable pub ensure_default_conditions : Env → List Condition → List Condition
ensure_default_conditions env cs =
    ensure_condition env "Degraded" (ensure_condition env "Progressing" cs)

unfoldable pub check_errors_configuring_custom_route : Env → List Error → List Condition
check_errors_configuring_custom_route env [] = []
check_errors_configuring_custom_route env (e ∷ es) =
    let message = "Error Configuring custom route: " <> env.show_errors (e ∷ es) in
    record {
      type = "Degraded";
      status = true;
      reason = "CustomRouteError";
      message = message;
      last_transition_time = env.now;
    }
    ∷ record {
      type = "Progressing";
      status = false;
      reason = "CustomRouteError";
      message = message;
      last_transition_time = env.now;
    }
    ∷ []

-- the test of degradeIfTimeElapsed: the age compares the condition's own time with itself
unfoldable pub is_aged : Condition → Condition → ℕ → Bool
is_aged existing condition max_age =
    existing.reason == condition.reason
    && (existing.message == condition.message
        && (existing.type == condition.type
            && (not (eqb condition.last_transition_time 0)
                && ltb (condition.last_transition_time + max_age) condition.last_transition_time)))

unfoldable pub degrade_if_time_elapsed : List Condition → Condition → ℕ → Condition
unfolding is_aged
degrade_if_time_elapsed [] condition max_age = condition
degrade_if_time_elapsed (existing ∷ rest) condition max_age =
    degrade_if_time_elapsed rest
      (if is_aged existing condition max_age
        then record condition { type = "Degraded" }
        else condition)
      max_age

-- five minutes
abbrev pub max_age : ℕ
max_age = 300000000000

-- the condition of a failed check, degraded where the code finds it old
unfoldable pub aged_condition : Ingress → Condition → Condition
aged_condition ingress condition =
    elim (get_component_route_status ingress "openshift-authentication" "oauth-openshift") [
      | none ↦ condition
      | some r ↦ degrade_if_time_elapsed r.conditions condition max_age
    ]

abbrev pub not_admitted : Env → Error → Condition
not_admitted env e = record {
  type = "Progressing";
  status = true;
  reason = "RouteNotAdmitted";
  message = "Route not admitted: " <> env.show_error e;
  last_transition_time = env.now;
}

unfoldable pub check_ingress_uri : Env → Ingress → Route → List Condition
check_ingress_uri env ingress route = elim (env.ingress_uri route) [
  | none ↦ []
  | some e ↦ aged_condition ingress (not_admitted env e) ∷ []
]

-- the certificates of the blocks that parse, by their bytes
certificates_of : Crypto → List String → List String
certificates_of crypto [] = []
certificates_of crypto (b ∷ bs) =
    let rest = certificates_of crypto bs in
    elim (crypto.parse_certificate b) [ ok c ↦ c.raw ∷ rest | err e ↦ rest ]

some_certificates : List String → Result (List String)
some_certificates [] = err (errorf "data does not contain any valid certificates" [])
some_certificates certs = ok certs

unfoldable pub parse_certificates : Crypto → String → Result (List String)
unfolding certificates_of some_certificates
parse_certificates crypto key_data =
    some_certificates (certificates_of crypto (crypto.pem_blocks key_data))

-- each certificate that the server presents is one of the secret's
unfoldable pub check_served : List String → List String → Result (Unit {0})
check_served certs [] = ok tt
check_served certs (expected ∷ rest) =
    let later = check_served certs rest in
    if has (λ c. expected == c) certs then later else err (errorf "expected cert not found" [])

unfoldable pub check_answer : Crypto → String → String → Answer → Result (Unit {0})
check_answer crypto healthz cert_bytes answer =
    if not (eqb answer.status_code 200)
    then err (errorf "request against %s returned %d instead of 200" (healthz ∷ []))
    else elim answer.peer_certificates [
      | none ↦ err (errorf "unable to retrieve TLS information from %s" (healthz ∷ []))
      | some served ↦ parse_certificates crypto cert_bytes >>= λ certs. check_served certs served
    ]

unfoldable pub route_availability : Env → String → Ingress → Result (Unit {0})
route_availability env host ingress = do
  let healthz = "https://" <> host <> "/healthz"
  of_error (env.new_request healthz)
  (cert_bytes, key_bytes, is_default) ←
      get_active_router_cert_key_bytes env.secrets ingress "v4-0-config-system-router-certs"
        "v4-0-config-system-custom-router-certs"
  answer ← env.get healthz cert_bytes
  check_answer env.crypto healthz cert_bytes answer

abbrev pub unreachable : Env → Route → Error → Condition
unreachable env route e = record {
  type = "Progressing";
  status = true;
  reason = "ErrorReachingOutToService";
  message = "unexpected error at " <> route.host <> ": " <> env.show_error e;
  last_transition_time = env.now;
}

unfoldable pub check_route_availability : Env → Ingress → Route → List Condition
check_route_availability env ingress route = elim (route_availability env route.host ingress) [
  | ok _ ↦ []
  | err e ↦ aged_condition ingress (unreachable env route e) ∷ []
]
