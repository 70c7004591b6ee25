-- ===== src/Payload/Config.antt =====
-- payload_config_controller.go: the session secret and the configuration of the OAuth server. A panic is
-- the error of a run; `text` is the text of an error. The reads of the route and the service are
-- pkg/controllers/common/route.go and service.go, and config_from is config.go.
use cluster_authentication_o.Base.{
  ℕ, String, Bool, true, false, List, [], ◌∷◌, Option, none, some, Error, wrapf, failure, Result,
  ok, err, is_not_found, ◌<>◌, ◌⊎◌, inl, inr, if◌then◌else◌,
}
use cluster_authentication_o.Base.Calls.{Run, lift, pure, fail, ◌>>=◌}
use cluster_authentication_o.Common.Conditions.{OperatorCondition, StatusCall, degraded, answered}
use cluster_authentication_o.Common.ConfigMaps.{ConfigMap}
use cluster_authentication_o.Payload.Session.{
  Secret, Codec, is_valid_session_secret, random_session_secret,
}

pub record Service : Type 0 where
  pub name : String
  pub namespace : String

pub record OperatorSpec : Type 0 where
  pub observed_config : String
  pub unsupported_config_overrides : String

-- osinv1.OsinServerConfig, the fields that the code sets
pub record ServerConfig : Type 0 where
  pub bind_address : String
  pub bind_network : String
  pub cert_file : String
  pub key_file : String
  pub client_ca : String
  pub max_requests_in_flight : ℕ
  pub request_timeout_seconds : ℕ
  pub kube_config : String
  pub qps : ℕ
  pub burst : ℕ
  pub master_ca : String
  pub master_url : String
  pub master_public_url : String
  pub always_show_provider_selection : Bool
  pub grant_method : String
  pub service_account_method : String
  pub session_secrets_file : String
  pub session_max_age_seconds : ℕ
  pub session_name : String

pub data Call : Type 0 where
  apply_secret : Secret → Call
  apply_config_map : ConfigMap → Call
  delete_secret delete_config_map : String → Call
  status : StatusCall → Call

-- The JSON of the unstructured configurations: the map that a decoder leaves, also after an error, a
-- field of it, and its text.
pub record Unstructured : Type 0 where
  pub decoded : String → String
  pub nested_field_copy : String → List String → Result String
  pub marshal : String → Result String

pub record View : Type 0 where
  pub controller_instance_name : String
  pub text : Error → String
  pub oidc_available : Result Bool
  pub session : Result Secret
  pub codec : Codec
  -- the host of the route, and the service
  pub route : Result String
  pub service : Result Service
  pub operator_spec : Result OperatorSpec
  pub encode : ServerConfig → Result String
  pub unstructured : Unstructured
  pub merge_pruned_process_config : String → String → String → Result String
  pub server : Call → Result (Unit {0})

unfoldable pub get_oauth_server_route : View → String → Option String × List OperatorCondition
get_oauth_server_route v prefix = elim v.route [
  | ok host ↦ (some host, [])
  | err e ↦
      if is_not_found e
      then (
        none,
        degraded (prefix <> "Degraded") "NotFound"
              "The OAuth server route 'openshift-authentication/oauth-openshift' was not found"
            ∷ [],
      )
      else (
        none,
        degraded (prefix <> "Degraded") "GetFailed" (
              v.text
                (wrapf "Unable to get 'openshift-authentication/oauth-openshift' route: %v" [] e))
            ∷ [],
      )
]

unfoldable pub get_oauth_server_service : View → String → Option Service × List OperatorCondition
get_oauth_server_service v prefix = elim v.service [
  | ok s ↦ (some s, [])
  | err e ↦ (
    none,
    degraded (prefix <> "Degraded") "GetFailed"
          (v.text (wrapf "Unable to get oauth server service: %v" [] e))
        ∷ [],
  )
]

unfoldable pub get_auth_config : View → Option OperatorSpec × List OperatorCondition
get_auth_config v = elim v.operator_spec [
  | ok spec ↦ (some spec, [])
  | err e ↦ (
    none,
    degraded "OAuthConfigDegraded" "GetFailed"
          (v.text (wrapf "Unable to get cluster authentication config: %v" [] e))
        ∷ [],
  )
]

-- UnstructuredConfigFrom: an error of the decoder is only logged
unfoldable pub config_from : Unstructured → String → List String → Result String
config_from u bytes [] = ok bytes
config_from u bytes (p ∷ prefix) = elim (u.nested_field_copy (u.decoded bytes) (p ∷ prefix)) [
  | err e ↦ err e
  | ok actual ↦ u.marshal actual
]

unfoldable pub call_or_degraded :
    View → Call → (Error → OperatorCondition) → Run Call (List OperatorCondition)
unfolding answered
call_or_degraded v c f = answered c f (v.server c)

unfoldable pub apply_session_secret : View → Secret → Run Call (List OperatorCondition)
unfolding call_or_degraded
apply_session_secret v secret = call_or_degraded v (apply_secret secret) (λ e.
    degraded "OAuthSessionSecretDegraded" "ApplyFailed" (
      v.text (wrapf "Failed to apply session secret %q: %v" ("v4-0-config-system-session" ∷ []) e)))

unfoldable pub apply_generated : View → Option (Result Secret) → Run Call (List OperatorCondition)
unfolding apply_session_secret
apply_generated v none = fail (failure "slice bounds out of range")
apply_generated v (some (ok secret)) = apply_session_secret v secret
apply_generated v (some (err e)) = pure (
    degraded "OAuthSessionSecretDegraded" "GenerateFailed" (
      v.text (
        wrapf "Failed to generate new session secret %q: %v" ("v4-0-config-system-session" ∷ []) e))
    ∷ [])

unfoldable pub apply_valid : View → Secret → Bool → Run Call (List OperatorCondition)
unfolding apply_session_secret apply_generated
apply_valid v secret true = apply_session_secret v secret
apply_valid v secret false = apply_generated v (random_session_secret v.codec)

unfoldable pub session_from : View → Result Secret → Run Call (List OperatorCondition)
unfolding apply_generated apply_valid
session_from v (err e) = apply_generated v (random_session_secret v.codec)
session_from v (ok secret) =
    lift (is_valid_session_secret v.codec (some secret)) >>= apply_valid v secret

unfoldable pub get_session_secret : View → Run Call (List OperatorCondition)
unfolding session_from
get_session_secret v = session_from v v.session

unfoldable pub cli_config : String → Service → ServerConfig
cli_config host service = record {
  bind_address = "0.0.0.0:6443";
  bind_network = "tcp";
  cert_file = "/var/config/system/secrets/v4-0-config-system-serving-cert/tls.crt";
  key_file = "/var/config/system/secrets/v4-0-config-system-serving-cert/tls.key";
  client_ca = "";
  max_requests_in_flight = 1000;
  request_timeout_seconds = 300;
  kube_config = "";
  qps = 400;
  burst = 400;
  master_ca = "/var/config/system/configmaps/v4-0-config-system-service-ca/service-ca.crt";
  master_url = "https://" <> service.name <> "." <> service.namespace <> ".svc";
  master_public_url = "https://" <> host;
  always_show_provider_selection = false;
  grant_method = "deny";
  service_account_method = "prompt";
  session_secrets_file =
      "/var/config/system/secrets/v4-0-config-system-session/v4-0-config-system-session";
  session_max_age_seconds = 300;
  session_name = "ssn";
}

unfoldable pub get_cli_config_map : String → ConfigMap
get_cli_config_map complete_config = record {
  name = "v4-0-config-system-cliconfig";
  namespace = "openshift-authentication";
  labels = ("app", "oauth-openshift") ∷ [];
  entries = ("v4-0-config-system-cliconfig", complete_config) ∷ [];
}

-- the part before the merge, whose errors are conditions
unfoldable pub complete_config :
    View → String → Service → OperatorSpec → List OperatorCondition ⊎ String
complete_config v host service spec =
    let u = v.unstructured in
    let prefix = "oauthServer" ∷ [] in
    let failed = (λ (reason : String) (format : String) (e : Error).
      degraded "OAuthConfigDegraded" reason (v.text (wrapf format [] e)) ∷ []) in
    elim (v.encode (cli_config host service)) [
      | err e ↦ inl (failed "EncodeFailed" "Failed to encode CLI config: %v" e)
      | ok cli ↦ elim (config_from u spec.observed_config prefix) [
        | err e ↦
            inl
              (failed "GetOAuthServerConfigFailed" "Unable to get oauth-server configuration: %v" e)
        | ok observed ↦ elim (config_from u spec.unsupported_config_overrides prefix) [
          | err e ↦ inl (
              failed "GetOAuthServerUnsupportedConfigFailed"
                "Unable to get oauth-server configuration: %v" e)
          | ok unsupported ↦ elim (v.merge_pruned_process_config cli observed unsupported) [
            | err e ↦ inl (
                failed "MergeConfigFailed"
                  "Failed to merge config with unsupportedConfigOverrides: %v" e)
            | ok config ↦ inr config
          ]
        ]
      ]
    ]

unfoldable pub apply_complete :
    View → List OperatorCondition ⊎ String → Run Call (List OperatorCondition)
unfolding call_or_degraded
apply_complete v (inl conditions) = pure conditions
apply_complete v (inr config) =
    call_or_degraded v (apply_config_map (get_cli_config_map config)) (λ e.
      degraded "OAuthConfigDegraded" "ApplyFailed" (
        v.text (
          wrapf "Failed to apply CLI configuration %q: %v" ("v4-0-config-system-cliconfig" ∷ [])
            e)))

unfoldable pub handle_oauth_config :
    View → String → Service → OperatorSpec → Run Call (List OperatorCondition)
unfolding apply_complete
handle_oauth_config v host service spec = apply_complete v (complete_config v host service spec)
