-- ===== src/Payload/Controller.antt =====
-- payload_config_controller.go: the removal of the operands and the sync.
use cluster_authentication_o.Base.{
  String, List, [], ◌∷◌, ◌++◌, Option, some, wrapf, Result, ok, err, is_not_found, map,
  if◌then◌else◌,
}
use cluster_authentication_o.Base.Calls.{Run, lift, pure, call, ◌>>=◌, ◌>>◌}
use cluster_authentication_o.Common.Conditions.{
  OperatorCondition, StatusCall, apply_operator_status, apply_controller_conditions,
}
use cluster_authentication_o.Payload.Config.{
  Service, OperatorSpec, Call, View, get_oauth_server_route, get_oauth_server_service,
  get_auth_config, get_session_secret, handle_oauth_config, delete_secret, delete_config_map,
  status,
}

-- an object that is not there is deleted
unfoldable pub deleted : Call → String → Result (Unit {0}) → Run Call (Unit {0})
deleted c format (ok u) = (c ∷ [], ok tt)
deleted c format (err e) = (c ∷ [], if is_not_found e then ok tt else err (wrapf format [] e))

unfoldable pub delete : View → Call → String → Run Call (Unit {0})
unfolding deleted
delete v c format = deleted c format (v.server c)

unfoldable pub remove_operands : View → Run Call (Unit {0})
unfolding delete
remove_operands v = do
  delete v (delete_secret "v4-0-config-system-session")
      "deleting secret openshift-authentication/v4-0-config-system-session: %v"
  delete v (delete_config_map "v4-0-config-system-cliconfig")
      "deleting configmap openshift-authentication/v4-0-config-system-cliconfig: %v"

-- knownConditionNames.List()
abbrev pub known_condition_names : List String
known_condition_names =
    "OAuthConfigDegraded" ∷ "OAuthConfigIngressDegraded" ∷ "OAuthConfigRouteDegraded"
    ∷ "OAuthConfigServiceDegraded" ∷ "OAuthSessionSecretDegraded" ∷ []

abbrev pub as_call : Run StatusCall (Unit {0}) → Run Call (Unit {0})
as_call r = (map status r.0, r.1)

abbrev pub apply_conditions : View → List OperatorCondition → Run Call (Unit {0})
apply_conditions v conditions = as_call (
    apply_controller_conditions (λ c. v.server (status c)) v.controller_instance_name
      known_condition_names conditions)

-- the configuration is handled only if nothing else is degraded
unfoldable pub handled :
    View → Option String → Option Service → Option OperatorSpec → Run Call (List OperatorCondition)
handled v (some host) (some service) (some spec) = handle_oauth_config v host service spec
handled v host service spec = pure []

unfoldable pub found_conditions : View → List OperatorCondition → List OperatorCondition
found_conditions v session =
    session
    ++ (get_oauth_server_route v "OAuthConfigRoute").1
    ++ (get_oauth_server_service v "OAuthConfigService").1
    ++ (get_auth_config v).1

unfoldable pub config_conditions : View → List OperatorCondition → Run Call (List OperatorCondition)
unfolding handled
config_conditions v [] =
    handled v (get_oauth_server_route v "OAuthConfigRoute").0
      (get_oauth_server_service v "OAuthConfigService").0 (get_auth_config v).0
config_conditions v (c ∷ found) = pure []

unfoldable pub sync_config : View → Run Call (Unit {0})
sync_config v = do
  session ← get_session_secret v
  config ← config_conditions v (found_conditions v session)
  apply_conditions v (found_conditions v session ++ config)

-- with external OIDC, the empty status removes the conditions
unfoldable pub clear : View → Run Call (Unit {0})
clear v = do
  remove_operands v
  call v.server (status (apply_operator_status v.controller_instance_name []))

unfoldable pub sync : View → Run Call (Unit {0})
sync v = do oidc ← lift v.oidc_available; if oidc then clear v else sync_config v
