-- ===== src/Metadata.antt =====
-- pkg/controllers/metadata/metadata_controller.go: the OAuth metadata of the cluster and the
-- reference to it in the authentication configuration. `text` is the text of an error.
pub mod Reported
mod Examples
use cluster_authentication_o.Base.{
  String, Bool, true, false, List, [], ◌∷◌, ◌++◌, Error, wrapf, Result, ok, err, is_not_found, ◌<>◌,
  ◌==◌, map, is_empty, if◌then◌else◌,
}
use cluster_authentication_o.Base.Calls.{Run, lift, pure, fail, call, ◌>>=◌, ◌>>◌}
use cluster_authentication_o.Common.Conditions.{
  OperatorCondition, StatusCall, apply_operator_status, apply_controller_conditions, degraded,
  answered,
}
use cluster_authentication_o.Common.ConfigMaps.{ConfigMap}

pub data Call : Type 0 where
  apply_config_map : ConfigMap → Call
  -- the update of status.integratedOAuthMetadata, to a name
  update_status : String → Call
  delete_config_map : String → Call
  status : StatusCall → Call

pub record View : Type 0 where
  pub controller_instance_name : String
  pub text : Error → String
  pub oidc_available : Result Bool
  -- the hosts of the route's status.ingress
  pub route : Result (List String)
  -- whether the lister has the metadata's config map
  pub metadata_config_map : Result (Unit {0})
  -- status.integratedOAuthMetadata of the authentication configuration
  pub integrated_oauth_metadata : Result String
  pub server : Call → Result (Unit {0})

-- knownConditionNames.List()
abbrev pub known_condition_names : List String
known_condition_names =
    "AuthConfigDegraded" ∷ "IngressConfigDegraded" ∷ "OAuthSystemMetadataDegraded" ∷ []

-- the lines around the text are trimmed
unfoldable pub get_oauth_metadata : String → String
get_oauth_metadata host =
    "{\n  \"issuer\": \"https://" <> host <> "\",\n  \"authorization_endpoint\": \"https://" <> host
    <> "/oauth/authorize\",\n  \"token_endpoint\": \"https://" <> host
    <> "/oauth/token\",\n  \"scopes_supported\": [\n    \"user:check-access\",\n    \"user:full\",\n"
    <> "    \"user:info\",\n    \"user:list-projects\",\n    \"user:list-scoped-projects\"\n  ],\n"
    <> "  \"response_types_supported\": [\n    \"code\",\n    \"token\"\n  ],\n"
    <> "  \"grant_types_supported\": [\n    \"authorization_code\",\n    \"implicit\"\n  ],\n"
    <> "  \"code_challenge_methods_supported\": [\n    \"plain\",\n    \"S256\"\n  ]\n}"

unfoldable pub get_oauth_metadata_config_map : String → ConfigMap
get_oauth_metadata_config_map route_host = record {
  name = "v4-0-config-system-metadata";
  namespace = "openshift-authentication";
  labels = ("app", "oauth-openshift") ∷ [];
  entries = ("oauthMetadata", get_oauth_metadata route_host) ∷ [];
}

unfoldable pub not_ready : List OperatorCondition
not_ready =
    degraded "RouteDegraded" "NotReady"
      "Route openshift-authentication/oauth-openshift is not ready: The ingress host is empty in route status"
    ∷ []

-- the message of a failed apply does not mention the error
abbrev pub apply_failed : Error → OperatorCondition
apply_failed e =
    degraded "OAuthSystemMetadataDegraded" "Invalid" "The ingress config domain cannot be empty"

abbrev pub metadata_of : String → Call
metadata_of host = apply_config_map (get_oauth_metadata_config_map host)

unfoldable pub apply_metadata : View → String → Run Call (List OperatorCondition)
apply_metadata v host = answered (metadata_of host) apply_failed (v.server (metadata_of host))

-- the first host of the route's status counts
unfoldable pub handle_hosts : View → List String → Run Call (List OperatorCondition)
unfolding not_ready apply_metadata
handle_hosts v [] = pure not_ready
handle_hosts v (host ∷ hosts) = if is_empty host then pure not_ready else apply_metadata v host

unfoldable pub handle_route : View → Result (List String) → Run Call (List OperatorCondition)
unfolding handle_hosts
handle_route v (err e) = pure (
    degraded "RouteDegraded" "FailedGet" (
      v.text (
        wrapf "Unable to get required route %s/%s: %v"
          ("openshift-authentication" ∷ "oauth-openshift" ∷ []) e))
    ∷ [])
handle_route v (ok hosts) = handle_hosts v hosts

unfoldable pub handle_oauth_metadata_config_map : View → Run Call (List OperatorCondition)
unfolding handle_route
handle_oauth_metadata_config_map v = handle_route v v.route

-- a reference that is as expected is left alone
abbrev pub update_failed : View → Error → OperatorCondition
update_failed v e =
    degraded "AuthConfigDegraded" "UpdateStatusFailed"
      (v.text (wrapf "Unable to update status of cluster authentication config: %v" [] e))

unfoldable pub update_reference : View → Run Call (List OperatorCondition)
update_reference v =
    let c = update_status "oauth-openshift" in answered c (update_failed v) (v.server c)

unfoldable pub handle_reference : View → Result String → Run Call (List OperatorCondition)
unfolding update_reference
handle_reference v (err e) = pure (
    degraded "AuthConfigDegraded" "FailedGet"
      (v.text (wrapf "Unable to get cluster authentication config: %v" [] e))
    ∷ [])
handle_reference v (ok name) = if name == "oauth-openshift" then pure [] else update_reference v

unfoldable pub handle_auth_config : View → Run Call (List OperatorCondition)
unfolding handle_reference
handle_auth_config v = handle_reference v v.integrated_oauth_metadata

-- the authentication configuration is handled only if nothing was found before
unfoldable pub auth_conditions : View → List OperatorCondition → Run Call (List OperatorCondition)
unfolding handle_auth_config
auth_conditions v [] = handle_auth_config v
auth_conditions v (c ∷ found) = pure []

-- what the delete leaves of its answer
unfoldable pub deleted : Result (Unit {0}) → Result (Unit {0})
deleted (ok u) = ok tt
deleted (err e) = if is_not_found e then ok tt else err e

unfoldable pub remove_operands : View → Run Call (Unit {0})
unfolding deleted
remove_operands v = elim v.metadata_config_map [
  | err e ↦ if is_not_found e then pure tt else fail e
  | ok u ↦ (
    delete_config_map "v4-0-config-system-metadata" ∷ [],
    deleted (v.server (delete_config_map "v4-0-config-system-metadata")),
  )
]

abbrev pub apply_conditions : View → List OperatorCondition → Run Call (Unit {0})
apply_conditions v conditions =
    let r =
      apply_controller_conditions (λ c. v.server (status c)) v.controller_instance_name
        known_condition_names conditions in
    (map status r.0, r.1)

unfoldable pub sync_metadata : View → Run Call (Unit {0})
unfolding handle_oauth_metadata_config_map auth_conditions
sync_metadata v = do
  found ← handle_oauth_metadata_config_map v
  auth ← auth_conditions v found
  apply_conditions v (found ++ auth)

-- with external OIDC, the empty status removes the conditions
unfoldable pub clear : View → Run Call (Unit {0})
unfolding remove_operands
clear v = do
  remove_operands v
  call v.server (status (apply_operator_status v.controller_instance_name []))

unfoldable pub sync_as : View → Bool → Run Call (Unit {0})
unfolding clear sync_metadata
sync_as v true = clear v
sync_as v false = sync_metadata v

unfoldable pub sync : View → Run Call (Unit {0})
unfolding sync_as
sync v = lift v.oidc_available >>= sync_as v
