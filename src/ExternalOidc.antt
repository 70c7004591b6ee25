-- ===== src/ExternalOidc.antt =====
-- pkg/controllers/externaloidc/externaloidc_controller.go: the controller that keeps the generated
-- configuration in the config map openshift-config-managed/auth-config.
pub mod Options
pub mod Sync
pub mod Settling
mod Examples
use cluster_authentication_o.Base.{
  String, Bool, true, false, not, ◌&&◌, ◌==◌, List, [], ◌∷◌, Option, none, some, Error, Result, ok,
  err, is_empty, errorf, context, is_not_found, ◌>>=◌ as ◌>>=?◌, lookup, if◌then◌else◌,
}
use cluster_authentication_o.Base.Calls.{
  Run, lift, pure, fail, call_context, record_event, ◌>>=◌, ◌>>◌,
}
use cluster_authentication_o.Generation.Types.{
  Gate, Authentication, AuthenticationType, oidc, AuthenticationConfiguration, Deps,
}
use cluster_authentication_o.Generation.Generator.{generate_authentication_configuration}
use cluster_authentication_o.Common.Oidc.{external_oidc_webhook_architecture_required, is_oidc}
use cluster_authentication_o.ExternalOidc.Options.{Setup, auth_config_generator}

-- The data of a config map, its keys once each.
abbrev pub CmData : Type 0
CmData = List (String × String)

abbrev pub auth_config_data_key : String
auth_config_data_key = "auth-config.json"

-- The calls of the controller: apply the config map with a text under its one key, delete it, record
-- an event.
pub data Call : Type 0 where
  apply_config : String → Call
  delete_config : Call
  event : String → Call

-- What one sync reads, and the answers to its calls. `existing` is the lister's config map, and
-- `extracted` the data of it that the controller's field manager owns.
pub record View : Type 0 where
  pub auth : Result Authentication
  pub existing : Result CmData
  pub extracted : CmData → Result CmData
  pub server : Call → Result (Unit {0})

-- getExpectedApplyConfig: the text of the one key
unfoldable pub get_expected_apply_config : Setup → AuthenticationConfiguration → Result String
get_expected_apply_config setup config =
    context "could not marshal auth config into JSON: %v" [] (setup.marshal config)

unfoldable pub get_existing_apply_config : View → Result (Option CmData)
get_existing_apply_config view = elim view.existing [
  | err e ↦
      if is_not_found e
      then ok none
      else err (
          Error.wrapf "could not retrieve auth configmap %s/%s to check data before sync: %v"
            ("openshift-config-managed" ∷ "auth-config" ∷ []) e)
  | ok cm ↦ elim (view.extracted cm) [
    | ok d ↦ ok (some d)
    | err e ↦ err (Error.wrapf "could not extract ConfigMap apply configuration: %v" [] e)
  ]
]

-- the data is the one key with the expected text
unfoldable pub same_data : Option CmData → String → Bool
same_data none text = false
same_data (some []) text = false
same_data (some ((k, v) ∷ [])) text = k == auth_config_data_key && v == text
same_data (some _) text = false

unfoldable pub delete_auth_config : View → Run Call (Unit {0})
delete_auth_config view = elim view.existing [
  | err e ↦ if is_not_found e then pure tt else fail e
  | ok _ ↦ elim (view.server delete_config) [
    | ok _ ↦ (delete_config ∷ event "Removed auth configmap" ∷ [], ok tt)
    | err e ↦ (
      delete_config ∷ [],
      if is_not_found e
          then ok tt
          else err (
              Error.wrapf "could not delete existing configmap %s/%s: %v"
                ("openshift-config-managed" ∷ "auth-config" ∷ []) e),
    )
  ]
]

-- the apply and its event
unfoldable pub apply_auth_config : View → String → Run Call (Unit {0})
apply_auth_config view text = do
  call_context "could not apply changes to auth configmap %s/%s: %v"
      ("openshift-config-managed" ∷ "auth-config" ∷ []) view.server (apply_config text)
  record_event (event "Synced auth configmap")

-- the part of the sync behind the reads
unfoldable pub sync_config : View → Option CmData → String → Run Call (Unit {0})
sync_config view existing text =
    if same_data existing text then pure tt else apply_auth_config view text

unfoldable pub sync_oidc : Setup → View → Authentication → Run Call (Unit {0})
sync_oidc setup view auth = do
  config ← lift (auth_config_generator setup auth)
  text ← lift (get_expected_apply_config setup config)
  existing ← lift (get_existing_apply_config view)
  sync_config view existing text

unfoldable pub sync : Setup → View → Run Call (Unit {0})
sync setup view = do
  auth ← lift (context "could not get authentication/cluster: %v" [] view.auth)
  if is_oidc auth.type then sync_oidc setup view auth else delete_auth_config view
