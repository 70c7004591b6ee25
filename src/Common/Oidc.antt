-- ===== src/Common/Oidc.antt =====
-- pkg/controllers/common/external_oidc.go: whether the external OIDC configuration is in effect.
pub mod Revisions
pub mod Available
use cluster_authentication_o.Base.{
  String, Bool, true, false, not, ◌&&◌, ◌||◌, List, [], ◌∷◌, ◌++◌, Option, none, some, Error,
  Result, ok, err, errorf, wrapf, context, is_not_found, ◌>>=◌, lookup, if◌then◌else◌, has_part,
}
use cluster_authentication_o.Base.Int.{ℤ, is_positive, int_eq}
use cluster_authentication_o.Generation.Types.{
  Gate, external_oidc_as_webhook, external_oidc_external_claims_sourcing, AuthenticationType, oidc,
}

-- What AuthConfigChecker reads: its informers' states and its listers.
pub record AuthConfigChecker : Type 0 where
  pub authentications_synced : Bool
  pub kube_api_servers_synced : Bool
  pub kas_config_maps_synced : Bool
  pub oaas_config_maps_synced : Bool
  pub feature_gates_observed : Bool
  pub feature_gates : Result (Gate → Bool)
  -- spec.type of authentications.config.openshift.io/cluster
  pub auth_type : Result AuthenticationType
  -- the data of openshift-oauth-apiserver/auth-config
  pub oaas_auth_config : Result (List (String × String))
  -- the current revisions of the nodes in kubeapiservers.operator.openshift.io/cluster
  pub node_revisions : Result (List ℤ)
  -- the data of openshift-kube-apiserver/auth-config-<revision> and config-<revision>
  pub kas_auth_config : ℤ → Result (List (String × String))
  pub kas_config : ℤ → Result (List (String × String))
  -- the order in which UnsortedList gives the items of a set
  pub unsorted_list : List ℤ → List ℤ

unfoldable pub external_oidc_webhook_architecture_required : (Gate → Bool) → Bool
external_oidc_webhook_architecture_required enabled =
    enabled external_oidc_as_webhook || enabled external_oidc_external_claims_sourcing

-- sets.Set: an item that is there is not added again
has_revision : ℤ → List ℤ → Bool
has_revision r [] = false
has_revision r (x ∷ xs) = int_eq x r || has_revision r xs

insert_revision : ℤ → List ℤ → List ℤ
unfolding has_revision
insert_revision r set = if has_revision r set then set else r ∷ set

-- the loop over the node statuses
unfoldable pub observe : List ℤ → List ℤ → Result (List ℤ)
unfolding insert_revision
observe [] observed = ok observed
observe (r ∷ revisions) observed =
    let rest = observe revisions (insert_revision r observed) in
    if is_positive r
    then rest
    else err (
        errorf
          "determining observed revisions in kubeapiservers.operator.openshift.io/cluster; some nodes do not have a valid CurrentRevision"
          [])

unfoldable pub observed_revisions : List ℤ → Result (List ℤ)
observed_revisions [] = err (
    errorf
      "determining observed revisions in kubeapiservers.operator.openshift.io/cluster; no node statuses found"
      [])
observed_revisions (r ∷ revisions) = observe (r ∷ revisions) []

-- cm.Data["config.yaml"]: the empty text for a missing key
unfoldable pub config_yaml : List (String × String) → String
config_yaml cm = elim (lookup "config.yaml" cm) [ none ↦ "" | some text ↦ text ]

unfoldable pub config_has_oidc : String → Bool
config_has_oidc config =
    has_part config "\"oauthMetadataFile\":\"\""
    && (not (has_part config "\"authentication-token-webhook-config-file\":")
        && has_part config
            "\"authentication-config\":[\"/etc/kubernetes/static-pod-resources/configmaps/auth-config/auth-config.json\"]")

-- one round of the loop over the revisions: false ends the loop with false
unfoldable pub revision_available : AuthConfigChecker → ℤ → Result Bool
revision_available c r = elim (c.kas_auth_config r) [
  | err e ↦
      if is_not_found e
      then ok false
      else err (wrapf "getting configmap openshift-kube-apiserver/auth-config-%d: %v" [] e)
  | ok _ ↦ (do
    cm ← context "getting configmap openshift-kube-apiserver/config-%d: %v" [] (c.kas_config r)
    ok (config_has_oidc (config_yaml cm)))
]

unfoldable pub revisions_available : AuthConfigChecker → List ℤ → Result Bool
revisions_available c [] = ok true
revisions_available c (r ∷ revisions) =
    let rest = revisions_available c revisions in
    (do good ← revision_available c r; if good then rest else ok false)

-- the webhook architecture: the synced configuration alone is asked for
unfoldable pub webhook_available : Result (List (String × String)) → Result Bool
webhook_available (err e) =
    if is_not_found e
    then ok false
    else err (wrapf "getting configmap openshift-oauth-apiserver/auth-config: %w" [] e)
webhook_available (ok cm) = elim (lookup "auth-config.json" cm) [
  | none ↦ err (
      errorf "configmap openshift-oauth-apiserver/auth-config does not contain auth-config.json key"
        [])
  | some _ ↦ ok true
]

unfoldable pub kas_available : AuthConfigChecker → Result Bool
kas_available c = do
  nodes ← context "getting kubeapiservers.operator.openshift.io/cluster: %v" [] c.node_revisions
  observed ← observed_revisions nodes
  revisions_available c (c.unsorted_list observed)

abbrev pub is_oidc : AuthenticationType → Bool
is_oidc oidc = true
is_oidc _ = false

-- the checks of the informers and of the feature gates
unfoldable pub synced : AuthConfigChecker → Result (Gate → Bool)
synced c =
    if not c.authentications_synced
    then err (errorf "AuthConfigChecker authentications informer has not synced yet" [])
    else if not c.kube_api_servers_synced
    then err (errorf "AuthConfigChecker kubeapiservers informer has not synced yet" [])
    else if not c.kas_config_maps_synced
    then err (
        errorf "AuthConfigChecker kube-apiserver namespace configmaps informer has not synced yet"
          [])
    else if not c.oaas_config_maps_synced
    then err (
        errorf "AuthConfigChecker oauth-apiserver namespace configmaps informer has not synced yet"
          [])
    else if not c.feature_gates_observed
    then err (errorf "AuthConfigChecker initial feature gates not yet observed" [])
    else context "AuthConfigChecker getting current feature gates: %w" [] c.feature_gates

unfoldable pub oidc_available : AuthConfigChecker → Result Bool
oidc_available c = do
  gates ← synced c
  auth ← context "getting authentications.config.openshift.io/cluster: %v" [] c.auth_type
  if not (is_oidc auth)
      then ok false
      else if external_oidc_webhook_architecture_required gates
      then webhook_available c.oaas_auth_config
      else kas_available c
