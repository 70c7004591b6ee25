-- ===== src/Common/Examples.antt =====
-- A cluster that runs with external OIDC, and a controller that owns two conditions.
use mathlib.Core.List.{Memᴰ}
use mathlib.Core.List.Memᴰ
use cluster_authentication_o.Base.SortedSets.{IsSorted}
use cluster_authentication_o.Common.Proxy.{
  ResolvedProxy, AuthenticationProxyConfig, Environment, static_no_proxy_entries, merge_no_proxy,
  resolve_proxy,
}
use cluster_authentication_o.Common.Proxy.Merged.{
  merge_no_proxy-IsSorted, merge_no_proxy_same, IsWithout, IsNamed, from_environment,
  resolve_proxy_iff,
}
use cluster_authentication_o.Base.{
  ◌⊎◌, inl, inr, join_comma, String, ◌≡◌, refl, ◌↔◌, true, false, ◌==◌, List, [], ◌∷◌, none, some,
  ok, err, not_found, has, if◌then◌else◌, has_part,
}
use cluster_authentication_o.Base.Int.{pos}
use cluster_authentication_o.Generation.Types.{oidc}
use cluster_authentication_o.Common.Conditions.{
  OperatorCondition, AppliedCondition, apply_operator_status, status_true,
  apply_controller_conditions, expected_condition, find_applied, applied_conditions,
}
use cluster_authentication_o.Common.Oidc.{
  AuthConfigChecker, oidc_available, synced, kas_available, observed_revisions, observe,
  revisions_available, revision_available, config_has_oidc, config_yaml,
  external_oidc_webhook_architecture_required,
}
use cluster_authentication_o.Common.Oidc.Available.{IsInEffect, oidc_available_iff}

abbrev pods_degraded : OperatorCondition
pods_degraded = record {
  type = "PodsDegraded";
  status = status_true;
  reason = "UnhealthyPods";
  message = "";
  last_transition_time = 0;
}

applied_conditions_example :
    (cs : List AppliedCondition) × ((apply_controller_conditions
        (λ c. ok tt)
        "manager"
        ("PodsAvailable" ∷ "PodsDegraded" ∷ [])
        (pods_degraded ∷ [])).0
      ≡ apply_operator_status "manager" cs ∷ [])
    × (find_applied "PodsDegraded" cs ≡ (
        if has (λ n. n == "PodsDegraded") ("PodsAvailable" ∷ "PodsDegraded" ∷ [])
        then some (expected_condition (pods_degraded ∷ []) "PodsDegraded")
        else none))
applied_conditions_example =
    applied_conditions (λ c. ok tt) "manager" "PodsAvailable" ("PodsDegraded" ∷ [])
      (pods_degraded ∷ []) "PodsDegraded"

abbrev rolled_out : AuthConfigChecker
rolled_out = record {
  authentications_synced = true;
  kube_api_servers_synced = true;
  kas_config_maps_synced = true;
  oaas_config_maps_synced = true;
  feature_gates_observed = true;
  feature_gates = ok (λ gate. false);
  auth_type = ok oidc;
  oaas_auth_config = err not_found;
  node_revisions = ok (pos 4 ∷ pos 5 ∷ pos 4 ∷ []);
  kas_auth_config = λ r. ok [];
  kas_config = λ r. ok (
      (
        "config.yaml",
        "{\"authentication-config\":[\"/etc/kubernetes/static-pod-resources/configmaps/auth-config/auth-config.json\"],\"oauthMetadataFile\":\"\"}",
      )
      ∷ []);
  unsorted_list = λ xs. xs;
}

rolled_out_available : oidc_available rolled_out ≡ ok true
unfolding oidc_available synced external_oidc_webhook_architecture_required kas_available
    observed_revisions observe revisions_available revision_available config_has_oidc config_yaml
    has_part
rolled_out_available = refl

oidc_available_iff_example : (oidc_available rolled_out ≡ ok true) ↔ IsInEffect rolled_out
oidc_available_iff_example = oidc_available_iff rolled_out (λ xs r. (λ m. m, λ m. m))

abbrev corporate : AuthenticationProxyConfig
corporate = record {
  http_proxy = "http://proxy.corp:3128";
  https_proxy = "";
  no_proxy = "b.corp" ∷ "a.corp" ∷ "b.corp" ∷ [];
  trusted_ca_name = "corp-ca";
}

abbrev environment : Environment
environment = record {
  kubernetes_service_host = "172.30.0.1";
  from_environment = record {
    http_proxy = "";
    https_proxy = "";
    no_proxy = "";
    trusted_ca_name = "";
  };
}

abbrev resolved : ResolvedProxy
resolved = record {
  http_proxy = "http://proxy.corp:3128";
  https_proxy = "";
  no_proxy = merge_no_proxy "172.30.0.1" ("b.corp" ∷ "a.corp" ∷ "b.corp" ∷ []);
  trusted_ca_name = "corp-ca";
}

resolve_proxy_iff_example :
    ((resolve_proxy environment (ok true) (ok corporate) ≡ ok resolved) ↔ (
      IsNamed environment (ok corporate) resolved
      ⊎ (IsWithout (ok corporate) × (resolved ≡ from_environment environment))))
    × ((resolve_proxy environment (ok false) (ok corporate) ≡ ok resolved)
        ↔ (resolved ≡ from_environment environment))
resolve_proxy_iff_example = resolve_proxy_iff environment (ok corporate) resolved

merged-IsSorted :
    (entries : List String) × (merge_no_proxy "172.30.0.1" ("b.corp" ∷ "a.corp" ∷ "b.corp" ∷ [])
      ≡ join_comma entries)
    × IsSorted entries
    × ((z : String)
        → Memᴰ z entries ↔ (
            Memᴰ z ("b.corp" ∷ "a.corp" ∷ "b.corp" ∷ [])
            ⊎ Memᴰ z (static_no_proxy_entries "172.30.0.1")))
merged-IsSorted = merge_no_proxy-IsSorted "172.30.0.1" ("b.corp" ∷ "a.corp" ∷ "b.corp" ∷ [])

twice_is_once : (z : String) → Memᴰ z ("a.corp" ∷ "a.corp" ∷ []) ↔ Memᴰ z ("a.corp" ∷ [])
twice_is_once z =
    (λ m. elim (Memᴰ.cases_cons m) [ inl e ↦ Memᴰ.head e | inr n ↦ n ], λ m. Memᴰ.tail m)

same_no_proxy :
    merge_no_proxy "172.30.0.1" ("a.corp" ∷ "a.corp" ∷ [])
    ≡ merge_no_proxy "172.30.0.1" ("a.corp" ∷ [])
same_no_proxy =
    merge_no_proxy_same "172.30.0.1" ("a.corp" ∷ "a.corp" ∷ []) ("a.corp" ∷ []) twice_is_once
