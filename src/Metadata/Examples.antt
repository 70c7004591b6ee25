-- ===== src/Metadata/Examples.antt =====
-- A route that serves a host, while the API server refuses the update of the reference.
use cluster_authentication_o.Base.{
  ◌≡◌, ◌↔◌, refl, true, false, List, [], ◌∷◌, ◌++◌, Result, ok, err, failure, has,
}
use cluster_authentication_o.Common.Conditions.{AppliedCondition, apply_operator_status}
use cluster_authentication_o.Metadata.{
  View, Call, apply_config_map, update_status, delete_config_map, status, sync,
}
use cluster_authentication_o.Metadata.Reported.{is_true, metadata_fails, first_host, reported_iff}

abbrev refuse_updates : Call → Result (Unit {0})
refuse_updates (apply_config_map m) = ok tt
refuse_updates (update_status name) = err (failure "conflict")
refuse_updates (delete_config_map name) = ok tt
refuse_updates (status c) = ok tt

abbrev view : View
view = record {
  controller_instance_name = "openshift-authentication-Metadata";
  text = λ e. "an error";
  oidc_available = ok false;
  route = ok ("oauth.example.com" ∷ []);
  metadata_config_map = ok tt;
  integrated_oauth_metadata = ok "";
  server = refuse_updates;
}

reported_iff_example :
    (calls : List Call) × (cs : List AppliedCondition) × (let c =
        status (apply_operator_status "openshift-authentication-Metadata" cs) in
      sync view ≡ (calls ++ c ∷ [], view.server c))
    × ((has is_true cs ≡ true) ↔ (metadata_fails view (first_host view.route) ≡ true))
reported_iff_example = reported_iff view refl

fails : metadata_fails view (first_host view.route) ≡ true
fails = refl
