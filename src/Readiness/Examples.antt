-- ===== src/Readiness/Examples.antt =====
-- Two kube-apiservers, of which the second does not serve the metadata yet.
use cluster_authentication_o.Base.{
  All, ℕ, suc, ◌<◌, String, ◌≡◌, ◌↔◌, ◌⊎◌, refl, true, false, Option, none, some, Error, failure,
  ok, err, List, [], ◌∷◌, ◌++◌, ◌==◌, if◌then◌else◌, eqb, ◌&&◌, has_part,
}
use cluster_authentication_o.Base.Int.{is_positive}
use cluster_authentication_o.Generation.Types.{integrated_oauth}
use cluster_authentication_o.Common.Conditions.{status_true, status_false, AppliedCondition}
use cluster_authentication_o.Readiness.Degradation.{Degradation}
use cluster_authentication_o.Readiness.Override.{
  Readers, other_topology, string_value, get_expected_minimum_number_of_masters,
  is_unsupported_unsafe_authentication, config_json, parse_bool,
}
use cluster_authentication_o.Readiness.Addresses.{
  ApiServers, get_api_server_ips, get_kas_target_port_from_service, is_kas_port, ips_from, ips_of,
  subset_has_kas_target_port, is_subset_ready, join_host_port,
}
use cluster_authentication_o.Readiness.Endpoint.{
  View, Response, apply_operator_status, observed, attempts, attempt, get_oauth_metadata,
}
use cluster_authentication_o.Readiness.WellKnown.{
  check_each, addresses_of, is_operator_managed_metadata, sync, available, degradation_observed,
}
use cluster_authentication_o.Readiness.WellKnown.Attempts.{
  gets, answer_of, FailedBefore, attempts_end,
}
use cluster_authentication_o.Base.Members.{Includes}
use cluster_authentication_o.Readiness.WellKnown.Serving.{IsServing}
use cluster_authentication_o.Readiness.WellKnown.Tested.{IsChecking}
use cluster_authentication_o.Readiness.WellKnown.Outcomes.{
  IsTolerated, sync_iff, missing_metadata_degrades,
}

abbrev servers : ApiServers
servers = record {
  kas_service_port = 443;
  show = λ n. "6443";
  service = ok (record { target_port = 6443; tcp = true; port = 443 } ∷ []);
  endpoints = ok (
      record {
        ports = record { tcp = true; port = 6443 } ∷ [];
        addresses = "10.0.0.1" ∷ "fd00::2" ∷ [];
        not_ready_addresses = [];
      }
      ∷ []);
}

abbrev view_of : List (String × String) → View
view_of entries = record {
  controller_instance_name = "openshift-authentication-WellKnownReady";
  text = λ e. "an error";
  now = 1000000000000;
  network_errors = record {
    is_connection_refused = λ e. false;
    is_no_routes = λ e. false;
    is_connection_reset = λ e. false;
    is_probable_eof = λ e. false;
    is_server_timeout = λ e. false;
    is_too_many_requests = λ e. false;
  };
  operator_state = ok [];
  authentication = ok (integrated_oauth, "");
  infrastructure = ok tt;
  oidc_available = ok false;
  route = ok tt;
  ca_data = ok "ca";
  transport_for = λ ca. ok tt;
  api_servers = servers;
  oauth_config_map = ok entries;
  unmarshal = λ json. ok json;
  new_request = λ url. ok tt;
  round_trip = λ url i.
      if url == "https://10.0.0.1:6443/.well-known/oauth-authorization-server" && eqb i 1
      then ok (record { status_code = 200; body = ok "metadata" })
      else err (failure "connection refused");
  apply_status = λ name conditions. ok tt;
}

abbrev view : View
view = view_of (("oauthMetadata", "metadata") ∷ [])

abbrev url : String
url = "https://10.0.0.1:6443/.well-known/oauth-authorization-server"

attempts_end_example :
    (n : ℕ) × (n < 3)
    × (attempts view url ≡ (gets url (suc n), answer_of view url n))
    × FailedBefore view url n
    × ((n ≡ 2) ⊎ ((resp : Response) × (view.round_trip url n ≡ ok resp)))
attempts_end_example = attempts_end view url

second_answers :
    attempts view url ≡ (gets url 2, ok (record { status_code = 200; body = ok "metadata" }))
unfolding attempts attempt
second_answers = refl

abbrev ips : List String
ips = "10.0.0.1:6443" ∷ "[fd00::2]:6443" ∷ []

finds_addresses : get_api_server_ips servers ≡ ok ips
unfolding get_api_server_ips get_kas_target_port_from_service is_kas_port ips_from ips_of
    subset_has_kas_target_port is_subset_ready join_host_port has_part
finds_addresses = refl

checking : (entries : List (String × String)) → IsChecking (view_of entries) [] ips
unfolding addresses_of is_operator_managed_metadata get_api_server_ips
    get_kas_target_port_from_service is_kas_port ips_from ips_of subset_has_kas_target_port
    is_subset_ready join_host_port has_part
checking entries = record {
  type = integrated_oauth;
  user_metadata = "";
  state = refl;
  authentication = refl;
  managed = refl;
  no_user_metadata = refl;
  infrastructure = refl;
  no_oidc = refl;
  route = refl;
  addresses = refl;
}

sync_iff_example :
    (c : AppliedCondition) × (d : AppliedCondition) × (e : Option Error) × (sync view ≡ (
      (check_each view ips).0
          ++ apply_operator_status "openshift-authentication-WellKnownReady" (c ∷ d ∷ []) ∷ [],
      e,
    ))
    × (c.type ≡ "WellKnownAvailable")
    × (d.type ≡ "WellKnownReadyControllerDegradationObserved")
    × ((c.status ≡ status_true) ↔ Includes (IsServing view) ips)
    × ((d.status ≡ status_false) ↔ All (IsServing view) ips)
    × ((e ≡ none) ↔ (All (IsServing view) ips ⊎ IsTolerated view [] ips))
sync_iff_example = sync_iff view [] ips (checking (("oauthMetadata", "metadata") ∷ []))

missing_metadata_degrades_example :
    ((d : Degradation) × ((get_oauth_metadata (view_of [])).0 ≡ some (observed d))
      × (is_positive d.max_age ≡ true))
    × ((message : String) × (e : Error) × (sync (view_of []) ≡ (
      apply_operator_status "openshift-authentication-WellKnownReady"
            (available status_false "NotReady" message ∷ degradation_observed status_true ∷ [])
          ∷ [],
      some e,
    )))
missing_metadata_degrades_example =
    missing_metadata_degrades (view_of []) {entries = []} refl refl [] ips (checking [])

-- a text that is no boolean is an error, which counts as no override
abbrev readers : Readers
readers = record {
  to_json = λ y. err (failure "yaml");
  decode =
      λ j. ok (("useUnsupportedUnsafeNonHANonProductionUnstableOAuthServer", string_value j) ∷ []);
}

three_masters :
    get_expected_minimum_number_of_masters readers (some "yes") (other_topology "HighlyAvailable")
    ≡ 3
unfolding get_expected_minimum_number_of_masters is_unsupported_unsafe_authentication config_json
    parse_bool
three_masters = refl
