-- ===== src/Readiness/WellKnown/Outcomes.antt =====
-- What a sync of wellknown_ready_controller.go reports of the kube-apiservers.
use cluster_authentication_o.Base.{
  All, String, ◌<>◌, ◌≡◌, ◌↔◌, ◌⊎◌, refl, ◌∙◌, inl, inr, arith, true, false, List, [], ◌∷◌, ◌++◌,
  Error, Option, none, some, ok, has, lookup, join_errors, Bool-cases,
}
use cluster_authentication_o.Base.Int.{is_positive}
use cluster_authentication_o.Common.Conditions.{
  status_true, status_false, OperatorCondition, AppliedCondition,
}
use cluster_authentication_o.Readiness.Degradation.{Degradation, condition_name, is_degraded}
use cluster_authentication_o.Readiness.Endpoint.{
  View, plain, observed, apply_operator_status, get_oauth_metadata, check_well_known_endpoint_ready,
  error_of, metadata_error, no_oauth_metadata,
}
use cluster_authentication_o.Readiness.WellKnown.{
  check_each, outcome_of, availability_condition, degradation_of, sync, available,
  degradation_observed,
}
use cluster_authentication_o.Base.Members.{Includes}
use cluster_authentication_o.Readiness.WellKnown.Tested.{
  IsChecking, sync_for, PassesTests, sync_tests,
}
use cluster_authentication_o.Readiness.WellKnown.Serving.{
  IsServing, HasFailedLong, some_ready, every_ready, long_iff,
}
use cluster_authentication_o.Readiness.WellKnown.Checks.{
  is_ready, partial, availability_lem, all_ready_some,
}

-- Some kube-apiserver serves the metadata, and the last status does not have the same failure of the
-- others for more than five minutes.
abbrev pub IsTolerated : View → List OperatorCondition → List String → Type 0
IsTolerated v status ips =
    (e : Error) × (join_errors (check_each v ips).1 ≡ some e)
    × Includes (IsServing v) ips
    × (HasFailedLong v status e → ⊥)

IsTolerated-iff :
    (v : View) (status : List OperatorCondition) (ips : List String)
    → PassesTests v status ips ↔ IsTolerated v status ips
IsTolerated-iff v status ips = (
  λ (e, joined, ready, young). (
    e,
    joined,
    (some_ready v ips).0 ready,
    λ long. ground (arith, young, (long_iff v status e).1 long),
  ),
  λ (e, joined, ready, young). (
    e,
    joined,
    (some_ready v ips).1 ready,
    elim (Bool-cases
        (is_degraded v.text v.now (partial e) "WellKnownReadyController" (some status))) [
          | inl old ↦ absurd (young ((long_iff v status e).0 old))
          | inr not_old ↦ not_old
        ],
  ),
)

-- A sync that comes to the check of the kube-apiservers makes the requests of the checks and then
-- applies one status, of two conditions. WellKnownAvailable is True exactly where some kube-apiserver
-- serves the metadata, and the observed degradation is False exactly where all do. The sync returns no
-- error exactly where all do, or some does and the last status does not have the same failure, by its
-- reason and the text of its error, for more than five minutes. A kube-apiserver serves the metadata if
-- the config map has them, and the first of its first three requests to be answered is answered with
-- the status 200 and the same metadata.
pub sync_iff :
    (v : View) (status : List OperatorCondition) (ips : List String)
    → IsChecking v status ips
    → (c : AppliedCondition) × (d : AppliedCondition) × (e : Option Error) × (sync v ≡ (
      (check_each v ips).0 ++ apply_operator_status v.controller_instance_name (c ∷ d ∷ []) ∷ [],
      e,
    ))
      × (c.type ≡ "WellKnownAvailable")
      × (d.type ≡ "WellKnownReadyControllerDegradationObserved")
      × ((c.status ≡ status_true) ↔ Includes (IsServing v) ips)
      × ((d.status ≡ status_false) ↔ All (IsServing v) ips)
      × ((e ≡ none) ↔ (All (IsServing v) ips ⊎ IsTolerated v status ips))
unfolding condition_name
sync_iff v status ips checking =
    let (c, d, e, same, c_type, d_type, first, second, fine) = sync_tests v status ips checking in
    let ready = some_ready v ips in
    let all = every_ready v ips in
    let tolerated = IsTolerated-iff v status ips in
    (
      c,
      d,
      e,
      same,
      c_type,
      d_type,
      (λ h. ready.0 (first.0 h), λ h. first.1 (ready.1 h)),
      (λ h. all.0 (second.0 h), λ h. second.1 (all.1 h)),
      (
        λ h. elim (fine.0 h) [ inl a ↦ inl (all.0 a) | inr t ↦ inr (tolerated.0 t) ],
        λ h. fine.1 (elim h [ inl a ↦ inl (all.1 a) | inr t ↦ inr (tolerated.1 t) ]),
      ),
    )

-- The config map of the metadata is there, without the metadata.
module _ (v : View) {entries : List (String × String)} (found : v.oauth_config_map ≡ ok entries)
    (missing : lookup "oauthMetadata" entries ≡ none) where
  missing-Degradation :
      (d : Degradation) × ((get_oauth_metadata v).0 ≡ some (observed d))
      × (is_positive d.max_age ≡ true)
  unfolding get_oauth_metadata
  missing-Degradation = (no_oauth_metadata, ground (arith, found, missing), refl)

  check_fails : (ip : String) → (e : Error) × (check_well_known_endpoint_ready v ip ≡ ([], some e))
  unfolding check_well_known_endpoint_ready
  check_fails ip =
      let (d, p, age) = missing-Degradation in (metadata_error (observed d), ground (arith, p))

  each_fails : (ips : List String) → ((check_each v ips).0 ≡ []) × (has (is_ready v) ips ≡ false)
  unfolding check_each
  each_fails [] = (refl, refl)
  each_fails (ip ∷ ips) =
      let (e, p) = check_fails ip in
      let (calls, none_ready) = each_fails ips in
      (ground (arith, p, calls), ground (arith, p, none_ready))

  -- The missing metadata is an error that a controller tolerates for some time, yet a sync does not:
  -- whatever the last status has, it asks no kube-apiserver, reports at once that none is available
  -- and that it is degraded, and returns an error.
  pub missing_metadata_degrades :
      (status : List OperatorCondition) (ips : List String)
      → IsChecking v status ips
      → ((d : Degradation) × ((get_oauth_metadata v).0 ≡ some (observed d))
          × (is_positive d.max_age ≡ true))
        × ((message : String) × (e : Error) × (sync v ≡ (
          apply_operator_status v.controller_instance_name
                (available status_false "NotReady" message ∷ degradation_observed status_true ∷ [])
              ∷ [],
          some e,
        )))
  unfolding outcome_of availability_condition degradation_of error_of
  missing_metadata_degrades status ips c =
      let (calls, none_ready) = each_fails ips in
      elim (availability_lem v ips) [
        | inl (all, p) ↦ absurd (ground (arith, all_ready_some v ips c.addresses all, none_ready))
        | inr (e, p, some_fail, q) ↦ (
          missing-Degradation,
          (
            "No well-known endpoints are available: " <> v.text e,
            e,
            sync_for v status ips c false (some (plain e)) (ground (arith, q, none_ready))
                ∙ ground (arith, calls),
          ),
        )
      ]
