-- ===== src/Readiness/WellKnown/Tested.antt =====
-- What a sync of wellknown_ready_controller.go reports, by the tests that the model makes.
use cluster_authentication_o.Base.{
  String, ◌<>◌, ◌≡◌, ◌↔◌, ◌⊎◌, refl, ap, ◌∙◌, inl, inr, arith, Bool, true, false, List, [], ◌∷◌,
  ◌++◌, Error, Option, none, some, ok, has, length, is_empty, join_errors, Bool-cases,
}
use cluster_authentication_o.Generation.Types.{AuthenticationType}
use cluster_authentication_o.Common.Conditions.{
  status_true, status_false, OperatorCondition, AppliedCondition,
}
use cluster_authentication_o.Readiness.Degradation.{condition_name, to_condition, is_degraded}
use cluster_authentication_o.Readiness.Endpoint.{
  View, Fault, plain, observed, apply_operator_status, error_of,
}
use cluster_authentication_o.Readiness.WellKnown.{
  check_each, is_operator_managed_metadata, addresses_of, availability_of,
  is_well_known_endpoints_ready, outcome_of, availability_condition, degradation_of, sync_checks,
  sync_status, sync, available, degradation_observed,
}
use cluster_authentication_o.Base.Members.{every}
use cluster_authentication_o.Readiness.WellKnown.Serving.{some_ready}
use cluster_authentication_o.Readiness.WellKnown.Checks.{
  is_ready, partial, availability_lem, all_ready_some,
}

-- What the sync needs to come to the check of the kube-apiservers, at the addresses.
pub record IsChecking (v : View) (status : List OperatorCondition) (ips : List String)
    : Type 0 where
  pub type : AuthenticationType
  pub user_metadata : String
  pub state : v.operator_state ≡ ok status
  pub authentication : v.authentication ≡ ok (type, user_metadata)
  pub managed : is_operator_managed_metadata type ≡ true
  pub no_user_metadata : is_empty user_metadata ≡ true
  pub infrastructure : v.infrastructure ≡ ok tt
  pub no_oidc : v.oidc_available ≡ ok false
  pub route : v.route ≡ ok tt
  pub addresses : addresses_of v ≡ ok ips

sync_lem :
    (v : View) (status : List OperatorCondition) (ips : List String)
    → IsChecking v status ips
    → let (calls, errs) = check_each v ips in
      let (avail, fault) = availability_of errs (length ips) in
      let (conditions, e) = outcome_of v status avail fault in
      sync v ≡ (calls ++ apply_operator_status v.controller_instance_name conditions ∷ [], e)
unfolding sync sync_status sync_checks is_well_known_endpoints_ready
sync_lem v status ips c = ground (
  arith, c.state, c.authentication, c.managed, c.no_user_metadata, c.infrastructure, c.no_oidc,
  c.route, c.addresses,
)

pub sync_for :
    (v : View) (status : List OperatorCondition) (ips : List String)
    → IsChecking v status ips
    → (avail : Bool) (fault : Option Fault)
    → availability_of (check_each v ips).1 (length ips) ≡ (avail, fault)
    → let (conditions, e) = outcome_of v status avail fault in
      sync v ≡ (
        (check_each v ips).0 ++ apply_operator_status v.controller_instance_name conditions ∷ [],
        e,
      )
sync_for v status ips c avail fault q =
    sync_lem v status ips c
    ∙ ap
        (λ (o : Bool × Option Fault).
          let (conditions, e) = outcome_of v status o.0 o.1 in
          (
            (check_each v ips).0
                ++ apply_operator_status v.controller_instance_name conditions ∷ [],
            e,
          ))
        q

-- Some address is ready, and the same failure of the others is not yet too old, as tests of the model.
abbrev pub PassesTests : View → List OperatorCondition → List String → Type 0
PassesTests v status ips =
    (e : Error) × (join_errors (check_each v ips).1 ≡ some e)
    × (has (is_ready v) ips ≡ true)
    × (is_degraded v.text v.now (partial e) "WellKnownReadyController" (some status) ≡ false)

pub sync_tests :
    (v : View) (status : List OperatorCondition) (ips : List String)
    → IsChecking v status ips
    → (c : AppliedCondition) × (d : AppliedCondition) × (e : Option Error) × (sync v ≡ (
      (check_each v ips).0 ++ apply_operator_status v.controller_instance_name (c ∷ d ∷ []) ∷ [],
      e,
    ))
      × (c.type ≡ "WellKnownAvailable")
      × (d.type ≡ condition_name "WellKnownReadyController")
      × ((c.status ≡ status_true) ↔ (has (is_ready v) ips ≡ true))
      × ((d.status ≡ status_false) ↔ (every (is_ready v) ips ≡ true))
      × ((e ≡ none) ↔ ((every (is_ready v) ips ≡ true) ⊎ PassesTests v status ips))
unfolding outcome_of availability_condition degradation_of to_condition error_of
sync_tests v status ips c = elim (availability_lem v ips) [
  | inl (all, p) ↦ (
    available status_true "AsExpected" "",
    degradation_observed status_false,
    none,
    sync_for v status ips c true none p,
    refl,
    refl,
    (λ h. all_ready_some v ips c.addresses all, λ h. refl),
    (λ h. all, λ h. refl),
    (λ h. inl all, λ h. refl),
  )
  | inr (e, p, some_fail, q) ↦ elim (Bool-cases (has (is_ready v) ips)) [
    | inr none_ready ↦ (
      available status_false "NotReady" ("No well-known endpoints are available: " <> v.text e),
      degradation_observed status_true,
      some e,
      sync_for v status ips c false (some (plain e)) (ground (arith, q, none_ready)),
      refl,
      refl,
      (λ h. ground (arith, h), λ h. ground (arith, h, none_ready)),
      (λ h. ground (arith, h), λ h. ground (arith, h, some_fail)),
      (
        λ h. ground (arith, h),
        λ h. elim h [
          | inl all ↦ ground (arith, all, some_fail)
          | inr (x, r, some_ready, young) ↦ ground (arith, some_ready, none_ready)
        ],
      ),
    )
    | inl some_ready ↦
        elim (Bool-cases
          (is_degraded v.text v.now (partial e) "WellKnownReadyController" (some status))) [
            | inl old ↦ (
              available status_true "AtLeastOneWellKnownEndpointAvailable" "",
              degradation_observed status_true,
              some e,
              ground (
                arith,
                sync_for v status ips c true (some (observed (partial e)))
                    (ground (arith, q, some_ready)),
                old,
              ),
              refl,
              refl,
              (λ h. some_ready, λ h. refl),
              (λ h. ground (arith, h), λ h. ground (arith, h, some_fail)),
              (
                λ h. ground (arith, h),
                λ h. elim h [
                  | inl all ↦ ground (arith, all, some_fail)
                  | inr (x, r, any, young) ↦ ground (arith, p, r, old, young)
                ],
              ),
            )
            | inr young ↦ (
              available status_true "AtLeastOneWellKnownEndpointAvailable" "",
              to_condition v.text (partial e) "WellKnownReadyController",
              none,
              ground (
                arith,
                sync_for v status ips c true (some (observed (partial e)))
                    (ground (arith, q, some_ready)),
                young,
              ),
              refl,
              refl,
              (λ h. some_ready, λ h. refl),
              (λ h. ground (arith, h), λ h. ground (arith, h, some_fail)),
              (λ h. inr (e, p, some_ready, young), λ h. refl),
            )
          ]
  ]
]
