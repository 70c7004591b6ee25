-- ===== src/IngressState/Subsets.antt =====
-- When a sync reports that nothing is degraded.
use mathlib.Core.Path.{subst}
use cluster_authentication_o.Base.{
  String, ◌≡◌, ◌≢◌, refl, sym, ap, ◌∙◌, ◌⊎◌, ◌↔◌, inl, inr, false, List, [], ◌∷◌, Option, some,
  Error, Result, ok, err, arith, Bool-cases, List-cases, Result-cases, All, is_empty, has_suffix,
  map,
}
use cluster_authentication_o.Common.Conditions.{
  status_false, OperatorCondition, AppliedCondition, apply_operator_status, new_condition,
  default_status, apply_controller_conditions,
}
use cluster_authentication_o.IngressState.{
  Message, Reference, EndpointSubset, Endpoints, check_pod_status, endpoints_degraded, Readiness,
  has_none_ready, readiness_of, subset_with_ready_addresses, check_addresses, View, endpoints_of,
  degraded_conditions, sync_state, sync,
}
use cluster_authentication_o.IngressState.Pods.{
  IsByName, IsHealthyAddress, check_addresses-IsHealthy,
}

-- The endpoints exist and have one subset, which has an address that is ready or none that is not,
-- and the pods of its addresses are healthy.
pub record IsHealthy (view : View) (e : Endpoints) : Type 0 where
  pub subset : EndpointSubset
  pub there : is_empty e.uid ≡ false
  pub single : e.subsets ≡ subset ∷ []
  pub some_ready : (subset.addresses ≢ []) ⊎ (subset.not_ready_addresses ≡ [])
  pub pods : All (IsHealthyAddress (check_pod_status view.pods view.now)) subset.addresses

abbrev pub nothing_degraded : List AppliedCondition
nothing_degraded =
    record {
      type = "IngressStateEndpointsDegraded";
      status = status_false;
      reason = "";
      message = "";
    }
    ∷ record { type = "IngressStatePodsDegraded"; status = status_false; reason = ""; message = "" }
    ∷ []

none_ready_iff :
    (s : EndpointSubset)
    → (has_none_ready s ≡ false) ↔ ((s.addresses ≢ []) ⊎ (s.not_ready_addresses ≡ []))
unfolding has_none_ready
none_ready_iff s = elim (List-cases s.addresses) [
  | inr (x, xs, p) ↦ (λ h. inl (λ e. ground (arith, p, e)), λ h. ground (arith, p))
  | inl none_there ↦ elim (List-cases s.not_ready_addresses) [
    | inl q ↦ (λ h. inr q, λ h. ground (arith, q))
    | inr (y, ys, q) ↦ (
      λ h. absurd (ground (arith, none_there, q, h)),
      λ h. elim h [
        | inl some_there ↦ absurd (some_there none_there)
        | inr n ↦ absurd (ground (arith, q, n))
      ],
    )
  ]
]

abbrev statuses : List OperatorCondition → List AppliedCondition
statuses updated =
    map (new_condition updated) ("IngressStateEndpointsDegraded" ∷ "IngressStatePodsDegraded" ∷ [])

endpoints_reported :
    (reason message : String) → statuses (endpoints_degraded reason message ∷ []) ≢ nothing_degraded
unfolding new_condition endpoints_degraded
endpoints_reported reason message h = ground (arith, h)

no_report : statuses [] ≡ nothing_degraded
unfolding new_condition default_status has_suffix
no_report = refl

module _ (view : View) where
  abbrev check : Reference → List Message
  check = check_pod_status view.pods view.now

  pods_reported :
      (xs : List (Option Reference))
      → statuses (check_addresses view.ranged view.show_message check xs) ≡ nothing_degraded
      → check_addresses view.ranged view.show_message check xs ≡ []
  unfolding check_addresses new_condition
  pods_reported xs h = ground (arith, h)

  -- what the endpoints come to
  abbrev IsQuiet : Result Readiness → Type 0
  IsQuiet (err e) = ⊥
  IsQuiet (ok r) = statuses (degraded_conditions view r) ≡ nothing_degraded

  abbrev IsServing : EndpointSubset → Type 0
  IsServing s =
      ((s.addresses ≢ []) ⊎ (s.not_ready_addresses ≡ [])) × All (IsHealthyAddress check) s.addresses

  single-IsQuiet :
      IsByName check
      → (s : EndpointSubset) → IsQuiet (readiness_of view.show_number (s ∷ [])) ↔ IsServing s
  unfolding readiness_of degraded_conditions
  single-IsQuiet by_name s = elim (Bool-cases (has_none_ready s)) [
    | inl t ↦ rw t (
      λ q. absurd (endpoints_reported _ _ q),
      λ (ready, pods). absurd (ground (arith, t, (none_ready_iff s).1 ready)),
    )
    | inr f ↦ rw f (
      λ q. (
        (none_ready_iff s).0 f,
        (check_addresses-IsHealthy check by_name view.ranged view.show_message s.addresses).0
            (pods_reported s.addresses q),
      ),
      λ (ready, pods).
          ap statuses (
            (check_addresses-IsHealthy check by_name view.ranged view.show_message s.addresses).1
              pods)
          ∙ no_report,
    )
  ]

  subsets-IsHealthy :
      IsByName check
      → (uid : String) (ss : List EndpointSubset) → is_empty uid ≡ false
      → IsQuiet (readiness_of view.show_number ss)
        ↔ IsHealthy view (record { uid = uid; subsets = ss })
  unfolding readiness_of degraded_conditions
  subsets-IsHealthy by_name uid [] u =
      (λ q. absurd (endpoints_reported _ _ q), λ i. absurd (ground (arith, i.single)))
  subsets-IsHealthy by_name uid (s ∷ []) u = (
    λ q.
        let (ready, pods) = (single-IsQuiet by_name s).0 q in
        record { subset = s; there = u; single = refl; some_ready = ready; pods = pods },
    λ i.
        (single-IsQuiet by_name s).1
          (subst IsServing {x = i.subset} (ground (arith, i.single)) (i.some_ready, i.pods)),
  )
  subsets-IsHealthy by_name uid (s ∷ t ∷ ss) u =
      (λ q. absurd q, λ i. absurd (ground (arith, i.single)))

  readiness-IsHealthy :
      IsByName check
      → (e : Endpoints)
      → IsQuiet (subset_with_ready_addresses view.show_number (some e)) ↔ IsHealthy view e
  unfolding subset_with_ready_addresses degraded_conditions
  readiness-IsHealthy by_name e = elim (Bool-cases (is_empty e.uid)) [
    | inl t ↦
        rw t (λ q. absurd (endpoints_reported _ _ q), λ i. absurd (ground (arith, t, i.there)))
    | inr f ↦ rw f (subsets-IsHealthy by_name e.uid e.subsets f)
  ]

  applies :
      (e : Endpoints) (r : Readiness)
      → view.oidc_available ≡ ok false
      → view.endpoints ≡ ok e
      → subset_with_ready_addresses view.show_number (some e) ≡ ok r
      → (sync view).0
        ≡ apply_operator_status view.controller_instance_name
            (statuses (degraded_conditions view r))
          ∷ []
  unfolding sync sync_state endpoints_of apply_controller_conditions
  applies e r o p q = ground (arith, o, p, q)

  fails :
      (e : Endpoints) (x : Error)
      → view.oidc_available ≡ ok false
      → view.endpoints ≡ ok e
      → subset_with_ready_addresses view.show_number (some e) ≡ err x
      → (sync view).0 ≡ []
  unfolding sync sync_state endpoints_of
  fails e x o p q = ground (arith, o, p, q)

  -- Where external OIDC is not available, the endpoints can be read and the pods' getter answers by
  -- the name alone, a sync makes the one call that reports no degradation exactly where the endpoints
  -- exist and have one subset, of which an address is ready or none is not ready, and whose pods are
  -- healthy.
  pub nothing_degraded_iff :
      (e : Endpoints)
      → IsByName check
      → view.oidc_available ≡ ok false
      → view.endpoints ≡ ok e
      → ((sync view).0 ≡ apply_operator_status view.controller_instance_name nothing_degraded ∷ [])
        ↔ IsHealthy view e
  nothing_degraded_iff e by_name o p =
      elim (Result-cases (subset_with_ready_addresses view.show_number (some e))) [
        | inr (x, q) ↦ (
          λ h. absurd (ground (arith, fails e x o p q, h)),
          λ i. absurd (subst IsQuiet q ((readiness-IsHealthy by_name e).1 i)),
        )
        | inl (r, q) ↦ (
          λ h.
              (readiness-IsHealthy by_name e).0
                (subst IsQuiet (sym q) (ground (arith, applies e r o p q, h))),
          λ i.
              applies e r o p q
              ∙ ap (λ cs. apply_operator_status view.controller_instance_name cs ∷ [])
                  (subst IsQuiet q ((readiness-IsHealthy by_name e).1 i)),
        )
      ]
