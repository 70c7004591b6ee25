-- ===== src/CustomRoute/Ageing.antt =====
-- The age test of the conditions of the route, in custom_route_conditions.go.
use cluster_authentication_o.Base.{
  ℕ, ◌≡◌, refl, false, List, [], ◌∷◌, none, some, ok, err, arith, Option-cases, Result-cases, inl,
  inr, ◌⊎◌, Error,
}
use cluster_authentication_o.Common.IngressConfig.{Condition, Ingress, get_component_route_status}
use cluster_authentication_o.CustomRoute.Conditions.{
  Route, Env, not_admitted, unreachable, find_condition, default_condition, is_aged,
  degrade_if_time_elapsed, max_age, aged_condition, check_ingress_uri, route_availability,
  check_route_availability, ensure_condition, ensure_default_conditions,
  check_errors_configuring_custom_route,
}
use cluster_authentication_o.CustomRoute.Controller.{first_report, new_conditions}

never_aged : (existing condition : Condition) (m : ℕ) → is_aged existing condition m ≡ false
unfolding is_aged
never_aged existing condition m = ground arith

pub degrade_if_time_elapsed_lem :
    (cs : List Condition) (condition : Condition) (m : ℕ)
    → degrade_if_time_elapsed cs condition m ≡ condition
unfolding degrade_if_time_elapsed
degrade_if_time_elapsed_lem [] condition m = refl
degrade_if_time_elapsed_lem (e ∷ cs) condition m =
    rw (never_aged e condition m) (degrade_if_time_elapsed_lem cs condition m)

pub aged_condition_lem : (ingress : Ingress) (c : Condition) → aged_condition ingress c ≡ c
unfolding aged_condition
aged_condition_lem ingress c =
    elim (Option-cases
      (get_component_route_status ingress "openshift-authentication" "oauth-openshift")) [
        | inl n ↦ ground (arith, n)
        | inr (r, p) ↦ ground (arith, p, degrade_if_time_elapsed_lem r.conditions c max_age)
      ]

module _ (env : Env) (ingress : Ingress) (route : Route) where
  admission_report :
      (e : Error)
      → env.ingress_uri route ≡ some e
      → check_ingress_uri env ingress route ≡ not_admitted env e ∷ []
  unfolding check_ingress_uri
  admission_report e p = ground (arith, p, aged_condition_lem ingress (not_admitted env e))

  no_admission_report : env.ingress_uri route ≡ none → check_ingress_uri env ingress route ≡ []
  unfolding check_ingress_uri
  no_admission_report p = ground (arith, p)

  availability_report :
      (e : Error)
      → route_availability env route.host ingress ≡ err e
      → check_route_availability env ingress route ≡ unreachable env route e ∷ []
  unfolding check_route_availability
  availability_report e p = ground (arith, p, aged_condition_lem ingress (unreachable env route e))

  no_availability_report :
      route_availability env route.host ingress ≡ ok tt
      → check_route_availability env ingress route ≡ []
  unfolding check_route_availability
  no_availability_report p = ground (arith, p)

  defaults_behind :
      (c : Condition)
      → c.type ≡ "Progressing"
      → ensure_default_conditions env (c ∷ []) ≡ c ∷ default_condition env "Degraded" ∷ []
  unfolding ensure_default_conditions ensure_condition find_condition
  defaults_behind c p = rw p refl

  defaults_alone :
      ensure_default_conditions env []
      ≡ default_condition env "Progressing" ∷ default_condition env "Degraded" ∷ []
  unfolding ensure_default_conditions ensure_condition find_condition
  defaults_alone = refl

  -- the three reports of a route whose configuration has no errors
  pub new_conditions-cases :
      ((e : Error) × (env.ingress_uri route ≡ some e)
        × (new_conditions env ingress route []
            ≡ not_admitted env e ∷ default_condition env "Degraded" ∷ []))
      ⊎ ((env.ingress_uri route ≡ none)
          × (e : Error) × (route_availability env route.host ingress ≡ err e)
          × (new_conditions env ingress route []
              ≡ unreachable env route e ∷ default_condition env "Degraded" ∷ []))
      ⊎ ((env.ingress_uri route ≡ none)
          × (route_availability env route.host ingress ≡ ok tt)
          × (new_conditions env ingress route []
              ≡ default_condition env "Progressing" ∷ default_condition env "Degraded" ∷ []))
  unfolding new_conditions first_report check_errors_configuring_custom_route
  new_conditions-cases = elim (Option-cases (env.ingress_uri route)) [
    | inr (e, p) ↦ inl (e, p, rw (admission_report e p) (defaults_behind (not_admitted env e) refl))
    | inl n ↦ elim (Result-cases (route_availability env route.host ingress)) [
      | inr (e, p) ↦ inr (
          inl (
            n,
            e,
            p,
            rw (no_admission_report n, availability_report e p)
                (defaults_behind (unreachable env route e) refl),
          ))
      | inl (u, p) ↦
          inr (inr (n, p, rw (no_admission_report n, no_availability_report p) defaults_alone))
    ]
  ]

  -- Whatever conditions the ingress has, and however old they are: where the configuration of the
  -- route has no errors, the new conditions report no degradation, also where the route is not
  -- admitted or does not answer.
  pub never_degraded :
      find_condition (new_conditions env ingress route []) "Degraded"
      ≡ some (default_condition env "Degraded")
  unfolding find_condition
  never_degraded = elim new_conditions-cases [
    | inl (e, p, c) ↦ rw c refl
    | inr (inl (n, e, p, c)) ↦ rw c refl
    | inr (inr (n, p, c)) ↦ rw c refl
  ]
