-- ===== src/CustomRoute/Failures.antt =====
-- What a sync of the route does where the configuration of the route is not valid.
use cluster_authentication_o.Base.{
  String, ◌≡◌, refl, Bool, true, false, List, [], ◌∷◌, Option, none, some, Error, wrapf, ok, err,
  arith, Option-cases, Bool-cases, inl, inr, ◌∙◌, ◌<>◌,
}
use cluster_authentication_o.Common.IngressConfig.{
  Condition, Ingress, ComponentRouteStatus, get_component_route_status,
}
use cluster_authentication_o.CustomRoute.Conditions.{
  Route, find_condition, check_errors_configuring_custom_route, ensure_default_conditions,
  ensure_condition,
}
use cluster_authentication_o.CustomRoute.Controller.{
  apply_status, View, RouteStatus, invalid, all_errors, get_oauth_route_and_secret_name,
  update_ingress_config_status, sync_expected, sync, new_conditions, first_report, keep_time,
  keep_times, same_status,
}
use cluster_authentication_o.CustomRoute.Operands.{configures}

abbrev pub statuses : List Condition → List (String × Bool)
statuses [] = []
statuses (c ∷ cs) = (c.type, c.status) ∷ statuses cs

keep_time_lem :
    (old : List Condition) (c : Condition)
    → ((keep_time old c).type ≡ c.type) × ((keep_time old c).status ≡ c.status)
unfolding keep_time
keep_time_lem old c = elim (Option-cases (find_condition old c.type)) [
  | inl n ↦ ground (arith, n)
  | inr (o, p) ↦ elim (Bool-cases (same_status c.status o.status)) [
    | inl t ↦ ground (arith, p, t)
    | inr f ↦ ground (arith, p, f)
  ]
]

-- The times that are kept change no type and no status.
pub statuses-keep_times :
    (r : Option ComponentRouteStatus) (cs : List Condition)
    → statuses (keep_times r cs) ≡ statuses cs
unfolding keep_times
statuses-keep_times none cs = refl
statuses-keep_times (some r) [] = refl
statuses-keep_times (some r) (c ∷ cs) =
    ground (arith, keep_time_lem r.conditions c, statuses-keep_times (some r) cs)

module _ (view : View) (ingress : Ingress) (route : Route) where
  invalid_status :
      (e : Error) (es : List Error)
      → statuses (new_conditions view.env ingress route (e ∷ es))
        ≡ ("Degraded", true) ∷ ("Progressing", false) ∷ []
  unfolding new_conditions first_report check_errors_configuring_custom_route
      ensure_default_conditions ensure_condition find_condition
  invalid_status e es = refl

  abbrev reported : Error → List Error → RouteStatus
  reported e es = record {
    namespace = view.namespace;
    name = view.name;
    default_hostname = "oauth-openshift." <> ingress.domain;
    current_hostname = route.host;
    conditions =
        keep_times (get_component_route_status ingress view.namespace view.name)
          (new_conditions view.env ingress route (e ∷ es));
  }

  reports :
      (e : Error) (es : List Error)
      → view.listed_route ≡ ok route
      → (update_ingress_config_status view ingress (e ∷ es)).0 ≡ apply_status (reported e es) ∷ []
  unfolding update_ingress_config_status
  reports e es r = ground (arith, r)

  -- Where external OIDC is not available and the configuration of the route is not valid, a sync
  -- whose lister has the route makes one call and fails with all the errors of the configuration: it
  -- applies a status with the host that the route has, degraded and not progressing, and neither the
  -- route nor the secret is touched.
  pub invalid_reported :
      (e : Error) (es : List Error)
      → view.ingress ≡ ok ingress
      → view.oidc_available ≡ ok false
      → get_oauth_route_and_secret_name view ingress ≡ invalid e es
      → view.listed_route ≡ ok route
      → (s : RouteStatus) × ((sync view).0 ≡ apply_status s ∷ [])
        × (s.current_hostname ≡ route.host)
        × (statuses s.conditions ≡ ("Degraded", true) ∷ ("Progressing", false) ∷ [])
        × ((sync view).1
            ≡ err (wrapf "custom route configuration failed verification: %v" [] (all_errors e es)))
  unfolding sync_expected
  invalid_reported e es i o x r = (
    reported e es,
    rw (configures view ingress i o, x) (reports e es r),
    refl,
    statuses-keep_times (get_component_route_status ingress view.namespace view.name)
          (new_conditions view.env ingress route (e ∷ es))
        ∙ invalid_status e es,
    rw (configures view ingress i o, x) refl,
  )
