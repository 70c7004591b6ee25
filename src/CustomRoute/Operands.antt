-- ===== src/CustomRoute/Operands.antt =====
-- Which calls a sync of the route makes: what it creates, updates, reports and deletes.
use cluster_authentication_o.Base.{
  String, ◌≡◌, refl, ◌⊎◌, inl, inr, true, false, not, ◌||◌, List, [], ◌∷◌, ◌++◌, Option, none, some,
  Error, context, Result, ok, err, arith, Result-cases, Bool-cases, All, is_not_found, ◌==◌, ◌<>◌,
}
use cluster_authentication_o.Base.AllCalls.{All-bind}
use cluster_authentication_o.Base.Calls.{lift}
use cluster_authentication_o.Common.IngressConfig.{
  Ingress, ComponentRouteSpec, ComponentRouteStatus, get_component_route_spec,
}
use cluster_authentication_o.CustomRoute.Conditions.{Route}
use cluster_authentication_o.CustomRoute.Controller.{
  Call, create_route, update_route, delete_route, apply_status, apply_statuses, sync_secret, View,
  Expected, expected, invalid, validate_custom_tls_secret, get_oauth_route_and_secret_name,
  apply_route, update_live, same_spec, update_ingress_config_status, sync_secret_of, remove_route,
  remove_operands, remove_status, has_route, sync_expected, sync, override, error_list,
  parse_errors,
}

-- The route's host is the default one, or the host of the cluster's specification, which parses and
-- comes with a valid secret.
abbrev pub IsAllowedHost : View → Ingress → String → Type 0
IsAllowedHost view ingress host =
    (host ≡ "oauth-openshift." <> ingress.domain)
    ⊎ ((spec : ComponentRouteSpec) × (get_component_route_spec ingress "openshift-authentication"
            "oauth-openshift"
          ≡ some spec)
        × (host ≡ spec.hostname)
        × (view.env.parse_url spec.hostname ≡ none)
        × (validate_custom_tls_secret view.env spec.serving_cert_key_pair_secret ≡ ok tt))

-- What each call rests on.
abbrev pub IsAllowed : View → Ingress → Call → Type 0
IsAllowed view ingress (create_route r) =
    (view.oidc_available ≡ ok false) × IsAllowedHost view ingress r.host
IsAllowed view ingress (update_route r) =
    (view.oidc_available ≡ ok false) × IsAllowedHost view ingress r.host
IsAllowed view ingress delete_route = view.oidc_available ≡ ok true
IsAllowed view ingress (apply_status s) = view.oidc_available ≡ ok false
IsAllowed view ingress (apply_statuses rs) = view.oidc_available ≡ ok true
IsAllowed view ingress (sync_secret none) = Unit
IsAllowed view ingress (sync_secret (some name)) =
    (view.oidc_available ≡ ok false) × (validate_custom_tls_secret view.env name ≡ ok tt)

module _ (view : View) (ingress : Ingress) where
  abbrev IsGood : Expected → Type 0
  IsGood (expected route name) =
      IsAllowedHost view ingress route.host × (validate_custom_tls_secret view.env name ≡ ok tt)
  IsGood (invalid e es) = Unit

  no_secret : validate_custom_tls_secret view.env "" ≡ ok tt
  unfolding validate_custom_tls_secret
  no_secret = refl

  override-IsGood :
      (route : Route) (spec : ComponentRouteSpec)
      → get_component_route_spec ingress "openshift-authentication" "oauth-openshift" ≡ some spec
      → (v : Result (Unit {0}))
      → validate_custom_tls_secret view.env spec.serving_cert_key_pair_secret ≡ v
      → (u : Option Error) → view.env.parse_url spec.hostname ≡ u
      → IsGood (override route spec (error_list v ++ parse_errors u))
  unfolding override error_list parse_errors
  override-IsGood route spec s (ok x) v none u = (inr (spec, s, refl, u, v), v)
  override-IsGood route spec s (ok x) v (some e) u = tt
  override-IsGood route spec s (err e) v u q = tt

  expected-IsGood : IsGood (get_oauth_route_and_secret_name view ingress)
  unfolding get_oauth_route_and_secret_name
  expected-IsGood =
      go (get_component_route_spec ingress "openshift-authentication" "oauth-openshift") refl
    where
      go :
          (o : Option ComponentRouteSpec)
          → get_component_route_spec ingress "openshift-authentication" "oauth-openshift" ≡ o
          → IsGood (elim o [
            | none ↦
                expected
                  (record (view.asset_route) { host = "oauth-openshift." <> ingress.domain })
                  ""
            | some spec ↦
                override
                  (record (view.asset_route) { host = "oauth-openshift." <> ingress.domain })
                  spec
                  (error_list
                      (validate_custom_tls_secret view.env spec.serving_cert_key_pair_secret)
                    ++ parse_errors (view.env.parse_url spec.hostname))
          ])
      go none s = (inl refl, no_secret)
      go (some spec) s =
          override-IsGood
            (record (view.asset_route) { host = "oauth-openshift." <> ingress.domain }) spec s
            (validate_custom_tls_secret view.env spec.serving_cert_key_pair_secret) refl
            (view.env.parse_url spec.hostname) refl

  abbrev AllAllowed : List Call → Type 0
  AllAllowed = All (IsAllowed view ingress)

  update_allowed :
      (route live : Route)
      → view.oidc_available ≡ ok false
      → IsAllowedHost view ingress route.host
      → AllAllowed (update_live view route live).0
  unfolding update_live
  update_allowed route live o host =
      elim (Bool-cases
        ((view.ensure_object_meta live.metadata route.metadata).0 || not (same_spec live route))) [
          | inl t ↦ rw t ((o, host), tt)
          | inr f ↦ rw f tt
        ]

  updates :
      (route live : Route)
      → view.live_route ≡ ok live
      → apply_route view route ≡ update_live view route live
  unfolding apply_route
  updates route live p = ground (arith, p)

  apply_allowed :
      (route : Route)
      → view.oidc_available ≡ ok false
      → IsAllowedHost view ingress route.host
      → AllAllowed (apply_route view route).0
  unfolding apply_route
  apply_allowed route o host = elim (Result-cases view.live_route) [
    | inr (e, p) ↦ elim (Bool-cases (is_not_found e)) [
      | inl t ↦ rw (p, t) ((o, host), tt)
      | inr f ↦ rw (p, f) tt
    ]
    | inl (live, p) ↦ rw (updates route live p) (update_allowed route live o host)
  ]

  status_allowed :
      (errors : List Error)
      → view.oidc_available ≡ ok false
      → AllAllowed (update_ingress_config_status view ingress errors).0
  unfolding update_ingress_config_status
  status_allowed errors o = elim (Result-cases view.listed_route) [
    | inr (e, p) ↦ rw p tt
    | inl (r, p) ↦ rw p (o, tt)
  ]

  secret_allowed :
      (name : String)
      → view.oidc_available ≡ ok false
      → validate_custom_tls_secret view.env name ≡ ok tt
      → AllAllowed (sync_secret_of view name).0
  unfolding sync_secret_of
  secret_allowed name o v = elim (Bool-cases (name == "")) [
    | inl t ↦ rw t (tt, tt)
    | inr f ↦ rw f ((o, v), tt)
  ]

  sync_expected_allowed :
      (x : Expected)
      → view.oidc_available ≡ ok false
      → IsGood x
      → AllAllowed (sync_expected view ingress x).0
  unfolding sync_expected
  sync_expected_allowed (invalid e es) o g = status_allowed (e ∷ es) o
  sync_expected_allowed (expected route name) o g =
      All-bind (IsAllowed view ingress) (apply_route view route) _ (apply_allowed route o g.0)
        (λ _ _.
          All-bind (IsAllowed view ingress) (update_ingress_config_status view ingress []) _
            (status_allowed [] o) (λ _ _. secret_allowed name o g.1))

  remove_route_allowed : view.oidc_available ≡ ok true → AllAllowed (remove_route view).0
  unfolding remove_route
  remove_route_allowed o = elim (Result-cases view.listed_route) [
    | inl (r, p) ↦ rw p (o, tt)
    | inr (e, p) ↦ elim (Bool-cases (is_not_found e)) [
      | inl t ↦ rw (p, t) tt
      | inr f ↦ rw (p, f) tt
    ]
  ]

  remove_status_allowed :
      (owned : Option (List ComponentRouteStatus))
      → view.oidc_available ≡ ok true
      → AllAllowed (remove_status view owned).0
  unfolding remove_status
  remove_status_allowed none o = tt
  remove_status_allowed (some rs) o = elim (Bool-cases (has_route view rs)) [
    | inl t ↦ rw t (o, tt)
    | inr f ↦ rw f tt
  ]

  remove_operands_allowed : view.oidc_available ≡ ok true → AllAllowed (remove_operands view).0
  unfolding remove_operands sync_secret_of
  remove_operands_allowed o =
      All-bind (IsAllowed view ingress) (remove_route view) _ (remove_route_allowed o) (λ _ _.
        All-bind (IsAllowed view ingress)
          (lift (
            context "extracting ingress status apply configuration from ingress config: %v" []
              view.extracted))
          _ tt
          (λ owned _.
            All-bind (IsAllowed view ingress) (remove_status view owned) _
              (remove_status_allowed owned o) (λ _ _. (tt, tt))))

  pub removes :
      view.ingress ≡ ok ingress → view.oidc_available ≡ ok true → sync view ≡ remove_operands view
  unfolding sync
  removes i o = ground (arith, i, o)

  pub configures :
      view.ingress ≡ ok ingress
      → view.oidc_available ≡ ok false
      → sync view ≡ sync_expected view ingress (get_oauth_route_and_secret_name view ingress)
  unfolding sync
  configures i o = ground (arith, i, o)

  -- Each call of a sync is allowed, where the lister has the ingress: a route is created or updated
  -- only while external OIDC is not available, with the default host or with the host of the
  -- specification, which then parses and comes with a valid secret; a named secret is synced only if
  -- it is valid; the route is deleted only while external OIDC is available.
  pub sync-IsAllowed : view.ingress ≡ ok ingress → All (IsAllowed view ingress) (sync view).0
  unfolding sync
  sync-IsAllowed i = elim (Result-cases view.oidc_available) [
    | inr (e, o) ↦ rw (i, o) tt
    | inl (true, o) ↦ rw (removes i o) (remove_operands_allowed o)
    | inl (false, o) ↦
        rw (configures i o)
          (sync_expected_allowed (get_oauth_route_and_secret_name view ingress) o expected-IsGood)
  ]
