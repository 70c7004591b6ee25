-- ===== src/CustomRoute/Controller.antt =====
-- pkg/controllers/customroute/custom_route_controller.go: the sync of the route, of the status of
-- the ingress and of the secret.
use cluster_authentication_o.Base.{
  joined, String, Bool, true, false, not, ◌&&◌, ◌||◌, ◌==◌, List, [], ◌∷◌, ◌++◌, map, Option, none,
  some, Error, errorf, wrapf, join_errors, Result, ok, err, context, is_not_found, lookup,
  if◌then◌else◌, ◌<>◌,
}
use cluster_authentication_o.Base.Calls.{Run, lift, pure, fail, call, call_context, ◌>>=◌, ◌>>◌}
use cluster_authentication_o.Common.IngressConfig.{
  Condition, Ingress, ComponentRouteSpec, ComponentRouteStatus, get_component_route_spec,
  get_component_route_status,
}
use cluster_authentication_o.DataSync.Validation.{validate_private_key, validate_server_cert}
use cluster_authentication_o.CustomRoute.Conditions.{
  Env, Route, find_condition, ensure_default_conditions, check_errors_configuring_custom_route,
  check_ingress_uri, check_route_availability,
}

-- the component route status that is applied
pub record RouteStatus : Type 0 where
  pub namespace : String
  pub name : String
  pub default_hostname : String
  pub current_hostname : String
  pub conditions : List Condition

-- `apply_statuses` replaces the component routes that the field manager owns. A sync of the secret
-- with no source deletes it.
pub data Call : Type 0 where
  create_route : Route → Call
  update_route : Route → Call
  delete_route : Call
  apply_status : RouteStatus → Call
  apply_statuses : List ComponentRouteStatus → Call
  sync_secret : Option String → Call

-- What a sync reads besides `Env`, and the answers to its calls.
pub record View : Type 0 where
  pub env : Env
  pub namespace : String
  pub name : String
  pub ingress : Result Ingress
  pub oidc_available : Result Bool
  -- the route of the asset oauth-openshift/route.yaml
  pub asset_route : Route
  -- the route by the lister and by the client
  pub listed_route : Result Route
  pub live_route : Result Route
  -- resourcemerge.EnsureObjectMeta: whether it changed the first, and the result
  pub ensure_object_meta : String → String → Bool × String
  -- applyconfigv1.ExtractIngressStatus: the component routes of the status that the controller owns
  pub extracted : Result (Option (List ComponentRouteStatus))
  pub server : Call → Result (Unit {0})

-- the errors of one key of the secret
unfoldable pub key_errors : String → Option String → (String → List Error) → List Error
key_errors key none validate = errorf "custom route secret must include key %s" (key ∷ []) ∷ []
key_errors key (some d) validate = validate d

validation_error : String → Option Error → Result (Unit {0})
validation_error name none = ok tt
validation_error name (some e) =
    err (wrapf "error validating secret %s/%s: %v" ("openshift-config" ∷ name ∷ []) e)

unfoldable pub validate_custom_tls_secret : Env → String → Result (Unit {0})
unfolding key_errors validation_error
validate_custom_tls_secret env name = if name == "" then ok tt else elim (env.config_secrets name) [
  | err e ↦ err e
  | ok secret ↦ validation_error name (
      join_errors (
        key_errors "tls.key" (lookup "tls.key" secret.entries) (validate_private_key env.crypto)
        ++ key_errors "tls.crt" (lookup "tls.crt" secret.entries)
            (validate_server_cert env.crypto)))
]

unfoldable pub error_list : Result (Unit {0}) → List Error
error_list (ok u) = []
error_list (err e) = e ∷ []

unfoldable pub parse_errors : Option Error → List Error
parse_errors none = []
parse_errors (some e) = e ∷ []

-- The route and the name of its secret, or the errors.
pub data Expected : Type 0 where
  expected : Route → String → Expected
  invalid : Error → List Error → Expected

unfoldable pub override : Route → ComponentRouteSpec → List Error → Expected
override route spec [] =
    expected (record route { host = spec.hostname }) spec.serving_cert_key_pair_secret
override route spec (e ∷ es) = invalid e es

unfoldable pub get_oauth_route_and_secret_name : View → Ingress → Expected
unfolding override error_list parse_errors
get_oauth_route_and_secret_name view ingress =
    let route = record (view.asset_route) { host = "oauth-openshift." <> ingress.domain } in
    elim (get_component_route_spec ingress "openshift-authentication" "oauth-openshift") [
      | none ↦ expected route ""
      | some spec ↦ override route spec (
          error_list (validate_custom_tls_secret view.env spec.serving_cert_key_pair_secret)
          ++ parse_errors (view.env.parse_url spec.hostname))
    ]

unfoldable pub same_spec : Route → Route → Bool
same_spec a b = a.host == b.host && a.rest_of_spec == b.rest_of_spec

-- the update of a route whose metadata or specification is another one
unfoldable pub update_live : View → Route → Route → Run Call (Unit {0})
unfolding same_spec
update_live view wanted live =
    let ensured = view.ensure_object_meta live.metadata wanted.metadata in
    if ensured.0 || not (same_spec live wanted)
    then call view.server (update_route (record wanted { metadata = ensured.1 }))
    else pure tt

unfoldable pub apply_route : View → Route → Run Call (Unit {0})
apply_route view wanted = elim view.live_route [
  | err e ↦ if is_not_found e then call view.server (create_route wanted) else fail e
  | ok live ↦ update_live view wanted live
]

-- the first check that has something to report
unfoldable pub first_report : List Condition → List Condition → List Condition
first_report [] later = later
first_report (c ∷ cs) later = c ∷ cs

unfoldable pub new_conditions : Env → Ingress → Route → List Error → List Condition
unfolding first_report
new_conditions env ingress route errors = ensure_default_conditions env (
    first_report (check_errors_configuring_custom_route env errors) (
      first_report (check_ingress_uri env ingress route)
        (check_route_availability env ingress route)))

unfoldable pub same_status : Bool → Bool → Bool
same_status true b = b
same_status false b = not b

-- the time of the existing condition of the type, where its status is the same
unfoldable pub keep_time : List Condition → Condition → Condition
unfolding same_status
keep_time existing c = elim (find_condition existing c.type) [
  | none ↦ c
  | some old ↦
      if same_status c.status old.status
      then record c { last_transition_time = old.last_transition_time }
      else c
]

unfoldable pub keep_times : Option ComponentRouteStatus → List Condition → List Condition
keep_times none cs = cs
keep_times (some r) cs = map (keep_time r.conditions) cs

unfoldable pub update_ingress_config_status : View → Ingress → List Error → Run Call (Unit {0})
update_ingress_config_status view ingress errors = do
  route ← lift view.listed_route
  call view.server (
      apply_status (record {
        namespace = view.namespace;
        name = view.name;
        default_hostname = "oauth-openshift." <> ingress.domain;
        current_hostname = route.host;
        conditions =
            keep_times (get_component_route_status ingress view.namespace view.name)
              (new_conditions view.env ingress route errors);
      }))

unfoldable pub sync_secret_of : View → String → Run Call (Unit {0})
sync_secret_of view name = call view.server (sync_secret (if name == "" then none else some name))

-- the component routes but that of the controller, and whether there was one of it
without_route : View → List ComponentRouteStatus → List ComponentRouteStatus
without_route view [] = []
without_route view (r ∷ rs) =
    let rest = without_route view rs in
    if r.name == view.name && r.namespace == view.namespace then rest else r ∷ rest

unfoldable pub has_route : View → List ComponentRouteStatus → Bool
has_route view [] = false
has_route view (r ∷ rs) =
    (r.name == view.name && r.namespace == view.namespace) || has_route view rs

unfoldable pub remove_status : View → Option (List ComponentRouteStatus) → Run Call (Unit {0})
unfolding without_route has_route
remove_status view none = pure tt
remove_status view (some rs) =
    if has_route view rs
    then call_context "applying new ingress config status: %v" [] view.server
        (apply_statuses (without_route view rs))
    else pure tt

-- the deletion of a route that the lister has
unfoldable pub remove_route : View → Run Call (Unit {0})
remove_route view = elim view.listed_route [
  | err e ↦
      if is_not_found e
      then pure tt
      else fail (wrapf "getting route %s/%s: %v" (view.namespace ∷ view.name ∷ []) e)
  | ok _ ↦ (
    delete_route ∷ [],
    elim (view.server delete_route) [
      | ok _ ↦ ok tt
      | err e ↦
          if is_not_found e
          then ok tt
          else err (wrapf "deleting route %s/%s: %v" (view.namespace ∷ view.name ∷ []) e)
    ],
  )
]

unfoldable pub remove_operands : View → Run Call (Unit {0})
unfolding remove_status
remove_operands view = do
  remove_route view
  owned ← lift (
      context "extracting ingress status apply configuration from ingress config: %v" []
        view.extracted)
  remove_status view owned
  ((sync_secret_of view "").0, context "deleting secret: %v" [] (sync_secret_of view "").1)

-- the whole list of errors
abbrev pub all_errors : Error → List Error → Error
all_errors e [] = e
all_errors e (f ∷ es) = joined e (all_errors f es)

-- the part of the sync behind the computation of the route
unfoldable pub sync_expected : View → Ingress → Expected → Run Call (Unit {0})
sync_expected view ingress (expected route secret_name) = do
  apply_route view route
  update_ingress_config_status view ingress []
  sync_secret_of view secret_name
sync_expected view ingress (invalid e es) =
    -- the error of the status update is logged only
    (
      (update_ingress_config_status view ingress (e ∷ es)).0,
      err (wrapf "custom route configuration failed verification: %v" [] (all_errors e es)),
    )

unfoldable pub sync : View → Run Call (Unit {0})
sync view = do
  ingress ← lift view.ingress
  oidc ← lift view.oidc_available
  if oidc
      then remove_operands view
      else sync_expected view ingress (get_oauth_route_and_secret_name view ingress)
