-- ===== src/Metadata/Reported.antt =====
-- What a sync of metadata_controller.go reports without external OIDC.
use cluster_authentication_o.Base.{
  String, ◌≡◌, ◌↔◌, refl, sym, ap, ◌∙◌, inl, inr, arith, Bool, true, false, not, ◌&&◌, ◌||◌, List,
  [], ◌∷◌, ◌++◌, ◌⊎◌, Option, none, some, Error, Result, ok, err, map, has, is_empty, ◌==◌,
  if◌then◌else◌, has_suffix, Bool-cases,
}
use cluster_authentication_o.Base.Calls.{Run, lift, ◌>>=◌}
use cluster_authentication_o.Common.Conditions.{
  status_true, status_false, status_unknown, AppliedCondition, OperatorCondition,
  apply_operator_status, degraded, answered, new_condition, applied_of, default_status,
  apply_controller_conditions,
}
use cluster_authentication_o.Metadata.{
  View, Call, update_status, status, known_condition_names, metadata_of, apply_failed,
  update_failed, not_ready, apply_metadata, handle_hosts, handle_route,
  handle_oauth_metadata_config_map, update_reference, handle_reference, handle_auth_config,
  auth_conditions, apply_conditions, sync_metadata, sync_as, sync,
}

abbrev pub is_true : AppliedCondition → Bool
is_true c = elim c.status [ status_true ↦ true | status_false ↦ false | status_unknown ↦ false ]

abbrev pub is_refusal : Result (Unit {0}) → Bool
is_refusal (ok u) = false
is_refusal (err e) = true

-- The API server refuses a call.
abbrev pub refuses : View → Call → Bool
refuses v c = is_refusal (v.server c)

-- The host that the route serves.
abbrev pub first_host : Result (List String) → Option String
first_host (err e) = none
first_host (ok []) = none
first_host (ok (h ∷ hosts)) = if is_empty h then none else some h

-- The authentication configuration cannot be read, or has to be updated and cannot.
abbrev pub reference_fails : View → Result String → Bool
reference_fails v (err e) = true
reference_fails v (ok name) =
    not (name == "oauth-openshift") && refuses v (update_status "oauth-openshift")

abbrev pub metadata_fails : View → Option String → Bool
metadata_fails v none = false
metadata_fails v (some h) =
    refuses v (metadata_of h) || reference_fails v v.integrated_oauth_metadata

abbrev applied : List OperatorCondition → List AppliedCondition
applied conditions = map (new_condition conditions) known_condition_names

-- one of the conditions that the controller owns is True
abbrev shows : List OperatorCondition → Bool
shows conditions = has is_true (applied conditions)

shows_none : shows [] ≡ false
unfolding new_condition default_status has_suffix
shows_none = refl

-- a condition of the route is not one that the controller owns
shows_route :
    (reason message : String) → shows (degraded "RouteDegraded" reason message ∷ []) ≡ false
unfolding new_condition default_status has_suffix
shows_route reason message = refl

shows_metadata :
    (reason message : String)
    → shows (degraded "OAuthSystemMetadataDegraded" reason message ∷ []) ≡ true
unfolding new_condition default_status applied_of has_suffix
shows_metadata reason message = refl

shows_auth :
    (reason message : String) → shows (degraded "AuthConfigDegraded" reason message ∷ []) ≡ true
unfolding new_condition default_status applied_of has_suffix
shows_auth reason message = refl

-- the conditions of a call that fails, and none of one that succeeds
answered_lem :
    (c : Call) (f : Error → OperatorCondition) (r : Result (Unit {0}))
    → ((answered c f r ≡ (c ∷ [], ok [])) × (is_refusal r ≡ false))
      ⊎ ((e : Error) × (answered c f r ≡ (c ∷ [], ok (f e ∷ []))) × (is_refusal r ≡ true))
unfolding answered
answered_lem c f (ok u) = inl (refl, refl)
answered_lem c f (err e) = inr (e, refl, refl)

update_lem :
    (v : View)
    → (calls : List Call) × (auth : List OperatorCondition) × (update_reference v
        ≡ (calls, ok auth))
      × (shows auth ≡ refuses v (update_status "oauth-openshift"))
unfolding update_reference
update_lem v =
    elim (answered_lem (update_status "oauth-openshift") (update_failed v)
      (v.server (update_status "oauth-openshift"))) [
        | inl (p, r) ↦ (_, [], p, shows_none ∙ sym r)
        | inr (e, p, r) ↦ (_, _, p, shows_auth _ _ ∙ sym r)
      ]

auth_lem :
    (v : View) (r : Result String)
    → (calls : List Call) × (auth : List OperatorCondition) × (handle_reference v r
        ≡ (calls, ok auth))
      × (shows auth ≡ reference_fails v r)
unfolding handle_reference
auth_lem v (err e) = ([], _, refl, shows_auth _ _)
auth_lem v (ok name) = elim (Bool-cases (name == "oauth-openshift")) [
  | inl q ↦ ([], [], ground (arith, q), ground (arith, q, shows_none))
  | inr q ↦
      let (calls, auth, p, s) = update_lem v in
      (calls, auth, ground (arith, q, p), ground (arith, q, s))
]

abbrev after : View → Run Call (List OperatorCondition) → Run Call (Unit {0})
after v run =
    run >>= λ found. auth_conditions v found >>= λ auth. apply_conditions v (found ++ auth)

abbrev applies : View → List OperatorCondition → Call
applies v conditions =
    status (apply_operator_status v.controller_instance_name (applied conditions))

-- a run that ends with its status
abbrev Reports : View → Run Call (Unit {0}) → Bool → Type 0
Reports v run b =
    (calls : List Call) × (conditions : List OperatorCondition) × (run
      ≡ (calls ++ applies v conditions ∷ [], v.server (applies v conditions)))
    × (shows conditions ≡ b)

-- nothing was found, after the calls `cs`
after_none :
    (v : View) → Reports v (after v ([], ok [])) (reference_fails v v.integrated_oauth_metadata)
unfolding auth_conditions handle_auth_config apply_controller_conditions
after_none v =
    let (calls, auth, p, s) = auth_lem v v.integrated_oauth_metadata in (calls, auth, rw p refl, s)

after_call :
    (v : View) (c : Call)
    → Reports v (after v (c ∷ [], ok [])) (reference_fails v v.integrated_oauth_metadata)
unfolding auth_conditions handle_auth_config apply_controller_conditions
after_call v c =
    let (calls, auth, p, s) = auth_lem v v.integrated_oauth_metadata in
    (c ∷ calls, auth, rw p refl, s)

after_some :
    (v : View) (calls : List Call) (c : OperatorCondition) (b : Bool)
    → shows (c ∷ []) ≡ b
    → Reports v (after v (calls, ok (c ∷ []))) b
unfolding auth_conditions apply_controller_conditions
after_some v calls c b s = (calls, c ∷ [], refl, s)

hosts_lem :
    (v : View) (route : Result (List String))
    → Reports v (after v (handle_route v route)) (metadata_fails v (first_host route))
unfolding handle_route handle_hosts not_ready apply_metadata
hosts_lem v (err e) = after_some v [] _ false (shows_route _ _)
hosts_lem v (ok []) = after_some v [] _ false (shows_route _ _)
hosts_lem v (ok (h ∷ hosts)) = elim (Bool-cases (is_empty h)) [
  | inl q ↦ rw q (after_some v [] _ false (shows_route _ _))
  | inr q ↦ elim (answered_lem (metadata_of h) apply_failed (v.server (metadata_of h))) [
    | inl (p, r) ↦ rw (q, p, r) (after_call v (metadata_of h))
    | inr (e, p, r) ↦ rw (q, p, r) (after_some v (metadata_of h ∷ []) _ true (shows_metadata _ _))
  ]
]

-- A sync without external OIDC, whatever the API server answers, ends with one apply of the status,
-- whose answer is its own. One of the conditions applied is True exactly where the route was read and
-- its first host is not empty, and the API server refuses the metadata of that host, or the
-- authentication configuration cannot be read, or does not refer to the metadata and the API server
-- refuses the update. Where the route cannot be read or its first host is empty, none is True.
pub reported_iff :
    (v : View)
    → v.oidc_available ≡ ok false
    → (calls : List Call) × (cs : List AppliedCondition) × (let c =
          status (apply_operator_status v.controller_instance_name cs) in
        sync v ≡ (calls ++ c ∷ [], v.server c))
      × ((has is_true cs ≡ true) ↔ (metadata_fails v (first_host v.route) ≡ true))
unfolding sync sync_as sync_metadata handle_oauth_metadata_config_map
reported_iff v no_oidc =
    let (calls, conditions, p, s) = hosts_lem v v.route in
    (
      calls,
      applied conditions,
      ap (λ r. lift r >>= sync_as v) no_oidc ∙ p,
      (λ h. sym s ∙ h, λ h. s ∙ h),
    )
