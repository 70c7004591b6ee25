-- ===== src/CustomRoute/Reports.antt =====
-- What is reported of the route, and when all is well.
use cluster_authentication_o.Base.{
  String, ◌≡◌, ◌≢◌, refl, ◌⊎◌, inl, inr, ◌↔◌, Bool, true, List, [], ◌∷◌, none, some, Error, ok, has,
  All, arith, Option-cases, Result-cases, Bool-cases, ◌∙◌, sym, ◌==◌, ◌<>◌,
}
use cluster_authentication_o.Common.IngressConfig.{
  Condition, Ingress, get_active_router_cert_key_bytes,
}
use cluster_authentication_o.CustomRoute.Conditions.{
  Route, Env, find_condition, default_condition, parse_certificates, check_served, check_answer,
  route_availability, ensure_condition, ensure_default_conditions,
  check_errors_configuring_custom_route,
}
use cluster_authentication_o.CustomRoute.Controller.{first_report, new_conditions}
use cluster_authentication_o.CustomRoute.Ageing.{new_conditions-cases}

-- The names of conditions.
abbrev pub types : List Condition → List String
types [] = []
types (c ∷ cs) = c.type ∷ types cs

-- The route answers with certificates of the active router secret.
pub record IsServed (env : Env) (host : String) (ingress : Ingress) : Type 0 where
  pub cert : String
  pub key : String
  pub is_default : Bool
  pub certs : List String
  pub served : List String
  pub requested : env.new_request ("https://" <> host <> "/healthz") ≡ none
  pub secret :
      get_active_router_cert_key_bytes env.secrets ingress "v4-0-config-system-router-certs"
        "v4-0-config-system-custom-router-certs"
      ≡ ok (cert, key, is_default)
  pub answered :
      env.get ("https://" <> host <> "/healthz") cert
      ≡ ok (record { status_code = 200; peer_certificates = some served })
  pub parsed : parse_certificates env.crypto cert ≡ ok certs
  pub known : All (λ c. has (λ d. c == d) certs ≡ true) served

served_sound :
    (certs served : List String)
    → check_served certs served ≡ ok tt
    → All (λ c. has (λ d. c == d) certs ≡ true) served
unfolding check_served
served_sound certs [] h = tt
served_sound certs (c ∷ served) h = elim (Bool-cases (has (λ d. c == d) certs)) [
  | inl t ↦ (t, served_sound certs served (ground (arith, t, h)))
  | inr f ↦ absurd (ground (arith, f, h))
]

served_complete :
    (certs served : List String)
    → All (λ c. has (λ d. c == d) certs ≡ true) served
    → check_served certs served ≡ ok tt
unfolding check_served
served_complete certs [] all = refl
served_complete certs (c ∷ served) all = rw all.0 (served_complete certs served all.1)

module _ (env : Env) (ingress : Ingress) (route : Route) where
  reachable : route_availability env route.host ingress ≡ ok tt → IsServed env route.host ingress
  unfolding route_availability check_answer
  reachable h = elim (Option-cases (env.new_request ("https://" <> route.host <> "/healthz"))) [
    | inr (e, p) ↦ absurd (ground (arith, p, h))
    | inl n ↦
        elim (Result-cases (
          get_active_router_cert_key_bytes env.secrets ingress "v4-0-config-system-router-certs"
            "v4-0-config-system-custom-router-certs")) [
              | inr (e, s) ↦ absurd (ground (arith, n, s, h))
              | inl ((cert, key, d), s) ↦
                  elim (Result-cases (env.get ("https://" <> route.host <> "/healthz") cert)) [
                    | inr (e, g) ↦ absurd (ground (arith, n, s, g, h))
                    | inl (answer, g) ↦ elim (Option-cases answer.peer_certificates) [
                      | inl t ↦ absurd (ground (arith, n, s, g, t, h))
                      | inr (served, t) ↦ elim (Result-cases (parse_certificates env.crypto cert)) [
                        | inr (e, c) ↦ absurd (ground (arith, n, s, g, t, c, h))
                        | inl (certs, c) ↦ record {
                          cert = cert;
                          key = key;
                          is_default = d;
                          certs = certs;
                          served = served;
                          requested = n;
                          secret = s;
                          answered = ground (arith, n, s, g, t, c, h);
                          parsed = c;
                          known = served_sound certs served (ground (arith, n, s, g, t, c, h));
                        }
                      ]
                    ]
                  ]
            ]
  ]

  answers : IsServed env route.host ingress → route_availability env route.host ingress ≡ ok tt
  unfolding route_availability check_answer
  answers i =
      rw (i.requested, i.secret, i.answered, i.parsed) (served_complete i.certs i.served i.known)

  unwell :
      (errors : List Error)
      → new_conditions env ingress route errors
        ≡ default_condition env "Progressing" ∷ default_condition env "Degraded" ∷ []
      → (errors ≡ [])
        × (env.ingress_uri route ≡ none)
        × (route_availability env route.host ingress ≡ ok tt)
  unfolding new_conditions first_report check_errors_configuring_custom_route
      ensure_default_conditions ensure_condition find_condition
  unwell (e ∷ errors) h = absurd (ground (arith, h))
  unwell [] h = elim (new_conditions-cases env ingress route) [
    | inl (e, p, c) ↦ absurd (ground (arith, sym c ∙ h))
    | inr (inl (n, e, p, c)) ↦ absurd (ground (arith, sym c ∙ h))
    | inr (inr (n, p, c)) ↦ (refl, n, p)
  ]

  well :
      route_availability env route.host ingress ≡ ok tt
      → env.ingress_uri route ≡ none
      → new_conditions env ingress route []
        ≡ default_condition env "Progressing" ∷ default_condition env "Degraded" ∷ []
  well a u = elim (new_conditions-cases env ingress route) [
    | inl (e, p, c) ↦ absurd (ground (arith, p, u))
    | inr (inl (n, e, p, c)) ↦ absurd (ground (arith, p, a))
    | inr (inr (n, p, c)) ↦ c
  ]

  -- The new conditions are the two that say that all is well exactly where the configuration has no
  -- error, the route is admitted, and its health endpoint answers 200 over TLS with certificates that
  -- are all among those of the active router secret.
  pub all_well_iff :
      (errors : List Error)
      → (new_conditions env ingress route errors
          ≡ default_condition env "Progressing" ∷ default_condition env "Degraded" ∷ [])
        ↔ ((errors ≡ []) × (env.ingress_uri route ≡ none) × IsServed env route.host ingress)
  all_well_iff errors = (
    λ h.
        let (clean, admitted, available) = unwell errors h in
        (clean, admitted, reachable available),
    λ (clean, admitted, served). rw clean (well (answers served) admitted),
  )

  -- There is always one condition of each type: of degradation first where the configuration has
  -- errors, and of progress first otherwise.
  pub one_of_each :
      (errors : List Error)
      → ((errors ≡ [])
          × (types (new_conditions env ingress route errors) ≡ "Progressing" ∷ "Degraded" ∷ []))
        ⊎ ((errors ≢ [])
            × (types (new_conditions env ingress route errors) ≡ "Degraded" ∷ "Progressing" ∷ []))
  unfolding new_conditions first_report check_errors_configuring_custom_route
      ensure_default_conditions ensure_condition find_condition
  one_of_each (e ∷ errors) = inr (ground arith, refl)
  one_of_each [] = elim (new_conditions-cases env ingress route) [
    | inl (e, p, c) ↦ inl (refl, rw c refl)
    | inr (inl (n, e, p, c)) ↦ inl (refl, rw c refl)
    | inr (inr (n, p, c)) ↦ inl (refl, rw c refl)
  ]
