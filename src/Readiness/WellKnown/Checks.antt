-- ===== src/Readiness/WellKnown/Checks.antt =====
-- The loop over the kube-apiservers of isWellknownEndpointsReady.
use cluster_authentication_o.Base.{
  ℕ, ◌<◌, ◌≤◌, eqb, ◌⊎◌, List-cases, String, ◌≡◌, Bool, true, false, refl, inl, inr, arith, List,
  [], ◌∷◌, Error, none, some, has, length, ltb, join_errors, Bool-cases, Option-cases, Result-cases,
  ok, map,
}
use cluster_authentication_o.Base.Int.{pos}
use cluster_authentication_o.Base.Members.{every}
use cluster_authentication_o.Readiness.Degradation.{Degradation}
use cluster_authentication_o.Base.Loops.{join-some}
use cluster_authentication_o.Readiness.Addresses.{
  ApiServers, EndpointSubset, subset_has_kas_target_port, join_host_port, is_subset_ready, ips_of,
  ips_from, get_kas_target_port_from_service, get_api_server_ips,
}
use cluster_authentication_o.Readiness.Endpoint.{
  View, Fault, plain, observed, check_well_known_endpoint_ready,
}
use cluster_authentication_o.Readiness.WellKnown.{addresses_of, check_each, availability_of}

-- The check of the kube-apiserver finds no error.
abbrev pub is_ready : View → String → Bool
is_ready v ip = elim (check_well_known_endpoint_ready v ip).1 [ none ↦ true | some e ↦ false ]

pub check_each_counts :
    (v : View) (ips : List String)
    → let errs = (check_each v ips).1 in
      (length errs ≤ length ips)
      × (every (is_ready v) ips ≡ eqb (length errs) 0)
      × (has (is_ready v) ips ≡ ltb (length errs) (length ips))
unfolding check_each
check_each_counts v [] = (omega arith, refl, refl)
check_each_counts v (ip ∷ ips) =
    let (le, all, any) = check_each_counts v ips in
    elim (Option-cases (check_well_known_endpoint_ready v ip).1) [
      | inl p ↦ (ground (arith, p, le), ground (arith, p, all), ground (arith, p, le, any))
      | inr (e, p) ↦ (ground (arith, p, le), ground (arith, p, all), ground (arith, p, le, any))
    ]

-- The condition of the partial failure is as old as the error tolerates.
abbrev pub partial : Error → Degradation
partial e = record {
  reason = "AtLeastOneWellKnownEndpointUnavailable";
  unwrap = e;
  max_age = pos 300000000000;
}

-- The error of the loop, of which a part of the addresses is not ready or none is.
abbrev pub fault_of : Bool → Error → Fault
fault_of true e = observed (partial e)
fault_of false e = plain e

pub availability_lem :
    (v : View) (ips : List String)
    → let errs = (check_each v ips).1 in
      ((every (is_ready v) ips ≡ true) × (availability_of errs (length ips) ≡ (true, none)))
      ⊎ ((e : Error) × (join_errors errs ≡ some e)
          × (every (is_ready v) ips ≡ false)
          × (availability_of errs (length ips)
              ≡ (has (is_ready v) ips, some (fault_of (has (is_ready v) ips) e))))
unfolding availability_of
availability_lem v ips =
    let (le, all, any) = check_each_counts v ips in
    elim (List-cases (check_each v ips).1) [
      | inl p ↦ inl (ground (arith, p, all), ground (arith, p))
      | inr (x, xs, p) ↦
          let (e, q) = join-some x xs in
          inr (
            e,
            ground (arith, p, q),
            ground (arith, p, all),
            elim (Bool-cases (has (is_ready v) ips)) [
              | inl h ↦ ground (arith, p, q, any, h)
              | inr h ↦ ground (arith, p, q, any, h)
            ],
          )
    ]

length-map : {A B : Type 0} (f : A → B) (xs : List A) → length (map f xs) ≡ length xs
length-map f [] = refl
length-map f (x ∷ xs) = omega (arith, length-map f xs)

ips_from_found :
    (show : ℕ → String) (target_port : ℕ) (subsets : List EndpointSubset) {ips : List String}
    → ips_from show target_port subsets ≡ ok ips
    → 0 < length ips
unfolding ips_from ips_of is_subset_ready
ips_from_found show target_port [] h = absurd (ground (arith, h))
ips_from_found show target_port (s ∷ subsets) h =
    elim (Bool-cases (subset_has_kas_target_port s target_port)) [
      | inl p ↦
          ground (arith, p, h, length-map (λ ip. join_host_port ip (show target_port)) s.addresses)
      | inr p ↦ ips_from_found show target_port subsets (ground (arith, p, h))
    ]

get_ips_found :
    (c : ApiServers) {ips : List String} → get_api_server_ips c ≡ ok ips → 0 < length ips
unfolding get_api_server_ips
get_ips_found c h = elim (Result-cases c.service) [
  | inr (e, p) ↦ absurd (ground (arith, p, h))
  | inl (ports, p) ↦
      elim (Option-cases (get_kas_target_port_from_service c.kas_service_port ports)) [
        | inl q ↦ absurd (ground (arith, p, q, h))
        | inr (target_port, q) ↦ elim (Result-cases c.endpoints) [
          | inr (e, r) ↦ absurd (ground (arith, p, q, r, h))
          | inl (subsets, r) ↦
              ips_from_found c.show target_port subsets (ground (arith, p, q, r, h))
        ]
      ]
]

-- The addresses that are found are never none.
addresses_found : (v : View) {ips : List String} → addresses_of v ≡ ok ips → 0 < length ips
unfolding addresses_of
addresses_found v h = elim (Result-cases v.ca_data) [
  | inr (e, p) ↦ absurd (ground (arith, p, h))
  | inl (ca, p) ↦ elim (Result-cases (v.transport_for ca)) [
    | inr (e, q) ↦ absurd (ground (arith, p, q, h))
    | inl (u, q) ↦ elim (Result-cases (get_api_server_ips v.api_servers)) [
      | inr (e, r) ↦ absurd (ground (arith, p, q, r, h))
      | inl (found, r) ↦ get_ips_found v.api_servers (ground (arith, p, q, r, h))
    ]
  ]
]

any_ready :
    (v : View) (ips : List String)
    → 0 < length ips
    → every (is_ready v) ips ≡ true
    → has (is_ready v) ips ≡ true
any_ready v [] h all = absurd (omega (arith, h))
any_ready v (ip ∷ ips) h all = ground (arith, all)

-- Where all the addresses that were found are ready, some address is.
pub all_ready_some :
    (v : View) (ips : List String)
    → addresses_of v ≡ ok ips
    → every (is_ready v) ips ≡ true
    → has (is_ready v) ips ≡ true
all_ready_some v ips found = any_ready v ips (addresses_found v found)
