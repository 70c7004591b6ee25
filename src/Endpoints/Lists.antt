-- ===== src/Endpoints/Lists.antt =====
-- pkg/controllers/oauthendpoints/oauth_endpoints_controller.go: the endpoints of the OAuth server, and
-- the TLS configurations to ask them. A pool of certificates is a parameter, and so is the decimal text
-- of a port.
pub mod Admitted
use cluster_authentication_o.Base.{
  ℕ, String, Bool, true, false, not, ◌&&◌, List, [], ◌∷◌, ◌++◌, Option, none, some, Error, Result,
  ok, err, errorf, context, ◌>>=◌, is_empty, lookup, length, eqb, map, has, has_part, ◌==◌, ◌<>◌,
  if◌then◌else◌,
}
use cluster_authentication_o.Base.SortedSets.{insert_all}
use cluster_authentication_o.Common.IngressConfig.{
  Ingress, Secret, ComponentRouteStatus, get_component_route_status,
  get_active_router_cert_key_bytes,
}

pub record EndpointSubset : Type 0 where
  pub addresses : List String
  pub ports : List ℕ

pub record Service : Type 0 where
  pub cluster_ip : String
  pub ports : List ℕ

-- the host, and the type and the status of each condition
pub record RouteIngress : Type 0 where
  pub host : String
  pub conditions : List (String × String)

-- net.JoinHostPort
unfoldable pub join_host_port : String → String → String
join_host_port host port =
    if has_part host ":" then "[" <> host <> "]:" <> port else host <> ":" <> port

unfoldable pub to_healthz_url : List String → List String
to_healthz_url = map (λ url. "https://" <> url <> "/healthz")

unfoldable pub address_ports : (ℕ → String) → List ℕ → String → List String
address_ports show ports address = map (λ p. join_host_port address (show p)) ports

unfoldable pub subset_endpoints : (ℕ → String) → List ℕ → List String → List String
unfolding address_ports
subset_endpoints show ports [] = []
subset_endpoints show ports (a ∷ addresses) =
    address_ports show ports a ++ subset_endpoints show ports addresses

unfoldable pub all_endpoints : (ℕ → String) → List EndpointSubset → List String
unfolding subset_endpoints
all_endpoints show [] = []
all_endpoints show (s ∷ subsets) =
    subset_endpoints show s.ports s.addresses ++ all_endpoints show subsets

-- no result is an error
unfoldable pub some_urls : String → List String → Result (List String)
some_urls message [] = err (errorf message [])
some_urls message (r ∷ results) = ok (to_healthz_url (r ∷ results))

unfoldable pub list_oauth_service_endpoints :
    (ℕ → String) → Result (List EndpointSubset) → Result (List String)
unfolding some_urls all_endpoints
list_oauth_service_endpoints show endpoints = do
  subsets ← endpoints
  some_urls "oauth service endpoints are not ready" (all_endpoints show subsets)

unfoldable pub list_oauth_services : (ℕ → String) → Result Service → Result (List String)
unfolding some_urls address_ports
list_oauth_services show service = do
  s ← service
  some_urls "no valid oauth services found" (address_ports show s.ports s.cluster_ip)

-- a set of hostnames: `Delete`
unfoldable pub delete : String → List String → List String
delete host [] = []
delete host (h ∷ hosts) = let rest = delete host hosts in if h == host then rest else h ∷ rest

unfoldable pub is_admitted_condition : String × String → Bool
is_admitted_condition (type, status) = type == "Admitted" && status == "True"

-- what the loop holds: the results, and the hostnames that are wanted
pub record Found : Type 0 where
  pub results : List String
  pub wanted : List String

-- the loop over the conditions of one host, which ends when nothing is wanted any more
unfoldable pub admit_each : String → List (String × String) → Found → Found
unfolding delete is_admitted_condition
admit_each host [] f = f
admit_each host (c ∷ conditions) f =
    let next : Found = record { results = f.results ++ host ∷ []; wanted = delete host f.wanted } in
    let later = admit_each host conditions next in
    let rest = admit_each host conditions f in
    if is_admitted_condition c
    then (if eqb (length (delete host f.wanted)) 0 then next else later)
    else rest

unfoldable pub admit : RouteIngress → Found → Found
unfolding admit_each
admit i f =
    let admitted = admit_each i.host i.conditions f in
    if not (is_empty i.host) && has (λ h. h == i.host) f.wanted then admitted else f

unfoldable pub admit_all : List RouteIngress → Found → Found
unfolding admit
admit_all [] f = f
admit_all (i ∷ ingresses) f = admit_all ingresses (admit i f)

unfoldable pub check_found : Found → Result (List String)
check_found f =
    let urls : Result (List String) =
      if eqb (length f.wanted) 0
      then ok (to_healthz_url f.results)
      else err (
          errorf
            "route \"openshift-authentication/oauth-openshift\": the following hostnames have not yet been admitted: %v"
            f.wanted) in
    elim f.results [
      | [] ↦ err (
          errorf
            "route \"openshift-authentication/oauth-openshift\": status does not have a valid host address"
            [])
      | r ∷ results ↦ urls
    ]

-- the hostnames of a status, as far as there are any
abbrev pub hostnames_of : Option ComponentRouteStatus → Option (List String)
hostnames_of none = none
hostnames_of (some s) = s.current_hostnames

unfoldable pub check_hostnames : Option (List String) → List RouteIngress → Result (List String)
unfolding admit_all check_found
check_hostnames none ingresses = err (
    errorf
      "ingress.config/cluster does not yet have status for the \"openshift-authentication/oauth-openshift\" route"
      [])
check_hostnames (some hosts) ingresses =
    check_found (admit_all ingresses (record { results = []; wanted = insert_all hosts [] }))

unfoldable pub list_oauth_routes :
    Result Ingress → Result (List RouteIngress) → Result (List String)
unfolding check_hostnames
list_oauth_routes ingress_config route = do
  ingress ← context "failed to retrieve ingress from cache: %w" [] ingress_config
  ingresses ← context "failed to retrieve route from cache: %w" [] route
  check_hostnames
      (hostnames_of
        (get_component_route_status ingress "openshift-authentication" "oauth-openshift"))
      ingresses
