-- ===== src/Readiness/Addresses.antt =====
-- getAPIServerIPs and its parts of wellknown_ready_controller.go: where the kube-apiservers listen.
use cluster_authentication_o.Base.{
  ℕ, String, Bool, not, ◌&&◌, List, [], ◌∷◌, Option, none, some, Result, ok, err, errorf, context,
  ◌>>=◌, eqb, length, map, has, has_part, ◌<>◌, if◌then◌else◌,
}

-- `target_port` is TargetPort.IntValue(), and `tcp` that the protocol is TCP.
pub record ServicePort : Type 0 where
  pub target_port : ℕ
  pub tcp : Bool
  pub port : ℕ

pub record EndpointPort : Type 0 where
  pub tcp : Bool
  pub port : ℕ

-- the IPs of the addresses
pub record EndpointSubset : Type 0 where
  pub ports : List EndpointPort
  pub addresses : List String
  pub not_ready_addresses : List String

pub record ApiServers : Type 0 where
  -- the package's kasServicePort, and the decimal text of a port
  pub kas_service_port : ℕ
  pub show : ℕ → String
  -- the ports of the service default/kubernetes, and the subsets of its endpoints
  pub service : Result (List ServicePort)
  pub endpoints : Result (List EndpointSubset)

unfoldable pub is_kas_port : ℕ → ServicePort → Bool
is_kas_port kas_service_port p = not (eqb p.target_port 0) && (p.tcp && eqb p.port kas_service_port)

unfoldable pub get_kas_target_port_from_service : ℕ → List ServicePort → Option ℕ
unfolding is_kas_port
get_kas_target_port_from_service kas_service_port [] = none
get_kas_target_port_from_service kas_service_port (p ∷ ports) =
    let rest = get_kas_target_port_from_service kas_service_port ports in
    if is_kas_port kas_service_port p then some p.target_port else rest

unfoldable pub subset_has_kas_target_port : EndpointSubset → ℕ → Bool
subset_has_kas_target_port subset target_port =
    has (λ p. p.tcp && eqb p.port target_port) subset.ports

-- net.JoinHostPort
unfoldable pub join_host_port : String → String → String
join_host_port host port =
    if has_part host ":" then "[" <> host <> "]:" <> port else host <> ":" <> port

unfoldable pub is_subset_ready : EndpointSubset → Bool
is_subset_ready s = eqb (length s.not_ready_addresses) 0 && not (eqb (length s.addresses) 0)

unfoldable pub ips_of : (ℕ → String) → ℕ → EndpointSubset → List String
ips_of show target_port s = map (λ ip. join_host_port ip (show target_port)) s.addresses

-- the first subset with the port decides
unfoldable pub ips_from : (ℕ → String) → ℕ → List EndpointSubset → Result (List String)
ips_from show target_port [] =
    err (errorf "unable to find kube api server endpointLister port: %#v" [])
ips_from show target_port (s ∷ subsets) =
    let rest = ips_from show target_port subsets in
    if subset_has_kas_target_port s target_port
    then (if is_subset_ready s
        then ok (ips_of show target_port s)
        else err (errorf "kube api server endpointLister is not ready: %#v" []))
    else rest

unfoldable pub get_api_server_ips : ApiServers → Result (List String)
get_api_server_ips c = do
  ports ← context "failed to get kube api server service: %v" [] c.service
  elim (get_kas_target_port_from_service c.kas_service_port ports) [
    | none ↦ err (errorf "unable to find kube api server service target port: %#v" [])
    | some target_port ↦ (do
      subsets ← context "failed to get kube api server endpointLister: %v" [] c.endpoints
      ips_from c.show target_port subsets)
  ]
