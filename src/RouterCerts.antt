-- ===== src/RouterCerts.antt =====
-- pkg/controllers/routercerts/controller.go: whether the certificates of the router can serve the
-- route of the OAuth server. Parsing, verification and the system's pool are parameters; `sprintf`
-- formats a message.
pub mod Chains
pub mod Valid
mod Examples
use cluster_authentication_o.Base.{
  ℕ, String, Bool, true, false, not, ◌&&◌, List, [], ◌∷◌, ◌++◌, Option, none, some, Error, Result,
  ok, err, is_empty, lookup, ◌==◌, ◌<>◌, if◌then◌else◌,
}
use cluster_authentication_o.Base.Calls.{Run, lift, pure, fail, call, ◌>>=◌}
use cluster_authentication_o.Common.Conditions.{
  status_true, status_false, AppliedCondition, StatusCall, apply_operator_status,
}
use cluster_authentication_o.Common.IngressConfig.{Secret, get_active_router_secret}

pub record Certificate : Type 0 where
  pub is_ca : Bool
  pub raw_subject : String
  pub raw_issuer : String
  pub raw : String

-- x509.VerifyOptions, the fields that the code sets; a pool lists its certificates
pub record VerifyOptions : Type 0 where
  pub dns_name : String
  pub roots : List Certificate
  pub intermediates : List Certificate

pub data Call : Type 0 where
  sync_partial_secret : String → Call
  status : StatusCall → Call

pub record View : Type 0 where
  pub controller_instance_name : String
  pub default_secret_name : String
  pub custom_secret_name : String
  pub secret_namespace : String
  pub route_name : String
  pub sprintf : String → List String → Option Error → String
  pub oidc_available : Result Bool
  -- management.IsOperatorManaged of the operator's state
  pub is_operator_managed : Result Bool
  -- spec.domain of ingresses.config.openshift.io/cluster
  pub ingress_domain : Result String
  pub secrets : String → Result Secret
  -- the data of openshift-config-managed/default-ingress-cert
  pub default_ingress_cert : Result (List (String × String))
  pub certs_from_pem : String → Result (List Certificate)
  pub system_cert_pool : Result (List Certificate)
  pub verify : Certificate → VerifyOptions → Option Error
  pub server : Call → Result (Unit {0})

unfoldable pub is_root : Certificate → Bool
is_root c = c.is_ca && c.raw_subject == c.raw_issuer

unfoldable pub add_certificate :
    Certificate → VerifyOptions × List Certificate → VerifyOptions × List Certificate
unfolding is_root
add_certificate c (opts, servers) =
    if is_root c
    then (
      record {
        dns_name = opts.dns_name;
        roots = opts.roots ++ c ∷ [];
        intermediates = opts.intermediates;
      },
      servers,
    )
    else if c.is_ca
    then (
      record {
        dns_name = opts.dns_name;
        roots = opts.roots;
        intermediates = opts.intermediates ++ c ∷ [];
      },
      servers,
    )
    else (opts, servers ++ c ∷ [])

unfoldable pub populate_from :
    List Certificate → VerifyOptions × List Certificate → VerifyOptions × List Certificate
populate_from [] out = out
populate_from (c ∷ certs) out = populate_from certs (add_certificate c out)

-- the options with the authorities, and the server certificates
unfoldable pub populate_verify_options_from_cert_slice :
    VerifyOptions → List Certificate → VerifyOptions × List Certificate
unfolding populate_from
populate_verify_options_from_cert_slice opts certs = populate_from certs (opts, [])

-- the loop ends at the first certificate that verifies; `last` is the error so far
unfoldable pub verify_each : View → VerifyOptions → List Certificate → Option Error → Option Error
verify_each v opts [] last = last
verify_each v opts (c ∷ certs) last =
    let later = verify_each v opts certs (v.verify c opts) in
    elim (v.verify c opts) [ none ↦ none | some e ↦ later ]

unfoldable pub verify_with_any_certificate : View → List Certificate → VerifyOptions → Option Error
unfolding verify_each
verify_with_any_certificate v certs opts = verify_each v opts certs none

abbrev pub new_router_certs_degraded : String → String → AppliedCondition
new_router_certs_degraded reason message = record {
  type = "RouterCertsDegraded";
  status = status_true;
  reason = reason;
  message = message;
}

abbrev pub as_expected : AppliedCondition
as_expected = record {
  type = "RouterCertsDegraded";
  status = status_false;
  reason = "AsExpected";
  message = "";
}

unfoldable pub no_ingress_config : View → Error → AppliedCondition
no_ingress_config v e =
    new_router_certs_degraded "NoIngressConfig"
      (v.sprintf "ingresses.config.openshift.io/cluster could not be retrieved: %v" [] (some e))

-- a pool that is not available is empty
unfoldable pub start_options : View → String → VerifyOptions
start_options v domain = record {
  dns_name = v.route_name <> "." <> domain;
  roots = elim v.system_cert_pool [ ok pool ↦ pool | err e ↦ [] ];
  intermediates = [];
}

unfoldable pub check_chain : View → String → VerifyOptions → List Certificate → AppliedCondition
check_chain v domain opts [] = new_router_certs_degraded "NoServerCertRouterCerts" (
    v.sprintf "secret/%v.spec.data[%v] -n %v: no server certificates found"
      (v.default_secret_name ∷ domain ∷ v.secret_namespace ∷ []) none)
check_chain v domain opts (c ∷ certs) = elim (verify_with_any_certificate v (c ∷ certs) opts) [
  | none ↦ as_expected
  | some e ↦ new_router_certs_degraded "InvalidServerCertRouterCerts" (
      v.sprintf
        "secret/%v.spec.data[%v] -n %v: certificate could not validate route hostname %v: %v"
        (v.default_secret_name ∷ domain ∷ v.secret_namespace ∷ opts.dns_name ∷ []) (some e))
]

-- the roots of the ingress come first; the server certificates of its bundle are ignored
unfoldable pub check_roots : View → String → List Certificate → VerifyOptions → AppliedCondition
unfolding check_chain
check_roots v domain certs opts = elim opts.roots [
  | [] ↦ new_router_certs_degraded "NoRootCARouterCerts" (
      v.sprintf
        "configMap/default-ingress-cert.data[ca-bundle.crt] -n openshift-config-managed: no root CA certificates found in the CM or system"
        [] none)
  | c ∷ roots ↦
      let (later, servers) = populate_verify_options_from_cert_slice opts certs in
      check_chain v domain later servers
]

unfoldable pub check_bundle : View → String → List Certificate → String → AppliedCondition
unfolding check_roots
check_bundle v domain certs pem = elim (v.certs_from_pem pem) [
  | err e ↦ new_router_certs_degraded "MalformedIngressCACertsPem" (
      v.sprintf
        "configMap/default-ingress-cert.data[ca-bundle.crt] -n openshift-config-managed: certificates could not be parsed: %v"
        [] (some e))
  | ok cas ↦
      check_roots v domain certs
        (populate_verify_options_from_cert_slice (start_options v domain) cas).0
]

unfoldable pub check_authorities : View → String → List Certificate → AppliedCondition
unfolding check_bundle
check_authorities v domain certs = elim v.default_ingress_cert [
  | err e ↦ new_router_certs_degraded "NoDefaultIngressCAConfigMap" (
      v.sprintf "failed to get configMap openshift-config-managed/default-ingress-cert: %v" []
        (some e))
  | ok entries ↦ elim (lookup "ca-bundle.crt" entries) [
    | none ↦
        new_router_certs_degraded "MissingIngressCACerts"
          "configMap/default-ingress-cert.data[ca-bundle.crt] -n openshift-config-managed: empty"
    | some pem ↦ check_bundle v domain certs pem
  ]
]

unfoldable pub check_pem : View → String → String → AppliedCondition
unfolding check_authorities
check_pem v domain pem =
    let parsed : AppliedCondition = elim (v.certs_from_pem pem) [
      | err e ↦ new_router_certs_degraded "MalformedRouterCertsPEM" (
          v.sprintf "secret/%v.spec.data[%v] -n %v: certificates could not be parsed: %v"
            (v.default_secret_name ∷ domain ∷ v.secret_namespace ∷ []) (some e))
      | ok certs ↦ check_authorities v domain certs
    ] in
    if is_empty pem
    then new_router_certs_degraded "MissingRouterCertsPEM" (
        v.sprintf "secret/%v.spec.data[%v] -n %v: not found"
          (v.default_secret_name ∷ domain ∷ v.secret_namespace ∷ []) none)
    else parsed

-- secret.Data[domain]: no bytes for a missing key
unfoldable pub pem_of : Secret → String → String
pem_of s domain = elim (lookup domain s.entries) [ none ↦ "" | some b ↦ b ]

-- any other secret than the default one is not validated
unfoldable pub check_active : View → String → Secret → AppliedCondition
unfolding check_pem
check_active v domain s =
    if s.name == "v4-0-config-system-router-certs"
    then check_pem v domain (pem_of s domain)
    else as_expected

unfoldable pub check_domain : View → String → AppliedCondition
unfolding check_active
check_domain v domain =
    let active : AppliedCondition =
      elim (get_active_router_secret v.secrets v.default_secret_name v.custom_secret_name) [
        | err e ↦ new_router_certs_degraded "NoRouterCertSecret" (
            v.sprintf
              "neither the custom secret/%v -n %v or default secret/%v -n %v could be retrieved: %v"
              (v.default_secret_name ∷ v.secret_namespace ∷ v.custom_secret_name
                ∷ v.secret_namespace ∷ [])
              (some e))
        | ok s ↦ check_active v domain s
      ] in
    if is_empty domain
    then new_router_certs_degraded "NoIngressDomain"
        "ingresses.config.openshift.io/cluster: no spec.domain specified"
    else active

unfoldable pub validate_router_certificates : View → AppliedCondition
unfolding check_domain no_ingress_config
validate_router_certificates v = elim v.ingress_domain [
  | err e ↦ no_ingress_config v e
  | ok domain ↦ check_domain v domain
]

-- the deferred update, whose error is that of the sync
unfoldable pub report : View → AppliedCondition → Run Call (Unit {0})
report v condition =
    call v.server (status (apply_operator_status v.controller_instance_name (condition ∷ [])))

-- where the sync of the secret fails, no condition is set
unfoldable pub sync_domain : View → Result String → Run Call (Unit {0})
unfolding report no_ingress_config
sync_domain v (err e) = report v (no_ingress_config v e)
sync_domain v (ok domain) = do
  u ← call v.server (sync_partial_secret domain)
  report v (validate_router_certificates v)

unfoldable pub sync_managed : View → Bool → Run Call (Unit {0})
unfolding sync_domain
sync_managed v false = pure tt
sync_managed v true = sync_domain v v.ingress_domain

unfoldable pub sync_certs : View → Bool → Run Call (Unit {0})
unfolding sync_managed
sync_certs v true = call v.server (status (apply_operator_status v.controller_instance_name []))
sync_certs v false = lift v.is_operator_managed >>= sync_managed v

unfoldable pub sync : View → Run Call (Unit {0})
unfolding sync_certs
sync v = lift v.oidc_available >>= sync_certs v
