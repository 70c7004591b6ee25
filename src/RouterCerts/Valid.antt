-- ===== src/RouterCerts/Valid.antt =====
-- When a sync of pkg/controllers/routercerts/controller.go reports the certificates as expected.
use cluster_authentication_o.Base.{
  String, ◌≡◌, ◌↔◌, ◌⊎◌, inl, inr, arith, Bool, true, false, List, [], ◌∷◌, some, ok, has, is_empty,
  lookup, ◌==◌, Bool-cases, Option-cases, Result-cases, List-cases,
}
use cluster_authentication_o.Common.Conditions.{
  status_false, AppliedCondition, apply_operator_status,
}
use cluster_authentication_o.Common.IngressConfig.{Secret, get_active_router_secret}
use cluster_authentication_o.RouterCerts.{
  Certificate, VerifyOptions, View, sync_partial_secret, status, verify_with_any_certificate,
  start_options, check_chain, check_roots, check_bundle, check_authorities, check_pem, pem_of,
  check_active, check_domain, validate_router_certificates, report, sync_domain, sync_managed,
  sync_certs, sync,
}
use cluster_authentication_o.RouterCerts.Chains.{
  only, is_server, with_authorities, populate_lem, verifies, verify_with_any_lem,
}

abbrev pub is_nonempty {ℓ} : {A : Type ℓ} → List A → Bool
is_nonempty [] = false
is_nonempty (x ∷ xs) = true

-- The system's pool, as far as there is one, and the authorities of the ingress's bundle.
abbrev pub trusted : View → String → List Certificate → VerifyOptions
trusted v domain cas = with_authorities (start_options v domain) cas

-- The bytes are certificates, of which a server certificate verifies for the host of the route with
-- the authorities of the system, of the ingress's bundle and of the bytes themselves, and the first
-- two have a root.
pub record HasChain (v : View) (domain pem : String) : Type 0 where
  pub certs : List Certificate
  pub entries : List (String × String)
  pub bundle : String
  pub cas : List Certificate
  pub present : is_empty pem ≡ false
  pub parsed : v.certs_from_pem pem ≡ ok certs
  pub found : v.default_ingress_cert ≡ ok entries
  pub bundled : lookup "ca-bundle.crt" entries ≡ some bundle
  pub authorities : v.certs_from_pem bundle ≡ ok cas
  pub rooted : is_nonempty (trusted v domain cas).roots ≡ true
  pub verified :
      has (verifies v (with_authorities (trusted v domain cas) certs)) (only is_server certs) ≡ true

-- The active secret is not the default one, or it has a chain under the domain.
pub record IsServing (v : View) (domain : String) : Type 0 where
  pub secret : Secret
  pub given : is_empty domain ≡ false
  pub active :
      get_active_router_secret v.secrets v.default_secret_name v.custom_secret_name ≡ ok secret
  pub served :
      ((secret.name == "v4-0-config-system-router-certs") ≡ false)
      ⊎ HasChain v domain (pem_of secret domain)

module _ (v : View) (domain : String) where
  chain_lem :
      (opts : VerifyOptions) (servers : List Certificate)
      → ((check_chain v domain opts servers).status ≡ status_false)
        ↔ (has (verifies v opts) servers ≡ true)
  unfolding check_chain
  chain_lem opts [] = ground arith
  chain_lem opts (c ∷ certs) =
      elim (Option-cases (verify_with_any_certificate v (c ∷ certs) opts)) [
        | inl p ↦ ground (arith, p, verify_with_any_lem v opts c certs)
        | inr (e, p) ↦ ground (arith, p, verify_with_any_lem v opts c certs)
      ]

  roots_lem :
      (certs : List Certificate) (opts : VerifyOptions)
      → ((check_roots v domain certs opts).status ≡ status_false) ↔ (
          (is_nonempty opts.roots ≡ true)
          × (has (verifies v (with_authorities opts certs)) (only is_server certs) ≡ true))
  unfolding check_roots
  roots_lem certs opts =
      let chain = chain_lem (with_authorities opts certs) (only is_server certs) in
      elim (List-cases opts.roots) [
        | inl p ↦ ground (arith, p, populate_lem opts certs, chain)
        | inr (c, roots, p) ↦ ground (arith, p, populate_lem opts certs, chain)
      ]

  pem_has : (pem : String) → (check_pem v domain pem).status ≡ status_false → HasChain v domain pem
  unfolding check_pem check_authorities check_bundle
  pem_has pem h = elim (Bool-cases (is_empty pem)) [
    | inl e ↦ absurd (ground (arith, e, h))
    | inr present ↦ elim (Result-cases (v.certs_from_pem pem)) [
      | inr (e, p) ↦ absurd (ground (arith, present, p, h))
      | inl (certs, p) ↦ elim (Result-cases v.default_ingress_cert) [
        | inr (e, q) ↦ absurd (ground (arith, present, p, q, h))
        | inl (entries, q) ↦ elim (Option-cases (lookup "ca-bundle.crt" entries)) [
          | inl r ↦ absurd (ground (arith, present, p, q, r, h))
          | inr (bundle, r) ↦ elim (Result-cases (v.certs_from_pem bundle)) [
            | inr (e, t) ↦ absurd (ground (arith, present, p, q, r, t, h))
            | inl (cas, t) ↦
                let (rooted, verified) = (roots_lem certs (trusted v domain cas)).0 (
                  ground
                    (arith, present, p, q, r, t, h, populate_lem (start_options v domain) cas)) in
                record {
                  certs = certs;
                  entries = entries;
                  bundle = bundle;
                  cas = cas;
                  present = present;
                  parsed = p;
                  found = q;
                  bundled = r;
                  authorities = t;
                  rooted = rooted;
                  verified = verified;
                }
          ]
        ]
      ]
    ]
  ]

  pem_serves :
      (pem : String) → HasChain v domain pem → (check_pem v domain pem).status ≡ status_false
  unfolding check_pem check_authorities check_bundle
  pem_serves pem c =
      let good = (roots_lem c.certs (trusted v domain c.cas)).1 (c.rooted, c.verified) in
      ground (
        arith,
        c.present,
        c.parsed,
        c.found,
        c.bundled,
        c.authorities,
        good,
        populate_lem (start_options v domain) c.cas,
      )

  domain_has : (check_domain v domain).status ≡ status_false → IsServing v domain
  unfolding check_domain check_active
  domain_has h = elim (Bool-cases (is_empty domain)) [
    | inl e ↦ absurd (ground (arith, e, h))
    | inr given ↦
        elim (Result-cases
          (get_active_router_secret v.secrets v.default_secret_name v.custom_secret_name)) [
            | inr (e, p) ↦ absurd (ground (arith, given, p, h))
            | inl (s, p) ↦ record {
              secret = s;
              given = given;
              active = p;
              served = elim (Bool-cases (s.name == "v4-0-config-system-router-certs")) [
                | inr other ↦ inl other
                | inl default ↦
                    inr (pem_has (pem_of s domain) (ground (arith, given, p, default, h)))
              ];
            }
          ]
  ]

  domain_serves : IsServing v domain → (check_domain v domain).status ≡ status_false
  unfolding check_domain check_active
  domain_serves i = elim i.served [
    | inl other ↦ ground (arith, i.given, i.active, other)
    | inr chain ↦ elim (Bool-cases (i.secret.name == "v4-0-config-system-router-certs")) [
      | inr other ↦ ground (arith, i.given, i.active, other)
      | inl default ↦
          ground (arith, i.given, i.active, default, pem_serves (pem_of i.secret domain) chain)
    ]
  ]

  domain_type : (check_domain v domain).type ≡ "RouterCertsDegraded"
  unfolding check_domain check_active check_pem check_authorities check_bundle check_roots
      check_chain
  domain_type = ground arith

  -- Without external OIDC, for a managed operator, an ingress that is found and a secret that can be
  -- synced, a sync syncs the router secret of the domain and then applies one condition, which is
  -- False exactly where the active secret is another than the default one, or a server certificate
  -- that it has under the domain verifies for the host of the route with the authorities of the
  -- system, of the ingress's bundle and of the secret, of which the first two have a root. The sync
  -- returns what the apply returns.
  pub IsServing-iff :
      v.oidc_available ≡ ok false
      → v.is_operator_managed ≡ ok true
      → v.ingress_domain ≡ ok domain
      → v.server (sync_partial_secret domain) ≡ ok tt
      → (c : AppliedCondition) × (sync v ≡ (
        sync_partial_secret domain
            ∷ status (apply_operator_status v.controller_instance_name (c ∷ []))
            ∷ [],
        v.server (status (apply_operator_status v.controller_instance_name (c ∷ []))),
      ))
        × (c.type ≡ "RouterCertsDegraded")
        × ((c.status ≡ status_false) ↔ IsServing v domain)
  unfolding sync sync_certs sync_managed sync_domain report validate_router_certificates
  IsServing-iff no_oidc managed found synced = (
    check_domain v domain,
    ground (arith, no_oidc, managed, found, synced),
    domain_type,
    (domain_has, domain_serves),
  )
