-- ===== src/RouterCerts/Examples.antt =====
-- A default router secret with a server certificate that the authority of the ingress signed.
use cluster_authentication_o.Base.{
  ◌≡◌, ◌↔◌, refl, true, false, [], ◌∷◌, none, some, not_found, failure, ok, err, ◌==◌,
  if◌then◌else◌, inr,
}
use cluster_authentication_o.Common.Conditions.{
  status_false, AppliedCondition, apply_operator_status,
}
use cluster_authentication_o.Common.IngressConfig.{Secret, get_active_router_secret}
use cluster_authentication_o.RouterCerts.{
  Certificate, View, sync_partial_secret, status, sync, is_root, start_options, pem_of,
}
use cluster_authentication_o.RouterCerts.Valid.{IsServing, IsServing-iff}

abbrev server : Certificate
server = record { is_ca = false; raw_subject = "apps"; raw_issuer = "ca"; raw = "server" }

abbrev root : Certificate
root = record { is_ca = true; raw_subject = "ca"; raw_issuer = "ca"; raw = "root" }

abbrev secret : Secret
secret = record {
  name = "v4-0-config-system-router-certs";
  entries = ("apps.example.com", "server") ∷ [];
}

abbrev view : View
view = record {
  controller_instance_name = "RouterCertsDomainValidation";
  default_secret_name = "v4-0-config-system-router-certs";
  custom_secret_name = "v4-0-config-system-custom-router-certs";
  secret_namespace = "openshift-authentication";
  route_name = "oauth-openshift";
  sprintf = λ format args e. format;
  oidc_available = ok false;
  is_operator_managed = ok true;
  ingress_domain = ok "apps.example.com";
  secrets = λ n. if n == "v4-0-config-system-router-certs" then ok secret else err not_found;
  default_ingress_cert = ok (("ca-bundle.crt", "root") ∷ []);
  certs_from_pem = λ pem. if pem == "server" then ok (server ∷ []) else ok (root ∷ []);
  system_cert_pool = err (failure "no system pool");
  verify = λ c opts.
      if opts.dns_name == "oauth-openshift.apps.example.com"
      then none
      else some (failure "wrong name");
  server = λ c. ok tt;
}

IsServing-iff_example :
    (c : AppliedCondition) × (sync view ≡ (
      sync_partial_secret "apps.example.com"
          ∷ status (apply_operator_status "RouterCertsDomainValidation" (c ∷ []))
          ∷ [],
      ok tt,
    ))
    × (c.type ≡ "RouterCertsDegraded")
    × ((c.status ≡ status_false) ↔ IsServing view "apps.example.com")
IsServing-iff_example = IsServing-iff view "apps.example.com" refl refl refl refl

-- it serves
serving : IsServing view "apps.example.com"
unfolding get_active_router_secret is_root start_options pem_of
serving = record {
  secret = secret;
  given = refl;
  active = refl;
  served = inr (record {
    certs = server ∷ [];
    entries = ("ca-bundle.crt", "root") ∷ [];
    bundle = "root";
    cas = root ∷ [];
    present = refl;
    parsed = refl;
    found = refl;
    bundled = refl;
    authorities = refl;
    rooted = refl;
    verified = refl;
  });
}
