-- ===== src/IdpConversion/Mounts/Keeps.antt =====
-- convertProviderConfigToIDPData changes only the entries of its own index in the sync data.
use mathlib.Core.Option.{none, some}
use cluster_authentication_o.Base.{
  ℕ, String, ◌≡◌, ◌≢◌, refl, ◌∙◌, arith, Option, Bool-cases, Result-cases, eq_iff, inl, inr, lookup,
  is_empty,
}
use cluster_authentication_o.DataSync.SyncData.{SyncData}
use cluster_authentication_o.DataSync.Sources.{get_idp_name, add_idp_secret, add_idp_config_map}
use cluster_authentication_o.DataSync.Volumes.{added-IsMounted}
use cluster_authentication_o.IdpConversion.Types.{
  Environment, State, Conversion, Secret, config_map_path, secret_path, basic_auth, github, gitlab,
  google, htpasswd, keystone, ldap, openid, request_header, other_type, ProviderConfig,
  RemoteConfig, OpenIdConfig,
}
use cluster_authentication_o.IdpConversion.Discovery.{discover_openid_urls}
use cluster_authentication_o.IdpConversion.PasswordGrant.{
  record_check, check_secret, try_password_grant, check_oidc_password_grant_flow,
}
use cluster_authentication_o.IdpConversion.Convert.{
  convert_provider_config_to_idp_data, convert_as, configured, grant_flow, convert_remote,
  convert_basic_auth, convert_github, convert_gitlab, convert_google, convert_htpasswd,
  convert_keystone, convert_ldap, convert_openid, convert_request_header,
}
use cluster_authentication_o.IdpConversion.Providers.{IdpData}

-- An addition changes no other entry than that of its name.
module _ (show : ℕ → String) (data_ : SyncData) (j : ℕ) (name g key dest : String)
    (other : get_idp_name show j g ≢ dest) where
  pub lookup-add_idp_secret :
      lookup dest (add_idp_secret show data_ j name g key).1 ≡ lookup dest data_
  lookup-add_idp_secret = elim (Bool-cases (is_empty name)) [
    | inl e ↦ unfold add_idp_secret in rw e refl
    | inr h ↦
        ((added-IsMounted show data_ j name g key h).2 dest).0
        ∙ ground (arith, eq_iff (get_idp_name show j g) dest, other)
  ]

  pub lookup-add_idp_config_map :
      lookup dest (add_idp_config_map show data_ j name g key).1 ≡ lookup dest data_
  lookup-add_idp_config_map = elim (Bool-cases (is_empty name)) [
    | inl e ↦ unfold add_idp_config_map in rw e refl
    | inr h ↦
        ((added-IsMounted show data_ j name g key h).2 dest).1
        ∙ ground (arith, eq_iff (get_idp_name show j g) dest, other)
  ]

-- The requests and the checks leave the sync data alone.
module _ (env : Environment) (s : State) where
  pub discover-sync_data :
      (issuer key ca : String)
      → (discover_openid_urls env issuer key ca s).0.sync_data ≡ s.sync_data
  unfolding discover_openid_urls
  discover-sync_data issuer key ca = ground arith

  try-sync_data :
      (token_url client_id ca : String) (secret : Secret)
      → (try_password_grant env token_url client_id ca secret s).0.sync_data ≡ s.sync_data
  unfolding try_password_grant record_check
  try-sync_data token_url client_id ca secret = ground arith

  pub check-sync_data :
      (token_url client_id ca name : String)
      → (check_oidc_password_grant_flow env token_url client_id ca name s).0.sync_data ≡ s.sync_data
  unfolding check_oidc_password_grant_flow check_secret
  check-sync_data token_url client_id ca name = elim (Result-cases (env.secret name)) [
    | inl (secret, p) ↦ ground (arith, p, try-sync_data token_url client_id ca secret)
    | inr (e, p) ↦ ground (arith, p)
  ]

-- `dest` is no name of the index.
module _ (env : Environment) (i : ℕ) (dest : String)
    (other : (g : String) → get_idp_name env.show i g ≢ dest) (s : State) where
  secret :
      (data_ : SyncData) (name g key : String)
      → lookup dest (add_idp_secret env.show data_ i name g key).1 ≡ lookup dest data_
  secret data_ name g key = lookup-add_idp_secret env.show data_ i name g key dest (other g)

  config_map :
      (data_ : SyncData) (name g key : String)
      → lookup dest (add_idp_config_map env.show data_ i name g key).1 ≡ lookup dest data_
  config_map data_ name g key = lookup-add_idp_config_map env.show data_ i name g key dest (other g)

  remote_lookup :
      (c : RemoteConfig)
      → lookup dest (convert_remote env i c s).0.sync_data ≡ lookup dest s.sync_data
  unfolding convert_remote
  remote_lookup c = secret _ _ _ _ ∙ secret _ _ _ _ ∙ config_map _ _ _ _

  openid_lookup :
      (c : OpenIdConfig)
      → lookup dest (convert_openid env i c s).0.sync_data ≡ lookup dest s.sync_data
  unfolding convert_openid grant_flow
  openid_lookup c =
      let (s1, r) = discover_openid_urls env c.issuer "ca.crt" c.ca s in
      let s2 = (config_map_path env i c.ca "ca" "ca.crt" s1).0 in
      let s3 = (secret_path env i c.client_secret "client-secret" "clientSecret" s2).0 in
      elim (Result-cases r) [
        | inr (e, p) ↦ ground (arith, p, discover-sync_data env s c.issuer "ca.crt" c.ca)
        | inl (urls, p) ↦
            let checked =
              check_oidc_password_grant_flow env urls.token_url c.client_id c.ca c.client_secret
                s3 in
            let kept : lookup dest checked.0.sync_data ≡ lookup dest s.sync_data = ground (
              arith,
              discover-sync_data env s c.issuer "ca.crt" c.ca,
              check-sync_data env s3 urls.token_url c.client_id c.ca c.client_secret,
              secret s2.sync_data c.client_secret "client-secret" "clientSecret",
              config_map s1.sync_data c.ca "ca" "ca.crt",
            ) in
            elim (Result-cases checked.1) [
              | inr (e, q) ↦ ground (arith, p, q, kept)
              | inl (b, q) ↦ ground (arith, p, q, kept)
            ]
      ]

  lookup-configured {ℓ} :
      {A : Type ℓ} (o : Option A) (f : A → Conversion IdpData)
      → ((c : A) → lookup dest (f c s).0.sync_data ≡ lookup dest s.sync_data)
      → lookup dest (configured env i o f s).0.sync_data ≡ lookup dest s.sync_data
  unfolding configured
  lookup-configured none f h = refl
  lookup-configured (some c) f h = h c

  pub convert_lookup :
      (p : ProviderConfig)
      → lookup dest (convert_provider_config_to_idp_data env i p s).0.sync_data
        ≡ lookup dest s.sync_data
  unfolding convert_provider_config_to_idp_data convert_basic_auth convert_github convert_gitlab
      convert_google convert_htpasswd convert_keystone convert_ldap convert_request_header
      convert_remote convert_as configured
  convert_lookup p =
      elim p.type
        as (λ t. lookup dest (convert_as env i p t s).0.sync_data ≡ lookup dest s.sync_data) [
          | basic_auth ↦
              lookup-configured p.basic_auth_config (convert_basic_auth env i) remote_lookup
          | github ↦
              lookup-configured p.github_config (convert_github env i)
                (λ c. config_map _ _ _ _ ∙ secret _ _ _ _)
          | gitlab ↦
              lookup-configured p.gitlab_config (convert_gitlab env i)
                (λ c. secret _ _ _ _ ∙ config_map _ _ _ _)
          | google ↦ lookup-configured p.google_config (convert_google env i) (λ c. secret _ _ _ _)
          | htpasswd ↦
              lookup-configured p.htpasswd_config (convert_htpasswd env i) (λ c. secret _ _ _ _)
          | keystone ↦
              lookup-configured p.keystone_config (convert_keystone env i)
                (λ c. remote_lookup c.remote)
          | ldap ↦
              lookup-configured p.ldap_config (convert_ldap env i)
                (λ c. config_map _ _ _ _ ∙ secret _ _ _ _)
          | openid ↦ lookup-configured p.openid_config (convert_openid env i) openid_lookup
          | request_header ↦
              lookup-configured p.request_header_config (convert_request_header env i)
                (λ c. config_map _ _ _ _)
          | other_type t ↦ refl
        ]
