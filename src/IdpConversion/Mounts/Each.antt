-- ===== src/IdpConversion/Mounts/Each.antt =====
-- convertProviderConfigToIDPData places the files of the provider that it converts.
use cluster_authentication_o.Base.{
  ℕ, String, ◌≡◌, ◌≢◌, refl, ap, ◌∙◌, true, false, arith, Option, none, some, ok, [], ◌∷◌, ◌++◌,
  Bool-cases, Result-cases, List, eq_iff, inl, inr, lookup, is_empty, ◌==◌, All,
}
use cluster_authentication_o.DataSync.SyncData.{SyncData}
use cluster_authentication_o.DataSync.Sources.{get_idp_name, add_idp_secret, add_idp_config_map}
use cluster_authentication_o.DataSync.Volumes.{added-IsMounted}
use cluster_authentication_o.IdpConversion.Types.{
  Environment, State, Conversion, basic_auth, github, gitlab, google, htpasswd, keystone, ldap,
  openid, request_header, other_type, ProviderConfig, RemoteConfig, KeystoneConfig, OpenIdConfig,
  config_map_path, secret_path, create_file_string_source,
}
use cluster_authentication_o.IdpConversion.Providers.{RemoteConnectionInfo, IdpData}
use cluster_authentication_o.IdpConversion.Discovery.{discover_openid_urls}
use cluster_authentication_o.IdpConversion.PasswordGrant.{check_oidc_password_grant_flow}
use cluster_authentication_o.IdpConversion.Convert.{
  convert_provider_config_to_idp_data, convert_as, configured, grant_flow, convert_remote,
  convert_basic_auth, convert_github, convert_gitlab, convert_google, convert_htpasswd,
  convert_keystone, convert_ldap, convert_openid, convert_request_header,
}
use cluster_authentication_o.IdpConversion.Mounts.{
  Reference, ca_of, secret_of, remote_references, remote_paths, references, references_as, given,
  IsPlaced, ArePlaced, Serves,
}
use cluster_authentication_o.IdpConversion.Mounts.Names.{get_idp_name_field}
use cluster_authentication_o.IdpConversion.Mounts.Keeps.{
  lookup-add_idp_secret, lookup-add_idp_config_map, check-sync_data,
}

-- What is placed stays so while the entry does.
pub keep-IsPlaced :
    (show : ℕ → String) (data_ later : SyncData) (i : ℕ) (r : Reference) (path : String)
    → lookup (get_idp_name show i r.field) later ≡ lookup (get_idp_name show i r.field) data_
    → IsPlaced show data_ i r path
    → IsPlaced show later i r path
keep-IsPlaced show data_ later i r path same = elim (Bool-cases (is_empty r.name)) [
  | inl e ↦ rw e (λ p. p)
  | inr h ↦ rw h (λ m. record {
    entry = m.entry;
    volume = m.volume;
    mount = m.mount;
    found = same ∙ m.found;
    named = m.named;
    volumes = m.volumes;
    of_kind = m.of_kind;
    located = m.located;
  })
]

module _ (show : ℕ → String) (data_ : SyncData) (i : ℕ) (name field key : String) where
  secret-IsPlaced :
      IsPlaced show
        (add_idp_secret show data_ i name field key).1
        i
        (secret_of field name)
        (add_idp_secret show data_ i name field key).0
  secret-IsPlaced = elim (Bool-cases (is_empty name)) [
    | inl e ↦ unfold add_idp_secret in rw e refl
    | inr h ↦ rw h (added-IsMounted show data_ i name field key h).0
  ]

  config_map-IsPlaced :
      IsPlaced show
        (add_idp_config_map show data_ i name field key).1
        i
        (record { field = field; of_config_map = true; name = name })
        (add_idp_config_map show data_ i name field key).0
  config_map-IsPlaced = elim (Bool-cases (is_empty name)) [
    | inl e ↦ unfold add_idp_config_map in rw e refl
    | inr h ↦ rw h (added-IsMounted show data_ i name field key h).1
  ]

apart :
    (show : ℕ → String) (i : ℕ) (f g : String)
    → (f == g) ≡ false
    → get_idp_name show i f ≢ get_idp_name show i g
apart show i f g h p = ground (arith, h, eq_iff f g, get_idp_name_field show i f g p)

-- What is placed stays so while its entries do.
pub keep-ArePlaced :
    (show : ℕ → String) (i : ℕ) (data_ later : SyncData) (rs : List Reference) {ps : List String}
    → All
        (λ r.
          lookup (get_idp_name show i r.field) later ≡ lookup (get_idp_name show i r.field) data_)
        rs
    → ArePlaced show data_ i rs ps
    → ArePlaced show later i rs ps
keep-ArePlaced show i data_ later rs all ArePlaced.done = ArePlaced.done
keep-ArePlaced show i data_ later rs all (ArePlaced.next {r} {path} {rs = qs} {ps} p rest) =
    ArePlaced.next (keep-IsPlaced show data_ later i r path all.0 p)
      (keep-ArePlaced show i data_ later qs all.1 rest)

module _ (env : Environment) (i : ℕ) where
  -- Additions of different fields.
  secret_then_ca :
      (data_ : SyncData) (a c field key : String)
      → (("ca" == field) ≡ false)
      → let d1 = add_idp_secret env.show data_ i a field key in
        let d2 = add_idp_config_map env.show d1.1 i c "ca" "ca.crt" in
        ArePlaced env.show d2.1 i (secret_of field a ∷ ca_of c ∷ []) (d1.0 ∷ d2.0 ∷ [])
  secret_then_ca data_ a c field key h =
      let d1 = add_idp_secret env.show data_ i a field key in
      let d2 = add_idp_config_map env.show d1.1 i c "ca" "ca.crt" in
      ArePlaced.next
        (keep-IsPlaced env.show d1.1 d2.1 i (secret_of field a) d1.0
          (lookup-add_idp_config_map env.show d1.1 i c "ca" "ca.crt" _
            (apart env.show i "ca" field h))
          (secret-IsPlaced env.show data_ i a field key))
        (ArePlaced.next (config_map-IsPlaced env.show d1.1 i c "ca" "ca.crt") ArePlaced.done)

  ca_then_secret :
      (data_ : SyncData) (a c field key : String)
      → ((field == "ca") ≡ false)
      → let d1 = add_idp_config_map env.show data_ i c "ca" "ca.crt" in
        let d2 = add_idp_secret env.show d1.1 i a field key in
        ArePlaced env.show d2.1 i (ca_of c ∷ secret_of field a ∷ []) (d1.0 ∷ d2.0 ∷ [])
  ca_then_secret data_ a c field key h =
      let d1 = add_idp_config_map env.show data_ i c "ca" "ca.crt" in
      let d2 = add_idp_secret env.show d1.1 i a field key in
      ArePlaced.next
        (keep-IsPlaced env.show d1.1 d2.1 i (ca_of c) d1.0
          (lookup-add_idp_secret env.show d1.1 i a field key _ (apart env.show i field "ca" h))
          (config_map-IsPlaced env.show data_ i c "ca" "ca.crt"))
        (ArePlaced.next (secret-IsPlaced env.show d1.1 i a field key) ArePlaced.done)

  snoc-ArePlaced :
      (data_ : SyncData) (rs : List Reference) {ps : List String} (r : Reference) (path : String)
      → ArePlaced env.show data_ i rs ps
      → IsPlaced env.show data_ i r path
      → ArePlaced env.show data_ i (rs ++ r ∷ []) (ps ++ path ∷ [])
  snoc-ArePlaced data_ rs r path ArePlaced.done p = ArePlaced.next p ArePlaced.done
  snoc-ArePlaced data_ rs r path (ArePlaced.next {r = q} {rs = qs} first rest) p =
      ArePlaced.next first (snoc-ArePlaced data_ qs r path rest p)

  remote_placed :
      (c : RemoteConfig) (s : State)
      → (info : RemoteConnectionInfo) × ((convert_remote env i c s).1 ≡ ok info)
        × ArePlaced env.show
            (convert_remote env i c s).0.sync_data
            i
            (remote_references c)
            (remote_paths info)
  unfolding convert_remote
  remote_placed c s =
      let d2 =
        (add_idp_secret env.show (add_idp_config_map env.show s.sync_data i c.ca "ca" "ca.crt").1 i
          c.tls_client_cert "tls-client-cert" "tls.crt").1 in
      let d3 = add_idp_secret env.show d2 i c.tls_client_key "tls-client-key" "tls.key" in
      let keeps = (λ (f : String) (h : ("tls-client-key" == f) ≡ false).
        lookup-add_idp_secret env.show d2 i c.tls_client_key "tls-client-key" "tls.key" _
          (apart env.show i "tls-client-key" f h)) in
      (
        _,
        refl,
        snoc-ArePlaced d3.1 (ca_of c.ca ∷ secret_of "tls-client-cert" c.tls_client_cert ∷ [])
            (secret_of "tls-client-key" c.tls_client_key) d3.0
            (keep-ArePlaced env.show i d2 d3.1
              (ca_of c.ca ∷ secret_of "tls-client-cert" c.tls_client_cert ∷ [])
              (keeps "ca" refl, (keeps "tls-client-cert" refl, tt))
              (ca_then_secret s.sync_data c.tls_client_cert c.ca "tls-client-cert" "tls.crt" refl))
            (secret-IsPlaced env.show d2 i c.tls_client_key "tls-client-key" "tls.key"),
      )

  configured-Serves {ℓ} :
      {A : Type ℓ} (s : State) (o : Option A) (f : A → Conversion IdpData) (rs : A → List Reference)
      → ((c : A) → Serves env.show i (rs c) (f c s))
      → Serves env.show i (given o rs) (configured env i o f s)
  unfolding configured
  configured-Serves s none f rs h = tt
  configured-Serves s (some c) f rs h = h c

  basic_auth-Serves :
      (s : State) (c : RemoteConfig)
      → Serves env.show i (remote_references c) (convert_basic_auth env i c s)
  unfolding convert_basic_auth
  basic_auth-Serves s c = let (info, p, placed) = remote_placed c s in rw p placed

  keystone-Serves :
      (s : State) (c : KeystoneConfig)
      → Serves env.show i (remote_references c.remote) (convert_keystone env i c s)
  unfolding convert_keystone
  keystone-Serves s c = let (info, p, placed) = remote_placed c.remote s in rw p placed

  openid-Serves :
      (s : State) (c : OpenIdConfig)
      → Serves env.show i
          (ca_of c.ca ∷ secret_of "client-secret" c.client_secret ∷ [])
          (convert_openid env i c s)
  unfolding convert_openid grant_flow create_file_string_source
  openid-Serves s c =
      let (s1, r) = discover_openid_urls env c.issuer "ca.crt" c.ca s in
      elim (Result-cases r) [
        | inr (e, p) ↦ rw p tt
        | inl (urls, p) ↦
            let s3 =
              (secret_path env i c.client_secret "client-secret" "clientSecret"
                (config_map_path env i c.ca "ca" "ca.crt" s1).0).0 in
            let (s4, checked) =
              check_oidc_password_grant_flow env urls.token_url c.client_id c.ca c.client_secret
                s3 in
            let same = (λ (dest : String).
              ap (lookup dest)
                (check-sync_data env s3 urls.token_url c.client_id c.ca c.client_secret)) in
            rw p (elim (Result-cases checked) [
              | inr (e, q) ↦ rw q tt
              | inl (b, q) ↦ rw q (
                  keep-ArePlaced env.show i s3.sync_data s4.sync_data
                    (ca_of c.ca ∷ secret_of "client-secret" c.client_secret ∷ [])
                    (same _, (same _, tt))
                    (ca_then_secret s1.sync_data c.client_secret c.ca "client-secret" "clientSecret"
                      refl))
            ])
      ]

  -- Whatever the state, the files of a provider that converts are placed under its index.
  pub convert-Serves :
      (p : ProviderConfig) (s : State)
      → Serves env.show i (references p) (convert_provider_config_to_idp_data env i p s)
  unfolding convert_provider_config_to_idp_data convert_as convert_github convert_gitlab
      convert_google convert_htpasswd convert_ldap convert_request_header create_file_string_source
  convert-Serves p s =
      elim p.type as (λ t. Serves env.show i (references_as p t) (convert_as env i p t s)) [
        | basic_auth ↦
            configured-Serves s p.basic_auth_config (convert_basic_auth env i) remote_references
              (basic_auth-Serves s)
        | github ↦ configured-Serves s p.github_config (convert_github env i) _ (λ c.
            secret_then_ca s.sync_data c.client_secret c.ca "client-secret" "clientSecret" refl)
        | gitlab ↦ configured-Serves s p.gitlab_config (convert_gitlab env i) _ (λ c.
            ca_then_secret s.sync_data c.client_secret c.ca "client-secret" "clientSecret" refl)
        | google ↦ configured-Serves s p.google_config (convert_google env i) _ (λ c.
            ArePlaced.next
              (secret-IsPlaced env.show s.sync_data i c.client_secret "client-secret"
                "clientSecret")
              ArePlaced.done)
        | htpasswd ↦ configured-Serves s p.htpasswd_config (convert_htpasswd env i) _ (λ c.
            ArePlaced.next (secret-IsPlaced env.show s.sync_data i c "file-data" "htpasswd")
              ArePlaced.done)
        | keystone ↦
            configured-Serves s p.keystone_config (convert_keystone env i) _ (keystone-Serves s)
        | ldap ↦ configured-Serves s p.ldap_config (convert_ldap env i) _ (λ c.
            secret_then_ca s.sync_data c.bind_password c.ca "bind-password" "bindPassword" refl)
        | openid ↦ configured-Serves s p.openid_config (convert_openid env i) _ (openid-Serves s)
        | request_header ↦
            configured-Serves s p.request_header_config (convert_request_header env i) _ (λ c.
              ArePlaced.next (config_map-IsPlaced env.show s.sync_data i c.client_ca "ca" "ca.crt")
                ArePlaced.done)
        | other_type t ↦ tt
      ]
