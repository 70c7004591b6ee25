-- ===== src/IdpConversion/Convert.antt =====
-- convertIdentityProviders, defaultIDPMappingMethods and convertProviderConfigToIDPData of
-- idp_conversions.go. The JSON form of the converted providers is a parameter of the last function.
use cluster_authentication_o.Base.{
  ℕ, suc, String, Bool, true, false, not, List, [], ◌∷◌, ◌++◌, Option, none, some, Result, ok, err,
  Error, errorf, wrapf, context, is_empty, if◌then◌else◌, map,
}
use cluster_authentication_o.IdpConversion.Types.{
  ProviderType, basic_auth, github, gitlab, google, htpasswd, keystone, ldap, openid,
  request_header, other_type, RemoteConfig, GitHubConfig, GitLabConfig, GoogleConfig,
  KeystoneConfig, LdapConfig, OpenIdConfig, RequestHeaderConfig, ProviderConfig, IdentityProvider,
  Environment, State, Conversion, pure, fail, secret_path, config_map_path,
  create_file_string_source, ◌>>=◌,
}
use cluster_authentication_o.IdpConversion.Providers.{
  RemoteConnectionInfo, basic_auth_provider, github_provider, gitlab_provider, google_provider,
  htpasswd_provider, keystone_provider, ldap_provider, openid_provider, request_header_provider,
  IdpData, Converted,
}
use cluster_authentication_o.IdpConversion.Discovery.{discover_openid_urls}
use cluster_authentication_o.IdpConversion.PasswordGrant.{check_oidc_password_grant_flow}

unfoldable pub default_mapping_method : IdentityProvider → IdentityProvider
default_mapping_method idp = record {
  name = idp.name;
  mapping_method = if is_empty idp.mapping_method then "claim" else idp.mapping_method;
  config = idp.config;
}

unfoldable pub default_idp_mapping_methods : List IdentityProvider → List IdentityProvider
default_idp_mapping_methods = map default_mapping_method

module _ (env : Environment) (i : ℕ) where
  unfoldable pub convert_remote : RemoteConfig → Conversion RemoteConnectionInfo
  convert_remote c = do
    ca ← config_map_path env i c.ca "ca" "ca.crt"
    cert_file ← secret_path env i c.tls_client_cert "tls-client-cert" "tls.crt"
    key_file ← secret_path env i c.tls_client_key "tls-client-key" "tls.key"
    pure (record { url = c.url; ca = ca; cert_file = cert_file; key_file = key_file })

  unfoldable pub convert_basic_auth : RemoteConfig → Conversion IdpData
  convert_basic_auth c = do
    info ← convert_remote c
    pure (record { provider = basic_auth_provider info; challenge = true; login = true })

  unfoldable pub convert_github : GitHubConfig → Conversion IdpData
  convert_github c = do
    client_secret ← secret_path env i c.client_secret "client-secret" "clientSecret"
    ca ← config_map_path env i c.ca "ca" "ca.crt"
    pure (record {
      provider = github_provider (record {
        client_id = c.client_id;
        client_secret = create_file_string_source client_secret;
        organizations = c.organizations;
        teams = c.teams;
        hostname = c.hostname;
        ca = ca;
      });
      challenge = false;
      login = true;
    })

  unfoldable pub convert_gitlab : GitLabConfig → Conversion IdpData
  convert_gitlab c = do
    ca ← config_map_path env i c.ca "ca" "ca.crt"
    client_secret ← secret_path env i c.client_secret "client-secret" "clientSecret"
    pure (record {
      provider = gitlab_provider (record {
        ca = ca;
        url = c.url;
        client_id = c.client_id;
        client_secret = create_file_string_source client_secret;
        legacy = false;
      });
      challenge = true;
      login = true;
    })

  unfoldable pub convert_google : GoogleConfig → Conversion IdpData
  convert_google c = do
    client_secret ← secret_path env i c.client_secret "client-secret" "clientSecret"
    pure (record {
      provider = google_provider (record {
        client_id = c.client_id;
        client_secret = create_file_string_source client_secret;
        hosted_domain = c.hosted_domain;
      });
      challenge = false;
      login = true;
    })

  unfoldable pub convert_htpasswd : String → Conversion IdpData
  convert_htpasswd file_data = do
    file ← secret_path env i file_data "file-data" "htpasswd"
    pure (record { provider = htpasswd_provider file; challenge = true; login = true })

  unfoldable pub convert_keystone : KeystoneConfig → Conversion IdpData
  convert_keystone c = do
    info ← convert_remote c.remote
    pure (record {
      provider =
          keystone_provider
            (record { remote = info; domain_name = c.domain_name; use_keystone_identity = true });
      challenge = true;
      login = true;
    })

  unfoldable pub convert_ldap : LdapConfig → Conversion IdpData
  convert_ldap c = do
    bind_password ← secret_path env i c.bind_password "bind-password" "bindPassword"
    ca ← config_map_path env i c.ca "ca" "ca.crt"
    pure (record {
      provider = ldap_provider (record {
        url = c.url;
        bind_dn = c.bind_dn;
        bind_password = create_file_string_source bind_password;
        insecure = c.insecure;
        ca = ca;
        attributes = c.attributes;
      });
      challenge = true;
      login = true;
    })

  unfoldable pub grant_flow : String → OpenIdConfig → Conversion Bool
  grant_flow token_url c s =
      let (s', r) =
        check_oidc_password_grant_flow env token_url c.client_id c.ca c.client_secret s in
      (s', context "error attempting password grant flow: %v" [] r)

  -- the discovery comes before the additions, and the check of the password grants after them
  unfoldable pub convert_openid : OpenIdConfig → Conversion IdpData
  convert_openid c = do
    urls ← discover_openid_urls env c.issuer "ca.crt" c.ca
    ca ← config_map_path env i c.ca "ca" "ca.crt"
    client_secret ← secret_path env i c.client_secret "client-secret" "clientSecret"
    allowed ← grant_flow urls.token_url c
    pure (record {
      provider = openid_provider (record {
        ca = ca;
        client_id = c.client_id;
        client_secret = create_file_string_source client_secret;
        extra_scopes = c.extra_scopes;
        extra_authorize_parameters = c.extra_authorize_parameters;
        urls = urls;
        id = "sub" ∷ [];
        preferred_username = c.claims.preferred_username;
        name = c.claims.name;
        email = c.claims.email;
        groups = c.claims.groups;
      });
      challenge = allowed;
      login = true;
    })

  unfoldable pub convert_request_header : RequestHeaderConfig → Conversion IdpData
  convert_request_header c = do
    client_ca ← config_map_path env i c.client_ca "ca" "ca.crt"
    pure (record {
      provider = request_header_provider (record {
        login_url = c.login_url;
        challenge_url = c.challenge_url;
        client_ca = client_ca;
        client_common_names = c.client_common_names;
        headers = c.headers;
        preferred_username_headers = c.preferred_username_headers;
        name_headers = c.name_headers;
        email_headers = c.email_headers;
      });
      challenge = not (is_empty c.challenge_url);
      login = not (is_empty c.login_url);
    })

  -- a type whose configuration is missing is an error
  unfoldable pub configured {ℓ} :
      {A : Type ℓ} → Option A → (A → Conversion IdpData) → Conversion IdpData
  configured none f = fail (errorf "type %s was specified, but its configuration is missing" [])
  configured (some c) f = f c

  -- the switch
  unfoldable pub convert_as : ProviderConfig → ProviderType → Conversion IdpData
  unfolding configured
  convert_as p t = elim t [
    | basic_auth ↦ configured p.basic_auth_config convert_basic_auth
    | github ↦ configured p.github_config convert_github
    | gitlab ↦ configured p.gitlab_config convert_gitlab
    | google ↦ configured p.google_config convert_google
    | htpasswd ↦ configured p.htpasswd_config convert_htpasswd
    | keystone ↦ configured p.keystone_config convert_keystone
    | ldap ↦ configured p.ldap_config convert_ldap
    | openid ↦ configured p.openid_config convert_openid
    | request_header ↦ configured p.request_header_config convert_request_header
    | other_type t ↦ fail (errorf "the identity provider type '%s' is not supported" (t ∷ []))
  ]

  unfoldable pub convert_provider_config_to_idp_data : ProviderConfig → Conversion IdpData
  convert_provider_config_to_idp_data p = convert_as p p.type

unfoldable pub converted_of : IdentityProvider → IdpData → Converted
converted_of idp data_ = record {
  name = idp.name;
  use_as_challenger = data_.challenge;
  use_as_login = data_.login;
  mapping_method = idp.mapping_method;
  provider = data_.provider;
}

-- what the loop holds: the state, and the converted providers and the errors, each in their order
pub record Loop : Type 0 where
  pub state : State
  pub converted : List Converted
  pub errs : List Error

-- an error goes to the list of errors, and the loop goes on
unfoldable pub loop_of : IdentityProvider → Loop → State → Result IdpData → Loop
loop_of idp l s (ok data_) = record {
  state = s;
  converted = l.converted ++ converted_of idp data_ ∷ [];
  errs = l.errs;
}
loop_of idp l s (err e) = record {
  state = s;
  converted = l.converted;
  errs = l.errs ++ wrapf "failed to apply IDP %s config: %v" (idp.name ∷ []) e ∷ [];
}

unfoldable pub convert_step : Environment → ℕ → IdentityProvider → Loop → Loop
convert_step env i idp l =
    let (s, r) = convert_provider_config_to_idp_data env i idp.config l.state in loop_of idp l s r

unfoldable pub convert_from : Environment → ℕ → List IdentityProvider → Loop → Loop
convert_from env i [] l = l
convert_from env i (idp ∷ idps) l = convert_from env (suc i) idps (convert_step env i idp l)

-- `to_unstructured` is the JSON of the providers, read back: its error is that of json.Marshal, or
-- that of the decoder, wrapped. The sync data starts empty.
module _ {ℓ} {A : Type ℓ} where
  unfoldable pub outcome_of :
      State → List Error → Result (List A) → State × Option (List A) × List Error
  outcome_of s errs (err e) = (s, none, errs ++ e ∷ [])
  outcome_of s errs (ok items) = (s, some items, errs)

  unfoldable pub convert_identity_providers :
      (List Converted → Result (List A))
      → Environment
      → List IdentityProvider
      → State
      → State × Option (List A) × List Error
  convert_identity_providers to_unstructured env idps s =
      let l = convert_from env 0 (default_idp_mapping_methods idps) (record {
        state = record { sync_data = []; checks = s.checks; requests = s.requests };
        converted = [];
        errs = [];
      }) in
      outcome_of l.state l.errs (to_unstructured l.converted)
