-- ===== src/IdpConversion/Providers.antt =====
-- The identity providers of osin/v1, as far as idp_conversions.go fills them. A URL of the metadata
-- of an OpenID provider has the names of that metadata.
use cluster_authentication_o.Base.{String, Bool, List}
use cluster_authentication_o.IdpConversion.Types.{OpenIdProviderJson, StringSource, LdapAttributes}

pub record RemoteConnectionInfo : Type 0 where
  pub url : String
  pub ca : String
  pub cert_file : String
  pub key_file : String

pub record GitHub : Type 0 where
  pub client_id : String
  pub client_secret : StringSource
  pub organizations : List String
  pub teams : List String
  pub hostname : String
  pub ca : String

pub record GitLab : Type 0 where
  pub ca : String
  pub url : String
  pub client_id : String
  pub client_secret : StringSource
  pub legacy : Bool

pub record Google : Type 0 where
  pub client_id : String
  pub client_secret : StringSource
  pub hosted_domain : String

pub record Keystone : Type 0 where
  pub remote : RemoteConnectionInfo
  pub domain_name : String
  pub use_keystone_identity : Bool

pub record Ldap : Type 0 where
  pub url : String
  pub bind_dn : String
  pub bind_password : StringSource
  pub insecure : Bool
  pub ca : String
  pub attributes : LdapAttributes

pub record OpenId : Type 0 where
  pub ca : String
  pub client_id : String
  pub client_secret : StringSource
  pub extra_scopes : List String
  pub extra_authorize_parameters : List (String × String)
  pub urls : OpenIdProviderJson
  pub id : List String
  pub preferred_username : List String
  pub name : List String
  pub email : List String
  pub groups : List String

pub record RequestHeader : Type 0 where
  pub login_url : String
  pub challenge_url : String
  pub client_ca : String
  pub client_common_names : List String
  pub headers : List String
  pub preferred_username_headers : List String
  pub name_headers : List String
  pub email_headers : List String

pub data Provider : Type 0 where
  basic_auth_provider : RemoteConnectionInfo → Provider
  github_provider : GitHub → Provider
  gitlab_provider : GitLab → Provider
  google_provider : Google → Provider
  htpasswd_provider : String → Provider
  keystone_provider : Keystone → Provider
  ldap_provider : Ldap → Provider
  openid_provider : OpenId → Provider
  request_header_provider : RequestHeader → Provider

pub record IdpData : Type 0 where
  pub provider : Provider
  pub challenge : Bool
  pub login : Bool

-- an identity provider of the OAuth server; `provider` is what encodeOrDie encodes
pub record Converted : Type 0 where
  pub name : String
  pub use_as_challenger : Bool
  pub use_as_login : Bool
  pub mapping_method : String
  pub provider : Provider
