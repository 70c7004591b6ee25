-- ===== src/IdpConversion/Types.antt =====
-- The data of idp_conversions.go, and the state of a conversion. The transports, the secrets, and
-- the readers of URLs and JSON are fields of the environment.
use cluster_authentication_o.Base.{
  ℕ, String, Bool, List, [], ◌∷◌, ◌++◌, Option, Error, Result, ok, err,
}
use cluster_authentication_o.DataSync.SyncData.{SyncData}
use cluster_authentication_o.DataSync.Sources.{add_idp_secret, add_idp_config_map}

-- a secret of openshift-config
pub record Secret : Type 0 where
  pub resource_version : String
  pub values : List (String × String)

-- the form is what the body encodes, in the order of its additions
pub record Request : Type 0 where
  pub method : String
  pub url : String
  pub form : List (String × String)
  pub headers : List (String × String)

pub record Response : Type 0 where
  pub status_code : ℕ
  pub body : String

-- http.RoundTripper, and the `Do` of an http.Client with it
pub record Transport : Type 0 where
  pub round_trip : Request → Result Response
  pub client_do : Request → Result Response

pub record Url : Type 0 where
  pub scheme : String
  pub host : String
  pub fragment : String

pub record OpenIdProviderJson : Type 0 where
  pub auth_url : String
  pub token_url : String
  pub user_info_url : String

-- a value of an object: a text, or anything else
pub data JsonValue : Type 0 where
  text : String → JsonValue
  other_value : JsonValue

-- the file of a string source; the other three fields stay empty
pub record StringSource : Type 0 where
  pub value : String
  pub env : String
  pub file : String
  pub key_file : String

-- the input: the configurations of oauth.config.openshift.io
pub data ProviderType : Type 0 where
  basic_auth github gitlab google htpasswd keystone ldap openid request_header : ProviderType
  other_type : String → ProviderType

pub record RemoteConfig : Type 0 where
  pub url : String
  pub ca : String
  pub tls_client_cert : String
  pub tls_client_key : String

pub record GitHubConfig : Type 0 where
  pub client_id : String
  pub client_secret : String
  pub organizations : List String
  pub teams : List String
  pub hostname : String
  pub ca : String

pub record GitLabConfig : Type 0 where
  pub client_id : String
  pub client_secret : String
  pub url : String
  pub ca : String

pub record GoogleConfig : Type 0 where
  pub client_id : String
  pub client_secret : String
  pub hosted_domain : String

pub record KeystoneConfig : Type 0 where
  pub remote : RemoteConfig
  pub domain_name : String

pub record LdapAttributes : Type 0 where
  pub id : List String
  pub preferred_username : List String
  pub name : List String
  pub email : List String

pub record LdapConfig : Type 0 where
  pub url : String
  pub bind_dn : String
  pub bind_password : String
  pub insecure : Bool
  pub ca : String
  pub attributes : LdapAttributes

pub record OpenIdClaims : Type 0 where
  pub preferred_username : List String
  pub name : List String
  pub email : List String
  pub groups : List String

pub record OpenIdConfig : Type 0 where
  pub client_id : String
  pub client_secret : String
  pub ca : String
  pub extra_scopes : List String
  pub extra_authorize_parameters : List (String × String)
  pub issuer : String
  pub claims : OpenIdClaims

pub record RequestHeaderConfig : Type 0 where
  pub login_url : String
  pub challenge_url : String
  pub client_ca : String
  pub client_common_names : List String
  pub headers : List String
  pub preferred_username_headers : List String
  pub name_headers : List String
  pub email_headers : List String

pub record ProviderConfig : Type 0 where
  pub type : ProviderType
  pub basic_auth_config : Option RemoteConfig
  pub github_config : Option GitHubConfig
  pub gitlab_config : Option GitLabConfig
  pub google_config : Option GoogleConfig
  -- the secret that fileData names
  pub htpasswd_config : Option String
  pub keystone_config : Option KeystoneConfig
  pub ldap_config : Option LdapConfig
  pub openid_config : Option OpenIdConfig
  pub request_header_config : Option RequestHeaderConfig

pub record IdentityProvider : Type 0 where
  pub name : String
  pub mapping_method : String
  pub config : ProviderConfig

-- What the conversion asks of the cluster and of the network, and the readers of the libraries.
pub record Environment : Type 0 where
  -- the decimal text of an index
  pub show : ℕ → String
  -- secretsLister.Secrets("openshift-config").Get
  pub secret : String → Result Secret
  -- proxyResolver.NewTransport with the CA of a config map and a key
  pub new_transport : String → String → Result Transport
  -- url.Parse
  pub parse_url : String → Result Url
  pub decode_metadata : String → Result OpenIdProviderJson
  pub decode_map : String → Result (List (String × JsonValue))

-- The sync data, the package's map oidcPasswordChecks, and the requests that were sent.
pub record State : Type 0 where
  pub sync_data : SyncData
  pub checks : List (String × Bool)
  pub requests : List Request

abbrev pub Conversion {ℓ} : Type ℓ → Type ℓ
Conversion A = State → State × Result A

module _ {ℓ} {A : Type ℓ} where
  abbrev pub pure : A → Conversion A
  pure a s = (s, ok a)

  abbrev pub lift : Result A → Conversion A
  lift r s = (s, r)

  abbrev pub fail : Error → Conversion A
  fail e s = (s, err e)

module _ {ℓ κ} {A : Type ℓ} {B : Type κ} where
  abbrev continue : State → Result A → (A → Conversion B) → State × Result B
  continue s (ok a) f = f a s
  continue s (err e) f = (s, err e)

  infixl 5 ◌>>=◌ ◌>>◌
  abbrev pub ◌>>=◌ : Conversion A → (A → Conversion B) → Conversion B
  (m >>= f) s = continue (m s).0 (m s).1 f

  abbrev pub ◌>>◌ : Conversion A → Conversion B → Conversion B
  m >> k = m >>= λ _. k

-- one request, answered by `answer`
abbrev pub send : (Request → Result Response) → Request → Conversion Response
send answer r s = (
  record { sync_data = s.sync_data; checks = s.checks; requests = s.requests ++ r ∷ [] },
  answer r,
)

abbrev pub set_check : String → Bool → Conversion (Unit {0})
set_check version allowed s = (
  record { sync_data = s.sync_data; checks = (version, allowed) ∷ s.checks; requests = s.requests },
  ok tt,
)

abbrev pub keep_data : String × SyncData → Conversion String
keep_data added s =
    (record { sync_data = added.1; checks = s.checks; requests = s.requests }, ok added.0)

abbrev pub secret_path : Environment → ℕ → String → String → String → Conversion String
secret_path env i name field key s =
    keep_data (add_idp_secret env.show s.sync_data i name field key) s

abbrev pub config_map_path : Environment → ℕ → String → String → String → Conversion String
config_map_path env i name field key s =
    keep_data (add_idp_config_map env.show s.sync_data i name field key) s

unfoldable pub create_file_string_source : String → StringSource
create_file_string_source filepath = record { value = ""; env = ""; file = filepath; key_file = "" }
