-- ===== src/IdpConversion/Mounts.antt =====
-- What idp_conversions.go says of its field names: where the files of the converted providers are.
pub mod Names
pub mod Keeps
pub mod Each
pub mod Served
use cluster_authentication_o.Base.{
  ℕ, String, Option, none, some, ◌≡◌, Bool, true, false, List, [], ◌∷◌, Result, ok, err, is_empty,
}
use cluster_authentication_o.DataSync.SyncData.{SyncData}
use cluster_authentication_o.DataSync.Sources.{get_idp_name}
use cluster_authentication_o.DataSync.Volumes.{IsMounted}
use cluster_authentication_o.IdpConversion.Types.{
  ProviderType, basic_auth, github, gitlab, google, htpasswd, keystone, ldap, openid,
  request_header, other_type, RemoteConfig, GitHubConfig, GitLabConfig, GoogleConfig,
  KeystoneConfig, LdapConfig, OpenIdConfig, RequestHeaderConfig, ProviderConfig, State,
}
use cluster_authentication_o.IdpConversion.Providers.{
  RemoteConnectionInfo, Provider, basic_auth_provider, github_provider, gitlab_provider,
  google_provider, htpasswd_provider, keystone_provider, ldap_provider, openid_provider,
  request_header_provider, IdpData,
}

-- A reference of a provider to a secret or a config map, by the field that has it.
pub record Reference : Type 0 where
  pub field : String
  pub of_config_map : Bool
  pub name : String

abbrev pub ca_of : String → Reference
ca_of name = record { field = "ca"; of_config_map = true; name = name }

abbrev pub secret_of : String → String → Reference
secret_of field name = record { field = field; of_config_map = false; name = name }

abbrev pub remote_references : RemoteConfig → List Reference
remote_references c =
    ca_of c.ca
    ∷ secret_of "tls-client-cert" c.tls_client_cert
    ∷ secret_of "tls-client-key" c.tls_client_key
    ∷ []

abbrev pub remote_paths : RemoteConnectionInfo → List String
remote_paths r = r.ca ∷ r.cert_file ∷ r.key_file ∷ []

abbrev given {ℓ} : {A : Type ℓ} → Option A → (A → List Reference) → List Reference
given none f = []
given (some c) f = f c

-- The references of the configuration that the type names.
abbrev references_as : ProviderConfig → ProviderType → List Reference
references_as p basic_auth = given p.basic_auth_config remote_references
references_as p github =
    given p.github_config (λ c. secret_of "client-secret" c.client_secret ∷ ca_of c.ca ∷ [])
references_as p gitlab =
    given p.gitlab_config (λ c. ca_of c.ca ∷ secret_of "client-secret" c.client_secret ∷ [])
references_as p google = given p.google_config (λ c. secret_of "client-secret" c.client_secret ∷ [])
references_as p htpasswd =
    given p.htpasswd_config (λ file_data. secret_of "file-data" file_data ∷ [])
references_as p keystone = given p.keystone_config (λ c. remote_references c.remote)
references_as p ldap =
    given p.ldap_config (λ c. secret_of "bind-password" c.bind_password ∷ ca_of c.ca ∷ [])
references_as p openid =
    given p.openid_config (λ c. ca_of c.ca ∷ secret_of "client-secret" c.client_secret ∷ [])
references_as p request_header = given p.request_header_config (λ c. ca_of c.client_ca ∷ [])
references_as p (other_type t) = []

abbrev pub references : ProviderConfig → List Reference
references p = references_as p p.type

-- The paths of a converted provider, in the order of the references of its kind.
abbrev pub paths : Provider → List String
paths (basic_auth_provider r) = remote_paths r
paths (github_provider r) = r.client_secret.file ∷ r.ca ∷ []
paths (gitlab_provider r) = r.ca ∷ r.client_secret.file ∷ []
paths (google_provider r) = r.client_secret.file ∷ []
paths (htpasswd_provider file) = file ∷ []
paths (keystone_provider r) = remote_paths r.remote
paths (ldap_provider r) = r.bind_password.file ∷ r.ca ∷ []
paths (openid_provider r) = r.ca ∷ r.client_secret.file ∷ []
paths (request_header_provider r) = r.client_ca ∷ []

-- No name, no path; a name has the path at which the volume of its destination has the key.
abbrev IsPlacedIf : Bool → (ℕ → String) → SyncData → ℕ → Reference → String → Type 0
IsPlacedIf true show data_ i r path = path ≡ ""
IsPlacedIf false show data_ i r path =
    IsMounted path data_ (get_idp_name show i r.field) r.of_config_map r.name

abbrev pub IsPlaced : (ℕ → String) → SyncData → ℕ → Reference → String → Type 0
IsPlaced show data_ i r = IsPlacedIf (is_empty r.name) show data_ i r

-- The references and the paths go together, one to one and in order.
pub data ArePlaced (show : ℕ → String) (data_ : SyncData) (i : ℕ)
    : List Reference → List String → Type 0 where
  done : ArePlaced show data_ i [] []
  next :
      {r : Reference} {path : String} {rs : List Reference} {ps : List String}
      → IsPlaced show data_ i r path
      → ArePlaced show data_ i rs ps
      → ArePlaced show data_ i (r ∷ rs) (path ∷ ps)

-- If the conversion succeeds, its paths are placed.
abbrev IsServing : (ℕ → String) → SyncData → ℕ → List Reference → Result IdpData → Type 0
IsServing show data_ i rs (ok d) = ArePlaced show data_ i rs (paths d.provider)
IsServing show data_ i rs (err e) = Unit

abbrev pub Serves : (ℕ → String) → ℕ → List Reference → State × Result IdpData → Type 0
Serves show i rs out = IsServing show out.0.sync_data i rs out.1
