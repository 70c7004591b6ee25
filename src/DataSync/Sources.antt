-- ===== src/DataSync/Sources.antt =====
-- pkg/operator/datasync/syncdata.go and validation.go: the additions of the conversion, the volumes of
-- the data, and its validation. `show` is the decimal text of an index.
use cluster_authentication_o.Base.{
  ℕ, String, Bool, true, false, List, [], ◌∷◌, ◌++◌, Option, none, some, Error, errorf, wrapf,
  join_errors, Result, ok, err, lookup, map, is_empty, ◌==◌, ◌<>◌, if◌then◌else◌, ◌>>=◌,
}
use cluster_authentication_o.Base.SortedSets.{insert_all}
use cluster_authentication_o.DataSync.Validation.{
  Crypto, validate_client_cert, validate_private_key, validate_ca_certs,
}
use cluster_authentication_o.DataSync.SyncData.{
  ResourceType, config_map_type, secret_type, other_type, SourceData, SyncData,
}

abbrev pub type_text : ResourceType → String
type_text config_map_type = "configMap"
type_text secret_type = "secret"
type_text (other_type t) = t

unfoldable pub get_idp_name : (ℕ → String) → ℕ → String → String
get_idp_name show i field = "v4-0-config-user-idp-" <> show i <> "-" <> field

unfoldable pub get_idp_path : (ℕ → String) → ℕ → String → String → String
get_idp_path show i resource dest =
    "/var/config/user/idp/" <> show i <> "/" <> resource <> "/" <> dest

unfoldable pub new_source_data_idp :
    (ℕ → String) → ℕ → ResourceType → String → String → String → String × SourceData
new_source_data_idp show index type name field key =
    let dest = get_idp_name show index field in
    (
      dest,
      record {
        name = name;
        mount_path = get_idp_path show index (type_text type) dest;
        key = key;
        type = type;
      },
    )

-- the path, and the data with the source; path.Join of the mount path, which is clean, and the key
add_idp : (ℕ → String) → ResourceType → SyncData → ℕ → String → String → String → String × SyncData
add_idp show type data_ index name field key =
    if is_empty name
    then ("", data_)
    else (let (dest, s) = new_source_data_idp show index type name field key in
        (s.mount_path <> "/" <> key, (dest, s) ∷ data_))

unfoldable pub add_idp_secret :
    (ℕ → String) → SyncData → ℕ → String → String → String → String × SyncData
unfolding add_idp
add_idp_secret show = add_idp show secret_type

unfoldable pub add_idp_config_map :
    (ℕ → String) → SyncData → ℕ → String → String → String → String × SyncData
unfolding add_idp
add_idp_config_map show = add_idp show config_map_type

-- the volume's one source and its one item, whose path is its key
pub record Volume : Type 0 where
  pub name : String
  pub of_config_map : Bool
  pub resource : String
  pub item : String

pub record VolumeMount : Type 0 where
  pub name : String
  pub read_only : Bool
  pub mount_path : String

unfoldable pub volume_and_mount : SourceData → String → Result (Volume × VolumeMount)
volume_and_mount s name = elim s.type [
  | config_map_type ↦ ok (
    record { name = name; of_config_map = true; resource = name; item = s.key },
    record { name = name; read_only = true; mount_path = s.mount_path },
  )
  | secret_type ↦ ok (
    record { name = name; of_config_map = false; resource = name; item = s.key },
    record { name = name; read_only = true; mount_path = s.mount_path },
  )
  | other_type t ↦ err (errorf "unknown resource type: %s" (t ∷ []))
]

-- the loop over the keys; a missing key would have the zero source, whose type is unknown
unfoldable pub volumes_from : SyncData → List String → Result (List Volume × List VolumeMount)
unfolding volume_and_mount
volumes_from data_ [] = ok ([], [])
volumes_from data_ (d ∷ dests) =
    let rest = volumes_from data_ dests in
    elim (lookup d data_) [
      | none ↦ err (errorf "unknown resource type: %s" ("" ∷ []))
      | some s ↦ (do (v, m) ← volume_and_mount s d; (vs, ms) ← rest; ok (v ∷ vs, m ∷ ms))
    ]

-- sets.StringKeySet(data).List(): the keys in their order, each once
unfoldable pub sorted_keys : SyncData → List String
sorted_keys data_ = insert_all (map (λ entry. entry.0) data_) []

unfoldable pub to_volumes_and_mounts : SyncData → Result (List Volume × List VolumeMount)
unfolding volumes_from sorted_keys
to_volumes_and_mounts data_ = volumes_from data_ (sorted_keys data_)

-- the map of validators; the call of a missing one panics
unfoldable pub validator_of : Crypto → String → Option (String → List Error)
validator_of crypto key =
    if key == "tls.crt"
    then some (validate_client_cert crypto)
    else if key == "tls.key"
    then some (validate_private_key crypto)
    else if key == "ca.crt"
    then some (validate_ca_certs crypto)
    else if key == "clientSecret"
    then some (λ b. [])
    else if key == "htpasswd"
    then some (λ b. [])
    else if key == "bindPassword"
    then some (λ b. [])
    else none

-- The listers of openshift-config: the data of a secret and of a config map.
pub record Listers : Type 0 where
  pub secrets : String → Result (List (String × String))
  pub config_maps : String → Result (List (String × String))

-- validateSecret and validateConfigMap, none where they panic
unfoldable pub validate_source :
    Crypto → Result (List (String × String)) → SourceData → Option (List Error)
validate_source crypto (err e) s = some (e ∷ [])
validate_source crypto (ok entries) s = elim (lookup s.key entries) [
  | none ↦ some (errorf "missing required key: %q" (s.key ∷ []) ∷ [])
  | some b ↦ elim (validator_of crypto s.key) [ none ↦ none | some v ↦ some (v b) ]
]

-- any type but a secret's counts as a config map
unfoldable pub answer_of : Listers → SourceData → Result (List (String × String))
answer_of listers s = elim s.type [
  | secret_type ↦ listers.secrets s.name
  | _ ↦ listers.config_maps s.name
]

unfoldable pub source_errors : SourceData → List Error → List Error
source_errors s errs = elim (join_errors errs) [
  | none ↦ []
  | some e ↦ elim s.type [
    | secret_type ↦ wrapf "error validating secret openshift-config/%s: %w" (s.name ∷ []) e ∷ []
    | _ ↦ wrapf "error validating configMap openshift-config/%s: %w" (s.name ∷ []) e ∷ []
  ]
]

-- the entries in the order of the range; as in a Go map, each key has one entry
unfoldable pub validate : Crypto → Listers → SyncData → Option (List Error)
validate crypto listers [] = some []
validate crypto listers ((d, s) ∷ entries) =
    let rest = validate crypto listers entries in
    elim (validate_source crypto (answer_of listers s) s) [
      | none ↦ none
      | some errs ↦ elim rest [ none ↦ none | some later ↦ some (source_errors s errs ++ later) ]
    ]
