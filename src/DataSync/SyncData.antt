-- ===== src/DataSync/SyncData.antt =====
-- pkg/operator/datasync/syncdata.go: the secrets and config maps that the identity providers refer to.
-- A Go map is a list of entries of which the first of a key counts; `listed` is the order in which its
-- keys are listed.
use cluster_authentication_o.Base.{
  String, Bool, true, false, List, [], ◌∷◌, none, some, Result, lookup, if◌then◌else◌,
}
use cluster_authentication_o.Base.Calls.{Run, pure, call, ◌>>◌}

pub data ResourceType : Type 0 where
  config_map_type secret_type : ResourceType
  other_type : String → ResourceType

pub record SourceData : Type 0 where
  pub name : String
  pub mount_path : String
  pub key : String
  pub type : ResourceType

abbrev pub SyncData : Type 0
SyncData = List (String × SourceData)

-- the two functions of the resource syncer
pub data Kind : Type 0 where
  config_map secret : Kind

-- `sync_resource kind dest src`; a source without a name is none, which deletes the destination
pub data SyncCall : Type 0 where
  sync_resource : Kind → String → String → SyncCall

-- any type but a config map's counts as a secret
unfoldable pub kind_of : ResourceType → Kind
kind_of config_map_type = config_map
kind_of _ = secret

abbrev pub same_kind : Kind → Kind → Bool
same_kind config_map config_map = true
same_kind secret secret = true
same_kind _ _ = false

-- the panic of SyncConfigOrDie is the error of the run
unfoldable pub sync_config_or_die :
    (SyncCall → Result (Unit {0})) → Kind → String → String → Run SyncCall (Unit {0})
sync_config_or_die server kind dest src = call server (sync_resource kind dest src)

abbrev pub keys : SyncData → List String
keys [] = []
keys ((d, s) ∷ data_) = d ∷ keys data_

-- the syncs of the new data
unfoldable pub sync_new :
    (SyncCall → Result (Unit {0})) → SyncData → List String → Run SyncCall (Unit {0})
sync_new server new [] = pure tt
sync_new server new (d ∷ dests) =
    let rest = sync_new server new dests in
    elim (lookup d new) [
      | none ↦ rest
      | some s ↦ sync_config_or_die server (kind_of s.type) d s.name >> rest
    ]

-- the name is among those of the kind
unfoldable pub has_name : SyncData → Kind → String → Bool
has_name data_ kind d = elim (lookup d data_) [
  | none ↦ false
  | some s ↦ same_kind (kind_of s.type) kind
]

-- the old names of the kind that are not new ones
unfoldable pub unused_names : SyncData → SyncData → Kind → List String → List String
unused_names old new kind [] = []
unused_names old new kind (d ∷ dests) =
    let rest = unused_names old new kind dests in
    if has_name old kind d then (if has_name new kind d then rest else d ∷ rest) else rest

unfoldable pub delete_each :
    (SyncCall → Result (Unit {0})) → Kind → List String → Run SyncCall (Unit {0})
delete_each server kind [] = pure tt
delete_each server kind (d ∷ dests) =
    let rest = delete_each server kind dests in sync_config_or_die server kind d "" >> rest

-- `listed` lists the keys of the new data, and `ranged` is the order of a range over the unused names
unfoldable pub handle_idp_config_sync :
    (SyncCall → Result (Unit {0}))
    → (List String → List String)
    → (List String → List String)
    → SyncData
    → SyncData
    → Run SyncCall (Unit {0})
handle_idp_config_sync server listed ranged old new =
    sync_new server new (listed (keys new))
    >> delete_each server config_map (ranged (unused_names old new config_map (listed (keys old))))
    >> delete_each server secret (ranged (unused_names old new secret (listed (keys old))))
