-- ===== src/DataSync/Volumes.antt =====
-- The volumes of the sync data, and the paths that the additions give out.
use cluster_authentication_o.Base.{
  ◌==◌, if◌then◌else◌, ℕ, String, ◌≡◌, refl, ◌↔◌, inl, inr, Bool, true, false, List, [], ◌∷◌, some,
  ok, arith, eq_refl, is_empty, lookup, Option-cases, Result-cases, ◌<>◌,
}
use cluster_authentication_o.DataSync.SyncData.{config_map_type, secret_type, SourceData, SyncData}
use cluster_authentication_o.DataSync.Sources.{
  get_idp_name, get_idp_path, new_source_data_idp, add_idp_secret, add_idp_config_map, Volume,
  VolumeMount, volume_and_mount, volumes_from, sorted_keys, to_volumes_and_mounts,
}
use cluster_authentication_o.DataSync.Mounts.{IsVolume, AreKeys, volume_lem, sorted_keys-AreKeys}

-- The path is where the volume of the destination has the key.
pub record IsMounted (path : String) (data_ : SyncData) (dest : String) (of_config_map : Bool)
    (source : String) : Type 0 where
  pub entry : SourceData
  pub volume : Volume
  pub mount : VolumeMount
  pub found : lookup dest data_ ≡ some entry
  pub named : entry.name ≡ source
  pub volumes : volume_and_mount entry dest ≡ ok (volume, mount)
  pub of_kind : volume.of_config_map ≡ of_config_map
  pub located : path ≡ mount.mount_path <> "/" <> volume.item

module _ (show : ℕ → String) (data_ : SyncData) (index : ℕ) (name field key : String) where
  abbrev dest : String
  dest = get_idp_name show index field

  secret-IsMounted :
      is_empty name ≡ false
      → IsMounted
          (add_idp_secret show data_ index name field key).0
          (add_idp_secret show data_ index name field key).1
          dest
          false
          name
  unfolding add_idp_secret new_source_data_idp volume_and_mount
  secret-IsMounted h = rw h (record {
    entry = (new_source_data_idp show index secret_type name field key).1;
    volume = record { name = dest; of_config_map = false; resource = dest; item = key };
    mount = record {
      name = dest;
      read_only = true;
      mount_path = get_idp_path show index "secret" dest;
    };
    found = rw (eq_refl dest) refl;
    named = refl;
    volumes = refl;
    of_kind = refl;
    located = refl;
  })

  config_map-IsMounted :
      is_empty name ≡ false
      → IsMounted
          (add_idp_config_map show data_ index name field key).0
          (add_idp_config_map show data_ index name field key).1
          dest
          true
          name
  unfolding add_idp_config_map new_source_data_idp volume_and_mount
  config_map-IsMounted h = rw h (record {
    entry = (new_source_data_idp show index config_map_type name field key).1;
    volume = record { name = dest; of_config_map = true; resource = dest; item = key };
    mount = record {
      name = dest;
      read_only = true;
      mount_path = get_idp_path show index "configMap" dest;
    };
    found = rw (eq_refl dest) refl;
    named = refl;
    volumes = refl;
    of_kind = refl;
    located = refl;
  })

  lookups :
      is_empty name ≡ false
      → (k : String)
      → (lookup k (add_idp_secret show data_ index name field key).1 ≡ (
          if dest == k
          then some (new_source_data_idp show index secret_type name field key).1
          else lookup k data_))
        × (lookup k (add_idp_config_map show data_ index name field key).1 ≡ (
            if dest == k
            then some (new_source_data_idp show index config_map_type name field key).1
            else lookup k data_))
  unfolding add_idp_secret add_idp_config_map new_source_data_idp
  lookups h k = (ground (arith, h), ground (arith, h))

  -- The path that the addition of a named secret or config map returns is the one at which the volume
  -- of the new destination, of the right kind and source, has the key; any other destination has the
  -- entry that it had.
  pub added-IsMounted :
      is_empty name ≡ false
      → IsMounted
          (add_idp_secret show data_ index name field key).0
          (add_idp_secret show data_ index name field key).1
          (get_idp_name show index field)
          false
          name
        × IsMounted
            (add_idp_config_map show data_ index name field key).0
            (add_idp_config_map show data_ index name field key).1
            (get_idp_name show index field)
            true
            name
        × ((k : String)
            → (lookup k (add_idp_secret show data_ index name field key).1 ≡ (
                if get_idp_name show index field == k
                then some (new_source_data_idp show index secret_type name field key).1
                else lookup k data_))
              × (lookup k (add_idp_config_map show data_ index name field key).1 ≡ (
                  if get_idp_name show index field == k
                  then some (new_source_data_idp show index config_map_type name field key).1
                  else lookup k data_)))
  added-IsMounted h = (secret-IsMounted h, config_map-IsMounted h, lookups h)

-- One volume and one mount for each destination, in order.
abbrev pub AreVolumes : SyncData → List String → List Volume → List VolumeMount → Type 0
AreVolumes data_ [] [] [] = Unit
AreVolumes data_ (d ∷ dests) (v ∷ vs) (m ∷ ms) =
    ((s : SourceData) × (lookup d data_ ≡ some s) × IsVolume s d v m) × AreVolumes data_ dests vs ms
AreVolumes data_ _ _ _ = ⊥

volumes_sound :
    (data_ : SyncData) (dests : List String) (vs : List Volume) (ms : List VolumeMount)
    → volumes_from data_ dests ≡ ok (vs, ms)
    → AreVolumes data_ dests vs ms
unfolding volumes_from
volumes_sound data_ [] [] [] h = tt
volumes_sound data_ [] (v ∷ vs) ms h = absurd (ground (arith, h))
volumes_sound data_ [] [] (m ∷ ms) h = absurd (ground (arith, h))
volumes_sound data_ (d ∷ dests) vs ms h = elim (Option-cases (lookup d data_)) [
  | inl n ↦ absurd (ground (arith, n, h))
  | inr (s, p) ↦ elim (Result-cases (volume_and_mount s d)) [
    | inr (e, q) ↦ absurd (ground (arith, p, q, h))
    | inl ((v, m), q) ↦ elim (Result-cases (volumes_from data_ dests)) [
      | inr (e, r) ↦ absurd (ground (arith, p, q, r, h))
      | inl ((vs', ms'), r) ↦
          let first : vs ≡ v ∷ vs' = ground (arith, p, q, r, h) in
          let second : ms ≡ m ∷ ms' = ground (arith, p, q, r, h) in
          rw (first, second) ((s, p, (volume_lem s d v m).0 q), volumes_sound data_ dests vs' ms' r)
    ]
  ]
]

volumes_complete :
    (data_ : SyncData) (dests : List String) (vs : List Volume) (ms : List VolumeMount)
    → AreVolumes data_ dests vs ms
    → volumes_from data_ dests ≡ ok (vs, ms)
unfolding volumes_from
volumes_complete data_ [] [] [] i = refl
volumes_complete data_ [] (v ∷ vs) ms i = absurd i
volumes_complete data_ [] [] (m ∷ ms) i = absurd i
volumes_complete data_ (d ∷ dests) [] ms i = absurd i
volumes_complete data_ (d ∷ dests) (v ∷ vs) [] i = absurd i
volumes_complete data_ (d ∷ dests) (v ∷ vs) (m ∷ ms) ((s, found, is_volume), rest) =
    ground (arith, found, (volume_lem s d v m).1 is_volume, volumes_complete data_ dests vs ms rest)

-- The volumes and mounts of the data are given exactly where there is one of each for each key, in the
-- sorted order of the keys, which has each key of the data once and nothing else: the volume is of a
-- config map or a secret, as the source is, has the name of the key and shows the source's key, and the
-- mount of that name is read-only, at the path of the source.
pub volumes_iff :
    (data_ : SyncData) (vs : List Volume) (ms : List VolumeMount)
    → (keys : List String) × AreKeys data_ keys
      × ((to_volumes_and_mounts data_ ≡ ok (vs, ms)) ↔ AreVolumes data_ keys vs ms)
unfolding to_volumes_and_mounts
volumes_iff data_ vs ms = (
  sorted_keys data_,
  sorted_keys-AreKeys data_,
  (volumes_sound data_ (sorted_keys data_) vs ms, volumes_complete data_ (sorted_keys data_) vs ms),
)
