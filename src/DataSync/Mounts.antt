-- ===== src/DataSync/Mounts.antt =====
-- The volume of one entry of the sync data, and the keys of the data in their order: the parts of
-- ToVolumesAndMounts of syncdata.go.
use mathlib.Core.List.{Memᴰ}
use mathlib.Core.List.Memᴰ
use cluster_authentication_o.Base.{
  String, ◌≡◌, ◌↔◌, ◌⊎◌, refl, sym, inl, inr, true, false, List, [], ◌∷◌, map, some, ok, arith,
  lookup, ◌==◌, eq_iff, Bool-cases,
}
use cluster_authentication_o.Base.SortedSets.{IsSorted, insert_all-IsSorted, insert_all_mem}
use cluster_authentication_o.DataSync.SyncData.{
  ResourceType, config_map_type, secret_type, other_type, SourceData, SyncData,
}
use cluster_authentication_o.DataSync.Sources.{Volume, VolumeMount, volume_and_mount, sorted_keys}

-- The volume of a destination is of the config map or the secret of that name, and shows the key of
-- the source; the mount is read-only, at the source's path.
abbrev pub IsVolume : SourceData → String → Volume → VolumeMount → Type 0
IsVolume s dest v m =
    (((s.type ≡ config_map_type) × (v.of_config_map ≡ true))
      ⊎ ((s.type ≡ secret_type) × (v.of_config_map ≡ false)))
    × (v.name ≡ dest)
    × (v.resource ≡ dest)
    × (v.item ≡ s.key)
    × (m.name ≡ dest)
    × (m.read_only ≡ true)
    × (m.mount_path ≡ s.mount_path)

type_cases :
    (t : ResourceType)
    → (t ≡ config_map_type) ⊎ ((t ≡ secret_type) ⊎ ((x : String) × (t ≡ other_type x)))
type_cases config_map_type = inl refl
type_cases secret_type = inr (inl refl)
type_cases (other_type x) = inr (inr (x, refl))

pub volume_lem :
    (s : SourceData) (d : String) (v : Volume) (m : VolumeMount)
    → (volume_and_mount s d ≡ ok (v, m)) ↔ IsVolume s d v m
unfolding volume_and_mount
volume_lem s d v m = elim (type_cases s.type) [
  | inl p ↦ ground (arith, p)
  | inr (inl p) ↦ ground (arith, p)
  | inr (inr (x, p)) ↦ ground (arith, p)
]

-- The keys of the data.
abbrev pub HasEntry : SyncData → String → Type 0
HasEntry data_ k = (s : SourceData) × (lookup k data_ ≡ some s)

key_mem : (data_ : SyncData) (k : String) → HasEntry data_ k → Memᴰ k (map (λ entry. entry.0) data_)
key_mem [] k (s, h) = absurd (ground (arith, h))
key_mem ((d, x) ∷ data_) k (s, h) = elim (Bool-cases (d == k)) [
  | inl p ↦ Memᴰ.head (sym ((eq_iff d k).0 p))
  | inr p ↦ Memᴰ.tail (key_mem data_ k (s, ground (arith, p, h)))
]

mem_key : (data_ : SyncData) (k : String) → Memᴰ k (map (λ entry. entry.0) data_) → HasEntry data_ k
mem_key [] k m = elim m [ ]
mem_key ((d, x) ∷ data_) k m = elim (Bool-cases (d == k)) [
  | inl p ↦ (x, ground (arith, p))
  | inr p ↦ elim (Memᴰ.cases_cons m) [
    | inl e ↦ absurd (ground (arith, p, (eq_iff d k).1 (sym e)))
    | inr n ↦ let (s, h) = mem_key data_ k n in (s, ground (arith, p, h))
  ]
]

-- The list is sorted, with each key of the data once and nothing else.
abbrev pub AreKeys : SyncData → List String → Type 0
AreKeys data_ keys = IsSorted keys × ((k : String) → Memᴰ k keys ↔ HasEntry data_ k)

pub sorted_keys-AreKeys : (data_ : SyncData) → AreKeys data_ (sorted_keys data_)
unfolding sorted_keys
sorted_keys-AreKeys data_ = (
  insert_all-IsSorted (map (λ entry. entry.0) data_) [] tt,
  λ k. (
    λ m. elim ((insert_all_mem (map (λ entry. entry.0) data_) [] k).0 m) [
      | inl n ↦ mem_key data_ k n
      | inr n ↦ elim n [ ]
    ],
    λ h. (insert_all_mem (map (λ entry. entry.0) data_) [] k).1 (inl (key_mem data_ k h)),
  ),
)
