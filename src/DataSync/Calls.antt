-- ===== src/DataSync/Calls.antt =====
-- The calls that sync and delete destinations, and what they leave of one destination.
use mathlib.Core.List.{Memᴰ}
use mathlib.Core.List.Memᴰ
use mathlib.Core.Path.{subst}
use cluster_authentication_o.Base.{
  String, ◌≡◌, refl, sym, ◌⊎◌, ◌↔◌, inl, inr, Bool, true, false, ◌&&◌, ◌||◌, List, [], ◌∷◌, ◌++◌,
  Option, none, some, Result, ok, arith, eq_iff, eq_refl, Bool-cases, Option-cases, All, lookup,
  has, is_empty, ◌==◌, if◌then◌else◌,
}
use cluster_authentication_o.DataSync.SyncData.{
  SourceData, SyncData, Kind, config_map, secret, SyncCall, sync_resource, kind_of, same_kind,
  sync_config_or_die, keys, sync_new, has_name, unused_names, delete_each,
}

-- The name of the source that each destination is synced from, if any.
abbrev pub Synced : Type 0
Synced = Kind → String → Option String

abbrev pub touches : Kind → String → SyncCall → Bool
touches k d (sync_resource kind dest src) = same_kind kind k && dest == d

abbrev source : String → Option String
source src = if is_empty src then none else some src

abbrev value : SyncCall → Option String
value (sync_resource kind dest src) = source src

abbrev pub effect : SyncCall → Synced → Synced
effect c synced k d = if touches k d c then value c else synced k d

abbrev pub effects : List SyncCall → Synced → Synced
effects [] synced = synced
effects (c ∷ cs) synced = effects cs (effect c synced)

-- What the data asks for.
abbrev pub wanted : SyncData → Synced
wanted data_ k d = elim (lookup d data_) [
  | none ↦ none
  | some s ↦ if same_kind (kind_of s.type) k then source s.name else none
]

pub settled :
    (cs : List SyncCall) (synced : Synced) (k : Kind) (d : String) (v : Option String)
    → All (λ c. touches k d c ≡ true → value c ≡ v) cs
    → ((synced k d ≡ v) ⊎ (has (touches k d) cs ≡ true))
    → effects cs synced k d ≡ v
settled [] synced k d v all (inl e) = e
settled [] synced k d v all (inr h) = absurd (ground (arith, h))
settled (c ∷ cs) synced k d v all start = elim (Bool-cases (touches k d c)) [
  | inl t ↦ settled cs (effect c synced) k d v all.1 (inl (ground (arith, t, all.0 t)))
  | inr f ↦
      settled cs (effect c synced) k d v all.1
        (elim start [ inl e ↦ inl (ground (arith, f, e)) | inr h ↦ inr (ground (arith, f, h)) ])
]

-- The calls of an accepting syncer.
abbrev pub accept : SyncCall → Result (Unit {0})
accept c = ok tt

abbrev pub IsFor : SyncData → Kind → String → SyncCall → Type 0
IsFor new k d c = touches k d c ≡ true → value c ≡ wanted new k d

same_kind_iff : (a b : Kind) → (same_kind a b ≡ true) ↔ (a ≡ b)
same_kind_iff config_map config_map = (λ h. refl, λ h. refl)
same_kind_iff config_map secret = (λ h. ground (arith, h), λ h. ground (arith, h))
same_kind_iff secret config_map = (λ h. ground (arith, h), λ h. ground (arith, h))
same_kind_iff secret secret = (λ h. refl, λ h. refl)

touches_self : (k : Kind) (d src : String) → touches k d (sync_resource k d src) ≡ true
touches_self k d src = ground (arith, (same_kind_iff k k).1 refl, eq_refl d)

touched :
    (kind k : Kind) (dest d src : String)
    → touches k d (sync_resource kind dest src) ≡ true
    → (kind ≡ k) × (dest ≡ d)
touched kind k dest d src h =
    ((same_kind_iff kind k).0 (ground (arith, h)), (eq_iff dest d).0 (ground (arith, h)))

pub All-append :
    (P : SyncCall → Type 0) (xs ys : List SyncCall) → All P xs → All P ys → All P (xs ++ ys)
All-append P [] ys p q = q
All-append P (x ∷ xs) ys p q = (p.0, All-append P xs ys p.1 q)

pub has-append :
    (p : SyncCall → Bool) (xs ys : List SyncCall) → has p (xs ++ ys) ≡ (has p xs || has p ys)
has-append p [] ys = refl
has-append p (x ∷ xs) ys = ground (arith, has-append p xs ys)

new_call :
    (new : SyncData) (k : Kind) (d dest : String) (s : SourceData)
    → lookup dest new ≡ some s
    → IsFor new k d (sync_resource (kind_of s.type) dest s.name)
new_call new k d dest s p t =
    let (kind_same, same) = touched (kind_of s.type) k dest d s.name t in
    ground (
      arith,
      subst (λ x. lookup x new ≡ some s) same p,
      (same_kind_iff (kind_of s.type) k).1 kind_same,
    )

sync_new-none :
    (new : SyncData) (dest : String) (dests : List String)
    → lookup dest new ≡ none
    → sync_new accept new (dest ∷ dests) ≡ sync_new accept new dests
unfolding sync_new
sync_new-none new dest dests n = ground (arith, n)

sync_new-some :
    (new : SyncData) (dest : String) (dests : List String) (s : SourceData)
    → lookup dest new ≡ some s
    → sync_new accept new (dest ∷ dests) ≡ (
      sync_resource (kind_of s.type) dest s.name ∷ (sync_new accept new dests).0,
      (sync_new accept new dests).1,
    )
unfolding sync_new sync_config_or_die
sync_new-some new dest dests s p = ground (arith, p)

pub sync_new-IsFor :
    (new : SyncData) (k : Kind) (d : String) (dests : List String)
    → ((sync_new accept new dests).1 ≡ ok tt) × All (IsFor new k d) (sync_new accept new dests).0
unfolding sync_new
sync_new-IsFor new k d [] = (refl, tt)
sync_new-IsFor new k d (dest ∷ dests) =
    let (done, rest) = sync_new-IsFor new k d dests in
    elim (Option-cases (lookup dest new)) [
      | inl n ↦ rw (sync_new-none new dest dests n) (done, rest)
      | inr (s, p) ↦ rw (sync_new-some new dest dests s p) (done, (new_call new k d dest s p, rest))
    ]

pub sync_new-touches :
    (new : SyncData) (k : Kind) (d : String) (dests : List String)
    → has_name new k d ≡ true
    → Memᴰ d dests
    → has (touches k d) (sync_new accept new dests).0 ≡ true
unfolding sync_new sync_config_or_die has_name
sync_new-touches new k d [] h m = elim m [ ]
sync_new-touches new k d (dest ∷ dests) h m = elim (Memᴰ.cases_cons m) [
  | inr m' ↦ ground (arith, sync_new-touches new k d dests h m')
  | inl e ↦ elim (Option-cases (lookup d new)) [
    | inl n ↦ absurd (ground (arith, n, h))
    | inr (s, p) ↦
        ground (arith, subst (λ x. lookup x new ≡ some s) e p, (eq_iff dest d).1 (sym e), p, h)
  ]
]

pub not_wanted :
    (new : SyncData) (k : Kind) (d : String) → has_name new k d ≡ false → wanted new k d ≡ none
unfolding has_name
not_wanted new k d h = ground (arith, h)

-- the deletion of names that the new data does not have
pub delete_each-IsFor :
    (new : SyncData) (kind k : Kind) (d : String) (dests : List String)
    → All (λ n. has_name new kind n ≡ false) dests
    → ((delete_each accept kind dests).1 ≡ ok tt)
      × All (IsFor new k d) (delete_each accept kind dests).0
unfolding delete_each sync_config_or_die
delete_each-IsFor new kind k d [] all = (refl, tt)
delete_each-IsFor new kind k d (n ∷ dests) all =
    let (done, rest) = delete_each-IsFor new kind k d dests all.1 in
    (
      done,
      (
        (λ t.
            let (kind_same, same) = touched kind k n d "" t in
            sym (
              not_wanted new k d (
                subst (λ x. has_name new x d ≡ false) kind_same
                  (subst (λ x. has_name new kind x ≡ false) same all.0)))),
        rest,
      ),
    )

pub delete_each-touches :
    (k : Kind) (d : String) (dests : List String)
    → Memᴰ d dests
    → has (touches k d) (delete_each accept k dests).0 ≡ true
unfolding delete_each sync_config_or_die
delete_each-touches k d [] m = elim m [ ]
delete_each-touches k d (n ∷ dests) m = elim (Memᴰ.cases_cons m) [
  | inl e ↦ ground (arith, (same_kind_iff k k).1 refl, (eq_iff n d).1 (sym e))
  | inr m' ↦ ground (arith, delete_each-touches k d dests m')
]

pub unused_sound :
    (old new : SyncData) (k : Kind) (dests : List String) (n : String)
    → Memᴰ n (unused_names old new k dests)
    → has_name new k n ≡ false
unfolding unused_names
unused_sound old new k [] n m = elim m [ ]
unused_sound old new k (d ∷ dests) n m = elim (Bool-cases (has_name old k d)) [
  | inr f ↦ unused_sound old new k dests n (rw f at m)
  | inl t ↦ elim (Bool-cases (has_name new k d)) [
    | inl u ↦ unused_sound old new k dests n (rw (t, u) at m)
    | inr f ↦ elim (Memᴰ.cases_cons (rw (t, f) at m)) [
      | inl e ↦ subst (λ x. has_name new k x ≡ false) (sym e) f
      | inr m' ↦ unused_sound old new k dests n m'
    ]
  ]
]

pub unused_complete :
    (old new : SyncData) (k : Kind) (dests : List String) (n : String)
    → Memᴰ n dests
    → has_name old k n ≡ true
    → has_name new k n ≡ false
    → Memᴰ n (unused_names old new k dests)
unfolding unused_names
unused_complete old new k [] n m o f = elim m [ ]
unused_complete old new k (d ∷ dests) n m o f = elim (Memᴰ.cases_cons m) [
  | inl e ↦
      rw (subst (λ x. has_name old k x ≡ true) e o, subst (λ x. has_name new k x ≡ false) e f)
        (Memᴰ.head e)
  | inr m' ↦
      let rest = unused_complete old new k dests n m' o f in
      elim (Bool-cases (has_name old k d)) [
        | inr f' ↦ rw f' rest
        | inl t ↦ elim (Bool-cases (has_name new k d)) [
          | inl u ↦ rw (t, u) rest
          | inr f' ↦ rw (t, f') (Memᴰ.tail rest)
        ]
      ]
]

pub known_key :
    (data_ : SyncData) (k : Kind) (d : String) → has_name data_ k d ≡ true → Memᴰ d (keys data_)
unfolding has_name
known_key [] k d h = absurd (ground (arith, h))
known_key ((n, s) ∷ data_) k d h = elim (Bool-cases (n == d)) [
  | inl t ↦ Memᴰ.head (sym ((eq_iff n d).0 t))
  | inr f ↦ Memᴰ.tail (known_key data_ k d (unfold has_name in ground (arith, f, h)))
]

-- An order of the names: the same names.
abbrev pub IsOrder : (List String → List String) → Type 0
IsOrder order = (xs : List String) (x : String) → Memᴰ x (order xs) ↔ Memᴰ x xs

pub All-tabulate :
    (P : String → Type 0) (xs : List String) → ((x : String) → Memᴰ x xs → P x) → All P xs
All-tabulate P [] f = tt
All-tabulate P (x ∷ xs) f = (f x (Memᴰ.head refl), All-tabulate P xs (λ y m. f y (Memᴰ.tail m)))
