-- ===== src/DataSync/Handling.antt =====
-- What the handling of the identity providers' data leaves behind.
use cluster_authentication_o.Base.{
  String, ◌≡◌, refl, sym, ap, ◌∙◌, ◌⊎◌, inl, inr, true, false, List, ◌++◌, ok, arith, Bool-cases,
  All, has,
}
use cluster_authentication_o.DataSync.SyncData.{
  SyncData, Kind, config_map, secret, SyncCall, keys, sync_new, has_name, unused_names, delete_each,
  handle_idp_config_sync,
}
use cluster_authentication_o.DataSync.Calls.{
  Synced, touches, effects, wanted, settled, accept, IsFor, All-append, has-append, sync_new-IsFor,
  sync_new-touches, not_wanted, delete_each-IsFor, delete_each-touches, unused_sound,
  unused_complete, known_key, IsOrder, All-tabulate,
}

module _ (listed ranged : List String → List String) (lists : IsOrder listed)
    (ranges : IsOrder ranged) (old new : SyncData) where
  abbrev gone : Kind → List String
  gone kind = ranged (unused_names old new kind (listed (keys old)))

  abbrev news : List SyncCall
  news = (sync_new accept new (listed (keys new))).0

  abbrev deletions : Kind → List SyncCall
  deletions kind = (delete_each accept kind (gone kind)).0

  gone_not_new : (kind : Kind) → All (λ n. has_name new kind n ≡ false) (gone kind)
  gone_not_new kind =
      All-tabulate (λ n. has_name new kind n ≡ false) (gone kind)
        (λ n m.
          unused_sound old new kind (listed (keys old)) n
            ((ranges (unused_names old new kind (listed (keys old))) n).0 m))

  handled :
      handle_idp_config_sync accept listed ranged old new
      ≡ ((news ++ deletions config_map) ++ deletions secret, ok tt)
  unfolding handle_idp_config_sync
  handled =
      rw
        (
          (sync_new-IsFor new config_map "" (listed (keys new))).0,
          (delete_each-IsFor new config_map config_map "" (gone config_map)
              (gone_not_new config_map)).0,
          (delete_each-IsFor new secret secret "" (gone secret) (gone_not_new secret)).0,
        )
        refl

  calls-IsFor :
      (k : Kind) (d : String)
      → All (IsFor new k d) ((news ++ deletions config_map) ++ deletions secret)
  calls-IsFor k d =
      All-append (IsFor new k d) (news ++ deletions config_map) (deletions secret)
        (All-append (IsFor new k d) news (deletions config_map)
          (sync_new-IsFor new k d (listed (keys new))).1
          (delete_each-IsFor new config_map k d (gone config_map) (gone_not_new config_map)).1)
        (delete_each-IsFor new secret k d (gone secret) (gone_not_new secret)).1

  deleted :
      (k : Kind) (d : String)
      → has_name old k d ≡ true
      → has_name new k d ≡ false
      → has (touches k d) (deletions k) ≡ true
  deleted k d o f = delete_each-touches k d (gone k) (
      (ranges (unused_names old new k (listed (keys old))) d).1 (
        unused_complete old new k (listed (keys old)) d
          ((lists (keys old) d).1 (known_key old k d o)) o f))

  in_calls :
      (k : Kind) (d : String)
      → (has (touches k d) news ≡ true) ⊎ (has (touches k d) (deletions k) ≡ true)
      → has (touches k d) ((news ++ deletions config_map) ++ deletions secret) ≡ true
  in_calls k d (inl h) = ground (
    arith,
    h,
    has-append (touches k d) news (deletions config_map),
    has-append (touches k d) (news ++ deletions config_map) (deletions secret),
  )
  in_calls config_map d (inr h) = ground (
    arith,
    h,
    has-append (touches config_map d) news (deletions config_map),
    has-append (touches config_map d) (news ++ deletions config_map) (deletions secret),
  )
  in_calls secret d (inr h) =
      ground
        (arith, h, has-append (touches secret d) (news ++ deletions config_map) (deletions secret))

  start :
      (synced : Synced) (k : Kind) (d : String)
      → synced k d ≡ wanted old k d
      → (synced k d ≡ wanted new k d)
        ⊎ (has (touches k d) ((news ++ deletions config_map) ++ deletions secret) ≡ true)
  start synced k d s = elim (Bool-cases (has_name new k d)) [
    | inl h ↦ inr (
        in_calls k d (
          inl (
            sync_new-touches new k d (listed (keys new)) h
              ((lists (keys new) d).1 (known_key new k d h)))))
    | inr f ↦ elim (Bool-cases (has_name old k d)) [
      | inl o ↦ inr (in_calls k d (inr (deleted k d o f)))
      | inr g ↦ inl (s ∙ not_wanted old k d g ∙ sym (not_wanted new k d f))
    ]
  ]

  -- Where the keys of a map are listed and ranged over in any order, the syncer accepts the calls and
  -- each destination is synced as the old data asks, the handling of new data succeeds and leaves each
  -- destination, of secrets and of config maps, synced exactly as the new data asks.
  pub handle_settles :
      (synced : Synced)
      → ((k : Kind) (d : String) → synced k d ≡ wanted old k d)
      → let out = handle_idp_config_sync accept listed ranged old new in
        (out.1 ≡ ok tt) × ((k : Kind) (d : String) → effects out.0 synced k d ≡ wanted new k d)
  handle_settles synced s = (
    ap (λ out. out.1) handled,
    λ k d.
        ap (λ out. effects out.0 synced k d) handled
        ∙ settled ((news ++ deletions config_map) ++ deletions secret) synced k d (wanted new k d)
            (calls-IsFor k d) (start synced k d (s k d)),
  )
