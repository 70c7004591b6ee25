-- ===== src/DataSync/Examples.antt =====
-- A server certificate in its period.
use cluster_authentication_o.Base.{
  List, ℕ, lookup, true, some, String, ◌≡◌, ◌≢◌, refl, ◌↔◌, false, [], ◌∷◌, ok, errorf, is_empty,
  All, if◌then◌else◌, ◌==◌,
}
use cluster_authentication_o.DataSync.SyncData.{
  SourceData, SyncData, config_map_type, secret_type, Kind, config_map, secret, sync_resource,
  kind_of, sync_config_or_die, sync_new, has_name, unused_names, delete_each,
  handle_idp_config_sync,
}
use cluster_authentication_o.DataSync.Calls.{accept, effects, wanted}
use cluster_authentication_o.DataSync.Handling.{handle_settles}
use cluster_authentication_o.DataSync.Sources.{
  new_source_data_idp, Listers, validate, validate_source, answer_of, validator_of, source_errors,
  get_idp_name, add_idp_secret, add_idp_config_map, Volume, VolumeMount, to_volumes_and_mounts,
  volumes_from, sorted_keys, volume_and_mount,
}
use cluster_authentication_o.DataSync.Mounts.{AreKeys}
use cluster_authentication_o.Base.SortedSets.{insert_all, insert}
use cluster_authentication_o.DataSync.Volumes.{IsMounted, AreVolumes, added-IsMounted, volumes_iff}
use cluster_authentication_o.DataSync.Validation.{
  validate_ca_certs, Crypto, check_block, parse_blocks, parse_certs, validate_server_cert,
  IsCurrent, server_cert_iff,
}

abbrev crypto : Crypto
crypto = record {
  pem_blocks = λ pem. pem ∷ [];
  parse_certificate = λ b.
      if b == "old"
      then ok (record { not_before = 1; not_after = 2; ext_key_usage = []; raw = b })
      else ok (record { not_before = 1; not_after = 9; ext_key_usage = []; raw = b });
  parse_private_key = λ k. ok tt;
  now = 5;
}

server_cert_iff_example : (validate_server_cert crypto "cert" ≡ []) ↔ (
    (is_empty "cert" ≡ false)
    × (crypto.pem_blocks "cert" ≢ [])
    × All (IsCurrent crypto) (crypto.pem_blocks "cert"))
server_cert_iff_example = server_cert_iff crypto "cert"

in_period : validate_server_cert crypto "cert" ≡ []
unfolding validate_server_cert parse_certs parse_blocks check_block
in_period = refl

expired :
    validate_server_cert crypto "old"
    ≡ errorf "certificate expired:\n\tsub=%s;\n\tiss=%s" []
      ∷ errorf "expected at least one server certificate" []
      ∷ []
unfolding validate_server_cert parse_certs parse_blocks check_block
expired = refl

abbrev ca : SourceData
ca = record {
  name = "my-ca";
  mount_path = "/var/config/user/idp/0/configMap/v4-0-config-user-idp-0-ca";
  key = "ca.crt";
  type = config_map_type;
}

abbrev client_secret : SourceData
client_secret = record {
  name = "my-secret";
  mount_path = "/var/config/user/idp/0/secret/v4-0-config-user-idp-0-ca";
  key = "clientSecret";
  type = secret_type;
}

-- the destination of a config map becomes the one of a secret
abbrev old_data : SyncData
old_data = ("v4-0-config-user-idp-0-ca", ca) ∷ []

abbrev new_data : SyncData
new_data = ("v4-0-config-user-idp-0-ca", client_secret) ∷ []

handle_settles_example :
    let out = handle_idp_config_sync accept (λ xs. xs) (λ xs. xs) old_data new_data in
    (out.1 ≡ ok tt)
    × ((k : Kind) (d : String) → effects out.0 (wanted old_data) k d ≡ wanted new_data k d)
handle_settles_example =
    handle_settles (λ xs. xs) (λ xs. xs) (λ xs x. (λ m. m, λ m. m)) (λ xs x. (λ m. m, λ m. m))
      old_data new_data (wanted old_data) (λ k d. refl)

both_are_synced :
    (handle_idp_config_sync accept (λ xs. xs) (λ xs. xs) old_data new_data).0
    ≡ sync_resource secret "v4-0-config-user-idp-0-ca" "my-secret"
      ∷ sync_resource config_map "v4-0-config-user-idp-0-ca" ""
      ∷ []
unfolding handle_idp_config_sync sync_new kind_of sync_config_or_die delete_each unused_names
    has_name
both_are_synced = refl

abbrev listers : Listers
listers = record {
  secrets = λ name. ok (("clientSecret", "s3cret") ∷ []);
  config_maps = λ name. ok (("ca.crt", "cert") ∷ []);
}

ca_is_valid : validate crypto listers old_data ≡ some []
unfolding validate validate_source answer_of validator_of source_errors validate_ca_certs
    parse_certs parse_blocks check_block
ca_is_valid = refl

abbrev show : ℕ → String
show n = "0"

added-IsMounted_example :
    IsMounted
      (add_idp_secret show old_data 0 "my-secret" "client-secret" "clientSecret").0
      (add_idp_secret show old_data 0 "my-secret" "client-secret" "clientSecret").1
      (get_idp_name show 0 "client-secret")
      false
      "my-secret"
    × IsMounted
        (add_idp_config_map show old_data 0 "my-secret" "client-secret" "clientSecret").0
        (add_idp_config_map show old_data 0 "my-secret" "client-secret" "clientSecret").1
        (get_idp_name show 0 "client-secret")
        true
        "my-secret"
    × ((k : String)
        → (lookup k (add_idp_secret show old_data 0 "my-secret" "client-secret" "clientSecret").1
            ≡ (if get_idp_name show 0 "client-secret" == k
                then some
                    (new_source_data_idp show 0 secret_type "my-secret" "client-secret"
                      "clientSecret").1
                else lookup k old_data))
          × (lookup k
                (add_idp_config_map show old_data 0 "my-secret" "client-secret" "clientSecret").1
              ≡ (if get_idp_name show 0 "client-secret" == k
                  then some
                      (new_source_data_idp show 0 config_map_type "my-secret" "client-secret"
                        "clientSecret").1
                  else lookup k old_data)))
added-IsMounted_example =
    added-IsMounted show old_data 0 "my-secret" "client-secret" "clientSecret" refl

abbrev volume : Volume
volume = record {
  name = "v4-0-config-user-idp-0-ca";
  of_config_map = true;
  resource = "v4-0-config-user-idp-0-ca";
  item = "ca.crt";
}

abbrev mount : VolumeMount
mount = record {
  name = "v4-0-config-user-idp-0-ca";
  read_only = true;
  mount_path = "/var/config/user/idp/0/configMap/v4-0-config-user-idp-0-ca";
}

volumes_iff_example :
    (keys : List String) × AreKeys old_data keys
    × ((to_volumes_and_mounts old_data ≡ ok (volume ∷ [], mount ∷ []))
        ↔ AreVolumes old_data keys (volume ∷ []) (mount ∷ []))
volumes_iff_example = volumes_iff old_data (volume ∷ []) (mount ∷ [])

one_volume : to_volumes_and_mounts old_data ≡ ok (volume ∷ [], mount ∷ [])
unfolding to_volumes_and_mounts volumes_from sorted_keys volume_and_mount insert_all insert
one_volume = refl
