-- ===== src/ExternalOidc/Settling.antt =====
-- Syncs settle: the second of two makes no call.
use cluster_authentication_o.Base.{
  String, ◌≡◌, refl, inl, inr, true, arith, eq_iff, eq_refl, List, [], ◌∷◌, Option, none, some,
  not_found, Result, ok, err, Bool-cases, Result-cases, if◌then◌else◌, ◌>>=◌,
}
use cluster_authentication_o.Generation.Types.{Authentication, AuthenticationConfiguration}
use cluster_authentication_o.Common.Oidc.{is_oidc}
use cluster_authentication_o.ExternalOidc.{
  CmData, auth_config_data_key, Call, apply_config, delete_config, event, View,
  get_existing_apply_config, same_data, delete_auth_config, apply_auth_config, sync_config, sync,
}
use cluster_authentication_o.ExternalOidc.Options.{Setup, auth_config_generator}
use cluster_authentication_o.ExternalOidc.Sync.{sync_runs}

-- What a call that the server accepts makes of the data that the controller owns.
abbrev pub effect : Call → Option CmData → Option CmData
effect (apply_config text) stored = some ((auth_config_data_key, text) ∷ [])
effect delete_config stored = none
effect (event s) stored = stored

abbrev pub effects : List Call → Option CmData → Option CmData
effects [] stored = stored
effects (c ∷ cs) stored = effects cs (effect c stored)

-- The view of a controller whose lister is up to date, whose field manager owns the data of the
-- config map, and whose calls are accepted.
abbrev pub fresh_view : Authentication → Option CmData → View
fresh_view auth stored = record {
  auth = ok auth;
  existing = elim stored [ none ↦ err not_found | some d ↦ ok d ];
  extracted = λ d. ok d;
  server = λ c. ok tt;
}

-- The data that the controller is to hold, if it can be generated.
abbrev pub wanted_data : Setup → Authentication → Result (Option CmData)
wanted_data setup auth =
    if is_oidc auth.type
    then (auth_config_generator setup auth >>= λ config.
        setup.marshal config >>= λ text. ok (some ((auth_config_data_key, text) ∷ [])))
    else ok none

same_data_lem :
    (d : Option CmData) (text : String)
    → same_data d text ≡ true
    → d ≡ some ((auth_config_data_key, text) ∷ [])
unfolding same_data
same_data_lem none text h = ground arith
same_data_lem (some []) text h = ground arith
same_data_lem (some ((k, v) ∷ [])) text h =
    ground (arith, eq_iff k auth_config_data_key, eq_iff v text)
same_data_lem (some (x ∷ y ∷ d)) text h = ground arith

same_data_self : (text : String) → same_data (some ((auth_config_data_key, text) ∷ [])) text ≡ true
unfolding same_data
same_data_self text = ground (arith, eq_refl text, eq_refl auth_config_data_key)

existing_fresh :
    (auth : Authentication) (stored : Option CmData)
    → get_existing_apply_config (fresh_view auth stored) ≡ ok stored
unfolding get_existing_apply_config
existing_fresh auth none = refl
existing_fresh auth (some d) = refl

config_settles :
    (auth : Authentication) (stored : Option CmData) (text : String)
    → let out = sync_config (fresh_view auth stored) stored text in
      (out.1 ≡ ok tt) × (effects out.0 stored ≡ some ((auth_config_data_key, text) ∷ []))
unfolding sync_config apply_auth_config
config_settles auth stored text = ground (arith, same_data_lem stored text)

wanted_inversion :
    (setup : Setup) (auth : Authentication) (d : Option CmData)
    → is_oidc auth.type ≡ true
    → wanted_data setup auth ≡ ok d
    → (config : AuthenticationConfiguration) × (text : String) × (auth_config_generator setup auth
        ≡ ok config)
      × (setup.marshal config ≡ ok text)
      × (d ≡ some ((auth_config_data_key, text) ∷ []))
wanted_inversion setup auth d o h = elim (Result-cases (auth_config_generator setup auth)) [
  | inr (e, g) ↦ absurd (ground (arith, o, h, g))
  | inl (config, g) ↦ elim (Result-cases (setup.marshal config)) [
    | inr (e, m) ↦ absurd (ground (arith, o, h, g, m))
    | inl (text, m) ↦ (config, text, g, m, ground (arith, o, h, g, m))
  ]
]

deletion_settles :
    (auth : Authentication) (stored : Option CmData)
    → let out = delete_auth_config (fresh_view auth stored) in
      (out.1 ≡ ok tt) × (effects out.0 stored ≡ none)
unfolding delete_auth_config
deletion_settles auth none = (refl, refl)
deletion_settles auth (some d) = (refl, refl)

again_quiet :
    (auth : Authentication) (text : String)
    → sync_config
        (fresh_view auth (some ((auth_config_data_key, text) ∷ [])))
        (some ((auth_config_data_key, text) ∷ []))
        text
      ≡ ([], ok tt)
unfolding sync_config
again_quiet auth text = ground (arith, same_data_self text)

-- Where the lister is up to date, the controller's field manager owns all the data of the config map,
-- the calls are accepted and the wanted data can be generated (none for another type than OIDC), a
-- sync succeeds and leaves exactly that data in the config map; the sync after it succeeds with no
-- call.
pub sync_settles :
    (setup : Setup) (auth : Authentication) (stored d : Option CmData)
    → wanted_data setup auth ≡ ok d
    → let out = sync setup (fresh_view auth stored) in
      (out.1 ≡ ok tt) × (effects out.0 stored ≡ d) × (sync setup (fresh_view auth d) ≡ ([], ok tt))
sync_settles setup auth stored d h = elim (Bool-cases (is_oidc auth.type)) [
  | inr o ↦
      let gone : d ≡ none = ground (arith, o, h) in
      let (done, data_gone) = deletion_settles auth stored in
      (
        unfold sync in ground (arith, o, done),
        unfold sync in ground (arith, o, data_gone, gone),
        rw gone (unfold sync delete_auth_config in ground (arith, o)),
      )
  | inl o ↦
      let (config, text, g, m, e) = wanted_inversion setup auth d o h in
      let first =
        sync_runs setup (fresh_view auth stored) auth config text stored refl o g m
          (existing_fresh auth stored) in
      let second =
        sync_runs setup (fresh_view auth d) auth config text d refl o g m (existing_fresh auth d) in
      let (done, written) = config_settles auth stored text in
      (rw first done, rw (first, e) written, rw second (rw e (again_quiet auth text)))
]
