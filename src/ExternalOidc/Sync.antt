-- ===== src/ExternalOidc/Sync.antt =====
-- What a sync applies.
use cluster_authentication_o.Base.{
  String, ◌≡◌, ◌≢◌, ◌⊎◌, inl, inr, Bool, true, false, arith, List, [], ◌∷◌, Option, ok, Bool-cases,
  Result-cases, ◌∙◌, ap,
}
use cluster_authentication_o.Generation.Types.{Authentication, AuthenticationConfiguration, oidc}
use cluster_authentication_o.Generation.Whole.{IsConfigurationOf, generate_configuration_iff}
use cluster_authentication_o.Common.Oidc.{external_oidc_webhook_architecture_required, is_oidc}
use cluster_authentication_o.ExternalOidc.{
  CmData, Call, apply_config, delete_config, event, View, get_expected_apply_config,
  get_existing_apply_config, delete_auth_config, apply_auth_config, sync_config, sync_oidc, sync,
}
use cluster_authentication_o.ExternalOidc.Options.{Setup, auth_config_generator}

-- The text that the controller wants in its config map.
pub record IsWanted (setup : Setup) (view : View) (text : String) : Type 0 where
  pub auth : Authentication
  pub config : AuthenticationConfiguration
  pub read : view.auth ≡ ok auth
  pub type_oidc : auth.type ≡ oidc
  pub generated : auth_config_generator setup auth ≡ ok config
  pub marshalled : setup.marshal config ≡ ok text

-- The texts that a trace applies, and whether it deletes the config map.
abbrev pub applied : List Call → List String
applied [] = []
applied (apply_config text ∷ cs) = text ∷ applied cs
applied (delete_config ∷ cs) = applied cs
applied (event s ∷ cs) = applied cs

abbrev pub deleted : List Call → Bool
deleted [] = false
deleted (apply_config text ∷ cs) = deleted cs
deleted (delete_config ∷ cs) = true
deleted (event s ∷ cs) = deleted cs

module _ (setup : Setup) (view : View) where
  config_calls :
      (existing : Option CmData) (text : String)
      → let cs = (sync_config view existing text).0 in
        ((applied cs ≡ []) ⊎ (applied cs ≡ text ∷ [])) × (deleted cs ≡ false)
  unfolding sync_config apply_auth_config
  config_calls existing text = ground arith

  delete_calls : applied (delete_auth_config view).0 ≡ []
  unfolding delete_auth_config
  delete_calls = ground arith

  pub sync_runs :
      (auth : Authentication) (config : AuthenticationConfiguration) (text : String)
      (existing : Option CmData)
      → view.auth ≡ ok auth
      → is_oidc auth.type ≡ true
      → auth_config_generator setup auth ≡ ok config
      → setup.marshal config ≡ ok text
      → get_existing_apply_config view ≡ ok existing
      → sync setup view ≡ sync_config view existing text
  unfolding sync sync_oidc get_expected_apply_config
  sync_runs auth config text existing p o g m x = ground arith

  abbrev Outcome : Type 0
  Outcome =
      let cs = (sync setup view).0 in
      ((applied cs ≡ [])
        × ((deleted cs ≡ false)
            ⊎ ((auth : Authentication) × (view.auth ≡ ok auth) × (auth.type ≢ oidc))))
      ⊎ ((text : String) × (applied cs ≡ text ∷ [])
          × (deleted cs ≡ false)
          × IsWanted setup view text)

  wanted_cases :
      (auth : Authentication) (config : AuthenticationConfiguration) (text : String)
      (existing : Option CmData)
      → view.auth ≡ ok auth
      → is_oidc auth.type ≡ true
      → auth_config_generator setup auth ≡ ok config
      → setup.marshal config ≡ ok text
      → sync setup view ≡ sync_config view existing text
      → ((applied (sync_config view existing text).0 ≡ [])
          ⊎ (applied (sync_config view existing text).0 ≡ text ∷ []))
        × (deleted (sync_config view existing text).0 ≡ false)
      → Outcome
  wanted_cases auth config text existing p o g m runs (inl none_applied, kept) =
      inl (rw runs none_applied, inl (rw runs kept))
  wanted_cases auth config text existing p o g m runs (inr one, kept) = inr (
    text,
    rw runs one,
    rw runs kept,
    record {
      auth = auth;
      config = config;
      read = p;
      type_oidc = ground (arith, o);
      generated = g;
      marshalled = m;
    },
  )

  -- A sync applies at most one text. It does so only where the authentication type is OIDC, and the
  -- text is then the generated configuration, marshalled; it deletes the config map only where the
  -- type is another one, and never does both.
  pub sync-IsWanted :
      let cs = (sync setup view).0 in
      ((applied cs ≡ [])
        × ((deleted cs ≡ false)
            ⊎ ((auth : Authentication) × (view.auth ≡ ok auth) × (auth.type ≢ oidc))))
      ⊎ ((text : String) × (applied cs ≡ text ∷ [])
          × (deleted cs ≡ false)
          × IsWanted setup view text)
  sync-IsWanted = elim (Result-cases view.auth) [
    | inr (e, p) ↦ inl (unfold sync in ground (arith, p), inl (unfold sync in ground (arith, p)))
    | inl (auth, p) ↦ elim (Bool-cases (is_oidc auth.type)) [
      | inr o ↦ inl (
        unfold sync in ground (arith, p, o, delete_calls),
        inr (auth, p, λ e. absurd (ground (arith, e, o))),
      )
      | inl o ↦ elim (Result-cases (auth_config_generator setup auth)) [
        | inr (e, g) ↦ inl (
          unfold sync sync_oidc in ground (arith, p, o, g),
          inl (unfold sync sync_oidc in ground (arith, p, o, g)),
        )
        | inl (config, g) ↦ elim (Result-cases (setup.marshal config)) [
          | inr (e, m) ↦ inl (
            unfold sync sync_oidc get_expected_apply_config in ground (arith, p, o, g, m),
            inl (unfold sync sync_oidc get_expected_apply_config in ground (arith, p, o, g, m)),
          )
          | inl (text, m) ↦ elim (Result-cases (get_existing_apply_config view)) [
            | inr (e, x) ↦ inl (
              unfold sync sync_oidc get_expected_apply_config in ground (arith, p, o, g, m, x),
              inl (
                  unfold sync sync_oidc get_expected_apply_config in ground (arith, p, o, g, m, x)),
            )
            | inl (existing, x) ↦
                let runs = sync_runs auth config text existing p o g m x in
                wanted_cases auth config text existing p o g m runs (config_calls existing text)
          ]
        ]
      ]
    ]
  ]

-- Without the webhook architecture, whatever a sync applies is the text of a configuration with one
-- authenticator for each provider of the resource, in order, each of whose endpoints was reached.
pub applied_is_served :
    (setup : Setup) (view : View) (text : String) (texts : List String)
    → external_oidc_webhook_architecture_required setup.deps.enabled ≡ false
    → applied (sync setup view).0 ≡ text ∷ texts
    → (auth : Authentication) × (config : AuthenticationConfiguration) × (view.auth ≡ ok auth)
      × (auth.type ≡ oidc)
      × (setup.marshal config ≡ ok text)
      × IsConfigurationOf setup.deps auth config
applied_is_served setup view text texts k h = elim (sync-IsWanted setup view) [
  | inl (nothing, _) ↦ absurd (ground (arith, nothing, h))
  | inr (t, one, _, w) ↦
      let same : t ≡ text = ground (arith, one, h) in
      (
        w.auth,
        w.config,
        w.read,
        w.type_oidc,
        w.marshalled ∙ ap ok same,
        (generate_configuration_iff setup.deps w.auth w.config).0
            (unfold auth_config_generator in ground (arith, k, w.generated)),
      )
]
