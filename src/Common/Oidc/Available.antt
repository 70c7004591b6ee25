-- ===== src/Common/Oidc/Available.antt =====
-- When OIDCAvailable answers true: a description that does not depend on the order of the set.
use mathlib.Core.List.{Memᴰ}
use mathlib.Core.Path.{subst}
use cluster_authentication_o.Base.{
  String, ◌≡◌, refl, sym, ◌↔◌, ◌≢◌, ◌⊎◌, inl, inr, Bool, true, false, arith, List, [], ◌∷◌, some,
  Result, ok, err, lookup, Bool-cases, Option-cases, Result-cases,
}
use cluster_authentication_o.Base.Int.{ℤ, is_positive}
use cluster_authentication_o.Generation.Types.{Gate, oidc}
use cluster_authentication_o.Common.Oidc.{
  AuthConfigChecker, external_oidc_webhook_architecture_required, observe, observed_revisions,
  config_yaml, config_has_oidc, revision_available, revisions_available, webhook_available,
  kas_available, synced, oidc_available,
}
use cluster_authentication_o.Common.Oidc.Revisions.{
  IsListing, observe_positive, observe_adds, observe_only, observe_total,
}

module _ (c : AuthConfigChecker) where
  -- A revision whose two config maps are there and ask for OIDC.
  abbrev pub IsReady : ℤ → Type 0
  IsReady r =
      (cm config : List (String × String)) × (c.kas_auth_config r ≡ ok cm)
      × (c.kas_config r ≡ ok config)
      × (config_has_oidc (config_yaml config) ≡ true)

  revision_iff : (r : ℤ) → (revision_available c r ≡ ok true) ↔ IsReady r
  revision_iff r = (
    (λ h. elim (Result-cases (c.kas_auth_config r)) [
      | inr (e, p) ↦ absurd (unfold revision_available in ground (arith, p, h))
      | inl (cm, p) ↦ elim (Result-cases (c.kas_config r)) [
        | inr (e, q) ↦ absurd (unfold revision_available in ground (arith, p, q, h))
        | inl (config, q) ↦ (cm, config, p, q, unfold revision_available in ground (arith, p, q, h))
      ]
    ]),
    λ (cm, config, p, q, g). unfold revision_available in ground (arith, p, q, g),
  )

  revisions_sound :
      (revisions : List ℤ) (r : ℤ)
      → revisions_available c revisions ≡ ok true
      → Memᴰ r revisions
      → IsReady r
  revisions_sound [] r h m = elim m [ ]
  revisions_sound (x ∷ revisions) r h (Memᴰ.head e) =
      subst IsReady (sym e) ((revision_iff x).0 (unfold revisions_available in ground (arith, h)))
  revisions_sound (x ∷ revisions) r h (Memᴰ.tail m) =
      revisions_sound revisions r (unfold revisions_available in ground (arith, h)) m

  revisions_complete :
      (revisions : List ℤ)
      → ((r : ℤ) → Memᴰ r revisions → IsReady r)
      → revisions_available c revisions ≡ ok true
  unfolding revisions_available
  revisions_complete [] all = refl
  revisions_complete (x ∷ revisions) all = ground (
    arith,
    (revision_iff x).1 (all x (Memᴰ.head refl)),
    revisions_complete revisions (λ r m. all r (Memᴰ.tail m)),
  )

  -- Every node is at a positive revision, and every such revision is ready; there is a node.
  pub record IsRolledOut : Type 0 where
    pub nodes : List ℤ
    pub reported : c.node_revisions ≡ ok nodes
    pub some_node : nodes ≢ []
    pub valid : (r : ℤ) → Memᴰ r nodes → is_positive r ≡ true
    pub ready : (r : ℤ) → Memᴰ r nodes → IsReady r

  -- The observed set of some nodes.
  observed_sound :
      (nodes observed : List ℤ)
      → observed_revisions nodes ≡ ok observed
      → (nodes ≢ []) × (observe nodes [] ≡ ok observed)
  unfolding observed_revisions
  observed_sound [] observed h = ground arith
  observed_sound (x ∷ nodes) observed h = ground arith

  observed_complete :
      (nodes observed : List ℤ)
      → nodes ≢ []
      → observe nodes [] ≡ ok observed
      → observed_revisions nodes ≡ ok observed
  unfolding observed_revisions
  observed_complete [] observed n h = absurd (n refl)
  observed_complete (x ∷ nodes) observed n h = h

  kas_sound : IsListing c.unsorted_list → kas_available c ≡ ok true → IsRolledOut
  kas_sound listing h = elim (Result-cases c.node_revisions) [
    | inr (e, p) ↦ absurd (unfold kas_available in ground (arith, p, h))
    | inl (nodes, p) ↦ elim (Result-cases (observed_revisions nodes)) [
      | inr (e, q) ↦ absurd (unfold kas_available in ground (arith, p, q, h))
      | inl (observed, q) ↦
          let (filled, o) = observed_sound nodes observed q in
          record {
            nodes = nodes;
            reported = p;
            some_node = filled;
            valid = λ r m. observe_positive nodes [] observed r o m;
            ready = λ r m.
                revisions_sound (c.unsorted_list observed) r
                  (unfold kas_available in ground (arith, p, q, h))
                  ((listing observed r).1 (observe_adds nodes [] observed r o m));
          }
    ]
  ]

  kas_complete : IsListing c.unsorted_list → IsRolledOut → kas_available c ≡ ok true
  unfolding kas_available
  kas_complete listing w =
      let (observed, o) = observe_total w.nodes [] w.valid in
      let all : (r : ℤ) → Memᴰ r (c.unsorted_list observed) → IsReady r = λ r m.
        elim (observe_only w.nodes [] observed r o ((listing observed r).0 m)) [
          | inl i ↦ w.ready r i
          | inr i ↦ elim i [ ]
        ] in
      ground (
        arith,
        w.reported,
        observed_complete w.nodes observed w.some_node o,
        revisions_complete (c.unsorted_list observed) all,
      )

  webhook_iff :
      (cm : Result (List (String × String)))
      → (webhook_available cm ≡ ok true) ↔ (
          (entries : List (String × String)) × (text : String) × (cm ≡ ok entries)
          × (lookup "auth-config.json" entries ≡ some text))
  webhook_iff (err e) = (
    λ h. absurd (unfold webhook_available in ground (arith, h)),
    λ (entries, text, p, q). ground (arith, p),
  )
  webhook_iff (ok entries) = (
    (λ h. elim (Option-cases (lookup "auth-config.json" entries)) [
      | inl n ↦ absurd (unfold webhook_available in ground (arith, n, h))
      | inr (text, p) ↦ (entries, text, refl, p)
    ]),
    λ (other, text, p, q). unfold webhook_available in ground (arith, p, q),
  )

  -- All that the answer true stands for.
  pub record IsInEffect : Type 0 where
    pub gates : Gate → Bool
    pub ready_to_read : synced c ≡ ok gates
    pub type_oidc : c.auth_type ≡ ok oidc
    pub deployed :
        ((external_oidc_webhook_architecture_required gates ≡ true)
          × ((entries : List (String × String)) × (text : String) × (c.oaas_auth_config
                ≡ ok entries)
              × (lookup "auth-config.json" entries ≡ some text)))
        ⊎ ((external_oidc_webhook_architecture_required gates ≡ false) × IsRolledOut)

  effect_sound : IsListing c.unsorted_list → oidc_available c ≡ ok true → IsInEffect
  effect_sound listing h = elim (Result-cases (synced c)) [
    | inr (e, p) ↦ absurd (unfold oidc_available in ground (arith, p, h))
    | inl (gates, p) ↦ record {
      gates = gates;
      ready_to_read = p;
      type_oidc = unfold oidc_available in ground (arith, p, h);
      deployed = elim (Bool-cases (external_oidc_webhook_architecture_required gates)) [
        | inl w ↦ inl (
          w,
          (webhook_iff c.oaas_auth_config).0 (unfold oidc_available in ground (arith, p, w, h)),
        )
        | inr k ↦ inr (k, kas_sound listing (unfold oidc_available in ground (arith, p, k, h)))
      ];
    }
  ]

  deployed_complete :
      (gates : Gate → Bool)
      → IsListing c.unsorted_list
      → synced c ≡ ok gates
      → c.auth_type ≡ ok oidc
      → ((external_oidc_webhook_architecture_required gates ≡ true)
          × ((entries : List (String × String)) × (text : String) × (c.oaas_auth_config
                ≡ ok entries)
              × (lookup "auth-config.json" entries ≡ some text)))
        ⊎ ((external_oidc_webhook_architecture_required gates ≡ false) × IsRolledOut)
      → oidc_available c ≡ ok true
  unfolding oidc_available
  deployed_complete gates listing p t (inl (w, r)) =
      ground (arith, p, t, w, (webhook_iff c.oaas_auth_config).1 r)
  deployed_complete gates listing p t (inr (k, r)) = ground (arith, p, t, k, kas_complete listing r)

  -- OIDCAvailable answers true, with whatever order the set gives its items, exactly when the
  -- informers and the feature gates are ready, the authentication type is OIDC, and: with the
  -- webhook architecture, the synced configuration has its key; without it, there is a node, every
  -- node is at a positive revision, and for each of these revisions the auth-config is there and the
  -- config of the kube-apiserver has the OIDC arguments and not the webhook's.
  pub oidc_available_iff : IsListing c.unsorted_list → (oidc_available c ≡ ok true) ↔ IsInEffect
  oidc_available_iff listing = (
    effect_sound listing,
    λ w. deployed_complete w.gates listing w.ready_to_read w.type_oidc w.deployed,
  )
