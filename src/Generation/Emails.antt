-- ===== src/Generation/Emails.antt =====
-- The rule of the kube-apiserver on email claims: a username read from `claims.email` needs
-- `claims.email_verified` somewhere.
use mathlib.Core.List.{Memᴰ}
use cluster_authentication_o.Base.{
  String, ◌≡◌, refl, ◌∙◌, ◌⊎◌, inl, inr, true, false, arith, is_empty, List, [], Option, none, some,
  Result, ok, Bool-cases, Result-cases, Option-cases, ◌++◌,
}
use cluster_authentication_o.Base.Loops.{Collected, done, next, collect, collect_sound}
use cluster_authentication_o.Generation.Expr.{
  Expr, CompilationResult, uses_email_claim, uses_email_verified_claim,
  any_uses_email_verified_claim,
}
use cluster_authentication_o.Generation.Expr.Mentions.{Mentions, has_select-Mentions}
use cluster_authentication_o.Generation.Types.{
  external_oidc_with_upstream_parity, external_oidc_with_additional_claim_mappings, OidcProvider,
  JwtAuthenticator, ExpressionAccessor, claim_mapping, extra_mapping, claim_validation,
  ExtraMapping, TokenClaimValidationRule, ClaimValidationRule, cel, UsernameClaimMapping,
  PrefixedClaimOrExpression, TokenClaimMappings, ClaimMappings, Deps,
}
use cluster_authentication_o.Generation.Mappings.{
  generate_username_claim_mapping_with_parity, OidcGenerationState, new_state, results_of,
  generate_username_claim_mapping, generate_extra_mapping, generate_extra_claim_mapping,
  generate_claim_mappings,
}
use cluster_authentication_o.Generation.Issuer.{generate_issuer}
use cluster_authentication_o.Generation.Rules.{
  claim_rule_of, generate_claim_validation_rule, generate_claim_validation_rules,
}
use cluster_authentication_o.Generation.Generator.{
  validate_email_verified_usage, parity_rules, generate_jwt_for_provider,
}

-- A result that reads the verified claim comes from one of the items.
result_source {ℓ κ} :
    {A : Type ℓ} {B : Type κ} {f : A → Result (B × Option CompilationResult)} {xs : List A}
    {ys : List (B × Option CompilationResult)}
    → Collected f xs ys
    → any_uses_email_verified_claim (results_of ys) ≡ true
    → (x : A) × (y : B) × (r : CompilationResult) × Memᴰ x xs
      × (f x ≡ ok (y, some r))
      × (uses_email_verified_claim r.ast ≡ true)
unfolding any_uses_email_verified_claim
result_source done h = ground arith
result_source (next {x} {y = (b, none)} p c) h =
    let (x', y, r, m, q, u) = result_source c h in (x', y, r, Memᴰ.tail m, q, u)
result_source (next {x} {y = (b, some r)} p c) h =
    elim (Bool-cases (uses_email_verified_claim r.ast)) [
      | inl u ↦ (x, b, r, Memᴰ.head refl, p, u)
      | inr n ↦
          let (x', y, r', m, q, u) = result_source c (ground (arith, n, h)) in
          (x', y, r', Memᴰ.tail m, q, u)
    ]

-- What the test on a result says of its expression.
reads :
    (r : CompilationResult)
    → uses_email_verified_claim r.ast ≡ true
    → (e : Expr) × (r ≡ record { ast = some e }) × Mentions "claims" "email_verified" e
reads r h = elim (Option-cases r.ast) [
  | inl p ↦ absurd (unfold uses_email_verified_claim in ground (arith, p, h))
  | inr (e, p) ↦ (
    e,
    ground (arith, p),
    (has_select-Mentions "claims" "email_verified" refl refl e).0
        (unfold uses_email_verified_claim in ground (arith, p, h)),
  )
]

nothing_reads :
    (rs : List CompilationResult) → rs ≡ [] → any_uses_email_verified_claim rs ≡ true → ⊥
unfolding any_uses_email_verified_claim
nothing_reads rs e h = ground arith

email_used : (e : Expr) → Mentions "claims" "email" e → uses_email_claim (some e) ≡ true
unfolding uses_email_claim
email_used e m = (has_select-Mentions "claims" "email" refl refl e).1 m

-- The three places where the validation looks.
email_checks :
    (st : OidcGenerationState) (e : Expr)
    → st.username_result ≡ some (record { ast = some e })
    → uses_email_claim (some e) ≡ true
    → validate_email_verified_usage st ≡ ok tt
    → Mentions "claims" "email_verified" e
      ⊎ ((any_uses_email_verified_claim st.extra_results ≡ true)
          ⊎ (any_uses_email_verified_claim st.claim_validation_results ≡ true))
email_checks st e p u h = elim (Bool-cases (uses_email_verified_claim (some e))) [
  | inl v ↦ inl (
      (has_select-Mentions "claims" "email_verified" refl refl e).0
        (unfold uses_email_verified_claim in v))
  | inr n ↦ inr (unfold validate_email_verified_usage in ground (arith, p, u, h, n))
]

module _ (deps : Deps) where
  -- The compilation of an accessor reads `claims.email_verified`.
  abbrev pub ReadsEmailVerified : ExpressionAccessor → Type 0
  ReadsEmailVerified a =
      (e : Expr) × (deps.compile_claims a ≡ ok (record { ast = some e }))
      × Mentions "claims" "email_verified" e

  -- The places of a provider where the rule looks: the expression of the username, the value
  -- expressions of the extra mappings where their gate is on, and the CEL rules on claims.
  pub data LooksAt (p : OidcProvider) : ExpressionAccessor → Type 0 where
    username : LooksAt p (claim_mapping p.claim_mappings.username.expression)
    extra :
        {m : ExtraMapping}
        → deps.enabled external_oidc_with_additional_claim_mappings ≡ true
        → Memᴰ m p.claim_mappings.extra
        → LooksAt p (extra_mapping m.key m.value_expression)
    rule :
        {r : TokenClaimValidationRule}
        → r.type ≡ cel
        → Memᴰ r p.claim_validation_rules
        → LooksAt p (claim_validation r.expression)

  abbrev pub IsEmailVerified : OidcProvider → Type 0
  IsEmailVerified p = (a : ExpressionAccessor) × LooksAt p a × ReadsEmailVerified a

  username_result_lem :
      (m : UsernameClaimMapping) (url : String) (r : CompilationResult)
      {u : PrefixedClaimOrExpression} {o : Option CompilationResult}
      → deps.enabled external_oidc_with_upstream_parity ≡ true
      → is_empty m.expression ≡ false
      → deps.compile_claims (claim_mapping m.expression) ≡ ok r
      → generate_username_claim_mapping deps m url ≡ ok (u, o)
      → o ≡ some r
  unfolding generate_username_claim_mapping generate_username_claim_mapping_with_parity
  username_result_lem m url r gate filled compiled h = ground arith

  extra_result_lem :
      (m : ExtraMapping) {out : ExtraMapping} {r : CompilationResult}
      → generate_extra_mapping deps m ≡ ok (out, some r)
      → deps.compile_claims (extra_mapping m.key m.value_expression) ≡ ok r
  unfolding generate_extra_mapping
  extra_result_lem m h = ground arith

  rule_result_lem :
      (m : TokenClaimValidationRule) {out : ClaimValidationRule} {r : CompilationResult}
      → generate_claim_validation_rule deps m ≡ ok (out, some r)
      → (m.type ≡ cel) × (deps.compile_claims (claim_validation m.expression) ≡ ok r)
  unfolding generate_claim_validation_rule claim_rule_of
  rule_result_lem m h = ground arith

  mappings_state :
      (m : TokenClaimMappings) (url : String) (out : ClaimMappings) (st : OidcGenerationState)
      → generate_claim_mappings deps m url new_state ≡ ok (out, st)
      → ((u : PrefixedClaimOrExpression) × (generate_username_claim_mapping deps m.username url
            ≡ ok (u, st.username_result)))
        × (st.claim_validation_results ≡ [])
        × ((st.extra_results ≡ [])
            ⊎ ((deps.enabled external_oidc_with_additional_claim_mappings ≡ true)
                × (generate_extra_claim_mapping deps m.extra ≡ ok (out.extra, st.extra_results))))
  unfolding generate_claim_mappings
  mappings_state m url out st h =
      elim (Result-cases (generate_username_claim_mapping deps m.username url)) [
        | inl (v, p) ↦ ((v.0, ground (arith, p, h)), ground (arith, p, h), ground (arith, p, h))
        | inr (e, p) ↦ absurd (ground (arith, p, h))
      ]

  -- A provider's generation, taken apart.
  provider_parts :
      (sai : String) (p : OidcProvider) (jwt : JwtAuthenticator)
      → deps.enabled external_oidc_with_upstream_parity ≡ true
      → generate_jwt_for_provider deps sai p ≡ ok jwt
      → (url : String) × (st st' : OidcGenerationState) × (generate_claim_mappings deps
            p.claim_mappings url new_state
          ≡ ok (jwt.claim_mappings, st))
        × (generate_claim_validation_rules deps st p.claim_validation_rules
            ≡ ok (jwt.claim_validation_rules, st'))
        × (validate_email_verified_usage st' ≡ ok tt)
  unfolding generate_jwt_for_provider parity_rules
  provider_parts sai p jwt gate h = elim (Result-cases (generate_issuer deps p.issuer sai)) [
    | inr (e, q) ↦ absurd (ground (arith, q, h))
    | inl (i, q) ↦
        elim (Result-cases (generate_claim_mappings deps p.claim_mappings i.url new_state)) [
          | inr (e, r) ↦ absurd (ground (arith, q, r, h))
          | inl (m, r) ↦
              elim (Result-cases
                (generate_claim_validation_rules deps m.1 p.claim_validation_rules)) [
                  | inr (e, s) ↦ absurd (ground (arith, q, r, s, h))
                  | inl (c, s) ↦ (
                    i.url,
                    m.1,
                    c.1,
                    ground (arith, q, r, s, h),
                    ground (arith, q, r, s, h),
                    ground (arith, q, r, s, h, gate),
                  )
                ]
        ]
  ]

  rules_state :
      (st : OidcGenerationState) (rules : List TokenClaimValidationRule)
      (rs : List ClaimValidationRule) (st' : OidcGenerationState)
      → generate_claim_validation_rules deps st rules ≡ ok (rs, st')
      → (out : List (ClaimValidationRule × Option CompilationResult)) × Collected
          (generate_claim_validation_rule deps)
          rules
          out
        × (st'.username_result ≡ st.username_result)
        × (st'.extra_results ≡ st.extra_results)
        × (st'.claim_validation_results ≡ st.claim_validation_results ++ results_of out)
  unfolding generate_claim_validation_rules
  rules_state st rules rs st' h =
      elim (Result-cases (collect (generate_claim_validation_rule deps) rules)) [
        | inr (e, q) ↦ absurd (ground (arith, q, h))
        | inl (out, q) ↦ (
          out,
          collect_sound (generate_claim_validation_rule deps) rules q,
          ground (arith, q, h),
          ground (arith, q, h),
          ground (arith, q, h),
        )
      ]

  -- A verified claim that one of the three sources of results shows.
  from_extra :
      (p : OidcProvider) {es : List ExtraMapping} {rs : List CompilationResult}
      → deps.enabled external_oidc_with_additional_claim_mappings ≡ true
      → generate_extra_claim_mapping deps p.claim_mappings.extra ≡ ok (es, rs)
      → any_uses_email_verified_claim rs ≡ true
      → IsEmailVerified p
  unfolding generate_extra_claim_mapping
  from_extra p {es} {rs} gate h u =
      elim (Result-cases (collect (generate_extra_mapping deps) p.claim_mappings.extra)) [
        | inr (e, q) ↦ absurd (ground (arith, q, h))
        | inl (out, q) ↦
            let same : results_of out ≡ rs = ground (arith, q, h) in
            let (m, y, r, i, f, v) =
              result_source (collect_sound (generate_extra_mapping deps) p.claim_mappings.extra q)
                (rw same u) in
            let (e, a, w) = reads r v in
            (
              extra_mapping m.key m.value_expression,
              extra gate i,
              (e, cc (extra_result_lem m f, a), w),
            )
      ]

  from_rules :
      (p : OidcProvider) {out : List (ClaimValidationRule × Option CompilationResult)}
      → Collected (generate_claim_validation_rule deps) p.claim_validation_rules out
      → any_uses_email_verified_claim (results_of out) ≡ true
      → IsEmailVerified p
  from_rules p c u =
      let (m, y, r, i, f, v) = result_source c u in
      let (e, a, w) = reads r v in
      let (t, k) = rule_result_lem m f in
      (claim_validation m.expression, rule t i, (e, cc (k, a), w))

  -- Under the gate of the upstream parity, a provider whose generation succeeds and whose username
  -- expression mentions `claims.email` mentions `claims.email_verified` in that expression, in the
  -- value expression of an extra mapping (where the gate of the additional claim mappings is on),
  -- or in the expression of a CEL rule on claims.
  pub generate_jwt-IsEmailVerified :
      (sai : String) (p : OidcProvider) (jwt : JwtAuthenticator) (e : Expr)
      → deps.enabled external_oidc_with_upstream_parity ≡ true
      → generate_jwt_for_provider deps sai p ≡ ok jwt
      → is_empty p.claim_mappings.username.expression ≡ false
      → deps.compile_claims (claim_mapping p.claim_mappings.username.expression)
        ≡ ok (record { ast = some e })
      → Mentions "claims" "email" e
      → IsEmailVerified p
  generate_jwt-IsEmailVerified sai p jwt e gate h filled compiled m =
      let (url, st, st', gm, gr, gv) = provider_parts sai p jwt gate h in
      let ((u, gu), none_yet, extras) =
        mappings_state p.claim_mappings url jwt.claim_mappings st gm in
      let (out, c, same_username, same_extras, same_rules) =
        rules_state st p.claim_validation_rules jwt.claim_validation_rules st' gr in
      let username_result =
        username_result_lem p.claim_mappings.username url (record { ast = some e }) gate filled
          compiled gu in
      elim (email_checks st' e (same_username ∙ username_result) (email_used e m) gv) [
        | inl v ↦ (claim_mapping p.claim_mappings.username.expression, username, (e, compiled, v))
        | inr (inl x) ↦ elim extras [
          | inl empty ↦ absurd (nothing_reads st'.extra_results (same_extras ∙ empty) x)
          | inr (on, ge) ↦ from_extra p on ge (rw (← same_extras) x)
        ]
        | inr (inr x) ↦ from_rules p c (rw (same_rules, none_yet) at x)
      ]
