-- ===== src/Generation/Mappings.antt =====
-- generate.go: the claim mappings of a provider (username, groups, uid, extra), and the state of
-- compilation results that they leave for the validation of the whole.
use cluster_authentication_o.Base.{
  String, Bool, true, false, not, ◌&&◌, ◌==◌, is_empty, List, [], ◌∷◌, Option, none, some, Result,
  ok, err, errorf, context, ◌>>=◌, ◌>>◌, if◌then◌else◌, map, ◌<>◌,
}
use cluster_authentication_o.Base.Loops.{collect}
use cluster_authentication_o.Generation.Expr.{CompilationResult}
use cluster_authentication_o.Generation.Types.{
  external_oidc_with_upstream_parity, external_oidc_with_additional_claim_mappings, PrefixPolicy,
  prefix, no_prefix, no_opinion, other_policy, UsernameClaimMapping, PrefixedClaimMapping,
  TokenClaimOrExpressionMapping, ExtraMapping, TokenClaimMappings, PrefixedClaimOrExpression,
  ClaimOrExpression, ClaimMappings, claim_mapping, extra_mapping, Deps,
}

pub record OidcGenerationState : Type 0 where
  pub username_result : Option CompilationResult
  pub extra_results : List CompilationResult
  pub claim_validation_results : List CompilationResult

-- &oidcGenerationState{}
abbrev pub new_state : OidcGenerationState
new_state = record { username_result = none; extra_results = []; claim_validation_results = [] }

abbrev no_mapping : PrefixedClaimOrExpression
no_mapping = record { claim = ""; prefix = none; expression = "" }

-- the compilation results that are there, in order
abbrev pub results_of {ℓ} :
    {A : Type ℓ} → List (A × Option CompilationResult) → List CompilationResult
results_of [] = []
results_of ((a, none) ∷ rest) = results_of rest
results_of ((a, some r) ∷ rest) = r ∷ results_of rest

-- the `switch` on the prefix policy, the same in both functions of the username
unfoldable pub username_prefix :
    PrefixPolicy → UsernameClaimMapping → String → Result (Option String)
username_prefix prefix m issuer_url = elim m.prefix_string [
  | none ↦ err (errorf "nil username prefix while policy expects one" [])
  | some p ↦ ok (some p)
]
username_prefix no_prefix m issuer_url = ok (some "")
username_prefix no_opinion m issuer_url =
    if not (m.claim == "email") then ok (some (issuer_url <> "#")) else ok (some "")
username_prefix (other_policy p) m issuer_url =
    err (errorf "invalid username prefix policy: %s" (p ∷ []))

abbrev is_prefix : PrefixPolicy → Bool
is_prefix prefix = true
is_prefix _ = false

unfoldable pub generate_username_claim_mapping_legacy :
    UsernameClaimMapping → String → Result (PrefixedClaimOrExpression × Option CompilationResult)
unfolding username_prefix
generate_username_claim_mapping_legacy m issuer_url =
    if is_empty m.claim
    then err (errorf "username claim is required but an empty value was provided" [])
    else (do
      p ← username_prefix m.prefix_policy m issuer_url
      ok (record { claim = m.claim; prefix = p; expression = "" }, none))

module _ (deps : Deps) where
  unfoldable pub generate_username_claim_mapping_with_parity :
      UsernameClaimMapping → String → Result (PrefixedClaimOrExpression × Option CompilationResult)
  unfolding username_prefix
  generate_username_claim_mapping_with_parity m issuer_url =
      if is_empty m.expression && is_empty m.claim
      then err (
          errorf "username claim mapping is required and either claim or expression must be set" [])
      else if not (is_empty m.expression) && not (is_empty m.claim)
      then err (errorf "username claim mapping must not set both claim and expression" [])
      else if not (is_empty m.expression) && is_prefix m.prefix_policy
      then err (
          errorf
            "username claim mappings cannot have a prefix set when using an expression based mapping. If you want to set a prefix while using an expression mapping, set the prefix in the expression"
            [])
      else if not (is_empty m.expression)
      then (do
        result ←
            context "invalid CEL expression: %v" []
              (deps.compile_claims (claim_mapping m.expression))
        ok (record { claim = ""; prefix = none; expression = m.expression }, some result))
      else if not (is_empty m.claim)
      then (do
        p ← username_prefix m.prefix_policy m issuer_url
        ok (record { claim = m.claim; prefix = p; expression = "" }, none))
      else ok (no_mapping, none)

  unfoldable pub generate_username_claim_mapping :
      UsernameClaimMapping → String → Result (PrefixedClaimOrExpression × Option CompilationResult)
  generate_username_claim_mapping m issuer_url =
      if deps.enabled external_oidc_with_upstream_parity
      then generate_username_claim_mapping_with_parity m issuer_url
      else generate_username_claim_mapping_legacy m issuer_url

  unfoldable pub generate_groups_claim_mapping :
      PrefixedClaimMapping → Result PrefixedClaimOrExpression
  generate_groups_claim_mapping g =
      let plain : Result PrefixedClaimOrExpression =
        ok (record { claim = g.claim; prefix = some g.prefix; expression = "" }) in
      if deps.enabled external_oidc_with_upstream_parity
      then (if not (is_empty g.expression) && not (is_empty g.claim)
          then err (errorf "groups claim mapping must not set both claim and expression" [])
          else if not (is_empty g.expression) && not (is_empty g.prefix)
          then err (errorf "groups claim mapping must not set prefix when expression is set" [])
          else if not (is_empty g.expression)
          then (do
            context "invalid CEL expression: %v" []
                (deps.compile_claims (claim_mapping g.expression))
            ok (record { claim = ""; prefix = none; expression = g.expression }))
          else plain)
      else plain

  unfoldable pub generate_uid_claim_mapping :
      Option TokenClaimOrExpressionMapping → Result ClaimOrExpression
  generate_uid_claim_mapping none = ok (record { claim = "sub"; expression = "" })
  generate_uid_claim_mapping (some uid) =
      if not (is_empty uid.claim) && is_empty uid.expression
      then ok (record { claim = uid.claim; expression = "" })
      else if not (is_empty uid.expression) && is_empty uid.claim
      then (do
        context "validating expression: %v" [] (deps.compile_claims (claim_mapping uid.expression))
        ok (record { claim = ""; expression = uid.expression }))
      else if not (is_empty uid.claim) && not (is_empty uid.expression)
      then err (
          errorf "uid mapping must set either claim or expression, not both: %v"
            (uid.claim ∷ uid.expression ∷ []))
      else err (errorf "unable to handle uid mapping: %v" (uid.claim ∷ uid.expression ∷ []))

  unfoldable pub generate_extra_mapping :
      ExtraMapping → Result (ExtraMapping × Option CompilationResult)
  generate_extra_mapping m =
      if is_empty m.key
      then err (
          errorf "extra mapping must set a key, but none was provided: %v"
            (m.key ∷ m.value_expression ∷ []))
      else if is_empty m.value_expression
      then err (
          errorf "extra mapping must set a valueExpression, but none was provided: %v"
            (m.key ∷ m.value_expression ∷ []))
      else (do
        result ←
            context "validating expression: %v" []
              (deps.compile_claims (extra_mapping m.key m.value_expression))
        ok (record { key = m.key; value_expression = m.value_expression }, some result))

  unfoldable pub generate_extra_claim_mapping :
      List ExtraMapping → Result (List ExtraMapping × List CompilationResult)
  generate_extra_claim_mapping ms = do
    extras ← collect generate_extra_mapping ms
    ok (map (λ (e, r). e) extras, results_of extras)

  unfoldable pub generate_claim_mappings :
      TokenClaimMappings
      → String
      → OidcGenerationState
      → Result (ClaimMappings × OidcGenerationState)
  generate_claim_mappings m issuer_url state = do
    (username, username_result) ←
        context "generating username claim mapping: %v" []
          (generate_username_claim_mapping m.username issuer_url)
    let state' = record state { username_result = username_result }
    groups ←
        context "generating group claim mapping: %v" [] (generate_groups_claim_mapping m.groups)
    if deps.enabled external_oidc_with_additional_claim_mappings
        then (do
          uid ← context "generating uid claim mapping: %v" [] (generate_uid_claim_mapping m.uid)
          (extra, extra_results) ←
              context "generating extra claim mapping: %v" [] (generate_extra_claim_mapping m.extra)
          ok (
            record { username = username; groups = groups; uid = uid; extra = extra },
            record state' { extra_results = extra_results },
          ))
        else ok (
          record {
            username = username;
            groups = groups;
            uid = record { claim = ""; expression = "" };
            extra = [];
          },
          state',
        )
