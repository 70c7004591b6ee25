-- ===== src/Generation/Rules.antt =====
-- generate.go: the claim and user validation rules of a provider.
use cluster_authentication_o.Base.{
  is_empty, List, [], ◌∷◌, ◌++◌, Option, none, some, Result, ok, err, errorf, context, ◌>>=◌, ◌>>◌,
  if◌then◌else◌, map,
}
use cluster_authentication_o.Base.Loops.{collect}
use cluster_authentication_o.Generation.Expr.{CompilationResult}
use cluster_authentication_o.Generation.Types.{
  RuleType, required_claim, cel, other_rule, TokenClaimValidationRule, TokenUserValidationRule,
  ClaimValidationRule, UserValidationRule, claim_validation, user_validation, Deps,
}
use cluster_authentication_o.Generation.Mappings.{OidcGenerationState, results_of}

module _ (deps : Deps) where
  -- the `switch` on the type of the rule
  unfoldable pub claim_rule_of :
      RuleType → TokenClaimValidationRule → Result (ClaimValidationRule × Option CompilationResult)
  claim_rule_of required_claim rule = elim rule.required [
    | none ↦ err (
        errorf "claimValidationRule.type is %s and requiredClaim is not set" ("RequiredClaim" ∷ []))
    | some r ↦ ok (
      record { claim = r.claim; required_value = r.required_value; expression = ""; message = "" },
      none,
    )
  ]
  claim_rule_of cel rule =
      if is_empty rule.expression
      then err (errorf "claimValidationRule.type is %s and expression is not set" ("CEL" ∷ []))
      else (do
        result ←
            context "invalid CEL expression: %v" []
              (deps.compile_claims (claim_validation rule.expression))
        ok (
          record {
            claim = "";
            required_value = "";
            expression = rule.expression;
            message = rule.message;
          },
          some result,
        ))
  claim_rule_of (other_rule t) rule = err (errorf "unknown claimValidationRule type %q" (t ∷ []))

  unfoldable pub generate_claim_validation_rule :
      TokenClaimValidationRule → Result (ClaimValidationRule × Option CompilationResult)
  generate_claim_validation_rule rule =
      context "generating claimValidationRule: %v" [] (claim_rule_of rule.type rule)

  unfoldable pub generate_claim_validation_rules :
      OidcGenerationState
      → List TokenClaimValidationRule
      → Result (List ClaimValidationRule × OidcGenerationState)
  generate_claim_validation_rules state rules = do
    out ← collect generate_claim_validation_rule rules
    ok (
      map (λ (r, c). r) out,
      record state { claim_validation_results = state.claim_validation_results ++ results_of out },
    )

  unfoldable pub generate_user_validation_rule : TokenUserValidationRule → Result UserValidationRule
  generate_user_validation_rule rule =
      if is_empty rule.expression
      then err (errorf "userValidationRule expression must be non-empty" [])
      else (do
        context "invalid CEL expression: %v" []
            (deps.compile_user (user_validation rule.expression))
        ok (record { expression = rule.expression; message = rule.message }))

  unfoldable pub generate_user_validation_rules :
      List TokenUserValidationRule → Result (List UserValidationRule)
  generate_user_validation_rules =
      collect
        (λ r. context "generating userValidationRule: %v" [] (generate_user_validation_rule r))
