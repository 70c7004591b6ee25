-- ===== src/Generation/Shapes.antt =====
-- The shape of the generated mappings: what the kube-apiserver requires of them.
use cluster_authentication_o.Base.{
  String, ◌≡◌, ◌≢◌, ◌⊎◌, true, false, ◌==◌, arith, is_empty, ◌<>◌, Option, none, some, ok,
  if◌then◌else◌, ◌↔◌, inl, inr, Bool-cases, Result-cases,
}
use cluster_authentication_o.Generation.Expr.{CompilationResult}
use cluster_authentication_o.Generation.Types.{
  external_oidc_with_upstream_parity, PrefixPolicy, prefix, no_prefix, no_opinion, other_policy,
  UsernameClaimMapping, TokenClaimOrExpressionMapping, PrefixedClaimOrExpression, ClaimOrExpression,
  claim_mapping, Deps,
}
use cluster_authentication_o.Generation.Mappings.{
  username_prefix, generate_username_claim_mapping_legacy,
  generate_username_claim_mapping_with_parity, generate_username_claim_mapping,
  generate_uid_claim_mapping,
}

-- The prefix that a policy stands for.
abbrev pub policy_prefix : PrefixPolicy → UsernameClaimMapping → String → Option String
policy_prefix prefix m url = m.prefix_string
policy_prefix no_prefix m url = some ""
policy_prefix no_opinion m url = if m.claim == "email" then some "" else some (url <> "#")
policy_prefix (other_policy p) m url = none

module _ (deps : Deps) where
  -- Either a claim with the prefix of its policy, or, under the gate, an expression that compiles.
  abbrev pub IsUsernameOf :
      UsernameClaimMapping → String → PrefixedClaimOrExpression → Option CompilationResult → Type 0
  IsUsernameOf m url u r =
      ((is_empty m.claim ≡ false)
        × (u.claim ≡ m.claim)
        × (u.expression ≡ "")
        × (u.prefix ≡ policy_prefix m.prefix_policy m url)
        × (u.prefix ≢ none)
        × (r ≡ none))
      ⊎ ((deps.enabled external_oidc_with_upstream_parity ≡ true)
          × (is_empty m.expression ≡ false)
          × (u.claim ≡ "")
          × (u.expression ≡ m.expression)
          × (u.prefix ≡ none)
          × (r ≢ none))

  prefix_lem :
      (p : PrefixPolicy) (m : UsernameClaimMapping) (url : String) (q : Option String)
      → username_prefix p m url ≡ ok q
      → (q ≡ policy_prefix p m url) × (q ≢ none)
  unfolding username_prefix
  prefix_lem p m url q h = ground arith

  -- A username mapping that is generated, with either setting of the gate of the upstream parity,
  -- sets a claim with the prefix of its policy and no expression, or, with the gate on, an
  -- expression that was compiled and neither claim nor prefix.
  pub username_exclusive :
      (m : UsernameClaimMapping) (url : String) (u : PrefixedClaimOrExpression)
      (r : Option CompilationResult)
      → generate_username_claim_mapping deps m url ≡ ok (u, r)
      → IsUsernameOf m url u r
  unfolding generate_username_claim_mapping generate_username_claim_mapping_legacy
      generate_username_claim_mapping_with_parity
  username_exclusive m url u r h = ground (arith, prefix_lem m.prefix_policy m url u.prefix)

  -- Where the mapping names a claim and no expression, turning the gate of the upstream parity on
  -- changes nothing in what is generated, errors included.
  pub parity_agrees :
      (m : UsernameClaimMapping) (url : String)
      → is_empty m.claim ≡ false
      → is_empty m.expression ≡ true
      → generate_username_claim_mapping_with_parity deps m url
        ≡ generate_username_claim_mapping_legacy m url
  unfolding generate_username_claim_mapping_legacy generate_username_claim_mapping_with_parity
  parity_agrees m url named plain = ground arith

  abbrev pub IsUidOf : Option TokenClaimOrExpressionMapping → ClaimOrExpression → Type 0
  IsUidOf none u = u ≡ record { claim = "sub"; expression = "" }
  IsUidOf (some m) u =
      ((is_empty m.claim ≡ false)
        × (is_empty m.expression ≡ true)
        × (u ≡ record { claim = m.claim; expression = "" }))
      ⊎ ((is_empty m.claim ≡ true)
          × (is_empty m.expression ≡ false)
          × (u ≡ record { claim = ""; expression = m.expression })
          × ((r : CompilationResult) × (deps.compile_claims (claim_mapping m.expression) ≡ ok r)))

  uid_sound :
      (m : Option TokenClaimOrExpressionMapping) (u : ClaimOrExpression)
      → generate_uid_claim_mapping deps m ≡ ok u
      → IsUidOf m u
  unfolding generate_uid_claim_mapping
  uid_sound none u h = ground arith
  uid_sound (some m) u h = elim (Bool-cases (is_empty m.expression)) [
    | inl e ↦ inl (ground (arith, e, h), e, ground (arith, e, h))
    | inr n ↦ elim (Result-cases (deps.compile_claims (claim_mapping m.expression))) [
      | inl (r, c) ↦ inr (ground (arith, n, c, h), n, ground (arith, n, c, h), (r, c))
      | inr (e, c) ↦ absurd (ground (arith, n, c, h))
    ]
  ]

  uid_complete :
      (m : Option TokenClaimOrExpressionMapping) (u : ClaimOrExpression)
      → IsUidOf m u
      → generate_uid_claim_mapping deps m ≡ ok u
  unfolding generate_uid_claim_mapping
  uid_complete none u h = ground arith
  uid_complete (some m) u (inl (c, e, p)) = ground (arith, c, e, p)
  uid_complete (some m) u (inr (c, e, p, (r, q))) = ground (arith, c, e, p, q)

  -- The uid is read from the claim `sub` where the resource has no uid mapping; otherwise it is
  -- generated exactly when the mapping sets a claim and no expression, or an expression that
  -- compiles and no claim, and carries that one alone.
  pub uid_exclusive :
      (m : Option TokenClaimOrExpressionMapping) (u : ClaimOrExpression)
      → (generate_uid_claim_mapping deps m ≡ ok u) ↔ IsUidOf m u
  uid_exclusive m u = (uid_sound m u, uid_complete m u)
