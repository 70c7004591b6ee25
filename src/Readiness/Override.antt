-- ===== src/Readiness/Override.antt =====
-- pkg/controllers/readiness/unsupported_override.go: how many masters the operator expects.
use cluster_authentication_o.Base.{
  ℕ, String, Bool, true, false, List, [], ◌∷◌, Option, none, some, Result, ok, err, failure, ◌>>=◌,
  lookup, ◌==◌, if◌then◌else◌, has,
}

pub data OverrideValue : Type 0 where
  bool_value : Bool → OverrideValue
  string_value : String → OverrideValue
  other_value : OverrideValue

-- kyaml.ToJSON, and the decoder of JSON objects
pub record Readers : Type 0 where
  pub to_json : String → Result String
  pub decode : String → Result (List (String × OverrideValue))

-- strconv.ParseBool
unfoldable pub parse_bool : String → Result Bool
parse_bool s =
    if has (λ t. s == t) ("1" ∷ "t" ∷ "T" ∷ "true" ∷ "TRUE" ∷ "True" ∷ [])
    then ok true
    else if has (λ t. s == t) ("0" ∷ "f" ∷ "F" ∷ "false" ∷ "FALSE" ∷ "False" ∷ [])
    then ok false
    else err (failure "strconv.ParseBool: invalid syntax")

-- a text that is no YAML may still be JSON
unfoldable pub config_json : Readers → String → String
config_json readers raw = elim (readers.to_json raw) [ ok json ↦ json | err e ↦ raw ]

unfoldable pub is_unsupported_unsafe_authentication : Readers → Option String → Result Bool
unfolding config_json
is_unsupported_unsafe_authentication readers none = ok false
is_unsupported_unsafe_authentication readers (some raw) = do
  config ← readers.decode (config_json readers raw)
  elim (lookup "useUnsupportedUnsafeNonHANonProductionUnstableOAuthServer" config) [
    | none ↦ ok false
    | some value ↦ elim value [
      | bool_value b ↦ ok b
      | string_value s ↦ parse_bool s
      | other_value ↦ ok false
    ]
  ]

pub data TopologyMode : Type 0 where
  single_replica highly_available_arbiter dual_replica : TopologyMode
  other_topology : String → TopologyMode

unfoldable pub get_expected_minimum_number_of_masters : Readers → Option String → TopologyMode → ℕ
get_expected_minimum_number_of_masters readers overrides mode =
    let allow = is_unsupported_unsafe_authentication readers overrides in
    elim mode [
      | single_replica ↦ 1
      | highly_available_arbiter ↦ 2
      | dual_replica ↦ 2
      | other_topology t ↦ elim allow [ err e ↦ 3 | ok b ↦ if b then 1 else 3 ]
    ]
