-- ===== src/Common/Conditions.antt =====
-- pkg/controllers/common/conditions.go: the conditions of the operator status that a controller
-- owns. An apply of the status with fewer conditions removes the others of its field manager.
use cluster_authentication_o.Base.{
  ℕ, String, ◌≡◌, refl, ◌==◌, eq_iff, arith, List, [], ◌∷◌, map, Option, none, some, Result,
  has_suffix, if◌then◌else◌, Option-cases, inl, inr, has, ◌∙◌, ap, Error, ok, err,
}
use cluster_authentication_o.Base.Calls.{Run, pure, call}

pub data ConditionStatus : Type 0 where
  status_true status_false status_unknown : ConditionStatus

-- operatorv1.OperatorCondition; a time is in nanoseconds, and 0 the zero time
pub record OperatorCondition : Type 0 where
  pub type : String
  pub status : ConditionStatus
  pub reason : String
  pub message : String
  pub last_transition_time : ℕ

-- a condition that a controller sets to True
abbrev pub degraded : String → String → String → OperatorCondition
degraded type reason message = record {
  type = type;
  status = status_true;
  reason = reason;
  message = message;
  last_transition_time = 0;
}

-- a call whose error becomes a condition
unfoldable pub answered {ℓ} :
    {C : Type ℓ}
    → C
    → (Error → OperatorCondition)
    → Result (Unit {0})
    → Run C (List OperatorCondition)
answered c f (ok u) = (c ∷ [], ok [])
answered c f (err e) = (c ∷ [], ok (f e ∷ []))

-- the apply configuration of a condition
pub record AppliedCondition : Type 0 where
  pub type : String
  pub status : ConditionStatus
  pub reason : String
  pub message : String

pub data StatusCall : Type 0 where
  apply_operator_status : String → List AppliedCondition → StatusCall

abbrev pub StatusServer : Type 0
StatusServer = StatusCall → Result (Unit {0})

-- operatorClient.ApplyOperatorStatus
abbrev pub apply_status : StatusServer → String → List AppliedCondition → Run StatusCall (Unit {0})
apply_status server manager conditions = call server (apply_operator_status manager conditions)

-- v1helpers.FindOperatorCondition: the first condition of the type
abbrev pub find_operator_condition : List OperatorCondition → String → Option OperatorCondition
find_operator_condition [] t = none
find_operator_condition (c ∷ cs) t = if c.type == t then some c else find_operator_condition cs t

-- the condition of a type that no update mentions
unfoldable pub default_status : String → ConditionStatus
default_status t = if has_suffix t "Available" then status_true else status_false

unfoldable pub applied_of : OperatorCondition → AppliedCondition
applied_of c = record { type = c.type; status = c.status; reason = c.reason; message = c.message }

unfoldable pub new_condition : List OperatorCondition → String → AppliedCondition
unfolding applied_of
new_condition updated t = elim (find_operator_condition updated t) [
  | some c ↦ applied_of c
  | none ↦ record { type = t; status = default_status t; reason = ""; message = "" }
]

-- `names` is allConditionNames.List(), the names in their order
unfoldable pub apply_controller_conditions :
    StatusServer → String → List String → List OperatorCondition → Run StatusCall (Unit {0})
apply_controller_conditions server manager [] updated = pure tt
apply_controller_conditions server manager (t ∷ names) updated =
    apply_status server manager (map (new_condition updated) (t ∷ names))

find_type :
    (updated : List OperatorCondition) (t : String) (c : OperatorCondition)
    → find_operator_condition updated t ≡ some c
    → c.type ≡ t
find_type [] t c h = ground arith
find_type (d ∷ updated) t c h = ground (arith, eq_iff d.type t, find_type updated t c)

pub new_condition_type :
    (updated : List OperatorCondition) (t : String) → (new_condition updated t).type ≡ t
unfolding new_condition
new_condition_type updated t = elim (Option-cases (find_operator_condition updated t)) [
  | inl n ↦ ground (arith, n)
  | inr (c, p) ↦ ground (arith, p, find_type updated t c p)
]

-- The condition of a type in the status that is applied.
abbrev pub find_applied : String → List AppliedCondition → Option AppliedCondition
find_applied t [] = none
find_applied t (c ∷ cs) = if c.type == t then some c else find_applied t cs

find-map :
    (updated : List OperatorCondition) (names : List String) (t : String)
    → find_applied t (map (new_condition updated) names)
      ≡ (if has (λ n. n == t) names then some (new_condition updated t) else none)
find-map updated [] t = refl
find-map updated (n ∷ names) t =
    ground (arith, new_condition_type updated n, eq_iff n t, find-map updated names t)

-- What the status should say of a type: the first update, or the default.
abbrev pub expected_condition : List OperatorCondition → String → AppliedCondition
expected_condition updated t = elim (find_operator_condition updated t) [
  | some c ↦ record { type = t; status = c.status; reason = c.reason; message = c.message }
  | none ↦ record { type = t; status = default_status t; reason = ""; message = "" }
]

new_condition_lem :
    (updated : List OperatorCondition) (t : String)
    → new_condition updated t ≡ expected_condition updated t
unfolding new_condition
new_condition_lem updated t = elim (Option-cases (find_operator_condition updated t)) [
  | inl n ↦ ground (arith, n)
  | inr (c, p) ↦ ground (arith, p, find_type updated t c p)
]

-- Of the conditions that the controller owns, each one is in the status that is applied, and no
-- other is: the one of a type is the first update of that type, and where there is no update it is
-- the condition True for a type that ends in `Available` and False for any other, with no reason or
-- message. The status is applied in one call, under the controller's field manager.
pub applied_conditions :
    (server : StatusServer) (manager t₀ : String) (names : List String)
    (updated : List OperatorCondition) (t : String)
    → (cs : List AppliedCondition) × ((apply_controller_conditions server manager
          (t₀ ∷ names)
          updated).0
        ≡ apply_operator_status manager cs ∷ [])
      × (find_applied t cs
          ≡ (if has (λ n. n == t) (t₀ ∷ names) then some (expected_condition updated t) else none))
unfolding apply_controller_conditions
applied_conditions server manager t₀ names updated t = (
  map (new_condition updated) (t₀ ∷ names),
  refl,
  find-map updated (t₀ ∷ names) t
      ∙ ap (λ c. if has (λ n. n == t) (t₀ ∷ names) then some c else none)
          (new_condition_lem updated t),
)
