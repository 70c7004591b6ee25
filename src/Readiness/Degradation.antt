-- ===== src/Readiness/Degradation.antt =====
-- pkg/controllers/readiness/error.go: an error that a controller tolerates for some time. Instants
-- are in nanoseconds, and 0 is the zero time; `text` is the text of an error.
use cluster_authentication_o.Base.{
  ℕ, ◌+◌, String, Bool, false, not, ◌||◌, List, Option, none, some, Error, eqb, ltb, ◌==◌, ◌<>◌,
  if◌then◌else◌,
}
use cluster_authentication_o.Base.Int.{ℤ, pos, negsuc, is_positive}
use cluster_authentication_o.Common.Conditions.{
  status_true, OperatorCondition, AppliedCondition, find_operator_condition,
}

-- ControllerDegradationObservedError; its Unwrap is the field
pub record Degradation : Type 0 where
  pub reason : String
  pub unwrap : Error
  pub max_age : ℤ

unfoldable pub condition_name : String → String
condition_name controller_name = controller_name <> "DegradationObserved"

unfoldable pub to_condition : (Error → String) → Degradation → String → AppliedCondition
to_condition text d controller_name = record {
  type = condition_name controller_name;
  status = status_true;
  reason = d.reason;
  message = text d.unwrap;
}

-- lastTransition.Add(maxAge).Before(now); the zero time is not a transition
unfoldable pub is_older : ℕ → ℤ → ℕ → Bool
is_older now (pos age) last_transition =
    if eqb last_transition 0 then false else ltb (last_transition + age) now
is_older now (negsuc age) last_transition = false

unfoldable pub is_degraded_by : (Error → String) → ℕ → Degradation → Option OperatorCondition → Bool
is_degraded_by text now d none = false
is_degraded_by text now d (some c) =
    if not (c.reason == d.reason) || not (c.message == text d.unwrap)
    then false
    else is_older now d.max_age c.last_transition_time

-- none where the last status is nil
unfoldable pub is_degraded :
    (Error → String) → ℕ → Degradation → String → Option (List OperatorCondition) → Bool
is_degraded text now d controller_name none = false
is_degraded text now d controller_name (some conditions) =
    if is_positive d.max_age
    then is_degraded_by text now d
        (find_operator_condition conditions (condition_name controller_name))
    else false
