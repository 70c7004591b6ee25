-- ===== src/IngressNodes.antt =====
-- pkg/controllers/ingressnodesavailable/ingress_nodes_available_controller.go: whether some node can
-- run the pods of the ingress. The message of the condition is a parameter of the numbers in it.
pub mod Counts
mod Examples
use cluster_authentication_o.Base.{
  ℕ, ◌+◌, String, Bool, true, false, ◌&&◌, List, [], ◌∷◌, Option, none, some, Error, Result, ok,
  err, is_not_found, eqb, has, length, ◌==◌, if◌then◌else◌,
}
use cluster_authentication_o.Base.Calls.{Run, lift, ◌>>=◌}
use cluster_authentication_o.Common.Conditions.{
  ConditionStatus, status_false, OperatorCondition, StatusCall, StatusServer, apply_status,
  apply_controller_conditions,
}

-- The type and the status of the conditions, and the effect and the key of the taints.
pub record Node : Type 0 where
  pub conditions : List (String × String)
  pub taints : List (String × String)

-- The ingress controller's node selector: none without a placement, and none as labels if it does
-- not parse. `labels` is metav1.LabelSelectorAsMap and labels.SelectorFromSet.
pub record Placement : Type 0 where
  pub labels : Option String

pub record View : Type 0 where
  pub controller_instance_name : String
  pub oidc_available : Result Bool
  -- nodeLister.List by a selector
  pub nodes : String → Result (List Node)
  -- the ingress controller default, and its placement
  pub ingress_controller : Result (Option Placement)
  pub message : ℕ → ℕ → ℕ → String
  pub server : StatusServer

unfoldable pub is_ready : String × String → Bool
is_ready (type, status) = type == "Ready" && status == "True"

-- the inner loop counts a node once for each of its conditions that is ready
unfoldable pub count_ready : List (String × String) → ℕ
unfolding is_ready
count_ready [] = 0
count_ready (c ∷ cs) = if is_ready c then 1 + count_ready cs else count_ready cs

unfoldable pub count_ready_worker_nodes : List Node → ℕ
unfolding count_ready
count_ready_worker_nodes [] = 0
count_ready_worker_nodes (n ∷ ns) = count_ready n.conditions + count_ready_worker_nodes ns

unfoldable pub is_schedulable : List (String × String) → Bool
is_schedulable [] = true
is_schedulable ((effect, key) ∷ taints) =
    let rest = is_schedulable taints in
    if effect == "NoSchedule" && key == "node-role.kubernetes.io/master" then false else rest

unfoldable pub count_schedulable : List Node → ℕ
count_schedulable [] = 0
count_schedulable (n ∷ ns) =
    let rest = count_schedulable ns in if is_schedulable n.taints then 1 + rest else rest

unfoldable pub targets_of : View → Option Placement → Result ℕ
targets_of view none = ok 0
targets_of view (some p) = elim p.labels [
  | none ↦ ok 0
  | some selector ↦ elim (view.nodes selector) [ ok ns ↦ ok (length ns) | err e ↦ err e ]
]

unfoldable pub number_of_custom_ingress_targets : View → Result ℕ
unfolding targets_of
number_of_custom_ingress_targets view = elim view.ingress_controller [
  | err e ↦ if is_not_found e then ok 0 else err e
  | ok placement ↦ targets_of view placement
]

unfoldable pub found_conditions : View → List Node → List Node → ℕ → List OperatorCondition
found_conditions view workers masters targets =
    if eqb (count_ready_worker_nodes workers + count_schedulable masters + targets) 0
    then record {
      type = "ReadyIngressNodesAvailable";
      status = status_false;
      reason = "NoReadyIngressNodes";
      message = view.message (length workers) (length masters) targets;
      last_transition_time = 0;
    }
      ∷ []
    else []

unfoldable pub sync_nodes : View → Run StatusCall (Unit {0})
sync_nodes view = do
  workers ← lift (view.nodes "node-role.kubernetes.io/worker=")
  masters ← lift (view.nodes "node-role.kubernetes.io/master=")
  targets ← lift (number_of_custom_ingress_targets view)
  apply_controller_conditions view.server view.controller_instance_name
      ("ReadyIngressNodesAvailable" ∷ []) (found_conditions view workers masters targets)

-- external OIDC applies the empty status
unfoldable pub sync : View → Run StatusCall (Unit {0})
sync view = do
  oidc ← lift view.oidc_available
  if oidc then apply_status view.server view.controller_instance_name [] else sync_nodes view
