-- ===== src/IngressNodes/Examples.antt =====
-- A cluster whose one worker is not ready and whose master takes workloads.
use cluster_authentication_o.Base.{◌≡◌, refl, ◌↔◌, false, ◌==◌, [], ◌∷◌, some, ok, if◌then◌else◌}
use cluster_authentication_o.Common.Conditions.{AppliedCondition, apply_operator_status}
use cluster_authentication_o.IngressNodes.{
  Node, View, number_of_custom_ingress_targets, targets_of, sync,
}
use cluster_authentication_o.IngressNodes.Counts.{IsServedByNodes, available, nodes_available_iff}

abbrev worker : Node
worker = record { conditions = ("Ready", "False") ∷ []; taints = [] }

abbrev master : Node
master = record { conditions = ("Ready", "True") ∷ []; taints = ("NoExecute", "maintenance") ∷ [] }

abbrev view : View
view = record {
  controller_instance_name = "openshift-authentication-IngressNodesAvailable";
  oidc_available = ok false;
  nodes = λ selector.
      if selector == "node-role.kubernetes.io/worker="
      then ok (worker ∷ [])
      else if selector == "ingress=yes"
      then ok (worker ∷ worker ∷ [])
      else ok (master ∷ []);
  ingress_controller = ok (some (record { labels = some "ingress=yes" }));
  message = λ w m t. "no nodes";
  server = λ c. ok tt;
}

nodes_available_iff_example :
    (c : AppliedCondition) × (let apply =
        apply_operator_status "openshift-authentication-IngressNodesAvailable" (c ∷ []) in
      sync view ≡ (apply ∷ [], view.server apply))
    × (c.type ≡ "ReadyIngressNodesAvailable")
    × ((c ≡ available) ↔ IsServedByNodes (worker ∷ []) (master ∷ []) (worker ∷ worker ∷ []))
nodes_available_iff_example =
    nodes_available_iff view (worker ∷ []) (master ∷ []) (worker ∷ worker ∷ []) refl refl refl refl

two_targets : number_of_custom_ingress_targets view ≡ ok 2
unfolding number_of_custom_ingress_targets targets_of
two_targets = refl
