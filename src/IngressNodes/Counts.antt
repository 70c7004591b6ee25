-- ===== src/IngressNodes/Counts.antt =====
-- When the condition on the ingress nodes is available.
use mathlib.Core.List.{Memᴰ}
use mathlib.Core.List.Memᴰ
use mathlib.Core.Path.{subst}
use cluster_authentication_o.Base.{
  ◌+◌, ◌<◌, String, ◌≡◌, sym, ap, ltb, has_suffix, refl, ◌⊎◌, ◌↔◌, inl, inr, true, false, ◌&&◌,
  List, [], ◌∷◌, Option, none, some, ok, arith, eq_iff, Bool-cases, ◌==◌, Result, err, is_not_found,
  length,
}
use cluster_authentication_o.Common.Conditions.{
  status_true, AppliedCondition, apply_operator_status, new_condition, new_condition_type,
  applied_of, default_status, apply_controller_conditions,
}
use cluster_authentication_o.IngressNodes.{
  Node, Placement, View, targets_of, is_ready, count_ready, count_ready_worker_nodes,
  is_schedulable, count_schedulable, number_of_custom_ingress_targets, found_conditions, sync_nodes,
  sync,
}

-- The condition of a ready node, and the taint of a master.
abbrev ready : String × String
ready = ("Ready", "True")

abbrev no_schedule : String × String
no_schedule = ("NoSchedule", "node-role.kubernetes.io/master")

-- A node that is ready, and a node without the taint of the masters.
abbrev pub IsReady : Node → Type 0
IsReady n = Memᴰ ready n.conditions

abbrev pub IsSchedulable : Node → Type 0
IsSchedulable n = Memᴰ no_schedule n.taints → ⊥

is_ready_iff : (t s : String) → (is_ready (t, s) ≡ true) ↔ ((t ≡ "Ready") × (s ≡ "True"))
unfolding is_ready
is_ready_iff t s =
    (λ h. ground (arith, eq_iff t "Ready", eq_iff s "True", h), λ (p, q). rw (p, q) refl)

ready_sound : (cs : List (String × String)) → 0 < count_ready cs → Memᴰ ready cs
unfolding count_ready
ready_sound [] h = absurd (ground arith)
ready_sound ((t, s) ∷ cs) h = elim (Bool-cases (is_ready (t, s))) [
  | inl r ↦ Memᴰ.head (let (p, q) = (is_ready_iff t s).0 r in rw (p, q) refl)
  | inr n ↦ Memᴰ.tail (ready_sound cs (ground (arith, n, h)))
]

ready_complete : (cs : List (String × String)) → Memᴰ ready cs → 0 < count_ready cs
unfolding count_ready
ready_complete [] m = elim m [ ]
ready_complete ((t, s) ∷ cs) m = elim (Memᴰ.cases_cons m) [
  | inl e ↦ ground (arith, (is_ready_iff t s).1 (sym (ap (λ x. x.0) e), sym (ap (λ x. x.1) e)))
  | inr m' ↦ ground (arith, ready_complete cs m')
]

workers_sound :
    (ns : List Node) → 0 < count_ready_worker_nodes ns → (w : Node) × Memᴰ w ns × IsReady w
unfolding count_ready_worker_nodes
workers_sound [] h = absurd (ground arith)
workers_sound (n ∷ ns) h = elim (Bool-cases (ltb 0 (count_ready n.conditions))) [
  | inl r ↦ (n, Memᴰ.head refl, ready_sound n.conditions (ground (arith, r)))
  | inr z ↦ let (w, m, r) = workers_sound ns (ground (arith, z, h)) in (w, Memᴰ.tail m, r)
]

workers_complete :
    (ns : List Node) (w : Node) → Memᴰ w ns → IsReady w → 0 < count_ready_worker_nodes ns
unfolding count_ready_worker_nodes
workers_complete [] w m r = elim m [ ]
workers_complete (n ∷ ns) w m r = elim (Memᴰ.cases_cons m) [
  | inl e ↦ ground (arith, ready_complete n.conditions (subst IsReady e r))
  | inr m' ↦ ground (arith, workers_complete ns w m' r)
]

schedulable_sound :
    (ts : List (String × String)) → is_schedulable ts ≡ true → Memᴰ no_schedule ts → ⊥
unfolding is_schedulable
schedulable_sound [] h m = elim m [ ]
schedulable_sound ((e, k) ∷ ts) h m = elim (Memᴰ.cases_cons m) [
  | inl p ↦ ground (
    arith,
    h,
    ap (λ x. x.0) p,
    ap (λ x. x.1) p,
    eq_iff e "NoSchedule",
    eq_iff k "node-role.kubernetes.io/master",
  )
  | inr m' ↦ schedulable_sound ts (ground (arith, h)) m'
]

schedulable_complete :
    (ts : List (String × String)) → is_schedulable ts ≡ false → Memᴰ no_schedule ts
unfolding is_schedulable
schedulable_complete [] h = absurd (ground arith)
schedulable_complete ((e, k) ∷ ts) h =
    elim (Bool-cases (e == "NoSchedule" && k == "node-role.kubernetes.io/master")) [
      | inl t ↦
          Memᴰ.head
            (ground (arith, eq_iff e "NoSchedule", eq_iff k "node-role.kubernetes.io/master", t))
      | inr f ↦ Memᴰ.tail (schedulable_complete ts (ground (arith, f, h)))
    ]

masters_sound :
    (ns : List Node) → 0 < count_schedulable ns → (n : Node) × Memᴰ n ns × IsSchedulable n
unfolding count_schedulable
masters_sound [] h = absurd (ground arith)
masters_sound (n ∷ ns) h = elim (Bool-cases (is_schedulable n.taints)) [
  | inl t ↦ (n, Memᴰ.head refl, schedulable_sound n.taints t)
  | inr f ↦ let (m, i, s) = masters_sound ns (ground (arith, f, h)) in (m, Memᴰ.tail i, s)
]

masters_complete :
    (ns : List Node) (m : Node) → Memᴰ m ns → IsSchedulable m → 0 < count_schedulable ns
unfolding count_schedulable
masters_complete [] m i s = elim i [ ]
masters_complete (n ∷ ns) m i s = elim (Memᴰ.cases_cons i) [
  | inl e ↦ elim (Bool-cases (is_schedulable n.taints)) [
    | inl t ↦ ground (arith, t)
    | inr f ↦ absurd (subst IsSchedulable e s (schedulable_complete n.taints f))
  ]
  | inr i' ↦ ground (arith, masters_complete ns m i' s)
]

abbrev pub SelectsBy : View → Option String → List Node → Type 0
SelectsBy view none ns = ns ≡ []
SelectsBy view (some selector) ns = view.nodes selector ≡ ok ns

-- The nodes that the placement of the ingress controller selects: none without the controller, its
-- placement or a selector that parses.
abbrev pub Selects : View → Result (Option Placement) → List Node → Type 0
Selects view (err e) ns = (is_not_found e ≡ true) × (ns ≡ [])
Selects view (ok none) ns = ns ≡ []
Selects view (ok (some p)) ns = SelectsBy view p.labels ns

-- Some node can run the ingress.
abbrev pub IsServedByNodes : List Node → List Node → List Node → Type 0
IsServedByNodes workers masters targets =
    ((w : Node) × Memᴰ w workers × IsReady w)
    ⊎ (((m : Node) × Memᴰ m masters × IsSchedulable m) ⊎ ((n : Node) × Memᴰ n targets))

abbrev pub available : AppliedCondition
available = record {
  type = "ReadyIngressNodesAvailable";
  status = status_true;
  reason = "";
  message = "";
}

targets_positive : (ns : List Node) (n : Node) → Memᴰ n ns → 0 < length ns
targets_positive [] n m = elim m [ ]
targets_positive (x ∷ ns) n m = omega arith

positive_targets : (ns : List Node) → 0 < length ns → (n : Node) × Memᴰ n ns
positive_targets [] h = absurd (ground arith)
positive_targets (x ∷ ns) h = (x, Memᴰ.head refl)

labels_lem :
    (view : View) (labels : Option String) (ns : List Node)
    → SelectsBy view labels ns
    → targets_of view (some (record { labels = labels })) ≡ ok (length ns)
unfolding targets_of
labels_lem view none ns h = ground (arith, h)
labels_lem view (some selector) ns h = ground (arith, h)

selects_lem :
    (view : View) (c : Result (Option Placement)) (ns : List Node)
    → view.ingress_controller ≡ c
    → Selects view c ns
    → number_of_custom_ingress_targets view ≡ ok (length ns)
unfolding number_of_custom_ingress_targets targets_of
selects_lem view (err e) ns p h = ground (arith, p, h.0, h.1)
selects_lem view (ok none) ns p h = ground (arith, p, h)
selects_lem view (ok (some q)) ns p h = ground (arith, p, labels_lem view q.labels ns h)

served_positive :
    (workers masters targets : List Node)
    → IsServedByNodes workers masters targets
    → 0 < count_ready_worker_nodes workers + count_schedulable masters + length targets
served_positive workers masters targets (inl (w, i, r)) =
    omega (arith, workers_complete workers w i r)
served_positive workers masters targets (inr (inl (m, i, s))) =
    omega (arith, masters_complete masters m i s)
served_positive workers masters targets (inr (inr (n, i))) =
    omega (arith, targets_positive targets n i)

positive_served :
    (workers masters targets : List Node)
    → 0 < count_ready_worker_nodes workers + count_schedulable masters + length targets
    → IsServedByNodes workers masters targets
positive_served workers masters targets h =
    elim (Bool-cases (ltb 0 (count_ready_worker_nodes workers))) [
      | inl w ↦ inl (workers_sound workers (ground (arith, w)))
      | inr no_worker ↦ elim (Bool-cases (ltb 0 (count_schedulable masters))) [
        | inl m ↦ inr (inl (masters_sound masters (ground (arith, m))))
        | inr no_master ↦
            inr (inr (positive_targets targets (ground (arith, no_worker, no_master, h))))
      ]
    ]

module _ (view : View) (workers masters targets : List Node) where
  condition-IsServed :
      (new_condition
          (found_conditions view workers masters (length targets))
          "ReadyIngressNodesAvailable"
        ≡ available)
      ↔ IsServedByNodes workers masters targets
  unfolding found_conditions default_status has_suffix new_condition applied_of
  condition-IsServed = (
    λ e. positive_served workers masters targets (ground (arith, ap (λ c. c.status) e)),
    λ s. ground (arith, served_positive workers masters targets s),
  )

  runs :
      view.oidc_available ≡ ok false
      → view.nodes "node-role.kubernetes.io/worker=" ≡ ok workers
      → view.nodes "node-role.kubernetes.io/master=" ≡ ok masters
      → number_of_custom_ingress_targets view ≡ ok (length targets)
      → sync view
        ≡ apply_controller_conditions view.server view.controller_instance_name
            ("ReadyIngressNodesAvailable" ∷ [])
            (found_conditions view workers masters (length targets))
  unfolding sync sync_nodes
  runs o w m t = ground (arith, o, w, m, t)

  -- Where external OIDC is not available and the workers, the masters and the nodes that the placement
  -- of the ingress controller selects can be listed (there are none of the last without a controller, a
  -- placement or a selector that parses), a sync applies one status, of one condition, and returns the
  -- answer to it. It is the condition of available nodes exactly where a listed worker is ready, a
  -- listed master lacks the taint of the masters, or the placement selects a node.
  pub nodes_available_iff :
      view.oidc_available ≡ ok false
      → view.nodes "node-role.kubernetes.io/worker=" ≡ ok workers
      → view.nodes "node-role.kubernetes.io/master=" ≡ ok masters
      → Selects view view.ingress_controller targets
      → (c : AppliedCondition) × (let apply =
            apply_operator_status view.controller_instance_name (c ∷ []) in
          sync view ≡ (apply ∷ [], view.server apply))
        × (c.type ≡ "ReadyIngressNodesAvailable")
        × ((c ≡ available) ↔ IsServedByNodes workers masters targets)
  unfolding apply_controller_conditions
  nodes_available_iff o w m t =
      let found = found_conditions view workers masters (length targets) in
      (
        new_condition found "ReadyIngressNodesAvailable",
        runs o w m (selects_lem view view.ingress_controller targets refl t),
        new_condition_type found "ReadyIngressNodesAvailable",
        condition-IsServed,
      )
