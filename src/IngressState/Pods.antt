-- ===== src/IngressState/Pods.antt =====
-- Which pods are checked, and when one is found unhealthy.
use cluster_authentication_o.Base.{
  ◌≤◌, String, ◌≡◌, ◌≢◌, refl, sym, ◌∙◌, ◌↔◌, inl, inr, List, [], ◌∷◌, Option, none, some, arith,
  eq_iff, eq_refl, Bool-cases, Option-cases, All, lookup, ◌==◌, if◌then◌else◌,
}
use cluster_authentication_o.IngressState.{
  Message, Reference, Checked, record_pod, check_address, check_each, check_addresses,
}

-- The pods' getter answers by the name alone, as for references of one namespace.
abbrev pub IsByName : (Reference → List Message) → Type 0
IsByName check = (r r' : Reference) → r.name ≡ r'.name → check r ≡ check r'

-- An address whose target, if it is a pod, is healthy.
abbrev pub IsHealthyAddress : (Reference → List Message) → Option Reference → Type 0
IsHealthyAddress check none = Unit
IsHealthyAddress check (some ref) = ref.kind ≡ "Pod" → check ref ≡ []

-- Each name once.
abbrev pub IsDistinct : List (String × List Message) → Type 0
IsDistinct [] = Unit
IsDistinct ((n, ms) ∷ rest) = (lookup n rest ≡ none) × IsDistinct rest

-- The target, if it is a pod, is recorded.
abbrev pub IsRecorded : List (String × List Message) → Option Reference → Type 0
IsRecorded recorded none = Unit
IsRecorded recorded (some ref) = ref.kind ≡ "Pod" → lookup ref.name recorded ≢ none

module _ (check : Reference → List Message) where
  -- where no pod is unhealthy, the pods that are known are healthy
  abbrev IsSound : Checked → Type 0
  IsSound s =
      (r : Reference) (ms : List Message)
      → lookup r.name s.pod_messages ≡ some ms
      → s.unhealthy_pod_count ≡ 0
      → check r ≡ []

  record_grows :
      (n : String) (ms : List Message) (s : Checked)
      → s.unhealthy_pod_count ≤ (record_pod n ms s).unhealthy_pod_count
  unfolding record_pod
  record_grows n [] s = omega arith
  record_grows n (m ∷ ms) s = omega arith

  address_grows :
      (a : Option Reference) (s : Checked)
      → s.unhealthy_pod_count ≤ (check_address check a s).unhealthy_pod_count
  unfolding check_address
  address_grows none s = omega arith
  address_grows (some ref) s = ground (arith, record_grows ref.name (check ref) s)

  each_grows :
      (xs : List (Option Reference)) (s : Checked)
      → s.unhealthy_pod_count ≤ (check_each check xs s).unhealthy_pod_count
  unfolding check_each
  each_grows [] s = omega arith
  each_grows (a ∷ xs) s = omega (arith, address_grows a s, each_grows xs (check_address check a s))

  -- a recorded pod with no unhealthy pod has no message
  recorded_quiet :
      (n : String) (ms : List Message) (s : Checked)
      → (record_pod n ms s).unhealthy_pod_count ≡ 0
      → ms ≡ []
  unfolding record_pod
  recorded_quiet n [] s h = refl
  recorded_quiet n (m ∷ ms) s h = absurd (omega (arith, h))

  quiet_recorded :
      (n : String) (ms : List Message) (s : Checked)
      → ms ≡ []
      → (record_pod n ms s).unhealthy_pod_count ≡ s.unhealthy_pod_count
  unfolding record_pod
  quiet_recorded n [] s h = refl
  quiet_recorded n (m ∷ ms) s h = absurd (ground (arith, h))

  recorded_lookup :
      (n k : String) (ms : List Message) (s : Checked)
      → lookup k (record_pod n ms s).pod_messages
        ≡ (if n == k then some ms else lookup k s.pod_messages)
  unfolding record_pod
  recorded_lookup n k [] s = refl
  recorded_lookup n k (m ∷ ms) s = refl

  address-IsSound :
      IsByName check
      → (a : Option Reference) (s : Checked) → IsSound s
      → IsSound (check_address check a s)
  unfolding check_address
  address-IsSound by_name none s sound = sound
  address-IsSound by_name (some ref) s sound = elim (Bool-cases (ref.kind == "Pod")) [
    | inr other ↦ rw other sound
    | inl pod ↦ elim (Option-cases (lookup ref.name s.pod_messages)) [
      | inr (ms, known) ↦ rw (pod, known) sound
      | inl new ↦
          rw (pod, new)
            (λ r ms found quiet.
              let this_quiet = recorded_quiet ref.name (check ref) s quiet in
              elim (Bool-cases (ref.name == r.name)) [
                | inl same ↦ by_name r ref (sym ((eq_iff ref.name r.name).0 same)) ∙ this_quiet
                | inr differ ↦
                    sound r ms
                      (ground (arith, recorded_lookup ref.name r.name (check ref) s, differ, found))
                      (ground (arith, quiet_recorded ref.name (check ref) s this_quiet, quiet))
              ])
    ]
  ]

  -- an address that is checked where no pod is unhealthy, is healthy
  address_healthy :
      (a : Option Reference) (s : Checked)
      → IsSound s
      → (check_address check a s).unhealthy_pod_count ≡ 0
      → IsHealthyAddress check a
  unfolding check_address
  address_healthy none s sound quiet = tt
  address_healthy (some ref) s sound quiet = λ pod.
      elim (Option-cases (lookup ref.name s.pod_messages)) [
        | inr (ms, known) ↦
            sound ref ms known (ground (arith, known, quiet, (eq_iff ref.kind "Pod").1 pod))
        | inl new ↦
            recorded_quiet ref.name (check ref) s
              (ground (arith, new, quiet, (eq_iff ref.kind "Pod").1 pod))
      ]

  each_healthy :
      IsByName check
      → (xs : List (Option Reference)) (s : Checked) → IsSound s
      → (check_each check xs s).unhealthy_pod_count ≡ 0
      → All (IsHealthyAddress check) xs
  unfolding check_each
  each_healthy by_name [] s sound quiet = tt
  each_healthy by_name (a ∷ xs) s sound quiet = (
    address_healthy a s sound (omega (arith, each_grows xs (check_address check a s), quiet)),
    each_healthy by_name xs (check_address check a s) (address-IsSound by_name a s sound) quiet,
  )

  address_quiet :
      (a : Option Reference) (s : Checked)
      → IsHealthyAddress check a
      → (check_address check a s).unhealthy_pod_count ≡ s.unhealthy_pod_count
  unfolding check_address
  address_quiet none s h = refl
  address_quiet (some ref) s h = elim (Bool-cases (ref.kind == "Pod")) [
    | inr other ↦ ground (arith, other)
    | inl pod ↦
        ground
          (arith, pod, quiet_recorded ref.name (check ref) s (h ((eq_iff ref.kind "Pod").0 pod)))
  ]

  each_quiet :
      (xs : List (Option Reference)) (s : Checked)
      → All (IsHealthyAddress check) xs
      → (check_each check xs s).unhealthy_pod_count ≡ s.unhealthy_pod_count
  unfolding check_each
  each_quiet [] s h = refl
  each_quiet (a ∷ xs) s h =
      omega (arith, address_quiet a s h.0, each_quiet xs (check_address check a s) h.1)

  pub check_addresses-IsHealthy :
      IsByName check
      → (ranged : List (String × List Message) → List (String × List Message))
        (show : Message → String) (xs : List (Option Reference))
      → (check_addresses ranged show check xs ≡ []) ↔ All (IsHealthyAddress check) xs
  unfolding check_addresses
  check_addresses-IsHealthy by_name ranged show xs = (
    λ h.
        each_healthy by_name xs (record { pod_messages = []; unhealthy_pod_count = 0 })
          (λ r ms found quiet. absurd (ground (arith, found))) (ground (arith, h)),
    λ h. ground (arith, each_quiet xs (record { pod_messages = []; unhealthy_pod_count = 0 }) h),
  )

  record-IsDistinct :
      (n : String) (ms : List Message) (s : Checked)
      → lookup n s.pod_messages ≡ none
      → IsDistinct s.pod_messages
      → IsDistinct (record_pod n ms s).pod_messages
  unfolding record_pod
  record-IsDistinct n [] s new d = (new, d)
  record-IsDistinct n (m ∷ ms) s new d = (new, d)

  address-IsDistinct :
      (a : Option Reference) (s : Checked)
      → IsDistinct s.pod_messages
      → IsDistinct (check_address check a s).pod_messages
  unfolding check_address
  address-IsDistinct none s d = d
  address-IsDistinct (some ref) s d = elim (Bool-cases (ref.kind == "Pod")) [
    | inr other ↦ rw other d
    | inl pod ↦ elim (Option-cases (lookup ref.name s.pod_messages)) [
      | inr (ms, known) ↦ rw (pod, known) d
      | inl new ↦ rw (pod, new) (record-IsDistinct ref.name (check ref) s new d)
    ]
  ]

  address_keeps :
      (a : Option Reference) (s : Checked) (k : String)
      → lookup k s.pod_messages ≢ none
      → lookup k (check_address check a s).pod_messages ≢ none
  unfolding check_address
  address_keeps none s k known = known
  address_keeps (some ref) s k known =
      λ gone. known (ground (arith, gone, recorded_lookup ref.name k (check ref) s))

  each_keeps :
      (xs : List (Option Reference)) (s : Checked) (k : String)
      → lookup k s.pod_messages ≢ none
      → lookup k (check_each check xs s).pod_messages ≢ none
  unfolding check_each
  each_keeps [] s k known = known
  each_keeps (a ∷ xs) s k known =
      each_keeps xs (check_address check a s) k (address_keeps a s k known)

  address-IsRecorded :
      (a : Option Reference) (s : Checked) (xs : List (Option Reference))
      → IsRecorded (check_each check xs (check_address check a s)).pod_messages a
  unfolding check_address
  address-IsRecorded none s xs = tt
  address-IsRecorded (some ref) s xs = λ pod.
      each_keeps xs (check_address check (some ref) s) ref.name (λ gone. ground (
        arith,
        gone,
        (eq_iff ref.kind "Pod").1 pod,
        eq_refl ref.name,
        recorded_lookup ref.name ref.name (check ref) s,
      ))

  each-IsDistinct :
      (xs : List (Option Reference)) (s : Checked)
      → IsDistinct s.pod_messages
      → IsDistinct (check_each check xs s).pod_messages
        × All (IsRecorded (check_each check xs s).pod_messages) xs
  unfolding check_each
  each-IsDistinct [] s d = (d, tt)
  each-IsDistinct (a ∷ xs) s d =
      let (distinct, recorded) =
        each-IsDistinct xs (check_address check a s) (address-IsDistinct a s d) in
      (distinct, (address-IsRecorded a s xs, recorded))

  -- Whatever the addresses, each name of a pod among their targets is recorded, and no name is
  -- recorded twice.
  pub checked_once :
      (xs : List (Option Reference))
      → let recorded =
          (check_each check xs
            (record { pod_messages = []; unhealthy_pod_count = 0 })).pod_messages in
        IsDistinct recorded × All (IsRecorded recorded) xs
  checked_once xs = each-IsDistinct xs (record { pod_messages = []; unhealthy_pod_count = 0 }) tt
