-- ===== src/Common/Oidc/Revisions.antt =====
-- The set of observed revisions: the revisions of the nodes, each positive.
use mathlib.Core.List.{Memᴰ}
use mathlib.Core.List.Memᴰ
use mathlib.Core.Path.{subst}
use cluster_authentication_o.Base.{
  ◌≡◌, refl, sym, ap, ◌↔◌, ◌⊎◌, inl, inr, true, arith, List, [], ◌∷◌, ok, Bool-cases, ◌∙◌,
}
use cluster_authentication_o.Base.Int.{ℤ, is_positive, int_eq, int_eq_iff}
use cluster_authentication_o.Common.Oidc.{has_revision, insert_revision, observe}

-- The order in which the set gives its items: the same items.
abbrev pub IsListing : (List ℤ → List ℤ) → Type 0
IsListing order = (xs : List ℤ) (r : ℤ) → Memᴰ r (order xs) ↔ Memᴰ r xs

has_revision_mem : (r : ℤ) (set : List ℤ) → has_revision r set ≡ true → Memᴰ r set
unfolding has_revision
has_revision_mem r [] h = ground arith
has_revision_mem r (x ∷ set) h = elim (Bool-cases (int_eq x r)) [
  | inl e ↦ Memᴰ.head (sym ((int_eq_iff x r).0 e))
  | inr n ↦ Memᴰ.tail (has_revision_mem r set (ground (arith, n, h)))
]

-- The set after an insertion.
insert_mem : (r x : ℤ) (set : List ℤ) → Memᴰ x (insert_revision r set) → (x ≡ r) ⊎ Memᴰ x set
insert_mem r x set m = elim (Bool-cases (has_revision r set)) [
  | inl old ↦
      inr (
        subst (Memᴰ x) {x = insert_revision r set} (unfold insert_revision in ground (arith, old))
          m)
  | inr new ↦
      Memᴰ.cases_cons (
        subst (Memᴰ x) {x = insert_revision r set} (unfold insert_revision in ground (arith, new))
          m)
]

mem_insert_self : (r : ℤ) (set : List ℤ) → Memᴰ r (insert_revision r set)
mem_insert_self r set = elim (Bool-cases (has_revision r set)) [
  | inl old ↦
      subst (Memᴰ r) {x = set} (unfold insert_revision in ground (arith, old))
        (has_revision_mem r set old)
  | inr new ↦
      subst (Memᴰ r) {x = r ∷ set} (unfold insert_revision in ground (arith, new)) (Memᴰ.head refl)
]

mem_insert : (r x : ℤ) (set : List ℤ) → Memᴰ x set → Memᴰ x (insert_revision r set)
mem_insert r x set m = elim (Bool-cases (has_revision r set)) [
  | inl old ↦ subst (Memᴰ x) {x = set} (unfold insert_revision in ground (arith, old)) m
  | inr new ↦
      subst (Memᴰ x) {x = r ∷ set} (unfold insert_revision in ground (arith, new)) (Memᴰ.tail m)
]

observe_step :
    (r : ℤ) (revisions observed out : List ℤ)
    → observe (r ∷ revisions) observed ≡ ok out
    → (is_positive r ≡ true) × (observe revisions (insert_revision r observed) ≡ ok out)
unfolding observe
observe_step r revisions observed out h = ground arith

pub observe_positive :
    (revisions observed out : List ℤ) (r : ℤ)
    → observe revisions observed ≡ ok out
    → Memᴰ r revisions
    → is_positive r ≡ true
observe_positive [] observed out r h m = elim m [ ]
observe_positive (x ∷ revisions) observed out r h (Memᴰ.head e) =
    ap is_positive e ∙ (observe_step x revisions observed out h).0
observe_positive (x ∷ revisions) observed out r h (Memᴰ.tail m) =
    observe_positive revisions (insert_revision x observed) out r
      (observe_step x revisions observed out h).1 m

observe_keeps :
    (revisions observed out : List ℤ) (r : ℤ)
    → observe revisions observed ≡ ok out
    → Memᴰ r observed
    → Memᴰ r out
observe_keeps [] observed out r h m =
    subst (Memᴰ r) {x = observed} (unfold observe in ground (arith, h)) m
observe_keeps (x ∷ revisions) observed out r h m =
    observe_keeps revisions (insert_revision x observed) out r
      (observe_step x revisions observed out h).1 (mem_insert x r observed m)

pub observe_adds :
    (revisions observed out : List ℤ) (r : ℤ)
    → observe revisions observed ≡ ok out
    → Memᴰ r revisions
    → Memᴰ r out
observe_adds [] observed out r h m = elim m [ ]
observe_adds (x ∷ revisions) observed out r h (Memᴰ.head e) =
    observe_keeps revisions (insert_revision x observed) out r
      (observe_step x revisions observed out h).1
      (subst (λ y. Memᴰ y (insert_revision x observed)) (sym e) (mem_insert_self x observed))
observe_adds (x ∷ revisions) observed out r h (Memᴰ.tail m) =
    observe_adds revisions (insert_revision x observed) out r
      (observe_step x revisions observed out h).1 m

pub observe_only :
    (revisions observed out : List ℤ) (r : ℤ)
    → observe revisions observed ≡ ok out
    → Memᴰ r out
    → Memᴰ r revisions ⊎ Memᴰ r observed
observe_only [] observed out r h m =
    inr (subst (Memᴰ r) {x = out} (unfold observe in ground (arith, h)) m)
observe_only (x ∷ revisions) observed out r h m =
    elim (observe_only revisions (insert_revision x observed) out r
      (observe_step x revisions observed out h).1 m) [
        | inl i ↦ inl (Memᴰ.tail i)
        | inr i ↦ elim (insert_mem x r observed i) [ inl e ↦ inl (Memᴰ.head e) | inr j ↦ inr j ]
      ]

pub observe_total :
    (revisions observed : List ℤ)
    → ((r : ℤ) → Memᴰ r revisions → is_positive r ≡ true)
    → (out : List ℤ) × (observe revisions observed ≡ ok out)
unfolding observe
observe_total [] observed all = (observed, refl)
observe_total (x ∷ revisions) observed all =
    let (out, p) =
      observe_total revisions (insert_revision x observed) (λ r m. all r (Memᴰ.tail m)) in
    (out, ground (arith, p, all x (Memᴰ.head refl)))
