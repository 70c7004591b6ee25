-- ===== src/Base/Loops.antt =====
-- The loop that collects results and errors:
--   for _, item := range items { out, err := f(item); if err != nil { errs = append(errs, err);
--   continue }; outs = append(outs, out) }; if len(errs) > 0 { return nil, errors.Join(errs...) }
use mathlib.Core.Path.{◌≡◌, refl, sym, ap, ◌∙◌, subst}
use mathlib.Core.Logic.{inl, inr}
use mathlib.Core.Option.{none, some}
use mathlib.Core.List.{List, [], ◌∷◌, Memᴰ}
use native.Mathlib.Omega.{arith}
use cluster_authentication_o.Base.Errors.{Error, Result, ok, err, join_errors, Result-cases}

-- The items and the outputs go together, one to one and in order.
pub data Collected {ℓ κ} {A : Type ℓ} {B : Type κ} (f : A → Result B)
    : List A → List B → Type (ℓ ⊔ κ) where
  done : Collected f [] []
  next :
      {x : A} {y : B} {xs : List A} {ys : List B}
      → f x ≡ ok y
      → Collected f xs ys
      → Collected f (x ∷ xs) (y ∷ ys)

pub join-some : (e : Error) (es : List Error) → (j : Error) × (join_errors (e ∷ es) ≡ some j)
join-some e [] = (e, refl)
join-some e (x ∷ es) = let (j, p) = join-some x es in (Error.joined e j, ground (arith, p))

module _ {ℓ κ} {A : Type ℓ} {B : Type κ} (f : A → Result B) where
  -- What the loop holds after `items`: the outputs and the errors, each in the order of the items.
  outputs : List A → List B
  outputs [] = []
  outputs (x ∷ xs) = let rest = outputs xs in elim (f x) [ ok b ↦ b ∷ rest | err e ↦ rest ]

  errors : List A → List Error
  errors [] = []
  errors (x ∷ xs) = let rest = errors xs in elim (f x) [ ok b ↦ rest | err e ↦ e ∷ rest ]

  unfoldable pub collect : List A → Result (List B)
  unfolding outputs errors
  collect items = elim (join_errors (errors items)) [ none ↦ ok (outputs items) | some e ↦ err e ]

  -- A head that fails makes the loop fail.
  collect-cons_err :
      (x : A) (xs : List A) {e : Error} → f x ≡ err e → (j : Error) × (collect (x ∷ xs) ≡ err j)
  unfolding collect
  collect-cons_err x xs {e} p = let (j, q) = join-some e (errors xs) in (j, ground (arith, p, q))

  collect-cons_ok :
      (x : A) (xs : List A) {y : B}
      → f x ≡ ok y
      → collect (x ∷ xs) ≡ elim (collect xs) [ ok ys ↦ ok (y ∷ ys) | err e ↦ err e ]
  unfolding collect
  collect-cons_ok x xs p = ground (arith, p)

  cons_inversion :
      (x : A) (xs : List A) {ys : List B}
      → collect (x ∷ xs) ≡ ok ys
      → (y : B) × (zs : List B) × (f x ≡ ok y) × (collect xs ≡ ok zs) × (ys ≡ y ∷ zs)
  cons_inversion x xs {ys} h = elim (Result-cases (f x)) [
    | inl (y, p) ↦ elim (Result-cases (collect xs)) [
      | inl (zs, q) ↦ (y, zs, p, q, ground (arith, collect-cons_ok x xs p, h))
      | inr (e, q) ↦ absurd (ground (arith, collect-cons_ok x xs p, h))
    ]
    | inr (e, p) ↦ let (j, q) = collect-cons_err x xs p in absurd (ground (arith, h, q))
  ]

  pub collect_sound : (xs : List A) {ys : List B} → collect xs ≡ ok ys → Collected f xs ys
  collect_sound [] {ys} h =
      subst (Collected f []) {x = []} (unfold collect in ground (arith, h)) done
  collect_sound (x ∷ xs) {ys} h =
      let (y, zs, p, q, e) = cons_inversion x xs h in
      subst (Collected f (x ∷ xs)) (sym e) (next p (collect_sound xs q))

  pub collect_complete : {xs : List A} {ys : List B} → Collected f xs ys → collect xs ≡ ok ys
  collect_complete done = unfold collect in refl
  collect_complete (next {x} {y} {xs} {ys} p c) =
      ground (arith, collect-cons_ok x xs p, collect_complete c)

  -- One item that fails is enough for the loop to fail.
  pub collect_fails :
      {x : A} {xs : List A} {e : Error}
      → Memᴰ x xs
      → f x ≡ err e
      → (j : Error) × (collect xs ≡ err j)
  collect_fails {x} {e = e} (Memᴰ.head {x = y} {xs} same) p =
      collect-cons_err y xs {e = e} (ap f (sym same) ∙ p)
  collect_fails (Memᴰ.tail {x = y} {xs} m) p =
      let (j, q) = collect_fails m p in
      elim (Result-cases (f y)) [
        | inl (b, r) ↦ (j, ground (arith, collect-cons_ok y xs r, q))
        | inr (d, r) ↦ collect-cons_err y xs r
      ]
