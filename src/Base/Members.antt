-- ===== src/Base/Members.antt =====
-- Tests on the items of a list, and what they say of its members.
use mathlib.Core.List.{Memᴰ}
use mathlib.Core.List.Memᴰ
use mathlib.Core.Path.{◌≡◌, refl, subst}
use mathlib.Core.Logic.{◌↔◌, inl, inr}
use mathlib.Core.Bool.{Bool, true, ◌&&◌}
use mathlib.Core.List.{List, [], ◌∷◌}
use native.Mathlib.Omega.{arith}
use cluster_authentication_o.Base.Tests.{Bool-cases}
use cluster_authentication_o.Base.Lists.{All, has}

-- Every item passes the test.
abbrev pub every {ℓ} : {A : Type ℓ} → (A → Bool) → List A → Bool
every p [] = true
every p (x ∷ xs) = p x && every p xs

-- Some member satisfies `P`.
abbrev pub Includes {ℓ κ} : {A : Type ℓ} → (A → Type κ) → List A → Type (ℓ ⊔ κ)
Includes {A = A} P xs = (x : A) × Memᴰ x xs × P x

module _ {A : Type 0} (p : A → Bool) (P : A → Type 0) (tests : (x : A) → (p x ≡ true) ↔ P x) where
  some_passes : (xs : List A) → has p xs ≡ true → Includes P xs
  some_passes [] h = absurd (ground (arith, h))
  some_passes (x ∷ xs) h = elim (Bool-cases (p x)) [
    | inl t ↦ (x, Memᴰ.head refl, (tests x).0 t)
    | inr f ↦ let (y, m, q) = some_passes xs (ground (arith, h, f)) in (y, Memᴰ.tail m, q)
  ]

  passes_some : (xs : List A) (x : A) → Memᴰ x xs → P x → has p xs ≡ true
  passes_some [] x m q = elim m [ ]
  passes_some (y ∷ xs) x m q = elim (Memᴰ.cases_cons m) [
    | inl e ↦ ground (arith, (tests y).1 (subst P e q))
    | inr n ↦ ground (arith, passes_some xs x n q)
  ]

  pub has-Includes : (xs : List A) → (has p xs ≡ true) ↔ Includes P xs
  has-Includes xs = (some_passes xs, λ (x, m, q). passes_some xs x m q)

  every_passes : (xs : List A) → every p xs ≡ true → All P xs
  every_passes [] h = tt
  every_passes (x ∷ xs) h = ((tests x).0 (ground (arith, h)), every_passes xs (ground (arith, h)))

  passes_every : (xs : List A) → All P xs → every p xs ≡ true
  passes_every [] a = refl
  passes_every (x ∷ xs) a = ground (arith, (tests x).1 a.0, passes_every xs a.1)

  pub every-All : (xs : List A) → (every p xs ≡ true) ↔ All P xs
  every-All xs = (every_passes xs, passes_every xs)
