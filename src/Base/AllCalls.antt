-- ===== src/Base/AllCalls.antt =====
-- What holds of each call of a run.
use mathlib.Core.Path.{◌≡◌, refl}
use mathlib.Core.List.{List, [], ◌∷◌, ◌++◌}
use cluster_authentication_o.Base.Errors.{ok, err}
use cluster_authentication_o.Base.Lists.{All}
use cluster_authentication_o.Base.Calls.{Run, ◌>>=◌}

pub All-append {ℓ κ} :
    {C : Type ℓ} (P : C → Type κ) (xs ys : List C) → All P xs → All P ys → All P (xs ++ ys)
All-append P [] ys p q = q
All-append P (x ∷ xs) ys p q = (p.0, All-append P xs ys p.1 q)

-- The calls of one step after another.
pub All-bind {ℓ κ μ ν} :
    {C : Type ℓ} (P : C → Type κ) {A : Type μ} {B : Type ν} (m : Run C A) (f : A → Run C B)
    → All P m.0
    → ((a : A) → m.1 ≡ ok a → All P (f a).0)
    → All P (m >>= f).0
All-bind P (cs, ok a) f p q = All-append P cs (f a).0 p (q a refl)
All-bind P (cs, err e) f p q = p
