-- ===== src/Base/Errors.antt =====
-- Go's `(value, error)` results. A formatted error keeps its format and its arguments apart, since
-- the formatting itself is never inspected; an error of the API server keeps its kind, which
-- `apierrors.IsNotFound` tests.
use Prim.Native.String.{String}
use mathlib.Core.Path.{◌≡◌, refl}
use mathlib.Core.Logic.{◌⊎◌, inl, inr}
use mathlib.Core.Bool.{Bool, true, false}
use mathlib.Core.Option.{Option, none, some}
use mathlib.Core.List.{List, [], ◌∷◌}

pub data Error : Type 0 where
  not_found : Error
  failure : String → Error
  errorf : String → List String → Error
  wrapf : String → List String → Error → Error
  joined : Error → Error → Error

-- apierrors.IsNotFound, on an error as a lister or a client returns it
abbrev pub is_not_found : Error → Bool
is_not_found not_found = true
is_not_found _ = false

-- errors.Join, utilerrors.NewAggregate: nil for no error
abbrev pub join_errors : List Error → Option Error
join_errors [] = none
join_errors (e ∷ []) = some e
join_errors (e ∷ es) = elim (join_errors es) [ none ↦ some e | some rest ↦ some (joined e rest) ]

-- A value, or the error that a Go function returns beside it.
pub data Result {ℓ} (A : Type ℓ) : Type ℓ where
  err : Error → Result A
  ok : A → Result A

-- `return nil` and `return err` of a function whose only result is an error
abbrev pub of_error : Option Error → Result (Unit {0})
of_error none = ok tt
of_error (some e) = err e

module _ {ℓ} {A : Type ℓ} where
  -- `if err != nil { return fmt.Errorf(format, args..., err) }`
  abbrev pub context : String → List String → Result A → Result A
  context format args (ok a) = ok a
  context format args (err e) = err (wrapf format args e)

  pub Result-cases : (r : Result A) → ((a : A) × (r ≡ ok a)) ⊎ ((e : Error) × (r ≡ err e))
  Result-cases (ok a) = inl (a, refl)
  Result-cases (err e) = inr (e, refl)

module _ {ℓ κ} {A : Type ℓ} {B : Type κ} where
  infixl 5 ◌>>=◌ ◌>>◌
  -- `if err != nil { return err }`
  abbrev pub ◌>>=◌ : Result A → (A → Result B) → Result B
  err e >>= f = err e
  ok a >>= f = f a

  abbrev pub ◌>>◌ : Result A → Result B → Result B
  first >> second = first >>= λ _. second
