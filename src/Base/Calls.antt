-- ===== src/Base/Calls.antt =====
-- A controller's sync talks to the API server. It is modelled by the calls that it makes, in
-- order, and its result; the answers of the server are an argument of the sync.
use Prim.Native.String.{String}
use mathlib.Core.List.{List, [], ◌∷◌, ◌++◌}
use cluster_authentication_o.Base.Errors.{Error, Result, ok, err, context}

abbrev pub Run {ℓ κ} : Type ℓ → Type κ → Type (ℓ ⊔ κ)
Run C A = List C × Result A

module _ {ℓ κ} {C : Type ℓ} {A : Type κ} where
  -- a step that makes no call
  abbrev pub lift : Result A → Run C A
  lift r = ([], r)

  abbrev pub pure : A → Run C A
  pure a = ([], ok a)

  abbrev pub fail : Error → Run C A
  fail e = ([], err e)

module _ {ℓ} {C : Type ℓ} where
  -- one call, answered by `server`
  abbrev pub call : (C → Result (Unit {0})) → C → Run C (Unit {0})
  call server c = (c ∷ [], server c)

  -- one call, whose error is wrapped
  abbrev pub call_context : String → List String → (C → Result (Unit {0})) → C → Run C (Unit {0})
  call_context format args server c = (c ∷ [], context format args (server c))

  -- a call whose failure the code ignores, such as the recording of an event
  abbrev pub record_event : C → Run C (Unit {0})
  record_event c = (c ∷ [], ok tt)

module _ {ℓ κ μ} {C : Type ℓ} {A : Type κ} {B : Type μ} where
  abbrev continue : List C → Result A → (A → Run C B) → Run C B
  continue cs (ok a) f = (cs ++ (f a).0, (f a).1)
  continue cs (err e) f = (cs, err e)

  infixl 5 ◌>>=◌ ◌>>◌
  abbrev pub ◌>>=◌ : Run C A → (A → Run C B) → Run C B
  m >>= f = continue m.0 m.1 f

  abbrev pub ◌>>◌ : Run C A → Run C B → Run C B
  m >> k = m >>= λ _. k
