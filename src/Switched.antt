-- ===== src/Switched.antt =====
-- pkg/controllers/switchedcontroller/switched_controller.go: a controller that starts and stops a
-- delegate controller by a condition.
-- A context is known by the number of those created before it. `cancelled` is `ctx.Err() != nil`.
-- A sync that waits for a mutex which its own controller holds never returns: `blocked`.
pub mod Delegates
pub mod Mutex
mod Examples
use cluster_authentication_o.Base.{
  ℕ, zero, suc, ◌+◌, Bool, true, false, not, ◌&&◌, List, [], ◌∷◌, Option, none, some, Error, Result,
  ok, err, wrapf, context, eqb, if◌then◌else◌, String,
}

pub record Controller : Type 0 where
  pub delegate_name : String
  pub clear_delegate_sync_error_degraded_condition : Bool

pub record State : Type 0 where
  pub locked : Bool
  pub switch_context : Option ℕ
  pub cancelled : ℕ → Bool
  -- contexts created, each with the goroutine of a delegate that runs until it is cancelled
  pub started : ℕ
  -- calls of ApplyOperatorStatus for the delegate's field manager
  pub clear_calls : ℕ

-- What a sync meets: the condition, whether the context of the sync is done, and the answer to an
-- apply of the status.
pub record Input : Type 0 where
  pub switch_condition : Result Bool
  pub parent_done : Bool
  pub apply_status : Result (Unit {0})

pub data Outcome : Type 0 where
  returned : Result (Unit {0}) → Outcome
  blocked : Outcome

-- NewControllerWithSwitch
abbrev pub new : State
new = record {
  locked = false;
  switch_context = none;
  cancelled = λ i. false;
  started = 0;
  clear_calls = 0;
}

-- the context is there and has no error
abbrev pub is_active : Option ℕ → (ℕ → Bool) → Bool
is_active none cancelled = false
is_active (some c) cancelled = not (cancelled c)

abbrev pub context_active : State → Bool
context_active s = is_active s.switch_context s.cancelled

abbrev pub update : (ℕ → Bool) → ℕ → Bool → ℕ → Bool
update f i v j = if eqb j i then v else f j

-- the case of a delegate that has to start, with the mutex free
unfoldable pub start_delegate : State → Bool → State
start_delegate s parent_done = record s {
  switch_context = some s.started;
  cancelled = update s.cancelled s.started parent_done;
  started = s.started + 1;
}

-- c.switchContextCancel(); c.switchContext = nil
unfoldable pub cancel_context : State → Option ℕ → State
cancel_context s none = s
cancel_context s (some c) = record s {
  switch_context = none;
  cancelled = update s.cancelled c true;
}

-- the case of a delegate that has to stop: a failed apply returns before the mutex is unlocked
unfoldable pub stop_delegate : Controller → State → Result (Unit {0}) → State × Outcome
stop_delegate k s apply_status =
    let s' = cancel_context s s.switch_context in
    if k.clear_delegate_sync_error_degraded_condition
    then (let s'' = record s' { clear_calls = s'.clear_calls + 1 } in
        elim apply_status [
          | ok _ ↦ (s'', returned (ok tt))
          | err e ↦ (
            record s'' { locked = true },
            returned (err (wrapf "clearing delegate %q conditions: %v" (k.delegate_name ∷ []) e)),
          )
        ])
    else (s', returned (ok tt))

-- the `switch` of the sync; locking a mutex that is held blocks
unfoldable pub switch_to : Controller → Input → State → Bool → State × Outcome
switch_to k input s true =
    if context_active s
    then (s, returned (ok tt))
    else if s.locked
    then (s, blocked)
    else (start_delegate s input.parent_done, returned (ok tt))
switch_to k input s false =
    if context_active s
    then (if s.locked then (s, blocked) else stop_delegate k s input.apply_status)
    else (s, returned (ok tt))

unfoldable pub sync : Controller → Input → State → State × Outcome
sync k input s = elim input.switch_condition [
  | ok switch_on ↦ switch_to k input s switch_on
  | err e ↦ (s, returned (err (wrapf "could not determine switch condition: %v" [] e)))
]

-- The syncs of the controller's one worker, in order.
unfoldable pub run : Controller → List Input → State → State
run k [] s = s
run k (input ∷ inputs) s = run k inputs (sync k input s).0
