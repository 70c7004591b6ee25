-- ===== src/Switched/Mutex.antt =====
-- The controller's mutex across syncs: free again after each sync, but for a failed apply.
use cluster_authentication_o.Base.{
  ◌≡◌, refl, ◌∙◌, ap, ◌≢◌, ◌⊎◌, true, false, arith, List, [], ◌∷◌, none, Error, Result, ok, err,
  wrapf, All,
}
use cluster_authentication_o.Switched.{
  Controller, State, Input, Outcome, returned, blocked, context_active, start_delegate,
  cancel_context, stop_delegate, switch_to, sync, run,
}

-- The applies that a controller makes succeed.
abbrev pub Answers : Controller → Input → Type 0
Answers k input =
    (k.clear_delegate_sync_error_degraded_condition ≡ false) ⊎ (input.apply_status ≡ ok tt)

sync_unlocks :
    (k : Controller) (input : Input) (s : State)
    → Answers k input
    → s.locked ≡ false
    → ((sync k input s).0.locked ≡ false) × ((sync k input s).1 ≢ blocked)
unfolding sync switch_to start_delegate stop_delegate cancel_context
sync_unlocks k input s answers free = ground arith

returns_lem : (o : Outcome) → o ≢ blocked → (r : Result (Unit {0})) × (o ≡ returned r)
returns_lem (returned r) h = (r, refl)
returns_lem blocked h = absurd (h refl)

-- Each sync of the inputs, from the state that the one before it left, returns with the mutex free.
abbrev pub ReturnFree : Controller → List Input → State → Type 0
ReturnFree k [] s = Unit
ReturnFree k (input ∷ inputs) s =
    ((r : Result (Unit {0})) × ((sync k input s).1 ≡ returned r))
    × ((sync k input s).0.locked ≡ false)
    × ReturnFree k inputs (sync k input s).0

-- While the applies of the status succeed, or the controller is one that makes none, every sync
-- from a free mutex returns with the mutex free, whatever the inputs; after them it is free.
pub mutex_free :
    (k : Controller) (inputs : List Input) (s : State)
    → All (Answers k) inputs
    → s.locked ≡ false
    → ReturnFree k inputs s × ((run k inputs s).locked ≡ false)
unfolding run
mutex_free k [] s a free = (tt, free)
mutex_free k (input ∷ inputs) s a free =
    let (unlocked, unblocked) = sync_unlocks k input s a.0 free in
    let (later, last) = mutex_free k inputs (sync k input s).0 a.1 unlocked in
    ((returns_lem _ unblocked, unlocked, later), last)

-- The state that a failed apply leaves.
abbrev pub IsStuck : State → Type 0
IsStuck s = (s.locked ≡ true) × (s.switch_context ≡ none)

stuck_stays : (k : Controller) (input : Input) (s : State) → IsStuck s → (sync k input s).0 ≡ s
unfolding sync switch_to
stuck_stays k input s h = ground arith

run_stuck : (k : Controller) (inputs : List Input) (s : State) → IsStuck s → run k inputs s ≡ s
unfolding run
run_stuck k [] s h = refl
run_stuck k (input ∷ inputs) s h =
    ap (run k inputs) (stuck_stays k input s h) ∙ run_stuck k inputs s h

stop_fails :
    (k : Controller) (input : Input) (s : State) (e : Error)
    → s.locked ≡ false
    → context_active s ≡ true
    → k.clear_delegate_sync_error_degraded_condition ≡ true
    → input.switch_condition ≡ ok false
    → input.apply_status ≡ err e
    → IsStuck (sync k input s).0
      × ((sync k input s).1
          ≡ returned (err (wrapf "clearing delegate %q conditions: %v" (k.delegate_name ∷ []) e)))
unfolding sync switch_to stop_delegate cancel_context
stop_fails k input s e free active clears off fails = ground arith

-- When the apply that clears the delegate's conditions fails, the sync returns its error with the
-- mutex still locked. No later sync changes the state then, whatever it meets: none clears the
-- conditions again, none starts a delegate, and one whose condition asks for a delegate blocks.
pub failed_clear_locks :
    (k : Controller) (input : Input) (s : State) (e : Error) (later : List Input) (last : Input)
    → s.locked ≡ false
    → context_active s ≡ true
    → k.clear_delegate_sync_error_degraded_condition ≡ true
    → input.switch_condition ≡ ok false
    → input.apply_status ≡ err e
    → last.switch_condition ≡ ok true
    → let s' = (sync k input s).0 in
      ((sync k input s).1
        ≡ returned (err (wrapf "clearing delegate %q conditions: %v" (k.delegate_name ∷ []) e)))
      × (s'.locked ≡ true)
      × (run k later s' ≡ s')
      × ((sync k last (run k later s')).1 ≡ blocked)
failed_clear_locks k input s e later last free active clears off fails on =
    let (stuck, returns) = stop_fails k input s e free active clears off fails in
    let same = run_stuck k later (sync k input s).0 stuck in
    (returns, stuck.0, same, rw same (stuck_blocks k last (sync k input s).0 stuck on))
  where
    stuck_blocks :
        (k : Controller) (input : Input) (s : State)
        → IsStuck s
        → input.switch_condition ≡ ok true
        → (sync k input s).1 ≡ blocked
    stuck_blocks k input s h on = unfold sync switch_to in ground arith
