-- ===== src/Switched/Examples.antt =====
-- A delegate that is started, and whose stop fails to clear its conditions.
use cluster_authentication_o.Base.{
  ℕ, ◌≡◌, refl, ◌↔◌, true, false, [], ◌∷◌, some, failure, wrapf, ok, err, inr, arith,
}
use cluster_authentication_o.Switched.{
  Controller, State, Input, returned, blocked, new, start_delegate, switch_to, sync, run,
}
use cluster_authentication_o.Switched.Delegates.{
  Reach, fresh, next, turn, IsRunning, one_delegate, follows_condition,
}
use cluster_authentication_o.Switched.Mutex.{ReturnFree, mutex_free, failed_clear_locks}

abbrev controller : Controller
controller = record {
  delegate_name = "delegate";
  clear_delegate_sync_error_degraded_condition = true;
}

abbrev on : Input
on = record { switch_condition = ok true; parent_done = false; apply_status = ok tt }

abbrev off_fails : Input
off_fails = record {
  switch_condition = ok false;
  parent_done = false;
  apply_status = err (failure "conflict");
}

abbrev off : Input
off = record { switch_condition = ok false; parent_done = false; apply_status = ok tt }

abbrev running : State
running = (sync controller on new).0

running_reached : Reach controller running
running_reached = next fresh (turn on)

one_delegate_example : ◌≡◌ {A = ℕ} 0 0 × (running.switch_context ≡ some 0)
unfolding sync switch_to start_delegate
one_delegate_example =
    one_delegate controller running 0 0 running_reached (omega arith) refl (omega arith) refl

starts : (sync controller on new).1 ≡ returned (ok tt)
unfolding sync switch_to
starts = refl

follows_condition_example : IsRunning (sync controller on new).0 ↔ (true ≡ true)
follows_condition_example = follows_condition controller on new true fresh refl refl starts

mutex_free_example :
    ReturnFree controller (on ∷ off ∷ on ∷ []) new
    × ((run controller (on ∷ off ∷ on ∷ []) new).locked ≡ false)
mutex_free_example =
    mutex_free controller (on ∷ off ∷ on ∷ []) new (inr refl, (inr refl, (inr refl, tt))) refl

failed_clear_locks_example :
    let s' = (sync controller off_fails running).0 in
    ((sync controller off_fails running).1
      ≡ returned (
          err (wrapf "clearing delegate %q conditions: %v" ("delegate" ∷ []) (failure "conflict"))))
    × (s'.locked ≡ true)
    × (run controller (off ∷ []) s' ≡ s')
    × ((sync controller on (run controller (off ∷ []) s')).1 ≡ blocked)
unfolding sync switch_to start_delegate
failed_clear_locks_example =
    failed_clear_locks controller off_fails running (failure "conflict") (off ∷ []) on refl refl
      refl refl refl refl
