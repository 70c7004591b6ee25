-- ===== src/Switched/Delegates.antt =====
-- Which delegates run: at most one at any time, and it is the one the controller holds.
use mathlib.Core.Path.{subst}
use cluster_authentication_o.Base.{
  sym, ◌↔◌, Option-cases, Result-cases, ℕ, ◌<◌, ◌≡◌, refl, ◌⊎◌, inl, inr, Bool, true, false, arith,
  Option, none, some, Result, ok, Bool-cases,
}
use cluster_authentication_o.Switched.{
  Controller, State, Input, returned, new, context_active, update, start_delegate, cancel_context,
  stop_delegate, switch_to, sync,
}

-- A delegate's context is cancelled from outside, or the controller syncs.
pub data Step (k : Controller) : State → State → Type 0 where
  expire : {s : State} (c : ℕ) → Step k s (record s { cancelled = update s.cancelled c true })
  turn : {s : State} (input : Input) → Step k s (sync k input s).0

pub data Reach (k : Controller) : State → Type 0 where
  fresh : Reach k new
  next : {s t : State} → Reach k s → Step k s t → Reach k t

-- A context that was created and is not cancelled is the one that the controller holds.
pub record IsTracked (s : State) : Type 0 where
  pub known : (c : ℕ) → s.switch_context ≡ some c → c < s.started
  pub held : (c : ℕ) → c < s.started → s.cancelled c ≡ false → s.switch_context ≡ some c

start-IsTracked :
    (s : State) (done : Bool)
    → context_active s ≡ false
    → IsTracked s
    → IsTracked (start_delegate s done)
unfolding start_delegate
start-IsTracked s done idle t = record {
  known = λ c e. ground arith;
  held = λ c lt alive. ground (arith, t.held c, t.known c);
}

cancel-IsTracked :
    (s : State) (o : Option ℕ) → s.switch_context ≡ o → IsTracked s → IsTracked (cancel_context s o)
unfolding cancel_context
cancel-IsTracked s none e t = t
cancel-IsTracked s (some c) e t = record {
  known = λ d p. ground arith;
  held = λ d lt alive. ground (arith, t.held d lt);
}

stop-IsTracked :
    (k : Controller) (s : State) (answer : Result (Unit {0}))
    → IsTracked s
    → IsTracked (stop_delegate k s answer).0
unfolding stop_delegate
stop-IsTracked k s answer t =
    let u = cancel-IsTracked s s.switch_context refl t in
    record {
      known = λ c e. ground (arith, u.known c);
      held = λ c lt alive. ground (arith, u.held c);
    }

-- Where a sync can leave the state.
sync_cases :
    (k : Controller) (input : Input) (s : State)
    → ((sync k input s).0 ≡ s)
      ⊎ ((context_active s ≡ false) × ((sync k input s).0 ≡ start_delegate s input.parent_done))
      ⊎ ((sync k input s).0 ≡ (stop_delegate k s input.apply_status).0)
unfolding sync switch_to
sync_cases k input s = elim (Result-cases input.switch_condition) [
  | inr (e, p) ↦ inl (ground (arith, p))
  | inl (true, p) ↦ elim (Bool-cases (context_active s)) [
    | inl a ↦ inl (ground (arith, p, a))
    | inr n ↦ elim (Bool-cases s.locked) [
      | inl l ↦ inl (ground (arith, p, n, l))
      | inr u ↦ inr (inl (n, ground (arith, p, n, u)))
    ]
  ]
  | inl (false, p) ↦ elim (Bool-cases (context_active s)) [
    | inr n ↦ inl (ground (arith, p, n))
    | inl a ↦ elim (Bool-cases s.locked) [
      | inl l ↦ inl (ground (arith, p, a, l))
      | inr u ↦ inr (inr (ground (arith, p, a, u)))
    ]
  ]
]

sync-IsTracked :
    (k : Controller) (input : Input) (s : State) → IsTracked s → IsTracked (sync k input s).0
sync-IsTracked k input s t = elim (sync_cases k input s) [
  | inl same ↦ subst IsTracked (sym same) t
  | inr (inl (idle, started)) ↦
      subst IsTracked (sym started) (start-IsTracked s input.parent_done idle t)
  | inr (inr stopped) ↦ subst IsTracked (sym stopped) (stop-IsTracked k s input.apply_status t)
]

Step-IsTracked : {k : Controller} {s t : State} → Step k s t → IsTracked s → IsTracked t
Step-IsTracked (expire {s} c) t = record {
  known = t.known;
  held = λ d lt alive. ground (arith, t.held d lt);
}
Step-IsTracked {k} (turn {s} input) t = sync-IsTracked k input s t

Reach-IsTracked : {k : Controller} {s : State} → Reach k s → IsTracked s
Reach-IsTracked fresh = record {
  known = λ c e. ground arith;
  held = λ c lt alive. absurd (omega arith);
}
Reach-IsTracked (next r st) = Step-IsTracked st (Reach-IsTracked r)

-- In every state that syncs and cancellations from outside can reach, at most one delegate runs
-- (its context is not cancelled), and it is the one whose context the controller holds.
pub one_delegate :
    (k : Controller) (s : State) (c d : ℕ)
    → Reach k s
    → c < s.started
    → s.cancelled c ≡ false
    → d < s.started
    → s.cancelled d ≡ false
    → (c ≡ d) × (s.switch_context ≡ some c)
one_delegate k s c d r cs ca ds da =
    let t = Reach-IsTracked r in ground (arith, t.held c cs ca, t.held d ds da)

-- Whether a delegate runs: one that was created and is not cancelled.
abbrev pub IsRunning : State → Type 0
IsRunning s = (c : ℕ) × (c < s.started) × (s.cancelled c ≡ false)

active_runs : (s : State) → IsTracked s → context_active s ≡ true → IsRunning s
active_runs s t a = elim (Option-cases s.switch_context) [
  | inl n ↦ absurd (ground (arith, n, a))
  | inr (c, p) ↦ (c, t.known c p, ground (arith, p, a))
]

runs_active : (s : State) → IsTracked s → IsRunning s → context_active s ≡ true
runs_active s t (c, lt, alive) = ground (arith, t.held c lt alive)

switch_on_active :
    (k : Controller) (input : Input) (s : State)
    → input.switch_condition ≡ ok true
    → input.parent_done ≡ false
    → (sync k input s).1 ≡ returned (ok tt)
    → context_active (sync k input s).0 ≡ true
unfolding sync switch_to start_delegate
switch_on_active k input s on live h = ground arith

switch_off_idle :
    (k : Controller) (input : Input) (s : State) (r : Result (Unit {0}))
    → input.switch_condition ≡ ok false
    → (sync k input s).1 ≡ returned r
    → context_active (sync k input s).0 ≡ false
unfolding sync switch_to stop_delegate cancel_context
switch_off_idle k input s r off h = ground arith

-- In a reachable state, a sync that succeeds while its own context is not done leaves a delegate
-- running exactly when the condition asks for one.
pub follows_condition :
    (k : Controller) (input : Input) (s : State) (on : Bool)
    → Reach k s
    → input.switch_condition ≡ ok on
    → input.parent_done ≡ false
    → (sync k input s).1 ≡ returned (ok tt)
    → IsRunning (sync k input s).0 ↔ (on ≡ true)
follows_condition k input s true r c live h = (
  λ _. refl,
  λ _.
      active_runs (sync k input s).0 (sync-IsTracked k input s (Reach-IsTracked r))
        (switch_on_active k input s c live h),
)
follows_condition k input s false r c live h = (
  λ w. absurd (
      ground (
        arith,
        runs_active (sync k input s).0 (sync-IsTracked k input s (Reach-IsTracked r)) w,
        switch_off_idle k input s (ok tt) c h,
      )),
  λ e. absurd (ground (arith, e)),
)
