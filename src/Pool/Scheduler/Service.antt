-- ===== src/Pool/Scheduler/Service.antt =====
-- Every call of `dispatch` of pool.ts is served once.
use rstest.Prelude.{
  ℕ, zero, suc, ◌+◌, ◌==◌, ◌≡◌, refl, Bool, if◌then◌else◌, String, List, [], ◌∷◌, ◌++◌, Option,
  none, some, arith, length, Option-cases, inl, inr, Bool-cases, count_if, count_if-append, subst,
}
use rstest.Pool.Scheduler.Acquisition.{acquire_loop-ends}
use rstest.Pool.Scheduler.State.{Task, Grant, Pool, Env, take_last}
use rstest.Pool.Scheduler.Acquire.{
  dispose_runner_in_background, claim_slot, acquire_loop, acquire_runner, park, shed, spawn,
}
use rstest.Pool.Scheduler.Step.{
  Event, dispatch, resume, start_failed, finished, stopped, gate_poll, close_begins, close_ends,
  drain_errors, fallback, finish_task, stop_settles, try_wake_gate_waiter, begin_close, step, steps,
  resume_first,
}

abbrev is_call : ℕ → Task → Bool
is_call id t = t.task_id == id

abbrev is_grant : ℕ → Task × Grant → Bool
is_grant id (t, g) = is_call id t

-- How often a call with the id has been granted or refused.
abbrev pub served : ℕ → Pool → ℕ
served id p = count_if (is_grant id) p.grants

-- How often one waits for a slot, or for its continuation to run.
abbrev pub waits : ℕ → Pool → ℕ
waits id p = count_if (is_call id) p.slot_waiters + count_if (is_call id) p.woken

abbrev calls : ℕ → Pool → ℕ
calls id p = served id p + waits id p

abbrev pub dispatches : ℕ → Event → ℕ
dispatches id (dispatch t) = if is_call id t then 1 else 0
dispatches id _ = 0

snoc :
    (id : ℕ) (t : Task) (ts : List Task)
    → count_if (is_call id) (ts ++ t ∷ [])
      ≡ count_if (is_call id) ts + (if is_call id t then 1 else 0)
snoc id t ts = ground (arith, count_if-append (is_call id) ts (t ∷ []))

claim_slot-calls :
    (id : ℕ) (env : Env) (t : Task) (p : Pool)
    → calls id (claim_slot env t p) ≡ calls id p + (if is_call id t then 1 else 0)
unfolding claim_slot park shed spawn
claim_slot-calls id env t p = ground (arith, snoc id t p.slot_waiters)

-- The loop grants the call or lets it wait.
abbrev Adds : ℕ → Task → Pool → Option Pool → Type 0
Adds id t p none = Unit {0}
Adds id t p (some q) = calls id q ≡ calls id p + (if is_call id t then 1 else 0)

acquire_loop-Adds :
    (id n : ℕ) (env : Env) (t : Task) (p : Pool) → Adds id t p (acquire_loop n env t p)
unfolding acquire_loop dispose_runner_in_background
acquire_loop-Adds id zero env t p = tt
acquire_loop-Adds id (suc n) env t p =
    elim (Option-cases (take_last t.task_environment p.idle_runners)) [
      | inl fresh ↦ rw (fresh, acquire_loop) (claim_slot-calls id env t p)
      | inr ((w, rest), found) ↦ elim (Bool-cases (env.usable w)) [
        | inl good ↦ rw (found, acquire_loop, good) (omega arith)
        | inr stale ↦
            rw (found, acquire_loop, stale)
              (acquire_loop-Adds id n env t
                (dispose_runner_in_background w (record p { idle_runners = rest })))
      ]
    ]

acquire_runner-calls :
    (id : ℕ) (env : Env) (t : Task) (p : Pool)
    → calls id (acquire_runner env t p) ≡ calls id p + (if is_call id t then 1 else 0)
acquire_runner-calls id env t p =
    subst (Adds id t p) (acquire_loop-ends env t p)
      (acquire_loop-Adds id (suc (length p.idle_runners)) env t p)

resume_first-calls :
    (id : ℕ) (env : Env) (ts : List Task) (p : Pool)
    → p.woken ≡ ts
    → calls id (resume_first env ts p) ≡ calls id p
unfolding resume_first
resume_first-calls id env [] p h = refl
resume_first-calls id env (t ∷ ts) p h =
    ground (arith, acquire_runner-calls id env t (record p { woken = ts }))

-- The operations that may wake the waiter that has waited longest.
module _ (id : ℕ) (p : Pool) where
  finish_task-calls :
      (ts : List Task) (env : Env) (w : ℕ)
      → p.slot_waiters ≡ ts
      → calls id (finish_task env w p) ≡ calls id p
  unfolding finish_task
  finish_task-calls [] env w h = ground arith
  finish_task-calls (t ∷ ts) env w h = ground (arith, snoc id t p.woken)

  stop_settles-calls :
      (ts : List Task) (w : ℕ) (error : Option String)
      → p.slot_waiters ≡ ts
      → calls id (stop_settles w error p) ≡ calls id p
  unfolding stop_settles
  stop_settles-calls [] w error h = ground arith
  stop_settles-calls (t ∷ ts) w error h = ground (arith, snoc id t p.woken)

  try_wake_gate_waiter-calls :
      (ts : List Task) (env : Env)
      → p.slot_waiters ≡ ts
      → calls id (try_wake_gate_waiter env p) ≡ calls id p
  unfolding try_wake_gate_waiter
  try_wake_gate_waiter-calls [] env h = ground arith
  try_wake_gate_waiter-calls (t ∷ ts) env h = ground (arith, snoc id t p.woken)

  begin_close-calls : calls id (begin_close p) ≡ calls id p
  unfolding begin_close
  begin_close-calls = ground (arith, count_if-append (is_call id) p.woken p.slot_waiters)

step-calls :
    (id : ℕ) (env : Env) (e : Event) (p : Pool)
    → calls id (step env e p) ≡ calls id p + dispatches id e
unfolding step
step-calls id env (dispatch t) p = ground (arith, acquire_runner-calls id env t p)
step-calls id env resume p = omega (arith, resume_first-calls id env p.woken p refl)
step-calls id env (start_failed w) p = ground arith
step-calls id env (finished w) p = omega (arith, finish_task-calls id p p.slot_waiters env w refl)
step-calls id env (stopped w error) p =
    omega (arith, stop_settles-calls id p p.slot_waiters w error refl)
step-calls id env gate_poll p =
    ground (arith, try_wake_gate_waiter-calls id p p.slot_waiters env refl)
step-calls id env close_begins p = omega (arith, begin_close-calls id p)
step-calls id env (close_ends errors) p = ground arith
step-calls id env drain_errors p = ground arith
step-calls id env (fallback key) p = ground arith

-- How often the events dispatch a task with the id.
abbrev pub dispatched : ℕ → List (Env × Event) → ℕ
dispatched id [] = 0
dispatched id ((env, e) ∷ es) = dispatches id e + dispatched id es

-- Along every run, the calls of `dispatch` with a task's id are those that were granted a runner or
-- refused, once each, and those that still wait: none is lost and none is served twice.
pub served_once :
    (id : ℕ) (es : List (Env × Event)) (p : Pool)
    → served id (steps es p) + waits id (steps es p) ≡ served id p + waits id p + dispatched id es
unfolding steps
served_once id [] p = omega arith
served_once id ((env, e) ∷ es) p =
    omega (arith, served_once id es (step env e p), step-calls id env e p)
