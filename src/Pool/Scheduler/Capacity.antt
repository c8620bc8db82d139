-- ===== src/Pool/Scheduler/Capacity.antt =====
-- The pool of pool.ts never has more workers in flight than `maxWorkers`, each under an id of its
-- own, along every run.
use rstest.Prelude.{
  ℕ, ◌+◌, ◌≤◌, ◌≡◌, ◌∙◌, refl, Bool, false, if◌then◌else◌, String, List, [], ◌∷◌, arith, ◌⊎◌, All,
}
use rstest.Pool.Scheduler.State.{Task, Pool, Env, new, in_flight_count}
use rstest.Pool.Scheduler.Step.{
  Event, dispatch, resume, start_failed, finished, stopped, gate_poll, close_begins, close_ends,
  drain_errors, fallback, try_wake_gate_waiter, begin_close, end_close, report_fallback, step,
  steps, drain_worker_stop_errors, resume_first,
}
use rstest.Pool.Scheduler.Ids.{workers}
use rstest.Pool.Scheduler.Slots.{Slots, Capacity, Inv, is_no_free_id}
use rstest.Pool.Scheduler.Acquisition.{begin_dispatch-Inv, resume_first-Inv, acquire_runner-max}
use rstest.Pool.Scheduler.Release.{finish_task-Inv, fail_start-Inv, stop_settles-Inv}

-- The events that move no runner.
quiet-Slots :
    (a : ℕ) (env : Env) (key : String) (errors : List String) (p : Pool)
    → Slots a p
    → Slots a (if p.gate_polls then try_wake_gate_waiter env p else p)
      × Slots a (begin_close p)
      × Slots a (end_close errors p)
      × Slots a (drain_worker_stop_errors p)
      × Slots a (report_fallback key p)
unfolding try_wake_gate_waiter begin_close end_close drain_worker_stop_errors report_fallback
quiet-Slots a env key errors p v =
    (ground arith, ground arith, ground arith, ground arith, ground arith)

quiet-Capacity :
    (env : Env) (key : String) (errors : List String) (p : Pool)
    → Capacity p
    → Capacity (if p.gate_polls then try_wake_gate_waiter env p else p)
      × Capacity (begin_close p)
      × Capacity (end_close errors p)
      × Capacity (drain_worker_stop_errors p)
      × Capacity (report_fallback key p)
unfolding try_wake_gate_waiter begin_close end_close drain_worker_stop_errors report_fallback
quiet-Capacity env key errors p v =
    (ground arith, ground arith, ground arith, ground arith, ground arith)

pub step-Inv : (env : Env) (e : Event) (p : Pool) → Inv p → Inv (step env e p)
unfolding step
step-Inv env (dispatch t) p v = begin_dispatch-Inv env t p v
step-Inv env resume p v = resume_first-Inv env p.woken p v
step-Inv env (start_failed id) p v = fail_start-Inv id p v
step-Inv env (finished id) p v = finish_task-Inv env id p v
step-Inv env (stopped id error) p v = stop_settles-Inv id error p v
step-Inv env gate_poll p v = record {
  slots = λ a. (quiet-Slots a env "" [] p (v.slots a)).0;
  capacity = (quiet-Capacity env "" [] p v.capacity).0;
}
step-Inv env close_begins p v = record {
  slots = λ a. (quiet-Slots a env "" [] p (v.slots a)).1;
  capacity = (quiet-Capacity env "" [] p v.capacity).1;
}
step-Inv env (close_ends errors) p v = record {
  slots = λ a. (quiet-Slots a env "" errors p (v.slots a)).2;
  capacity = (quiet-Capacity env "" errors p v.capacity).2;
}
step-Inv env drain_errors p v = record {
  slots = λ a. (quiet-Slots a env "" [] p (v.slots a)).3;
  capacity = (quiet-Capacity env "" [] p v.capacity).3;
}
step-Inv env (fallback key) p v = record {
  slots = λ a. (quiet-Slots a env key [] p (v.slots a)).4;
  capacity = (quiet-Capacity env key [] p v.capacity).4;
}

pub new-Inv : (max min : ℕ) (isolate : Bool) → Inv (new max min isolate)
unfolding new
new-Inv max min isolate = record { slots = λ a. ground arith; capacity = ground arith }

pub steps-Inv : (es : List (Env × Event)) (p : Pool) → Inv p → Inv (steps es p)
unfolding steps
steps-Inv [] p v = v
steps-Inv ((env, e) ∷ es) p v = steps-Inv es (step env e p) (step-Inv env e p v)

pub step-max : (env : Env) (e : Event) (p : Pool) → (step env e p).max_workers ≡ p.max_workers
unfolding step
step-max env (dispatch t) p = ground (arith, acquire_runner-max env t p)
step-max env resume p = resume_first-max p.woken
  where
    resume_first-max : (ts : List Task) → (resume_first env ts p).max_workers ≡ p.max_workers
    resume_first-max [] = refl
    resume_first-max (t ∷ ts) = ground (arith, acquire_runner-max env t (record p { woken = ts }))
step-max env (finished id) p = ground arith
step-max env _ p = ground arith

pub steps-max : (es : List (Env × Event)) (p : Pool) → (steps es p).max_workers ≡ p.max_workers
unfolding steps
steps-max [] p = refl
steps-max ((env, e) ∷ es) p = steps-max es (step env e p) ∙ step-max env e p

pub new-max : (max min : ℕ) (isolate : Bool) → (new max min isolate).max_workers ≡ max
unfolding new
new-max max min isolate = refl

-- Along every run of a pool that is not closed, the workers in flight (active, idle and stopping)
-- are at most `maxWorkers`, no two of them have the same id, and each id in flight lies between 1
-- and `maxWorkers`. No call of `dispatch` has failed for want of an id.
pub run-bounded :
    (max min : ℕ) (isolate : Bool) (es : List (Env × Event)) (a : ℕ)
    → (steps es (new max min isolate)).is_closed ≡ false
    → let p = steps es (new max min isolate) in
      let in_flight =
        workers a p.active_runners + workers a p.idle_runners + workers a p.stopping_runners in
      (in_flight_count p ≤ max)
      × ((in_flight ≡ 0) ⊎ ((in_flight ≡ 1) × (1 ≤ a) × (a ≤ max)))
      × All (λ g. is_no_free_id g ≡ false) p.grants
run-bounded max min isolate es a o =
    let v = steps-Inv es (new max min isolate) (new-Inv max min isolate) in
    let m = steps-max es (new max min isolate) ∙ new-max max min isolate in
    let slots = v.slots a in
    (
      omega (arith, v.capacity.bounded o, m),
      grind (arith, slots.tally o, slots.once, slots.range, m),
      v.capacity.served,
    )
