-- ===== src/Pool/Scheduler/Examples.antt =====
-- Runs of the pool of pool.ts.
use rstest.Prelude.{
  ℕ, ◌+◌, ◌==◌, ◌≡◌, ◌≤◌, ◌<◌, ◌⊎◌, refl, true, false, String, List, [], ◌∷◌, ◌++◌, none, length,
  All, arith, any,
}
use rstest.Pool.Scheduler.State.{
  Worker, Task, Pool, Env, new, in_flight_count, take_last, acquire_worker_id,
}
use rstest.Pool.Scheduler.Acquire.{spawn, acquire_loop, acquire_runner}
use rstest.Pool.Scheduler.Step.{
  Event, dispatch, resume, finished, stopped, gate_poll, close_begins, step, steps,
}
use rstest.Pool.Scheduler.Ids.{workers}
use rstest.Pool.Scheduler.Slots.{is_no_free_id}
use rstest.Pool.Scheduler.Capacity.{run-bounded}
use rstest.Pool.Scheduler.Service.{served, waits, dispatched, served_once}
use rstest.Pool.Scheduler.Progress.{Progress, run-Progress}
use rstest.Pool.Scheduler.Reuse.{Policy, run-Policy}
use rstest.Pool.Scheduler.Closing.{runner_grants, shut, close-final}
use rstest.Pool.Scheduler.Stall.{is_call, opens, gate_stall}

abbrev roomy : Env
roomy = record { usable = λ w. true; can_spawn = λ n. true }

-- The gate refuses any worker but the first.
abbrev tight : Env
tight = record { usable = λ w. true; can_spawn = λ n. n == 0 }

abbrev task : ℕ → String → Task
task id key = record { task_id = id; task_environment = key }

abbrev worker : ℕ → String → Worker
worker id key = record { worker_id = id; environment_key = key }

-- Three tasks on two workers: the third waits, and is given the runner that the first returns.
abbrev day : List (Env × Event)
day =
    (roomy, dispatch (task 1 "node"))
    ∷ (roomy, dispatch (task 2 "jsdom"))
    ∷ (roomy, dispatch (task 3 "node"))
    ∷ (roomy, finished 1)
    ∷ (roomy, resume)
    ∷ (roomy, finished 2)
    ∷ (roomy, stopped 2 none)
    ∷ []

day_open : (steps day (new 2 1 false)).is_closed ≡ false
unfolding steps new acquire_runner acquire_loop take_last spawn acquire_worker_id
day_open = refl

run-bounded_example :
    let p = steps day (new 2 1 false) in
    let in_flight =
      workers 1 p.active_runners + workers 1 p.idle_runners + workers 1 p.stopping_runners in
    (in_flight_count p ≤ 2)
    × ((in_flight ≡ 0) ⊎ ((in_flight ≡ 1) × (1 ≤ 1) × (1 ≤ 2)))
    × All (λ g. is_no_free_id g ≡ false) p.grants
run-bounded_example = run-bounded 2 1 false day 1 day_open

-- A pool with two idle runners of one environment and one of another.
abbrev resting_pool : Pool
resting_pool = record (new 4 2 false) {
  idle_runners = worker 1 "node" ∷ worker 2 "jsdom" ∷ worker 3 "node" ∷ [];
  slot_in_use = 1 ∷ 2 ∷ 3 ∷ [];
}

served_once_example :
    served 3 (steps day (new 2 1 false)) + waits 3 (steps day (new 2 1 false))
    ≡ served 3 (new 2 1 false) + waits 3 (new 2 1 false) + dispatched 3 day
served_once_example = served_once 3 day (new 2 1 false)

run-Progress_example : Progress (steps day (new 2 1 false))
run-Progress_example = run-Progress 2 1 false day (omega arith)

run-Policy_example : Policy (steps day (new 2 1 false))
run-Policy_example = run-Policy 2 1 false day

resting_pool-open : resting_pool.is_closed ≡ false
unfolding new
resting_pool-open = refl

close-final_example :
    ((step roomy close_begins resting_pool).slot_waiters ≡ [])
    × ((step roomy close_begins resting_pool).woken
        ≡ resting_pool.woken ++ resting_pool.slot_waiters)
    × (runner_grants (steps day (step roomy close_begins resting_pool))
        ≡ runner_grants resting_pool)
    × (shut (steps day (step roomy close_begins resting_pool)) ≡ true)
close-final_example = close-final roomy day resting_pool resting_pool-open

-- Polls and other events that leave the gate shut.
abbrev evening : List (Env × Event)
evening =
    (tight, gate_poll)
    ∷ (tight, stopped 2 none)
    ∷ (tight, gate_poll)
    ∷ (tight, resume)
    ∷ (tight, finished 1)
    ∷ []

gate_stall-hypotheses :
    (shut resting_pool ≡ false)
    × (take_last "happy-dom" resting_pool.idle_runners ≡ none)
    × (length resting_pool.idle_runners < resting_pool.max_workers)
    × (tight.can_spawn (length resting_pool.idle_runners) ≡ false)
    × (any is_call evening ≡ false)
    × (any (opens (length resting_pool.idle_runners)) evening ≡ false)
unfolding new take_last
gate_stall-hypotheses = (refl, refl, omega arith, refl, refl, refl)

resting_pool-quiet :
    (resting_pool.active_runners ≡ [])
    × (resting_pool.stopping_runners ≡ [])
    × (resting_pool.woken ≡ [])
unfolding new
resting_pool-quiet = (refl, refl, refl)

gate_stall_example :
    let q = steps evening (step tight (dispatch (task 4 "happy-dom")) resting_pool) in
    (q.grants ≡ resting_pool.grants)
    × (q.slot_waiters ≡ resting_pool.slot_waiters ++ task 4 "happy-dom" ∷ [])
    × (q.idle_runners ≡ resting_pool.idle_runners)
gate_stall_example =
    gate_stall evening tight (task 4 "happy-dom") resting_pool gate_stall-hypotheses.0
      resting_pool-quiet.0 resting_pool-quiet.1 resting_pool-quiet.2 gate_stall-hypotheses.1
      gate_stall-hypotheses.2 gate_stall-hypotheses.3 gate_stall-hypotheses.4
      gate_stall-hypotheses.5
