-- ===== src/Pool/Scheduler/Step.antt =====
-- The public methods of `Pool` in pool.ts and the events that reach it, as one step function.
use text.Mathlib.Text.{◌==◌ as str_eq}
use rstest.Prelude.{
  ℕ, ltb, Bool, true, false, not, ◌&&◌, ◌||◌, if◌then◌else◌, String, List, [], ◌∷◌, ◌++◌, Option,
  none, some, length, keep, any,
}
use rstest.Pool.Scheduler.State.{
  Worker, Task, pool_closed, Pool, Env, in_flight_count, find_worker, delete, holds,
  release_worker_id,
}
use rstest.Pool.Scheduler.Acquire.{acquire_runner, grant, dispose_runner_in_background}

-- `dispatch` begins a call, `resume` is the continuation of the waiter that was woken first, and
-- `finished`, `start_failed` and `stopped` settle a task, a start and a stop of a runner.
pub data Event : Type 0 where
  dispatch : Task → Event
  resume : Event
  start_failed : ℕ → Event
  finished : ℕ → Event
  stopped : ℕ → Option String → Event
  gate_poll : Event
  close_begins : Event
  close_ends : List String → Event
  drain_errors : Event
  fallback : String → Event

-- `this.slotWaiters.shift()?.()`
wake_first : List Task → Pool → Pool
wake_first [] p = p
wake_first (t ∷ rest) p = record p { slot_waiters = rest; woken = p.woken ++ t ∷ [] }

unfoldable pub wake_waiter : Pool → Pool
unfolding wake_first
wake_waiter p = wake_first p.slot_waiters p

unfoldable pub is_shut : Pool → Bool
is_shut p = p.is_closing || p.is_closed

unfoldable pub begin_dispatch : Env → Task → Pool → Pool
unfolding is_shut
begin_dispatch env t p = if is_shut p then grant t pool_closed p else acquire_runner env t p

unfoldable pub resume_first : Env → List Task → Pool → Pool
unfolding is_shut
resume_first env [] p = p
resume_first env (t ∷ rest) p =
    let p' = record p { woken = rest } in
    if is_shut p then grant t pool_closed p' else acquire_runner env t p'

unfoldable pub resume_waiter : Env → Pool → Pool
unfolding resume_first
resume_waiter env p = resume_first env p.woken p

abbrev pub has_waiter : Pool → Bool
has_waiter p = ltb 0 (length p.slot_waiters)

abbrev pub idle_for_environment : String → Pool → ℕ
idle_for_environment key p = length (keep (holds key) p.idle_runners)

-- `releaseRunner`, after the runner has left `activeRunners`.
unfoldable pub release_runner : Env → Worker → Pool → Pool
unfolding is_shut wake_waiter dispose_runner_in_background
release_runner env w p =
    if p.isolate || is_shut p || not (env.usable w)
    then dispose_runner_in_background w p
    else (if has_waiter p
        then wake_waiter (record p { idle_runners = p.idle_runners ++ w ∷ [] })
        else (if ltb (idle_for_environment w.environment_key p) p.min_workers
            then record p { idle_runners = p.idle_runners ++ w ∷ [] }
            else dispose_runner_in_background w p))

release_found : ℕ → Option Worker → Pool → Pool
unfolding dispose_runner_in_background
release_found id none p = p
release_found id (some w) p =
    dispose_runner_in_background w (record p { cleared_runners = delete id p.cleared_runners })

-- A call whose runner `close` has cleared still disposes of it, in `releaseRunner` as in the `catch`.
unfoldable pub release_cleared : ℕ → Pool → Pool
unfolding release_found
release_cleared id p =
    if p.is_closed then release_found id (find_worker id p.cleared_runners) p else p

unfoldable pub finish_found : Env → ℕ → Option Worker → Pool → Pool
unfolding release_runner release_cleared
finish_found env id none p = release_cleared id p
finish_found env id (some w) p =
    release_runner env w (record p { active_runners = delete id p.active_runners })

unfoldable pub finish_task : Env → ℕ → Pool → Pool
unfolding finish_found
finish_task env id p = finish_found env id (find_worker id p.active_runners) p

unfoldable pub fail_found : ℕ → Option Worker → Pool → Pool
unfolding dispose_runner_in_background release_cleared
fail_found id none p = release_cleared id p
fail_found id (some w) p =
    dispose_runner_in_background w (record p { active_runners = delete id p.active_runners })

-- The `catch` of `acquireRunner` around the start of a fresh runner.
unfoldable pub fail_start : ℕ → Pool → Pool
unfolding fail_found
fail_start id p = fail_found id (find_worker id p.active_runners) p

abbrev push_error : Option String → List String → List String
push_error none errors = errors
push_error (some e) errors = errors ++ e ∷ []

unfoldable pub stop_found : ℕ → Option String → Option Worker → Pool → Pool
unfolding wake_waiter release_worker_id
stop_found id error none p = p
stop_found id error (some w) p =
    let p' = record p {
      stopping_runners = delete id p.stopping_runners;
      slot_in_use = release_worker_id id p.slot_in_use;
      worker_stop_errors = push_error error p.worker_stop_errors;
    } in
    if p.is_closed then p' else wake_waiter p'

-- The `catch` and `finally` of a stop in the background.
unfoldable pub stop_settles : ℕ → Option String → Pool → Pool
unfolding stop_found
stop_settles id error p = stop_found id error (find_worker id p.stopping_runners) p

-- `tryWakeGateWaiter`, and the gate's timer, which stops when it answers `false`.
unfoldable pub try_wake_gate_waiter : Env → Pool → Pool
unfolding is_shut wake_waiter
try_wake_gate_waiter env p =
    if not (has_waiter p) || is_shut p
    then record p { gate_polls = false }
    else if env.can_spawn (in_flight_count p)
    then wake_waiter p
    else p

-- `close` up to its first `await`: every waiter is woken.
unfoldable pub begin_close : Pool → Pool
begin_close p = if p.is_closed then p else (record p {
  is_closing = true;
  gate_polls = false;
  woken = p.woken ++ p.slot_waiters;
  slot_waiters = [];
})

-- `close` after the stops have settled, with the errors of the stops that it began itself: all
-- go to its caller.
unfoldable pub end_close : List String → Pool → Pool
end_close errors p =
    if p.is_closing && not p.is_closed
    then (record p {
      idle_runners = [];
      active_runners = [];
      cleared_runners = p.active_runners;
      is_closed = true;
      worker_stop_errors = [];
      handed_errors = p.handed_errors ++ p.worker_stop_errors ++ errors;
    })
    else p

unfoldable pub drain_worker_stop_errors : Pool → Pool
drain_worker_stop_errors p = record p {
  worker_stop_errors = [];
  handed_errors = p.handed_errors ++ p.worker_stop_errors;
}

-- `handleTestEnvironmentFallback`: each prebundle is reported once.
unfoldable pub report_fallback : String → Pool → Pool
report_fallback key p =
    if any (λ k. str_eq k key) p.reported_environment_fallbacks
    then p
    else record p { reported_environment_fallbacks = key ∷ p.reported_environment_fallbacks }

unfoldable pub step : Env → Event → Pool → Pool
unfolding begin_dispatch resume_waiter fail_start finish_task stop_settles try_wake_gate_waiter
    begin_close end_close report_fallback drain_worker_stop_errors
step env (dispatch t) p = begin_dispatch env t p
step env resume p = resume_waiter env p
step env (start_failed id) p = fail_start id p
step env (finished id) p = finish_task env id p
step env (stopped id error) p = stop_settles id error p
step env gate_poll p = if p.gate_polls then try_wake_gate_waiter env p else p
step env close_begins p = begin_close p
step env (close_ends errors) p = end_close errors p
step env drain_errors p = drain_worker_stop_errors p
step env (fallback key) p = report_fallback key p

unfoldable pub steps : List (Env × Event) → Pool → Pool
unfolding step
steps [] p = p
steps ((env, e) ∷ es) p = steps es (step env e p)
