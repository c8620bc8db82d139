-- ===== src/Pool/Scheduler/Acquire.antt =====
-- `acquireRunner` and what it calls, of pool.ts.
use rstest.Prelude.{
  ℕ, zero, suc, leb, true, false, not, if◌then◌else◌, List, [], ◌∷◌, ◌++◌, Option, none, some,
  length,
}
use rstest.Pool.Scheduler.State.{
  Worker, Task, Grant, reused, spawned, no_free_id, Pool, Env, in_flight_count, acquire_worker_id,
  take_last,
}

abbrev pub grant : Task → Grant → Pool → Pool
grant t g p = record p { grants = (t, g) ∷ p.grants }

-- `disposeRunnerInBackground`: the runner keeps its slot until its stop has settled.
unfoldable pub dispose_runner_in_background : Worker → Pool → Pool
dispose_runner_in_background w p = record p { stopping_runners = p.stopping_runners ++ w ∷ [] }

-- The coldest idle runner makes room.
shed_idle : List Worker → Pool → Pool
unfolding dispose_runner_in_background
shed_idle [] p = p
shed_idle (w ∷ rest) p = dispose_runner_in_background w (record p { idle_runners = rest })

unfoldable pub shed : Pool → Pool
unfolding shed_idle
shed p = shed_idle p.idle_runners p

unfoldable pub park : Task → Pool → Pool
park t p = record p { slot_waiters = p.slot_waiters ++ t ∷ [] }

spawn_with : Option ℕ → Task → Pool → Pool
spawn_with none t p = grant t no_free_id p
spawn_with (some id) t p =
    let w : Worker = record { worker_id = id; environment_key = t.task_environment } in
    grant t (spawned w)
      (record p { active_runners = p.active_runners ++ w ∷ []; slot_in_use = id ∷ p.slot_in_use })

unfoldable pub spawn : Task → Pool → Pool
unfolding spawn_with
spawn t p = spawn_with (acquire_worker_id p.max_workers p.slot_in_use) t p

-- The part of the loop's body for a task that no idle runner serves.
unfoldable pub claim_slot : Env → Task → Pool → Pool
unfolding shed park
claim_slot env t p =
    if leb p.max_workers (in_flight_count p)
    then park t (shed p)
    else (if not (env.can_spawn (in_flight_count p))
        then park t (record p { gate_polls = true })
        else spawn t p)

-- The loop, with fuel: a round that goes on has disposed of a stale idle runner.
unfoldable pub acquire_loop : ℕ → Env → Task → Pool → Option Pool
unfolding claim_slot dispose_runner_in_background
acquire_loop zero env t p = none
acquire_loop (suc n) env t p = elim (take_last t.task_environment p.idle_runners) [
  | none ↦ some (claim_slot env t p)
  | some (w, rest) ↦ elim (env.usable w) [
    | true ↦ some (
        grant t (reused w)
          (record p { idle_runners = rest; active_runners = p.active_runners ++ w ∷ [] }))
    | false ↦
        acquire_loop n env t (dispose_runner_in_background w (record p { idle_runners = rest }))
  ]
]

abbrev pub or_same : Pool → Option Pool → Pool
or_same p none = p
or_same p (some q) = q

unfoldable pub acquire_runner : Env → Task → Pool → Pool
acquire_runner env t p = or_same p (acquire_loop (suc (length p.idle_runners)) env t p)
