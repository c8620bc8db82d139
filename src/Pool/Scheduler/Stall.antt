-- ===== src/Pool/Scheduler/Stall.antt =====
-- A caller of pool.ts that the memory gate parks while only idle runners hold memory.
use rstest.Prelude.{
  ℕ, ◌<◌, ◌≡◌, ◌∙◌, refl, Bool, true, false, ◌||◌, List, [], ◌∷◌, ◌++◌, none, any, arith, length,
}
use rstest.Pool.Scheduler.State.{Task, Pool, Env, in_flight_count, take_last}
use rstest.Pool.Scheduler.Acquire.{claim_slot, acquire_loop, acquire_runner, park}
use rstest.Pool.Scheduler.Step.{
  Event, dispatch, finished, close_begins, begin_dispatch, step, steps,
}

-- The events that the pool cannot bring about by itself: a new call, and `close`.
abbrev pub is_call : Env × Event → Bool
is_call (env, dispatch t) = true
is_call (env, close_begins) = true
is_call (env, _) = false

-- The gate lets a caller through that has `n` workers in flight before it.
abbrev pub opens : ℕ → Env × Event → Bool
opens n (env, e) = env.can_spawn n

-- Nothing is under way, and `n` idle runners are all that is in flight.
record Stuck (n : ℕ) (p : Pool) : Type 0 where
  open_pool : (p.is_closing || p.is_closed) ≡ false
  no_active : p.active_runners ≡ []
  no_stopping : p.stopping_runners ≡ []
  no_woken : p.woken ≡ []
  idle : length p.idle_runners ≡ n

-- What a caller can see of the pool.
record Same (p q : Pool) : Type 0 where
  runners : q.idle_runners ≡ p.idle_runners
  waiters : q.slot_waiters ≡ p.slot_waiters
  grants : q.grants ≡ p.grants

step-Stuck :
    (n : ℕ) (env : Env) (e : Event) (p : Pool)
    → is_call (env, e) ≡ false
    → env.can_spawn n ≡ false
    → Stuck n p
    → Stuck n (step env e p) × Same p (step env e p)
unfolding step
step-Stuck n env (dispatch t) p h c v = absurd (ground (arith, h))
step-Stuck n env (finished id) p h c v = ground arith
step-Stuck n env close_begins p h c v = absurd (ground (arith, h))
step-Stuck n env _ p h c v = ground arith

steps-Stuck :
    (n : ℕ) (es : List (Env × Event)) (p : Pool)
    → any is_call es ≡ false
    → any (opens n) es ≡ false
    → Stuck n p
    → Same p (steps es p)
unfolding steps
steps-Stuck n [] p h c v = record { runners = refl; waiters = refl; grants = refl }
steps-Stuck n ((env, e) ∷ es) p h c v =
    let (still, same) = step-Stuck n env e p (ground arith) (ground arith) v in
    let rest = steps-Stuck n es (step env e p) (ground arith) (ground arith) still in
    record {
      runners = rest.runners ∙ same.runners;
      waiters = rest.waiters ∙ same.waiters;
      grants = rest.grants ∙ same.grants;
    }

gated :
    (env : Env) (t : Task) (p : Pool)
    → take_last t.task_environment p.idle_runners ≡ none
    → in_flight_count p < p.max_workers
    → env.can_spawn (in_flight_count p) ≡ false
    → acquire_runner env t p
      ≡ record p { gate_polls = true; slot_waiters = p.slot_waiters ++ t ∷ [] }
unfolding acquire_runner acquire_loop claim_slot park
gated env t p miss room c = ground arith

-- Suppose that a pool that is not closing has only idle runners in flight, none with the task's
-- environment and fewer than `maxWorkers`, that no woken caller has still to resume, and that the memory
-- gate refuses another worker. Then the call waits, and however the run goes on, with any events but a
-- new call or `close`: as long as the gate refuses, the call has no runner, it stands where it stood
-- among the waiters, and no idle runner is stopped to free memory for it.
pub gate_stall :
    (es : List (Env × Event)) (env : Env) (t : Task) (p : Pool)
    → (p.is_closing || p.is_closed) ≡ false
    → p.active_runners ≡ []
    → p.stopping_runners ≡ []
    → p.woken ≡ []
    → take_last t.task_environment p.idle_runners ≡ none
    → length p.idle_runners < p.max_workers
    → env.can_spawn (length p.idle_runners) ≡ false
    → any is_call es ≡ false
    → any (opens (length p.idle_runners)) es ≡ false
    → ((steps es (step env (dispatch t) p)).grants ≡ p.grants)
      × ((steps es (step env (dispatch t) p)).slot_waiters ≡ p.slot_waiters ++ t ∷ [])
      × ((steps es (step env (dispatch t) p)).idle_runners ≡ p.idle_runners)
gate_stall es env t p o a s w miss room c h g =
    let parked : Pool = record p { gate_polls = true; slot_waiters = p.slot_waiters ++ t ∷ [] } in
    let start : step env (dispatch t) p ≡ parked =
      unfold step begin_dispatch in
      rw o (gated env t p miss (ground arith) (ground (arith, c, a, s))) in
    let same =
      steps-Stuck (length p.idle_runners) es parked h g
        (record { open_pool = o; no_active = a; no_stopping = s; no_woken = w; idle = refl }) in
    rw start (same.grants, same.waiters, same.runners)
