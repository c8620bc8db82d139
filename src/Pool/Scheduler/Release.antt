-- ===== src/Pool/Scheduler/Release.antt =====
-- `releaseRunner`, a failed start and a settled stop of pool.ts keep the invariant of the slots.
use rstest.Prelude.{ℕ, ◌≡◌, String, Option, some, arith, Option-cases, inl, inr}
use rstest.Pool.Scheduler.State.{Worker, Pool, Env, find_worker, delete}
use rstest.Pool.Scheduler.Step.{
  release_runner, finish_task, fail_start, stop_settles, fail_found, stop_found, release_cleared,
}
use rstest.Pool.Scheduler.Ids.{
  workers-snoc, length-snoc, workers-delete, length-delete, uses-release, length-release,
  find_worker-some,
}
use rstest.Pool.Scheduler.Slots.{Slots, Capacity, Inv}

module _ (a id : ℕ) (w : Worker) (p : Pool) (v : Slots a p) where
  finish-Slots :
      (env : Env)
      → find_worker id p.active_runners ≡ some w
      → Slots a (release_runner env w (record p { active_runners = delete id p.active_runners }))
  unfolding release_runner
  finish-Slots env h = ground (
    arith,
    find_worker-some id p.active_runners w h,
    workers-delete a id p.active_runners,
    workers-snoc a w p.idle_runners,
    workers-snoc a w p.stopping_runners,
  )

  fail-Slots : find_worker id p.active_runners ≡ some w → Slots a (fail_found id (some w) p)
  unfolding fail_found
  fail-Slots h = ground (
    arith,
    find_worker-some id p.active_runners w h,
    workers-delete a id p.active_runners,
    workers-snoc a w p.stopping_runners,
  )

  stop-Slots :
      (error : Option String)
      → find_worker id p.stopping_runners ≡ some w
      → Slots a (stop_found id error (some w) p)
  unfolding stop_found
  stop-Slots error h = ground (
    arith,
    find_worker-some id p.stopping_runners w h,
    workers-delete a id p.stopping_runners,
    uses-release a id p.slot_in_use,
  )

module _ (id : ℕ) (w : Worker) (p : Pool) (s : Slots id p) (v : Capacity p) where
  finish-Capacity :
      (env : Env)
      → find_worker id p.active_runners ≡ some w
      → Capacity (release_runner env w (record p { active_runners = delete id p.active_runners }))
  unfolding release_runner
  finish-Capacity env h = ground (
    arith,
    find_worker-some id p.active_runners w h,
    length-delete id p.active_runners,
    length-snoc w p.idle_runners,
    length-snoc w p.stopping_runners,
  )

  fail-Capacity : find_worker id p.active_runners ≡ some w → Capacity (fail_found id (some w) p)
  unfolding fail_found
  fail-Capacity h = ground (
    arith,
    find_worker-some id p.active_runners w h,
    length-delete id p.active_runners,
    length-snoc w p.stopping_runners,
  )

  stop-Capacity :
      (error : Option String)
      → find_worker id p.stopping_runners ≡ some w
      → Capacity (stop_found id error (some w) p)
  unfolding stop_found
  stop-Capacity error h = ground (
    arith,
    find_worker-some id p.stopping_runners w h,
    length-delete id p.stopping_runners,
    length-release id p.slot_in_use,
  )

-- What a call does with a runner that `close` has cleared concerns a closed pool only.
release_cleared-Inv : (id : ℕ) (p : Pool) → Inv p → Inv (release_cleared id p)
unfolding release_cleared
release_cleared-Inv id p v = record {
  slots = λ a. let s = v.slots a in ground arith;
  capacity = let c = v.capacity in ground arith;
}

pub finish_task-Inv : (env : Env) (id : ℕ) (p : Pool) → Inv p → Inv (finish_task env id p)
unfolding finish_task
finish_task-Inv env id p v = elim (Option-cases (find_worker id p.active_runners)) [
  | inl missing ↦ rw (missing, finish_task) (release_cleared-Inv id p v)
  | inr (w, found) ↦
      rw (found, finish_task)
        (record {
          slots = λ a. finish-Slots a id w p (v.slots a) env found;
          capacity = finish-Capacity id w p (v.slots id) v.capacity env found;
        })
]

pub fail_start-Inv : (id : ℕ) (p : Pool) → Inv p → Inv (fail_start id p)
unfolding fail_start
fail_start-Inv id p v = elim (Option-cases (find_worker id p.active_runners)) [
  | inl missing ↦ rw (missing, fail_start) (release_cleared-Inv id p v)
  | inr (w, found) ↦
      rw (found, fail_start)
        (record {
          slots = λ a. fail-Slots a id w p (v.slots a) found;
          capacity = fail-Capacity id w p (v.slots id) v.capacity found;
        })
]

pub stop_settles-Inv :
    (id : ℕ) (error : Option String) (p : Pool) → Inv p → Inv (stop_settles id error p)
unfolding stop_settles
stop_settles-Inv id error p v = elim (Option-cases (find_worker id p.stopping_runners)) [
  | inl missing ↦ rw (missing, stop_settles) v
  | inr (w, found) ↦
      rw (found, stop_settles)
        (record {
          slots = λ a. stop-Slots a id w p (v.slots a) error found;
          capacity = stop-Capacity id w p (v.slots id) v.capacity error found;
        })
]
