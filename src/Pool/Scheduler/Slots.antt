-- ===== src/Pool/Scheduler/Slots.antt =====
-- The invariant of the slots of the pool of pool.ts, and `acquireRunner` up to its loop.
use rstest.Prelude.{
  ℕ, ◌+◌, ◌≤◌, ◌<◌, ◌≡◌, refl, Bool, true, false, String, List, [], ◌∷◌, ◌++◌, some, arith, length,
  Option-cases, inl, inr, All,
}
use rstest.Pool.Scheduler.State.{
  Worker, Task, Grant, reused, no_free_id, Pool, Env, in_flight_count, acquire_worker_id, take_last,
}
use rstest.Pool.Scheduler.Acquire.{
  grant, dispose_runner_in_background, shed, park, spawn, claim_slot,
}
use rstest.Pool.Scheduler.Ids.{
  workers, uses, workers-snoc, length-snoc, take_last-Taken, acquire_worker_id-full,
  acquire_worker_id-free,
}

-- The id `a`: in use just when a worker in flight has it, by one worker, and within bounds.
pub record Slots (a : ℕ) (p : Pool) : Type 0 where
  pub tally :
      p.is_closed ≡ false
      → uses a p.slot_in_use
        ≡ workers a p.active_runners + workers a p.idle_runners + workers a p.stopping_runners
  pub once : uses a p.slot_in_use ≤ 1
  pub range : 0 < uses a p.slot_in_use → (1 ≤ a) × (a ≤ p.max_workers)

abbrev pub is_no_free_id : Task × Grant → Bool
is_no_free_id (t, no_free_id) = true
is_no_free_id (t, _) = false

pub record Capacity (p : Pool) : Type 0 where
  pub sized : p.is_closed ≡ false → length p.slot_in_use ≡ in_flight_count p
  pub bounded : p.is_closed ≡ false → in_flight_count p ≤ p.max_workers
  pub served : All (λ g. is_no_free_id g ≡ false) p.grants

pub record Inv (p : Pool) : Type 0 where
  pub slots : (a : ℕ) → Slots a p
  pub capacity : Capacity p

pub dispose_idle-Slots :
    (a : ℕ) (key : String) (w : Worker) (rest : List Worker) (p : Pool)
    → take_last key p.idle_runners ≡ some (w, rest)
    → Slots a p
    → Slots a (dispose_runner_in_background w (record p { idle_runners = rest }))
unfolding dispose_runner_in_background
dispose_idle-Slots a key w rest p h v =
    ground
      (arith, workers-snoc a w p.stopping_runners, take_last-Taken a key p.idle_runners w rest h)

pub dispose_idle-Capacity :
    (key : String) (w : Worker) (rest : List Worker) (p : Pool)
    → take_last key p.idle_runners ≡ some (w, rest)
    → Capacity p
    → Capacity (dispose_runner_in_background w (record p { idle_runners = rest }))
unfolding dispose_runner_in_background
dispose_idle-Capacity key w rest p h v =
    ground (arith, length-snoc w p.stopping_runners, take_last-Taken 0 key p.idle_runners w rest h)

pub reuse-Slots :
    (a : ℕ) (t : Task) (key : String) (w : Worker) (rest : List Worker) (p : Pool)
    → take_last key p.idle_runners ≡ some (w, rest)
    → Slots a p
    → Slots a (
        grant t
          (reused w)
          (record p { idle_runners = rest; active_runners = p.active_runners ++ w ∷ [] }))
reuse-Slots a t key w rest p h v =
    ground (arith, workers-snoc a w p.active_runners, take_last-Taken a key p.idle_runners w rest h)

pub reuse-Capacity :
    (t : Task) (key : String) (w : Worker) (rest : List Worker) (p : Pool)
    → take_last key p.idle_runners ≡ some (w, rest)
    → Capacity p
    → Capacity (
        grant t
          (reused w)
          (record p { idle_runners = rest; active_runners = p.active_runners ++ w ∷ [] }))
reuse-Capacity t key w rest p h v =
    ground (arith, length-snoc w p.active_runners, take_last-Taken 0 key p.idle_runners w rest h)

shed-Slots :
    (a : ℕ) (ws : List Worker) (p : Pool) → p.idle_runners ≡ ws → Slots a p → Slots a (shed p)
unfolding shed
shed-Slots a [] p h v = ground arith
shed-Slots a (w ∷ ws) p h v = ground (arith, workers-snoc a w p.stopping_runners)

shed-Capacity : (ws : List Worker) (p : Pool) → p.idle_runners ≡ ws → Capacity p → Capacity (shed p)
unfolding shed
shed-Capacity [] p h v = ground arith
shed-Capacity (w ∷ ws) p h v = ground (arith, length-snoc w p.stopping_runners)

spawn-Slots : (a : ℕ) (t : Task) (p : Pool) → Slots a p → Slots a (spawn t p)
unfolding spawn
spawn-Slots a t p v = elim (Option-cases (acquire_worker_id p.max_workers p.slot_in_use)) [
  | inl full ↦ ground arith
  | inr (id, free) ↦ ground (
    arith,
    workers-snoc a (record { worker_id = id; environment_key = t.task_environment })
        p.active_runners,
    acquire_worker_id-free p.max_workers p.slot_in_use id free,
  )
]

-- Below the limit an id is always free.
spawn-Capacity :
    (t : Task) (p : Pool)
    → p.is_closed ≡ false
    → in_flight_count p < p.max_workers
    → Capacity p
    → Capacity (spawn t p)
unfolding spawn
spawn-Capacity t p o h v = elim (Option-cases (acquire_worker_id p.max_workers p.slot_in_use)) [
  | inl full ↦
      absurd (omega (arith, v.sized o, acquire_worker_id-full p.max_workers p.slot_in_use full))
  | inr (id, free) ↦ ground (
    arith,
    length-snoc (record { worker_id = id; environment_key = t.task_environment }) p.active_runners,
  )
]

pub claim_slot-Slots :
    (a : ℕ) (env : Env) (t : Task) (p : Pool) → Slots a p → Slots a (claim_slot env t p)
unfolding claim_slot park
claim_slot-Slots a env t p v =
    ground (arith, shed-Slots a p.idle_runners p refl v, spawn-Slots a t p v)

pub claim_slot-Capacity :
    (env : Env) (t : Task) (p : Pool)
    → p.is_closed ≡ false
    → Capacity p
    → Capacity (claim_slot env t p)
unfolding claim_slot park
claim_slot-Capacity env t p o v =
    ground (arith, shed-Capacity p.idle_runners p refl v, spawn-Capacity t p o)
