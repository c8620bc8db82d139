-- ===== src/Pool/Scheduler/Acquisition.antt =====
-- `acquireRunner` of pool.ts keeps the invariant of the slots, and gets to its next `await`.
use rstest.Prelude.{
  ℕ, zero, suc, ◌<◌, ◌≡◌, refl, false, ◌||◌, String, List, [], ◌∷◌, ◌++◌, Option, none, some, arith,
  length, Option-cases, inl, inr, Bool-cases,
}
use rstest.Pool.Scheduler.State.{Worker, Task, Grant, Pool, Env, take_last}
use rstest.Pool.Scheduler.Acquire.{
  grant, dispose_runner_in_background, claim_slot, acquire_loop, acquire_runner, or_same, park,
  shed, spawn,
}
use rstest.Pool.Scheduler.Step.{begin_dispatch, resume_first}
use rstest.Pool.Scheduler.Ids.{take_last-Taken}
use rstest.Pool.Scheduler.Slots.{
  Inv, dispose_idle-Slots, dispose_idle-Capacity, reuse-Slots, reuse-Capacity, claim_slot-Slots,
  claim_slot-Capacity,
}

pub dispose_idle-Inv :
    (key : String) (w : Worker) (rest : List Worker) (p : Pool)
    → take_last key p.idle_runners ≡ some (w, rest)
    → Inv p
    → Inv (dispose_runner_in_background w (record p { idle_runners = rest }))
dispose_idle-Inv key w rest p h v = record {
  slots = λ a. dispose_idle-Slots a key w rest p h (v.slots a);
  capacity = dispose_idle-Capacity key w rest p h v.capacity;
}

reuse-Inv :
    (t : Task) (key : String) (w : Worker) (rest : List Worker) (p : Pool)
    → take_last key p.idle_runners ≡ some (w, rest)
    → Inv p
    → Inv (
        grant t
          (Grant.reused w)
          (record p { idle_runners = rest; active_runners = p.active_runners ++ w ∷ [] }))
reuse-Inv t key w rest p h v = record {
  slots = λ a. reuse-Slots a t key w rest p h (v.slots a);
  capacity = reuse-Capacity t key w rest p h v.capacity;
}

claim_slot-Inv :
    (env : Env) (t : Task) (p : Pool) → p.is_closed ≡ false → Inv p → Inv (claim_slot env t p)
claim_slot-Inv env t p o v = record {
  slots = λ a. claim_slot-Slots a env t p (v.slots a);
  capacity = claim_slot-Capacity env t p o v.capacity;
}

-- What a round of the loop leaves, as far as it ends.
abbrev Holds : Option Pool → Type 0
Holds none = Unit {0}
Holds (some p) = Inv p

acquire_loop-Inv :
    (n : ℕ) (env : Env) (t : Task) (p : Pool)
    → p.is_closed ≡ false
    → Inv p
    → Holds (acquire_loop n env t p)
unfolding acquire_loop
acquire_loop-Inv zero env t p o v = tt
acquire_loop-Inv (suc n) env t p o v =
    elim (Option-cases (take_last t.task_environment p.idle_runners)) [
      | inl fresh ↦ rw (fresh, acquire_loop) (claim_slot-Inv env t p o v)
      | inr ((w, rest), found) ↦ elim (Bool-cases (env.usable w)) [
        | inl good ↦
            rw (found, acquire_loop, good) (reuse-Inv t t.task_environment w rest p found v)
        | inr stale ↦
            rw (found, acquire_loop, stale)
              (acquire_loop-Inv n env t
                (dispose_runner_in_background w (record p { idle_runners = rest })) o
                (dispose_idle-Inv t.task_environment w rest p found v))
      ]
    ]

acquire_runner-Inv :
    (env : Env) (t : Task) (p : Pool) → p.is_closed ≡ false → Inv p → Inv (acquire_runner env t p)
unfolding acquire_runner
acquire_runner-Inv env t p o v =
    held (acquire_loop (suc (length p.idle_runners)) env t p)
      (acquire_loop-Inv (suc (length p.idle_runners)) env t p o v)
  where
    held : (r : Option Pool) → Holds r → Inv (or_same p r)
    held none h = v
    held (some q) h = h

pub begin_dispatch-Inv : (env : Env) (t : Task) (p : Pool) → Inv p → Inv (begin_dispatch env t p)
unfolding begin_dispatch
begin_dispatch-Inv env t p v = elim (Bool-cases (p.is_closing || p.is_closed)) [
  | inl shut ↦
      rw (shut, begin_dispatch)
        (record {
          slots = λ a. let s = v.slots a in ground arith;
          capacity = let c = v.capacity in ground arith;
        })
  | inr up ↦ rw (up, begin_dispatch) (acquire_runner-Inv env t p (ground arith) v)
]

pub dequeue-Inv : (ts : List Task) (p : Pool) → Inv p → Inv (record p { woken = ts })
dequeue-Inv ts p v = record {
  slots = λ a. let s = v.slots a in ground arith;
  capacity = let c = v.capacity in ground arith;
}

refuse-Inv :
    (t : Task) (ts : List Task) (p : Pool)
    → Inv p
    → Inv (grant t Grant.pool_closed (record p { woken = ts }))
refuse-Inv t ts p v = record {
  slots = λ a. let s = v.slots a in ground arith;
  capacity = let c = v.capacity in ground arith;
}

pub resume_first-Inv : (env : Env) (ts : List Task) (p : Pool) → Inv p → Inv (resume_first env ts p)
unfolding resume_first
resume_first-Inv env [] p v = v
resume_first-Inv env (t ∷ ts) p v = elim (Bool-cases (p.is_closing || p.is_closed)) [
  | inl shut ↦ rw (shut, resume_first) (refuse-Inv t ts p v)
  | inr up ↦
      rw (up, resume_first)
        (acquire_runner-Inv env t (record p { woken = ts }) (ground arith) (dequeue-Inv ts p v))
]

-- Each round that goes on takes an idle runner away.
acquire_loop-total :
    (n : ℕ) (env : Env) (t : Task) (p : Pool)
    → length p.idle_runners < n
    → (q : Pool) × (acquire_loop n env t p ≡ some q) × (q.max_workers ≡ p.max_workers)
unfolding acquire_loop claim_slot dispose_runner_in_background park shed spawn
acquire_loop-total zero env t p h = elim h [ ]
acquire_loop-total (suc n) env t p h =
    elim (Option-cases (take_last t.task_environment p.idle_runners)) [
      | inl fresh ↦ (claim_slot env t p, rw (fresh, acquire_loop) refl, ground arith)
      | inr ((w, rest), found) ↦ elim (Bool-cases (env.usable w)) [
        | inl good ↦ (
          grant t (Grant.reused w)
              (record p { idle_runners = rest; active_runners = p.active_runners ++ w ∷ [] }),
          rw (found, acquire_loop, good) refl,
          refl,
        )
        | inr stale ↦
            rw (found, acquire_loop, stale)
              (acquire_loop-total n env t
                (dispose_runner_in_background w (record p { idle_runners = rest }))
                (omega (
                  arith,
                  (take_last-Taken 0 t.task_environment p.idle_runners w rest found).shorter,
                )))
      ]
    ]

-- Up to its next `await` the loop of `acquireRunner` has at most as many rounds as there are idle
-- runners and one more, so `acquire_runner` is its result.
pub acquire_loop-ends :
    (env : Env) (t : Task) (p : Pool)
    → acquire_loop (suc (length p.idle_runners)) env t p ≡ some (acquire_runner env t p)
unfolding acquire_runner
acquire_loop-ends env t p =
    let (q, ends, kept) = acquire_loop-total (suc (length p.idle_runners)) env t p (omega arith) in
    rw ends

pub acquire_runner-max :
    (env : Env) (t : Task) (p : Pool) → (acquire_runner env t p).max_workers ≡ p.max_workers
unfolding acquire_runner
acquire_runner-max env t p =
    let (q, ends, kept) = acquire_loop-total (suc (length p.idle_runners)) env t p (omega arith) in
    rw ends kept
