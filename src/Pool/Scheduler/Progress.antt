-- ===== src/Pool/Scheduler/Progress.antt =====
-- No caller of pool.ts waits with nothing left to wake it.
use rstest.Prelude.{
  ℕ, zero, suc, ◌<◌, ◌≡◌, ◌∙◌, refl, ◌⊎◌, Bool, true, false, ◌||◌, String, List, [], ◌∷◌, ◌++◌,
  Option, none, some, arith, length, Option-cases, inl, inr, Bool-cases, subst,
}
use rstest.Pool.Scheduler.Slots.{Inv, Capacity}
use rstest.Pool.Scheduler.Ids.{acquire_worker_id-full}
use rstest.Pool.Scheduler.Acquisition.{acquire_loop-ends, dispose_idle-Inv, dequeue-Inv}
use rstest.Pool.Scheduler.Capacity.{step-Inv, new-Inv, step-max, new-max}
use rstest.Pool.Scheduler.State.{
  Worker, Task, Pool, Env, new, find_worker, take_last, acquire_worker_id,
}
use rstest.Pool.Scheduler.Acquire.{
  dispose_runner_in_background, claim_slot, acquire_loop, acquire_runner, park, shed, spawn,
}
use rstest.Pool.Scheduler.Step.{
  Event, dispatch, resume, start_failed, finished, stopped, gate_poll, close_begins, close_ends,
  drain_errors, fallback, begin_dispatch, finish_task, fail_start, stop_settles,
  try_wake_gate_waiter, step, steps, resume_first, release_cleared,
}

abbrev nonempty {ℓ} : {A : Type ℓ} → List A → Bool
nonempty [] = false
nonempty (x ∷ xs) = true

-- Something is under way whose end wakes a waiter, or the gate's timer will.
abbrev pub is_busy : Pool → Bool
is_busy p =
    nonempty p.woken || nonempty p.active_runners || nonempty p.stopping_runners || p.gate_polls

pub record Progress (p : Pool) : Type 0 where
  pub shut_empty : (p.is_closing || p.is_closed) ≡ true → p.slot_waiters ≡ []
  pub alive : (p.slot_waiters ≡ []) ⊎ (is_busy p ≡ true)

nonempty-snoc {ℓ} : {A : Type ℓ} (x : A) (xs : List A) → nonempty (xs ++ x ∷ []) ≡ true
nonempty-snoc x [] = refl
nonempty-snoc x (y ∷ ys) = refl

abbrev shut : Pool → Bool
shut p = p.is_closing || p.is_closed

-- A call that is not refused leaves the pool busy and open.
abbrev Busy : Option Pool → Type 0
Busy none = Unit {0}
Busy (some p) = (is_busy p ≡ true) × (shut p ≡ false)

claim_slot-open : (env : Env) (t : Task) (p : Pool) → shut (claim_slot env t p) ≡ shut p
unfolding claim_slot park shed spawn
claim_slot-open env t p = ground arith

park-busy :
    (env : Env) (t : Task) (ws : List Worker) (p : Pool)
    → p.idle_runners ≡ ws
    → 0 < p.max_workers
    → p.is_closed ≡ false
    → Capacity p
    → is_busy (claim_slot env t p) ≡ true
unfolding claim_slot park shed spawn
park-busy env t [] p h m o v = elim (Option-cases (acquire_worker_id p.max_workers p.slot_in_use)) [
  | inl full ↦ ground (arith, acquire_worker_id-full p.max_workers p.slot_in_use full, v.sized o)
  | inr (id, free) ↦ ground (
    arith,
    nonempty-snoc {0} (record { worker_id = id; environment_key = t.task_environment })
        p.active_runners,
  )
]
park-busy env t (w ∷ ws) p h m o v =
    elim (Option-cases (acquire_worker_id p.max_workers p.slot_in_use)) [
      | inl full ↦ ground (
        arith,
        nonempty-snoc {0} w p.stopping_runners,
        acquire_worker_id-full p.max_workers p.slot_in_use full,
        v.sized o,
      )
      | inr (id, free) ↦ ground (
        arith,
        nonempty-snoc {0} w p.stopping_runners,
        nonempty-snoc {0} (record { worker_id = id; environment_key = t.task_environment })
            p.active_runners,
      )
    ]

acquire_loop-Busy :
    (n : ℕ) (env : Env) (t : Task) (p : Pool)
    → 0 < p.max_workers
    → shut p ≡ false
    → Inv p
    → Busy (acquire_loop n env t p)
unfolding acquire_loop
acquire_loop-Busy zero env t p m o v = tt
acquire_loop-Busy (suc n) env t p m o v =
    elim (Option-cases (take_last t.task_environment p.idle_runners)) [
      | inl fresh ↦
          rw (fresh, acquire_loop)
            (
              park-busy env t p.idle_runners p refl m (ground arith) v.capacity,
              claim_slot-open env t p ∙ o,
            )
      | inr ((w, rest), found) ↦ elim (Bool-cases (env.usable w)) [
        | inl good ↦
            rw (found, acquire_loop, good) (ground (arith, nonempty-snoc {0} w p.active_runners), o)
        | inr stale ↦
            rw (found, acquire_loop, stale)
              (acquire_loop-Busy n env t
                (dispose_runner_in_background w (record p { idle_runners = rest })) m o
                (dispose_idle-Inv t.task_environment w rest p found v))
      ]
    ]

acquire_runner-Progress :
    (env : Env) (t : Task) (p : Pool)
    → 0 < p.max_workers
    → shut p ≡ false
    → Inv p
    → Progress (acquire_runner env t p)
acquire_runner-Progress env t p m o v =
    let b =
      subst Busy (acquire_loop-ends env t p)
        (acquire_loop-Busy (suc (length p.idle_runners)) env t p m o v) in
    record { shut_empty = λ s. cc; alive = inr b.0 }

resume_first-Progress :
    (env : Env) (ts : List Task) (p : Pool)
    → p.woken ≡ ts
    → 0 < p.max_workers
    → Inv p
    → Progress p
    → Progress (resume_first env ts p)
unfolding resume_first
resume_first-Progress env [] p h m v w = w
resume_first-Progress env (t ∷ ts) p h m v w = elim (Bool-cases (shut p)) [
  | inl closing ↦ rw (closing, resume_first) (ground arith)
  | inr up ↦
      rw (up, resume_first)
        (acquire_runner-Progress env t (record p { woken = ts }) m up (dequeue-Inv ts p v))
]

module _ (p : Pool) (v : Progress p) where
  release_cleared-Progress : (w : ℕ) → Progress (release_cleared w p)
  unfolding release_cleared
  release_cleared-Progress w = ground arith

  finish_task-Progress :
      (ts : List Task) (env : Env) (w : ℕ) → p.slot_waiters ≡ ts → Progress (finish_task env w p)
  unfolding finish_task
  finish_task-Progress [] env w h = ground arith
  finish_task-Progress (t ∷ ts) env w h = elim (Option-cases (find_worker w p.active_runners)) [
    | inl missing ↦ rw (missing, finish_task) (release_cleared-Progress w)
    | inr (x, found) ↦
        ground (arith, nonempty-snoc {0} t p.woken, nonempty-snoc {0} x p.stopping_runners)
  ]

  fail_start-Progress : (w : ℕ) → Progress (fail_start w p)
  unfolding fail_start
  fail_start-Progress w = elim (Option-cases (find_worker w p.active_runners)) [
    | inl missing ↦ rw (missing, fail_start) (release_cleared-Progress w)
    | inr (x, found) ↦ ground (arith, nonempty-snoc {0} x p.stopping_runners)
  ]

  stop_settles-Progress :
      (ts : List Task) (w : ℕ) (error : Option String)
      → p.slot_waiters ≡ ts
      → Progress (stop_settles w error p)
  unfolding stop_settles
  stop_settles-Progress [] w error h = ground arith
  stop_settles-Progress (t ∷ ts) w error h = ground (arith, nonempty-snoc {0} t p.woken)

  poll-Progress :
      (ts : List Task) (env : Env) → p.slot_waiters ≡ ts → Progress (try_wake_gate_waiter env p)
  unfolding try_wake_gate_waiter
  poll-Progress [] env h = ground arith
  poll-Progress (t ∷ ts) env h = ground (arith, nonempty-snoc {0} t p.woken)

step-Progress :
    (env : Env) (e : Event) (p : Pool)
    → 0 < p.max_workers
    → Inv p
    → Progress p
    → Progress (step env e p)
unfolding step
step-Progress env (dispatch t) p m i v = elim (Bool-cases (shut p)) [
  | inl closing ↦ rw (closing, begin_dispatch) (ground arith)
  | inr up ↦ rw (up, begin_dispatch) (acquire_runner-Progress env t p m up i)
]
step-Progress env resume p m i v = resume_first-Progress env p.woken p refl m i v
step-Progress env (start_failed w) p m i v = fail_start-Progress p v w
step-Progress env (finished w) p m i v = finish_task-Progress p v p.slot_waiters env w refl
step-Progress env (stopped w error) p m i v = stop_settles-Progress p v p.slot_waiters w error refl
step-Progress env gate_poll p m i v = ground (arith, poll-Progress p v p.slot_waiters env refl)
step-Progress env close_begins p m i v = ground arith
step-Progress env (close_ends errors) p m i v = ground arith
step-Progress env drain_errors p m i v = ground arith
step-Progress env (fallback key) p m i v = ground arith

steps-Progress :
    (es : List (Env × Event)) (p : Pool)
    → 0 < p.max_workers
    → Inv p
    → Progress p
    → Progress (steps es p)
unfolding steps
steps-Progress [] p m i v = v
steps-Progress ((env, e) ∷ es) p m i v =
    steps-Progress es (step env e p) (omega (arith, step-max env e p)) (step-Inv env e p i)
      (step-Progress env e p m i v)

new-Progress : (max min : ℕ) (isolate : Bool) → Progress (new max min isolate)
unfolding new
new-Progress max min isolate = ground arith

-- Along every run of a pool with at least one worker, whenever a caller is parked, a woken caller is
-- still to resume, a runner is active or stopping, or the gate's timer polls; and once the pool is
-- closing no caller is parked.
pub run-Progress :
    (max min : ℕ) (isolate : Bool) (es : List (Env × Event))
    → 0 < max
    → Progress (steps es (new max min isolate))
run-Progress max min isolate es h =
    steps-Progress es (new max min isolate) (omega (arith, new-max max min isolate))
      (new-Inv max min isolate) (new-Progress max min isolate)
