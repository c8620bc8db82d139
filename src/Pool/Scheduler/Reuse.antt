-- ===== src/Pool/Scheduler/Reuse.antt =====
-- Which idle runner of pool.ts serves a task.
use text.Mathlib.TextEquality.{eq_iff}
use rstest.Prelude.{
  ℕ, zero, suc, ◌≡◌, refl, ◌⊎◌, Bool, true, false, ◌||◌, ap, if◌then◌else◌, String, List, [], ◌∷◌,
  ◌++◌, Option, none, some, arith, length, Option-cases, inl, inr, Bool-cases, subst, All,
}
use rstest.Pool.Scheduler.Acquisition.{acquire_loop-ends}
use rstest.Pool.Scheduler.State.{holds}
use rstest.Pool.Scheduler.State.{Worker, Task, Grant, Pool, Env, new, take_last}
use rstest.Pool.Scheduler.Acquire.{
  grant, dispose_runner_in_background, claim_slot, acquire_loop, acquire_runner, park, shed, spawn,
}
use rstest.Pool.Scheduler.Step.{
  Event, dispatch, resume, finished, begin_dispatch, step, steps, resume_first,
}

abbrev Misses : String → Worker → Type 0
Misses key w = holds key w ≡ false

-- The last worker that holds the environment, split off; `none` just when there is none.
abbrev pub LastMatch : String → List Worker → Option (Worker × List Worker) → Type 0
LastMatch key ws none = All (Misses key) ws
LastMatch key ws (some (w, rest)) =
    (before : List Worker) × (after : List Worker) × (ws ≡ before ++ w ∷ after)
    × (rest ≡ before ++ after)
    × (w.environment_key ≡ key)
    × All (Misses key) after

-- The search of `acquireRunner` takes the idle runner of the task's environment that was returned
-- last, keeps the order of the others, and fails only if none of them holds that environment.
pub take_last-LastMatch : (key : String) (ws : List Worker) → LastMatch key ws (take_last key ws)
unfolding take_last
take_last-LastMatch key [] = tt
take_last-LastMatch key (w ∷ ws) =
    more (take_last key ws) (take_last-LastMatch key ws) (holds key w) refl
  where
    more :
        (r : Option (Worker × List Worker))
        → LastMatch key ws r
        → (b : Bool) → holds key w ≡ b
        → LastMatch key (w ∷ ws) (elim r [
          | some (found, rest) ↦ some (found, w ∷ rest)
          | none ↦ if b then some (w, ws) else none
        ])
    more none m true h = ([], ws, refl, refl, (eq_iff w.environment_key key).0 h, m)
    more none m false h = (h, m)
    more (some (found, rest)) (before, after, split, kept, same, m) b h =
        (w ∷ before, after, ap (◌∷◌ w) split, ap (◌∷◌ w) kept, same, m)

abbrev pub Matches : Task × Grant → Type 0
Matches (t, Grant.reused w) = w.environment_key ≡ t.task_environment
Matches (t, _) = Unit {0}

abbrev pub is_reuse : Task × Grant → Bool
is_reuse (t, Grant.reused w) = true
is_reuse (t, _) = false

pub record Policy (p : Pool) : Type 0 where
  pub matched : All Matches p.grants
  pub isolated :
      (p.isolate ≡ false) ⊎ ((p.idle_runners ≡ []) × All (λ g. is_reuse g ≡ false) p.grants)

claim_slot-Policy : (env : Env) (t : Task) (p : Pool) → Policy p → Policy (claim_slot env t p)
unfolding claim_slot park shed spawn
claim_slot-Policy env t p v = ground arith

reuse-Policy :
    (t : Task) (w : Worker) (rest : List Worker) (p : Pool)
    → take_last t.task_environment p.idle_runners ≡ some (w, rest)
    → Policy p
    → Policy (
        grant t
          (Grant.reused w)
          (record p { idle_runners = rest; active_runners = p.active_runners ++ w ∷ [] }))
unfolding take_last
reuse-Policy t w rest p h v = ground (
  arith,
  subst (LastMatch t.task_environment p.idle_runners) h
      (take_last-LastMatch t.task_environment p.idle_runners),
)

stale-Policy :
    (key : String) (w : Worker) (rest : List Worker) (p : Pool)
    → take_last key p.idle_runners ≡ some (w, rest)
    → Policy p
    → Policy (dispose_runner_in_background w (record p { idle_runners = rest }))
unfolding dispose_runner_in_background take_last
stale-Policy key w rest p h v = ground arith

abbrev Holds : Option Pool → Type 0
Holds none = Unit {0}
Holds (some p) = Policy p

acquire_loop-Policy :
    (n : ℕ) (env : Env) (t : Task) (p : Pool) → Policy p → Holds (acquire_loop n env t p)
unfolding acquire_loop
acquire_loop-Policy zero env t p v = tt
acquire_loop-Policy (suc n) env t p v =
    elim (Option-cases (take_last t.task_environment p.idle_runners)) [
      | inl fresh ↦ rw (fresh, acquire_loop) (claim_slot-Policy env t p v)
      | inr ((w, rest), found) ↦ elim (Bool-cases (env.usable w)) [
        | inl good ↦ rw (found, acquire_loop, good) (reuse-Policy t w rest p found v)
        | inr stale ↦
            rw (found, acquire_loop, stale)
              (acquire_loop-Policy n env t _ (stale-Policy t.task_environment w rest p found v))
      ]
    ]

acquire_runner-Policy :
    (env : Env) (t : Task) (p : Pool) → Policy p → Policy (acquire_runner env t p)
acquire_runner-Policy env t p v =
    subst Holds (acquire_loop-ends env t p)
      (acquire_loop-Policy (suc (length p.idle_runners)) env t p v)

resume_first-Policy :
    (env : Env) (ts : List Task) (p : Pool) → Policy p → Policy (resume_first env ts p)
unfolding resume_first
resume_first-Policy env [] p v = v
resume_first-Policy env (t ∷ ts) p v = elim (Bool-cases (p.is_closing || p.is_closed)) [
  | inl closing ↦ rw (closing, resume_first) (ground arith)
  | inr up ↦
      rw (up, resume_first)
        (acquire_runner-Policy env t (record p { woken = ts })
          (record { matched = v.matched; isolated = v.isolated }))
]

step-Policy : (env : Env) (e : Event) (p : Pool) → Policy p → Policy (step env e p)
unfolding step
step-Policy env (dispatch t) p v = elim (Bool-cases (p.is_closing || p.is_closed)) [
  | inl closing ↦ rw (closing, begin_dispatch) (ground arith)
  | inr up ↦ rw (up, begin_dispatch) (acquire_runner-Policy env t p v)
]
step-Policy env resume p v = resume_first-Policy env p.woken p v
step-Policy env (finished w) p v = ground arith
step-Policy env _ p v = ground arith

steps-Policy : (es : List (Env × Event)) (p : Pool) → Policy p → Policy (steps es p)
unfolding steps
steps-Policy [] p v = v
steps-Policy ((env, e) ∷ es) p v = steps-Policy es (step env e p) (step-Policy env e p v)

-- Along every run, a reused runner holds the environment of the task that it is given to; and a pool
-- with `isolate` keeps no idle runner and reuses none.
pub run-Policy :
    (max min : ℕ) (isolate : Bool) (es : List (Env × Event))
    → Policy (steps es (new max min isolate))
unfolding new
run-Policy max min isolate es = steps-Policy es (new max min isolate) (ground arith)
