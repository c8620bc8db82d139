-- ===== src/Pool/Scheduler/Closing.antt =====
-- What `close` of pool.ts promises to later callers.
use rstest.Prelude.{
  ℕ, ◌≡◌, ◌∙◌, refl, Bool, true, false, ◌||◌, List, [], ◌∷◌, ◌++◌, arith, count_if,
}
use rstest.Pool.Scheduler.State.{Task, Grant, Pool, Env}
use rstest.Pool.Scheduler.Step.{Event, finished, close_begins, step, steps}

abbrev pub is_runner_grant : Task × Grant → Bool
is_runner_grant (t, Grant.reused w) = true
is_runner_grant (t, Grant.spawned w) = true
is_runner_grant (t, _) = false

-- The calls that were given a runner.
abbrev pub runner_grants : Pool → ℕ
runner_grants p = count_if is_runner_grant p.grants

abbrev pub shut : Pool → Bool
shut p = p.is_closing || p.is_closed

step-shut :
    (env : Env) (e : Event) (p : Pool)
    → shut p ≡ true
    → (shut (step env e p) ≡ true) × (runner_grants (step env e p) ≡ runner_grants p)
unfolding step
step-shut env (finished w) p h = ground arith
step-shut env _ p h = ground arith

steps-shut :
    (es : List (Env × Event)) (p : Pool)
    → shut p ≡ true
    → (shut (steps es p) ≡ true) × (runner_grants (steps es p) ≡ runner_grants p)
unfolding steps
steps-shut [] p h = (h, refl)
steps-shut ((env, e) ∷ es) p h =
    let (still, same) = step-shut env e p h in
    let (later, kept) = steps-shut es (step env e p) still in (later, kept ∙ same)

-- `close` wakes every parked caller, and from then on no call is ever given a runner: neither the
-- woken callers nor later ones, whatever events follow.
pub close-final :
    (env : Env) (es : List (Env × Event)) (p : Pool)
    → p.is_closed ≡ false
    → ((step env close_begins p).slot_waiters ≡ [])
      × ((step env close_begins p).woken ≡ p.woken ++ p.slot_waiters)
      × (runner_grants (steps es (step env close_begins p)) ≡ runner_grants p)
      × (shut (steps es (step env close_begins p)) ≡ true)
close-final env es p h =
    let (still, same) = begun in
    let (later, kept) = steps-shut es (step env close_begins p) still in
    (woken.0, woken.1, kept ∙ same, later)
  where
    begun :
        (shut (step env close_begins p) ≡ true)
        × (runner_grants (step env close_begins p) ≡ runner_grants p)
    begun = unfold step in ground arith

    woken :
        ((step env close_begins p).slot_waiters ≡ [])
        × ((step env close_begins p).woken ≡ p.woken ++ p.slot_waiters)
    woken = unfold step in ground arith
