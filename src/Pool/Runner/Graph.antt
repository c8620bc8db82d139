-- ===== src/Pool/Runner/Graph.antt =====
-- The state diagram in the comment above the class of poolRunner.ts.
use rstest.Prelude.{
  ap, ◌∙◌, ℕ, String, ◌≡◌, refl, inl, inr, Bool, true, false, List, [], ◌∷◌, Option, none, some,
  arith, Bool-cases,
}
use rstest.Pool.Runner.State.{
  Exit, RunnerState, idle, starting, started, start_failure, stopping, stopped, Failure, Message,
  WorkerResponse, CleanupWaiter, Phase, Op, start_op, stop_op, stopper, fixtures, Runner, new,
}
use rstest.Pool.Runner.Handlers.{handle_exit, handle_response}
use rstest.Pool.Runner.Lifecycle.{
  SendError, begin, wake_start, wake_cleanup_waiter, wake_waiters, wake_cleanup, wake_stop, wake,
  is_resting, run_queue, settle,
}
use rstest.Pool.Runner.Step.{
  exit, Event, message, worker_started, worker_start_failed, worker_stopped, worker_stop_failed,
  handle, step, steps, worker_answers,
}
use rstest.Pool.Runner.Departure.{handle_exit-departed}
use rstest.Pool.Runner.Invariant.{
  Between, run-Between, Handled, handle-Handled, wake-Between, wake_start-Between, begin-Between,
  wake_cleanup_waiter-Between, quiet-Handled,
}

-- The transitions: those of the comment, and the exit of the worker from any state.
infix 40 ◌⟶◌ ◌⟶*◌
pub data ◌⟶◌ : RunnerState → RunnerState → Type 0 where
  begins : idle ⟶ starting
  acknowledges : starting ⟶ started
  fails : starting ⟶ start_failure
  stops_started : started ⟶ stopping
  stops_failed : start_failure ⟶ stopping
  exits : (s : RunnerState) → s ⟶ stopped

pub data ◌⟶*◌ : RunnerState → RunnerState → Type 0 where
  here : {s : RunnerState} → s ⟶* s
  next : {s t u : RunnerState} → s ⟶ t → t ⟶* u → s ⟶* u

abbrev reaches : RunnerState → RunnerState → Bool
reaches idle t = true
reaches starting idle = false
reaches starting t = true
reaches started started = true
reaches started stopping = true
reaches started stopped = true
reaches start_failure start_failure = true
reaches start_failure stopping = true
reaches start_failure stopped = true
reaches stopping stopping = true
reaches stopping stopped = true
reaches stopped stopped = true
reaches _ _ = false

reaches-⟶* : (s t : RunnerState) → reaches s t ≡ true → s ⟶* t
reaches-⟶* idle idle h = here
reaches-⟶* idle starting h = search (here, next, begins)
reaches-⟶* idle started h = next begins (next acknowledges here)
reaches-⟶* idle start_failure h = next begins (next fails here)
reaches-⟶* idle stopping h = next begins (next acknowledges (next stops_started here))
reaches-⟶* starting starting h = here
reaches-⟶* starting started h = next acknowledges here
reaches-⟶* starting start_failure h = next fails here
reaches-⟶* starting stopping h = next acknowledges (next stops_started here)
reaches-⟶* started started h = here
reaches-⟶* started stopping h = next stops_started here
reaches-⟶* start_failure start_failure h = here
reaches-⟶* start_failure stopping h = next stops_failed here
reaches-⟶* stopping stopping h = here
reaches-⟶* s stopped h = next (exits s) here
reaches-⟶* _ _ h = cc

trans : (s t u : RunnerState) → reaches s t ≡ true → reaches t u ≡ true → reaches s u ≡ true
trans s t u h k = ground arith

handle_response-reaches :
    (m : WorkerResponse) (r : Runner) → reaches r.state (handle_response m r).state ≡ true
unfolding handle_response
handle_response-reaches WorkerResponse.started r = ground arith
handle_response-reaches _ r = ground arith

worker_answers-reaches :
    (s : SendError) (e : Event) (p : Phase) (r : Runner)
    → r.phase ≡ p
    → Between r
    → reaches r.state (worker_answers s e p r).state ≡ true
unfolding worker_answers
worker_answers-reaches s worker_started Phase.start_worker r h v = ground arith
worker_answers-reaches s _ _ r h v = ground arith

to_stopped : (s : RunnerState) → reaches s stopped ≡ true
to_stopped s = ground arith

exit-reaches : (x : Exit) (r : Runner) → reaches r.state (handle_exit x r).state ≡ true
exit-reaches x r = ap (λ q. reaches r.state q.state) (handle_exit-departed x r) ∙ to_stopped r.state

handle-reaches :
    (s : SendError) (e : Event) (r : Runner)
    → Between r
    → reaches r.state (handle s e r).state ≡ true
unfolding handle
handle-reaches s (message (Message.response_envelope m)) r v = handle_response-reaches m r
handle-reaches s (exit x) r v = exit-reaches x r
handle-reaches s worker_started r v = worker_answers-reaches s worker_started r.phase r refl v
handle-reaches s (worker_start_failed e) r v =
    worker_answers-reaches s (worker_start_failed e) r.phase r refl v
handle-reaches s worker_stopped r v = worker_answers-reaches s worker_stopped r.phase r refl v
handle-reaches s (worker_stop_failed e) r v =
    worker_answers-reaches s (worker_stop_failed e) r.phase r refl v
handle-reaches s _ r v = ground arith

begin-reaches :
    (s : SendError) (op : Op) (r : Runner)
    → is_resting r.phase ≡ true
    → Between r
    → reaches r.state (begin s op r).state ≡ true
unfolding begin
begin-reaches s start_op r q v = ground arith
begin-reaches s (stop_op force) r q v = ground arith

wake_start-reaches : (r : Runner) → Handled r → reaches r.state (wake_start r).state ≡ true
unfolding wake_start
wake_start-reaches r v = ground arith

wake_stop-reaches : (r : Runner) → reaches r.state (wake_stop r).state ≡ true
unfolding wake_stop
wake_stop-reaches r = ground arith

waiter-reaches :
    (o : Option Failure) (w : CleanupWaiter) (r : Runner)
    → Between r
    → reaches r.state (wake_cleanup_waiter o w r).state ≡ true
unfolding wake_cleanup_waiter
waiter-reaches o stopper r v = ground arith
waiter-reaches o fixtures r v = ground arith

wake_waiters-reaches :
    (o : Option Failure) (ws : List CleanupWaiter) (r : Runner)
    → Between r
    → reaches r.state (wake_waiters o ws r).state ≡ true
unfolding wake_waiters
wake_waiters-reaches o [] r v = ground arith
wake_waiters-reaches o (w ∷ ws) r v =
    let r' = wake_cleanup_waiter o w r in
    trans r.state r'.state (wake_waiters o ws r').state (waiter-reaches o w r v)
      (wake_waiters-reaches o ws r' (wake_cleanup_waiter-Between o w r v))

wake_cleanup-reaches :
    (o : Option (Option Failure)) (r : Runner)
    → Between r
    → reaches r.state (wake_cleanup o r).state ≡ true
unfolding wake_cleanup
wake_cleanup-reaches none r v = ground arith
wake_cleanup-reaches (some o) r v = wake_waiters-reaches o r.cleanup_waiters _ (ground arith)

wake-reaches : (r : Runner) → Handled r → reaches r.state (wake r).state ≡ true
unfolding wake
wake-reaches r v =
    let r₁ = wake_start r in
    let r₂ = wake_cleanup r₁.cleanup_outcome r₁ in
    trans r.state r₁.state (wake_stop r₂).state (wake_start-reaches r v) (
      trans r₁.state r₂.state (wake_stop r₂).state
        (wake_cleanup-reaches r₁.cleanup_outcome r₁ (wake_start-Between r v))
        (wake_stop-reaches r₂))

run_queue-reaches :
    (s : SendError) (ops : List Op) (r : Runner)
    → is_resting r.phase ≡ true
    → Between r
    → reaches r.state (run_queue s ops r).state ≡ true
unfolding run_queue
run_queue-reaches s [] r q v = ground arith
run_queue-reaches s (op ∷ ops) r q v = elim (Bool-cases (is_resting r'.phase)) [
  | inl rests ↦ rw rests (
      trans r.state r'.state (run_queue s ops r').state far
        (run_queue-reaches s ops r' rests (wake-Between _ begun)))
  | inr waits ↦ rw waits far
]
  where
    b : Runner
    b = begin s op r

    r' : Runner
    r' = wake b

    begun : Handled b
    begun = quiet-Handled b (begin-Between s op r q v)

    far : reaches r.state r'.state ≡ true
    far = trans r.state b.state r'.state (begin-reaches s op r q v) (wake-reaches b begun)

settle-reaches :
    (s : SendError) (r : Runner) → Handled r → reaches r.state (settle s r).state ≡ true
unfolding settle
settle-reaches s r v = elim (Bool-cases (is_resting (wake r).phase)) [
  | inl rests ↦ rw rests (
      trans r.state (wake r).state (run_queue s (wake r).queue (wake r)).state (wake-reaches r v)
        (run_queue-reaches s (wake r).queue (wake r) rests (wake-Between r v)))
  | inr waits ↦ rw waits (wake-reaches r v)
]

step-⟶* : (s : SendError) (e : Event) (r : Runner) → Between r → r.state ⟶* (step s e r).state
unfolding step
step-⟶* s e r v =
    let h = handle s e r in
    reaches-⟶* r.state (settle s h).state (
      trans r.state h.state (settle s h).state (handle-reaches s e r v)
        (settle-reaches s h (handle-Handled s e r v)))

-- Along every run, each event moves the state along arrows of the diagram, with the exit of the
-- worker from any state to `stopped`: the runner never goes back.
pub run_transitions :
    (s : SendError) (before : List Event) (e : Event) (id : ℕ) (key : String)
    → let r = steps s before (new id key) in r.state ⟶* (step s e r).state
run_transitions s before e id key =
    step-⟶* s e (steps s before (new id key)) (run-Between s before id key)
