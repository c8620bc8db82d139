-- ===== src/Pool/Runner/Exit.antt =====
-- What the exit of the worker of poolRunner.ts leaves behind, then and ever after.
use rstest.Prelude.{
  subst, sym, refl, ap, ◌∙◌, ℕ, String, ◌≡◌, ◌⊎◌, inl, inr, Bool, true, false, List, [], ◌∷◌,
  Option, none, some, arith, Bool-cases,
}
use rstest.Pool.Runner.State.{
  RunnerState, Failure, Message, WorkerResponse, CleanupWaiter, Phase, Op, start_op, stop_op,
  stopper, fixtures, Runner, Exit, new,
}
use rstest.Pool.Runner.Handlers.{handle_response, handle_exit, exit_failure, is_stopping}
use rstest.Pool.Runner.Lifecycle.{
  SendError, begin, wake_start, wake_cleanup_waiter, wake_waiters, wake_cleanup, wake_stop, wake,
  is_resting, run_queue, settle,
}
use rstest.Pool.Runner.Step.{
  Event, message, exit, worker_started, worker_start_failed, worker_stopped, worker_stop_failed,
  handle, step, steps, worker_answers,
}
use rstest.Pool.Runner.Invariant.{
  Between, Handled, handle-Handled, step-Between, wake-Between, begin-Between, quiet-Handled,
  run-Between,
}
use rstest.Pool.Runner.Wakeups.{Awaits, step-Awaits, run-Awaits}
use rstest.Pool.Runner.Departure.{handle_exit-departed, with_rejection}

record Spent (r : Runner) : Type 0 where
  stopped : r.state ≡ RunnerState.stopped
  exited : r.exited ≡ true
  no_cleanup : r.cleanup_deferred ≡ false
  no_rpc : r.rpc ≡ false

exit-Spent : (x : Exit) (r : Runner) → Between r → Spent (handle_exit x r)
exit-Spent x r v =
    subst Spent (sym (handle_exit-departed x r))
      (record { stopped = refl; exited = refl; no_cleanup = refl; no_rpc = refl })

handle_response-Spent :
    (m : WorkerResponse) (r : Runner) → Between r → Spent r → Spent (handle_response m r)
unfolding handle_response
handle_response-Spent WorkerResponse.started r v w = ground arith
handle_response-Spent _ r v w = ground arith

worker_answers-Spent :
    (s : SendError) (e : Event) (p : Phase) (r : Runner) → Spent r → Spent (worker_answers s e p r)
unfolding worker_answers
worker_answers-Spent s worker_started Phase.start_worker r v = ground arith
worker_answers-Spent s _ _ r v = ground arith

handle-Spent : (s : SendError) (e : Event) (r : Runner) → Between r → Spent r → Spent (handle s e r)
unfolding handle
handle-Spent s (message (Message.response_envelope m)) r v w = handle_response-Spent m r v w
handle-Spent s (exit x) r v w = exit-Spent x r v
handle-Spent s worker_started r v w = worker_answers-Spent s worker_started r.phase r w
handle-Spent s (worker_start_failed e) r v w =
    worker_answers-Spent s (worker_start_failed e) r.phase r w
handle-Spent s worker_stopped r v w = worker_answers-Spent s worker_stopped r.phase r w
handle-Spent s (worker_stop_failed e) r v w =
    worker_answers-Spent s (worker_stop_failed e) r.phase r w
handle-Spent s _ r v w = ground arith

wake_start-Spent : (r : Runner) → Handled r → Spent r → Spent (wake_start r)
unfolding wake_start
wake_start-Spent r v w = ground arith

wake_waiters-Spent :
    (o : Option Failure) (ws : List CleanupWaiter) (r : Runner)
    → Spent r
    → Spent (wake_waiters o ws r)
unfolding wake_waiters wake_cleanup_waiter
wake_waiters-Spent o [] r v = v
wake_waiters-Spent o (stopper ∷ ws) r v =
    wake_waiters-Spent o ws (wake_cleanup_waiter o stopper r) (ground arith)
wake_waiters-Spent o (fixtures ∷ ws) r v =
    wake_waiters-Spent o ws (wake_cleanup_waiter o fixtures r) (ground arith)

wake_cleanup-Spent : (o : Option (Option Failure)) (r : Runner) → Spent r → Spent (wake_cleanup o r)
unfolding wake_cleanup
wake_cleanup-Spent none r v = v
wake_cleanup-Spent (some o) r v = wake_waiters-Spent o r.cleanup_waiters _ (ground arith)

wake_stop-Spent : (r : Runner) → Spent r → Spent (wake_stop r)
unfolding wake_stop
wake_stop-Spent r v = ground arith

wake-Spent : (r : Runner) → Handled r → Spent r → Spent (wake r)
unfolding wake
wake-Spent r h v =
    wake_stop-Spent _
      (wake_cleanup-Spent (wake_start r).cleanup_outcome (wake_start r) (wake_start-Spent r h v))

begin-Spent : (s : SendError) (op : Op) (r : Runner) → Spent r → Spent (begin s op r)
unfolding begin
begin-Spent s start_op r v = ground arith
begin-Spent s (stop_op force) r v = ground arith

queue-Spent : (ops : List Op) (r : Runner) → Spent r → Spent (record r { queue = ops })
queue-Spent ops r v = ground arith

run_queue-Spent :
    (s : SendError) (ops : List Op) (r : Runner)
    → is_resting r.phase ≡ true
    → Between r
    → Spent r
    → Spent (run_queue s ops r)
unfolding run_queue
run_queue-Spent s [] r q b v = queue-Spent [] r v
run_queue-Spent s (op ∷ ops) r q b v = elim (Bool-cases (is_resting r'.phase)) [
  | inl rests ↦ rw rests (run_queue-Spent s ops r' rests (wake-Between _ begun) spent)
  | inr waits ↦ rw waits (queue-Spent ops r' spent)
]
  where
    r' : Runner
    r' = wake (begin s op r)

    begun : Handled (begin s op r)
    begun = quiet-Handled _ (begin-Between s op r q b)

    spent : Spent r'
    spent = wake-Spent _ begun (begin-Spent s op r v)

settle-Spent : (s : SendError) (r : Runner) → Handled r → Spent r → Spent (settle s r)
unfolding settle
settle-Spent s r h v = elim (Bool-cases (is_resting (wake r).phase)) [
  | inl rests ↦
      rw rests
        (run_queue-Spent s (wake r).queue (wake r) rests (wake-Between r h) (wake-Spent r h v))
  | inr waits ↦ rw waits (wake-Spent r h v)
]

step-Spent : (s : SendError) (e : Event) (r : Runner) → Between r → Spent r → Spent (step s e r)
unfolding step
step-Spent s e r b v = settle-Spent s _ (handle-Handled s e r b) (handle-Spent s e r b v)

exit_step-Spent : (s : SendError) (x : Exit) (r : Runner) → Between r → Spent (step s (exit x) r)
unfolding step handle
exit_step-Spent s x r b = settle-Spent s _ (handle-Handled s (exit x) r b) (exit-Spent x r b)

-- What the running operation awaits settles by itself: it is an answer of the worker object.
abbrev pub is_worker_await : Phase → Bool
is_worker_await Phase.start_worker = true
is_worker_await (Phase.stop_worker err) = true
is_worker_await Phase.stop_escalate = true
is_worker_await _ = false

-- A stopped runner that hosts nothing, with no timer armed and no deferred of its own pending.
pub record Released (r : Runner) : Type 0 where
  pub stopped : r.state ≡ RunnerState.stopped
  pub no_task : r.current_task ≡ none
  pub no_rpc : r.rpc ≡ false
  pub no_start : (r.start_deferred ≡ false) × (r.start_timer ≡ false)
  pub no_cleanup : (r.cleanup_deferred ≡ false) × (r.cleanup_timer ≡ false)
  pub no_fixture_timer : r.fixture_timer ≡ none
  pub no_fixtures_caller : r.cleanup_waiters ≡ []
  pub no_stop : r.stop_deferred ≡ false
  pub progress : ((r.phase ≡ Phase.resting) × (r.queue ≡ [])) ⊎ (is_worker_await r.phase ≡ true)

Spent-Released : (r : Runner) → Between r → Awaits r → Spent r → Released r
Spent-Released r b a v = ground arith

steps-Released :
    (s : SendError) (es : List Event) (r : Runner)
    → Between r
    → Awaits r
    → Spent r
    → Released (steps s es r)
unfolding steps
steps-Released s [] r b a v = Spent-Released r b a v
steps-Released s (e ∷ es) r b a v =
    steps-Released s es (step s e r) (step-Between s e r b) (step-Awaits s e r a)
      (step-Spent s e r b v)

-- What awaits stderr is left alone by the continuations and the operations.
begin-settling : (s : SendError) (op : Op) (r : Runner) → (begin s op r).settling ≡ r.settling
unfolding begin
begin-settling s start_op r = ground arith
begin-settling s (stop_op force) r = ground arith

wake_waiters-settling :
    (o : Option Failure) (ws : List CleanupWaiter) (r : Runner)
    → (wake_waiters o ws r).settling ≡ r.settling
unfolding wake_waiters wake_cleanup_waiter
wake_waiters-settling o [] r = refl
wake_waiters-settling o (stopper ∷ ws) r =
    wake_waiters-settling o ws (wake_cleanup_waiter o stopper r) ∙ ground arith
wake_waiters-settling o (fixtures ∷ ws) r =
    wake_waiters-settling o ws (wake_cleanup_waiter o fixtures r) ∙ ground arith

wake_cleanup-settling :
    (o : Option (Option Failure)) (r : Runner) → (wake_cleanup o r).settling ≡ r.settling
unfolding wake_cleanup
wake_cleanup-settling none r = refl
wake_cleanup-settling (some o) r = wake_waiters-settling o r.cleanup_waiters _

wake_start-settling : (r : Runner) → (wake_start r).settling ≡ r.settling
unfolding wake_start
wake_start-settling r = ground arith

wake_stop-settling : (r : Runner) → (wake_stop r).settling ≡ r.settling
unfolding wake_stop
wake_stop-settling r = ground arith

wake-settling : (r : Runner) → (wake r).settling ≡ r.settling
unfolding wake
wake-settling r =
    wake_stop-settling (wake_cleanup (wake_start r).cleanup_outcome (wake_start r))
    ∙ wake_cleanup-settling (wake_start r).cleanup_outcome (wake_start r)
    ∙ wake_start-settling r

run_queue-settling :
    (s : SendError) (ops : List Op) (r : Runner) → (run_queue s ops r).settling ≡ r.settling
unfolding run_queue
run_queue-settling s [] r = refl
run_queue-settling s (op ∷ ops) r =
    let same = wake-settling (begin s op r) ∙ begin-settling s op r in
    elim (Bool-cases (is_resting (wake (begin s op r)).phase)) [
      | inl rests ↦ rw rests (run_queue-settling s ops (wake (begin s op r)) ∙ same)
      | inr waits ↦ rw waits same
    ]

settle-settling : (s : SendError) (r : Runner) → (settle s r).settling ≡ r.settling
unfolding settle
settle-settling s r = elim (Bool-cases (is_resting (wake r).phase)) [
  | inl rests ↦ rw rests (run_queue-settling s (wake r).queue (wake r) ∙ wake-settling r)
  | inr waits ↦ rw waits (wake-settling r)
]

exit-settling :
    (s : SendError) (x : Exit) (r : Runner)
    → (step s (exit x) r).settling
      ≡ with_rejection
          (exit_failure r.last_fatal_error (is_stopping r.state) x)
          r.current_task
          r.settling
unfolding step handle
exit-settling s x r =
    settle-settling s (handle_exit x r) ∙ ap (λ (q : Runner). q.settling) (handle_exit-departed x r)

-- Whatever the run before it, the exit of the worker has the task that the runner hosts, if any, wait
-- for stderr behind the tasks that do already, to be rejected with the last fatal error or else with
-- that of the exit. All else the runner lets go at once and for good: it is stopped without a task, a
-- channel, a timer or a deferred of a start, a stop or a cleanup, and no operation is under way or
-- queued unless it awaits the worker's own `start` or `stop`.
pub exit-Released :
    (s : SendError) (x : Exit) (before after : List Event) (id : ℕ) (key : String)
    → let r = steps s before (new id key) in
      ((step s (exit x) r).settling
        ≡ with_rejection
            (exit_failure r.last_fatal_error (is_stopping r.state) x)
            r.current_task
            r.settling)
      × Released (steps s after (step s (exit x) r))
exit-Released s x before after id key =
    let r = steps s before (new id key) in
    let b = run-Between s before id key in
    (
      exit-settling s x r,
      steps-Released s after _ (step-Between s (exit x) r b)
          (step-Awaits s (exit x) r (run-Awaits s before id key)) (exit_step-Spent s x r b),
    )
