-- ===== src/Pool/Runner/Invariant.antt =====
-- What holds of a runner of poolRunner.ts between two events.
use rstest.Prelude.{
  subst, sym, ℕ, ◌≡◌, refl, ◌⊎◌, inl, inr, Bool, true, false, ◌||◌, List, [], ◌∷◌, Option, none,
  some, is_some, arith, Bool-cases, String, not, ◌&&◌,
}
use rstest.Pool.Runner.State.{
  RunnerState, TaskKind, Scope, Failure, Message, WorkerResponse, Phase, PendingTask, CleanupWaiter,
  Op, start_op, stop_op, stopper, fixtures, Runner, Exit, new,
}
use rstest.Pool.Runner.Handlers.{
  is_started, is_stopping, is_current, handle_response, handle_message, handle_exit, handle_error,
}
use rstest.Pool.Runner.Lifecycle.{
  SendError, begin, wake_start, wake_cleanup_waiter, wake_waiters, wake_cleanup, wake_stop, wake,
  is_resting, run_queue, settle,
}
use rstest.Pool.Runner.Step.{
  Event, call_start, call_stop, call_task, call_cleanup_fixtures, message, exit, transport_error,
  worker_started, worker_start_failed, worker_stopped, worker_stop_failed, start_timeout,
  cleanup_timeout, fixture_timeout, stderr_settles, run_task, handle, step, steps, worker_answers,
}
use rstest.Pool.Runner.Departure.{departed, handle_exit-departed}

-- An armed fixture timer belongs to the current task.
abbrev pub timer_fits : Option (ℕ × Scope) → Option PendingTask → Bool
timer_fits none t = true
timer_fits (some (id, scope)) t = is_current t id

abbrev pub hosts_task : RunnerState → Bool
hosts_task s = is_started s || is_stopping s

abbrev pub is_start_phase : Phase → Bool
is_start_phase Phase.start_worker = true
is_start_phase Phase.start_ack = true
is_start_phase _ = false

abbrev pub is_start_ack : Phase → Bool
is_start_ack Phase.start_ack = true
is_start_ack _ = false

pub record Inv (r : Runner) : Type 0 where
  pub start_pending :
      r.start_deferred ≡ true → (r.state ≡ RunnerState.starting) × (is_start_phase r.phase ≡ true)
  pub start_timed : r.start_timer ≡ true → r.start_deferred ≡ true
  pub start_phased :
      is_start_phase r.phase ≡ true → (r.state ≡ RunnerState.starting) ⊎ (r.exited ≡ true)
  pub child_started : is_start_phase r.phase ≡ true → r.has_child ≡ true
  pub child_hosts : hosts_task r.state ≡ true → r.has_child ≡ true
  pub exit_stopped : r.exited ≡ true → r.state ≡ RunnerState.stopped
  pub stopped_dead : r.state ≡ RunnerState.stopped → (r.has_child && not r.exited) ≡ false
  pub task_hosted : is_some r.current_task ≡ true → hosts_task r.state ≡ true
  pub cleanup_timed : r.cleanup_timer ≡ true → r.cleanup_deferred ≡ true
  pub stop_pending : r.stop_deferred ≡ true → r.state ≡ RunnerState.stopping
  pub fixture_timed : timer_fits r.fixture_timer r.current_task ≡ true
  pub settling_spent : (r.settling ≡ []) ⊎ ((r.crashed ≡ true) ⊎ (r.state ≡ RunnerState.stopped))

-- No settled start waits for its continuation.
abbrev pub Quiet : Runner → Type 0
Quiet r = r.start_outcome ≡ none

-- A settled start has no deferred left, and a fulfilled one finds the runner still starting.
abbrev pub Acked : Runner → Type 0
Acked r =
    (is_some r.start_outcome ≡ true → r.start_deferred ≡ false)
    × (r.start_outcome ≡ some none → r.state ≡ RunnerState.starting)

abbrev pub Between : Runner → Type 0
Between r = Inv r × Quiet r

abbrev pub Handled : Runner → Type 0
Handled r = Inv r × Acked r

new-quiet : (id : ℕ) (key : String) → (new id key).start_outcome ≡ none
unfolding new
new-quiet id key = refl

pub new-Inv : (id : ℕ) (key : String) → Inv (new id key)
unfolding new
new-Inv id key = ground arith

handle_response-Handled :
    (m : WorkerResponse) (r : Runner) → Between r → Handled (handle_response m r)
unfolding handle_response
handle_response-Handled WorkerResponse.started r v = ground arith
handle_response-Handled _ r v = ground arith

handle_message-Handled : (m : Message) (r : Runner) → Between r → Handled (handle_message m r)
unfolding handle_message
handle_message-Handled (Message.rpc_envelope p) r v = ground arith
handle_message-Handled (Message.response_envelope m) r v = handle_response-Handled m r v
handle_message-Handled Message.unknown r v = ground arith

departed-Handled : (x : Exit) (r : Runner) → Between r → Handled (departed x r)
departed-Handled x r v = ground arith

handle_exit-Handled : (x : Exit) (r : Runner) → Between r → Handled (handle_exit x r)
handle_exit-Handled x r v = subst Handled (sym (handle_exit-departed x r)) (departed-Handled x r v)

handle_error-Handled : (e : Failure) (r : Runner) → Between r → Handled (handle_error e r)
unfolding handle_error
handle_error-Handled e r v = ground arith

run_task-Handled :
    (s : SendError) (k : TaskKind) (id : ℕ) (r : Runner) → Between r → Handled (run_task s k id r)
unfolding run_task
run_task-Handled s k id r v = ground arith

worker_answers-Handled :
    (s : SendError) (e : Event) (p : Phase) (r : Runner)
    → r.phase ≡ p
    → Between r
    → Handled (worker_answers s e p r)
unfolding worker_answers
worker_answers-Handled s worker_started Phase.start_worker r h v = ground arith
worker_answers-Handled s (worker_start_failed e) Phase.start_worker r h v = ground arith
worker_answers-Handled s worker_stopped (Phase.stop_worker err) r h v = ground arith
worker_answers-Handled s worker_stopped Phase.stop_escalate r h v = ground arith
worker_answers-Handled s (worker_stop_failed e) (Phase.stop_worker err) r h v = ground arith
worker_answers-Handled s (worker_stop_failed e) Phase.stop_escalate r h v = ground arith
worker_answers-Handled s _ _ r h v = ground arith

pub handle-Handled : (s : SendError) (e : Event) (r : Runner) → Between r → Handled (handle s e r)
unfolding handle
handle-Handled s call_start r v = ground arith
handle-Handled s (call_stop force) r v = ground arith
handle-Handled s (call_task k id) r v = run_task-Handled s k id r v
handle-Handled s call_cleanup_fixtures r v = ground arith
handle-Handled s (message m) r v = handle_message-Handled m r v
handle-Handled s (exit x) r v = handle_exit-Handled x r v
handle-Handled s (transport_error e) r v = handle_error-Handled e r v
handle-Handled s start_timeout r v = ground arith
handle-Handled s cleanup_timeout r v = ground arith
handle-Handled s fixture_timeout r v = ground arith
handle-Handled s stderr_settles r v = ground arith
handle-Handled s worker_started r v = worker_answers-Handled s worker_started r.phase r refl v
handle-Handled s (worker_start_failed e) r v =
    worker_answers-Handled s (worker_start_failed e) r.phase r refl v
handle-Handled s worker_stopped r v = worker_answers-Handled s worker_stopped r.phase r refl v
handle-Handled s (worker_stop_failed e) r v =
    worker_answers-Handled s (worker_stop_failed e) r.phase r refl v

pub begin-Between :
    (s : SendError) (op : Op) (r : Runner)
    → is_resting r.phase ≡ true
    → Between r
    → Between (begin s op r)
unfolding begin
begin-Between s start_op r q v = ground arith
begin-Between s (stop_op force) r q v = ground arith

pub wake_start-Between : (r : Runner) → Handled r → Between (wake_start r)
unfolding wake_start
wake_start-Between r v = ground arith

wake_stop-Between : (r : Runner) → Between r → Between (wake_stop r)
unfolding wake_stop
wake_stop-Between r v = ground arith

pub wake_cleanup_waiter-Between :
    (o : Option Failure) (w : CleanupWaiter) (r : Runner)
    → Between r
    → Between (wake_cleanup_waiter o w r)
unfolding wake_cleanup_waiter
wake_cleanup_waiter-Between o stopper r v = ground arith
wake_cleanup_waiter-Between o fixtures r v = ground arith

pub wake_waiters-Between :
    (o : Option Failure) (ws : List CleanupWaiter) (r : Runner)
    → Between r
    → Between (wake_waiters o ws r)
unfolding wake_waiters
wake_waiters-Between o [] r v = v
wake_waiters-Between o (w ∷ ws) r v =
    wake_waiters-Between o ws (wake_cleanup_waiter o w r) (wake_cleanup_waiter-Between o w r v)

pub wake_cleanup-Between :
    (o : Option (Option Failure)) (r : Runner) → Between r → Between (wake_cleanup o r)
unfolding wake_cleanup
wake_cleanup-Between none r v = v
wake_cleanup-Between (some o) r v = wake_waiters-Between o r.cleanup_waiters _ (ground arith)

pub wake-Between : (r : Runner) → Handled r → Between (wake r)
unfolding wake
wake-Between r v =
    wake_stop-Between _
      (wake_cleanup-Between (wake_start r).cleanup_outcome _ (wake_start-Between r v))

pub queued : (ops : List Op) (r : Runner) → Between r → Between (record r { queue = ops })
queued ops r v = ground arith

pub quiet-Handled : (r : Runner) → Between r → Handled r
quiet-Handled r v = ground arith

pub run_queue-Between :
    (s : SendError) (ops : List Op) (r : Runner)
    → is_resting r.phase ≡ true
    → Between r
    → Between (run_queue s ops r)
unfolding run_queue
run_queue-Between s [] r q v = ground arith
run_queue-Between s (op ∷ ops) r q v = elim (Bool-cases (is_resting r'.phase)) [
  | inl rests ↦ rw rests (run_queue-Between s ops r' rests woken)
  | inr waits ↦ rw waits (queued ops r' woken)
]
  where
    r' : Runner
    r' = wake (begin s op r)

    woken : Between r'
    woken = wake-Between _ (quiet-Handled _ (begin-Between s op r q v))

-- Every event keeps the invariant, with the microtasks and the operations that follow it.
pub step-Between : (s : SendError) (e : Event) (r : Runner) → Between r → Between (step s e r)
unfolding step settle
step-Between s e r v = elim (Bool-cases (is_resting r'.phase)) [
  | inl rests ↦ rw rests (run_queue-Between s r'.queue r' rests woken)
  | inr waits ↦ rw waits woken
]
  where
    r' : Runner
    r' = wake (handle s e r)

    woken : Between r'
    woken = wake-Between _ (handle-Handled s e r v)

steps-Between : (s : SendError) (es : List Event) (r : Runner) → Between r → Between (steps s es r)
unfolding steps
steps-Between s [] r v = v
steps-Between s (e ∷ es) r v = steps-Between s es (step s e r) (step-Between s e r v)

-- After every event of every run the runner's fields agree: a pending start belongs to a starting
-- runner, each armed timer to its pending promise or current task, a runner whose `start` is under way
-- or that is started or stopping has a child, a task only such a runner, an exited child has left the runner stopped, a stopped runner
-- has no live child, and a rejection waits for stderr only once the runner is out of use.
pub run-Between :
    (s : SendError) (es : List Event) (id : ℕ) (key : String) → Between (steps s es (new id key))
run-Between s es id key = steps-Between s es (new id key) (new-Inv id key, new-quiet id key)
