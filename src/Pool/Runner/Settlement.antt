-- ===== src/Pool/Runner/Settlement.antt =====
-- How often the promise of a task of poolRunner.ts settles.
use rstest.Prelude.{
  ap, ℕ, ◌+◌, ◌==◌, ◌≡◌, ◌∙◌, refl, inl, inr, Bool, false, List, [], ◌∷◌, ◌++◌, Option, none, some,
  arith, if◌then◌else◌, Bool-cases, Option-cases, count_if, count_if-append, is_some, not, ◌&&◌,
}
use rstest.Pool.Runner.State.{
  Scope, Failure, Message, WorkerResponse, PendingTask, CleanupWaiter, Phase, Op, start_op, stop_op,
  stopper, fixtures, Runner, Exit, Effect, settled,
}
use rstest.Pool.Runner.Handlers.{
  exit_failure, is_stopping, is_started, is_current, handle_response, handle_message, handle_exit,
  handle_error, fixture_timer_fired,
}
use rstest.Pool.Runner.Lifecycle.{
  SendError, begin, wake_start, wake_cleanup_waiter, wake_waiters, wake_cleanup, wake_stop, wake,
  is_resting, run_queue, settle,
}
use rstest.Pool.Runner.Step.{
  Event, call_start, call_stop, call_task, call_cleanup_fixtures, message, exit, transport_error,
  worker_started, worker_start_failed, worker_stopped, worker_stop_failed, start_timeout,
  cleanup_timeout, fixture_timeout, stderr_settles, handle, step, steps, worker_answers,
}
use rstest.Pool.Runner.Departure.{departed, handle_exit-departed}

abbrev pub settles : ℕ → Effect → Bool
settles id (settled t o) = t == id
settles id _ = false

abbrev rejects : ℕ → ℕ × Failure → Bool
rejects id p = p.0 == id

-- How often the promise of the task has settled.
abbrev pub settlements : ℕ → Runner → ℕ
settlements id r = count_if (settles id) r.out

-- The promises of the task that are still pending: it runs, or its rejection waits for stderr.
abbrev pub pending : ℕ → Runner → ℕ
pending id r = (if is_current r.current_task id then 1 else 0) + count_if (rejects id) r.settling

abbrev pub total : ℕ → Runner → ℕ
total id r = settlements id r + pending id r

-- Whether the event is a call for the task that the runner takes.
abbrev pub accepts : ℕ → Event → Runner → Bool
accepts id (call_task kind t) r = (t == id) && is_started r.state && not (is_some r.current_task)
accepts id _ r = false

snoc :
    (id t : ℕ) (e : Failure) (xs : List (ℕ × Failure))
    → count_if (rejects id) (xs ++ (t, e) ∷ [])
      ≡ count_if (rejects id) xs + (if t == id then 1 else 0)
snoc id t e xs = ground (arith, count_if-append (rejects id) xs ((t, e) ∷ []))

handle_response-total :
    (id : ℕ) (m : WorkerResponse) (r : Runner) → total id (handle_response m r) ≡ total id r
unfolding handle_response
handle_response-total id (WorkerResponse.fatal_error e) r = elim (Option-cases r.current_task) [
  | inl empty ↦ ground arith
  | inr (t, runs) ↦ ground (arith, snoc id t.task_id (Failure.reported e) r.settling)
]
handle_response-total id WorkerResponse.started r = ground arith
handle_response-total id _ r = ground arith

handle_message-total :
    (id : ℕ) (m : Message) (r : Runner) → total id (handle_message m r) ≡ total id r
unfolding handle_message
handle_message-total id (Message.rpc_envelope p) r = ground arith
handle_message-total id (Message.response_envelope m) r = handle_response-total id m r
handle_message-total id Message.unknown r = ground arith

-- The three ways in which an exit finds the runner.
departed-total :
    (id : ℕ) (x : Exit) (r : Runner) (t : Option PendingTask) (e : Failure)
    → r.current_task ≡ t
    → exit_failure r.last_fatal_error (is_stopping r.state) x ≡ e
    → total id (departed x r) ≡ total id r
departed-total id x r none e h f = ground arith
departed-total id x r (some t) e h f = ground (arith, snoc id t.task_id e r.settling)

handle_exit-total : (id : ℕ) (x : Exit) (r : Runner) → total id (handle_exit x r) ≡ total id r
handle_exit-total id x r =
    ap (total id) (handle_exit-departed x r)
    ∙ departed-total id x r r.current_task (exit_failure r.last_fatal_error (is_stopping r.state) x)
        refl refl

handle_error-total : (id : ℕ) (e : Failure) (r : Runner) → total id (handle_error e r) ≡ total id r
unfolding handle_error
handle_error-total id e r = elim (Option-cases r.current_task) [
  | inl empty ↦ ground arith
  | inr (t, runs) ↦ ground (arith, snoc id t.task_id e r.settling)
]

fixture_timer_fired-total : (id : ℕ) (r : Runner) → total id (fixture_timer_fired r) ≡ total id r
unfolding fixture_timer_fired
fixture_timer_fired-total id r = elim (Option-cases r.current_task) [
  | inl empty ↦ ground arith
  | inr (t, runs) ↦ ground (
    arith,
    snoc id t.task_id (Failure.fixture_timeout Scope.file) r.settling,
    snoc id t.task_id (Failure.fixture_timeout Scope.worker) r.settling,
  )
]

worker_answers-total :
    (id : ℕ) (s : SendError) (e : Event) (p : Phase) (r : Runner)
    → total id (worker_answers s e p r) ≡ total id r
unfolding worker_answers
worker_answers-total id s worker_started Phase.start_worker r = ground arith
worker_answers-total id s (worker_start_failed e) Phase.start_worker r = ground arith
worker_answers-total id s worker_stopped (Phase.stop_worker err) r = ground arith
worker_answers-total id s _ _ r = ground arith

begin-total : (id : ℕ) (s : SendError) (op : Op) (r : Runner) → total id (begin s op r) ≡ total id r
unfolding begin
begin-total id s start_op r = ground arith
begin-total id s (stop_op force) r = ground arith

wake_waiters-total :
    (id : ℕ) (o : Option Failure) (ws : List CleanupWaiter) (r : Runner)
    → total id (wake_waiters o ws r) ≡ total id r
unfolding wake_waiters wake_cleanup_waiter
wake_waiters-total id o [] r = refl
wake_waiters-total id o (stopper ∷ ws) r =
    wake_waiters-total id o ws (wake_cleanup_waiter o stopper r) ∙ ground arith
wake_waiters-total id o (fixtures ∷ ws) r =
    wake_waiters-total id o ws (wake_cleanup_waiter o fixtures r) ∙ ground arith

wake_cleanup-total :
    (id : ℕ) (o : Option (Option Failure)) (r : Runner) → total id (wake_cleanup o r) ≡ total id r
unfolding wake_cleanup
wake_cleanup-total id none r = refl
wake_cleanup-total id (some o) r = wake_waiters-total id o r.cleanup_waiters _

wake_start-total : (id : ℕ) (r : Runner) → total id (wake_start r) ≡ total id r
unfolding wake_start
wake_start-total id r = ground arith

wake_stop-total : (id : ℕ) (r : Runner) → total id (wake_stop r) ≡ total id r
unfolding wake_stop
wake_stop-total id r = ground arith

wake-total : (id : ℕ) (r : Runner) → total id (wake r) ≡ total id r
unfolding wake
wake-total id r =
    wake_stop-total id (wake_cleanup (wake_start r).cleanup_outcome (wake_start r))
    ∙ wake_cleanup-total id (wake_start r).cleanup_outcome (wake_start r)
    ∙ wake_start-total id r

run_queue-total :
    (id : ℕ) (s : SendError) (ops : List Op) (r : Runner)
    → total id (run_queue s ops r) ≡ total id r
unfolding run_queue
run_queue-total id s [] r = refl
run_queue-total id s (op ∷ ops) r = elim (Bool-cases (is_resting (wake (begin s op r)).phase)) [
  | inl rests ↦ rw rests (
      run_queue-total id s ops (wake (begin s op r))
      ∙ wake-total id (begin s op r)
      ∙ begin-total id s op r)
  | inr waits ↦ rw waits (wake-total id (begin s op r) ∙ begin-total id s op r)
]

settle-total : (id : ℕ) (s : SendError) (r : Runner) → total id (settle s r) ≡ total id r
unfolding settle
settle-total id s r = elim (Bool-cases (is_resting (wake r).phase)) [
  | inl rests ↦ rw rests (run_queue-total id s (wake r).queue (wake r) ∙ wake-total id r)
  | inr waits ↦ rw waits (wake-total id r)
]

handle-total :
    (id : ℕ) (s : SendError) (e : Event) (r : Runner)
    → total id (handle s e r) ≡ total id r + (if accepts id e r then 1 else 0)
unfolding handle
handle-total id s call_start r = ground arith
handle-total id s (call_stop force) r = ground arith
handle-total id s (call_task k t) r = ground arith
handle-total id s call_cleanup_fixtures r = ground arith
handle-total id s (message m) r = omega (arith, handle_message-total id m r)
handle-total id s (exit x) r = omega (arith, handle_exit-total id x r)
handle-total id s (transport_error e) r = omega (arith, handle_error-total id e r)
handle-total id s start_timeout r = ground arith
handle-total id s cleanup_timeout r = ground arith
handle-total id s fixture_timeout r = omega (arith, fixture_timer_fired-total id r)
handle-total id s stderr_settles r = ground arith
handle-total id s worker_started r =
    omega (arith, worker_answers-total id s worker_started r.phase r)
handle-total id s (worker_start_failed e) r =
    omega (arith, worker_answers-total id s (worker_start_failed e) r.phase r)
handle-total id s worker_stopped r =
    omega (arith, worker_answers-total id s worker_stopped r.phase r)
handle-total id s (worker_stop_failed e) r =
    omega (arith, worker_answers-total id s (worker_stop_failed e) r.phase r)

step-total :
    (id : ℕ) (s : SendError) (e : Event) (r : Runner)
    → total id (step s e r) ≡ total id r + (if accepts id e r then 1 else 0)
unfolding step
step-total id s e r = settle-total id s (handle s e r) ∙ handle-total id s e r

-- The calls for the task that the runner takes along a run.
pub accepted : ℕ → SendError → List Event → Runner → ℕ
accepted id s [] r = 0
accepted id s (e ∷ es) r = (if accepts id e r then 1 else 0) + accepted id s es (step s e r)

-- Along every run, the promise of a task settles or is pending just as often as the runner has taken
-- a call with the task's id: no path settles it twice, and none drops it.
pub settled_once :
    (id : ℕ) (s : SendError) (es : List Event) (r : Runner)
    → settlements id (steps s es r) + pending id (steps s es r)
      ≡ settlements id r + pending id r + accepted id s es r
unfolding steps accepted
settled_once id s [] r = omega arith
settled_once id s (e ∷ es) r = omega (arith, settled_once id s es (step s e r), step-total id s e r)
