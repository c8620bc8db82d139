-- ===== src/Pool/Runner/Handlers.antt =====
-- The private helpers, the message and exit handlers and the timers of poolRunner.ts.
use rstest.Prelude.{
  ℕ, ◌==◌, Bool, true, false, not, ◌&&◌, ◌||◌, if◌then◌else◌, String, List, [], ◌∷◌, ◌++◌, Option,
  none, some,
}
use rstest.Pool.Runner.State.{
  RunnerState, TaskKind, run, collect, Scope, Exit, Failure, Status, TestFileResult, PendingTask,
  TaskResult, run_result, collect_result, Outcome, resolved, rejected, WorkerResponse, Message,
  settled, rpc_closed, rpc_dispatched, fallback_reported, Runner, emit,
}

abbrev pub is_started : RunnerState → Bool
is_started RunnerState.started = true
is_started _ = false

abbrev pub is_stopping : RunnerState → Bool
is_stopping RunnerState.stopping = true
is_stopping _ = false

abbrev pub is_stopped : RunnerState → Bool
is_stopped RunnerState.stopped = true
is_stopped _ = false

abbrev pub same_kind : TaskKind → TaskKind → Bool
same_kind run run = true
same_kind collect collect = true
same_kind _ _ = false

unfoldable pub is_usable : Runner → Bool
is_usable r = is_started r.state && not r.crashed

-- `this.currentTask?.taskId === taskId`
abbrev pub is_current : Option PendingTask → ℕ → Bool
is_current none id = false
is_current (some t) id = t.task_id == id

abbrev pub clear_start_timer : Runner → Runner
clear_start_timer r = record r { start_timer = false }

abbrev pub clear_fixture_cleanup_timer : Runner → Runner
clear_fixture_cleanup_timer r = record r { fixture_timer = none }

unfoldable pub resolve_start : Runner → Runner
resolve_start r =
    if r.start_deferred then record r { start_deferred = false; start_outcome = some none } else r

unfoldable pub reject_start : Failure → Runner → Runner
reject_start e r =
    if r.start_deferred
    then record r { start_deferred = false; start_timer = false; start_outcome = some (some e) }
    else r

unfoldable pub settle_cleanup : Option Failure → Runner → Runner
settle_cleanup o r =
    if r.cleanup_deferred
    then record r { cleanup_deferred = false; cleanup_timer = false; cleanup_outcome = some o }
    else r

unfoldable pub resolve_cleanup : Runner → Runner
unfolding settle_cleanup
resolve_cleanup r = settle_cleanup none r

unfoldable pub reject_cleanup : Failure → Runner → Runner
unfolding settle_cleanup
reject_cleanup e r = settle_cleanup (some e) r

-- `$close` rejects the calls in flight on the channel.
unfoldable pub dispose_rpc : Runner → Runner
dispose_rpc r = if r.rpc then emit rpc_closed (record r { rpc = false }) else r

-- The rejection waits for the rest of the worker's stderr: `settling` holds it until then.
reject_task : Failure → Runner → Option PendingTask → Runner
reject_task e r none = r
reject_task e r (some t) = record r {
  current_task = none;
  fixture_timer = none;
  settling = r.settling ++ (t.task_id, e) ∷ [];
}

unfoldable pub reject_current_task_with_stderr : Failure → Runner → Runner
unfolding reject_task
reject_current_task_with_stderr e r = reject_task e r r.current_task

-- A task's promise settles, and its `finally` disposes of the channel.
unfoldable pub settle_task : ℕ → Outcome → Runner → Runner
unfolding dispose_rpc
settle_task id o r = dispose_rpc (emit (settled id o) r)

-- The wait that began first ends.
settle_oldest : List (ℕ × Failure) → Runner → Runner
unfolding settle_task
settle_oldest [] r = r
settle_oldest ((id, e) ∷ rest) r = settle_task id (rejected e) (record r { settling = rest })

unfoldable pub stderr_settled : Runner → Runner
unfolding settle_oldest
stderr_settled r = settle_oldest r.settling r

resolve_pending : TaskKind → ℕ → TaskResult → Runner → Option PendingTask → Runner
unfolding settle_task
resolve_pending kind id result r none = r
resolve_pending kind id result r (some t) =
    if same_kind t.kind kind && t.task_id == id
    then settle_task t.task_id (resolved result)
        (record r { current_task = none; fixture_timer = none })
    else r

unfoldable pub resolve_task : TaskKind → ℕ → TaskResult → Runner → Runner
unfolding resolve_pending
resolve_task kind id result r = resolve_pending kind id result r r.current_task

unfoldable pub start_fixture_cleanup_timer : ℕ → Scope → Runner → Runner
start_fixture_cleanup_timer id scope r =
    if is_current r.current_task id then record r { fixture_timer = some (id, scope) } else r

-- fileCleanup.ts
unfoldable pub create_file_cleanup_timeout_result : Failure → TestFileResult → TestFileResult
create_file_cleanup_timeout_result e result = record result {
  status = Status.fail;
  errors = result.errors ++ e ∷ [];
}

expire_pending : Scope → Runner → PendingTask → Option TestFileResult → TaskKind → Runner
unfolding settle_task create_file_cleanup_timeout_result reject_current_task_with_stderr
expire_pending scope r t (some result) run =
    settle_task t.task_id
      (resolved
        (run_result (create_file_cleanup_timeout_result (Failure.fixture_timeout scope) result)))
      (record r { current_task = none; fixture_timer = none })
expire_pending scope r t _ _ = reject_current_task_with_stderr (Failure.fixture_timeout scope) r

expire_current : ℕ → Scope → Runner → Option PendingTask → Runner
unfolding expire_pending
expire_current id scope r none = r
expire_current id scope r (some t) =
    if t.task_id == id
    then expire_pending scope (record r { crashed = true }) t t.provisional_result t.kind
    else r

expire_timer : Runner → Option (ℕ × Scope) → Runner
unfolding expire_current
expire_timer r none = r
expire_timer r (some (id, scope)) = expire_current id scope r r.current_task

-- The callback of the fixture cleanup timer, which runs only if the timer is armed.
unfoldable pub fixture_timer_fired : Runner → Runner
unfolding expire_timer
fixture_timer_fired r = expire_timer r r.fixture_timer

unfoldable pub start_timer_fired : Runner → Runner
unfolding reject_start
start_timer_fired r = if r.start_timer then reject_start Failure.start_timeout r else r

unfoldable pub cleanup_timer_fired : Runner → Runner
unfolding reject_cleanup
cleanup_timer_fired r = if r.cleanup_timer then reject_cleanup Failure.cleanup_timeout r else r

abbrev with_provisional : Option TestFileResult → ℕ → Option PendingTask → Option PendingTask
with_provisional result id none = none
with_provisional result id (some t) =
    some (if t.task_id == id then record t { provisional_result = result } else t)

cleanup_answer : Option String → Runner → Runner
unfolding resolve_cleanup reject_cleanup
cleanup_answer none r = resolve_cleanup (record r { cleanup_completed = true })
cleanup_answer (some e) r = reject_cleanup (Failure.reported e) r

abbrev crashed_if : Option String → Bool → Bool
crashed_if none b = b
crashed_if (some e) b = true

-- The `switch` of `handleResponse`.
unfoldable pub handle_response : WorkerResponse → Runner → Runner
unfolding resolve_start cleanup_answer start_fixture_cleanup_timer resolve_task
    reject_current_task_with_stderr
handle_response WorkerResponse.started r = resolve_start (clear_start_timer r)
handle_response (WorkerResponse.cleanup_finished error) r = cleanup_answer error r
handle_response (WorkerResponse.file_cleanup_started id result) r =
    start_fixture_cleanup_timer id Scope.file
      (record r { current_task = with_provisional result id r.current_task })
handle_response (WorkerResponse.file_cleanup_finished id) r =
    if is_current r.current_task id then clear_fixture_cleanup_timer r else r
handle_response (WorkerResponse.worker_cleanup_started id) r =
    start_fixture_cleanup_timer id Scope.worker r
handle_response (WorkerResponse.worker_cleanup_finished id error) r =
    if is_current r.current_task id
    then record r { fixture_timer = none; crashed = crashed_if error r.crashed }
    else r
handle_response (WorkerResponse.run_finished id result) r =
    resolve_task run id (run_result result) r
handle_response (WorkerResponse.collect_finished id result) r =
    resolve_task collect id (collect_result result) r
handle_response (WorkerResponse.test_environment_fallback fallback) r =
    emit (fallback_reported fallback) r
handle_response (WorkerResponse.fatal_error e) r =
    let failure = Failure.reported e in
    let r' = reject_current_task_with_stderr failure (record r { crashed = true }) in
    record r' { last_fatal_error = some failure }

unfoldable pub handle_message : Message → Runner → Runner
unfolding handle_response
handle_message (Message.rpc_envelope payload) r =
    if r.rpc then emit (rpc_dispatched payload) r else r
handle_message (Message.response_envelope response) r = handle_response response r
handle_message Message.unknown r = r

abbrev pub exit_failure : Option Failure → Bool → Exit → Failure
exit_failure (some e) was_stopping exit = e
exit_failure none true exit = Failure.stopped_before_completion exit
exit_failure none false exit = Failure.exited_unexpectedly exit

-- The worker marks itself exited before it tells the runner.
unfoldable pub handle_exit : Exit → Runner → Runner
handle_exit exit r =
    let failure = exit_failure r.last_fatal_error (is_stopping r.state) exit in
    let cleaned =
      reject_cleanup (Failure.exited_in_cleanup exit)
        (record r { exited = true; start_timer = false; fixture_timer = none }) in
    let closed = dispose_rpc (record cleaned { state = RunnerState.stopped }) in
    let acked = reject_start (Failure.exited_before_ack exit) closed in
    reject_current_task_with_stderr failure (record acked { stop_deferred = false })

unfoldable pub handle_error : Failure → Runner → Runner
unfolding reject_cleanup reject_start reject_current_task_with_stderr
handle_error e r =
    if is_stopped r.state || is_stopping r.state
    then r
    else (reject_current_task_with_stderr e
        (reject_start e (reject_cleanup e (record r { crashed = true; fixture_timer = none }))))
