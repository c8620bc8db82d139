-- ===== src/Pool/Runner/Step.antt =====
-- The public methods of `PoolRunner` and the events that reach it, as one step function.
use rstest.Prelude.{
  ℕ, Bool, true, false, not, ◌||◌, if◌then◌else◌, List, [], ◌∷◌, ◌++◌, Option, none, some, is_some,
}
use rstest.Pool.Runner.State.{
  TaskKind, Exit, Failure, WorkerRequest, Message, start_op, stop_op, Phase, fixtures, refused,
  sent, fixtures_done, rejected, Runner, emit,
}
use rstest.Pool.Runner.Handlers.{
  is_started, dispose_rpc, settle_task, stderr_settled, start_timer_fired, cleanup_timer_fired,
  fixture_timer_fired, handle_message, handle_exit, handle_error,
}
use rstest.Pool.Runner.Lifecycle.{
  SendError, has_live_child, finish_op, start_failed, request_worker_cleanup, settle,
}

-- The calls carry the id that `++nextTaskSeq` gives; `worker_started` and the three after it
-- settle the promise of `worker.start()` or `worker.stop()`. Only a `fork` that throws rejects the first
-- one: then there is no child.
pub data Event : Type 0 where
  call_start : Event
  call_stop : Bool → Event
  call_task : TaskKind → ℕ → Event
  call_cleanup_fixtures : Event
  message : Message → Event
  exit : Exit → Event
  transport_error : Failure → Event
  worker_started : Event
  worker_start_failed : Failure → Event
  worker_stopped : Event
  worker_stop_failed : Failure → Event
  start_timeout cleanup_timeout fixture_timeout stderr_settles : Event

send_task : Option Failure → TaskKind → ℕ → Runner → Runner
unfolding settle_task
send_task none kind id r = emit (sent (WorkerRequest.task kind id)) r
send_task (some e) kind id r = settle_task id (rejected e) (record r { current_task = none })

-- `runTaskInternal`: refused calls reject at once and leave the runner as it is.
unfoldable pub run_task : SendError → TaskKind → ℕ → Runner → Runner
unfolding dispose_rpc send_task
run_task send_error kind id r =
    if not (is_started r.state)
    then emit (refused kind (Failure.not_started kind r.state)) r
    else (if is_some r.current_task
        then emit (refused kind Failure.in_progress) r
        else (let r' = dispose_rpc r in
            send_task (send_error (WorkerRequest.task kind id)) kind id (record r' {
              rpc = true;
              current_task = some (record { kind = kind; task_id = id; provisional_result = none });
            })))

unfoldable pub cleanup_worker_fixtures : SendError → Runner → Runner
unfolding has_live_child request_worker_cleanup
cleanup_worker_fixtures send_error r =
    if is_some r.current_task || r.cleanup_completed || r.crashed || not (has_live_child r)
    then emit (fixtures_done none) r
    else request_worker_cleanup send_error fixtures r

-- `start` goes on when `worker.start()` resolves: it sends the request and awaits the deferred,
-- which is gone if the start was rejected meanwhile.
acknowledge : Option Failure → Runner → Runner
unfolding start_failed
acknowledge (some e) r = start_failed e r
acknowledge none r =
    let r' = emit (sent (WorkerRequest.start r.worker_id)) r in
    if r.start_deferred
    then record r' { phase = Phase.start_ack }
    else start_failed Failure.no_deferred r'

unfoldable pub worker_answers : SendError → Event → Phase → Runner → Runner
unfolding acknowledge start_failed finish_op
worker_answers send_error worker_started Phase.start_worker r =
    acknowledge (send_error (WorkerRequest.start r.worker_id)) r
worker_answers send_error (worker_start_failed e) Phase.start_worker r =
    start_failed e (record r { has_child = false })
worker_answers send_error worker_stopped (Phase.stop_worker err) r =
    if r.stop_deferred then record r { phase = Phase.stop_exit err } else finish_op err r
worker_answers send_error worker_stopped Phase.stop_escalate r = finish_op none r
worker_answers send_error (worker_stop_failed e) (Phase.stop_worker err) r = finish_op (some e) r
worker_answers send_error (worker_stop_failed e) Phase.stop_escalate r = finish_op (some e) r
worker_answers send_error _ _ r = r

unfoldable pub handle : SendError → Event → Runner → Runner
unfolding run_task cleanup_worker_fixtures handle_message handle_exit handle_error start_timer_fired
    cleanup_timer_fired fixture_timer_fired stderr_settled worker_answers
handle send_error call_start r = record r { queue = r.queue ++ start_op ∷ [] }
handle send_error (call_stop force) r = record r { queue = r.queue ++ stop_op force ∷ [] }
handle send_error (call_task kind id) r = run_task send_error kind id r
handle send_error call_cleanup_fixtures r = cleanup_worker_fixtures send_error r
handle send_error (message m) r = handle_message m r
handle send_error (exit x) r = handle_exit x r
handle send_error (transport_error e) r = handle_error e r
handle send_error start_timeout r = start_timer_fired r
handle send_error cleanup_timeout r = cleanup_timer_fired r
handle send_error fixture_timeout r = fixture_timer_fired r
handle send_error stderr_settles r = stderr_settled r
handle send_error answer r = worker_answers send_error answer r.phase r

unfoldable pub step : SendError → Event → Runner → Runner
unfolding handle settle
step send_error e r = settle send_error (handle send_error e r)

unfoldable pub steps : SendError → List Event → Runner → Runner
unfolding step
steps send_error [] r = r
steps send_error (e ∷ es) r = steps send_error es (step send_error e r)
