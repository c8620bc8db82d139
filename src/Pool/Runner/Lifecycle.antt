-- ===== src/Pool/Runner/Lifecycle.antt =====
-- The operations `start` and `stop` of poolRunner.ts, the chain that serialises them, and the
-- worker's cleanup.
--
-- An operation runs up to an `await`, which is a phase, and goes on when the promise settles:
-- `wake` is what the microtasks do after each event. `send_error` says which requests
-- `worker.send` throws on.
use rstest.Prelude.{
  Bool, true, false, not, ◌&&◌, if◌then◌else◌, List, [], ◌∷◌, ◌++◌, Option, none, some, is_some,
}
use rstest.Pool.Runner.State.{
  RunnerState, Failure, WorkerRequest, Op, start_op, stop_op, Phase, CleanupWaiter, stopper,
  fixtures, worker_start_called, worker_stop_called, op_done, fixtures_done, sent, Runner, emit,
}
use rstest.Pool.Runner.Handlers.{is_stopped, reject_start, reject_cleanup}

abbrev pub SendError : Type 0
SendError = WorkerRequest → Option Failure

-- `worker.hasLiveChild()`
unfoldable pub has_live_child : Runner → Bool
has_live_child r = r.has_child && not r.exited

-- The operation ends; its promise is fulfilled, or rejected with the failure.
unfoldable pub finish_op : Option Failure → Runner → Runner
finish_op o r = emit (op_done o) (record r { phase = Phase.resting })

-- The `catch` of `start`.
unfoldable pub start_failed : Failure → Runner → Runner
unfolding reject_start finish_op
start_failed e r =
    let r' = reject_start e (record r { start_timer = false }) in
    finish_op (some e) (record r' {
      state = if is_stopped r'.state then RunnerState.stopped else RunnerState.start_failure;
    })

-- `worker.start()` forks before it returns, so the child is there before its promise settles.
begin_start : RunnerState → Runner → Runner
unfolding finish_op
begin_start RunnerState.started r = finish_op none r
begin_start RunnerState.idle r = emit worker_start_called (record r {
  state = RunnerState.starting;
  has_child = true;
  start_deferred = true;
  start_timer = true;
  phase = Phase.start_worker;
})
begin_start s r = finish_op (some (Failure.cannot_start s)) r

unfoldable pub begin_stopping : Bool → Option Failure → Runner → Runner
begin_stopping force err r =
    emit (worker_stop_called force) (record r {
      state = RunnerState.stopping;
      stop_deferred = true;
      phase = Phase.stop_worker err;
    })

unfoldable pub after_cleanup : Bool → Option Failure → Runner → Runner
unfolding has_live_child finish_op begin_stopping
after_cleanup force err r =
    if has_live_child r
    then begin_stopping force err r
    else finish_op err (record r { state = RunnerState.stopped })

send_cleanup : Option Failure → Runner → Runner
unfolding reject_cleanup
send_cleanup none r = emit (sent WorkerRequest.cleanup) r
send_cleanup (some e) r = reject_cleanup e r

-- The promise in flight is shared; a new request installs its deferred and timer before it sends.
unfoldable pub request_worker_cleanup : SendError → CleanupWaiter → Runner → Runner
unfolding send_cleanup
request_worker_cleanup send_error w r =
    let r' = record r { cleanup_waiters = r.cleanup_waiters ++ w ∷ [] } in
    if r.cleanup_deferred
    then r'
    else (send_cleanup (send_error WorkerRequest.cleanup)
        (record r' { cleanup_deferred = true; cleanup_timer = true }))

stop_live : SendError → Bool → Runner → Runner
unfolding has_live_child finish_op after_cleanup request_worker_cleanup
stop_live send_error force r =
    if not (has_live_child r)
    then finish_op none (record r { state = RunnerState.stopped })
    else (if not force && not (is_some r.current_task) && not r.crashed && not r.cleanup_completed
        then (request_worker_cleanup send_error stopper
            (record r { phase = Phase.stop_cleanup force }))
        else after_cleanup force none r)

unfoldable pub escalate : Bool → Runner → Runner
unfolding finish_op
escalate force r =
    if force
    then emit (worker_stop_called true) (record r { phase = Phase.stop_escalate })
    else finish_op none r

begin_stop : SendError → Bool → RunnerState → Runner → Runner
unfolding finish_op escalate stop_live
begin_stop send_error force RunnerState.stopped r = finish_op none r
begin_stop send_error force RunnerState.idle r = finish_op none r
begin_stop send_error force RunnerState.stopping r =
    if r.stop_deferred then record r { phase = Phase.stop_wait force } else escalate force r
begin_stop send_error force _ r = stop_live send_error force r

unfoldable pub begin : SendError → Op → Runner → Runner
unfolding begin_start begin_stop
begin send_error start_op r = begin_start r.state r
begin send_error (stop_op force) r = begin_stop send_error force r.state r

crash_on : Option Failure → Runner → Runner
crash_on none r = r
crash_on (some e) r = record r { crashed = true }

stop_goes_on : Option Failure → Phase → Runner → Runner
unfolding after_cleanup
stop_goes_on o (Phase.stop_cleanup force) r = after_cleanup force o r
stop_goes_on o _ r = r

-- One caller that awaited the cleanup goes on: an error marks the runner crashed.
unfoldable pub wake_cleanup_waiter : Option Failure → CleanupWaiter → Runner → Runner
unfolding crash_on stop_goes_on
wake_cleanup_waiter o stopper r = stop_goes_on o r.phase (crash_on o r)
wake_cleanup_waiter o fixtures r = emit (fixtures_done o) (crash_on o r)

unfoldable pub wake_waiters : Option Failure → List CleanupWaiter → Runner → Runner
wake_waiters o [] r = r
wake_waiters o (w ∷ ws) r = wake_waiters o ws (wake_cleanup_waiter o w r)

unfoldable pub wake_cleanup : Option (Option Failure) → Runner → Runner
unfolding wake_waiters
wake_cleanup none r = r
wake_cleanup (some o) r =
    wake_waiters o r.cleanup_waiters (record r { cleanup_outcome = none; cleanup_waiters = [] })

start_goes_on : Option (Option Failure) → Phase → Runner → Runner
unfolding finish_op start_failed
start_goes_on (some none) Phase.start_ack r =
    finish_op none (record r { state = RunnerState.started })
start_goes_on (some (some e)) Phase.start_ack r = start_failed e r
start_goes_on _ _ r = r

unfoldable pub wake_start : Runner → Runner
unfolding start_goes_on
wake_start r =
    let r' = start_goes_on r.start_outcome r.phase r in record r' { start_outcome = none }

stop_resolved : Phase → Runner → Runner
unfolding finish_op escalate
stop_resolved (Phase.stop_exit err) r = finish_op err r
stop_resolved (Phase.stop_wait force) r = escalate force r
stop_resolved _ r = r

unfoldable pub wake_stop : Runner → Runner
unfolding stop_resolved
wake_stop r = if r.stop_deferred then r else stop_resolved r.phase r

-- The awaits whose promises the last handler settled go on.
unfoldable pub wake : Runner → Runner
unfolding wake_start wake_cleanup wake_stop
wake r = let r' = wake_start r in wake_stop (wake_cleanup r'.cleanup_outcome r')

abbrev pub is_resting : Phase → Bool
is_resting Phase.resting = true
is_resting _ = false

-- The chain: each operation begins when the one before it has ended.
unfoldable pub run_queue : SendError → List Op → Runner → Runner
unfolding begin wake
run_queue send_error [] r = record r { queue = [] }
run_queue send_error (op ∷ ops) r =
    let r' = wake (begin send_error op r) in
    let rest = run_queue send_error ops r' in
    if is_resting r'.phase then rest else record r' { queue = ops }

-- After an event: the awaits go on, and then the queue, if no operation is under way.
unfoldable pub settle : SendError → Runner → Runner
unfolding wake run_queue
settle send_error r =
    let r' = wake r in if is_resting r'.phase then run_queue send_error r'.queue r' else r'
