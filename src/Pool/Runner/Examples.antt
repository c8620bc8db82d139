-- ===== src/Pool/Runner/Examples.antt =====
-- Runs of the runner of poolRunner.ts.
use rstest.Prelude.{◌+◌, ◌≡◌, false, List, [], ◌∷◌, none, some}
use rstest.Pool.Runner.State.{pass, Exit, TestFileResult, run, WorkerResponse, Message, Runner, new}
use rstest.Pool.Runner.Lifecycle.{SendError}
use rstest.Pool.Runner.Step.{
  Event, call_start, call_stop, call_task, message, exit, worker_started, stderr_settles, step,
  steps,
}
use rstest.Pool.Runner.Invariant.{Between, run-Between}
use rstest.Pool.Runner.Wakeups.{Awaits, run-Awaits}
use rstest.Pool.Runner.Settlement.{settlements, pending, accepted, settled_once}
use rstest.Pool.Runner.Exit.{Released, exit-Released}
use rstest.Pool.Runner.Departure.{with_rejection}
use rstest.Pool.Runner.Handlers.{exit_failure, is_stopping}
use rstest.Pool.Runner.Graph.{◌⟶*◌, run_transitions}

abbrev sends : SendError
sends request = none

abbrev killed : Exit
killed = record { code = none; signal = some "SIGKILL" }

abbrev passed : TestFileResult
passed = record {
  project = "web";
  test_path = "a.test.ts";
  status = pass;
  errors = [];
  payload = 0;
}

abbrev response : WorkerResponse → Event
response r = message (Message.response_envelope r)

-- A worker starts, runs a task, and hosts a second one.
abbrev session : List Event
session =
    call_start
    ∷ worker_started
    ∷ response WorkerResponse.started
    ∷ call_task run 1
    ∷ response (WorkerResponse.file_cleanup_started 1 (some passed))
    ∷ response (WorkerResponse.run_finished 1 passed)
    ∷ call_task run 2
    ∷ []

-- The worker reports a fatal error, and exits while stderr settles.
abbrev crash : List Event
crash =
    response (WorkerResponse.fatal_error "out of memory")
    ∷ exit killed
    ∷ stderr_settles
    ∷ call_stop false
    ∷ []

abbrev fresh : Runner
fresh = new 1 "node"

run-Between_example : Between (steps sends session (new 1 "node"))
run-Between_example = run-Between sends session 1 "node"

run-Awaits_example : Awaits (steps sends session (new 1 "node"))
run-Awaits_example = run-Awaits sends session 1 "node"

settled_once_example :
    settlements 2 (steps sends crash (steps sends session fresh))
      + pending 2 (steps sends crash (steps sends session fresh))
    ≡ settlements 2 (steps sends session fresh)
      + pending 2 (steps sends session fresh)
      + accepted 2 sends crash (steps sends session fresh)
settled_once_example = settled_once 2 sends crash (steps sends session fresh)

exit-Released_example :
    let r = steps sends session (new 1 "node") in
    ((step sends (exit killed) r).settling
      ≡ with_rejection
          (exit_failure r.last_fatal_error (is_stopping r.state) killed)
          r.current_task
          r.settling)
    × Released (steps sends crash (step sends (exit killed) r))
exit-Released_example = exit-Released sends killed session crash 1 "node"

run_transitions_example :
    (steps sends session (new 1 "node")).state
    ⟶* (step sends (exit killed) (steps sends session (new 1 "node"))).state
run_transitions_example = run_transitions sends session (exit killed) 1 "node"
