-- ===== src/Pool/Runner/State.antt =====
-- The data of poolRunner.ts and protocol.ts, and the fields of `PoolRunner`.
--
-- A promise that the class keeps in a field is a Boolean: the field is set and the promise is
-- not settled. What a handler does to the outside is an entry of `out`, the newest first.
use rstest.Prelude.{ℕ, Bool, false, String, List, [], ◌∷◌, Option, none}

pub data RunnerState : Type 0 where
  idle starting started start_failure stopping stopped : RunnerState

pub data TaskKind : Type 0 where
  run collect : TaskKind

pub data Scope : Type 0 where
  file worker : Scope

-- `code` and `signal` of a worker's exit.
pub record Exit : Type 0 where
  pub code : Option ℕ
  pub signal : Option String

-- The errors that the class creates, and those that reach it from the worker or the transport.
pub data Failure : Type 0 where
  cannot_start : RunnerState → Failure
  not_started : TaskKind → RunnerState → Failure
  in_progress : Failure
  start_timeout : Failure
  no_deferred : Failure
  exited_before_ack : Exit → Failure
  exited_in_cleanup : Exit → Failure
  stopped_before_completion : Exit → Failure
  exited_unexpectedly : Exit → Failure
  cleanup_timeout : Failure
  fixture_timeout : Scope → Failure
  reported : String → Failure
  transport : String → Failure

pub data Status : Type 0 where
  pass fail skip todo : Status

-- `payload` stands for the fields that the host passes on unread.
pub record TestFileResult : Type 0 where
  pub project : String
  pub test_path : String
  pub status : Status
  pub errors : List Failure
  pub payload : ℕ

pub record PendingTask : Type 0 where
  pub kind : TaskKind
  pub task_id : ℕ
  pub provisional_result : Option TestFileResult

pub data TaskResult : Type 0 where
  run_result : TestFileResult → TaskResult
  collect_result : ℕ → TaskResult

-- How a task's promise settles.
pub data Outcome : Type 0 where
  resolved : TaskResult → Outcome
  rejected : Failure → Outcome

pub data WorkerRequest : Type 0 where
  start : ℕ → WorkerRequest
  cleanup : WorkerRequest
  task : TaskKind → ℕ → WorkerRequest

pub data WorkerResponse : Type 0 where
  started : WorkerResponse
  cleanup_finished : Option String → WorkerResponse
  worker_cleanup_started : ℕ → WorkerResponse
  worker_cleanup_finished : ℕ → Option String → WorkerResponse
  file_cleanup_started : ℕ → Option TestFileResult → WorkerResponse
  file_cleanup_finished : ℕ → WorkerResponse
  run_finished : ℕ → TestFileResult → WorkerResponse
  collect_finished : ℕ → ℕ → WorkerResponse
  test_environment_fallback : ℕ → WorkerResponse
  fatal_error : String → WorkerResponse

pub data Message : Type 0 where
  rpc_envelope : ℕ → Message
  response_envelope : WorkerResponse → Message
  unknown : Message

-- An operation of the chain that `runOperation` keeps.
pub data Op : Type 0 where
  start_op : Op
  stop_op : Bool → Op

-- What the running operation awaits; `resting` when none runs.
pub data Phase : Type 0 where
  resting : Phase
  start_worker : Phase
  start_ack : Phase
  stop_wait : Bool → Phase
  stop_escalate : Phase
  stop_cleanup : Bool → Phase
  stop_worker : Option Failure → Phase
  stop_exit : Option Failure → Phase

-- Who awaits the promise of a worker cleanup.
pub data CleanupWaiter : Type 0 where
  stopper fixtures : CleanupWaiter

pub data Effect : Type 0 where
  sent : WorkerRequest → Effect
  settled : ℕ → Outcome → Effect
  refused : TaskKind → Failure → Effect
  rpc_closed : Effect
  rpc_dispatched : ℕ → Effect
  fallback_reported : ℕ → Effect
  worker_start_called : Effect
  worker_stop_called : Bool → Effect
  op_done : Option Failure → Effect
  fixtures_done : Option Failure → Effect

pub record Runner : Type 0 where
  pub worker_id : ℕ
  pub environment_key : String
  pub state : RunnerState
  pub current_task : Option PendingTask
  pub rpc : Bool
  pub start_deferred : Bool
  pub start_outcome : Option (Option Failure)
  pub cleanup_deferred : Bool
  pub cleanup_outcome : Option (Option Failure)
  pub cleanup_waiters : List CleanupWaiter
  pub stop_deferred : Bool
  pub start_timer : Bool
  pub cleanup_timer : Bool
  pub fixture_timer : Option (ℕ × Scope)
  pub cleanup_completed : Bool
  pub last_fatal_error : Option Failure
  pub crashed : Bool
  pub settling : List (ℕ × Failure)
  pub phase : Phase
  pub queue : List Op
  pub has_child : Bool
  pub exited : Bool
  pub out : List Effect

-- The constructor of the class.
unfoldable pub new : ℕ → String → Runner
new id key = record {
  worker_id = id;
  environment_key = key;
  state = idle;
  current_task = none;
  rpc = false;
  start_deferred = false;
  start_outcome = none;
  cleanup_deferred = false;
  cleanup_outcome = none;
  cleanup_waiters = [];
  stop_deferred = false;
  start_timer = false;
  cleanup_timer = false;
  fixture_timer = none;
  cleanup_completed = false;
  last_fatal_error = none;
  crashed = false;
  settling = [];
  phase = resting;
  queue = [];
  has_child = false;
  exited = false;
  out = [];
}

abbrev pub emit : Effect → Runner → Runner
emit e r = record r { out = e ∷ r.out }
