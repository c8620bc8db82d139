-- ===== src/Pool/Scheduler/State.antt =====
-- The fields of `Pool` in pool.ts, and its worker ids.
--
-- `cleared_runners` are those that `close` has dropped from `activeRunners` while their calls still hold
-- them, and `handed_errors` the stop errors that a caller of the pool has received. A runner is known by
-- its worker id and its environment; what it answers to `isUsable`, and the memory gate to
-- `canSpawnNewWorker`, comes with each event.
use text.Mathlib.Text.{◌==◌ as str_eq}
use rstest.Prelude.{
  ℕ, zero, suc, ◌+◌, ◌==◌, Bool, false, not, if◌then◌else◌, String, List, [], ◌∷◌, Option, none,
  some, length, keep, any,
}

pub record Worker : Type 0 where
  pub worker_id : ℕ
  pub environment_key : String

pub record Task : Type 0 where
  pub task_id : ℕ
  pub task_environment : String

-- What a call of `dispatch` has been given.
pub data Grant : Type 0 where
  reused spawned : Worker → Grant
  pool_closed no_free_id : Grant

pub record Pool : Type 0 where
  pub max_workers : ℕ
  pub min_workers : ℕ
  pub isolate : Bool
  pub idle_runners : List Worker
  pub active_runners : List Worker
  pub stopping_runners : List Worker
  pub cleared_runners : List Worker
  pub worker_stop_errors : List String
  pub handed_errors : List String
  pub slot_waiters : List Task
  pub woken : List Task
  pub slot_in_use : List ℕ
  pub reported_environment_fallbacks : List String
  pub gate_polls : Bool
  pub is_closing : Bool
  pub is_closed : Bool
  pub grants : List (Task × Grant)

pub record Env : Type 0 where
  pub usable : Worker → Bool
  pub can_spawn : ℕ → Bool

-- The constructor of the class.
unfoldable pub new : ℕ → ℕ → Bool → Pool
new max min isolate = record {
  max_workers = max;
  min_workers = min;
  isolate = isolate;
  idle_runners = [];
  active_runners = [];
  stopping_runners = [];
  cleared_runners = [];
  worker_stop_errors = [];
  handed_errors = [];
  slot_waiters = [];
  woken = [];
  slot_in_use = [];
  reported_environment_fallbacks = [];
  gate_polls = false;
  is_closing = false;
  is_closed = false;
  grants = [];
}

abbrev pub has_id : ℕ → Worker → Bool
has_id id w = w.worker_id == id

abbrev pub holds : String → Worker → Bool
holds key w = str_eq w.environment_key key

-- `Set.delete`
abbrev pub delete : ℕ → List Worker → List Worker
delete id ws = keep (λ w. not (has_id id w)) ws

abbrev pub find_worker : ℕ → List Worker → Option Worker
find_worker id [] = none
find_worker id (w ∷ ws) = if has_id id w then some w else find_worker id ws

abbrev pub in_flight_count : Pool → ℕ
in_flight_count p = length p.active_runners + length p.idle_runners + length p.stopping_runners

-- The loop of `acquireWorkerId` over the `n` ids from `i`.
unfoldable pub free_id_from : ℕ → ℕ → List ℕ → Option ℕ
free_id_from zero i used = none
free_id_from (suc n) i used =
    let rest = free_id_from n (suc i) used in if any (λ j. j == i) used then rest else some i

unfoldable pub acquire_worker_id : ℕ → List ℕ → Option ℕ
unfolding free_id_from
acquire_worker_id max used = free_id_from max 1 used

unfoldable pub release_worker_id : ℕ → List ℕ → List ℕ
release_worker_id id used = keep (λ j. not (j == id)) used

-- `findLastIndex` and `splice`: the last idle runner of the environment, and the others.
unfoldable pub take_last : String → List Worker → Option (Worker × List Worker)
take_last key [] = none
take_last key (w ∷ ws) = elim (take_last key ws) [
  | some (found, rest) ↦ some (found, w ∷ rest)
  | none ↦ if holds key w then some (w, ws) else none
]
