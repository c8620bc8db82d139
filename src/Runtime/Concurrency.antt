-- ===== src/Runtime/Concurrency.antt =====
-- packages/core/src/runtime/runner/task.ts: `limitConcurrency`, which runs the cases of a group.
--
-- `started` lists the tasks in the order in which they start, `settled` those whose promise has settled,
-- the newest first. A task settles at an event of its own, at any later point.
pub mod Limits
use rstest.Prelude.{
  ℕ, suc, ◌-◌, ltb, ◌==◌, Bool, true, if◌then◌else◌, List, [], ◌∷◌, ◌++◌, Option, none, some, any,
}

pub record Limiter : Type 0 where
  pub running : ℕ
  pub active : List ℕ
  pub queue : List ℕ
  pub started : List ℕ
  pub settled : List ℕ

pub data Event : Type 0 where
  call finish : ℕ → Event

unfoldable pub new : Limiter
new = record { running = 0; active = []; queue = []; started = []; settled = [] }

-- `running < concurrency`, where no limit is infinity.
abbrev pub has_room : Option ℕ → ℕ → Bool
has_room none running = true
has_room (some limit) running = ltb running limit

-- `running++`, and the task.
abbrev pub start : ℕ → List ℕ → Limiter → Limiter
start id queue l = record l {
  running = suc l.running;
  active = id ∷ l.active;
  queue = queue;
  started = l.started ++ id ∷ [];
}

unfoldable pub run_next : Option ℕ → List ℕ → Limiter → Limiter
run_next limit [] l = l
run_next limit (id ∷ rest) l = if has_room limit l.running then start id rest l else l

unfoldable pub add_task : Option ℕ → ℕ → Limiter → Limiter
add_task limit id l =
    if has_room limit l.running then start id l.queue l else record l { queue = l.queue ++ id ∷ [] }

unfoldable pub remove_one : ℕ → List ℕ → List ℕ
remove_one id [] = []
remove_one id (x ∷ xs) = if id == x then xs else x ∷ remove_one id xs

abbrev pub release : ℕ → Limiter → Limiter
release id l = record l {
  running = l.running - 1;
  active = remove_one id l.active;
  settled = id ∷ l.settled;
}

-- The `finally` of a task that runs.
unfoldable pub finish_task : Option ℕ → ℕ → Limiter → Limiter
unfolding run_next remove_one
finish_task limit id l = if any (id ==◌) l.active then run_next limit l.queue (release id l) else l

unfoldable pub step : Option ℕ → Event → Limiter → Limiter
unfolding add_task finish_task
step limit (call id) l = add_task limit id l
step limit (finish id) l = finish_task limit id l

unfoldable pub run_events : Option ℕ → List Event → Limiter → Limiter
unfolding step
run_events limit [] l = l
run_events limit (e ∷ es) l = run_events limit es (step limit e l)

-- The tasks that have been handed over, in their order.
unfoldable pub calls_of : List Event → List ℕ
calls_of [] = []
calls_of (call id ∷ es) = id ∷ calls_of es
calls_of (finish id ∷ es) = calls_of es
