-- ===== src/Browser/Examples.antt =====
-- Headed runs and watch cycles of packages/browser.
use rstest.Prelude.{
  ◌+◌, ◌≡◌, ◌≤◌, ◌<◌, refl, true, false, not, ◌&&◌, ◌||◌, String, List, [], ◌∷◌, none, any, map,
  count_if, arith,
}
use text.Mathlib.Text.{◌==◌ as str_eq}
use rstest.Browser.RunRegistry.{
  Registry, new, admit, Event, mints, admits, resolves, boot_fires, retains, sets_epoch, steps,
}
use rstest.Browser.RunRegistry.Settlement.{settlements, tabled, mintings, run_settled_once}
use rstest.Browser.RunRegistry.Ownership.{ends, owned, claimed_kept}
use rstest.Browser.WatchPlanner.{
  TestFileInfo, ProjectEntry, WatchState, no_affected_files, idle, member, paths_of,
  normalize_test_files, collect_watch_test_files, is_changed, plan_watch_rerun,
  commit_watch_file_set_update,
}
use rstest.Browser.WatchPlanner.Cycle.{
  rerun_paths, deleted_paths, plan_watch_rerun_lem, commit-settles,
}
use rstest.Prelude.{some}
use rstest.Browser.Dispatch
use rstest.Browser.Dispatch.{Lifecycle, Request, Answer, Router, Response, result, stale, dispatch}
use rstest.Browser.Dispatch.Stale.{dispatch-stale}

-- Two runs of one file, the first of which the second replaces; the second ends.
abbrev cycle : List Event
cycle = mints "a.test.ts" 1 ∷ mints "a.test.ts" 2 ∷ admits 2 true ∷ boot_fires 2 ∷ resolves 2 ∷ []

cycle-fresh : settlements 1 new + tabled 1 new + mintings 1 cycle ≤ 1
unfolding new
cycle-fresh = omega arith

run_settled_once_example :
    settlements 1 (steps cycle new) + tabled 1 (steps cycle new)
    ≡ settlements 1 new + tabled 1 new + mintings 1 cycle
run_settled_once_example = run_settled_once 1 cycle new cycle-fresh

abbrev sweeps : List Event
sweeps = retains [] ∷ sets_epoch 3 ∷ boot_fires 2 ∷ resolves 1 ∷ []

abbrev minted_run : Registry
minted_run = steps (mints "a.test.ts" 2 ∷ []) new

minted_run-claims :
    (settlements 2 minted_run + tabled 2 minted_run + mintings 2 sweeps ≤ 1)
    × ((admit 2 true minted_run).0 ≡ true)
    × (any (ends 2) sweeps ≡ false)
unfolding new steps admit
minted_run-claims = (omega arith, refl, refl)

claimed_kept_example :
    (0 < owned 2 (steps sweeps (admit 2 true minted_run).1))
    × (settlements 2 (steps sweeps (admit 2 true minted_run).1) ≡ 0)
    × ((admit 2 true (steps sweeps (admit 2 true minted_run).1)).0 ≡ false)
claimed_kept_example =
    claimed_kept 2 sweeps minted_run minted_run-claims.0 minted_run-claims.1 minted_run-claims.2

abbrev unchanged : String → String
unchanged path = path

abbrev entries : List ProjectEntry
entries = record { name = "web"; test_files = "a.test.ts" ∷ "b.test.ts" ∷ [] } ∷ []

abbrev previous : List TestFileInfo
previous =
    record { project_name = "web"; test_path = "a.test.ts" }
    ∷ record { project_name = "web"; test_path = "c.test.ts" }
    ∷ []

plan_watch_rerun_lem_example :
    let current = collect_watch_test_files unchanged entries in
    let changed = is_changed unchanged current previous in
    let plan = plan_watch_rerun unchanged entries previous ("b.test.ts" ∷ []) in
    (member "b.test.ts" (rerun_paths plan.decision) ≡ (
      member "b.test.ts" (paths_of current)
      && (changed || member "b.test.ts" (map unchanged ("b.test.ts" ∷ [])))))
    × (count_if (λ p. str_eq p "b.test.ts") (rerun_paths plan.decision) ≤ 1)
    × (member "b.test.ts" (deleted_paths plan.file_set_update) ≡ (
        changed
        && (member "b.test.ts" (paths_of (normalize_test_files unchanged previous))
            && not (member "b.test.ts" (paths_of current)))))
plan_watch_rerun_lem_example =
    plan_watch_rerun_lem unchanged "b.test.ts" entries previous ("b.test.ts" ∷ [])

abbrev watched : WatchState
watched = record { last_test_files = previous; pruned = [] }

commit-settles_example :
    let plan = plan_watch_rerun unchanged entries watched.last_test_files ("a.test.ts" ∷ []) in
    let s' = commit_watch_file_set_update plan.file_set_update watched in
    plan_watch_rerun unchanged entries s'.last_test_files []
    ≡ record { file_set_update = none; decision = idle no_affected_files }
commit-settles_example = commit-settles unchanged (λ p. refl) entries ("a.test.ts" ∷ []) watched

-- A request of the first run, which reaches the host when the second one is active.
abbrev late_request : Request
late_request = record {
  request_id = "r1";
  run_token = some 1;
  namespace = "runner";
  method = "case-start";
}

abbrev one_handler : Router
one_handler = record { handlers = ("runner", 7) ∷ []; handled = []; stale_requests = [] }

abbrev first_run : Lifecycle
first_run = Dispatch.steps (Dispatch.creates ∷ []) Dispatch.new

abbrev later_events : List Dispatch.Event
later_events = Dispatch.cancels 1 ∷ Dispatch.creates ∷ []

abbrev late_answer : Response × Router
late_answer =
    dispatch (λ h q. result h) (Dispatch.steps later_events first_run) late_request one_handler

dispatch-stale_example : (late_answer.0.answer ≡ stale) × (late_answer.1.handled ≡ [])
unfolding Dispatch.steps Dispatch.new
dispatch-stale_example =
    dispatch-stale (λ h q. result h) first_run later_events late_request one_handler 1 refl
      (omega arith) refl
