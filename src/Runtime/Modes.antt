-- ===== src/Runtime/Modes.antt =====
-- packages/core/src/runtime/runner/task.ts: which tests run, from their modes.
--
-- The source keeps in a map, for each suite, whether some test below it is `only`; the map is filled
-- before a mode changes, and a suite is visited before the tests below it, so `collect_only_tests` of
-- its tests is that entry. `skips` stands for the test of the name pattern.
pub mod Selection
use text.Mathlib.Text.{◌==◌ as str_eq}
use rstest.Prelude.{Bool, true, false, not, ◌&&◌, ◌||◌, if◌then◌else◌, String, List, [], ◌∷◌, ◌++◌}
use rstest.Runtime.Tree.{
  RunMode, run, skip, todo, TestCase, TestSuite, Test, case, suite, Tests, end, test, is_run,
  is_only, is_todo, is_blocked, is_active, mode_of, is_empty,
}

unfoldable mutual
  pub collect_only_tests : Tests → Bool
  collect_only_tests end = false
  collect_only_tests (test t ts) = collect_only_test t || collect_only_tests ts

  pub collect_only_test : Test → Bool
  collect_only_test (case c) = is_only c.run_mode
  collect_only_test (suite s ts) = is_only s.run_mode || collect_only_tests ts

unfoldable pub should_test_skip : (TestCase → Bool) → TestCase → Bool → Bool
should_test_skip skips c run_only = run_only && not (is_only c.run_mode) || skips c

-- The mode that a suite takes from its parent.
abbrev pub suite_mode : RunMode → RunMode → Bool → Bool → RunMode
suite_mode mode parent run_only have_only =
    if run_only && not (is_only mode) && not have_only
    then skip
    else if is_blocked parent
    then parent
    else mode

-- `runSubOnly`
abbrev pub sub_only : RunMode → Bool → Bool → Bool
sub_only mode run_only have_only = if run_only && not (is_only mode) then run_only else have_only

-- `hasRunTest`
abbrev pub has_run_test : Tests → Bool
has_run_test end = false
has_run_test (test t ts) = is_active (mode_of t) || has_run_test ts

abbrev pub is_runnable : Test → Bool
is_runnable (case c) = is_active c.run_mode
is_runnable (suite s ts) = s.has_runnable_tests

-- `hasRunnableTests`
unfoldable pub has_runnable : Tests → Bool
has_runnable end = false
has_runnable (test t ts) = is_runnable t || has_runnable ts

-- `allTodoTest`
abbrev pub all_todo : Tests → Bool
all_todo end = true
all_todo (test t ts) = is_todo (mode_of t) && all_todo ts

-- The mode that a suite takes from its tests.
abbrev pub closing_mode : RunMode → Tests → RunMode
closing_mode mode ts =
    if is_run mode
    then if has_run_test ts then run else if all_todo ts then todo else skip
    else mode

abbrev pub inherit_mode : RunMode → TestCase → TestCase
inherit_mode mode c = if is_blocked mode then record c { run_mode = mode } else c

abbrev pub skip_if : Bool → TestCase → TestCase
skip_if b c = if b then record c { run_mode = skip } else c

unfoldable pub update_case : (TestCase → Bool) → RunMode → Bool → TestCase → TestCase
unfolding should_test_skip
update_case skips mode run_only c =
    let c' = inherit_mode mode c in skip_if (should_test_skip skips c' run_only) c'

-- `traverseUpdateTestRunModeWithContext` on a suite; on a case, the body of its loop.
unfoldable mutual
  unfolding collect_only_tests update_case has_runnable

  pub update_test : (TestCase → Bool) → RunMode → Bool → Test → Test
  update_test skips parent run_only (case c) = case (update_case skips parent run_only c)
  update_test skips parent run_only (suite s ts) =
      let have_only = collect_only_tests ts in
      let mode = suite_mode s.run_mode parent run_only have_only in
      let ts' = update_tests skips mode (sub_only mode run_only have_only) ts in
      if is_empty ts
      then suite (record s { has_runnable_tests = false }) ts
      else suite
          (record s { run_mode = closing_mode mode ts'; has_runnable_tests = has_runnable ts' }) ts'

  pub update_tests : (TestCase → Bool) → RunMode → Bool → Tests → Tests
  update_tests skips parent run_only end = end
  update_tests skips parent run_only (test t ts) =
      test (update_test skips parent run_only t) (update_tests skips parent run_only ts)

-- `updateTestModes`: at the top of the file no mode is inherited.
unfoldable pub update_test_modes : (TestCase → Bool) → Tests → Tests
unfolding update_test
update_test_modes skips ts = update_tests skips run (collect_only_tests ts) ts

abbrev pub root_suite_name : String
root_suite_name = "Rstest:_internal_root_suite"

-- `updateTestParents`, and `traverseUpdateTest` with it.
unfoldable mutual
  pub update_test_parents : List String → Tests → Tests
  update_test_parents parents end = end
  update_test_parents parents (test t ts) =
      test (update_test_parent parents t) (update_test_parents parents ts)

  pub update_test_parent : List String → Test → Test
  update_test_parent parents (case c) = case (record c { parent_names = parents })
  update_test_parent parents (suite s ts) =
      suite (record s { parent_names = parents })
        (update_test_parents
          (if str_eq s.name root_suite_name then parents else parents ++ s.name ∷ []) ts)

unfoldable pub traverse_update_test : (TestCase → Bool) → Tests → Tests
unfolding update_test_modes update_test_parents
traverse_update_test skips ts = update_test_modes skips (update_test_parents [] ts)

unfoldable mutual
  pub mark_all_test_as_skipped : Tests → Tests
  mark_all_test_as_skipped end = end
  mark_all_test_as_skipped (test t ts) = test (mark_test t) (mark_all_test_as_skipped ts)

  pub mark_test : Test → Test
  mark_test (case c) = case (record c { run_mode = skip })
  mark_test (suite s ts) = suite (record s { run_mode = skip }) (mark_all_test_as_skipped ts)
