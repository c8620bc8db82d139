-- ===== src/Runtime/FileRun/Marking.antt =====
-- packages/core/src/runtime/runner: the tests below a suite whose `beforeAll` fails.
use rstest.Prelude.{ℕ, true, false, List, [], ◌++◌, ◌≡◌, refl, arith}
use rstest.Runtime.Tree.{skip, TestSuite, Test, case, suite, Tests, end, test, is_empty}
use rstest.Runtime.Modes.{mark_all_test_as_skipped, mark_test}
use rstest.Runtime.FileRun.{
  Setting, SuiteStart, FileState, run_empty, report_case, start_suite, end_suite, run_tests,
  run_test,
}

abbrev no_start : SuiteStart
no_start = record { cleanups = []; failed = false; errors = [] }

marked-start : (k : Setting) (s : TestSuite) → start_suite k true s ≡ no_start
unfolding start_suite
marked-start k s = ground arith

skipped-start :
    (k : Setting) (s : TestSuite) → start_suite k false (record s { run_mode = skip }) ≡ no_start
unfolding start_suite
skipped-start k s = ground arith

marked-end :
    (k : Setting) (s : TestSuite) (cs : List ℕ)
    → end_suite k true s cs ≡ end_suite k false (record s { run_mode = skip }) cs
unfolding end_suite
marked-end k s cs = refl

marked-empty : (ts : Tests) → is_empty (mark_all_test_as_skipped ts) ≡ is_empty ts
unfolding mark_all_test_as_skipped
marked-empty end = refl
marked-empty (test t ts) = refl

mutual
  unfolding run_tests mark_all_test_as_skipped run_empty report_case

  run_tests-marked :
      (k : Setting) (before after : List ℕ) (ts : Tests) (g : FileState)
      → run_tests k true before after ts g
        ≡ run_tests k false before after (mark_all_test_as_skipped ts) g
  run_tests-marked k before after end g = refl
  run_tests-marked k before after (test t ts) g =
      let x = run_test k false before after (mark_test t) g in
      rw (run_test-marked k before after t g, run_tests-marked k before after ts x.1) refl

  run_test-marked :
      (k : Setting) (before after : List ℕ) (t : Test) (g : FileState)
      → run_test k true before after t g ≡ run_test k false before after (mark_test t) g
  run_test-marked k before after (case c) g = refl
  run_test-marked k before after (suite s ts) g =
      let h = run_tests-marked k (before ++ s.before_each) (after ++ s.after_each) ts g in
      rw (marked-start k s, marked-empty ts, h) refl

-- When a `beforeAll` hook throws, the source marks the tests below as skipped and then runs them; the
-- run of tests with the mark set is the run of the tests that are so marked.
pub run_tests-mark_all :
    (k : Setting) (before after : List ℕ) (ts : Tests) (g : FileState)
    → run_tests k true before after ts g
      ≡ run_tests k false before after (mark_all_test_as_skipped ts) g
run_tests-mark_all k before after ts g = run_tests-marked k before after ts g
