-- ===== src/Runtime/FileRun.antt =====
-- packages/core/src/runtime/runner/runner.ts: the suites of a file, and the file.
--
-- The tests run one after the other, in their order. For a file with concurrent tests this is one order
-- of many in which `runTests` can start and end them: they share no state but the lists of the file, to
-- which each appends when it ends, and `bails` is asked test by test. A hook of a suite runs once.
pub mod Failures
pub mod Reports
pub mod Skipping
pub mod Marking
use Prim.Native.String.{◌++◌ as ◌+++◌}
use rstest.Prelude.{
  ℕ, Bool, true, false, not, ◌&&◌, ◌||◌, if◌then◌else◌, String, List, [], ◌∷◌, ◌++◌, Option, none,
  some,
}
use mathlib.Core.List.{reverse}
use rstest.Runtime.Tree.{
  RunMode, skip, Number, TestCase, TestSuite, Test, case, suite, Tests, end, test, Status,
  pass_status, fail_status, skip_status, get_test_status, is_active, is_blocked, is_empty,
}
use rstest.Runtime.Attempt.{World, Outcome, returned, threw, TestError, Attempt}
use rstest.Runtime.Retry.{CaseResult, run_case}

-- What the run is given. `bails` says of a test whether the count of failed tests has reached the limit
-- when it comes to it.
pub record Setting : Type 0 where
  pub bails : ℕ → Bool
  pub pass_with_no_tests : Bool
  pub retry : Option Number
  pub suite_hook : ℕ → Outcome
  pub worlds : ℕ → World

-- `results` and `errors`; `defaultStatus` is 'skip' or else 'pass'.
pub record FileState : Type 0 where
  pub results : List (ℕ × CaseResult)
  pub errors : List TestError
  pub default_skip : Bool

pub record Report : Type 0 where
  pub status : Status
  pub errors : List TestError

abbrev pub skip_report : Report
skip_report = record { status = skip_status; errors = [] }

abbrev pub default_status : FileState → Status
default_status g = if g.default_skip then skip_status else pass_status

abbrev pub no_errors : List TestError → Bool
no_errors [] = true
no_errors (e ∷ es) = false

abbrev pub new_attempt : Attempt
new_attempt = record { log = []; on_finished = []; on_failed = []; fixture_cleanups = [] }

-- The `beforeAll` hooks: what they return, and the errors, if any. The first error ends the loop.
pub record SuiteStart : Type 0 where
  pub cleanups : List ℕ
  pub failed : Bool
  pub errors : List TestError

abbrev pub start_next : Outcome → List ℕ → SuiteStart → SuiteStart
start_next (returned none) cleanups rest = rest
start_next (returned (some x)) cleanups rest = rest
start_next (threw e) cleanups rest = record {
  cleanups = cleanups;
  failed = true;
  errors = e.errors;
}

abbrev pub push_cleanup : Outcome → List ℕ → List ℕ
push_cleanup (returned (some x)) cleanups = cleanups ++ x ∷ []
push_cleanup _ cleanups = cleanups

unfoldable pub run_before_all : Setting → List ℕ → List ℕ → SuiteStart
run_before_all k [] cleanups = record { cleanups = cleanups; failed = false; errors = [] }
run_before_all k (fn ∷ fns) cleanups =
    let o = k.suite_hook fn in
    start_next o cleanups (run_before_all k fns (push_cleanup o cleanups))

abbrev pub after_next : Outcome → List TestError → List TestError
after_next (returned x) rest = rest
after_next (threw e) rest = e.errors

-- The `afterAll` hooks: the errors of the first one that throws, which ends the loop.
unfoldable pub run_after_all : Setting → List ℕ → List TestError
run_after_all k [] = []
run_after_all k (fn ∷ fns) = after_next (k.suite_hook fn) (run_after_all k fns)

abbrev pub mode_if : Bool → RunMode → RunMode
mode_if marked mode = if marked then skip else mode

abbrev pub mark_if : Bool → TestCase → TestCase
mark_if marked c = record c { run_mode = mode_if marked c.run_mode }

-- `shouldRunSuiteHooks`
abbrev pub runs_hooks : Bool → TestSuite → Bool
runs_hooks marked s = s.has_runnable_tests && is_active (mode_if marked s.run_mode)

unfoldable pub start_suite : Setting → Bool → TestSuite → SuiteStart
unfolding run_before_all
start_suite k marked s =
    if runs_hooks marked s
    then run_before_all k s.before_all []
    else record { cleanups = []; failed = false; errors = [] }

unfoldable pub end_suite : Setting → Bool → TestSuite → List ℕ → List TestError
unfolding run_after_all
end_suite k marked s cleanups =
    if runs_hooks marked s then run_after_all k (reverse s.after_all ++ cleanups) else []

abbrev pub suite_error : TestSuite → TestError
suite_error s = record { message = "No test found in suite: " +++ s.name; retry_count = none }

-- A suite without tests.
unfoldable pub run_empty : Setting → Bool → TestSuite → FileState → Report × FileState
run_empty k marked s g =
    if is_blocked (mode_if marked s.run_mode)
    then (skip_report, record g { default_skip = true })
    else if k.pass_with_no_tests
    then (record { status = pass_status; errors = [] }, g)
    else (
      record { status = fail_status; errors = suite_error s ∷ [] },
      record g { errors = g.errors ++ suite_error s ∷ [] },
    )

abbrev pub statuses : List Report → List Status
statuses [] = []
statuses (r ∷ rs) = r.status ∷ statuses rs

-- The end of a suite with tests, whose results are `rs`.
unfoldable pub close_suite : List TestError → List Report → FileState → Report × FileState
unfolding get_test_status
close_suite errors rs g = (
  record {
    status =
        if no_errors errors then get_test_status (statuses rs) (default_status g) else fail_status;
    errors = errors;
  },
  record g { errors = g.errors ++ errors },
)

-- A test that is not reached.
abbrev pub bail_out : FileState → Report × FileState
bail_out g = (skip_report, record g { default_skip = true })

unfoldable pub report_case :
    Setting → Bool → List ℕ → List ℕ → TestCase → FileState → Report × FileState
unfolding run_case
report_case k marked before after c g =
    let x = run_case (k.worlds c.test_id) (mark_if marked c) k.retry before after new_attempt in
    (
      record { status = x.case_result.result.status; errors = x.case_result.result.errors },
      record g { results = g.results ++ (c.test_id, x.case_result) ∷ [] },
    )

-- `runTests` and `runTest`; `marked` says that `markAllTestAsSkipped` has been called on a list of tests
-- with this one in it or below it.
unfoldable mutual
  unfolding start_suite end_suite run_empty close_suite report_case

  pub run_tests : Setting → Bool → List ℕ → List ℕ → Tests → FileState → List Report × FileState
  run_tests k marked before after end g = ([], g)
  run_tests k marked before after (test t ts) g =
      let (r, g1) = run_test k marked before after t g in
      let (rs, g2) = run_tests k marked before after ts g1 in (r ∷ rs, g2)

  pub run_test : Setting → Bool → List ℕ → List ℕ → Test → FileState → Report × FileState
  run_test k marked before after (case c) g =
      if k.bails c.test_id then bail_out g else report_case k marked before after c g
  run_test k marked before after (suite s ts) g =
      let start = start_suite k marked s in
      let (rs, g1) =
        run_tests k (marked || start.failed) (before ++ s.before_each) (after ++ s.after_each) ts
          g in
      let errors = start.errors ++ end_suite k marked s start.cleanups in
      if k.bails s.test_id
      then bail_out g
      else if is_empty ts
      then run_empty k marked s g
      else close_suite errors rs g1

pub record FileResult : Type 0 where
  pub status : Status
  pub results : List (ℕ × CaseResult)
  pub errors : List TestError

abbrev pub result_statuses : List (ℕ × CaseResult) → List Status
result_statuses [] = []
result_statuses (x ∷ xs) = x.1.result.status ∷ result_statuses xs

abbrev pub file_error : String → TestError
file_error path = record { message = "No test suites found in file: " +++ path; retry_count = none }

abbrev pub start_file : FileState
start_file = record { results = []; errors = []; default_skip = false }

abbrev pub file_end : FileState → FileResult
file_end g = record {
  status =
      if no_errors g.errors
      then get_test_status (result_statuses g.results) (default_status g)
      else fail_status;
  results = g.results;
  errors = g.errors;
}

-- `TestRunner.runTests`
unfoldable pub run_file : Setting → String → Tests → FileResult
unfolding run_tests get_test_status
run_file k path ts =
    if is_empty ts
    then if k.pass_with_no_tests
      then record { status = pass_status; results = []; errors = [] }
      else record { status = fail_status; results = []; errors = file_error path ∷ [] }
    else file_end (run_tests k false [] [] ts start_file).1

-- `cleanupFileFixtures`, for a file that has a result.
unfoldable pub cleanup_file_fixtures : Outcome → FileResult → FileResult
cleanup_file_fixtures (returned x) r = r
cleanup_file_fixtures (threw e) r = record r { status = fail_status; errors = r.errors ++ e.errors }
