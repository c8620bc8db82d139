-- ===== src/Results/Examples.antt =====
-- The state of a file that fails, at concrete events.
use rstest.Prelude.{◌+◌, [], ◌∷◌, none, ◌≡◌, refl}
use rstest.Runtime.Tree.{fail_status}
use rstest.Results.TestState.{
  TestResult, TestState, Event, case_result, file_result, step, get_count_of_failed_tests,
}
use rstest.Results.TestState.Count.{dropped, added, step-counts}

abbrev a_failure : TestResult
a_failure = record { test_id = 1; test_path = "a.test.ts"; status = fail_status }

abbrev at_start : TestState
at_start = record { running_modules = []; test_modules = []; test_files = none }

abbrev a_file : Event
a_file =
    file_result (record { test_path = "a.test.ts"; status = fail_status; results = a_failure ∷ [] })

abbrev streamed_one : TestState
streamed_one = step (case_result a_failure) at_start

-- The file's result does not count the failure again.
counts_once : get_count_of_failed_tests (step a_file streamed_one) ≡ 1
unfolding step get_count_of_failed_tests
counts_once = refl

step-counts_example :
    get_count_of_failed_tests (step a_file streamed_one) + dropped a_file streamed_one
    ≡ get_count_of_failed_tests streamed_one + added a_file
step-counts_example = step-counts a_file streamed_one
