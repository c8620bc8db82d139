-- ===== src/Runtime/Examples.antt =====
-- Runs of the test runner at concrete inputs.
use rstest.Prelude.{
  ℕ, suc, ◌+◌, ◌*◌, ◌≤◌, ◌<◌, ◌==◌, Bool, true, false, not, if◌then◌else◌, List, [], ◌∷◌, none,
  some, ◌≡◌, refl, ◌⊎◌, length, take, count_if,
}
use rstest.Runtime.Tree.{
  RunMode, run, only, todo, positive, TestCase, TestSuite, case, suite, Tests, end, test,
  has_failed, fail_status, sanitize_attempt_count,
}
use rstest.Runtime.Modes.{collect_only_tests, update_test_modes}
use rstest.Runtime.Modes.Selection.{
  runnable_ids, selected, Marked, update_test_modes-selects, update_test_modes-Marked,
}
use rstest.Runtime.Concurrency.{Event, call, finish, new, run_events, calls_of}
use rstest.Runtime.Concurrency.Limits.{run_events-first}
use rstest.Runtime.Attempt.{
  World, Log, resolve_test_fixtures, test_body, before_each, Outcome, returned, threw, Reply,
  TestError,
}
use rstest.Runtime.Attempt.Steps.{attempt, run_tests_case}
use rstest.Runtime.Attempt.Handlers.{run_tests_case-restores}
use rstest.Runtime.Attempt.Cleanups.{started, torn_down}
use rstest.Runtime.Attempt.Judgement.{failures}
use rstest.Runtime.Attempt.Verdict.{attempt-verdict}
use rstest.Runtime.Retry.{run_case, run_case_within, retry_of}
use rstest.Runtime.Retry.Count.{CaseEnds, run_case-counts}
use rstest.Runtime.Retry.Bounds.{run_case-bounded}
use rstest.Runtime.Retry.Keeps.{run_case-balanced}
use rstest.Runtime.FileRun.{
  Setting, new_attempt, start_suite, run_tests, run_test, run_file, start_file,
}
use rstest.Runtime.FileRun.Failures.{any_failed, run_file-fails}
use rstest.Runtime.FileRun.Reports.{result_ids, reached, is_sequential, run_tests-reports}
use rstest.Runtime.FileRun.Skipping.{runs_of, updated-runs, before_all-skips}
use rstest.Runtime.Fixtures
use rstest.Runtime.Fixtures.{
  Fixture, Fixtures, Behaviour, circular, resolve_calls, resolve_fixture_names,
}
use rstest.Prelude.{inr}
use rstest.Runtime.FixtureScopes.{Table, worker, file, normalize_named_fixture}
use rstest.Runtime.FixtureScopes.Safety.{all_safe, normalize_named_fixture-safe}

abbrev quiet : Reply
quiet = record {
  outcome = returned none;
  on_finished = [];
  on_failed = [];
  fixtures = [];
  resolves = true;
  pending = false;
}

abbrev an_error : TestError
an_error = record { message = "expected 3 to be 4"; retry_count = none }

abbrev thrown : Outcome
thrown = threw (record { is_skip = false; errors = an_error ∷ [] })

abbrev ran_body : Log → Bool
ran_body [] = false
ran_body ((test_body, o) ∷ log) = true
ran_body (x ∷ log) = ran_body log

-- Two fixtures; the body throws in the first attempt only; the first hook returns a cleanup and registers
-- a handler.
abbrev flaky : World
flaky log resolve_test_fixtures = record quiet { fixtures = 5 ∷ 6 ∷ [] }
flaky log test_body = if ran_body log then quiet else record quiet { outcome = thrown }
flaky log (before_each fn) = record quiet {
  outcome = if fn == 10 then returned (some 30) else returned none;
  on_finished = 40 ∷ [];
}
flaky log _ = quiet

abbrev a_case : ℕ → RunMode → TestCase
a_case id mode = record {
  concurrent = false;
  test_id = id;
  name = "adds";
  parent_names = [];
  run_mode = mode;
  retry = some (positive 2 5);
  repeats = some (positive 1 0);
  fails = false;
  has_fn = true;
}

abbrev a_suite : ℕ → RunMode → TestSuite
a_suite id mode = record {
  concurrent = false;
  test_id = id;
  name = "sum";
  parent_names = [];
  run_mode = mode;
  has_runnable_tests = true;
  before_each = 10 ∷ [];
  after_each = 20 ∷ [];
  before_all = 50 ∷ [];
  after_all = 60 ∷ [];
}

abbrev two_cases : Tests
two_cases = test (case (a_case 1 run)) (test (case (a_case 2 only)) end)

abbrev a_file : Tests
a_file = test (suite (a_suite 7 run) two_cases) (test (case (a_case 3 todo)) end)

abbrev a_setting : Outcome → Setting
a_setting hook = record {
  bails = λ id. id == 3;
  pass_with_no_tests = false;
  retry = none;
  suite_hook = λ fn. if fn == 50 then hook else returned none;
  worlds = λ id. flaky;
}

abbrev no_pattern : TestCase → Bool
no_pattern c = false

-- In the file above the focused case runs alone.
selects_one : runnable_ids (update_test_modes no_pattern a_file) ≡ 2 ∷ []
unfolding update_test_modes runnable_ids
selects_one = refl

retries_once :
    (run_case flaky (a_case 1 run) none (10 ∷ []) (20 ∷ []) new_attempt).case_result.retry_count ≡ 1
unfolding run_case run_case_within
retries_once = refl

update_test_modes-selects_example :
    runnable_ids (update_test_modes no_pattern a_file)
    ≡ selected no_pattern (not (collect_only_tests a_file)) a_file
update_test_modes-selects_example = update_test_modes-selects no_pattern a_file

update_test_modes-Marked_example : Marked (update_test_modes no_pattern a_file)
update_test_modes-Marked_example = update_test_modes-Marked no_pattern a_file

abbrev some_events : List Event
some_events = call 1 ∷ call 2 ∷ call 3 ∷ finish 2 ∷ call 4 ∷ []

run_events-first_example :
    ((run_events (some 2) some_events new).started
      ≡ take (2 + length (run_events (some 2) some_events new).settled) (calls_of some_events))
    × (length (run_events (some 2) some_events new).active ≤ 2)
run_events-first_example = run_events-first 2 some_events

attempt-verdict_example :
    ((has_failed (attempt flaky (a_case 1 run) (10 ∷ []) (20 ∷ []) new_attempt).0.status ≡ true)
      × (failures false []
          < failures false (attempt flaky (a_case 1 run) (10 ∷ []) (20 ∷ []) new_attempt).1.log))
    ⊎ ((has_failed (attempt flaky (a_case 1 run) (10 ∷ []) (20 ∷ []) new_attempt).0.status ≡ false)
        × (failures false (attempt flaky (a_case 1 run) (10 ∷ []) (20 ∷ []) new_attempt).1.log
            ≡ failures false []))
attempt-verdict_example = attempt-verdict flaky (a_case 1 run) (10 ∷ []) (20 ∷ []) new_attempt

run_tests_case-restores_example :
    ((run_tests_case flaky (a_case 1 run) (10 ∷ []) [] new_attempt).1.on_finished ≡ [])
    × ((run_tests_case flaky (a_case 1 run) (10 ∷ []) [] new_attempt).1.on_failed ≡ [])
run_tests_case-restores_example =
    run_tests_case-restores flaky (a_case 1 run) (10 ∷ []) [] new_attempt

run_case-balanced_example :
    started flaky 5 (run_case flaky (a_case 1 run) none (10 ∷ []) [] new_attempt).attempt.log
    ≡ torn_down 5 (run_case flaky (a_case 1 run) none (10 ∷ []) [] new_attempt).attempt.log
unfolding started torn_down
run_case-balanced_example =
    run_case-balanced flaky (a_case 1 run) none (10 ∷ []) [] 5 new_attempt refl

run_case-counts_example :
    CaseEnds
      (sanitize_attempt_count (some (positive 1 0)))
      0
      []
      (run_case flaky (a_case 1 run) none (10 ∷ []) [] new_attempt)
run_case-counts_example = run_case-counts flaky (a_case 1 run) none (10 ∷ []) [] new_attempt

run_case-bounded_example :
    (run_case_within
        (sanitize_attempt_count (retry_of (a_case 1 run) none) + 3)
        flaky
        (a_case 1 run)
        none
        []
        []
        new_attempt
      ≡ run_case flaky (a_case 1 run) none [] [] new_attempt)
    × (length (run_case_within 9 flaky (a_case 1 run) none [] [] new_attempt).history
        ≤ suc (sanitize_attempt_count (some (positive 1 0)))
          * suc (sanitize_attempt_count (retry_of (a_case 1 run) none)))
run_case-bounded_example = run_case-bounded 3 9 flaky (a_case 1 run) none [] [] new_attempt

run_file-fails_example :
    has_failed (run_file (a_setting thrown) "sum.test.ts" a_file).status
    ≡ any_failed (run_tests (a_setting thrown) false [] [] a_file start_file).0
run_file-fails_example = run_file-fails (a_setting thrown) "sum.test.ts" a_file refl

a_file-sequential : is_sequential a_file ≡ true
unfolding is_sequential
a_file-sequential = refl

run_tests-reports_example :
    result_ids (run_tests (a_setting thrown) false [] [] a_file start_file).1.results
    ≡ reached (a_setting thrown) a_file
run_tests-reports_example = run_tests-reports (a_setting thrown) a_file a_file-sequential

updated-runs_example :
    runs_of 2
      (run_tests
        (a_setting (returned none))
        false
        []
        []
        (update_test_modes no_pattern a_file)
        start_file).1.results
    ≤ count_if (2 ==◌) (selected no_pattern (not (collect_only_tests a_file)) a_file)
updated-runs_example = updated-runs (a_setting (returned none)) no_pattern a_file 2

before_all-skips_example :
    (runs_of 1
        (run_test
          (a_setting thrown)
          false
          []
          []
          (suite (a_suite 7 run) two_cases)
          start_file).1.results
      ≤ 0)
    × ((run_test
          (a_setting thrown)
          false
          []
          []
          (suite (a_suite 7 run) two_cases)
          start_file).0.status
        ≡ fail_status)
unfolding start_suite
before_all-skips_example =
    before_all-skips (a_setting thrown) false [] [] (a_suite 7 run) two_cases start_file 1 refl refl
      refl refl

abbrev an_fn : List ℕ → Fixture
an_fn deps = record { scoped = false; is_fn = true; deps = deps; auto = false }

-- The third fixture needs the other two; the last two need each other.
abbrev some_fixtures : Fixtures
some_fixtures =
    (1, an_fn [])
    ∷ (2, an_fn (1 ∷ []))
    ∷ (3, an_fn (2 ∷ 1 ∷ []))
    ∷ (4, an_fn (5 ∷ []))
    ∷ (5, an_fn (4 ∷ []))
    ∷ []

abbrev tidy : Behaviour
tidy = record { setup = λ x. record { registers = true; throws = none }; managed = λ x. none }

-- The test uses the third fixture, a hook the fourth.
abbrev two_calls : List (List ℕ × Bool)
two_calls = (3 ∷ [], true) ∷ (4 ∷ [], false) ∷ []

sets_up_in_order : (resolve_calls tidy some_fixtures two_calls Fixtures.new).set_up ≡ 3 ∷ 2 ∷ 1 ∷ []
unfolding resolve_calls Fixtures.new
sets_up_in_order = refl

finds_the_circle :
    (resolve_fixture_names tidy some_fixtures (4 ∷ []) false Fixtures.new).0 ≡ some (circular 4)
unfolding resolve_fixture_names Fixtures.new
finds_the_circle = refl

-- A database for the worker, and a schema in it for each file.
abbrev a_table : Table
a_table = ("db", record { is_fn = true; scope = some worker; deps = [] }) ∷ []

abbrev a_larger_table : Table
a_larger_table =
    ("db", record { is_fn = true; scope = some worker; deps = [] })
    ∷ ("schema", record { is_fn = true; scope = some file; deps = "db" ∷ [] })
    ∷ []

adds_schema :
    normalize_named_fixture (λ x. true) "schema" true ("db" ∷ []) a_table (some file)
    ≡ inr a_larger_table
unfolding normalize_named_fixture
adds_schema = refl

normalize_named_fixture-safe_example : all_safe a_larger_table a_larger_table ≡ true
unfolding all_safe
normalize_named_fixture-safe_example =
    normalize_named_fixture-safe (λ x. true) "schema" true ("db" ∷ []) a_table (some file)
      a_larger_table refl adds_schema
