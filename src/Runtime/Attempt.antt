-- ===== src/Runtime/Attempt.antt =====
-- packages/core/src/runtime/runner/runner.ts: one attempt of a test case (`runTestsCase`).
--
-- The user's functions answer from outside: a `World` says what each call does, and it may go by all
-- calls before it. `log` lists the calls with their outcomes, the newest first.
pub mod Steps
pub mod Keeps
pub mod Handlers
pub mod Cleanups
pub mod Judgement
pub mod Hooks
pub mod Verdict
use rstest.Prelude.{
  ℕ, Bool, true, false, if◌then◌else◌, String, List, [], ◌∷◌, ◌++◌, Option, none, some, length,
  take,
}
use mathlib.Core.List.{reverse}
use rstest.Runtime.Tree.{
  RunMode, run, only, skip, todo, TestCase, Status, pass_status, fail_status, skip_status,
  todo_status, has_failed,
}

pub record TestError : Type 0 where
  pub message : String
  pub retry_count : Option ℕ

-- What is thrown: whether it is a `TestSkipError`, and what `formatTestError` makes of it.
pub record Thrown : Type 0 where
  pub is_skip : Bool
  pub errors : List TestError

-- A function may return another one, the cleanup.
pub data Outcome : Type 0 where
  returned : Option ℕ → Outcome
  threw : Thrown → Outcome

-- What runs once the test is over: the end of a fixture, or the wait for its setup.
pub data Cleanup : Type 0 where
  teardown await_setup : ℕ → Cleanup

pub data Call : Type 0 where
  resolve_test_fixtures test_body after_run_test skip_snapshot : Call
  resolve_before resolve_after before_each after_each finished failed : ℕ → Call
  fixture_cleanup : Cleanup → Call

-- Calls that resolve fixtures: no other call starts one.
abbrev pub resolves_fixtures : Call → Bool
resolves_fixtures resolve_test_fixtures = true
resolves_fixtures (resolve_before fn) = true
resolves_fixtures (resolve_after fn) = true
resolves_fixtures _ = false

-- What a call does besides: the handlers and the fixtures that it registers. For the fixtures of a
-- hook, whether they resolve (else the hook is left out), and whether a setup still runs.
pub record Reply : Type 0 where
  pub outcome : Outcome
  pub on_finished : List ℕ
  pub on_failed : List ℕ
  pub fixtures : List ℕ
  pub resolves : Bool
  pub pending : Bool

abbrev pub Log : Type 0
Log = List (Call × Outcome)

abbrev pub World : Type 0
World = Log → Call → Reply

pub record Attempt : Type 0 where
  pub log : Log
  pub on_finished : List ℕ
  pub on_failed : List ℕ
  pub fixture_cleanups : List Cleanup

pub record TestResult : Type 0 where
  pub status : Status
  pub errors : List TestError

pub data HookResult : Type 0 where
  completed : Option ℕ → HookResult
  skipped : HookResult
  fixture_failed callback_failed : Thrown → HookResult

-- `fixtureCleanups.unshift`, for each fixture in turn.
unfoldable pub unshift_all : List ℕ → List Cleanup → List Cleanup
unshift_all [] cleanups = cleanups
unshift_all (x ∷ xs) cleanups = unshift_all xs (teardown x ∷ cleanups)

abbrev pub answer : World → Call → Attempt → Outcome
answer w c a = (w a.log c).outcome

unfoldable pub called : World → Call → Attempt → Attempt
unfolding unshift_all
called w c a = record {
  log = (c, answer w c a) ∷ a.log;
  on_finished = a.on_finished ++ (w a.log c).on_finished;
  on_failed = a.on_failed ++ (w a.log c).on_failed;
  fixture_cleanups =
      if resolves_fixtures c
      then unshift_all (w a.log c).fixtures a.fixture_cleanups
      else a.fixture_cleanups;
}

-- `snapshotClient.skipTest`
unfoldable pub snapshot_skipped : Attempt → Attempt
snapshot_skipped a = record a { log = (skip_snapshot, returned none) ∷ a.log }

-- The hook's own function has been called.
abbrev hook_outcome : Outcome → HookResult
hook_outcome (returned cleanup) = completed cleanup
hook_outcome (threw e) = callback_failed e

unfoldable pub fixtures_resolved : World → Call → Reply → Attempt → HookResult × Attempt
unfolding called
fixtures_resolved w hook reply a =
    if reply.resolves then (hook_outcome (answer w hook a), called w hook a) else (skipped, a)

unfoldable pub fixtures_failed : Reply → ℕ → Thrown → Attempt → HookResult × Attempt
fixtures_failed reply fn e a = (
  fixture_failed e,
  if reply.pending then record a { fixture_cleanups = await_setup fn ∷ a.fixture_cleanups } else a,
)

abbrev hook_after : World → Call → Reply → ℕ → Outcome → Attempt → HookResult × Attempt
hook_after w hook reply fn (returned x) a = fixtures_resolved w hook reply a
hook_after w hook reply fn (threw e) a = fixtures_failed reply fn e a

-- `runPerTestHook`: the fixtures of the hook first, under the same timeout.
unfoldable pub run_per_test_hook : World → Call → Call → ℕ → Attempt → HookResult × Attempt
unfolding fixtures_resolved fixtures_failed called
run_per_test_hook w resolve hook fn a =
    hook_after w hook (w a.log resolve) fn (answer w resolve a) (called w resolve a)

abbrev pub skip_result : TestResult
skip_result = record { status = skip_status; errors = [] }

abbrev pub pass_result : TestResult
pass_result = record { status = pass_status; errors = [] }

abbrev pub fail_result : List TestError → TestResult
fail_result errors = record { status = fail_status; errors = errors }

-- The result of an error, and whether it skips the test.
abbrev pub thrown_result : Thrown → TestResult
thrown_result e = if e.is_skip then skip_result else fail_result e.errors

-- The test has a result already, or none yet.
abbrev pub fixtures_result : Outcome → Option TestResult
fixtures_result (returned x) = none
fixtures_result (threw e) = some (thrown_result e)

-- The result so far, and the cleanups that hooks returned.
pub record Setup : Type 0 where
  pub result : Option TestResult
  pub cleanups : List ℕ

abbrev add_cleanup : Option ℕ → List ℕ → List ℕ
add_cleanup none cleanups = cleanups
add_cleanup (some x) cleanups = cleanups ++ x ∷ []

-- The loop over `beforeEachListeners`: the first error ends it, else `go` is the rest of it.
unfoldable pub before_step :
    (List ℕ → Attempt → Setup × Attempt) → List ℕ → HookResult → Attempt → Setup × Attempt
before_step go cleanups (completed c) a = go (add_cleanup c cleanups) a
before_step go cleanups skipped a = go cleanups a
before_step go cleanups (fixture_failed e) a =
    (record { result = some (thrown_result e); cleanups = cleanups }, a)
before_step go cleanups (callback_failed e) a =
    (record { result = some (thrown_result e); cleanups = cleanups }, a)

unfoldable pub run_before : World → List ℕ → List ℕ → Attempt → Setup × Attempt
unfolding run_per_test_hook before_step
run_before w [] cleanups a = (record { result = none; cleanups = cleanups }, a)
run_before w (fn ∷ fns) cleanups a =
    let (hook, a') = run_per_test_hook w (resolve_before fn) (before_each fn) fn a in
    before_step (run_before w fns) cleanups hook a'

abbrev pub expect_failure : TestError
expect_failure = record { message = "Expect test to fail"; retry_count = none }

-- The end of the body and of `afterRunTest`; `fails` turns the result around.
abbrev pub body_result : Bool → Outcome → TestResult
body_result true (returned x) = fail_result (expect_failure ∷ [])
body_result true (threw e) = if e.is_skip then skip_result else pass_result
body_result false (returned x) = pass_result
body_result false (threw e) = thrown_result e

abbrev assertions_checked : World → Bool → Attempt → TestResult × Attempt
assertions_checked w fails a =
    (body_result fails (answer w after_run_test a), called w after_run_test a)

body_returned : World → Bool → Outcome → Attempt → TestResult × Attempt
unfolding called
body_returned w fails (returned x) a = assertions_checked w fails a
body_returned w fails (threw e) a = (body_result fails (threw e), a)

unfoldable pub run_body : World → TestCase → Attempt → TestResult × Attempt
unfolding called body_returned
run_body w c a =
    if c.has_fn
    then body_returned w c.fails (answer w test_body a) (called w test_body a)
    else assertions_checked w c.fails a
