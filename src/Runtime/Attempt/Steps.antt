-- ===== src/Runtime/Attempt/Steps.antt =====
-- packages/core/src/runtime/runner/runner.ts: what follows the body of a test, and the whole attempt.
use rstest.Prelude.{ℕ, Bool, if◌then◌else◌, List, [], ◌∷◌, ◌++◌, Option, none, some, length, take}
use mathlib.Core.List.{reverse}
use rstest.Runtime.Tree.{
  RunMode, skip, todo, TestCase, todo_status, fail_status, has_failed, is_skip_status,
}
use rstest.Runtime.Attempt.{
  World, Attempt, TestResult, TestError, Outcome, returned, threw, Cleanup, resolve_test_fixtures,
  resolve_after, after_each, finished, failed, fixture_cleanup, HookResult, completed, skipped,
  fixture_failed, callback_failed, Setup, answer, called, snapshot_skipped, run_per_test_hook,
  run_before, run_body, skip_result, fixtures_result,
}

abbrev pub fail_with : List TestError → TestResult → TestResult
fail_with errors r = record { status = fail_status; errors = r.errors ++ errors }

-- The loop over the `afterEach` functions: an error of a hook's function ends it, one of its fixtures
-- does not. `go` is the rest of the loop.
unfoldable pub after_step :
    (TestResult → Attempt → TestResult × Attempt)
    → TestResult
    → HookResult
    → Attempt
    → TestResult × Attempt
after_step go r (completed c) a = go r a
after_step go r skipped a = go r a
after_step go r (fixture_failed e) a = go (fail_with e.errors r) a
after_step go r (callback_failed e) a = (fail_with e.errors r, a)

unfoldable pub run_after : World → List ℕ → TestResult → Attempt → TestResult × Attempt
unfolding run_per_test_hook after_step
run_after w [] r a = (r, a)
run_after w (fn ∷ fns) r a =
    let (hook, a') = run_per_test_hook w (resolve_after fn) (after_each fn) fn a in
    after_step (run_after w fns) r hook a'

-- The body of a `try` whose `catch` makes the test fail.
abbrev pub fail_on_error : Outcome → TestResult → TestResult
fail_on_error (returned x) r = r
fail_on_error (threw e) r = fail_with e.errors r

unfoldable pub run_cleanups : World → List Cleanup → TestResult → Attempt → TestResult × Attempt
unfolding called
run_cleanups w [] r a = (r, a)
run_cleanups w (fn ∷ fns) r a =
    let call = fixture_cleanup fn in
    run_cleanups w fns (fail_on_error (answer w call a) r) (called w call a)

unfoldable pub run_finished : World → List ℕ → TestResult → Attempt → TestResult × Attempt
unfolding called
run_finished w [] r a = (r, a)
run_finished w (fn ∷ fns) r a =
    run_finished w fns (fail_on_error (answer w (finished fn) a) r) (called w (finished fn) a)

-- The errors of `onTestFailed` are added to the result, which has failed already.
abbrev pub add_errors : Outcome → TestResult → TestResult
add_errors (returned x) r = r
add_errors (threw e) r = record r { errors = r.errors ++ e.errors }

unfoldable pub run_failed : World → List ℕ → TestResult → Attempt → TestResult × Attempt
unfolding called
run_failed w [] r a = (r, a)
run_failed w (fn ∷ fns) r a =
    run_failed w fns (add_errors (answer w (failed fn) a) r) (called w (failed fn) a)

-- The result after `resolveTestFixtures`, the `beforeEach` hooks and the body.
abbrev pub before_result : World → List ℕ → Option TestResult → Attempt → Setup × Attempt
before_result w fns none a = run_before w fns [] a
before_result w fns (some r) a = (record { result = some r; cleanups = [] }, a)

abbrev pub setup_result : World → TestCase → Option TestResult → Attempt → TestResult × Attempt
setup_result w c none a = run_body w c a
setup_result w c (some r) a = (r, a)

-- `afterEachFns`: the hooks in reverse, then what the `beforeEach` hooks returned.
abbrev pub after_each_fns : List ℕ → List ℕ → List ℕ
after_each_fns hooks cleanups = reverse hooks ++ cleanups

-- From the loop over `onFinished`: a skipped test, and then a failed one, leaves its snapshots alone.
unfoldable pub finish_attempt : World → Bool → TestResult × Attempt → TestResult × Attempt
unfolding run_finished run_failed snapshot_skipped
finish_attempt w was_skipped (r, a) =
    let (r1, a1) = run_finished w a.on_finished r a in
    let a2 = if was_skipped then snapshot_skipped a1 else a1 in
    let (r3, a3) = run_failed w (reverse a2.on_failed) r1 a2 in
    if has_failed r1.status then (r3, snapshot_skipped a3) else (r1, a2)

abbrev pub clean_fixtures : World → TestResult × Attempt → TestResult × Attempt
clean_fixtures w (r, a) = run_cleanups w a.fixture_cleanups r a

-- From `afterEachFns` on.
unfoldable pub after_body : World → List ℕ → List ℕ → TestResult × Attempt → TestResult × Attempt
unfolding run_after run_cleanups finish_attempt
after_body w hooks cleanups (r, a) =
    finish_attempt w (is_skip_status r.status)
      (clean_fixtures w (run_after w (after_each_fns hooks cleanups) r a))

-- The attempt, after its early results.
unfoldable pub attempt : World → TestCase → List ℕ → List ℕ → Attempt → TestResult × Attempt
unfolding called run_before run_body after_body
attempt w c before after a =
    let early = fixtures_result (answer w resolve_test_fixtures a) in
    let (setup, a1) = before_result w before early (called w resolve_test_fixtures a) in
    after_body w after setup.cleanups (setup_result w c setup.result a1)

-- The handlers that the attempt registered are dropped.
abbrev pub truncate : Attempt → TestResult × Attempt → TestResult × Attempt
truncate old (r, a) = (
  r,
  record a {
    on_finished = take (length old.on_finished) a.on_finished;
    on_failed = take (length old.on_failed) a.on_failed;
  },
)

-- `runTestsCase` by the mode; the list of the fixtures' cleanups is new in each attempt.
unfoldable pub run_with_mode :
    World → TestCase → List ℕ → List ℕ → RunMode → Attempt → TestResult × Attempt
unfolding attempt snapshot_skipped
run_with_mode w c before after skip a = (skip_result, snapshot_skipped a)
run_with_mode w c before after todo a = (record { status = todo_status; errors = [] }, a)
run_with_mode w c before after _ a =
    truncate a (attempt w c before after (record a { fixture_cleanups = [] }))

unfoldable pub run_tests_case : World → TestCase → List ℕ → List ℕ → Attempt → TestResult × Attempt
unfolding run_with_mode
run_tests_case w c before after a = run_with_mode w c before after c.run_mode a
