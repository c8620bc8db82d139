-- ===== src/Runtime/Attempt/Judgement.antt =====
-- packages/core/src/runtime/runner/runner.ts: which calls make an attempt fail.
use rstest.Prelude.{
  ℕ, ◌+◌, ◌<◌, Bool, true, false, not, ◌&&◌, if◌then◌else◌, List, [], ◌∷◌, ◌≡◌, refl, ◌⊎◌, inl, inr,
  Bool-cases, arith,
}
use mathlib.Core.List.{reverse}
use rstest.Runtime.Tree.{has_failed}
use rstest.Runtime.Attempt.{
  World, Log, Attempt, TestResult, Outcome, returned, threw, Call, Cleanup, resolve_test_fixtures,
  test_body, after_run_test, skip_snapshot, resolve_before, resolve_after, before_each, after_each,
  finished, failed, fixture_cleanup, answer, called, snapshot_skipped,
}
use rstest.Runtime.Attempt.Steps.{
  run_cleanups, run_finished, run_failed, fail_on_error, add_errors, finish_attempt,
}

-- What was thrown is no `TestSkipError`.
abbrev pub is_error : Outcome → Bool
is_error (returned x) = false
is_error (threw e) = not e.is_skip

abbrev pub is_thrown : Outcome → Bool
is_thrown (returned x) = false
is_thrown (threw e) = true

-- Does this call make the test fail? Up to the end of the body a `TestSkipError` does not; from then
-- on whatever is thrown does; `fails` turns the body around; the `onTestFailed` handlers come too late.
unfoldable pub breaks : Bool → Call → Outcome → Bool
breaks fails resolve_test_fixtures o = is_error o
breaks fails (resolve_before fn) o = is_error o
breaks fails (before_each fn) o = is_error o
breaks fails test_body o = not fails && is_error o
breaks fails after_run_test o = if fails then not (is_thrown o) else is_error o
breaks fails (resolve_after fn) o = is_thrown o
breaks fails (after_each fn) o = is_thrown o
breaks fails (fixture_cleanup c) o = is_thrown o
breaks fails (finished fn) o = is_thrown o
breaks fails (failed fn) o = false
breaks fails skip_snapshot o = false

-- How many calls of the log make the test fail.
unfoldable pub failures : Bool → Log → ℕ
unfolding breaks
failures fails [] = 0
failures fails ((c, o) ∷ log) = (if breaks fails c o then 1 else 0) + failures fails log

-- The result has failed just when some call since the count `n` makes it fail.
unfoldable pub Judged : Bool → ℕ → TestResult → Attempt → Type 0
Judged b n r a =
    ((has_failed r.status ≡ true) × (n < failures b a.log))
    ⊎ ((has_failed r.status ≡ false) × (failures b a.log ≡ n))

-- A function whose error, if any, makes the test fail.
caught-Judged :
    (b : Bool) (n : ℕ) (w : World) (c : Call) (r : TestResult) (a : Attempt)
    → breaks b c (answer w c a) ≡ is_thrown (answer w c a)
    → Judged b n r a
    → Judged b n (fail_on_error (answer w c a) r) (called w c a)
unfolding Judged failures called
caught-Judged b n w c r a h j = ground arith

pub run_cleanups-Judged :
    (b : Bool) (n : ℕ) (w : World) (fns : List Cleanup) (r : TestResult) (a : Attempt)
    → Judged b n r a
    → Judged b n (run_cleanups w fns r a).0 (run_cleanups w fns r a).1
unfolding run_cleanups breaks
run_cleanups-Judged b n w [] r a j = j
run_cleanups-Judged b n w (fn ∷ fns) r a j =
    let c = fixture_cleanup fn in
    run_cleanups-Judged b n w fns (fail_on_error (answer w c a) r) (called w c a)
      (caught-Judged b n w c r a refl j)

run_finished-Judged :
    (b : Bool) (n : ℕ) (w : World) (fns : List ℕ) (r : TestResult) (a : Attempt)
    → Judged b n r a
    → Judged b n (run_finished w fns r a).0 (run_finished w fns r a).1
unfolding run_finished breaks
run_finished-Judged b n w [] r a j = j
run_finished-Judged b n w (fn ∷ fns) r a j =
    run_finished-Judged b n w fns (fail_on_error (answer w (finished fn) a) r)
      (called w (finished fn) a) (caught-Judged b n w (finished fn) r a refl j)

late-Judged :
    (b : Bool) (n : ℕ) (w : World) (fn : ℕ) (r : TestResult) (a : Attempt)
    → Judged b n r a
    → Judged b n (add_errors (answer w (failed fn) a) r) (called w (failed fn) a)
unfolding Judged failures called breaks
late-Judged b n w fn r a j = ground arith

run_failed-Judged :
    (b : Bool) (n : ℕ) (w : World) (fns : List ℕ) (r : TestResult) (a : Attempt)
    → Judged b n r a
    → Judged b n (run_failed w fns r a).0 (run_failed w fns r a).1
unfolding run_failed
run_failed-Judged b n w [] r a j = j
run_failed-Judged b n w (fn ∷ fns) r a j =
    run_failed-Judged b n w fns (add_errors (answer w (failed fn) a) r) (called w (failed fn) a)
      (late-Judged b n w fn r a j)

noted-Judged :
    (b : Bool) (n : ℕ) (r : TestResult) (a : Attempt)
    → Judged b n r a
    → Judged b n r (snapshot_skipped a)
unfolding Judged failures snapshot_skipped breaks
noted-Judged b n r a j = ground arith

maybe_noted-Judged :
    (b : Bool) (n : ℕ) (s : Bool) (r : TestResult) (a : Attempt)
    → Judged b n r a
    → Judged b n r (if s then snapshot_skipped a else a)
maybe_noted-Judged b n true r a j = noted-Judged b n r a j
maybe_noted-Judged b n false r a j = j

pub finish-Judged :
    (b : Bool) (n : ℕ) (w : World) (s : Bool) (r : TestResult) (a : Attempt)
    → Judged b n r a
    → Judged b n (finish_attempt w s (r, a)).0 (finish_attempt w s (r, a)).1
unfolding finish_attempt
finish-Judged b n w s r a j =
    let r1 = (run_finished w a.on_finished r a).0 in
    let a1 = (run_finished w a.on_finished r a).1 in
    let a2 = if s then snapshot_skipped a1 else a1 in
    let j1 = run_finished-Judged b n w a.on_finished r a j in
    let j2 = maybe_noted-Judged b n s r1 a1 j1 in
    let j3 = run_failed-Judged b n w (reverse a2.on_failed) r1 a2 j2 in
    let x3 = run_failed w (reverse a2.on_failed) r1 a2 in
    elim (Bool-cases (has_failed r1.status)) [
      | inl e ↦ rw e (noted-Judged b n x3.0 x3.1 j3)
      | inr e ↦ rw e j2
    ]
