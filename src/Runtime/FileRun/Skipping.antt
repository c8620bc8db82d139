-- ===== src/Runtime/FileRun/Skipping.antt =====
-- packages/core/src/runtime/runner/runner.ts: the cases that a file leaves out.
use rstest.Prelude.{
  ℕ, zero, suc, ◌+◌, ◌-◌, ◌≤◌, ◌==◌, Bool, true, false, not, ◌&&◌, ◌||◌, if◌then◌else◌, List, [],
  ◌∷◌, ◌++◌, Option, ◌≡◌, refl, sym, ap, ◌∙◌, count_if, count_if-append, Bool-cases, inl, inr,
  arith,
}
use rstest.Runtime.Tree.{
  RunMode, run, only, skip, todo, TestCase, TestSuite, Test, case, suite, Tests, end, test, Status,
  skip_status, todo_status, pass_status, fail_status, has_failed, is_empty, is_blocked, Number,
  sanitize_attempt_count,
}
use rstest.Runtime.Attempt.{TestError, TestResult, Attempt, World}
use rstest.Runtime.Attempt.Steps.{run_tests_case, run_with_mode}
use rstest.Runtime.Retry.{CaseResult, run_case, run_case_within, retry_loop, repeat_loop, retry_of}
use rstest.Runtime.Modes.{update_test_modes, collect_only_tests}
use rstest.Runtime.Modes.Selection.{
  runnable_ids, runnable_ids_of, selected, update_test_modes-selects,
}
use rstest.Runtime.FileRun.{
  Setting, FileState, no_errors, close_suite, run_empty, report_case, start_suite, end_suite,
  run_tests, run_test, start_file, new_attempt, mark_if,
}
use rstest.Runtime.FileRun.Reports.{empty-ids}

-- The case has run: it is neither `skip` nor `todo`.
abbrev pub has_run : Status → Bool
has_run pass_status = true
has_run fail_status = true
has_run _ = false

-- How many times the results say that the case has run.
abbrev pub runs_of : ℕ → List (ℕ × CaseResult) → ℕ
runs_of id = count_if (λ x. (id == x.0) && has_run x.1.result.status)

-- An attempt whose status is always the same one, which is no failure.
Idle : Status → (Attempt → TestResult × Attempt) → Type 0
Idle st once = (a : Attempt) → (once a).0.status ≡ st

retry_loop-Idle :
    (st : Status) (once : Attempt → TestResult × Attempt) (budget fuel count : ℕ)
    (es : List TestError) (history : List TestResult) (a : Attempt)
    → has_failed st ≡ false
    → Idle st once
    → (retry_loop once budget fuel count es history a).result.status ≡ st
unfolding retry_loop Idle
retry_loop-Idle st once budget zero count es history a f h = ground (arith, f, h a)
retry_loop-Idle st once budget (suc fuel) count es history a f h = ground (arith, f, h a)

repeat_loop-Idle :
    (st : Status) (once : Attempt → TestResult × Attempt) (budget fuel left total : ℕ)
    (es : List TestError) (history : List TestResult) (a : Attempt)
    → has_failed st ≡ false
    → Idle st once
    → (repeat_loop once budget fuel left total es history a).case_result.result.status ≡ st
unfolding repeat_loop
repeat_loop-Idle st once budget fuel zero total es history a f h =
    retry_loop-Idle st once budget fuel 0 [] history a f h
repeat_loop-Idle st once budget fuel (suc left) total es history a f h =
    let x = retry_loop once budget fuel 0 [] history a in
    let here = retry_loop-Idle st once budget fuel 0 [] history a f h in
    let rest =
      repeat_loop-Idle st once budget fuel left (total + (x.retries - 1)) (es ++ x.errors) x.history
        x.attempt f h in
    elim (Bool-cases (has_failed x.result.status)) [ inl e ↦ rw e here | inr e ↦ rw e rest ]

blocked_status : RunMode → Status
blocked_status skip = skip_status
blocked_status _ = todo_status

blocked-Idle :
    (w : World) (c : TestCase) (before after : List ℕ) (m : RunMode) (a : Attempt)
    → is_blocked m ≡ true
    → (run_with_mode w c before after m a).0.status ≡ blocked_status m
unfolding run_with_mode blocked_status
blocked-Idle w c before after run a h = absurd (ground (arith, h))
blocked-Idle w c before after only a h = absurd (ground (arith, h))
blocked-Idle w c before after skip a h = refl
blocked-Idle w c before after todo a h = refl

blocked-passes : (m : RunMode) → has_failed (blocked_status m) ≡ false
unfolding blocked_status
blocked-passes m = ground arith

blocked-idles : (m : RunMode) → has_run (blocked_status m) ≡ false
unfolding blocked_status
blocked-idles m = ground arith

run_case-blocked :
    (w : World) (c : TestCase) (config : Option Number) (before after : List ℕ) (a : Attempt)
    → is_blocked c.run_mode ≡ true
    → has_run (run_case w c config before after a).case_result.result.status ≡ false
unfolding run_case run_case_within run_tests_case Idle
run_case-blocked w c config before after a h =
    ap has_run (
      repeat_loop-Idle (blocked_status c.run_mode) (run_tests_case w c before after)
        (sanitize_attempt_count (retry_of c config))
        (suc (sanitize_attempt_count (retry_of c config))) (sanitize_attempt_count c.repeats) 0 []
        [] a (blocked-passes c.run_mode) (λ b. blocked-Idle w c before after c.run_mode b h))
    ∙ blocked-idles c.run_mode

-- The cases below that run unless they are marked.
abbrev unmarked : Bool → List ℕ → List ℕ
unmarked marked ids = if marked then [] else ids

push-runs :
    (id : ℕ) (xs : List (ℕ × CaseResult)) (tid : ℕ) (x : CaseResult)
    → runs_of id (xs ++ (tid, x) ∷ [])
      ≡ runs_of id xs + (if (id == tid) && has_run x.result.status then 1 else 0)
push-runs id xs tid x =
    let h =
      count_if-append (λ (y : ℕ × CaseResult). (id == y.0) && has_run y.1.result.status) xs
        ((tid, x) ∷ []) in
    omega (arith, h)

pushed-runs :
    (marked : Bool) (c : TestCase) (xs : List (ℕ × CaseResult)) (x : CaseResult) (id : ℕ)
    → (is_blocked (mark_if marked c).run_mode ≡ true → has_run x.result.status ≡ false)
    → runs_of id (xs ++ (c.test_id, x) ∷ [])
      ≤ runs_of id xs + count_if (id ==◌) (unmarked marked (runnable_ids_of (case c)))
unfolding runnable_ids
pushed-runs marked c xs x id h = rw (push-runs id xs c.test_id x) (ground (arith, h))

case-runs :
    (k : Setting) (marked : Bool) (before after : List ℕ) (c : TestCase) (g : FileState) (id : ℕ)
    → runs_of id (report_case k marked before after c g).1.results
      ≤ runs_of id g.results + count_if (id ==◌) (unmarked marked (runnable_ids_of (case c)))
unfolding report_case
case-runs k marked before after c g id =
    let x = run_case (k.worlds c.test_id) (mark_if marked c) k.retry before after new_attempt in
    pushed-runs marked c g.results x.case_result id
      (run_case-blocked (k.worlds c.test_id) (mark_if marked c) k.retry before after new_attempt)

same-runs : (id n : ℕ) (xs ys : List (ℕ × CaseResult)) → ys ≡ xs → runs_of id ys ≤ runs_of id xs + n
same-runs id n xs ys e = rw e (omega arith)

unmarked-count :
    (marked failed : Bool) (id : ℕ) (ids : List ℕ)
    → count_if (id ==◌) (unmarked (marked || failed) ids) ≤ count_if (id ==◌) (unmarked marked ids)
unmarked-count marked failed id ids = ground arith

unmarked-append :
    (marked : Bool) (id : ℕ) (xs ys : List ℕ)
    → count_if (id ==◌) (unmarked marked (xs ++ ys))
      ≡ count_if (id ==◌) (unmarked marked xs) + count_if (id ==◌) (unmarked marked ys)
unmarked-append true id xs ys = omega arith
unmarked-append false id xs ys = count_if-append (id ==◌) xs ys

all-marked :
    (marked failed : Bool) (id : ℕ) (ids : List ℕ)
    → failed ≡ true
    → count_if (id ==◌) (unmarked (marked || failed) ids) ≡ 0
all-marked marked failed id ids f = ground (arith, f)

prepend-errors : (xs ys : List TestError) → no_errors xs ≡ false → no_errors (xs ++ ys) ≡ false
prepend-errors [] ys h = absurd (ground (arith, h))
prepend-errors (x ∷ xs) ys h = refl

mutual
  unfolding run_tests runnable_ids

  run_tests-runs :
      (k : Setting) (marked : Bool) (before after : List ℕ) (ts : Tests) (g : FileState) (id : ℕ)
      → runs_of id (run_tests k marked before after ts g).1.results
        ≤ runs_of id g.results + count_if (id ==◌) (unmarked marked (runnable_ids ts))
  run_tests-runs k marked before after end g id = omega arith
  run_tests-runs k marked before after (test t ts) g id =
      let g1 = (run_test k marked before after t g).1 in
      let h = run_test-runs k marked before after t g id in
      let rest = run_tests-runs k marked before after ts g1 id in
      let e = unmarked-append marked id (runnable_ids_of t) (runnable_ids ts) in
      omega (arith, h, rest, e)

  run_test-runs :
      (k : Setting) (marked : Bool) (before after : List ℕ) (t : Test) (g : FileState) (id : ℕ)
      → runs_of id (run_test k marked before after t g).1.results
        ≤ runs_of id g.results + count_if (id ==◌) (unmarked marked (runnable_ids_of t))
  run_test-runs k marked before after (case c) g id = elim (Bool-cases (k.bails c.test_id)) [
    | inl e ↦ rw e (same-runs id _ g.results g.results refl)
    | inr e ↦ rw e (case-runs k marked before after c g id)
  ]
  run_test-runs k marked before after (suite s ts) g id =
      let start = start_suite k marked s in
      let h =
        run_tests-runs k (marked || start.failed) (before ++ s.before_each) (after ++ s.after_each)
          ts g id in
      let u = unmarked-count marked start.failed id (runnable_ids ts) in
      elim (Bool-cases (k.bails s.test_id)) [
        | inl e ↦ rw e (same-runs id _ g.results g.results refl)
        | inr e ↦ elim (Bool-cases (is_empty ts)) [
          | inl z ↦
              rw (e, z)
                (same-runs id _ g.results (run_empty k marked s g).1.results
                  (empty-ids k marked s g))
          | inr z ↦ rw (e, z) (omega (arith, h, u))
        ]
      ]

-- Once the modes of a file are updated, a case runs at most as often as the rule on modes and names
-- selects it: whatever happens in the run, no case runs that is not selected.
pub updated-runs :
    (k : Setting) (skips : TestCase → Bool) (ts : Tests) (id : ℕ)
    → runs_of id (run_tests k false [] [] (update_test_modes skips ts) start_file).1.results
      ≤ count_if (id ==◌) (selected skips (not (collect_only_tests ts)) ts)
updated-runs k skips ts id =
    let h = run_tests-runs k false [] [] (update_test_modes skips ts) start_file id in
    rw (sym (update_test_modes-selects skips ts)) (omega (arith, h))

-- If the run comes to a suite with tests and one of its `beforeAll` hooks throws an error with a text, no
-- case below the suite runs, and the suite is reported to have failed.
pub before_all-skips :
    (k : Setting) (marked : Bool) (before after : List ℕ) (s : TestSuite) (ts : Tests)
    (g : FileState) (id : ℕ)
    → (start_suite k marked s).failed ≡ true
    → no_errors (start_suite k marked s).errors ≡ false
    → k.bails s.test_id ≡ false
    → is_empty ts ≡ false
    → (runs_of id (run_test k marked before after (suite s ts) g).1.results ≤ runs_of id g.results)
      × ((run_test k marked before after (suite s ts) g).0.status ≡ fail_status)
unfolding run_tests close_suite
before_all-skips k marked before after s ts g id f es b z =
    let start = start_suite k marked s in
    let h =
      run_tests-runs k (marked || start.failed) (before ++ s.before_each) (after ++ s.after_each) ts
        g id in
    let u = all-marked marked start.failed id (runnable_ids ts) f in
    let e = prepend-errors start.errors (end_suite k marked s start.cleanups) es in
    rw (b, z, e) (omega (arith, h, u), refl)
