-- ===== src/Runtime/FileRun/Failures.antt =====
-- packages/core/src/runtime/runner/runner.ts: when the run of a file fails.
use rstest.Prelude.{
  ℕ, Bool, false, not, ◌&&◌, ◌||◌, String, List, [], ◌∷◌, ◌++◌, ◌≡◌, refl, ◌∙◌, any, Bool-cases,
  inl, inr, arith,
}
use rstest.Runtime.Tree.{
  TestCase, TestSuite, Test, case, suite, Tests, end, test, Status, get_test_status, has_failed,
  is_empty,
}
use rstest.Runtime.Attempt.{TestError}
use rstest.Runtime.Retry.{CaseResult}
use rstest.Runtime.FileRun.{
  Setting, FileState, Report, no_errors, statuses, result_statuses, default_status, close_suite,
  run_empty, bail_out, report_case, start_suite, end_suite, run_tests, run_test, run_file,
  start_file, file_end, suite_error,
}

-- What the file has failed of so far.
abbrev pub failing : FileState → Bool
failing g = not (no_errors g.errors) || any has_failed (result_statuses g.results)

abbrev pub any_failed : List Report → Bool
any_failed rs = any has_failed (statuses rs)

get_test_status-failed :
    (ss : List Status) (d : Status)
    → has_failed d ≡ false
    → has_failed (get_test_status ss d) ≡ any has_failed ss
unfolding get_test_status
get_test_status-failed [] d h = h
get_test_status-failed (s ∷ ss) d h = ground arith

default-passes : (g : FileState) → has_failed (default_status g) ≡ false
default-passes g = ground arith

no_errors-append : (xs ys : List TestError) → no_errors (xs ++ ys) ≡ (no_errors xs && no_errors ys)
no_errors-append [] ys = refl
no_errors-append (x ∷ xs) ys = refl

statuses-append :
    (xs ys : List (ℕ × CaseResult))
    → any has_failed (result_statuses (xs ++ ys))
      ≡ (any has_failed (result_statuses xs) || any has_failed (result_statuses ys))
statuses-append [] ys = refl
statuses-append (x ∷ xs) ys = ground (arith, statuses-append xs ys)

-- The report of a test says whether it adds a failure to the file.
Counts : FileState → Report × FileState → Type 0
Counts g (r, g') = failing g' ≡ (failing g || has_failed r.status)

bail-Counts : (g : FileState) → Counts g (bail_out g)
unfolding Counts
bail-Counts g = ground arith

push_result-failing :
    (g : FileState) (id : ℕ) (x : CaseResult)
    → failing (record g { results = g.results ++ (id, x) ∷ [] })
      ≡ (failing g || has_failed x.result.status)
push_result-failing g id x = ground (arith, statuses-append g.results ((id, x) ∷ []))

push_errors-failing :
    (g : FileState) (es : List TestError)
    → failing (record g { errors = g.errors ++ es }) ≡ (failing g || not (no_errors es))
push_errors-failing g es = ground (arith, no_errors-append g.errors es)

case-Counts :
    (k : Setting) (marked : Bool) (before after : List ℕ) (c : TestCase) (g : FileState)
    → Counts g (report_case k marked before after c g)
unfolding Counts report_case
case-Counts k marked before after c g = push_result-failing g c.test_id _

empty-Counts :
    (k : Setting) (marked : Bool) (s : TestSuite) (g : FileState)
    → Counts g (run_empty k marked s g)
unfolding Counts run_empty
empty-Counts k marked s g = ground (arith, push_errors-failing g (suite_error s ∷ []))

closed_status :
    (errors : List TestError) (rs : List Report) (g : FileState)
    → has_failed (close_suite errors rs g).0.status ≡ (not (no_errors errors) || any_failed rs)
unfolding close_suite
closed_status errors rs g =
    let h = get_test_status-failed (statuses rs) (default_status g) (default-passes g) in
    elim (Bool-cases (no_errors errors)) [ inl e ↦ rw e h | inr e ↦ rw e refl ]

close_failing :
    (errors : List TestError) (rs : List Report) (g : FileState)
    → failing (close_suite errors rs g).1 ≡ (failing g || not (no_errors errors))
unfolding close_suite
close_failing errors rs g = push_errors-failing g errors

file_status : (g : FileState) → has_failed (file_end g).status ≡ failing g
file_status g =
    let h =
      get_test_status-failed (result_statuses g.results) (default_status g) (default-passes g) in
    elim (Bool-cases (no_errors g.errors)) [ inl e ↦ rw e h | inr e ↦ rw e refl ]

close-Counts :
    (errors : List TestError) (rs : List Report) (g g1 : FileState)
    → failing g1 ≡ (failing g || any_failed rs)
    → Counts g (close_suite errors rs g1)
unfolding Counts
close-Counts errors rs g g1 h =
    ground (arith, closed_status errors rs g1, close_failing errors rs g1, h)

mutual
  unfolding run_tests Counts

  run_tests-failing :
      (k : Setting) (marked : Bool) (before after : List ℕ) (ts : Tests) (g : FileState)
      → failing (run_tests k marked before after ts g).1
        ≡ (failing g || any_failed (run_tests k marked before after ts g).0)
  run_tests-failing k marked before after end g = ground arith
  run_tests-failing k marked before after (test t ts) g =
      let h = run_test-Counts k marked before after t g in
      let g1 = (run_test k marked before after t g).1 in
      let rest = run_tests-failing k marked before after ts g1 in ground (arith, h, rest)

  run_test-Counts :
      (k : Setting) (marked : Bool) (before after : List ℕ) (t : Test) (g : FileState)
      → Counts g (run_test k marked before after t g)
  run_test-Counts k marked before after (case c) g = elim (Bool-cases (k.bails c.test_id)) [
    | inl e ↦ rw e (bail-Counts g)
    | inr e ↦ rw e (case-Counts k marked before after c g)
  ]
  run_test-Counts k marked before after (suite s ts) g =
      let start = start_suite k marked s in
      let x =
        run_tests k (marked || start.failed) (before ++ s.before_each) (after ++ s.after_each) ts
          g in
      let h =
        run_tests-failing k (marked || start.failed) (before ++ s.before_each)
          (after ++ s.after_each) ts g in
      let errors = start.errors ++ end_suite k marked s start.cleanups in
      elim (Bool-cases (k.bails s.test_id)) [
        | inl e ↦ rw e (bail-Counts g)
        | inr e ↦ elim (Bool-cases (is_empty ts)) [
          | inl z ↦ rw (e, z) (empty-Counts k marked s g)
          | inr z ↦ rw (e, z) (close-Counts errors x.0 g x.1 h)
        ]
      ]

-- A file with tests fails just when one of the tests at its top is reported to have failed, a case or a
-- suite: what the file gathers from the cases that ran and from the errors of the suites, at any depth,
-- agrees with what each suite makes of the results below it.
pub run_file-fails :
    (k : Setting) (path : String) (ts : Tests)
    → is_empty ts ≡ false
    → has_failed (run_file k path ts).status ≡ any_failed (run_tests k false [] [] ts start_file).0
unfolding run_file
run_file-fails k path ts z =
    let g = (run_tests k false [] [] ts start_file).1 in
    let h = run_tests-failing k false [] [] ts start_file in rw z (file_status g ∙ h)
