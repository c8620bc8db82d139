-- ===== src/Runtime/FileRun/Reports.antt =====
-- packages/core/src/runtime/runner/runner.ts: the cases that a file reports, and those that it runs.
use rstest.Prelude.{
  ℕ, Bool, true, false, not, ◌&&◌, ◌||◌, if◌then◌else◌, List, [], ◌∷◌, ◌++◌, ◌≡◌, refl, sym, ap,
  ◌∙◌, Bool-cases, inl, inr, arith,
}
use mathlib.Core.List.{append_assoc, append-nil}
use rstest.Runtime.Tree.{TestCase, TestSuite, Test, case, suite, Tests, end, test, is_empty}
use rstest.Runtime.Attempt.{TestError}
use rstest.Runtime.Retry.{CaseResult}
use rstest.Runtime.FileRun.{
  Setting, FileState, Report, close_suite, run_empty, report_case, start_suite, run_tests, run_test,
  start_file,
}

abbrev pub result_ids : List (ℕ × CaseResult) → List ℕ
result_ids [] = []
result_ids (x ∷ xs) = x.0 ∷ result_ids xs

-- The cases that the run comes to: the limit on failures has been reached neither for them nor for a
-- suite around them.
unfoldable mutual
  pub reached : Setting → Tests → List ℕ
  reached k end = []
  reached k (test t ts) = reached_of k t ++ reached k ts

  pub reached_of : Setting → Test → List ℕ
  reached_of k (case c) = if k.bails c.test_id then [] else c.test_id ∷ []
  reached_of k (suite s ts) = let below = reached k ts in if k.bails s.test_id then [] else below

ids-append :
    (xs ys : List (ℕ × CaseResult)) → result_ids (xs ++ ys) ≡ result_ids xs ++ result_ids ys
ids-append [] ys = refl
ids-append (x ∷ xs) ys = ap (λ zs. x.0 ∷ zs) (ids-append xs ys)

case-ids :
    (k : Setting) (marked : Bool) (before after : List ℕ) (c : TestCase) (g : FileState)
    → result_ids (report_case k marked before after c g).1.results
      ≡ result_ids g.results ++ c.test_id ∷ []
unfolding report_case
case-ids k marked before after c g = ids-append g.results _

pub empty-ids :
    (k : Setting) (marked : Bool) (s : TestSuite) (g : FileState)
    → (run_empty k marked s g).1.results ≡ g.results
unfolding run_empty
empty-ids k marked s g = ground arith

close-ids :
    (es : List TestError) (rs : List Report) (g : FileState)
    → (close_suite es rs g).1.results ≡ g.results
unfolding close_suite
close-ids es rs g = refl

empty-reached : (k : Setting) (ts : Tests) → is_empty ts ≡ true → reached k ts ≡ []
unfolding reached
empty-reached k end z = refl
empty-reached k (test t ts) z = absurd (ground (arith, z))

mutual
  unfolding run_tests reached

  run_tests-ids :
      (k : Setting) (marked : Bool) (before after : List ℕ) (ts : Tests) (g : FileState)
      → result_ids (run_tests k marked before after ts g).1.results
        ≡ result_ids g.results ++ reached k ts
  run_tests-ids k marked before after end g = sym (append-nil (result_ids g.results))
  run_tests-ids k marked before after (test t ts) g =
      let g1 = (run_test k marked before after t g).1 in
      run_tests-ids k marked before after ts g1
      ∙ ap (λ zs. zs ++ reached k ts) (run_test-ids k marked before after t g)
      ∙ append_assoc (result_ids g.results) (reached_of k t) (reached k ts)

  run_test-ids :
      (k : Setting) (marked : Bool) (before after : List ℕ) (t : Test) (g : FileState)
      → result_ids (run_test k marked before after t g).1.results
        ≡ result_ids g.results ++ reached_of k t
  run_test-ids k marked before after (case c) g = elim (Bool-cases (k.bails c.test_id)) [
    | inl e ↦ rw e (sym (append-nil (result_ids g.results)))
    | inr e ↦ rw e (case-ids k marked before after c g)
  ]
  run_test-ids k marked before after (suite s ts) g =
      let start = start_suite k marked s in
      let h =
        run_tests-ids k (marked || start.failed) (before ++ s.before_each) (after ++ s.after_each)
          ts g in
      let e0 = empty-ids k marked s g in
      elim (Bool-cases (k.bails s.test_id)) [
        | inl e ↦ rw e (sym (append-nil (result_ids g.results)))
        | inr e ↦ elim (Bool-cases (is_empty ts)) [
          | inl z ↦
              rw (e, z, empty-reached k ts z)
                (ap result_ids e0 ∙ sym (append-nil (result_ids g.results)))
          | inr z ↦ rw (e, z) h
        ]
      ]

-- No test of the file, at any depth, is concurrent.
unfoldable mutual
  pub is_sequential : Tests → Bool
  is_sequential end = true
  is_sequential (test t ts) = is_sequential_test t && is_sequential ts

  pub is_sequential_test : Test → Bool
  is_sequential_test (case c) = not c.concurrent
  is_sequential_test (suite s ts) = not s.concurrent && is_sequential ts

-- A file without concurrent tests reports the cases that the run comes to, once each and in their
-- order, whatever fails: only the limit on failures leaves a case out.
pub run_tests-reports :
    (k : Setting) (ts : Tests)
    → is_sequential ts ≡ true
    → result_ids (run_tests k false [] [] ts start_file).1.results ≡ reached k ts
run_tests-reports k ts q = run_tests-ids k false [] [] ts start_file
