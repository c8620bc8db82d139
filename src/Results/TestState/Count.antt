-- ===== src/Results/TestState/Count.antt =====
-- packages/core/src/core/stateManager.ts: the count of failed tests, by which a run bails.
use text.Mathlib.Text.{◌==◌ as str_eq}
use rstest.Prelude.{
  ℕ, ◌+◌, if◌then◌else◌, String, List, [], ◌∷◌, ◌++◌, ◌≡◌, count_if-append, Bool-cases, inl, inr,
  arith,
}
use rstest.Runtime.Tree.{has_failed}
use rstest.Results.TestState.{
  TestResult, TestFileResult, RunningModule, Modules, TestState, new_module, find_module,
  set_module, delete_module, or_new, without, on_test_file_start, on_test_case_start,
  on_test_case_result, on_test_file_result, reset, failed_results, file_failures, running_failures,
  module_failures, get_count_of_failed_tests, Event, file_start, case_start, case_result,
  file_result, reset_all, step,
}

-- The failures that have been counted for a file while it runs.
abbrev pub streamed : String → TestState → ℕ
streamed path s = failed_results (or_new (find_module path s.running_modules)).results

-- What an event takes off the count, and what it adds.
unfoldable pub dropped : Event → TestState → ℕ
unfolding get_count_of_failed_tests find_module
dropped (file_start path) s = streamed path s
dropped (case_start t) s = 0
dropped (case_result r) s = 0
dropped (file_result t) s = streamed t.test_path s
dropped reset_all s = get_count_of_failed_tests s

unfoldable pub added : Event → ℕ
added (file_start path) = 0
added (case_start t) = 0
added (case_result r) = if has_failed r.status then 1 else 0
added (file_result t) = file_failures t t.results
added reset_all = 0

set-failures :
    (path : String) (x : RunningModule) (ms : Modules)
    → running_failures (set_module path x ms)
        + failed_results (or_new (find_module path ms)).results
      ≡ running_failures ms + failed_results x.results
unfolding running_failures set_module find_module
set-failures path x [] = omega arith
set-failures path x (m ∷ ms) =
    let rest = set-failures path x ms in
    elim (Bool-cases (str_eq path m.0)) [
      | inl e ↦ rw e (omega arith)
      | inr e ↦ rw e (omega (arith, rest))
    ]

delete-failures :
    (path : String) (ms : Modules)
    → running_failures (delete_module path ms)
        + failed_results (or_new (find_module path ms)).results
      ≡ running_failures ms
unfolding running_failures delete_module find_module
delete-failures path [] = omega arith
delete-failures path (m ∷ ms) =
    let rest = delete-failures path ms in
    elim (Bool-cases (str_eq path m.0)) [
      | inl e ↦ rw e (omega arith)
      | inr e ↦ rw e (omega (arith, rest))
    ]

append-failures :
    (ts : List TestFileResult) (t : TestFileResult)
    → module_failures (ts ++ t ∷ []) ≡ module_failures ts + file_failures t t.results
unfolding module_failures
append-failures [] t = omega arith
append-failures (u ∷ ts) t = let rest = append-failures ts t in omega (arith, rest)

push-failures :
    (rs : List TestResult) (r : TestResult)
    → failed_results (rs ++ r ∷ []) ≡ failed_results rs + (if has_failed r.status then 1 else 0)
push-failures rs r =
    let h = count_if-append (λ (q : TestResult). has_failed q.status) rs (r ∷ []) in
    omega (arith, h)

-- The count of failed tests after an event is the count before it, with what the event adds and without
-- what it drops: a failed case adds one; the result of a file adds its failed cases, or itself if it has
-- none and has failed, and drops those counted for this file while it ran; the start of a file drops
-- these too; a reset drops all; the start of a case changes nothing.
pub step-counts :
    (e : Event) (s : TestState)
    → get_count_of_failed_tests (step e s) + dropped e s ≡ get_count_of_failed_tests s + added e
unfolding step dropped added get_count_of_failed_tests on_test_file_start on_test_case_start
    on_test_case_result on_test_file_result reset running_failures module_failures
step-counts (file_start path) s =
    let h = set-failures path new_module s.running_modules in omega (arith, h)
step-counts (case_start t) s =
    let m = or_new (find_module t.test_path s.running_modules) in
    let m' : RunningModule = record m {
      running_tests = without t.test_id m.running_tests ++ t ∷ [];
    } in
    let h = set-failures t.test_path m' s.running_modules in omega (arith, h)
step-counts (case_result r) s =
    let m = or_new (find_module r.test_path s.running_modules) in
    let m' : RunningModule = record {
      running_tests = without r.test_id m.running_tests;
      results = m.results ++ r ∷ [];
    } in
    let h = set-failures r.test_path m' s.running_modules in
    let p = push-failures m.results r in omega (arith, h, p)
step-counts (file_result t) s =
    let h = delete-failures t.test_path s.running_modules in
    let a = append-failures s.test_modules t in omega (arith, h, a)
step-counts reset_all s = omega arith
