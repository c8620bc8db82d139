-- ===== src/Results/TestState.antt =====
-- packages/core/src/core/stateManager.ts: the tests that run, the results, and the count of failures.
pub mod Count
use text.Mathlib.Text.{◌==◌ as str_eq}
use rstest.Prelude.{
  ℕ, ◌+◌, ◌==◌, Bool, true, false, not, if◌then◌else◌, String, List, [], ◌∷◌, ◌++◌, Option, none,
  some, keep, count_if,
}
use rstest.Runtime.Tree.{Status, has_failed}

pub record TestCaseInfo : Type 0 where
  pub test_id : ℕ
  pub test_path : String

pub record TestResult : Type 0 where
  pub test_id : ℕ
  pub test_path : String
  pub status : Status

pub record TestFileResult : Type 0 where
  pub test_path : String
  pub status : Status
  pub results : List TestResult

pub record RunningModule : Type 0 where
  pub running_tests : List TestCaseInfo
  pub results : List TestResult

abbrev pub Modules : Type 0
Modules = List (String × RunningModule)

pub record TestState : Type 0 where
  pub running_modules : Modules
  pub test_modules : List TestFileResult
  pub test_files : Option (List String)

abbrev pub new_module : RunningModule
new_module = record { running_tests = []; results = [] }

-- `Map.get`, `Map.set` and `Map.delete`: a path has one entry.
unfoldable pub find_module : String → Modules → Option RunningModule
find_module path [] = none
find_module path (m ∷ ms) = if str_eq path m.0 then some m.1 else find_module path ms

unfoldable pub set_module : String → RunningModule → Modules → Modules
set_module path x [] = (path, x) ∷ []
set_module path x (m ∷ ms) =
    let rest = set_module path x ms in if str_eq path m.0 then (path, x) ∷ ms else m ∷ rest

unfoldable pub delete_module : String → Modules → Modules
delete_module path [] = []
delete_module path (m ∷ ms) =
    let rest = delete_module path ms in if str_eq path m.0 then ms else m ∷ rest

abbrev pub or_new : Option RunningModule → RunningModule
or_new none = new_module
or_new (some m) = m

abbrev pub without : ℕ → List TestCaseInfo → List TestCaseInfo
without id tests = keep (λ t. not (t.test_id == id)) tests

unfoldable pub on_test_file_start : String → TestState → TestState
unfolding set_module
on_test_file_start path s = record s {
  running_modules = set_module path new_module s.running_modules;
}

unfoldable pub on_test_case_result : TestResult → TestState → TestState
unfolding set_module find_module
on_test_case_result r s =
    let m = or_new (find_module r.test_path s.running_modules) in
    let m' : RunningModule = record {
      running_tests = without r.test_id m.running_tests;
      results = m.results ++ r ∷ [];
    } in
    record s { running_modules = set_module r.test_path m' s.running_modules }

unfoldable pub on_test_case_start : TestCaseInfo → TestState → TestState
unfolding set_module find_module
on_test_case_start t s =
    let m = or_new (find_module t.test_path s.running_modules) in
    let m' : RunningModule = record m {
      running_tests = without t.test_id m.running_tests ++ t ∷ [];
    } in
    record s { running_modules = set_module t.test_path m' s.running_modules }

unfoldable pub on_test_file_result : TestFileResult → TestState → TestState
unfolding delete_module
on_test_file_result t s = record s {
  running_modules = delete_module t.test_path s.running_modules;
  test_modules = s.test_modules ++ t ∷ [];
}

unfoldable pub reset : TestState → TestState
reset s = record { running_modules = []; test_modules = []; test_files = none }

abbrev pub failed_results : List TestResult → ℕ
failed_results rs = count_if (λ (r : TestResult). has_failed r.status) rs

-- A file without results counts by its own status.
abbrev pub file_failures : TestFileResult → List TestResult → ℕ
file_failures t [] = if has_failed t.status then 1 else 0
file_failures t (r ∷ rs) = failed_results (r ∷ rs)

unfoldable pub running_failures : Modules → ℕ
running_failures [] = 0
running_failures (m ∷ ms) = failed_results m.1.results + running_failures ms

unfoldable pub module_failures : List TestFileResult → ℕ
module_failures [] = 0
module_failures (t ∷ ts) = file_failures t t.results + module_failures ts

unfoldable pub get_count_of_failed_tests : TestState → ℕ
unfolding running_failures module_failures
get_count_of_failed_tests s = running_failures s.running_modules + module_failures s.test_modules

pub data Event : Type 0 where
  file_start : String → Event
  case_start : TestCaseInfo → Event
  case_result : TestResult → Event
  file_result : TestFileResult → Event
  reset_all : Event

unfoldable pub step : Event → TestState → TestState
unfolding on_test_file_start on_test_case_start on_test_case_result on_test_file_result reset
step (file_start path) s = on_test_file_start path s
step (case_start t) s = on_test_case_start t s
step (case_result r) s = on_test_case_result r s
step (file_result t) s = on_test_file_result t s
step reset_all s = reset s
