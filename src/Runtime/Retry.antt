-- ===== src/Runtime/Retry.antt =====
-- packages/core/src/runtime/runner/runner.ts: the attempts of a test case (`runTest` on a case).
pub mod Keeps
pub mod Count
pub mod Bounds
use rstest.Prelude.{
  ℕ, zero, suc, ◌+◌, ◌-◌, ltb, leb, Bool, true, false, ◌&&◌, if◌then◌else◌, List, [], ◌∷◌, ◌++◌,
  Option, none, some,
}
use rstest.Runtime.Tree.{Number, TestCase, Status, pass_status, has_failed, sanitize_attempt_count}
use rstest.Runtime.Attempt.{World, Attempt, TestError, TestResult}
use rstest.Runtime.Attempt.Steps.{run_tests_case}

-- `history` lists the results of the attempts, the newest first; `retries` is the `retryCount` of the
-- repeat after its loop.
pub record Repeat : Type 0 where
  pub result : TestResult
  pub retries : ℕ
  pub errors : List TestError
  pub history : List TestResult
  pub attempt : Attempt

-- An error that is kept says which attempt it is of, if there may be several.
abbrev pub stamp : ℕ → ℕ → TestError → TestError
stamp budget count e = if ltb 0 budget then record e { retry_count = some count } else e

unfoldable pub stamp_all : ℕ → ℕ → List TestError → List TestError
stamp_all budget count [] = []
stamp_all budget count (e ∷ es) = stamp budget count e ∷ stamp_all budget count es

-- `repeatRetryErrors` after an attempt.
abbrev pub collect_errors : ℕ → ℕ → TestResult → List TestError → List TestError
collect_errors budget count r errors =
    if has_failed r.status then errors ++ stamp_all budget count r.errors else errors

-- The result that is reported: all errors of the repeat, if it fails.
abbrev pub reported : TestResult → List TestError → TestResult
reported r errors = if has_failed r.status then record r { errors = errors } else r

-- The test of the `do` loop, for the count that has been incremented.
abbrev pub tries_again : ℕ → ℕ → TestResult → Bool
tries_again budget count r = leb count budget && has_failed r.status

abbrev pub repeat_end : ℕ → TestResult → List TestError → List TestResult → Attempt → Repeat
repeat_end count r errors history a = record {
  result = reported r errors;
  retries = count;
  errors = errors;
  history = history;
  attempt = a;
}

-- The `do` loop of one repeat, whose body is `once`. `fuel` bounds the further rounds of the recursion;
-- the loop ends by its test, after at most as many further rounds as the budget.
unfoldable pub retry_loop :
    (Attempt → TestResult × Attempt)
    → ℕ
    → ℕ
    → ℕ
    → List TestError
    → List TestResult
    → Attempt
    → Repeat
unfolding stamp_all
retry_loop once budget zero count errors history a =
    let (r, a') = once a in
    repeat_end (suc count) r (collect_errors budget count r errors) (r ∷ history) a'
retry_loop once budget (suc fuel) count errors history a =
    let (r, a') = once a in
    let errors' = collect_errors budget count r errors in
    let rest = retry_loop once budget fuel (suc count) errors' (r ∷ history) a' in
    if tries_again budget (suc count) r
    then rest
    else repeat_end (suc count) r errors' (r ∷ history) a'

pub record CaseResult : Type 0 where
  pub result : TestResult
  pub retry_count : ℕ
  pub retry_errors : List TestError

pub record CaseRun : Type 0 where
  pub case_result : CaseResult
  pub history : List TestResult
  pub attempt : Attempt

-- After the loops: earlier errors are kept only on a test that passes.
abbrev pub is_pass : Status → Bool
is_pass pass_status = true
is_pass _ = false

abbrev pub case_end : ℕ → List TestError → Repeat → CaseRun
case_end total errors x = record {
  case_result = record {
    result = x.result;
    retry_count = total;
    retry_errors = if is_pass x.result.status then errors else [];
  };
  history = x.history;
  attempt = x.attempt;
}

-- The `for` loop over the repeats, of which `left` are still to come after this one; `total` is
-- `totalRetryCount`, `errors` is `retryErrors`, and `fuel` is that of each retry loop.
unfoldable pub repeat_loop :
    (Attempt → TestResult × Attempt)
    → ℕ
    → ℕ
    → ℕ
    → ℕ
    → List TestError
    → List TestResult
    → Attempt
    → CaseRun
unfolding retry_loop
repeat_loop once budget fuel zero total errors history a =
    let x = retry_loop once budget fuel 0 [] history a in
    case_end (total + (x.retries - 1)) (errors ++ x.errors) x
repeat_loop once budget fuel (suc left) total errors history a =
    let x = retry_loop once budget fuel 0 [] history a in
    let total' = total + (x.retries - 1) in
    let errors' = errors ++ x.errors in
    let rest = repeat_loop once budget fuel left total' errors' x.history x.attempt in
    if has_failed x.result.status then case_end total' errors' x else rest

-- `test.retry ?? retry`
abbrev pub retry_of : TestCase → Option Number → Option Number
retry_of c config = elim c.retry [ none ↦ config | some n ↦ some n ]

-- `runTest` on a case, with fuel for each of its retry loops.
unfoldable pub run_case_within :
    ℕ → World → TestCase → Option Number → List ℕ → List ℕ → Attempt → CaseRun
unfolding repeat_loop run_tests_case sanitize_attempt_count
run_case_within fuel w c config before after a =
    repeat_loop (run_tests_case w c before after) (sanitize_attempt_count (retry_of c config)) fuel
      (sanitize_attempt_count c.repeats) 0 [] [] a

-- One round more than the test of the retry loop lets it use.
unfoldable pub run_case : World → TestCase → Option Number → List ℕ → List ℕ → Attempt → CaseRun
unfolding run_case_within sanitize_attempt_count
run_case w c config before after a =
    run_case_within (suc (sanitize_attempt_count (retry_of c config))) w c config before after a
