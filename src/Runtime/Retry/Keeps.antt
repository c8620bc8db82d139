-- ===== src/Runtime/Retry/Keeps.antt =====
-- packages/core/src/runtime/runner/runner.ts: what each attempt keeps, all attempts of a case keep.
use rstest.Prelude.{ℕ, zero, suc, ◌+◌, ◌-◌, List, [], ◌∷◌, ◌++◌, Option, ◌≡◌, Bool-cases, inl, inr}
use rstest.Runtime.Tree.{Number, TestCase, has_failed, sanitize_attempt_count}
use rstest.Runtime.Attempt.{World, Attempt, TestError, TestResult}
use rstest.Runtime.Attempt.Steps.{run_tests_case}
use rstest.Runtime.Attempt.Cleanups.{started, torn_down, run_tests_case-balanced}
use rstest.Runtime.Retry.{
  retry_loop, repeat_loop, run_case, run_case_within, collect_errors, tries_again, retry_of,
}

module _ (P : Attempt → Type 0) (once : Attempt → TestResult × Attempt)
    (keep : (a : Attempt) → P a → P (once a).1) where
  retry_loop-keeps :
      (budget fuel count : ℕ) (es : List TestError) (history : List TestResult) (a : Attempt)
      → P a
      → P (retry_loop once budget fuel count es history a).attempt
  unfolding retry_loop
  retry_loop-keeps budget zero count es history a p = keep a p
  retry_loop-keeps budget (suc fuel) count es history a p =
      let r = (once a).0 in
      let es' = collect_errors budget count r es in
      let rest = retry_loop-keeps budget fuel (suc count) es' (r ∷ history) (once a).1 (keep a p) in
      let here = keep a p in
      elim (Bool-cases (tries_again budget (suc count) r)) [ inl t ↦ rw t rest | inr t ↦ rw t here ]

  pub repeat_loop-keeps :
      (budget fuel left total : ℕ) (es : List TestError) (history : List TestResult) (a : Attempt)
      → P a
      → P (repeat_loop once budget fuel left total es history a).attempt
  unfolding repeat_loop
  repeat_loop-keeps budget fuel zero total es history a p =
      retry_loop-keeps budget fuel 0 [] history a p
  repeat_loop-keeps budget fuel (suc left) total es history a p =
      let x = retry_loop once budget fuel 0 [] history a in
      let here = retry_loop-keeps budget fuel 0 [] history a p in
      let rest =
        repeat_loop-keeps budget fuel left (total + (x.retries - 1)) (es ++ x.errors) x.history
          x.attempt here in
      elim (Bool-cases (has_failed x.result.status)) [ inl e ↦ rw e here | inr e ↦ rw e rest ]

-- If a fixture has been torn down as often as it has been started before a test case runs, as with an
-- empty log, then so it has been after all attempts of the case, whatever fails on the way: a hook, the
-- body, another teardown.
pub run_case-balanced :
    (w : World) (c : TestCase) (config : Option Number) (before after : List ℕ) (x : ℕ)
    (a : Attempt)
    → started w x a.log ≡ torn_down x a.log
    → started w x (run_case w c config before after a).attempt.log
      ≡ torn_down x (run_case w c config before after a).attempt.log
unfolding run_case run_case_within
run_case-balanced w c config before after x a p =
    repeat_loop-keeps (λ b. started w x b.log ≡ torn_down x b.log) (run_tests_case w c before after)
      (λ b. run_tests_case-balanced w x c before after b)
      (sanitize_attempt_count (retry_of c config))
      (suc (sanitize_attempt_count (retry_of c config))) (sanitize_attempt_count c.repeats) 0 [] []
      a p
