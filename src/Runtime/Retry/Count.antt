-- ===== src/Runtime/Retry/Count.antt =====
-- packages/core/src/runtime/runner/runner.ts: how many attempts a test case has, and what they decide.
use rstest.Prelude.{
  ℕ, zero, suc, ◌+◌, ◌-◌, ◌≤◌, Bool, true, false, not, List, [], ◌∷◌, ◌++◌, Option, ◌≡◌, refl, ◌⊎◌,
  inl, inr, count_if, Bool-cases, arith,
}
use rstest.Runtime.Tree.{Number, TestCase, has_failed, sanitize_attempt_count}
use rstest.Runtime.Attempt.{World, Attempt, TestError, TestResult}
use rstest.Runtime.Attempt.Steps.{run_tests_case}
use rstest.Runtime.Retry.{
  Repeat, retry_loop, repeat_loop, run_case, run_case_within, CaseRun, case_end, repeat_end,
  collect_errors, tries_again, retry_of,
}

abbrev pub failed_result : TestResult → Bool
failed_result r = has_failed r.status

abbrev pub other_result : TestResult → Bool
other_result r = not (has_failed r.status)

abbrev pub failed_attempts : List TestResult → ℕ
failed_attempts = count_if failed_result

abbrev pub other_attempts : List TestResult → ℕ
other_attempts = count_if other_result

-- How a repeat ends, for the history before it and `count` failed attempts in it so far.
unfoldable pub RepeatEnds : ℕ → ℕ → List TestResult → Repeat → Type 0
RepeatEnds budget count history x =
    ((has_failed x.result.status ≡ false)
      × (other_attempts x.history ≡ suc (other_attempts history))
      × (failed_attempts x.history + suc count ≡ failed_attempts history + x.retries)
      × (x.retries ≤ suc budget)
      × (suc count ≤ x.retries))
    ⊎ ((has_failed x.result.status ≡ true)
        × (other_attempts x.history ≡ other_attempts history)
        × (failed_attempts x.history + count ≡ failed_attempts history + x.retries)
        × (x.retries ≡ suc budget))

repeat_end-RepeatEnds :
    (budget count : ℕ) (r : TestResult) (es : List TestError) (history : List TestResult)
    (a : Attempt)
    → (has_failed r.status ≡ true → count ≡ budget)
    → count ≤ budget
    → RepeatEnds budget count history (repeat_end (suc count) r es (r ∷ history) a)
unfolding RepeatEnds
repeat_end-RepeatEnds budget count r es history a h le = ground (arith, h, le)

-- One more failed attempt before the rest of the repeat.
later-RepeatEnds :
    (budget count : ℕ) (r : TestResult) (history : List TestResult) (x : Repeat)
    → has_failed r.status ≡ true
    → RepeatEnds budget (suc count) (r ∷ history) x
    → RepeatEnds budget count history x
unfolding RepeatEnds
later-RepeatEnds budget count r history x e h = ground (arith, e, h)

pub stops :
    (budget count : ℕ) (r : TestResult)
    → count ≤ budget
    → tries_again budget (suc count) r ≡ false
    → has_failed r.status ≡ true
    → count ≡ budget
stops budget count r le t e = ground (arith, le, t, e)

pub again-failed :
    (budget count : ℕ) (r : TestResult)
    → tries_again budget (suc count) r ≡ true
    → has_failed r.status ≡ true
again-failed budget count r t = ground (arith, t)

pub again-within :
    (budget count : ℕ) (r : TestResult)
    → tries_again budget (suc count) r ≡ true
    → suc count ≤ budget
again-within budget count r t = ground (arith, t)

pub retry_loop-RepeatEnds :
    (once : Attempt → TestResult × Attempt) (budget fuel count : ℕ) (es : List TestError)
    (history : List TestResult) (a : Attempt)
    → count ≤ budget
    → budget ≤ count + fuel
    → RepeatEnds budget count history (retry_loop once budget fuel count es history a)
unfolding retry_loop
retry_loop-RepeatEnds once budget zero count es history a le h =
    repeat_end-RepeatEnds budget count (once a).0 (collect_errors budget count (once a).0 es)
      history (once a).1 (λ e. omega (arith, le, h)) le
retry_loop-RepeatEnds once budget (suc fuel) count es history a le h =
    let r = (once a).0 in
    let es' = collect_errors budget count r es in
    elim (Bool-cases (tries_again budget (suc count) r)) [
      | inl t ↦ rw t (
          later-RepeatEnds budget count r history
            (retry_loop once budget fuel (suc count) es' (r ∷ history) (once a).1)
            (again-failed budget count r t)
            (retry_loop-RepeatEnds once budget fuel (suc count) es' (r ∷ history) (once a).1
              (again-within budget count r t) (omega (arith, h))))
      | inr t ↦ rw t (
          repeat_end-RepeatEnds budget count r es' history (once a).1 (stops budget count r le t)
            le)
    ]

-- How the loop over the repeats ends, with `left` repeats after the next one.
unfoldable pub CaseEnds : ℕ → ℕ → List TestResult → CaseRun → Type 0
CaseEnds left total history x =
    ((has_failed x.case_result.result.status ≡ false)
      × (other_attempts x.history ≡ other_attempts history + suc left)
      × (x.case_result.retry_count + failed_attempts history ≡ total + failed_attempts x.history))
    ⊎ ((has_failed x.case_result.result.status ≡ true)
        × (other_attempts x.history ≤ other_attempts history + left)
        × (suc x.case_result.retry_count + failed_attempts history
            ≡ total + failed_attempts x.history))

last-CaseEnds :
    (budget left total : ℕ) (es : List TestError) (history : List TestResult) (x : Repeat)
    → (has_failed x.result.status ≡ false → left ≡ 0)
    → RepeatEnds budget 0 history x
    → CaseEnds left total history (case_end (total + (x.retries - 1)) es x)
unfolding CaseEnds RepeatEnds
last-CaseEnds budget left total es history x z h = ground (arith, z, h)

next-CaseEnds :
    (budget left total : ℕ) (history : List TestResult) (x : Repeat) (y : CaseRun)
    → has_failed x.result.status ≡ false
    → RepeatEnds budget 0 history x
    → CaseEnds left (total + (x.retries - 1)) x.history y
    → CaseEnds (suc left) total history y
unfolding CaseEnds RepeatEnds
next-CaseEnds budget left total history x y e h k = ground (arith, e, h, k)

repeat_loop-CaseEnds :
    (once : Attempt → TestResult × Attempt) (budget fuel left total : ℕ) (es : List TestError)
    (history : List TestResult) (a : Attempt)
    → budget ≤ fuel
    → CaseEnds left total history (repeat_loop once budget fuel left total es history a)
unfolding repeat_loop
repeat_loop-CaseEnds once budget fuel zero total es history a f =
    let x = retry_loop once budget fuel 0 [] history a in
    last-CaseEnds budget 0 total (es ++ x.errors) history x (λ e. refl)
      (retry_loop-RepeatEnds once budget fuel 0 [] history a (omega arith) (omega (arith, f)))
repeat_loop-CaseEnds once budget fuel (suc left) total es history a f =
    let x = retry_loop once budget fuel 0 [] history a in
    let total' = total + (x.retries - 1) in
    let h =
      retry_loop-RepeatEnds once budget fuel 0 [] history a (omega arith) (omega (arith, f)) in
    let rest =
      repeat_loop-CaseEnds once budget fuel left total' (es ++ x.errors) x.history x.attempt f in
    let y = repeat_loop once budget fuel left total' (es ++ x.errors) x.history x.attempt in
    elim (Bool-cases (has_failed x.result.status)) [
      | inl e ↦ rw e (
          last-CaseEnds budget (suc left) total (es ++ x.errors) history x
            (λ e'. ground (arith, e, e')) h)
      | inr e ↦ rw e (next-CaseEnds budget left total history x y e h rest)
    ]

-- With `repeats` and a retry budget, the result of a test case has not failed just when `repeats` + 1
-- attempts have not; its retry count is then the number of failed attempts. It has failed just when at
-- most `repeats` attempts have not; then the retry count leaves out the last of the failed ones.
pub run_case-counts :
    (w : World) (c : TestCase) (config : Option Number) (before after : List ℕ) (a : Attempt)
    → CaseEnds (sanitize_attempt_count c.repeats) 0 [] (run_case w c config before after a)
unfolding run_case run_case_within
run_case-counts w c config before after a =
    repeat_loop-CaseEnds (run_tests_case w c before after)
      (sanitize_attempt_count (retry_of c config))
      (suc (sanitize_attempt_count (retry_of c config))) (sanitize_attempt_count c.repeats) 0 [] []
      a (omega arith)
