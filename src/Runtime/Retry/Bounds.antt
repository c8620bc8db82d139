-- ===== src/Runtime/Retry/Bounds.antt =====
-- packages/core/src/runtime/runner/runner.ts: the attempts of a test case are bounded.
use rstest.Prelude.{
  ℕ, zero, suc, ◌+◌, ◌-◌, ◌*◌, ◌≤◌, true, List, [], ◌∷◌, ◌++◌, Option, ◌≡◌, ◌∙◌, refl, sym, subst,
  inl, inr, length, take, All, Bool-cases, arith,
}
use rstest.Runtime.Tree.{Number, TestCase, has_failed, sanitize_attempt_count}
use rstest.Runtime.Attempt.{World, Attempt, TestError, TestResult}
use rstest.Runtime.Attempt.Steps.{run_tests_case}
use rstest.Runtime.Retry.{
  Repeat, retry_loop, repeat_loop, run_case, run_case_within, repeat_end, reported, collect_errors,
  tries_again, retry_of,
}
use rstest.Runtime.Retry.Count.{stops, again-failed, again-within}

abbrev Failed : TestResult → Type 0
Failed r = has_failed r.status ≡ true

-- `count` attempts of the repeat have failed so far; if it fails, `budget` + 1 attempts have.
Exhausted : ℕ → Repeat → Type 0
Exhausted budget x = has_failed x.result.status ≡ true → All Failed (take (suc budget) x.history)

failed-reported :
    (r : TestResult) (es : List TestError)
    → has_failed (reported r es).status ≡ true
    → has_failed r.status ≡ true
failed-reported r es e = ground (arith, e)

end-Exhausted :
    (budget count : ℕ) (r : TestResult) (es : List TestError) (history : List TestResult)
    (a : Attempt)
    → (has_failed r.status ≡ true → count ≡ budget)
    → All Failed (take count history)
    → Exhausted budget (repeat_end (suc count) r es (r ∷ history) a)
unfolding Exhausted
end-Exhausted budget count r es history a h all =
    λ e. let f = failed-reported r es e in (f, subst (λ n. All Failed (take n history)) (h f) all)

retry_loop-Exhausted :
    (once : Attempt → TestResult × Attempt) (budget fuel count : ℕ) (es : List TestError)
    (history : List TestResult) (a : Attempt)
    → count ≤ budget
    → budget ≤ count + fuel
    → All Failed (take count history)
    → Exhausted budget (retry_loop once budget fuel count es history a)
unfolding retry_loop
retry_loop-Exhausted once budget zero count es history a le h all =
    end-Exhausted budget count (once a).0 (collect_errors budget count (once a).0 es) history
      (once a).1 (λ e. omega (arith, le, h)) all
retry_loop-Exhausted once budget (suc fuel) count es history a le h all =
    let r = (once a).0 in
    let es' = collect_errors budget count r es in
    elim (Bool-cases (tries_again budget (suc count) r)) [
      | inl t ↦ rw t (
          retry_loop-Exhausted once budget fuel (suc count) es' (r ∷ history) (once a).1
            (again-within budget count r t) (omega (arith, h)) (again-failed budget count r t, all))
      | inr t ↦
          rw t (end-Exhausted budget count r es' history (once a).1 (stops budget count r le t) all)
    ]

repeat_loop-Exhausted :
    (once : Attempt → TestResult × Attempt) (budget fuel left total : ℕ) (es : List TestError)
    (history : List TestResult) (a : Attempt)
    → budget ≤ fuel
    → has_failed (repeat_loop once budget fuel left total es history a).case_result.result.status
      ≡ true
    → All Failed (take (suc budget) (repeat_loop once budget fuel left total es history a).history)
unfolding repeat_loop Exhausted
repeat_loop-Exhausted once budget fuel zero total es history a le f =
    retry_loop-Exhausted once budget fuel 0 [] history a (omega arith) (omega (arith, le)) tt f
repeat_loop-Exhausted once budget fuel (suc left) total es history a le f =
    let x = retry_loop once budget fuel 0 [] history a in
    let total' = total + (x.retries - 1) in
    let h =
      retry_loop-Exhausted once budget fuel 0 [] history a (omega arith) (omega (arith, le)) tt in
    elim (Bool-cases (has_failed x.result.status)) [
      | inl e ↦ rw e (h e)
      | inr e ↦ rw e (
          repeat_loop-Exhausted once budget fuel left total' (es ++ x.errors) x.history x.attempt le
            (rw e at f))
    ]

-- If the result of a test case has failed, its last attempts have all failed, and there are as many of
-- them as the retry budget and one more.
pub run_case-exhausts :
    (w : World) (c : TestCase) (config : Option Number) (before after : List ℕ) (a : Attempt)
    → has_failed (run_case w c config before after a).case_result.result.status ≡ true
    → All Failed (
        take
          (suc (sanitize_attempt_count (retry_of c config)))
          (run_case w c config before after a).history)
unfolding run_case run_case_within
run_case-exhausts w c config before after a =
    let budget = sanitize_attempt_count (retry_of c config) in
    repeat_loop-Exhausted (run_tests_case w c before after) budget (suc budget)
      (sanitize_attempt_count c.repeats) 0 [] [] a (omega arith)

-- Whatever the fuel, the test ends the loop after at most as many attempts as the budget and one more.
retry_loop-length :
    (once : Attempt → TestResult × Attempt) (budget fuel count : ℕ) (es : List TestError)
    (history : List TestResult) (a : Attempt)
    → count ≤ budget
    → count + length (retry_loop once budget fuel count es history a).history
      ≤ suc budget + length history
unfolding retry_loop
retry_loop-length once budget zero count es history a le = omega (arith, le)
retry_loop-length once budget (suc fuel) count es history a le =
    let r = (once a).0 in
    let es' = collect_errors budget count r es in
    elim (Bool-cases (tries_again budget (suc count) r)) [
      | inl t ↦ rw t (
          omega (
            arith,
            retry_loop-length once budget fuel (suc count) es' (r ∷ history) (once a).1
                (again-within budget count r t),
          ))
      | inr t ↦ rw t (omega (arith, le))
    ]

repeat_loop-length :
    (once : Attempt → TestResult × Attempt) (budget fuel left total : ℕ) (es : List TestError)
    (history : List TestResult) (a : Attempt)
    → length (repeat_loop once budget fuel left total es history a).history
      ≤ suc left * suc budget + length history
unfolding repeat_loop
repeat_loop-length once budget fuel zero total es history a =
    let h = retry_loop-length once budget fuel 0 [] history a (omega arith) in omega (arith, h)
repeat_loop-length once budget fuel (suc left) total es history a =
    let x = retry_loop once budget fuel 0 [] history a in
    let total' = total + (x.retries - 1) in
    let h = retry_loop-length once budget fuel 0 [] history a (omega arith) in
    let rest =
      repeat_loop-length once budget fuel left total' (es ++ x.errors) x.history x.attempt in
    let grows : suc left * suc budget + suc budget ≡ suc (suc left) * suc budget = omega arith in
    elim (Bool-cases (has_failed x.result.status)) [
      | inl e ↦ rw e (omega (arith, h, grows))
      | inr e ↦ rw e (omega (arith, h, rest, grows))
    ]

-- With fuel for the budget, one round more changes nothing.
retry_loop-enough :
    (once : Attempt → TestResult × Attempt) (budget fuel count : ℕ) (es : List TestError)
    (history : List TestResult) (a : Attempt)
    → budget ≤ count + fuel
    → retry_loop once budget (suc fuel) count es history a
      ≡ retry_loop once budget fuel count es history a
unfolding retry_loop
retry_loop-enough once budget zero count es history a h =
    elim (Bool-cases (tries_again budget (suc count) (once a).0)) [
      | inl t ↦ absurd (omega (arith, again-within budget count (once a).0 t, h))
      | inr t ↦ rw t refl
    ]
retry_loop-enough once budget (suc fuel) count es history a h =
    let r = (once a).0 in
    let es' = collect_errors budget count r es in
    let rest =
      retry_loop-enough once budget fuel (suc count) es' (r ∷ history) (once a).1
        (omega (arith, h)) in
    elim (Bool-cases (tries_again budget (suc count) r)) [ inl t ↦ rw t rest | inr t ↦ rw t refl ]

repeat_loop-enough :
    (once : Attempt → TestResult × Attempt) (budget fuel left total : ℕ) (es : List TestError)
    (history : List TestResult) (a : Attempt)
    → budget ≤ fuel
    → repeat_loop once budget (suc fuel) left total es history a
      ≡ repeat_loop once budget fuel left total es history a
unfolding repeat_loop
repeat_loop-enough once budget fuel zero total es history a le =
    rw (retry_loop-enough once budget fuel 0 [] history a (omega (arith, le))) refl
repeat_loop-enough once budget fuel (suc left) total es history a le =
    let x = retry_loop once budget fuel 0 [] history a in
    let rest =
      repeat_loop-enough once budget fuel left (total + (x.retries - 1)) (es ++ x.errors) x.history
        x.attempt le in
    rw (retry_loop-enough once budget fuel 0 [] history a (omega (arith, le)))
      (elim (Bool-cases (has_failed x.result.status)) [ inl e ↦ rw e refl | inr e ↦ rw e rest ])

one_more :
    (extra : ℕ) (w : World) (c : TestCase) (config : Option Number) (before after : List ℕ)
    (a : Attempt)
    → run_case_within
        (suc (sanitize_attempt_count (retry_of c config) + extra))
        w
        c
        config
        before
        after
        a
      ≡ run_case_within
          (sanitize_attempt_count (retry_of c config) + extra)
          w
          c
          config
          before
          after
          a
unfolding run_case_within
one_more extra w c config before after a =
    let budget = sanitize_attempt_count (retry_of c config) in
    repeat_loop-enough (run_tests_case w c before after) budget (budget + extra)
      (sanitize_attempt_count c.repeats) 0 [] [] a (omega arith)

within-more :
    (extra : ℕ) (w : World) (c : TestCase) (config : Option Number) (before after : List ℕ)
    (a : Attempt)
    → run_case_within (sanitize_attempt_count (retry_of c config) + extra) w c config before after a
      ≡ run_case_within (sanitize_attempt_count (retry_of c config)) w c config before after a
within-more zero w c config before after a =
    let budget = sanitize_attempt_count (retry_of c config) in
    let e : budget + zero ≡ budget = omega arith in rw e refl
within-more (suc extra) w c config before after a =
    let budget = sanitize_attempt_count (retry_of c config) in
    let e : budget + suc extra ≡ suc (budget + extra) = omega arith in
    rw e (one_more extra w c config before after a ∙ within-more extra w c config before after a)

-- The loops of a test case end by their tests: any fuel from the retry budget on gives the run of the
-- case, and with any fuel at all it has at most `repeats` + 1 times as many attempts as the retry budget
-- and one more.
pub run_case-bounded :
    (extra fuel : ℕ) (w : World) (c : TestCase) (config : Option Number) (before after : List ℕ)
    (a : Attempt)
    → (run_case_within
          (sanitize_attempt_count (retry_of c config) + extra)
          w
          c
          config
          before
          after
          a
        ≡ run_case w c config before after a)
      × (length (run_case_within fuel w c config before after a).history
          ≤ suc (sanitize_attempt_count c.repeats)
            * suc (sanitize_attempt_count (retry_of c config)))
run_case-bounded extra fuel w c config before after a =
    (within-more extra w c config before after a ∙ sym enough, omega (arith, bound))
  where
    enough :
        run_case w c config before after a
        ≡ run_case_within (sanitize_attempt_count (retry_of c config)) w c config before after a
    enough =
        unfold run_case run_case_within in
        (repeat_loop-enough (run_tests_case w c before after)
          (sanitize_attempt_count (retry_of c config)) (sanitize_attempt_count (retry_of c config))
          (sanitize_attempt_count c.repeats) 0 [] [] a (omega arith))

    bound :
        length (run_case_within fuel w c config before after a).history
        ≤ suc (sanitize_attempt_count c.repeats) * suc (sanitize_attempt_count (retry_of c config))
          + 0
    bound =
        unfold run_case_within in
        repeat_loop-length (run_tests_case w c before after)
          (sanitize_attempt_count (retry_of c config)) fuel (sanitize_attempt_count c.repeats) 0 []
          [] a
