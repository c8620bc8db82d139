-- ===== src/Runtime/Attempt/Verdict.antt =====
-- packages/core/src/runtime/runner/runner.ts: the status of an attempt, from its calls.
use rstest.Prelude.{
  ℕ, suc, ◌+◌, ◌<◌, Bool, true, false, not, ◌&&◌, if◌then◌else◌, List, [], ◌∷◌, ◌≡◌, refl, sym, ◌⊎◌,
  inl, inr, Option, none, some, Bool-cases, arith,
}
use rstest.Runtime.Tree.{TestCase, has_failed, is_skip_status}
use rstest.Runtime.Attempt.{
  World, Attempt, TestResult, Outcome, returned, threw, Thrown, resolve_test_fixtures, test_body,
  after_run_test, resolve_after, after_each, HookResult, completed, skipped, fixture_failed,
  callback_failed, answer, called, run_per_test_hook, body_returned, body_result, run_body,
  fixtures_result,
}
use rstest.Runtime.Attempt.Steps.{
  after_step, fail_with, run_after, before_result, setup_result, after_body, attempt,
  after_each_fns, clean_fixtures,
}
use rstest.Runtime.Attempt.Judgement.{
  is_error, breaks, failures, Judged, run_cleanups-Judged, finish-Judged,
}
use rstest.Runtime.Attempt.Hooks.{AfterHook, after_hook, Begun, run_before-Begun, thrown-Judged}

same-Judged :
    (b : Bool) (n : ℕ) (r : TestResult) (a a' : Attempt)
    → failures b a'.log ≡ failures b a.log
    → Judged b n r a
    → Judged b n r a'
unfolding Judged
same-Judged b n r a a' e j = ground (arith, e, j)

failed-Judged :
    (b : Bool) (n : ℕ) (t : Thrown) (r : TestResult) (a a' : Attempt)
    → failures b a'.log ≡ suc (failures b a.log)
    → Judged b n r a
    → Judged b n (fail_with t.errors r) a'
unfolding Judged
failed-Judged b n t r a a' e j = ground (arith, e, j)

after_step-Judged :
    (b : Bool) (n : ℕ) (go : TestResult → Attempt → TestResult × Attempt)
    → ((r : TestResult) (a : Attempt) → Judged b n r a → Judged b n (go r a).0 (go r a).1)
    → (r : TestResult) (a : Attempt) (h : HookResult) (a' : Attempt) → Judged b n r a
    → AfterHook b (failures b a.log) h a'
    → Judged b n (after_step go r h a').0 (after_step go r h a').1
unfolding after_step AfterHook
after_step-Judged b n go rest r a (completed c) a' j e = rest r a' (same-Judged b n r a a' e j)
after_step-Judged b n go rest r a skipped a' j e = rest r a' (same-Judged b n r a a' e j)
after_step-Judged b n go rest r a (fixture_failed t) a' j e =
    rest (fail_with t.errors r) a' (failed-Judged b n t r a a' e j)
after_step-Judged b n go rest r a (callback_failed t) a' j e = failed-Judged b n t r a a' e j

run_after-Judged :
    (b : Bool) (n : ℕ) (w : World) (fns : List ℕ) (r : TestResult) (a : Attempt)
    → Judged b n r a
    → Judged b n (run_after w fns r a).0 (run_after w fns r a).1
unfolding run_after
run_after-Judged b n w [] r a j = j
run_after-Judged b n w (fn ∷ fns) r a j =
    after_step-Judged b n (run_after w fns) (run_after-Judged b n w fns) r a
      (run_per_test_hook w (resolve_after fn) (after_each fn) fn a).0
      (run_per_test_hook w (resolve_after fn) (after_each fn) fn a).1 j (after_hook b w fn a)

checked-Judged :
    (b : Bool) (n : ℕ) (w : World) (a : Attempt)
    → failures b a.log ≡ n
    → Judged b n (body_result b (answer w after_run_test a)) (called w after_run_test a)
unfolding Judged called failures breaks
checked-Judged true n w a e = ground (arith, e)
checked-Judged false n w a e = ground (arith, e)

body_thrown-Judged :
    (b : Bool) (n : ℕ) (t : Thrown) (a : Attempt)
    → failures b a.log ≡ (if not b && not t.is_skip then suc n else n)
    → Judged b n (body_result b (threw t)) a
unfolding Judged
body_thrown-Judged true n t a e = ground (arith, e)
body_thrown-Judged false n t a e = ground (arith, e)

body_returned-Judged :
    (b : Bool) (n : ℕ) (w : World) (o : Outcome) (a : Attempt)
    → failures b a.log ≡ (if not b && is_error o then 1 else 0) + n
    → Judged b n (body_returned w b o a).0 (body_returned w b o a).1
unfolding body_returned
body_returned-Judged b n w (returned x) a e = checked-Judged b n w a (ground (arith, e))
body_returned-Judged b n w (threw t) a e = body_thrown-Judged b n t a (ground (arith, e))

body_called :
    (b : Bool) (w : World) (a : Attempt)
    → failures b (called w test_body a).log
      ≡ (if not b && is_error (answer w test_body a) then 1 else 0) + failures b a.log
unfolding called failures breaks
body_called b w a = refl

run_body-Judged :
    (w : World) (c : TestCase) (a : Attempt)
    → Judged c.fails (failures c.fails a.log) (run_body w c a).0 (run_body w c a).1
unfolding run_body
run_body-Judged w c a =
    let n = failures c.fails a.log in
    let body =
      body_returned-Judged c.fails n w (answer w test_body a) (called w test_body a)
        (body_called c.fails w a) in
    let bare = checked-Judged c.fails n w a refl in
    elim (Bool-cases c.has_fn) [ inl e ↦ rw e body | inr e ↦ rw e bare ]

setup-Judged :
    (w : World) (c : TestCase) (n : ℕ) (r : Option TestResult) (a : Attempt)
    → Begun c.fails n r a
    → Judged c.fails n (setup_result w c r a).0 (setup_result w c r a).1
unfolding Begun
setup-Judged w c n none a e = rw (sym e) (run_body-Judged w c a)
setup-Judged w c n (some r) a j = j

begun :
    (b : Bool) (n : ℕ) (w : World) (before : List ℕ) (o : Outcome) (a : Attempt)
    → failures b a.log ≡ (if is_error o then 1 else 0) + n
    → Begun b n
        (before_result w before (fixtures_result o) a).0.result
        (before_result w before (fixtures_result o) a).1
unfolding Begun
begun b n w before (returned x) a e = run_before-Begun b n w before [] a (omega (arith, e))
begun b n w before (threw t) a e = thrown-Judged b n t a (ground (arith, e))

resolve_called :
    (b : Bool) (w : World) (a : Attempt)
    → failures b (called w resolve_test_fixtures a).log
      ≡ (if is_error (answer w resolve_test_fixtures a) then 1 else 0) + failures b a.log
unfolding called failures breaks
resolve_called b w a = refl

after_body-Judged :
    (b : Bool) (n : ℕ) (w : World) (hooks cs : List ℕ) (r : TestResult) (a : Attempt)
    → Judged b n r a
    → Judged b n (after_body w hooks cs (r, a)).0 (after_body w hooks cs (r, a)).1
unfolding after_body
after_body-Judged b n w hooks cs r a j =
    let after = run_after w (after_each_fns hooks cs) r a in
    let cleaned = clean_fixtures w after in
    finish-Judged b n w (is_skip_status r.status) cleaned.0 cleaned.1 (
      run_cleanups-Judged b n w after.1.fixture_cleanups after.0 after.1
        (run_after-Judged b n w (after_each_fns hooks cs) r a j))

-- An attempt that runs fails just when one of its calls makes it fail: an error of the test's fixtures,
-- of a `beforeEach` hook or of the body and the checks after it, if it is no skip; anything thrown by an
-- `afterEach` hook, a teardown or an `onTestFinished` handler; for a test that `fails`, the checks after
-- the body ending without an error. Nothing else makes it fail, and nothing later hides a failure.
pub attempt-verdict :
    (w : World) (c : TestCase) (before after : List ℕ) (a : Attempt)
    → ((has_failed (attempt w c before after a).0.status ≡ true)
        × (failures c.fails a.log < failures c.fails (attempt w c before after a).1.log))
      ⊎ ((has_failed (attempt w c before after a).0.status ≡ false)
          × (failures c.fails (attempt w c before after a).1.log ≡ failures c.fails a.log))
unfolding attempt Judged
attempt-verdict w c before after a =
    let n = failures c.fails a.log in
    let o = answer w resolve_test_fixtures a in
    let a0 = called w resolve_test_fixtures a in
    let x = before_result w before (fixtures_result o) a0 in
    let y = setup_result w c x.0.result x.1 in
    after_body-Judged c.fails n w after x.0.cleanups y.0 y.1 (
      setup-Judged w c n x.0.result x.1
        (begun c.fails n w before o a0 (resolve_called c.fails w a)))
