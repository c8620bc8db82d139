-- ===== src/Runtime/Attempt/Hooks.antt =====
-- packages/core/src/runtime/runner/runner.ts: the verdict of a per-test hook, from its calls.
use rstest.Prelude.{
  ℕ, suc, ◌+◌, Bool, if◌then◌else◌, List, [], ◌∷◌, ◌≡◌, refl, sym, ap, ◌∙◌, inl, inr, Option, none,
  some, Bool-cases, arith,
}
use rstest.Runtime.Attempt.{
  World, Attempt, TestResult, Outcome, returned, threw, Thrown, resolve_before, resolve_after,
  before_each, after_each, HookResult, completed, skipped, fixture_failed, callback_failed, Reply,
  answer, called, hook_after, hook_outcome, fixtures_resolved, fixtures_failed, run_per_test_hook,
  Setup, before_step, add_cleanup, run_before, thrown_result,
}
use rstest.Runtime.Attempt.Judgement.{is_error, is_thrown, breaks, failures, Judged}

-- After a hook: none of its calls makes the test fail, or the one whose error it reports.
unfoldable pub BeforeHook : Bool → ℕ → HookResult → Attempt → Type 0
BeforeHook b n (completed c) a = failures b a.log ≡ n
BeforeHook b n skipped a = failures b a.log ≡ n
BeforeHook b n (fixture_failed e) a = failures b a.log ≡ (if e.is_skip then n else suc n)
BeforeHook b n (callback_failed e) a = failures b a.log ≡ (if e.is_skip then n else suc n)

unfoldable pub AfterHook : Bool → ℕ → HookResult → Attempt → Type 0
AfterHook b n (completed c) a = failures b a.log ≡ n
AfterHook b n skipped a = failures b a.log ≡ n
AfterHook b n (fixture_failed e) a = failures b a.log ≡ suc n
AfterHook b n (callback_failed e) a = failures b a.log ≡ suc n

before_called :
    (b : Bool) (w : World) (fn : ℕ) (o : Outcome) (a : Attempt)
    → answer w (before_each fn) a ≡ o
    → BeforeHook b (failures b a.log) (hook_outcome o) (called w (before_each fn) a)
unfolding BeforeHook called failures breaks
before_called b w fn (returned x) a e = ground arith
before_called b w fn (threw t) a e = ground arith

before_resolved :
    (b : Bool) (n : ℕ) (w : World) (fn : ℕ) (reply : Reply) (a : Attempt)
    → failures b a.log ≡ n
    → BeforeHook b n
        (fixtures_resolved w (before_each fn) reply a).0
        (fixtures_resolved w (before_each fn) reply a).1
unfolding fixtures_resolved BeforeHook
before_resolved b n w fn reply a e = elim (Bool-cases reply.resolves) [
  | inl r ↦ rw r (rw (sym e) (before_called b w fn (answer w (before_each fn) a) a refl))
  | inr r ↦ rw r e
]

failed_log :
    (reply : Reply) (fn : ℕ) (e : Thrown) (a : Attempt)
    → (fixtures_failed reply fn e a).1.log ≡ a.log
unfolding fixtures_failed
failed_log reply fn e a = ground arith

before_failed :
    (b : Bool) (n : ℕ) (reply : Reply) (fn : ℕ) (e : Thrown) (a : Attempt)
    → failures b a.log ≡ (if e.is_skip then n else suc n)
    → BeforeHook b n (fixtures_failed reply fn e a).0 (fixtures_failed reply fn e a).1
unfolding fixtures_failed BeforeHook
before_failed b n reply fn e a h = ap (failures b) (failed_log reply fn e a) ∙ h

before_after :
    (b : Bool) (n : ℕ) (w : World) (fn : ℕ) (reply : Reply) (o : Outcome) (a : Attempt)
    → failures b a.log ≡ (if is_error o then 1 else 0) + n
    → BeforeHook b n
        (hook_after w (before_each fn) reply fn o a).0
        (hook_after w (before_each fn) reply fn o a).1
before_after b n w fn reply (returned x) a h = before_resolved b n w fn reply a (omega (arith, h))
before_after b n w fn reply (threw e) a h = before_failed b n reply fn e a (ground (arith, h))

before_hook :
    (b : Bool) (w : World) (fn : ℕ) (a : Attempt)
    → BeforeHook b
        (failures b a.log)
        (run_per_test_hook w (resolve_before fn) (before_each fn) fn a).0
        (run_per_test_hook w (resolve_before fn) (before_each fn) fn a).1
unfolding run_per_test_hook called failures breaks
before_hook b w fn a =
    before_after b (failures b a.log) w fn (w a.log (resolve_before fn))
      (answer w (resolve_before fn) a) (called w (resolve_before fn) a) refl

after_called :
    (b : Bool) (w : World) (fn : ℕ) (o : Outcome) (a : Attempt)
    → answer w (after_each fn) a ≡ o
    → AfterHook b (failures b a.log) (hook_outcome o) (called w (after_each fn) a)
unfolding AfterHook called failures breaks
after_called b w fn (returned x) a e = ground arith
after_called b w fn (threw t) a e = ground arith

after_resolved :
    (b : Bool) (n : ℕ) (w : World) (fn : ℕ) (reply : Reply) (a : Attempt)
    → failures b a.log ≡ n
    → AfterHook b n
        (fixtures_resolved w (after_each fn) reply a).0
        (fixtures_resolved w (after_each fn) reply a).1
unfolding fixtures_resolved AfterHook
after_resolved b n w fn reply a e = elim (Bool-cases reply.resolves) [
  | inl r ↦ rw r (rw (sym e) (after_called b w fn (answer w (after_each fn) a) a refl))
  | inr r ↦ rw r e
]

after_failed :
    (b : Bool) (n : ℕ) (reply : Reply) (fn : ℕ) (e : Thrown) (a : Attempt)
    → failures b a.log ≡ suc n
    → AfterHook b n (fixtures_failed reply fn e a).0 (fixtures_failed reply fn e a).1
unfolding fixtures_failed AfterHook
after_failed b n reply fn e a h = ap (failures b) (failed_log reply fn e a) ∙ h

after_after :
    (b : Bool) (n : ℕ) (w : World) (fn : ℕ) (reply : Reply) (o : Outcome) (a : Attempt)
    → failures b a.log ≡ (if is_thrown o then 1 else 0) + n
    → AfterHook b n
        (hook_after w (after_each fn) reply fn o a).0
        (hook_after w (after_each fn) reply fn o a).1
after_after b n w fn reply (returned x) a h = after_resolved b n w fn reply a (omega (arith, h))
after_after b n w fn reply (threw e) a h = after_failed b n reply fn e a (omega (arith, h))

pub after_hook :
    (b : Bool) (w : World) (fn : ℕ) (a : Attempt)
    → AfterHook b
        (failures b a.log)
        (run_per_test_hook w (resolve_after fn) (after_each fn) fn a).0
        (run_per_test_hook w (resolve_after fn) (after_each fn) fn a).1
unfolding run_per_test_hook called failures breaks
after_hook b w fn a =
    after_after b (failures b a.log) w fn (w a.log (resolve_after fn))
      (answer w (resolve_after fn) a) (called w (resolve_after fn) a) refl

-- Before the body: no result and no failure yet, or a result with its verdict.
unfoldable pub Begun : Bool → ℕ → Option TestResult → Attempt → Type 0
Begun b n none a = failures b a.log ≡ n
Begun b n (some r) a = Judged b n r a

pub thrown-Judged :
    (b : Bool) (n : ℕ) (e : Thrown) (a : Attempt)
    → failures b a.log ≡ (if e.is_skip then n else suc n)
    → Judged b n (thrown_result e) a
unfolding Judged
thrown-Judged b n e a h = ground (arith, h)

before_step-Begun :
    (b : Bool) (n : ℕ) (go : List ℕ → Attempt → Setup × Attempt)
    → ((cs : List ℕ) (a : Attempt)
        → failures b a.log ≡ n
        → Begun b n (go cs a).0.result (go cs a).1)
    → (cs : List ℕ) (h : HookResult) (a : Attempt) → BeforeHook b n h a
    → Begun b n (before_step go cs h a).0.result (before_step go cs h a).1
unfolding before_step BeforeHook Begun
before_step-Begun b n go rest cs (completed c) a e = rest (add_cleanup c cs) a e
before_step-Begun b n go rest cs skipped a e = rest cs a e
before_step-Begun b n go rest cs (fixture_failed t) a e = thrown-Judged b n t a e
before_step-Begun b n go rest cs (callback_failed t) a e = thrown-Judged b n t a e

pub run_before-Begun :
    (b : Bool) (n : ℕ) (w : World) (fns cs : List ℕ) (a : Attempt)
    → failures b a.log ≡ n
    → Begun b n (run_before w fns cs a).0.result (run_before w fns cs a).1
unfolding run_before Begun
run_before-Begun b n w [] cs a e = e
run_before-Begun b n w (fn ∷ fns) cs a e =
    before_step-Begun b n (run_before w fns) (run_before-Begun b n w fns) cs
      (run_per_test_hook w (resolve_before fn) (before_each fn) fn a).0
      (run_per_test_hook w (resolve_before fn) (before_each fn) fn a).1
      (rw (sym e) (before_hook b w fn a))
