-- ===== src/Runtime/Attempt/Keeps.antt =====
-- packages/core/src/runtime/runner/runner.ts: what each call keeps, a whole attempt keeps.
use rstest.Prelude.{
  ℕ, Bool, true, false, List, [], ◌∷◌, Option, none, some, if◌then◌else◌, Bool-cases, inl, inr, ◌≡◌,
  refl, arith,
}
use mathlib.Core.List.{reverse}
use rstest.Runtime.Tree.{TestCase, has_failed, is_skip_status}
use rstest.Runtime.Attempt.{
  World, Attempt, TestResult, Outcome, returned, threw, Cleanup, await_setup, Call,
  resolve_test_fixtures, resolve_before, resolve_after, before_each, after_each, finished, failed,
  fixture_cleanup, HookResult, completed, skipped, fixture_failed, callback_failed, Reply, Thrown,
  answer, snapshot_skipped, test_body, after_run_test, called, hook_after, fixtures_resolved,
  fixtures_failed, run_per_test_hook, Setup, before_step, add_cleanup, run_before, body_returned,
  run_body, fixtures_result,
}
use rstest.Runtime.Attempt.Steps.{
  after_step, fail_with, run_after, run_cleanups, run_finished, run_failed, fail_on_error,
  add_errors, before_result, setup_result, finish_attempt, after_body, attempt, after_each_fns,
  clean_fixtures,
}

-- The user's functions that run last.
abbrev pub is_final : Call → Bool
is_final (finished fn) = true
is_final (failed fn) = true
is_final _ = false

module _ (P : Attempt → Type 0) (w : World)
    (call : (c : Call) (a : Attempt) → is_final c ≡ true → P a → P (called w c a))
    (note : (a : Attempt) → P a → P (snapshot_skipped a)) where
  run_finished-keeps :
      (fns : List ℕ) (r : TestResult) (a : Attempt) → P a → P (run_finished w fns r a).1
  unfolding run_finished
  run_finished-keeps [] r a p = p
  run_finished-keeps (fn ∷ fns) r a p =
      run_finished-keeps fns (fail_on_error (answer w (finished fn) a) r) (called w (finished fn) a)
        (call (finished fn) a refl p)

  run_failed-keeps :
      (fns : List ℕ) (r : TestResult) (a : Attempt) → P a → P (run_failed w fns r a).1
  unfolding run_failed
  run_failed-keeps [] r a p = p
  run_failed-keeps (fn ∷ fns) r a p =
      run_failed-keeps fns (add_errors (answer w (failed fn) a) r) (called w (failed fn) a)
        (call (failed fn) a refl p)

  skipped-keeps : (b : Bool) (a : Attempt) → P a → P (if b then snapshot_skipped a else a)
  skipped-keeps b a p = ground (arith, note a p)

  finish-keeps : (b : Bool) (r : TestResult) (a : Attempt) → P a → P (finish_attempt w b (r, a)).1
  unfolding finish_attempt
  finish-keeps b r a p =
      let r1 = (run_finished w a.on_finished r a).0 in
      let a1 = (run_finished w a.on_finished r a).1 in
      let a2 = if b then snapshot_skipped a1 else a1 in
      let p2 = skipped-keeps b a1 (run_finished-keeps a.on_finished r a p) in
      let p3 = run_failed-keeps (reverse a2.on_failed) r1 a2 p2 in
      let p4 = note (run_failed w (reverse a2.on_failed) r1 a2).1 p3 in
      elim (Bool-cases (has_failed r1.status)) [ inl e ↦ rw e p4 | inr e ↦ rw e p2 ]

abbrev pub is_cleanup : Call → Bool
is_cleanup (fixture_cleanup fn) = true
is_cleanup _ = false

module _ (P : Attempt → Type 0) (w : World)
    (call : (c : Call) (a : Attempt) → is_cleanup c ≡ false → P a → P (called w c a))
    (pend : (fn : ℕ) (a : Attempt)
      → P a
      → P (record a { fixture_cleanups = await_setup fn ∷ a.fixture_cleanups })) where
  fixtures_resolved-keeps :
      (hook : Call) (reply : Reply) (a : Attempt)
      → is_cleanup hook ≡ false
      → P a
      → P (fixtures_resolved w hook reply a).1
  unfolding fixtures_resolved
  fixtures_resolved-keeps hook reply a e p = ground (arith, call hook a e p)

  fixtures_failed-keeps :
      (reply : Reply) (fn : ℕ) (e : Thrown) (a : Attempt) → P a → P (fixtures_failed reply fn e a).1
  unfolding fixtures_failed
  fixtures_failed-keeps reply fn e a p = ground (arith, pend fn a p)

  hook_after-keeps :
      (hook : Call) (reply : Reply) (fn : ℕ) (o : Outcome) (a : Attempt)
      → is_cleanup hook ≡ false
      → P a
      → P (hook_after w hook reply fn o a).1
  hook_after-keeps hook reply fn (returned x) a e p = fixtures_resolved-keeps hook reply a e p
  hook_after-keeps hook reply fn (threw e) a h p = fixtures_failed-keeps reply fn e a p

  hook-keeps :
      (resolve hook : Call) (fn : ℕ) (a : Attempt)
      → is_cleanup resolve ≡ false
      → is_cleanup hook ≡ false
      → P a
      → P (run_per_test_hook w resolve hook fn a).1
  unfolding run_per_test_hook
  hook-keeps resolve hook fn a er eh p =
      hook_after-keeps hook (w a.log resolve) fn (answer w resolve a) (called w resolve a) eh
        (call resolve a er p)

  before_step-keeps :
      (go : List ℕ → Attempt → Setup × Attempt)
      → ((cs : List ℕ) (a : Attempt) → P a → P (go cs a).1)
      → (cs : List ℕ) (h : HookResult) (a : Attempt) → P a
      → P (before_step go cs h a).1
  unfolding before_step
  before_step-keeps go rest cs (completed c) a p = rest (add_cleanup c cs) a p
  before_step-keeps go rest cs skipped a p = rest cs a p
  before_step-keeps go rest cs (fixture_failed e) a p = p
  before_step-keeps go rest cs (callback_failed e) a p = p

  run_before-keeps : (fns cs : List ℕ) (a : Attempt) → P a → P (run_before w fns cs a).1
  unfolding run_before
  run_before-keeps [] cs a p = p
  run_before-keeps (fn ∷ fns) cs a p =
      before_step-keeps (run_before w fns) (run_before-keeps fns) cs
        (run_per_test_hook w (resolve_before fn) (before_each fn) fn a).0
        (run_per_test_hook w (resolve_before fn) (before_each fn) fn a).1
        (hook-keeps (resolve_before fn) (before_each fn) fn a refl refl p)

  after_step-keeps :
      (go : TestResult → Attempt → TestResult × Attempt)
      → ((r : TestResult) (a : Attempt) → P a → P (go r a).1)
      → (r : TestResult) (h : HookResult) (a : Attempt) → P a
      → P (after_step go r h a).1
  unfolding after_step
  after_step-keeps go rest r (completed c) a p = rest r a p
  after_step-keeps go rest r skipped a p = rest r a p
  after_step-keeps go rest r (fixture_failed e) a p = rest (fail_with e.errors r) a p
  after_step-keeps go rest r (callback_failed e) a p = p

  run_after-keeps : (fns : List ℕ) (r : TestResult) (a : Attempt) → P a → P (run_after w fns r a).1
  unfolding run_after
  run_after-keeps [] r a p = p
  run_after-keeps (fn ∷ fns) r a p =
      after_step-keeps (run_after w fns) (run_after-keeps fns) r
        (run_per_test_hook w (resolve_after fn) (after_each fn) fn a).0
        (run_per_test_hook w (resolve_after fn) (after_each fn) fn a).1
        (hook-keeps (resolve_after fn) (after_each fn) fn a refl refl p)

  body_returned-keeps :
      (fails : Bool) (o : Outcome) (a : Attempt) → P a → P (body_returned w fails o a).1
  unfolding body_returned
  body_returned-keeps fails (returned x) a p = call after_run_test a refl p
  body_returned-keeps fails (threw e) a p = p

  run_body-keeps : (c : TestCase) (a : Attempt) → P a → P (run_body w c a).1
  unfolding run_body
  run_body-keeps c a p =
      let body =
        body_returned-keeps c.fails (answer w test_body a) (called w test_body a)
          (call test_body a refl p) in
      let bare = call after_run_test a refl p in
      elim (Bool-cases c.has_fn) [ inl e ↦ rw e body | inr e ↦ rw e bare ]

  before_result-keeps :
      (fns : List ℕ) (r : Option TestResult) (a : Attempt) → P a → P (before_result w fns r a).1
  before_result-keeps fns none a p = run_before-keeps fns [] a p
  before_result-keeps fns (some r) a p = p

  setup_result-keeps :
      (c : TestCase) (r : Option TestResult) (a : Attempt) → P a → P (setup_result w c r a).1
  setup_result-keeps c none a p = run_body-keeps c a p
  setup_result-keeps c (some r) a p = p

pub run_cleanups-keeps :
    (P : Attempt → Type 0) (w : World)
    → ((fn : Cleanup) (a : Attempt) → P a → P (called w (fixture_cleanup fn) a))
    → (fns : List Cleanup) (r : TestResult) (a : Attempt) → P a
    → P (run_cleanups w fns r a).1
unfolding run_cleanups
run_cleanups-keeps P w call [] r a p = p
run_cleanups-keeps P w call (fn ∷ fns) r a p =
    run_cleanups-keeps P w call fns (fail_on_error (answer w (fixture_cleanup fn) a) r)
      (called w (fixture_cleanup fn) a) (call fn a p)

-- `P` holds until the fixtures' cleanups have run, and `Q` from then on.
module _ (P Q : Attempt → Type 0) (w : World)
    (call : (c : Call) (a : Attempt) → is_cleanup c ≡ false → P a → P (called w c a))
    (pend : (fn : ℕ) (a : Attempt)
      → P a
      → P (record a { fixture_cleanups = await_setup fn ∷ a.fixture_cleanups }))
    (clean : (r : TestResult) (a : Attempt) → P a → Q (clean_fixtures w (r, a)).1)
    (close : (c : Call) (a : Attempt) → is_final c ≡ true → Q a → Q (called w c a))
    (note : (a : Attempt) → Q a → Q (snapshot_skipped a)) where
  after_body-leads :
      (hooks cs : List ℕ) (r : TestResult) (a : Attempt) → P a → Q (after_body w hooks cs (r, a)).1
  unfolding after_body
  after_body-leads hooks cs r a p =
      let after = run_after w (after_each_fns hooks cs) r a in
      let cleaned = clean_fixtures w after in
      finish-keeps Q w close note (is_skip_status r.status) cleaned.0 cleaned.1
        (clean after.0 after.1 (run_after-keeps P w call pend (after_each_fns hooks cs) r a p))

  pub attempt-leads :
      (c : TestCase) (before after : List ℕ) (a : Attempt) → P a → Q (attempt w c before after a).1
  unfolding attempt
  attempt-leads c before after a p =
      let early = fixtures_result (answer w resolve_test_fixtures a) in
      let a0 = called w resolve_test_fixtures a in
      let begun = before_result w before early a0 in
      let body = setup_result w c begun.0.result begun.1 in
      let p1 =
        before_result-keeps P w call pend before early a0 (call resolve_test_fixtures a refl p) in
      let p2 = setup_result-keeps P w call pend c begun.0.result begun.1 p1 in
      after_body-leads after begun.0.cleanups body.0 body.1 p2
