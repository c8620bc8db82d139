-- ===== src/Runtime/Attempt/Handlers.antt =====
-- packages/core/src/runtime/runner/runner.ts: the handlers that an attempt registers.
use rstest.Prelude.{ℕ, List, [], ◌∷◌, ◌++◌, ◌≡◌, refl, sym, ap, ◌∙◌, take-append}
use rstest.Runtime.Tree.{RunMode, run, only, skip, todo, TestCase}
use rstest.Runtime.Attempt.{
  World, Attempt, TestResult, Call, await_setup, called, snapshot_skipped, fixture_cleanup,
}
use rstest.Runtime.Attempt.Steps.{attempt, run_tests_case, run_with_mode, truncate}
use rstest.Runtime.Attempt.Keeps.{attempt-leads, run_cleanups-keeps}
use mathlib.Core.List.{append_assoc, append-nil}

-- The handlers are those of `old`, and then new ones.
Extends : Attempt → Attempt → Type 0
Extends old a =
    ((xs : List ℕ) × (a.on_finished ≡ old.on_finished ++ xs))
    × ((ys : List ℕ) × (a.on_failed ≡ old.on_failed ++ ys))

called-Extends :
    (old : Attempt) (w : World) (c : Call) (a : Attempt)
    → Extends old a
    → Extends old (called w c a)
unfolding Extends called
called-Extends old w c a ((xs, p), (ys, q)) = (
  (
    xs ++ (w a.log c).on_finished,
    ap (λ t. t ++ (w a.log c).on_finished) p
        ∙ append_assoc old.on_finished xs (w a.log c).on_finished,
  ),
  (
    ys ++ (w a.log c).on_failed,
    ap (λ t. t ++ (w a.log c).on_failed) q ∙ append_assoc old.on_failed ys (w a.log c).on_failed,
  ),
)

pended-Extends :
    (old : Attempt) (fn : ℕ) (a : Attempt)
    → Extends old a
    → Extends old (record a { fixture_cleanups = await_setup fn ∷ a.fixture_cleanups })
unfolding Extends
pended-Extends old fn a e = e

noted-Extends : (old a : Attempt) → Extends old a → Extends old (snapshot_skipped a)
unfolding Extends snapshot_skipped
noted-Extends old a e = e

start-Extends : (a : Attempt) → Extends a (record a { fixture_cleanups = [] })
unfolding Extends
start-Extends a = (([], sym (append-nil a.on_finished)), ([], sym (append-nil a.on_failed)))

truncate-Restores :
    (old : Attempt) (r : TestResult) (a : Attempt)
    → Extends old a
    → ((truncate old (r, a)).1.on_finished ≡ old.on_finished)
      × ((truncate old (r, a)).1.on_failed ≡ old.on_failed)
unfolding Extends
truncate-Restores old r a ((xs, p), (ys, q)) =
    (rw p (take-append old.on_finished xs), rw q (take-append old.on_failed ys))

attempt-Extends :
    (w : World) (c : TestCase) (before after : List ℕ) (old : Attempt)
    → Extends old (attempt w c before after (record old { fixture_cleanups = [] })).1
attempt-Extends w c before after old =
    let call : (c : Call) (a : Attempt) → Extends old a → Extends old (called w c a) =
      called-Extends old w in
    attempt-leads (Extends old) (Extends old) w (λ c a h. call c a) (pended-Extends old)
      (λ r a.
        run_cleanups-keeps (Extends old) w (λ fn. call (fixture_cleanup fn)) a.fixture_cleanups r a)
      (λ c a h. call c a) (noted-Extends old) c before after (record old { fixture_cleanups = [] })
      (start-Extends old)

run_with_mode-restores :
    (w : World) (c : TestCase) (before after : List ℕ) (m : RunMode) (a : Attempt)
    → ((run_with_mode w c before after m a).1.on_finished ≡ a.on_finished)
      × ((run_with_mode w c before after m a).1.on_failed ≡ a.on_failed)
unfolding run_with_mode snapshot_skipped
run_with_mode-restores w c before after run a =
    let x = attempt w c before after (record a { fixture_cleanups = [] }) in
    truncate-Restores a x.0 x.1 (attempt-Extends w c before after a)
run_with_mode-restores w c before after only a =
    let x = attempt w c before after (record a { fixture_cleanups = [] }) in
    truncate-Restores a x.0 x.1 (attempt-Extends w c before after a)
run_with_mode-restores w c before after skip a = (refl, refl)
run_with_mode-restores w c before after todo a = (refl, refl)

-- An attempt leaves the handlers of the test as it found them: those that were registered during the
-- attempt, by whatever call, do not run again in a later one.
pub run_tests_case-restores :
    (w : World) (c : TestCase) (before after : List ℕ) (a : Attempt)
    → ((run_tests_case w c before after a).1.on_finished ≡ a.on_finished)
      × ((run_tests_case w c before after a).1.on_failed ≡ a.on_failed)
unfolding run_tests_case
run_tests_case-restores w c before after a = run_with_mode-restores w c before after c.run_mode a
