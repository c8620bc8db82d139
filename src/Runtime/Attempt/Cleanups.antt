-- ===== src/Runtime/Attempt/Cleanups.antt =====
-- packages/core/src/runtime/runner/runner.ts: the fixtures that an attempt starts and ends.
use rstest.Prelude.{
  ℕ, ◌+◌, ◌==◌, true, false, if◌then◌else◌, List, [], ◌∷◌, ◌≡◌, count_if, Bool-cases, inl, inr,
  arith,
}
use rstest.Runtime.Tree.{RunMode, run, only, skip, todo, TestCase}
use rstest.Runtime.Attempt.{
  World, Log, Attempt, TestResult, Call, Cleanup, teardown, await_setup, resolves_fixtures,
  fixture_cleanup, unshift_all, answer, called, snapshot_skipped,
}
use rstest.Runtime.Attempt.Steps.{
  attempt, run_tests_case, run_with_mode, run_cleanups, fail_on_error,
}
use rstest.Runtime.Attempt.Keeps.{attempt-leads, is_cleanup, is_final}

-- How often the calls of the log have started the fixture.
unfoldable pub started : World → ℕ → Log → ℕ
started w x [] = 0
started w x ((c, o) ∷ log) =
    (if resolves_fixtures c then count_if (x ==◌) (w log c).fixtures else 0) + started w x log

abbrev ends : ℕ → Call → ℕ
ends x (fixture_cleanup (teardown y)) = if x == y then 1 else 0
ends x _ = 0

-- How often the fixture has been torn down.
unfoldable pub torn_down : ℕ → Log → ℕ
torn_down x [] = 0
torn_down x ((c, o) ∷ log) = ends x c + torn_down x log

abbrev queues : ℕ → Cleanup → ℕ
queues x (teardown y) = if x == y then 1 else 0
queues x (await_setup fn) = 0

unfoldable queued : ℕ → List Cleanup → ℕ
queued x [] = 0
queued x (c ∷ cs) = queues x c + queued x cs

queued-unshift_all :
    (x : ℕ) (fs : List ℕ) (cs : List Cleanup)
    → queued x (unshift_all fs cs) ≡ count_if (x ==◌) fs + queued x cs
unfolding queued unshift_all
queued-unshift_all x [] cs = omega arith
queued-unshift_all x (f ∷ fs) cs = ground (arith, queued-unshift_all x fs (teardown f ∷ cs))

Owed : World → ℕ → List Cleanup → Attempt → Type 0
Owed w x cs a = started w x a.log ≡ torn_down x a.log + queued x cs

ends-none : (x : ℕ) (c : Call) → is_cleanup c ≡ false → ends x c ≡ 0
ends-none x c h = ground arith

called-Owed :
    (w : World) (x : ℕ) (c : Call) (a : Attempt)
    → is_cleanup c ≡ false
    → Owed w x a.fixture_cleanups a
    → Owed w x (called w c a).fixture_cleanups (called w c a)
unfolding Owed called started torn_down
called-Owed w x c a h p =
    let u = queued-unshift_all x (w a.log c).fixtures a.fixture_cleanups in
    let e = ends-none x c h in
    elim (Bool-cases (resolves_fixtures c)) [
      | inl r ↦ rw (r, u) (omega (arith, e, p))
      | inr r ↦ rw r (omega (arith, e, p))
    ]

final-Owed :
    (w : World) (x : ℕ) (c : Call) (a : Attempt)
    → is_final c ≡ true
    → Owed w x [] a
    → Owed w x [] (called w c a)
unfolding Owed called started torn_down queued
final-Owed w x c a h p = ground arith

cleanup-Owed :
    (w : World) (x : ℕ) (fn : Cleanup) (cs : List Cleanup) (a : Attempt)
    → Owed w x (fn ∷ cs) a
    → Owed w x cs (called w (fixture_cleanup fn) a)
unfolding Owed called started torn_down queued
cleanup-Owed w x fn cs a p = ground arith

run_cleanups-Owed :
    (w : World) (x : ℕ) (cs : List Cleanup) (r : TestResult) (a : Attempt)
    → Owed w x cs a
    → Owed w x [] (run_cleanups w cs r a).1
unfolding run_cleanups
run_cleanups-Owed w x [] r a p = p
run_cleanups-Owed w x (c ∷ cs) r a p =
    run_cleanups-Owed w x cs (fail_on_error (answer w (fixture_cleanup c) a) r)
      (called w (fixture_cleanup c) a) (cleanup-Owed w x c cs a p)

pended-Owed :
    (w : World) (x fn : ℕ) (a : Attempt)
    → Owed w x a.fixture_cleanups a
    → Owed w x
        (await_setup fn ∷ a.fixture_cleanups)
        (record a { fixture_cleanups = await_setup fn ∷ a.fixture_cleanups })
unfolding Owed queued
pended-Owed w x fn a p = omega (arith, p)

noted-Owed : (w : World) (x : ℕ) (a : Attempt) → Owed w x [] a → Owed w x [] (snapshot_skipped a)
unfolding Owed started torn_down snapshot_skipped
noted-Owed w x a p = omega (arith, p)

start-Owed :
    (w : World) (x : ℕ) (a : Attempt)
    → Owed w x [] a
    → Owed w x [] (record a { fixture_cleanups = [] })
unfolding Owed
start-Owed w x a p = p

attempt-Owed :
    (w : World) (x : ℕ) (c : TestCase) (before after : List ℕ) (a : Attempt)
    → Owed w x [] a
    → Owed w x [] (attempt w c before after (record a { fixture_cleanups = [] })).1
attempt-Owed w x c before after a p =
    attempt-leads (λ b. Owed w x b.fixture_cleanups b) (Owed w x []) w (called-Owed w x)
      (pended-Owed w x) (λ r b. run_cleanups-Owed w x b.fixture_cleanups r b) (final-Owed w x)
      (noted-Owed w x) c before after (record a { fixture_cleanups = [] }) (start-Owed w x a p)

run_with_mode-Owed :
    (w : World) (x : ℕ) (c : TestCase) (before after : List ℕ) (m : RunMode) (a : Attempt)
    → Owed w x [] a
    → Owed w x [] (run_with_mode w c before after m a).1
unfolding run_with_mode Owed
run_with_mode-Owed w x c before after run a p = attempt-Owed w x c before after a p
run_with_mode-Owed w x c before after only a p = attempt-Owed w x c before after a p
run_with_mode-Owed w x c before after skip a p = noted-Owed w x a p
run_with_mode-Owed w x c before after todo a p = p

Owed-none :
    (w : World) (x : ℕ) (a : Attempt) → started w x a.log ≡ torn_down x a.log → Owed w x [] a
unfolding Owed queued
Owed-none w x a p = omega (arith, p)

none-Owed :
    (w : World) (x : ℕ) (a : Attempt) → Owed w x [] a → started w x a.log ≡ torn_down x a.log
unfolding Owed queued
none-Owed w x a p = omega (arith, p)

-- An attempt tears down each fixture as often as it starts it.
pub run_tests_case-balanced :
    (w : World) (x : ℕ) (c : TestCase) (before after : List ℕ) (a : Attempt)
    → started w x a.log ≡ torn_down x a.log
    → started w x (run_tests_case w c before after a).1.log
      ≡ torn_down x (run_tests_case w c before after a).1.log
unfolding run_tests_case
run_tests_case-balanced w x c before after a p =
    none-Owed w x (run_tests_case w c before after a).1
      (run_with_mode-Owed w x c before after c.run_mode a (Owed-none w x a p))
