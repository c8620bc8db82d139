-- ===== src/Runtime/Modes/Selection.antt =====
-- packages/core/src/runtime/runner/task.ts: the tests that the modes select.
use rstest.Prelude.{
  ℕ, Bool, true, false, not, ◌&&◌, ◌||◌, if◌then◌else◌, List, [], ◌∷◌, ◌++◌, ◌≡◌, refl, sym, ◌∙◌,
  Bool-cases, inl, inr, arith,
}
use rstest.Runtime.Tree.{
  RunMode, run, TestCase, TestSuite, Test, case, suite, Tests, end, test, is_only, is_blocked,
  is_active,
}
use rstest.Runtime.Modes.{
  collect_only_tests, collect_only_test, should_test_skip, suite_mode, sub_only, has_runnable,
  is_runnable, update_case, update_test, update_tests, update_test_modes,
}

-- The cases that the runner runs, in their order: it goes by a case's own mode.
unfoldable mutual
  pub runnable_ids : Tests → List ℕ
  runnable_ids end = []
  runnable_ids (test t ts) = runnable_ids_of t ++ runnable_ids ts

  pub runnable_ids_of : Test → List ℕ
  runnable_ids_of (case c) = if is_active c.run_mode then c.test_id ∷ [] else []
  runnable_ids_of (suite s ts) = runnable_ids ts

-- The documented rule, read from the outside in. `focused` says that the tests here are in focus: none
-- is `only` in the file, or the innermost scope with `only` is a suite around them.
unfoldable mutual
  unfolding collect_only_tests

  pub selected : (TestCase → Bool) → Bool → Tests → List ℕ
  selected skips focused end = []
  selected skips focused (test t ts) = selected_of skips focused t ++ selected skips focused ts

  pub selected_of : (TestCase → Bool) → Bool → Test → List ℕ
  selected_of skips focused (case c) =
      if not (skips c) && (if focused then is_active c.run_mode else is_only c.run_mode)
      then c.test_id ∷ []
      else []
  selected_of skips focused (suite s ts) =
      let below =
        selected skips ((focused || is_only s.run_mode) && not (collect_only_tests ts)) ts in
      if is_blocked s.run_mode then [] else below

pub is_some_id : List ℕ → Bool
is_some_id [] = false
is_some_id (x ∷ xs) = true

-- A suite with tests has the flag just when some case below it runs; so have the suites below it.
unfoldable mutual
  unfolding runnable_ids is_some_id

  pub Marked : Tests → Type 0
  Marked end = Unit
  Marked (test t ts) = MarkedOne t × Marked ts

  pub MarkedOne : Test → Type 0
  MarkedOne (case c) = Unit
  MarkedOne (suite s ts) = (s.has_runnable_tests ≡ is_some_id (runnable_ids ts)) × Marked ts

is_some_id-append : (xs ys : List ℕ) → is_some_id (xs ++ ys) ≡ (is_some_id xs || is_some_id ys)
unfolding is_some_id
is_some_id-append [] ys = refl
is_some_id-append (x ∷ xs) ys = refl

suite-ids :
    (skips : TestCase → Bool) (parent : RunMode) (o : Bool) (s : TestSuite) (ts : Tests)
    → runnable_ids_of (update_test skips parent o (suite s ts))
      ≡ runnable_ids (
          update_tests skips
            (suite_mode s.run_mode parent o (collect_only_tests ts))
            (sub_only
              (suite_mode s.run_mode parent o (collect_only_tests ts))
              o
              (collect_only_tests ts))
            ts)
unfolding runnable_ids update_test collect_only_tests
suite-ids skips parent o s end = refl
suite-ids skips parent o s (test t ts) = refl

blocked-case :
    (skips : TestCase → Bool) (parent : RunMode) (o : Bool) (c : TestCase)
    → is_blocked parent ≡ true
    → runnable_ids_of (case (update_case skips parent o c)) ≡ []
unfolding runnable_ids update_case should_test_skip
blocked-case skips parent o c h = ground arith

suite_mode-IsBlocked :
    (m parent : RunMode) (o h : Bool)
    → is_blocked parent ≡ true
    → is_blocked (suite_mode m parent o h) ≡ true
suite_mode-IsBlocked m parent o h e = ground arith

mutual
  unfolding runnable_ids update_test

  blocked-none :
      (skips : TestCase → Bool) (parent : RunMode) (o : Bool) (ts : Tests)
      → is_blocked parent ≡ true
      → runnable_ids (update_tests skips parent o ts) ≡ []
  blocked-none skips parent o end h = refl
  blocked-none skips parent o (test t ts) h =
      rw (blocked-none_of skips parent o t h) (blocked-none skips parent o ts h)

  blocked-none_of :
      (skips : TestCase → Bool) (parent : RunMode) (o : Bool) (t : Test)
      → is_blocked parent ≡ true
      → runnable_ids_of (update_test skips parent o t) ≡ []
  blocked-none_of skips parent o (case c) h = blocked-case skips parent o c h
  blocked-none_of skips parent o (suite s ts) h =
      suite-ids skips parent o s ts
      ∙ blocked-none skips (suite_mode s.run_mode parent o (collect_only_tests ts))
          (sub_only (suite_mode s.run_mode parent o (collect_only_tests ts)) o
            (collect_only_tests ts))
          ts (suite_mode-IsBlocked s.run_mode parent o (collect_only_tests ts) h)

or-left : (a b : Bool) → (a || b) ≡ false → a ≡ false
or-left a b h = ground arith

or-right : (a b : Bool) → (a || b) ≡ false → b ≡ false
or-right a b h = ground arith

unfocused-case :
    (skips : TestCase → Bool) (c : TestCase)
    → is_only c.run_mode ≡ false
    → selected_of skips false (case c) ≡ []
unfolding selected
unfocused-case skips c h = ground arith

unfocused-suite :
    (skips : TestCase → Bool) (s : TestSuite) (ts : Tests)
    → is_only s.run_mode ≡ false
    → selected skips false ts ≡ []
    → selected_of skips false (suite s ts) ≡ []
unfolding selected
unfocused-suite skips s ts h e = ground arith

mutual
  unfolding selected

  unfocused-none :
      (skips : TestCase → Bool) (ts : Tests)
      → collect_only_tests ts ≡ false
      → selected skips false ts ≡ []
  unfocused-none skips end h = refl
  unfocused-none skips (test t ts) h =
      rw (unfocused-none_of skips t (or-left (collect_only_test t) (collect_only_tests ts) h))
        (unfocused-none skips ts (or-right (collect_only_test t) (collect_only_tests ts) h))

  unfocused-none_of :
      (skips : TestCase → Bool) (t : Test)
      → collect_only_test t ≡ false
      → selected_of skips false t ≡ []
  unfocused-none_of skips (case c) h = unfocused-case skips c h
  unfocused-none_of skips (suite s ts) h =
      unfocused-suite skips s ts (or-left (is_only s.run_mode) (collect_only_tests ts) h)
        (unfocused-none skips ts (or-right (is_only s.run_mode) (collect_only_tests ts) h))

case-ids :
    (skips : TestCase → Bool) (parent : RunMode) (o : Bool) (c : TestCase)
    → is_blocked parent ≡ false
    → runnable_ids_of (case (update_case skips parent o c)) ≡ selected_of skips (not o) (case c)
unfolding runnable_ids selected update_case should_test_skip
case-ids skips parent o c h = ground arith

-- The suite is blocked: by itself, or since it is out of focus.
suite-blocked :
    (skips : TestCase → Bool) (parent : RunMode) (o : Bool) (s : TestSuite) (ts : Tests)
    → is_blocked parent ≡ false
    → (collect_only_tests ts ≡ false → selected skips false ts ≡ [])
    → is_blocked (suite_mode s.run_mode parent o (collect_only_tests ts)) ≡ true
    → selected_of skips (not o) (suite s ts) ≡ []
unfolding selected
suite-blocked skips parent o s ts h u b = ground arith

suite-open :
    (skips : TestCase → Bool) (parent : RunMode) (o : Bool) (s : TestSuite) (ts : Tests)
    → is_blocked parent ≡ false
    → is_blocked (suite_mode s.run_mode parent o (collect_only_tests ts)) ≡ false
    → selected skips
        (not (
          sub_only
            (suite_mode s.run_mode parent o (collect_only_tests ts))
            o
            (collect_only_tests ts)))
        ts
      ≡ selected_of skips (not o) (suite s ts)
unfolding selected
suite-open skips parent o s ts h b = ground arith

mutual
  unfolding runnable_ids selected update_test

  update_tests-ids :
      (skips : TestCase → Bool) (parent : RunMode) (o : Bool) (ts : Tests)
      → is_blocked parent ≡ false
      → runnable_ids (update_tests skips parent o ts) ≡ selected skips (not o) ts
  update_tests-ids skips parent o end h = refl
  update_tests-ids skips parent o (test t ts) h =
      rw (update_test-ids skips parent o t h, update_tests-ids skips parent o ts h) refl

  update_test-ids :
      (skips : TestCase → Bool) (parent : RunMode) (o : Bool) (t : Test)
      → is_blocked parent ≡ false
      → runnable_ids_of (update_test skips parent o t) ≡ selected_of skips (not o) t
  update_test-ids skips parent o (case c) h = case-ids skips parent o c h
  update_test-ids skips parent o (suite s ts) h =
      let mode = suite_mode s.run_mode parent o (collect_only_tests ts) in
      let sub = sub_only mode o (collect_only_tests ts) in
      suite-ids skips parent o s ts ∙ elim (Bool-cases (is_blocked mode)) [
        | inl b ↦
            blocked-none skips mode sub ts b
            ∙ sym (suite-blocked skips parent o s ts h (unfocused-none skips ts) b)
        | inr b ↦ update_tests-ids skips mode sub ts b ∙ suite-open skips parent o s ts h b
      ]

-- Once the modes are updated, the cases that run are those that the rule selects, in their order: a
-- case that is not `skip` or `todo` and whose name passes, below no suite with these modes, and in
-- focus: if a test is `only`, the case itself or the innermost scope with `only` around it.
pub update_test_modes-selects :
    (skips : TestCase → Bool) (ts : Tests)
    → runnable_ids (update_test_modes skips ts) ≡ selected skips (not (collect_only_tests ts)) ts
unfolding update_test_modes
update_test_modes-selects skips ts = update_tests-ids skips run (collect_only_tests ts) ts refl

is_some_id-case : (c : TestCase) → is_active c.run_mode ≡ is_some_id (runnable_ids_of (case c))
unfolding runnable_ids is_some_id
is_some_id-case c = ground arith

mutual
  unfolding runnable_ids Marked has_runnable

  has_runnable-ids : (ts : Tests) → Marked ts → has_runnable ts ≡ is_some_id (runnable_ids ts)
  has_runnable-ids end m = refl
  has_runnable-ids (test t ts) (one, rest) =
      rw
        (
          is_runnable-ids t one,
          has_runnable-ids ts rest,
          is_some_id-append (runnable_ids_of t) (runnable_ids ts),
        )
        refl

  is_runnable-ids : (t : Test) → MarkedOne t → is_runnable t ≡ is_some_id (runnable_ids_of t)
  is_runnable-ids (case c) m = is_some_id-case c
  is_runnable-ids (suite s ts) (flag, m) = flag

mutual
  unfolding Marked runnable_ids update_test

  update_tests-Marked :
      (skips : TestCase → Bool) (parent : RunMode) (o : Bool) (ts : Tests)
      → Marked (update_tests skips parent o ts)
  update_tests-Marked skips parent o end = tt
  update_tests-Marked skips parent o (test t ts) =
      (update_test-Marked skips parent o t, update_tests-Marked skips parent o ts)

  update_test-Marked :
      (skips : TestCase → Bool) (parent : RunMode) (o : Bool) (t : Test)
      → MarkedOne (update_test skips parent o t)
  update_test-Marked skips parent o (case c) = tt
  update_test-Marked skips parent o (suite s end) = (refl, tt)
  update_test-Marked skips parent o (suite s (test t ts)) =
      let have = collect_only_tests (test t ts) in
      let mode = suite_mode s.run_mode parent o have in
      let m = update_tests-Marked skips mode (sub_only mode o have) (test t ts) in
      (has_runnable-ids (update_tests skips mode (sub_only mode o have) (test t ts)) m, m)

-- Once the modes are updated, each suite's flag `hasRunnableTests`, by which its `beforeAll` and
-- `afterAll` run, says whether some case below it runs, however deep.
pub update_test_modes-Marked :
    (skips : TestCase → Bool) (ts : Tests) → Marked (update_test_modes skips ts)
unfolding update_test_modes
update_test_modes-Marked skips ts = update_tests-Marked skips run (collect_only_tests ts) ts
