-- ===== src/Runtime/Tree.antt =====
-- packages/core/src/runtime/runner/task.ts: the tests of a file, their modes and their statuses.
--
-- A function that the user registers is a number. A test keeps the fields that the runner reads.
use rstest.Prelude.{
  ℕ, Bool, true, false, ◌&&◌, if◌then◌else◌, String, List, [], ◌∷◌, Option, none, some, any,
}

pub data RunMode : Type 0 where
  run only skip todo : RunMode

pub data Status : Type 0 where
  pass_status fail_status skip_status todo_status : Status

-- A number of JavaScript: its whole part, and what stands behind the point.
pub data Number : Type 0 where
  nan positive_infinity negative_infinity : Number
  positive negative : ℕ → ℕ → Number

-- `test.fn` is there or not.
pub record TestCase : Type 0 where
  pub test_id : ℕ
  pub name : String
  pub parent_names : List String
  pub run_mode : RunMode
  pub retry : Option Number
  pub repeats : Option Number
  pub fails : Bool
  pub concurrent : Bool
  pub has_fn : Bool

pub record TestSuite : Type 0 where
  pub test_id : ℕ
  pub name : String
  pub parent_names : List String
  pub run_mode : RunMode
  pub has_runnable_tests : Bool
  pub concurrent : Bool
  pub before_each : List ℕ
  pub after_each : List ℕ
  pub before_all : List ℕ
  pub after_all : List ℕ

mutual
  pub data Test : Type 0 where
    case : TestCase → Test
    suite : TestSuite → Tests → Test

  pub data Tests : Type 0 where
    end : Tests
    test : Test → Tests → Tests

abbrev pub is_run : RunMode → Bool
is_run run = true
is_run _ = false

abbrev pub is_only : RunMode → Bool
is_only only = true
is_only _ = false

abbrev pub is_todo : RunMode → Bool
is_todo todo = true
is_todo _ = false

-- `['skip', 'todo'].includes(mode)`
abbrev pub is_blocked : RunMode → Bool
is_blocked skip = true
is_blocked todo = true
is_blocked _ = false

-- `mode === 'run' || mode === 'only'`
abbrev pub is_active : RunMode → Bool
is_active run = true
is_active only = true
is_active _ = false

abbrev pub mode_of : Test → RunMode
mode_of (case c) = c.run_mode
mode_of (suite s ts) = s.run_mode

abbrev pub is_empty : Tests → Bool
is_empty end = true
is_empty (test t ts) = false

abbrev pub has_failed : Status → Bool
has_failed fail_status = true
has_failed _ = false

abbrev pub is_todo_status : Status → Bool
is_todo_status todo_status = true
is_todo_status _ = false

abbrev pub is_skip_status : Status → Bool
is_skip_status skip_status = true
is_skip_status _ = false

-- `results.every`
unfoldable pub every : (Status → Bool) → List Status → Bool
every p [] = true
every p (s ∷ ss) = p s && every p ss

-- `getTestStatus`, on the statuses of the results.
unfoldable pub get_test_status : List Status → Status → Status
unfolding every
get_test_status [] default = default
get_test_status (s ∷ ss) default =
    if any has_failed (s ∷ ss)
    then fail_status
    else if every is_todo_status (s ∷ ss)
    then todo_status
    else if every is_skip_status (s ∷ ss)
    then skip_status
    else pass_status

abbrev pub sanitize_number : Number → ℕ
sanitize_number nan = 0
sanitize_number positive_infinity = 0
sanitize_number negative_infinity = 0
sanitize_number (negative whole part) = 0
sanitize_number (positive whole part) = whole

-- `sanitizeAttemptCount`
unfoldable pub sanitize_attempt_count : Option Number → ℕ
sanitize_attempt_count none = 0
sanitize_attempt_count (some n) = sanitize_number n
