-- ===== src/Runtime/FixtureScopes.antt =====
-- packages/core/src/runtime/runner/fixtures.ts: named fixtures and their scopes (`normalizeNamedFixture`).
--
-- `valid` stands for the pattern of names and the reserved names, `used` for the properties that the
-- source of the fixture's function takes from its context.
pub mod Safety
use text.Mathlib.Text.{◌==◌ as str_eq}
use rstest.Prelude.{
  Bool, true, false, not, if◌then◌else◌, String, List, [], ◌∷◌, Option, none, some, ◌⊎◌, inl, inr,
  keep,
}

-- The scopes other than 'test'.
pub data Scope : Type 0 where
  worker file : Scope

pub record Fixture : Type 0 where
  pub is_fn : Bool
  pub scope : Option Scope
  pub deps : List String

pub data FixtureError : Type 0 where
  invalid_name overrides_scoped overrides_existing circular : FixtureError
  unknown_context forbidden_scope : String → FixtureError

abbrev pub Table : Type 0
Table = List (String × Fixture)

unfoldable pub find_fixture : String → Table → Option Fixture
find_fixture x [] = none
find_fixture x (e ∷ es) = if str_eq x e.0 then some e.1 else find_fixture x es

-- `{ ...extendFixtures, [name]: fixture }`
unfoldable pub set_fixture : String → Fixture → Table → Table
set_fixture x f [] = (x, f) ∷ []
set_fixture x f (e ∷ es) =
    let rest = set_fixture x f es in if str_eq x e.0 then (x, f) ∷ es else e ∷ rest

-- A worker fixture may need worker fixtures, a file fixture these and file fixtures.
abbrev pub allows : Scope → Option Scope → Bool
allows worker (some worker) = true
allows file (some worker) = true
allows file (some file) = true
allows _ _ = false

abbrev pub check_dep : Scope → String → Option Fixture → Option FixtureError → Option FixtureError
check_dep s p none rest = some (unknown_context p)
check_dep s p (some g) rest = if allows s g.scope then rest else some (forbidden_scope p)

-- The loop over the properties that a fixture with a scope uses.
unfoldable pub check_deps : Scope → String → Table → List String → Option FixtureError
unfolding find_fixture
check_deps s name fs [] = none
check_deps s name fs (p ∷ ps) =
    let rest = check_deps s name fs ps in
    if str_eq p name then some circular else check_dep s p (find_fixture p fs) rest

abbrev pub checked : Option FixtureError → Table → FixtureError ⊎ Table
checked none fs = inr fs
checked (some e) fs = inl e

abbrev pub is_own : Table → String → Bool
is_own fs p = elim (find_fixture p fs) [ none ↦ false | some g ↦ true ]

abbrev pub plain : Bool → Option Scope → Fixture
plain is_fn scope = record { is_fn = is_fn; scope = scope; deps = [] }

-- The part that follows the tests on the parent.
unfoldable pub add_fixture :
    String → Bool → List String → Table → Option Scope → FixtureError ⊎ Table
unfolding check_deps set_fixture find_fixture
add_fixture name false used fs scope = inr (set_fixture name (plain false scope) fs)
add_fixture name true used fs (some s) =
    checked (check_deps s name fs used)
      (set_fixture name (record (plain true (some s)) { deps = used }) fs)
add_fixture name true used fs none =
    let result = set_fixture name (plain true none) fs in
    inr (set_fixture name (record (plain true none) { deps = keep (is_own result) used }) fs)

-- The tests on the parent: one with a scope cannot be overridden, nor can one without by one with a scope.
unfoldable pub check_parent :
    Option Fixture → Option Scope → FixtureError ⊎ Table → FixtureError ⊎ Table
check_parent none scope rest = rest
check_parent (some parent) scope rest = elim parent.scope [
  | some s ↦ inl overrides_scoped
  | none ↦ elim scope [ some s ↦ inl overrides_existing | none ↦ rest ]
]

unfoldable pub normalize_named_fixture :
    (String → Bool) → String → Bool → List String → Table → Option Scope → FixtureError ⊎ Table
unfolding check_parent add_fixture find_fixture
normalize_named_fixture valid name is_fn used fs scope =
    if valid name
    then check_parent (find_fixture name fs) scope (add_fixture name is_fn used fs scope)
    else inl invalid_name
