-- ===== src/Runtime/Fixtures.antt =====
-- packages/core/src/runtime/runner/fixtures.ts: the fixtures of a test and their order.
--
-- A fixture's name is a number. `setup` says of a fixture's function whether it registers a cleanup and
-- whether it throws, `managed` what the manager of a fixture with a scope throws. A setup that is
-- cancelled by a timeout is not modelled. `set_up` lists the fixtures whose functions have been called,
-- the newest first.
pub mod Sets
pub mod Order
pub mod Resolution
pub mod Depth
pub mod Teardown
use rstest.Prelude.{
  ℕ, zero, suc, ◌==◌, Bool, true, false, not, ◌&&◌, ◌||◌, if◌then◌else◌, List, [], ◌∷◌, Option,
  none, some, length, keep, any,
}

pub record Fixture : Type 0 where
  pub scoped : Bool
  pub is_fn : Bool
  pub deps : List ℕ
  pub auto : Bool

pub record Setup : Type 0 where
  pub registers : Bool
  pub throws : Option ℕ

-- What `useFixture` throws; `too_deep` stands for a recursion that does not end.
pub data Failure : Type 0 where
  previously_failed circular missing threw : ℕ → Failure
  too_deep : Failure

pub record Resolver : Type 0 where
  pub done : List ℕ
  pub failed : List ℕ
  pub pending : List ℕ
  pub cleanups : List ℕ
  pub set_up : List ℕ

pub record Behaviour : Type 0 where
  pub setup : ℕ → Setup
  pub managed : ℕ → Option ℕ

abbrev pub Fixtures : Type 0
Fixtures = List (ℕ × Fixture)

abbrev pub has : ℕ → List ℕ → Bool
has x xs = any (x ==◌) xs

unfoldable pub find_fixture : ℕ → Fixtures → Option Fixture
find_fixture x [] = none
find_fixture x (e ∷ es) = if x == e.0 then some e.1 else find_fixture x es

abbrev pub thrown : Option ℕ → Option Failure
thrown none = none
thrown (some e) = some (threw e)

-- The ends of `useFixture` for a fixture that was pending: `finally` takes it off.
abbrev pub leave : ℕ → Resolver → Resolver
leave x s = record s { pending = keep (λ y. not (x == y)) s.pending }

unfoldable pub settle : ℕ → Option Failure × Resolver → Option Failure × Resolver
settle x (none, s) = (none, leave x (record s { done = x ∷ s.done }))
settle x (some e, s) = (some e, leave x (record s { failed = x ∷ s.failed }))

-- An error ends a loop, else `rest` is what follows.
abbrev pub or_rest :
    Option Failure × Resolver → Option Failure × Resolver → Option Failure × Resolver
or_rest (none, s) rest = rest
or_rest (some f, s) rest = (some f, s)

-- The loop over the dependencies.
unfoldable pub use_all :
    (ℕ → Resolver → Option Failure × Resolver) → List ℕ → Resolver → Option Failure × Resolver
use_all go [] s = (none, s)
use_all go (d ∷ ds) s = let r = go d s in or_rest r (use_all go ds r.1)

-- The call of the fixture's function, once its dependencies are there.
abbrev pub call_setup : Behaviour → ℕ → Resolver → Option Failure × Resolver
call_setup b x s =
    let registers = (b.setup x).registers in
    (
      thrown (b.setup x).throws,
      record s {
        set_up = x ∷ s.set_up;
        cleanups = if registers then x ∷ s.cleanups else s.cleanups;
      },
    )

unfoldable pub then_setup : Behaviour → ℕ → Option Failure × Resolver → Option Failure × Resolver
then_setup b x (none, s) = call_setup b x s
then_setup b x (some e, s) = (some e, s)

-- A fixture that is neither done nor failed nor pending.
unfoldable pub begin :
    Behaviour
    → (ℕ → Resolver → Option Failure × Resolver)
    → ℕ
    → Option Fixture
    → Resolver
    → Option Failure × Resolver
unfolding use_all settle then_setup
begin b go x none s = (some (missing x), s)
begin b go x (some f) s =
    let s' = record s { pending = x ∷ s.pending } in
    if f.scoped
    then settle x (thrown (b.managed x), s')
    else if f.is_fn
    then settle x (then_setup b x (use_all go f.deps s'))
    else (none, record s { done = x ∷ s.done })

-- `useFixture`, on fuel for the depth of its recursion.
unfoldable pub use_fixture : Behaviour → Fixtures → ℕ → ℕ → Resolver → Option Failure × Resolver
unfolding begin find_fixture
use_fixture b fs zero x s = (some too_deep, s)
use_fixture b fs (suc n) x s =
    let rest = begin b (use_fixture b fs n) x (find_fixture x fs) s in
    if has x s.done
    then (none, s)
    else if has x s.failed
    then (some (previously_failed x), s)
    else if has x s.pending
    then (some (circular x), s)
    else rest

-- The names that `resolveFixtureNames` goes through, in the order of the fixtures.
unfoldable pub wanted : List ℕ → Bool → Fixtures → List ℕ
wanted used include_auto [] = []
wanted used include_auto (e ∷ es) =
    let rest = wanted used include_auto es in
    if has e.0 used || include_auto && e.1.auto then e.0 ∷ rest else rest

abbrev pub depth_limit : Fixtures → ℕ
depth_limit fs = suc (length fs)

unfoldable pub resolve_fixture_names :
    Behaviour → Fixtures → List ℕ → Bool → Resolver → Option Failure × Resolver
unfolding use_all use_fixture wanted
resolve_fixture_names b fs used include_auto s =
    use_all (use_fixture b fs (depth_limit fs)) (wanted used include_auto fs) s

pub data HookResolution : Type 0 where
  resolved skipped : HookResolution
  refused : Failure → HookResolution

abbrev pub hook_resolution : Option Failure → HookResolution
hook_resolution none = resolved
hook_resolution (some (previously_failed x)) = skipped
hook_resolution (some e) = refused e

-- `resolveHookFixtures`, for a hook whose names are all known.
unfoldable pub resolve_hook_fixtures :
    Behaviour → Fixtures → List ℕ → Resolver → HookResolution × Resolver
unfolding resolve_fixture_names
resolve_hook_fixtures b fs used s =
    let (e, s') = resolve_fixture_names b fs used false s in (hook_resolution e, s')

-- `createFixtureResolver`
unfoldable pub new : Resolver
new = record { done = []; failed = []; pending = []; cleanups = []; set_up = [] }

-- The resolutions of one attempt: of the test's own fixtures, with the automatic ones, and of its hooks.
unfoldable pub resolve_calls : Behaviour → Fixtures → List (List ℕ × Bool) → Resolver → Resolver
unfolding resolve_fixture_names
resolve_calls b fs [] s = s
resolve_calls b fs (c ∷ cs) s = resolve_calls b fs cs (resolve_fixture_names b fs c.0 c.1 s).1
