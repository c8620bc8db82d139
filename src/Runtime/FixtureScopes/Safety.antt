-- ===== src/Runtime/FixtureScopes/Safety.antt =====
-- packages/core/src/runtime/runner/fixtures.ts: a fixture outlives what depends on it.
use text.Mathlib.Text.{◌==◌ as str_eq}
use text.Mathlib.TextEquality.{eq_iff}
use rstest.Prelude.{
  Bool, true, false, ◌&&◌, String, List, [], ◌∷◌, Option, none, some, ◌≡◌, refl, sym, ap, subst,
  ◌⊎◌, inl, inr, keep, Bool-cases, arith,
}
use rstest.Runtime.FixtureScopes.{
  Scope, Fixture, FixtureError, Table, find_fixture, set_fixture, allows, check_deps, checked,
  is_own, plain, add_fixture, check_parent, normalize_named_fixture,
}

abbrev dep_scope : Option Fixture → Option Scope
dep_scope none = none
dep_scope (some g) = g.scope

unfoldable pub safe_deps : Table → Scope → List String → Bool
safe_deps fs s [] = true
safe_deps fs s (d ∷ ds) = allows s (dep_scope (find_fixture d fs)) && safe_deps fs s ds

abbrev scope_is_safe : Table → List String → Option Scope → Bool
scope_is_safe fs ds none = true
scope_is_safe fs ds (some s) = safe_deps fs s ds

-- The fixtures with a scope need only fixtures of a scope that lasts at least as long.
unfoldable pub all_safe : Table → Table → Bool
unfolding safe_deps
all_safe fs [] = true
all_safe fs (e ∷ es) = scope_is_safe fs e.1.deps e.1.scope && all_safe fs es

-- Fixtures with a scope keep it.
Keeps : Table → Table → Type 0
Keeps fs fs' =
    (d : String) (s : Scope)
    → allows s (dep_scope (find_fixture d fs)) ≡ true
    → allows s (dep_scope (find_fixture d fs')) ≡ true

safe_deps-kept :
    (fs fs' : Table) (s : Scope) (ds : List String)
    → Keeps fs fs'
    → safe_deps fs s ds ≡ true
    → safe_deps fs' s ds ≡ true
unfolding safe_deps Keeps
safe_deps-kept fs fs' s [] k h = refl
safe_deps-kept fs fs' s (d ∷ ds) k h =
    let here = k d s in let rest = safe_deps-kept fs fs' s ds k in ground (arith, h, here, rest)

scope-kept :
    (fs fs' : Table) (ds : List String) (scope : Option Scope)
    → Keeps fs fs'
    → scope_is_safe fs ds scope ≡ true
    → scope_is_safe fs' ds scope ≡ true
scope-kept fs fs' ds none k h = refl
scope-kept fs fs' ds (some s) k h = safe_deps-kept fs fs' s ds k h

all_safe-kept : (fs fs' es : Table) → Keeps fs fs' → all_safe fs es ≡ true → all_safe fs' es ≡ true
unfolding all_safe
all_safe-kept fs fs' [] k h = refl
all_safe-kept fs fs' (e ∷ es) k h =
    let here = scope-kept fs fs' e.1.deps e.1.scope k in
    let rest = all_safe-kept fs fs' es k in ground (arith, h, here, rest)

all_safe-set :
    (fs es : Table) (x : String) (f : Fixture)
    → scope_is_safe fs f.deps f.scope ≡ true
    → all_safe fs es ≡ true
    → all_safe fs (set_fixture x f es) ≡ true
unfolding all_safe set_fixture
all_safe-set fs [] x f h k = rw h refl
all_safe-set fs (e ∷ es) x f h k =
    let rest = all_safe-set fs es x f h in
    elim (Bool-cases (str_eq x e.0)) [
      | inl q ↦ rw q (ground (arith, h, k))
      | inr q ↦ rw q (ground (arith, k, rest))
    ]

find-set_other :
    (x d : String) (f : Fixture) (fs : Table)
    → str_eq d x ≡ false
    → find_fixture d (set_fixture x f fs) ≡ find_fixture d fs
unfolding find_fixture set_fixture
find-set_other x d f [] n = rw n refl
find-set_other x d f (e ∷ es) n =
    let rest = find-set_other x d f es n in
    elim (Bool-cases (str_eq x e.0)) [
      | inl q ↦ let xe = (eq_iff x e.0).0 q in rw (q, n, subst (λ v. str_eq d v ≡ false) xe n) refl
      | inr q ↦ rw (q, rest) refl
    ]

none-refused : (s : Scope) (o : Option Scope) → o ≡ none → allows s o ≡ true → ⊥
none-refused s o e h = ground (arith, e, h)

-- The table has no fixture of this name with a scope.
set-Keeps :
    (fs : Table) (x : String) (f : Fixture)
    → dep_scope (find_fixture x fs) ≡ none
    → Keeps fs (set_fixture x f fs)
unfolding Keeps
set-Keeps fs x f n d s h = elim (Bool-cases (str_eq d x)) [
  | inl q ↦
      let dx = (eq_iff d x).0 q in
      let e = subst (λ v. dep_scope (find_fixture v fs) ≡ none) (sym dx) n in
      absurd (none-refused s (dep_scope (find_fixture d fs)) e h)
  | inr q ↦ rw (find-set_other x d f fs q) h
]

checked-safe :
    (s : Scope) (name : String) (fs : Table) (ps : List String)
    → check_deps s name fs ps ≡ none
    → safe_deps fs s ps ≡ true
unfolding check_deps safe_deps
checked-safe s name fs [] h = refl
checked-safe s name fs (p ∷ ps) h = let rest = checked-safe s name fs ps in ground (arith, h, rest)

parent_passed :
    (o : Option Fixture) (scope : Option Scope) (rest : FixtureError ⊎ Table) (fs : Table)
    → check_parent o scope rest ≡ inr fs
    → (dep_scope o ≡ none) × (rest ≡ inr fs)
unfolding check_parent
parent_passed none scope rest fs h = (refl, h)
parent_passed (some g) scope rest fs h = ground (arith, h)

set-safe :
    (fs : Table) (name : String) (f : Fixture)
    → dep_scope (find_fixture name fs) ≡ none
    → scope_is_safe fs f.deps f.scope ≡ true
    → all_safe fs fs ≡ true
    → all_safe (set_fixture name f fs) (set_fixture name f fs) ≡ true
set-safe fs name f n h k =
    let fs' = set_fixture name f fs in
    let keeps = set-Keeps fs name f n in
    all_safe-set fs' fs name f (scope-kept fs fs' f.deps f.scope keeps h)
      (all_safe-kept fs fs' fs keeps k)

table_of : Table → FixtureError ⊎ Table → Table
table_of d (inl e) = d
table_of d (inr t) = t

inr_injective : {t t' : Table} → ◌≡◌ {A = FixtureError ⊎ Table} (inr t) (inr t') → t ≡ t'
unfolding table_of
inr_injective {t} h = ap (table_of t) h

refused : {e : FixtureError} {t : Table} → ◌≡◌ {A = FixtureError ⊎ Table} (inl e) (inr t) → ⊥
refused h = ground (arith, h)

plain-safe : (fs : Table) (scope : Option Scope) → scope_is_safe fs [] scope ≡ true
unfolding safe_deps
plain-safe fs none = refl
plain-safe fs (some s) = refl

checked_passed :
    (o : Option FixtureError) (t fs : Table) → checked o t ≡ inr fs → (o ≡ none) × (t ≡ fs)
checked_passed none t fs h = (refl, inr_injective h)
checked_passed (some e) t fs h = absurd (ground (arith, h))

add_fixture-safe :
    (name : String) (is_fn : Bool) (used : List String) (fs : Table) (scope : Option Scope)
    (fs' : Table)
    → dep_scope (find_fixture name fs) ≡ none
    → add_fixture name is_fn used fs scope ≡ inr fs'
    → all_safe fs fs ≡ true
    → all_safe fs' fs' ≡ true
unfolding add_fixture safe_deps
add_fixture-safe name false used fs scope fs' n h k =
    subst (λ t. all_safe t t ≡ true) (inr_injective h)
      (set-safe fs name (plain false scope) n (plain-safe fs scope) k)
add_fixture-safe name true used fs none fs' n h k =
    subst (λ t. all_safe t t ≡ true) (inr_injective h)
      (set-safe fs name
        (record (plain true none) {
          deps = keep (is_own (set_fixture name (plain true none) fs)) used;
        })
        n refl k)
add_fixture-safe name true used fs (some s) fs' n h k =
    let f : Fixture = record (plain true (some s)) { deps = used } in
    let c = checked_passed (check_deps s name fs used) (set_fixture name f fs) fs' h in
    subst (λ t. all_safe t t ≡ true) c.1 (set-safe fs name f n (checked-safe s name fs used c.0) k)

-- If each fixture with a scope needs only fixtures of a scope that lasts at least as long, then so it is
-- after `normalizeNamedFixture` has added or replaced a fixture without an error, of any scope.
pub normalize_named_fixture-safe :
    (valid : String → Bool) (name : String) (is_fn : Bool) (used : List String) (fs : Table)
    (scope : Option Scope) (fs' : Table)
    → all_safe fs fs ≡ true
    → normalize_named_fixture valid name is_fn used fs scope ≡ inr fs'
    → all_safe fs' fs' ≡ true
unfolding normalize_named_fixture
normalize_named_fixture-safe valid name is_fn used fs scope fs' k h =
    elim (Bool-cases (valid name)) [
      | inl v ↦
          let p =
            parent_passed (find_fixture name fs) scope (add_fixture name is_fn used fs scope) fs'
              (rw v at h) in
          add_fixture-safe name is_fn used fs scope fs' p.0 p.1 k
      | inr v ↦ absurd (refused (rw v at h))
    ]
