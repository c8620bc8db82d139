-- ===== src/Runtime/Fixtures/Teardown.antt =====
-- packages/core/src/runtime/runner/fixtures.ts: the order in which fixtures are set up and torn down.
use rstest.Prelude.{ℕ, Bool, ◌&&◌, [], ◌≡◌}
use rstest.Runtime.Fixtures.{Fixtures, Behaviour, Resolver}
use rstest.Runtime.Fixtures.Sets.{own}
use rstest.Runtime.Fixtures.Order.{Kept}

-- A fixture whose function the resolver calls and that registers a cleanup.
abbrev pub torn_down_here : Behaviour → Fixtures → ℕ → Bool
torn_down_here b fs x = own fs x && (b.setup x).registers

Idle : Behaviour → Fixtures → Resolver → Type 0
Idle b fs s = Kept b fs s × (s.pending ≡ [])
