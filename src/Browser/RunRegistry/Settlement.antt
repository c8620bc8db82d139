-- ===== src/Browser/RunRegistry/Settlement.antt =====
-- The promise of a headed run settles once.
use text.Mathlib.Text.{◌==◌ as str_eq}
use rstest.Prelude.{
  ℕ, ◌+◌, ◌==◌, ltb, ◌≡◌, refl, ◌≤◌, ◌<◌, Bool, true, false, not, ◌&&◌, if◌then◌else◌, String, List,
  [], ◌∷◌, Option, none, some, keep, any, count_if, count_if-append, arith, Option-cases, inl, inr,
}
use rstest.Browser.RunRegistry.{
  RunRecord, RunPhase, RunError, Registry, is_open, has_id, on_path, find_run, update, settle,
  sweep_list, sweep_open, mint, admit, arm_cleanup_deadline, disarm_cleanup_deadline,
  cleanup_deadline, boot_deadline, Event, mints, admits, arms, disarms, resolves, boot_fires,
  cleanup_fires, rejects, retains, rejects_all, sets_epoch, step, steps,
}

abbrev settles : ℕ → ℕ × Option RunError → Bool
settles id s = s.0 == id

-- The runs of the table with the id, and the settlements of its promise.
abbrev pub tabled : ℕ → Registry → ℕ
tabled id g = count_if (has_id id) g.runs

abbrev pub settlements : ℕ → Registry → ℕ
settlements id g = count_if (settles id) g.settled

-- An update that keeps the ids keeps the count.
tabled-update :
    (id k : ℕ) (f : RunRecord → RunRecord) (rs : List RunRecord)
    → ((r : RunRecord) → (f r).run_id ≡ r.run_id)
    → count_if (has_id id) (update k f rs) ≡ count_if (has_id id) rs
unfolding update
tabled-update id k f [] h = refl
tabled-update id k f (r ∷ rs) h = ground (arith, h r, tabled-update id k f rs h)

tabled-delete :
    (id k : ℕ) (rs : List RunRecord)
    → count_if (has_id id) (keep (λ x. not (has_id k x)) rs)
      ≡ (if k == id then 0 else count_if (has_id id) rs)
tabled-delete id k [] = ground arith
tabled-delete id k (r ∷ rs) = ground (arith, tabled-delete id k rs)

find_run-tabled :
    (k : ℕ) (rs : List RunRecord) (r : RunRecord)
    → find_run k rs ≡ some r
    → 0 < count_if (has_id k) rs
find_run-tabled k [] r h = cc
find_run-tabled k (x ∷ rs) r h = ground (arith, find_run-tabled k rs r)

sweep-conserves :
    (id : ℕ) (hits : RunRecord → Bool) (error : Option RunError) (rs : List RunRecord)
    (out : List (ℕ × Option RunError))
    → count_if (settles id) (sweep_list hits error rs out)
        + count_if (has_id id) (keep (λ r. not (is_open r && hits r)) rs)
      ≡ count_if (settles id) out + count_if (has_id id) rs
unfolding sweep_list
sweep-conserves id hits error [] out = refl
sweep-conserves id hits error (r ∷ rs) out = ground (
  arith,
  sweep-conserves id hits error rs out,
  sweep-conserves id hits error rs ((r.run_id, error) ∷ out),
)

abbrev pub total : ℕ → Registry → ℕ
total id g = settlements id g + tabled id g

abbrev pub minted : ℕ → Event → ℕ
minted id (mints path k) = if k == id then 1 else 0
minted id _ = 0

settle-total :
    (id k : ℕ) (error : Option RunError) (g : Registry)
    → tabled id g ≤ 1
    → total id (settle k error g) ≡ total id g
unfolding settle
settle-total id k error g h = elim (Option-cases (find_run k g.runs)) [
  | inl missing ↦ rw (missing, settle)
  | inr (r, found) ↦ ground (arith, tabled-delete id k g.runs, find_run-tabled k g.runs r found)
]

mint-total :
    (id k : ℕ) (path : String) (g : Registry)
    → total id (mint path k g) ≡ total id g + (if k == id then 1 else 0)
unfolding mint
mint-total id k path g =
    let kept = keep (λ r. not (is_open r && on_path path r)) g.runs in
    let r : RunRecord = record {
      run_id = k;
      test_path = path;
      epoch = g.transport_epoch;
      phase = RunPhase.open_run;
      boot_timer = true;
      cleanup_timer = false;
    } in
    ground (
      arith,
      count_if-append (has_id id) kept (r ∷ []),
      sweep-conserves id (on_path path) none g.runs g.settled,
    )

sweep_open-total :
    (id : ℕ) (hits : RunRecord → Bool) (error : Option RunError) (g : Registry)
    → total id (sweep_open hits error g) ≡ total id g
unfolding sweep_open
sweep_open-total id hits error g = sweep-conserves id hits error g.runs g.settled

pub admit-total :
    (id k : ℕ) (terminal : Bool) (g : Registry) → total id (admit k terminal g).1 ≡ total id g
unfolding admit
admit-total id k true g = ground (
  arith,
  tabled-update id k (λ r. record r { boot_timer = false; phase = RunPhase.claimed }) g.runs
      (λ r. refl),
  tabled-update id k (λ r. record r { boot_timer = false }) g.runs (λ r. refl),
)
admit-total id k false g =
    ground (arith, tabled-update id k (λ r. record r { boot_timer = false }) g.runs (λ r. refl))

timers-total :
    (id k : ℕ) (g : Registry)
    → (total id (arm_cleanup_deadline k g) ≡ total id g)
      × (total id (disarm_cleanup_deadline k g) ≡ total id g)
      × (total id (cleanup_deadline k g) ≡ total id g)
unfolding arm_cleanup_deadline disarm_cleanup_deadline cleanup_deadline
timers-total id k g = (
  ground (
    arith,
    tabled-update id k (λ r. if is_open r then record r { cleanup_timer = true } else r) g.runs
        (λ r. ground arith),
  ),
  ground (arith, tabled-update id k (λ r. record r { cleanup_timer = false }) g.runs (λ r. refl)),
  ground (
    arith,
    tabled-update id k (λ r. record r { cleanup_timer = false; phase = RunPhase.claimed }) g.runs
        (λ r. refl),
  ),
)

boot_deadline-total :
    (id k : ℕ) (g : Registry) → tabled id g ≤ 1 → total id (boot_deadline k g) ≡ total id g
unfolding boot_deadline
boot_deadline-total id k g h = elim (Option-cases (find_run k g.runs)) [
  | inl missing ↦ rw (missing, boot_deadline)
  | inr (r, found) ↦ ground (arith, tabled-delete id k g.runs, find_run-tabled k g.runs r found)
]

pub step-total :
    (id : ℕ) (e : Event) (g : Registry)
    → tabled id g ≤ 1
    → total id (step e g) ≡ total id g + minted id e
unfolding step
step-total id (mints path k) g h = mint-total id k path g
step-total id (admits k terminal) g h = omega (arith, admit-total id k terminal g)
step-total id (arms k) g h = omega (arith, timers-total id k g)
step-total id (disarms k) g h = omega (arith, timers-total id k g)
step-total id (resolves k) g h = omega (arith, settle-total id k none g h)
step-total id (rejects k error) g h =
    omega (arith, settle-total id k (some (RunError.given error)) g h)
step-total id (boot_fires k) g h = omega (arith, boot_deadline-total id k g h)
step-total id (cleanup_fires k) g h = omega (arith, timers-total id k g)
step-total id (retains paths) g h = ground (
  arith,
  sweep-conserves id (λ r. not (any (λ p. str_eq p r.test_path) paths)) none g.runs g.settled,
)
step-total id (rejects_all error) g h =
    omega (arith, sweep-conserves id (λ r. true) (some (RunError.given error)) g.runs g.settled)
step-total id (sets_epoch n) g h = omega (
  arith,
  sweep-conserves id (λ r. ltb r.epoch n) (some RunError.transport_replaced) g.runs g.settled,
)

abbrev pub mintings : ℕ → List Event → ℕ
mintings id [] = 0
mintings id (e ∷ es) = minted id e + mintings id es

-- If a run's id is minted at most once, the run is minted just as often as its promise has settled or
-- it still stands in the table: no event settles it twice, and none drops it unsettled.
pub run_settled_once :
    (id : ℕ) (es : List Event) (g : Registry)
    → settlements id g + tabled id g + mintings id es ≤ 1
    → settlements id (steps es g) + tabled id (steps es g)
      ≡ settlements id g + tabled id g + mintings id es
unfolding steps
run_settled_once id [] g h = omega arith
run_settled_once id (e ∷ es) g h =
    let now = step-total id e g (omega arith) in
    omega (arith, now, run_settled_once id es (step e g) (omega (arith, now)))
