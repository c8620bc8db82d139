-- ===== src/Browser/RunRegistry/Ownership.antt =====
-- Who may settle a headed run once its terminal message has been admitted.
use text.Mathlib.Text.{◌==◌ as str_eq}
use rstest.Prelude.{
  ℕ, ◌+◌, ◌==◌, ltb, ◌≡◌, refl, ◌≤◌, ◌<◌, Bool, true, false, not, ◌&&◌, if◌then◌else◌, String, List,
  [], ◌∷◌, Option, none, some, keep, any, count_if, count_if-append, arith, Option-cases, inl, inr,
  subst, Bool-cases, ==_iff,
}
use rstest.Browser.RunRegistry.Settlement.{
  settlements, tabled, mintings, step-total, admit-total, run_settled_once,
}
use rstest.Browser.RunRegistry.{
  RunRecord, RunPhase, RunError, Registry, is_open, has_id, on_path, find_run, update, settle, mint,
  admit, arm_cleanup_deadline, disarm_cleanup_deadline, cleanup_deadline, boot_deadline, Event,
  mints, admits, arms, disarms, resolves, boot_fires, cleanup_fires, rejects, retains, rejects_all,
  sets_epoch, step, steps,
}

-- Claimed by a terminal message: no deadline of the registry is left to settle it.
abbrev pub is_owned : ℕ → RunRecord → Bool
is_owned id r = has_id id r && not (is_open r) && not r.boot_timer

abbrev pub owned : ℕ → Registry → ℕ
owned id g = count_if (is_owned id) g.runs

-- The events by which the handler of a run ends it.
abbrev pub ends : ℕ → Event → Bool
ends id (resolves k) = k == id
ends id (rejects k error) = k == id
ends id _ = false

owned-sweep :
    (id : ℕ) (hits : RunRecord → Bool) (rs : List RunRecord)
    → count_if (is_owned id) (keep (λ r. not (is_open r && hits r)) rs) ≡ count_if (is_owned id) rs
owned-sweep id hits [] = refl
owned-sweep id hits (r ∷ rs) = ground (arith, owned-sweep id hits rs)

owned-delete :
    (id k : ℕ) (rs : List RunRecord)
    → (k == id) ≡ false
    → count_if (is_owned id) (keep (λ x. not (has_id k x)) rs) ≡ count_if (is_owned id) rs
owned-delete id k [] h = refl
owned-delete id k (r ∷ rs) h = ground (arith, owned-delete id k rs h)

-- An update that leaves what is owned owned.
owned-update :
    (id k : ℕ) (f : RunRecord → RunRecord) (rs : List RunRecord)
    → ((r : RunRecord) → is_owned id r ≡ true → is_owned id (f r) ≡ true)
    → count_if (is_owned id) rs ≤ count_if (is_owned id) (update k f rs)
unfolding update
owned-update id k f [] h = omega arith
owned-update id k f (r ∷ rs) h = ground (arith, h r, owned-update id k f rs h)

owned-le : (id : ℕ) (rs : List RunRecord) → count_if (is_owned id) rs ≤ count_if (has_id id) rs
owned-le id [] = omega arith
owned-le id (r ∷ rs) = ground (arith, owned-le id rs)

-- A run whose boot deadline is armed is not owned.
unowned :
    (id : ℕ) (rs : List RunRecord) (r : RunRecord)
    → find_run id rs ≡ some r
    → count_if (has_id id) rs ≤ 1
    → r.boot_timer ≡ true
    → count_if (is_owned id) rs ≡ 0
unowned id [] r f c b = refl
unowned id (x ∷ rs) r f c b = ground (arith, owned-le id rs, unowned id rs r)

boot_deadline-owned :
    (id k : ℕ) (g : Registry)
    → count_if (has_id id) g.runs ≤ 1
    → owned id g ≤ owned id (boot_deadline k g)
unfolding boot_deadline
boot_deadline-owned id k g u = elim (Option-cases (find_run k g.runs)) [
  | inl missing ↦ rw (missing, boot_deadline) (omega arith)
  | inr (r, found) ↦ elim (Bool-cases (k == id)) [
    | inl same ↦ ground (
      arith,
      unowned id g.runs r (subst (λ j. find_run j g.runs ≡ some r) ((==_iff k id).0 same) found) u,
    )
    | inr other ↦ ground (arith, owned-delete id k g.runs other)
  ]
]

settle-owned :
    (id k : ℕ) (error : Option RunError) (g : Registry)
    → (k == id) ≡ false
    → owned id g ≤ owned id (settle k error g)
unfolding settle
settle-owned id k error g h = ground (arith, owned-delete id k g.runs h)

admit-owned :
    (id k : ℕ) (terminal : Bool) (g : Registry) → owned id g ≤ owned id (admit k terminal g).1
unfolding admit
admit-owned id k true g = ground (
  arith,
  owned-update id k (λ r. record r { boot_timer = false; phase = RunPhase.claimed }) g.runs
      (λ r h. ground arith),
  owned-update id k (λ r. record r { boot_timer = false }) g.runs (λ r h. ground arith),
)
admit-owned id k false g =
    ground
      (arith, owned-update id k (λ r. record r { boot_timer = false }) g.runs (λ r h. ground arith))

timers-owned :
    (id k : ℕ) (g : Registry)
    → (owned id g ≤ owned id (arm_cleanup_deadline k g))
      × (owned id g ≤ owned id (disarm_cleanup_deadline k g))
      × (owned id g ≤ owned id (cleanup_deadline k g))
unfolding arm_cleanup_deadline disarm_cleanup_deadline cleanup_deadline
timers-owned id k g = (
  owned-update id k (λ r. if is_open r then record r { cleanup_timer = true } else r) g.runs
      (λ r h. ground arith),
  owned-update id k (λ r. record r { cleanup_timer = false }) g.runs (λ r h. ground arith),
  ground (
    arith,
    owned-update id k (λ r. record r { cleanup_timer = false; phase = RunPhase.claimed }) g.runs
        (λ r h. ground arith),
  ),
)

mint-owned : (id k : ℕ) (path : String) (g : Registry) → owned id g ≤ owned id (mint path k g)
unfolding mint
mint-owned id k path g =
    let r : RunRecord = record {
      run_id = k;
      test_path = path;
      epoch = g.transport_epoch;
      phase = RunPhase.open_run;
      boot_timer = true;
      cleanup_timer = false;
    } in
    omega (
      arith,
      count_if-append (is_owned id) (keep (λ r. not (is_open r && on_path path r)) g.runs) (r ∷ []),
      owned-sweep id (on_path path) g.runs,
    )

step-owned :
    (id : ℕ) (e : Event) (g : Registry)
    → count_if (has_id id) g.runs ≤ 1
    → ends id e ≡ false
    → owned id g ≤ owned id (step e g)
unfolding step
step-owned id (mints path k) g u h = mint-owned id k path g
step-owned id (admits k terminal) g u h = admit-owned id k terminal g
step-owned id (arms k) g u h = (timers-owned id k g).0
step-owned id (disarms k) g u h = (timers-owned id k g).1
step-owned id (resolves k) g u h = settle-owned id k none g h
step-owned id (rejects k error) g u h = settle-owned id k (some (RunError.given error)) g h
step-owned id (boot_fires k) g u h = boot_deadline-owned id k g u
step-owned id (cleanup_fires k) g u h = (timers-owned id k g).2
step-owned id (retains paths) g u h =
    omega (arith, owned-sweep id (λ r. not (any (λ p. str_eq p r.test_path) paths)) g.runs)
step-owned id (rejects_all error) g u h = omega (arith, owned-sweep id (λ r. true) g.runs)
step-owned id (sets_epoch n) g u h = omega (arith, owned-sweep id (λ r. ltb r.epoch n) g.runs)

steps-owned :
    (id : ℕ) (es : List Event) (g : Registry)
    → settlements id g + tabled id g + mintings id es ≤ 1
    → any (ends id) es ≡ false
    → owned id g ≤ owned id (steps es g)
unfolding steps
steps-owned id [] g u h = omega arith
steps-owned id (e ∷ es) g u h =
    let now = step-total id e g (omega arith) in
    omega (
      arith,
      step-owned id e g (omega arith) (ground arith),
      steps-owned id es (step e g) (omega (arith, now)) (ground arith),
    )

abbrev claim : RunRecord → RunRecord
claim r = record r { boot_timer = false; phase = RunPhase.claimed }

claim-owned :
    (id : ℕ) (rs : List RunRecord) (r : RunRecord)
    → find_run id rs ≡ some r
    → (0 < count_if (is_owned id) (update id claim rs))
      × (find_run id (update id claim rs) ≡ some (claim r))
unfolding update
claim-owned id [] r h = cc
claim-owned id (x ∷ rs) r h = ground (arith, claim-owned id rs r)

admit-claims :
    (id : ℕ) (g : Registry) → (admit id true g).0 ≡ true → 0 < owned id (admit id true g).1
unfolding admit
admit-claims id g h = elim (Option-cases (find_run id g.runs)) [
  | inl missing ↦ ground arith
  | inr (r, found) ↦ ground (arith, claim-owned id g.runs r found)
]

-- The only record of an id that is owned is found claimed.
owned-found :
    (id : ℕ) (rs : List RunRecord)
    → count_if (has_id id) rs ≤ 1
    → 0 < count_if (is_owned id) rs
    → (r : RunRecord) × (find_run id rs ≡ some r) × (is_open r ≡ false)
owned-found id [] u h = absurd (omega (arith, h))
owned-found id (x ∷ rs) u h = elim (Bool-cases (has_id id x)) [
  | inl same ↦ (x, ground (arith, same), ground (arith, same, owned-le id rs, u, h))
  | inr other ↦
      let (r, found, claimed) =
        owned-found id rs (ground (arith, other, u)) (ground (arith, other, h)) in
      (r, ground (arith, other, found), claimed)
]

owned-refuses :
    (id : ℕ) (g : Registry)
    → count_if (has_id id) g.runs ≤ 1
    → 0 < owned id g
    → (admit id true g).0 ≡ false
unfolding admit
owned-refuses id g u h =
    let (r, found, claimed) = owned-found id g.runs u h in ground (arith, found, claimed)

-- If a run's id is minted at most once, then once a terminal message for it has been admitted, the run
-- is claimed, and it stays in the table so along every list of events in which its handler does not
-- resolve or reject it: its promise does not settle, whatever deadline, file-set commit, lost transport
-- or new epoch comes, and no other terminal message for it is admitted.
pub claimed_kept :
    (id : ℕ) (es : List Event) (g : Registry)
    → settlements id g + tabled id g + mintings id es ≤ 1
    → (admit id true g).0 ≡ true
    → any (ends id) es ≡ false
    → (0 < owned id (steps es (admit id true g).1))
      × (settlements id (steps es (admit id true g).1) ≡ 0)
      × ((admit id true (steps es (admit id true g).1)).0 ≡ false)
claimed_kept id es g u a h =
    let g1 = (admit id true g).1 in
    let first = admit-total id id true g in
    let all = run_settled_once id es g1 (omega (arith, first)) in
    let kept : 0 < owned id (steps es g1) =
      omega (arith, admit-claims id g a, steps-owned id es g1 (omega (arith, first)) h) in
    let le = owned-le id (steps es g1).runs in
    (
      kept,
      omega (arith, kept, le, all, first),
      owned-refuses id (steps es g1) (omega (arith, all, first)) kept,
    )
