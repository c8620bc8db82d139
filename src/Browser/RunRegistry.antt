-- ===== src/Browser/RunRegistry.antt =====
-- packages/browser/src/headedRunRegistry.ts: the identity and settlement of headed runs.
--
-- A run id is a number that stands for a UUID, and the table keeps the order of insertion. A call
-- settles promises, which `settled` lists, the newest first.
pub mod Settlement
pub mod Ownership
use text.Mathlib.Text.{◌==◌ as str_eq}
use rstest.Prelude.{
  ℕ, ◌==◌, ltb, Bool, true, false, not, ◌&&◌, if◌then◌else◌, String, List, [], ◌∷◌, ◌++◌, Option,
  none, some, keep, any, map,
}

pub data RunPhase : Type 0 where
  open_run claimed : RunPhase

-- The errors of the registry itself, and one that a caller passes in.
pub data RunError : Type 0 where
  never_booted : String → RunError
  transport_replaced : RunError
  given : String → RunError

pub record RunRecord : Type 0 where
  pub run_id : ℕ
  pub test_path : String
  pub epoch : ℕ
  pub phase : RunPhase
  pub boot_timer : Bool
  pub cleanup_timer : Bool

-- A run's promise is fulfilled (`none`) or rejected.
pub record Registry : Type 0 where
  pub runs : List RunRecord
  pub transport_epoch : ℕ
  pub settled : List (ℕ × Option RunError)
  pub expired : List ℕ

unfoldable pub new : Registry
new = record { runs = []; transport_epoch = 0; settled = []; expired = [] }

abbrev pub is_open : RunRecord → Bool
is_open r = elim r.phase [ open_run ↦ true | claimed ↦ false ]

abbrev pub has_id : ℕ → RunRecord → Bool
has_id id r = r.run_id == id

abbrev pub on_path : String → RunRecord → Bool
on_path path r = str_eq r.test_path path

abbrev pub find_run : ℕ → List RunRecord → Option RunRecord
find_run id [] = none
find_run id (r ∷ rs) = if has_id id r then some r else find_run id rs

-- The record of a run, changed.
unfoldable pub update : ℕ → (RunRecord → RunRecord) → List RunRecord → List RunRecord
update id f [] = []
update id f (r ∷ rs) = if has_id id r then f r ∷ update id f rs else r ∷ update id f rs

settle_found : ℕ → Option RunError → Option RunRecord → Registry → Registry
settle_found id error none g = g
settle_found id error (some r) g = record g {
  runs = keep (λ x. not (has_id id x)) g.runs;
  settled = (id, error) ∷ g.settled;
}

-- `settle`, for a run that is looked up by its id: only the caller that deletes the record settles.
unfoldable pub settle : ℕ → Option RunError → Registry → Registry
unfolding settle_found
settle id error g = settle_found id error (find_run id g.runs) g

unfoldable pub sweep_list :
    (RunRecord → Bool)
    → Option RunError
    → List RunRecord
    → List (ℕ × Option RunError)
    → List (ℕ × Option RunError)
sweep_list hits error [] out = out
sweep_list hits error (r ∷ rs) out =
    sweep_list hits error rs (if is_open r && hits r then (r.run_id, error) ∷ out else out)

-- Only open runs are swept.
unfoldable pub sweep_open : (RunRecord → Bool) → Option RunError → Registry → Registry
unfolding sweep_list
sweep_open hits error g = record g {
  runs = keep (λ r. not (is_open r && hits r)) g.runs;
  settled = sweep_list hits error g.runs g.settled;
}

-- `mint`, with the id that `randomUUID` gives.
unfoldable pub mint : String → ℕ → Registry → Registry
unfolding sweep_open
mint path id g =
    let g' = sweep_open (on_path path) none g in
    let r : RunRecord = record {
      run_id = id;
      test_path = path;
      epoch = g'.transport_epoch;
      phase = open_run;
      boot_timer = true;
      cleanup_timer = false;
    } in
    record g' { runs = g'.runs ++ r ∷ [] }

abbrev disarm_boot : RunRecord → RunRecord
disarm_boot r = record r { boot_timer = false }

abbrev claim : RunRecord → RunRecord
claim r = record r { boot_timer = false; phase = claimed }

admit_found : ℕ → Bool → Option RunRecord → Registry → Bool × Registry
unfolding update
admit_found id terminal none g = (false, g)
admit_found id false (some r) g = (true, record g { runs = update id disarm_boot g.runs })
admit_found id true (some r) g =
    if is_open r
    then (true, record g { runs = update id claim g.runs })
    else (false, record g { runs = update id disarm_boot g.runs })

unfoldable pub admit : ℕ → Bool → Registry → Bool × Registry
unfolding admit_found
admit id terminal g = admit_found id terminal (find_run id g.runs) g

abbrev arm : RunRecord → RunRecord
arm r = if is_open r then record r { cleanup_timer = true } else r

unfoldable pub arm_cleanup_deadline : ℕ → Registry → Registry
unfolding update
arm_cleanup_deadline id g = record g { runs = update id arm g.runs }

abbrev disarm_cleanup : RunRecord → RunRecord
disarm_cleanup r = record r { cleanup_timer = false }

unfoldable pub disarm_cleanup_deadline : ℕ → Registry → Registry
unfolding update
disarm_cleanup_deadline id g = record g { runs = update id disarm_cleanup g.runs }

abbrev expire : RunRecord → RunRecord
expire r = record r { cleanup_timer = false; phase = claimed }

expire_found : ℕ → Option RunRecord → Registry → Registry
unfolding update
expire_found id none g = g
expire_found id (some r) g =
    if r.cleanup_timer && is_open r
    then record g { runs = update id expire g.runs; expired = id ∷ g.expired }
    else g

-- The cleanup deadline of a run passes: the run is claimed and `onExpire` is called.
unfoldable pub cleanup_deadline : ℕ → Registry → Registry
unfolding expire_found
cleanup_deadline id g = expire_found id (find_run id g.runs) g

boot_found : ℕ → Option RunRecord → Registry → Registry
unfolding settle
boot_found id none g = g
boot_found id (some r) g = if r.boot_timer then settle id (some (never_booted r.test_path)) g else g

-- The boot deadline of a run passes.
unfoldable pub boot_deadline : ℕ → Registry → Registry
unfolding boot_found
boot_deadline id g = boot_found id (find_run id g.runs) g

unfoldable pub retain_paths : List String → Registry → Registry
unfolding sweep_open
retain_paths paths g = sweep_open (λ r. not (any (λ p. str_eq p r.test_path) paths)) none g

unfoldable pub reject_all : String → Registry → Registry
unfolding sweep_open
reject_all error g = sweep_open (λ r. true) (some (given error)) g

unfoldable pub set_transport_epoch : ℕ → Registry → Registry
unfolding sweep_open
set_transport_epoch n g =
    sweep_open (λ r. ltb r.epoch n) (some transport_replaced) (record g { transport_epoch = n })

pub data Event : Type 0 where
  mints : String → ℕ → Event
  admits : ℕ → Bool → Event
  arms disarms resolves boot_fires cleanup_fires : ℕ → Event
  rejects : ℕ → String → Event
  retains : List String → Event
  rejects_all : String → Event
  sets_epoch : ℕ → Event

unfoldable pub step : Event → Registry → Registry
unfolding mint admit arm_cleanup_deadline disarm_cleanup_deadline settle boot_deadline
    cleanup_deadline retain_paths reject_all set_transport_epoch
step (mints path id) g = mint path id g
step (admits id terminal) g = (admit id terminal g).1
step (arms id) g = arm_cleanup_deadline id g
step (disarms id) g = disarm_cleanup_deadline id g
step (resolves id) g = settle id none g
step (rejects id error) g = settle id (some (given error)) g
step (boot_fires id) g = boot_deadline id g
step (cleanup_fires id) g = cleanup_deadline id g
step (retains paths) g = retain_paths paths g
step (rejects_all error) g = reject_all error g
step (sets_epoch n) g = set_transport_epoch n g

unfoldable pub steps : List Event → Registry → Registry
unfolding step
steps [] g = g
steps (e ∷ es) g = steps es (step e g)
