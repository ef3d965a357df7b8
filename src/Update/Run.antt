-- ===== src/Update/Run.antt =====
-- `_run_job`: the coroutines `run_one` of a job, interleaved by the event loop. A coroutine runs
-- undisturbed from one `await` to the next, so each event is one such stretch.
pub mod Counters
pub mod Phases
pub mod Agreement
pub mod Cancellation
pub mod Advance
pub mod Ending
use clusterone.Prelude.{
  Bool, List, Option, String, [], all, eqb, false, if◌then◌else◌, max, none, print_nat, some, suc,
  take_chars, true, ℕ, ◌+◌, ◌<>◌, ◌∷◌, ◌≡◌,
}
use clusterone.Exec.{Result}
use clusterone.Jobs.{TaskUpdate, update_job_state}
use clusterone.Firmwares.{FirmwareRow}
use clusterone.Plugins.{Report}
use clusterone.Update.{World, compute_final_state, log, notify, progress, reporting, write_task}
use clusterone.Update.Task.{failing, settle}

-- `fresh` has not run; `waiting` waits for the semaphore; `active` holds it, inside `_run_task`;
-- `over` has counted its result.
pub data Phase : Type 0 where
  fresh waiting active : Phase
  over : Bool → Phase

abbrev pub Phases : Type 0
Phases = List (ℕ × Phase)

pub record Run : Type 0 where
  pub image : FirmwareRow
  pub phases : Phases
  pub sem : ℕ
  pub stopped : Bool
  pub succeeded : ℕ
  pub failed : ℕ
  pub world : World

-- What may happen next: a coroutine starts, gets the semaphore, reports from inside `_real_task`,
-- or its `_real_task` ends; `_run_task` itself raises; or `cancel` is called.
pub data Event : Type 0 where
  enter acquire : ℕ → Event
  report : ℕ → Report → Event
  finish : ℕ → Result (Option String) → Event
  crash : ℕ → (class message : String) → Event
  cancel : Event

unfoldable pub phase_of : ℕ → Phases → Option Phase
phase_of i [] = none
phase_of i ((j, p) ∷ ps) = if eqb j i then some p else phase_of i ps

unfoldable pub set_phase : ℕ → Phase → Phases → Phases
set_phase i p [] = []
set_phase i p ((j, q) ∷ ps) = if eqb j i then (j, p) ∷ ps else (j, q) ∷ set_phase i p ps

abbrev cancelled_row : TaskUpdate
cancelled_row = record {
  state = some "failed";
  progress = none;
  message = some "Cancelled";
  version_after = none;
  redfish_task = none;
}

unfoldable pub mark_cancelled : ℕ → World → World
mark_cancelled i w = notify i (failing "Cancelled") (write_task i cancelled_row w)

-- `if ok: succeeded += 1` `else: failed += 1`, and the coroutine is over.
abbrev pub tally : ℕ → Bool → Run → Run
tally i success r = record r {
  phases = set_phase i (over success) r.phases;
  succeeded = if success then r.succeeded + 1 else r.succeeded;
  failed = if success then r.failed else r.failed + 1;
}

abbrev drop_out : ℕ → Run → Run
drop_out i r = tally i false (record r { world = mark_cancelled i r.world })

abbrev go_on : ℕ → Phase → Run → Run
go_on i p r = record r { phases = set_phase i p r.phases }

start_one : ℕ → Option Phase → Run → Option Run
start_one i (some fresh) r = some (if r.stopped then drop_out i r else go_on i waiting r)
start_one i _ r = none

-- The semaphore is taken; a job that was cancelled meanwhile gives it back at once.
take_sem : ℕ → ℕ → Option Phase → Run → Option Run
take_sem i (suc free) (some waiting) r =
    some (if r.stopped then drop_out i r else record (go_on i active r) { sem = free })
take_sem i _ _ r = none

report_one : ℕ → Report → Option Phase → Run → Option Run
report_one i p (some active) r = some (record r { world = progress i p r.world })
report_one i p _ r = none

abbrev leave : ℕ → Bool × World → Run → Run
leave i (success, w) r = tally i success (record r { world = w; sem = r.sem + 1 })

finish_one : ℕ → Result (Option String) → Option Phase → Run → Option Run
finish_one i result (some active) r = some (leave i (settle i r.image result r.world) r)
finish_one i result _ r = none

-- `str[:n]` of the handler's texts
abbrev pub crash_world : ℕ → String → String → World → World
crash_world i class message w =
    notify i (failing (take_chars 200 ("Internal error: " <> message))) (
      write_task i
        (reporting (failing (take_chars 300 ("Internal error: " <> class <> ": " <> message)))) w)

crash_one : ℕ → String → String → Option Phase → Run → Option Run
crash_one i class message (some active) r =
    some (leave i (false, crash_world i class message r.world) r)
crash_one i class message _ r = none

-- `none`: the event cannot happen now.
unfoldable pub fire : Event → Run → Option Run
unfolding start_one take_sem report_one finish_one crash_one
fire (enter i) r = start_one i (phase_of i r.phases) r
fire (acquire i) r = take_sem i r.sem (phase_of i r.phases) r
fire (report i p) r = report_one i p (phase_of i r.phases) r
fire (finish i result) r = finish_one i result (phase_of i r.phases) r
fire (crash i class message) r = crash_one i class message (phase_of i r.phases) r
fire cancel r = some (record r { stopped = true })

pub data Reach (s : Run) : Run → Type 0 where
  here : Reach s s
  next : {t u : Run} (e : Event) → Reach s t → fire e t ≡ some u → Reach s u

abbrev pub all_fresh : List ℕ → Phases
all_fresh [] = []
all_fresh (i ∷ is) = (i, fresh) ∷ all_fresh is

-- `asyncio.Semaphore(max(1, concurrency))` and a clear cancel event
unfoldable pub start_run : FirmwareRow → ℕ → List ℕ → World → Run
start_run f concurrency ids w = record {
  image = f;
  phases = all_fresh ids;
  sem = max 1 concurrency;
  stopped = false;
  succeeded = 0;
  failed = 0;
  world = w;
}

abbrev pub is_over : ℕ × Phase → Bool
is_over (i, over b) = true
is_over (i, fresh) = false
is_over (i, waiting) = false
is_over (i, active) = false

-- `gather` has returned
abbrev pub is_gathered : Run → Bool
is_gathered r = all is_over r.phases

-- The end of `_run_job`: the job's state and counters are stored and logged.
unfoldable pub close_run : ℕ → Run → World
close_run job_id r =
    let state = compute_final_state r.stopped r.succeeded r.failed in
    let level =
      if eqb r.failed 0 then "success" else if eqb r.succeeded 0 then "error" else "warning" in
    log level
      ("Update job #"
        <> print_nat job_id
        <> " finished — "
        <> print_nat r.succeeded
        <> " succeeded, "
        <> print_nat r.failed
        <> " failed")
      (record (r.world) {
        jobs =
            update_job_state job_id state
              (record { total = none; succeeded = some r.succeeded; failed = some r.failed })
              r.world.jobs;
      })
