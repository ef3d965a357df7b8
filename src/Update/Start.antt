-- ===== src/Update/Start.antt =====
-- `start_job` and `cancel`: a job's rows are made before its coroutines are.
pub mod FreshRows
use clusterone.Prelude.{
  List, Option, String, [], if◌then◌else◌, inl, inr, length, max, min, none, print_nat, some, ℕ,
  ◌+◌, ◌<>◌, ◌==◌, ◌∷◌, ◌⊎◌,
}
use clusterone.Jobs.{create_job, create_task, update_job_state}
use clusterone.Servers.{ServerRow, get_server}
use clusterone.Firmwares.{FirmwareRow}
use clusterone.Update.{World, log, lookup_firmware}
use clusterone.Update.Run.{Run, start_run}

-- What `start_job` gives to `_run_job`.
pub record Started : Type 0 where
  pub job : ℕ
  pub tasks : List ℕ
  pub image : FirmwareRow
  pub concurrency : ℕ

-- `max(1, min(64, concurrency))`
abbrev pub clamp_concurrency : ℕ → ℕ
clamp_concurrency n = max 1 (min 64 n)

abbrev pub version_before_of : String → ServerRow → Option String
version_before_of fw_type s =
    if fw_type == "BMC" then s.bmc_version else if fw_type == "BIOS" then s.bios_version else none

-- The loop over the servers; an id without a row is passed over.
unfoldable pub create_tasks : ℕ → FirmwareRow → ℕ → List ℕ → World → List ℕ × World
create_tasks job f firmware_id [] w = ([], w)
create_tasks job f firmware_id (sid ∷ sids) w = elim (get_server sid w.servers) [
  | none ↦ create_tasks job f firmware_id sids w
  | some s ↦
      let (tid, jobs) =
        create_task job sid firmware_id (version_before_of f.type s) (w.clock w.reads) w.jobs in
      let (tids, w') =
        create_tasks job f firmware_id sids (record w { jobs = jobs; reads = w.reads + 1 }) in
      (tid ∷ tids, w')
]

abbrev job_started : ℕ → FirmwareRow → ℕ → String
job_started job f n =
    "Update job #"
    <> print_nat job
    <> " started — "
    <> f.type
    <> " "
    <> f.version
    <> " on "
    <> print_nat n
    <> " server(s)"

unfoldable pub start_for : FirmwareRow → ℕ → ℕ → List ℕ → World → Started × World
unfolding create_tasks
start_for f firmware_id concurrency server_ids w =
    let (job, jobs) = create_job f.type concurrency "OnReset" "user" (w.clock w.reads) w.jobs in
    let (tasks, w') =
      create_tasks job f firmware_id server_ids (record w { jobs = jobs; reads = w.reads + 1 }) in
    let running = record w' {
      jobs =
          update_job_state job "running"
            (record { total = some (length tasks); succeeded = none; failed = none }) w'.jobs;
    } in
    (
      record { job = job; tasks = tasks; image = f; concurrency = concurrency },
      log "info" (job_started job f (length tasks)) running,
    )

-- `inl` is the text that `on_error` gets.
unfoldable pub start_job : List ℕ → ℕ → ℕ → World → (String ⊎ Started) × World
unfolding start_for
start_job [] firmware_id concurrency w = (inl "No servers selected", w)
start_job (sid ∷ sids) firmware_id concurrency w = elim (lookup_firmware firmware_id w.firmware) [
  | none ↦ (inl "Firmware not found", w)
  | some f ↦
      let (started, w') = start_for f firmware_id (clamp_concurrency concurrency) (sid ∷ sids) w in
      (inr started, w')
]

-- The run that `_run_job` begins with.
abbrev pub run_of : Started → World → Run
run_of s w = start_run s.image s.concurrency s.tasks w
