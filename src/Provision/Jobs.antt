-- ===== src/Provision/Jobs.antt =====
-- `start_job`, `_mark_cancelled`, the end of `_run_job` and `resume_interrupted` of
-- core/services/provisioning_orchestrator.py.
use clusterone.Prelude.{
  Bool, List, Option, String, [], eqb, if◌then◌else◌, length, max, min, none, print_nat, some,
  take_chars, ℕ, ◌++◌, ◌+◌, ◌<>◌, ◌∷◌,
}
use clusterone.Exec.{Exec, Result, lift, ok, pure, ◌>>=◌, ◌>>◌}
use clusterone.Models.{Drive}
use clusterone.Servers.{ServerRow, Servers}
use clusterone.Update.{compute_final_state}
use clusterone.Provision.{Overrides, PreviewRow, preview}
use clusterone.Provision.Tables.{
  JobOrder, ProvisioningRepo, create_provisioning_job, create_provisioning_task, fail_stranded_jobs,
  fail_stranded_tasks, list_stranded_tasks, update_provisioning_job, update_provisioning_task,
}
use clusterone.Provision.Yard.{IsoRow}
use clusterone.Disks.Sizes.{Floats}

-- A line of the activity log.
pub record InstallLine : Type 0 where
  pub level : String
  pub message : String
  pub job : Option ℕ

-- The database with the activity log, the jobs that were handed to the event loop with their tasks
-- and their concurrency, the texts that `on_error` was given, and the clock that `_now()` reads.
pub record Desk : Type 0 where
  pub repo : ProvisioningRepo
  pub servers : Servers
  pub activity : List InstallLine
  pub submitted : List (ℕ × List ℕ × ℕ)
  pub errors : List String
  pub current_job_id : Option ℕ
  pub clock : ℕ → String
  pub reads : ℕ

-- What the operator asks for, with the profile's strategy.
pub record InstallOrder : Type 0 where
  pub server_ids : List ℕ
  pub iso_id : ℕ
  pub os_profile_id : Option ℕ
  pub disk_profile_id : Option ℕ
  pub confirm_token : String
  pub concurrency : ℕ
  pub profile_strategy : Option String
  pub strategy_override : Option String
  pub overrides : Overrides

abbrev pub Move : Type 0 → Type 0
Move A = Exec Desk A

abbrev log_line : String → String → Option ℕ → Move (Unit {0})
log_line level message job d = (
  ok tt,
  record d {
    activity = d.activity ++ (record { level = level; message = message; job = job }) ∷ [];
  },
)

abbrev tell_error : String → Move (Option ℕ)
tell_error message d = (ok none, record d { errors = d.errors ++ message ∷ [] })

-- A new row, under the time of the next reading.
abbrev make : (String → ProvisioningRepo → ℕ × ProvisioningRepo) → Move ℕ
make f d =
    let (id, repo) = f (d.clock d.reads) d.repo in
    (ok id, record d { repo = repo; reads = d.reads + 1 })

abbrev pub job_order : InstallOrder → JobOrder
job_order o = record {
  iso_id = o.iso_id;
  os_profile_id = o.os_profile_id;
  disk_profile_id = o.disk_profile_id;
  concurrency = max 1 (min 32 o.concurrency);
  confirm_token = o.confirm_token;
}

-- A task for each row of the preview, with the choice that the preview shows.
unfoldable pub create_install_tasks : ℕ → List PreviewRow → Move (List ℕ)
create_install_tasks job [] = pure []
create_install_tasks job (p ∷ ps) = do
  id ← make (create_provisioning_task job p.server_id (some p.resolution))
  ids ← create_install_tasks job ps
  pure (id ∷ ids)

module _ {Float : Type 0} (floats : Floats Float) (drives_of : ServerRow → List Drive) where
  abbrev pub order_preview : InstallOrder → Servers → Result (List PreviewRow)
  order_preview o servers =
      preview floats drives_of o.server_ids o.profile_strategy o.strategy_override o.overrides
        servers

  -- A preview that raises leaves a job without tasks.
  unfoldable pub start_known : IsoRow → InstallOrder → Move (Option ℕ)
  unfolding create_install_tasks
  start_known iso o = do
    job ← make (create_provisioning_job (job_order o))
    rows ← λ d. lift (order_preview o d.servers) d
    ids ← create_install_tasks job rows
    λ d. (
      ok tt,
      record d {
        repo = update_provisioning_job job "running" (some (length ids)) none none d.repo;
      },
    )
    log_line "warning"
        ("Provisioning job #"
          <> print_nat job
          <> " started — "
          <> iso.name
          <> " on "
          <> print_nat (length ids)
          <> " server(s); confirm='"
          <> take_chars 40 o.confirm_token
          <> "'")
        (some job)
    λ d. (
      ok tt,
      record d {
        current_job_id = some job;
        submitted = d.submitted ++ (job, ids, max 1 (min 32 o.concurrency)) ∷ [];
      },
    )
    pure (some job)

  unfoldable pub start_chosen : Option IsoRow → InstallOrder → Move (Option ℕ)
  unfolding start_known
  start_chosen none o = tell_error "ISO not found"
  start_chosen (some iso) o = start_known iso o

  unfoldable pub start_install : Option IsoRow → InstallOrder → Move (Option ℕ)
  unfolding start_chosen
  start_install iso o =
      if eqb (length o.server_ids) 0 then tell_error "No servers selected" else start_chosen iso o

unfoldable pub mark_install_cancelled : ℕ → String → ProvisioningRepo → ProvisioningRepo
mark_install_cancelled id now r =
    update_provisioning_task id "cancelled" none (some "Cancelled") now r

-- What is written when the last task is over.
unfoldable pub close_job : ℕ → Bool → (succeeded failed : ℕ) → Desk → Desk
close_job job stopped succeeded failed d = record d {
  repo =
      update_provisioning_job job (compute_final_state stopped succeeded failed) none
        (some succeeded) (some failed) d.repo;
  activity =
      d.activity
      ++ (record {
        level = if eqb failed 0 then "success" else if eqb succeeded 0 then "error" else "warning";
        message =
            "Provisioning job #"
            <> print_nat job
            <> " finished — "
            <> print_nat succeeded
            <> " ok, "
            <> print_nat failed
            <> " failed";
        job = some job;
      })
        ∷ [];
  current_job_id = none;
}

abbrev pub restart_message : String
restart_message =
    "App was restarted mid-install — ClusterOne cannot resume an OS install. Verify the host and re-run if needed."

unfoldable pub resume_installs : Desk → ℕ × Desk
resume_installs d =
    let (n, r) = fail_stranded_tasks restart_message (d.clock d.reads) d.repo in
    let settled : ℕ × Desk = if eqb (length (list_stranded_tasks d.repo)) 0 then (0, d) else (
      n,
      (log_line "warning"
          (print_nat n
            <> " provisioning task(s) marked failed on startup (an OS install can't be resumed across a restart)")
          none (record d { repo = r; reads = d.reads + 1 })).1,
    ) in
    (settled.0, record settled.1 { repo = (fail_stranded_jobs settled.1.repo).1 })
