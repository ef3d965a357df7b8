-- ===== src/Examples/UpdateRuns.antt =====
-- The theorems on updates at a concrete site.
use clusterone.Prelude.{
  List, Option, String, [], arith, false, has_text, last_segment, lower, max, none, parse_nat,
  partition, print_nat, refl, replace, rstrip, some, true, upper, ℕ, ◌++◌, ◌+◌, ◌-◌, ◌∷◌, ◌≡◌, ◌≤◌,
  ◌⊎◌,
}
use clusterone.Exec.{Result, ok, runtime_error}
use clusterone.Json.{Fields, get, get_field, is_truthy, items}
use clusterone.Models.{ServerInfo}
use clusterone.Jobs.{
  at_job, create_job, create_task, get_task, list_tasks, max_id, summarise, update_job_state,
  update_task,
}
use clusterone.Jobs.Finalize.{states_of}
use clusterone.Servers.{get_server, upsert}
use clusterone.Update.{
  Push, World, compute_final_state, lookup_firmware, parse_redfish_root, progress, refresh_server,
}
use clusterone.Update.Preflight.{
  Reader, check_target, connection, has_target, inventory_ids, is_target, preflight_bmc, push_uri,
  running_tasks,
}
use clusterone.Update.Task.{firmware_of, info_of, real_task, run_task, settle}
use clusterone.Update.Run.{
  Event, Reach, Run, acquire, cancel, close_run, enter, finish, fire, here, is_gathered, next,
  phase_of, set_phase, start_run,
}
use clusterone.Update.Run.Counters.{flashes_bounded, is_active, number}
use clusterone.Update.Run.Phases.{AreDistinct}
use clusterone.Update.Run.Cancellation.{IsWindingDown, cancelled_run-IsWindingDown}
use clusterone.Update.Run.Ending.{Reach-gathered}
use clusterone.Examples.{image, server_row, site, start_world, task_row, typed}
use clusterone.Update.Task.Settled.{IsEnded, run_task-IsEnded}
use clusterone.Update.Task.Writes.{IsOwn}
use clusterone.Update.Start.{Started, create_tasks, run_of, start_job}
use clusterone.Update.Start.FreshRows.{start_job-counters, start_job-task_ids, task_ids, with_end}
use clusterone.Update.Preflight.Gate.{IsReady, preflight-IsReady}
use clusterone.Update.Task.Gates.{IsCleared, flash_guarded}

flash_guarded_example :
    ((real_task site 1 image typed true start_world).1.pushed ≡ start_world.pushed)
    ⊎ ((push : Push) × IsCleared site 1 image typed true start_world push
        × ((real_task site 1 image typed true start_world).1.pushed
            ≡ start_world.pushed ++ push ∷ []))
flash_guarded_example = flash_guarded site 1 image typed true start_world

abbrev target : ServerInfo
target = info_of (server_row 1 "10.0.0.5" "SN1") "dell"

abbrev verdict_text : String
verdict_text = "BMC ready — push=/upload target=BMC vendor=Dell"

abbrev read_root : String × ℕ × String
read_root = ("10.0.0.5", 443, "https")

preflight-IsReady_example :
    (root : String × ℕ × String) × (read : Reader) × (us : Fields) × (parse_redfish_root
        target.redfish_root
      ≡ ok root)
    × (site.connect (connection target typed root) ≡ ok read)
    × IsReady read (firmware_of image) us
unfolding upper preflight_bmc parse_redfish_root running_tasks inventory_ids check_target has_target
    is_target push_uri is_truthy get_field items get replace rstrip partition last_segment has_text
    print_nat lower parse_nat
preflight-IsReady_example =
    preflight-IsReady site target (firmware_of image) typed verdict_text refl

abbrev go : List Event → Run → Run
go [] r = r
go (e ∷ es) r = elim (fire e r) [ some u ↦ go es u | none ↦ r ]

abbrev begun : Run
begun = start_run image 1 (1 ∷ 2 ∷ []) start_world

abbrev flashing : Run
flashing = go (enter 1 ∷ enter 2 ∷ acquire 1 ∷ []) begun

Reach-flashing : Reach begun flashing
unfolding fire start_run phase_of set_phase
Reach-flashing = next (acquire 1) (next (enter 2) (next (enter 1) here refl) refl) refl

flashes_bounded_example :
    (number is_active flashing.phases ≤ max 1 1)
    × (flashing.sem ≡ max 1 1 - number is_active flashing.phases)
flashes_bounded_example = flashes_bounded image 1 (1 ∷ 2 ∷ []) start_world Reach-flashing

abbrev worked : Result (Option String)
worked = ok (some "7.1")

abbrev broke : Result (Option String)
broke = runtime_error "BMC pre-flight failed: BMC is busy"

-- The first server's flash succeeds; the second waits for its slot and fails.
abbrev script : List Event
script = enter 3 ∷ enter 4 ∷ acquire 3 ∷ finish 3 worked ∷ acquire 4 ∷ finish 4 broke ∷ []

abbrev two_started : Started
two_started = record { job = 8; tasks = 3 ∷ 4 ∷ []; image = image; concurrency = 1 }

abbrev started_world : World
started_world = (start_job (1 ∷ 2 ∷ []) 4 1 start_world).1

start_job-task_ids_example :
    (task_ids (list_tasks two_started.job started_world.jobs) ≡ two_started.tasks)
    × AreDistinct two_started.tasks
unfolding start_job lookup_firmware create_job create_task create_tasks get_server max_id
    update_job_state
start_job-task_ids_example =
    start_job-task_ids (1 ∷ 2 ∷ []) 4 1 start_world started_world two_started
      (omega arith, (omega arith, tt)) refl

abbrev whole : Run
whole = run_of two_started started_world

abbrev ended : Run
ended = go script whole

Reach-ended : Reach whole ended
unfolding fire start_run phase_of set_phase settle progress update_task get_task refresh_server
    upsert get_server start_job
Reach-ended =
    next (finish 4 broke)
      (next (acquire 4)
        (next (finish 3 worked)
          (next (acquire 3) (next (enter 4) (next (enter 3) here refl) refl) refl) refl)
        refl)
      refl

start_job-counters_example :
    (summarise (states_of two_started.job ended.world.jobs) ≡ record {
      state = compute_final_state false ended.succeeded ended.failed;
      total = ended.succeeded + ended.failed;
      succeeded = ended.succeeded;
      failed = ended.failed;
    })
    × ((close_run two_started.job ended).jobs
        ≡ at_job two_started.job
            (with_end ended (summarise (states_of two_started.job ended.world.jobs)))
            ended.world.jobs)
unfolding fire start_run phase_of set_phase settle progress update_task get_task refresh_server
    upsert get_server start_job lookup_firmware create_job create_task create_tasks max_id
    update_job_state
start_job-counters_example =
    start_job-counters (1 ∷ 2 ∷ []) 4 1 start_world started_world two_started ended
      (omega arith, (omega arith, tt)) refl Reach-ended refl

run_task-IsEnded_example :
    IsEnded 1
      (run_task site 1 image typed true start_world).0
      (run_task site 1 image typed true start_world).1.jobs
    × IsOwn 1 start_world.jobs (run_task site 1 image typed true start_world).1.jobs
unfolding get_task
run_task-IsEnded_example =
    run_task-IsEnded site 1 image typed true start_world (task_row 1 1 "queued") refl

abbrev stopped_run : Run
stopped_run = go (enter 1 ∷ enter 2 ∷ acquire 1 ∷ cancel ∷ []) begun

abbrev wound_down : Run
wound_down = go (finish 1 worked ∷ acquire 2 ∷ []) stopped_run

Reach-wound_down : Reach stopped_run wound_down
unfolding fire start_run phase_of set_phase settle progress update_task get_task refresh_server
    upsert get_server
Reach-wound_down = next (acquire 2) (next (finish 1 worked) here refl) refl

cancelled_run-IsWindingDown_example : IsWindingDown stopped_run wound_down
unfolding fire start_run phase_of set_phase
cancelled_run-IsWindingDown_example =
    cancelled_run-IsWindingDown stopped_run wound_down refl Reach-wound_down

Reach-gathered_example : (u : Run) × Reach flashing u × (is_gathered u ≡ true)
Reach-gathered_example =
    Reach-gathered image 1 (1 ∷ 2 ∷ []) start_world flashing (((λ h. cc), tt), (tt, tt))
      Reach-flashing
