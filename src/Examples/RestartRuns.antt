-- ===== src/Examples/RestartRuns.antt =====
-- The theorems on a restart at concrete rows: one task has a URI, the other has none.
use clusterone.Prelude.{
  All, [], contains, lower, none, parse_nat, partition, print_nat, refl, replace, rstrip, some,
  strip, true, ◌∷◌, ◌≡◌,
}
use clusterone.Exec.{ok}
use clusterone.Json.{Fields, end, field, get_field, num, str}
use clusterone.Models.{Credentials}
use clusterone.Jobs.{TaskRow, list_non_terminal_tasks, open_task_states}
use clusterone.Jobs.Sweep.{IsSettled}
use clusterone.Servers.{ServerRow, get_server, get_server_of, trimmed}
use clusterone.Credentials.{add, add_row, find_for_scope, open_row, resolve}
use clusterone.Update.{Env, World, parse_redfish_root, present}
use clusterone.Update.Poll.{Resumption, effective_oem, percent, resumption, state_text}
use clusterone.Examples.{job_row, seal, site, start_world, task_row}
use clusterone.Update.Resume.{job_ids, resume_interrupted}
use clusterone.Update.Resume.Sweep.{left, resume_interrupted-settles, sent_on}
use clusterone.Update.Poll.Confirmed.{IsConfirmed, resumption-IsConfirmed}

abbrev saved_task : TaskRow
saved_task = record (task_row 1 1 "flashing") {
  redfish_task = some "/redfish/v1/TaskService/Tasks/9";
}

abbrev crashed_world : World
crashed_world = record start_world {
  jobs = record {
    jobs = job_row 7 "running" ∷ job_row 8 "pending" ∷ [];
    tasks = saved_task ∷ task_row 2 2 "uploading" ∷ [];
  };
  vault = (add seal "all" "root" "s3cret" "default" []).1;
}

resume_interrupted-settles_example :
    All
      (λ (t : TaskRow). contains t.state open_task_states ≡ true → present t.redfish_task ≡ true)
      (left crashed_world).tasks
    × All (IsSettled (job_ids (sent_on crashed_world))) (left crashed_world).jobs
resume_interrupted-settles_example = resume_interrupted-settles crashed_world

sent_on_test : sent_on crashed_world ≡ saved_task ∷ []
unfolding resume_interrupted list_non_terminal_tasks
sent_on_test = refl

abbrev done_answer : Fields
done_answer = field "TaskState" (str "Completed") (field "PercentComplete" (num 100) end)

abbrev done_site : Env
done_site = record site { connect = λ c. ok (λ path. ok done_answer) }

abbrev resumed : Resumption
resumed = record {
  update = record {
    state = some "completed";
    progress = some 100;
    message = some "Resumed: BMC reports completed.";
    version_after = none;
    redfish_task = none;
  };
  notes = ("success", "task#1 resumed and finalized as completed") ∷ [];
}

resumption-IsConfirmed_example :
    (s : ServerRow) × (creds : Credentials) × (get_server_of saved_task.server_id
        crashed_world.servers
      ≡ some s)
    × (resolve done_site.decrypt (some s.ip) (effective_oem s) crashed_world.vault ≡ some creds)
    × IsConfirmed done_site saved_task s creds
unfolding resumption get_server trimmed strip resolve find_for_scope add open_row parse_redfish_root
    replace rstrip partition parse_nat get_field state_text lower percent print_nat add_row
resumption-IsConfirmed_example =
    resumption-IsConfirmed done_site saved_task crashed_world resumed refl refl
