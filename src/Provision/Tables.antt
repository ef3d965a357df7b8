-- ===== src/Provision/Tables.antt =====
-- data/repositories/provisioning_repo.py: the tables `provisioning_jobs` and `provisioning_tasks`.
-- The blob `resolved_disk` is kept as the choice that it is printed from.
use clusterone.Prelude.{
  Bool, List, Option, String, [], count, eqb, find, if◌then◌else◌, map, none, not, or_else, select,
  some, suc, ℕ, ◌++◌, ◌==◌, ◌||◌, ◌∷◌,
}
use clusterone.Jobs.{max_id}
use clusterone.Provision.{Choice}

pub record ProvisioningJob : Type 0 where
  pub id : ℕ
  pub created_at : String
  pub created_by : String
  pub iso_id : ℕ
  pub os_profile_id : Option ℕ
  pub disk_profile_id : Option ℕ
  pub concurrency : ℕ
  pub state : String
  pub total : ℕ
  pub succeeded : ℕ
  pub failed : ℕ
  pub confirm_token : String

pub record ProvisioningTask : Type 0 where
  pub id : ℕ
  pub job_id : ℕ
  pub server_id : Option ℕ
  pub resolved_disk : Option Choice
  pub state : String
  pub progress : ℕ
  pub message : Option String
  pub rendered_cfg_sha : Option String
  pub started_at : String
  pub finished_at : Option String

pub record ProvisioningRepo : Type 0 where
  pub jobs : List ProvisioningJob
  pub tasks : List ProvisioningTask

-- What `create_job` is given.
pub record JobOrder : Type 0 where
  pub iso_id : ℕ
  pub os_profile_id : Option ℕ
  pub disk_profile_id : Option ℕ
  pub concurrency : ℕ
  pub confirm_token : String

unfoldable pub create_provisioning_job : JobOrder → String → ProvisioningRepo → ℕ × ProvisioningRepo
create_provisioning_job o now r =
    let id = suc (max_id (map (λ (j : ProvisioningJob). j.id) r.jobs)) in
    let row : ProvisioningJob = record {
      id = id;
      created_at = now;
      created_by = "user";
      iso_id = o.iso_id;
      os_profile_id = o.os_profile_id;
      disk_profile_id = o.disk_profile_id;
      concurrency = o.concurrency;
      state = "pending";
      total = 0;
      succeeded = 0;
      failed = 0;
      confirm_token = o.confirm_token;
    } in
    (id, record r { jobs = r.jobs ++ row ∷ [] })

abbrev pub new_provisioning_task :
    (id job_id server_id : ℕ) → Option Choice → String → ProvisioningTask
new_provisioning_task id job_id server_id resolved_disk now = record {
  id = id;
  job_id = job_id;
  server_id = some server_id;
  resolved_disk = resolved_disk;
  state = "queued";
  progress = 0;
  message = none;
  rendered_cfg_sha = none;
  started_at = now;
  finished_at = none;
}

unfoldable pub create_provisioning_task :
    ℕ → ℕ → Option Choice → String → ProvisioningRepo → ℕ × ProvisioningRepo
create_provisioning_task job_id server_id resolved_disk now r =
    let id = suc (max_id (map (λ (t : ProvisioningTask). t.id) r.tasks)) in
    (
      id,
      record r {
        tasks = r.tasks ++ new_provisioning_task id job_id server_id resolved_disk now ∷ [];
      },
    )

-- `UPDATE … WHERE id=?`
abbrev pub at_provisioning_job :
    ℕ → (ProvisioningJob → ProvisioningJob) → ProvisioningRepo → ProvisioningRepo
at_provisioning_job id f r = record r {
  jobs = map (λ (j : ProvisioningJob). if eqb j.id id then f j else j) r.jobs;
}

abbrev pub at_provisioning_task :
    ℕ → (ProvisioningTask → ProvisioningTask) → ProvisioningRepo → ProvisioningRepo
at_provisioning_task id f r = record r {
  tasks = map (λ (t : ProvisioningTask). if eqb t.id id then f t else t) r.tasks;
}

-- `update_job_state`, whose counters may be left as they are.
unfoldable pub update_provisioning_job :
    ℕ → String → (total succeeded failed : Option ℕ) → ProvisioningRepo → ProvisioningRepo
update_provisioning_job id state total succeeded failed r =
    at_provisioning_job id
      (λ j. record j {
        state = state;
        total = or_else total j.total;
        succeeded = or_else succeeded j.succeeded;
        failed = or_else failed j.failed;
      })
      r

abbrev pub is_terminal : String → Bool
is_terminal s = s == "completed" || s == "failed" || s == "cancelled"

-- `update_task` with a state, as every caller gives one. A progress that is not given is 100 for a
-- completed task; the columns are those that may be updated.
unfoldable pub update_provisioning_task :
    ℕ → String → Option ℕ → Option String → String → ProvisioningRepo → ProvisioningRepo
update_provisioning_task id state progress message now r =
    at_provisioning_task id
      (λ t. record t {
        state = state;
        progress = or_else progress (if state == "completed" then 100 else t.progress);
        message = elim message [ none ↦ t.message | some m ↦ some m ];
        finished_at = if is_terminal state then some now else t.finished_at;
      })
      r

unfoldable pub get_provisioning_job : ℕ → ProvisioningRepo → Option ProvisioningJob
get_provisioning_job id r = find (λ (j : ProvisioningJob). eqb j.id id) r.jobs

unfoldable pub get_provisioning_task : ℕ → ProvisioningRepo → Option ProvisioningTask
get_provisioning_task id r = find (λ (t : ProvisioningTask). eqb t.id id) r.tasks

-- The sweep of a restart.
unfoldable pub list_stranded_tasks : ProvisioningRepo → List ProvisioningTask
list_stranded_tasks r = select (λ (t : ProvisioningTask). not (is_terminal t.state)) r.tasks

unfoldable pub fail_stranded_tasks : String → String → ProvisioningRepo → ℕ × ProvisioningRepo
fail_stranded_tasks message now r = (
  count (λ (t : ProvisioningTask). not (is_terminal t.state)) r.tasks,
  record r {
    tasks =
        map
          (λ (t : ProvisioningTask).
            if is_terminal t.state
            then t
            else record t { state = "failed"; finished_at = some now; message = some message })
          r.tasks;
  },
)

abbrev pub is_under_way : String → Bool
is_under_way s = s == "pending" || s == "running"

unfoldable pub fail_stranded_jobs : ProvisioningRepo → ℕ × ProvisioningRepo
fail_stranded_jobs r = (
  count (λ (j : ProvisioningJob). is_under_way j.state) r.jobs,
  record r {
    jobs =
        map
          (λ (j : ProvisioningJob).
            if is_under_way j.state then record j { state = "failed" } else j)
          r.jobs;
  },
)
