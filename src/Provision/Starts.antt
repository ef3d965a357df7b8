-- ===== src/Provision/Starts.antt =====
-- What `start_job` of core/services/provisioning_orchestrator.py hands to the event loop.
use mathlib.Core.List.{append-nil, append_assoc}
use mathlib.Core.Path.{Path}
use clusterone.Prelude.{
  Bool-cases, List, Option, String, [], ap, eqb, inl, inr, length, map, max, min, none, refl, some,
  suc, sym, ℕ, ◌++◌, ◌+◌, ◌∙◌, ◌∷◌, ◌≡◌,
}
use clusterone.Exec.{lift, ok}
use clusterone.Models.{Drive}
use clusterone.Jobs.{max_id}
use clusterone.Servers.{ServerRow}
use clusterone.Provision.{PreviewRow}
use clusterone.Provision.Tables.{
  ProvisioningTask, create_provisioning_job, create_provisioning_task, new_provisioning_task,
  update_provisioning_job,
}
use clusterone.Provision.Yard.{IsoRow}
use clusterone.Disks.Sizes.{Floats}
use clusterone.Exec.Triples.{After, After-Reads, After-bind, Reads-result, returns}
use clusterone.Provision.Jobs.{
  Desk, InstallOrder, create_install_tasks, job_order, order_preview, start_chosen, start_install,
  start_known,
}

-- A queued task for each row of a preview, with the choice that the row shows.
pub data Frozen (job : ℕ) : List PreviewRow → List ProvisioningTask → Type 0 where
  nothing : Frozen job [] []
  task_of :
      (p : PreviewRow) (t : ProvisioningTask) {ps : List PreviewRow} {ts : List ProvisioningTask}
      → t.job_id ≡ job
      → t.server_id ≡ some p.server_id
      → t.resolved_disk ≡ some p.resolution
      → Path String t.state "queued"
      → Frozen job ps ts
      → Frozen job (p ∷ ps) (t ∷ ts)

abbrev task_numbers : List ProvisioningTask → List ℕ
task_numbers ts = map (λ (t : ProvisioningTask). t.id) ts

-- The rows that a preview adds.
record Added (job : ℕ) (ps : List PreviewRow) (d : Desk) (ids : List ℕ) (e : Desk) : Type 0 where
  fresh : List ProvisioningTask
  frozen : Frozen job ps fresh
  numbers : ids ≡ task_numbers fresh
  tasks : e.repo.tasks ≡ d.repo.tasks ++ fresh
  same : e.submitted ≡ d.submitted

row-Added :
    (job : ℕ) (p : PreviewRow) (ps : List PreviewRow) (d : Desk) (row : ProvisioningTask)
    (ids : List ℕ) (e : Desk)
    → row.job_id ≡ job
    → row.server_id ≡ some p.server_id
    → row.resolved_disk ≡ some p.resolution
    → Path String row.state "queued"
    → Added job ps
        (record d {
          repo = record d.repo { tasks = d.repo.tasks ++ row ∷ [] };
          reads = d.reads + 1;
        })
        ids
        e
    → Added job (p ∷ ps) d (row.id ∷ ids) e
row-Added job p ps d row ids e j s r q x = record {
  fresh = row ∷ x.fresh;
  frozen = task_of p row j s r q x.frozen;
  numbers = ap (λ xs. row.id ∷ xs) x.numbers;
  tasks = x.tasks ∙ append_assoc d.repo.tasks (row ∷ []) x.fresh;
  same = x.same;
}

create_install_tasks-Added :
    (job : ℕ) (ps : List PreviewRow) (d : Desk)
    → After (Added job ps d) (λ _ _. ⊥) (create_install_tasks job ps d)
unfolding create_install_tasks create_provisioning_task
create_install_tasks-Added job [] d = returns [] d (record {
  fresh = [];
  frozen = nothing;
  numbers = refl;
  tasks = sym (append-nil d.repo.tasks);
  same = refl;
})
create_install_tasks-Added job (p ∷ ps) d =
    let row =
      new_provisioning_task (suc (max_id (task_numbers d.repo.tasks))) job p.server_id
        (some p.resolution) (d.clock d.reads) in
    After-bind (create_install_tasks job ps) _ _ (create_install_tasks-Added job ps _) (λ _ _ k. k)
      (λ ids e x. returns (row.id ∷ ids) e (row-Added job p ps d row ids e refl refl refl refl x))

-- How `start_job` ends when it returns.
pub data Started {Float : Type 0} (floats : Floats Float) (drives_of : ServerRow → List Drive)
    (o : InstallOrder) (d : Desk) : Option ℕ → Desk → Type 0 where
  declined :
      (e : Desk) → e.repo ≡ d.repo → e.submitted ≡ d.submitted → Started floats drives_of o d none e
  started :
      (job : ℕ) (rows : List PreviewRow) (fresh : List ProvisioningTask) (e : Desk)
      → order_preview floats drives_of o d.servers ≡ ok rows
      → Frozen job rows fresh
      → e.repo.tasks ≡ d.repo.tasks ++ fresh
      → e.submitted ≡ d.submitted ++ (job, task_numbers fresh, max 1 (min 32 o.concurrency)) ∷ []
      → Started floats drives_of o d (some job) e

-- An exception leaves no task and nothing to run.
abbrev pub Unstarted : Desk → Desk → Type 0
Unstarted d e = (e.repo.tasks ≡ d.repo.tasks) × (e.submitted ≡ d.submitted)

start_known-Started :
    {Float : Type 0} (floats : Floats Float) (drives_of : ServerRow → List Drive) (iso : IsoRow)
    (o : InstallOrder) (d : Desk)
    → After (Started floats drives_of o d) (λ _. Unstarted d) (start_known floats drives_of iso o d)
unfolding start_known create_provisioning_job update_provisioning_job
start_known-Started floats drives_of iso o d =
    let (job, repo) = create_provisioning_job (job_order o) (d.clock d.reads) d.repo in
    let opened : Desk = record d { repo = repo; reads = d.reads + 1 } in
    let limit = max 1 (min 32 o.concurrency) in
    After-Reads (lift (order_preview floats drives_of o d.servers)) _ opened
      (Reads-result (order_preview floats drives_of o d.servers) opened (λ rows q. q))
      (λ _. (refl, refl))
      (λ rows q.
        After-bind (create_install_tasks job rows) _ opened
          (create_install_tasks-Added job rows opened) (λ _ _ k. absurd k)
          (λ ids e x. returns (some job) _ (
            started job rows x.fresh _ q x.frozen x.tasks (
              ap (λ xs. xs ++ (job, ids, limit) ∷ []) x.same
              ∙ ap (λ ns. d.submitted ++ (job, ns, limit) ∷ []) x.numbers))))

start_chosen-Started :
    {Float : Type 0} (floats : Floats Float) (drives_of : ServerRow → List Drive)
    (iso : Option IsoRow) (o : InstallOrder) (d : Desk)
    → After
        (Started floats drives_of o d)
        (λ _. Unstarted d)
        (start_chosen floats drives_of iso o d)
unfolding start_chosen
start_chosen-Started floats drives_of none o d = returns none _ (declined _ refl refl)
start_chosen-Started floats drives_of (some iso) o d = start_known-Started floats drives_of iso o d

-- A job of installs: when `start_job` returns an id, it has added a queued task for each row of the
-- preview, in its order, for the row's server and with the row's choice, and has handed just these
-- tasks to the event loop, under a concurrency between 1 and 32; without an id it leaves the tables
-- as they are, and when it raises it has added no task and handed over nothing.
pub start_install-Started :
    {Float : Type 0} (floats : Floats Float) (drives_of : ServerRow → List Drive)
    (iso : Option IsoRow) (o : InstallOrder) (d : Desk)
    → After
        (Started floats drives_of o d)
        (λ _. Unstarted d)
        (start_install floats drives_of iso o d)
unfolding start_install
start_install-Started floats drives_of iso o d = elim (Bool-cases (eqb (length o.server_ids) 0)) [
  | inl e ↦ rw e (returns none _ (declined _ refl refl))
  | inr e ↦ rw e (start_chosen-Started floats drives_of iso o d)
]
