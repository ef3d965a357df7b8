-- ===== src/Jobs/Rows.antt =====
-- What `update_task` and `update_job_state` write, row by row.
use clusterone.Prelude.{
  Bool, List, Option, String, [], ap, arith, eqb, false, fun_ext, if◌then◌else◌, map, none, or_else,
  refl, some, sym, true, ℕ, ◌==◌, ◌∷◌, ◌≡◌,
}
use clusterone.Jobs.Tables.{
  JobRow, JobUpdate, JobsRepo, Pairs, TaskRow, TaskUpdate, assign_job, assign_task, at_job, at_task,
  is_finished, job_pairs, job_update_cols, safe_set_clauses, task_pairs, task_update_cols,
  update_by, update_job_state, update_task,
}

abbrev pub keep_old {ℓ} : {A : Type ℓ} → Option A → Option A → Option A
keep_old none old = old
keep_old (some a) old = some a

abbrev completes : Option String → Bool
completes none = false
completes (some s) = s == "completed"

abbrev finishes : Option String → Bool
finishes none = false
finishes (some s) = is_finished s

-- The row behind an update, by field.
abbrev pub written : TaskUpdate → String → TaskRow → TaskRow
written u now t = record t {
  state = or_else u.state t.state;
  progress = or_else u.progress (if completes u.state then 100 else t.progress);
  message = keep_old u.message t.message;
  version_after = keep_old u.version_after t.version_after;
  redfish_task = keep_old u.redfish_task t.redfish_task;
  finished_at = if finishes u.state then some now else t.finished_at;
}

safe-task_pairs :
    (u : TaskUpdate) (now : String)
    → safe_set_clauses (task_pairs u now) task_update_cols ≡ some (task_pairs u now)
unfolding safe_set_clauses update_task
safe-task_pairs u now = ground arith

assign-task_pairs :
    (u : TaskUpdate) (now : String) (t : TaskRow)
    → assign_task (task_pairs u now) t ≡ written u now t
unfolding update_task
assign-task_pairs u now t = ground arith

-- A map that changes nothing.
pub map_id_of {ℓ} : {A : Type ℓ} (f : A → A) → ((a : A) → f a ≡ a) → (xs : List A) → map f xs ≡ xs
map_id_of f h [] = refl
map_id_of f h (x ∷ xs) = cc (h x, map_id_of f h xs)

pub if_same {ℓ} : {A : Type ℓ} {x y : A} (b : Bool) → y ≡ x → (if b then x else y) ≡ y
if_same true h = sym h
if_same false h = refl

at_task_same :
    (id : ℕ) (f : TaskRow → TaskRow) (r : JobsRepo) → ((t : TaskRow) → t ≡ f t) → r ≡ at_task id f r
at_task_same id f r h =
    ap (λ (ts : List TaskRow). record r { tasks = ts })
      (sym (map_id_of _ (λ t. if_same (eqb t.id id) (h t)) r.tasks))

update_by_pairs :
    (id : ℕ) (u : TaskUpdate) (now : String) (r : JobsRepo) (ps : Pairs)
    → task_pairs u now ≡ ps
    → update_by ps id r ≡ at_task id (written u now) r
unfolding update_by
update_by_pairs id u now r [] e =
    at_task_same id (written u now) r (λ t. rw e at (assign-task_pairs u now t))
update_by_pairs id u now r (p ∷ ps) e =
    rw (update_by, rw e at (safe-task_pairs u now))
      (ap (λ (f : TaskRow → TaskRow). at_task id f r)
        (fun_ext (λ t. rw e at (assign-task_pairs u now t))))

-- An update writes the row of its id and no other: each column that an argument names, progress 100
-- at a completion that names none, and the time at which the task ends.
pub update_task_lem :
    (id : ℕ) (u : TaskUpdate) (now : String) (r : JobsRepo)
    → update_task id u now r ≡ at_task id (written u now) r
unfolding update_task
update_task_lem id u now r = update_by_pairs id u now r (task_pairs u now) refl

-- The row of a job behind an update, by field.
abbrev pub job_written : String → JobUpdate → JobRow → JobRow
job_written state u j = record j {
  state = state;
  total = or_else u.total j.total;
  succeeded = or_else u.succeeded j.succeeded;
  failed = or_else u.failed j.failed;
}

safe-job_pairs :
    (state : String) (u : JobUpdate)
    → safe_set_clauses (job_pairs state u) job_update_cols ≡ some (job_pairs state u)
unfolding safe_set_clauses
safe-job_pairs state u = ground arith

assign-job_pairs :
    (state : String) (u : JobUpdate) (j : JobRow)
    → assign_job (job_pairs state u) j ≡ job_written state u j
unfolding update_job_state
assign-job_pairs state u j = ground arith

pub update_job_state_lem :
    (id : ℕ) (state : String) (u : JobUpdate) (r : JobsRepo)
    → update_job_state id state u r ≡ at_job id (job_written state u) r
unfolding update_job_state
update_job_state_lem id state u r =
    rw (update_job_state, safe-job_pairs state u) (rw (fun_ext (assign-job_pairs state u)))
