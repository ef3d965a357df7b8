-- ===== src/Update/Task/Settled.antt =====
-- How the row of a task ends.
use mathlib.Core.Path.{subst}
use clusterone.Prelude.{
  Bool, Option, String, arith, false, if◌then◌else◌, is_some, none, refl, some, sym, true, ℕ, ◌∙◌,
  ◌≡◌,
}
use clusterone.Exec.{Result, cancelled, err, ok, raised}
use clusterone.Models.{Credentials}
use clusterone.Jobs.{JobsRepo, TaskRow, TaskUpdate, get_task, update_task}
use clusterone.Jobs.Rows.{written}
use clusterone.Firmwares.{FirmwareRow}
use clusterone.Update.{Env, World, progress, reporting, write_task}
use clusterone.Update.Task.{completed_with, completing, failing, real_task, run_task, settle}
use clusterone.Update.Task.Writes.{
  IsOwn, IsOwn-trans, eqb_self, get_task-update_task, progress-Keeps, real_task-Keeps,
  update_task-IsOwn,
}
use clusterone.Update.Task.Refresh.{jobs-refresh_of}

module _ (id : ℕ) where
  -- The row of the task behind its end.
  pub record IsEnded (b : Bool) (r : JobsRepo) : Type 0 where
    pub row : TaskRow
    pub found : get_task id r ≡ some row
    pub state : row.state ≡ (if b then "completed" else "failed")
    pub progress : row.progress ≡ (if b then 100 else 0)
    pub finished : is_some row.finished_at ≡ true

  found_update :
      (u : TaskUpdate) (now : String) (r : JobsRepo) (t : TaskRow)
      → get_task id r ≡ some t
      → get_task id (update_task id u now r) ≡ some (written u now t)
  found_update u now r t e = get_task-update_task id id u now r ∙ rw (eqb_self id, e)

  fail-IsEnded :
      (message : String) (w : World) (t : TaskRow)
      → get_task id w.jobs ≡ some t
      → IsEnded false (progress id (failing message) w).jobs
  unfolding progress
  fail-IsEnded message w t e = record {
    row = written (reporting (failing message)) (w.clock w.reads) t;
    found = found_update (reporting (failing message)) (w.clock w.reads) w.jobs t e;
    state = refl;
    progress = refl;
    finished = refl;
  }

  abbrev done_world : Option String → World → World
  done_world version w = write_task id (completed_with version) (progress id completing w)

  done-IsEnded :
      (version : Option String) (w : World) (t : TaskRow)
      → get_task id w.jobs ≡ some t
      → IsEnded true (done_world version w).jobs
  unfolding progress
  done-IsEnded version w t e =
      let w₁ = progress id completing w in
      let t₁ = written (reporting completing) (w.clock w.reads) t in
      record {
        row = written (completed_with version) (w₁.clock w₁.reads) t₁;
        found =
            found_update (completed_with version) (w₁.clock w₁.reads) w₁.jobs t₁
              (found_update (reporting completing) (w.clock w.reads) w.jobs t e);
        state = refl;
        progress = refl;
        finished = refl;
      }

  settle-IsEnded :
      (f : FirmwareRow) (x : Result (Option String)) (w : World) (t : TaskRow)
      → get_task id w.jobs ≡ some t
      → IsEnded (settle id f x w).0 (settle id f x w).1.jobs
  unfolding settle
  settle-IsEnded f (ok version) w t e =
      subst (IsEnded true)
        (sym (
          jobs-refresh_of (get_task id (done_world version w).jobs) f version
            (done_world version w)))
        (done-IsEnded version w t e)
  settle-IsEnded f (err cancelled) w t e = fail-IsEnded "Cancelled" w t e
  settle-IsEnded f (err (raised class message)) w t e = fail-IsEnded message w t e

  settle-IsOwn :
      (f : FirmwareRow) (x : Result (Option String)) (w : World)
      → IsOwn id w.jobs (settle id f x w).1.jobs
  unfolding settle progress
  settle-IsOwn f (ok version) w =
      subst (IsOwn id w.jobs)
        (sym (
          jobs-refresh_of (get_task id (done_world version w).jobs) f version
            (done_world version w)))
        (IsOwn-trans id w.jobs (progress id completing w).jobs _ (progress-Keeps id completing w)
          (update_task-IsOwn id (completed_with version) _ (progress id completing w).jobs))
  settle-IsOwn f (err cancelled) w = progress-Keeps id (failing "Cancelled") w
  settle-IsOwn f (err (raised class message)) w = progress-Keeps id (failing message) w

kept_row :
    (o p : Option TaskRow) (t : TaskRow)
    → is_some o ≡ is_some p
    → p ≡ some t
    → (u : TaskRow) × (o ≡ some u)
kept_row none p t h e = absurd (ground arith)
kept_row (some u) p t h e = (u, refl)

-- Whatever a task meets, its plugin and its BMC included, its row ends completed at 100 if
-- `_run_task` returns True and failed at 0 if it returns False, with a time; the rows of the other
-- tasks and the jobs are as they were.
pub run_task-IsEnded :
    (env : Env) (id : ℕ) (f : FirmwareRow) (ui : Credentials) (apply_now : Bool) (w : World)
    (t : TaskRow)
    → get_task id w.jobs ≡ some t
    → IsEnded id (run_task env id f ui apply_now w).0 (run_task env id f ui apply_now w).1.jobs
      × IsOwn id w.jobs (run_task env id f ui apply_now w).1.jobs
unfolding run_task
run_task-IsEnded env id f ui apply_now w t e =
    let r = real_task env id f ui apply_now w in
    let own = real_task-Keeps id env f ui apply_now w in
    let (u, found) = kept_row (get_task id r.1.jobs) (get_task id w.jobs) t own.there e in
    (
      settle-IsEnded id f r.0 r.1 u found,
      IsOwn-trans id w.jobs r.1.jobs _ own (settle-IsOwn id f r.0 r.1),
    )
