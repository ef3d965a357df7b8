-- ===== src/Jobs/Queries.antt =====
-- The lookups of `JobsRepo`, and the operations that settle many rows or a job.
use clusterone.Prelude.{
  Bool, List, Option, String, [], any, contains, count, eqb, find, has_number, if◌then◌else◌,
  length, map, none, not, select, some, take, ℕ, ◌&&◌, ◌==◌, ◌∷◌,
}
use mathlib.Core.List.{reverse}
use clusterone.Prelude
use clusterone.Jobs.Tables.{JobRow, JobsRepo, TaskRow, is_finished, update_job_state}

unfoldable pub get_job : ℕ → JobsRepo → Option JobRow
get_job id r = find (λ (j : JobRow). eqb j.id id) r.jobs

unfoldable pub get_task : ℕ → JobsRepo → Option TaskRow
get_task id r = find (λ (t : TaskRow). eqb t.id id) r.tasks

-- Rows are kept in the order of their ids.
unfoldable pub list_jobs : ℕ → JobsRepo → List JobRow
list_jobs limit r = Prelude.take limit (reverse r.jobs)

unfoldable pub list_tasks : ℕ → JobsRepo → List TaskRow
list_tasks job_id r = select (λ (t : TaskRow). eqb t.job_id job_id) r.tasks

abbrev pub is_open_job : String → Bool
is_open_job s = contains s ("pending" ∷ "running" ∷ [])

unfoldable pub latest_running_job : JobsRepo → Option JobRow
latest_running_job r = find (λ (j : JobRow). is_open_job j.state) (reverse r.jobs)

abbrev pub open_task_states : List String
open_task_states = "queued" ∷ "precheck" ∷ "uploading" ∷ "flashing" ∷ "rebooting" ∷ "verifying" ∷ []

unfoldable pub list_non_terminal_tasks : JobsRepo → List TaskRow
list_non_terminal_tasks r = select (λ (t : TaskRow). contains t.state open_task_states) r.tasks

abbrev pub fail_row : JobRow → JobRow
fail_row j = record j { state = "failed" }

-- The number of rows that the UPDATE meets, and the table behind it.
unfoldable pub fail_non_terminal_jobs : JobsRepo → ℕ × JobsRepo
fail_non_terminal_jobs r = (
  count (λ (j : JobRow). is_open_job j.state) r.jobs,
  record r { jobs = map (λ (j : JobRow). if is_open_job j.state then fail_row j else j) r.jobs },
)

abbrev pub is_stale : List ℕ → JobRow → Bool
is_stale keep j = is_open_job j.state && not (has_number j.id keep)

unfoldable pub fail_non_terminal_jobs_except : List ℕ → JobsRepo → ℕ × JobsRepo
unfolding fail_non_terminal_jobs
fail_non_terminal_jobs_except [] r = fail_non_terminal_jobs r
fail_non_terminal_jobs_except (k ∷ keep) r = (
  count (is_stale (k ∷ keep)) r.jobs,
  record r { jobs = map (λ (j : JobRow). if is_stale (k ∷ keep) j then fail_row j else j) r.jobs },
)

pub record Summary : Type 0 where
  pub state : String
  pub total : ℕ
  pub succeeded : ℕ
  pub failed : ℕ

unfoldable pub final_state : ℕ → ℕ → String
final_state succeeded failed =
    if eqb failed 0
    then "completed"
    else if eqb succeeded 0
    then "failed"
    else "completed_with_errors"

unfoldable pub summarise : List String → Summary
unfolding final_state
summarise states =
    let succeeded = count (λ s. s == "completed") states in
    let failed = count (λ s. s == "failed") states in
    record {
      state =
          if any (λ s. not (is_finished s)) states then "running" else final_state succeeded failed;
      total = length states;
      succeeded = succeeded;
      failed = failed;
    }

abbrev pub save_summary : ℕ → Summary → JobsRepo → JobsRepo
save_summary job_id s =
    update_job_state job_id s.state
      (record { total = some s.total; succeeded = some s.succeeded; failed = some s.failed })

-- A job with no task is left alone, and `none` is returned.
unfoldable pub finalize_job_from_tasks : ℕ → JobsRepo → Option Summary × JobsRepo
unfolding summarise list_tasks
finalize_job_from_tasks job_id r = elim (map (λ (t : TaskRow). t.state) (list_tasks job_id r)) [
  | [] ↦ (none, r)
  | s ∷ states ↦
      let summary = summarise (s ∷ states) in (some summary, save_summary job_id summary r)
]
