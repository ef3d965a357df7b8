-- ===== src/Update/Resume.antt =====
-- `resume_interrupted`: what a restart does with the tasks that it finds open.
pub mod Sweep
use clusterone.Prelude.{
  Bool, List, String, [], eqb, has_number, if◌then◌else◌, length, ltb, map, not, print_nat, select,
  suc, zero, ℕ, ◌+◌, ◌<>◌, ◌∷◌,
}
use clusterone.Jobs.{
  JobsRepo, TaskRow, TaskUpdate, fail_non_terminal_jobs_except, finalize_job_from_tasks,
  list_non_terminal_tasks,
}
use clusterone.Update.{World, log, present, write_task}
use clusterone.Update.Poll.{failed_at}

-- `sorted(set(xs))`
unfoldable pub insert_once : ℕ → List ℕ → List ℕ
insert_once n [] = n ∷ []
insert_once n (x ∷ xs) =
    let rest = insert_once n xs in
    if ltb n x then n ∷ x ∷ xs else if eqb n x then x ∷ xs else x ∷ rest

unfoldable pub sorted_set : List ℕ → List ℕ
unfolding insert_once
sorted_set [] = []
sorted_set (x ∷ xs) = insert_once x (sorted_set xs)

abbrev pub job_ids : List TaskRow → List ℕ
job_ids ts = sorted_set (map (λ (t : TaskRow). t.job_id) ts)

abbrev pub has_uri : TaskRow → Bool
has_uri t = present t.redfish_task

abbrev pub lost_update : TaskUpdate
lost_update = failed_at 0 "App was restarted; task has no Task URI to resume — please re-run."

unfoldable pub fail_lost : List TaskRow → World → World
fail_lost [] w = w
fail_lost (t ∷ ts) w = fail_lost ts (write_task t.id lost_update w)

unfoldable pub finalize_all : List ℕ → JobsRepo → JobsRepo
finalize_all [] r = r
finalize_all (i ∷ is) r = finalize_all is (finalize_job_from_tasks i r).1

-- A line about some tasks; none is logged about no task.
abbrev pub log_count : String → String → ℕ → String → World → World
log_count level before zero after w = w
log_count level before (suc n) after w = log level (before <> print_nat (suc n) <> after) w

-- The tasks that get a coroutine `_resume_one_task`, and the count that is returned. A set is
-- iterated in the order of its numbers.
unfoldable pub resume_interrupted : World → List TaskRow × ℕ × World
unfolding fail_lost finalize_all
resume_interrupted w =
    let tasks = list_non_terminal_tasks w.jobs in
    let lost = select (λ t. not (has_uri t)) tasks in
    let w₁ =
      log_count "warning" "" (length lost)
        " task(s) without saved Task URI marked failed on startup" (fail_lost lost w) in
    let resumable = select has_uri tasks in
    let settled = select (λ i. not (has_number i (job_ids resumable))) (job_ids tasks) in
    let w₂ = record w₁ {
      jobs = (fail_non_terminal_jobs_except (job_ids resumable) (finalize_all settled w₁.jobs)).1;
    } in
    (
      resumable,
      length lost + length resumable,
      log_count "info" "Resuming " (length resumable) " task(s) from saved Task URIs on startup" w₂,
    )
