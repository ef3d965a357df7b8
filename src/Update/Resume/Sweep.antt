-- ===== src/Update/Resume/Sweep.antt =====
-- What a restart leaves open.
use mathlib.Core.Path.{subst}
use clusterone.Prelude.{
  All, All-map, Bool, Bool-cases, List, String, [], ap, arith, contains, eqb, false, has_number,
  if◌then◌else◌, inl, inr, length, map, not, refl, select, suc, sym, true, zero, ℕ, ◌&&◌, ◌∙◌, ◌∷◌,
  ◌≡◌, ◌⊎◌,
}
use clusterone.Jobs.{
  JobsRepo, TaskRow, fail_non_terminal_jobs_except, finalize_job_from_tasks,
  list_non_terminal_tasks, open_task_states,
}
use clusterone.Jobs.Rows.{update_task_lem, written}
use clusterone.Jobs.Finalize.{finalize_writes, states_of}
use clusterone.Jobs.Sweep.{IsSettled, sweep_settles, sweep_spares}
use clusterone.Update.{World, present, write_task}
use clusterone.Update.Resume.{
  fail_lost, finalize_all, has_uri, job_ids, log_count, lost_update, resume_interrupted,
}

-- Open and without a URI to ask
abbrev is_lost : TaskRow → Bool
is_lost t = contains t.state open_task_states && not (has_uri t)

lost_written : (now : String) (t : TaskRow) → is_lost (written lost_update now t) ≡ false
lost_written now t = refl

abbrev Pending : List ℕ → List TaskRow → Type 0
Pending ids rows = All (λ (t : TaskRow). is_lost t ≡ true → has_number t.id ids ≡ true) rows

Pending-step :
    (i : ℕ) (ids : List ℕ) (now : String) (rows : List TaskRow)
    → Pending (i ∷ ids) rows
    → Pending ids (map (λ (t : TaskRow). if eqb t.id i then written lost_update now t else t) rows)
Pending-step i ids now [] h = tt
Pending-step i ids now (t ∷ rows) h = elim (Bool-cases (eqb t.id i)) [
  | inl same ↦ rw same ((λ lost. absurd (ground arith)), Pending-step i ids now rows h.1)
  | inr other ↦ rw other ((λ lost. ground (arith, h.0 lost)), Pending-step i ids now rows h.1)
]

fail_lost-Pending :
    (ts : List TaskRow) (w : World)
    → Pending (map (λ (t : TaskRow). t.id) ts) w.jobs.tasks
    → Pending [] (fail_lost ts w).jobs.tasks
unfolding fail_lost
fail_lost-Pending [] w h = h
fail_lost-Pending (t ∷ ts) w h = fail_lost-Pending ts (write_task t.id lost_update w) (
    rw update_task_lem
      (Pending-step t.id (map (λ (u : TaskRow). u.id) ts) (w.clock w.reads) w.jobs.tasks h))

abbrev ids_of : List TaskRow → List ℕ
ids_of ts = map (λ (t : TaskRow). t.id) ts

abbrev lost_of : List TaskRow → List TaskRow
lost_of rows =
    select (λ t. not (has_uri t)) (select (λ (t : TaskRow). contains t.state open_task_states) rows)

Pending-more :
    (i : ℕ) (ids : List ℕ) (rows : List TaskRow) → Pending ids rows → Pending (i ∷ ids) rows
Pending-more i ids rows h = All-map rows h (λ t k lost. ground (arith, k lost))

lost_cons :
    (t : TaskRow) (rows : List TaskRow)
    → ((is_lost t ≡ true) × (lost_of (t ∷ rows) ≡ t ∷ lost_of rows))
      ⊎ ((is_lost t ≡ false) × (lost_of (t ∷ rows) ≡ lost_of rows))
lost_cons t rows = elim (Bool-cases (contains t.state open_task_states)) [
  | inr shut ↦ inr (rw shut, rw shut)
  | inl open_task ↦ elim (Bool-cases (has_uri t)) [
    | inl uri ↦ inr (rw (open_task, uri), rw (open_task, uri))
    | inr none_saved ↦ inl (rw (open_task, none_saved), rw (open_task, none_saved))
  ]
]

lost-Pending : (rows : List TaskRow) → Pending (ids_of (lost_of rows)) rows
lost-Pending [] = tt
lost-Pending (t ∷ rows) = elim (lost_cons t rows) [
  | inl (lost, e) ↦
      subst (λ ls. Pending (ids_of ls) (t ∷ rows)) (sym e)
        ((λ _. ground arith), Pending-more t.id (ids_of (lost_of rows)) rows (lost-Pending rows))
  | inr (kept, e) ↦
      subst (λ ls. Pending (ids_of ls) (t ∷ rows)) (sym e)
        ((λ lost. absurd (ground (arith, sym lost ∙ kept))), lost-Pending rows)
]

finalize-tasks :
    (i : ℕ) (r : JobsRepo) (states : List String)
    → states_of i r ≡ states
    → (finalize_job_from_tasks i r).1.tasks ≡ r.tasks
unfolding finalize_job_from_tasks
finalize-tasks i r [] e = rw (e, finalize_job_from_tasks)
finalize-tasks i r (s ∷ states) e =
    rw (finalize_writes i r (λ none_there. absurd (ground (arith, sym e ∙ none_there))))

finalize_all-tasks : (is : List ℕ) (r : JobsRepo) → (finalize_all is r).tasks ≡ r.tasks
unfolding finalize_all
finalize_all-tasks [] r = refl
finalize_all-tasks (i ∷ is) r =
    finalize_all-tasks is (finalize_job_from_tasks i r).1 ∙ finalize-tasks i r (states_of i r) refl

jobs-log_count :
    (level before : String) (n : ℕ) (after : String) (w : World)
    → (log_count level before n after w).jobs ≡ w.jobs
jobs-log_count level before zero after w = refl
jobs-log_count level before (suc n) after w = refl

abbrev pub sent_on : World → List TaskRow
sent_on w = (resume_interrupted w).0

abbrev pub left : World → JobsRepo
left w = (resume_interrupted w).2.jobs

-- A restart leaves no task open that has no URI to ask, and no job pending or running but those
-- of the tasks that it polls.
pub resume_interrupted-settles :
    (w : World)
    → All
        (λ (t : TaskRow). contains t.state open_task_states ≡ true → present t.redfish_task ≡ true)
        (left w).tasks
      × All (IsSettled (job_ids (sent_on w))) (left w).jobs
unfolding resume_interrupted list_non_terminal_tasks
resume_interrupted-settles w =
    let lost = lost_of w.jobs.tasks in
    let w₁ =
      log_count "warning" "" (length lost)
        " task(s) without saved Task URI marked failed on startup" (fail_lost lost w) in
    let keep = job_ids (sent_on w) in
    let settled =
      select (λ i. not (has_number i keep)) (job_ids (list_non_terminal_tasks w.jobs)) in
    let swept = (fail_non_terminal_jobs_except keep (finalize_all settled w₁.jobs)).1 in
    let same : left w ≡ swept =
      jobs-log_count "info" "Resuming " (length (sent_on w))
        " task(s) from saved Task URIs on startup" _ in
    let tasks_same : swept.tasks ≡ (fail_lost lost w).jobs.tasks =
      (sweep_spares keep (finalize_all settled w₁.jobs)).0
      ∙ finalize_all-tasks settled w₁.jobs
      ∙ ap (λ (r : JobsRepo). r.tasks)
          (jobs-log_count "warning" "" (length lost)
            " task(s) without saved Task URI marked failed on startup" (fail_lost lost w)) in
    rw same (
      rw tasks_same (
          All-map (fail_lost lost w).jobs.tasks
            (fail_lost-Pending lost w (lost-Pending w.jobs.tasks))
            (λ t k open_task. ground (arith, k))),
      sweep_settles keep (finalize_all settled w₁.jobs),
    )
