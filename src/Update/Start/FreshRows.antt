-- ===== src/Update/Start/FreshRows.antt =====
-- The rows that `start_job` makes for its job.
use mathlib.Core.Path.{subst}
use mathlib.Core.List.{append_assoc, append-nil}
use clusterone.Prelude.{
  All, All-map, Bool-cases, List, Option-cases, [], ap, arith, eqb, eqb_iff, false, if◌then◌else◌,
  inl, inr, map, max, refl, select, suc, sym, true, ℕ, ◌++◌, ◌+◌, ◌<◌, ◌∙◌, ◌∷◌, ◌≡◌, ◌≤◌,
}
use clusterone.Jobs.{
  JobRow, Summary, JobsRepo, TaskRow, at_job, create_job, create_task, list_tasks, max_id,
  summarise,
}
use clusterone.Jobs.Rows.{update_job_state_lem}
use clusterone.Jobs.Finalize.{states_of}
use clusterone.Servers.{ServerRow, get_server}
use clusterone.Firmwares.{FirmwareRow}
use clusterone.Update.{World, compute_final_state, lookup_firmware}
use clusterone.Update.Run.{Reach, Run, close_run, is_gathered, start_run}
use clusterone.Update.Run.Phases.{AreDistinct}
use clusterone.Update.Start.{
  Started, clamp_concurrency, create_tasks, run_of, start_for, start_job, version_before_of,
}
use clusterone.Update.Run.Agreement.{counters_agree}

max_id-append : (xs : List ℕ) (i : ℕ) → max_id (xs ++ i ∷ []) ≡ max (max_id xs) i
unfolding max_id
max_id-append [] i = omega arith
max_id-append (x ∷ xs) i = omega (arith, max_id-append xs i)

abbrev pub task_ids : List TaskRow → List ℕ
task_ids ts = map (λ (t : TaskRow). t.id) ts

task_ids-append :
    (ts : List TaskRow) (t : TaskRow) → task_ids (ts ++ t ∷ []) ≡ task_ids ts ++ t.id ∷ []
task_ids-append [] t = refl
task_ids-append (s ∷ ts) t = ap (λ (is : List ℕ). s.id ∷ is) (task_ids-append ts t)

-- The task rows of a job
abbrev pub mine : ℕ → List TaskRow → List TaskRow
mine job ts = select (λ (t : TaskRow). eqb t.job_id job) ts

mine-append :
    (job : ℕ) (ts : List TaskRow) (t : TaskRow)
    → t.job_id ≡ job
    → mine job (ts ++ t ∷ []) ≡ mine job ts ++ t ∷ []
mine-append job [] t e = rw ((eqb_iff t.job_id job).1 e)
mine-append job (s ∷ ts) t e = elim (Bool-cases (eqb s.job_id job)) [
  | inl h ↦ rw h (rw (mine-append job ts t e))
  | inr h ↦ rw h (mine-append job ts t e)
]

mine-none :
    (job bound : ℕ) (ts : List TaskRow)
    → bound < job
    → All (λ (t : TaskRow). t.job_id ≤ bound) ts
    → mine job ts ≡ []
mine-none job bound [] lt h = refl
mine-none job bound (t ∷ ts) lt h = ground (arith, mine-none job bound ts lt h.1)

module _ (job : ℕ) (f : FirmwareRow) (firmware_id : ℕ) where
  abbrev made : List ℕ → World → List ℕ × World
  made = create_tasks job f firmware_id

  -- The world behind one task's creation
  abbrev grown : ℕ → ServerRow → World → World
  grown sid s w = record w {
    jobs =
        (create_task job sid firmware_id (version_before_of f.type s) (w.clock w.reads) w.jobs).1;
    reads = w.reads + 1;
  }

  abbrev new_id : World → ℕ
  new_id w = suc (max_id (task_ids w.jobs.tasks))

  max_id-grown :
      (sid : ℕ) (s : ServerRow) (w : World)
      → max_id (task_ids (grown sid s w).jobs.tasks) ≡ new_id w
  unfolding create_task
  max_id-grown sid s w = rw task_ids-append (rw max_id-append (omega arith))

  mine-grown :
      (sid : ℕ) (s : ServerRow) (w : World)
      → task_ids (mine job (grown sid s w).jobs.tasks)
        ≡ task_ids (mine job w.jobs.tasks) ++ new_id w ∷ []
  unfolding create_task
  mine-grown sid s w =
      ap task_ids (mine-append job w.jobs.tasks _ refl) ∙ task_ids-append (mine job w.jobs.tasks) _

  pub IsAbove-made :
      (b : ℕ) (sids : List ℕ) (w : World)
      → b ≤ max_id (task_ids w.jobs.tasks)
      → All (λ (i : ℕ). b < i) (made sids w).0
  unfolding create_tasks create_task
  IsAbove-made b [] w h = tt
  IsAbove-made b (sid ∷ sids) w h = elim (Option-cases (get_server sid w.servers)) [
    | inl e ↦ rw (e, create_tasks) (IsAbove-made b sids w h)
    | inr (s, e) ↦
        rw (e, create_tasks)
          (omega arith, IsAbove-made b sids (grown sid s w) (omega (arith, max_id-grown sid s w)))
  ]

  pub made-AreDistinct : (sids : List ℕ) (w : World) → AreDistinct (made sids w).0
  unfolding create_tasks create_task
  made-AreDistinct [] w = tt
  made-AreDistinct (sid ∷ sids) w = elim (Option-cases (get_server sid w.servers)) [
    | inl e ↦ rw (e, create_tasks) (made-AreDistinct sids w)
    | inr (s, e) ↦
        rw (e, create_tasks)
          (
            All-map (made sids (grown sid s w)).0
                (IsAbove-made (new_id w) sids (grown sid s w) (omega (arith, max_id-grown sid s w)))
                (λ i lt same. omega arith),
            made-AreDistinct sids (grown sid s w),
          )
  ]

  pub mine-made :
      (sids : List ℕ) (w : World)
      → task_ids (mine job (made sids w).1.jobs.tasks)
        ≡ task_ids (mine job w.jobs.tasks) ++ (made sids w).0
  unfolding create_tasks create_task
  mine-made [] w = sym (append-nil (task_ids (mine job w.jobs.tasks)))
  mine-made (sid ∷ sids) w = elim (Option-cases (get_server sid w.servers)) [
    | inl e ↦ rw (e, create_tasks) (mine-made sids w)
    | inr (s, e) ↦
        rw (e, create_tasks)
          (mine-made sids (grown sid s w)
            ∙ ap (λ (is : List ℕ). is ++ (made sids (grown sid s w)).0) (mine-grown sid s w)
            ∙ append_assoc (task_ids (mine job w.jobs.tasks)) (new_id w ∷ [])
                (made sids (grown sid s w)).0)
  ]

-- No task names a job beyond the last one, as the foreign key has it.
abbrev pub IsKeyed : JobsRepo → Type 0
IsKeyed r = All (λ (t : TaskRow). t.job_id ≤ max_id (map (λ (j : JobRow). j.id) r.jobs)) r.tasks

abbrev HasRows : Started × World → Type 0
HasRows (s, w) = (task_ids (list_tasks s.job w.jobs) ≡ s.tasks) × AreDistinct s.tasks

start_for-HasRows :
    (f : FirmwareRow) (firmware_id concurrency : ℕ) (sids : List ℕ) (w : World)
    → IsKeyed w.jobs
    → HasRows (start_for f firmware_id concurrency sids w)
unfolding start_for list_tasks create_job
start_for-HasRows f firmware_id concurrency sids w keyed =
    let job = suc (max_id (map (λ (j : JobRow). j.id) w.jobs.jobs)) in
    let w₁ : World = record w {
      jobs = (create_job f.type concurrency "OnReset" "user" (w.clock w.reads) w.jobs).1;
      reads = w.reads + 1;
    } in
    (
      rw update_job_state_lem (
          mine-made job f firmware_id sids w₁
          ∙ ap (λ (ts : List TaskRow). task_ids ts ++ (create_tasks job f firmware_id sids w₁).0)
              (mine-none job (max_id (map (λ (j : JobRow). j.id) w.jobs.jobs)) w.jobs.tasks
                (omega arith) keyed)),
      made-AreDistinct job f firmware_id sids w₁,
    )

start_job_cases :
    (sids : List ℕ) (firmware_id concurrency : ℕ) (w w' : World) (s : Started)
    → start_job sids firmware_id concurrency w ≡ (inr s, w')
    → (f : FirmwareRow) × (start_for f firmware_id (clamp_concurrency concurrency) sids w ≡ (s, w'))
unfolding start_job
start_job_cases [] firmware_id concurrency w w' s h = absurd (ground arith)
start_job_cases (sid ∷ sids) firmware_id concurrency w w' s h =
    elim (Option-cases (lookup_firmware firmware_id w.firmware)) [
      | inl e ↦ absurd (ground arith)
      | inr (f, e) ↦ (f, ground arith)
    ]

-- A job that starts has one row for each task that it will run and no others, and no task is run
-- twice, whatever was in the tables, if no earlier task names a job beyond the last one.
pub start_job-task_ids :
    (sids : List ℕ) (firmware_id concurrency : ℕ) (w w' : World) (s : Started)
    → IsKeyed w.jobs
    → start_job sids firmware_id concurrency w ≡ (inr s, w')
    → (task_ids (list_tasks s.job w'.jobs) ≡ s.tasks) × AreDistinct s.tasks
start_job-task_ids sids firmware_id concurrency w w' s keyed h =
    let (f, e) = start_job_cases sids firmware_id concurrency w w' s h in
    subst HasRows e (start_for-HasRows f firmware_id (clamp_concurrency concurrency) sids w keyed)

-- The row of a job behind its end.
abbrev pub with_end : Run → Summary → JobRow → JobRow
with_end r sum j = record j {
  state = if r.stopped then "cancelled" else sum.state;
  succeeded = sum.succeeded;
  failed = sum.failed;
}

close_run-at_job :
    (job : ℕ) (r : Run) (sum : Summary)
    → sum ≡ record {
      state = compute_final_state false r.succeeded r.failed;
      total = r.succeeded + r.failed;
      succeeded = r.succeeded;
      failed = r.failed;
    }
    → (close_run job r).jobs ≡ at_job job (with_end r sum) r.world.jobs
unfolding close_run compute_final_state
close_run-at_job job r sum e =
    rw (e, update_job_state_lem) (elim (Bool-cases r.stopped) [ inl h ↦ rw h | inr h ↦ rw h ])

-- A job from its start to its end: after `start_job`, in any interleaving of its coroutines with
-- failures, crashes and cancellations, when all are over, the end of `_run_job` stores for the job,
-- and for no other, the counters that `finalize_job_from_tasks` reads off its task rows, with its
-- state or, if the job was cancelled, with cancelled; and these counters are those of `_run_job`.
-- No task from before the job names a job beyond the last one.
pub start_job-counters :
    (sids : List ℕ) (firmware_id concurrency : ℕ) (w w' : World) (s : Started) (r : Run)
    → IsKeyed w.jobs
    → start_job sids firmware_id concurrency w ≡ (inr s, w')
    → Reach (run_of s w') r
    → is_gathered r ≡ true
    → (summarise (states_of s.job r.world.jobs) ≡ record {
      state = compute_final_state false r.succeeded r.failed;
      total = r.succeeded + r.failed;
      succeeded = r.succeeded;
      failed = r.failed;
    })
      × ((close_run s.job r).jobs
          ≡ at_job s.job (with_end r (summarise (states_of s.job r.world.jobs))) r.world.jobs)
start_job-counters sids firmware_id concurrency w w' s r keyed h reached ended =
    let (same, once) = start_job-task_ids sids firmware_id concurrency w w' s keyed h in
    let e =
      counters_agree s.job s.concurrency s.image w' r (subst AreDistinct (sym same) once)
        (subst (λ is. Reach (start_run s.image s.concurrency is w') r) (sym same) reached) ended in
    (e, close_run-at_job s.job r (summarise (states_of s.job r.world.jobs)) e)
