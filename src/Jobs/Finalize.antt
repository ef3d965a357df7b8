-- ===== src/Jobs/Finalize.antt =====
-- `finalize_job_from_tasks`: the counters and the state of a job against its task rows.
use clusterone.Prelude.{
  Bool, Bool-cases, List, String, [], any, ap, arith, count, eq_iff, eqb, if◌then◌else◌, inl, inr,
  length, ltb, ltb→lt, lt→ltb, map, none, not, refl, some, sym, true, ℕ, ◌+◌, ◌<◌, ◌==◌, ◌↔◌, ◌∙◌,
  ◌∷◌, ◌≡◌, ◌≢◌, ◌≤◌,
}
use clusterone.Jobs.Tables.{JobRow, JobsRepo, TaskRow, at_job, is_finished}
use clusterone.Jobs.Queries.{
  Summary, final_state, finalize_job_from_tasks, list_tasks, save_summary, summarise,
}
use clusterone.Jobs.Rows.{if_same, update_job_state_lem}

abbrev is_open : String → Bool
is_open s = not (is_finished s)

-- Every state is completed, failed or open, and no two of these.
counts_partition :
    (states : List String)
    → count (λ s. s == "completed") states
        + count (λ s. s == "failed") states
        + count is_open states
      ≡ length states
counts_partition [] = refl
counts_partition (s ∷ states) = ground (
  arith,
  counts_partition states,
  eq_iff s "completed",
  eq_iff s "failed",
  eq_iff "completed" "failed",
)

any-count : (states : List String) → any is_open states ≡ ltb 0 (count is_open states)
any-count [] = refl
any-count (s ∷ states) = ground (arith, any-count states)

final_state-ne-running : (succeeded failed : ℕ) → final_state succeeded failed ≢ "running"
unfolding final_state
final_state-ne-running succeeded failed h = ground (
  arith,
  eq_iff "completed" "running",
  eq_iff "failed" "running",
  eq_iff "completed_with_errors" "running",
)

running_iff :
    (states : List String) → ((summarise states).state ≡ "running") ↔ (any is_open states ≡ true)
unfolding summarise
running_iff states = elim (Bool-cases (any is_open states)) [
  | inl more ↦ (λ h. more, λ h. rw more)
  | inr settled ↦ (
    λ h. absurd (
        final_state-ne-running (summarise states).succeeded (summarise states).failed
          (rw settled at h)),
    λ h. rw h,
  )
]

-- The counters of a summary never pass the total, and the job is running exactly while they fall
-- short of it.
pub summarise_exact :
    (states : List String)
    → ((summarise states).total ≡ length states)
      × ((summarise states).succeeded + (summarise states).failed ≤ (summarise states).total)
      × (((summarise states).state ≡ "running")
          ↔ ((summarise states).succeeded + (summarise states).failed < (summarise states).total))
unfolding summarise
summarise_exact states =
    let (fwd, back) = running_iff states in
    let parts = counts_partition states in
    let some_open = any-count states in
    (
      refl,
      omega (arith, parts),
      (
        (λ h. omega (arith, parts, ltb→lt _ _ (sym some_open ∙ fwd h))),
        (λ h. back (some_open ∙ lt→ltb _ _ (omega (arith, parts)))),
      ),
    )

abbrev pub states_of : ℕ → JobsRepo → List String
states_of id r = map (λ (t : TaskRow). t.state) (list_tasks id r)

abbrev pub with_summary : Summary → JobRow → JobRow
with_summary s j = record j {
  state = s.state;
  total = s.total;
  succeeded = s.succeeded;
  failed = s.failed;
}

finalize_by :
    (id : ℕ) (r : JobsRepo) (states : List String)
    → states_of id r ≡ states
    → states ≢ []
    → finalize_job_from_tasks id r
      ≡ (some (summarise (states_of id r)), at_job id (with_summary (summarise (states_of id r))) r)
unfolding finalize_job_from_tasks
finalize_by id r [] e h = absurd (h refl)
finalize_by id r (s ∷ states) e h =
    rw (e, finalize_job_from_tasks)
      (ap (λ (r' : JobsRepo). (some (summarise (s ∷ states)), r')) (update_job_state_lem id _ _ r))

-- A job with a task gets the summary of its task rows, and no other row changes.
pub finalize_writes :
    (id : ℕ) (r : JobsRepo)
    → states_of id r ≢ []
    → finalize_job_from_tasks id r
      ≡ (some (summarise (states_of id r)), at_job id (with_summary (summarise (states_of id r))) r)
unfolding finalize_job_from_tasks
finalize_writes id r h = finalize_by id r (states_of id r) refl h

idem_row :
    (id : ℕ) (f : JobRow → JobRow) (j : JobRow)
    → ((j : JobRow) → f (f j) ≡ f j)
    → (if eqb (if eqb j.id id then f j else j).id id
        then f (if eqb j.id id then f j else j)
        else (if eqb j.id id then f j else j))
      ≡ (if eqb j.id id then f j else j)
idem_row id f j twice = elim (Bool-cases (eqb j.id id)) [
  | inl e ↦ simp e (if_same (eqb (f j).id id) (sym (twice j)))
  | inr e ↦ simp e
]

at_job_idem :
    (id : ℕ) (f : JobRow → JobRow) (js : List JobRow)
    → ((j : JobRow) → f (f j) ≡ f j)
    → map
        (λ (j : JobRow). if eqb j.id id then f j else j)
        (map (λ (j : JobRow). if eqb j.id id then f j else j) js)
      ≡ map (λ (j : JobRow). if eqb j.id id then f j else j) js
at_job_idem id f [] twice = refl
at_job_idem id f (j ∷ js) twice = cc (idem_row id f j twice, at_job_idem id f js twice)

save_summary_idem :
    (id : ℕ) (s : Summary) (r : JobsRepo)
    → save_summary id s (save_summary id s r) ≡ save_summary id s r
save_summary_idem id s r = simp update_job_state_lem (
    ap (λ (js : List JobRow). record r { jobs = js })
      (at_job_idem id (with_summary s) r.jobs (λ j. refl)))

states-save_summary :
    (id : ℕ) (s : Summary) (r : JobsRepo) → states_of id (save_summary id s r) ≡ states_of id r
unfolding list_tasks
states-save_summary id s r = rw update_job_state_lem

-- A job with no task is left alone.
finalize_none :
    (id : ℕ) (r : JobsRepo) → states_of id r ≡ [] → finalize_job_from_tasks id r ≡ (none, r)
unfolding finalize_job_from_tasks
finalize_none id r e = rw (e, finalize_job_from_tasks)

finalize_some :
    (id : ℕ) (r : JobsRepo) (s : String) (states : List String)
    → states_of id r ≡ s ∷ states
    → finalize_job_from_tasks id r
      ≡ (some (summarise (s ∷ states)), save_summary id (summarise (s ∷ states)) r)
unfolding finalize_job_from_tasks
finalize_some id r s states e = rw (e, finalize_job_from_tasks)

idem_by :
    (id : ℕ) (r : JobsRepo) (states : List String)
    → states_of id r ≡ states
    → finalize_job_from_tasks id (finalize_job_from_tasks id r).1 ≡ finalize_job_from_tasks id r
idem_by id r [] e = rw (finalize_none id r e) (finalize_none id r e)
idem_by id r (s ∷ states) e =
    let sum : Summary = summarise (s ∷ states) in
    rw (finalize_some id r s states e) (
      finalize_some id (save_summary id sum r) s states (states-save_summary id sum r ∙ e)
      ∙ ap (λ (r' : JobsRepo). (some sum, r')) (save_summary_idem id sum r))

-- Finalizing twice is finalizing once.
pub finalize_idem :
    (id : ℕ) (r : JobsRepo)
    → finalize_job_from_tasks id (finalize_job_from_tasks id r).1 ≡ finalize_job_from_tasks id r
unfolding finalize_job_from_tasks
finalize_idem id r = idem_by id r (states_of id r) refl
