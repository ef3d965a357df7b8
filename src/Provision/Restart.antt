-- ===== src/Provision/Restart.antt =====
-- What a restart leaves of the installs of core/services/provisioning_orchestrator.py.
use clusterone.Prelude.{
  All, Bool-cases, List, String, [], arith, count, eqb, false, if◌then◌else◌, inl, inr, length, map,
  not, refl, select, some, sym, true, ◌∷◌, ◌≡◌,
}
use clusterone.Provision.Tables.{
  ProvisioningJob, ProvisioningTask, fail_stranded_jobs, fail_stranded_tasks, is_terminal,
  is_under_way, list_stranded_tasks,
}
use clusterone.Provision.Jobs.{Desk, restart_message, resume_installs}

-- The row of a task before and behind a restart.
pub data Fate : ProvisioningTask → ProvisioningTask → Type 0 where
  over : (t : ProvisioningTask) → is_terminal t.state ≡ true → Fate t t
  failed :
      (t : ProvisioningTask) (now : String)
      → is_terminal t.state ≡ false
      → Fate t
          (record t { state = "failed"; finished_at = some now; message = some restart_message })

-- The same rows, each with its fate.
pub data Fates : List ProvisioningTask → List ProvisioningTask → Type 0 where
  done : Fates [] []
  next :
      {t u : ProvisioningTask} {ts us : List ProvisioningTask}
      → Fate t u
      → Fates ts us
      → Fates (t ∷ ts) (u ∷ us)

abbrev fate_row : String → ProvisioningTask → ProvisioningTask
fate_row now t =
    if is_terminal t.state
    then t
    else record t { state = "failed"; finished_at = some now; message = some restart_message }

fate_row-Fate : (now : String) (t : ProvisioningTask) → Fate t (fate_row now t)
fate_row-Fate now t = elim (Bool-cases (is_terminal t.state)) [
  | inl e ↦ rw e (over t e)
  | inr e ↦ rw e (failed t now e)
]

fate_rows-Fates : (now : String) (ts : List ProvisioningTask) → Fates ts (map (fate_row now) ts)
fate_rows-Fates now [] = done
fate_rows-Fates now (t ∷ ts) = next (fate_row-Fate now t) (fate_rows-Fates now ts)

abbrev stranded : List ProvisioningTask → List ProvisioningTask
stranded ts = select (λ (t : ProvisioningTask). not (is_terminal t.state)) ts

none_stranded-Fates :
    (ts : List ProvisioningTask) → eqb (length (stranded ts)) 0 ≡ true → Fates ts ts
none_stranded-Fates [] h = done
none_stranded-Fates (t ∷ ts) h = elim (Bool-cases (is_terminal t.state)) [
  | inl e ↦ next (over t e) (none_stranded-Fates ts (rw e at h))
  | inr e ↦ absurd (ground (arith, rw e at h))
]

none_stranded-count :
    (ts : List ProvisioningTask)
    → eqb (length (stranded ts)) 0 ≡ true
    → count (λ (t : ProvisioningTask). not (is_terminal t.state)) ts ≡ 0
none_stranded-count [] h = refl
none_stranded-count (t ∷ ts) h = elim (Bool-cases (is_terminal t.state)) [
  | inl e ↦ ground (arith, e, none_stranded-count ts (rw e at h))
  | inr e ↦ absurd (ground (arith, rw e at h))
]

stranded_jobs-All :
    (js : List ProvisioningJob)
    → All
        (λ (j : ProvisioningJob). is_under_way j.state ≡ false)
        (map
          (λ (j : ProvisioningJob).
            if is_under_way j.state then record j { state = "failed" } else j)
          js)
stranded_jobs-All [] = tt
stranded_jobs-All (j ∷ js) = elim (Bool-cases (is_under_way j.state)) [
  | inl e ↦ (rw e refl, stranded_jobs-All js)
  | inr e ↦ (rw e e, stranded_jobs-All js)
]

-- Behind a restart every task of an install is over: one that was over is as it was, and every
-- other one is failed with its end set, under the text that the host is to be verified; no job is
-- pending or running, and the number that is returned is that of the tasks that were not over.
pub resume_installs-Fates :
    (d : Desk)
    → Fates d.repo.tasks (resume_installs d).1.repo.tasks
      × All (λ (j : ProvisioningJob). is_under_way j.state ≡ false) (resume_installs d).1.repo.jobs
      × (resume_installs d).0
        ≡ count (λ (t : ProvisioningTask). not (is_terminal t.state)) d.repo.tasks
unfolding resume_installs list_stranded_tasks fail_stranded_tasks fail_stranded_jobs
resume_installs-Fates d = elim (Bool-cases (eqb (length (stranded d.repo.tasks)) 0)) [
  | inl e ↦ rw e (
    none_stranded-Fates d.repo.tasks e,
    stranded_jobs-All d.repo.jobs,
    sym (none_stranded-count d.repo.tasks e),
  )
  | inr e ↦
      rw e (fate_rows-Fates (d.clock d.reads) d.repo.tasks, stranded_jobs-All d.repo.jobs, refl)
]
