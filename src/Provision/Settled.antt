-- ===== src/Provision/Settled.antt =====
-- The end of a task in core/services/provisioning_orchestrator.py, as its row shows it.
use mathlib.Core.Option.{some-injective}
use mathlib.Core.Path.{subst}
use clusterone.Prelude.{
  Bool, Bool-cases, List, String, [], ap, arith, eqb, false, find, if◌then◌else◌, inl, inr, map,
  refl, some, sym, true, ℕ, ◌∙◌, ◌∷◌, ◌≡◌,
}
use clusterone.Exec.{Result, cancelled, err, ok, raised}
use clusterone.Models.{Drive}
use clusterone.Servers.{ServerRow}
use clusterone.Provision.Tables.{ProvisioningTask, get_provisioning_task, update_provisioning_task}
use clusterone.Provision.Yard.{IsoRow, Setting, Yard, report_progress}
use clusterone.Provision.Task.{real_install, run_install, settle_install}

-- The row of a task that ends.
abbrev ended_row : String → ℕ → String → String → ProvisioningTask → ProvisioningTask
ended_row state progress message now t = record t {
  state = state;
  progress = progress;
  message = some message;
  finished_at = some now;
}

find_updated :
    (f : ProvisioningTask → ProvisioningTask) (id : ℕ) (ts : List ProvisioningTask)
    (t : ProvisioningTask)
    → ((u : ProvisioningTask) → (f u).id ≡ u.id)
    → find
        (λ (u : ProvisioningTask). eqb u.id id)
        (map (λ (u : ProvisioningTask). if eqb u.id id then f u else u) ts)
      ≡ some t
    → (u : ProvisioningTask) × (t ≡ f u)
find_updated f id [] t k h = absurd (ground (arith, h))
find_updated f id (u ∷ us) t k h = elim (Bool-cases (eqb u.id id)) [
  | inl e ↦ (u, some-injective _ _ (sym (rw (e, ap (λ n. eqb n id) (k u) ∙ e) at h)))
  | inr e ↦ find_updated f id us t k (rw e at (rw e at h))
]

-- How the task's body ends, what its run returns, and its row.
pub data Settles : Result (Unit {0}) → Bool → ProvisioningTask → Type 0 where
  installed :
      (t : ProvisioningTask) (now : String)
      → Settles (ok tt) true (ended_row "completed" 100 "" now t)
  gave_up :
      (t : ProvisioningTask) (now class message : String)
      → Settles (err (raised class message)) false (ended_row "failed" 0 message now t)
  called_off :
      (t : ProvisioningTask) (now : String)
      → Settles (err cancelled) false (ended_row "cancelled" 0 "Cancelled" now t)

settle_install-Settles :
    (s : Setting) (id : ℕ) (r : Result (Unit {0})) (v : Yard) (t : ProvisioningTask)
    → get_provisioning_task id (settle_install s id r v).1.repo ≡ some t
    → Settles r (settle_install s id r v).0 t
unfolding settle_install report_progress get_provisioning_task update_provisioning_task
settle_install-Settles s id (ok tt) v t h =
    let now = v.clock v.reads in
    let (u, e) = find_updated (ended_row "completed" 100 "" now) id v.repo.tasks t (λ u. refl) h in
    subst (Settles (ok tt) true) (sym e) (installed u now)
settle_install-Settles s id (err cancelled) v t h =
    let now = v.clock v.reads in
    let (u, e) =
      find_updated (ended_row "cancelled" 0 "Cancelled" now) id v.repo.tasks t (λ u. refl) h in
    subst (Settles (err cancelled) false) (sym e) (called_off u now)
settle_install-Settles s id (err (raised class message)) v t h =
    let now = v.clock v.reads in
    let (u, e) = find_updated (ended_row "failed" 0 message now) id v.repo.tasks t (λ u. refl) h in
    subst (Settles (err (raised class message)) false) (sym e) (gave_up u now class message)

-- However an install ends, the row of its task is left in a state that is final, with its end set:
-- completed at 100 percent, with true returned, when `_real_task` comes to its end; failed at 0
-- percent with the message of the exception that it raises, and cancelled at 0 percent when it is
-- cancelled, with false returned for both.
pub run_install-Settles :
    (s : Setting) (id : ℕ) (drives_of : ServerRow → List Drive) (iso : IsoRow) (w : Yard)
    (t : ProvisioningTask)
    → get_provisioning_task id (run_install s id drives_of iso w).1.repo ≡ some t
    → Settles (real_install s id drives_of iso w).0 (run_install s id drives_of iso w).0 t
unfolding run_install
run_install-Settles s id drives_of iso w t h =
    let x = real_install s id drives_of iso w in settle_install-Settles s id x.0 x.1 t h
