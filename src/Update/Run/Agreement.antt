-- ===== src/Update/Run/Agreement.antt =====
-- The counters of a job against its rows in the database.
use mathlib.Core.Path.{subst, ap₂}
use mathlib.Core.Option.{some-injective}
use clusterone.Prelude.{
  Bool, Bool-cases, List, Option, String, [], ap, arith, eqb, false, if◌then◌else◌, inl, inr, map,
  refl, select, some, suc, sym, take_chars, true, ℕ, ◌+◌, ◌<>◌, ◌∙◌, ◌∷◌, ◌≡◌,
}
use clusterone.Exec.{Result, cancelled, err, ok, raised}
use clusterone.Jobs.{JobsRepo, TaskRow, TaskUpdate, final_state, get_task, list_tasks, summarise}
use clusterone.Jobs.Rows.{update_task_lem, written}
use clusterone.Jobs.Finalize.{states_of}
use clusterone.Firmwares.{FirmwareRow}
use clusterone.Plugins.{Report}
use clusterone.Update.{World, compute_final_state, progress, reporting, write_task}
use clusterone.Update.Task.{completed_with, completing, failing, settle}
use clusterone.Update.Run.{
  Event, Phase, Phases, Reach, Run, acquire, active, cancel, cancelled_row, crash, crash_one,
  crash_world, drop_out, enter, finish, finish_one, fire, fresh, go_on, here, is_gathered, leave,
  mark_cancelled, next, over, phase_of, report, report_one, set_phase, start_one, start_run,
  take_sem, waiting,
}
use clusterone.Update.Run.Counters.{Reach-IsCounted, start-run-IsCounted}
use clusterone.Update.Run.Phases.{
  Agrees, Agrees-fresh, Agrees-move, Agrees-set_phase, AreDistinct, Shows, counts-Agrees,
  ids-all_fresh, ids-set_phase, ids_of, on_row, set_phase_same, set_phase_twice,
}
use clusterone.Update.Task.Refresh.{jobs-refresh_of}

module _ (job : ℕ) where
  abbrev pub rows : World → List TaskRow
  rows w = list_tasks job w.jobs

  select-on_row :
      (i : ℕ) (g : TaskRow → TaskRow) (ts : List TaskRow)
      → ((t : TaskRow) → (g t).job_id ≡ t.job_id)
      → select (λ (t : TaskRow). eqb t.job_id job) (on_row i g ts)
        ≡ on_row i g (select (λ (t : TaskRow). eqb t.job_id job) ts)
  select-on_row i g [] keeps = refl
  select-on_row i g (t ∷ ts) keeps = elim (Bool-cases (eqb t.id i)) [
    | inl same ↦ elim (Bool-cases (eqb t.job_id job)) [
      | inl mine ↦
          rw (same, ap (λ (k : ℕ). eqb k job) (keeps t) ∙ mine, mine, same)
            (rw (select-on_row i g ts keeps))
      | inr theirs ↦
          rw (same, ap (λ (k : ℕ). eqb k job) (keeps t) ∙ theirs, theirs)
            (select-on_row i g ts keeps)
    ]
    | inr other ↦ elim (Bool-cases (eqb t.job_id job)) [
      | inl mine ↦ rw (other, mine, other) (rw (select-on_row i g ts keeps))
      | inr theirs ↦ rw (other, theirs) (select-on_row i g ts keeps)
    ]
  ]

  rows-write_task :
      (i : ℕ) (u : TaskUpdate) (w : World)
      → rows (write_task i u w) ≡ on_row i (written u (w.clock w.reads)) (rows w)
  unfolding list_tasks
  rows-write_task i u w =
      rw update_task_lem (select-on_row i (written u (w.clock w.reads)) w.jobs.tasks (λ t. refl))

  -- The invariant: the rows of the job beside the phases.
  pub record Matches (w : World) (ps : Phases) : Type 0 where
    pub distinct : AreDistinct (ids_of ps)
    pub agrees : Agrees (rows w) ps

  write-Matches :
      (i : ℕ) (p : Phase) (u : TaskUpdate) (s : String) (w : World) (ps : Phases)
      → u.state ≡ some s
      → Shows p s
      → Matches w ps
      → Matches (write_task i u w) (set_phase i p ps)
  write-Matches i p u s w ps e shows v = record {
    distinct = rw ids-set_phase v.distinct;
    agrees = rw rows-write_task (
        Agrees-set_phase i p (written u (w.clock w.reads)) (λ t. refl) (λ t. rw e shows) (rows w) ps
          v.distinct v.agrees);
  }

  move-Matches :
      (i : ℕ) (p : Phase) (w : World) (ps : Phases)
      → ((s : String) → Shows p s)
      → Matches w ps
      → Matches w (set_phase i p ps)
  move-Matches i p w ps shows v = record {
    distinct = rw ids-set_phase v.distinct;
    agrees = Agrees-move i p shows (rows w) ps v.agrees;
  }

  -- What `progress` writes.
  progress-Matches :
      (i : ℕ) (p : Phase) (r : Report) (w : World) (ps : Phases)
      → Shows p r.state
      → Matches w ps
      → Matches (progress i r w) (set_phase i p ps)
  unfolding progress
  progress-Matches i p r w ps shows v =
      let v' = write-Matches i p (reporting r) r.state w ps refl shows v in
      record { distinct = v'.distinct; agrees = v'.agrees }

  settle-Matches :
      (i : ℕ) (f : FirmwareRow) (result : Result (Option String)) (w : World) (ps : Phases)
      → Matches w ps
      → Matches (settle i f result w).1 (set_phase i (over (settle i f result w).0) ps)
  unfolding settle
  settle-Matches i f (ok version) w ps v =
      let w1 = progress i completing w in
      let w2 = write_task i (completed_with version) w1 in
      let v1 = progress-Matches i (over true) completing w ps refl v in
      let v2 =
        write-Matches i (over true) (completed_with version) "completed" w1
          (set_phase i (over true) ps) refl refl v1 in
      let v3 : Matches w2 (set_phase i (over true) ps) = rw set_phase_twice at v2 in
      record {
        distinct = v3.distinct;
        agrees =
            subst (λ (j : JobsRepo). Agrees (list_tasks job j) (set_phase i (over true) ps))
              (sym (jobs-refresh_of (get_task i w2.jobs) f version w2)) v3.agrees;
      }
  settle-Matches i f (err cancelled) w ps v =
      progress-Matches i (over false) (failing "Cancelled") w ps refl v
  settle-Matches i f (err (raised class message)) w ps v =
      progress-Matches i (over false) (failing message) w ps refl v

  -- `record r { … }` of a job that keeps its phases and its rows
  abbrev Fits : Run → Type 0
  Fits r = Matches r.world r.phases

  drop_out-Matches : (i : ℕ) (r : Run) → Fits r → Fits (drop_out i r)
  unfolding mark_cancelled
  drop_out-Matches i r v =
      let v' = write-Matches i (over false) cancelled_row "failed" r.world r.phases refl refl v in
      record { distinct = v'.distinct; agrees = v'.agrees }

  crash-Matches :
      (i : ℕ) (class message : String) (r : Run)
      → Fits r
      → Fits (leave i (false, crash_world i class message r.world) r)
  crash-Matches i class message r v =
      let report = failing (take_chars 300 ("Internal error: " <> class <> ": " <> message)) in
      let v' =
        write-Matches i (over false) (reporting report) "failed" r.world r.phases refl refl v in
      record { distinct = v'.distinct; agrees = v'.agrees }

  start-Matches :
      (i : ℕ) (o : Option Phase) (r u : Run) → Fits r → start_one i o r ≡ some u → Fits u
  unfolding fire
  start-Matches i (some fresh) r u v h = subst Fits (some-injective _ _ h) (entered r.stopped)
    where
      entered : (b : Bool) → Fits (if b then drop_out i r else go_on i waiting r)
      entered true = drop_out-Matches i r v
      entered false = move-Matches i waiting r.world r.phases (λ s. tt) v
  start-Matches i _ r u v h = cc

  take-Matches :
      (i sem : ℕ) (o : Option Phase) (r u : Run) → Fits r → take_sem i sem o r ≡ some u → Fits u
  unfolding fire
  take-Matches i (suc free) (some waiting) r u v h =
      subst Fits (some-injective _ _ h) (taken r.stopped)
    where
      taken :
          (b : Bool) → Fits (if b then drop_out i r else record (go_on i active r) { sem = free })
      taken true = drop_out-Matches i r v
      taken false = move-Matches i active r.world r.phases (λ s. tt) v
  take-Matches i _ _ r u v h = cc

  report-Matches :
      (i : ℕ) (p : Report) (o : Option Phase) (r u : Run)
      → phase_of i r.phases ≡ o
      → Fits r
      → report_one i p o r ≡ some u
      → Fits u
  unfolding fire
  report-Matches i p (some active) r u e v h = subst Fits (some-injective _ _ h) (
      subst (Matches (progress i p r.world)) (set_phase_same i active r.phases e)
        (progress-Matches i active p r.world r.phases tt v))
  report-Matches i p _ r u e v h = cc

  finish-Matches :
      (i : ℕ) (x : Result (Option String)) (o : Option Phase) (r u : Run)
      → Fits r
      → finish_one i x o r ≡ some u
      → Fits u
  unfolding fire
  finish-Matches i x (some active) r u v h =
      subst Fits (some-injective _ _ h) (settle-Matches i r.image x r.world r.phases v)
  finish-Matches i x _ r u v h = cc

  fire-Matches : (e : Event) (r u : Run) → Fits r → fire e r ≡ some u → Fits u
  unfolding fire
  fire-Matches (enter i) r u v h = start-Matches i (phase_of i r.phases) r u v h
  fire-Matches (acquire i) r u v h = take-Matches i r.sem (phase_of i r.phases) r u v h
  fire-Matches (report i p) r u v h = report-Matches i p (phase_of i r.phases) r u refl v h
  fire-Matches (finish i x) r u v h = finish-Matches i x (phase_of i r.phases) r u v h
  fire-Matches (crash i c m) r u v h = crashed (phase_of i r.phases) h
    where
      crashed : (o : Option Phase) → crash_one i c m o r ≡ some u → Fits u
      crashed (some active) g = subst Fits (some-injective _ _ g) (crash-Matches i c m r v)
      crashed _ g = cc
  fire-Matches cancel r u v h = subst Fits (some-injective _ _ h) v

  pub Reach-Matches : {s r : Run} → Fits s → Reach s r → Fits r
  Reach-Matches v here = v
  Reach-Matches v (next {t = t} {u = u} e reached h) =
      fire-Matches e t u (Reach-Matches v reached) h

start-Matches_run :
    (job concurrency : ℕ) (f : FirmwareRow) (w : World)
    → AreDistinct (map (λ (t : TaskRow). t.id) (rows job w))
    → Fits job (start_run f concurrency (map (λ (t : TaskRow). t.id) (rows job w)) w)
unfolding start_run
start-Matches_run job concurrency f w d = record {
  distinct = rw ids-all_fresh d;
  agrees = Agrees-fresh (rows job w);
}

compute_final_state-eq-final_state :
    (succeeded failed : ℕ)
    → compute_final_state false succeeded failed ≡ final_state succeeded failed
unfolding compute_final_state final_state
compute_final_state-eq-final_state succeeded failed = ground arith

-- The coroutines of a job run over its task rows, in any interleaving, with cancellations, failures
-- and crashes. When all are over, the counters and the state that `_run_job` stores for a job that
-- was not cancelled are those that `finalize_job_from_tasks` reads off the rows.
pub counters_agree :
    (job concurrency : ℕ) (f : FirmwareRow) (w : World) (r : Run)
    → AreDistinct (map (λ (t : TaskRow). t.id) (rows job w))
    → Reach (start_run f concurrency (map (λ (t : TaskRow). t.id) (rows job w)) w) r
    → is_gathered r ≡ true
    → summarise (states_of job r.world.jobs) ≡ record {
      state = compute_final_state false r.succeeded r.failed;
      total = r.succeeded + r.failed;
      succeeded = r.succeeded;
      failed = r.failed;
    }
unfolding summarise
counters_agree job concurrency f w r d reached h =
    let v = Reach-Matches job (start-Matches_run job concurrency f w d) reached in
    let c = Reach-IsCounted (start-run-IsCounted f concurrency _ w) reached in
    let (good, bad, none_open, total) = counts-Agrees (rows job r.world) r.phases v.agrees h in
    rw (
      none_open,
      good ∙ sym c.good,
      bad ∙ sym c.bad,
      total ∙ ap₂ ◌+◌ (sym c.good) (sym c.bad),
      compute_final_state-eq-final_state r.succeeded r.failed,
    )
