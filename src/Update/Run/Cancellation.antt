-- ===== src/Update/Run/Cancellation.antt =====
-- What a cancelled job still starts.
use mathlib.Core.Option.{some-injective}
use clusterone.Prelude.{Bool, Option, String, arith, false, refl, some, suc, true, ℕ, ◌≡◌, ◌≤◌}
use clusterone.Exec.{Result}
use clusterone.Plugins.{Report}
use clusterone.Update.{World}
use clusterone.Update.Task.{settle}
use clusterone.Update.Run.{
  Event, Phase, Reach, Run, acquire, active, cancel, crash, crash_one, crash_world, enter, finish,
  finish_one, fire, fresh, here, leave, next, over, phase_of, report, report_one, start_one,
  take_sem, waiting,
}
use clusterone.Update.Run.Counters.{is_active, number, number-set_phase}

-- The job stays cancelled and no coroutine has got in.
pub record IsWindingDown (r u : Run) : Type 0 where
  pub still : u.stopped ≡ true
  pub fewer : number is_active u.phases ≤ number is_active r.phases

module _ (i : ℕ) (r u : Run) (s : r.stopped ≡ true) where
  start-IsWindingDown :
      (o : Option Phase) → phase_of i r.phases ≡ o → start_one i o r ≡ some u → IsWindingDown r u
  unfolding fire
  start-IsWindingDown (some fresh) e h =
      ground (arith, number-set_phase is_active i (over false) fresh r.phases e)
  start-IsWindingDown _ e h = ground arith

  take-IsWindingDown :
      (sem : ℕ) (o : Option Phase)
      → phase_of i r.phases ≡ o
      → take_sem i sem o r ≡ some u
      → IsWindingDown r u
  unfolding fire
  take-IsWindingDown (suc free) (some waiting) e h =
      ground (arith, number-set_phase is_active i (over false) waiting r.phases e)
  take-IsWindingDown _ _ e h = ground arith

  leave-IsWindingDown :
      (b : Bool) (w : World)
      → phase_of i r.phases ≡ some active
      → leave i (b, w) r ≡ u
      → IsWindingDown r u
  leave-IsWindingDown b w e h =
      ground (arith, number-set_phase is_active i (over b) active r.phases e)

  report-IsWindingDown :
      (p : Report) (o : Option Phase) → report_one i p o r ≡ some u → IsWindingDown r u
  unfolding fire
  report-IsWindingDown p (some active) h = ground arith
  report-IsWindingDown p _ h = ground arith

  finish-IsWindingDown :
      (result : Result (Option String)) (o : Option Phase)
      → phase_of i r.phases ≡ o
      → finish_one i result o r ≡ some u
      → IsWindingDown r u
  unfolding fire
  finish-IsWindingDown result (some active) e h =
      let (b, w) = settle i r.image result r.world in
      leave-IsWindingDown b w e (some-injective _ _ h)
  finish-IsWindingDown result _ e h = ground arith

  crash-IsWindingDown :
      (class message : String) (o : Option Phase)
      → phase_of i r.phases ≡ o
      → crash_one i class message o r ≡ some u
      → IsWindingDown r u
  unfolding fire
  crash-IsWindingDown class message (some active) e h =
      leave-IsWindingDown false (crash_world i class message r.world) e (some-injective _ _ h)
  crash-IsWindingDown class message _ e h = ground arith

fire-IsWindingDown :
    (e : Event) (r u : Run) → r.stopped ≡ true → fire e r ≡ some u → IsWindingDown r u
unfolding fire
fire-IsWindingDown (enter i) r u s h = start-IsWindingDown i r u s (phase_of i r.phases) refl h
fire-IsWindingDown (acquire i) r u s h =
    take-IsWindingDown i r u s r.sem (phase_of i r.phases) refl h
fire-IsWindingDown (report i p) r u s h = report-IsWindingDown i r u s p (phase_of i r.phases) h
fire-IsWindingDown (finish i x) r u s h =
    finish-IsWindingDown i r u s x (phase_of i r.phases) refl h
fire-IsWindingDown (crash i c m) r u s h =
    crash-IsWindingDown i r u s c m (phase_of i r.phases) refl h
fire-IsWindingDown cancel r u s h = ground arith

-- Once a job is cancelled, no further coroutine gets into `_run_task`, however the job goes on:
-- those inside are at most those that were inside.
pub cancelled_run-IsWindingDown : (r u : Run) → r.stopped ≡ true → Reach r u → IsWindingDown r u
cancelled_run-IsWindingDown r _ s here = record { still = s; fewer = omega arith }
cancelled_run-IsWindingDown r u s (next {t = t} e reached h) =
    let before = cancelled_run-IsWindingDown r t s reached in
    let after = fire-IsWindingDown e t u before.still h in
    record { still = after.still; fewer = omega (arith, before.fewer, after.fewer) }
