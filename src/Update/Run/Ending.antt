-- ===== src/Update/Run/Ending.antt =====
-- A job's coroutines never wait for one another for ever.
use mathlib.Core.Path.{subst}
use mathlib.Core.Option.{some-injective}
use clusterone.Prelude.{
  Bool-cases, List, Option, [], all, arith, false, inl, inr, ltb, ltb→lt, max, refl, some, suc, sym,
  true, zero, ℕ, ◌-◌, ◌∙◌, ◌∷◌, ◌≡◌, ◌≤◌,
}
use clusterone.Firmwares.{FirmwareRow}
use clusterone.Update.{World}
use clusterone.Update.Task.{settle}
use clusterone.Update.Run.{
  Event, Phase, Phases, Reach, Run, acquire, active, cancel, crash, crash_one, enter, finish,
  finish_one, fire, fresh, here, is_gathered, is_over, next, over, phase_of, report, report_one,
  start_one, start_run, take_sem, waiting,
}
use clusterone.Update.Run.Counters.{
  IsCounted, Reach-IsCounted, fire-IsCounted, is_active, number, start-run-IsCounted,
}
use clusterone.Update.Run.Phases.{AreDistinct, ids-all_fresh, ids-set_phase, ids_of}
use clusterone.Update.Run.Advance.{
  HasNext, active-HasNext, find_phase, fresh-HasNext, is_fresh, is_waiting, only_active, only_fresh,
  only_waiting, remaining, waiting-HasNext,
}

-- With something left to do, some event can happen: the semaphore has a slot if none is inside.
can_go_on :
    (slots : ℕ) (r : Run)
    → IsCounted slots r
    → 1 ≤ slots
    → AreDistinct (ids_of r.phases)
    → 1 ≤ remaining r.phases
    → HasNext r
can_go_on slots r v some_slot d more = elim (Bool-cases (ltb 0 (number is_active r.phases))) [
  | inl busy ↦
      let (i, p, e, t) = find_phase is_active r.phases d (omega (arith, ltb→lt _ _ busy)) in
      active-HasNext i r (subst (λ q. phase_of i r.phases ≡ some q) (only_active p t) e)
  | inr idle ↦ elim (Bool-cases (ltb 0 (number is_waiting r.phases))) [
    | inl queued ↦
        let (i, p, e, t) = find_phase is_waiting r.phases d (omega (arith, ltb→lt _ _ queued)) in
        waiting-HasNext i (slots - 1) r (ground arith)
          (subst (λ q. phase_of i r.phases ≡ some q) (only_waiting p t) e)
    | inr none_queued ↦
        let (i, p, e, t) = find_phase is_fresh r.phases d (ground arith) in
        fresh-HasNext i r (subst (λ q. phase_of i r.phases ≡ some q) (only_fresh p t) e)
  ]
]

all_over : (ps : Phases) → remaining ps ≡ 0 → all is_over ps ≡ true
unfolding number
all_over [] h = refl
all_over ((i, over b) ∷ ps) h = all_over ps (omega (arith, h))
all_over ((i, fresh) ∷ ps) h = absurd (omega (arith, h))
all_over ((i, waiting) ∷ ps) h = absurd (omega (arith, h))
all_over ((i, active) ∷ ps) h = absurd (omega (arith, h))

Reach-trans : {r s t : Run} → Reach r s → Reach s t → Reach r t
Reach-trans a here = a
Reach-trans a (next e b h) = next e (Reach-trans a b) h

run_on :
    (n slots : ℕ) (r : Run)
    → remaining r.phases ≤ n
    → IsCounted slots r
    → 1 ≤ slots
    → AreDistinct (ids_of r.phases)
    → (u : Run) × Reach r u × (is_gathered u ≡ true)
run_on zero slots r le v some_slot d = (r, here, all_over r.phases (omega (arith, le)))
run_on (suc n) slots r le v some_slot d = elim (Bool-cases (ltb 0 (remaining r.phases))) [
  | inr finished ↦ (r, here, all_over r.phases (ground arith))
  | inl more ↦
      let go = can_go_on slots r v some_slot d (omega (arith, ltb→lt _ _ more)) in
      let (u, reached, gathered) =
        run_on n slots go.run (omega (arith, le, go.nearer))
          (fire-IsCounted go.event r go.run v go.fired) some_slot
          (subst AreDistinct (sym go.same_ids) d) in
      (u, Reach-trans (next go.event here go.fired) reached, gathered)
]

fire-ids : (e : Event) (r u : Run) → fire e r ≡ some u → ids_of u.phases ≡ ids_of r.phases
unfolding fire
fire-ids (enter i) r u h = started (phase_of i r.phases) h
  where
    started : (o : Option Phase) → start_one i o r ≡ some u → ids_of u.phases ≡ ids_of r.phases
    started (some fresh) g =
        ground (arith, ids-set_phase i (over false) r.phases, ids-set_phase i waiting r.phases)
    started _ g = cc
fire-ids (acquire i) r u h = taken r.sem (phase_of i r.phases) h
  where
    taken :
        (n : ℕ) (o : Option Phase) → take_sem i n o r ≡ some u → ids_of u.phases ≡ ids_of r.phases
    taken (suc free) (some waiting) g =
        ground (arith, ids-set_phase i (over false) r.phases, ids-set_phase i active r.phases)
    taken _ _ g = ground arith
fire-ids (report i p) r u h = reported (phase_of i r.phases) h
  where
    reported : (o : Option Phase) → report_one i p o r ≡ some u → ids_of u.phases ≡ ids_of r.phases
    reported (some active) g = ground arith
    reported _ g = cc
fire-ids (finish i x) r u h = finished (phase_of i r.phases) h
  where
    finished : (o : Option Phase) → finish_one i x o r ≡ some u → ids_of u.phases ≡ ids_of r.phases
    finished (some active) g =
        subst (λ (v : Run). ids_of v.phases ≡ ids_of r.phases) (some-injective _ _ g)
          (ids-set_phase i (over (settle i r.image x r.world).0) r.phases)
    finished _ g = cc
fire-ids (crash i c m) r u h = crashed (phase_of i r.phases) h
  where
    crashed : (o : Option Phase) → crash_one i c m o r ≡ some u → ids_of u.phases ≡ ids_of r.phases
    crashed (some active) g =
        subst (λ (v : Run). ids_of v.phases ≡ ids_of r.phases) (some-injective _ _ g)
          (ids-set_phase i (over false) r.phases)
    crashed _ g = cc
fire-ids cancel r u h = ground arith

Reach-ids : {s r : Run} → Reach s r → ids_of r.phases ≡ ids_of s.phases
Reach-ids here = refl
Reach-ids (next {t = t} {u = u} e reached h) = fire-ids e t u h ∙ Reach-ids reached

-- No deadlock: whatever has happened in a job, its coroutines can all come to their end, so that
-- `gather` returns, if no task is listed twice.
pub Reach-gathered :
    (f : FirmwareRow) (concurrency : ℕ) (ids : List ℕ) (w : World) (r : Run)
    → AreDistinct ids
    → Reach (start_run f concurrency ids w) r
    → (u : Run) × Reach r u × (is_gathered u ≡ true)
unfolding start_run
Reach-gathered f concurrency ids w r d reached =
    run_on (remaining r.phases) (max 1 concurrency) r (omega arith)
      (Reach-IsCounted (start-run-IsCounted f concurrency ids w) reached) (omega arith)
      (subst AreDistinct (sym (Reach-ids reached ∙ ids-all_fresh ids)) d)
