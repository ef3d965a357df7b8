-- ===== src/Update/Run/Advance.antt =====
-- The events that bring the coroutines of a job nearer to their end.
use mathlib.Core.Path.{ap₂}
use clusterone.Prelude.{
  All, Bool, Bool-cases, [], ap, arith, eqb, eqb_iff, false, if◌then◌else◌, inl, inr, refl, some,
  suc, sym, true, ℕ, ◌*◌, ◌+◌, ◌∙◌, ◌∷◌, ◌≡◌, ◌≢◌, ◌≤◌,
}
use clusterone.Exec.{cancelled, err}
use clusterone.Update.Task.{settle}
use clusterone.Update.Run.{
  Event, Phase, Phases, Run, acquire, active, drop_out, enter, finish, finish_one, fire, fresh,
  go_on, leave, over, phase_of, set_phase, start_one, take_sem, waiting,
}
use clusterone.Update.Run.Counters.{is_active, number, number-set_phase}
use clusterone.Update.Run.Phases.{AreDistinct, ids-set_phase, ids_of}

abbrev pub is_fresh : Phase → Bool
is_fresh fresh = true
is_fresh waiting = false
is_fresh active = false
is_fresh (over b) = false

abbrev pub is_waiting : Phase → Bool
is_waiting fresh = false
is_waiting waiting = true
is_waiting active = false
is_waiting (over b) = false

-- How many events the coroutines still need.
abbrev pub remaining : Phases → ℕ
remaining ps = 3 * number is_fresh ps + 2 * number is_waiting ps + number is_active ps

absent :
    (i j : ℕ) (ps : Phases) (q : Phase)
    → All (λ (k : ℕ). k ≢ j) (ids_of ps)
    → phase_of i ps ≡ some q
    → j ≢ i
unfolding phase_of
absent i j [] q d e = cc
absent i j ((k, x) ∷ ps) q d e = elim (Bool-cases (eqb k i)) [
  | inl same ↦ λ h. d.0 ((eqb_iff k i).0 same ∙ sym h)
  | inr other ↦ absent i j ps q d.1 (rw other at e)
]

phase_of_other :
    (i j : ℕ) (p : Phase) (ps : Phases) (q : Phase)
    → All (λ (k : ℕ). k ≢ j) (ids_of ps)
    → phase_of i ps ≡ some q
    → phase_of i ((j, p) ∷ ps) ≡ some q
unfolding phase_of
phase_of_other i j p ps q d e = elim (Bool-cases (eqb j i)) [
  | inl same ↦ absurd (absent i j ps q d e ((eqb_iff j i).0 same))
  | inr other ↦ rw other e
]

-- A coroutine in a phase that is counted at least once.
pub find_phase :
    (k : Phase → Bool) (ps : Phases)
    → AreDistinct (ids_of ps)
    → 1 ≤ number k ps
    → (i : ℕ) × (p : Phase) × (phase_of i ps ≡ some p) × (k p ≡ true)
unfolding number phase_of
find_phase k [] d h = absurd (omega (arith, h))
find_phase k ((j, p) ∷ ps) d h = elim (Bool-cases (k p)) [
  | inl counted ↦ (j, p, ground arith, counted)
  | inr other ↦
      let (i, q, e, t) = find_phase k ps d.1 (omega (arith, rw other at h)) in
      (i, q, phase_of_other i j p ps q d.0 e, t)
]

pub only_active : (p : Phase) → is_active p ≡ true → p ≡ active
only_active active h = refl
only_active fresh h = cc
only_active waiting h = cc
only_active (over b) h = cc

pub only_waiting : (p : Phase) → is_waiting p ≡ true → p ≡ waiting
only_waiting waiting h = refl
only_waiting fresh h = cc
only_waiting active h = cc
only_waiting (over b) h = cc

pub only_fresh : (p : Phase) → is_fresh p ≡ true → p ≡ fresh
only_fresh fresh h = refl
only_fresh waiting h = cc
only_fresh active h = cc
only_fresh (over b) h = cc

-- An event that brings the job nearer to its end.
pub record HasNext (r : Run) : Type 0 where
  pub event : Event
  pub run : Run
  pub fired : fire event r ≡ some run
  pub nearer : remaining run.phases + 1 ≤ remaining r.phases
  pub same_ids : ids_of run.phases ≡ ids_of r.phases

set_phase-nearer :
    (i : ℕ) (p q : Phase) (ps : Phases)
    → phase_of i ps ≡ some q
    → 3 * (if is_fresh p then 1 else 0)
        + 2 * (if is_waiting p then 1 else 0)
        + (if is_active p then 1 else 0)
        + 1
      ≤ 3 * (if is_fresh q then 1 else 0)
        + 2 * (if is_waiting q then 1 else 0)
        + (if is_active q then 1 else 0)
    → remaining (set_phase i p ps) + 1 ≤ remaining ps
set_phase-nearer i p q ps e h = omega (
  arith,
  h,
  number-set_phase is_fresh i p q ps e,
  number-set_phase is_waiting i p q ps e,
  number-set_phase is_active i p q ps e,
)

pub active-HasNext : (i : ℕ) (r : Run) → phase_of i r.phases ≡ some active → HasNext r
unfolding fire settle
active-HasNext i r e = record {
  event = finish i (err cancelled);
  run = leave i (settle i r.image (err cancelled) r.world) r;
  fired = ap (λ o. finish_one i (err cancelled) o r) e;
  nearer = set_phase-nearer i (over false) active r.phases e (omega arith);
  same_ids = ids-set_phase i (over false) r.phases;
}

pub waiting-HasNext :
    (i free : ℕ) (r : Run) → r.sem ≡ suc free → phase_of i r.phases ≡ some waiting → HasNext r
unfolding fire
waiting-HasNext i free r s e = elim (Bool-cases r.stopped) [
  | inl stop ↦ record {
    event = acquire i;
    run = drop_out i r;
    fired = ap₂ (λ n o. take_sem i n o r) s e ∙ rw stop;
    nearer = set_phase-nearer i (over false) waiting r.phases e (omega arith);
    same_ids = ids-set_phase i (over false) r.phases;
  }
  | inr going ↦ record {
    event = acquire i;
    run = record (go_on i active r) { sem = free };
    fired = ap₂ (λ n o. take_sem i n o r) s e ∙ rw going;
    nearer = set_phase-nearer i active waiting r.phases e (omega arith);
    same_ids = ids-set_phase i active r.phases;
  }
]

pub fresh-HasNext : (i : ℕ) (r : Run) → phase_of i r.phases ≡ some fresh → HasNext r
unfolding fire
fresh-HasNext i r e = elim (Bool-cases r.stopped) [
  | inl stop ↦ record {
    event = enter i;
    run = drop_out i r;
    fired = ap (λ o. start_one i o r) e ∙ rw stop;
    nearer = set_phase-nearer i (over false) fresh r.phases e (omega arith);
    same_ids = ids-set_phase i (over false) r.phases;
  }
  | inr going ↦ record {
    event = enter i;
    run = go_on i waiting r;
    fired = ap (λ o. start_one i o r) e ∙ rw going;
    nearer = set_phase-nearer i waiting fresh r.phases e (omega arith);
    same_ids = ids-set_phase i waiting r.phases;
  }
]
