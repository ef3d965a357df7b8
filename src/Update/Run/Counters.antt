-- ===== src/Update/Run/Counters.antt =====
-- The semaphore and the counters of a job, in every interleaving.
use mathlib.Core.Option.{some-injective}
use clusterone.Prelude.{
  Bool, List, Option, String, [], arith, false, if◌then◌else◌, max, not, refl, some, suc, true, ℕ,
  ◌+◌, ◌-◌, ◌∷◌, ◌≡◌, ◌≤◌,
}
use clusterone.Exec.{Result}
use clusterone.Firmwares.{FirmwareRow}
use clusterone.Plugins.{Report}
use clusterone.Update.{World}
use clusterone.Update.Task.{settle}
use clusterone.Update.Run.{
  Event, Phase, Phases, Reach, Run, acquire, active, all_fresh, cancel, crash, crash_one,
  crash_world, enter, finish, finish_one, fire, fresh, here, leave, next, over, phase_of, report,
  report_one, set_phase, start_one, start_run, take_sem, waiting,
}

abbrev pub is_active : Phase → Bool
is_active active = true
is_active fresh = false
is_active waiting = false
is_active (over b) = false

abbrev pub is_counted : Bool → Phase → Bool
is_counted b fresh = false
is_counted b waiting = false
is_counted b active = false
is_counted true (over c) = c
is_counted false (over c) = not c

-- How many coroutines are in a phase.
unfoldable pub number : (Phase → Bool) → Phases → ℕ
number k [] = 0
number k ((i, p) ∷ ps) = (if k p then 1 else 0) + number k ps

pub number-set_phase :
    (k : Phase → Bool) (i : ℕ) (p q : Phase) (ps : Phases)
    → phase_of i ps ≡ some q
    → number k (set_phase i p ps) + (if k q then 1 else 0) ≡ number k ps + (if k p then 1 else 0)
unfolding number phase_of set_phase
number-set_phase k i p q [] h = cc
number-set_phase k i p q ((j, x) ∷ ps) h = ground (arith, number-set_phase k i p q ps)

-- What holds between two events of a job that runs with `slots` slots.
pub record IsCounted (slots : ℕ) (r : Run) : Type 0 where
  pub held : r.sem + number is_active r.phases ≡ slots
  pub good : r.succeeded ≡ number (is_counted true) r.phases
  pub bad : r.failed ≡ number (is_counted false) r.phases

module _ {slots : ℕ} (i : ℕ) (r u : Run) (v : IsCounted slots r) where
  start-IsCounted :
      (o : Option Phase) → phase_of i r.phases ≡ o → start_one i o r ≡ some u → IsCounted slots u
  unfolding fire
  start-IsCounted (some fresh) e h = ground (
    arith,
    number-set_phase is_active i waiting fresh r.phases e,
    number-set_phase (is_counted true) i waiting fresh r.phases e,
    number-set_phase (is_counted false) i waiting fresh r.phases e,
    number-set_phase is_active i (over false) fresh r.phases e,
    number-set_phase (is_counted true) i (over false) fresh r.phases e,
    number-set_phase (is_counted false) i (over false) fresh r.phases e,
  )
  start-IsCounted _ e h = ground arith

  take-IsCounted :
      (sem : ℕ) (o : Option Phase)
      → sem ≡ r.sem
      → phase_of i r.phases ≡ o
      → take_sem i sem o r ≡ some u
      → IsCounted slots u
  unfolding fire
  take-IsCounted (suc free) (some waiting) s e h = ground (
    arith,
    number-set_phase is_active i active waiting r.phases e,
    number-set_phase (is_counted true) i active waiting r.phases e,
    number-set_phase (is_counted false) i active waiting r.phases e,
    number-set_phase is_active i (over false) waiting r.phases e,
    number-set_phase (is_counted true) i (over false) waiting r.phases e,
    number-set_phase (is_counted false) i (over false) waiting r.phases e,
  )
  take-IsCounted _ _ s e h = ground arith

  report-IsCounted :
      (p : Report) (o : Option Phase) → report_one i p o r ≡ some u → IsCounted slots u
  unfolding fire
  report-IsCounted p (some active) h = ground arith
  report-IsCounted p _ h = ground arith

  leave-IsCounted :
      (b : Bool) (w : World)
      → phase_of i r.phases ≡ some active
      → leave i (b, w) r ≡ u
      → IsCounted slots u
  leave-IsCounted b w e h = ground (
    arith,
    number-set_phase is_active i (over b) active r.phases e,
    number-set_phase (is_counted true) i (over b) active r.phases e,
    number-set_phase (is_counted false) i (over b) active r.phases e,
  )

  finish-IsCounted :
      (result : Result (Option String)) (o : Option Phase)
      → phase_of i r.phases ≡ o
      → finish_one i result o r ≡ some u
      → IsCounted slots u
  unfolding fire
  finish-IsCounted result (some active) e h =
      let (b, w) = settle i r.image result r.world in leave-IsCounted b w e (some-injective _ _ h)
  finish-IsCounted result _ e h = ground arith

  crash-IsCounted :
      (class message : String) (o : Option Phase)
      → phase_of i r.phases ≡ o
      → crash_one i class message o r ≡ some u
      → IsCounted slots u
  unfolding fire
  crash-IsCounted class message (some active) e h =
      leave-IsCounted false (crash_world i class message r.world) e (some-injective _ _ h)
  crash-IsCounted class message _ e h = ground arith

pub fire-IsCounted :
    {slots : ℕ} (e : Event) (r u : Run) → IsCounted slots r → fire e r ≡ some u → IsCounted slots u
unfolding fire
fire-IsCounted (enter i) r u v h = start-IsCounted i r u v (phase_of i r.phases) refl h
fire-IsCounted (acquire i) r u v h = take-IsCounted i r u v r.sem (phase_of i r.phases) refl refl h
fire-IsCounted (report i p) r u v h = report-IsCounted i r u v p (phase_of i r.phases) h
fire-IsCounted (finish i x) r u v h = finish-IsCounted i r u v x (phase_of i r.phases) refl h
fire-IsCounted (crash i c m) r u v h = crash-IsCounted i r u v c m (phase_of i r.phases) refl h
fire-IsCounted cancel r u v h = ground arith

number_fresh : (k : Phase → Bool) (ids : List ℕ) → k fresh ≡ false → number k (all_fresh ids) ≡ 0
unfolding number
number_fresh k [] h = refl
number_fresh k (i ∷ ids) h = ground (arith, number_fresh k ids h)

pub start-run-IsCounted :
    (f : FirmwareRow) (concurrency : ℕ) (ids : List ℕ) (w : World)
    → IsCounted (max 1 concurrency) (start_run f concurrency ids w)
unfolding start_run
start-run-IsCounted f concurrency ids w = omega (
  arith,
  number_fresh is_active ids refl,
  number_fresh (is_counted true) ids refl,
  number_fresh (is_counted false) ids refl,
)

pub Reach-IsCounted : {slots : ℕ} {s r : Run} → IsCounted slots s → Reach s r → IsCounted slots r
Reach-IsCounted v here = v
Reach-IsCounted v (next {t = t} {u = u} e reached h) =
    fire-IsCounted e t u (Reach-IsCounted v reached) h

-- However the coroutines of a job interleave, at most `max(1, concurrency)` of them are inside
-- `_run_task` at a time, and each free slot is in the semaphore.
pub flashes_bounded :
    (f : FirmwareRow) (concurrency : ℕ) (ids : List ℕ) (w : World) {r : Run}
    → Reach (start_run f concurrency ids w) r
    → (number is_active r.phases ≤ max 1 concurrency)
      × (r.sem ≡ max 1 concurrency - number is_active r.phases)
flashes_bounded f concurrency ids w reached =
    omega (arith, Reach-IsCounted (start-run-IsCounted f concurrency ids w) reached)

abbrev ids_of : Phases → List ℕ
ids_of [] = []
ids_of ((i, p) ∷ ps) = i ∷ ids_of ps
