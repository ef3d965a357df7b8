-- ===== src/Update/Run/Phases.antt =====
-- The phases of a job's coroutines beside the rows of its tasks.
use mathlib.Core.Path.{subst}
use clusterone.Prelude.{
  All, Bool-cases, List, String, [], all, any, ap, arith, count, eqb, eqb_iff, false, if◌then◌else◌,
  inl, inr, length, map, not, refl, some, sym, true, ℕ, ◌+◌, ◌==◌, ◌∙◌, ◌∷◌, ◌≡◌, ◌≢◌,
}
use clusterone.Jobs.{TaskRow, is_finished}
use clusterone.Update.Run.{
  Phase, Phases, active, all_fresh, fresh, is_over, over, phase_of, set_phase, waiting,
}
use clusterone.Update.Run.Counters.{is_counted, number}

abbrev pub ids_of : Phases → List ℕ
ids_of [] = []
ids_of ((i, p) ∷ ps) = i ∷ ids_of ps

-- No id stands twice.
abbrev pub AreDistinct : List ℕ → Type 0
AreDistinct [] = Unit
AreDistinct (i ∷ is) = All (λ (j : ℕ). j ≢ i) is × AreDistinct is

-- What the row of a coroutine that is over says.
abbrev pub Shows : Phase → String → Type 0
Shows fresh s = Unit
Shows waiting s = Unit
Shows active s = Unit
Shows (over true) s = s ≡ "completed"
Shows (over false) s = s ≡ "failed"

abbrev pub Agrees : List TaskRow → Phases → Type 0
Agrees [] [] = Unit
Agrees [] (p ∷ ps) = ⊥
Agrees (t ∷ ts) [] = ⊥
Agrees (t ∷ ts) ((i, p) ∷ ps) = (t.id ≡ i) × Shows p t.state × Agrees ts ps

pub ids-set_phase : (i : ℕ) (p : Phase) (ps : Phases) → ids_of (set_phase i p ps) ≡ ids_of ps
unfolding set_phase
ids-set_phase i p [] = refl
ids-set_phase i p ((j, q) ∷ ps) = ground (arith, ids-set_phase i p ps)

pub set_phase_same :
    (i : ℕ) (p : Phase) (ps : Phases) → phase_of i ps ≡ some p → set_phase i p ps ≡ ps
unfolding set_phase phase_of
set_phase_same i p [] h = refl
set_phase_same i p ((j, q) ∷ ps) h = ground (arith, set_phase_same i p ps)

pub set_phase_twice :
    (i : ℕ) (p : Phase) (ps : Phases) → set_phase i p (set_phase i p ps) ≡ set_phase i p ps
unfolding set_phase
set_phase_twice i p [] = refl
set_phase_twice i p ((j, q) ∷ ps) = ground (arith, set_phase_twice i p ps)

-- `UPDATE … WHERE id=?` on the rows
abbrev pub on_row : ℕ → (TaskRow → TaskRow) → List TaskRow → List TaskRow
on_row i g ts = map (λ (t : TaskRow). if eqb t.id i then g t else t) ts

Agrees-other :
    (i : ℕ) (g : TaskRow → TaskRow) (ts : List TaskRow) (ps : Phases)
    → All (λ (j : ℕ). j ≢ i) (ids_of ps)
    → Agrees ts ps
    → Agrees (on_row i g ts) ps
Agrees-other i g [] [] d a = tt
Agrees-other i g [] (p ∷ ps) d a = a
Agrees-other i g (t ∷ ts) [] d a = a
Agrees-other i g (t ∷ ts) ((j, p) ∷ ps) d a = elim (Bool-cases (eqb t.id i)) [
  | inl same ↦ absurd (d.0 (sym a.0 ∙ (eqb_iff t.id i).0 same))
  | inr other ↦ rw other (a.0, a.1, Agrees-other i g ts ps d.1 a.2)
]

-- A write of row `i` that shows what phase `p` asks for.
pub Agrees-set_phase :
    (i : ℕ) (p : Phase) (g : TaskRow → TaskRow)
    → ((t : TaskRow) → (g t).id ≡ t.id)
    → ((t : TaskRow) → Shows p (g t).state)
    → (ts : List TaskRow) (ps : Phases) → AreDistinct (ids_of ps)
    → Agrees ts ps
    → Agrees (on_row i g ts) (set_phase i p ps)
unfolding set_phase
Agrees-set_phase i p g keeps shows [] [] d a = tt
Agrees-set_phase i p g keeps shows [] (q ∷ ps) d a = absurd a
Agrees-set_phase i p g keeps shows (t ∷ ts) [] d a = a
Agrees-set_phase i p g keeps shows (t ∷ ts) ((j, q) ∷ ps) d a = elim (Bool-cases (eqb j i)) [
  | inl same ↦
      rw (ap (λ (k : ℕ). eqb k i) a.0 ∙ same, same)
        (
          keeps t ∙ a.0,
          shows t,
          Agrees-other i g ts ps
              (subst (λ k. All (λ (l : ℕ). l ≢ k) (ids_of ps)) ((eqb_iff j i).0 same) d.0) a.2,
        )
  | inr other ↦
      rw (ap (λ (k : ℕ). eqb k i) a.0 ∙ other, other)
        (a.0, a.1, Agrees-set_phase i p g keeps shows ts ps d.1 a.2)
]

-- A phase that asks nothing of its row.
pub Agrees-move :
    (i : ℕ) (p : Phase)
    → ((s : String) → Shows p s)
    → (ts : List TaskRow) (ps : Phases) → Agrees ts ps
    → Agrees ts (set_phase i p ps)
unfolding set_phase
Agrees-move i p shows [] [] a = tt
Agrees-move i p shows [] (q ∷ ps) a = absurd a
Agrees-move i p shows (t ∷ ts) [] a = a
Agrees-move i p shows (t ∷ ts) ((j, q) ∷ ps) a = elim (Bool-cases (eqb j i)) [
  | inl same ↦ rw same (a.0, shows t.state, a.2)
  | inr other ↦ rw other (a.0, a.1, Agrees-move i p shows ts ps a.2)
]

pub Agrees-fresh : (ts : List TaskRow) → Agrees ts (all_fresh (map (λ (t : TaskRow). t.id) ts))
Agrees-fresh [] = tt
Agrees-fresh (t ∷ ts) = (refl, tt, Agrees-fresh ts)

pub ids-all_fresh : (ids : List ℕ) → ids_of (all_fresh ids) ≡ ids
ids-all_fresh [] = refl
ids-all_fresh (i ∷ ids) = ap (λ (js : List ℕ). i ∷ js) (ids-all_fresh ids)

-- With every coroutine over, the counters read off the phases are those read off the rows.
pub counts-Agrees :
    (ts : List TaskRow) (ps : Phases)
    → Agrees ts ps
    → all is_over ps ≡ true
    → (count (λ s. s == "completed") (map (λ (t : TaskRow). t.state) ts)
        ≡ number (is_counted true) ps)
      × (count (λ s. s == "failed") (map (λ (t : TaskRow). t.state) ts)
          ≡ number (is_counted false) ps)
      × (any (λ s. not (is_finished s)) (map (λ (t : TaskRow). t.state) ts) ≡ false)
      × (length (map (λ (t : TaskRow). t.state) ts)
          ≡ number (is_counted true) ps + number (is_counted false) ps)
unfolding number
counts-Agrees [] [] a h = (refl, refl, refl, omega arith)
counts-Agrees [] (p ∷ ps) a h = absurd a
counts-Agrees (t ∷ ts) [] a h = absurd a
counts-Agrees (t ∷ ts) ((i, over true) ∷ ps) a h =
    let e = a.1 in
    let (good, bad, none_open, same) = counts-Agrees ts ps a.2 h in
    (rw (e, good), rw (e, bad), rw (e, none_open), omega (arith, same))
counts-Agrees (t ∷ ts) ((i, over false) ∷ ps) a h =
    let e = a.1 in
    let (good, bad, none_open, same) = counts-Agrees ts ps a.2 h in
    (rw (e, good), rw (e, bad), rw (e, none_open), omega (arith, same))
counts-Agrees (t ∷ ts) ((i, fresh) ∷ ps) a h = cc
counts-Agrees (t ∷ ts) ((i, waiting) ∷ ps) a h = cc
counts-Agrees (t ∷ ts) ((i, active) ∷ ps) a h = cc
