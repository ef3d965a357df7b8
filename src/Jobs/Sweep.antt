-- ===== src/Jobs/Sweep.antt =====
-- The restart sweep `fail_non_terminal_jobs_except`.
use clusterone.Prelude.{
  All, Bool, Bool-cases, List, [], ap, arith, count, false, fun_ext, has_number, if◌then◌else◌, inl,
  inr, map, refl, true, ℕ, ◌∷◌, ◌≡◌,
}
use clusterone.Jobs.Tables.{JobRow, JobsRepo}
use clusterone.Jobs.Queries.{fail_non_terminal_jobs_except, fail_row, is_open_job, is_stale}

abbrev pub IsSettled : List ℕ → JobRow → Type 0
IsSettled ids j = is_open_job j.state ≡ true → has_number j.id ids ≡ true

sweep_row : (ids : List ℕ) (j : JobRow) → IsSettled ids (if is_stale ids j then fail_row j else j)
sweep_row ids j = elim (Bool-cases (is_stale ids j)) [
  | inl stale ↦ rw stale (λ h. cc)
  | inr fresh ↦ rw fresh (λ h. ground arith)
]

sweep_rows :
    (ids : List ℕ) (js : List JobRow)
    → All (IsSettled ids) (map (λ (j : JobRow). if is_stale ids j then fail_row j else j) js)
sweep_rows ids [] = tt
sweep_rows ids (j ∷ js) = (sweep_row ids j, sweep_rows ids js)

none_kept : (j : JobRow) → is_open_job j.state ≡ is_stale [] j
none_kept j = ground arith

-- The code's two statements are one: with no id to keep, no row is spared.
sweep_lem :
    (ids : List ℕ) (r : JobsRepo)
    → fail_non_terminal_jobs_except ids r ≡ (
      count (is_stale ids) r.jobs,
      record r { jobs = map (λ (j : JobRow). if is_stale ids j then fail_row j else j) r.jobs },
    )
unfolding fail_non_terminal_jobs_except
sweep_lem [] r =
    ap
      (λ (p : JobRow → Bool). (
        count p r.jobs,
        record r { jobs = map (λ (j : JobRow). if p j then fail_row j else j) r.jobs },
      ))
      (fun_ext none_kept)
sweep_lem (i ∷ ids) r = refl

-- After the sweep a job is pending or running only if its id was to be kept.
pub sweep_settles :
    (ids : List ℕ) (r : JobsRepo) → All (IsSettled ids) (fail_non_terminal_jobs_except ids r).1.jobs
sweep_settles ids r = rw sweep_lem (sweep_rows ids r.jobs)

spared_rows :
    (ids : List ℕ) (js : List JobRow)
    → All (λ (j : JobRow). is_stale ids j ≡ false) js
    → map (λ (j : JobRow). if is_stale ids j then fail_row j else j) js ≡ js
spared_rows ids [] h = refl
spared_rows ids (j ∷ js) h = rw h.0 (ap (λ (js' : List JobRow). j ∷ js') (spared_rows ids js h.1))

-- The sweep changes no task, no job that is settled and no job that is kept.
pub sweep_spares :
    (ids : List ℕ) (r : JobsRepo)
    → ((fail_non_terminal_jobs_except ids r).1.tasks ≡ r.tasks)
      × (All (λ j. is_stale ids j ≡ false) r.jobs → (fail_non_terminal_jobs_except ids r).1 ≡ r)
sweep_spares ids r = (
  rw sweep_lem,
  λ h. rw sweep_lem (ap (λ (js : List JobRow). record r { jobs = js }) (spared_rows ids r.jobs h)),
)
