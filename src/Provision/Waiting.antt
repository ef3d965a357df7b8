-- ===== src/Provision/Waiting.antt =====
-- The wait for the installer in core/services/provisioning_orchestrator.py, without fuel.
use clusterone.Prelude.{
  Bool, arith, false, if◌then◌else◌, ltb, not, refl, suc, true, zero, ℕ, ◌*◌, ◌+◌, ◌≡◌, ◌≤◌,
}
use clusterone.Exec.{Result, cancelled, err, ok}
use clusterone.Provision.Yard.{Setting, Yard, report_progress}
use clusterone.Provision.Task.{ceiling, time_left, wait_from}

by_test :
    {A : Type 0} (P : A → Type 0) (b : Bool) (x y : A)
    → (b ≡ true → P x)
    → (b ≡ false → P y)
    → P (if b then x else y)
by_test P true x y h k = h refl
by_test P false x y h k = k refl

false_of : (b : Bool) → not b ≡ true → b ≡ false
false_of b h = ground (arith, h)

true_of : (b : Bool) → not b ≡ false → b ≡ true
true_of b h = ground (arith, h)

module _ (s : Setting) (id : ℕ) where
  abbrev pub in_time : ℕ → Bool
  in_time i = ltb (s.round i).time (s.began_at + 1800)

  -- What a round reports before it sleeps.
  abbrev pub waited : ℕ → Yard → Yard
  waited i w =
      (report_progress id "installing" (50 + s.share (time_left s.began_at (s.round i))) "" w).1

  -- The loop from a round on, as the rounds show it.
  pub data Waits : ℕ → Yard → Result (Unit {0}) × Yard → Type 0 where
    late : (i : ℕ) (w : Yard) → in_time i ≡ false → Waits i w (err ceiling, w)
    stopped :
        (i : ℕ) (w : Yard)
        → in_time i ≡ true
        → (s.round i).is_cancelled ≡ true
        → Waits i w (err cancelled, w)
    back :
        (i : ℕ) (w : Yard)
        → in_time i ≡ true
        → (s.round i).is_cancelled ≡ false
        → (s.round i).is_ready ≡ true
        → Waits i w (ok tt, w)
    again :
        (i : ℕ) (w : Yard) (x : Result (Unit {0}) × Yard)
        → in_time i ≡ true
        → (s.round i).is_cancelled ≡ false
        → (s.round i).is_ready ≡ false
        → Waits (suc i) (waited i w) x
        → Waits i w x

  round-Waits :
      (i n : ℕ) (w : Yard)
      → (in_time i ≡ true → Waits (suc i) (waited i w) (wait_from s id n (suc i) (waited i w)))
      → Waits i w (wait_from s id (suc n) i w)
  unfolding wait_from
  round-Waits i n w h =
      let on = wait_from s id n (suc i) (waited i w) in
      let r = s.round i in
      by_test (Waits i w) (not (in_time i)) (err ceiling, w) _
        (λ e. late i w (false_of (in_time i) e))
        (λ e.
          let early = true_of (in_time i) e in
          by_test (Waits i w) r.is_cancelled (err cancelled, w)
            (if r.is_ready then (ok tt, w) else on) (λ c. stopped i w early c)
            (λ c.
              by_test (Waits i w) r.is_ready (ok tt, w) on (λ a. back i w early c a)
                (λ a. again i w on early c a (h early))))

  -- A round begins at least 15 seconds behind the one before it.
  abbrev pub Paced : Type 0
  Paced =
      ((i : ℕ) → (s.round i).time + 15 ≤ (s.round (suc i)).time) × (s.began_at ≤ (s.round 0).time)

  round_time : Paced → (i : ℕ) → s.began_at + 15 * i ≤ (s.round i).time
  round_time p zero = omega (arith, p.1)
  round_time p (suc i) = omega (arith, p.0 i, round_time p i)

  in_time-le : (i : ℕ) → Paced → in_time i ≡ true → suc i ≤ 120
  in_time-le i p e = let t = round_time p i in ground (arith, t, e)

  -- After 120 rounds it is late.
  fuelled-Waits :
      Paced → (n i : ℕ) (w : Yard) → n + i ≡ 121 → i ≤ 120 → Waits i w (wait_from s id n i w)
  fuelled-Waits p zero i w e h = absurd (omega (arith, e, h))
  fuelled-Waits p (suc n) i w e h =
      round-Waits i n w
        (λ early. fuelled-Waits p n (suc i) (waited i w) (omega (arith, e)) (in_time-le i p early))

-- When each round of the wait begins at least 15 seconds behind the one before it, the 121 rounds
-- of fuel are enough: the wait comes to its end as the loop does, in the first round that is past
-- the ceiling of 30 minutes, cancelled, or sees port 22 answer, and reports each round before it.
pub wait_from-Waits :
    (s : Setting) (id : ℕ) (w : Yard) → Paced s id → Waits s id 0 w (wait_from s id 121 0 w)
wait_from-Waits s id w p = fuelled-Waits s id p 121 0 w (omega arith) (omega arith)
