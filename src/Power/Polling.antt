-- ===== src/Power/Polling.antt =====
-- How long the power state is polled, and what the last reading tells.
use mathlib.Core.Path.{subst}
use clusterone.Prelude.{
  Bool, Bool-cases, Option, String, ap, arith, eqb, eqb_iff, false, if◌then◌else◌, inl, inr, none,
  refl, suc, sym, true, zero, ℕ, ◌+◌, ◌<◌, ◌∙◌, ◌≡◌, ◌≢◌, ◌≤◌, ◌⊎◌,
}
use clusterone.Exec.{Result, cancelled, err, ok}
use clusterone.Models.{Credentials, ServerInfo}
use clusterone.Power.{PowerMethods, is_settled, poll_from, verify_state, wanted}

-- A result that is no cancellation.
abbrev pub Runs : {A : Type 0} → Result A → Type 0
Runs r = r ≢ err cancelled

module _ (read : ℕ → Result (Option String)) (want : Option String) where
  go_on_from : Option String → ℕ → ℕ → Result (Option String) → Result (Option String)
  unfolding poll_from
  go_on_from last i n (err e) = err e
  go_on_from last i n (ok seen) =
      if is_settled want seen then ok seen else poll_from read want (suc i) n seen

  -- What one reading leaves to do.
  abbrev Stopped : ℕ → ℕ → Option String → Option String → Type 0
  Stopped i n seen s =
      ((is_settled want s ≡ true) × (s ≡ seen))
      ⊎ ((is_settled want s ≡ false) × (poll_from read want (suc i) n s ≡ ok seen))

  if_settled :
      (b : Bool) (i n : ℕ) (seen s : Option String)
      → is_settled want s ≡ b
      → (if b then ok s else poll_from read want (suc i) n s) ≡ ok seen
      → Stopped i n seen s
  if_settled true i n seen s h q = inl (h, ground (arith, q))
  if_settled false i n seen s h q = inr (h, q)

  go_on_from-Stopped :
      (r : Result (Option String)) (i n : ℕ) (last seen : Option String)
      → go_on_from last i n r ≡ ok seen
      → (s : Option String) × (r ≡ ok s) × Stopped i n seen s
  unfolding go_on_from
  go_on_from-Stopped (err e) i n last seen q = absurd (ground (arith, q))
  go_on_from-Stopped (ok s) i n last seen q =
      (s, refl, if_settled (is_settled want s) i n seen s refl q)

  poll_from-Stopped :
      (i n : ℕ) (last seen : Option String)
      → poll_from read want i (suc n) last ≡ ok seen
      → (s : Option String) × (read i ≡ ok s) × Stopped i n seen s
  unfolding poll_from go_on_from
  poll_from-Stopped i n last seen q = go_on_from-Stopped (read i) i n last seen q

  -- The readings from number `i` up to `k` answer, and none is the state that is wanted.
  abbrev Unsettled : ℕ → ℕ → Type 0
  Unsettled i k =
      (j : ℕ) → i ≤ j → j < k → (s : Option String) × (read j ≡ ok s) × (is_settled want s ≡ false)

  -- The reading that an answer is of, among the `n + 1` from number `i` on.
  abbrev pub IsReading : ℕ → ℕ → Option String → Type 0
  IsReading i n seen =
      (k : ℕ) × (i ≤ k)
      × (k ≤ i + n)
      × (read k ≡ ok seen)
      × ((is_settled want seen ≡ true) ⊎ (k ≡ i + n))
      × Unsettled i k

  extend :
      (i k : ℕ) (s : Option String)
      → read i ≡ ok s
      → is_settled want s ≡ false
      → Unsettled (suc i) k
      → Unsettled i k
  extend i k s h u later j le lt = elim (Bool-cases (eqb i j)) [
    | inl same ↦ let e = (eqb_iff i j).0 same in (s, subst (λ (x : ℕ). read x ≡ ok s) e h, u)
    | inr apart ↦ later j (ground (arith, apart, le)) lt
  ]

  read_here :
      (i n : ℕ) (seen s : Option String)
      → read i ≡ ok s
      → s ≡ seen
      → (is_settled want seen ≡ true) ⊎ (i ≡ i + n)
      → IsReading i n seen
  read_here i n seen s h same stop =
      (i, omega arith, omega arith, h ∙ ap ok same, stop, λ j le lt. absurd (omega (arith, le, lt)))

  read_next :
      (i n : ℕ) (seen s : Option String)
      → read i ≡ ok s
      → is_settled want s ≡ false
      → IsReading (suc i) n seen
      → IsReading i (suc n) seen
  read_next i n seen s h unlike (k, low, high, found, stop, before) = (
    k,
    omega (arith, low),
    omega (arith, high),
    found,
    elim stop [ inl done ↦ inl done | inr last ↦ inr (omega (arith, last)) ],
    extend i k s h unlike before,
  )

  poll_from-IsReading :
      (n i : ℕ) (last seen : Option String)
      → poll_from read want i (suc n) last ≡ ok seen
      → IsReading i n seen
  unfolding poll_from
  poll_from-IsReading zero i last seen q =
      let (s, h, outcome) = poll_from-Stopped i zero last seen q in
      elim outcome [
        | inl (done, same) ↦ read_here i zero seen s h same (inr (omega arith))
        | inr (unlike, rest) ↦ read_here i zero seen s h (ground (arith, rest)) (inr (omega arith))
      ]
  poll_from-IsReading (suc n) i last seen q =
      let (s, h, outcome) = poll_from-Stopped i (suc n) last seen q in
      elim outcome [
        | inl (done, same) ↦
            read_here i (suc n) seen s h same (inl (ap (is_settled want) (sym same) ∙ done))
        | inr (unlike, rest) ↦
            read_next i n seen s h unlike (poll_from-IsReading n (suc i) s seen rest)
      ]

module _ (read : ℕ → Result (Option String)) (want : Option String)
    (runs : (i : ℕ) → Runs (read i)) where
  settle-Runs :
      (b : Bool) (s : Option String) (r : Result (Option String))
      → Runs r
      → Runs (if b then ok s else r)
  settle-Runs true s r h = λ q. ground (arith, q)
  settle-Runs false s r h = h

  go_on_from-Runs :
      (r : Result (Option String)) (last : Option String) (i n : ℕ)
      → Runs r
      → ((s : Option String) → Runs (poll_from read want (suc i) n s))
      → Runs (go_on_from read want last i n r)
  unfolding go_on_from
  go_on_from-Runs (err e) last i n h k = h
  go_on_from-Runs (ok s) last i n h k = settle-Runs (is_settled want s) s _ (k s)

  pub poll_from-Runs : (i n : ℕ) (last : Option String) → Runs (poll_from read want i n last)
  unfolding poll_from go_on_from
  poll_from-Runs i zero last = λ q. ground (arith, q)
  poll_from-Runs i (suc n) last =
      go_on_from-Runs (read i) last i n (runs i) (λ s. poll_from-Runs (suc i) n s)

-- A power state that is reported after an action is that of one of at most four readings. Each
-- reading before it take_answer, and not with the state that is wanted; it is that state, or the
-- reading is the fourth.
pub verify_state-IsReading :
    (methods : PowerMethods) (info : ServerInfo) (creds : Credentials) (action : String)
    (seen : Option String)
    → verify_state methods info creds action ≡ ok seen
    → IsReading (λ i. methods.get_power_state i info creds) (wanted action) 0 3 seen
unfolding verify_state
verify_state-IsReading methods info creds action seen h =
    poll_from-IsReading (λ i. methods.get_power_state i info creds) (wanted action) 3 0 none seen h
