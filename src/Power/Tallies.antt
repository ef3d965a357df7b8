-- ===== src/Power/Tallies.antt =====
-- What a run of a power action counts and reports.
use clusterone.Prelude.{
  Bool, Bool-cases, List, Option, String, [], ap, arith, count, eqb, if◌then◌else◌, inl, inr,
  length, map, none, not, refl, some, suc, sym, ℕ, ◌++◌, ◌+◌, ◌<>◌, ◌∙◌, ◌∷◌, ◌≡◌, ◌⊎◌,
}
use clusterone.Exec.{Result, cancelled, err, ok, raised}
use clusterone.Models.{Credentials, Outcome, ServerInfo}
use clusterone.Servers.{ServerRow, get_server}
use clusterone.Plugins.{Plugin}
use clusterone.Power.{
  Answer, PowerEnv, Site, info_from_row, refuse, resolve_power_creds, verify_state,
}
use clusterone.Power.Apply.{
  Ends, Reported, Tally, act, apply_found, apply_one, apply_routed, conclude, concluded,
  count_answer, no_tally, note, reported_of, route, run_all, run_power, take_answer,
}
use clusterone.Power.Polling.{Runs, poll_from-Runs}

-- The counters agree with the calls of `on_result`.
pub data IsTally (t : Tally) : Type 0 where
  agreeing :
      t.ok_count ≡ count (λ (r : Reported). r.is_ok) t.reported
      → t.fail_count ≡ count (λ (r : Reported). not r.is_ok) t.reported
      → IsTally t

count_snoc :
    {A : Type 0} (p : A → Bool) (xs : List A) (a : A)
    → count p (xs ++ a ∷ []) ≡ count p xs + (if p a then 1 else 0)
count_snoc p [] a = omega arith
count_snoc p (x ∷ xs) a = omega (arith, count_snoc p xs a)

note-IsTally : (sid : ℕ) (a : Answer) (t : Tally) → IsTally t → IsTally (note sid a t)
unfolding note
note-IsTally sid a t (agreeing g b) =
    let c = count_snoc (λ (r : Reported). r.is_ok) t.reported (reported_of sid a) in
    let d = count_snoc (λ (r : Reported). not r.is_ok) t.reported (reported_of sid a) in
    agreeing (ground (arith, g, c)) (ground (arith, b, d))

count_answer-IsTally :
    (sid : ℕ) (r : Result Answer) (t : Tally) → IsTally t → IsTally (count_answer sid r t)
unfolding count_answer
count_answer-IsTally sid (ok a) t h = note-IsTally sid a t h
count_answer-IsTally sid (err (raised class message)) t h =
    note-IsTally sid (refuse (class <> ": " <> message)) t h
count_answer-IsTally sid (err cancelled) t h = h

-- The plugins' methods answer or raise, and are not cancelled.
abbrev pub NoneCancelled : PowerEnv → Type 0
NoneCancelled env =
    (plugin : Plugin) (info : ServerInfo) (creds : Credentials)
    → ((action : String) → Runs ((env.methods plugin).power_action info action creds))
      × ((i : ℕ) → Runs ((env.methods plugin).get_power_state i info creds))

module _ (env : PowerEnv) (live : NoneCancelled env) (sid : ℕ)
    (action username password : String) where
  concluded-Runs :
      (row : ServerRow) (message : String) (w : Site) (v : Result (Option String))
      → Runs v
      → Runs (concluded row action message sid w v).0
  unfolding concluded
  concluded-Runs row message w (err e) h = λ q. h (ground (arith, q))
  concluded-Runs row message w (ok state) h = λ q. ground (arith, q)

  take_answer-Runs :
      (plugin : Plugin) (row : ServerRow) (creds : Credentials) (result : Result Outcome) (w : Site)
      → Runs result
      → Runs (take_answer (env.methods plugin) row creds sid action result w).0
  unfolding take_answer conclude verify_state
  take_answer-Runs plugin row creds (err e) w h = λ q. h (ground (arith, q))
  take_answer-Runs plugin row creds (ok result) w h = elim (Bool-cases result.success) [
    | inl e ↦ rw e (
        concluded-Runs row result.message w _
          (poll_from-Runs _ _ (λ i. (live plugin (info_from_row row) creds).1 i) 0 4 none))
    | inr e ↦ rw e (λ q. ground (arith, q))
  ]

  apply_routed-Runs :
      (row : ServerRow) (way : String ⊎ Plugin) (w : Site)
      → Runs (apply_routed env row way sid action username password w).0
  unfolding apply_routed act
  apply_routed-Runs row (inl reason) w = λ q. ground (arith, q)
  apply_routed-Runs row (inr plugin) w =
      let info = info_from_row row in
      let creds = resolve_power_creds env w.vault info username password in
      take_answer-Runs plugin row creds _ _ ((live plugin info creds).0 action)

  apply_found-Runs :
      (found : Option ServerRow) (w : Site)
      → Runs (apply_found env found sid action username password w).0
  unfolding apply_found
  apply_found-Runs none w = λ q. ground (arith, q)
  apply_found-Runs (some row) w = apply_routed-Runs row (route env row) w

  apply_one-Runs : (w : Site) → Runs (apply_one env sid action username password w).0
  unfolding apply_one
  apply_one-Runs w = apply_found-Runs (get_server sid w.servers) w

server_ids : List Reported → List ℕ
server_ids rs = map (λ (r : Reported). r.server_id) rs

map_snoc :
    {A B : Type 0} (f : A → B) (xs : List A) (a : A) → map f (xs ++ a ∷ []) ≡ map f xs ++ f a ∷ []
map_snoc f [] a = refl
map_snoc f (x ∷ xs) a = ap (λ ys. f x ∷ ys) (map_snoc f xs a)

count_answer-servers :
    (sid : ℕ) (r : Result Answer) (t : Tally)
    → Runs r
    → server_ids (count_answer sid r t).reported ≡ server_ids t.reported ++ sid ∷ []
unfolding count_answer note server_ids
count_answer-servers sid (ok a) t h = map_snoc _ t.reported (reported_of sid a)
count_answer-servers sid (err (raised class message)) t h =
    map_snoc _ t.reported (reported_of sid (refuse (class <> ": " <> message)))
count_answer-servers sid (err cancelled) t h = absurd (h refl)

snoc-append : {A : Type 0} (xs : List A) (a : A) (ys : List A) → (xs ++ a ∷ []) ++ ys ≡ xs ++ a ∷ ys
snoc-append [] a ys = refl
snoc-append (x ∷ xs) a ys = ap (λ zs. x ∷ zs) (snoc-append xs a ys)

append_nil : {A : Type 0} (xs : List A) → xs ++ [] ≡ xs
append_nil [] = refl
append_nil (x ∷ xs) = ap (λ zs. x ∷ zs) (append_nil xs)

length-insert :
    {A : Type 0} (xs : List A) (a : A) (ys : List A)
    → length (xs ++ a ∷ ys) ≡ suc (length (xs ++ ys))
length-insert [] a ys = refl
length-insert (x ∷ xs) a ys = ap suc (length-insert xs a ys)

count-insert :
    {A : Type 0} (p : A → Bool) (xs : List A) (a : A) (ys : List A)
    → count p (xs ++ a ∷ ys) ≡ count p (a ∷ xs ++ ys)
count-insert p [] a ys = refl
count-insert p (x ∷ xs) a ys = omega (arith, count-insert p xs a ys)

abbrev ended_ids : Ends → List ℕ
ended_ids ends = map (λ (e : ℕ × Result Answer). e.0) ends

module _ (env : PowerEnv) (action username password : String) where
  -- The coroutines of a list of ids come to their ends: any one that is left ends next, with what its
  -- `_apply_one` gives on the site that it finds.
  pub data Gathers : List ℕ → Ends → Type 0 where
    over : Gathers [] []
    next :
        (before after : List ℕ) (sid : ℕ) (w : Site) (ends : Ends)
        → Gathers (before ++ after) ends
        → Gathers
            (before ++ sid ∷ after)
            ((sid, (apply_one env sid action username password w).0) ∷ ends)

  run_all-IsTally : (ends : Ends) (t : Tally) → IsTally t → IsTally (run_all ends t)
  unfolding run_all
  run_all-IsTally [] t h = h
  run_all-IsTally ((sid, r) ∷ ends) t h =
      run_all-IsTally ends (count_answer sid r t) (count_answer-IsTally sid r t h)

  run_all-servers :
      (ids : List ℕ) (ends : Ends) (t : Tally)
      → NoneCancelled env
      → Gathers ids ends
      → server_ids (run_all ends t).reported ≡ server_ids t.reported ++ ended_ids ends
  unfolding run_all
  run_all-servers _ _ t live over = sym (append_nil (server_ids t.reported))
  run_all-servers _ _ t live (next before after sid w ends rest) =
      let r = (apply_one env sid action username password w).0 in
      run_all-servers (before ++ after) ends (count_answer sid r t) live rest
      ∙ ap (λ xs. xs ++ ended_ids ends)
          (count_answer-servers sid r t (apply_one-Runs env live sid action username password w))
      ∙ snoc-append (server_ids t.reported) sid (ended_ids ends)

  Gathers-count :
      (p : ℕ → Bool) (ids : List ℕ) (ends : Ends)
      → Gathers ids ends
      → count p (ended_ids ends) ≡ count p ids
  Gathers-count p _ _ over = refl
  Gathers-count p _ _ (next before after sid w ends rest) =
      let same = Gathers-count p (before ++ after) ends rest in
      omega (arith, same, count-insert p before sid after)

  Gathers-length :
      (ids : List ℕ) (ends : Ends) → Gathers ids ends → length (ended_ids ends) ≡ length ids
  Gathers-length _ _ over = refl
  Gathers-length _ _ (next before after sid w ends rest) =
      let same = Gathers-length (before ++ after) ends rest in
      omega (arith, same, length-insert before sid after)

count-not :
    {A : Type 0} (p : A → Bool) (xs : List A) → count p xs + count (λ x. not (p x)) xs ≡ length xs
count-not p [] = omega arith
count-not p (x ∷ xs) = let rest = count-not p xs in ground (arith, rest)

length-map : {A B : Type 0} (f : A → B) (xs : List A) → length (map f xs) ≡ length xs
length-map f [] = refl
length-map f (x ∷ xs) = ap suc (length-map f xs)

counters_add : (t : Tally) → IsTally t → t.ok_count + t.fail_count ≡ length (server_ids t.reported)
unfolding server_ids
counters_add t (agreeing g b) =
    let n = count-not (λ (r : Reported). r.is_ok) t.reported in
    let m = length-map (λ (r : Reported). r.server_id) t.reported in omega (arith, g, b, n, m)

ok_of : (t : Tally) → IsTally t → t.ok_count ≡ count (λ (r : Reported). r.is_ok) t.reported
ok_of t (agreeing g b) = g

failed_of :
    (t : Tally) → IsTally t → t.fail_count ≡ count (λ (r : Reported). not r.is_ok) t.reported
failed_of t (agreeing g b) = b

-- In whatever order the coroutines of a run end, it reports each server as often as its id is among
-- the ids, as the coroutines end; its counters are the numbers of good and of failed reports, and
-- together they are the total, whatever each server answers or raises. No method of a plugin is
-- cancelled.
pub run_power-IsTally :
    (env : PowerEnv) (ids : List ℕ) (action username password : String) (ends : Ends)
    → NoneCancelled env
    → Gathers env action username password ids ends
    → let (s, t) = run_power ids action ends in
      (map (λ (r : Reported). r.server_id) t.reported ≡ map (λ (e : ℕ × Result Answer). e.0) ends)
      × ((i : ℕ)
          → count (λ (r : ℕ). eqb r i) (map (λ (r : Reported). r.server_id) t.reported)
            ≡ count (λ (r : ℕ). eqb r i) ids)
      × (s.ok_total ≡ count (λ (r : Reported). r.is_ok) t.reported)
      × (s.failed ≡ count (λ (r : Reported). not r.is_ok) t.reported)
      × (s.ok_total + s.failed ≡ s.total)
unfolding run_power server_ids
run_power-IsTally env ids action username password ends live gathered =
    let t = run_all ends no_tally in
    let same = run_all-servers env action username password ids ends no_tally live gathered in
    let tally = run_all-IsTally env action username password ends no_tally (agreeing refl refl) in
    (
      same,
      λ i.
          ap (count (λ (r : ℕ). eqb r i)) same
          ∙ Gathers-count env action username password (λ (r : ℕ). eqb r i) ids ends gathered,
      ok_of t tally,
      failed_of t tally,
      counters_add t tally
          ∙ ap length same
          ∙ Gathers-length env action username password ids ends gathered,
    )
