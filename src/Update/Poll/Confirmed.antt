-- ===== src/Update/Poll/Confirmed.antt =====
-- What a resumed task's completion rests on.
use clusterone.Prelude.{
  Bool-cases, Option, String, ap, arith, contains, eq_iff, false, inl, inr, none, or_else, refl,
  some, true, ℕ, ◌==◌, ◌∙◌, ◌≡◌, ◌≢◌,
}
use clusterone.Exec.{Exn, Result, cancelled, err, ok, raised}
use clusterone.Json.{Fields, get_field, get_or_null, num}
use clusterone.Models.{Credentials}
use clusterone.Jobs.{TaskRow}
use clusterone.Servers.{ServerRow, get_server_of}
use clusterone.Credentials.{resolve}
use clusterone.Update.{Env, World, parse_redfish_root}
use clusterone.Update.Poll.{
  Resumption, detail_of, effective_oem, judge, percent, poll, poll_failed, read_answer,
  resume_connection, resumption, state_text, stopped_states, task_uri,
}
use clusterone.Update.Preflight.{Reader}

abbrev IsDone : Resumption → Type 0
IsDone r = r.update.state ≡ some "completed"

not_failed : ◌≢◌ {A = Option String} (some "failed") (some "completed")
not_failed h = ground (arith, eq_iff "failed" "completed")

not_flashing : ◌≢◌ {A = Option String} (some "flashing") (some "completed")
not_flashing h = ground (arith, eq_iff "flashing" "completed")

-- The BMC's answer at the saved URI says that its task is completed.
pub record IsConfirmed (env : Env) (t : TaskRow) (s : ServerRow) (creds : Credentials)
    : Type 0 where
  pub root : String × ℕ × String
  pub parsed : parse_redfish_root s.redfish_root ≡ ok root
  pub read : Reader
  pub connected : env.connect (resume_connection s creds root) ≡ ok read
  pub task : Fields
  pub answered : read (task_uri t) ≡ ok task
  pub says : state_text (get_or_null "TaskState" task) ≡ ok "completed"

judge_done :
    (t : TaskRow) (task : Fields) (state : String) (pct : ℕ) (r : Resumption)
    → judge t task state pct ≡ ok r
    → IsDone r
    → state ≡ "completed"
unfolding judge
judge_done t task state pct r h d = elim (Bool-cases (state == "completed")) [
  | inl same ↦ (eq_iff state "completed").0 same
  | inr other ↦ elim (Bool-cases (contains state stopped_states)) [
    | inl stopped ↦
        absurd (stopped_cases other stopped (detail_of (get_or_null "Messages" task)) refl)
    | inr running ↦ absurd (ground (arith, not_flashing))
  ]
]
  where
    stopped_cases :
        (state == "completed") ≡ false
        → contains state stopped_states ≡ true
        → (x : Result String) → detail_of (get_or_null "Messages" task) ≡ x
        → ⊥
    stopped_cases other stopped (err e) m = ground arith
    stopped_cases other stopped (ok detail) m = ground (arith, not_failed)

answer_done :
    (t : TaskRow) (task : Fields) (r : Resumption)
    → read_answer t task ≡ ok r
    → IsDone r
    → state_text (get_or_null "TaskState" task) ≡ ok "completed"
unfolding read_answer
answer_done t task r h d =
    by_state (state_text (get_or_null "TaskState" task)) refl
      (percent (or_else (get_field "PercentComplete" task) (num t.progress))) refl
  where
    by_state :
        (x : Result String)
        → state_text (get_or_null "TaskState" task) ≡ x
        → (y : Result ℕ) → percent (or_else (get_field "PercentComplete" task) (num t.progress)) ≡ y
        → state_text (get_or_null "TaskState" task) ≡ ok "completed"
    by_state (err e) p y q = absurd (ground arith)
    by_state (ok state) p (err e) q = absurd (ground arith)
    by_state (ok state) p (ok pct) q = p ∙ ap ok (judge_done t task state pct r (ground arith) d)

failed_poll :
    (t : TaskRow) (uri : String) (e : Exn) (r : Resumption)
    → poll_failed t uri e ≡ ok r
    → IsDone r
    → ⊥
failed_poll t uri cancelled r h d = ground arith
failed_poll t uri (raised class message) r h d = ground (arith, not_failed)

poll_done :
    (env : Env) (t : TaskRow) (s : ServerRow) (creds : Credentials) (r : Resumption)
    → poll env t s creds ≡ ok r
    → IsDone r
    → IsConfirmed env t s creds
unfolding poll
poll_done env t s creds r h d = by_root (parse_redfish_root s.redfish_root) refl
  where
    by_answer :
        (root : String × ℕ × String)
        → parse_redfish_root s.redfish_root ≡ ok root
        → (read : Reader) → env.connect (resume_connection s creds root) ≡ ok read
        → (z : Result Fields) → read (task_uri t) ≡ z
        → IsConfirmed env t s creds
    by_answer root p read c (err e) q = absurd (failed_poll t (task_uri t) e r (ground arith) d)
    by_answer root p read c (ok task) q = record {
      root = root;
      parsed = p;
      read = read;
      connected = c;
      task = task;
      answered = q;
      says = answer_done t task r (ground arith) d;
    }

    by_read :
        (root : String × ℕ × String)
        → parse_redfish_root s.redfish_root ≡ ok root
        → (y : Result Reader) → env.connect (resume_connection s creds root) ≡ y
        → IsConfirmed env t s creds
    by_read root p (err e) c = absurd (failed_poll t (task_uri t) e r (ground arith) d)
    by_read root p (ok read) c = by_answer root p read c (read (task_uri t)) refl

    by_root :
        (x : Result (String × ℕ × String))
        → parse_redfish_root s.redfish_root ≡ x
        → IsConfirmed env t s creds
    by_root (err e) p = absurd (ground arith)
    by_root (ok root) p = by_read root p (env.connect (resume_connection s creds root)) refl

-- A task that was left open by a restart is completed by its poll only if its server and a
-- credential for it are known and the BMC, asked at the saved URI, says that the task is completed.
pub resumption-IsConfirmed :
    (env : Env) (t : TaskRow) (w : World) (r : Resumption)
    → resumption env t w ≡ ok r
    → r.update.state ≡ some "completed"
    → (s : ServerRow) × (creds : Credentials) × (get_server_of t.server_id w.servers ≡ some s)
      × (resolve env.decrypt (some s.ip) (effective_oem s) w.vault ≡ some creds)
      × IsConfirmed env t s creds
unfolding resumption
resumption-IsConfirmed env t w r h d = by_server (get_server_of t.server_id w.servers) refl
  where
    Found : Type 0
    Found =
        (s : ServerRow) × (creds : Credentials) × (get_server_of t.server_id w.servers ≡ some s)
        × (resolve env.decrypt (some s.ip) (effective_oem s) w.vault ≡ some creds)
        × IsConfirmed env t s creds

    by_creds :
        (s : ServerRow)
        → get_server_of t.server_id w.servers ≡ some s
        → (y : Option Credentials) → resolve env.decrypt (some s.ip) (effective_oem s) w.vault ≡ y
        → Found
    by_creds s p none q = absurd (ground (arith, not_failed))
    by_creds s p (some creds) q = (s, creds, p, q, poll_done env t s creds r (ground arith) d)

    by_server : (x : Option ServerRow) → get_server_of t.server_id w.servers ≡ x → Found
    by_server none p = absurd (ground (arith, not_failed))
    by_server (some s) p =
        by_creds s p (resolve env.decrypt (some s.ip) (effective_oem s) w.vault) refl
