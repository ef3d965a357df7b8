-- ===== src/Update/Poll.antt =====
-- `_resume_one_task` and `_resume_one_task_inner`: one poll of a task that a restart found open.
pub mod Confirmed
use clusterone.Prelude.{
  List, Option, String, [], contains, if◌then◌else◌, is_empty, lower, none, or_else, parse_nat,
  print_nat, some, strip, ℕ, ◌<>◌, ◌==◌, ◌∷◌,
}
use clusterone.Exec.{Exn, Result, cancelled, err, ok, raised}
use clusterone.Json.{
  Fields, Items, Json, arr, bool, cons, get_field, get_or_null, is_truthy, nil, no_attribute, null,
  num, obj, show, str, type_name,
}
use clusterone.Models.{Credentials}
use clusterone.Jobs.{TaskRow, TaskUpdate, finalize_job_from_tasks}
use clusterone.Servers.{ServerRow, get_server_of, trimmed}
use clusterone.Credentials.{resolve}
use clusterone.Update.{
  Connection, Env, World, log, or_text, parse_redfish_root, progress, write_task,
}
use clusterone.Update.Preflight.{is_redfish}

abbrev pub failed_at : ℕ → String → TaskUpdate
failed_at pct message = record {
  state = some "failed";
  progress = some pct;
  message = some message;
  version_after = none;
  redfish_task = none;
}

-- What one poll writes to the row and to the activity.
pub record Resumption : Type 0 where
  pub update : TaskUpdate
  pub notes : List (String × String)

abbrev give_up : ℕ → String → Result Resumption
give_up pct message = ok (record { update = failed_at pct message; notes = [] })

-- `(task.get("TaskState") or "Running").lower()`
unfoldable pub state_text : Json → Result String
state_text (str s) = ok (lower (or_text s "Running"))
state_text j = if is_truthy j then no_attribute "lower" j else ok "running"

-- `int(value or 0)`
unfoldable pub percent : Json → Result ℕ
percent null = ok 0
percent (bool b) = ok (if b then 1 else 0)
percent (num n) = ok n
percent (str s) = if is_empty s then ok 0 else elim (parse_nat s) [
  | some n ↦ ok n
  | none ↦ err (raised "ValueError" ("invalid literal for int() with base 10: '" <> s <> "'"))
]
percent j =
    if is_truthy j
    then err (
        raised "TypeError" (
          "int() argument must be a string, a bytes-like object or a real number, not '"
          <> type_name j
          <> "'"))
    else ok 0

message_of : Json → Result String
message_of (obj fs) = ok (show (or_else (get_field "Message" fs) (str "")))
message_of j = no_attribute "get" j

unfoldable pub last_message : Items → Result String
unfolding message_of
last_message nil = ok ""
last_message (cons j nil) = message_of j
last_message (cons j (cons k ks)) = last_message (cons k ks)

-- `msgs[-1].get("Message", "") if msgs else ""`
unfoldable pub detail_of : Json → Result String
unfolding last_message
detail_of (arr js) = last_message js
detail_of (str s) = if is_empty s then ok "" else no_attribute "get" (str s)
detail_of (obj fs) = if is_truthy (obj fs) then err (raised "KeyError" "-1") else ok ""
detail_of j =
    if is_truthy j
    then err (raised "TypeError" ("'" <> type_name j <> "' object is not subscriptable"))
    else ok ""

abbrev task_tag : TaskRow → String
task_tag t = "task#" <> print_nat t.id

abbrev stopped_states : List String
stopped_states = "exception" ∷ "killed" ∷ "cancelled" ∷ []

-- The row behind the BMC's answer.
unfoldable pub judge : TaskRow → Fields → String → ℕ → Result Resumption
judge t task state pct =
    if state == "completed"
    then ok (record {
      update = record {
        state = some "completed";
        progress = some 100;
        message = some "Resumed: BMC reports completed.";
        version_after = none;
        redfish_task = none;
      };
      notes = ("success", task_tag t <> " resumed and finalized as completed") ∷ [];
    })
    else if contains state stopped_states
    then elim (detail_of (get_or_null "Messages" task)) [
      | err e ↦ err e
      | ok detail ↦ ok (record {
        update = failed_at pct (strip ("Resumed: BMC reports " <> state <> ". " <> detail));
        notes = ("warning", task_tag t <> " resumed and finalized as " <> state) ∷ [];
      })
    ]
    else ok (record {
      update = record {
        state = some "flashing";
        progress = some pct;
        message = some ("Resumed: BMC reports " <> state <> " (" <> print_nat pct <> "%).");
        version_after = none;
        redfish_task = none;
      };
      notes =
          ("info", task_tag t <> " resumed; BMC reports " <> state <> " (" <> print_nat pct <> "%)")
          ∷ [];
    })

unfoldable pub read_answer : TaskRow → Fields → Result Resumption
unfolding judge
read_answer t task = elim (state_text (get_or_null "TaskState" task)) [
  | err e ↦ err e
  | ok state ↦ elim (percent (or_else (get_field "PercentComplete" task) (num t.progress))) [
    | err e ↦ err e
    | ok pct ↦ judge t task state pct
  ]
]

-- The two handlers of the poll.
abbrev poll_failed : TaskRow → String → Exn → Result Resumption
poll_failed t uri cancelled = err cancelled
poll_failed t uri (raised class message) =
    if is_redfish class
    then give_up t.progress
        ("Resume: Task URI " <> uri <> " unreachable (" <> message <> ") — please re-run.")
    else give_up t.progress ("Resume: client init failed (" <> class <> ": " <> message <> ")")

abbrev pub effective_oem : ServerRow → Option String
effective_oem s = if is_empty (trimmed s.oem_override) then s.oem else some (trimmed s.oem_override)

abbrev pub resume_connection : ServerRow → Credentials → String × ℕ × String → Connection
resume_connection s creds (host, port, scheme) = record {
  host = host;
  port = port;
  scheme = scheme;
  credentials = creds;
  tls_fingerprint = s.tls_fpr;
}

abbrev pub task_uri : TaskRow → String
task_uri t = or_else t.redfish_task ""

-- One GET of the saved URI.
unfoldable pub poll : Env → TaskRow → ServerRow → Credentials → Result Resumption
unfolding read_answer
poll env t s creds = elim (parse_redfish_root s.redfish_root) [
  | err e ↦ err e
  | ok root ↦ elim (env.connect (resume_connection s creds root)) [
    | err e ↦ poll_failed t (task_uri t) e
    | ok read ↦ elim (read (task_uri t)) [
      | err e ↦ poll_failed t (task_uri t) e
      | ok task ↦ read_answer t task
    ]
  ]
]

unfoldable pub resumption : Env → TaskRow → World → Result Resumption
unfolding poll
resumption env t w = elim (get_server_of t.server_id w.servers) [
  | none ↦ give_up 0 "Resume: server vanished from DB"
  | some s ↦ elim (resolve env.decrypt (some s.ip) (effective_oem s) w.vault) [
    | none ↦ give_up 0 "Resume: no saved credential for this BMC"
    | some creds ↦ poll env t s creds
  ]
]

abbrev log_all : List (String × String) → World → World
log_all [] w = w
log_all ((level, message) ∷ notes) w = log_all notes (log level message w)

abbrev applied : ℕ → Result Resumption → World → World
applied id (err e) w = w
applied id (ok r) w = log_all r.notes (write_task id r.update w)

-- The job is finalized whether the poll raises or not.
unfoldable pub resume_one_task : Env → TaskRow → World → World
unfolding resumption
resume_one_task env t w =
    let w' = applied t.id (resumption env t w) w in
    record w' { jobs = (finalize_job_from_tasks t.job_id w'.jobs).1 }
