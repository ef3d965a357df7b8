-- ===== src/Jobs/Tables.antt =====
-- The rows of `JobsRepo` and the operations that write one.
use clusterone.Prelude.{
  Bool, List, Option, String, [], contains, eqb, if◌then◌else◌, is_some, map, max, none, not, some,
  suc, ℕ, ◌&&◌, ◌++◌, ◌==◌, ◌||◌, ◌∷◌,
}

pub record JobRow : Type 0 where
  pub id : ℕ
  pub created_at : String
  pub created_by : String
  pub fw_type : String
  pub concurrency : ℕ
  pub apply_time : String
  pub state : String
  pub total : ℕ
  pub succeeded : ℕ
  pub failed : ℕ

-- A deleted server or firmware leaves its reference empty.
pub record TaskRow : Type 0 where
  pub id : ℕ
  pub job_id : ℕ
  pub server_id : Option ℕ
  pub firmware_id : Option ℕ
  pub state : String
  pub progress : ℕ
  pub version_before : Option String
  pub version_after : Option String
  pub redfish_task : Option String
  pub message : Option String
  pub started_at : String
  pub finished_at : Option String

pub record JobsRepo : Type 0 where
  pub jobs : List JobRow
  pub tasks : List TaskRow

-- SQLite gives a new row the largest id and one more.
unfoldable pub max_id : List ℕ → ℕ
max_id [] = 0
max_id (i ∷ is) = max i (max_id is)

unfoldable pub create_job : String → ℕ → String → String → String → JobsRepo → ℕ × JobsRepo
create_job fw_type concurrency apply_time created_by now r =
    let id = suc (max_id (map (λ (j : JobRow). j.id) r.jobs)) in
    let row : JobRow = record {
      id = id;
      created_at = now;
      created_by = created_by;
      fw_type = fw_type;
      concurrency = concurrency;
      apply_time = apply_time;
      state = "pending";
      total = 0;
      succeeded = 0;
      failed = 0;
    } in
    (id, record r { jobs = r.jobs ++ row ∷ [] })

unfoldable pub create_task : ℕ → ℕ → ℕ → Option String → String → JobsRepo → ℕ × JobsRepo
create_task job_id server_id firmware_id version_before now r =
    let id = suc (max_id (map (λ (t : TaskRow). t.id) r.tasks)) in
    let row : TaskRow = record {
      id = id;
      job_id = job_id;
      server_id = some server_id;
      firmware_id = some firmware_id;
      state = "queued";
      progress = 0;
      version_before = version_before;
      version_after = none;
      redfish_task = none;
      message = none;
      started_at = now;
      finished_at = none;
    } in
    (id, record r { tasks = r.tasks ++ row ∷ [] })

-- What an UPDATE binds to a column.
pub data Value : Type 0 where
  text : String → Value
  int : ℕ → Value

abbrev pub Pairs : Type 0
Pairs = List (String × Value)

abbrev pub job_update_cols : List String
job_update_cols = "state" ∷ "total" ∷ "succeeded" ∷ "failed" ∷ []

abbrev pub task_update_cols : List String
task_update_cols =
    "state" ∷ "progress" ∷ "message" ∷ "version_after" ∷ "redfish_task" ∷ "finished_at" ∷ []

-- `none` is the ValueError about a column outside the list.
unfoldable pub safe_set_clauses : Pairs → List String → Option Pairs
safe_set_clauses [] allowed = some []
safe_set_clauses ((col, val) ∷ pairs) allowed =
    let rest = safe_set_clauses pairs allowed in
    if contains col allowed
    then elim rest [ some ps ↦ some ((col, val) ∷ ps) | none ↦ none ]
    else none

-- The pair of an argument that is not None.
abbrev pub opt_pair {ℓ} : {A : Type ℓ} → String → (A → Value) → Option A → Pairs
opt_pair col f none = []
opt_pair col f (some a) = (col, f a) ∷ []

unfoldable pub set_job_col : String → Value → JobRow → JobRow
set_job_col col (text s) j = if col == "state" then record j { state = s } else j
set_job_col col (int n) j =
    if col == "total"
    then record j { total = n }
    else if col == "succeeded"
    then record j { succeeded = n }
    else if col == "failed"
    then record j { failed = n }
    else j

unfoldable pub set_task_col : String → Value → TaskRow → TaskRow
set_task_col col (text s) t =
    if col == "state"
    then record t { state = s }
    else if col == "message"
    then record t { message = some s }
    else if col == "version_after"
    then record t { version_after = some s }
    else if col == "redfish_task"
    then record t { redfish_task = some s }
    else if col == "finished_at"
    then record t { finished_at = some s }
    else t
set_task_col col (int n) t = if col == "progress" then record t { progress = n } else t

unfoldable pub assign_job : Pairs → JobRow → JobRow
assign_job [] j = j
assign_job ((col, val) ∷ ps) j = assign_job ps (set_job_col col val j)

unfoldable pub assign_task : Pairs → TaskRow → TaskRow
assign_task [] t = t
assign_task ((col, val) ∷ ps) t = assign_task ps (set_task_col col val t)

-- `UPDATE … WHERE id=?`
abbrev pub at_job : ℕ → (JobRow → JobRow) → JobsRepo → JobsRepo
at_job id f r = record r { jobs = map (λ (j : JobRow). if eqb j.id id then f j else j) r.jobs }

abbrev pub at_task : ℕ → (TaskRow → TaskRow) → JobsRepo → JobsRepo
at_task id f r = record r { tasks = map (λ (t : TaskRow). if eqb t.id id then f t else t) r.tasks }

-- The keyword arguments of `update_job_state` behind the state.
pub record JobUpdate : Type 0 where
  pub total : Option ℕ
  pub succeeded : Option ℕ
  pub failed : Option ℕ

abbrev pub no_counts : JobUpdate
no_counts = record { total = none; succeeded = none; failed = none }

abbrev pub job_pairs : String → JobUpdate → Pairs
job_pairs state u =
    ("state", text state)
    ∷ (opt_pair "total" int u.total
        ++ (opt_pair "succeeded" int u.succeeded ++ opt_pair "failed" int u.failed))

unfoldable pub update_job_state : ℕ → String → JobUpdate → JobsRepo → JobsRepo
unfolding safe_set_clauses assign_job set_job_col
update_job_state id state u r = elim (safe_set_clauses (job_pairs state u) job_update_cols) [
  | some ps ↦ at_job id (assign_job ps) r
  | none ↦ r
]

-- The keyword arguments of `update_task`.
pub record TaskUpdate : Type 0 where
  pub state : Option String
  pub progress : Option ℕ
  pub message : Option String
  pub version_after : Option String
  pub redfish_task : Option String

abbrev pub is_finished : String → Bool
is_finished s = s == "completed" || s == "failed"

unfoldable pub state_pairs : Option String → Option ℕ → String → Pairs
state_pairs none progress now = []
state_pairs (some s) progress now =
    ("state", text s)
    ∷ (if is_finished s
        then ("finished_at", text now)
          ∷ (if s == "completed" && not (is_some progress) then ("progress", int 100) ∷ [] else [])
        else [])

unfoldable pub task_pairs : TaskUpdate → String → Pairs
task_pairs u now =
    state_pairs u.state u.progress now
    ++ (opt_pair "progress" int u.progress
        ++ (opt_pair "message" text u.message
            ++ (opt_pair "version_after" text u.version_after
                ++ opt_pair "redfish_task" text u.redfish_task)))

-- With no pair nothing is written; a ValueError would leave the table as it is, too.
unfoldable pub update_by : Pairs → ℕ → JobsRepo → JobsRepo
unfolding safe_set_clauses assign_task set_task_col
update_by [] id r = r
update_by (p ∷ ps) id r = elim (safe_set_clauses (p ∷ ps) task_update_cols) [
  | some qs ↦ at_task id (assign_task qs) r
  | none ↦ r
]

unfoldable pub update_task : ℕ → TaskUpdate → String → JobsRepo → JobsRepo
unfolding update_by state_pairs task_pairs
update_task id u now r = update_by (task_pairs u now) id r
