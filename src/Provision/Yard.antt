-- ===== src/Provision/Yard.antt =====
-- What a task of core/services/provisioning_orchestrator.py is given, what it changes, and how it
-- reports.
use clusterone.Prelude.{Bool, List, Option, String, [], false, none, some, true, ℕ, ◌++◌, ◌+◌, ◌∷◌}
use clusterone.Exec.{Exec, Result, lift, ok, pure, runtime_error}
use clusterone.Models.{Credentials, Outcome, ServerInfo}
use clusterone.Servers.{Servers}
use clusterone.Credentials.{Vault}
use clusterone.Plugins.{Plugin, PluginRegistry}
use clusterone.Provision.{Configs}
use clusterone.Provision.Tables.{ProvisioningRepo, update_provisioning_task}
use clusterone.Serving.{FileServer}

pub record IsoRow : Type 0 where
  pub id : ℕ
  pub name : String
  pub os_family : String
  pub sha256 : String

-- What is asked of a BMC.
pub data Request : Type 0 where
  mount : (url : String) → Request
  boot_cd : Request
  cycle : Request
  eject : Request

-- A plugin's answer to a request: `mount_iso`, `set_boot_once`, `power_cycle` and `eject_iso`.
abbrev pub Hardware : Type 0
Hardware = Request → ServerInfo → Credentials → Result Outcome

-- A request that was handed to a plugin.
pub record Order : Type 0 where
  pub plugin : String
  pub target : ServerInfo
  pub request : Request

-- One round of the wait: the time at its start, whether the job is cancelled, whether port 22
-- answers, and the time behind that.
pub record Round : Type 0 where
  pub time : ℕ
  pub is_cancelled : Bool
  pub is_ready : Bool
  pub later : ℕ

-- What the orchestrator is given, and what the world shows during the task: the token, the times at
-- which the configuration is stored, the links are signed and the wait begins, the rounds of the
-- wait, and the last look at port 22. `share r` is `int(35 * (1.0 - r / 1800))`.
pub record Setting : Type 0 where
  pub plugins : PluginRegistry
  pub hardware : Plugin → Hardware
  pub decrypt : String → Result String
  pub read_template : String → Option String
  pub quoted : String → String
  pub file_server : Option FileServer
  pub digest : String → String
  pub token : String
  pub stored_at : ℕ
  pub signed_at : ℕ
  pub began_at : ℕ
  pub round : ℕ → Round
  pub share : ℕ → ℕ
  pub is_up : Bool

-- A call of `on_task_update`.
pub record InstallNotice : Type 0 where
  pub task : ℕ
  pub state : String
  pub percent : ℕ
  pub message : String

-- The tables, the configurations in memory, what was asked of BMCs, and the clock that `_now()`
-- reads.
pub record Yard : Type 0 where
  pub repo : ProvisioningRepo
  pub servers : Servers
  pub vault : Vault
  pub configs : Configs
  pub orders : List Order
  pub updates : List InstallNotice
  pub clock : ℕ → String
  pub reads : ℕ

abbrev pub Step : Type 0 → Type 0
Step A = Exec Yard A

-- `progress(state, pct, message)`
unfoldable pub report_progress : ℕ → String → ℕ → String → Step (Unit {0})
report_progress id state pct message w = (
  ok tt,
  record w {
    repo = update_provisioning_task id state (some pct) (some message) (w.clock w.reads) w.repo;
    updates =
        w.updates ++ (record { task = id; state = state; percent = pct; message = message }) ∷ [];
    reads = w.reads + 1;
  },
)

-- `if value is None: raise RuntimeError(message)`, and the same on a test.
abbrev pub demand : {A : Type 0} → Option A → String → Step A
demand none message = lift (runtime_error message)
demand (some a) message = lift (ok a)

abbrev pub ensure : Bool → String → Step (Unit {0})
ensure true message = pure tt
ensure false message = lift (runtime_error message)
