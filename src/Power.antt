-- ===== src/Power.antt =====
-- core/services/power_service.py: a power action on each of some servers.
pub mod Apply
pub mod Polling
pub mod Gate
pub mod Tallies
use clusterone.Prelude.{
  Bool, List, Option, String, [], false, if◌then◌else◌, is_empty, none, not, or_else, some, suc,
  zero, ℕ, ◌&&◌, ◌++◌, ◌+◌, ◌==◌, ◌||◌, ◌∷◌,
}
use clusterone.Exec.{Result, err, ok}
use clusterone.Models.{Outcome, Credentials, ServerInfo}
use clusterone.Servers.{ServerRow, Servers, trimmed, upsert}
use clusterone.Credentials.{Vault, resolve}
use clusterone.Plugins.{Plugin, PluginRegistry}

-- A plugin's methods for power. A reading of the power state is told apart by its number.
pub record PowerMethods : Type 0 where
  pub power_action : ServerInfo → String → Credentials → Result Outcome
  pub get_power_state : ℕ → ServerInfo → Credentials → Result (Option String)

pub record PowerEnv : Type 0 where
  pub plugins : PluginRegistry
  pub methods : Plugin → PowerMethods
  pub decrypt : String → Result String

-- An action that is handed to a plugin.
pub record Command : Type 0 where
  pub plugin : String
  pub target : ServerInfo
  pub action : String

pub record PowerLog : Type 0 where
  pub level : String
  pub message : String
  pub server_id : ℕ

-- The tables, what has been logged and sent, and the clock that `_now()` reads.
pub record Site : Type 0 where
  pub servers : Servers
  pub vault : Vault
  pub activity : List PowerLog
  pub sent : List Command
  pub clock : ℕ → String
  pub reads : ℕ

unfoldable pub action_label : String → Option String
action_label action =
    if action == "on"
    then some "Power On"
    else if action == "off"
    then some "Shut Down"
    else if action == "force_off"
    then some "Force Off"
    else if action == "restart"
    then some "Restart"
    else if action == "graceful_restart"
    then some "Graceful Restart"
    else if action == "cycle"
    then some "Power Cycle"
    else none

-- Whether a server was served, the message, and the power state that was read.
pub record Answer : Type 0 where
  pub is_ok : Bool
  pub message : String
  pub state : Option String

abbrev pub refuse : String → Answer
refuse message = record { is_ok = false; message = message; state = none }

-- `x or y` where `x` is a text that may be missing or empty.
abbrev pub text_or : String → Option String → Option String
text_or s other = if is_empty s then other else some s

unfoldable pub info_from_row : ServerRow → ServerInfo
info_from_row row = record {
  ip = row.ip;
  hostname = row.hostname;
  manufacturer = row.manufacturer;
  oem = text_or (trimmed row.oem_override) row.oem;
  model = row.model;
  serial = row.serial;
  bmc_version = row.bmc_version;
  bios_version = row.bios_version;
  redfish_root = row.redfish_root;
  tls_fingerprint = row.tls_fpr;
  drives = [];
}

-- The state that an action is to end in.
abbrev pub wanted : String → Option String
wanted action =
    if action == "off" || action == "force_off"
    then some "Off"
    else if action == "on"
    then some "On"
    else none

-- `last and (want is None or last == want)`
unfoldable pub is_settled : Option String → Option String → Bool
is_settled want none = false
is_settled none (some last) = not (is_empty last)
is_settled (some w) (some last) = not (is_empty last) && last == w

-- `n` readings more, from number `i` on.
unfoldable pub poll_from :
    (ℕ → Result (Option String)) → Option String → ℕ → ℕ → Option String → Result (Option String)
unfolding is_settled
poll_from read want i zero last = ok last
poll_from read want i (suc n) last = elim (read i) [
  | err e ↦ err e
  | ok seen ↦
      let later = poll_from read want (suc i) n seen in
      if is_settled want seen then ok seen else later
]

unfoldable pub verify_state :
    PowerMethods → ServerInfo → Credentials → String → Result (Option String)
unfolding poll_from
verify_state methods info creds action =
    poll_from (λ i. methods.get_power_state i info creds) (wanted action) 0 4 none

unfoldable pub resolve_power_creds : PowerEnv → Vault → ServerInfo → String → String → Credentials
resolve_power_creds env vault info username password =
    if not (is_empty username)
    then record { username = username; password = password }
    else or_else (resolve env.decrypt (some info.ip) info.oem vault)
        (record { username = ""; password = "" })

abbrev pub log_power : String → String → ℕ → Site → Site
log_power level message sid w = record w {
  activity = w.activity ++ (record { level = level; message = message; server_id = sid }) ∷ [];
}

-- `if state: self._servers.upsert({**row, "power_state": state})`
unfoldable pub persist : ServerRow → Option String → Site → Site
persist row none w = w
persist row (some state) w = if is_empty state then w else record w {
  servers =
      (upsert row.ip (some row.status) (record (row.fields) { power_state = some state })
        (w.clock w.reads) w.servers).1;
  reads = w.reads + 1;
}
