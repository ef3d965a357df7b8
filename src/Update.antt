-- ===== src/Update.antt =====
-- core/services/update_orchestrator.py: the state that a firmware update works on, and the helpers
-- of `UpdateOrchestrator`. The modules below follow its methods.
pub mod Preflight
pub mod Task
pub mod Run
pub mod Start
pub mod Poll
pub mod Resume
use clusterone.Prelude.{
  Bool, List, Option, String, [], eqb, false, find, if◌then◌else◌, is_empty, lower, ltb, none, not,
  or_else, parse_nat, partition, replace, rstrip, some, starts_with, true, ℕ, ◌&&◌, ◌++◌, ◌+◌, ◌<>◌,
  ◌==◌, ◌∷◌,
}
use clusterone.Exec.{Result, cancelled, err, ok, raised}
use clusterone.Json.{Fields}
use clusterone.Models.{Credentials, Firmware, ServerInfo}
use clusterone.Jobs.{JobsRepo, TaskUpdate, update_task}
use clusterone.Servers.{ServerFields, Servers, get_server_of, upsert}
use clusterone.Firmwares.{FirmwareRow, get_firmware}
use clusterone.Credentials.{Vault, resolve}
use clusterone.Plugins.{PluginRegistry, Report}

pub record Activity : Type 0 where
  pub level : String
  pub category : String
  pub message : String

-- A call of `on_task_update`; a caller that gives no callback does not read them.
pub record Notice : Type 0 where
  pub task : ℕ
  pub report : Report

-- An image that is handed to a plugin for a flash.
pub record Push : Type 0 where
  pub plugin : String
  pub target : ServerInfo
  pub image : Firmware

-- The database, what the world has seen of the job, and the clock that `_now()` reads.
pub record World : Type 0 where
  pub jobs : JobsRepo
  pub servers : Servers
  pub firmware : List FirmwareRow
  pub vault : Vault
  pub activity : List Activity
  pub notices : List Notice
  pub pushed : List Push
  pub clock : ℕ → String
  pub reads : ℕ

-- How the client of core/plugins_api/redfish_client.py is opened.
pub record Connection : Type 0 where
  pub host : String
  pub port : ℕ
  pub scheme : String
  pub credentials : Credentials
  pub tls_fingerprint : Option String

-- What the orchestrator is given: the plugins, the vault's cipher, the files and the BMCs. `connect`
-- may raise, and so may each `get_json`; `digest` is the SHA-256 of a path that is a file, or what
-- reading that file raises.
pub record Env : Type 0 where
  pub plugins : PluginRegistry
  pub decrypt : String → Result String
  pub digest : String → Option (Result String)
  pub connect : Connection → Result (String → Result Fields)

abbrev pub log : String → String → World → World
log level message w = record w {
  activity = w.activity ++ (record { level = level; category = "update"; message = message }) ∷ [];
}

abbrev pub write_task : ℕ → TaskUpdate → World → World
write_task id u w = record w {
  jobs = update_task id u (w.clock w.reads) w.jobs;
  reads = w.reads + 1;
}

abbrev pub notify : ℕ → Report → World → World
notify id r w = record w { notices = w.notices ++ (record { task = id; report = r }) ∷ [] }

abbrev pub reporting : Report → TaskUpdate
reporting r = record {
  state = some r.state;
  progress = some r.percent;
  message = some r.message;
  version_after = none;
  redfish_task = none;
}

-- The callback `progress` of `_run_task`.
unfoldable pub progress : ℕ → Report → World → World
progress id r w = notify id r (write_task id (reporting r) w)

unfoldable pub lookup_firmware : ℕ → List FirmwareRow → Option FirmwareRow
unfolding get_firmware
lookup_firmware id rows = elim (get_firmware id rows) [
  | some f ↦ some f
  | none ↦ find (λ (f : FirmwareRow). eqb f.id id) rows
]

unfoldable pub compute_final_state : Bool → ℕ → ℕ → String
compute_final_state stopped succeeded failed =
    if stopped
    then "cancelled"
    else if ltb 0 failed && eqb succeeded 0
    then "failed"
    else if ltb 0 failed
    then "completed_with_errors"
    else "completed"

-- The verdict and its message.
unfoldable pub verify_firmware_sha :
    (String → Option (Result String)) → FirmwareRow → Result (Bool × String)
verify_firmware_sha digest f =
    let expected = lower f.sha256 in
    if is_empty expected
    then ok (false, "firmware has no stored sha256")
    else if starts_with f.file_path "seed://"
    then ok (false, "demo firmware has no backing file — re-import the real image")
    else elim (digest f.file_path) [
      | none ↦ ok (false, "firmware file missing: " <> f.file_path)
      | some read ↦ elim read [
        | err e ↦ err e
        | ok actual ↦
            if lower actual == expected
            then ok (true, "ok")
            else ok (false, "SHA-256 mismatch — firmware file altered since import")
      ]
    ]

-- A text that is there and not empty.
abbrev pub present : Option String → Bool
present none = false
present (some s) = not (is_empty s)

-- `s or d`, `s or None`
abbrev pub or_text : String → String → String
or_text s d = if is_empty s then d else s

abbrev pub non_empty : String → Option String
non_empty s = if is_empty s then none else some s

unfoldable pub resolve_creds : Env → Credentials → ServerInfo → World → Credentials
resolve_creds env ui info w =
    if not (is_empty ui.username)
    then ui
    else or_else (resolve env.decrypt (some info.ip) info.oem w.vault)
        (record { username = ""; password = "" })

abbrev pub with_version : String → String → ServerFields → ServerFields
with_version fw_type version f =
    if fw_type == "BMC"
    then record f { bmc_version = some version }
    else if fw_type == "BIOS"
    then record f { bios_version = some version }
    else f

unfoldable pub refresh_server : Option ℕ → String → Option String → World → World
refresh_server server_id fw_type none w = w
refresh_server server_id fw_type (some version) w =
    if is_empty version then w else elim (get_server_of server_id w.servers) [
      | none ↦ w
      | some s ↦ record w {
        servers =
            (upsert s.ip (some "online") (with_version fw_type version s.fields) (w.clock w.reads)
              w.servers).1;
        reads = w.reads + 1;
      }
    ]

-- `s.partition(sep)` where the separator may be missing.
abbrev parts_of : String → Option (String × String) → String × String
parts_of s none = (s, "")
parts_of s (some parts) = parts

abbrev default_port : String → ℕ
default_port scheme = if scheme == "https" then 443 else 80

-- Host, port and scheme of a root. `int(port)` of what is no run of digits raises.
unfoldable pub parse_redfish_root : Option String → Result (String × ℕ × String)
parse_redfish_root none = ok ("", 443, "https")
parse_redfish_root (some root) =
    if is_empty root
    then ok ("", 443, "https")
    else let s = rstrip b'/' (replace "/redfish/v1/" "" root) in
      let (scheme, hostport) = parts_of s (partition "://" s) in
      let (host, port_s) = parts_of hostport (partition ":" hostport) in
      if is_empty port_s
      then ok (host, default_port scheme, or_text scheme "https")
      else elim (parse_nat port_s) [
        | some port ↦ ok (host, port, or_text scheme "https")
        | none ↦
            err (raised "ValueError" ("invalid literal for int() with base 10: '" <> port_s <> "'"))
      ]
