-- ===== src/Update/Task.antt =====
-- `_real_task` and `_run_task`: one server's update, from its row to its outcome.
pub mod Gates
pub mod Refresh
pub mod Writes
pub mod Settled
use clusterone.Prelude.{
  Bool, List, Option, String, [], false, if◌then◌else◌, none, or_else, some, true, ℕ, ◌++◌, ◌<>◌,
  ◌==◌, ◌∷◌,
}
use clusterone.Exec.{
  Exec, Result, cancelled, err, gets, lift, ok, pure, raised, runtime_error, ◌>>=◌, ◌>>◌,
}
use clusterone.Models.{Credentials, Firmware, Outcome, ServerInfo}
use clusterone.Jobs.{TaskRow, TaskUpdate, get_task}
use clusterone.Servers.{ServerRow, get_server_of, trimmed}
use clusterone.Firmwares.{FirmwareRow}
use clusterone.Plugins.{Flash, Plugin, Report, resolve_plugin}
use clusterone.Update.{
  Env, World, non_empty, or_text, present, progress, refresh_server, resolve_creds,
  verify_firmware_sha, write_task,
}
use clusterone.Update.Preflight.{preflight_bmc}

-- `if not condition: raise RuntimeError(message)`
abbrev pub require : Bool → String → Exec World (Unit {0})
require true message = pure tt
require false message = lift (runtime_error message)

abbrev pub need {ℓ} : {A : Type ℓ} → Option A → String → World → Result A × World
need none message w = (runtime_error message, w)
need (some a) message w = (ok a, w)

abbrev pub info_of : ServerRow → String → ServerInfo
info_of s oem = record {
  ip = s.ip;
  hostname = s.hostname;
  manufacturer = s.manufacturer;
  oem = some oem;
  model = s.model;
  serial = s.serial;
  bmc_version = s.bmc_version;
  bios_version = s.bios_version;
  redfish_root = s.redfish_root;
  tls_fingerprint = s.tls_fpr;
  drives = [];
}

abbrev pub firmware_of : FirmwareRow → Firmware
firmware_of f = record {
  id = f.id;
  name = f.name;
  type = f.type;
  oem = f.oem;
  version = f.version;
  file_path = f.file_path;
  sha256 = f.sha256;
  model = f.model;
  size_bytes = or_else f.size_bytes 0;
}

-- The plugin's method for the image's type.
unfoldable pub flash_with : Plugin → ServerInfo → Firmware → Credentials → Bool → Flash
flash_with plugin info fw creds apply_now =
    if fw.type == "BMC"
    then plugin.update_bmc info fw creds apply_now
    else if fw.type == "BIOS"
    then plugin.update_bios info fw creds apply_now
    else plugin.update_hgx info fw creds apply_now

unfoldable pub report_all : ℕ → List Report → World → World
report_all id [] w = w
report_all id (r ∷ rs) w = report_all id rs (progress id r w)

abbrev version_of : Result Outcome → Result (Option String)
version_of (err e) = err e
version_of (ok r) =
    if r.success then ok r.version_after else runtime_error (or_text r.message "Update failed")

-- The image goes to the plugin, which reports its progress as it works.
unfoldable pub flash :
    ℕ → Plugin → ServerInfo → Firmware → Credentials → Bool → Exec World (Option String)
unfolding report_all
flash id plugin info fw creds apply_now w =
    let done = flash_with plugin info fw creds apply_now in
    let sent = record w {
      pushed = w.pushed ++ (record { plugin = plugin.key; target = info; image = fw }) ∷ [];
    } in
    (version_of done.result, report_all id done.reports sent)

abbrev precheck : ℕ → String → Report
precheck pct message = record { state = "precheck"; percent = pct; message = message }

module _ (env : Env) where
  -- From the compatibility check to the flash, for a server whose plugin is known.
  unfoldable pub checked_flash :
      ℕ → Plugin → ServerInfo → FirmwareRow → Credentials → Bool → Exec World (Option String)
  checked_flash id plugin info f ui apply_now w =
      (do
        compat ← lift (plugin.validate info (firmware_of f))
        require compat.compatible ("Pre-flight failed: " <> compat.reason)
        creds ← gets (resolve_creds env ui info)
        verdict ← lift (preflight_bmc env info (firmware_of f) creds)
        require verdict.0 ("BMC pre-flight failed: " <> verdict.1)
        λ w'.
            flash id plugin info (firmware_of f) creds apply_now
              (progress id (precheck 8 verdict.1) w'))
        (progress id (precheck 5 "") w)

  -- The plugin of the operator's pick.
  unfoldable pub routed : ServerRow → Exec World (String × Plugin)
  routed s = do
    oem ←
        need (non_empty (trimmed s.oem_override))
          "No OEM selected for this server — open the server panel and choose the vendor before flashing"
    plugin ←
        need
          (resolve_plugin
            (record { ip = s.ip; manufacturer = s.manufacturer; redfish_root = s.redfish_root })
            (some oem) env.plugins)
          ("Selected OEM '" <> oem
            <> "' has no installed plugin — re-select the vendor in the server panel")
    pure (oem, plugin)

  unfoldable pub real_task : ℕ → FirmwareRow → Credentials → Bool → Exec World (Option String)
  unfolding checked_flash routed
  real_task id f ui apply_now = do
    task ← λ w. need (get_task id w.jobs) "Task vanished from DB" w
    server ← λ w. need (get_server_of task.server_id w.servers) "Server not found" w
    require (present server.redfish_root) "Server has no Redfish endpoint (re-run discovery)"
    integrity ← lift (verify_firmware_sha env.digest f)
    require integrity.0 ("Firmware integrity check failed: " <> integrity.1)
    found ← routed server
    checked_flash id found.1 (info_of server found.0) f ui apply_now

abbrev pub failing : String → Report
failing message = record { state = "failed"; percent = 0; message = message }

abbrev pub completing : Report
completing = record { state = "completed"; percent = 100; message = "" }

abbrev pub refresh_of : Option TaskRow → FirmwareRow → Option String → World → World
refresh_of none f version w = w
refresh_of (some t) f version w = refresh_server t.server_id f.type version w

abbrev pub completed_with : Option String → TaskUpdate
completed_with version = record {
  state = some "completed";
  progress = none;
  message = none;
  version_after = version;
  redfish_task = none;
}

-- The part of `_run_task` behind `_real_task`: the two handlers, or the success.
unfoldable pub settle : ℕ → FirmwareRow → Result (Option String) → World → Bool × World
settle id f (ok version) w =
    let w' = write_task id (completed_with version) (progress id completing w) in
    (true, refresh_of (get_task id w'.jobs) f version w')
settle id f (err cancelled) w = (false, progress id (failing "Cancelled") w)
settle id f (err (raised class message)) w = (false, progress id (failing message) w)

unfoldable pub run_task : Env → ℕ → FirmwareRow → Credentials → Bool → World → Bool × World
unfolding settle
run_task env id f ui apply_now w =
    let (result, w') = real_task env id f ui apply_now w in settle id f result w'
