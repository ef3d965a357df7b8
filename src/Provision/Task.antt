-- ===== src/Provision/Task.antt =====
-- `_run_task` and `_real_task` of core/services/provisioning_orchestrator.py: one server's install.
use clusterone.Prelude.{
  Bool, List, Option, String, [], false, if◌then◌else◌, ltb, none, not, or_else, some, suc, true,
  zero, ℕ, ◌++◌, ◌+◌, ◌-◌, ◌<>◌, ◌∷◌,
}
use clusterone.Exec.{
  Exn, Result, cancelled, err, gets, lift, ok, pure, raised, runtime_error, ◌>>=◌, ◌>>◌,
}
use clusterone.Models.{Credentials, Drive, Outcome, ServerInfo}
use clusterone.Servers.{ServerRow, get_server_of, trimmed}
use clusterone.Credentials.{resolve}
use clusterone.Plugins.{Plugin, resolve_plugin}
use clusterone.Update.{non_empty}
use clusterone.Provision.{Choice, is_runnable, pop_config, store_config, truthy}
use clusterone.Provision.Tables.{get_provisioning_task}
use clusterone.Serving.{signed_autoinstall_url, signed_iso_url}
use clusterone.Power.{info_from_row}
use clusterone.Power.Apply.{has_root, probe_of}
use clusterone.Autoinstall.{Host, render}
use clusterone.Provision.Yard.{
  IsoRow, Request, Round, Setting, Step, Yard, boot_cd, cycle, demand, eject, ensure, mount,
  report_progress,
}

abbrev pub with_drives : ServerInfo → List Drive → ServerInfo
with_drives info drives = record info { drives = drives }

-- `_server_info_from_row`, and `_drives_from_row` as a parameter.
unfoldable pub install_info : (ServerRow → List Drive) → ServerRow → ServerInfo
unfolding info_from_row
install_info drives_of row = with_drives (info_from_row row) (drives_of row)

abbrev pub time_left : ℕ → Round → ℕ
time_left began r = (began + 1800) - r.later

abbrev pub ceiling : Exn
ceiling = raised "RuntimeError" "Installer never came back (30-min ceiling exceeded)"

module _ (s : Setting) (id : ℕ) where
  -- The `while` loop of the wait, on fuel.
  unfoldable pub wait_from : ℕ → ℕ → Step (Unit {0})
  unfolding report_progress
  wait_from zero i w = (err ceiling, w)
  wait_from (suc n) i w =
      let r = s.round i in
      let pct = 50 + s.share (time_left s.began_at r) in
      let on = wait_from n (suc i) (report_progress id "installing" pct "" w).1 in
      if not (ltb r.time (s.began_at + 1800))
      then (err ceiling, w)
      else if r.is_cancelled
      then (err cancelled, w)
      else if r.is_ready
      then (ok tt, w)
      else on

  module _ (plugin : Plugin) (info : ServerInfo) (creds : Credentials) where
    -- A request goes to the plugin.
    unfoldable pub ask : Request → Step Outcome
    ask request w = (
      s.hardware plugin request info creds,
      record w {
        orders =
            w.orders ++ (record { plugin = plugin.key; target = info; request = request }) ∷ [];
      },
    )

    unfoldable pub ask_for : Request → String → Step (Unit {0})
    unfolding ask
    ask_for request what = do r ← ask request; ensure r.success (what <> " failed: " <> r.message)

    -- From the restart of the host to the end.
    unfoldable pub await_install : Step (Unit {0})
    unfolding report_progress wait_from ask
    await_install = do
      report_progress id "installing" 50 ""
      wait_from 121 0
      report_progress id "verifying" 95 ""
      ensure s.is_up "Host not SSH-reachable after install"
      ask eject
      pure tt

    -- What stands under the `try` whose `finally` drops the configuration.
    unfoldable pub install : IsoRow → Step (Unit {0})
    unfolding report_progress ask_for await_install
    install iso = do
      report_progress id "publishing" 15 ""
      server ← demand s.file_server "File server not started — cannot publish ISO"
      url ← lift (signed_iso_url s.digest server s.signed_at iso.sha256)
      lift (signed_autoinstall_url s.digest server s.signed_at s.token)
      report_progress id "mounting_iso" 25 ""
      ask_for (mount url) "Mount"
      report_progress id "setting_boot" 30 ""
      ask_for boot_cd "Set-boot"
      report_progress id "power_cycling" 40 ""
      ask_for cycle "Power cycle"
      await_install

    abbrev pub drop_config : {A : Type 0} → Result A × Yard → Result A × Yard
    drop_config (r, w) = (r, record w { configs = pop_config s.token w.configs })

    unfoldable pub stored_install : IsoRow → String → Step (Unit {0})
    unfolding install
    stored_install iso body w =
        drop_config
          (install iso (record w { configs = store_config s.stored_at s.token body w.configs }))

  -- The choice that the job was started with.
  unfoldable pub runnable_choice : Option Choice → Result Choice
  unfolding is_runnable
  runnable_choice none = runtime_error "Disk not resolved at preview (status=None): unknown"
  runnable_choice (some c) =
      if is_runnable c.status
      then ok c
      else runtime_error
          ("Disk not resolved at preview (status=" <> s.quoted c.status <> "): " <> c.reason)

  abbrev pub host_of : ServerInfo → Choice → Host
  host_of info c = record {
    hostname = or_else (truthy info.hostname) info.ip;
    ip = info.ip;
    disk = or_else c.name "";
    root_password = "";
    serial = or_else c.serial "";
    ssh_authorized_keys = "";
    gateway = "";
    nameserver = "";
  }

  abbrev pub install_creds : ServerInfo → Yard → Credentials
  install_creds info w =
      or_else (resolve s.decrypt (some info.ip) info.oem w.vault)
        (record { username = ""; password = "" })

  abbrev pub disk_text : IsoRow → ServerInfo → Choice → Result String
  disk_text iso info c = render s.read_template s.quoted "" iso.os_family (host_of info c)

  -- From the choice to the end, for a server whose plugin is known.
  unfoldable pub install_chosen :
      IsoRow → Plugin → ServerInfo → Credentials → Option Choice → Step (Unit {0})
  unfolding report_progress runnable_choice stored_install
  install_chosen iso plugin info creds resolved = do
    report_progress id "resolving_disk" 5 ""
    c ← lift (runnable_choice resolved)
    report_progress id "rendering_config" 10 ""
    body ← lift (disk_text iso info c)
    stored_install plugin info creds iso body

  -- The plugin of the operator's pick, for a server that was discovered.
  unfoldable pub routed_install : ServerRow → Step Plugin
  routed_install row = do
    ensure (has_root row) "Server has no Redfish endpoint (re-run discovery)"
    oem ←
        demand (non_empty (trimmed row.oem_override))
          "No OEM selected for this server — open the server panel and choose the vendor before provisioning"
    demand (resolve_plugin (probe_of row) (some oem) s.plugins) (
        "Selected OEM '" <> oem
        <> "' has no installed plugin — re-select the vendor in the server panel")

  unfoldable pub real_install : (ServerRow → List Drive) → IsoRow → Step (Unit {0})
  unfolding routed_install install_info install_chosen
  real_install drives_of iso = do
    task ← λ w. demand (get_provisioning_task id w.repo) "Task vanished from DB" w
    row ← λ w. demand (get_server_of task.server_id w.servers) "Server not found" w
    plugin ← routed_install row
    let info = install_info drives_of row
    creds ← gets (install_creds info)
    install_chosen iso plugin info creds task.resolved_disk

  -- The ends of a task, and what `_run_task` returns.
  unfoldable pub settle_install : Result (Unit {0}) → Yard → Bool × Yard
  unfolding report_progress
  settle_install (ok _) w = (true, (report_progress id "completed" 100 "" w).1)
  settle_install (err cancelled) w = (false, (report_progress id "cancelled" 0 "Cancelled" w).1)
  settle_install (err (raised class message)) w =
      (false, (report_progress id "failed" 0 message w).1)

  unfoldable pub run_install : (ServerRow → List Drive) → IsoRow → Yard → Bool × Yard
  unfolding settle_install real_install
  run_install drives_of iso w = let (r, w') = real_install drives_of iso w in settle_install r w'
