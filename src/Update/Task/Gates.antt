-- ===== src/Update/Task/Gates.antt =====
-- What stands between a task and the image that reaches a BMC.
use clusterone.Prelude.{
  Bool, List, Option, String, [], ap, arith, false, inl, inr, none, refl, some, true, ℕ, ◌++◌, ◌∙◌,
  ◌∷◌, ◌≡◌, ◌⊎◌,
}
use clusterone.Exec.{Result, err, ok}
use clusterone.Models.{CompatResult, Credentials, Firmware, RedfishProbe, ServerInfo}
use clusterone.Jobs.{TaskRow, get_task}
use clusterone.Servers.{ServerRow, get_server_of, trimmed}
use clusterone.Firmwares.{FirmwareRow}
use clusterone.Plugins.{Plugin, Report, by_key, resolve_plugin}
use clusterone.Update.{
  Env, Push, World, non_empty, present, progress, resolve_creds, verify_firmware_sha,
}
use clusterone.Update.Preflight.{Verdict, preflight_bmc}
use clusterone.Update.Task.{
  checked_flash, firmware_of, flash, flash_with, info_of, real_task, report_all,
}

pushed-report_all : (id : ℕ) (rs : List Report) (w : World) → (report_all id rs w).pushed ≡ w.pushed
unfolding report_all progress
pushed-report_all id [] w = refl
pushed-report_all id (r ∷ rs) w = pushed-report_all id rs (progress id r w)

pushed-flash :
    (id : ℕ) (plugin : Plugin) (info : ServerInfo) (fw : Firmware) (creds : Credentials)
    (apply_now : Bool) (w : World)
    → (flash id plugin info fw creds apply_now w).1.pushed
      ≡ w.pushed ++ (record { plugin = plugin.key; target = info; image = fw }) ∷ []
unfolding flash
pushed-flash id plugin info fw creds apply_now w =
    pushed-report_all id (flash_with plugin info fw creds apply_now).reports (record w {
      pushed = w.pushed ++ (record { plugin = plugin.key; target = info; image = fw }) ∷ [];
    })

module _ (env : Env) (id : ℕ) (f : FirmwareRow) (ui : Credentials) (apply_now : Bool) where
  -- The checks on a BMC and its plugin.
  pub record IsChecked (plugin : Plugin) (info : ServerInfo) (w : World) : Type 0 where
    pub compat : CompatResult
    pub validated : plugin.validate info (firmware_of f) ≡ ok compat
    pub compatible : compat.compatible ≡ true
    pub message : String
    pub cleared :
        preflight_bmc env info (firmware_of f) (resolve_creds env ui info w) ≡ ok (true, message)

  abbrev pub push_of : Plugin → ServerInfo → Push
  push_of plugin info = record { plugin = plugin.key; target = info; image = firmware_of f }

  abbrev Flashed : Plugin → ServerInfo → World → World → Type 0
  Flashed plugin info w w' =
      (w'.pushed ≡ w.pushed)
      ⊎ (IsChecked plugin info w × (w'.pushed ≡ w.pushed ++ push_of plugin info ∷ []))

  module _ (plugin : Plugin) (info : ServerInfo) (w : World) where
    abbrev after : World
    after = (checked_flash env id plugin info f ui apply_now w).1

    creds_same :
        (r : Report) → resolve_creds env ui info (progress id r w) ≡ resolve_creds env ui info w
    unfolding resolve_creds progress
    creds_same r = refl

    cleared_flash :
        (c : CompatResult)
        → plugin.validate info (firmware_of f) ≡ ok c
        → c.compatible ≡ true
        → (x : Result Verdict)
        → preflight_bmc env info (firmware_of f) (resolve_creds env ui info w) ≡ x
        → Flashed plugin info w after
    unfolding checked_flash progress resolve_creds
    cleared_flash c v k (err e) p = inl (rw (v, checked_flash) (rw k (rw p)))
    cleared_flash c v k (ok (false, m)) p = inl (rw (v, checked_flash) (rw k (rw p)))
    cleared_flash c v k (ok (true, m)) p = inr (
      record { compat = c; validated = v; compatible = k; message = m; cleared = p },
      rw (v, checked_flash) (rw k (rw p (rw pushed-flash))),
    )

    flag_flash :
        (c : CompatResult) (b : Bool)
        → plugin.validate info (firmware_of f) ≡ ok c
        → c.compatible ≡ b
        → Flashed plugin info w after
    unfolding checked_flash progress
    flag_flash c false v k = inl (rw (v, checked_flash) (rw k))
    flag_flash c true v k =
        cleared_flash c v k (preflight_bmc env info (firmware_of f) (resolve_creds env ui info w))
          refl

    checked_flash_cases :
        (x : Result CompatResult)
        → plugin.validate info (firmware_of f) ≡ x
        → Flashed plugin info w after
    unfolding checked_flash progress
    checked_flash_cases (err e) v = inl (rw (v, checked_flash))
    checked_flash_cases (ok c) v = flag_flash c c.compatible v refl

  -- All the checks of a task, in the order of the code.
  pub record IsCleared (w : World) (push : Push) : Type 0 where
    pub task : TaskRow
    pub found : get_task id w.jobs ≡ some task
    pub server : ServerRow
    pub known : get_server_of task.server_id w.servers ≡ some server
    pub rooted : present server.redfish_root ≡ true
    pub verdict : String
    pub intact : verify_firmware_sha env.digest f ≡ ok (true, verdict)
    pub oem : String
    pub picked : non_empty (trimmed server.oem_override) ≡ some oem
    pub plugin : Plugin
    pub installed : by_key oem env.plugins ≡ some plugin
    pub checked : IsChecked plugin (info_of server oem) w
    pub sent : push ≡ push_of plugin (info_of server oem)

  module _ (w : World) where
    abbrev result : World
    result = (real_task env id f ui apply_now w).1

    abbrev Guarded : Type 0
    Guarded =
        (result.pushed ≡ w.pushed)
        ⊎ ((push : Push) × IsCleared w push × (result.pushed ≡ w.pushed ++ push ∷ []))

    abbrev probe_of : ServerRow → RedfishProbe
    probe_of s = record { ip = s.ip; manufacturer = s.manufacturer; redfish_root = s.redfish_root }

    module _ (t : TaskRow) (get_t : get_task id w.jobs ≡ some t) (s : ServerRow)
        (get_s : get_server_of t.server_id w.servers ≡ some s)
        (root : present s.redfish_root ≡ true) (verdict : String)
        (sha : verify_firmware_sha env.digest f ≡ ok (true, verdict)) where
      installed_of :
          (oem : String) {plugin : Plugin}
          → non_empty (trimmed s.oem_override) ≡ some oem
          → resolve_plugin (probe_of s) (some oem) env.plugins ≡ some plugin
          → by_key oem env.plugins ≡ some plugin
      unfolding resolve_plugin
      installed_of oem o p = ground arith

      plugin_cases :
          (oem : String)
          → non_empty (trimmed s.oem_override) ≡ some oem
          → (x : Option Plugin) → resolve_plugin (probe_of s) (some oem) env.plugins ≡ x
          → Guarded
      unfolding real_task
      plugin_cases oem o none p = inl (ap (λ (v : World). v.pushed) unsent)
        where
          unsent : result ≡ w
          unsent = rw (get_t, result, real_task) (rw get_s (rw root (rw sha (rw o (rw p)))))
      plugin_cases oem o (some plugin) p = after_flash (
          checked_flash_cases plugin (info_of s oem) w
            (plugin.validate (info_of s oem) (firmware_of f)) refl)
        where
          same : result ≡ (checked_flash env id plugin (info_of s oem) f ui apply_now w).1
          same = rw (get_t, result, real_task) (rw get_s (rw root (rw sha (rw o (rw p)))))

          after_flash :
              Flashed plugin
                (info_of s oem)
                w
                (checked_flash env id plugin (info_of s oem) f ui apply_now w).1
              → Guarded
          after_flash (inl e) = inl (ap (λ (v : World). v.pushed) same ∙ e)
          after_flash (inr (c, e)) = inr (
            push_of plugin (info_of s oem),
            record {
              task = t;
              found = get_t;
              server = s;
              known = get_s;
              rooted = root;
              verdict = verdict;
              intact = sha;
              oem = oem;
              picked = o;
              plugin = plugin;
              installed = installed_of oem o p;
              checked = c;
              sent = refl;
            },
            ap (λ (v : World). v.pushed) same ∙ e,
          )

      oem_cases : (x : Option String) → non_empty (trimmed s.oem_override) ≡ x → Guarded
      unfolding real_task
      oem_cases none o = inl (ap (λ (v : World). v.pushed) unsent)
        where
          unsent : result ≡ w
          unsent = rw (get_t, result, real_task) (rw get_s (rw root (rw sha (rw o))))
      oem_cases (some oem) o =
          plugin_cases oem o (resolve_plugin (probe_of s) (some oem) env.plugins) refl

    module _ (t : TaskRow) (get_t : get_task id w.jobs ≡ some t) where
      sha_cases :
          (s : ServerRow)
          → get_server_of t.server_id w.servers ≡ some s
          → (b : Bool) (x : Result (Bool × String)) → present s.redfish_root ≡ b
          → verify_firmware_sha env.digest f ≡ x
          → Guarded
      unfolding real_task
      sha_cases s get_s false x root sha = inl (ap (λ (v : World). v.pushed) unsent)
        where
          unsent : result ≡ w
          unsent = rw (get_t, result, real_task) (rw get_s (rw root))
      sha_cases s get_s true (err e) root sha = inl (ap (λ (v : World). v.pushed) unsent)
        where
          unsent : result ≡ w
          unsent = rw (get_t, result, real_task) (rw get_s (rw root (rw sha)))
      sha_cases s get_s true (ok (false, m)) root sha = inl (ap (λ (v : World). v.pushed) unsent)
        where
          unsent : result ≡ w
          unsent = rw (get_t, result, real_task) (rw get_s (rw root (rw sha)))
      sha_cases s get_s true (ok (true, m)) root sha =
          oem_cases t get_t s get_s root m sha (non_empty (trimmed s.oem_override)) refl

      server_cases : (x : Option ServerRow) → get_server_of t.server_id w.servers ≡ x → Guarded
      unfolding real_task
      server_cases none get_s = inl (ap (λ (v : World). v.pushed) unsent)
        where
          unsent : result ≡ w
          unsent = rw (get_t, result, real_task) (rw get_s)
      server_cases (some s) get_s = sha_cases s get_s (present s.redfish_root) _ refl refl

    task_cases : (x : Option TaskRow) → get_task id w.jobs ≡ x → Guarded
    unfolding real_task
    task_cases none get_t = inl (ap (λ (v : World). v.pushed) unsent)
      where
        unsent : result ≡ w
        unsent = rw (get_t, result, real_task)
    task_cases (some t) get_t = server_cases t get_t (get_server_of t.server_id w.servers) refl

-- A task hands an image to a plugin at most once, and only if all of this holds: the task and its
-- server are in the database, the server has a Redfish root, the image's file still has its stored
-- hash, the operator picked a vendor, the plugin that gets the image is that vendor's, it finds the
-- image compatible, and the pre-flight of the BMC with the resolved credentials is positive.
pub flash_guarded :
    (env : Env) (id : ℕ) (f : FirmwareRow) (ui : Credentials) (apply_now : Bool) (w : World)
    → ((real_task env id f ui apply_now w).1.pushed ≡ w.pushed)
      ⊎ ((push : Push) × IsCleared env id f ui apply_now w push
          × ((real_task env id f ui apply_now w).1.pushed ≡ w.pushed ++ push ∷ []))
flash_guarded env id f ui apply_now w = task_cases env id f ui apply_now w (get_task id w.jobs) refl
