-- ===== src/Update/Task/Writes.antt =====
-- What a task writes: no job, and no row but its own.
use clusterone.Prelude.{
  Bool, List, Option, String, [], arith, eqb, false, find, if◌then◌else◌, is_some, map, none, refl,
  some, true, ℕ, ◌<>◌, ◌∙◌, ◌∷◌, ◌≡◌,
}
use clusterone.Exec.{Exec, Result, continue, err, lift, ok, ◌>>=◌}
use clusterone.Models.{CompatResult, Credentials, Firmware, ServerInfo}
use clusterone.Jobs.{JobsRepo, TaskRow, TaskUpdate, get_task, update_task}
use clusterone.Jobs.Rows.{update_task_lem, written}
use clusterone.Servers.{ServerRow, get_server_of, trimmed}
use clusterone.Firmwares.{FirmwareRow}
use clusterone.Plugins.{Plugin, Report, resolve_plugin}
use clusterone.Update.{
  Env, World, non_empty, present, progress, reporting, resolve_creds, verify_firmware_sha,
}
use clusterone.Update.Preflight.{Verdict, preflight_bmc}
use clusterone.Update.Task.{
  checked_flash, firmware_of, flash, flash_with, info_of, need, precheck, real_task, report_all,
  require, routed,
}

abbrev pub map_some : (TaskRow → TaskRow) → Option TaskRow → Option TaskRow
map_some g none = none
map_some g (some t) = some (g t)

find-at_task :
    (id j : ℕ) (g : TaskRow → TaskRow) (ts : List TaskRow)
    → ((t : TaskRow) → (g t).id ≡ t.id)
    → find (λ (t : TaskRow). eqb t.id j) (map (λ (t : TaskRow). if eqb t.id id then g t else t) ts)
      ≡ (if eqb j id
          then map_some g (find (λ (t : TaskRow). eqb t.id j) ts)
          else find (λ (t : TaskRow). eqb t.id j) ts)
find-at_task id j g [] keeps = ground arith
find-at_task id j g (t ∷ ts) keeps = ground (arith, keeps t, find-at_task id j g ts keeps)

pub get_task-update_task :
    (id j : ℕ) (u : TaskUpdate) (now : String) (r : JobsRepo)
    → get_task j (update_task id u now r)
      ≡ (if eqb j id then map_some (written u now) (get_task j r) else get_task j r)
unfolding get_task
get_task-update_task id j u now r =
    rw update_task_lem (find-at_task id j (written u now) r.tasks (λ t. refl))

-- The jobs stay, the rows of the other tasks stay, and the row of the task is there if it was.
pub record IsOwn (id : ℕ) (r r' : JobsRepo) : Type 0 where
  pub same_jobs : r'.jobs ≡ r.jobs
  pub others : (j : ℕ) → eqb j id ≡ false → get_task j r' ≡ get_task j r
  pub there : is_some (get_task id r') ≡ is_some (get_task id r)

pub eqb_self : (n : ℕ) → eqb n n ≡ true
eqb_self n = ground arith

module _ (id : ℕ) where
  IsOwn-refl : (r : JobsRepo) → IsOwn id r r
  IsOwn-refl r = record { same_jobs = refl; others = λ j h. refl; there = refl }

  pub IsOwn-trans : (r s t : JobsRepo) → IsOwn id r s → IsOwn id s t → IsOwn id r t
  IsOwn-trans r s t a b = record {
    same_jobs = b.same_jobs ∙ a.same_jobs;
    others = λ j h. b.others j h ∙ a.others j h;
    there = b.there ∙ a.there;
  }

  is_some-map_some :
      (g : TaskRow → TaskRow) (o : Option TaskRow) → is_some (map_some g o) ≡ is_some o
  is_some-map_some g none = refl
  is_some-map_some g (some t) = refl

  pub update_task-IsOwn :
      (u : TaskUpdate) (now : String) (r : JobsRepo) → IsOwn id r (update_task id u now r)
  update_task-IsOwn u now r = record {
    same_jobs = rw update_task_lem;
    others = λ j h. get_task-update_task id j u now r ∙ rw h;
    there =
        rw (get_task-update_task, eqb_self id) (is_some-map_some (written u now) (get_task id r));
  }

  report_all-IsOwn : (rs : List Report) (w : World) → IsOwn id w.jobs (report_all id rs w).jobs
  unfolding report_all progress
  report_all-IsOwn [] w = IsOwn-refl w.jobs
  report_all-IsOwn (r ∷ rs) w =
      IsOwn-trans w.jobs (progress id r w).jobs _
        (update_task-IsOwn (reporting r) (w.clock w.reads) w.jobs)
        (report_all-IsOwn rs (progress id r w))

  -- A computation that writes no row but the task's.
  abbrev pub Keeps : {A : Type 0} → Exec World A → Type 0
  Keeps m = (w : World) → IsOwn id w.jobs (m w).1.jobs

  continue-Keeps :
      {A B : Type 0} (r : Result A) (f : A → Exec World B) (w : World)
      → ((a : A) → Keeps (f a))
      → IsOwn id w.jobs (continue r f w).1.jobs
  continue-Keeps (ok a) f w h = h a w
  continue-Keeps (err e) f w h = IsOwn-refl w.jobs

  bind-Keeps :
      {A B : Type 0} (m : Exec World A) (f : A → Exec World B)
      → Keeps m
      → ((a : A) → Keeps (f a))
      → Keeps (m >>= f)
  bind-Keeps m f hm hf w =
      IsOwn-trans w.jobs (m w).1.jobs _ (hm w) (continue-Keeps (m w).0 f (m w).1 hf)

  require-Keeps : (b : Bool) (message : String) → Keeps (require b message)
  require-Keeps true message w = IsOwn-refl w.jobs
  require-Keeps false message w = IsOwn-refl w.jobs

  need-Keeps :
      {A : Type 0} (o : Option A) (message : String) (w : World)
      → IsOwn id w.jobs (need o message w).1.jobs
  need-Keeps none message w = IsOwn-refl w.jobs
  need-Keeps (some a) message w = IsOwn-refl w.jobs

  flash-Keeps :
      (plugin : Plugin) (info : ServerInfo) (fw : Firmware) (creds : Credentials) (apply_now : Bool)
      → Keeps (flash id plugin info fw creds apply_now)
  unfolding flash
  flash-Keeps plugin info fw creds apply_now w =
      report_all-IsOwn (flash_with plugin info fw creds apply_now).reports _

  pub progress-Keeps : (r : Report) (w : World) → IsOwn id w.jobs (progress id r w).jobs
  unfolding progress
  progress-Keeps r w = update_task-IsOwn (reporting r) (w.clock w.reads) w.jobs

  checked_flash-Keeps :
      (env : Env) (plugin : Plugin) (info : ServerInfo) (f : FirmwareRow) (ui : Credentials)
      (apply_now : Bool)
      → Keeps (checked_flash env id plugin info f ui apply_now)
  unfolding checked_flash
  checked_flash-Keeps env plugin info f ui apply_now w =
      IsOwn-trans w.jobs w₁.jobs _ (progress-Keeps (precheck 5 "") w) (
        bind-Keeps (lift (plugin.validate info (firmware_of f))) _ (λ w'. IsOwn-refl w'.jobs)
          (λ (compat : CompatResult).
            bind-Keeps (require compat.compatible ("Pre-flight failed: " <> compat.reason)) _
              (require-Keeps compat.compatible _)
              (λ _ w₂.
                let creds = resolve_creds env ui info w₂ in
                bind-Keeps (lift (preflight_bmc env info (firmware_of f) creds)) _
                  (λ w'. IsOwn-refl w'.jobs)
                  (λ (verdict : Verdict).
                    bind-Keeps (require verdict.0 ("BMC pre-flight failed: " <> verdict.1)) _
                      (require-Keeps verdict.0 _)
                      (λ _ w'.
                        IsOwn-trans w'.jobs (progress id (precheck 8 verdict.1) w').jobs _
                          (progress-Keeps (precheck 8 verdict.1) w')
                          (flash-Keeps plugin info (firmware_of f) creds apply_now
                            (progress id (precheck 8 verdict.1) w'))))
                  w₂))
          w₁)
    where
      w₁ : World
      w₁ = progress id (precheck 5 "") w

  abbrev oem_need : ServerRow → Exec World String
  oem_need s =
      need (non_empty (trimmed s.oem_override))
        "No OEM selected for this server — open the server panel and choose the vendor before flashing"

  abbrev plugin_need : Env → ServerRow → String → Exec World Plugin
  plugin_need env s oem =
      need
        (resolve_plugin
          (record { ip = s.ip; manufacturer = s.manufacturer; redfish_root = s.redfish_root })
          (some oem) env.plugins)
        ("Selected OEM '" <> oem
          <> "' has no installed plugin — re-select the vendor in the server panel")

  routed-Keeps : (env : Env) (s : ServerRow) → Keeps (routed env s)
  unfolding routed
  routed-Keeps env s = bind-Keeps (oem_need s) _ (need-Keeps _ _) (λ (oem : String).
      bind-Keeps (plugin_need env s oem) _ (need-Keeps _ _)
        (λ (plugin : Plugin) w. IsOwn-refl w.jobs))

  pub real_task-Keeps :
      (env : Env) (f : FirmwareRow) (ui : Credentials) (apply_now : Bool)
      → Keeps (real_task env id f ui apply_now)
  unfolding real_task
  real_task-Keeps env f ui apply_now =
      bind-Keeps (λ w. need (get_task id w.jobs) "Task vanished from DB" w) _
        (λ w. need-Keeps (get_task id w.jobs) _ w)
        (λ (task : TaskRow).
          bind-Keeps (λ w. need (get_server_of task.server_id w.servers) "Server not found" w) _
            (λ w. need-Keeps (get_server_of task.server_id w.servers) _ w)
            (λ (server : ServerRow).
              bind-Keeps
                (require (present server.redfish_root)
                  "Server has no Redfish endpoint (re-run discovery)")
                _ (require-Keeps (present server.redfish_root) _)
                (λ _.
                  bind-Keeps (lift (verify_firmware_sha env.digest f)) _ (λ w. IsOwn-refl w.jobs)
                    (λ (integrity : Bool × String).
                      bind-Keeps
                        (require integrity.0 ("Firmware integrity check failed: " <> integrity.1)) _
                        (require-Keeps integrity.0 _)
                        (λ _.
                          bind-Keeps (routed env server) _ (routed-Keeps env server)
                            (λ (found : String × Plugin).
                              checked_flash-Keeps env found.1 (info_of server found.0) f ui
                                apply_now))))))
