-- ===== src/Provision/Conduct.antt =====
-- `_real_task` of core/services/provisioning_orchestrator.py, from its guards to what it leaves.
use clusterone.Prelude.{
  Bool, Bool-cases, List, Option, String, ap, arith, false, inl, inr, none, refl, some, sym, true,
  ℕ, ◌∙◌, ◌≡◌,
}
use clusterone.Exec.{Exn, Result, err, lift, ok}
use clusterone.Models.{Drive}
use clusterone.Servers.{ServerRow, get_server_of, trimmed}
use clusterone.Plugins.{Plugin, resolve_plugin}
use clusterone.Update.{non_empty}
use clusterone.Exec.Triples.{
  After, After-Reads, After-weaken, Reads, Reads-bind, Reads-result, Reads-weaken, failed, raises,
  read, returns,
}
use clusterone.Provision.{Choice, is_runnable}
use clusterone.Provision.Tables.{ProvisioningTask, get_provisioning_task}
use clusterone.Power.Apply.{has_root, probe_of}
use clusterone.Provision.Yard.{IsoRow, Setting, Yard, demand, ensure, report_progress}
use clusterone.Provision.Task.{
  disk_text, install_creds, install_info, real_install, routed_install, runnable_choice,
}
use clusterone.Provision.Trail.{Ended}
use clusterone.Provision.Dropped.{Unused, stored_install-Ended}

-- How a task's work ends: before the first request, or, for a server with a Redfish root, in an
-- install by the plugin that the operator picked, on a choice that may run.
pub data Conduct (s : Setting) (id : ℕ) (drives_of : ServerRow → List Drive) (iso : IsoRow)
    (w : Yard) : Result (Unit {0}) → Yard → Type 0 where
  idle :
      (e : Exn) (v : Yard)
      → v.orders ≡ w.orders
      → v.configs ≡ w.configs
      → Conduct s id drives_of iso w (err e) v
  conducted :
      (task : ProvisioningTask) (row : ServerRow) (oem body : String) (plugin : Plugin) (c : Choice)
      (r : Result (Unit {0})) (v : Yard)
      → get_provisioning_task id w.repo ≡ some task
      → get_server_of task.server_id w.servers ≡ some row
      → has_root row ≡ true
      → non_empty (trimmed row.oem_override) ≡ some oem
      → resolve_plugin (probe_of row) (some oem) s.plugins ≡ some plugin
      → task.resolved_disk ≡ some c
      → is_runnable c.status ≡ true
      → disk_text s id iso (install_info drives_of row) c ≡ ok body
      → Ended s plugin
          (install_info drives_of row)
          (install_creds s id (install_info drives_of row) w)
          id
          w.orders
          w.configs
          iso
          r
          v
      → Conduct s id drives_of iso w r v

runnable_choice-ok :
    (o : Option Choice) (s : Setting) (id : ℕ) (c : Choice)
    → runnable_choice s id o ≡ ok c
    → (o ≡ some c) × (is_runnable c.status ≡ true)
unfolding runnable_choice
runnable_choice-ok none s id c h = absurd (ground (arith, h))
runnable_choice-ok (some d) s id c h = elim (Bool-cases (is_runnable d.status)) [
  | inl e ↦
      let same : d ≡ c = ground (arith, rw e at h) in
      (ap some same, ap (λ (x : Choice). is_runnable x.status) (sym same) ∙ e)
  | inr e ↦ absurd (ground (arith, rw e at h))
]

module _ (s : Setting) (id : ℕ) where
  ensure-Reads :
      (b : Bool) (message : String) (w : Yard) → Reads (λ _. b ≡ true) w (ensure b message w)
  ensure-Reads true message w = read tt refl
  ensure-Reads false message w = failed _

  demand-Reads :
      {A : Type 0} (o : Option A) (message : String) (w : Yard)
      → Reads (λ a. o ≡ some a) w (demand o message w)
  demand-Reads none message w = failed _
  demand-Reads (some a) message w = read a refl

  lift-Reads : {A : Type 0} (r : Result A) (w : Yard) → Reads (λ a. r ≡ ok a) w (lift r w)
  lift-Reads r w = Reads-result r w (λ a q. q)

  runnable-Reads :
      (o : Option Choice) (w : Yard)
      → Reads
          (λ c. (o ≡ some c) × (is_runnable c.status ≡ true))
          w
          (lift (runnable_choice s id o) w)
  runnable-Reads o w =
      Reads-weaken (lift-Reads (runnable_choice s id o) w) (λ c q. runnable_choice-ok o s id c q)

  routed_install-Reads :
      (row : ServerRow) (w : Yard)
      → Reads
          (λ plugin.
            (has_root row ≡ true)
            × (oem : String) × (non_empty (trimmed row.oem_override) ≡ some oem)
            × (resolve_plugin (probe_of row) (some oem) s.plugins ≡ some plugin))
          w
          (routed_install s id row w)
  unfolding routed_install
  routed_install-Reads row w =
      Reads-bind (ensure (has_root row) _) _ w (ensure-Reads (has_root row) _ w) (λ _ root.
        Reads-bind (demand (non_empty (trimmed row.oem_override)) _) _ w (demand-Reads _ _ w)
          (λ oem pick.
            Reads-weaken (demand-Reads (resolve_plugin (probe_of row) (some oem) s.plugins) _ w)
              (λ plugin q. (root, oem, pick, q))))

  module _ (drives_of : ServerRow → List Drive) (iso : IsoRow) (w : Yard) where
    abbrev End : Result (Unit {0}) → Yard → Type 0
    End = Conduct s id drives_of iso w

    refused : (e : Exn) → End (err e) w
    refused e = idle e w refl refl

    real_install-End :
        Unused s.token w.configs
        → After (λ _. End (ok tt)) (λ e. End (err e)) (real_install s id drives_of iso w)
    unfolding real_install
    real_install-End fresh =
        After-Reads (demand (get_provisioning_task id w.repo) _) _ w (demand-Reads _ _ w) refused
          (λ task t.
            After-Reads (demand (get_server_of task.server_id w.servers) _) _ w (demand-Reads _ _ w)
              refused
              (λ row r.
                After-Reads (routed_install s id row) _ w (routed_install-Reads row w) refused
                  (λ plugin p.
                    let info = install_info drives_of row in
                    let v = (report_progress id "resolving_disk" 5 "" w).1 in
                    let u = (report_progress id "rendering_config" 10 "" v).1 in
                    After-Reads (lift (runnable_choice s id task.resolved_disk)) _ v
                      (runnable-Reads task.resolved_disk v) (λ e. idle e v refl refl)
                      (λ c k.
                        After-Reads (lift (disk_text s id iso info c)) _ u
                          (lift-Reads (disk_text s id iso info c) u) (λ e. idle e u refl refl)
                          (λ body q.
                            After-weaken
                              (stored_install-Ended s plugin info (install_creds s id info w) id iso
                                body u fresh)
                              (λ _ x.
                                conducted task row p.1 body plugin c (ok tt) x t r p.0 p.2 p.3 k.0
                                  k.1 q)
                              (λ e x.
                                conducted task row p.1 body plugin c (err e) x t r p.0 p.2 p.3 k.0
                                  k.1 q))))))

settled :
    {s : Setting} {id : ℕ} {drives_of : ServerRow → List Drive} {iso : IsoRow} {w : Yard}
    (x : Result (Unit {0}) × Yard)
    → After
        (λ _. Conduct s id drives_of iso w (ok tt))
        (λ e. Conduct s id drives_of iso w (err e))
        x
    → Conduct s id drives_of iso w x.0 x.1
settled _ (returns a v q) = q
settled _ (raises e v q) = q

-- Nothing is asked of a BMC before a task's guards: when no configuration is kept under the task's
-- token, an install either ends without a request, or it is that of a task and of a server that
-- exist, the server has a Redfish root, the plugin is the one of the operator's pick, and the
-- task's choice has a status that a task may run on, and its configuration is rendered; then the
-- requests are a beginning of mount, boot override, power cycle and eject, all by that plugin and
-- for that server, each one of them behind the success of those before it, with an image link that
-- the file server signed, the last one when port 22 answers, and a success stands behind all four.
-- On every path the rendered configurations are those of before.
pub real_install-Conduct :
    (s : Setting) (id : ℕ) (drives_of : ServerRow → List Drive) (iso : IsoRow) (w : Yard)
    → Unused s.token w.configs
    → Conduct s id drives_of iso w
        (real_install s id drives_of iso w).0
        (real_install s id drives_of iso w).1
real_install-Conduct s id drives_of iso w fresh =
    settled (real_install s id drives_of iso w) (real_install-End s id drives_of iso w fresh)
