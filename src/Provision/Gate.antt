-- ===== src/Provision/Gate.antt =====
-- What stands between a task of core/services/provisioning_orchestrator.py and the power switch.
use clusterone.Prelude.{List, String, [], refl, ℕ, ◌∷◌}
use clusterone.Exec.{err, lift, ok}
use clusterone.Models.{Credentials, ServerInfo}
use clusterone.Plugins.{Plugin}
use clusterone.Exec.Triples.{After, After-bind, returns}
use clusterone.Provision.{Configs}
use clusterone.Serving.{signed_autoinstall_url, signed_iso_url}
use clusterone.Provision.Yard.{
  IsoRow, Order, Setting, Yard, boot_cd, cycle, demand, eject, ensure, mount, report_progress,
}
use clusterone.Provision.Task.{ask, ask_for, await_install, install, wait_from}
use clusterone.Provision.Trail.{
  Ended, Granted, Published, Sent, ask-After, ask_for-After, asked, booted, cycled, demand-After,
  ejected, ensure-After, later, lift-After, mounted, unasked, wait_from-After,
}

module _ (s : Setting) (plugin : Plugin) (info : ServerInfo) (creds : Credentials) where
  module _ (id : ℕ) (base : List Order) (configs : Configs) where
    -- From the power cycle on.
    await_install-Ended :
        (iso : IsoRow) (url : String)
        → Published s plugin info creds iso url
        → Granted s plugin info creds (mount url)
        → Granted s plugin info creds boot_cd
        → Granted s plugin info creds cycle
        → (w : Yard) → Sent s plugin info creds base configs (mount url ∷ boot_cd ∷ cycle ∷ []) w
        → After
            (λ _. Ended s plugin info creds id base configs iso (ok tt))
            (λ e. Ended s plugin info creds id base configs iso (err e))
            (await_install s id plugin info creds w)
    unfolding await_install report_progress
    await_install-Ended iso url link g h k w x =
        After-bind (wait_from s id 121 0) _ _
          (wait_from-After s plugin info creds id base configs 121 0 _ _
            (later s plugin info creds id base configs refl refl x))
          (λ e _. asked url _ _ _ link (cycled e g h))
          (λ _ t v.
            After-bind (ensure s.is_up "Host not SSH-reachable after install") _ _
              (ensure-After s plugin info creds id base configs s.is_up _ _ _
                (later s plugin info creds id base configs refl refl v))
              (λ e _. asked url _ _ _ link (cycled e g h))
              (λ _ t v.
                After-bind (ask s id plugin info creds eject) _ t
                  (ask-After s plugin info creds id base configs eject _ t v.0)
                  (λ e _. asked url _ _ _ link (ejected (err e) g h k v.1))
                  (λ _ t z. returns tt t (asked url _ _ _ link (ejected (ok tt) g h k v.1) z.0))))

    pub install-Ended :
        (iso : IsoRow) (w : Yard)
        → Sent s plugin info creds base configs [] w
        → After
            (λ _. Ended s plugin info creds id base configs iso (ok tt))
            (λ e. Ended s plugin info creds id base configs iso (err e))
            (install s id plugin info creds iso w)
    unfolding install report_progress
    install-Ended iso w x =
        After-bind (demand s.file_server _) _ _
          (demand-After s plugin info creds id base configs s.file_server _ [] _
            (later s plugin info creds id base configs refl refl x))
          (unasked)
          (λ server t y.
            After-bind (lift (signed_iso_url s.digest server s.signed_at iso.sha256)) _ t
              (lift-After s plugin info creds id base configs _ [] t y.0) (unasked)
              (λ url t z.
                let link : Published s plugin info creds iso url = (server, y.1, z.1) in
                After-bind (lift (signed_autoinstall_url s.digest server s.signed_at s.token)) _ t
                  (lift-After s plugin info creds id base configs _ [] t z.0) (unasked)
                  (λ _ t y.
                    After-bind (ask_for s id plugin info creds (mount url) "Mount") _ _
                      (ask_for-After s plugin info creds id base configs (mount url) "Mount" [] _
                        (later s plugin info creds id base configs refl refl y.0))
                      (λ e _. asked url _ _ _ link (mounted e))
                      (λ _ t y.
                        After-bind (ask_for s id plugin info creds boot_cd "Set-boot") _ _
                          (ask_for-After s plugin info creds id base configs boot_cd "Set-boot" _ _
                            (later s plugin info creds id base configs refl refl y.0))
                          (λ e _. asked url _ _ _ link (booted e y.1))
                          (λ _ t z.
                            After-bind (ask_for s id plugin info creds cycle "Power cycle") _ _
                              (ask_for-After s plugin info creds id base configs cycle "Power cycle"
                                _ _ (later s plugin info creds id base configs refl refl z.0))
                              (λ e _. asked url _ _ _ link (cycled e y.1 z.1))
                              (λ _ t u. await_install-Ended iso url link y.1 z.1 u.1 t u.0))))))
