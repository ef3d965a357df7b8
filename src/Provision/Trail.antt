-- ===== src/Provision/Trail.antt =====
-- What a task of core/services/provisioning_orchestrator.py asks of the BMC, in which order.
use mathlib.Core.List.{append_assoc, map-append}
use clusterone.Prelude.{
  Bool, List, Option, String, [], ap, false, if◌then◌else◌, ltb, map, none, not, refl, some, suc,
  sym, true, zero, ℕ, ◌++◌, ◌+◌, ◌∙◌, ◌∷◌, ◌≡◌,
}
use clusterone.Exec.{Exn, Result, cancelled, err, lift, ok}
use clusterone.Models.{Credentials, Outcome, ServerInfo}
use clusterone.Plugins.{Plugin}
use clusterone.Exec.Triples.{
  After, After-bind, After-branch, After-result, After-weaken, raises, returns,
}
use clusterone.Provision.{Configs}
use clusterone.Serving.{FileServer, signed_iso_url}
use clusterone.Provision.Yard.{
  IsoRow, Order, Request, Setting, Yard, boot_cd, cycle, demand, eject, ensure, mount,
  report_progress,
}
use clusterone.Provision.Task.{ask, ask_for, ceiling, time_left, wait_from}

abbrev pub order_of : Plugin → ServerInfo → Request → Order
order_of plugin info request = record { plugin = plugin.key; target = info; request = request }

module _ (s : Setting) (plugin : Plugin) (info : ServerInfo) (creds : Credentials) where
  -- The plugin said yes.
  abbrev pub Granted : Request → Type 0
  Granted request =
      (o : Outcome) × (s.hardware plugin request info creds ≡ ok o) × (o.success ≡ true)

  -- The link that the file server signed for the image.
  abbrev pub Published : IsoRow → String → Type 0
  Published iso url =
      (server : FileServer) × (s.file_server ≡ some server)
      × (signed_iso_url s.digest server s.signed_at iso.sha256 ≡ ok url)

  -- The requests of an install that came to an end, in their order, each one behind the success of
  -- those before it.
  pub data Trail (url : String) : Result (Unit {0}) → List Request → Type 0 where
    mounted : (e : Exn) → Trail url (err e) (mount url ∷ [])
    booted : (e : Exn) → Granted (mount url) → Trail url (err e) (mount url ∷ boot_cd ∷ [])
    cycled :
        (e : Exn)
        → Granted (mount url)
        → Granted boot_cd
        → Trail url (err e) (mount url ∷ boot_cd ∷ cycle ∷ [])
    ejected :
        (r : Result (Unit {0}))
        → Granted (mount url)
        → Granted boot_cd
        → Granted cycle
        → s.is_up ≡ true
        → Trail url r (mount url ∷ boot_cd ∷ cycle ∷ eject ∷ [])

  -- Since `base` these requests were sent, and `configs` is what is in memory.
  pub data Sent (base : List Order) (configs : Configs) (rs : List Request) (w : Yard)
      : Type 0 where
    sent :
        w.orders ≡ base ++ map (order_of plugin info) rs
        → w.configs ≡ configs
        → Sent base configs rs w

  snoc_order :
      (base : List Order) (rs : List Request) (r : Request)
      → (base ++ map (order_of plugin info) rs) ++ order_of plugin info r ∷ []
        ≡ base ++ map (order_of plugin info) (rs ++ r ∷ [])
  snoc_order base rs r =
      append_assoc base (map (order_of plugin info) rs) (order_of plugin info r ∷ [])
      ∙ ap (λ xs. base ++ xs) (sym (map-append (order_of plugin info) rs (r ∷ [])))

  module _ (id : ℕ) (base : List Order) (configs : Configs) where
    abbrev pub Here : List Request → Yard → Type 0
    Here = Sent base configs

    -- How an install ends: before the first request, or behind a trail of them.
    pub data Ended (iso : IsoRow) : Result (Unit {0}) → Yard → Type 0 where
      unasked : (e : Exn) (w : Yard) → Here [] w → Ended iso (err e) w
      asked :
          (url : String) (rs : List Request) (r : Result (Unit {0})) (w : Yard)
          → Published iso url
          → Trail url r rs
          → Here rs w
          → Ended iso r w

    pub ensure-After :
        (b : Bool) (message : String) (rs : List Request) (w : Yard)
        → Here rs w
        → After (λ _ t. Here rs t × (b ≡ true)) (λ _. Here rs) (ensure b message w)
    ensure-After true message rs w x = returns tt w (x, refl)
    ensure-After false message rs w x = raises _ w x

    pub demand-After :
        {A : Type 0} (o : Option A) (message : String) (rs : List Request) (w : Yard)
        → Here rs w
        → After (λ a t. Here rs t × (o ≡ some a)) (λ _. Here rs) (demand o message w)
    demand-After none message rs w x = raises _ w x
    demand-After (some a) message rs w x = returns a w (x, refl)

    pub lift-After :
        {A : Type 0} (r : Result A) (rs : List Request) (w : Yard)
        → Here rs w
        → After (λ a t. Here rs t × (r ≡ ok a)) (λ _. Here rs) (lift r w)
    lift-After r rs w x = After-result r w (λ _ q. (x, q)) (λ _. x)

    -- What is kept of a state.
    pub later :
        {v w : Yard} {rs : List Request}
        → v.orders ≡ w.orders
        → v.configs ≡ w.configs
        → Here rs w
        → Here rs v
    later p q (sent x c) = sent (p ∙ x) (q ∙ c)

    pub ask-After :
        (r : Request) (rs : List Request) (w : Yard)
        → Here rs w
        → After
            (λ o t. Here (rs ++ r ∷ []) t × (s.hardware plugin r info creds ≡ ok o))
            (λ _. Here (rs ++ r ∷ []))
            (ask s id plugin info creds r w)
    unfolding ask
    ask-After r rs w (sent x c) =
        let there =
          sent (ap (λ os. os ++ order_of plugin info r ∷ []) x ∙ snoc_order base rs r) c in
        After-result (s.hardware plugin r info creds) _ (λ o q. (there, q)) (λ _. there)

    pub ask_for-After :
        (r : Request) (what : String) (rs : List Request) (w : Yard)
        → Here rs w
        → After
            (λ _ t. Here (rs ++ r ∷ []) t × Granted r)
            (λ _. Here (rs ++ r ∷ []))
            (ask_for s id plugin info creds r what w)
    unfolding ask_for
    ask_for-After r what rs w x =
        After-bind (ask s id plugin info creds r) _ w (ask-After r rs w x) (λ _ _ k. k)
          (λ o t h.
            After-weaken (ensure-After o.success _ (rs ++ r ∷ []) t h.0)
              (λ _ _ k. (k.0, (o, h.1, k.1))) (λ _ _ k. k))

    pub wait_from-After :
        (n i : ℕ) (rs : List Request) (w : Yard)
        → Here rs w
        → After (λ _. Here rs) (λ _. Here rs) (wait_from s id n i w)
    unfolding wait_from report_progress
    wait_from-After zero i rs w x = raises _ w x
    wait_from-After (suc n) i rs w (sent x c) =
        let r = s.round i in
        let later =
          (report_progress id "installing" (50 + s.share (time_left s.began_at r)) "" w).1 in
        let on = wait_from s id n (suc i) later in
        After-branch (not (ltb r.time (s.began_at + 1800))) (err ceiling, w) _
          (raises ceiling w (sent x c))
          (After-branch r.is_cancelled (err cancelled, w) (if r.is_ready then (ok tt, w) else on)
            (raises cancelled w (sent x c))
            (After-branch r.is_ready (ok tt, w) on (returns tt w (sent x c))
              (wait_from-After n (suc i) rs later (sent x c))))
