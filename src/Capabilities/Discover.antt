-- ===== src/Capabilities/Discover.antt =====
-- `discover` and `_bootstrap` of core/plugins_api/capability_discoverer.py.
use clusterone.Prelude.{List, String, [], false, if◌then◌else◌, true, ℕ, ◌<>◌, ◌∷◌}
use clusterone.Exec.{Result, cancelled, err, lift, ok, pure, raised, runtime_error, ◌>>=◌, ◌>>◌}
use clusterone.Json.{Json, end, is_truthy, keys, no_attribute, null, obj, str}
use clusterone.Update.Preflight.{is_redfish}
use clusterone.Capabilities.{CapabilityMap, blank_map, sort_texts}
use clusterone.Capabilities.Walk.{Stage, Walk, absorb_oem_keys, fetch, fetch_or, set}
use clusterone.Capabilities.Service.{walk_update_service}
use clusterone.Capabilities.Systems.{walk_systems}
use clusterone.Capabilities.Managers.{walk_managers, walk_session_service, walk_task_service}

abbrev pub service_root_path : String
service_root_path = "/redfish/v1/"

-- The root is the one document whose absence ends the walk.
unfoldable pub root_answer : Result Json → Result Json
root_answer (ok j) = ok j
root_answer (err cancelled) = err cancelled
root_answer (err (raised class message)) =
    if is_redfish class
    then err (
        raised "RedfishError"
          ("Redfish ServiceRoot unavailable at " <> service_root_path <> ": " <> message))
    else err (raised class message)

-- `oem.keys()`
unfoldable pub oem_keys : Json → Result (List String)
oem_keys (obj fs) = ok (keys fs)
oem_keys j = no_attribute "keys" j

unfoldable pub first_key : List String → Json
first_key [] = null
first_key (k ∷ ks) = str k

unfoldable pub vendor_of : Json → Json → Stage Json
unfolding oem_keys first_key
vendor_of root vendor =
    if is_truthy vendor
    then pure vendor
    else do oem ← fetch_or "Oem" (obj end) root; names ← lift (oem_keys oem); pure (first_key names)

module _ (client : Json → Result Json) where
  unfoldable pub bootstrap : Stage Json
  unfolding root_answer vendor_of
  bootstrap = do
    root ← lift (root_answer (client (str service_root_path)))
    own ← fetch_or "@odata.id" (str service_root_path) root
    set (λ c. record c { service_root = own })
    version ← fetch "RedfishVersion" root
    set (λ c. record c { redfish_version = version })
    named ← fetch "Vendor" root
    vendor ← vendor_of root named
    set (λ c. record c { vendor_hint = vendor })
    absorb_oem_keys root
    pure root

  unfoldable pub freeze : ℕ → Walk → CapabilityMap
  freeze now w = record w.cap {
    oem_blocks = sort_texts w.oem_block_set;
    discovery_warnings = w.warnings;
    discovered_at = now;
  }

  unfoldable pub walk_all : ℕ → Stage CapabilityMap
  unfolding bootstrap freeze
  walk_all now = do
    root ← bootstrap
    walk_update_service client root
    walk_systems client root
    walk_managers client root
    walk_task_service client root
    walk_session_service root
    (λ w. (ok (freeze now w), record w { cap = freeze now w }))

  -- A discoverer walks once. `now` is the wall clock at the end.
  unfoldable pub discover : ℕ → Stage CapabilityMap
  unfolding walk_all
  discover now w =
      if w.consumed
      then (
        runtime_error
            "RedfishCapabilityDiscoverer is one-shot; construct a fresh instance per walk (state from a previous discover() call would contaminate this one).",
        w,
      )
      else walk_all now (record w { consumed = true })

abbrev pub new_walk : Walk
new_walk = record { cap = blank_map; warnings = []; oem_block_set = []; consumed = false }
