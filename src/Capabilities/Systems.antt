-- ===== src/Capabilities/Systems.antt =====
-- `_walk_systems` of core/plugins_api/capability_discoverer.py.
use clusterone.Prelude.{
  List, String, [], if◌then◌else◌, is_some, leb, length, characters, map, not, or_else, print_nat,
  some, ℕ, ◌<>◌, ◌∷◌,
}
use clusterone.Exec.{Result, err, gets, lift, ok, pure, raised, ◌>>=◌, ◌>>◌}
use clusterone.Json.{
  Json, arr, end, get, get_or_null, is_truthy, keys, nil, null, obj, show, str, to_list, type_name,
}
use clusterone.Capabilities.{CapabilityMap}
use clusterone.Capabilities.Walk.{
  Stage, absorb_oem_keys, fetch, fetch_items, fetch_or, follow, lookup_key, odata_id, or_default,
  set, warn,
}
use clusterone.Capabilities.Service.{
  allowed_values, fetch_action_info, has_none, set_found, set_tuple,
}

-- `len(members)` and `members[0]` on what is truthy
unfoldable pub length_of : Json → Result ℕ
length_of (arr js) = ok (length (to_list js))
length_of (obj fs) = ok (length (keys fs))
length_of (str s) = ok (length (characters s))
length_of j = err (raised "TypeError" ("object of type '" <> type_name j <> "' has no len()"))

unfoldable pub head_of : List Json → Result Json
head_of [] = err (raised "IndexError" "list index out of range")
head_of (j ∷ js) = ok j

unfoldable pub first_member : Json → Result Json
unfolding head_of
first_member (arr js) = head_of (to_list js)
first_member (str s) = head_of (map str (characters s))
first_member (obj fs) = err (raised "KeyError" "0")
first_member j = err (raised "TypeError" ("'" <> type_name j <> "' object is not subscriptable"))

module _ (client : Json → Result Json) where
  -- `Members[0]` of a collection; there is none where it warns, or where a link is missing.
  unfoldable pub warn_many : Json → ℕ → Stage (Unit {0})
  unfolding first_member
  warn_many members n = if leb n 1 then pure tt else do
    first ← lift (first_member members)
    uri ← lift (get "@odata.id" first)
    warn (
        "Systems collection has "
        <> print_nat n
        <> " members — using Members[0] ("
        <> show (or_else uri (str "?"))
        <> "). Multi-node chassis aren't yet individually addressable.")

  abbrev pub set_resettypes : List Json → CapabilityMap → CapabilityMap
  set_resettypes xs c = record c { system_reset_allowed_resettypes = xs }

  unfoldable pub promote_resettypes : Json → Stage (Unit {0})
  promote_resettypes target = do
    has_no_types ← gets λ w. has_none w.cap.system_reset_allowed_resettypes
    table ← gets λ w. w.cap.raw_action_info
    if not has_no_types then pure tt else do
      let info = or_default (or_else (lookup_key target table) null) (obj end)
      params ← fetch_items "Parameters" info
      found ← allowed_values "ResetType" params
      set_found set_resettypes found

  unfoldable pub keep_reset : Json → Json → Stage (Unit {0})
  unfolding promote_resettypes
  keep_reset reset target = if not (is_truthy target) then pure tt else do
    set (λ c. record c { system_reset_target = target })
    allowed ← fetch "ResetType@Redfish.AllowableValues" reset
    set_tuple set_resettypes allowed
    fetch_action_info client reset "ComputerSystem.Reset"
    promote_resettypes target

  unfoldable pub boot_uri : String → Json → Json
  boot_uri uri (obj fs) = or_default (get_or_null "@odata.id" fs) (str uri)
  boot_uri uri boot = str uri

  unfoldable pub read_system : String → Json → Stage (Unit {0})
  unfolding keep_reset boot_uri
  read_system uri system = do
    set (λ c. record c { system_uri = some uri })
    power ← fetch_or "PowerState" (str "Unknown") system
    set (λ c. record c { system_power_state = power })
    absorb_oem_keys system
    actions ← fetch_or "Actions" (obj end) system
    reset ← fetch_or "#ComputerSystem.Reset" (obj end) actions
    target ← fetch "target" reset
    keep_reset reset target
    boot ← fetch "Boot" system
    set (λ c. record c { system_boot_patch_uri = boot_uri uri boot })

  unfoldable pub read_systems : Json → Stage (Unit {0})
  unfolding warn_many read_system length_of first_member
  read_systems coll = do
    members ← fetch_or "Members" (arr nil) coll
    if not (is_truthy members)
        then warn "Systems collection empty — power/boot/provisioning disabled"
        else do
          n ← lift (length_of members)
          warn_many members n
          first ← lift (first_member members)
          follow client (odata_id first) "ComputerSystem" read_system

  unfoldable pub walk_systems : Json → Stage (Unit {0})
  unfolding read_systems
  walk_systems root = do
    reference ← fetch "Systems" root
    let link = odata_id reference
    if not (is_some link)
        then warn "No Systems collection — power/boot/provisioning disabled"
        else follow client link "Systems collection" (λ _. read_systems)
