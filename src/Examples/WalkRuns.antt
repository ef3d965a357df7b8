-- ===== src/Examples/WalkRuns.antt =====
-- A walk of a BMC with a rollback bank beside its BIOS.
use clusterone.Prelude.{
  Option, String, has_text, if◌then◌else◌, last_segment, lower, none, refl, some, ◌==◌, ◌||◌, ◌≡◌,
}
use clusterone.Exec.{Result, err, ok, raised}
use clusterone.Json.{
  Fields, Json, arr, cons, end, field, get, get_field, is_truthy, items, nil, obj, str,
}
use clusterone.Capabilities.{
  CapabilityMap, blank_map, classify_component, is_active_bank, lookup, pick_active, put,
}
use clusterone.Capabilities.Walk.{Walk, absorb_oem_keys, has_key, odata_id, safe_get}
use clusterone.Capabilities.Discover.{discover, new_walk}
use clusterone.Capabilities.Banks.{IsSafe}
use clusterone.Capabilities.Safety.{discover-IsSafe}
use clusterone.Capabilities.Members.{walk_firmware_inventory}
use clusterone.Capabilities.Service.{walk_update_service}
use clusterone.Capabilities.Systems.{walk_systems}
use clusterone.Capabilities.Managers.{walk_managers, walk_session_service, walk_task_service}

abbrev link : String → Json
link uri = obj (field "@odata.id" (str uri) end)

-- The service root, the update service and an inventory of three members.
abbrev pages : String → Option Fields
pages path =
    if path == "/redfish/v1/"
    then some (field "UpdateService" (link "/us") end)
    else if path == "/us"
    then some (field "FirmwareInventory" (link "/fi") end)
    else if path == "/fi"
    then some (
        field "Members"
          (arr (
            cons (link "/fi/BIOSImage2")
              (cons (link "/fi/BIOS") (cons (link "/fi/HGX_FW_GPU_0") nil))))
          end)
    else if path == "/fi/BIOSImage2" || path == "/fi/BIOS" || path == "/fi/HGX_FW_GPU_0"
    then some (field "Version" (str "1.0") end)
    else none

abbrev answer : Option Fields → Result Json
answer none = err (raised "RedfishHTTPError" "HTTP 404")
answer (some fs) = ok (obj fs)

abbrev small_bmc : Json → Result Json
small_bmc (str path) = answer (pages path)
small_bmc path = err (raised "AttributeError" "")

abbrev walked : Result CapabilityMap × Walk
walked = discover small_bmc 9 new_walk

abbrev map_of : Result CapabilityMap → CapabilityMap
map_of (ok c) = c
map_of (err e) = blank_map

discover-IsSafe_example : IsSafe (map_of walked.0)
unfolding discover get is_truthy get_field absorb_oem_keys walk_update_service odata_id safe_get
    walk_firmware_inventory items has_key walk_systems walk_managers walk_task_service
    walk_session_service
discover-IsSafe_example = discover-IsSafe small_bmc 9 (map_of walked.0) walked.1 refl

bios_found : (map_of walked.0).bios_member_uri ≡ some "/fi/BIOS"
unfolding discover get is_truthy get_field absorb_oem_keys walk_update_service odata_id safe_get
    walk_firmware_inventory items has_key walk_systems walk_managers walk_task_service
    walk_session_service pick_active lookup put is_active_bank classify_component lower has_text
    last_segment
bios_found = refl
