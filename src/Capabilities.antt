-- ===== src/Capabilities.antt =====
-- core/plugins_api/capability_discoverer.py: the map of what a BMC exposes, and which members of
-- its firmware inventory may be flashed.
pub mod Walk
pub mod Members
pub mod Service
pub mod Systems
pub mod Managers
pub mod Discover
pub mod Banks
pub mod Kept
pub mod Safety
use Prim.Native.Nat.{Ordering}
use Prim.Native.String.{compare}
use clusterone.Prelude.{
  Bool, List, Option, String, [], any, false, has_text, if◌then◌else◌, lower, map, none, not, some,
  true, ℕ, ◌&&◌, ◌==◌, ◌∷◌,
}
use clusterone.Json.{Json, null, str}

-- The banks that are never the active target.
abbrev banned_bank_leaves : List String
banned_bank_leaves =
    "backup" ∷ "golden" ∷ "staging" ∷ "recovery" ∷ "history" ∷ "image2" ∷ "image_2" ∷ []

abbrev pub bios_candidates : List String
bios_candidates =
    "BIOS" ∷ "Bios" ∷ "SystemBios" ∷ "SystemBIOS" ∷ "UEFI" ∷ "Uefi" ∷ "BIOSImage1" ∷ "BIOSImage_1"
    ∷ []

abbrev pub bmc_candidates : List String
bmc_candidates =
    "BMC" ∷ "BMC-Primary" ∷ "BMCActive" ∷ "BMC_Active" ∷ "BMCImage1" ∷ "BMCImage_1" ∷ "iDRAC"
    ∷ "iLO" ∷ "iLO5" ∷ "iLO6" ∷ "XCC" ∷ "Manager" ∷ []

-- The classes with their tokens, in the order in which they are tried.
abbrev component_tokens : List (String × List String)
component_tokens =
    ("bios", "bios" ∷ "uefi" ∷ [])
    ∷ ("bmc", "bmc" ∷ "idrac" ∷ "ilo" ∷ "xcc" ∷ "manager" ∷ [])
    ∷ ("cpld", "cpld" ∷ [])
    ∷ ("fpga", "fpga" ∷ [])
    ∷ ("bp", "backplane" ∷ "bp" ∷ [])
    ∷ ("psu", "psu" ∷ "powersupply" ∷ "power_supply" ∷ [])
    ∷ ("retimer", "retimer" ∷ [])
    ∷ []

abbrev hgx_tokens : List String
hgx_tokens = "hgx" ∷ "hmc" ∷ "gpu" ∷ "erot" ∷ "inforom" ∷ []

abbrev any_token : List String → String → Bool
any_token tokens leaf = any (λ t. has_text leaf t) tokens

first_class : List (String × List String) → String → String
first_class [] leaf = "other"
first_class ((class, tokens) ∷ rest) leaf =
    if any_token tokens leaf then class else first_class rest leaf

unfoldable pub classify_component : String → String
unfolding first_class
classify_component leaf = first_class component_tokens (lower leaf)

unfoldable pub is_active_bank : String → Bool
is_active_bank leaf = not (any_token banned_bank_leaves (lower leaf))

unfoldable pub is_hgx_member : String → Bool
is_hgx_member leaf = any_token hgx_tokens (lower leaf)

pub record FirmwareMember : Type 0 where
  pub uri : String
  pub version : Json
  pub updateable : Bool
  pub software_id : Json
  pub related_item_uris : List String
  pub is_active : Bool
  pub component_class : String

pub record VirtualMediaSlot : Type 0 where
  pub uri : String
  pub media_types : List Json
  pub insert_action : Json
  pub eject_action : Json
  pub transfer_method : Json
  pub transfer_protocol_types : List Json
  pub inserted : Bool
  pub write_protected : Bool

-- A dict, in the order of insertion.
abbrev pub Dict : Type 0 → Type 0
Dict A = List (String × A)

unfoldable pub lookup : {A : Type 0} → String → Dict A → Option A
lookup key [] = none
lookup key ((k, v) ∷ d) = if k == key then some v else lookup key d

unfoldable pub put : {A : Type 0} → String → A → Dict A → Dict A
put key v [] = (key, v) ∷ []
put key v ((k, u) ∷ d) = if k == key then (k, v) ∷ d else (k, u) ∷ put key v d

abbrev pub Inventory : Type 0
Inventory = Dict FirmwareMember

-- `sorted(keys)`
abbrev is_le : String → String → Bool
is_le a b = elim (compare a b) [ Ordering.gt ↦ false | _ ↦ true ]

insert_text : String → List String → List String
insert_text a [] = a ∷ []
insert_text a (b ∷ bs) = if is_le a b then a ∷ b ∷ bs else b ∷ insert_text a bs

unfoldable pub sort_texts : List String → List String
unfolding insert_text
sort_texts [] = []
sort_texts (t ∷ ts) = insert_text t (sort_texts ts)

-- The first of some leaves whose member is active and of the class.
unfoldable pub take_member : String → Option FirmwareMember → Option String
take_member class none = none
take_member class (some m) = if m.is_active && m.component_class == class then some m.uri else none

unfoldable pub or_next : Option String → Option String → Option String
or_next none next = next
or_next (some uri) next = some uri

unfoldable pub pick_among : String → Inventory → List String → Option String
unfolding take_member or_next
pick_among class inventory [] = none
pick_among class inventory (leaf ∷ leaves) =
    or_next (take_member class (lookup leaf inventory)) (pick_among class inventory leaves)

unfoldable pub pick_active : String → List String → Inventory → Option String
unfolding pick_among sort_texts
pick_active class priority inventory =
    or_next (pick_among class inventory priority) (
      pick_among class inventory
        (sort_texts (map (λ (e : String × FirmwareMember). e.0) inventory)))

-- Every field of the map but `service_root` starts empty.
pub record CapabilityMap : Type 0 where
  pub service_root : Json
  pub redfish_version : Json
  pub vendor_hint : Json
  pub oem_blocks : List String
  pub update_service_uri : Option String
  pub update_service_enabled : Bool
  pub multipart_push_uri : Json
  pub http_push_uri : Json
  pub simple_update_target : Json
  pub simple_update_allowed_transfer_protocols : List Json
  pub start_update_target : Json
  pub oem_install_actions : Dict Json
  pub oem_update_flags : Dict Json
  pub firmware_inventory_uri : Option String
  pub firmware_inventory : Inventory
  pub bios_member_uri : Option String
  pub bmc_member_uri : Option String
  pub extra_firmware_members : Dict String
  pub hgx_member_uris : Dict String
  pub task_service_uri : Option String
  pub task_collection_uri : Option String
  pub system_uri : Option String
  pub system_reset_target : Json
  pub system_reset_allowed_resettypes : List Json
  pub system_boot_patch_uri : Json
  pub system_power_state : Json
  pub manager_uri : Option String
  pub manager_reset_target : Json
  pub virtualmedia_collection_uri : Option String
  pub virtualmedia_uris : List (Json × VirtualMediaSlot)
  pub session_service_uri : Option String
  pub raw_action_info : List (Json × Json)
  pub discovery_warnings : List String
  pub discovered_at : ℕ

abbrev pub blank_map : CapabilityMap
blank_map = record {
  service_root = str "/redfish/v1/";
  redfish_version = null;
  vendor_hint = null;
  oem_blocks = [];
  update_service_uri = none;
  update_service_enabled = true;
  multipart_push_uri = null;
  http_push_uri = null;
  simple_update_target = null;
  simple_update_allowed_transfer_protocols = [];
  start_update_target = null;
  oem_install_actions = [];
  oem_update_flags = [];
  firmware_inventory_uri = none;
  firmware_inventory = [];
  bios_member_uri = none;
  bmc_member_uri = none;
  extra_firmware_members = [];
  hgx_member_uris = [];
  task_service_uri = none;
  task_collection_uri = none;
  system_uri = none;
  system_reset_target = null;
  system_reset_allowed_resettypes = [];
  system_boot_patch_uri = null;
  system_power_state = str "Unknown";
  manager_uri = none;
  manager_reset_target = null;
  virtualmedia_collection_uri = none;
  virtualmedia_uris = [];
  session_service_uri = none;
  raw_action_info = [];
  discovery_warnings = [];
  discovered_at = 0;
}
