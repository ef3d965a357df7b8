-- ===== src/Capabilities/Members.antt =====
-- `_walk_firmware_inventory` of core/plugins_api/capability_discoverer.py.
use clusterone.Prelude.{
  Bool, List, Option, String, [], if◌then◌else◌, last_segment, none, not, some, suc, true, zero, ℕ,
  ◌&&◌, ◌++◌, ◌<>◌, ◌∷◌,
}
use clusterone.Exec.{Result, pure, ◌>>=◌, ◌>>◌}
use clusterone.Json.{Json, is_truthy, str}
use clusterone.Capabilities.{
  CapabilityMap, Dict, FirmwareMember, Inventory, bios_candidates, bmc_candidates,
  classify_component, is_active_bank, is_hgx_member, pick_active, put,
}
use clusterone.Capabilities.Walk.{
  Stage, fetch, fetch_flag, fetch_items, is_none, odata_id, safe_get, set, warn,
}

keep_uri : Option String → List String → List String
keep_uri none uris = uris
keep_uri (some uri) uris = uri ∷ uris

unfoldable pub reference_uris : List Json → List String
unfolding keep_uri
reference_uris [] = []
reference_uris (j ∷ js) = keep_uri (odata_id j) (reference_uris js)

-- What a member's document says, under the verdicts on its leaf.
unfoldable pub firmware_member : String → Json → Bool → Json → List Json → FirmwareMember
firmware_member uri version updateable software_id related = record {
  uri = uri;
  version = version;
  updateable = updateable;
  software_id = software_id;
  related_item_uris = reference_uris related;
  is_active = is_active_bank (last_segment uri);
  component_class = classify_component (last_segment uri);
}

unfoldable pub keep_member : String → Json → Stage (Unit {0})
unfolding firmware_member
keep_member uri mb = do
  related ← fetch_items "RelatedItem" mb
  version ← fetch "Version" mb
  updateable ← fetch_flag "Updateable" true mb
  software_id ← fetch "SoftwareId" mb
  let member = firmware_member uri version updateable software_id related
  set λ c. record c { firmware_inventory = put (last_segment uri) member c.firmware_inventory }

abbrev pub further_classes : List String
further_classes = "cpld" ∷ "fpga" ∷ "bp" ∷ "psu" ∷ "retimer" ∷ []

-- The first active member of each of the further classes.
unfoldable pub add_extra : String → Option String → Dict String → Dict String
add_extra class none extra = extra
add_extra class (some uri) extra = put class uri extra

unfoldable pub extra_members : List String → Inventory → Dict String → Dict String
unfolding add_extra
extra_members [] inventory extra = extra
extra_members (k ∷ ks) inventory extra =
    extra_members ks inventory (add_extra k (pick_active k [] inventory) extra)

-- The active members that belong to an HGX baseboard.
unfoldable pub hgx_members : Inventory → Dict String → Dict String
hgx_members [] found = found
hgx_members ((leaf, m) ∷ rest) found =
    hgx_members rest (if is_hgx_member leaf && m.is_active then put leaf m.uri found else found)

unfoldable pub resolve_banks : CapabilityMap → CapabilityMap
unfolding extra_members hgx_members
resolve_banks c = record c {
  bios_member_uri = pick_active "bios" bios_candidates c.firmware_inventory;
  bmc_member_uri = pick_active "bmc" bmc_candidates c.firmware_inventory;
  extra_firmware_members =
      extra_members further_classes c.firmware_inventory c.extra_firmware_members;
  hgx_member_uris = hgx_members c.firmware_inventory c.hgx_member_uris;
}

module _ (client : Json → Result Json) where
  -- The references of the further pages; the guard lets at most 50 through.
  unfoldable pub more_pages : ℕ → Json → List Json → Stage (List Json)
  more_pages zero next refs = pure refs
  more_pages (suc n) next refs = if not (is_truthy next) then pure refs else do
    page ← safe_get client next "FirmwareInventory page"
    if not (is_truthy page) then pure refs else do
      more ← fetch_items "Members" page
      after ← fetch "Members@odata.nextLink" page
      more_pages n after (refs ++ more)

  unfoldable pub read_member : Option String → Stage (Unit {0})
  unfolding keep_member
  read_member none = pure tt
  read_member (some uri) = do
    mb ← safe_get client (str uri) ("FirmwareInventory member " <> uri)
    if is_none mb then pure tt else keep_member uri mb

  unfoldable pub read_members : List Json → Stage (Unit {0})
  unfolding read_member
  read_members [] = pure tt
  read_members (ref ∷ refs) = read_member (odata_id ref) >> read_members refs

  unfoldable pub read_inventory : Json → Stage (Unit {0})
  unfolding more_pages read_members resolve_banks
  read_inventory inv = do
    first ← fetch_items "Members" inv
    next ← fetch "Members@odata.nextLink" inv
    refs ← more_pages 50 next first
    read_members refs
    set resolve_banks

  unfoldable pub walk_inventory : Option String → Stage (Unit {0})
  unfolding read_inventory
  walk_inventory none = warn "No FirmwareInventory — flash targets cannot be resolved"
  walk_inventory (some uri) = do
    inv ← safe_get client (str uri) "FirmwareInventory"
    if is_none inv then pure tt else read_inventory inv

  unfoldable pub walk_firmware_inventory : Stage (Unit {0})
  unfolding walk_inventory
  walk_firmware_inventory w = walk_inventory w.cap.firmware_inventory_uri w
