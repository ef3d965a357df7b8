-- ===== src/Capabilities/Service.antt =====
-- The update service in core/plugins_api/capability_discoverer.py: push links, actions and flags.
use clusterone.Prelude.{
  Bool, List, Option, String, [], false, if◌then◌else◌, none, not, or_else, some, true, ◌&&◌, ◌++◌,
  ◌<>◌, ◌==◌, ◌||◌, ◌∷◌,
}
use clusterone.Exec.{Result, gets, lift, ok, pure, ◌>>=◌, ◌>>◌}
use clusterone.Json.{
  Json, bool, end, get_or_null, is_truthy, iterate, no_attribute, null, obj, str, to_pairs,
}
use clusterone.Capabilities.{CapabilityMap, Dict, put}
use clusterone.Capabilities.Walk.{
  Stage, absorb_oem_keys, fetch, fetch_flag, fetch_items, fetch_or, has_key, is_none, odata_id,
  put_key, safe_get, set, warn,
}
use clusterone.Capabilities.Members.{walk_firmware_inventory}

abbrev is_text : String → Json → Bool
is_text name (str s) = s == name
is_text name j = false

-- The values of the first parameter of that name that has any.
unfoldable pub allowed_values : String → List Json → Stage (Option (List Json))
allowed_values name [] = pure none
allowed_values name (p ∷ ps) = do
  n ← fetch "Name" p
  if not (is_text name n) then allowed_values name ps else do
    vals ← fetch "AllowableValues" p
    if not (is_truthy vals)
        then allowed_values name ps
        else do xs ← lift (iterate vals); pure (some xs)

-- `if value: field = tuple(value)`
abbrev pub set_tuple : (List Json → CapabilityMap → CapabilityMap) → Json → Stage (Unit {0})
set_tuple f value =
    if not (is_truthy value) then pure tt else do xs ← lift (iterate value); set (f xs)

abbrev pub set_found :
    (List Json → CapabilityMap → CapabilityMap) → Option (List Json) → Stage (Unit {0})
set_found f none = pure tt
set_found f (some xs) = set (f xs)

abbrev pub set_protocols : List Json → CapabilityMap → CapabilityMap
set_protocols xs c = record c { simple_update_allowed_transfer_protocols = xs }

abbrev pub has_none : List Json → Bool
has_none [] = true
has_none (x ∷ xs) = false

-- The protocols of a `SimpleUpdate` that names none itself.
unfoldable pub promote_protocols : String → Json → Stage (Unit {0})
unfolding allowed_values
promote_protocols name info = do
  has_no_protocols ← gets λ w. has_none w.cap.simple_update_allowed_transfer_protocols
  if not (name == "SimpleUpdate" && has_no_protocols) then pure tt else do
    params ← fetch_items "Parameters" info
    found ← allowed_values "TransferProtocol" params
    set_found set_protocols found

unfoldable pub keep_info : String → Json → Json → Stage (Unit {0})
unfolding promote_protocols
keep_info name target info = do
  before ← gets λ w. w.cap.raw_action_info
  table ← lift (put_key target info before)
  set λ c. record c { raw_action_info = table }
  promote_protocols name info

abbrev pub pairs : Json → Result (Dict Json)
pairs (obj fs) = ok (to_pairs fs)
pairs j = no_attribute "items" j

keep_action : String → Json → Dict Json → Dict Json
keep_action name (obj fs) actions =
    let target = get_or_null "target" fs in
    if is_truthy target then put name target actions else actions
keep_action name blob actions = actions

unfoldable pub keep_actions : Dict Json → Dict Json → Dict Json
unfolding keep_action
keep_actions [] actions = actions
keep_actions ((name, blob) ∷ rest) actions = keep_actions rest (keep_action name blob actions)

unfoldable pub put_all : Dict Json → Dict Json → Dict Json
put_all [] flags = flags
put_all ((k, v) ∷ rest) flags = put_all rest (put k v flags)

abbrev uri_value : Option String → Json
uri_value none = null
uri_value (some uri) = str uri

abbrev flag_if : Bool → String → Json → Dict Json
flag_if b key value = if b then (key, value) ∷ [] else []

-- `if "Hpe" in oem`
unfoldable pub hpe_flags : Option String → Json → Bool → Stage (Dict Json)
hpe_flags endpoint oem false = pure []
hpe_flags endpoint oem true = do
  block ← fetch_or "Hpe" (obj end) oem
  repository ← lift (has_key "Repository" block)
  updates ← lift (has_key "RepositoryUpdates" block)
  pure (
      ("hpe.state_endpoint", uri_value endpoint)
      ∷ flag_if (repository || updates) "hpe.has_repository" (bool true))

unfoldable pub derive_oem_update_flags : Json → Stage (Unit {0})
unfolding hpe_flags put_all
derive_oem_update_flags us = do
  oem ← fetch_or "Oem" (obj end) us
  is_hpe ← lift (has_key "Hpe" oem)
  endpoint ← gets (λ w. w.cap.update_service_uri)
  hpe ← hpe_flags endpoint oem is_hpe
  ami ← lift (has_key "Ami" oem)
  smc ← lift (has_key "Smc" oem)
  supermicro ← lift (has_key "Supermicro" oem)
  dell ← lift (has_key "Dell" oem)
  let flags =
      hpe
      ++ flag_if (ami || smc || supermicro) "ami.requires_image_type" (bool true)
      ++ flag_if dell "dell.empty_targets" (bool true)
  set λ c. record c { oem_update_flags = put_all flags c.oem_update_flags }

module _ (client : Json → Result Json) where
  unfoldable pub fetch_action_info : Json → String → Stage (Unit {0})
  unfolding keep_info
  fetch_action_info action name = do
    link ← fetch "@Redfish.ActionInfo" action
    target ← fetch_or "target" (str name) action
    if not (is_truthy link) then pure tt else do
      info ← safe_get client link ("ActionInfo for " <> name)
      if is_none info
          then warn ("ActionInfo for " <> name <> " unavailable — using DMTF defaults")
          else keep_info name target info

  unfoldable pub keep_simple : Json → Json → Stage (Unit {0})
  unfolding fetch_action_info
  keep_simple simple target = if not (is_truthy target) then pure tt else do
    set λ c. record c { simple_update_target = target }
    allowed ← fetch "TransferProtocol@Redfish.AllowableValues" simple
    set_tuple set_protocols allowed
    fetch_action_info simple "SimpleUpdate"

  unfoldable pub walk_update_actions : Json → Stage (Unit {0})
  unfolding keep_simple keep_actions
  walk_update_actions actions = do
    simple ← fetch_or "#UpdateService.SimpleUpdate" (obj end) actions
    target ← fetch "target" simple
    keep_simple simple target
    start ← fetch_or "#UpdateService.StartUpdate" (obj end) actions
    begin ← fetch "target" start
    if is_truthy begin then set (λ c. record c { start_update_target = begin }) else pure tt
    oem ← fetch_or "Oem" (obj end) actions
    blobs ← lift (pairs oem)
    set λ c. record c { oem_install_actions = keep_actions blobs c.oem_install_actions }

  unfoldable pub read_update_service : String → Json → Stage (Unit {0})
  unfolding walk_update_actions derive_oem_update_flags
  read_update_service link us = do
    set λ c. record c { update_service_uri = some (or_else (odata_id us) link) }
    enabled ← fetch_flag "ServiceEnabled" true us
    set λ c. record c { update_service_enabled = enabled }
    multipart ← fetch_or "MultipartHttpPushUri" null us
    set λ c. record c { multipart_push_uri = multipart }
    push ← fetch_or "HttpPushUri" null us
    set λ c. record c { http_push_uri = push }
    inventory ← fetch "FirmwareInventory" us
    set λ c. record c { firmware_inventory_uri = odata_id inventory }
    absorb_oem_keys us
    actions ← fetch_or "Actions" (obj end) us
    walk_update_actions actions
    walk_firmware_inventory client
    derive_oem_update_flags us

  unfoldable pub follow_update_service : Option String → Stage (Unit {0})
  unfolding read_update_service
  follow_update_service none = warn "UpdateService missing — host treated as discovery-only"
  follow_update_service (some link) = do
    us ← safe_get client (str link) "UpdateService"
    if is_none us then pure tt else read_update_service link us

  unfoldable pub walk_update_service : Json → Stage (Unit {0})
  unfolding follow_update_service
  walk_update_service root = do
    reference ← fetch "UpdateService" root
    follow_update_service (odata_id reference)
