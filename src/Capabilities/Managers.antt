-- ===== src/Capabilities/Managers.antt =====
-- The managers, their virtual media, the task and the session service in
-- core/plugins_api/capability_discoverer.py, and the whole walk.
use clusterone.Prelude.{
  List, Option, String, [], false, if◌then◌else◌, is_some, last_segment, none, not, or_else, some,
  true, ◌<>◌, ◌∷◌,
}
use clusterone.Exec.{Result, gets, lift, pure, ◌>>=◌, ◌>>◌}
use clusterone.Json.{Json, arr, end, is_truthy, nil, obj, str}
use clusterone.Capabilities.{VirtualMediaSlot}
use clusterone.Capabilities.Walk.{
  Stage, absorb_oem_keys, fetch, fetch_flag, fetch_items, fetch_or, follow, odata_id, or_default,
  put_key, set, warn,
}
use clusterone.Capabilities.Systems.{first_member}

unfoldable pub keep_slot : Json → VirtualMediaSlot → Stage (Unit {0})
keep_slot slot_id slot = do
  before ← gets λ w. w.cap.virtualmedia_uris
  table ← lift (put_key slot_id slot before)
  set (λ c. record c { virtualmedia_uris = table })

unfoldable pub action_target : String → Json → Stage Json
action_target name actions = do action ← fetch_or name (obj end) actions; fetch "target" action

unfoldable pub read_slot : String → Json → Stage (Unit {0})
unfolding keep_slot action_target
read_slot uri slot = do
  actions ← fetch_or "Actions" (obj end) slot
  insert ← action_target "#VirtualMedia.InsertMedia" actions
  ejecting ← action_target "#VirtualMedia.EjectMedia" actions
  slot_id ← fetch_or "Id" (str (last_segment uri)) slot
  media ← fetch_items "MediaTypes" slot
  method ← fetch_or "TransferMethod" (str "") slot
  protocols ← fetch_items "TransferProtocolType" slot
  inserted ← fetch_flag "Inserted" false slot
  protected ← fetch_flag "WriteProtected" true slot
  keep_slot slot_id (record {
    uri = uri;
    media_types = media;
    insert_action = insert;
    eject_action = ejecting;
    transfer_method = method;
    transfer_protocol_types = protocols;
    inserted = inserted;
    write_protected = protected;
  })

-- `Links.Sessions` of the root, where it names no session service.
unfoldable pub back_reference : Json → Option String → Stage (Option String)
back_reference root (some link) = pure (some link)
back_reference root none = do
  links ← fetch_or "Links" (obj end) root
  sessions ← fetch "Sessions" links
  pure (odata_id sessions)

unfoldable pub keep_session : Option String → Stage (Unit {0})
keep_session none = warn "No SessionService — basic auth only"
keep_session (some link) = set (λ c. record c { session_service_uri = some link })

unfoldable pub walk_session_service : Json → Stage (Unit {0})
unfolding back_reference keep_session
walk_session_service root = do
  reference ← fetch "SessionService" root
  link ← back_reference root (odata_id reference)
  keep_session link

module _ (client : Json → Result Json) where
  unfoldable pub read_slots : List Json → Stage (Unit {0})
  unfolding read_slot
  read_slots [] = pure tt
  read_slots (ref ∷ refs) =
      follow client (odata_id ref) ("VirtualMedia slot " <> or_else (odata_id ref) "") read_slot
      >> read_slots refs

  unfoldable pub walk_virtualmedia : String → Json → Stage (Unit {0})
  unfolding read_slots
  walk_virtualmedia link coll = do refs ← fetch_items "Members" coll; read_slots refs

  unfoldable pub read_manager : String → Json → Stage (Unit {0})
  unfolding walk_virtualmedia
  read_manager uri manager = do
    set (λ c. record c { manager_uri = some uri })
    absorb_oem_keys manager
    actions ← fetch_or "Actions" (obj end) manager
    reset ← fetch_or "#Manager.Reset" (obj end) actions
    target ← fetch "target" reset
    if is_truthy target then set (λ c. record c { manager_reset_target = target }) else pure tt
    media ← fetch "VirtualMedia" manager
    let link = odata_id media
    if not (is_some link)
        then warn "VirtualMedia not exposed — OS provisioning disabled on this BMC"
        else set (λ c. record c { virtualmedia_collection_uri = link })
          >> follow client link "VirtualMedia collection" walk_virtualmedia

  unfoldable pub read_managers : Json → Stage (Unit {0})
  unfolding read_manager
  read_managers coll = do
    members ← fetch_or "Members" (arr nil) coll
    if not (is_truthy members) then warn "Managers collection empty" else do
      first ← lift (first_member members)
      follow client (odata_id first) "Manager" read_manager

  unfoldable pub walk_managers : Json → Stage (Unit {0})
  unfolding read_managers
  walk_managers root = do
    reference ← fetch "Managers" root
    let link = odata_id reference
    if not (is_some link)
        then warn "No Managers collection"
        else follow client link "Managers collection" (λ _. read_managers)

  unfoldable pub read_tasks : String → Json → Stage (Unit {0})
  read_tasks link ts = do
    set (λ c. record c { task_service_uri = some (or_else (odata_id ts) link) })
    tasks ← fetch "Tasks" ts
    set (λ c. record c { task_collection_uri = odata_id tasks })

  unfoldable pub walk_task_service : Json → Stage (Unit {0})
  unfolding read_tasks
  walk_task_service root = do
    tasks ← fetch "Tasks" root
    service ← fetch "TaskService" root
    let link = odata_id (or_default tasks service)
    if not (is_some link)
        then warn "No TaskService — flash progress will be reported as 0%/100% only"
        else follow client link "TaskService" read_tasks
