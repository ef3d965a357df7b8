-- ===== src/Capabilities/Kept.antt =====
-- Every step of core/plugins_api/capability_discoverer.py keeps what the map offers safe.
use clusterone.Prelude.{Bool, List, Option, String, [], false, none, some, suc, true, zero, ℕ, ◌∷◌}
use clusterone.Exec.{Result, cancelled, err, ok, raised}
use clusterone.Json.{Json}
use clusterone.Capabilities.{CapabilityMap}
use clusterone.Capabilities.Walk.{Stage, Walk, absorb_oem_keys, safe_answer, safe_get, set, warn}
use clusterone.Capabilities.Members.{
  keep_member, more_pages, read_inventory, read_member, read_members, walk_firmware_inventory,
  walk_inventory,
}
use clusterone.Capabilities.Service.{
  allowed_values, derive_oem_update_flags, fetch_action_info, follow_update_service, hpe_flags,
  keep_info, keep_simple, promote_protocols, read_update_service, set_found, walk_update_actions,
  walk_update_service,
}
use clusterone.Exec.Keeps.{Keeps, keeping}
use clusterone.Capabilities.Banks.{IsSafe, put-IsSafe, resolve_banks-IsSafe}

abbrev pub SafeWalk : Walk → Type 0
SafeWalk w = IsSafe w.cap

abbrev pub Safely : {A : Type 0} → Stage A → Type 0
Safely m = Keeps SafeWalk m

pub warn-Safely : (message : String) → Safely (warn message)
unfolding warn
warn-Safely message = record { behind = λ s h. h }

pub set-Safely :
    (f : CapabilityMap → CapabilityMap)
    → ((c : CapabilityMap) → IsSafe c → IsSafe (f c))
    → Safely (set f)
set-Safely f k = record { behind = λ s h. k s.cap h }

pub absorb-Safely : (j : Json) → Safely (absorb_oem_keys j)
unfolding absorb_oem_keys
absorb-Safely j = search keeping

keep_member-Safely : (uri : String) (mb : Json) → Safely (keep_member uri mb)
unfolding keep_member
keep_member-Safely uri mb = search (keeping, set-Safely, put-IsSafe) depth 12

safe_answer-Safely : (label : String) (r : Result Json) → Safely (safe_answer label r)
unfolding safe_answer
safe_answer-Safely label (ok j) = search keeping
safe_answer-Safely label (err cancelled) = search keeping
safe_answer-Safely label (err (raised class message)) = search (keeping, warn-Safely) depth 12

pub allowed_values-Safely : (name : String) (ps : List Json) → Safely (allowed_values name ps)
unfolding allowed_values
allowed_values-Safely name [] = search keeping
allowed_values-Safely name (p ∷ ps) =
    let rest = allowed_values-Safely name ps in search keeping depth 12

pub ruleset stages = (keeping, set-Safely, warn-Safely, absorb-Safely)

pub set_found-Safely :
    (f : List Json → CapabilityMap → CapabilityMap) (o : Option (List Json))
    → ((xs : List Json) (c : CapabilityMap) → IsSafe c → IsSafe (f xs c))
    → Safely (set_found f o)
set_found-Safely f none h = search keeping
set_found-Safely f (some xs) h = set-Safely (f xs) (h xs)

promote_protocols-Safely : (name : String) (info : Json) → Safely (promote_protocols name info)
unfolding promote_protocols
promote_protocols-Safely name info =
    search (stages, allowed_values-Safely, set_found-Safely) depth 20

keep_info-Safely : (name : String) (target info : Json) → Safely (keep_info name target info)
unfolding keep_info
keep_info-Safely name target info = search (stages, promote_protocols-Safely) depth 20

hpe_flags-Safely :
    (endpoint : Option String) (oem : Json) (b : Bool) → Safely (hpe_flags endpoint oem b)
unfolding hpe_flags
hpe_flags-Safely endpoint oem false = search keeping
hpe_flags-Safely endpoint oem true = search keeping depth 20

derive_oem_update_flags-Safely : (us : Json) → Safely (derive_oem_update_flags us)
unfolding derive_oem_update_flags
derive_oem_update_flags-Safely us = search (stages, hpe_flags-Safely) depth 30

module _ (client : Json → Result Json) where
  pub safe_get-Safely : (path : Json) (label : String) → Safely (safe_get client path label)
  unfolding safe_get
  safe_get-Safely path label = safe_answer-Safely label (client path)

  more_pages-Safely :
      (n : ℕ) (next : Json) (refs : List Json) → Safely (more_pages client n next refs)
  unfolding more_pages
  more_pages-Safely zero next refs = search keeping
  more_pages-Safely (suc n) next refs =
      search (stages, safe_get-Safely, more_pages-Safely n) depth 20

  read_member-Safely : (o : Option String) → Safely (read_member client o)
  unfolding read_member
  read_member-Safely none = search keeping
  read_member-Safely (some uri) = search (stages, safe_get-Safely, keep_member-Safely) depth 20

  read_members-Safely : (refs : List Json) → Safely (read_members client refs)
  unfolding read_members
  read_members-Safely [] = search keeping
  read_members-Safely (ref ∷ refs) =
      let rest = read_members-Safely refs in search (stages, read_member-Safely) depth 20

  read_inventory-Safely : (inv : Json) → Safely (read_inventory client inv)
  unfolding read_inventory
  read_inventory-Safely inv =
      search (stages, resolve_banks-IsSafe, more_pages-Safely, read_members-Safely) depth 20

  walk_inventory-Safely : (o : Option String) → Safely (walk_inventory client o)
  unfolding walk_inventory
  walk_inventory-Safely none = search stages
  walk_inventory-Safely (some uri) =
      search (stages, safe_get-Safely, read_inventory-Safely) depth 20

  pub fetch_action_info-Safely :
      (action : Json) (name : String) → Safely (fetch_action_info client action name)
  unfolding fetch_action_info
  fetch_action_info-Safely action name = search (stages, safe_get-Safely, keep_info-Safely) depth 20

  keep_simple-Safely : (simple target : Json) → Safely (keep_simple client simple target)
  unfolding keep_simple
  keep_simple-Safely simple target = search (stages, fetch_action_info-Safely) depth 20

  walk_update_actions-Safely : (actions : Json) → Safely (walk_update_actions client actions)
  unfolding walk_update_actions
  walk_update_actions-Safely actions = search (stages, keep_simple-Safely) depth 30

  walk_firmware_inventory-Safely : Safely (walk_firmware_inventory client)
  unfolding walk_firmware_inventory
  walk_firmware_inventory-Safely = record {
    behind = λ w h. (walk_inventory-Safely w.cap.firmware_inventory_uri).behind w h;
  }

  read_update_service-Safely :
      (link : String) (us : Json) → Safely (read_update_service client link us)
  unfolding read_update_service
  read_update_service-Safely link us =
      search
        (
          stages, walk_update_actions-Safely, walk_firmware_inventory-Safely,
          derive_oem_update_flags-Safely,
        )
        depth 40

  follow_update_service-Safely : (o : Option String) → Safely (follow_update_service client o)
  unfolding follow_update_service
  follow_update_service-Safely none = search stages
  follow_update_service-Safely (some link) =
      search (stages, safe_get-Safely, read_update_service-Safely) depth 20

  pub walk_update_service-Safely : (root : Json) → Safely (walk_update_service client root)
  unfolding walk_update_service
  walk_update_service-Safely root = search (stages, follow_update_service-Safely) depth 20
