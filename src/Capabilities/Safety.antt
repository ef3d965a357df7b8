-- ===== src/Capabilities/Safety.antt =====
-- What a whole walk of core/plugins_api/capability_discoverer.py offers to flash.
use mathlib.Core.Path.{subst}
use clusterone.Prelude.{List, Option, String, [], ap, arith, none, some, sym, true, ℕ, ◌∷◌, ◌≡◌}
use clusterone.Exec.{Result, continue, err, ok, ◌>>=◌}
use clusterone.Json.{Json}
use clusterone.Capabilities.{CapabilityMap, VirtualMediaSlot, blank_map}
use clusterone.Capabilities.Walk.{Stage, Walk, follow}
use clusterone.Capabilities.Service.{walk_update_service}
use clusterone.Capabilities.Systems.{
  keep_reset, promote_resettypes, read_system, read_systems, walk_systems, warn_many,
}
use clusterone.Capabilities.Managers.{
  action_target, back_reference, keep_session, keep_slot, read_manager, read_managers, read_slot,
  read_slots, read_tasks, walk_managers, walk_session_service, walk_task_service, walk_virtualmedia,
}
use clusterone.Capabilities.Discover.{bootstrap, discover, freeze, new_walk, vendor_of, walk_all}
use clusterone.Capabilities.Banks.{IsSafe, safe}
use clusterone.Capabilities.Kept.{
  Safely, allowed_values-Safely, fetch_action_info-Safely, safe_get-Safely, set_found-Safely,
  stages, walk_update_service-Safely,
}

follow-Safely :
    (client : Json → Result Json) (o : Option String) (label : String)
    (read : String → Json → Stage (Unit {0}))
    → ((uri : String) (j : Json) → Safely (read uri j))
    → Safely (follow client o label read)
follow-Safely client none label read h = search stages
follow-Safely client (some uri) label read h = search (stages, safe_get-Safely) depth 20

back_reference-Safely : (root : Json) (o : Option String) → Safely (back_reference root o)
unfolding back_reference
back_reference-Safely root (some link) = search stages
back_reference-Safely root none = search stages depth 20

keep_session-Safely : (o : Option String) → Safely (keep_session o)
unfolding keep_session
keep_session-Safely none = search stages
keep_session-Safely (some link) = search stages

walk_session_service-Safely : (root : Json) → Safely (walk_session_service root)
unfolding walk_session_service
walk_session_service-Safely root =
    search (stages, back_reference-Safely, keep_session-Safely) depth 20

keep_slot-Safely : (slot_id : Json) (slot : VirtualMediaSlot) → Safely (keep_slot slot_id slot)
unfolding keep_slot
keep_slot-Safely slot_id slot = search stages depth 20

action_target-Safely : (name : String) (actions : Json) → Safely (action_target name actions)
unfolding action_target
action_target-Safely name actions = search stages depth 20

vendor_of-Safely : (root vendor : Json) → Safely (vendor_of root vendor)
unfolding vendor_of
vendor_of-Safely root vendor = search stages depth 20

module _ (client : Json → Result Json) where
  warn_many-Safely : (members : Json) (n : ℕ) → Safely (warn_many client members n)
  unfolding warn_many
  warn_many-Safely members n = search stages depth 20

  promote_resettypes-Safely : (target : Json) → Safely (promote_resettypes client target)
  unfolding promote_resettypes
  promote_resettypes-Safely target =
      search (stages, allowed_values-Safely, set_found-Safely) depth 20

  keep_reset-Safely : (reset target : Json) → Safely (keep_reset client reset target)
  unfolding keep_reset
  keep_reset-Safely reset target =
      search (stages, fetch_action_info-Safely client, promote_resettypes-Safely) depth 30

  read_system-Safely : (uri : String) (system : Json) → Safely (read_system client uri system)
  unfolding read_system
  read_system-Safely uri system = search (stages, keep_reset-Safely) depth 40

  read_systems-Safely : (coll : Json) → Safely (read_systems client coll)
  unfolding read_systems
  read_systems-Safely coll =
      search (stages, warn_many-Safely, follow-Safely client, read_system-Safely) depth 30

  walk_systems-Safely : (root : Json) → Safely (walk_systems client root)
  unfolding walk_systems
  walk_systems-Safely root = search (stages, follow-Safely client, read_systems-Safely) depth 30

  read_slot-Safely : (uri : String) (slot : Json) → Safely (read_slot uri slot)
  unfolding read_slot
  read_slot-Safely uri slot = search (stages, action_target-Safely, keep_slot-Safely) depth 40

  read_slots-Safely : (refs : List Json) → Safely (read_slots client refs)
  unfolding read_slots
  read_slots-Safely [] = search stages
  read_slots-Safely (ref ∷ refs) =
      let rest = read_slots-Safely refs in
      search (stages, follow-Safely client, read_slot-Safely) depth 20

  walk_virtualmedia-Safely :
      (link : String) (coll : Json) → Safely (walk_virtualmedia client link coll)
  unfolding walk_virtualmedia
  walk_virtualmedia-Safely link coll = search (stages, read_slots-Safely) depth 20

  read_manager-Safely : (uri : String) (manager : Json) → Safely (read_manager client uri manager)
  unfolding read_manager
  read_manager-Safely uri manager =
      search (stages, follow-Safely client, walk_virtualmedia-Safely) depth 40

  read_managers-Safely : (coll : Json) → Safely (read_managers client coll)
  unfolding read_managers
  read_managers-Safely coll = search (stages, follow-Safely client, read_manager-Safely) depth 30

  walk_managers-Safely : (root : Json) → Safely (walk_managers client root)
  unfolding walk_managers
  walk_managers-Safely root = search (stages, follow-Safely client, read_managers-Safely) depth 30

  read_tasks-Safely : (link : String) (ts : Json) → Safely (read_tasks client link ts)
  unfolding read_tasks
  read_tasks-Safely link ts = search stages depth 20

  walk_task_service-Safely : (root : Json) → Safely (walk_task_service client root)
  unfolding walk_task_service
  walk_task_service-Safely root = search (stages, follow-Safely client, read_tasks-Safely) depth 30

  bootstrap-Safely : Safely (bootstrap client)
  unfolding bootstrap
  bootstrap-Safely = search (stages, vendor_of-Safely) depth 40

  walk_all-Safely : (now : ℕ) → Safely (walk_all client now)
  unfolding walk_all freeze
  walk_all-Safely now =
      search
        (
          stages,
          bootstrap-Safely,
          walk_update_service-Safely client,
          walk_systems-Safely,
          walk_managers-Safely,
          walk_task_service-Safely,
          walk_session_service-Safely,
        )
        depth 40

-- What a stage returns is the map that it leaves.
Yields : Result CapabilityMap × Walk → Type 0
Yields x = (c : CapabilityMap) → x.0 ≡ ok c → c ≡ x.1.cap

continue-Yields :
    {A : Type 0} (r : Result A) (v : Walk) (f : A → Stage CapabilityMap)
    → ((a : A) (v : Walk) → Yields (f a v))
    → Yields (continue r f v)
unfolding Yields
continue-Yields (ok a) v f k = k a v
continue-Yields (err e) v f k = λ c q. absurd (ground (arith, q))

bind-Yields :
    {A : Type 0} (m : Stage A) (f : A → Stage CapabilityMap) (w : Walk)
    → ((a : A) (v : Walk) → Yields (f a v))
    → Yields ((m >>= f) w)
bind-Yields m f w k = continue-Yields (m w).0 (m w).1 f k

same_map : {c d : CapabilityMap} → ok c ≡ ok d → c ≡ d
same_map h = ground (arith, h)

walk_all-Yields :
    (client : Json → Result Json) (now : ℕ) (w : Walk) → Yields (walk_all client now w)
unfolding walk_all Yields
walk_all-Yields client now w = bind-Yields (bootstrap client) _ w λ root w.
    bind-Yields (walk_update_service client root) _ w λ _ w.
      bind-Yields (walk_systems client root) _ w λ _ w.
        bind-Yields (walk_managers client root) _ w λ _ w.
          bind-Yields (walk_task_service client root) _ w
            λ _ w. bind-Yields (walk_session_service root) _ w λ _ w c q. sym (same_map q)

blank_map-IsSafe : IsSafe blank_map
blank_map-IsSafe =
    safe tt (λ uri e. absurd (ground (arith, e))) (λ uri e. absurd (ground (arith, e))) tt tt

-- The map that a walk returns, whatever the BMC answers: the BIOS and the BMC member, and those of
-- the further classes, are members of their class whose leaf names no rollback bank, and an HGX
-- member stands under its own leaf, which is that of an HGX part and names no rollback bank; each
-- member of the inventory stands under its leaf with the verdicts on it.
pub discover-IsSafe :
    (client : Json → Result Json) (now : ℕ) (c : CapabilityMap) (v : Walk)
    → discover client now new_walk ≡ (ok c, v)
    → IsSafe c
unfolding discover Yields
discover-IsSafe client now c v e =
    let w = record new_walk { consumed = true } in
    let kept = (walk_all-Safely client now).behind w blank_map-IsSafe in
    let same = walk_all-Yields client now w c (ap (λ x. x.0) e) in subst IsSafe (sym same) kept
