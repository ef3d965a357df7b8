-- ===== src/Power/Gate.antt =====
-- When an action is handed to a plugin.
use clusterone.Prelude.{
  Bool, Bool-cases, Option, String, [], arith, false, if◌then◌else◌, inl, inr, is_empty, none, not,
  refl, some, true, ℕ, ◌++◌, ◌∷◌, ◌≡◌, ◌⊎◌,
}
use clusterone.Exec.{Result, err, ok}
use clusterone.Models.{Credentials, Outcome}
use clusterone.Servers.{ServerRow, get_server, trimmed}
use clusterone.Plugins.{Plugin, by_key, resolve_plugin}
use clusterone.Power.{
  Answer, Command, PowerEnv, PowerMethods, Site, info_from_row, persist, refuse, verify_state,
}
use clusterone.Power.Apply.{
  act, take_answer, apply_found, apply_one, apply_routed, conclude, concluded, found_plugin,
  has_root, route,
}

persist-sent :
    (row : ServerRow) (state : Option String) (w : Site) → (persist row state w).sent ≡ w.sent
unfolding persist
persist-sent row none w = refl
persist-sent row (some state) w = elim (Bool-cases (is_empty state)) [
  | inl e ↦ rw e refl
  | inr e ↦ rw e refl
]

conclude_verified-sent :
    (row : ServerRow) (action message : String) (sid : ℕ) (w : Site) (v : Result (Option String))
    → (concluded row action message sid w v).1.sent ≡ w.sent
unfolding concluded
conclude_verified-sent row action message sid w (err e) = refl
conclude_verified-sent row action message sid w (ok state) = persist-sent row state w

conclude-sent :
    (methods : PowerMethods) (row : ServerRow) (creds : Credentials) (sid : ℕ) (action : String)
    (result : Outcome) (w : Site)
    → (conclude methods row creds sid action result w).1.sent ≡ w.sent
unfolding conclude
conclude-sent methods row creds sid action result w = elim (Bool-cases result.success) [
  | inl e ↦ rw e (
      conclude_verified-sent row action result.message sid w
        (verify_state methods (info_from_row row) creds action))
  | inr e ↦ rw e refl
]

take_answer-sent :
    (methods : PowerMethods) (row : ServerRow) (creds : Credentials) (sid : ℕ) (action : String)
    (result : Result Outcome) (w : Site)
    → (take_answer methods row creds sid action result w).1.sent ≡ w.sent
unfolding take_answer
take_answer-sent methods row creds sid action (err e) w = refl
take_answer-sent methods row creds sid action (ok result) w =
    conclude-sent methods row creds sid action result w

found_plugin_inv :
    (oem : String) (o : Option Plugin) (plugin : Plugin)
    → found_plugin oem o ≡ inr plugin
    → o ≡ some plugin
found_plugin_inv oem none plugin h = absurd (ground (arith, h))
found_plugin_inv oem (some p) plugin h = ground (arith, h)

-- The conditions for a command: the row of the server has a Redfish root, and the operator's pick
-- is the key of the plugin.
abbrev pub IsRouted : PowerEnv → ServerRow → Plugin → Type 0
IsRouted env row plugin =
    (has_root row ≡ true)
    × (is_empty (trimmed row.oem_override) ≡ false)
    × (by_key (trimmed row.oem_override) env.plugins ≡ some plugin)

route_inv :
    (env : PowerEnv) (row : ServerRow) (plugin : Plugin)
    → (rooted empty : Bool) → has_root row ≡ rooted
    → is_empty (trimmed row.oem_override) ≡ empty
    → (if not rooted
        then inl "no Redfish endpoint (run discovery first)"
        else if empty
        then inl "no OEM selected — open the server panel and choose the vendor first"
        else found_plugin
            (trimmed row.oem_override)
            (if empty then none else by_key (trimmed row.oem_override) env.plugins))
      ≡ inr plugin
    → IsRouted env row plugin
route_inv env row plugin false empty r e h = absurd (ground (arith, h))
route_inv env row plugin true true r e h = absurd (ground (arith, h))
route_inv env row plugin true false r e h = (
  r,
  e,
  found_plugin_inv (trimmed row.oem_override) (by_key (trimmed row.oem_override) env.plugins) plugin
      h,
)

route-IsRouted :
    (env : PowerEnv) (row : ServerRow) (plugin : Plugin)
    → route env row ≡ inr plugin
    → IsRouted env row plugin
unfolding route resolve_plugin
route-IsRouted env row plugin h =
    route_inv env row plugin (has_root row) (is_empty (trimmed row.oem_override)) refl refl h

abbrev pub command_of : Plugin → ServerRow → String → Command
command_of plugin row action = record {
  plugin = plugin.key;
  target = info_from_row row;
  action = action;
}

-- A server is refused with nothing changed, or one command goes to the plugin of its row.
pub data IsGated (env : PowerEnv) (sid : ℕ) (action : String) (w : Site)
    : Result Answer × Site → Type 0 where
  refused : (reason : String) → IsGated env sid action w (ok (refuse reason), w)
  commanded :
      (row : ServerRow) (plugin : Plugin) (r : Result Answer) (w' : Site)
      → get_server sid w.servers ≡ some row
      → IsRouted env row plugin
      → w'.sent ≡ w.sent ++ command_of plugin row action ∷ []
      → IsGated env sid action w (r, w')

module _ (env : PowerEnv) (sid : ℕ) (action username password : String) (w : Site) where
  act-IsGated :
      (row : ServerRow) (plugin : Plugin)
      → get_server sid w.servers ≡ some row
      → IsRouted env row plugin
      → IsGated env sid action w (act env plugin row sid action username password w)
  unfolding act
  act-IsGated row plugin h routed =
      commanded row plugin _ _ h routed (take_answer-sent (env.methods plugin) row _ sid action _ _)

  apply_routed-IsGated :
      (row : ServerRow) (way : String ⊎ Plugin)
      → get_server sid w.servers ≡ some row
      → route env row ≡ way
      → IsGated env sid action w (apply_routed env row way sid action username password w)
  unfolding apply_routed
  apply_routed-IsGated row (inl reason) h e = refused reason
  apply_routed-IsGated row (inr plugin) h e =
      act-IsGated row plugin h (route-IsRouted env row plugin e)

  apply_found-IsGated :
      (found : Option ServerRow)
      → get_server sid w.servers ≡ found
      → IsGated env sid action w (apply_found env found sid action username password w)
  unfolding apply_found
  apply_found-IsGated none h = refused "server not found"
  apply_found-IsGated (some row) h = apply_routed-IsGated row (route env row) h refl

-- A server is refused with nothing changed, or one command goes to a plugin: that of the operator's
-- pick on the server's row, which has a Redfish root.
pub apply_one-IsGated :
    (env : PowerEnv) (sid : ℕ) (action username password : String) (w : Site)
    → IsGated env sid action w (apply_one env sid action username password w)
unfolding apply_one
apply_one-IsGated env sid action username password w =
    apply_found-IsGated env sid action username password w (get_server sid w.servers) refl
