-- ===== src/Power/Apply.antt =====
-- `apply`, `_run` and `_apply_one`. Up to 32 servers are under way at a time, so `_run` is given the
-- ends of its coroutines in any order.
use clusterone.Prelude.{
  Bool, List, Option, String, [], if◌then◌else◌, inl, inr, is_empty, is_some, length, none, not,
  or_else, some, true, ℕ, ◌++◌, ◌+◌, ◌<>◌, ◌∷◌, ◌⊎◌,
}
use clusterone.Exec.{Exec, Result, cancelled, err, ok, raised}
use clusterone.Models.{Credentials, Outcome, RedfishProbe}
use clusterone.Servers.{ServerRow, get_server, trimmed}
use clusterone.Plugins.{Plugin, resolve_plugin}
use clusterone.Power.{
  Answer, PowerEnv, PowerMethods, Site, action_label, info_from_row, log_power, persist, refuse,
  resolve_power_creds, verify_state,
}

abbrev pub shown_label : String → String
shown_label action = or_else (action_label action) ""

abbrev state_note : Option String → String
state_note none = ""
state_note (some s) = if is_empty s then "" else " (PowerState=" <> s <> ")"

-- What follows the reading of the power state.
unfoldable pub concluded :
    ServerRow → String → String → ℕ → Site → Result (Option String) → Result Answer × Site
unfolding persist action_label
concluded row action message sid w (err e) = (err e, w)
concluded row action message sid w (ok state) = (
  ok (record { is_ok = true; message = message; state = state }),
  log_power "info" (shown_label action <> " on " <> row.ip <> " — " <> message <> state_note state)
      sid (persist row state w),
)

-- What follows the plugin's answer to the action.
unfoldable pub conclude :
    PowerMethods → ServerRow → Credentials → ℕ → String → Outcome → Exec Site Answer
unfolding concluded verify_state action_label
conclude methods row creds sid action result w =
    if result.success
    then concluded row action result.message sid w
        (verify_state methods (info_from_row row) creds action)
    else (
      ok (refuse result.message),
      log_power "error" (shown_label action <> " failed on " <> row.ip <> ": " <> result.message)
          sid w,
    )

unfoldable pub take_answer :
    PowerMethods → ServerRow → Credentials → ℕ → String → Result Outcome → Exec Site Answer
unfolding conclude
take_answer methods row creds sid action (err e) w = (err e, w)
take_answer methods row creds sid action (ok result) w =
    conclude methods row creds sid action result w

-- The action goes to the plugin.
unfoldable pub act : PowerEnv → Plugin → ServerRow → ℕ → String → String → String → Exec Site Answer
unfolding take_answer resolve_power_creds
act env plugin row sid action username password w =
    let info = info_from_row row in
    let creds = resolve_power_creds env w.vault info username password in
    let w' = record w {
      sent = w.sent ++ (record { plugin = plugin.key; target = info; action = action }) ∷ [];
    } in
    let result = (env.methods plugin).power_action info action creds in
    take_answer (env.methods plugin) row creds sid action result w'

abbrev pub has_root : ServerRow → Bool
has_root row = not (is_empty (or_else row.redfish_root ""))

abbrev pub probe_of : ServerRow → RedfishProbe
probe_of row = record {
  ip = row.ip;
  manufacturer = row.manufacturer;
  redfish_root = row.redfish_root;
}

abbrev pub found_plugin : String → Option Plugin → String ⊎ Plugin
found_plugin oem none = inl ("selected OEM '" <> oem <> "' has no installed plugin")
found_plugin oem (some plugin) = inr plugin

-- The plugin of the operator's pick, or why there is none.
unfoldable pub route : PowerEnv → ServerRow → String ⊎ Plugin
route env row =
    let oem = trimmed row.oem_override in
    if not (has_root row)
    then inl "no Redfish endpoint (run discovery first)"
    else if is_empty oem
    then inl "no OEM selected — open the server panel and choose the vendor first"
    else found_plugin oem (resolve_plugin (probe_of row) (some oem) env.plugins)

unfoldable pub apply_routed :
    PowerEnv → ServerRow → String ⊎ Plugin → ℕ → String → String → String → Exec Site Answer
unfolding act
apply_routed env row (inl reason) sid action username password w = (ok (refuse reason), w)
apply_routed env row (inr plugin) sid action username password w =
    act env plugin row sid action username password w

unfoldable pub apply_found :
    PowerEnv → Option ServerRow → ℕ → String → String → String → Exec Site Answer
unfolding route apply_routed
apply_found env none sid action username password w = (ok (refuse "server not found"), w)
apply_found env (some row) sid action username password w =
    apply_routed env row (route env row) sid action username password w

unfoldable pub apply_one : PowerEnv → ℕ → String → String → String → Exec Site Answer
unfolding apply_found
apply_one env sid action username password w =
    apply_found env (get_server sid w.servers) sid action username password w

-- A call of `on_result`.
pub record Reported : Type 0 where
  pub server_id : ℕ
  pub is_ok : Bool
  pub message : String
  pub power_state : String

-- The counters of `_run` and the calls of `on_result`.
pub record Tally : Type 0 where
  pub ok_count : ℕ
  pub fail_count : ℕ
  pub reported : List Reported

abbrev pub reported_of : ℕ → Answer → Reported
reported_of sid a = record {
  server_id = sid;
  is_ok = a.is_ok;
  message = a.message;
  power_state = or_else a.state "";
}

unfoldable pub note : ℕ → Answer → Tally → Tally
note sid a t = record {
  ok_count = if a.is_ok then t.ok_count + 1 else t.ok_count;
  fail_count = if a.is_ok then t.fail_count else t.fail_count + 1;
  reported = t.reported ++ reported_of sid a ∷ [];
}

-- `except Exception`; a cancellation leaves no count and no call.
unfoldable pub count_answer : ℕ → Result Answer → Tally → Tally
unfolding note
count_answer sid (ok a) t = note sid a t
count_answer sid (err (raised class message)) t = note sid (refuse (class <> ": " <> message)) t
count_answer sid (err cancelled) t = t

-- The ends of the coroutines of `_run`, in the order in which they come: the server of each and what
-- its `_apply_one` gave.
abbrev pub Ends : Type 0
Ends = List (ℕ × Result Answer)

unfoldable pub run_all : Ends → Tally → Tally
unfolding count_answer
run_all [] t = t
run_all ((sid, r) ∷ ends) t = run_all ends (count_answer sid r t)

pub record PowerSummary : Type 0 where
  pub action : String
  pub ok_total : ℕ
  pub failed : ℕ
  pub total : ℕ

abbrev pub no_tally : Tally
no_tally = record { ok_count = 0; fail_count = 0; reported = [] }

unfoldable pub run_power : List ℕ → String → Ends → PowerSummary × Tally
unfolding run_all
run_power ids action ends =
    let t = run_all ends no_tally in
    (
      record { action = action; ok_total = t.ok_count; failed = t.fail_count; total = length ids },
      t,
    )

-- Nothing is scheduled for no server or for an action without a label.
unfoldable pub apply_power : List ℕ → String → Ends → Option (PowerSummary × Tally)
unfolding run_power action_label
apply_power [] action ends = none
apply_power (sid ∷ sids) action ends =
    if is_some (action_label action) then some (run_power (sid ∷ sids) action ends) else none
