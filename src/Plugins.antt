-- ===== src/Plugins.antt =====
-- core/plugins_api/base.py and the routing of core/plugins_api/registry.py. A vendor's plugin is a
-- record of its methods; a flash gives the progress that it reports and its result.
use clusterone.Prelude.{
  Bool, List, Option, String, find, if◌then◌else◌, is_empty, none, some, ℕ, ◌==◌,
}
use clusterone.Exec.{Result}
use clusterone.Models.{CompatResult, Credentials, Firmware, Outcome, RedfishProbe, ServerInfo}

-- One call of the progress callback: a state, a percentage and a message.
pub record Report : Type 0 where
  pub state : String
  pub percent : ℕ
  pub message : String

pub record Flash : Type 0 where
  pub reports : List Report
  pub result : Result Outcome

pub record Plugin : Type 0 where
  pub key : String
  pub validate : ServerInfo → Firmware → Result CompatResult
  pub update_bmc : ServerInfo → Firmware → Credentials → Bool → Flash
  pub update_bios : ServerInfo → Firmware → Credentials → Bool → Flash
  pub update_hgx : ServerInfo → Firmware → Credentials → Bool → Flash

abbrev pub PluginRegistry : Type 0
PluginRegistry = List Plugin

unfoldable pub by_key : String → PluginRegistry → Option Plugin
by_key key plugins = find (λ (p : Plugin). p.key == key) plugins

-- The routing of operations: by the operator's pick alone, never by a match of the probe.
unfoldable pub resolve_plugin : RedfishProbe → Option String → PluginRegistry → Option Plugin
unfolding by_key
resolve_plugin probe none plugins = none
resolve_plugin probe (some override_key) plugins =
    if is_empty override_key then none else by_key override_key plugins
