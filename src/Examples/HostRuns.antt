-- ===== src/Examples/HostRuns.antt =====
-- The theorems on power actions and install configurations at concrete inputs.
use mathlib.Core.Path.{Path}
use clusterone.Prelude.{
  Option, String, [], arith, count, eqb, false, if◌then◌else◌, is_empty, lower, ltb, map, none, not,
  print_nat, refl, some, strip, true, ℕ, ◌+◌, ◌<>◌, ◌∷◌, ◌≡◌, ◌⊎◌,
}
use clusterone.Exec.{Result, ok}
use clusterone.Models.{ServerInfo}
use clusterone.Power.{
  Answer, PowerEnv, PowerMethods, Site, info_from_row, is_settled, poll_from, verify_state, wanted,
}
use clusterone.Power.Apply.{Ends, Reported, apply_one, run_power}
use clusterone.Power.Polling.{IsReading, verify_state-IsReading}
use clusterone.Power.Tallies.{NoneCancelled, next, over, run_power-IsTally}
use clusterone.Power.Gate.{IsGated, apply_one-IsGated}
use clusterone.Autoinstall.{Host, Snippets, context, disk_snippets, render, template_of}
use clusterone.Autoinstall.Templates.{safe_substitute, value_of}
use clusterone.Autoinstall.Handles.{IsDeviceText}
use clusterone.Autoinstall.Targets.{IsTargeted, disk_snippets-IsTargeted, render-IsTargeted}
use clusterone.Examples.{no_vault, server_row, two_servers, typed, unseal, vendor}

-- A BMC that takes two readings to be off.
abbrev slow_off : PowerMethods
slow_off = record {
  power_action =
      λ info action creds. ok (record { success = true; message = "sent"; version_after = none });
  get_power_state = λ i info creds. ok (if ltb i 2 then some "On" else some "Off");
}

abbrev target_info : ServerInfo
target_info = info_from_row (server_row 1 "10.0.0.5" "SN1")

verify_state-IsReading_example :
    IsReading (λ i. slow_off.get_power_state i target_info typed) (wanted "off") 0 3 (some "Off")
unfolding verify_state poll_from is_settled
verify_state-IsReading_example =
    verify_state-IsReading slow_off target_info typed "off" (some "Off") refl

abbrev power_env : PowerEnv
power_env = record { plugins = vendor ∷ []; methods = λ plugin. slow_off; decrypt = unseal }

abbrev power_site : Site
power_site = record {
  servers = two_servers;
  vault = no_vault;
  activity = [];
  sent = [];
  clock = print_nat;
  reads = 0;
}

apply_one-IsGated_example :
    IsGated power_env 2 "off" power_site (apply_one power_env 2 "off" "root" "calvin" power_site)
apply_one-IsGated_example = apply_one-IsGated power_env 2 "off" "root" "calvin" power_site

slow_off-Runs : NoneCancelled power_env
slow_off-Runs plugin info creds = (λ action h. ground (arith, h), λ i h. ground (arith, h))

abbrev answer_at : ℕ → Result Answer
answer_at sid = (apply_one power_env sid "off" "root" "calvin" power_site).0

-- The second server ends first.
abbrev two_ends : Ends
two_ends = (9, answer_at 9) ∷ (1, answer_at 1) ∷ []

run_power-IsTally_example :
    let (s, t) = run_power (1 ∷ 9 ∷ []) "off" two_ends in
    (map (λ (r : Reported). r.server_id) t.reported ≡ map (λ (e : ℕ × Result Answer). e.0) two_ends)
    × ((i : ℕ)
        → count (λ (r : ℕ). eqb r i) (map (λ (r : Reported). r.server_id) t.reported)
          ≡ count (λ (r : ℕ). eqb r i) (1 ∷ 9 ∷ []))
    × (s.ok_total ≡ count (λ (r : Reported). r.is_ok) t.reported)
    × (s.failed ≡ count (λ (r : Reported). not r.is_ok) t.reported)
    × (s.ok_total + s.failed ≡ s.total)
run_power-IsTally_example =
    run_power-IsTally power_env (1 ∷ 9 ∷ []) "off" "root" "calvin" two_ends slow_off-Runs
      (next (1 ∷ []) [] 9 power_site ((1, answer_at 1) ∷ []) (next [] [] 1 power_site [] over))

abbrev quote : String → String
quote s = "'" <> s <> "'"

disk_snippets-IsTargeted_example :
    IsTargeted quote "Ubuntu" "Bay 3" " " (disk_snippets quote "Ubuntu" "Bay 3" " ")
disk_snippets-IsTargeted_example = disk_snippets-IsTargeted quote "Ubuntu" "Bay 3" " "

abbrev host : Host
host = record {
  hostname = "node1";
  ip = "10.0.0.5";
  disk = "Bay 3";
  root_password = "";
  serial = "S1";
  ssh_authorized_keys = "";
  gateway = "";
  nameserver = "";
}

abbrev no_files : String → Option String
no_files path = none

render-IsTargeted_example :
    (body : String) × (s : Snippets) × (template_of no_files "disk: ${disk_match}" "ubuntu"
      ≡ ok body)
    × (IsTargeted quote "ubuntu" host.disk host.serial (ok s))
    × ((is_empty (strip host.serial) ≡ false) ⊎ IsDeviceText (strip host.disk))
    × (Path String "disk: serial: S1" (safe_substitute (context host s) body))
unfolding render template_of disk_snippets safe_substitute strip lower value_of
render-IsTargeted_example =
    render-IsTargeted no_files quote "disk: ${disk_match}" "ubuntu" host "disk: serial: S1" refl
