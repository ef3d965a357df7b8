-- ===== src/Examples/InstallRuns.antt =====
-- The theorems on the preview of an install and on the stored configurations at concrete inputs.
use clusterone.Prelude.{[], if◌then◌else◌, none, print_nat, refl, some, ◌==◌}
use clusterone.Provision.{
  Configs, Overrides, autoinstall_provider, choose, choose_override, chosen, override_of,
  resolve_for, store_config,
}
use clusterone.Provision.Choices.{IsChoice, resolve_for-IsChoice}
use clusterone.Provision.Expiry.{IsServed, autoinstall_provider-IsServed}
use clusterone.Examples.ServiceRuns.{drive, drives, percents}

abbrev picks : Overrides
picks = record { by_number = λ id. none; by_text = λ id. if id == "7" then some "c" else none }

resolve_for-IsChoice_example :
    IsChoice drives (chosen (drive "c" 0 "S3") "operator override" "override")
unfolding resolve_for choose override_of choose_override print_nat
resolve_for-IsChoice_example =
    resolve_for-IsChoice percents 7 drives "first_nvme" picks
      (chosen (drive "c" 0 "S3") "operator override" "override") refl

abbrev stored : Configs
stored = store_config 500 "tok" "cfg" (store_config 0 "old" "gone" [])

autoinstall_provider-IsServed_example :
    IsServed 1800 "tok" stored (autoinstall_provider 1800 "tok" stored)
autoinstall_provider-IsServed_example = autoinstall_provider-IsServed 1800 "tok" stored
