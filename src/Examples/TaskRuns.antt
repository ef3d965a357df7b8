-- ===== src/Examples/TaskRuns.antt =====
-- The theorems on the task of an install at a concrete site.
use clusterone.Prelude.{
  All, List, String, [], arith, count, eqb, false, none, not, print_nat, refl, some, strip, true,
  ◌*◌, ◌+◌, ◌<>◌, ◌∷◌, ◌≡◌,
}
use clusterone.Exec.{ok}
use clusterone.Models.{Drive}
use clusterone.Servers.{ServerRow, get_server, trimmed}
use clusterone.Plugins.{resolve_plugin}
use clusterone.Provision.{Choice}
use clusterone.Provision.Tables.{
  ProvisioningJob, ProvisioningTask, get_provisioning_task, is_terminal, is_under_way,
  update_provisioning_task,
}
use clusterone.Provision.Yard.{IsoRow, Setting, Yard}
use clusterone.Provision.Task.{real_install, run_install, wait_from}
use clusterone.Provision.Conduct.{Conduct, real_install-Conduct}
use clusterone.Provision.Waiting.{Waits, wait_from-Waits}
use clusterone.Provision.Settled.{Settles, run_install-Settles}
use clusterone.Provision.Jobs.{Desk, InstallOrder, resume_installs, start_install}
use clusterone.Provision.Starts.{Started, Unstarted, start_install-Started}
use clusterone.Provision.Restart.{Fates, resume_installs-Fates}
use clusterone.Exec.Triples.{After}
use clusterone.Examples.{no_vault, two_servers, unseal, vendor}
use clusterone.Examples.ServiceRuns.{percents}

abbrev no_drives : ServerRow → List Drive
no_drives row = []

abbrev ubuntu : IsoRow
ubuntu = record { id = 1; name = "Ubuntu"; os_family = "ubuntu"; sha256 = "ab12" }

abbrev picked : String → Choice
picked status = record {
  name = some "nvme0n1";
  model = none;
  capacity = some 500;
  serial = some "S1";
  reason = "by hand";
  status = status;
}

abbrev install_row : String → ProvisioningTask
install_row status = record {
  id = 3;
  job_id = 1;
  server_id = some 1;
  resolved_disk = some (picked status);
  state = "queued";
  progress = 0;
  message = none;
  rendered_cfg_sha = none;
  started_at = "t0";
  finished_at = none;
}

abbrev yard : String → Yard
yard status = record {
  repo = record { jobs = []; tasks = install_row status ∷ [] };
  servers = two_servers;
  vault = no_vault;
  configs = [];
  orders = [];
  updates = [];
  clock = print_nat;
  reads = 0;
}

-- A BMC that grants every request, and a host that answers in the third round.
abbrev setting : Setting
setting = record {
  plugins = vendor ∷ [];
  hardware = λ plugin request info creds.
      ok (record { success = true; message = ""; version_after = none });
  decrypt = unseal;
  read_template = λ path. some "disk: ${disk_match}";
  quoted = λ s. "'" <> s <> "'";
  file_server =
      some
        (record { public_base = some "http://10.0.0.1:8081"; has_runner = true; has_site = true });
  digest = λ message. message;
  token = "tok";
  stored_at = 100;
  signed_at = 100;
  began_at = 200;
  round = λ i. record {
    time = 200 + 15 * i;
    is_cancelled = false;
    is_ready = eqb i 2;
    later = 201 + 15 * i;
  };
  share = λ r. 0;
  is_up = true;
}

real_install-Conduct_example :
    Conduct setting 3 no_drives ubuntu
      (yard "override")
      (real_install setting 3 no_drives ubuntu (yard "override")).0
      (real_install setting 3 no_drives ubuntu (yard "override")).1
real_install-Conduct_example = real_install-Conduct setting 3 no_drives ubuntu (yard "override") tt

wait_from-Waits_example :
    Waits setting 3 0 (yard "override") (wait_from setting 3 121 0 (yard "override"))
wait_from-Waits_example =
    wait_from-Waits setting 3 (yard "override") ((λ i. omega arith), omega arith)

abbrev refused_row : ProvisioningTask
refused_row = record (install_row "unmatched") {
  state = "failed";
  message = some "Disk not resolved at preview (status='unmatched'): by hand";
  finished_at = some "1";
}

run_install-Settles_example :
    Settles (real_install setting 3 no_drives ubuntu (yard "unmatched")).0 false refused_row
unfolding get_provisioning_task run_install get_server trimmed strip resolve_plugin
    update_provisioning_task print_nat
run_install-Settles_example =
    run_install-Settles setting 3 no_drives ubuntu (yard "unmatched") refused_row refl

abbrev desk : Desk
desk = record {
  repo = record { jobs = []; tasks = install_row "matched" ∷ [] };
  servers = two_servers;
  activity = [];
  submitted = [];
  errors = [];
  current_job_id = none;
  clock = print_nat;
  reads = 0;
}

abbrev wipe_both : InstallOrder
wipe_both = record {
  server_ids = 1 ∷ 2 ∷ [];
  iso_id = 1;
  os_profile_id = none;
  disk_profile_id = none;
  confirm_token = "WIPE 2";
  concurrency = 64;
  profile_strategy = some "first_nvme";
  strategy_override = none;
  overrides = record { by_number = λ id. none; by_text = λ id. none };
}

start_install-Started_example :
    After
      (Started percents no_drives wipe_both desk)
      (λ _. Unstarted desk)
      (start_install percents no_drives (some ubuntu) wipe_both desk)
start_install-Started_example =
    start_install-Started percents no_drives (some ubuntu) wipe_both desk

resume_installs-Fates_example :
    Fates desk.repo.tasks (resume_installs desk).1.repo.tasks
    × All (λ (j : ProvisioningJob). is_under_way j.state ≡ false) (resume_installs desk).1.repo.jobs
    × ((resume_installs desk).0
        ≡ count (λ (t : ProvisioningTask). not (is_terminal t.state)) desk.repo.tasks)
resume_installs-Fates_example = resume_installs-Fates desk
