-- ===== src/Examples.antt =====
-- Concrete data: a database with one job of two servers, a vendor's plugin and a BMC that answers.
pub mod StoreRuns
pub mod UpdateRuns
pub mod RestartRuns
pub mod ServiceRuns
pub mod HostRuns
pub mod InstallRuns
pub mod TaskRuns
pub mod WalkRuns
use clusterone.Prelude.{
  Bool, String, [], false, if◌then◌else◌, none, print_nat, some, true, ℕ, ◌<>◌, ◌==◌, ◌∷◌,
}
use clusterone.Exec.{Result, err, ok, raised}
use clusterone.Json.{Fields, arr, cons, end, field, nil, obj, str}
use clusterone.Models.{Credentials, Firmware, ServerInfo}
use clusterone.Jobs.{JobRow, JobsRepo, TaskRow}
use clusterone.Servers.{ServerFields, ServerRow, Servers}
use clusterone.Firmwares.{FirmwareRow}
use clusterone.Credentials.{Vault}
use clusterone.Plugins.{Flash, Plugin}
use clusterone.Update.{Env, World, progress}
use clusterone.Update.Preflight.{Reader}

abbrev pub known_fields : String → ServerFields
known_fields serial = record {
  hostname = none;
  manufacturer = some "Dell Inc.";
  oem = some "dell";
  model = some "R760";
  serial = some serial;
  bmc_version = some "7.0";
  bios_version = some "2.1";
  power_state = some "On";
  protocol = some "redfish";
  redfish_root = some "https://10.0.0.5/redfish/v1/";
  tls_fpr = none;
}

abbrev pub server_row : ℕ → String → String → ServerRow
server_row id ip serial = record {
  id = id;
  ip = ip;
  fields = known_fields serial;
  status = "online";
  oem_override = some "dell";
  disks_json = none;
  disks_at = none;
  discovered_at = some "t0";
  last_seen = some "t0";
  updated_at = some "t0";
}

abbrev pub two_servers : Servers
two_servers = server_row 1 "10.0.0.5" "SN1" ∷ server_row 2 "10.0.0.6" "SN2" ∷ []

abbrev pub image : FirmwareRow
image = record {
  id = 4;
  name = "idrac";
  type = "BMC";
  oem = "dell";
  model = none;
  version = "7.1";
  file_path = "fw.bin";
  sha256 = "AB12";
  size_bytes = some 100;
  uploaded_at = "t0";
}

abbrev pub task_row : ℕ → ℕ → String → TaskRow
task_row id server state = record {
  id = id;
  job_id = 7;
  server_id = some server;
  firmware_id = some 4;
  state = state;
  progress = 0;
  version_before = some "7.0";
  version_after = none;
  redfish_task = none;
  message = none;
  started_at = "t0";
  finished_at = none;
}

abbrev pub job_row : ℕ → String → JobRow
job_row id state = record {
  id = id;
  created_at = "t0";
  created_by = "admin";
  fw_type = "BMC";
  concurrency = 1;
  apply_time = "Immediate";
  state = state;
  total = 2;
  succeeded = 0;
  failed = 0;
}

abbrev pub job_tables : JobsRepo
job_tables = record {
  jobs = job_row 6 "completed" ∷ job_row 7 "running" ∷ [];
  tasks = task_row 1 1 "queued" ∷ task_row 2 2 "queued" ∷ [];
}

abbrev pub mixed_tables : JobsRepo
mixed_tables = record {
  jobs = job_row 7 "running" ∷ job_row 8 "pending" ∷ job_row 9 "completed" ∷ [];
  tasks = task_row 1 1 "completed" ∷ task_row 2 2 "failed" ∷ [];
}

abbrev pub no_vault : Vault
no_vault = []

abbrev pub start_world : World
start_world = record {
  jobs = job_tables;
  servers = two_servers;
  firmware = image ∷ [];
  vault = no_vault;
  activity = [];
  notices = [];
  pushed = [];
  clock = print_nat;
  reads = 0;
}

-- A cipher that opens what it has sealed.
abbrev pub seal : String → Result String
seal password = ok (password <> "!")

abbrev pub unseal : String → Result String
unseal sealed = if sealed == "s3cret!" then ok "s3cret" else err (raised "InvalidToken" "")

abbrev pub vendor_flash : ServerInfo → Firmware → Credentials → Bool → Flash
vendor_flash info fw creds apply_now = record {
  reports = record { state = "uploading"; percent = 20; message = "sent" } ∷ [];
  result = ok (record { success = true; message = ""; version_after = some fw.version });
}

abbrev pub vendor : Plugin
vendor = record {
  key = "dell";
  validate = λ info fw. ok (record { compatible = true; reason = ""; is_downgrade = false });
  update_bmc = vendor_flash;
  update_bios = vendor_flash;
  update_hgx = vendor_flash;
}

abbrev pub inventory : Fields
inventory =
    field "Members"
      (arr (
        cons
          (obj (field "@odata.id" (str "/redfish/v1/UpdateService/FirmwareInventory/iDRAC-1") end))
          nil))
      end

abbrev pub bmc_reader : Reader
bmc_reader path =
    if path == "/redfish/v1/UpdateService"
    then ok (field "HttpPushUri" (str "/upload") (field "Oem" (str "Dell") end))
    else if path == "/redfish/v1/TaskService/Tasks"
    then ok (field "Members" (arr nil) end)
    else ok inventory

abbrev pub site : Env
site = record {
  plugins = vendor ∷ [];
  decrypt = unseal;
  digest = λ path. if path == "fw.bin" then some (ok "ab12") else none;
  connect = λ c. ok bmc_reader;
}

abbrev pub typed : Credentials
typed = record { username = "root"; password = "calvin" }
