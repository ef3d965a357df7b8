-- ===== src/Examples/StoreRuns.antt =====
-- The theorems on the stores at concrete rows.
use mathlib.Core.Option.{some-injective}
use clusterone.Prelude.{
  List, Option, String, [], ap, arith, eq_iff, eqb, if◌then◌else◌, length, none, refl, some, sym, ℕ,
  ◌+◌, ◌<>◌, ◌<◌, ◌==◌, ◌↔◌, ◌∙◌, ◌∷◌, ◌≡◌, ◌≤◌,
}
use clusterone.Exec.{ok}
use clusterone.Jobs.{
  TaskUpdate, at_job, at_task, create_task, finalize_job_from_tasks, list_tasks, summarise,
  update_task,
}
use clusterone.Jobs.Rows.{update_task_lem, written}
use clusterone.Jobs.Finalize.{finalize_writes, states_of, summarise_exact, with_summary}
use clusterone.Servers.{ServerRow, get_by_ip, get_server, upsert}
use clusterone.Servers.Upsert.{IsMerged, upsert_known}
use clusterone.Firmwares.{add_firmware, get_firmware}
use clusterone.Credentials.{CredentialRow, Vault, add, resolve}
use clusterone.Credentials.Precedence.{resolve-add, resolve-add_ne}
use clusterone.Provision.Tables.{create_provisioning_task}
use clusterone.Deletions.{
  Database, Held, IsLinked, delete_firmware, delete_firmware-IsLinked, delete_server,
  delete_server-IsLinked,
}
use clusterone.Examples.{
  image, job_tables, known_fields, mixed_tables, seal, server_row, two_servers, unseal,
}
use clusterone.Credentials.Specific.{IsMostSpecific, IsOpened, resolve-IsMostSpecific}
use clusterone.Firmwares.Unique.{add_firmware-add_firmware}

abbrev three_states : List String
three_states = "completed" ∷ "failed" ∷ "queued" ∷ []

summarise_exact_example :
    ((summarise three_states).total ≡ length three_states)
    × ((summarise three_states).succeeded + (summarise three_states).failed
        ≤ (summarise three_states).total)
    × (((summarise three_states).state ≡ "running") ↔ (
        (summarise three_states).succeeded + (summarise three_states).failed
        < (summarise three_states).total))
summarise_exact_example = summarise_exact three_states

finalize_writes_example : finalize_job_from_tasks 7 mixed_tables ≡ (
  some (summarise (states_of 7 mixed_tables)),
  at_job 7 (with_summary (summarise (states_of 7 mixed_tables))) mixed_tables,
)
unfolding list_tasks
finalize_writes_example = finalize_writes 7 mixed_tables (λ h. cc)

abbrev done_update : TaskUpdate
done_update = record {
  state = some "completed";
  progress = none;
  message = none;
  version_after = some "7.1";
  redfish_task = none;
}

update_task_lem_example :
    update_task 1 done_update "t9" job_tables ≡ at_task 1 (written done_update "t9") job_tables
update_task_lem_example = update_task_lem 1 done_update "t9" job_tables

abbrev found_row : ServerRow
found_row = server_row 1 "10.0.0.5" "SN1"

upsert_known_example :
    (row : ServerRow) × IsMerged "t9" "online" (known_fields "SN9") found_row row
    × ((upsert "10.0.0.5" (some "online") (known_fields "SN9") "t9" two_servers).0 ≡ ok 1)
    × ((k : String)
        → get_by_ip k (upsert "10.0.0.5" (some "online") (known_fields "SN9") "t9" two_servers).1
          ≡ (if "10.0.0.5" == k then some row else get_by_ip k two_servers))
unfolding get_by_ip
upsert_known_example =
    upsert_known "10.0.0.5" "online" (known_fields "SN9") "t9" two_servers found_row refl

abbrev one_secret : Vault
one_secret = (add seal "all" "root" "s3cret" "default" []).1

-- A newer row of a vendor beside the default.
abbrev two_secrets : Vault
two_secrets = (add seal "dell" "admin" "calvin" "oem:dell" one_secret).1

resolve-IsMostSpecific_example :
    (row : Option CredentialRow) × IsMostSpecific (some "10.0.0.5") (some "dell") two_secrets row
    × IsOpened unseal row (resolve unseal (some "10.0.0.5") (some "dell") two_secrets)
resolve-IsMostSpecific_example =
    resolve-IsMostSpecific unseal (some "10.0.0.5") (some "dell") two_secrets

resolve-add_example :
    resolve unseal
      (some "10.0.0.5")
      none
      (add seal "host" "admin" "s3cret" ("host:" <> "10.0.0.5") one_secret).1
    ≡ some (record { username = "admin"; password = "s3cret" })
resolve-add_example =
    resolve-add seal unseal "host" "admin" "s3cret" "s3cret!" "10.0.0.5" none one_secret refl refl
      refl

resolve-add_ne_example :
    resolve unseal (some "10.0.0.5") none (add seal "host" "admin" "x" "oem:hpe" one_secret).1
    ≡ resolve unseal (some "10.0.0.5") none one_secret
resolve-add_ne_example =
    resolve-add_ne seal unseal "host" "admin" "x" "oem:hpe" (some "10.0.0.5") none one_secret (
      (λ h. ground (arith, eq_iff "host:10.0.0.5" "oem:hpe")),
      ((λ h. ground arith), ((λ h. ground (arith, eq_iff "default" "oem:hpe")), tt)),
    )

add_firmware-add_firmware_example :
    add_firmware (record image { name = "copy" }) (add_firmware image []).1 ≡ add_firmware image []
add_firmware-add_firmware_example =
    add_firmware-add_firmware image (record image { name = "copy" }) [] refl

-- A task of the first server and of the image, and an install of the second server.
abbrev linked_tables : Database
linked_tables = record {
  servers = two_servers;
  firmware = image ∷ [];
  jobs = (create_task 1 1 4 none "t0" (record { jobs = []; tasks = [] })).1;
  installs = (create_provisioning_task 1 2 none "t0" (record { jobs = []; tasks = [] })).1;
}

found-Held :
    {A : Type 0} (look : ℕ → Option A) (i : ℕ) (a : A) → look i ≡ some a → Held look (some i)
found-Held look i a e j same = (a, ap look (sym (some-injective _ _ same)) ∙ e)

linked_tables-IsLinked : IsLinked linked_tables
unfolding create_task create_provisioning_task get_server get_firmware
linked_tables-IsLinked = record {
  task_servers = (found-Held _ 1 (server_row 1 "10.0.0.5" "SN1") refl, tt);
  task_images = (found-Held _ 4 image refl, tt);
  install_servers = (found-Held _ 2 (server_row 2 "10.0.0.6" "SN2") refl, tt);
}

delete_server-IsLinked_example :
    IsLinked (delete_server 1 linked_tables)
    × ((k : ℕ)
        → get_server k (delete_server 1 linked_tables).servers
          ≡ (if eqb k 1 then none else get_server k linked_tables.servers))
delete_server-IsLinked_example = delete_server-IsLinked 1 linked_tables linked_tables-IsLinked

delete_firmware-IsLinked_example :
    ((delete_firmware 4 linked_tables).0 ≡ get_firmware 4 linked_tables.firmware)
    × IsLinked (delete_firmware 4 linked_tables).1
    × ((k : ℕ)
        → get_firmware k (delete_firmware 4 linked_tables).1.firmware
          ≡ (if eqb k 4 then none else get_firmware k linked_tables.firmware))
delete_firmware-IsLinked_example = delete_firmware-IsLinked 4 linked_tables linked_tables-IsLinked
