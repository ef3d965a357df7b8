-- ===== src/Update/Task/Refresh.antt =====
-- `_refresh_server` writes the servers and no job.
use clusterone.Prelude.{
  Bool, Option, String, false, if◌then◌else◌, is_empty, none, refl, some, true, ◌+◌, ◌≡◌,
}
use clusterone.Jobs.{TaskRow}
use clusterone.Servers.{ServerRow, get_server_of, upsert}
use clusterone.Firmwares.{FirmwareRow}
use clusterone.Update.{World, refresh_server, with_version}
use clusterone.Update.Task.{refresh_of}

refreshed :
    (b : Bool) (o : Option ServerRow) (fw_type version : String) (w : World)
    → (if b then w else elim o [
      | none ↦ w
      | some s ↦ record w {
        servers =
            (upsert s.ip
              (some "online")
              (with_version fw_type version s.fields)
              (w.clock w.reads)
              w.servers).1;
        reads = w.reads + 1;
      }
    ]).jobs
      ≡ w.jobs
refreshed true o fw_type version w = refl
refreshed false none fw_type version w = refl
refreshed false (some s) fw_type version w = refl

pub jobs-refresh_of :
    (o : Option TaskRow) (f : FirmwareRow) (version : Option String) (w : World)
    → (refresh_of o f version w).jobs ≡ w.jobs
unfolding refresh_server
jobs-refresh_of none f version w = refl
jobs-refresh_of (some t) f none w = refl
jobs-refresh_of (some t) f (some version) w =
    refreshed (is_empty version) (get_server_of t.server_id w.servers) f.type version w
