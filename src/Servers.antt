-- ===== src/Servers.antt =====
-- data/repositories/servers_repo.py: the table `servers`, keyed by its ids and by its addresses.
pub mod Upsert
use clusterone.Prelude.{
  Bool, List, Option, String, [], count, eqb, false, find, if◌then◌else◌, is_empty, ltb, map, none,
  not, or_else, select, some, strip, suc, true, ℕ, ◌&&◌, ◌*◌, ◌++◌, ◌==◌, ◌∷◌,
}
use clusterone.Exec.{Exec, err, ok, raised}
use clusterone.Jobs.{max_id}

-- The columns that a discovery writes (`_FIELDS`), less `status`, the only one of them that may not
-- be NULL.
pub record ServerFields : Type 0 where
  pub hostname : Option String
  pub manufacturer : Option String
  pub oem : Option String
  pub model : Option String
  pub serial : Option String
  pub bmc_version : Option String
  pub bios_version : Option String
  pub power_state : Option String
  pub protocol : Option String
  pub redfish_root : Option String
  pub tls_fpr : Option String

pub record ServerRow : Type 0 where
  pub id : ℕ
  pub ip : String
  pub fields : ServerFields
  pub open fields use *
  pub status : String
  pub oem_override : Option String
  pub disks_json : Option String
  pub disks_at : Option String
  pub discovered_at : Option String
  pub last_seen : Option String
  pub updated_at : Option String

abbrev pub Servers : Type 0
Servers = List ServerRow

-- `(value or "").strip()`
unfoldable pub trimmed : Option String → String
trimmed v = strip (or_else v "")

unfoldable pub get_server : ℕ → Servers → Option ServerRow
get_server id rows = find (λ (s : ServerRow). eqb s.id id) rows

-- A task whose server is deleted has no id to look for.
abbrev pub get_server_of : Option ℕ → Servers → Option ServerRow
get_server_of none rows = none
get_server_of (some id) rows = get_server id rows

unfoldable pub get_by_ip : String → Servers → Option ServerRow
get_by_ip ip rows = find (λ (s : ServerRow). s.ip == ip) rows

-- Both serials are known and differ.
unfoldable pub hw_changed : Option String → Option String → Bool
hw_changed old new =
    not (is_empty (trimmed old)) && not (is_empty (trimmed new)) && not (trimmed old == trimmed new)

abbrev pub update_fields : String → ServerFields → String → ServerRow → ServerRow
update_fields status f now s = record s {
  fields = f;
  status = status;
  last_seen = some now;
  updated_at = some now;
}

abbrev pub forget_hardware : ServerRow → ServerRow
forget_hardware s = record s { oem_override = none; disks_json = none; disks_at = none }

-- `UPDATE servers … WHERE ip=:ip`
abbrev pub at_ip : String → (ServerRow → ServerRow) → Servers → Servers
at_ip ip f rows = map (λ (s : ServerRow). if s.ip == ip then f s else s) rows

abbrev pub new_row : ℕ → String → String → ServerFields → String → ServerRow
new_row id ip status f now = record {
  id = id;
  ip = ip;
  fields = f;
  status = status;
  oem_override = none;
  disks_json = none;
  disks_at = none;
  discovered_at = some now;
  last_seen = some now;
  updated_at = some now;
}

unfoldable pub update_known : Option String → String → ServerFields → String → ServerRow → ServerRow
update_known old_serial status f now s =
    if hw_changed old_serial f.serial
    then forget_hardware (update_fields status f now s)
    else update_fields status f now s

-- The statement fails on a status of NULL, and then nothing is written.
unfoldable pub upsert : String → Option String → ServerFields → String → Exec Servers ℕ
unfolding get_by_ip update_known
upsert ip none f now rows =
    (err (raised "IntegrityError" "NOT NULL constraint failed: servers.status"), rows)
upsert ip (some status) f now rows = elim (get_by_ip ip rows) [
  | some old ↦ (ok old.id, at_ip ip (update_known old.serial status f now) rows)
  | none ↦
      let id = suc (max_id (map (λ (s : ServerRow). s.id) rows)) in
      (ok id, rows ++ new_row id ip status f now ∷ [])
]

-- `UPDATE servers … WHERE id=?`
abbrev pub at_server : ℕ → (ServerRow → ServerRow) → Servers → Servers
at_server id f rows = map (λ (s : ServerRow). if eqb s.id id then f s else s) rows

unfoldable pub set_oem_override : ℕ → Option String → String → Servers → Bool × Servers
set_oem_override id oem now rows = (
  ltb 0 (count (λ (s : ServerRow). eqb s.id id) rows),
  at_server id (λ s. record s { oem_override = oem; updated_at = some now }) rows,
)

unfoldable pub set_status : ℕ → String → String → Servers → Servers
set_status id status now rows =
    at_server id (λ s. record s { status = status; updated_at = some now }) rows

-- The first reading of the clock goes to `disks_at`, the second to `updated_at`.
unfoldable pub set_disks_by_ip : String → String → String → String → Servers → Bool × Servers
set_disks_by_ip ip disks now later rows = elim (get_by_ip ip rows) [
  | none ↦ (false, rows)
  | some old ↦ (
    true,
    at_server old.id
        (λ s. record s { disks_json = some disks; disks_at = some now; updated_at = some later })
        rows,
  )
]

-- What a write of a TLS fingerprint tells of the change.
pub record PinChange : Type 0 where
  pub id : ℕ
  pub old : Option String
  pub new : String
  pub changed : Bool

unfoldable pub set_tls_fpr_by_ip : String → String → String → Servers → Option PinChange × Servers
set_tls_fpr_by_ip ip fpr now rows = elim (get_by_ip ip rows) [
  | none ↦ (none, rows)
  | some old ↦ (
    some (record {
      id = old.id;
      old = old.tls_fpr;
      new = fpr;
      changed = not (is_empty (or_else old.tls_fpr "")) && not (or_else old.tls_fpr "" == fpr);
    }),
    at_server old.id
        (λ s. record s { fields = record (s.fields) { tls_fpr = some fpr }; updated_at = some now })
        rows,
  )
]
