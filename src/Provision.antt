-- ===== src/Provision.antt =====
-- core/services/provisioning_orchestrator.py: the preview of a bulk install, which fixes the drive
-- of each server, and the rendered configurations that the file server hands out.
pub mod Tables
pub mod Yard
pub mod Task
pub mod Trail
pub mod Gate
pub mod Waiting
pub mod Settled
pub mod Dropped
pub mod Conduct
pub mod Jobs
pub mod Restart
pub mod Starts
pub mod Choices
pub mod Expiry
use clusterone.Prelude.{
  Bool, List, Option, String, [], count, find, if◌then◌else◌, is_empty, leb, length, none, not,
  or_else, print_nat, select, some, ℕ, ◌++◌, ◌+◌, ◌<>◌, ◌==◌, ◌||◌, ◌∷◌,
}
use clusterone.Exec.{Result, err, ok}
use clusterone.Models.{Drive}
use clusterone.Servers.{ServerRow, Servers, get_server}
use clusterone.Disks.{Resolution, resolve_disk}
use clusterone.Disks.Sizes.{Floats}

-- An entry of `_configs`. The times are whole seconds.
pub record Config : Type 0 where
  pub token : String
  pub body : String
  pub expires : ℕ

abbrev pub Configs : Type 0
Configs = List Config

unfoldable pub pop_config : String → Configs → Configs
pop_config token configs = select (λ (c : Config). not (c.token == token)) configs

-- `_configs[token] = (body, now + 30 * 60)`
unfoldable pub store_config : ℕ → String → String → Configs → Configs
unfolding pop_config
store_config now token body configs =
    pop_config token configs ++ (record { token = token; body = body; expires = now + 1800 }) ∷ []

unfoldable pub purge_expired_configs : ℕ → Configs → Configs
purge_expired_configs now configs = select (λ (c : Config). not (leb c.expires now)) configs

unfoldable pub autoinstall_provider : ℕ → String → Configs → Option String × Configs
unfolding purge_expired_configs
autoinstall_provider now token configs =
    let left = purge_expired_configs now configs in
    (
      elim (find (λ (c : Config). c.token == token) left) [ none ↦ none | some c ↦ some c.body ],
      left,
    )

-- The drive that a preview shows, and that a task keeps. A capacity is given in bytes.
pub record Choice : Type 0 where
  pub name : Option String
  pub model : Option String
  pub capacity : Option ℕ
  pub serial : Option String
  pub reason : String
  pub status : String

-- The operator's picks, under the number of a server or its text.
pub record Overrides : Type 0 where
  pub by_number : ℕ → Option String
  pub by_text : String → Option String

abbrev pub truthy : Option String → Option String
truthy none = none
truthy (some s) = if is_empty s then none else some s

abbrev first_truthy : Option String → Option String → Option String
first_truthy none other = truthy other
first_truthy (some s) other = if is_empty s then truthy other else some s

unfoldable pub override_of : ℕ → Overrides → Option String
override_of id o = first_truthy (o.by_number id) (o.by_text (print_nat id))

abbrev pub chosen : Drive → String → String → Choice
chosen d reason status = record {
  name = some d.name;
  model = some d.model;
  capacity = some d.capacity_bytes;
  serial = some d.serial;
  reason = reason;
  status = status;
}

abbrev pub unchosen : Option String → String → String → Choice
unchosen name reason status = record {
  name = name;
  model = none;
  capacity = none;
  serial = none;
  reason = reason;
  status = status;
}

unfoldable pub choose_override : String → Option Drive → Choice
choose_override name none =
    unchosen (some name) ("override '" <> name <> "' not in inventory") "unmatched"
choose_override name (some d) = chosen d "operator override" "override"

unfoldable pub choice_of : Option Drive → String → String → Choice
choice_of none reason status = unchosen none reason status
choice_of (some d) reason status = chosen d reason status

unfoldable pub choose_resolved : Result Resolution → Result Choice
unfolding choice_of
choose_resolved (err e) = err e
choose_resolved (ok r) = ok (choice_of r.drive r.reason r.status)

-- What a task may run on.
unfoldable pub is_runnable : String → Bool
is_runnable s = s == "matched" || s == "override" || s == "ambiguous"

-- A row of a preview.
pub record PreviewRow : Type 0 where
  pub server_id : ℕ
  pub hostname : String
  pub ip : String
  pub oem : String
  pub power_state : String
  pub disk_count : ℕ
  pub resolution : Choice

module _ {Float : Type 0} (floats : Floats Float) where
  unfoldable pub choose : Option String → List Drive → String → Result Choice
  unfolding choose_override choose_resolved
  choose (some name) drives strategy =
      ok (choose_override name (find (λ (d : Drive). d.name == name) drives))
  choose none drives strategy =
      if is_empty strategy
      then ok (unchosen none "no strategy or override selected" "unmatched")
      else choose_resolved (resolve_disk floats strategy drives)

  unfoldable pub resolve_for : ℕ → List Drive → String → Overrides → Result Choice
  unfolding choose override_of
  resolve_for id drives strategy overrides = choose (override_of id overrides) drives strategy

  abbrev pub preview_row : ℕ → ServerRow → ℕ → Choice → PreviewRow
  preview_row id row count c = record {
    server_id = id;
    hostname = or_else (truthy row.hostname) row.ip;
    ip = row.ip;
    oem = or_else row.oem "";
    power_state = or_else (truthy row.power_state) "Unknown";
    disk_count = count;
    resolution = c;
  }

  abbrev pub add_preview :
      (Choice → PreviewRow) → Result Choice → Result (List PreviewRow) → Result (List PreviewRow)
  add_preview make (err e) rest = err e
  add_preview make (ok c) (err e) = err e
  add_preview make (ok c) (ok rows) = ok (make c ∷ rows)

  -- `drives_of` is `_drives_from_row`. A server that is gone is left out.
  unfoldable pub preview_rows :
      (ServerRow → List Drive) → List ℕ → String → Overrides → Servers → Result (List PreviewRow)
  unfolding resolve_for
  preview_rows drives_of [] strategy overrides servers = ok []
  preview_rows drives_of (id ∷ ids) strategy overrides servers =
      let rest = preview_rows drives_of ids strategy overrides servers in
      elim (get_server id servers) [
        | none ↦ rest
        | some row ↦
            add_preview (preview_row id row (length (drives_of row)))
              (resolve_for id (drives_of row) strategy overrides) rest
      ]

  -- The strategy that is given, else that of the profile.
  unfoldable pub preview :
      (ServerRow → List Drive)
      → List ℕ
      → Option String
      → Option String
      → Overrides
      → Servers
      → Result (List PreviewRow)
  unfolding preview_rows
  preview drives_of ids profile_strategy strategy_override overrides servers =
      preview_rows drives_of ids (or_else (first_truthy strategy_override profile_strategy) "")
        overrides servers
