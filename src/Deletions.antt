-- ===== src/Deletions.antt =====
-- `delete` of data/repositories/servers_repo.py and of data/repositories/firmware_repo.py, with what
-- the foreign keys of data/migrations set to NULL in the tables of tasks.
use mathlib.Core.Option.{some-injective}
use clusterone.Prelude.{
  All, Bool-cases, List, Option, [], arith, eqb, eqb_iff, find, if◌then◌else◌, inl, inr, map, none,
  not, refl, select, some, ℕ, ◌∷◌, ◌≡◌,
}
use clusterone.Jobs.{JobsRepo, TaskRow}
use clusterone.Servers.{ServerRow, Servers, get_server}
use clusterone.Firmwares.{FirmwareRow, get_firmware}
use clusterone.Provision.Tables.{ProvisioningRepo, ProvisioningTask}

-- The tables that a deletion reaches.
pub record Database : Type 0 where
  pub servers : Servers
  pub firmware : List FirmwareRow
  pub jobs : JobsRepo
  pub installs : ProvisioningRepo

-- `ON DELETE SET NULL`
unfoldable pub unset : ℕ → Option ℕ → Option ℕ
unset id none = none
unset id (some i) = if eqb i id then none else some i

unfoldable pub delete_server : ℕ → Database → Database
unfolding unset
delete_server id d = record d {
  servers = select (λ (s : ServerRow). not (eqb s.id id)) d.servers;
  jobs = record (d.jobs) {
    tasks = map (λ (t : TaskRow). record t { server_id = unset id t.server_id }) d.jobs.tasks;
  };
  installs = record (d.installs) {
    tasks =
        map (λ (t : ProvisioningTask). record t { server_id = unset id t.server_id })
          d.installs.tasks;
  };
}

-- The deleted row comes back.
unfoldable pub delete_firmware : ℕ → Database → Option FirmwareRow × Database
unfolding unset get_firmware
delete_firmware id d = (
  get_firmware id d.firmware,
  record d {
    firmware = select (λ (f : FirmwareRow). not (eqb f.id id)) d.firmware;
    jobs = record (d.jobs) {
      tasks = map (λ (t : TaskRow). record t { firmware_id = unset id t.firmware_id }) d.jobs.tasks;
    };
  },
)

-- An id that is set is found.
abbrev pub Held : {A : Type 0} → (ℕ → Option A) → Option ℕ → Type 0
Held {A} look i = (j : ℕ) → i ≡ some j → (a : A) × (look j ≡ some a)

-- The foreign keys of the tasks.
pub record IsLinked (d : Database) : Type 0 where
  pub task_servers :
      All (λ (t : TaskRow). Held (λ j. get_server j d.servers) t.server_id) d.jobs.tasks
  pub task_images :
      All (λ (t : TaskRow). Held (λ j. get_firmware j d.firmware) t.firmware_id) d.jobs.tasks
  pub install_servers :
      All
        (λ (t : ProvisioningTask). Held (λ j. get_server j d.servers) t.server_id)
        d.installs.tasks

find_kept :
    {A : Type 0} (key : A → ℕ) (id k : ℕ) (rows : List A)
    → find (λ a. eqb (key a) k) (select (λ a. not (eqb (key a) id)) rows)
      ≡ (if eqb k id then none else find (λ a. eqb (key a) k) rows)
find_kept key id k [] = ground arith
find_kept key id k (a ∷ rows) =
    ground (arith, eqb_iff (key a) k, eqb_iff (key a) id, eqb_iff k id, find_kept key id k rows)

Held-unset :
    {A : Type 0} (look left : ℕ → Option A) (id : ℕ) (i : Option ℕ)
    → ((k : ℕ) → left k ≡ (if eqb k id then none else look k))
    → Held look i
    → Held left (unset id i)
unfolding unset
Held-unset look left id none same h j e = absurd (ground (arith, e))
Held-unset look left id (some i) same h j e = elim (Bool-cases (eqb i id)) [
  | inl same_id ↦ absurd (ground (arith, same_id, rw same_id at e))
  | inr other ↦
      let k : i ≡ j = some-injective _ _ (rw other at e) in
      let (a, found) = h i refl in (a, rw (← k, same i, other) found)
]

-- A column of ids behind a write of its rows.
All-Held :
    {A T : Type 0} (look left : ℕ → Option A) (column : T → Option ℕ) (f : T → T)
    → ((t : T) → Held look (column t) → Held left (column (f t)))
    → (ts : List T) → All (λ (t : T). Held look (column t)) ts
    → All (λ (t : T). Held left (column t)) (map f ts)
All-Held look left column f step [] h = tt
All-Held look left column f step (t ∷ ts) h = (step t h.0, All-Held look left column f step ts h.1)

-- A server that is deleted is found no more and every other one as before, and no task is left with
-- a server or an image that is not there, if there was none before.
pub delete_server-IsLinked :
    (id : ℕ) (d : Database)
    → IsLinked d
    → IsLinked (delete_server id d)
      × ((k : ℕ)
          → get_server k (delete_server id d).servers
            ≡ (if eqb k id then none else get_server k d.servers))
unfolding delete_server get_server
delete_server-IsLinked id d h =
    let left = λ (k : ℕ). find_kept (λ (s : ServerRow). s.id) id k d.servers in
    (
      record {
        task_servers =
            All-Held _ _ (λ (t : TaskRow). t.server_id)
              (λ (t : TaskRow). record t { server_id = unset id t.server_id })
              (λ t. Held-unset _ _ id t.server_id left) d.jobs.tasks h.task_servers;
        task_images =
            All-Held _ _ (λ (t : TaskRow). t.firmware_id)
              (λ (t : TaskRow). record t { server_id = unset id t.server_id }) (λ t held. held)
              d.jobs.tasks h.task_images;
        install_servers =
            All-Held _ _ (λ (t : ProvisioningTask). t.server_id)
              (λ (t : ProvisioningTask). record t { server_id = unset id t.server_id })
              (λ t. Held-unset _ _ id t.server_id left) d.installs.tasks h.install_servers;
      },
      left,
    )

-- An image that is deleted comes back as its row, if there is one; it is found no more and every
-- other one as before, and no task is left with a server or an image that is not there, if there was
-- none before.
pub delete_firmware-IsLinked :
    (id : ℕ) (d : Database)
    → IsLinked d
    → ((delete_firmware id d).0 ≡ get_firmware id d.firmware)
      × IsLinked (delete_firmware id d).1
      × ((k : ℕ)
          → get_firmware k (delete_firmware id d).1.firmware
            ≡ (if eqb k id then none else get_firmware k d.firmware))
unfolding delete_firmware get_firmware
delete_firmware-IsLinked id d h =
    let left = λ (k : ℕ). find_kept (λ (f : FirmwareRow). f.id) id k d.firmware in
    (
      refl,
      record {
        task_servers =
            All-Held _ _ (λ (t : TaskRow). t.server_id)
              (λ (t : TaskRow). record t { firmware_id = unset id t.firmware_id }) (λ t held. held)
              d.jobs.tasks h.task_servers;
        task_images =
            All-Held _ _ (λ (t : TaskRow). t.firmware_id)
              (λ (t : TaskRow). record t { firmware_id = unset id t.firmware_id })
              (λ t. Held-unset _ _ id t.firmware_id left) d.jobs.tasks h.task_images;
        install_servers = h.install_servers;
      },
      left,
    )
