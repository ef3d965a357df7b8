-- ===== src/Lib.antt =====
-- A model of ClusterOne, a tool that updates the firmware of servers over Redfish, with the
-- theorems on how it keeps its records and on what it lets reach a BMC.
--
-- The program is a desktop application in Python. An operator picks servers and an image; the
-- update orchestrator makes a job with one task for each server and runs the tasks as coroutines
-- behind a semaphore. A task looks its server up, hashes the image's file, routes the work to the
-- vendor's plugin, asks the BMC whether it is ready, and hands the image over. Every step is
-- written to a SQLite database through repositories, which a restart reads. Other services switch
-- the power of servers, and install an operating system: the disk resolver picks the drive, the
-- renderer writes the install configuration for it, and the file server gives that and the ISO to
-- the BMC under signed links.
--
-- Files:
--   Prelude, Prelude/*     lists, Boolean tests and the text functions of Python that the code uses
--   Exec                   exceptions, and methods that change an object and may raise
--   Json                   JSON values as Python reads them
--   Models                 core/models and the results of core/plugins_api/base.py
--   Jobs, Jobs/*           data/repositories/jobs_repo.py: `JobsRepo`
--   Servers, Servers/*     data/repositories/servers_repo.py: `ServersRepo`
--   Credentials, .../*     core/services/credentials_service.py over
--                          data/repositories/credentials_repo.py
--   Firmwares, .../*       data/repositories/firmware_repo.py: `FirmwareRepo`
--   Deletions              `delete` of ServersRepo and of FirmwareRepo, over the tables that the
--                          foreign keys of data/migrations reach
--   Plugins                core/plugins_api/base.py, and the routing of registry.py
--   Update                 core/services/update_orchestrator.py: its state and its helpers
--   Update/Preflight       `_preflight_bmc`
--   Update/Task            `_real_task` and `_run_task`
--   Update/Start           `start_job`
--   Update/Run             `_run_job` and its coroutines `run_one`
--   Update/Poll            `_resume_one_task` and `_resume_one_task_inner`
--   Update/Resume          `resume_interrupted`
--   Disks, Disks/*         core/services/disk_resolver.py: `resolve` is `resolve_disk`; Disks/Sizes
--                          reads sizes; Disks/Globs models `fnmatch` of Python's library
--   Serving, Serving/*     core/services/file_server.py: `SignedUrlSigner` and `FileServer`
--   Power, Power/*         core/services/power_service.py: Power has the state and the polling,
--                          Power/Apply the methods `apply`, `_run` and `_apply_one`
--   Autoinstall, .../*     core/services/autoinstall_renderer.py; Autoinstall/Templates
--                          models `string.Template.safe_substitute` of Python's library
--   Provision, .../*       core/services/provisioning_orchestrator.py: Provision has `preview`,
--                          `_resolve_for`, and `_configs` with `autoinstall_provider`;
--                          Provision/Tables is data/repositories/provisioning_repo.py;
--                          Provision/Yard and Provision/Task `_run_task` and `_real_task`, as
--                          `run_install` and `real_install`; Provision/Jobs `start_job` and
--                          `resume_interrupted`, as `start_install` and `resume_installs`
--   Capabilities, .../*    core/plugins_api/capability_discoverer.py: Capabilities has the map and
--                          the choice of members, Capabilities/Walk `_safe_get` and its kin, the
--                          others the steps of the walk, and Capabilities/Discover `discover`
--   Examples, Examples/*   a concrete site, and the theorems at it; TextTests: runs of text functions
-- A function keeps its name, without a leading underscore. The child modules hold the proofs.
--
-- State and operations. A table is the list of its rows in the order of their ids, and a statement
-- of SQL is a function on the list. The `World` of Update is the database beside what a job leaves
-- outside of it: the calls of its callback and the images that plugins were given; the `Site` of
-- Power is the same for power actions. The server of Serving is given the time. A method that
-- may raise gives a `Result`; one that also writes keeps what it wrote before the raise. A job's
-- coroutines are a step relation: an event is what one of them does between two `await`s, so that a
-- list of events is one interleaving. The event loop runs on one thread, which is why no event is
-- divided.
--
-- Assumptions. SQLite does not fail but on a NULL status, and gives a new row the largest id and
-- one more. The plugins, the vault's ciphers, the digest of a file and the BMC are parameters. The
-- plugins, the vault, the reading of an image and the BMC may raise; the callbacks of a job or of
-- a power action do not. Numbers in JSON, in a percentage and in a port are naturals. A file's
-- path is printed as it is stored. Texts are sequences of Unicode characters, and `lower` and
-- `upper` change the letters of ASCII only. The HMAC of a link, the sockets, `float` and the
-- bundled templates are parameters. Digits and letters of names and numbers are those of ASCII.
-- The coroutines of a power action end in any order, but each `_apply_one` runs on a site that no
-- other changes meanwhile. The clock is a sequence of readings. Each loop runs over a list or a
-- text, but for three: the digits of a number are printed on fuel, which is the number and one
-- more, so never less than its digits; the wait for an installer has 121 rounds, which are enough
-- since each takes 15 of its 1800 seconds; and the pages of an inventory are counted by the code
-- itself, up to 50.
--
-- Not modelled: the user interface, the plugins of the vendors, the Redfish client, discovery, the
-- interleavings of a provisioning job's coroutines and the tools; the lists and counts that only
-- the user interface reads; log lines of `logging`; the callbacks of a job's end.
pub mod Prelude
pub mod TextTests
pub mod Exec
pub mod Json
pub mod Models
pub mod Jobs
pub mod Servers
pub mod Capabilities
pub mod Credentials
pub mod Firmwares
pub mod Plugins
pub mod Update
pub mod Examples
pub mod Disks
pub mod Serving
pub mod Power
pub mod Autoinstall
pub mod Provision
pub mod Deletions
