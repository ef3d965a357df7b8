-- ===== src/Jobs.antt =====
-- data/repositories/jobs_repo.py: the tables `update_jobs` and `update_tasks`, and the statements
-- that `JobsRepo` runs on them. A call of `_now()` is the argument `now`; SQLite itself does not
-- fail here. The SQL text of a dynamic UPDATE is the list of its assignments.
pub mod Tables
pub mod Queries
pub mod Rows
pub mod Finalize
pub mod Sweep
unfoldable pub use Tables.*
unfoldable pub use Queries.*
