-- ===== src/Firmwares.antt =====
-- data/repositories/firmware_repo.py: the table `firmware`, one row for each content hash.
pub mod Unique
use clusterone.Prelude.{
  Bool, List, Option, String, [], eqb, find, is_some, map, none, not, select, some, suc, ℕ, ◌++◌,
  ◌==◌, ◌∷◌,
}
use clusterone.Jobs.{max_id}

pub record FirmwareRow : Type 0 where
  pub id : ℕ
  pub name : String
  pub type : String
  pub oem : String
  pub model : Option String
  pub version : String
  pub file_path : String
  pub sha256 : String
  pub size_bytes : Option ℕ
  pub uploaded_at : String

unfoldable pub get_firmware : ℕ → List FirmwareRow → Option FirmwareRow
get_firmware id rows = find (λ (f : FirmwareRow). eqb f.id id) rows

unfoldable pub find_sha : String → List FirmwareRow → Option FirmwareRow
find_sha sha rows = find (λ (f : FirmwareRow). f.sha256 == sha) rows

unfoldable pub exists_sha : String → List FirmwareRow → Bool
unfolding find_sha
exists_sha sha rows = is_some (find_sha sha rows)

-- `INSERT … ON CONFLICT(sha256) DO NOTHING`: a hash that is there gives the id of its row. The
-- new row's own `id` is not read.
unfoldable pub add_firmware : FirmwareRow → List FirmwareRow → ℕ × List FirmwareRow
unfolding find_sha
add_firmware f rows = elim (find_sha f.sha256 rows) [
  | some old ↦ (old.id, rows)
  | none ↦
      let id = suc (max_id (map (λ (g : FirmwareRow). g.id) rows)) in
      (id, rows ++ record f { id = id } ∷ [])
]
