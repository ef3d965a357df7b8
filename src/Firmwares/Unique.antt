-- ===== src/Firmwares/Unique.antt =====
-- One row for each content hash.
use mathlib.Core.Path.{subst}
use clusterone.Prelude.{
  List, Option-cases, String, [], ap, arith, eq_iff, inl, inr, map, none, some, suc, sym, ◌++◌, ◌∙◌,
  ◌∷◌, ◌≡◌,
}
use clusterone.Jobs.{max_id}
use clusterone.Firmwares.{FirmwareRow, add_firmware, find_sha}

find_sha-append :
    (sha : String) (rows : List FirmwareRow) (f : FirmwareRow)
    → find_sha sha rows ≡ none
    → f.sha256 ≡ sha
    → find_sha sha (rows ++ f ∷ []) ≡ some f
unfolding find_sha
find_sha-append sha [] f h e = ground (arith, eq_iff f.sha256 sha)
find_sha-append sha (g ∷ rows) f h e = ground (arith, find_sha-append sha rows f)

already_there :
    (g : FirmwareRow) (rows : List FirmwareRow) (old : FirmwareRow)
    → find_sha g.sha256 rows ≡ some old
    → add_firmware g rows ≡ (old.id, rows)
unfolding add_firmware
already_there g rows old e = rw (e, add_firmware)

new_there :
    (f : FirmwareRow) (rows : List FirmwareRow)
    → find_sha f.sha256 rows ≡ none
    → add_firmware f rows ≡ (
      suc (max_id (map (λ (h : FirmwareRow). h.id) rows)),
      rows ++ record f { id = suc (max_id (map (λ (h : FirmwareRow). h.id) rows)) } ∷ [],
    )
unfolding add_firmware
new_there f rows e = rw (e, add_firmware)

-- An import right after one of the same content changes nothing and gives the id of the first,
-- whatever else differs.
pub add_firmware-add_firmware :
    (f g : FirmwareRow) (rows : List FirmwareRow)
    → g.sha256 ≡ f.sha256
    → add_firmware g (add_firmware f rows).1 ≡ add_firmware f rows
add_firmware-add_firmware f g rows same = elim (Option-cases (find_sha f.sha256 rows)) [
  | inl new ↦
      let row : FirmwareRow = record f {
        id = suc (max_id (map (λ (h : FirmwareRow). h.id) rows));
      } in
      subst (λ p. add_firmware g p.1 ≡ p) (sym (new_there f rows new))
        (already_there g (rows ++ row ∷ []) row
          (find_sha-append g.sha256 rows row (ap (λ s. find_sha s rows) same ∙ new) (sym same)))
  | inr (old, e) ↦
      subst (λ p. add_firmware g p.1 ≡ p) (sym (already_there f rows old e))
        (already_there g rows old (ap (λ s. find_sha s rows) same ∙ e))
]
