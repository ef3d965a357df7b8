-- ===== src/Disks.antt =====
-- core/services/disk_resolver.py: a strategy's text is applied to the drives of a server.
pub mod Globs
pub mod Sized
pub mod Sizes
pub mod Extremes
pub mod Picks
use clusterone.Prelude.{
  Bool, List, Option, String, [], ends_with, has_text, if◌then◌else◌, is_empty, is_some, length,
  lower, ltb, none, or_else, partition, print_nat, replace, select, some, starts_with, strip, ℕ,
  ◌&&◌, ◌<>◌, ◌==◌, ◌||◌, ◌∷◌,
}
use clusterone.Exec.{Result, cancelled, err, ok, raised}
use clusterone.Models.{Drive, is_nvme, is_ssd}
use clusterone.Disks.Globs.{fnmatch}
use clusterone.Disks.Sizes.{Floats, parse_size_with_tolerance, within_tolerance}

pub record Resolution : Type 0 where
  pub drive : Option Drive
  pub reason : String
  pub status : String

unfoldable pub resolution_ok : Resolution → Bool
resolution_ok r = r.status == "matched" && is_some r.drive

abbrev pub unmatched : String → Resolution
unmatched reason = record { drive = none; reason = reason; status = "unmatched" }

abbrev pub matched : Drive → String → Resolution
matched d reason = record { drive = some d; reason = reason; status = "matched" }

-- The first candidate, or what is said of none.
unfoldable pub first_of : String → (Drive → String) → List Drive → Resolution
first_of absent present [] = unmatched absent
first_of absent present (d ∷ ds) = matched d (present d)

-- The first candidate; more than one is for the operator to review.
unfoldable pub only_of : String → String → (Drive → String) → List Drive → Resolution
only_of absent what present [] = unmatched absent
only_of absent what present (d ∷ []) = matched d (present d)
only_of absent what present (d ∷ e ∷ ds) = record {
  drive = some d;
  reason =
      print_nat (length (d ∷ e ∷ ds))
      <> " drives matched "
      <> what
      <> " — overriding to first; review";
  status = "ambiguous";
}

-- `re.search(r"m\.?2", text, re.IGNORECASE)`
abbrev pub names_m2 : String → Bool
names_m2 s = has_text (lower s) "m2" || has_text (lower s) "m.2"

abbrev is_m2 : Drive → Bool
is_m2 d = names_m2 d.model || names_m2 (or_else d.slot "")

-- An NVMe SSD below a terabyte is taken for one where no drive is called M.2.
abbrev seems_m2 : Drive → Bool
seems_m2 d = is_nvme d && is_ssd d && ltb d.capacity_bytes 1000000000000

unfoldable pub m2_candidates : List Drive → List Drive
m2_candidates drives = elim (select is_m2 drives) [ [] ↦ select seems_m2 drives | d ∷ ds ↦ d ∷ ds ]

-- `min(ds, key=capacity)` and `max`: the first of those that are equal.
unfoldable pub smallest : Drive → List Drive → Drive
smallest d [] = d
smallest d (e ∷ es) = smallest (if ltb e.capacity_bytes d.capacity_bytes then e else d) es

unfoldable pub largest : Drive → List Drive → Drive
largest d [] = d
largest d (e ∷ es) = largest (if ltb d.capacity_bytes e.capacity_bytes then e else d) es

unfoldable pub pick_by :
    (Drive → List Drive → Drive) → String → (Drive → String) → List Drive → Resolution
pick_by best absent present [] = unmatched absent
pick_by best absent present (d ∷ ds) = matched (best d ds) (present (best d ds))

abbrev pub is_sized : Drive → Bool
is_sized d = ltb 0 d.capacity_bytes

-- `s.split(":", 1)[1]` of a text that has a colon.
abbrev argument : String → String
argument s = elim (partition ":" s) [ some (_, after) ↦ after | none ↦ "" ]

module _ {Float : Type 0} (floats : Floats Float) where
  abbrev in_gb : Drive → String
  in_gb d = floats.gigabytes d.capacity_bytes

  unfoldable pub none_sized : ℕ → Result String → Result Resolution
  none_sized target (err e) = err e
  none_sized target (ok pct) =
      ok (unmatched ("no drive within ±" <> pct <> "% of " <> floats.gigabytes target <> "GB"))

  unfoldable pub sized_as : ℕ → Float → List Drive → Result Resolution
  unfolding only_of none_sized
  sized_as target tol [] = none_sized target (floats.percent tol)
  sized_as target tol (d ∷ ds) =
      ok (only_of "" "size" (λ d'. "matched by size (" <> in_gb d' <> " GB)") (d ∷ ds))

  -- The size is parsed under `except ValueError`; what follows is not.
  unfoldable pub size_answer : List Drive → Result (ℕ × Float) → Result Resolution
  unfolding sized_as
  size_answer drives (err cancelled) = err cancelled
  size_answer drives (err (raised class message)) =
      if class == "ValueError" then ok (unmatched message) else err (raised class message)
  size_answer drives (ok (target, tol)) =
      sized_as target tol
        (select (λ (d : Drive). within_tolerance floats d.capacity_bytes target tol) drives)

  unfoldable pub by_size : String → List Drive → Result Resolution
  unfolding size_answer
  by_size spec drives = size_answer drives (parse_size_with_tolerance floats spec)

  unfoldable pub by_model : String → List Drive → Resolution
  unfolding only_of
  by_model spec drives =
      let glob = replace "_" " " spec in
      only_of ("no drive matches model glob '" <> glob <> "'") "model"
        (λ d. "matched model '" <> d.model <> "'")
        (select (λ (d : Drive). fnmatch (lower d.model) glob) drives)

  unfoldable pub by_slot : String → List Drive → Resolution
  unfolding first_of
  by_slot spec drives =
      let tok = strip spec in
      first_of ("no drive in slot ending '" <> tok <> "'")
        (λ d. "matched slot '" <> or_else d.slot "None" <> "'")
        (select (λ (d : Drive). ends_with (lower (or_else d.slot "")) (lower tok)) drives)

  unfoldable pub by_serial : String → List Drive → Resolution
  unfolding first_of
  by_serial spec drives =
      let sn = strip spec in
      first_of ("no drive with serial '" <> sn <> "'") (λ d. "matched serial '" <> d.serial <> "'")
        (select (λ (d : Drive). lower d.serial == lower sn) drives)

  unfoldable pub first_nvme : List Drive → Resolution
  unfolding first_of
  first_nvme drives = first_of "no NVMe present" (λ _. "matched first NVMe") (select is_nvme drives)

  unfoldable pub first_m2 : List Drive → Resolution
  unfolding first_of m2_candidates
  first_m2 drives =
      first_of "no M.2 device detected" (λ _. "matched first M.2") (m2_candidates drives)

  unfoldable pub smallest_ssd : List Drive → Resolution
  unfolding pick_by
  smallest_ssd drives =
      pick_by smallest "no SSD present" (λ d. "matched smallest SSD (" <> in_gb d <> " GB)")
        (select (λ d. is_ssd d && is_sized d) drives)

  unfoldable pub largest_disk : List Drive → Resolution
  unfolding pick_by
  largest_disk drives =
      pick_by largest "no drives with reported capacity"
        (λ d. "matched largest disk (" <> in_gb d <> " GB)") (select is_sized drives)

  unfoldable pub smallest_disk : List Drive → Resolution
  unfolding pick_by
  smallest_disk drives =
      pick_by smallest "no drives with reported capacity"
        (λ d. "matched smallest disk (" <> in_gb d <> " GB)") (select is_sized drives)

  -- The strategies, for a text that is trimmed and in lower case.
  unfoldable pub apply_strategy : String → String → List Drive → Result Resolution
  unfolding by_size by_model by_slot by_serial first_nvme first_m2 smallest_ssd largest_disk
      smallest_disk
  apply_strategy strategy s drives =
      if s == "manual_per_host"
      then ok (record {
        drive = none;
        reason = "operator override required";
        status = "requires_override";
      })
      else if s == "first_nvme"
      then ok (first_nvme drives)
      else if s == "first_m2"
      then ok (first_m2 drives)
      else if s == "smallest_ssd"
      then ok (smallest_ssd drives)
      else if s == "largest_disk"
      then ok (largest_disk drives)
      else if s == "smallest_disk"
      then ok (smallest_disk drives)
      else if starts_with s "by_size:"
      then by_size (argument s) drives
      else if starts_with s "by_model:"
      then ok (by_model (argument s) drives)
      else if starts_with s "by_slot:"
      then ok (by_slot (argument s) drives)
      else if starts_with s "by_serial:"
      then ok (by_serial (argument s) drives)
      else ok (unmatched ("unknown strategy '" <> strategy <> "'"))

  unfoldable pub resolve_disk : String → List Drive → Result Resolution
  unfolding apply_strategy
  resolve_disk strategy drives =
      let s = lower (strip strategy) in
      if is_empty s then ok (unmatched "no strategy supplied") else elim drives [
        | [] ↦ ok (unmatched "host reports no drives")
        | d ∷ ds ↦ apply_strategy strategy s (d ∷ ds)
      ]
