-- ===== src/Disks/Sized.antt =====
-- The strategies that pick by capacity.
use mathlib.Core.Path.{subst}
use clusterone.Prelude.{
  Bool, List, String, [], if◌then◌else◌, is_empty, lower, none, refl, select, some, strip, sym, ℕ,
  ◌&&◌, ◌<>◌, ◌∷◌, ◌≡◌,
}
use clusterone.Exec.{Result, ok}
use clusterone.Models.{Drive, is_ssd}
use clusterone.Disks.{
  Resolution, apply_strategy, in_gb, is_sized, largest, largest_disk, pick_by, resolve_disk,
  smallest, smallest_disk, smallest_ssd, unmatched,
}
use clusterone.Disks.Sizes.{Floats}
use clusterone.Disks.Extremes.{IsExtreme, AtLeast, AtMost, largest-IsExtreme, smallest-IsExtreme}

-- The drive that is named is a candidate at one end of their capacities; none is named where there
-- is no candidate.
pub data IsBestOf (rel : ℕ → ℕ → Type 0) (cs : List Drive) (r : Resolution) : Type 0 where
  none_fits : cs ≡ [] → r.drive ≡ none → r.status ≡ "unmatched" → IsBestOf rel cs r
  best :
      (d : Drive) → r.drive ≡ some d → r.status ≡ "matched" → IsExtreme rel d cs → IsBestOf rel cs r

pick_by-IsBestOf :
    (rel : ℕ → ℕ → Type 0) (pick : Drive → List Drive → Drive)
    → ((d : Drive) (es : List Drive) → IsExtreme rel (pick d es) (d ∷ es))
    → (absent : String) (present : Drive → String) (cs : List Drive)
    → IsBestOf rel cs (pick_by pick absent present cs)
unfolding pick_by
pick_by-IsBestOf rel pick h absent present [] = none_fits refl refl refl
pick_by-IsBestOf rel pick h absent present (c ∷ cs) = best (pick c cs) refl refl (h c cs)

module _ {Float : Type 0} (floats : Floats Float) where
  pub smallest_ssd-IsBestOf :
      (ds : List Drive)
      → IsBestOf AtMost (select (λ d. is_ssd d && is_sized d) ds) (smallest_ssd floats ds)
  unfolding smallest_ssd
  smallest_ssd-IsBestOf ds =
      pick_by-IsBestOf AtMost smallest smallest-IsExtreme "no SSD present"
        (λ d. "matched smallest SSD (" <> in_gb floats d <> " GB)") _

  pub smallest_disk-IsBestOf :
      (ds : List Drive) → IsBestOf AtMost (select is_sized ds) (smallest_disk floats ds)
  unfolding smallest_disk
  smallest_disk-IsBestOf ds =
      pick_by-IsBestOf AtMost smallest smallest-IsExtreme "no drives with reported capacity"
        (λ d. "matched smallest disk (" <> in_gb floats d <> " GB)") _

  pub largest_disk-IsBestOf :
      (ds : List Drive) → IsBestOf AtLeast (select is_sized ds) (largest_disk floats ds)
  unfolding largest_disk
  largest_disk-IsBestOf ds =
      pick_by-IsBestOf AtLeast largest largest-IsExtreme "no drives with reported capacity"
        (λ d. "matched largest disk (" <> in_gb floats d <> " GB)") _

-- What the strategies that pick by capacity choose from, and the order.
pub data Picks : String → (Drive → Bool) → (ℕ → ℕ → Type 0) → Type 1 where
  of_ssds : Picks "smallest_ssd" (λ d. is_ssd d && is_sized d) AtMost
  of_smallest : Picks "smallest_disk" is_sized AtMost
  of_largest : Picks "largest_disk" is_sized AtLeast

-- A result that is the best of the candidates.
abbrev Best : (ℕ → ℕ → Type 0) → List Drive → Result Resolution → Type 0
Best rel cs x = (r : Resolution) × (x ≡ ok r) × IsBestOf rel cs r

module _ {Float : Type 0} (floats : Floats Float) (strategy : String) where
  resolve_as : String → List Drive → Result Resolution
  resolve_as s ds = if is_empty s then ok (unmatched "no strategy supplied") else elim ds [
    | [] ↦ ok (unmatched "host reports no drives")
    | d ∷ ds ↦ apply_strategy floats strategy s (d ∷ ds)
  ]

  resolve_as-Best :
      (s : String) (p : Drive → Bool) (rel : ℕ → ℕ → Type 0) (ds : List Drive)
      → Picks s p rel
      → Best rel (select p ds) (resolve_as s ds)
  unfolding resolve_as apply_strategy
  resolve_as-Best s p rel [] of_ssds = (_, refl, none_fits refl refl refl)
  resolve_as-Best s p rel [] of_smallest = (_, refl, none_fits refl refl refl)
  resolve_as-Best s p rel [] of_largest = (_, refl, none_fits refl refl refl)
  resolve_as-Best s p rel (d ∷ ds) of_ssds = (_, refl, smallest_ssd-IsBestOf floats (d ∷ ds))
  resolve_as-Best s p rel (d ∷ ds) of_smallest = (_, refl, smallest_disk-IsBestOf floats (d ∷ ds))
  resolve_as-Best s p rel (d ∷ ds) of_largest = (_, refl, largest_disk-IsBestOf floats (d ∷ ds))

-- The strategies that pick by capacity always give a resolution. It is unmatched where there is no
-- candidate; else it names a candidate that no other is below, or for the largest disk above. The
-- candidates are the drives with a capacity, of which `smallest_ssd` takes the SSDs only.
pub resolve_disk-IsBestOf :
    {Float : Type 0} (floats : Floats Float) (strategy s : String) (p : Drive → Bool)
    (rel : ℕ → ℕ → Type 0) (ds : List Drive)
    → lower (strip strategy) ≡ s
    → Picks s p rel
    → (r : Resolution) × (resolve_disk floats strategy ds ≡ ok r) × IsBestOf rel (select p ds) r
unfolding resolve_disk resolve_as
resolve_disk-IsBestOf floats strategy s p rel ds h k =
    subst (λ t. Best rel (select p ds) (resolve_as floats strategy t ds)) (sym h)
      (resolve_as-Best floats strategy s p rel ds k)
