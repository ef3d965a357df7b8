-- ===== src/Disks/Picks.antt =====
-- Which drive a strategy names.
use mathlib.Core.Path.{subst}
use clusterone.Prelude.{
  Bool, List, Member, String, [], ap, false, if◌then◌else◌, inl, inr, is_empty, lower, none, refl,
  select, select-Member, some, starts_with, strip, true, ℕ, ◌&&◌, ◌<>◌, ◌==◌, ◌||◌, ◌∷◌, ◌≡◌, ◌⊎◌,
}
use clusterone.Exec.{Exn, Result, cancelled, err, ok, raised}
use clusterone.Models.{Drive, is_ssd}
use clusterone.Disks.{
  Resolution, apply_strategy, argument, by_model, by_serial, by_size, by_slot, first_m2, first_nvme,
  first_of, in_gb, is_m2, is_sized, m2_candidates, none_sized, only_of, resolve_disk, seems_m2,
  size_answer, sized_as, unmatched,
}
use clusterone.Disks.Sizes.{Floats, parse_size_with_tolerance}
use clusterone.Disks.Sized.{
  IsBestOf, best, largest_disk-IsBestOf, none_fits, smallest_disk-IsBestOf, smallest_ssd-IsBestOf,
}

-- The statuses of a resolution that names a drive.
abbrev pub names_drive : String → Bool
names_drive s = s == "matched" || s == "ambiguous"

-- A drive is named exactly under those statuses, and it is one of the inventory; else the status is
-- one of two others.
pub data IsSound (ds : List Drive) (r : Resolution) : Type 0 where
  no_drive :
      r.drive ≡ none → (r.status ≡ "unmatched") ⊎ (r.status ≡ "requires_override") → IsSound ds r
  named : (d : Drive) → r.drive ≡ some d → Member d ds → names_drive r.status ≡ true → IsSound ds r

module _ (ds : List Drive) where
  abbrev AreIn : List Drive → Type 0
  AreIn cs = (d : Drive) → Member d cs → Member d ds

  unmatched-IsSound : (reason : String) → IsSound ds (unmatched reason)
  unmatched-IsSound reason = no_drive refl (inl refl)

  first_of-IsSound :
      (absent : String) (present : Drive → String) (cs : List Drive)
      → AreIn cs
      → IsSound ds (first_of absent present cs)
  unfolding first_of
  first_of-IsSound absent present [] h = no_drive refl (inl refl)
  first_of-IsSound absent present (c ∷ cs) h = named c refl (h c (inl refl)) refl

  only_of-IsSound :
      (absent what : String) (present : Drive → String) (cs : List Drive)
      → AreIn cs
      → IsSound ds (only_of absent what present cs)
  unfolding only_of
  only_of-IsSound absent what present [] h = no_drive refl (inl refl)
  only_of-IsSound absent what present (c ∷ []) h = named c refl (h c (inl refl)) refl
  only_of-IsSound absent what present (c ∷ e ∷ cs) h = named c refl (h c (inl refl)) refl

  selected : (p : Drive → Bool) → AreIn (select p ds)
  selected p d m = (select-Member p d ds m).0

pick_list :
    (xs ys : List Drive)
    → (elim xs [ [] ↦ ys | d ∷ ds ↦ d ∷ ds ] ≡ xs) ⊎ (elim xs [ [] ↦ ys | d ∷ ds ↦ d ∷ ds ] ≡ ys)
pick_list [] ys = inr refl
pick_list (x ∷ xs) ys = inl refl

m2_cases :
    (ds : List Drive)
    → (m2_candidates ds ≡ select is_m2 ds) ⊎ (m2_candidates ds ≡ select seems_m2 ds)
unfolding m2_candidates
m2_cases ds = pick_list (select is_m2 ds) (select seems_m2 ds)

m2_candidates-AreIn : (ds : List Drive) → AreIn ds (m2_candidates ds)
unfolding m2_candidates
m2_candidates-AreIn ds d m = elim (m2_cases ds) [
  | inl e ↦ selected ds is_m2 d (subst (Member d) e m)
  | inr e ↦ selected ds seems_m2 d (subst (Member d) e m)
]

-- A result that is sound where it is one.
data Answers (ds : List Drive) : Result Resolution → Type 0 where
  sound : {r : Resolution} → IsSound ds r → Answers ds (ok r)
  raises : (e : Exn) → Answers ds (err e)

if_both : {A : Type 0} (P : A → Type 0) (b : Bool) {x y : A} → P x → P y → P (if b then x else y)
if_both P true p q = p
if_both P false p q = q

Answers-IsSound : {ds : List Drive} {r : Resolution} → Answers ds (ok r) → IsSound ds r
Answers-IsSound (sound h) = h

module _ {Float : Type 0} (floats : Floats Float) (ds : List Drive) where
  none_sized-Answers :
      (target : ℕ) (pct : Result String) → Answers ds (none_sized floats target pct)
  unfolding none_sized
  none_sized-Answers target (err e) = raises e
  none_sized-Answers target (ok pct) = sound (unmatched-IsSound ds _)

  sized_as-Answers :
      (target : ℕ) (tol : Float) (cs : List Drive)
      → AreIn ds cs
      → Answers ds (sized_as floats target tol cs)
  unfolding sized_as
  sized_as-Answers target tol [] i = none_sized-Answers target (floats.percent tol)
  sized_as-Answers target tol (c ∷ cs) i = sound (
      only_of-IsSound ds "" "size" (λ d. "matched by size (" <> in_gb floats d <> " GB)") (c ∷ cs)
        i)

  size_answer-Answers : (size : Result (ℕ × Float)) → Answers ds (size_answer floats ds size)
  unfolding size_answer
  size_answer-Answers (err cancelled) = raises cancelled
  size_answer-Answers (err (raised class message)) =
      if_both (Answers ds) (class == "ValueError") (sound (unmatched-IsSound ds _)) (raises _)
  size_answer-Answers (ok (target, tol)) = sized_as-Answers target tol _ (selected ds _)

  by_size-Answers : (spec : String) → Answers ds (by_size floats spec ds)
  unfolding by_size
  by_size-Answers spec = size_answer-Answers (parse_size_with_tolerance floats spec)

  first_m2-IsSound : IsSound ds (first_m2 floats ds)
  unfolding first_m2
  first_m2-IsSound = first_of-IsSound ds _ _ _ (m2_candidates-AreIn ds)

  IsBestOf-IsSound :
      {rel : ℕ → ℕ → Type 0} (p : Drive → Bool) {r : Resolution}
      → IsBestOf rel (select p ds) r
      → IsSound ds r
  IsBestOf-IsSound p (none_fits _ e u) = no_drive e (inl u)
  IsBestOf-IsSound p (best d e u (m, _)) = named d e (selected ds p d m) (ap names_drive u)

  first_nvme-IsSound : IsSound ds (first_nvme floats ds)
  unfolding first_nvme
  first_nvme-IsSound = first_of-IsSound ds _ _ _ (selected ds _)

  by_model-IsSound : (spec : String) → IsSound ds (by_model floats spec ds)
  unfolding by_model
  by_model-IsSound spec =
      only_of-IsSound ds _ "model" (λ d. "matched model '" <> d.model <> "'") _ (selected ds _)

  by_slot-IsSound : (spec : String) → IsSound ds (by_slot floats spec ds)
  unfolding by_slot
  by_slot-IsSound spec = first_of-IsSound ds _ _ _ (selected ds _)

  by_serial-IsSound : (spec : String) → IsSound ds (by_serial floats spec ds)
  unfolding by_serial
  by_serial-IsSound spec = first_of-IsSound ds _ _ _ (selected ds _)

  either_answer :
      (b : Bool) {r : Resolution} {x : Result Resolution}
      → IsSound ds r
      → Answers ds x
      → Answers ds (if b then ok r else x)
  either_answer b h g = if_both (Answers ds) b (sound h) g

  apply_strategy-Answers : (strategy s : String) → Answers ds (apply_strategy floats strategy s ds)
  unfolding apply_strategy
  apply_strategy-Answers strategy s =
      either_answer (s == "manual_per_host") (no_drive refl (inr refl)) (
        either_answer (s == "first_nvme") first_nvme-IsSound (
          either_answer (s == "first_m2") first_m2-IsSound (
            either_answer (s == "smallest_ssd")
              (IsBestOf-IsSound (λ d. is_ssd d && is_sized d) (smallest_ssd-IsBestOf floats ds))
              (either_answer (s == "largest_disk")
                (IsBestOf-IsSound is_sized (largest_disk-IsBestOf floats ds))
                (either_answer (s == "smallest_disk")
                  (IsBestOf-IsSound is_sized (smallest_disk-IsBestOf floats ds))
                  (if_both (Answers ds) (starts_with s "by_size:") (by_size-Answers (argument s)) (
                    either_answer (starts_with s "by_model:") (by_model-IsSound (argument s)) (
                      either_answer (starts_with s "by_slot:") (by_slot-IsSound (argument s)) (
                        either_answer (starts_with s "by_serial:") (by_serial-IsSound (argument s))
                          (sound (unmatched-IsSound ds _)))))))))))

resolve_disk-Answers :
    {Float : Type 0} (floats : Floats Float) (strategy : String) (ds : List Drive)
    → Answers ds (resolve_disk floats strategy ds)
unfolding resolve_disk
resolve_disk-Answers floats strategy [] =
    if_both (Answers []) (is_empty (lower (strip strategy))) (sound (no_drive refl (inl refl)))
      (sound (no_drive refl (inl refl)))
resolve_disk-Answers floats strategy (d ∷ ds) =
    if_both (Answers (d ∷ ds)) (is_empty (lower (strip strategy)))
      (sound (no_drive refl (inl refl)))
      (apply_strategy-Answers floats (d ∷ ds) strategy (lower (strip strategy)))

-- A strategy that is resolved names a drive exactly under the statuses matched and ambiguous, and
-- the drive is one of those that were given.
pub resolve_disk-IsSound :
    {Float : Type 0} (floats : Floats Float) (strategy : String) (ds : List Drive) (r : Resolution)
    → resolve_disk floats strategy ds ≡ ok r
    → IsSound ds r
resolve_disk-IsSound floats strategy ds r h =
    Answers-IsSound (subst (Answers ds) h (resolve_disk-Answers floats strategy ds))
