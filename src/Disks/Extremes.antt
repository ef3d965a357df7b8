-- ===== src/Disks/Extremes.antt =====
-- `min` and `max` of the drives by their capacity.
use clusterone.Prelude.{
  All, Bool, Bool-cases, List, Member, [], arith, false, if◌then◌else◌, inl, inr, ltb, refl, sym,
  true, ℕ, ◌∷◌, ◌≡◌, ◌≤◌,
}
use clusterone.Models.{Drive}
use clusterone.Disks.{largest, smallest}
use mathlib.Core.Path.{subst}

module _ (d e : Drive) (es : List Drive) (P : Drive → Type 0) where
  smallest_step :
      (ltb e.capacity_bytes d.capacity_bytes ≡ true → P (smallest e es))
      → (ltb e.capacity_bytes d.capacity_bytes ≡ false → P (smallest d es))
      → P (smallest d (e ∷ es))
  unfolding smallest
  smallest_step f g = elim (Bool-cases (ltb e.capacity_bytes d.capacity_bytes)) [
    | inl lt ↦ subst (λ (b : Bool). P (smallest (if b then e else d) es)) (sym lt) (f lt)
    | inr ge ↦ subst (λ (b : Bool). P (smallest (if b then e else d) es)) (sym ge) (g ge)
  ]

  largest_step :
      (ltb d.capacity_bytes e.capacity_bytes ≡ true → P (largest e es))
      → (ltb d.capacity_bytes e.capacity_bytes ≡ false → P (largest d es))
      → P (largest d (e ∷ es))
  unfolding largest
  largest_step f g = elim (Bool-cases (ltb d.capacity_bytes e.capacity_bytes)) [
    | inl lt ↦ subst (λ (b : Bool). P (largest (if b then e else d) es)) (sym lt) (f lt)
    | inr ge ↦ subst (λ (b : Bool). P (largest (if b then e else d) es)) (sym ge) (g ge)
  ]

-- A drive of a list that stands in the order `rel` to each of them.
abbrev pub IsExtreme : (ℕ → ℕ → Type 0) → Drive → List Drive → Type 0
IsExtreme rel x ds = Member x ds × All (λ (d : Drive). rel x.capacity_bytes d.capacity_bytes) ds

abbrev pub AtMost : ℕ → ℕ → Type 0
AtMost m n = m ≤ n

abbrev pub AtLeast : ℕ → ℕ → Type 0
AtLeast m n = n ≤ m

-- A list with one more drive, at either place of the head.
keep_head :
    (rel : ℕ → ℕ → Type 0) (x d e : Drive) (es : List Drive)
    → (rel x.capacity_bytes d.capacity_bytes → rel x.capacity_bytes e.capacity_bytes)
    → IsExtreme rel x (d ∷ es)
    → IsExtreme rel x (d ∷ e ∷ es)
keep_head rel x d e es h (inl same, (near, far)) = (inl same, (near, (h near, far)))
keep_head rel x d e es h (inr m, (near, far)) = (inr (inr m), (near, (h near, far)))

take_head :
    (rel : ℕ → ℕ → Type 0) (x d e : Drive) (es : List Drive)
    → (rel x.capacity_bytes e.capacity_bytes → rel x.capacity_bytes d.capacity_bytes)
    → IsExtreme rel x (e ∷ es)
    → IsExtreme rel x (d ∷ e ∷ es)
take_head rel x d e es h (m, (near, far)) = (inr m, (h near, (near, far)))

pub smallest-IsExtreme : (d : Drive) (es : List Drive) → IsExtreme AtMost (smallest d es) (d ∷ es)
unfolding smallest
smallest-IsExtreme d [] = (inl refl, (omega arith, tt))
smallest-IsExtreme d (e ∷ es) =
    smallest_step d e es (λ x. IsExtreme AtMost x (d ∷ e ∷ es))
      (λ lt.
        take_head AtMost (smallest e es) d e es (λ h. ground (arith, h)) (smallest-IsExtreme e es))
      (λ ge.
        keep_head AtMost (smallest d es) d e es (λ h. ground (arith, h)) (smallest-IsExtreme d es))

pub largest-IsExtreme : (d : Drive) (es : List Drive) → IsExtreme AtLeast (largest d es) (d ∷ es)
unfolding largest
largest-IsExtreme d [] = (inl refl, (omega arith, tt))
largest-IsExtreme d (e ∷ es) =
    largest_step d e es (λ x. IsExtreme AtLeast x (d ∷ e ∷ es))
      (λ lt.
        take_head AtLeast (largest e es) d e es (λ h. ground (arith, h)) (largest-IsExtreme e es))
      (λ ge.
        keep_head AtLeast (largest d es) d e es (λ h. ground (arith, h)) (largest-IsExtreme d es))
