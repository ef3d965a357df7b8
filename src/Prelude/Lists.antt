-- ===== src/Prelude/Lists.antt =====
-- Lists measured by native numbers, searched and filtered by Boolean tests.
use Prim.Native.Nat.{ℕ, zero, suc, ◌+◌}
use mathlib.Core.Path.{◌≡◌, refl, sym, ap, subst, ◌∙◌}
use mathlib.Core.Bool.{Bool, true, false, ◌&&◌, ◌||◌}
use mathlib.Core.Option.{Option, none, some}
use mathlib.Core.List.{List, [], ◌∷◌, ◌++◌}
use native.Mathlib.Omega.{arith}
use Prim.Native.String.{String}
use text.Mathlib.Text.{◌==◌}
use clusterone.Prelude.Tests.{if◌then◌else◌, eqb, Bool-cases}
use mathlib.Core.Logic.{◌⊎◌, inl, inr}

module _ {ℓ} {A : Type ℓ} where
  abbrev pub length : List A → ℕ
  length [] = 0
  length (x ∷ xs) = suc (length xs)

  abbrev pub any : (A → Bool) → List A → Bool
  any p [] = false
  any p (x ∷ xs) = p x || any p xs

  abbrev pub all : (A → Bool) → List A → Bool
  all p [] = true
  all p (x ∷ xs) = p x && all p xs

  -- `[x for x in xs if p(x)]`
  abbrev pub select : (A → Bool) → List A → List A
  select p [] = []
  select p (x ∷ xs) = if p x then x ∷ select p xs else select p xs

  -- `next((x for x in xs if p(x)), None)`
  abbrev pub find : (A → Bool) → List A → Option A
  find p [] = none
  find p (x ∷ xs) = if p x then some x else find p xs

  -- `sum(1 for x in xs if p(x))`
  abbrev pub count : (A → Bool) → List A → ℕ
  count p [] = 0
  count p (x ∷ xs) = (if p x then 1 else 0) + count p xs

  abbrev pub replicate : ℕ → A → List A
  replicate zero a = []
  replicate (suc n) a = a ∷ replicate n a

  abbrev pub take : ℕ → List A → List A
  take zero xs = []
  take (suc n) [] = []
  take (suc n) (x ∷ xs) = x ∷ take n xs

  abbrev pub get_elem? : List A → ℕ → Option A
  get_elem? [] i = none
  get_elem? (x ∷ xs) zero = some x
  get_elem? (x ∷ xs) (suc i) = get_elem? xs i

  -- `x or y` on optional values
  abbrev pub or_else : Option A → A → A
  or_else none d = d
  or_else (some a) d = a

  abbrev pub is_some : Option A → Bool
  is_some none = false
  is_some (some a) = true

  pub length-append : (xs ys : List A) → length (xs ++ ys) ≡ length xs + length ys
  length-append [] ys = omega arith
  length-append (x ∷ xs) ys = omega (arith, length-append xs ys)

-- A predicate of every item.
abbrev pub All {ℓ κ} : {A : Type ℓ} → (A → Type κ) → List A → Type κ
All P [] = Unit
All P (x ∷ xs) = P x × All P xs

pub All-map {ℓ κ μ} :
    {A : Type ℓ} {P : A → Type κ} {Q : A → Type μ} (xs : List A)
    → All P xs
    → ((a : A) → P a → Q a)
    → All Q xs
All-map [] h f = tt
All-map (x ∷ xs) h f = (f x h.0, All-map xs h.1 f)

-- `x in xs`, on texts and on numbers
abbrev pub contains : String → List String → Bool
contains a xs = any (λ x. x == a) xs

abbrev pub has_number : ℕ → List ℕ → Bool
has_number a xs = any (λ x. eqb x a) xs

-- An item of a list.
abbrev pub Member : {A : Type 0} → A → List A → Type 0
Member a [] = ⊥
Member a (x ∷ xs) = (a ≡ x) ⊎ Member a xs

select_cons :
    {A : Type 0} (p : A → Bool) (x : A) (xs : List A)
    → ((p x ≡ true) × (select p (x ∷ xs) ≡ x ∷ select p xs))
      ⊎ ((p x ≡ false) × (select p (x ∷ xs) ≡ select p xs))
select_cons p x xs = elim (Bool-cases (p x)) [ inl e ↦ inl (e, rw e) | inr e ↦ inr (e, rw e) ]

pub select-Member :
    {A : Type 0} (p : A → Bool) (a : A) (xs : List A)
    → Member a (select p xs)
    → Member a xs × (p a ≡ true)
select-Member p a [] h = absurd h
select-Member p a (x ∷ xs) h = elim (select_cons p x xs) [
  | inl (e, kept) ↦ elim (subst (Member a) kept h) [
    | inl same ↦ (inl same, ap p same ∙ e)
    | inr m ↦ let (n, t) = select-Member p a xs m in (inr n, t)
  ]
  | inr (e, dropped) ↦ let (n, t) = select-Member p a xs (subst (Member a) dropped h) in (inr n, t)
]

pub Member-select :
    {A : Type 0} (p : A → Bool) (a : A) (xs : List A)
    → Member a xs
    → p a ≡ true
    → Member a (select p xs)
Member-select p a [] h t = absurd h
Member-select p a (x ∷ xs) h t = elim (select_cons p x xs) [
  | inl (e, kept) ↦
      subst (Member a) (sym kept)
        (elim h [ inl same ↦ inl same | inr m ↦ inr (Member-select p a xs m t) ])
  | inr (e, dropped) ↦
      subst (Member a) (sym dropped) (elim h [
        | inl same ↦ absurd (ground (arith, ap p same))
        | inr m ↦ Member-select p a xs m t
      ])
]

pub All-Member {κ} :
    {A : Type 0} {P : A → Type κ} (xs : List A) → ((a : A) → Member a xs → P a) → All P xs
All-Member [] h = tt
All-Member (x ∷ xs) h = (h x (inl refl), All-Member xs (λ a m. h a (inr m)))
