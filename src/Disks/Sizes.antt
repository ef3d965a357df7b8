-- ===== src/Disks/Sizes.antt =====
-- `_parse_size_with_tolerance` and `_within_tolerance`. Python's floats are a type `Float` with the
-- operations that the code uses.
use Prim.Native.Char.{code}
use Prim.Native.String.{[], ◌∷◌}
use clusterone.Prelude.{
  false, not, ◌+◌, ◌-◌, Bool, Option, String, drop_end, ends_with, eqb, if◌then◌else◌, is_digit,
  is_empty, lstrip, none, partition, replace, some, strip, upper, ℕ, ◌&&◌, ◌<>◌, ◌==◌,
}
use clusterone.Exec.{Result, err, ok, raised}

-- `of_text` is `float(s)`; `times x n` is `int(x * n)`, which raises at an infinity; `within d n x`
-- is `d / n <= x`; `percent x` is the text of `int(x * 100)`, which raises at an infinity and at a
-- NaN; `gigabytes n` is `n / 10**9` to no decimal place.
pub record Floats (Float : Type 0) : Type 0 where
  pub of_text : String → Option Float
  pub tenth : Float
  pub over_100 : Float → Float
  pub times : Float → ℕ → Result ℕ
  pub within : ℕ → ℕ → Float → Bool
  pub percent : Float → Result String
  pub gigabytes : ℕ → String

-- The digits that a text starts with, and the rest.
digits : String → String × String
digits [] = ([], [])
digits (c ∷ s) =
    let (ds, rest) = digits s in if is_digit (code c) then (c ∷ ds, rest) else ([], c ∷ s)

-- `(?:\.\d+)?` behind the whole part: a point with no digit behind it is not taken.
point : String → String → String × String
unfolding digits is_digit
point whole [] = (whole, [])
point whole (c ∷ t) =
    let (part, rest) = digits t in
    if eqb (code c) b'.' && not (is_empty part)
    then (whole <> "." <> part, rest)
    else (whole, c ∷ t)

-- `$` matches before a newline that ends the text, too.
chomp : String → String
chomp s = if ends_with s "\n" then drop_end s else s

unit_bytes : String → Option ℕ
unit_bytes u =
    if u == "GB"
    then some 1000000000
    else if u == "TB"
    then some 1000000000000
    else if u == "MB"
    then some 1000000
    else none

-- `^(\d+(?:\.\d+)?)\s*(GB|TB|MB)$`: the number's text and the unit's bytes.
unfoldable pub quantity : String → Option (String × ℕ)
unfolding point digits is_digit chomp unit_bytes
quantity s =
    let (whole, rest) = digits s in
    let (amount, behind) = point whole rest in
    if is_empty whole then none else elim (unit_bytes (upper (chomp (lstrip behind)))) [
      | some n ↦ some (amount, n)
      | none ↦ none
    ]

module _ {Float : Type 0} (floats : Floats Float) where
  abbrev float : String → Result Float
  float s = elim (floats.of_text s) [
    | some x ↦ ok x
    | none ↦ err (raised "ValueError" ("could not convert string to float: '" <> s <> "'"))
  ]

  -- The text before the sign and the tolerance behind it.
  tolerance : String → Result (String × Float)
  tolerance s = elim (partition "±" s) [
    | none ↦ ok (s, floats.tenth)
    | some (before, after) ↦ elim (float (if ends_with after "%" then drop_end after else after)) [
      | ok x ↦ ok (before, floats.over_100 x)
      | err e ↦ err e
    ]
  ]

  unfoldable pub parse_size_with_tolerance : String → Result (ℕ × Float)
  unfolding tolerance quantity
  parse_size_with_tolerance spec = elim (tolerance (replace " " "" (strip spec))) [
    | err e ↦ err e
    | ok (s, tol) ↦ elim (quantity s) [
      | none ↦ err (raised "ValueError" ("Cannot parse size '" <> spec <> "'"))
      | some (amount, n) ↦ elim (float amount) [
        | err e ↦ err e
        | ok x ↦ elim (floats.times x n) [ err e ↦ err e | ok target ↦ ok (target, tol) ]
      ]
    ]
  ]

  -- `abs(actual - target)`
  abbrev distance : ℕ → ℕ → ℕ
  distance a b = (a - b) + (b - a)

  unfoldable pub within_tolerance : ℕ → ℕ → Float → Bool
  within_tolerance actual target tol =
      if eqb target 0 then false else floats.within (distance actual target) target tol
