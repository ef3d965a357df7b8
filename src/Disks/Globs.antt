-- ===== src/Disks/Globs.antt =====
-- `fnmatch.fnmatch` on texts whose case is folded already: the pattern is read into glyphs, and a
-- text is matched against them. A range inside brackets is read from the left.
use Prim.Native.Char.{code}
use Prim.Native.String.{[], ◌∷◌}
use clusterone.Prelude.{
  Bool, List, Option, String, eqb, false, if◌then◌else◌, is_empty, leb, none, not, partition, size,
  some, suc, true, zero, ℕ, ◌&&◌, ◌+◌, ◌||◌,
}

-- A set is negated or not, and holds what stands between the brackets.
pub data Glyph : Type 0 where
  any_run any_one : Glyph
  one : ℕ → Glyph
  set : Bool → String → Glyph

-- Whether a code point is in `a-cx`.
unfoldable pub in_set : String → ℕ → Bool
in_set [] n = false
in_set (a ∷ []) n = eqb (code a) n
in_set (a ∷ b ∷ []) n = eqb (code a) n || eqb (code b) n
in_set (a ∷ m ∷ b ∷ s) n = elim (eqb (code m) b'-') [
  | true ↦ (leb (code a) n && leb n (code b)) || in_set s n
  | false ↦ eqb (code a) n || in_set (m ∷ b ∷ s) n
]

unfoldable pub accepts : Glyph → ℕ → Bool
unfolding in_set
accepts any_run n = false
accepts any_one n = true
accepts (one m) n = eqb m n
accepts (set negated s) n = if negated then not (in_set s n) else in_set s n

-- What stands before the closing bracket. A bracket that comes first does not close.
closed : String → Option String
closed [] = none
closed (c ∷ s) =
    if eqb (code c) b']'
    then elim (partition "]" s) [ some (inside, _) ↦ some (c ∷ inside) | none ↦ none ]
    else elim (partition "]" (c ∷ s)) [ some (inside, _) ↦ some inside | none ↦ none ]

-- The set that opens here, and how many characters it has behind its opening bracket.
bracketed : String → Option (Glyph × ℕ)
unfolding closed
bracketed [] = none
bracketed (c ∷ s) =
    if eqb (code c) b'!'
    then elim (closed s) [ some inside ↦ some (set true inside, size inside + 2) | none ↦ none ]
    else elim (closed (c ∷ s)) [
      | some inside ↦ some (set false inside, size inside + 1)
      | none ↦ none
    ]

-- `skip` characters belong to the set before. An opening bracket that nothing closes is itself.
unfoldable pub glyphs_from : ℕ → String → List Glyph
unfolding bracketed
glyphs_from skip [] = List.[]
glyphs_from (suc k) (c ∷ s) = glyphs_from k s
glyphs_from zero (c ∷ s) = elim (eqb (code c) b'*') [
  | true ↦ List.◌∷◌ any_run (glyphs_from zero s)
  | false ↦ elim (eqb (code c) b'?') [
    | true ↦ List.◌∷◌ any_one (glyphs_from zero s)
    | false ↦ elim (if eqb (code c) b'[' then bracketed s else none) [
      | some (g, n) ↦ List.◌∷◌ g (glyphs_from n s)
      | none ↦ List.◌∷◌ (one (code c)) (glyphs_from zero s)
    ]
  ]
]

-- Whether some ending of the text passes.
unfoldable pub some_ending : (String → Bool) → String → Bool
some_ending k [] = k []
some_ending k (c ∷ s) = k (c ∷ s) || some_ending k s

unfoldable pub matches : List Glyph → String → Bool
unfolding some_ending accepts
matches List.[] s = is_empty s
matches (List.◌∷◌ any_run gs) s = some_ending (matches gs) s
matches (List.◌∷◌ any_one gs) [] = false
matches (List.◌∷◌ any_one gs) (c ∷ s) = accepts any_one (code c) && matches gs s
matches (List.◌∷◌ (one n) gs) [] = false
matches (List.◌∷◌ (one n) gs) (c ∷ s) = accepts (one n) (code c) && matches gs s
matches (List.◌∷◌ (set b t) gs) [] = false
matches (List.◌∷◌ (set b t) gs) (c ∷ s) = accepts (set b t) (code c) && matches gs s

-- `fnmatch.fnmatch(name, pattern)`
unfoldable pub fnmatch : String → String → Bool
unfolding glyphs_from matches
fnmatch name pattern_text = matches (glyphs_from 0 pattern_text) name
