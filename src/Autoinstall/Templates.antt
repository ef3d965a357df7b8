-- ===== src/Autoinstall/Templates.antt =====
-- `string.Template.safe_substitute`, over a context of names and values. `$$` is a dollar, `$name`
-- and `${name}` are a value, and every other text stands for itself.
use Prim.Native.Char.{code}
use Prim.Native.String.{[], ◌∷◌}
use clusterone.Prelude.{
  Bool, List, Option, String, [], eqb, find, if◌then◌else◌, is_digit, is_empty, leb, none, not,
  or_else, size, some, starts_with, strip_prefix, suc, zero, ℕ, ◌&&◌, ◌+◌, ◌<>◌, ◌==◌, ◌||◌, ◌∷◌,
}

abbrev pub Context : Type 0
Context = List (String × String)

unfoldable pub value_of : String → Context → Option String
value_of name ctx = elim (find (λ (entry : String × String). entry.0 == name) ctx) [
  | none ↦ none
  | some entry ↦ some entry.1
]

-- `[_a-z]` and `[_a-z0-9]`, under `re.IGNORECASE` on ASCII.
unfoldable pub starts_name : ℕ → Bool
starts_name c = eqb c b'_' || (leb 97 c && leb c 122) || (leb 65 c && leb c 90)

unfoldable pub in_name : ℕ → Bool
unfolding starts_name is_digit
in_name c = starts_name c || is_digit c

-- The name that a text starts with, empty for none.
unfoldable pub name_run : String → String
unfolding in_name
name_run [] = []
name_run (c ∷ s) = if in_name (code c) then c ∷ name_run s else []

unfoldable pub name_at : String → String
unfolding name_run starts_name
name_at [] = []
name_at (c ∷ s) = if starts_name (code c) then c ∷ name_run s else []

-- The name between the braces that a text starts with.
unfoldable pub braced_at : String → String
unfolding name_at strip_prefix
braced_at s = elim (strip_prefix "{" s) [
  | none ↦ []
  | some t ↦ if starts_with s ("{" <> name_at t <> "}") then name_at t else []
]

-- `skip` characters of a match are passed over.
unfoldable pub substitute_from : Context → ℕ → String → String
unfolding value_of name_at braced_at starts_with
substitute_from ctx skip [] = []
substitute_from ctx (suc k) (c ∷ s) = substitute_from ctx k s
substitute_from ctx zero (c ∷ s) =
    let plain = substitute_from ctx zero s in
    let escaped = substitute_from ctx 1 s in
    let name = name_at s in
    let named = substitute_from ctx (size name) s in
    let inner = braced_at s in
    let braced = substitute_from ctx (size inner + 2) s in
    if not (eqb (code c) b'$')
    then c ∷ plain
    else if starts_with s "$"
    then c ∷ escaped
    else if not (is_empty name)
    then or_else (value_of name ctx) ("$" <> name) <> named
    else if not (is_empty inner)
    then or_else (value_of inner ctx) ("${" <> inner <> "}") <> braced
    else c ∷ plain

unfoldable pub safe_substitute : Context → String → String
unfolding substitute_from
safe_substitute ctx body = substitute_from ctx zero body
