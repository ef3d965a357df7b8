-- ===== src/Prelude/Text.antt =====
-- Python's `str` methods that the program calls, over code points. `lower` and `upper` map the
-- ASCII characters and leave every other character alone.
use Prim.Native.Nat.{ℕ, zero, suc, ◌+◌, ◌*◌, ◌-◌, ◌/◌, ◌%◌}
use Prim.Native.Char.{Char, code}
use Prim.Native.String
use Prim.Native.String.{String, [], ◌∷◌}
use mathlib.Core.Bool.{Bool, true, false, not, ◌&&◌, ◌||◌}
use mathlib.Core.List.{List}
use mathlib.Core.Option.{Option, none, some}
use text.Mathlib.Text.{◌==◌}
use clusterone.Prelude.Tests.{leb, ltb, eqb, if◌then◌else◌}

infixr 65 ◌<>◌
abbrev pub ◌<>◌ : String → String → String
s <> t = String.◌++◌ s t

-- `if s` on a text.
abbrev pub is_empty : String → Bool
is_empty [] = true
is_empty (c ∷ s) = false

-- The character that stands in the second text where `c` stands in the first.
swap_char : String → String → Char → Char
swap_char [] to c = c
swap_char (f ∷ from) [] c = c
swap_char (f ∷ from) (t ∷ to) c = if eqb (code f) (code c) then t else swap_char from to c

unfoldable pub lower : String → String
unfolding swap_char
lower [] = []
lower (c ∷ s) = swap_char "ABCDEFGHIJKLMNOPQRSTUVWXYZ" "abcdefghijklmnopqrstuvwxyz" c ∷ lower s

unfoldable pub upper : String → String
unfolding swap_char
upper [] = []
upper (c ∷ s) = swap_char "abcdefghijklmnopqrstuvwxyz" "ABCDEFGHIJKLMNOPQRSTUVWXYZ" c ∷ upper s

-- What `str.isspace` says of a code point.
unfoldable pub is_space : ℕ → Bool
is_space c =
    (leb 9 c && leb c 13)
    || (leb 28 c && leb c 32)
    || eqb c 133
    || eqb c 160
    || eqb c 5760
    || (leb 8192 c && leb c 8202)
    || eqb c 8232
    || eqb c 8233
    || eqb c 8239
    || eqb c 8287
    || eqb c 12288

unfoldable pub drop_while : (ℕ → Bool) → String → String
drop_while p [] = []
drop_while p (c ∷ s) = if p (code c) then drop_while p s else c ∷ s

unfoldable pub trim_end : (ℕ → Bool) → String → String
trim_end p [] = []
trim_end p (c ∷ s) = let rest = trim_end p s in if p (code c) && is_empty rest then [] else c ∷ rest

-- `s.strip()`
unfoldable pub strip : String → String
unfolding is_space drop_while trim_end
strip s = trim_end is_space (drop_while is_space s)

-- `s.rstrip("/")` and the like
unfoldable pub rstrip : ℕ → String → String
unfolding trim_end
rstrip c s = trim_end (λ d. eqb d c) s

-- The text behind a prefix, if it is one.
unfoldable pub strip_prefix : String → String → Option String
strip_prefix [] s = some s
strip_prefix (p ∷ ps) [] = none
strip_prefix (p ∷ ps) (c ∷ s) = if eqb (code p) (code c) then strip_prefix ps s else none

abbrev found : Option String → Bool
found none = false
found (some s) = true

-- `s.startswith(p)`
unfoldable pub starts_with : String → String → Bool
unfolding strip_prefix
starts_with s p = found (strip_prefix p s)

-- `p in s`
unfoldable pub has_text : String → String → Bool
unfolding starts_with
has_text [] p = starts_with [] p
has_text (c ∷ s) p = starts_with (c ∷ s) p || has_text s p

-- `s.replace(old, new)` for an `old` that is not empty: after a match its other characters are
-- passed over.
replace_from : ℕ → String → String → String → String
replace_from skip old new [] = []
replace_from (suc k) old new (c ∷ s) = replace_from k old new s
replace_from zero old new (c ∷ s) =
    let matched = replace_from (String.count old - 1) old new s in
    let plain = replace_from zero old new s in
    if starts_with (c ∷ s) old then new <> matched else c ∷ plain

unfoldable pub replace : String → String → String → String
unfolding replace_from starts_with
replace old new s = replace_from zero old new s

-- The text behind the last `/`, which is `s.rsplit("/", 1)[-1]`.
unfoldable pub last_segment : String → String
unfolding has_text
last_segment [] = []
last_segment (c ∷ s) =
    let rest = last_segment s in
    if has_text s "/" then rest else if eqb (code c) b'/' then s else c ∷ s

-- `s.endswith(p)`
unfoldable pub ends_with : String → String → Bool
ends_with [] p = [] == p
ends_with (c ∷ s) p = (c ∷ s) == p || ends_with s p

abbrev pub push_front : Char → String × String → String × String
push_front c (before, after) = (c ∷ before, after)

-- `s.partition(sep)`: what stands before and behind the first separator.
unfoldable pub partition : String → String → Option (String × String)
unfolding strip_prefix
partition sep [] = elim (strip_prefix sep []) [ some r ↦ some ([], r) | none ↦ none ]
partition sep (c ∷ s) =
    let later = partition sep s in
    elim (strip_prefix sep (c ∷ s)) [
      | some r ↦ some ([], r)
      | none ↦ elim later [ some p ↦ some (push_front c p) | none ↦ none ]
    ]

unfoldable pub digit_from : String → ℕ → Char → Char
digit_from [] n d = d
digit_from (c ∷ s) zero d = c
digit_from (c ∷ s) (suc n) d = digit_from s n d

-- The digits of a number before a text, on fuel above the number.
unfoldable pub print_digits : ℕ → ℕ → String → String
print_digits zero n acc = acc
print_digits (suc f) n acc =
    let rest = print_digits f (n / 10) (digit_from "0123456789" (n % 10) "0" ∷ acc) in
    if ltb n 10 then digit_from "0123456789" n "0" ∷ acc else rest

-- `str(n)`
unfoldable pub print_nat : ℕ → String
unfolding digit_from print_digits
print_nat n = print_digits (suc n) n ""

unfoldable pub is_digit : ℕ → Bool
is_digit c = leb 48 c && leb c 57

-- `s[:n]`
abbrev pub take_chars : ℕ → String → String
take_chars zero s = []
take_chars (suc n) [] = []
take_chars (suc n) (c ∷ s) = c ∷ take_chars n s

-- `s.lstrip()`
unfoldable pub lstrip : String → String
unfolding is_space drop_while
lstrip s = drop_while is_space s

-- `s[:-1]`
abbrev pub drop_end : String → String
drop_end [] = []
drop_end (c ∷ []) = []
drop_end (c ∷ d ∷ s) = c ∷ drop_end (d ∷ s)

-- `len(s)`
abbrev pub size : String → ℕ
size [] = 0
size (c ∷ s) = suc (size s)

-- Whether `s.encode("ascii")` succeeds.
abbrev pub is_ascii : String → Bool
is_ascii [] = true
is_ascii (c ∷ s) = ltb (code c) 128 && is_ascii s

-- Python's whole numbers.
pub data ℤ : Type 0 where
  pos : ℕ → ℤ
  negsuc : ℕ → ℤ

abbrev negate : Option ℕ → Option ℤ
negate none = none
negate (some zero) = some (pos 0)
negate (some (suc n)) = some (negsuc n)

abbrev pub positive : Option ℕ → Option ℤ
positive none = none
positive (some n) = some (pos n)

-- Digits with single underscores between them; `gap` says that a digit has to follow.
unfoldable pub int_digits : Bool → ℕ → String → Option ℕ
unfolding is_digit
int_digits gap n [] = if gap then none else some n
int_digits gap n (c ∷ s) =
    let read = int_digits false (n * 10 + (code c - 48)) s in
    let skip = int_digits true n s in
    if is_digit (code c) then read else if eqb (code c) b'_' && not gap then skip else none

unfoldable pub signed_int : String → Option ℤ
unfolding int_digits
signed_int [] = none
signed_int (c ∷ s) =
    if eqb (code c) b'-'
    then negate (int_digits true 0 s)
    else if eqb (code c) b'+'
    then positive (int_digits true 0 s)
    else positive (int_digits true 0 (c ∷ s))

-- `int(s)` on a text; `none` is the ValueError. Python knows the digits of other scripts and stops
-- at 4,300 digits, too.
unfoldable pub parse_int : String → Option ℤ
unfolding signed_int strip
parse_int s = signed_int (strip s)

-- `int(s)` where a number is a natural one; a negative number is outside of what is modelled.
unfoldable pub parse_nat : String → Option ℕ
unfolding parse_int
parse_nat s = elim (parse_int s) [
  | none ↦ none
  | some z ↦ elim z [ pos n ↦ some n | negsuc n ↦ none ]
]

-- The texts of one character that a text gives to a loop.
unfoldable pub characters : String → List String
characters [] = List.[]
characters (c ∷ s) = List.◌∷◌ (c ∷ []) (characters s)
