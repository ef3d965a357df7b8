-- ===== src/Prelude/Prefixes.antt =====
-- A text behind its prefix.
use Prim.Native.Char.{Char, code}
use Prim.Native.String.{String, [], ◌∷◌}
use mathlib.Core.Path.{◌≡◌, Path, refl, sym, ap, ◌∙◌}
use mathlib.Core.Bool.{true}
use mathlib.Core.Option.{some}
use native.Mathlib.Omega.{arith}
use text.Mathlib.TextLemmas.{nil-append, cons-append}
use text.Mathlib.TextEquality.{Char-path}
use clusterone.Prelude.Tests.{eqb, eqb_iff}
use clusterone.Prelude.Text.{strip_prefix, ◌<>◌}

pub char_eq : (c d : Char) → eqb (code c) (code d) ≡ true → c ≡ d
char_eq c d h = Char-path c d ((eqb_iff (code c) (code d)).0 h)

pub strip_prefix-append : (p t : String) → strip_prefix p (p <> t) ≡ some t
unfolding strip_prefix
strip_prefix-append [] t = ap some (nil-append t)
strip_prefix-append (c ∷ p) t =
    let same = (eqb_iff (code c) (code c)).1 refl in
    ap (strip_prefix (c ∷ p)) (cons-append c p t) ∙ rw same (strip_prefix-append p t)

same_head : (c d : Char) (s p t : String) → c ≡ d → s ≡ p <> t → Path String (d ∷ s) ((c ∷ p) <> t)
same_head c d s p t h e =
    ap (λ (x : Char). x ∷ s) (sym h) ∙ ap (λ (x : String). c ∷ x) e ∙ sym (cons-append c p t)

pub append-strip_prefix : (p s t : String) → strip_prefix p s ≡ some t → s ≡ p <> t
unfolding strip_prefix
append-strip_prefix [] s t h = ground (arith, h) ∙ sym (nil-append t)
append-strip_prefix (c ∷ p) [] t h = absurd (ground (arith, h))
append-strip_prefix (c ∷ p) (d ∷ s) t h =
    same_head c d s p t (char_eq c d (ground (arith, h)))
      (append-strip_prefix p s t (ground (arith, h)))
