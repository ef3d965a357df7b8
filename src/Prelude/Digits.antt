-- ===== src/Prelude/Digits.antt =====
-- A number printed and read again.
use mathlib.Core.Path.{◌≡◌, refl, sym, ap, ◌∙◌}
use Prim.Native.Nat.{ℕ, zero, suc, ◌+◌, ◌*◌, ◌-◌, ◌/◌, ◌%◌, ◌<◌}
use mathlib.Core.Logic.{◌⊎◌, inl, inr}
use mathlib.Core.Bool.{Bool, true, false, ◌&&◌}
use mathlib.Core.Option.{some}
use Prim.Native.Char.{Char, code}
use Prim.Native.String.{[], ◌∷◌}
use native.Mathlib.Omega.{arith}
use Prim.Native.String.{String}
use clusterone.Prelude.Tests.{Bool-cases, eqb, ltb, ltb→lt}
use clusterone.Prelude.Text.{
  digit_from, drop_while, int_digits, is_digit, is_space, parse_int, pos, positive, print_digits,
  print_nat, signed_int, strip, trim_end,
}

digit_char : ℕ → Char
unfolding digit_from
digit_char n = digit_from "0123456789" n "0"

code-digit_char : (n : ℕ) → n < 10 → code (digit_char n) ≡ 48 + n
unfolding digit_char digit_from
code-digit_char zero h = refl
code-digit_char (suc zero) h = refl
code-digit_char (suc (suc zero)) h = refl
code-digit_char (suc (suc (suc zero))) h = refl
code-digit_char (suc (suc (suc (suc zero)))) h = refl
code-digit_char (suc (suc (suc (suc (suc zero))))) h = refl
code-digit_char (suc (suc (suc (suc (suc (suc zero)))))) h = refl
code-digit_char (suc (suc (suc (suc (suc (suc (suc zero))))))) h = refl
code-digit_char (suc (suc (suc (suc (suc (suc (suc (suc zero)))))))) h = refl
code-digit_char (suc (suc (suc (suc (suc (suc (suc (suc (suc zero))))))))) h = refl
code-digit_char (suc (suc (suc (suc (suc (suc (suc (suc (suc (suc n)))))))))) h =
    absurd (omega (arith, h))

int_digits_digit :
    (gap : Bool) (m n : ℕ) (s : String)
    → n < 10
    → int_digits gap m (digit_char n ∷ s) ≡ int_digits false (m * 10 + n) s
unfolding int_digits is_digit
int_digits_digit gap m n s h =
    let c = code-digit_char n h in
    let d : 48 + n - 48 ≡ n = omega arith in rw (c, d) (ground (arith, h))

-- The two sides of a digit more.
print_digits-cases :
    (f n : ℕ) (acc : String)
    → ((n < 10) × (print_digits (suc f) n acc ≡ digit_char n ∷ acc))
      ⊎ ((9 < n)
          × (print_digits (suc f) n acc ≡ print_digits f (n / 10) (digit_char (n % 10) ∷ acc)))
unfolding print_digits digit_char
print_digits-cases f n acc = elim (Bool-cases (ltb n 10)) [
  | inl lt ↦ inl (ltb→lt n 10 lt, rw lt refl)
  | inr ge ↦ inr (ground arith, rw ge refl)
]

-- The text of a number, read behind other digits.
int_digits-print_digits :
    (gap : Bool) (f n : ℕ) (acc : String)
    → n < f
    → int_digits gap 0 (print_digits f n acc) ≡ int_digits false n acc
int_digits-print_digits gap zero n acc h = absurd (omega (arith, h))
int_digits-print_digits gap (suc f) n acc h = elim (print_digits-cases f n acc) [
  | inl (small, e) ↦
      ap (int_digits gap 0) e
      ∙ int_digits_digit gap 0 n acc small
      ∙ ap (λ k. int_digits false k acc) (omega arith)
  | inr (large, e) ↦
      ap (int_digits gap 0) e
      ∙ int_digits-print_digits gap f (n / 10) (digit_char (n % 10) ∷ acc) (omega (arith, h, large))
      ∙ int_digits_digit false (n / 10) (n % 10) acc (omega arith)
      ∙ ap (λ (k : ℕ). int_digits false k acc) (omega arith)
]

unfoldable pub all_digits : String → Bool
unfolding is_digit
all_digits [] = true
all_digits (c ∷ s) = is_digit (code c) && all_digits s

all_digits_digit :
    (n : ℕ) (s : String) → n < 10 → all_digits s ≡ true → all_digits (digit_char n ∷ s) ≡ true
unfolding all_digits is_digit
all_digits_digit n s h e = let c = code-digit_char n h in rw (c, e) (ground (arith, h))

print_digits-all_digits :
    (f n : ℕ) (acc : String)
    → n < f
    → all_digits acc ≡ true
    → all_digits (print_digits f n acc) ≡ true
print_digits-all_digits zero n acc h a = absurd (omega (arith, h))
print_digits-all_digits (suc f) n acc h a = elim (print_digits-cases f n acc) [
  | inl (small, e) ↦ ap all_digits e ∙ all_digits_digit n acc small a
  | inr (large, e) ↦
      ap all_digits e
      ∙ print_digits-all_digits f (n / 10) (digit_char (n % 10) ∷ acc) (omega (arith, h, large))
          (all_digits_digit (n % 10) acc (omega arith) a)
]

-- A digit is no space and no sign.
digit_facts :
    (c : ℕ) → is_digit c ≡ true → (is_space c ≡ false) × (eqb c b'-' ≡ false) × (eqb c b'+' ≡ false)
unfolding is_digit is_space
digit_facts c h = (ground arith, ground arith, ground arith)

trim_end-digits : (s : String) → all_digits s ≡ true → trim_end is_space s ≡ s
unfolding trim_end all_digits
trim_end-digits [] h = refl
trim_end-digits (c ∷ s) h =
    let (space, _, _) = digit_facts (code c) (ground (arith, h)) in
    rw (space, trim_end-digits s (ground (arith, h))) refl

strip-digits : (s : String) → all_digits s ≡ true → strip s ≡ s
unfolding strip drop_while all_digits
strip-digits [] h = trim_end-digits [] refl
strip-digits (c ∷ s) h =
    let (space, _, _) = digit_facts (code c) (ground (arith, h)) in
    rw space (trim_end-digits (c ∷ s) h)

signed_int-digits :
    (s : String) → all_digits s ≡ true → signed_int s ≡ positive (int_digits true 0 s)
unfolding signed_int all_digits int_digits
signed_int-digits [] h = refl
signed_int-digits (c ∷ s) h =
    let (_, minus, plus) = digit_facts (code c) (ground (arith, h)) in rw (minus, plus) refl

-- A number that is printed is read as that number.
pub parse_int-print_nat : (n : ℕ) → parse_int (print_nat n) ≡ some (pos n)
unfolding parse_int print_nat int_digits all_digits
parse_int-print_nat n =
    let digits = print_digits-all_digits (suc n) n "" (omega arith) refl in
    ap signed_int (strip-digits (print_digits (suc n) n "") digits)
    ∙ signed_int-digits (print_digits (suc n) n "") digits
    ∙ ap positive (int_digits-print_digits true (suc n) n "" (omega arith))

pub print_nat-all_digits : (n : ℕ) → all_digits (print_nat n) ≡ true
unfolding print_nat all_digits
print_nat-all_digits n = print_digits-all_digits (suc n) n "" (omega arith) refl

pub print_nat_inj : (m n : ℕ) → print_nat m ≡ print_nat n → m ≡ n
print_nat_inj m n h =
    let same = sym (parse_int-print_nat m) ∙ ap parse_int h ∙ parse_int-print_nat n in
    ground (arith, same)
