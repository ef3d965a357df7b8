-- ===== src/Serving/Messages.antt =====
-- The text that a signature is of, `resource:identifier:expiry`, tells the three apart.
use Prim.Native.Char.{Char, code}
use Prim.Native.String.{[], ◌∷◌}
use clusterone.Serving.{signed_message}
use text.Mathlib.TextLemmas.{nil-append, cons-append, head-eq_of_cons-eq, tail-eq_of_cons-eq}
use clusterone.Prelude.{
  Bool, String, all_digits, ap, arith, eqb, false, is_digit, not, print_nat, print_nat-all_digits,
  print_nat_inj, refl, sym, true, ℕ, ◌&&◌, ◌<>◌, ◌∙◌, ◌≡◌,
}

-- Whether a text has no colon.
unfoldable pub no_colon : String → Bool
no_colon [] = true
no_colon (c ∷ s) = not (eqb (code c) b':') && no_colon s

cong_cons : {c d : Char} {s t : String} → c ≡ d → s ≡ t → c ∷ s ≡ d ∷ t
cong_cons {c} {d} {s} {t} h k = ap (λ x. x ∷ s) h ∙ ap (λ x. d ∷ x) k

colon-append : (s : String) → ":" <> s ≡ ":" ∷ s
colon-append s = cons-append ":" "" s ∙ ap (λ (t : String). ":" ∷ t) (nil-append s)

empty_front : (x : String) → "" <> ":" <> x ≡ ":" ∷ x
empty_front x = nil-append (":" <> x) ∙ colon-append x

colon_inside : (s t : String) → no_colon (s <> ":" <> t) ≡ false
unfolding no_colon
colon_inside [] t = ap no_colon (empty_front t)
colon_inside (c ∷ s) t =
    ap no_colon (cons-append c s (":" <> t)) ∙ rw (colon_inside s t) (ground arith)

-- A text that starts with a colon is no other that has none before its first.
head_is_colon :
    (c : Char) (s x y : String) → no_colon (c ∷ s) ≡ true → ":" ∷ x ≡ c ∷ (s <> ":" <> y) → ⊥
unfolding no_colon
head_is_colon c s x y h e = let same = ap code (head-eq_of_cons-eq e) in ground (arith, h, same)

-- The texts on the two sides of a colon, where those before it have none.
split_first :
    (r s x y : String)
    → no_colon r ≡ true
    → no_colon s ≡ true
    → r <> ":" <> x ≡ s <> ":" <> y
    → (r ≡ s) × (x ≡ y)
unfolding no_colon
split_first [] [] x y h k e = (refl, tail-eq_of_cons-eq (sym (empty_front x) ∙ e ∙ empty_front y))
split_first [] (d ∷ s) x y h k e =
    absurd (head_is_colon d s x y k (sym (empty_front x) ∙ e ∙ cons-append d s (":" <> y)))
split_first (c ∷ r) [] x y h k e =
    absurd (head_is_colon c r y x h (sym (empty_front y) ∙ sym e ∙ cons-append c r (":" <> x)))
split_first (c ∷ r) (d ∷ s) x y h k e =
    let both = sym (cons-append c r (":" <> x)) ∙ e ∙ cons-append d s (":" <> y) in
    let (same, rest) =
      split_first r s x y (ground (arith, h)) (ground (arith, k)) (tail-eq_of_cons-eq both) in
    (cong_cons (head-eq_of_cons-eq both) same, rest)

-- A text behind a colon that has none is no text that has one.
tail_has_colon : (s p q : String) → no_colon p ≡ true → p ≡ s <> ":" <> q → ⊥
tail_has_colon s p q h e = ground (arith, h, ap no_colon e, colon_inside s q)

-- The texts on the two sides of a colon, where those behind it have none.
split_last :
    (i j p q : String)
    → no_colon p ≡ true
    → no_colon q ≡ true
    → i <> ":" <> p ≡ j <> ":" <> q
    → (i ≡ j) × (p ≡ q)
split_last [] [] p q h k e = (refl, tail-eq_of_cons-eq (sym (empty_front p) ∙ e ∙ empty_front q))
split_last [] (d ∷ j) p q h k e = absurd (
    tail_has_colon j p q h
      (tail-eq_of_cons-eq (sym (empty_front p) ∙ e ∙ cons-append d j (":" <> q))))
split_last (c ∷ i) [] p q h k e = absurd (
    tail_has_colon i q p k
      (tail-eq_of_cons-eq (sym (empty_front q) ∙ sym e ∙ cons-append c i (":" <> p))))
split_last (c ∷ i) (d ∷ j) p q h k e =
    let both = sym (cons-append c i (":" <> p)) ∙ e ∙ cons-append d j (":" <> q) in
    let (same, rest) = split_last i j p q h k (tail-eq_of_cons-eq both) in
    (cong_cons (head-eq_of_cons-eq both) same, rest)

digits-no_colon : (s : String) → all_digits s ≡ true → no_colon s ≡ true
unfolding all_digits no_colon is_digit
digits-no_colon [] h = refl
digits-no_colon (c ∷ s) h = rw (digits-no_colon s (ground (arith, h))) (ground (arith, h))

print_nat-no_colon : (n : ℕ) → no_colon (print_nat n) ≡ true
print_nat-no_colon n = digits-no_colon (print_nat n) (print_nat-all_digits n)

-- Equal messages are of one resource, one identifier and one expiry, where no resource has a colon.
pub signed_message_inj :
    (r s i j : String) (m n : ℕ)
    → no_colon r ≡ true
    → no_colon s ≡ true
    → signed_message r i m ≡ signed_message s j n
    → (r ≡ s) × (i ≡ j) × (m ≡ n)
signed_message_inj r s i j m n h k e =
    let (same, rest) = split_first r s (i <> ":" <> print_nat m) (j <> ":" <> print_nat n) h k e in
    let (id, exp) =
      split_last i j (print_nat m) (print_nat n) (print_nat-no_colon m) (print_nat-no_colon n)
        rest in
    (same, id, print_nat_inj m n exp)
