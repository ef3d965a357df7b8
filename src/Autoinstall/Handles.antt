-- ===== src/Autoinstall/Handles.antt =====
-- The texts that are taken for a device, told by their shape.
use Prim.Native.Char.{Char, code}
use Prim.Native.String.{[], ◌∷◌}
use text.Mathlib.TextLemmas.{nil-append, cons-append}
use clusterone.Prelude.{
  Bool, Option, Option-cases, String, [], all_digits, ap, append-strip_prefix, arith, char_eq, eqb,
  false, if◌then◌else◌, inl, inr, is_digit, is_empty, none, or_else, partition, push_front, refl,
  some, starts_with, strip_prefix, strip_prefix-append, sym, true, ◌<>◌, ◌||◌, ◌↔◌, ◌∙◌, ◌∷◌, ◌≡◌,
  ◌⊎◌,
}
use clusterone.Autoinstall.{
  all_lower, device_re, digit_pair, is_abs, is_device, letters, namespaced, tail_digits,
}

-- A text of digits, a text of small letters, neither empty.
abbrev pub Digits : String → Type 0
Digits s = (is_empty s ≡ false) × (all_digits s ≡ true)

abbrev pub Letters : String → Type 0
Letters s = (is_empty s ≡ false) × (all_lower s ≡ true)

pub data IsDeviceText (s : String) : Type 0 where
  absolute : (path : String) → s ≡ "/dev/" <> path → IsDeviceText s
  nvme :
      (drive space : String)
      → s ≡ "nvme" <> drive <> "n" <> space
      → Digits drive
      → Digits space
      → IsDeviceText s
  sd : (letters : String) → s ≡ "sd" <> letters → Letters letters → IsDeviceText s
  vd : (letters : String) → s ≡ "vd" <> letters → Letters letters → IsDeviceText s

abbrev shifted : Char → Option (String × String) → Option (String × String)
shifted c none = none
shifted c (some p) = some (push_front c p)

cut :
    (b : Bool) (c : Char) (s : String) (later : Option (String × String)) → Option (String × String)
cut b c s later = elim (if b then some s else none) [
  | some r ↦ some ([], r)
  | none ↦ elim later [ some p ↦ some (push_front c p) | none ↦ none ]
]

-- One character of a text that is cut at an `n`.
cut_at :
    (c : Char) (s : String) (later : Option (String × String)) (b : Bool)
    → eqb (code "n") (code c) ≡ b
    → ((c ≡ "n") × (cut b c s later ≡ some ([], s)))
      ⊎ ((eqb (code "n") (code c) ≡ false) × (cut b c s later ≡ shifted c later))
unfolding cut
cut_at c s later true h = inl (sym (char_eq "n" c h), refl)
cut_at c s none false h = inr (h, refl)
cut_at c s (some p) false h = inr (h, refl)

partition-cases :
    (c : Char) (s : String)
    → ((c ≡ "n") × (partition "n" (c ∷ s) ≡ some ([], s)))
      ⊎ ((eqb (code "n") (code c) ≡ false) × (partition "n" (c ∷ s) ≡ shifted c (partition "n" s)))
unfolding partition strip_prefix cut
partition-cases c s = cut_at c s (partition "n" s) (eqb (code "n") (code c)) refl

-- The digits before an `n` end at it.
partition-append :
    (a b : String) → all_digits a ≡ true → partition "n" (a <> "n" <> b) ≡ some (a, b)
unfolding partition all_digits strip_prefix is_digit
partition-append [] b h =
    ap (partition "n")
      (nil-append ("n" <> b) ∙ cons-append "n" "" b ∙ ap (λ (x : String). "n" ∷ x) (nil-append b))
partition-append (c ∷ a) b h = elim (partition-cases c (a <> "n" <> b)) [
  | inl (same, _) ↦ absurd (ground (arith, h, ap code same))
  | inr (_, e) ↦
      ap (partition "n") (cons-append c a ("n" <> b))
      ∙ e
      ∙ ap (shifted c) (partition-append a b (ground (arith, h)))
]

pair_of : {p q : String × String} → some p ≡ some q → p ≡ q
pair_of {p} h = ap (λ o. or_else o p) h

-- The two sides of the first `n`, put together.
abbrev joined : String × String → String
joined p = p.0 <> "n" <> p.1

append-partition : (s : String) (p : String × String) → partition "n" s ≡ some p → s ≡ joined p
unfolding partition
append-partition [] p h = absurd (ground (arith, h))
append-partition (c ∷ s) p h = elim (partition-cases c s) [
  | inl (same, e) ↦
      ap (λ (x : Char). x ∷ s) same
      ∙ sym (
          nil-append ("n" <> s)
          ∙ cons-append "n" "" s
          ∙ ap (λ (x : String). "n" ∷ x) (nil-append s))
      ∙ ap joined (pair_of (sym e ∙ h))
  | inr (_, e) ↦ elim (Option-cases (partition "n" s)) [
    | inl gone ↦ absurd (ground (arith, sym h ∙ e ∙ ap (shifted c) gone))
    | inr (q, found) ↦
        ap (λ (x : String). c ∷ x) (append-partition s q found)
        ∙ sym (cons-append c q.0 ("n" <> q.1))
        ∙ ap joined (pair_of (sym (ap (shifted c) found) ∙ sym e ∙ h))
  ]
]

-- The tests of the regular expression, read as shapes.
letters_cases : (o : Option String) → letters o ≡ true → (t : String) × (o ≡ some t) × Letters t
unfolding letters
letters_cases none h = absurd (ground (arith, h))
letters_cases (some t) h = (t, refl, (ground (arith, h), ground (arith, h)))

letters_of : (o : Option String) (t : String) → o ≡ some t → Letters t → letters o ≡ true
unfolding letters
letters_of o t h (full, small) = ap letters h ∙ rw (full, small) refl

digit_pair_cases :
    (o : Option (String × String))
    → digit_pair o ≡ true
    → (p : String × String) × (o ≡ some p) × Digits p.0 × Digits p.1
unfolding digit_pair tail_digits
digit_pair_cases none h = absurd (ground (arith, h))
digit_pair_cases (some p) h =
    (p, refl, (ground (arith, h), ground (arith, h)), (ground (arith, h), ground (arith, h)))

namespaced_cases :
    (o : Option String)
    → namespaced o ≡ true
    → (t : String) × (p : String × String) × (o ≡ some t) × (t ≡ joined p) × Digits p.0 × Digits p.1
unfolding namespaced
namespaced_cases none h = absurd (ground (arith, h))
namespaced_cases (some t) h =
    let (p, found, whole, part) = digit_pair_cases (partition "n" t) h in
    (t, p, refl, append-partition t p found, whole, part)

namespaced_of :
    (o : Option String) (a b : String)
    → o ≡ some (a <> "n" <> b)
    → Digits a
    → Digits b
    → namespaced o ≡ true
unfolding namespaced digit_pair tail_digits
namespaced_of o a b h (fa, da) (fb, db) =
    ap namespaced h ∙ ap digit_pair (partition-append a b da) ∙ rw (fa, da, fb, db) refl

or_cases : (a b : Bool) → a || b ≡ true → (a ≡ true) ⊎ (b ≡ true)
or_cases true b h = inl refl
or_cases false b h = inr h

prefix_found : (p s t : String) → s ≡ p <> t → strip_prefix p s ≡ some t
prefix_found p s t h = ap (strip_prefix p) h ∙ strip_prefix-append p t

absolute_of : (s : String) → is_abs s ≡ true → IsDeviceText s
unfolding starts_with
absolute_of s h = elim (Option-cases (strip_prefix "/dev/" s)) [
  | inl gone ↦ absurd (ground (arith, h, gone))
  | inr (path, e) ↦ absolute path (append-strip_prefix "/dev/" s path e)
]

letters-IsDeviceText :
    (p s : String)
    → ((t : String) → s ≡ p <> t → Letters t → IsDeviceText s)
    → letters (strip_prefix p s) ≡ true
    → IsDeviceText s
letters-IsDeviceText p s make h =
    let (t, e, small) = letters_cases (strip_prefix p s) h in
    make t (append-strip_prefix p s t e) small

nvme-IsDeviceText : (s : String) → namespaced (strip_prefix "nvme" s) ≡ true → IsDeviceText s
nvme-IsDeviceText s h =
    let (t, p, e, j, whole, part) = namespaced_cases (strip_prefix "nvme" s) h in
    nvme p.0 p.1 (append-strip_prefix "nvme" s t e ∙ ap (λ x. "nvme" <> x) j) whole part

device_re-IsDeviceText : (s : String) → device_re s ≡ true → IsDeviceText s
unfolding device_re
device_re-IsDeviceText s h =
    let n = namespaced (strip_prefix "nvme" s) in
    let l = letters (strip_prefix "sd" s) in
    elim (or_cases (n || l) (letters (strip_prefix "vd" s)) h) [
      | inl both ↦ elim (or_cases n l both) [
        | inl a ↦ nvme-IsDeviceText s a
        | inr b ↦ letters-IsDeviceText "sd" s sd b
      ]
      | inr c ↦ letters-IsDeviceText "vd" s vd c
    ]

is_device-IsDeviceText : (s : String) → is_device s ≡ true → IsDeviceText s
unfolding is_device
is_device-IsDeviceText s h = elim (or_cases (is_abs s) (device_re s) h) [
  | inl a ↦ absolute_of s a
  | inr d ↦ device_re-IsDeviceText s d
]

IsDeviceText-is_device : (s : String) → IsDeviceText s → is_device s ≡ true
unfolding is_device device_re starts_with
IsDeviceText-is_device s (absolute path h) =
    let e = prefix_found "/dev/" s path h in ground (arith, e)
IsDeviceText-is_device s (nvme a b h da db) =
    let e = namespaced_of (strip_prefix "nvme" s) a b (prefix_found "nvme" s _ h) da db in
    ground (arith, e)
IsDeviceText-is_device s (sd t h small) =
    let e = letters_of (strip_prefix "sd" s) t (prefix_found "sd" s t h) small in ground (arith, e)
IsDeviceText-is_device s (vd t h small) =
    let e = letters_of (strip_prefix "vd" s) t (prefix_found "vd" s t h) small in ground (arith, e)

-- A text is taken for a device exactly if it stands under `/dev/` or is `nvme`, digits, an `n` and
-- digits, or `sd` or `vd` and small letters, no part of these empty.
pub is_device_iff : (s : String) → (is_device s ≡ true) ↔ IsDeviceText s
is_device_iff s = (is_device-IsDeviceText s, IsDeviceText-is_device s)
