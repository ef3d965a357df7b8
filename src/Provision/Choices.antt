-- ===== src/Provision/Choices.antt =====
-- A drive that a task may run on is one of its server's.
use mathlib.Core.Path.{subst}
use clusterone.Prelude.{
  Bool, Bool-cases, List, Member, Option, String, [], ap, arith, false, find, inl, inr, is_empty,
  none, refl, some, sym, ℕ, ◌==◌, ◌∷◌, ◌≡◌, ◌⊎◌,
}
use clusterone.Exec.{Result, err, ok}
use clusterone.Models.{Drive}
use clusterone.Disks.{Resolution, resolve_disk}
use clusterone.Disks.Sizes.{Floats}
use clusterone.Disks.Picks.{IsSound, named, no_drive, resolve_disk-IsSound}
use clusterone.Provision.{
  Choice, Overrides, choice_of, choose, choose_override, choose_resolved, is_runnable, override_of,
  resolve_for, unchosen,
}

-- A choice that is runnable has the name and the serial of a drive of the list.
pub data IsChoice (drives : List Drive) (c : Choice) : Type 0 where
  idle : is_runnable c.status ≡ false → IsChoice drives c
  runnable :
      (d : Drive)
      → Member d drives
      → c.name ≡ some d.name
      → c.serial ≡ some d.serial
      → IsChoice drives c

ok_inj : {c d : Choice} → ok c ≡ ok d → c ≡ d
ok_inj h = ground (arith, h)

find-Member : (p : Drive → Bool) (ds : List Drive) (d : Drive) → find p ds ≡ some d → Member d ds
find-Member p [] d h = absurd (ground (arith, h))
find-Member p (e ∷ es) d h = elim (Bool-cases (p e)) [
  | inl hit ↦ inl (ground (arith, h, hit))
  | inr miss ↦ inr (find-Member p es d (ground (arith, h, miss)))
]

choose_override-IsChoice :
    (drives : List Drive) (name : String) (o : Option Drive)
    → ((d : Drive) → o ≡ some d → Member d drives)
    → IsChoice drives (choose_override name o)
unfolding choose_override is_runnable
choose_override-IsChoice drives name none h = idle refl
choose_override-IsChoice drives name (some d) h = runnable d (h d refl) refl refl

unchosen-IsChoice :
    (drives : List Drive) (reason status : String)
    → (status ≡ "unmatched") ⊎ (status ≡ "requires_override")
    → IsChoice drives (unchosen none reason status)
unfolding is_runnable
unchosen-IsChoice drives reason status (inl e) = idle (ap is_runnable e)
unchosen-IsChoice drives reason status (inr e) = idle (ap is_runnable e)

choice_of-IsChoice :
    (drives : List Drive) (r : Resolution)
    → IsSound drives r
    → IsChoice drives (choice_of r.drive r.reason r.status)
unfolding choice_of
choice_of-IsChoice drives r (no_drive e u) =
    subst (λ o. IsChoice drives (choice_of o r.reason r.status)) (sym e)
      (unchosen-IsChoice drives r.reason r.status u)
choice_of-IsChoice drives r (named d e m u) =
    subst (λ o. IsChoice drives (choice_of o r.reason r.status)) (sym e) (runnable d m refl refl)

choose_resolved-IsChoice :
    (drives : List Drive) (x : Result Resolution) (c : Choice)
    → ((r : Resolution) → x ≡ ok r → IsSound drives r)
    → choose_resolved x ≡ ok c
    → IsChoice drives c
unfolding choose_resolved
choose_resolved-IsChoice drives (err e) c h q = absurd (ground (arith, q))
choose_resolved-IsChoice drives (ok r) c h q =
    subst (IsChoice drives) (ok_inj q) (choice_of-IsChoice drives r (h r refl))

choose-IsChoice :
    {Float : Type 0} (floats : Floats Float) (o : Option String) (drives : List Drive)
    (strategy : String) (c : Choice)
    → choose floats o drives strategy ≡ ok c
    → IsChoice drives c
unfolding choose
choose-IsChoice floats (some name) drives strategy c q = subst (IsChoice drives) (ok_inj q) (
    choose_override-IsChoice drives name (find (λ (d : Drive). d.name == name) drives)
      (λ d h. find-Member (λ (d : Drive). d.name == name) drives d h))
choose-IsChoice floats none drives strategy c q = elim (Bool-cases (is_empty strategy)) [
  | inl e ↦
      subst (IsChoice drives) (ok_inj (rw e at q))
        (unchosen-IsChoice drives _ "unmatched" (inl refl))
  | inr e ↦
      choose_resolved-IsChoice drives (resolve_disk floats strategy drives) c
        (λ r h. resolve_disk-IsSound floats strategy drives r h) (rw e at q)
]

-- The choice for a server, by the operator's override or by a strategy: under a status that a task
-- may run on it has the name and the serial of a drive of that server.
pub resolve_for-IsChoice :
    {Float : Type 0} (floats : Floats Float) (id : ℕ) (drives : List Drive) (strategy : String)
    (overrides : Overrides) (c : Choice)
    → resolve_for floats id drives strategy overrides ≡ ok c
    → IsChoice drives c
unfolding resolve_for
resolve_for-IsChoice floats id drives strategy overrides c q =
    choose-IsChoice floats (override_of id overrides) drives strategy c q
