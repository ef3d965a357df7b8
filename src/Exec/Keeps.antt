-- ===== src/Exec/Keeps.antt =====
-- Invariants of the state of methods that may raise.
use clusterone.Prelude.{Bool, false, if◌then◌else◌, true}
use clusterone.Exec.{Exec, Result, continue, err, gets, lift, ok, pure, ◌>>=◌}

-- Whether the method returns or raises, `P` holds behind it where it held before.
pub record Keeps {S A : Type 0} (P : S → Type 0) (m : Exec S A) : Type 0 where
  pub behind : (s : S) → P s → P (m s).1

module _ {S A : Type 0} {P : S → Type 0} where
  pub Keeps-pure : (a : A) → Keeps P (pure {S = S} a)
  Keeps-pure a = record { behind = λ s h. h }

  pub Keeps-lift : (r : Result A) → Keeps P (lift {S = S} r)
  Keeps-lift r = record { behind = λ s h. h }

  pub Keeps-gets : (f : S → A) → Keeps P (gets f)
  Keeps-gets f = record { behind = λ s h. h }

  pub Keeps-test :
      (b : Bool) (m n : Exec S A) → Keeps P m → Keeps P n → Keeps P (if b then m else n)
  Keeps-test true m n km kn = km
  Keeps-test false m n km kn = kn

module _ {S A B : Type 0} {P : S → Type 0} where
  keeps_continue :
      (r : Result A) (s : S) (f : A → Exec S B)
      → ((a : A) → Keeps P (f a))
      → P s
      → P (continue r f s).1
  keeps_continue (ok a) s f k h = (k a).behind s h
  keeps_continue (err e) s f k h = h

  pub Keeps-bind :
      (m : Exec S A) (f : A → Exec S B) → Keeps P m → ((a : A) → Keeps P (f a)) → Keeps P (m >>= f)
  Keeps-bind m f km kf = record {
    behind = λ s h. keeps_continue (m s).0 (m s).1 f kf (km.behind s h);
  }

pub ruleset keeping = (Keeps-pure, Keeps-lift, Keeps-gets, Keeps-test, Keeps-bind)
