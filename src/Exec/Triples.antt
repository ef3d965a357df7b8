-- ===== src/Exec/Triples.antt =====
-- What holds behind a method that may raise.
use clusterone.Prelude.{Bool, false, if◌then◌else◌, refl, true, ◌≡◌}
use clusterone.Exec.{Exec, Exn, Result, continue, err, lift, ok, ◌>>=◌}

-- `Q` holds of a result and its state, `E` of an exception and its state.
pub data After {S A : Type 0} (Q : A → S → Type 0) (E : Exn → S → Type 0)
    : Result A × S → Type 0 where
  returns : (a : A) (s : S) → Q a s → After Q E (ok a, s)
  raises : (e : Exn) (s : S) → E e s → After Q E (err e, s)

module _ {S A B : Type 0} {Q : A → S → Type 0} {R : B → S → Type 0} {D E : Exn → S → Type 0} where
  After-continue :
      (r : Result A) (s : S) (f : A → Exec S B)
      → After Q D (r, s)
      → ((e : Exn) (t : S) → D e t → E e t)
      → ((a : A) (t : S) → Q a t → After R E (f a t))
      → After R E (continue r f s)
  After-continue (ok a) s f (returns b t q) k h = h b t q
  After-continue (err e) s f (raises d t q) k h = raises d t (k d t q)

  pub After-bind :
      (m : Exec S A) (f : A → Exec S B) (s : S)
      → After Q D (m s)
      → ((e : Exn) (t : S) → D e t → E e t)
      → ((a : A) (t : S) → Q a t → After R E (f a t))
      → After R E ((m >>= f) s)
  After-bind m f s x k h = After-continue (m s).0 (m s).1 f x k h

module _ {S A : Type 0} {Q : A → S → Type 0} {E : Exn → S → Type 0} where
  pub After-result :
      (r : Result A) (s : S) → ((a : A) → r ≡ ok a → Q a s) → ((e : Exn) → E e s) → After Q E (r, s)
  After-result (ok a) s h k = returns a s (h a refl)
  After-result (err e) s h k = raises e s (k e)

  pub After-branch :
      (b : Bool) (x y : Result A × S) → After Q E x → After Q E y → After Q E (if b then x else y)
  After-branch true x y h k = h
  After-branch false x y h k = k

module _ {S A : Type 0} {Q R : A → S → Type 0} {D E : Exn → S → Type 0} where
  pub After-weaken :
      {x : Result A × S}
      → After Q D x
      → ((a : A) (s : S) → Q a s → R a s)
      → ((e : Exn) (s : S) → D e s → E e s)
      → After R E x
  After-weaken (returns a s q) h k = returns a s (h a s q)
  After-weaken (raises e s q) h k = raises e s (k e s q)

-- A method that leaves the state `s` as it is; `Q` holds of what it returns.
pub data Reads {S A : Type 0} (Q : A → Type 0) (s : S) : Result A × S → Type 0 where
  read : (a : A) → Q a → Reads Q s (ok a, s)
  failed : (e : Exn) → Reads Q s (err e, s)

module _ {S A : Type 0} {Q : A → Type 0} where
  pub Reads-result : (r : Result A) (s : S) → ((a : A) → r ≡ ok a → Q a) → Reads Q s (lift r s)
  Reads-result (ok a) s h = read a (h a refl)
  Reads-result (err e) s h = failed e

module _ {S A : Type 0} {P Q : A → Type 0} {s : S} where
  pub Reads-weaken : {x : Result A × S} → Reads Q s x → ((a : A) → Q a → P a) → Reads P s x
  Reads-weaken (read a q) h = read a (h a q)
  Reads-weaken (failed e) h = failed e

module _ {S A B : Type 0} {Q : A → Type 0} {P : B → Type 0} where
  Reads-continue :
      (r : Result A) (t s : S) (f : A → Exec S B)
      → Reads Q s (r, t)
      → ((a : A) → Q a → Reads P s (f a s))
      → Reads P s (continue r f t)
  Reads-continue (ok a) t s f (read b q) h = h b q
  Reads-continue (err e) t s f (failed d) h = failed d

  pub Reads-bind :
      (m : Exec S A) (f : A → Exec S B) (s : S)
      → Reads Q s (m s)
      → ((a : A) → Q a → Reads P s (f a s))
      → Reads P s ((m >>= f) s)
  Reads-bind m f s x h = Reads-continue (m s).0 (m s).1 s f x h

module _ {S A B : Type 0} {Q : A → Type 0} {R : B → S → Type 0} {E : Exn → S → Type 0} where
  Reads-proceed :
      (r : Result A) (t s : S) (f : A → Exec S B)
      → Reads Q s (r, t)
      → ((e : Exn) → E e s)
      → ((a : A) → Q a → After R E (f a s))
      → After R E (continue r f t)
  Reads-proceed (ok a) t s f (read b q) k h = h b q
  Reads-proceed (err e) t s f (failed d) k h = raises d s (k d)

  pub After-Reads :
      (m : Exec S A) (f : A → Exec S B) (s : S)
      → Reads Q s (m s)
      → ((e : Exn) → E e s)
      → ((a : A) → Q a → After R E (f a s))
      → After R E ((m >>= f) s)
  After-Reads m f s x k h = Reads-proceed (m s).0 (m s).1 s f x k h
