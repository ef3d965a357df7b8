-- ===== src/Exec.antt =====
-- Code that raises: a result, and methods that change an object and may raise. What was written
-- before a raise stays written, so the state comes back beside the exception too.
pub mod Triples
pub mod Keeps
use clusterone.Prelude.{String}

-- `asyncio.CancelledError` is no `Exception`; every other one carries its class and its message.
pub data Exn : Type 0 where
  cancelled : Exn
  raised : (class message : String) → Exn

pub data Result {ℓ} (A : Type ℓ) : Type ℓ where
  ok : A → Result A
  err : Exn → Result A

abbrev pub runtime_error {ℓ} : {A : Type ℓ} → String → Result A
runtime_error message = err (raised "RuntimeError" message)

abbrev pub Exec {ℓ} : Type ℓ → Type ℓ → Type ℓ
Exec S A = S → Result A × S

module _ {ℓ} {S A : Type ℓ} where
  abbrev pub pure : A → Exec S A
  pure a s = (ok a, s)

  abbrev pub raise : Exn → Exec S A
  raise e s = (err e, s)

  abbrev pub lift : Result A → Exec S A
  lift r s = (r, s)

  abbrev pub gets : (S → A) → Exec S A
  gets f s = (ok (f s), s)

module _ {ℓ} {S A B : Type ℓ} where
  abbrev pub continue : Result A → (A → Exec S B) → Exec S B
  continue (ok a) f s = f a s
  continue (err e) f s = (err e, s)

  infixl 5 ◌>>=◌ ◌>>◌
  abbrev pub ◌>>=◌ : Exec S A → (A → Exec S B) → Exec S B
  ◌>>=◌ m f s = let (r, s') = m s in continue r f s'

  abbrev pub ◌>>◌ : Exec S A → Exec S B → Exec S B
  m >> n = m >>= λ _. n
