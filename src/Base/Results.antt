-- ===== src/Base/Results.antt =====
-- Outcomes of fallible code, and the state monad in which a thrown exception keeps the state
-- changes made before it.
use mathlib.Core.Bool.{Bool, true, false}
use mathlib.Core.Option.{Option, none, some}

-- The exception classes of xvcDriver.h and `std::runtime_error` with the code's own text;
-- `fault` is a memory access that C++ leaves undefined, `hang` a loop given up by its fuel.
pub data Error : Type 0 where
  sys_err proto_err timeout_err runtime_error fault hang : Error

pub data Result {ℓ} (A : Type ℓ) : Type ℓ where
  ok : A → Result A
  err : Error → Result A

abbrev pub Eff : Type 0 → Type 0 → Type 0
Eff S A = S → Result A × S

module _ {S : Type 0} where
  abbrev pub pure : {A : Type 0} → A → Eff S A
  pure a s = (ok a, s)

  abbrev pub throw : {A : Type 0} → Error → Eff S A
  throw e s = (err e, s)

  abbrev pub after : {A B : Type 0} → (A → Eff S B) → Result A × S → Result B × S
  after f (ok a, s) = f a s
  after f (err e, s) = (err e, s)

  infixl 5 ◌>>=◌ ◌>>◌
  abbrev pub ◌>>=◌ : {A B : Type 0} → Eff S A → (A → Eff S B) → Eff S B
  ◌>>=◌ m f s = after f (m s)

  abbrev pub ◌>>◌ : {B : Type 0} → Eff S (Unit {0}) → Eff S B → Eff S B
  m >> k = m >>= λ _. k

  -- `if ( ! test ) throw e;`
  abbrev pub guard : Bool → Error → Eff S (Unit {0})
  guard true e = pure tt
  guard false e = throw e

  abbrev pub get : Eff S S
  get s = (ok s, s)

  abbrev pub put : S → Eff S (Unit {0})
  put t s = (ok tt, t)

  -- A memory access: `none` is undefined behaviour.
  abbrev pub access : {A : Type 0} → Option A → Eff S A
  access (some a) = pure a
  access none = throw fault

  -- A computation that reads no state.
  abbrev pub lift : {A : Type 0} → Result A → Eff S A
  lift r s = (r, s)
