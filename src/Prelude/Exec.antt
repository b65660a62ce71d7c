-- ===== src/Prelude/Exec.antt =====
-- Methods that change a state and may fail, as actions.
use mathlib.Core.Bool.{Bool, true, false}
use mathlib.Core.Option.{Option, none, some}
use notevault.Prelude.Result.{Error, Result, ok, err}

abbrev pub Exec {ℓ} : Type ℓ → Type ℓ → Type ℓ
Exec S A = S → Result A × S

-- `v, err := r`, where the error only says that there is no value.
abbrev pub optional {ℓ} : {A : Type ℓ} → Result A → Option A
optional (ok a) = some a
optional (err e) = none

module _ {ℓ} {S A : Type ℓ} where
  abbrev pub pure : A → Exec S A
  pure a s = (ok a, s)

  abbrev pub raise : Error → Exec S A
  raise e s = (err e, s)

  abbrev pub lift : Result A → Exec S A
  lift r s = (r, s)

  abbrev pub attempt : Exec S A → Exec S (Option A)
  attempt m s = let (r, s') = m s in (ok (optional r), s')

module _ {ℓ} {S A B : Type ℓ} where
  abbrev pub continue : Result A → (A → Exec S B) → Exec S B
  continue (ok a) f s = f a s
  continue (err e) f s = (err e, s)

  infixl 10 ◌>>=◌ ◌>>◌
  abbrev pub ◌>>=◌ : Exec S A → (A → Exec S B) → Exec S B
  ◌>>=◌ m f s = let (r, s') = m s in continue r f s'

  abbrev pub ◌>>◌ : Exec S A → Exec S B → Exec S B
  m >> n = m >>= λ _. n

module _ {S : Type 0} where
  -- `if !b { return e }`
  abbrev pub guard : Bool → Error → Exec S (Unit {0})
  guard true e = pure tt
  guard false e = raise e
