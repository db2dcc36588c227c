-- ===== src/Prelude/Effects.antt =====
-- Operations on shared state that may fail. What was written before a failure stays written, so
-- the state comes back beside the error too.
use mathlib.Core.Bool.{Bool}
use pheidippides.Prelude.Results.{Result, ok, err}

abbrev pub Exec {ℓ} : Type ℓ → Type ℓ → Type ℓ → Type ℓ
Exec S E A = S → Result E A × S

-- `Mutex` and `RwLock`: a thread that panics with the lock held leaves it poisoned.
pub record Lock {ℓ} (A : Type ℓ) : Type ℓ where
  pub inner : A
  pub poisoned : Bool

module _ {ℓ} {S E A : Type ℓ} where
  abbrev pub pure : A → Exec S E A
  pure a s = (ok a, s)

  abbrev pub raise : E → Exec S E A
  raise e s = (err e, s)

module _ {ℓ} {S E A B : Type ℓ} where
  abbrev pub continue : Result E A → (A → Exec S E B) → Exec S E B
  continue (ok a) f s = f a s
  continue (err e) f s = (err e, s)

  infixl 5 ◌>>=◌ ◌>>◌
  abbrev pub ◌>>=◌ : Exec S E A → (A → Exec S E B) → Exec S E B
  ◌>>=◌ m f s = let (r, t) = m s in continue r f t

  abbrev pub ◌>>◌ : Exec S E A → Exec S E B → Exec S E B
  m >> n = m >>= λ _. n

module _ {ℓ} {D E A : Type ℓ} where
  abbrev pub replace_err : (D → E) → Result D A → Result E A
  replace_err f (ok a) = ok a
  replace_err f (err d) = err (f d)

module _ {ℓ} {S D E A : Type ℓ} where
  -- `with_context` and `?` replace the error, and nothing else.
  abbrev pub map_err : (D → E) → Exec S D A → Exec S E A
  map_err f m s = let (r, t) = m s in (replace_err f r, t)
