-- ===== src/Exec.antt =====
-- Methods that write to a store and may fail. What was written before a failure stays written, so
-- the store comes back beside an error too.
pub mod Keeps
pub mod Runs
use icechunk.Prelude.{Result, ok, err, map_err}

abbrev pub Exec {ℓ} : Type ℓ → Type ℓ → Type ℓ → Type ℓ
Exec S E A = S → Result E A × S

module _ {ℓ} {S E A : Type ℓ} where
  abbrev pub pure : A → Exec S E A
  pure a s = (ok a, s)

  abbrev pub raise : E → Exec S E A
  raise e s = (err e, s)

  -- A computation that reads the store
  abbrev pub reading : (S → Result E A) → Exec S E A
  reading f s = (f s, s)

  abbrev pub lift : Result E A → Exec S E A
  lift r s = (r, s)

abbrev pub writing {ℓ} : {S E F A : Type ℓ} → (E → F) → (S → Result E A × S) → Exec S F A
writing wrap f s = let (r, s') = f s in (map_err wrap r, s')

module _ {ℓ} {S E A B : Type ℓ} where
  abbrev pub proceed : Result E A → (A → Exec S E B) → Exec S E B
  proceed (ok a) f s = f a s
  proceed (err e) f s = (err e, s)

  infixl 5 ◌>>=◌ ◌>>◌
  abbrev pub ◌>>=◌ : Exec S E A → (A → Exec S E B) → Exec S E B
  ◌>>=◌ m f s = let (r, s') = m s in proceed r f s'

  abbrev pub ◌>>◌ : Exec S E A → Exec S E B → Exec S E B
  m >> k = m >>= λ _. k
