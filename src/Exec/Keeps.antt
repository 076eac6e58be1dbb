-- ===== src/Exec/Keeps.antt =====
-- What every run of a method leaves true of the store, whether it succeeds or fails.
use icechunk.Prelude.{Result, ok, err}
use icechunk.Exec.{Exec, proceed, ◌>>=◌}

abbrev pub Keeps {ℓ} : {S E A : Type ℓ} → (S → Type ℓ) → Exec S E A → Type ℓ
Keeps {S} P m = (s : S) → P s → P (m s).1

module _ {ℓ} {S E A B : Type ℓ} (P : S → Type ℓ) where
  proceed-Keeps :
      (r : Result E A) (f : A → Exec S E B) → ((a : A) → Keeps P (f a)) → Keeps P (proceed r f)
  proceed-Keeps (ok a) f k s h = k a s h
  proceed-Keeps (err e) f k s h = h

  pub bind-Keeps :
      (m : Exec S E A) (f : A → Exec S E B)
      → Keeps P m
      → ((a : A) → Keeps P (f a))
      → Keeps P (m >>= f)
  bind-Keeps m f km kf s h = proceed-Keeps (m s).0 f kf (m s).1 (km s h)
