-- ===== src/Exec/Runs.antt =====
-- What a run that succeeded tells of its steps.
use icechunk.Prelude.{◌≡◌, refl, Result, ok, err, arith}
use icechunk.Exec.{Exec, proceed}

pub proceed-ok {ℓ} :
    {S E A B : Type ℓ} (r : Result E A) (f : A → Exec S E B) (s s' : S) (b : B)
    → ◌≡◌ {A = Result E B × S} (proceed r f s) (ok b, s')
    → (a : A) × ((r ≡ ok a) × (f a s ≡ (ok b, s')))
proceed-ok (ok a) f s s' b h = (a, (refl, h))
proceed-ok (err e) f s s' b h = ground (arith, h)
