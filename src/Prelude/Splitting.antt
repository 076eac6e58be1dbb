-- ===== src/Prelude/Splitting.antt =====
-- The parts of `str` that look for a character: `rsplit_once`, `split`, `trim_start_matches`; and `join`.
use Prim.Native.Nat.{ℕ}
use mathlib.Core.Path.{◌≡◌, refl, ap, ◌∙◌}
use mathlib.Core.Logic.{◌≢◌}
use mathlib.Core.Bool.{Bool}
use mathlib.Core.List.{List, [], ◌∷◌, ◌++◌}
use mathlib.Core.Option.{Option, none, some}
use native.Mathlib.Omega.{arith}
use icechunk.Prelude.Tests.{if◌then◌else◌, nat_beq}
use icechunk.Prelude.Text.{Str}

-- `!contains(c)`
abbrev pub Avoids : ℕ → Str → Type 0
Avoids c [] = Unit
Avoids c (d ∷ s) = (d ≢ c) × Avoids c s

pub Avoids-append : (c : ℕ) (s t : Str) → Avoids c s → Avoids c t → Avoids c (s ++ t)
Avoids-append c [] t h k = k
Avoids-append c (d ∷ s) t h k = (h.0, Avoids-append c s t h.1 k)

abbrev or_here : Bool → ℕ → Str → Option (Str × Str) → Option (Str × Str)
or_here here x s (some (before, after)) = some (x ∷ before, after)
or_here here x s none = if here then some ([], s) else none

-- What is before and after the last `c`
unfoldable pub rsplit_once : ℕ → Str → Option (Str × Str)
rsplit_once c [] = none
rsplit_once c (x ∷ s) = or_here (nat_beq x c) x s (rsplit_once c s)

rsplit_once-Avoids : (c : ℕ) (s : Str) → Avoids c s → rsplit_once c s ≡ none
unfolding rsplit_once
rsplit_once-Avoids c [] h = refl
rsplit_once-Avoids c (x ∷ s) h = ground (arith, rsplit_once-Avoids c s h.1, h.0)

pub rsplit_once-append :
    (c : ℕ) (s t : Str) → Avoids c t → rsplit_once c (s ++ (c ∷ t)) ≡ some (s, t)
unfolding rsplit_once
rsplit_once-append c [] t h = ground (arith, rsplit_once-Avoids c t h)
rsplit_once-append c (x ∷ s) t h =
    ap (or_here (nat_beq x c) x (s ++ (c ∷ t))) (rsplit_once-append c s t h)

abbrev onto_first : ℕ → List Str → List Str
onto_first x [] = (x ∷ []) ∷ []
onto_first x (s ∷ ss) = (x ∷ s) ∷ ss

unfoldable pub split : ℕ → Str → List Str
split c [] = [] ∷ []
split c (x ∷ s) = let rest = split c s in if nat_beq x c then [] ∷ rest else onto_first x rest

-- `join` with a separator of one character
unfoldable pub join : ℕ → List Str → Str
join c [] = []
join c (s ∷ []) = s
join c (s ∷ t ∷ ss) = s ++ (c ∷ join c (t ∷ ss))

abbrev pub AllAvoid : ℕ → List Str → Type 0
AllAvoid c [] = Unit
AllAvoid c (s ∷ ss) = Avoids c s × AllAvoid c ss

split-Avoids : (c : ℕ) (s : Str) → Avoids c s → split c s ≡ s ∷ []
unfolding split
split-Avoids c [] h = refl
split-Avoids c (x ∷ s) h = ground (arith, split-Avoids c s h.1, h.0)

split-append : (c : ℕ) (s t : Str) → Avoids c s → split c (s ++ (c ∷ t)) ≡ s ∷ split c t
unfolding split
split-append c [] t h = ground arith
split-append c (x ∷ s) t h = ground (arith, split-append c s t h.1, h.0)

pub split-join :
    (c : ℕ) (s : Str) (ss : List Str) → AllAvoid c (s ∷ ss) → split c (join c (s ∷ ss)) ≡ s ∷ ss
unfolding join
split-join c s [] h = split-Avoids c s h.0
split-join c s (t ∷ ss) h =
    split-append c s (join c (t ∷ ss)) h.0 ∙ ap (λ rest. s ∷ rest) (split-join c t ss h.1)

unfoldable pub trim_start_matches : ℕ → Str → Str
trim_start_matches c [] = []
trim_start_matches c (x ∷ s) =
    let rest = trim_start_matches c s in if nat_beq x c then rest else x ∷ s
