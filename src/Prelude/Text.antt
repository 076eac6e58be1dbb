-- ===== src/Prelude/Text.antt =====
-- Texts as lists of code points, and the parts of `str` that the program uses.
use Prim.Native.Nat.{ℕ}
use Prim.Native.Char.{code}
use Prim.Native.String.{String}
use mathlib.Core.Path.{◌≡◌, refl}
use mathlib.Core.List.{List, [], ◌∷◌, ◌++◌, reverse, reverse-append, reverse-reverse}
use mathlib.Core.Bool.{true}
use mathlib.Core.Option.{Option, none, some}
use native.Mathlib.Omega.{arith}
use icechunk.Prelude.Tests.{if◌then◌else◌, nat_beq}
use icechunk.Prelude.Equality.{list_lt}
use icechunk.Prelude.Lists.{length}
use icechunk.Prelude.Outcome.{option_map}

abbrev pub Str : Type 0
Str = List ℕ

-- The code points of a literal. `String` has its own `[]` and `∷`.
abbrev pub codes : String → Str
codes String.[] = []
codes (String.◌∷◌ c s) = code c ∷ codes s

unfoldable pub strip_prefix : Str → Str → Option Str
strip_prefix [] s = some s
strip_prefix (c ∷ p) [] = none
strip_prefix (c ∷ p) (d ∷ s) = let rest = strip_prefix p s in if nat_beq c d then rest else none

unfoldable pub strip_suffix : Str → Str → Option Str
unfolding strip_prefix
strip_suffix p s = option_map reverse (strip_prefix (reverse p) (reverse s))

pub strip_prefix-append : (p s : Str) → strip_prefix p (p ++ s) ≡ some s
unfolding strip_prefix
strip_prefix-append [] s = refl
strip_prefix-append (c ∷ p) s = ground (arith, strip_prefix-append p s)

pub strip_suffix-append : (p s : Str) → strip_suffix s (p ++ s) ≡ some p
unfolding strip_suffix
strip_suffix-append p s =
    rw (reverse-append p s, strip_prefix-append (reverse s) (reverse p), reverse-reverse)

-- A common rest does not change the order of texts of one length.
pub list_lt-append :
    (xs ys zs : Str)
    → length xs ≡ length ys
    → list_lt xs ys ≡ true
    → list_lt (xs ++ zs) (ys ++ zs) ≡ true
list_lt-append [] (y ∷ ys) zs e h = absurd (omega arith)
list_lt-append (x ∷ xs) (y ∷ ys) zs e h = ground (arith, list_lt-append xs ys zs)
list_lt-append xs [] zs e h = ground arith
