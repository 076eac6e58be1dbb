-- ===== src/Prelude/Decimal.antt =====
-- The decimal digits of a number: `to_string` and `parse::<u32>`.
use Prim.Native.Nat.{ℕ, zero, suc, ◌+◌, ◌-◌, ◌*◌, ◌/◌, ◌%◌, ◌^◌, ◌≤◌, ◌<◌}
use mathlib.Core.Path.{◌≡◌, refl, ap, sym, ◌∙◌}
use mathlib.Core.Logic.{◌≢◌}
use mathlib.Core.Bool.{Bool, true, false, ◌&&◌}
use mathlib.Core.List.{[], ◌∷◌, ◌++◌, append_assoc, append-nil}
use mathlib.Core.Option.{Option, none, some}
use native.Mathlib.Omega.{arith}
use icechunk.Prelude.Tests.{if◌then◌else◌, ltb, leb, nat_beq}
use icechunk.Prelude.Text.{Str}

-- `suc fuel` digits at most
unfoldable pub decimal_digits : ℕ → ℕ → Str
decimal_digits zero n = (48 + n % 10) ∷ []
decimal_digits (suc fuel) n =
    let rest = decimal_digits fuel (n / 10) in
    if ltb n 10 then (48 + n % 10) ∷ [] else rest ++ ((48 + n % 10) ∷ [])

-- `to_string` of a `u64`: 20 digits are enough.
unfoldable pub to_string : ℕ → Str
to_string n = decimal_digits 19 n

-- The digits after the number that is read already; `none` is an error, an overflow included.
unfoldable pub parse_digits : ℕ → Str → Option ℕ
parse_digits acc [] = some acc
parse_digits acc (c ∷ cs) =
    let rest = parse_digits (acc * 10 + (c - 48)) cs in
    if leb 48 c && (leb c 57 && ltb (acc * 10 + (c - 48)) (2 ^ 32)) then rest else none

abbrev parse_nonempty : Str → Option ℕ
parse_nonempty [] = none
parse_nonempty (c ∷ cs) = parse_digits 0 (c ∷ cs)

-- A `+` may stand in front.
unfoldable pub parse_u32 : Str → Option ℕ
parse_u32 [] = none
parse_u32 (c ∷ cs) = if nat_beq c 43 then parse_nonempty cs else parse_digits 0 (c ∷ cs)

-- `10 ^ suc fuel`
limit : ℕ → ℕ
limit zero = 10
limit (suc fuel) = 10 * limit fuel

digit_step :
    (acc d : ℕ) (s : Str)
    → d < 10
    → acc * 10 + d < 2 ^ 32
    → parse_digits acc ((48 + d) ∷ s) ≡ parse_digits (acc * 10 + d) s
unfolding parse_digits
digit_step acc d s h k = ground (arith, h, k)

parse_digits-decimal_digits :
    (fuel n : ℕ) (s : Str)
    → n < limit fuel
    → n < 2 ^ 32
    → parse_digits 0 (decimal_digits fuel n ++ s) ≡ parse_digits n s
unfolding decimal_digits limit
parse_digits-decimal_digits zero n s h k = ground (arith, h, k, digit_step 0 n s)
parse_digits-decimal_digits (suc fuel) n s h k = ground (
  arith,
  h,
  k,
  digit_step 0 n s,
  digit_step (n / 10) (n % 10) s,
  append_assoc (decimal_digits fuel (n / 10)) ((48 + n % 10) ∷ []) s,
  parse_digits-decimal_digits fuel (n / 10) ((48 + n % 10) ∷ s),
)

abbrev pub AllDigits : Str → Type 0
AllDigits [] = Unit
AllDigits (c ∷ cs) = ((48 ≤ c) × (c ≤ 57)) × AllDigits cs

AllDigits-append : (s t : Str) → AllDigits s → AllDigits t → AllDigits (s ++ t)
AllDigits-append [] t h k = k
AllDigits-append (c ∷ s) t h k = (h.0, AllDigits-append s t h.1 k)

if_AllDigits : (b : Bool) (s t : Str) → AllDigits s → AllDigits t → AllDigits (if b then s else t)
if_AllDigits true s t h k = h
if_AllDigits false s t h k = k

decimal_digits-AllDigits : (fuel n : ℕ) → AllDigits (decimal_digits fuel n)
unfolding decimal_digits
decimal_digits-AllDigits zero n = ((omega arith, omega arith), tt)
decimal_digits-AllDigits (suc fuel) n =
    if_AllDigits (ltb n 10) _ _ ((omega arith, omega arith), tt)
      (AllDigits-append (decimal_digits fuel (n / 10)) _ (decimal_digits-AllDigits fuel (n / 10))
        ((omega arith, omega arith), tt))

pub to_string-AllDigits : (n : ℕ) → AllDigits (to_string n)
unfolding to_string
to_string-AllDigits n = decimal_digits-AllDigits 19 n

parse_u32_digits :
    (s : Str) (n : ℕ) → AllDigits s → parse_digits 0 s ≡ some n → s ≢ [] → parse_u32 s ≡ some n
unfolding parse_u32
parse_u32_digits [] n h k e = absurd (e refl)
parse_u32_digits (c ∷ s) n h k e = ground (arith, h.0.0, h.0.1, k)

pub append_nonempty : (s : Str) (c : ℕ) → s ++ (c ∷ []) ≢ []
append_nonempty [] c = ground arith
append_nonempty (d ∷ s) c = ground arith

decimal_digits_nonempty : (fuel n : ℕ) → decimal_digits fuel n ≢ []
unfolding decimal_digits
decimal_digits_nonempty zero n = ground arith
decimal_digits_nonempty (suc fuel) n =
    ground (arith, append_nonempty (decimal_digits fuel (n / 10)) (48 + n % 10))

pub to_string_nonempty : (n : ℕ) → to_string n ≢ []
unfolding to_string
to_string_nonempty n = decimal_digits_nonempty 19 n

to_string_digits : (n : ℕ) → n < 2 ^ 32 → parse_digits 0 (to_string n) ≡ some n
unfolding to_string parse_digits limit
to_string_digits n h =
    let within : limit 19 ≡ 10 ^ 20 = refl in
    ap (parse_digits 0) (sym (append-nil (decimal_digits 19 n)))
    ∙ parse_digits-decimal_digits 19 n [] (omega (arith, within, h)) h

pub parse_u32-to_string : (n : ℕ) → n < 2 ^ 32 → parse_u32 (to_string n) ≡ some n
parse_u32-to_string n h =
    parse_u32_digits (to_string n) n (to_string-AllDigits n) (to_string_digits n h)
      (to_string_nonempty n)
