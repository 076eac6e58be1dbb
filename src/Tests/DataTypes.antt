-- ===== src/Tests/DataTypes.antt =====
-- Reading the name of a data type, and a fill value.
use icechunk.Prelude.{
  ◌≡◌, ◌↔◌, ◌<◌, ◌^◌, refl, some, codes, ℕ, ℤ, pos, negsuc, Option, none, some, [], ◌∷◌, ltb,
  if◌then◌else◌, arith,
}
use icechunk.Metadata.{DataType, FillValue}
use icechunk.Metadata.FillValues.{
  fits_u64, Signed, JsonValue, JsonValues, Float, from_data_type_and_json,
}
use icechunk.Metadata.FillValues.Types.{IsTyped, from_data_type_and_json-IsTyped}
use icechunk.Tests.Packages.{test_external}
use icechunk.Metadata.DataTypes.{try_from, print, try_from-iff-print}

try_from-iff-print_example :
    (try_from (codes "int8") ≡ some DataType.int8) ↔ (codes "int8" ≡ print DataType.int8)
try_from-iff-print_example = try_from-iff-print (codes "int8") DataType.int8

-- Values are numbers; 0 is an array of two numbers.
abbrev test_view : ℕ → JsonValue ℕ ℕ
test_view Prim.Native.Nat.zero = JsonValue.array (200 ∷ 7 ∷ [])
test_view n = JsonValue.number n

abbrev test_as_i64 : ℕ → Option ℤ
test_as_i64 n = if ltb n (2 ^ 63) then some (pos n) else none

abbrev test_as_u64 : ℕ → Option ℕ
test_as_u64 n = if ltb n (2 ^ 64) then some n else none

abbrev test_float : Float ℕ ℕ
test_float = record { from_f64 = λ x. x; nan = 0; infinity = 1; neg_infinity = 2 }

test_as_i64_range : (n : ℕ) (i : ℤ) → test_as_i64 n ≡ some i → Signed 63 i
test_as_i64_range n (pos m) h = ground (arith, h)
test_as_i64_range n (negsuc m) h = ground (arith, h)

test_as_u64_range : (n u : ℕ) → test_as_u64 n ≡ some u → u < 2 ^ 64
test_as_u64_range n u h = ground (arith, h)

instance abbrev test_json : JsonValues
test_json = record {
  Number = ℕ;
  view = test_view;
  as_i64 = test_as_i64;
  as_u64 = test_as_u64;
  as_f64 = λ n. some n;
  f32 = test_float;
  f64 = test_float;
  as_i64_range = test_as_i64_range;
  as_u64_range = test_as_u64_range;
}

from_data_type_and_json-IsTyped_example : IsTyped DataType.bytes (FillValue.bytes (200 ∷ 7 ∷ []))
unfolding from_data_type_and_json fits_u64
from_data_type_and_json-IsTyped_example =
    from_data_type_and_json-IsTyped DataType.bytes 0 (FillValue.bytes (200 ∷ 7 ∷ [])) refl
