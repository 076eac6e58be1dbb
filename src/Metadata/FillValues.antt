-- ===== src/Metadata/FillValues.antt =====
-- `fits_i64` and `fits_u64` of icechunk/src/metadata/data_type.rs, and icechunk/src/metadata/fill_value.rs:
-- reading the fill value of an array from JSON.
pub mod Types
use icechunk.Prelude.{
  ◌≡◌, refl, sym, ◌∙◌, ap, ℕ, ◌<◌, ◌^◌, ℤ, pos, negsuc, leb, Bool, true, false, ◌&&◌, Option, none,
  some, option_map, List, [], ◌∷◌, Result, ok, err, ok_or, ◌>>=◌, bind-ok, try_map, Str, codes,
  ◌==◌, list_eq, nat_eq, arith, inl, inr, Bool-cases, Option-cases, if◌then◌else◌,
}
use icechunk.Format.{External}
use icechunk.Metadata.{DataType, FillValue}

abbrev int_leb : ℤ → ℤ → Bool
int_leb (pos a) (pos b) = leb a b
int_leb (pos a) (negsuc b) = false
int_leb (negsuc a) (pos b) = true
int_leb (negsuc a) (negsuc b) = leb b a

-- Between a type's `MIN` and `MAX`
abbrev between : ℤ → ℤ → ℤ → Bool
between least greatest n = int_leb least n && int_leb n greatest

unfoldable pub fits_i64 : DataType → ℤ → Bool
fits_i64 DataType.int8 n = between (negsuc 127) (pos 127) n
fits_i64 DataType.int16 n = between (negsuc 32767) (pos 32767) n
fits_i64 DataType.int32 n = between (negsuc 2147483647) (pos 2147483647) n
fits_i64 DataType.int64 n = true
fits_i64 _ n = false

unfoldable pub fits_u64 : DataType → ℕ → Bool
fits_u64 DataType.uint8 n = leb n 255
fits_u64 DataType.uint16 n = leb n 65535
fits_u64 DataType.uint32 n = leb n 4294967295
fits_u64 DataType.uint64 n = true
fits_u64 _ n = false

-- A signed integer of w + 1 bits
abbrev pub Signed : ℕ → ℤ → Type 0
Signed w (pos n) = n < 2 ^ w
Signed w (negsuc n) = n < 2 ^ w

-- `serde_json::Value`
pub data JsonValue (Number Json : Type 0) : Type 0 where
  null : JsonValue Number Json
  bool : Bool → JsonValue Number Json
  number : Number → JsonValue Number Json
  string : Str → JsonValue Number Json
  array : List Json → JsonValue Number Json
  object : List (Str × Json) → JsonValue Number Json

-- A type of floats: what `as` makes of an `f64`, and the special values
pub record Float (F64 F : Type 0) : Type 0 where
  pub from_f64 : F64 → F
  pub nan : F
  pub infinity : F
  pub neg_infinity : F

-- What `serde_json` and floats provide
pub record JsonValues ⦃E : External⦄ : Type 1 where
  pub Number : Type 0
  pub view : E.Json → JsonValue Number E.Json
  pub as_i64 : Number → Option ℤ
  pub as_u64 : Number → Option ℕ
  pub as_f64 : Number → Option E.F64
  pub f32 : Float E.F64 E.F32
  pub f64 : Float E.F64 E.F64
  pub as_i64_range : (n : Number) (i : ℤ) → as_i64 n ≡ some i → Signed 63 i
  pub as_u64_range : (n : Number) (u : ℕ) → as_u64 n ≡ some u → u < 2 ^ 64

module _ ⦃E : External⦄ where
  -- `IcechunkFormatError`, for the one error that reading gives
  pub data FillValueError : Type 0 where
    fill_value_parse : DataType → E.Json → FillValueError

  abbrev pub Parsed : Type 0
  Parsed = Result FillValueError FillValue

  abbrev pub refused : DataType → E.Json → Parsed
  refused dt value = err (fill_value_parse dt value)

  abbrev pub accept : {A : Type 0} → (A → Bool) → Option A → Option A
  accept test none = none
  accept test (some a) = if test a then some a else none

  -- The result of an arm whose guard finds a value or fails, when no later arm matches
  abbrev pub guarded : {A : Type 0} → DataType → E.Json → (A → FillValue) → Option A → Parsed
  guarded dt value make found = ok_or (fill_value_parse dt value) (option_map make found)

  module _ ⦃J : JsonValues⦄ where
    open J use {Number, view, as_i64, as_u64, as_f64, f32, f64}

    -- The guard has made sure that the cast to the smaller type keeps the number.
    abbrev pub signed : DataType → E.Json → (ℤ → FillValue) → JsonValue Number E.Json → Parsed
    signed dt value make (JsonValue.number n) =
        guarded dt value make (accept (fits_i64 dt) (as_i64 n))
    signed dt value make _ = refused dt value

    abbrev pub unsigned : DataType → E.Json → (ℕ → FillValue) → JsonValue Number E.Json → Parsed
    unsigned dt value make (JsonValue.number n) =
        guarded dt value make (accept (fits_u64 dt) (as_u64 n))
    unsigned dt value make _ = refused dt value

    abbrev pub float :
        {F : Type 0}
        → Float E.F64 F
        → DataType
        → E.Json
        → (F → FillValue)
        → JsonValue Number E.Json
        → Parsed
    float f dt value make (JsonValue.number n) =
        guarded dt value (λ x. make (f.from_f64 x)) (as_f64 n)
    float f dt value make (JsonValue.string s) =
        if s == codes "NaN"
        then ok (make f.nan)
        else if s == codes "Infinity"
        then ok (make f.infinity)
        else if s == codes "-Infinity"
        then ok (make f.neg_infinity)
        else refused dt value
    float f dt value make _ = refused dt value

    abbrev pub boolean : E.Json → JsonValue Number E.Json → Parsed
    boolean value (JsonValue.bool b) = ok (FillValue.bool b)
    boolean value _ = refused DataType.bool value

    abbrev pub text : E.Json → JsonValue Number E.Json → Parsed
    text value (JsonValue.string s) = ok (FillValue.string s)
    text value _ = refused DataType.string value

    abbrev pub pair64 : E.Json → FillValue → FillValue → Parsed
    pair64 value (FillValue.float32 r) (FillValue.float32 i) = ok (FillValue.complex64 r i)
    pair64 value _ _ = refused DataType.complex64 value

    abbrev pub pair128 : E.Json → FillValue → FillValue → Parsed
    pair128 value (FillValue.float64 r) (FillValue.float64 i) = ok (FillValue.complex128 r i)
    pair128 value _ _ = refused DataType.complex128 value

    -- A recursive call for the parts of a complex number or for a byte
    abbrev pub part32 : E.Json → Parsed
    part32 value = float f32 DataType.float32 value FillValue.float32 (view value)

    abbrev pub part64 : E.Json → Parsed
    part64 value = float f64 DataType.float64 value FillValue.float64 (view value)

    abbrev pub part8 : E.Json → Parsed
    part8 value = unsigned DataType.uint8 value FillValue.uint8 (view value)

    abbrev pub complex :
        DataType
        → E.Json
        → (E.Json → Parsed)
        → (FillValue → FillValue → Parsed)
        → JsonValue Number E.Json
        → Parsed
    complex dt value part pair (JsonValue.array (a ∷ b ∷ [])) =
        part a >>= λ r. part b >>= λ i. pair r i
    complex dt value part pair _ = refused dt value

    abbrev pub byte_of : E.Json → FillValue → Result FillValueError ℕ
    byte_of value (FillValue.uint8 n) = ok n
    byte_of value _ = err (fill_value_parse DataType.bytes value)

    abbrev pub byte_array : E.Json → JsonValue Number E.Json → Parsed
    byte_array value (JsonValue.array arr) = try_map part8 arr >>= λ bytes.
        try_map (byte_of value) bytes >>= λ ns. ok (FillValue.bytes ns)
    byte_array value _ = refused DataType.bytes value

    unfoldable pub from_data_type_and_json : DataType → E.Json → Parsed
    from_data_type_and_json DataType.bool v = boolean v (view v)
    from_data_type_and_json DataType.int8 v = signed DataType.int8 v FillValue.int8 (view v)
    from_data_type_and_json DataType.int16 v = signed DataType.int16 v FillValue.int16 (view v)
    from_data_type_and_json DataType.int32 v = signed DataType.int32 v FillValue.int32 (view v)
    from_data_type_and_json DataType.int64 v = signed DataType.int64 v FillValue.int64 (view v)
    from_data_type_and_json DataType.uint8 v = part8 v
    from_data_type_and_json DataType.uint16 v = unsigned DataType.uint16 v FillValue.uint16 (view v)
    from_data_type_and_json DataType.uint32 v = unsigned DataType.uint32 v FillValue.uint32 (view v)
    from_data_type_and_json DataType.uint64 v = unsigned DataType.uint64 v FillValue.uint64 (view v)
    from_data_type_and_json DataType.float16 v =
        float f32 DataType.float16 v FillValue.float16 (view v)
    from_data_type_and_json DataType.float32 v = part32 v
    from_data_type_and_json DataType.float64 v = part64 v
    from_data_type_and_json DataType.complex64 v =
        complex DataType.complex64 v part32 (pair64 v) (view v)
    from_data_type_and_json DataType.complex128 v =
        complex DataType.complex128 v part64 (pair128 v) (view v)
    from_data_type_and_json DataType.string v = text v (view v)
    from_data_type_and_json DataType.bytes v = byte_array v (view v)

  unfoldable pub get_data_type : FillValue → DataType
  get_data_type (FillValue.bool _) = DataType.bool
  get_data_type (FillValue.int8 _) = DataType.int8
  get_data_type (FillValue.int16 _) = DataType.int16
  get_data_type (FillValue.int32 _) = DataType.int32
  get_data_type (FillValue.int64 _) = DataType.int64
  get_data_type (FillValue.uint8 _) = DataType.uint8
  get_data_type (FillValue.uint16 _) = DataType.uint16
  get_data_type (FillValue.uint32 _) = DataType.uint32
  get_data_type (FillValue.uint64 _) = DataType.uint64
  get_data_type (FillValue.float16 _) = DataType.float16
  get_data_type (FillValue.float32 _) = DataType.float32
  get_data_type (FillValue.float64 _) = DataType.float64
  get_data_type (FillValue.complex64 _ _) = DataType.complex64
  get_data_type (FillValue.complex128 _ _) = DataType.complex128
  get_data_type (FillValue.string _) = DataType.string
  get_data_type (FillValue.bytes _) = DataType.bytes
