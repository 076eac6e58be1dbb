-- ===== src/Metadata/DataTypes.antt =====
-- icechunk/src/metadata/data_type.rs: the names of data types.
use icechunk.Prelude.{
  ◌≡◌, ◌↔◌, ◌∙◌, refl, ap, Option, some, [], ◌∷◌, Str, codes, nat_eq, list_eq, list_beq_iff, ◌==◌,
  arith, inl, inr, Bool-cases,
}
use icechunk.Dict.{Map, get}
use icechunk.Metadata.{DataType}

-- `Display`
unfoldable pub print : DataType → Str
print DataType.bool = codes "bool"
print DataType.int8 = codes "int8"
print DataType.int16 = codes "int16"
print DataType.int32 = codes "int32"
print DataType.int64 = codes "int64"
print DataType.uint8 = codes "uint8"
print DataType.uint16 = codes "uint16"
print DataType.uint32 = codes "uint32"
print DataType.uint64 = codes "uint64"
print DataType.float16 = codes "float16"
print DataType.float32 = codes "float32"
print DataType.float64 = codes "float64"
print DataType.complex64 = codes "complex64"
print DataType.complex128 = codes "complex128"
print DataType.string = codes "string"
print DataType.bytes = codes "bytes"

-- The arms of `try_from`, in their order
abbrev pub arms : Map Str DataType
arms =
    (codes "bool", DataType.bool)
    ∷ (codes "int8", DataType.int8)
    ∷ (codes "int16", DataType.int16)
    ∷ (codes "int32", DataType.int32)
    ∷ (codes "int64", DataType.int64)
    ∷ (codes "uint8", DataType.uint8)
    ∷ (codes "uint16", DataType.uint16)
    ∷ (codes "uint32", DataType.uint32)
    ∷ (codes "uint64", DataType.uint64)
    ∷ (codes "float16", DataType.float16)
    ∷ (codes "float32", DataType.float32)
    ∷ (codes "float64", DataType.float64)
    ∷ (codes "complex64", DataType.complex64)
    ∷ (codes "complex128", DataType.complex128)
    ∷ (codes "string", DataType.string)
    ∷ (codes "bytes", DataType.bytes)
    ∷ []

-- `TryFrom<&str>`: the first arm that matches; `none` is the error.
unfoldable pub try_from : Str → Option DataType
try_from value = get arms value

-- Each arm is under the name that is printed.
abbrev Printed : Map Str DataType → Type 0
Printed [] = Unit
Printed ((name, t) ∷ rest) = (name ≡ print t) × Printed rest

get-Printed :
    (m : Map Str DataType) (value : Str) (t : DataType)
    → Printed m
    → get m value ≡ some t
    → value ≡ print t
unfolding get
get-Printed [] value t p h = ground (arith, h)
get-Printed ((name, u) ∷ m) value t p h = elim (Bool-cases (name == value)) [
  | inl same ↦ ground (arith, p.0, h, same, list_beq_iff name value)
  | inr other ↦ get-Printed m value t p.1 (ground (arith, h, other))
]

arms-Printed : Printed arms
unfolding print
arms-Printed = (
  refl,
  (
    refl,
    (
      refl,
      (
        refl,
        (
          refl,
          (
            refl,
            (refl, (refl, (refl, (refl, (refl, (refl, (refl, (refl, (refl, (refl, tt)))))))))),
          ),
        ),
      ),
    ),
  ),
)

try_from-print : (t : DataType) → try_from (print t) ≡ some t
unfolding try_from print get
try_from-print DataType.bool = refl
try_from-print DataType.int8 = refl
try_from-print DataType.int16 = refl
try_from-print DataType.int32 = refl
try_from-print DataType.int64 = refl
try_from-print DataType.uint8 = refl
try_from-print DataType.uint16 = refl
try_from-print DataType.uint32 = refl
try_from-print DataType.uint64 = refl
try_from-print DataType.float16 = refl
try_from-print DataType.float32 = refl
try_from-print DataType.float64 = refl
try_from-print DataType.complex64 = refl
try_from-print DataType.complex128 = refl
try_from-print DataType.string = refl
try_from-print DataType.bytes = refl

-- A text is read as a data type exactly if it is what that data type is printed as.
pub try_from-iff-print :
    (value : Str) (t : DataType) → (try_from value ≡ some t) ↔ (value ≡ print t)
unfolding try_from
try_from-iff-print value t =
    (get-Printed arms value t arms-Printed, λ h. ap try_from h ∙ try_from-print t)
