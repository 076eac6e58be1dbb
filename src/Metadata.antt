-- ===== src/Metadata.antt =====
-- icechunk/src/metadata: the Zarr metadata of an array.
pub mod DataTypes
pub mod FillValues
use icechunk.Prelude.{ℕ, ℤ, Bool, Option, List, Str}
use icechunk.Format.{External}

pub data DataType : Type 0 where
  bool int8 int16 int32 int64 uint8 uint16 uint32 uint64 : DataType
  float16 float32 float64 complex64 complex128 string bytes : DataType

module _ ⦃E : External⦄ where
  open E use {Json, F32, F64}

  -- A `HashMap<String, serde_json::Value>`
  pub record Codec : Type 0 where
    pub name : Str
    pub configuration : Option (List (Str × Json))

  pub record StorageTransformer : Type 0 where
    pub name : Str
    pub configuration : Option (List (Str × Json))

  pub record UserAttributes : Type 0 where
    pub parsed : Json

  pub data FillValue : Type 0 where
    bool : Bool → FillValue
    int8 int16 int32 int64 : ℤ → FillValue
    uint8 uint16 uint32 uint64 : ℕ → FillValue
    float16 float32 : F32 → FillValue
    float64 : F64 → FillValue
    complex64 : F32 → F32 → FillValue
    complex128 : F64 → F64 → FillValue
    string : Str → FillValue
    bytes : List ℕ → FillValue

pub data ChunkKeyEncoding : Type 0 where
  slash dot default : ChunkKeyEncoding

-- `ChunkShape(Vec<NonZeroU64>)`
pub record ChunkShape : Type 0 where
  pub sizes : List ℕ
