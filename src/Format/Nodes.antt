-- ===== src/Format/Nodes.antt =====
-- Nodes: the types of icechunk/src/format/snapshot.rs.
use icechunk.Prelude.{ℕ, ◌≡◌, ◌↔◌, Bool, true, false, Option, List, Str, arith, Eq}
use icechunk.Format.{External, NodePath, NodeId, AttributesId}
use icechunk.Format.Chunks.{ManifestRef}
use icechunk.Metadata.{
  DataType, Codec, StorageTransformer, UserAttributes, FillValue, ChunkKeyEncoding, ChunkShape,
}

pub record UserAttributesRef : Type 0 where
  pub object_id : AttributesId
  pub location : ℕ

pub data NodeType : Type 0 where
  group array : NodeType

abbrev pub node_type_beq : NodeType → NodeType → Bool
node_type_beq NodeType.group NodeType.group = true
node_type_beq NodeType.array NodeType.array = true
node_type_beq _ _ = false

pub node_type_beq_iff : (a b : NodeType) → (node_type_beq a b ≡ true) ↔ (a ≡ b)
node_type_beq_iff a b = ground arith

instance abbrev pub node_type_eq : Eq NodeType
node_type_eq = record { beq = node_type_beq; beq_iff = node_type_beq_iff }

module _ ⦃E : External⦄ where
  pub data UserAttributesSnapshot : Type 0 where
    inline : UserAttributes → UserAttributesSnapshot
    ref : UserAttributesRef → UserAttributesSnapshot

  pub record ZarrArrayMetadata : Type 0 where
    pub shape : List ℕ
    pub data_type : DataType
    pub chunk_shape : ChunkShape
    pub chunk_key_encoding : ChunkKeyEncoding
    pub fill_value : FillValue
    pub codecs : List Codec
    pub storage_transformers : Option (List StorageTransformer)
    pub dimension_names : Option (List (Option Str))

  pub data NodeData : Type 0 where
    array : ZarrArrayMetadata → List ManifestRef → NodeData
    group : NodeData

  pub record NodeSnapshot : Type 0 where
    pub id : NodeId
    pub path : NodePath
    pub user_attributes : Option UserAttributesSnapshot
    pub node_data : NodeData

  unfoldable pub node_type : NodeSnapshot → NodeType
  node_type n = elim n.node_data [
    | NodeData.group ↦ NodeType.group
    | NodeData.array _ _ ↦ NodeType.array
  ]
