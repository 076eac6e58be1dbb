-- ===== src/Zarr/Documents.antt =====
-- `ArrayMetadata` and `GroupMetadata` of icechunk/src/zarr.rs: the documents of a node. How `serde_json`
-- writes and reads them is a parameter.
use icechunk.Prelude.{ℕ, Option, Str, codes}
use icechunk.Format.{External, Bytes}
use icechunk.Format.Nodes.{ZarrArrayMetadata}
use icechunk.Metadata.{UserAttributes}

module _ ⦃E : External⦄ where
  pub record ArrayMetadata : Type 0 where
    pub zarr_format : ℕ
    pub node_type : Str
    pub attributes : Option UserAttributes
    pub zarr_metadata : ZarrArrayMetadata

  pub record GroupMetadata : Type 0 where
    pub zarr_format : ℕ
    pub node_type : Str
    pub attributes : Option UserAttributes

  -- `ArrayMetadata::new` and `GroupMetadata::new`
  abbrev pub new_array_metadata : Option UserAttributes → ZarrArrayMetadata → ArrayMetadata
  new_array_metadata attributes zarr_metadata = record {
    zarr_format = 3;
    node_type = codes "array";
    attributes = attributes;
    zarr_metadata = zarr_metadata;
  }

  abbrev pub new_group_metadata : Option UserAttributes → GroupMetadata
  new_group_metadata attributes = record {
    zarr_format = 3;
    node_type = codes "group";
    attributes = attributes;
  }

  -- `serde_json::from_slice` and `to_vec` for the two; a document that does not parse is `none`.
  pub record Documents : Type 0 where
    pub array_from_slice : Bytes → Option ArrayMetadata
    pub group_from_slice : Bytes → Option GroupMetadata
    pub array_to_bytes : ArrayMetadata → Bytes
    pub group_to_bytes : GroupMetadata → Bytes
