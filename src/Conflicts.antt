-- ===== src/Conflicts.antt =====
-- icechunk/src/conflicts/mod.rs: the conflicts of a session with a commit, and what a solver gives.
pub mod PathFinder
pub mod Detector
pub mod Solver
use icechunk.Prelude.{List}
use icechunk.Format.{External, NodePath, NodeId, ChunkIndices}
use icechunk.ChangeSet.{ChangeSet}

module _ ⦃E : External⦄ where
  pub data Conflict : Type 0 where
    new_node_conflicts_with_existing_node : NodePath → Conflict
    new_node_in_invalid_group : NodePath → Conflict
    zarr_metadata_double_update : NodePath → Conflict
    zarr_metadata_update_of_deleted_array : NodePath → Conflict
    user_attributes_double_update : NodePath → NodeId → Conflict
    user_attributes_update_of_deleted_node : NodePath → Conflict
    chunk_double_update : NodePath → NodeId → List ChunkIndices → Conflict
    chunks_updated_in_deleted_array : NodePath → NodeId → Conflict
    chunks_updated_in_updated_array : NodePath → NodeId → Conflict
    delete_of_updated_array : NodePath → Conflict
    delete_of_updated_group : NodePath → Conflict

  -- `Unsolvable { reason, unmodified }`
  pub data ConflictResolution : Type 0 where
    patched : ChangeSet → ConflictResolution
    unsolvable : List Conflict → ChangeSet → ConflictResolution
