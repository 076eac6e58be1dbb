-- ===== src/Repository.antt =====
-- icechunk/src/repository.rs: the session. The texts in error messages are left out.
pub mod Reading
pub mod Listing
pub mod Committing
pub mod Flushes
pub mod Rebasing
pub mod Editing
pub mod Edits
pub mod ChunkIo
pub mod Opening
pub mod Commits
use icechunk.Prelude.{ℕ, Bool, Option, List, Result}
use icechunk.Format.{External, NodePath, NodeId, SnapshotId, Bytes}
use icechunk.Format.ByteRanges.{ByteRange}
use icechunk.Format.Chunks.{VirtualChunkLocation}
use icechunk.Format.Nodes.{NodeSnapshot}
use icechunk.ChangeSet.{ChangeSet}
use icechunk.Conflicts.{Conflict}
use icechunk.Manifest.{FormatError}
use icechunk.Refs.{RefError}
use icechunk.Storage.{Storage, StorageError}
use icechunk.VirtualRefs.{VirtualReferenceError}

pub record RepositoryConfig : Type 0 where
  pub inline_chunk_threshold_bytes : ℕ
  pub unsafe_overwrite_refs : Bool

abbrev pub default_config : RepositoryConfig
default_config = record { inline_chunk_threshold_bytes = 512; unsafe_overwrite_refs = Bool.false }

module _ ⦃E : External⦄ where
  pub data RepositoryError : Type 0 where
    storage_error : StorageError → RepositoryError
    snapshot_not_found : SnapshotId → RepositoryError
    format_error : FormatError → RepositoryError
    node_not_found : NodePath → RepositoryError
    not_an_array : NodeSnapshot → RepositoryError
    not_a_group : NodeSnapshot → RepositoryError
    already_exists : NodeSnapshot → RepositoryError
    no_changes_to_commit : RepositoryError
    ref_error : RefError → RepositoryError
    conflict_error : Option SnapshotId → Option SnapshotId → RepositoryError
    rebase_failed : SnapshotId → List Conflict → RepositoryError
    already_initialized : RepositoryError
    virtual_reference_error : VirtualReferenceError → RepositoryError
    conflicting_path_not_found : NodeId → RepositoryError

  abbrev pub RepositoryResult {ℓ} : Type ℓ → Type ℓ
  RepositoryResult A = Result RepositoryError A

module _ ⦃E : External⦄ ⦃S : Storage⦄ where
  open S use {Store}

  -- The store stands for what the shared `Arc<dyn Storage>` points to.
  pub record Repository : Type 0 where
    pub config : RepositoryConfig
    pub store : Store
    pub snapshot_id : SnapshotId
    pub change_set : ChangeSet
