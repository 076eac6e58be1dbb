-- ===== src/Zarr.antt =====
-- icechunk/src/zarr.rs: the Zarr store over a repository. The texts in error messages are left out.
pub mod Keys
pub mod Documents
pub mod Reading
pub mod Writing
pub mod ChunkKeys
pub mod Versions
pub mod Opening
pub mod Listing
use icechunk.Prelude.{ℕ, Bool, Option, none, some, Result, unwrap_or, Str}
use icechunk.Format.{External, NodePath, ChunkIndices, SnapshotId}
use icechunk.Refs.{RefError}
use icechunk.Storage.{Storage}
use icechunk.Repository.{Repository, RepositoryError}

pub data AccessMode : Type 0 where
  readonly : AccessMode
  readwrite : AccessMode

pub data VersionInfo : Type 0 where
  at_snapshot : SnapshotId → VersionInfo
  at_tag : Str → VersionInfo
  at_branch_tip : Str → VersionInfo

module _ ⦃E : External⦄ where
  pub data KeyNotFoundError : Type 0 where
    chunk_not_found : Str → NodePath → ChunkIndices → KeyNotFoundError
    node_not_found : NodePath → KeyNotFoundError
    zarr_v2_key_not_found : Str → KeyNotFoundError

  pub data StoreError : Type 0 where
    invalid_key : Str → StoreError
    not_allowed : StoreError
    not_found : KeyNotFoundError → StoreError
    repository_error : RepositoryError → StoreError
    merge_error : StoreError
    ref_error : RefError → StoreError
    no_snapshot : StoreError
    not_on_branch : StoreError
    bad_metadata : StoreError
    unimplemented : StoreError
    bad_key_prefix : Str → StoreError
    partial_values_panic : StoreError
    read_only : StoreError
    uncommitted_changes : StoreError
    unknown : StoreError

  abbrev pub StoreResult {ℓ} : Type ℓ → Type ℓ
  StoreResult A = Result StoreError A

module _ ⦃E : External⦄ ⦃S : Storage⦄ where
  -- `Store`: the lock around the repository is left out.
  pub record ZarrStore : Type 0 where
    pub repository : Repository
    pub mode : AccessMode
    pub current_branch : Option Str
    pub get_partial_values_concurrency : ℕ

  -- `from_repository`
  abbrev pub from_repository : Repository → AccessMode → Option Str → Option ℕ → ZarrStore
  from_repository repository mode current_branch config = record {
    repository = repository;
    mode = mode;
    current_branch = current_branch;
    get_partial_values_concurrency = unwrap_or config 10;
  }

  abbrev pub set_mode : ZarrStore → AccessMode → ZarrStore
  set_mode store mode = record store { mode = mode }

  unfoldable pub current_version : ZarrStore → VersionInfo
  current_version store = elim store.current_branch [
    | some branch ↦ at_branch_tip branch
    | none ↦ at_snapshot store.repository.snapshot_id
  ]
