-- ===== src/Storage.antt =====
-- The trait `Storage` of icechunk/src/storage/mod.rs: what the repository asks of an object store.
-- A read leaves the store alone; a write gives the new store beside its result. The attribute files,
-- which nothing writes, are left out.
pub mod Deletion
pub mod ChunkWrites
pub mod SessionWrites
pub mod Caching
use icechunk.Prelude.{ℕ, Bool, List, Str, Result}
use icechunk.Format.{External, SnapshotId, ManifestId, ChunkId, Bytes, DateTime}
use icechunk.Format.ByteRanges.{ByteRange}
use icechunk.Manifest.{Manifest}
use icechunk.Snapshot.{Snapshot}
use icechunk.TransactionLog.{TransactionLog}

-- `StorageError`: the errors that the program tells apart, and one constructor for the wrapped errors
-- of the packages.
pub data StorageError : Type 0 where
  ref_already_exists : Str → StorageError
  ref_not_found : Str → StorageError
  wrapped : Str → StorageError

abbrev pub StorageResult : Type 0 → Type 0
StorageResult A = Result StorageError A

pub record ListInfo : Type 0 where
  pub id : List ℕ
  pub created_at : DateTime

pub record Storage ⦃E : External⦄ : Type 1 where
  pub Store : Type 0
  pub fetch_snapshot : Store → SnapshotId → StorageResult Snapshot
  pub fetch_manifests : Store → ManifestId → StorageResult Manifest
  pub fetch_chunk : Store → ChunkId → ByteRange → StorageResult Bytes
  pub fetch_transaction_log : Store → SnapshotId → StorageResult TransactionLog
  pub write_snapshot : Store → SnapshotId → Snapshot → StorageResult Unit × Store
  pub write_manifests : Store → ManifestId → Manifest → StorageResult Unit × Store
  pub write_chunk : Store → ChunkId → Bytes → StorageResult Unit × Store
  pub write_transaction_log : Store → SnapshotId → TransactionLog → StorageResult Unit × Store
  pub get_ref : Store → Str → StorageResult Bytes
  pub ref_names : Store → StorageResult (List Str)
  pub ref_versions : Store → Str → StorageResult (List (StorageResult Str))
  pub write_ref : Store → Str → Bool → Bytes → StorageResult Unit × Store
  pub list_chunks : Store → StorageResult (List (StorageResult ListInfo))
  pub list_manifests : Store → StorageResult (List (StorageResult ListInfo))
  pub list_snapshots : Store → StorageResult (List (StorageResult ListInfo))
  pub delete_chunks : Store → List ChunkId → StorageResult ℕ × Store
  pub delete_manifests : Store → List ManifestId → StorageResult ℕ × Store
  pub delete_snapshots : Store → List SnapshotId → StorageResult ℕ × Store
