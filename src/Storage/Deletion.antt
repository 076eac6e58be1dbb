-- ===== src/Storage/Deletion.antt =====
-- What garbage collection asks of a store: deleting objects leaves the others as they are.
use icechunk.Prelude.{◌≡◌, false, List, nat_eq, list_eq, contains}
use icechunk.Format.{External, SnapshotId, ManifestId, ChunkId}
use icechunk.Format.ByteRanges.{ByteRange}
use icechunk.Storage.{Storage}

module _ ⦃E : External⦄ ⦃S : Storage⦄ where
  open S use {
    Store, fetch_snapshot, fetch_manifests, fetch_chunk, delete_snapshots, delete_manifests,
    delete_chunks,
  }

  pub record DeletesOnly : Type 0 where
    pub snapshot_kept :
        (s : Store) (ids : List SnapshotId) (id : SnapshotId)
        → contains ids id ≡ false
        → fetch_snapshot (delete_snapshots s ids).1 id ≡ fetch_snapshot s id
    pub manifest_kept :
        (s : Store) (ids : List ManifestId) (id : ManifestId)
        → contains ids id ≡ false
        → fetch_manifests (delete_manifests s ids).1 id ≡ fetch_manifests s id
    pub chunk_kept :
        (s : Store) (ids : List ChunkId) (id : ChunkId) (range : ByteRange)
        → contains ids id ≡ false
        → fetch_chunk (delete_chunks s ids).1 id range ≡ fetch_chunk s id range
    pub snapshot_beside_manifests :
        (s : Store) (ids : List ManifestId) (id : SnapshotId)
        → fetch_snapshot (delete_manifests s ids).1 id ≡ fetch_snapshot s id
    pub snapshot_beside_chunks :
        (s : Store) (ids : List ChunkId) (id : SnapshotId)
        → fetch_snapshot (delete_chunks s ids).1 id ≡ fetch_snapshot s id
    pub manifest_beside_snapshots :
        (s : Store) (ids : List SnapshotId) (id : ManifestId)
        → fetch_manifests (delete_snapshots s ids).1 id ≡ fetch_manifests s id
    pub manifest_beside_chunks :
        (s : Store) (ids : List ChunkId) (id : ManifestId)
        → fetch_manifests (delete_chunks s ids).1 id ≡ fetch_manifests s id
    pub chunk_beside_snapshots :
        (s : Store) (ids : List SnapshotId) (id : ChunkId) (range : ByteRange)
        → fetch_chunk (delete_snapshots s ids).1 id range ≡ fetch_chunk s id range
    pub chunk_beside_manifests :
        (s : Store) (ids : List ManifestId) (id : ChunkId) (range : ByteRange)
        → fetch_chunk (delete_manifests s ids).1 id range ≡ fetch_chunk s id range
