-- ===== src/Storage/ChunkWrites.antt =====
-- What writing and reading chunks asks of a store.
use icechunk.Prelude.{◌≡◌, ◌≢◌, [], some, ok}
use icechunk.Format.{External, SnapshotId, ManifestId, ChunkId, Bytes}
use icechunk.Format.ByteRanges.{ByteRange, bounded, from, last, slice}
use icechunk.Storage.{Storage}

-- The parts that all object stores serve: those that are not empty, of a range that is not counted
-- from the end. (`range_to_header` of icechunk/src/storage/s3.rs asks for other bytes than the last
-- ones, and an object store refuses a range without bytes.)
abbrev pub Served : ByteRange → Bytes → Type 0
Served (bounded start end) part = part ≢ []
Served (from start) part = part ≢ []
Served (last n) part = ⊥

module _ ⦃E : External⦄ ⦃S : Storage⦄ where
  open S use {Store, fetch_snapshot, fetch_manifests, fetch_chunk, write_chunk}

  -- A chunk that was written is read, and a part of it that is served too; other kinds of objects
  -- are kept.
  pub record WritesChunks : Type 0 where
    pub fetch_written :
        (s : Store) (id : ChunkId) (bytes part : Bytes) (range : ByteRange)
        → (write_chunk s id bytes).0 ≡ ok tt
        → slice range bytes ≡ some part
        → Served range part
        → fetch_chunk (write_chunk s id bytes).1 id range ≡ ok part
    pub snapshot_beside :
        (s : Store) (id : ChunkId) (bytes : Bytes) (snapshot : SnapshotId)
        → fetch_snapshot (write_chunk s id bytes).1 snapshot ≡ fetch_snapshot s snapshot
    pub manifest_beside :
        (s : Store) (id : ChunkId) (bytes : Bytes) (manifest : ManifestId)
        → fetch_manifests (write_chunk s id bytes).1 manifest ≡ fetch_manifests s manifest
