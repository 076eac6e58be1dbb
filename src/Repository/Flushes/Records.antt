-- ===== src/Repository/Flushes/Records.antt =====
-- What the store has after a flush.
use icechunk.Prelude.{◌≡◌, ◌⊎◌, List, [], ◌∷◌, map, ok, err, map_ok, Str}
use icechunk.Format.{External, NodePath, SnapshotId, ManifestId}
use icechunk.Format.Chunks.{ChunkInfo}
use icechunk.ChangeSet
use icechunk.ChangeSet.{ChangeSet, is_empty}
use icechunk.Manifest.{Manifest, from_stream}
use icechunk.Snapshot.{Snapshot, ManifestFileInfo, local_ancestry, snapshot_iter}
use icechunk.Storage.{Storage}
use icechunk.TransactionLog.{new_transaction_log}
use icechunk.Repository.{Repository, RepositoryResult}
use icechunk.Repository.Listing.{all_chunks}
use icechunk.Repository.Committing.{Fresh}

module _ ⦃E : External⦄ ⦃S : Storage⦄ where
  open S use {Store, fetch_snapshot, fetch_manifests, fetch_transaction_log}

  -- The files of a snapshot: none for a manifest without chunks, and else the manifest, which the
  -- store has.
  abbrev pub Stored : ManifestId → Manifest → List ManifestFileInfo → Store → Type 0
  Stored id manifest files s =
      ((manifest.chunks ≡ []) × (files ≡ []))
      ⊎ ((files ≡ record { id = id; format_version = manifest.format_version } ∷ [])
          × (fetch_manifests s id ≡ ok manifest))

  -- What the store has of a flush
  pub record Recorded (fresh : Fresh) (repo : Repository) (message : Str) (after : Store)
      : Type 0 where
    pub old : Snapshot
    pub new : Snapshot
    pub chunks : List (RepositoryResult (NodePath × ChunkInfo))
    pub manifest : Manifest
    -- The new snapshot, made from the session's one
    pub parent : fetch_snapshot repo.store repo.snapshot_id ≡ ok old
    pub found : fetch_snapshot after fresh.snapshot_id ≡ ok new
    pub named : new.metadata.id ≡ fresh.snapshot_id
    pub described : new.metadata.message ≡ message
    pub ancestry : local_ancestry new ≡ old.metadata ∷ local_ancestry old
    pub log :
        fetch_transaction_log after fresh.snapshot_id
        ≡ ok (new_transaction_log repo.change_set (snapshot_iter old) (snapshot_iter new))
    -- The manifest of all chunks of the session
    pub listed : all_chunks repo.store repo.change_set repo.snapshot_id ≡ ok chunks
    pub collected : from_stream (map (map_ok (λ e. e.1)) chunks) ≡ ok manifest
    pub stored : Stored fresh.manifest_id manifest new.manifest_files after

  -- The state after a flush: moved to the new snapshot, which is recorded, or the session as it was
  abbrev pub Flushed : Fresh → Repository → Str → RepositoryResult SnapshotId × Repository → Type 0
  Flushed fresh repo message (ok id, after) =
      (id ≡ fresh.snapshot_id)
      × ((after.snapshot_id ≡ id)
          × ((after.change_set ≡ ChangeSet.empty) × Recorded fresh repo message after.store))
  Flushed fresh repo message (err e, after) =
      (after.change_set ≡ repo.change_set) × (after.snapshot_id ≡ repo.snapshot_id)
