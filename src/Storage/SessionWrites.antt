-- ===== src/Storage/SessionWrites.antt =====
-- What a flush asks of a store beside reading what was written: the kinds of objects are kept apart.
use icechunk.Prelude.{◌≡◌}
use icechunk.Format.{External, SnapshotId, ManifestId}
use icechunk.Manifest.{Manifest}
use icechunk.Snapshot.{Snapshot}
use icechunk.Storage.{Storage}
use icechunk.TransactionLog.{TransactionLog}

module _ ⦃E : External⦄ ⦃S : Storage⦄ where
  open S use {
    Store, fetch_snapshot, fetch_manifests, write_snapshot, write_manifests, write_transaction_log,
  }

  pub record WritesApart : Type 0 where
    pub snapshot_beside_manifest :
        (s : Store) (id : ManifestId) (a : Manifest) (snapshot : SnapshotId)
        → fetch_snapshot (write_manifests s id a).1 snapshot ≡ fetch_snapshot s snapshot
    pub snapshot_beside_log :
        (s : Store) (id : SnapshotId) (a : TransactionLog) (snapshot : SnapshotId)
        → fetch_snapshot (write_transaction_log s id a).1 snapshot ≡ fetch_snapshot s snapshot
    pub manifest_beside_snapshot :
        (s : Store) (id : SnapshotId) (a : Snapshot) (manifest : ManifestId)
        → fetch_manifests (write_snapshot s id a).1 manifest ≡ fetch_manifests s manifest
    pub manifest_beside_log :
        (s : Store) (id : SnapshotId) (a : TransactionLog) (manifest : ManifestId)
        → fetch_manifests (write_transaction_log s id a).1 manifest ≡ fetch_manifests s manifest
