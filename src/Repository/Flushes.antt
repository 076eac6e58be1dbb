-- ===== src/Repository/Flushes.antt =====
-- What a `flush` of icechunk/src/repository.rs leaves in the store.
pub mod Records
pub mod Steps
use icechunk.Prelude.{
  ℕ, zero, suc, ◌≡◌, refl, ap, sym, ◌∙◌, ◌⊎◌, inl, inr, Bool, true, false, Option, none, some, List,
  [], ◌∷◌, map, arith, Result, ok, err, map_err, map_err-ok, map_ok, Str, if◌then◌else◌, length,
}
use icechunk.Exec.{Exec, pure, raise, reading, writing, lift, ◌>>=◌, ◌>>◌}
use icechunk.Exec.Runs.{proceed-ok}
use icechunk.Format.{External, NodePath, SnapshotId, ManifestId}
use icechunk.Format.Chunks.{ChunkInfo}
use icechunk.Format.Nodes.{NodeSnapshot}
use icechunk.ChangeSet
use icechunk.ChangeSet.{ChangeSet, is_empty}
use icechunk.Manifest.{Manifest, from_stream, manifest_len}
use icechunk.Snapshot.{
  Snapshot, SnapshotProperties, ManifestFileInfo, from_iter, local_ancestry, snapshot_iter,
}
use icechunk.Storage.{Storage, StorageResult}
use icechunk.Storage.Caching.Refinement.{ReadsWritten}
use icechunk.Storage.SessionWrites.{WritesApart}
use icechunk.TransactionLog.{TransactionLog, new_transaction_log}
use icechunk.Repository.{
  Repository, RepositoryError, RepositoryResult, storage_error, no_changes_to_commit,
}
use icechunk.Repository.Listing.{all_chunks, updated_nodes}
use icechunk.Repository.Committing.{
  Fresh, Commit, flush, flush_session, flush_changes, flushed, write_manifest_if_any, make_snapshot,
}
use icechunk.Repository.Flushes.Records.{Recorded, Flushed}
use icechunk.Repository.Flushes.Steps.{flush_changes-Recorded}

module _ ⦃E : External⦄ ⦃S : Storage⦄ where
  open S use {Store}

  if_changed :
      (W : ReadsWritten) (A : WritesApart) (fresh : Fresh) (repo : Repository) (message : Str)
      (properties : SnapshotProperties) (empty : Bool) (r : RepositoryResult SnapshotId) (s : Store)
      → (if empty
            then raise no_changes_to_commit
            else flush_changes fresh repo.change_set repo.snapshot_id message properties)
          repo.store
        ≡ (r, s)
      → Flushed fresh repo message (flushed repo (r, s))
  if_changed W A fresh repo message properties empty (err e) s h = (refl, refl)
  if_changed W A fresh repo message properties true (ok id) s h = ground (arith, h)
  if_changed W A fresh repo message properties false (ok id) s h =
      let (named, recorded) = flush_changes-Recorded W A fresh repo message properties id s h in
      (named, (refl, (refl, recorded)))

  -- For a store that reads what was written and keeps the kinds of objects apart. A flush that
  -- succeeds returns the fresh id, and leaves the session without changes on that snapshot. The store
  -- then has the snapshot, with the message, and with the history of the session's snapshot behind
  -- that snapshot; its transaction log, made from the session's changes and both snapshots; and the
  -- manifest of all chunks of the session, the one file that the snapshot names (none if there are no
  -- chunks). A flush that fails, wherever it fails, leaves the session's changes and its snapshot as
  -- they were.
  pub flush-Flushed :
      (W : ReadsWritten) (A : WritesApart) (fresh : Fresh) (repo : Repository) (message : Str)
      (properties : SnapshotProperties)
      → Flushed fresh repo message (flush fresh repo message properties)
  unfolding flush flush_session
  flush-Flushed W A fresh repo message properties =
      let run =
        flush_session fresh repo.change_set repo.snapshot_id message properties repo.store in
      if_changed W A fresh repo message properties (is_empty repo.change_set) run.0 run.1 refl
