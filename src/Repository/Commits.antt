-- ===== src/Repository/Commits.antt =====
-- What `flush` and `do_commit` of icechunk/src/repository.rs leave of a session.
use icechunk.Prelude.{
  ok_inj, ℕ, ◌≡◌, refl, ◌∙◌, Option, none, some, List, [], arith, nat_eq, list_eq, ok, err,
  unwrap_or, Str,
}
use icechunk.Format.{External, SnapshotId}
use icechunk.ChangeSet
use icechunk.ChangeSet.{ChangeSet, is_empty}
use icechunk.Refs.{Codec, RefResult}
use icechunk.Refs.Writes.{update_branch}
use icechunk.Snapshot.{SnapshotProperties}
use icechunk.Storage.{Storage}
use icechunk.Repository.{Repository, RepositoryError, RepositoryResult, no_changes_to_commit}
use icechunk.Repository.Committing.{
  Fresh, flush, flush_session, flushed, do_commit, publish, committed,
}

module _ ⦃E : External⦄ ⦃S : Storage⦄ where
  -- The session's part after a flush: moved to the new snapshot, or as it was
  abbrev Moved : Repository → RepositoryResult SnapshotId × Repository → Type 0
  Moved repo (ok id, after) = (after.change_set ≡ ChangeSet.empty) × (after.snapshot_id ≡ id)
  Moved repo (err e, after) =
      (after.change_set ≡ repo.change_set) × (after.snapshot_id ≡ repo.snapshot_id)

  flushed-Moved :
      (repo : Repository) (r : RepositoryResult SnapshotId × S.Store) → Moved repo (flushed repo r)
  flushed-Moved repo (ok id, s) = (refl, refl)
  flushed-Moved repo (err e, s) = (refl, refl)

  -- A flush that succeeds leaves a session without changes on the snapshot that it returns; a flush
  -- that fails, wherever it fails, leaves the session's changes and its snapshot as they were.
  flush-Moved :
      (fresh : Fresh) (repo : Repository) (message : Str) (properties : SnapshotProperties)
      → Moved repo (flush fresh repo message properties)
  unfolding flush
  flush-Moved fresh repo message properties =
      flushed-Moved repo
        (flush_session fresh repo.change_set repo.snapshot_id message properties repo.store)

  nothing_to_flush :
      (fresh : Fresh) (repo : Repository) (message : Str) (properties : SnapshotProperties)
      → repo.change_set ≡ ChangeSet.empty
      → (flush fresh repo message properties).0 ≡ err no_changes_to_commit
  unfolding flush is_empty
  nothing_to_flush fresh repo message properties h = rw h refl

module _ ⦃E : External⦄ ⦃S : Storage⦄ ⦃C : Codec⦄ where
  committed_keeps :
      (after : Repository) (id : SnapshotId) (r : Option (RefResult ℕ) × S.Store)
      → ((committed after id r).1.change_set ≡ after.change_set)
        × ((committed after id r).1.snapshot_id ≡ after.snapshot_id)
  committed_keeps after id (none, s) = (refl, refl)
  committed_keeps after id (some (ok v), s) = (refl, refl)
  committed_keeps after id (some (err e), s) = (refl, refl)

  -- Whatever the update of the branch gives, the session stays flushed.
  publish_keeps :
      (others : List (S.Store → S.Store)) (branch : Str) (parent id : SnapshotId)
      (repo : Repository) (after : RepositoryResult SnapshotId × Repository)
      → Moved repo after
      → after.0 ≡ ok id
      → ((publish others branch parent after).1.change_set ≡ ChangeSet.empty)
        × ((publish others branch parent after).1.snapshot_id ≡ id)
  publish_keeps others branch parent id repo (err e, after) f h = ground (arith, h)
  publish_keeps others branch parent id repo (ok id', after) f h =
      let (same, stays) = committed_keeps after id' (
        update_branch others after.store branch id' (some parent)
          after.config.unsafe_overwrite_refs) in
      (same ∙ f.0, stays ∙ f.1 ∙ ok_inj id' id h)

  -- If a commit writes its snapshot and then fails to update the branch, the session has lost its
  -- changes: it stands on the new snapshot, and another flush finds nothing to commit.
  pub do_commit_lost :
      (fresh again : Fresh) (others : List (S.Store → S.Store)) (repo : Repository)
      (branch message : Str) (properties : Option SnapshotProperties) (id : SnapshotId)
      (e : RepositoryError)
      → (flush fresh repo message (unwrap_or properties [])).0 ≡ ok id
      → (do_commit fresh others repo branch message properties).0 ≡ some (err e)
      → ((do_commit fresh others repo branch message properties).1.snapshot_id ≡ id)
        × ((flush again (do_commit fresh others repo branch message properties).1 message []).0
            ≡ err no_changes_to_commit)
  unfolding do_commit
  do_commit_lost fresh again others repo branch message properties id e written failed =
      let (no_changes, stays) =
        publish_keeps others branch repo.snapshot_id id repo
          (flush fresh repo message (unwrap_or properties []))
          (flush-Moved fresh repo message (unwrap_or properties [])) written in
      (
        stays,
        nothing_to_flush again (do_commit fresh others repo branch message properties).1 message []
            no_changes,
      )
