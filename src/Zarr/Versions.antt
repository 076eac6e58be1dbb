-- ===== src/Zarr/Versions.antt =====
-- `reset`, `checkout`, `new_branch`, `reset_branch`, `merge`, `commit`, `tag` and `ancestry` of `Store` of
-- icechunk/src/zarr.rs. As in icechunk/src/repository.rs, what other writers do between the retries of
-- `update_branch` is an argument, and `none` means that there were more retries than that list holds.
pub mod Checkout
use icechunk.Prelude.{
  ℕ, Bool, true, false, Option, none, some, List, Result, ok, err, map_err, option_map, Str,
  if◌then◌else◌,
}
use icechunk.Format.{External, SnapshotId}
use icechunk.ChangeSet.{ChangeSet}
use icechunk.Refs.{Codec, RefError, RefResult}
use icechunk.Refs.Writes.{update_branch}
use icechunk.Snapshot.{SnapshotMetadata}
use icechunk.Storage.{Storage}
use icechunk.Repository.{Repository, RepositoryError, RepositoryResult}
use icechunk.Repository.Committing
use icechunk.Repository.Committing.{Fresh}
use icechunk.Repository.Editing.{has_uncommitted_changes, discard_changes}
use icechunk.Repository.Editing
use icechunk.Repository.Opening.{
  raise_if_invalid_snapshot_id, set_snapshot_id, set_snapshot_from_tag, set_snapshot_from_branch,
}
use icechunk.Repository.Opening
use icechunk.Zarr.{
  AccessMode, readonly, VersionInfo, at_snapshot, at_tag, at_branch_tip, ZarrStore, StoreError,
  StoreResult, repository_error, ref_error, uncommitted_changes, not_on_branch,
}

module _ ⦃E : External⦄ ⦃S : Storage⦄ where
  open S use {Store}

  -- A method's result and the store after it
  abbrev pub Method : Type 0 → Type 0
  Method A = StoreResult A × ZarrStore

  abbrev with_repository : ZarrStore → Repository → ZarrStore
  with_repository store repo = record store { repository = repo }

  unfoldable pub reset : ZarrStore → Method ChangeSet
  reset store =
      let (changes, repo) = discard_changes store.repository in
      (ok changes, with_repository store repo)

  unfoldable pub merge_changes : ZarrStore → ChangeSet → ZarrStore
  merge_changes store changes = with_repository store (Editing.merge store.repository changes)

  unfoldable pub ancestry : ZarrStore → StoreResult (Option (List SnapshotMetadata))
  ancestry store = map_err repository_error (Opening.ancestry store.repository)

  -- The branch is forgotten before the snapshot is known to exist; the mode changes after that.
  abbrev detach : ZarrStore → RepositoryResult (Unit {0}) × Repository → Method Unit
  detach store (ok _, repo) =
      (ok tt, record store { repository = repo; mode = readonly; current_branch = none })
  detach store (err e, repo) =
      (err (repository_error e), record store { repository = repo; current_branch = none })

  abbrev at_id :
      Repository
      → SnapshotId
      → RepositoryResult (Unit {0})
      → RepositoryResult (Unit {0}) × Repository
  at_id repo id (ok _) = (ok tt, set_snapshot_id repo id)
  at_id repo id (err e) = (err e, repo)

  module _ ⦃C : Codec⦄ where
    abbrev attach : ZarrStore → Str → RepositoryResult (Unit {0}) × Repository → Method Unit
    attach store branch (r, repo) = (
      map_err repository_error r,
      record store { repository = repo; current_branch = some branch },
    )

    abbrev checkout_clean : ZarrStore → VersionInfo → Method Unit
    checkout_clean store (at_snapshot sid) =
        detach store
          (at_id store.repository sid (raise_if_invalid_snapshot_id store.repository.store sid))
    checkout_clean store (at_tag tag) = detach store (set_snapshot_from_tag store.repository tag)
    checkout_clean store (at_branch_tip branch) =
        attach store branch (set_snapshot_from_branch store.repository branch)

    unfoldable pub checkout : ZarrStore → VersionInfo → Method Unit
    checkout store version =
        if has_uncommitted_changes store.repository
        then (err uncommitted_changes, store)
        else checkout_clean store version

    abbrev on_branch :
        ZarrStore
        → Str
        → Option (RepositoryResult ℕ) × Repository
        → Option (StoreResult (SnapshotId × ℕ)) × ZarrStore
    on_branch store branch (none, repo) = (none, with_repository store repo)
    on_branch store branch (some (err e), repo) =
        (some (err (repository_error e)), with_repository store repo)
    on_branch store branch (some (ok version), repo) = (
      some (ok (repo.snapshot_id, version)),
      record store { repository = repo; current_branch = some branch },
    )

    unfoldable pub new_branch :
        List (Store → Store) → ZarrStore → Str → Option (StoreResult (SnapshotId × ℕ)) × ZarrStore
    new_branch others store branch =
        if has_uncommitted_changes store.repository
        then (some (err uncommitted_changes), store)
        else on_branch store branch (Committing.new_branch others store.repository branch)

    abbrev moved :
        ZarrStore → SnapshotId → Option (RefResult ℕ) × Store → Option (StoreResult ℕ) × ZarrStore
    moved store to (none, s) = (none, with_repository store (record store.repository { store = s }))
    moved store to (some (err e), s) =
        (some (err (ref_error e)), with_repository store (record store.repository { store = s }))
    moved store to (some (ok version), s) = (
      some (ok version),
      with_repository store (set_snapshot_id (record store.repository { store = s }) to),
    )

    abbrev move_branch :
        List (Store → Store)
        → ZarrStore
        → Str
        → SnapshotId
        → RepositoryResult (Unit {0})
        → Option (StoreResult ℕ) × ZarrStore
    move_branch others store branch to (err e) = (some (err (repository_error e)), store)
    move_branch others store branch to (ok _) = moved store to (
        update_branch others store.repository.store branch to (some store.repository.snapshot_id)
          store.repository.config.unsafe_overwrite_refs)

    abbrev reset_current :
        List (Store → Store)
        → ZarrStore
        → SnapshotId
        → Option Str
        → Option (StoreResult ℕ) × ZarrStore
    reset_current others store to none = (some (err not_on_branch), store)
    reset_current others store to (some branch) =
        move_branch others store branch to (raise_if_invalid_snapshot_id store.repository.store to)

    unfoldable pub reset_branch :
        List (Store → Store) → ZarrStore → SnapshotId → Option (StoreResult ℕ) × ZarrStore
    reset_branch others store to =
        if has_uncommitted_changes store.repository
        then (some (err uncommitted_changes), store)
        else reset_current others store to store.current_branch

    abbrev commit_to :
        Fresh
        → List (Store → Store)
        → ZarrStore
        → Str
        → Option Str
        → Option (StoreResult SnapshotId) × ZarrStore
    commit_to fresh others store message none = (some (err not_on_branch), store)
    commit_to fresh others store message (some branch) =
        let (r, repo) = Committing.commit fresh others store.repository branch message none in
        (option_map (map_err repository_error) r, with_repository store repo)

    -- `Store::commit`
    unfoldable pub commit :
        Fresh → List (Store → Store) → ZarrStore → Str → Option (StoreResult SnapshotId) × ZarrStore
    commit fresh others store message = commit_to fresh others store message store.current_branch

    unfoldable pub tag : ZarrStore → Str → SnapshotId → Method Unit
    tag store name snapshot =
        let (r, repo) = Committing.tag store.repository name snapshot in
        (map_err repository_error r, with_repository store repo)
