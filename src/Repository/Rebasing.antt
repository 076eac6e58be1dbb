-- ===== src/Repository/Rebasing.antt =====
-- `rebase` of icechunk/src/repository.rs. A solver is a function; `none` is its panic.
pub mod Progress
pub mod Solvers
use icechunk.Prelude.{
  ℕ, Bool, true, false, not, Option, none, some, List, [], ◌∷◌, ◌++◌, map, nat_eq, list_eq, ◌==◌,
  Eq, Result, ok, err, if◌then◌else◌, Str, take_while,
}
use mathlib.Core.List.{reverse}
use icechunk.Format.{External, SnapshotId}
use icechunk.ChangeSet
use icechunk.ChangeSet.{ChangeSet}
use icechunk.Conflicts.{ConflictResolution, patched, unsolvable}
use icechunk.Refs.{Codec, RefData, RefResult, fetch_branch_tip}
use icechunk.Snapshot.{Snapshot, SnapshotMetadata, local_ancestry}
use icechunk.Storage.{Storage, StorageResult}
use icechunk.TransactionLog.{TransactionLog}
use icechunk.Repository.{
  Repository, RepositoryError, RepositoryResult, storage_error, ref_error, rebase_failed,
}
use icechunk.Repository.Editing.{Done}

module _ ⦃E : External⦄ ⦃S : Storage⦄ where
  open S use {Store, fetch_snapshot, fetch_transaction_log}

  -- `ConflictSolver::solve`: the log, the previous repository, the changes and the current repository
  abbrev pub ConflictSolver : Type 0
  ConflictSolver =
      TransactionLog
      → Repository
      → ChangeSet
      → Repository
      → Option (RepositoryResult ConflictResolution)

  -- The repository at a commit, without changes
  abbrev pub previous_repo : Repository → SnapshotId → Repository
  previous_repo repo snap_id = record repo { change_set = ChangeSet.empty; snapshot_id = snap_id }

  -- After `take(&mut self.change_set)`
  abbrev pub taken : Repository → Repository
  taken repo = record repo { change_set = ChangeSet.empty }

  abbrev pub forwarded : Repository → SnapshotId → ChangeSet → Repository
  forwarded repo snap_id cs = record repo { change_set = cs; snapshot_id = snap_id }

  -- The match on what the solver gives; an error returns by `?`, while the change set is taken.
  abbrev pub resolved :
      Repository
      → SnapshotId
      → Option (RepositoryResult ConflictResolution)
      → (Repository → Option Done)
      → Option Done
  resolved repo snap_id none rest = none
  resolved repo snap_id (some (err e)) rest = some (err e, taken repo)
  resolved repo snap_id (some (ok (patched cs))) rest = rest (forwarded repo snap_id cs)
  resolved repo snap_id (some (ok (unsolvable reason unmodified))) rest =
      some (err (rebase_failed snap_id reason), record repo { change_set = unmodified })

  abbrev pub with_log :
      ConflictSolver
      → Repository
      → SnapshotId
      → StorageResult TransactionLog
      → (Repository → Option Done)
      → Option Done
  with_log solver repo snap_id (err e) rest = some (err (storage_error e), repo)
  with_log solver repo snap_id (ok tx_log) rest =
      resolved repo snap_id
        (solver tx_log (previous_repo repo snap_id) repo.change_set (taken repo)) rest

  -- The loop over the new commits, the oldest first
  unfoldable pub replay : ConflictSolver → List SnapshotId → Repository → Option Done
  replay solver [] repo = some (ok tt, repo)
  replay solver (snap_id ∷ ids) repo =
      with_log solver repo snap_id (fetch_transaction_log repo.store snap_id) (replay solver ids)

  -- `new_commits`, the newest first
  unfoldable pub new_commits : SnapshotId → SnapshotId → Snapshot → List SnapshotId
  new_commits own tip current_snapshot =
      tip
      ∷ take_while (λ id. not (id == own))
          (map (λ m. SnapshotMetadata.id m) (local_ancestry current_snapshot))

  abbrev pub from_tip :
      ConflictSolver → Repository → SnapshotId → StorageResult Snapshot → Option Done
  from_tip solver repo tip (err e) = some (err (storage_error e), repo)
  from_tip solver repo tip (ok current_snapshot) =
      replay solver (reverse (new_commits repo.snapshot_id tip current_snapshot)) repo

  abbrev pub onto : ConflictSolver → Repository → RefResult RefData → Option Done
  onto solver repo (err e) = some (err (ref_error e), repo)
  onto solver repo (ok ref_data) =
      if ref_data.snapshot == repo.snapshot_id
      then some (ok tt, repo)
      else from_tip solver repo ref_data.snapshot (fetch_snapshot repo.store ref_data.snapshot)

module _ ⦃E : External⦄ ⦃S : Storage⦄ ⦃C : Codec⦄ where
  unfoldable pub rebase : ConflictSolver → Repository → Str → Option Done
  unfolding replay new_commits
  rebase solver repo branch = onto solver repo (fetch_branch_tip repo.store branch)
