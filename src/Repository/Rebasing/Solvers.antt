-- ===== src/Repository/Rebasing/Solvers.antt =====
-- `rebase` of icechunk/src/repository.rs with the solver of icechunk/src/conflicts/basic_solver.rs.
use icechunk.Prelude.{
  Bool, true, false, Str, ◌==◌, if◌then◌else◌, ◌≡◌, ◌≢◌, refl, Option, none, some, List, [], ◌∷◌,
  arith, nat_eq, list_eq, ok, err, ◌>>=◌, inl, inr,
}
use mathlib.Core.List.{reverse, reverse-reverse}
use icechunk.Format.{External, SnapshotId}
use icechunk.ChangeSet.{ChangeSet}
use icechunk.Conflicts.{Conflict, ConflictResolution, patched, unsolvable}
use icechunk.Conflicts.Detector.{resolution, detect, all_conflicts, try_collect}
use icechunk.Conflicts.Solver.{BasicConflictSolver, solve, after_detection}
use icechunk.Conflicts.Solver.Resolution.{solve_conflicts_lem}
use icechunk.Refs.{Codec, RefData, RefError, RefResult, fetch_branch_tip}
use icechunk.Snapshot.{Snapshot}
use icechunk.Storage.{Storage, StorageError, StorageResult}
use icechunk.TransactionLog.{TransactionLog}
use icechunk.Format.Nodes.{NodeSnapshot}
use icechunk.Repository.{Repository, RepositoryError, RepositoryResult, storage_error, ref_error}
use icechunk.Repository.Listing.{updated_nodes}
use icechunk.Repository.Editing.{Done}
use icechunk.Repository.Rebasing.{
  previous_repo, taken, forwarded, resolved, with_log, replay, new_commits, from_tip, onto, rebase,
}
use icechunk.Repository.Rebasing.Progress.{Unmodified, Stopped, replay-Stopped}

module _ ⦃E : External⦄ ⦃S : Storage⦄ (solver : BasicConflictSolver) where
  -- The detector gives back the change set that it was given.
  abbrev Gives : ChangeSet → RepositoryResult ConflictResolution → Type 0
  Gives cs (err e) = Unit
  Gives cs (ok (patched cs')) = cs' ≡ cs
  Gives cs (ok (unsolvable reason cs')) = cs' ≡ cs

  resolution-Gives :
      (cs : ChangeSet) (conflicts : List Conflict) → Gives cs (ok (resolution cs conflicts))
  resolution-Gives cs [] = refl
  resolution-Gives cs (c ∷ conflicts) = refl

  collected-Gives :
      (cs : ChangeSet) (found : RepositoryResult (List Conflict))
      → Gives cs (found >>= λ conflicts. ok (resolution cs conflicts))
  collected-Gives cs (err e) = tt
  collected-Gives cs (ok conflicts) = resolution-Gives cs conflicts

  listed-Gives :
      (cs : ChangeSet) (nodes : RepositoryResult (List NodeSnapshot))
      (find : List NodeSnapshot → RepositoryResult (List Conflict))
      → Gives cs (nodes >>= λ ns. find ns >>= λ conflicts. ok (resolution cs conflicts))
  listed-Gives cs (err e) find = tt
  listed-Gives cs (ok ns) find = collected-Gives cs (find ns)

  detect-Gives :
      (s : S.Store) (log : TransactionLog) (id : SnapshotId) (cs : ChangeSet) (current : Repository)
      → Gives cs (detect s log id cs current)
  unfolding detect
  detect-Gives s log id cs current =
      listed-Gives cs (updated_nodes current.store current.change_set current.snapshot_id none)
        (λ nodes. try_collect (all_conflicts s log id cs nodes))

  -- A given result, as an equation
  refused_same :
      (cs cs' : ChangeSet) (reason : List Conflict) (found : RepositoryResult ConflictResolution)
      → Gives cs found
      → after_detection solver found ≡ some (ok (unsolvable reason cs'))
      → cs' ≡ cs
  refused_same cs cs' reason (err e) g h = ground (arith, h)
  refused_same cs cs' reason (ok (patched c)) g h = ground (arith, h)
  refused_same cs cs' reason (ok (unsolvable conflicts c)) g h =
      elim (solve_conflicts_lem solver c conflicts) [
        | inl (_, refused) ↦ ground (arith, h, refused, g)
        | inr (_, (_, allowed)) ↦ ground (arith, h, allowed)
      ]

  solve-Unmodified : Unmodified (solve solver)
  unfolding solve
  solve-Unmodified log previous current cs cs' reason h =
      refused_same cs cs' reason (detect previous.store log previous.snapshot_id cs current)
        (detect-Gives previous.store log previous.snapshot_id cs current) h

  after_detection_returns :
      (found : RepositoryResult ConflictResolution) → after_detection solver found ≢ none
  after_detection_returns (err e) h = ground (arith, h)
  after_detection_returns (ok (patched c)) h = ground (arith, h)
  after_detection_returns (ok (unsolvable conflicts c)) h =
      elim (solve_conflicts_lem solver c conflicts) [
        | inl (_, refused) ↦ ground (arith, h, refused)
        | inr (_, (_, allowed)) ↦ ground (arith, h, allowed)
      ]

  solve_returns :
      (log : TransactionLog) (previous current : Repository) (cs : ChangeSet)
      → solve solver log previous cs current ≢ none
  unfolding solve
  solve_returns log previous current cs =
      after_detection_returns (detect previous.store log previous.snapshot_id cs current)

  resolved_returns :
      (rest : Repository → Option Done) (repo : Repository) (id : SnapshotId)
      (r : Option (RepositoryResult ConflictResolution))
      → r ≢ none
      → ((next : Repository) → rest next ≢ none)
      → resolved repo id r rest ≢ none
  resolved_returns rest repo id none some_r later h = some_r refl
  resolved_returns rest repo id (some (err e)) some_r later h = ground (arith, h)
  resolved_returns rest repo id (some (ok (patched cs))) some_r later h =
      later (forwarded repo id cs) h
  resolved_returns rest repo id (some (ok (unsolvable reason cs))) some_r later h =
      ground (arith, h)

  logged_returns :
      (rest : Repository → Option Done) (repo : Repository) (id : SnapshotId)
      (read : StorageResult TransactionLog)
      → ((next : Repository) → rest next ≢ none)
      → with_log (solve solver) repo id read rest ≢ none
  logged_returns rest repo id (err e) later h = ground (arith, h)
  logged_returns rest repo id (ok log) later h =
      resolved_returns rest repo id
        (solve solver log (previous_repo repo id) repo.change_set (taken repo))
        (solve_returns log (previous_repo repo id) (taken repo) repo.change_set) later h

  -- The loop of `rebase` over new commits, with the basic conflict solver in any configuration, never
  -- panics, whatever the store holds.
  pub replay_returns :
      (ids : List SnapshotId) (repo : Repository) → replay (solve solver) ids repo ≢ none
  unfolding replay
  replay_returns [] repo h = ground (arith, h)
  replay_returns (id ∷ ids) repo h =
      logged_returns (replay (solve solver) ids) repo id (S.fetch_transaction_log repo.store id)
        (replay_returns ids) h

module _ ⦃E : External⦄ ⦃S : Storage⦄ ⦃C : Codec⦄ (solver : BasicConflictSolver)
    (repo last : Repository) (branch : Str) (e : RepositoryError) where
  -- A rebase that returned an error: the branch has no tip to read, the tip's snapshot cannot be
  -- read, or the loop over the new commits stopped. They are listed with the newest first.
  pub data Failed : Type 0 where
    no_tip :
        (found : RefError)
        → fetch_branch_tip repo.store branch ≡ err found
        → e ≡ ref_error found
        → last ≡ repo
        → Failed
    no_snapshot :
        (tip : RefData) (found : StorageError)
        → fetch_branch_tip repo.store branch ≡ ok tip
        → S.fetch_snapshot repo.store tip.snapshot ≡ err found
        → e ≡ storage_error found
        → last ≡ repo
        → Failed
    at_commit :
        (tip : RefData) (snapshot : Snapshot) (ids : List SnapshotId)
        → fetch_branch_tip repo.store branch ≡ ok tip
        → S.fetch_snapshot repo.store tip.snapshot ≡ ok snapshot
        → reverse ids ≡ new_commits repo.snapshot_id tip.snapshot snapshot
        → Stopped (solve solver) repo ids e last
        → Failed

  at_tip :
      (tip : RefData) (read : StorageResult Snapshot)
      → fetch_branch_tip repo.store branch ≡ ok tip
      → S.fetch_snapshot repo.store tip.snapshot ≡ read
      → from_tip (solve solver) repo tip.snapshot read ≡ some (err e, last)
      → Failed
  at_tip tip (err found) t r h = no_snapshot tip found t r (cc h) (cc h)
  at_tip tip (ok snapshot) t r h =
      let commits = new_commits repo.snapshot_id tip.snapshot snapshot in
      at_commit tip snapshot (reverse commits) t r (reverse-reverse commits)
        (replay-Stopped (solve solver) (reverse commits) repo last e (solve-Unmodified solver) h)

  moved :
      (tip : RefData) (same : Bool)
      → fetch_branch_tip repo.store branch ≡ ok tip
      → ◌≡◌ {A = Option Done}
          (if same
            then some (ok tt, repo)
            else from_tip
                (solve solver)
                repo
                tip.snapshot
                (S.fetch_snapshot repo.store tip.snapshot))
          (some (err e, last))
      → Failed
  moved tip true t h = ground (arith, h)
  moved tip false t h = at_tip tip (S.fetch_snapshot repo.store tip.snapshot) t refl h

  on_tip :
      (read : RefResult RefData)
      → fetch_branch_tip repo.store branch ≡ read
      → onto (solve solver) repo read ≡ some (err e, last)
      → Failed
  on_tip (err found) t h = no_tip found t (cc h) (cc h)
  on_tip (ok tip) t h = moved tip (tip.snapshot == repo.snapshot_id) t h

  -- If `rebase` with the basic solver returns an error, then either the tip of the branch or its
  -- snapshot cannot be read, and the session is as it was; or `rebase` went over some of the branch's
  -- new commits, the oldest first, each of them patched, and leaves the session on the last of these:
  -- with the patched changes, or, if the error is what the solver returned, without any changes.
  pub rebase-solve-Failed : rebase (solve solver) repo branch ≡ some (err e, last) → Failed
  unfolding rebase
  rebase-solve-Failed h = on_tip (fetch_branch_tip repo.store branch) refl h
