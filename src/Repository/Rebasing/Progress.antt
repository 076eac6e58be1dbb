-- ===== src/Repository/Rebasing/Progress.antt =====
-- How far `rebase` of icechunk/src/repository.rs gets, and what it leaves behind.
use icechunk.Prelude.{
  ◌≡◌, refl, ap, sym, ◌∙◌, Bool, true, false, Option, none, some, List, [], ◌∷◌, ◌++◌, arith,
  nat_eq, list_eq, ◌==◌, ok, err, if◌then◌else◌, Str, take_while, not, map, eq_of_==,
}
use mathlib.Core.List.{reverse, reverse-cons}
use mathlib.Core.Path.{subst}
use icechunk.Format.{External, SnapshotId}
use icechunk.ChangeSet.{ChangeSet}
use icechunk.Conflicts.{Conflict, ConflictResolution, patched, unsolvable}
use icechunk.Refs.{Codec, RefData, fetch_branch_tip}
use icechunk.Snapshot.{Snapshot, SnapshotMetadata, local_ancestry}
use icechunk.Storage.{Storage, StorageResult}
use icechunk.TransactionLog.{TransactionLog}
use icechunk.Repository.{Repository, RepositoryError, RepositoryResult}
use icechunk.Repository.Editing.{Done}
use icechunk.Repository.Rebasing.{
  ConflictSolver, previous_repo, taken, forwarded, resolved, with_log, replay, new_commits, rebase,
  from_tip, onto,
}

module _ ⦃E : External⦄ ⦃S : Storage⦄ where
  -- The session went over some commits in order, each patched by the solver.
  pub data Forwarded (solver : ConflictSolver)
      : Repository → List SnapshotId → Repository → Type 0 where
    stays : {repo last : Repository} → repo ≡ last → Forwarded solver repo [] last
    forwards :
        {repo last : Repository} {id : SnapshotId} {ids : List SnapshotId} {log : TransactionLog}
        {cs : ChangeSet}
        → S.fetch_transaction_log repo.store id ≡ ok log
        → solver log (previous_repo repo id) repo.change_set (taken repo) ≡ some (ok (patched cs))
        → Forwarded solver (forwarded repo id cs) ids last
        → Forwarded solver repo (id ∷ ids) last

  -- A solver gives back, unmodified, a change set that it cannot rebase.
  abbrev pub Unmodified : ConflictSolver → Type 0
  Unmodified solver =
      (log : TransactionLog) (previous current : Repository) (cs cs' : ChangeSet)
      (reason : List Conflict)
      → solver log previous cs current ≡ some (ok (unsolvable reason cs'))
      → cs' ≡ cs

  -- A rebase that stopped with an error: after the commits `before`, at the commit `at`.
  pub data Stopped (solver : ConflictSolver) (repo : Repository) (ids : List SnapshotId)
      (e : RepositoryError) (last : Repository) : Type 0 where
    consistent :
        (before after : List SnapshotId) (at : SnapshotId)
        → ids ≡ before ++ at ∷ after
        → Forwarded solver repo before last
        → Stopped solver repo ids e last
    lost :
        (before after : List SnapshotId) (at : SnapshotId) (reached : Repository)
        (log : TransactionLog)
        → ids ≡ before ++ at ∷ after
        → Forwarded solver repo before reached
        → solver log (previous_repo reached at) reached.change_set (taken reached) ≡ some (err e)
        → last ≡ taken reached
        → Stopped solver repo ids e last

  -- What a round of the loop that succeeds tells
  Passed :
      (Repository → Option Done)
      → Repository
      → SnapshotId
      → Option (RepositoryResult ConflictResolution)
      → Option Done
      → Type 0
  Passed rest repo id solved result =
      (cs : ChangeSet) × ((solved ≡ some (ok (patched cs)))
        × (rest (forwarded repo id cs) ≡ result))

  resolved_ok :
      (rest : Repository → Option Done) (repo repo' : Repository) (id : SnapshotId)
      (solved : Option (RepositoryResult ConflictResolution))
      → resolved repo id solved rest ≡ some (ok tt, repo')
      → Passed rest repo id solved (some (ok tt, repo'))
  unfolding Passed
  resolved_ok rest repo repo' id none h = ground (arith, h)
  resolved_ok rest repo repo' id (some (err e)) h = ground (arith, h)
  resolved_ok rest repo repo' id (some (ok (patched cs))) h = (cs, (refl, h))
  resolved_ok rest repo repo' id (some (ok (unsolvable reason cs))) h = ground (arith, h)

  logged_ok :
      (solver : ConflictSolver) (rest : Repository → Option Done) (repo repo' : Repository)
      (id : SnapshotId) (read : StorageResult TransactionLog)
      → with_log solver repo id read rest ≡ some (ok tt, repo')
      → (log : TransactionLog) × ((read ≡ ok log)
          × Passed rest repo id
              (solver log (previous_repo repo id) repo.change_set (taken repo))
              (some (ok tt, repo')))
  logged_ok solver rest repo repo' id (err e) h = ground (arith, h)
  logged_ok solver rest repo repo' id (ok log) h = (
    log,
    (
      refl,
      resolved_ok rest repo repo' id
          (solver log (previous_repo repo id) repo.change_set (taken repo)) h,
    ),
  )

  -- A loop that succeeds goes over all the commits.
  replay-Forwarded :
      (solver : ConflictSolver) (ids : List SnapshotId) (repo last : Repository)
      → replay solver ids repo ≡ some (ok tt, last)
      → Forwarded solver repo ids last
  unfolding replay Passed
  replay-Forwarded solver [] repo last h = stays (cc h)
  replay-Forwarded solver (id ∷ ids) repo last h =
      let (log, (read, (cs, (solved, later)))) =
        logged_ok solver (replay solver ids) repo last id (S.fetch_transaction_log repo.store id)
          h in
      forwards read solved (replay-Forwarded solver ids (forwarded repo id cs) last later)

  -- Going over commits leaves the session on the last of them.
  Forwarded-last :
      (solver : ConflictSolver) (ids : List SnapshotId) (tip : SnapshotId) (repo last : Repository)
      → Forwarded solver repo (ids ++ tip ∷ []) last
      → last.snapshot_id ≡ tip
  Forwarded-last solver [] tip repo last (forwards read solved (stays h)) =
      ap (λ r. Repository.snapshot_id r) (sym h)
  Forwarded-last solver (id ∷ ids) tip repo last (forwards read solved later) =
      Forwarded-last solver ids tip _ last later

  extend :
      (solver : ConflictSolver) (id : SnapshotId) (ids : List SnapshotId) (repo last : Repository)
      (e : RepositoryError) (log : TransactionLog) (cs : ChangeSet)
      → S.fetch_transaction_log repo.store id ≡ ok log
      → solver log (previous_repo repo id) repo.change_set (taken repo) ≡ some (ok (patched cs))
      → Stopped solver (forwarded repo id cs) ids e last
      → Stopped solver repo (id ∷ ids) e last
  extend solver id ids repo last e log cs read solved (consistent before after at h f) =
      consistent (id ∷ before) after at (ap (λ l. id ∷ l) h) (forwards read solved f)
  extend solver id ids repo last e log cs read solved
        (lost before after at reached l h f gave same) =
      lost (id ∷ before) after at reached l (ap (λ l. id ∷ l) h) (forwards read solved f) gave same

  resolved_err :
      (solver : ConflictSolver) (id : SnapshotId) (ids : List SnapshotId) (repo last : Repository)
      (e : RepositoryError) (log : TransactionLog)
      (solved : Option (RepositoryResult ConflictResolution))
      → Unmodified solver
      → ((r : Repository) → replay solver ids r ≡ some (err e, last) → Stopped solver r ids e last)
      → S.fetch_transaction_log repo.store id ≡ ok log
      → solver log (previous_repo repo id) repo.change_set (taken repo) ≡ solved
      → resolved repo id solved (replay solver ids) ≡ some (err e, last)
      → Stopped solver repo (id ∷ ids) e last
  resolved_err solver id ids repo last e log none u later read gave h = ground (arith, h)
  resolved_err solver id ids repo last e log (some (err e')) u later read gave h =
      lost [] ids id repo log refl (stays refl) (cc (gave, h)) (cc h)
  resolved_err solver id ids repo last e log (some (ok (patched cs))) u later read gave h =
      extend solver id ids repo last e log cs read gave (later (forwarded repo id cs) h)
  resolved_err solver id ids repo last e log (some (ok (unsolvable reason cs))) u later read gave
        h =
      consistent [] ids id refl (
        stays (
          ap (λ c. record repo { change_set = c })
            (sym (u log (previous_repo repo id) (taken repo) repo.change_set cs reason gave))
          ∙ cc h))

  logged_err :
      (solver : ConflictSolver) (id : SnapshotId) (ids : List SnapshotId) (repo last : Repository)
      (e : RepositoryError) (read : StorageResult TransactionLog)
      → Unmodified solver
      → ((r : Repository) → replay solver ids r ≡ some (err e, last) → Stopped solver r ids e last)
      → S.fetch_transaction_log repo.store id ≡ read
      → with_log solver repo id read (replay solver ids) ≡ some (err e, last)
      → Stopped solver repo (id ∷ ids) e last
  logged_err solver id ids repo last e (err e') u later r h =
      consistent [] ids id refl (stays (cc h))
  logged_err solver id ids repo last e (ok log) u later r h =
      resolved_err solver id ids repo last e log
        (solver log (previous_repo repo id) repo.change_set (taken repo)) u later r refl h

  -- A replay that stops with an error leaves the session as some of the commits, the oldest first,
  -- forwarded it: with its changes, unless the error is the solver's own; then without any changes.
  pub replay-Stopped :
      (solver : ConflictSolver) (ids : List SnapshotId) (repo last : Repository)
      (e : RepositoryError)
      → Unmodified solver
      → replay solver ids repo ≡ some (err e, last)
      → Stopped solver repo ids e last
  unfolding replay
  replay-Stopped solver [] repo last e u h = ground (arith, h)
  replay-Stopped solver (id ∷ ids) repo last e u h =
      logged_err solver id ids repo last e (S.fetch_transaction_log repo.store id) u
        (λ r. replay-Stopped solver ids r last e u) refl h

module _ ⦃E : External⦄ ⦃S : Storage⦄ ⦃C : Codec⦄ where
  same_repo :
      (repo last : Repository)
      → ◌≡◌ {A = Option Done} (some (ok tt, repo)) (some (ok tt, last))
      → repo ≡ last
  same_repo repo last h = cc h

  onto_ok :
      (solver : ConflictSolver) (repo last : Repository) (ref_data : RefData)
      (read : StorageResult Snapshot)
      → from_tip solver repo ref_data.snapshot read ≡ some (ok tt, last)
      → last.snapshot_id ≡ ref_data.snapshot
  unfolding new_commits
  onto_ok solver repo last ref_data (err e) h = ground (arith, h)
  onto_ok solver repo last ref_data (ok snapshot) h =
      let older =
        take_while (λ id. not (id == repo.snapshot_id))
          (map (λ m. SnapshotMetadata.id m) (local_ancestry snapshot)) in
      Forwarded-last solver (reverse older) ref_data.snapshot repo last (
        subst (λ ids. Forwarded solver repo ids last) (reverse-cons ref_data.snapshot older)
          (replay-Forwarded solver (reverse (ref_data.snapshot ∷ older)) repo last h))

  decided :
      (solver : ConflictSolver) (repo last : Repository) (ref_data : RefData) (same : Bool)
      → (ref_data.snapshot == repo.snapshot_id) ≡ same
      → ◌≡◌ {A = Option Done}
          (if same
            then some (ok tt, repo)
            else from_tip solver repo ref_data.snapshot
                (S.fetch_snapshot repo.store ref_data.snapshot))
          (some (ok tt, last))
      → last.snapshot_id ≡ ref_data.snapshot
  decided solver repo last ref_data true same h =
      ap (λ r. Repository.snapshot_id r) (sym (same_repo repo last h))
      ∙ sym (eq_of_== ref_data.snapshot repo.snapshot_id same)
  decided solver repo last ref_data false same h =
      onto_ok solver repo last ref_data (S.fetch_snapshot repo.store ref_data.snapshot) h

  -- A rebase that succeeds leaves the session on the snapshot that was the tip of the branch when
  -- the rebase began, whatever the solver does.
  pub snapshot_id-rebase :
      (solver : ConflictSolver) (repo last : Repository) (branch : Str) (ref_data : RefData)
      → fetch_branch_tip repo.store branch ≡ ok ref_data
      → rebase solver repo branch ≡ some (ok tt, last)
      → last.snapshot_id ≡ ref_data.snapshot
  unfolding rebase
  snapshot_id-rebase solver repo last branch ref_data tip h =
      decided solver repo last ref_data (ref_data.snapshot == repo.snapshot_id) refl
        (sym (ap (onto solver repo) tip) ∙ h)
