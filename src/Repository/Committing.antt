-- ===== src/Repository/Committing.antt =====
-- `flush`, `commit`, `new_branch`, `tag`, `init` and `exists` of icechunk/src/repository.rs. Random
-- ids and the time are arguments.
use icechunk.Prelude.{
  ℕ, zero, suc, Bool, true, false, Option, none, some, List, [], ◌∷◌, map, nat_eq, list_eq, ◌==◌,
  ok, err, map_err, map_ok, option_map, unwrap_or, if◌then◌else◌, Str,
}
use icechunk.Exec.{Exec, pure, raise, reading, writing, lift, ◌>>=◌, ◌>>◌}
use icechunk.Format.{External, SnapshotId, ManifestId, DateTime}
use icechunk.Format.Nodes.{NodeSnapshot}
use icechunk.ChangeSet
use icechunk.ChangeSet.{ChangeSet, is_empty}
use icechunk.Manifest.{Manifest, from_stream, manifest_len}
use icechunk.Refs.{Codec, RefError, RefData, RefResult, fetch_branch_tip, default_branch}
use icechunk.Refs.Writes.{update_branch, create_tag}
use icechunk.Snapshot.{
  Snapshot, SnapshotMetadata, SnapshotProperties, ManifestFileInfo, from_iter, snapshot_iter,
  empty_snapshot,
}
use icechunk.Storage.{Storage, StorageResult}
use icechunk.TransactionLog.{new_transaction_log}
use icechunk.Repository.{
  Repository, RepositoryError, RepositoryResult, storage_error, no_changes_to_commit, ref_error,
  conflict_error, already_initialized,
}
use icechunk.Repository.Listing.{all_chunks, updated_nodes}

-- What `flush` draws: the ids of the manifest and the snapshot, and the time
pub record Fresh : Type 0 where
  pub manifest_id : ManifestId
  pub snapshot_id : SnapshotId
  pub now : DateTime

module _ ⦃E : External⦄ ⦃S : Storage⦄ where
  open S use {Store, fetch_snapshot, write_snapshot, write_manifests, write_transaction_log}

  abbrev pub Commit : Type 0 → Type 0
  Commit A = Exec Store RepositoryError A

  -- A manifest with no chunk is not written.
  unfoldable pub write_manifest_if_any : ManifestId → Manifest → Commit (Option ManifestId)
  write_manifest_if_any id manifest = elim (manifest_len manifest) [
    | zero ↦ pure none
    | suc _ ↦ writing storage_error (λ s. write_manifests s id manifest) >> pure (some id)
  ]

  abbrev manifest_info : Manifest → ManifestId → List ManifestFileInfo
  manifest_info manifest mid = record { id = mid; format_version = manifest.format_version } ∷ []

  -- The new snapshot: the metadata's message and time are set after `from_iter`.
  unfoldable pub make_snapshot :
      Fresh
      → Str
      → SnapshotProperties
      → Snapshot
      → Manifest
      → Option ManifestId
      → List NodeSnapshot
      → Snapshot
  make_snapshot fresh message properties old_snapshot manifest manifest_id all_nodes =
      let metadata : SnapshotMetadata = record {
        id = fresh.snapshot_id;
        written_at = fresh.now;
        message = [];
      } in
      let snapshot : Snapshot =
        from_iter metadata fresh.now old_snapshot (some properties)
          (unwrap_or (option_map (manifest_info manifest) manifest_id) []) [] all_nodes in
      let described : SnapshotMetadata = record {
        id = snapshot.metadata.id;
        written_at = fresh.now;
        message = message;
      } in
      record snapshot { metadata = described }

  unfoldable pub flush_changes :
      Fresh → ChangeSet → SnapshotId → Str → SnapshotProperties → Commit SnapshotId
  unfolding write_manifest_if_any make_snapshot
  flush_changes fresh cs parent_id message properties = do
    chunks ← reading (λ s. all_chunks s cs parent_id)
    manifest ← lift (from_stream (map (map_ok (λ e. e.1)) chunks))
    manifest_id ← write_manifest_if_any fresh.manifest_id manifest
    all_nodes ← reading (λ s. updated_nodes s cs parent_id manifest_id)
    old_snapshot ← reading (λ s. map_err storage_error (fetch_snapshot s parent_id))
    let snapshot =
        make_snapshot fresh message properties old_snapshot manifest manifest_id all_nodes
    let tx_log = new_transaction_log cs (snapshot_iter old_snapshot) (snapshot_iter snapshot)
    writing storage_error (λ s. write_snapshot s snapshot.metadata.id snapshot)
    writing storage_error (λ s. write_transaction_log s snapshot.metadata.id tx_log)
    pure snapshot.metadata.id

  -- The function `flush`
  unfoldable pub flush_session :
      Fresh → ChangeSet → SnapshotId → Str → SnapshotProperties → Commit SnapshotId
  unfolding flush_changes
  flush_session fresh cs parent_id message properties =
      if is_empty cs
      then raise no_changes_to_commit
      else flush_changes fresh cs parent_id message properties

  abbrev pub flushed :
      Repository → RepositoryResult SnapshotId × Store → RepositoryResult SnapshotId × Repository
  flushed repo (ok id, s) =
      (ok id, record repo { store = s; snapshot_id = id; change_set = ChangeSet.empty })
  flushed repo (err e, s) = (err e, record repo { store = s })

  -- `Repository::flush`
  unfoldable pub flush :
      Fresh → Repository → Str → SnapshotProperties → RepositoryResult SnapshotId × Repository
  unfolding flush_session
  flush fresh repo message properties =
      flushed repo
        (flush_session fresh repo.change_set repo.snapshot_id message properties repo.store)

-- A conflict of refs is a conflict of the repository; other errors are wrapped.
abbrev pub commit_error : ⦃E : External⦄ → RefError → RepositoryError
commit_error (RefError.conflict expected actual) = conflict_error expected actual
commit_error e = ref_error e

module _ ⦃E : External⦄ ⦃S : Storage⦄ ⦃C : Codec⦄ where
  open S use {Store, write_snapshot}

  -- `none`: the retries of `update_branch` went beyond the given list.
  abbrev Retried : Type 0 → Type 0
  Retried A = Option (RepositoryResult A) × Repository

  abbrev pub committed : Repository → SnapshotId → Option (RefResult ℕ) × Store → Retried SnapshotId
  committed repo id (none, s) = (none, record repo { store = s })
  committed repo id (some (ok v), s) = (some (ok id), record repo { store = s })
  committed repo id (some (err e), s) = (some (err (commit_error e)), record repo { store = s })

  abbrev pub publish :
      List (Store → Store)
      → Str
      → SnapshotId
      → RepositoryResult SnapshotId × Repository
      → Retried SnapshotId
  publish others branch parent (err e, repo) = (some (err e), repo)
  publish others branch parent (ok id, repo) =
      committed repo id
        (update_branch others repo.store branch id (some parent) repo.config.unsafe_overwrite_refs)

  unfoldable pub do_commit :
      Fresh
      → List (Store → Store)
      → Repository
      → Str
      → Str
      → Option SnapshotProperties
      → Retried SnapshotId
  unfolding flush
  do_commit fresh others repo branch message properties =
      publish others branch repo.snapshot_id (flush fresh repo message (unwrap_or properties []))

  -- The tip of the branch decides before anything is written.
  abbrev commit_on_tip :
      Fresh
      → List (Store → Store)
      → Repository
      → Str
      → Str
      → Option SnapshotProperties
      → RefResult RefData
      → Retried SnapshotId
  commit_on_tip fresh others repo branch message properties (err (RefError.ref_not_found _)) =
      do_commit fresh others repo branch message properties
  commit_on_tip fresh others repo branch message properties (ok ref_data) =
      if ref_data.snapshot == repo.snapshot_id
      then do_commit fresh others repo branch message properties
      else (some (err (conflict_error (some repo.snapshot_id) (some ref_data.snapshot))), repo)
  commit_on_tip fresh others repo branch message properties (err e) =
      (some (err (ref_error e)), repo)

  unfoldable pub commit :
      Fresh
      → List (Store → Store)
      → Repository
      → Str
      → Str
      → Option SnapshotProperties
      → Retried SnapshotId
  unfolding do_commit
  commit fresh others repo branch message properties =
      commit_on_tip fresh others repo branch message properties (fetch_branch_tip repo.store branch)

  abbrev branch_result : Option (RefResult ℕ) → Option (RepositoryResult ℕ)
  branch_result none = none
  branch_result (some r) = some (map_err commit_error r)

  unfoldable pub new_branch :
      List (Store → Store) → Repository → Str → Option (RepositoryResult ℕ) × Repository
  new_branch others repo branch =
      let (r, s) =
        update_branch others repo.store branch repo.snapshot_id none
          repo.config.unsafe_overwrite_refs in
      (branch_result r, record repo { store = s })

  unfoldable pub tag : Repository → Str → SnapshotId → RepositoryResult (Unit {0}) × Repository
  tag repo name snapshot =
      let (r, s) = create_tag repo.store name snapshot repo.config.unsafe_overwrite_refs in
      (map_err ref_error r, record repo { store = s })

  abbrev tip_exists : RefResult RefData → RepositoryResult Bool
  tip_exists (ok _) = ok true
  tip_exists (err (RefError.ref_not_found _)) = ok false
  tip_exists (err e) = err (ref_error e)

  unfoldable pub exists : Store → RepositoryResult Bool
  exists s = tip_exists (fetch_branch_tip s default_branch)

  abbrev initialized : SnapshotId → Option (RefResult ℕ) → Option (RepositoryResult SnapshotId)
  initialized id none = none
  initialized id (some (ok v)) = some (ok id)
  initialized id (some (err e)) = some (err (ref_error e))

  abbrev first_branch :
      List (Store → Store)
      → SnapshotId
      → Bool
      → StorageResult Unit × Store
      → Option (RepositoryResult SnapshotId) × Store
  first_branch others id overwrite (err e, s) = (some (err (storage_error e)), s)
  first_branch others id overwrite (ok _, s) =
      let (r, s') = update_branch others s default_branch id none overwrite in
      (initialized id r, s')

  abbrev init_unless :
      List (Store → Store)
      → SnapshotId
      → DateTime
      → Bool
      → Store
      → RepositoryResult Bool
      → Option (RepositoryResult SnapshotId) × Store
  init_unless others id now overwrite s (err e) = (some (err e), s)
  init_unless others id now overwrite s (ok true) = (some (err already_initialized), s)
  init_unless others id now overwrite s (ok false) =
      first_branch others id overwrite (write_snapshot s id (empty_snapshot id now))

  -- `Repository::init`: the snapshot id of the builder that it returns
  unfoldable pub init :
      List (Store → Store)
      → SnapshotId
      → DateTime
      → Bool
      → Store
      → Option (RepositoryResult SnapshotId) × Store
  unfolding exists
  init others id now overwrite s = init_unless others id now overwrite s (exists s)
