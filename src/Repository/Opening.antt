-- ===== src/Repository/Opening.antt =====
-- How a session is opened and moved: `RepositoryBuilder`, `update`, `from_branch_tip`, `from_tag`,
-- `new`, `set_snapshot_id`, `set_snapshot_from_tag`, `set_snapshot_from_branch`, `ancestry` and
-- `raise_if_invalid_snapshot_id` of icechunk/src/repository.rs. The virtual resolver is left out.
use icechunk.Prelude.{
  ℕ, Bool, Option, none, some, List, ◌∷◌, ok, err, ◌>>=◌, map_err, if◌then◌else◌, unwrap_or, Str,
  length, ltb,
}
use icechunk.Format.{External, SnapshotId}
use icechunk.ChangeSet
use icechunk.ChangeSet.{ChangeSet}
use icechunk.Refs.{Codec, RefData, RefResult, fetch_tag, fetch_branch_tip}
use icechunk.Snapshot.{Snapshot, SnapshotMetadata}
use icechunk.Storage.{Storage}
use icechunk.Repository.{
  Repository, RepositoryConfig, RepositoryResult, default_config, storage_error, ref_error,
  snapshot_not_found,
}

module _ ⦃E : External⦄ ⦃S : Storage⦄ where
  open S use {Store, fetch_snapshot}

  pub record RepositoryBuilder : Type 0 where
    pub config : RepositoryConfig
    pub store : Store
    pub snapshot_id : SnapshotId
    pub change_set : Option ChangeSet

  abbrev pub new_builder : Store → SnapshotId → RepositoryBuilder
  new_builder s id = record {
    config = default_config;
    store = s;
    snapshot_id = id;
    change_set = none;
  }

  abbrev pub with_inline_threshold_bytes : RepositoryBuilder → ℕ → RepositoryBuilder
  with_inline_threshold_bytes b threshold = record b {
    config = record b.config { inline_chunk_threshold_bytes = threshold };
  }

  abbrev pub with_unsafe_overwrite_refs : RepositoryBuilder → Bool → RepositoryBuilder
  with_unsafe_overwrite_refs b value = record b {
    config = record b.config { unsafe_overwrite_refs = value };
  }

  abbrev pub with_config : RepositoryBuilder → RepositoryConfig → RepositoryBuilder
  with_config b config = record b { config = config }

  abbrev pub with_change_set : RepositoryBuilder → ChangeSet → RepositoryBuilder
  with_change_set b changes = record b { change_set = some changes }

  -- `Repository::new`
  abbrev pub new : RepositoryConfig → Store → SnapshotId → Option ChangeSet → Repository
  new config s id changes = record {
    config = config;
    store = s;
    snapshot_id = id;
    change_set = unwrap_or changes ChangeSet.empty;
  }

  unfoldable pub build : RepositoryBuilder → Repository
  build b = new b.config b.store b.snapshot_id b.change_set

  abbrev pub update : Store → SnapshotId → RepositoryBuilder
  update s id = new_builder s id

  abbrev pub set_snapshot_id : Repository → SnapshotId → Repository
  set_snapshot_id repo id = record repo { snapshot_id = id }

  -- Any error means that the snapshot cannot be used.
  unfoldable pub raise_if_invalid_snapshot_id : Store → SnapshotId → RepositoryResult (Unit {0})
  raise_if_invalid_snapshot_id s id = elim (fetch_snapshot s id) [
    | ok _ ↦ ok tt
    | err _ ↦ err (snapshot_not_found id)
  ]

  -- `none`: the history is longer than the snapshot holds, which the code does not implement.
  abbrev history : Snapshot → Option (List SnapshotMetadata)
  history parent =
      if ltb (length parent.short_term_history) parent.total_parents
      then none
      else some (parent.metadata ∷ parent.short_term_history)

  unfoldable pub ancestry : Repository → RepositoryResult (Option (List SnapshotMetadata))
  ancestry repo = do
    parent ← map_err storage_error (fetch_snapshot repo.store repo.snapshot_id)
    ok (history parent)

  module _ ⦃C : Codec⦄ where
    unfoldable pub from_branch_tip : Store → Str → RepositoryResult RepositoryBuilder
    from_branch_tip s branch_name = do
      ref_data ← map_err ref_error (fetch_branch_tip s branch_name)
      ok (update s ref_data.snapshot)

    unfoldable pub from_tag : Store → Str → RepositoryResult RepositoryBuilder
    from_tag s tag_name = do
      ref_data ← map_err ref_error (fetch_tag s tag_name)
      ok (update s ref_data.snapshot)

    abbrev pub at_ref : Repository → RefResult RefData → RepositoryResult (Unit {0}) × Repository
    at_ref repo (ok ref_data) = (ok tt, set_snapshot_id repo ref_data.snapshot)
    at_ref repo (err e) = (err (ref_error e), repo)

    unfoldable pub set_snapshot_from_tag :
        Repository → Str → RepositoryResult (Unit {0}) × Repository
    set_snapshot_from_tag repo tag = at_ref repo (fetch_tag repo.store tag)

    unfoldable pub set_snapshot_from_branch :
        Repository → Str → RepositoryResult (Unit {0}) × Repository
    set_snapshot_from_branch repo branch = at_ref repo (fetch_branch_tip repo.store branch)
