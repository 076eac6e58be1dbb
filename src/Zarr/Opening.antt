-- ===== src/Zarr/Opening.antt =====
-- `RepositoryConfig` of icechunk/src/zarr.rs: how a repository is made for a store. The virtual resolver's
-- configuration is left out; how `rmp_serde` reads a change set is an argument.
use icechunk.Prelude.{
  ℕ, Bool, false, Option, none, some, List, Result, ok, err, unwrap_or, option_map, Str,
}
use icechunk.Format.{External, SnapshotId, Bytes, DateTime}
use icechunk.ChangeSet.{ChangeSet}
use icechunk.Refs.{Codec, default_branch}
use icechunk.Storage.{Storage}
use icechunk.Repository.{Repository, RepositoryError, RepositoryResult}
use icechunk.Repository.Committing.{init}
use icechunk.Repository.Opening.{
  RepositoryBuilder, new_builder, update, from_tag, from_branch_tip, build,
  with_inline_threshold_bytes, with_unsafe_overwrite_refs, with_change_set,
}
use icechunk.Zarr.{
  VersionInfo, at_snapshot, at_tag, at_branch_tip, readwrite, ZarrStore, from_repository,
}

pub record RepositoryConfig : Type 0 where
  pub version : Option VersionInfo
  pub inline_chunk_threshold_bytes : Option ℕ
  pub unsafe_overwrite_refs : Option Bool
  pub change_set_bytes : Option Bytes

abbrev pub default_config : RepositoryConfig
default_config = record {
  version = none;
  inline_chunk_threshold_bytes = none;
  unsafe_overwrite_refs = none;
  change_set_bytes = none;
}

-- `RepositoryConfig::existing` and `with_version`
abbrev pub existing : VersionInfo → RepositoryConfig
existing version = record default_config { version = some version }

abbrev pub with_version : RepositoryConfig → VersionInfo → RepositoryConfig
with_version config version = record config { version = some version }

module _ ⦃E : External⦄ where
  -- The texts of the errors, by what failed
  pub data OpenError : Type 0 where
    initializing : RepositoryError → OpenError
    fetching_tag : RepositoryError → OpenError
    fetching_branch : RepositoryError → OpenError
    parsing_change_set : OpenError

module _ ⦃E : External⦄ ⦃S : Storage⦄ ⦃C : Codec⦄ where
  open S use {Store}

  -- The builder and the branch
  abbrev Opened : Type 0
  Opened = Result OpenError (RepositoryBuilder × Option Str)

  abbrev initialized : Option (RepositoryResult SnapshotId) × Store → Option Opened × Store
  initialized (none, s) = (none, s)
  initialized (some (ok id), s) = (some (ok (new_builder s id, some default_branch)), s)
  initialized (some (err e), s) = (some (err (initializing e)), s)

  abbrev on_no_branch : RepositoryResult RepositoryBuilder → Opened
  on_no_branch (ok b) = ok (b, none)
  on_no_branch (err e) = err (fetching_tag e)

  abbrev on_branch : Str → RepositoryResult RepositoryBuilder → Opened
  on_branch branch (ok b) = ok (b, some branch)
  on_branch branch (err e) = err (fetching_branch e)

  abbrev open_version :
      List (Store → Store)
      → SnapshotId
      → DateTime
      → Bool
      → Option VersionInfo
      → Store
      → Option Opened × Store
  open_version others id now overwrite none s = initialized (init others id now overwrite s)
  open_version others id now overwrite (some (at_snapshot sid)) s =
      (some (ok (update s sid, none)), s)
  open_version others id now overwrite (some (at_tag tag)) s =
      (some (on_no_branch (from_tag s tag)), s)
  open_version others id now overwrite (some (at_branch_tip branch)) s =
      (some (on_branch branch (from_branch_tip s branch)), s)

  abbrev with_threshold : Option ℕ → RepositoryBuilder → RepositoryBuilder
  with_threshold none b = b
  with_threshold (some threshold) b = with_inline_threshold_bytes b threshold

  abbrev with_overwrite : Option Bool → RepositoryBuilder → RepositoryBuilder
  with_overwrite none b = b
  with_overwrite (some value) b = with_unsafe_overwrite_refs b value

  abbrev with_changes :
      (Bytes → Option ChangeSet)
      → Option Bytes
      → RepositoryBuilder
      → Result OpenError RepositoryBuilder
  with_changes import_from_bytes none b = ok b
  with_changes import_from_bytes (some bytes) b = elim (import_from_bytes bytes) [
    | some changes ↦ ok (with_change_set b changes)
    | none ↦ err parsing_change_set
  ]

  abbrev configured :
      (Bytes → Option ChangeSet)
      → RepositoryConfig
      → Opened
      → Result OpenError (Repository × Option Str)
  configured import_from_bytes config (err e) = err e
  configured import_from_bytes config (ok (b, branch)) =
      elim (with_changes import_from_bytes config.change_set_bytes (
        with_overwrite config.unsafe_overwrite_refs
          (with_threshold config.inline_chunk_threshold_bytes b))) [
            | ok b' ↦ ok (build b', branch)
            | err e ↦ err e
          ]

  -- `none`: more retries of `update_branch` than are given
  unfoldable pub make_repository :
      (Bytes → Option ChangeSet)
      → List (Store → Store)
      → SnapshotId
      → DateTime
      → RepositoryConfig
      → Store
      → Option (Result OpenError (Repository × Option Str)) × Store
  unfolding build
  make_repository import_from_bytes others id now config s =
      let (opened, s') =
        open_version others id now (unwrap_or config.unsafe_overwrite_refs false) config.version
          s in
      (option_map (configured import_from_bytes config) opened, s')

  abbrev store_of : Result OpenError (Repository × Option Str) → Result OpenError ZarrStore
  store_of (ok (repo, branch)) = ok (from_repository repo readwrite branch none)
  store_of (err e) = err e

  -- `Store::new_from_storage`
  unfoldable pub new_from_storage :
      (Bytes → Option ChangeSet)
      → List (Store → Store)
      → SnapshotId
      → DateTime
      → Store
      → Option (Result OpenError ZarrStore) × Store
  unfolding make_repository
  new_from_storage import_from_bytes others id now s =
      let (made, s') = make_repository import_from_bytes others id now default_config s in
      (option_map store_of made, s')
