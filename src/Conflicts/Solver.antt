-- ===== src/Conflicts/Solver.antt =====
-- icechunk/src/conflicts/basic_solver.rs, behind the conflict detector.
pub mod Resolution
use icechunk.Prelude.{
  Bool, true, false, ◌||◌, ◌&&◌, not, Option, none, some, List, [], ◌∷◌, nat_eq, list_eq, Eq,
  Result, ok, err, ◌>>=◌, if◌then◌else◌, any, contains, and_then, option_map,
}
use icechunk.Format.{External, SnapshotId}
use icechunk.ChangeSet.{ChangeSet, drop_chunk_changes, undo_user_attributes_update}
use icechunk.Conflicts.{
  Conflict, ConflictResolution, new_node_conflicts_with_existing_node, new_node_in_invalid_group,
  zarr_metadata_double_update, zarr_metadata_update_of_deleted_array, user_attributes_double_update,
  user_attributes_update_of_deleted_node, chunk_double_update, chunks_updated_in_deleted_array,
  chunks_updated_in_updated_array, delete_of_updated_array, delete_of_updated_group, patched,
  unsolvable,
}
use icechunk.Conflicts.Detector.{detect}
use icechunk.Storage.{Storage}
use icechunk.TransactionLog.{TransactionLog}
use icechunk.Repository.{Repository, RepositoryResult}

pub data VersionSelection : Type 0 where
  fail use_ours use_theirs : VersionSelection

pub record BasicConflictSolver : Type 0 where
  pub on_user_attributes_conflict : VersionSelection
  pub on_chunk_conflict : VersionSelection
  pub fail_on_delete_of_updated_array : Bool
  pub fail_on_delete_of_updated_group : Bool

abbrev pub default_solver : BasicConflictSolver
default_solver = record {
  on_user_attributes_conflict = use_ours;
  on_chunk_conflict = use_ours;
  fail_on_delete_of_updated_array = false;
  fail_on_delete_of_updated_group = false;
}

abbrev pub is_fail : VersionSelection → Bool
is_fail fail = true
is_fail use_ours = false
is_fail use_theirs = false

module _ ⦃E : External⦄ (solver : BasicConflictSolver) where
  -- The test of `any` in `solve_conflicts`
  unfoldable pub is_unsolvable : Conflict → Bool
  is_unsolvable (new_node_conflicts_with_existing_node _) = true
  is_unsolvable (new_node_in_invalid_group _) = true
  is_unsolvable (zarr_metadata_double_update _) = true
  is_unsolvable (zarr_metadata_update_of_deleted_array _) = true
  is_unsolvable (user_attributes_update_of_deleted_node _) = true
  is_unsolvable (chunks_updated_in_deleted_array _ _) = true
  is_unsolvable (chunks_updated_in_updated_array _ _) = true
  is_unsolvable (user_attributes_double_update _ _) = is_fail solver.on_user_attributes_conflict
  is_unsolvable (chunk_double_update _ _ _) = is_fail solver.on_chunk_conflict
  is_unsolvable (delete_of_updated_array _) = solver.fail_on_delete_of_updated_array
  is_unsolvable (delete_of_updated_group _) = solver.fail_on_delete_of_updated_group

  abbrev pub choose : VersionSelection → ChangeSet → ChangeSet → Option ChangeSet
  choose use_ours ours theirs = some ours
  choose use_theirs ours theirs = some theirs
  choose fail ours theirs = none

  abbrev pub unless : Bool → ChangeSet → Option ChangeSet
  unless true cs = none
  unless false cs = some cs

  -- One round of the loop over the conflicts; `none` is a panic or a failed assertion.
  unfoldable pub resolve : ChangeSet → Conflict → Option ChangeSet
  resolve cs (chunk_double_update _ node_id chunk_coordinates) =
      choose solver.on_chunk_conflict cs
        (drop_chunk_changes cs node_id (contains chunk_coordinates))
  resolve cs (user_attributes_double_update _ node_id) =
      choose solver.on_user_attributes_conflict cs (undo_user_attributes_update cs node_id)
  resolve cs (delete_of_updated_array _) = unless solver.fail_on_delete_of_updated_array cs
  resolve cs (delete_of_updated_group _) = unless solver.fail_on_delete_of_updated_group cs
  resolve cs _ = none

  unfoldable pub resolve_all : ChangeSet → List Conflict → Option ChangeSet
  unfolding resolve
  resolve_all cs [] = some cs
  resolve_all cs (c ∷ conflicts) = elim (resolve cs c) [
    | none ↦ none
    | some cs' ↦ resolve_all cs' conflicts
  ]

  abbrev pub patched_or_panic : Option ChangeSet → Option ConflictResolution
  patched_or_panic none = none
  patched_or_panic (some cs) = some (patched cs)

  -- `none` is a panic.
  unfoldable pub solve_conflicts : ChangeSet → List Conflict → Option ConflictResolution
  unfolding resolve_all
  solve_conflicts cs conflicts =
      if any is_unsolvable conflicts
      then some (unsolvable conflicts cs)
      else patched_or_panic (resolve_all cs conflicts)

module _ ⦃E : External⦄ ⦃S : Storage⦄ (solver : BasicConflictSolver) where
  abbrev pub after_detection :
      RepositoryResult ConflictResolution → Option (RepositoryResult ConflictResolution)
  after_detection (err e) = some (err e)
  after_detection (ok (patched cs)) = some (ok (patched cs))
  after_detection (ok (unsolvable reason unmodified)) =
      option_map ok (solve_conflicts solver unmodified reason)

  -- `BasicConflictSolver::solve`
  unfoldable pub solve :
      TransactionLog
      → Repository
      → ChangeSet
      → Repository
      → Option (RepositoryResult ConflictResolution)
  unfolding solve_conflicts
  solve previous_change previous cs current =
      after_detection (detect previous.store previous_change previous.snapshot_id cs current)
