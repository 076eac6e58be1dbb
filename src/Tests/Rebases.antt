-- ===== src/Tests/Rebases.antt =====
-- A session behind a branch, and its rebase.
use icechunk.Prelude.{
  ◌≡◌, ◌≢◌, ◌⊎◌, refl, true, false, none, some, [], ◌∷◌, nat_eq, list_eq, any, if◌then◌else◌, codes,
  Str,
}
use icechunk.Dict.{get, insert, retain}
use icechunk.Format.{External, NodePath, NodeId, ChunkIndices, SnapshotId}
use icechunk.Format.Chunks.{ChunkPayload}
use icechunk.ChangeSet
use icechunk.ChangeSet.{ChangeSet, get_chunk_ref}
use icechunk.Conflicts.{Conflict, chunk_double_update, patched, unsolvable}
use icechunk.Conflicts.Detector
use icechunk.Conflicts.Solver.{
  BasicConflictSolver, fail, use_theirs, default_solver, is_unsolvable, resolve_all,
  solve_conflicts, solve,
}
use icechunk.Conflicts.Solver.Resolution.{solve_conflicts_lem, get_chunk_ref-resolve_all, takes}
use icechunk.Refs.{fetch_branch_tip}
use icechunk.TransactionLog.{TransactionLog}
use icechunk.Repository.{Repository, RepositoryError, default_config, rebase_failed}
use icechunk.Repository.Rebasing.{replay, rebase}
use icechunk.Repository.Rebasing.Progress.{snapshot_id-rebase}
use icechunk.Repository.Rebasing.Solvers.{replay_returns, Failed, rebase-solve-Failed}
use icechunk.Tests.Packages.{test_external, test_codec, test_storage, TestStore}
use icechunk.Tests.Sessions.{at}
use icechunk.Tests.Formats.{first_snapshot}
use icechunk.Tests.Branches.{one_version}

abbrev theirs : BasicConflictSolver
theirs = record default_solver { on_chunk_conflict = use_theirs }

abbrev failing : BasicConflictSolver
failing = record default_solver { on_chunk_conflict = fail }

abbrev array_id : NodeId
array_id = 2 ∷ []

abbrev origin : ChunkIndices
origin = 0 ∷ []

abbrev chunk_set : ChangeSet
chunk_set = record ChangeSet.empty {
  set_chunks = (array_id, (origin, some (ChunkPayload.inline (7 ∷ []))) ∷ []) ∷ [];
}

abbrev double : Conflict
double = chunk_double_update (at (2 ∷ 1 ∷ [])) array_id (origin ∷ [])

-- The commit 2 wrote the same chunk.
abbrev their_log : TransactionLog
their_log = record {
  format_version = 0;
  new_groups = [];
  new_arrays = [];
  deleted_groups = [];
  deleted_arrays = [];
  updated_user_attributes = [];
  updated_zarr_metadata = [];
  updated_chunks = (array_id, origin ∷ []) ∷ [];
}

abbrev behind : TestStore
behind = record one_version { snapshots = λ id. some first_snapshot; logs = λ id. some their_log }

abbrev pub repo : Repository
repo = record {
  config = default_config;
  store = behind;
  snapshot_id = 5 ∷ [];
  change_set = chunk_set;
}

abbrev main : Str
main = codes "main"

solve_conflicts_lem_example :
    ((any (is_unsolvable failing) (double ∷ []) ≡ true)
      × (solve_conflicts failing chunk_set (double ∷ [])
          ≡ some (unsolvable (double ∷ []) chunk_set)))
    ⊎ ((any (is_unsolvable failing) (double ∷ []) ≡ false)
        × ((cs' : ChangeSet) × (solve_conflicts failing chunk_set (double ∷ [])
              ≡ some (patched cs'))))
solve_conflicts_lem_example = solve_conflicts_lem failing chunk_set (double ∷ [])

abbrev without_chunk : ChangeSet
without_chunk = record ChangeSet.empty { set_chunks = (array_id, []) ∷ [] }

get_chunk_ref-resolve_all_example : get_chunk_ref without_chunk array_id origin ≡ (
    if any (takes theirs array_id origin) (double ∷ [])
    then none
    else get_chunk_ref chunk_set array_id origin)
unfolding resolve_all ChangeSet.drop_chunk_changes get insert retain
get_chunk_ref-resolve_all_example =
    get_chunk_ref-resolve_all theirs (double ∷ []) chunk_set without_chunk array_id origin refl

replay_returns_example : replay (solve theirs) ((1 ∷ []) ∷ []) repo ≢ none
replay_returns_example = replay_returns theirs ((1 ∷ []) ∷ []) repo

rebase-solve-Failed_example : Failed failing repo repo main (rebase_failed (1 ∷ []) (double ∷ []))
unfolding fetch_branch_tip rebase solve Detector.detect icechunk.Snapshot.local_ancestry
    icechunk.Repository.Listing.updated_nodes icechunk.ChangeSet.Nodes.new_nodes get
    icechunk.Conflicts.PathFinder.path_of icechunk.Snapshot.iter_arc
    icechunk.ChangeSet.Nodes.update_existing_node ChangeSet.is_deleted icechunk.Format.ancestors
    icechunk.Btree.range_after is_unsolvable
rebase-solve-Failed_example =
    rebase-solve-Failed failing repo repo main (rebase_failed (1 ∷ []) (double ∷ [])) refl

abbrev rebased : Repository
rebased = record repo { snapshot_id = 1 ∷ [] }

snapshot_id-rebase_example : rebased.snapshot_id ≡ (1 ∷ [])
unfolding fetch_branch_tip rebase solve Detector.detect icechunk.Snapshot.local_ancestry
    icechunk.Repository.Listing.updated_nodes icechunk.ChangeSet.Nodes.new_nodes get
    icechunk.Conflicts.PathFinder.path_of icechunk.Snapshot.iter_arc
    icechunk.ChangeSet.Nodes.update_existing_node ChangeSet.is_deleted icechunk.Format.ancestors
    icechunk.Btree.range_after is_unsolvable
snapshot_id-rebase_example =
    snapshot_id-rebase (solve default_solver) repo rebased main (record { snapshot = 1 ∷ [] }) refl
      refl
