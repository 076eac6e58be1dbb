-- ===== src/Conflicts/Detector.antt =====
-- `ConflictDetector::solve` of icechunk/src/conflicts/detector.rs. Each stream is the list of what it
-- yields; the first error, in the order of the chain, ends the collection. Paths are looked up by
-- `path_of`, which is what the cache of `PathFinder` answers.
use icechunk.Prelude.{
  Bool, ◌||◌, Option, none, some, List, [], ◌∷◌, ◌++◌, map, nat_eq, list_eq, ok, err, ◌>>=◌,
  if◌then◌else◌, contains, filter_by, tail_of, flat_map,
}
use icechunk.Dict.{get, keys, contains_key}
use icechunk.Format.{External, NodePath, path_eq, ancestors, NodeId, SnapshotId, ChunkIndices}
use icechunk.Format.Nodes.{NodeSnapshot}
use icechunk.ChangeSet
use icechunk.ChangeSet.{ChangeSet}
use icechunk.ChangeSet.Nodes.{new_nodes}
use icechunk.Conflicts.{
  Conflict, ConflictResolution, new_node_conflicts_with_existing_node, new_node_in_invalid_group,
  zarr_metadata_double_update, zarr_metadata_update_of_deleted_array, user_attributes_double_update,
  user_attributes_update_of_deleted_node, chunk_double_update, chunks_updated_in_deleted_array,
  chunks_updated_in_updated_array, delete_of_updated_array, delete_of_updated_group, patched,
  unsolvable,
}
use icechunk.Conflicts.PathFinder.{path_of}
use icechunk.Storage.{Storage}
use icechunk.TransactionLog.{TransactionLog}
use icechunk.Repository.{Repository, RepositoryError, RepositoryResult, conflicting_path_not_found}
use icechunk.Repository.Reading.{get_node, get_array}
use icechunk.Repository.Listing.{updated_nodes}

module _ ⦃E : External⦄ where
  -- An item of a stream: a conflict, nothing, or an error
  abbrev pub Found : Type 0
  Found = RepositoryResult (Option Conflict)

  -- `try_collect` of the chained streams
  abbrev keep : Option Conflict → List Conflict → List Conflict
  keep none cs = cs
  keep (some c) cs = c ∷ cs

  unfoldable pub try_collect : List Found → RepositoryResult (List Conflict)
  try_collect [] = ok []
  try_collect (x ∷ xs) = let rest = try_collect xs in x >>= λ c. rest >>= λ cs. ok (keep c cs)

  abbrev explicit_conflict : NodePath → RepositoryResult NodeSnapshot → Found
  explicit_conflict path (ok _) = ok (some (new_node_conflicts_with_existing_node path))
  explicit_conflict path (err (RepositoryError.node_not_found _)) = ok none
  explicit_conflict path (err e) = err e

  abbrev invalid_parent : NodePath → RepositoryResult NodeSnapshot → Found → Found
  invalid_parent parent (ok _) rest = ok (some (new_node_in_invalid_group parent))
  invalid_parent parent (err (RepositoryError.node_not_found _)) rest = rest
  invalid_parent parent (err (RepositoryError.not_an_array _)) rest = rest
  invalid_parent parent (err e) rest = err e

  -- A conflict at the path of a node
  abbrev at_path : List NodeSnapshot → NodeId → (NodePath → Conflict) → Found
  at_path nodes node_id make = elim (path_of nodes node_id) [
    | none ↦ err (conflicting_path_not_found node_id)
    | some path ↦ ok (some (make path))
  ]

  -- The ids of a list that pass a test, each with its conflict
  abbrev each_node :
      List NodeSnapshot
      → (NodeId → Bool)
      → (NodeId → NodePath → Conflict)
      → List NodeId
      → List Found
  each_node nodes test make ids = map (λ id. at_path nodes id (make id)) (filter_by test ids)

  abbrev overlap : Option (List ChunkIndices) → List ChunkIndices → List ChunkIndices
  overlap none coords = []
  overlap (some previous_changes) coords = filter_by (contains previous_changes) coords

  abbrev double_update : List NodeSnapshot → NodeId → List ChunkIndices → List Found
  double_update nodes id [] = []
  double_update nodes id (c ∷ conflicting) =
      at_path nodes id (λ path. chunk_double_update path id (c ∷ conflicting)) ∷ []

  abbrev deleted_array_conflict : TransactionLog → NodePath → RepositoryResult NodeSnapshot → Found
  deleted_array_conflict log path (ok node) =
      if contains log.updated_zarr_metadata node.id
        || (contains log.updated_user_attributes node.id || contains_key log.updated_chunks node.id)
      then ok (some (delete_of_updated_array path))
      else ok none
  deleted_array_conflict log path (err (RepositoryError.node_not_found _)) = ok none
  deleted_array_conflict log path (err e) = err e

  abbrev deleted_group_conflict : TransactionLog → NodePath → RepositoryResult NodeSnapshot → Found
  deleted_group_conflict log path (ok node) =
      if contains log.updated_user_attributes node.id
      then ok (some (delete_of_updated_group path))
      else ok none
  deleted_group_conflict log path (err (RepositoryError.node_not_found _)) = ok none
  deleted_group_conflict log path (err e) = err e

  -- The streams that ask the transaction log only, in the order of the chain
  unfoldable pub log_conflicts : TransactionLog → List NodeSnapshot → ChangeSet → List Found
  log_conflicts log nodes cs =
      let arrays = keys cs.updated_arrays in
      let attributes = keys cs.updated_attributes in
      let chunked = keys cs.set_chunks in
      each_node nodes (contains log.updated_zarr_metadata)
        (λ id path. zarr_metadata_double_update path) arrays
      ++ (each_node nodes (contains log.deleted_arrays)
            (λ id path. zarr_metadata_update_of_deleted_array path) arrays
          ++ (each_node nodes (contains log.updated_user_attributes)
                (λ id path. user_attributes_double_update path id) attributes
              ++ (each_node nodes
                    (λ id. contains log.deleted_arrays id || contains log.deleted_groups id)
                    (λ id path. user_attributes_update_of_deleted_node path) attributes
                  ++ (each_node nodes (contains log.deleted_arrays)
                        (λ id path. chunks_updated_in_deleted_array path id) chunked
                      ++ (each_node nodes (contains log.updated_zarr_metadata)
                            (λ id path. chunks_updated_in_updated_array path id) chunked
                          ++ flat_map
                              (λ e.
                                double_update nodes e.0
                                  (overlap (get log.updated_chunks e.0) (keys e.1)))
                              cs.set_chunks)))))

module _ ⦃E : External⦄ ⦃S : Storage⦄ where
  open S use {Store}

  -- The loop over the ancestors of a new node, without the node itself
  unfoldable pub implicit_conflict :
      (NodePath → RepositoryResult NodeSnapshot) → List NodePath → Found
  implicit_conflict get_array_at [] = ok none
  implicit_conflict get_array_at (parent ∷ parents) =
      let rest = implicit_conflict get_array_at parents in
      invalid_parent parent (get_array_at parent) rest

  -- The previous repository is the store at the commit `previous_id`, with no changes.
  unfoldable pub all_conflicts :
      Store → TransactionLog → SnapshotId → ChangeSet → List NodeSnapshot → List Found
  unfolding implicit_conflict log_conflicts
  all_conflicts s log previous_id cs nodes =
      let node_before = get_node s ChangeSet.empty previous_id in
      let array_before = get_array s ChangeSet.empty previous_id in
      map (λ e. explicit_conflict e.0 (node_before e.0)) (new_nodes cs)
      ++ (map (λ e. implicit_conflict array_before (tail_of (ancestors e.0))) (new_nodes cs)
          ++ (log_conflicts log nodes cs
              ++ (map (λ path. deleted_array_conflict log path (node_before path)) cs.deleted_arrays
                  ++ map (λ path. deleted_group_conflict log path (node_before path))
                      cs.deleted_groups)))

  abbrev pub resolution : ChangeSet → List Conflict → ConflictResolution
  resolution cs [] = patched cs
  resolution cs (c ∷ conflicts) = unsolvable (c ∷ conflicts) cs

  -- `ConflictDetector::solve`; `current` is the session without its changes. Paths are found by a
  -- plain search, which the caching `PathFinder` agrees with (`find_each-new_finder`).
  unfoldable pub detect :
      Store
      → TransactionLog
      → SnapshotId
      → ChangeSet
      → Repository
      → RepositoryResult ConflictResolution
  unfolding all_conflicts try_collect
  detect s log previous_id cs current = do
    nodes ← updated_nodes current.store current.change_set current.snapshot_id none
    conflicts ← try_collect (all_conflicts s log previous_id cs nodes)
    ok (resolution cs conflicts)
