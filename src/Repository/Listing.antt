-- ===== src/Repository/Listing.antt =====
-- Listing nodes and chunks: `updated_nodes`, `all_chunks` and their parts of
-- icechunk/src/repository.rs. A stream is the list of its items.
use icechunk.Prelude.{
  not, Option, none, List, [], ◌∷◌, ◌++◌, map, nat_eq, list_eq, ok, err, ◌>>=◌, map_err, map_ok,
  option_map, filter_by, filter_map, flat_map, contains,
}
use icechunk.Dict.{keys}
use icechunk.Format.{External, NodePath, NodeId, SnapshotId, ManifestId, ChunkIndices}
use icechunk.Format.Chunks.{ChunkInfo, ManifestRef}
use icechunk.Format.Nodes.{NodeType, NodeData, NodeSnapshot, node_type}
use icechunk.ChangeSet.{ChangeSet}
use icechunk.ChangeSet.Nodes.{update_existing_node, new_nodes_iterator, one_manifest}
use icechunk.ChangeSet.Chunks.{
  array_chunks_iterator, chunk_info, update_existing_chunks, new_arrays_chunk_iterator,
}
use icechunk.Manifest.{Manifest, manifest_iter}
use icechunk.Snapshot.{iter_arc}
use icechunk.Storage.{Storage, StorageResult}
use icechunk.Repository.{RepositoryResult, storage_error}
use icechunk.Repository.Reading.{get_node}

abbrev pub for_arrays : NodeType → Option (List ManifestRef) → Option (List ManifestRef)
for_arrays NodeType.array refs = refs
for_arrays NodeType.group refs = none

module _ ⦃E : External⦄ ⦃S : Storage⦄ where
  open S use {Store, fetch_snapshot, fetch_manifests}

  unfoldable pub updated_existing_nodes :
      Store → ChangeSet → SnapshotId → Option ManifestId → RepositoryResult (List NodeSnapshot)
  updated_existing_nodes s cs parent_id manifest_id = do
    snapshot ← map_err storage_error (fetch_snapshot s parent_id)
    ok (
        filter_map
          (λ node.
            update_existing_node cs node
              (for_arrays (node_type node) (option_map one_manifest manifest_id)))
          (iter_arc snapshot))

  unfoldable pub updated_nodes :
      Store → ChangeSet → SnapshotId → Option ManifestId → RepositoryResult (List NodeSnapshot)
  unfolding updated_existing_nodes
  updated_nodes s cs parent_id manifest_id = do
    existing ← updated_existing_nodes s cs parent_id manifest_id
    ok (existing ++ new_nodes_iterator cs manifest_id)

  -- The chunks of an old manifest that the session has not touched
  abbrev old_chunks :
      ChangeSet
      → NodeId
      → List ChunkIndices
      → StorageResult Manifest
      → List (RepositoryResult ChunkInfo)
  old_chunks cs node new_chunk_indices (ok manifest) = map ok (
      update_existing_chunks cs node (
        map (λ e. record { node = node; coord = e.0; payload = e.1 })
          (filter_by (λ e. not (contains new_chunk_indices e.0)) (manifest_iter manifest node))))
  old_chunks cs node new_chunk_indices (err e) = err (storage_error e) ∷ []

  abbrev node_data_chunks :
      Store → ChangeSet → NodeSnapshot → NodeData → List (RepositoryResult ChunkInfo)
  node_data_chunks s cs node NodeData.group = []
  node_data_chunks s cs node (NodeData.array _ manifests) =
      let session = array_chunks_iterator cs node.id node.path in
      map ok (filter_map (chunk_info node.id) session)
      ++ flat_map
          (λ m. old_chunks cs node.id (keys session) (fetch_manifests s (ManifestRef.object_id m)))
          manifests

  unfoldable pub verified_node_chunk_iterator :
      Store → ChangeSet → NodeSnapshot → List (RepositoryResult ChunkInfo)
  verified_node_chunk_iterator s cs node = node_data_chunks s cs node node.node_data

  abbrev chunks_or_nothing :
      Store → ChangeSet → RepositoryResult NodeSnapshot → List (RepositoryResult ChunkInfo)
  chunks_or_nothing s cs (ok node) = verified_node_chunk_iterator s cs node
  chunks_or_nothing s cs (err e) = []

  unfoldable pub node_chunk_iterator :
      Store → ChangeSet → SnapshotId → NodePath → List (RepositoryResult ChunkInfo)
  unfolding verified_node_chunk_iterator
  node_chunk_iterator s cs snapshot_id path =
      chunks_or_nothing s cs (get_node s cs snapshot_id path)

  unfoldable pub updated_chunk_iterator :
      Store
      → ChangeSet
      → SnapshotId
      → RepositoryResult (List (RepositoryResult (NodePath × ChunkInfo)))
  unfolding node_chunk_iterator
  updated_chunk_iterator s cs snapshot_id = do
    snapshot ← map_err storage_error (fetch_snapshot s snapshot_id)
    ok (
        flat_map
          (λ node.
            map (map_ok (λ ci. (NodeSnapshot.path node, ci)))
              (node_chunk_iterator s cs snapshot_id (NodeSnapshot.path node)))
          (iter_arc snapshot))

  unfoldable pub all_chunks :
      Store
      → ChangeSet
      → SnapshotId
      → RepositoryResult (List (RepositoryResult (NodePath × ChunkInfo)))
  unfolding updated_chunk_iterator
  all_chunks s cs snapshot_id = do
    existing ← updated_chunk_iterator s cs snapshot_id
    ok (existing ++ map ok (new_arrays_chunk_iterator cs))
