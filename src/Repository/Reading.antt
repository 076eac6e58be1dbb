-- ===== src/Repository/Reading.antt =====
-- Reading nodes and chunk references: `get_node`, `get_existing_node`, `get_array`, `get_group`,
-- `get_chunk_ref` and `get_old_chunk` of icechunk/src/repository.rs.
use icechunk.Prelude.{
  Bool, Option, none, some, List, [], ◌∷◌, Result, ok, err, ◌>>=◌, map_err, option_map, unwrap_or,
  if◌then◌else◌,
}
use icechunk.Format.{External, NodePath, NodeId, SnapshotId, ChunkIndices}
use icechunk.Format.Chunks.{ChunkPayload, ManifestRef}
use icechunk.Format.Nodes.{ZarrArrayMetadata, NodeData, NodeSnapshot}
use icechunk.ChangeSet.{
  ChangeSet, is_deleted, get_updated_zarr_metadata, get_user_attributes, get_chunk_ref,
}
use icechunk.ChangeSet.Nodes.{get_new_node, inline_atts}
use icechunk.Manifest.{FormatError, chunk_coordinates_not_found, get_chunk_payload}
use icechunk.Snapshot.{NodeError, snapshot_get_node}
use icechunk.Storage.{Storage}
use icechunk.Repository.{
  RepositoryError, RepositoryResult, storage_error, not_an_array, not_a_group,
}

module _ ⦃E : External⦄ ⦃S : Storage⦄ where
  open S use {Store, fetch_snapshot, fetch_manifests}

  abbrev pub missing_node : NodeError → RepositoryError
  missing_node (NodeError.node_not_found path) = RepositoryError.node_not_found path

  -- The session's attributes and metadata over those of the snapshot
  abbrev session_data : Option ZarrArrayMetadata → NodeData → NodeData
  session_data (some session_meta) (NodeData.array _ manifests) =
      NodeData.array session_meta manifests
  session_data (some session_meta) NodeData.group = NodeData.group
  session_data none node_data = node_data

  unfoldable pub with_session : ChangeSet → NodeSnapshot → NodeSnapshot
  unfolding get_user_attributes get_updated_zarr_metadata
  with_session cs node = record node {
    user_attributes =
        unwrap_or (option_map inline_atts (get_user_attributes cs node.id)) node.user_attributes;
    node_data = session_data (get_updated_zarr_metadata cs node.id) node.node_data;
  }

  unfoldable pub get_existing_node :
      Store → ChangeSet → SnapshotId → NodePath → RepositoryResult NodeSnapshot
  unfolding with_session
  get_existing_node s cs snapshot_id path = do
    snapshot ← map_err storage_error (fetch_snapshot s snapshot_id)
    node ← map_err missing_node (snapshot_get_node snapshot path)
    ok (with_session cs node)

  abbrev unless_deleted : Bool → NodePath → NodeSnapshot → RepositoryResult NodeSnapshot
  unless_deleted deleted path node =
      if deleted then err (RepositoryError.node_not_found path) else ok node

  abbrev pub new_or_existing :
      RepositoryResult NodeSnapshot
      → (NodePath → Bool)
      → NodePath
      → Option NodeSnapshot
      → RepositoryResult NodeSnapshot
  new_or_existing existing deleted path (some node) = ok node
  new_or_existing existing deleted path none = do
    node ← existing
    unless_deleted (deleted node.path) path node

  unfoldable pub get_node :
      Store → ChangeSet → SnapshotId → NodePath → RepositoryResult NodeSnapshot
  unfolding get_existing_node
  get_node s cs snapshot_id path =
      if is_deleted cs path
      then err (RepositoryError.node_not_found path)
      else new_or_existing (get_existing_node s cs snapshot_id path) (is_deleted cs) path
          (get_new_node cs path)

  abbrev pub only_array : NodeSnapshot → NodeData → RepositoryResult NodeSnapshot
  only_array node (NodeData.array _ _) = ok node
  only_array node NodeData.group = err (not_an_array node)

  abbrev pub only_group : NodeSnapshot → NodeData → RepositoryResult NodeSnapshot
  only_group node NodeData.group = ok node
  only_group node (NodeData.array _ _) = err (not_a_group node)

  unfoldable pub get_array :
      Store → ChangeSet → SnapshotId → NodePath → RepositoryResult NodeSnapshot
  get_array s cs snapshot_id path = do
    node ← get_node s cs snapshot_id path
    only_array node node.node_data

  unfoldable pub get_group :
      Store → ChangeSet → SnapshotId → NodePath → RepositoryResult NodeSnapshot
  get_group s cs snapshot_id path = do
    node ← get_node s cs snapshot_id path
    only_group node node.node_data

  -- The first manifest that has the chunk answers.
  abbrev or_next_manifest :
      Result FormatError ChunkPayload
      → RepositoryResult (Option ChunkPayload)
      → RepositoryResult (Option ChunkPayload)
  or_next_manifest (ok payload) rest = ok (some payload)
  or_next_manifest (err (chunk_coordinates_not_found _)) rest = rest

  unfoldable pub get_old_chunk :
      Store → NodeId → List ManifestRef → ChunkIndices → RepositoryResult (Option ChunkPayload)
  get_old_chunk s node [] coords = ok none
  get_old_chunk s node (manifest ∷ manifests) coords =
      let rest = get_old_chunk s node manifests coords in
      map_err storage_error (fetch_manifests s manifest.object_id) >>= λ structure.
      or_next_manifest (get_chunk_payload structure node coords) rest

  abbrev session_chunk_or_old :
      Store
      → NodeId
      → List ManifestRef
      → ChunkIndices
      → Option (Option ChunkPayload)
      → RepositoryResult (Option ChunkPayload)
  session_chunk_or_old s node manifests coords (some res) = ok res
  session_chunk_or_old s node manifests coords none = get_old_chunk s node manifests coords

  abbrev chunk_of_node :
      Store
      → ChangeSet
      → NodeSnapshot
      → ChunkIndices
      → NodeData
      → RepositoryResult (Option ChunkPayload)
  chunk_of_node s cs node coords NodeData.group = err (not_an_array node)
  chunk_of_node s cs node coords (NodeData.array _ manifests) =
      session_chunk_or_old s node.id manifests coords (get_chunk_ref cs node.id coords)

  unfoldable pub read_chunk_ref :
      Store
      → ChangeSet
      → SnapshotId
      → NodePath
      → ChunkIndices
      → RepositoryResult (Option ChunkPayload)
  unfolding get_old_chunk
  read_chunk_ref s cs snapshot_id path coords = do
    node ← get_node s cs snapshot_id path
    chunk_of_node s cs node coords node.node_data
