-- ===== src/ChangeSet/Nodes.antt =====
-- The nodes of a session: the readers of icechunk/src/change_set.rs that build `NodeSnapshot`s.
use icechunk.Prelude.{
  ◌≡◌, ◌≢◌, refl, true, Option, none, some, List, [], ◌∷◌, ◌++◌, map, arith, nat_eq, list_eq,
  if◌then◌else◌, option_map, or_else, unwrap_or, flatten, filter_map, contains, contains-append,
}
use mathlib.Core.List.{map-append}
use icechunk.Dict.{Map, keys, contains-keys}
use icechunk.Format.{External, NodePath, path_eq, NodeId, ManifestId}
use icechunk.Format.Chunks.{ManifestRef}
use icechunk.Format.Nodes.{UserAttributesSnapshot, ZarrArrayMetadata, NodeData, NodeSnapshot}
use icechunk.Metadata.{UserAttributes}
use icechunk.ChangeSet.{
  ChangeSet, get_group, get_array, is_deleted, get_updated_zarr_metadata, get_user_attributes,
}

module _ ⦃E : External⦄ where
  -- Attributes that the session holds are stored inline.
  abbrev pub inline_atts : Option UserAttributes → Option UserAttributesSnapshot
  inline_atts a = option_map UserAttributesSnapshot.inline a

  -- `atts.flatten().map(Inline)`
  abbrev new_atts : Option (Option UserAttributes) → Option UserAttributesSnapshot
  new_atts atts = inline_atts (flatten atts)

  unfoldable pub get_new_array : ChangeSet → NodePath → Option NodeSnapshot
  unfolding get_array get_updated_zarr_metadata get_user_attributes
  get_new_array cs path =
      option_map
        (λ entry. record {
          id = entry.0;
          path = path;
          user_attributes = new_atts (get_user_attributes cs entry.0);
          node_data = NodeData.array (unwrap_or (get_updated_zarr_metadata cs entry.0) entry.1) [];
        })
        (get_array cs path)

  unfoldable pub get_new_group : ChangeSet → NodePath → Option NodeSnapshot
  unfolding get_group get_user_attributes
  get_new_group cs path =
      option_map
        (λ id. record {
          id = id;
          path = path;
          user_attributes = new_atts (get_user_attributes cs id);
          node_data = NodeData.group;
        })
        (get_group cs path)

  unfoldable pub get_new_node : ChangeSet → NodePath → Option NodeSnapshot
  unfolding get_new_array get_new_group
  get_new_node cs path = or_else (get_new_array cs path) (get_new_group cs path)

  unfoldable pub new_groups : ChangeSet → List (NodePath × NodeId)
  new_groups cs = cs.new_groups

  unfoldable pub new_arrays : ChangeSet → List (NodePath × NodeId)
  new_arrays cs = map (λ e. (e.0, e.1.0)) cs.new_arrays

  unfoldable pub new_nodes : ChangeSet → List (NodePath × NodeId)
  unfolding new_groups new_arrays
  new_nodes cs = new_groups cs ++ new_arrays cs

  -- `vec![ManifestRef { object_id, extents: ManifestExtents(vec![]) }]`
  abbrev pub one_manifest : ManifestId → List ManifestRef
  one_manifest mid = record { object_id = mid; extents = record { indices = [] } } ∷ []

  abbrev with_manifest : Option ManifestId → NodeSnapshot → NodeData → NodeSnapshot
  with_manifest manifest_id node NodeData.group = node
  with_manifest manifest_id node (NodeData.array meta _) = record node {
    node_data = NodeData.array meta (unwrap_or (option_map one_manifest manifest_id) []);
  }

  -- One round of `new_nodes_iterator`. The source panics where `get_new_node` finds nothing;
  -- `new_nodes_iterator` never meets that case (`get_new_node-new_nodes`).
  unfoldable pub new_node : ChangeSet → Option ManifestId → NodePath × NodeId → Option NodeSnapshot
  unfolding get_new_node
  new_node cs manifest_id (path, _) =
      if is_deleted cs path
      then none
      else option_map (λ node. with_manifest manifest_id node node.node_data) (get_new_node cs path)

  unfoldable pub new_nodes_iterator : ChangeSet → Option ManifestId → List NodeSnapshot
  unfolding new_node new_nodes
  new_nodes_iterator cs manifest_id = filter_map (new_node cs manifest_id) (new_nodes cs)

  abbrev updated_data : ChangeSet → NodeSnapshot → Option (List ManifestRef) → NodeData → NodeData
  updated_data cs node new_manifests NodeData.group = NodeData.group
  updated_data cs node new_manifests (NodeData.array old_zarr_meta _) =
      NodeData.array (unwrap_or (get_updated_zarr_metadata cs node.id) old_zarr_meta)
        (unwrap_or new_manifests [])

  unfoldable pub update_existing_node :
      ChangeSet → NodeSnapshot → Option (List ManifestRef) → Option NodeSnapshot
  unfolding get_user_attributes get_updated_zarr_metadata
  update_existing_node cs node new_manifests =
      if is_deleted cs node.path
      then none
      else some (record node {
        user_attributes =
            unwrap_or (option_map inline_atts (get_user_attributes cs node.id))
              node.user_attributes;
        node_data = updated_data cs node new_manifests node.node_data;
      })

  -- What `get_new_node` finds stands at the path that was asked for.
  pub path-get_new_node :
      (cs : ChangeSet) (path : NodePath) (node : NodeSnapshot)
      → get_new_node cs path ≡ some node
      → node.path ≡ path
  unfolding get_new_node
  path-get_new_node cs path node h = ground arith

  keys-new_arrays :
      (m : Map NodePath (NodeId × ZarrArrayMetadata)) → keys (map (λ e. (e.0, e.1.0)) m) ≡ keys m
  keys-new_arrays [] = refl
  keys-new_arrays (e ∷ m) = rw (keys-new_arrays m)

  -- Every path that `new_nodes` yields has a new node, which `new_nodes_iterator` relies on.
  pub get_new_node-new_nodes :
      (cs : ChangeSet) (path : NodePath)
      → contains (keys (new_nodes cs)) path ≡ true
      → get_new_node cs path ≢ none
  unfolding get_new_node new_nodes
  get_new_node-new_nodes cs path h = ground (
    arith,
    map-append (λ (e : NodePath × NodeId). e.0) (new_groups cs) (new_arrays cs),
    keys-new_arrays cs.new_arrays,
    contains-append (keys cs.new_groups) (keys cs.new_arrays) path,
    contains-keys cs.new_groups path,
    contains-keys cs.new_arrays path,
  )
