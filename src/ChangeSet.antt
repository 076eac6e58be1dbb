-- ===== src/ChangeSet.antt =====
-- icechunk/src/change_set.rs: what a session has changed and not committed. The fields are the
-- source's maps and sets; a method that takes `&mut self` returns the new change set.
pub mod Nodes
pub mod Deletion
pub mod Visibility
pub mod Chunks
pub mod Merging
use icechunk.Prelude.{
  ℕ, zero, suc, Bool, true, false, not, ◌&&◌, ◌||◌, Option, none, some, List, [], ◌∷◌, Eq, length,
  contains, any, filter_by, tail_of, fold, and_then, nat_eq, list_eq,
}
use icechunk.Dict.{
  Map, get, insert, remove, contains_key, extend, retain, set_insert, set_remove, set_extend,
}
use icechunk.Format.{External, NodePath, path_eq, ancestors, starts_with, NodeId, ChunkIndices}
use icechunk.Format.Chunks.{ChunkPayload}
use icechunk.Format.Nodes.{ZarrArrayMetadata}
use icechunk.Metadata.{UserAttributes}

module _ ⦃E : External⦄ where
  pub record ChangeSet : Type 0 where
    pub new_groups : Map NodePath NodeId
    pub new_arrays : Map NodePath (NodeId × ZarrArrayMetadata)
    pub updated_arrays : Map NodeId ZarrArrayMetadata
    pub updated_attributes : Map NodeId (Option UserAttributes)
    pub set_chunks : Map NodeId (Map ChunkIndices (Option ChunkPayload))
    pub deleted_groups : List NodePath
    pub deleted_arrays : List NodePath

  -- `ChangeSet::default()`
  abbrev pub empty : ChangeSet
  empty = record {
    new_groups = [];
    new_arrays = [];
    updated_arrays = [];
    updated_attributes = [];
    set_chunks = [];
    deleted_groups = [];
    deleted_arrays = [];
  }

  abbrev is_empty_list {ℓ} : {A : Type ℓ} → List A → Bool
  is_empty_list [] = true
  is_empty_list (x ∷ xs) = false

  -- A map or set equals the default one exactly if it has no entry.
  unfoldable pub is_empty : ChangeSet → Bool
  is_empty cs =
      is_empty_list cs.new_groups
      && (is_empty_list cs.new_arrays
          && (is_empty_list cs.updated_arrays
              && (is_empty_list cs.updated_attributes
                  && (is_empty_list cs.set_chunks
                      && (is_empty_list cs.deleted_groups && is_empty_list cs.deleted_arrays)))))

  unfoldable pub add_group : ChangeSet → NodePath → NodeId → ChangeSet
  add_group cs path node_id = record cs {
    deleted_groups = set_remove cs.deleted_groups path;
    new_groups = insert cs.new_groups path node_id;
  }

  unfoldable pub get_group : ChangeSet → NodePath → Option NodeId
  get_group cs path = get cs.new_groups path

  unfoldable pub get_array : ChangeSet → NodePath → Option (NodeId × ZarrArrayMetadata)
  get_array cs path = get cs.new_arrays path

  unfoldable pub add_array : ChangeSet → NodePath → NodeId → ZarrArrayMetadata → ChangeSet
  add_array cs path node_id metadata = record cs {
    deleted_arrays = set_remove cs.deleted_arrays path;
    new_arrays = insert cs.new_arrays path (node_id, metadata);
  }

  unfoldable pub update_array : ChangeSet → NodeId → ZarrArrayMetadata → ChangeSet
  update_array cs node_id metadata = record cs {
    updated_arrays = insert cs.updated_arrays node_id metadata;
  }

  -- Only an array that this session did not create is flagged as deleted.
  abbrev flag_old_array :
      List NodePath → NodePath → Option (NodeId × ZarrArrayMetadata) → List NodePath
  flag_old_array deleted path none = set_insert deleted path
  flag_old_array deleted path (some _) = deleted

  unfoldable pub delete_array : ChangeSet → NodePath → NodeId → ChangeSet
  delete_array cs path node_id = record cs {
    new_arrays = remove cs.new_arrays path;
    updated_arrays = remove cs.updated_arrays node_id;
    updated_attributes = remove cs.updated_attributes node_id;
    set_chunks = remove cs.set_chunks node_id;
    deleted_arrays = flag_old_array cs.deleted_arrays path (get cs.new_arrays path);
  }

  -- `dg` is the recursive call of `delete_group`. Both collections are made before their loop.
  unfoldable pub delete_children :
      (ChangeSet → NodePath → NodeId → ChangeSet) → ChangeSet → NodePath → ChangeSet
  delete_children dg cs path =
      let groups_to_delete = filter_by (λ e. starts_with e.0 path) cs.new_groups in
      let cs' = fold (λ c e. dg c e.0 e.1) cs groups_to_delete in
      let arrays_to_delete = filter_by (λ e. starts_with e.0 path) cs'.new_arrays in
      fold (λ c e. delete_array c e.0 e.1.0) cs' arrays_to_delete

  -- The recursion removes a new group before it goes on, so it is at most as deep as there are new
  -- groups. The number is this bound. A debug assertion, that the id is that of the new group, is left
  -- out.
  unfoldable pub delete_group_within : ℕ → ChangeSet → NodePath → NodeId → ChangeSet
  unfolding delete_children
  delete_group_within zero cs path node_id = cs
  delete_group_within (suc n) cs path node_id =
      let cs' = record cs { updated_attributes = remove cs.updated_attributes node_id } in
      elim (get cs.new_groups path) [
        | some deleted_node_id ↦
            delete_children (delete_group_within n)
              (record cs' { new_groups = remove cs.new_groups path }) path
        | none ↦ record cs' { deleted_groups = set_insert cs.deleted_groups path }
      ]

  unfoldable pub delete_group : ChangeSet → NodePath → NodeId → ChangeSet
  unfolding delete_group_within
  delete_group cs path node_id = delete_group_within (suc (length cs.new_groups)) cs path node_id

  -- The recursion goes from a path to the paths above it; the number bounds its depth.
  unfoldable pub is_deleted_within : ℕ → ChangeSet → NodePath → Bool
  is_deleted_within zero cs path = false
  is_deleted_within (suc n) cs path =
      contains cs.deleted_groups path
      || (contains cs.deleted_arrays path
          || any (λ parent. is_deleted_within n cs parent) (tail_of (ancestors path)))

  unfoldable pub is_deleted : ChangeSet → NodePath → Bool
  unfolding is_deleted_within
  is_deleted cs path = is_deleted_within (length (ancestors path)) cs path

  unfoldable pub has_updated_attributes : ChangeSet → NodeId → Bool
  has_updated_attributes cs node_id = contains_key cs.updated_attributes node_id

  unfoldable pub get_updated_zarr_metadata : ChangeSet → NodeId → Option ZarrArrayMetadata
  get_updated_zarr_metadata cs node_id = get cs.updated_arrays node_id

  unfoldable pub update_user_attributes : ChangeSet → NodeId → Option UserAttributes → ChangeSet
  update_user_attributes cs node_id atts = record cs {
    updated_attributes = insert cs.updated_attributes node_id atts;
  }

  unfoldable pub get_user_attributes : ChangeSet → NodeId → Option (Option UserAttributes)
  get_user_attributes cs node_id = get cs.updated_attributes node_id

  unfoldable pub undo_user_attributes_update : ChangeSet → NodeId → ChangeSet
  undo_user_attributes_update cs node_id = record cs {
    updated_attributes = remove cs.updated_attributes node_id;
  }

  -- `entry(node).and_modify(insert).or_insert(from([…]))`
  abbrev put_chunk :
      Option (Map ChunkIndices (Option ChunkPayload))
      → ChunkIndices
      → Option ChunkPayload
      → Map ChunkIndices (Option ChunkPayload)
  put_chunk none coord payload = (coord, payload) ∷ []
  put_chunk (some h) coord payload = insert h coord payload

  unfoldable pub set_chunk_ref : ChangeSet → NodeId → ChunkIndices → Option ChunkPayload → ChangeSet
  set_chunk_ref cs node_id coord payload = record cs {
    set_chunks = insert cs.set_chunks node_id (put_chunk (get cs.set_chunks node_id) coord payload);
  }

  unfoldable pub get_chunk_ref : ChangeSet → NodeId → ChunkIndices → Option (Option ChunkPayload)
  get_chunk_ref cs node_id coords = and_then (get cs.set_chunks node_id) (λ h. get h coords)

  -- A node whose references are all dropped keeps an empty map.
  abbrev retain_chunks :
      Map NodeId (Map ChunkIndices (Option ChunkPayload))
      → NodeId
      → (ChunkIndices → Bool)
      → Option (Map ChunkIndices (Option ChunkPayload))
      → Map NodeId (Map ChunkIndices (Option ChunkPayload))
  retain_chunks chunks node_id predicate none = chunks
  retain_chunks chunks node_id predicate (some changes) =
      insert chunks node_id (retain (λ coord. not (predicate coord)) changes)

  unfoldable pub drop_chunk_changes : ChangeSet → NodeId → (ChunkIndices → Bool) → ChangeSet
  drop_chunk_changes cs node_id predicate = record cs {
    set_chunks = retain_chunks cs.set_chunks node_id predicate (get cs.set_chunks node_id);
  }

  -- `take_chunks`: the chunk changes, and the change set without them
  unfoldable pub take_chunks :
      ChangeSet → Map NodeId (Map ChunkIndices (Option ChunkPayload)) × ChangeSet
  take_chunks cs = (cs.set_chunks, record cs { set_chunks = [] })

  -- The method `set_chunks`, which has the field's name
  unfoldable pub replace_chunks :
      ChangeSet → Map NodeId (Map ChunkIndices (Option ChunkPayload)) → ChangeSet
  replace_chunks cs chunks = record cs { set_chunks = chunks }

  abbrev merge_node_chunks :
      Option (Map ChunkIndices (Option ChunkPayload))
      → Map ChunkIndices (Option ChunkPayload)
      → Map ChunkIndices (Option ChunkPayload)
  merge_node_chunks none other_chunks = other_chunks
  merge_node_chunks (some old_value) other_chunks = extend old_value other_chunks

  -- The loop over `other.set_chunks`
  unfoldable pub merge_chunks :
      Map NodeId (Map ChunkIndices (Option ChunkPayload))
      → Map NodeId (Map ChunkIndices (Option ChunkPayload))
      → Map NodeId (Map ChunkIndices (Option ChunkPayload))
  merge_chunks chunks [] = chunks
  merge_chunks chunks ((node, other_chunks) ∷ others) =
      merge_chunks
        (insert (remove chunks node) node (merge_node_chunks (get chunks node) other_chunks)) others

  unfoldable pub merge : ChangeSet → ChangeSet → ChangeSet
  unfolding merge_chunks
  merge cs other = record {
    new_groups = extend cs.new_groups other.new_groups;
    new_arrays = extend cs.new_arrays other.new_arrays;
    updated_arrays = extend cs.updated_arrays other.updated_arrays;
    updated_attributes = extend cs.updated_attributes other.updated_attributes;
    set_chunks = merge_chunks cs.set_chunks other.set_chunks;
    deleted_groups = set_extend cs.deleted_groups other.deleted_groups;
    deleted_arrays = set_extend cs.deleted_arrays other.deleted_arrays;
  }

  unfoldable pub merge_many : ChangeSet → List ChangeSet → ChangeSet
  unfolding merge
  merge_many cs others = fold merge cs others
