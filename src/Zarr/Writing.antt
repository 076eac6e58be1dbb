-- ===== src/Zarr/Writing.antt =====
-- `set_array_meta`, `set_group_meta`, and the methods `set`, `set_if_not_exists`, `set_virtual_ref`,
-- `delete`, `set_partial_values` and `clear` of `Store` of icechunk/src/zarr.rs. The repository is locked
-- for as long as a method runs. Random ids are arguments.
use icechunk.Prelude.{
  Bool, true, false, Option, none, some, Result, ok, err, map_err, Str, if◌then◌else◌,
}
use icechunk.Exec.{Exec, pure, raise, writing, lift, proceed, ◌>>=◌, ◌>>◌}
use icechunk.Format.{External, NodePath, NodeId, ChunkId, ChunkIndices, Bytes}
use icechunk.Format.Chunks.{ChunkPayload, VirtualChunkRef}
use icechunk.Format.Nodes.{NodeData, NodeSnapshot}
use icechunk.Storage.{Storage}
use icechunk.VirtualRefs.Resolver.{VirtualChunkResolver}
use icechunk.Repository.{Repository, RepositoryError, RepositoryResult}
use icechunk.Repository.Editing.{
  Done, node_at, array_at, group_at, add_group, add_array, delete_group, delete_array, update_array,
  set_user_attributes, set_chunk_ref,
}
use icechunk.Repository.Editing
use icechunk.Repository.ChunkIo.{get_chunk_writer}
use icechunk.Zarr.{
  AccessMode, readonly, readwrite, StoreError, StoreResult, read_only, repository_error,
  unimplemented, not_allowed, bad_metadata,
}
use icechunk.Zarr.Documents.{Documents, ArrayMetadata, GroupMetadata}
use icechunk.Zarr.Keys.{PathText, Key, metadata, chunk, zarr_v2, parse}
use icechunk.Zarr.Reading.{exists}

-- The ids that a `set` may draw
pub record FreshIds : Type 0 where
  pub node_id : NodeId
  pub chunk_id : ChunkId

module _ ⦃E : External⦄ ⦃S : Storage⦄ where
  abbrev pub Edit : Type 0 → Type 0
  Edit A = Exec Repository StoreError A

  abbrev pub edit : (Repository → Done) → Edit Unit
  edit f = writing repository_error f

  abbrev is_ok {ℓ κ} : {F : Type ℓ} {A : Type κ} → Result F A → Bool
  is_ok (ok _) = true
  is_ok (err _) = false

  unfoldable pub set_array_meta : NodeId → NodePath → ArrayMetadata → Edit Unit
  set_array_meta id path array_meta repo =
      if is_ok (array_at repo path)
      then (edit (λ r. set_user_attributes r path array_meta.attributes)
            >> edit (λ r. update_array r path array_meta.zarr_metadata))
          repo
      else (edit (λ r. add_array r path id array_meta.zarr_metadata)
            >> edit (λ r. set_user_attributes r path array_meta.attributes))
          repo

  unfoldable pub set_group_meta : NodeId → NodePath → GroupMetadata → Edit Unit
  set_group_meta id path group_meta repo =
      if is_ok (group_at repo path)
      then edit (λ r. set_user_attributes r path group_meta.attributes) repo
      else (edit (λ r. add_group r path id)
            >> edit (λ r. set_user_attributes r path group_meta.attributes))
          repo

  -- The writer changes what the repository's storage points to.
  unfoldable pub write_payload : ChunkId → Bytes → Edit ChunkPayload
  write_payload id value repo =
      let (r, s) = get_chunk_writer repo id value repo.store in
      (map_err repository_error r, record repo { store = s })

  unfoldable pub set_chunk : ChunkId → NodePath → ChunkIndices → Bytes → Edit Unit
  unfolding write_payload
  set_chunk id path coords value = do
    payload ← write_payload id value
    edit (λ r. set_chunk_ref r path coords (some payload))

  module _ ⦃T : PathText⦄ where
    module _ ⦃D : Documents⦄ where
      abbrev group_or_bad : NodeId → NodePath → Option GroupMetadata → Edit Unit
      group_or_bad id path (some group_meta) = set_group_meta id path group_meta
      group_or_bad id path none = raise bad_metadata

      abbrev set_metadata : NodeId → NodePath → Bytes → Option ArrayMetadata → Edit Unit
      set_metadata id path value (some array_meta) = set_array_meta id path array_meta
      set_metadata id path value none = group_or_bad id path (D.group_from_slice value)

      abbrev pub set_of_key : FreshIds → Bytes → Key → Edit Unit
      set_of_key ids value (metadata path) =
          set_metadata ids.node_id path value (D.array_from_slice value)
      set_of_key ids value (chunk path coords) = set_chunk ids.chunk_id path coords value
      set_of_key ids value (zarr_v2 _) = raise unimplemented

      -- `set_with_optional_locking`
      unfoldable pub set : FreshIds → AccessMode → Str → Bytes → Edit Unit
      unfolding set_array_meta set_group_meta set_chunk
      set ids readonly key value = raise read_only
      set ids readwrite key value = lift (parse key) >>= set_of_key ids value

      abbrev unless_exists : FreshIds → AccessMode → Str → Bytes → Bool → Edit Unit
      unless_exists ids mode key value true = pure tt
      unless_exists ids mode key value false = set ids mode key value

      -- `none` is a panic of `exists`.
      unfoldable pub set_if_not_exists :
          ⦃V : VirtualChunkResolver⦄
          → FreshIds
          → AccessMode
          → Str
          → Bytes
          → Repository
          → Option (StoreResult (Unit {0}) × Repository)
      unfolding set
      set_if_not_exists ids mode key value repo = elim (exists key repo) [
        | none ↦ none
        | some r ↦ some (proceed r (unless_exists ids mode key value) repo)
      ]

    abbrev virtual_of_key : VirtualChunkRef → Key → Edit Unit
    virtual_of_key reference (chunk path coords) =
        edit (λ r. set_chunk_ref r path coords (some (ChunkPayload.virtual reference)))
    virtual_of_key reference (metadata _) = raise not_allowed
    virtual_of_key reference (zarr_v2 _) = raise not_allowed

    unfoldable pub set_virtual_ref : AccessMode → Str → VirtualChunkRef → Edit Unit
    set_virtual_ref readonly key reference = raise read_only
    set_virtual_ref readwrite key reference = lift (parse key) >>= virtual_of_key reference

    -- A node that is missing is deleted already.
    abbrev delete_data : NodePath → NodeData → Edit Unit
    delete_data path (NodeData.array _ _) = edit (λ r. delete_array r path)
    delete_data path NodeData.group = edit (λ r. delete_group r path)

    abbrev delete_found : NodePath → RepositoryResult NodeSnapshot → Edit Unit
    delete_found path (err (RepositoryError.node_not_found _)) = pure tt
    delete_found path (err e) = raise (repository_error e)
    delete_found path (ok node) = delete_data path node.node_data

    abbrev pub forgive : RepositoryResult (Unit {0}) → StoreResult (Unit {0})
    forgive (ok u) = ok u
    forgive (err (RepositoryError.node_not_found _)) = ok tt
    forgive (err e) = err (repository_error e)

    abbrev pub delete_of_key : Key → Edit Unit
    delete_of_key (metadata path) repo = delete_found path (node_at repo path) repo
    delete_of_key (chunk path coords) repo =
        let (r, repo') = set_chunk_ref repo path coords none in (forgive r, repo')
    delete_of_key (zarr_v2 _) repo = (ok tt, repo)

    unfoldable pub delete : AccessMode → Str → Edit Unit
    delete readonly key = raise read_only
    delete readwrite key = lift (parse key) >>= delete_of_key

  unfoldable pub set_partial_values : AccessMode → Edit Unit
  set_partial_values readonly = raise read_only
  set_partial_values readwrite = raise unimplemented

  -- `Store::clear`, which does not ask for the mode
  unfoldable pub clear_store : Edit Unit
  clear_store = edit Editing.clear
