-- ===== src/Repository/Editing.antt =====
-- The session's edits: `add_group` to `set_chunk_ref`, `clear`, `merge` and `discard_changes` of
-- icechunk/src/repository.rs. They change the session only. A random node id is an argument.
use icechunk.Prelude.{Bool, true, false, Option, none, List, [], ◌∷◌, map, ok, err}
use icechunk.Format.{External, NodePath, NodeId, ChunkIndices}
use icechunk.Format.Chunks.{ChunkPayload}
use icechunk.Format.Nodes.{NodeType, ZarrArrayMetadata, NodeSnapshot, node_type}
use icechunk.Metadata.{UserAttributes}
use icechunk.ChangeSet
use icechunk.ChangeSet.{ChangeSet}
use icechunk.Storage.{Storage}
use icechunk.Repository.{Repository, RepositoryError, RepositoryResult, already_exists}
use icechunk.Repository.Reading.{get_node, get_array, get_group, read_chunk_ref}
use icechunk.Repository.Listing.{updated_nodes}

module _ ⦃E : External⦄ ⦃S : Storage⦄ where
  -- A method's result and the session after it
  abbrev pub Done : Type 0
  Done = RepositoryResult Unit × Repository

  abbrev pub node_at : Repository → NodePath → RepositoryResult NodeSnapshot
  node_at repo path = get_node repo.store repo.change_set repo.snapshot_id path

  abbrev pub array_at : Repository → NodePath → RepositoryResult NodeSnapshot
  array_at repo path = get_array repo.store repo.change_set repo.snapshot_id path

  abbrev pub group_at : Repository → NodePath → RepositoryResult NodeSnapshot
  group_at repo path = get_group repo.store repo.change_set repo.snapshot_id path

  abbrev with_changes : Repository → ChangeSet → Repository
  with_changes repo cs = record repo { change_set = cs }

  -- A node may be added where there is none.
  abbrev if_missing : Repository → ChangeSet → RepositoryResult NodeSnapshot → Done
  if_missing repo cs (err (RepositoryError.node_not_found _)) = (ok tt, with_changes repo cs)
  if_missing repo cs (ok node) = (err (already_exists node), repo)
  if_missing repo cs (err e) = (err e, repo)

  unfoldable pub add_group : Repository → NodePath → NodeId → Done
  add_group repo path id =
      if_missing repo (ChangeSet.add_group repo.change_set path id) (node_at repo path)

  unfoldable pub add_array : Repository → NodePath → NodeId → ZarrArrayMetadata → Done
  add_array repo path id metadata =
      if_missing repo (ChangeSet.add_array repo.change_set path id metadata) (node_at repo path)

  -- Deleting what is not there succeeds.
  abbrev if_found : Repository → (NodeSnapshot → ChangeSet) → RepositoryResult NodeSnapshot → Done
  if_found repo change (ok node) = (ok tt, with_changes repo (change node))
  if_found repo change (err (RepositoryError.node_not_found _)) = (ok tt, repo)
  if_found repo change (err e) = (err e, repo)

  unfoldable pub delete_group : Repository → NodePath → Done
  delete_group repo path =
      if_found repo (λ node. ChangeSet.delete_group repo.change_set node.path node.id)
        (group_at repo path)

  unfoldable pub delete_array : Repository → NodePath → Done
  delete_array repo path =
      if_found repo (λ node. ChangeSet.delete_array repo.change_set node.path node.id)
        (array_at repo path)

  abbrev pub on_node :
      Repository → (NodeSnapshot → ChangeSet) → RepositoryResult NodeSnapshot → Done
  on_node repo change (ok node) = (ok tt, with_changes repo (change node))
  on_node repo change (err e) = (err e, repo)

  unfoldable pub update_array : Repository → NodePath → ZarrArrayMetadata → Done
  update_array repo path metadata =
      on_node repo (λ node. ChangeSet.update_array repo.change_set node.id metadata)
        (array_at repo path)

  unfoldable pub set_user_attributes : Repository → NodePath → Option UserAttributes → Done
  set_user_attributes repo path atts =
      on_node repo (λ node. ChangeSet.update_user_attributes repo.change_set node.id atts)
        (node_at repo path)

  unfoldable pub set_chunk_ref : Repository → NodePath → ChunkIndices → Option ChunkPayload → Done
  set_chunk_ref repo path coord payload =
      on_node repo (λ node. ChangeSet.set_chunk_ref repo.change_set node.id coord payload)
        (array_at repo path)

  unfoldable pub get_chunk_ref :
      Repository → NodePath → ChunkIndices → RepositoryResult (Option ChunkPayload)
  get_chunk_ref repo path coords =
      read_chunk_ref repo.store repo.change_set repo.snapshot_id path coords

  abbrev delete_node : NodeType → Repository → NodePath → Done
  delete_node NodeType.group repo path = delete_group repo path
  delete_node NodeType.array repo path = delete_array repo path

  -- The loop of `clear`: the first error ends it.
  unfoldable pub delete_all : Repository → List (NodeType × NodePath) → Done
  unfolding delete_group delete_array
  delete_all repo [] = (ok tt, repo)
  delete_all repo ((t, p) ∷ to_delete) =
      let (r, repo') = delete_node t repo p in
      elim r [ ok _ ↦ delete_all repo' to_delete | err e ↦ (err e, repo') ]

  abbrev clear_listed : Repository → RepositoryResult (List NodeSnapshot) → Done
  clear_listed repo (ok nodes) =
      delete_all repo (map (λ n. (node_type n, NodeSnapshot.path n)) nodes)
  clear_listed repo (err e) = (err e, repo)

  unfoldable pub clear : Repository → Done
  unfolding delete_all
  clear repo = clear_listed repo (updated_nodes repo.store repo.change_set repo.snapshot_id none)

  unfoldable pub discard_changes : Repository → ChangeSet × Repository
  discard_changes repo = (repo.change_set, with_changes repo ChangeSet.empty)

  unfoldable pub merge : Repository → ChangeSet → Repository
  merge repo changes = with_changes repo (ChangeSet.merge repo.change_set changes)

  unfoldable pub has_uncommitted_changes : Repository → Bool
  has_uncommitted_changes repo = elim (ChangeSet.is_empty repo.change_set) [
    | true ↦ false
    | false ↦ true
  ]
