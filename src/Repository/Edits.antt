-- ===== src/Repository/Edits.antt =====
-- What a session reads after an edit.
use icechunk.Prelude.{
  ◌≡◌, refl, Option, arith, nat_eq, list_eq, ==-refl, ok, err, ◌>>=◌, map_err, if◌then◌else◌,
}
use icechunk.Format.{External, NodePath, path_eq, NodeId, SnapshotId, ChunkIndices}
use icechunk.Format.Chunks.{ChunkPayload}
use icechunk.Format.Nodes.{NodeType, NodeSnapshot, node_type}
use icechunk.ChangeSet
use icechunk.ChangeSet.{ChangeSet, is_deleted}
use icechunk.ChangeSet.Nodes.{get_new_node}
use icechunk.ChangeSet.Chunks.{get_chunk_ref-set_chunk_ref}
use icechunk.ChangeSet.Visibility.{is_deleted-any-starts_with}
use icechunk.Storage.{Storage}
use icechunk.Snapshot.{snapshot_get_node}
use icechunk.Repository.{Repository, RepositoryError, storage_error}
use icechunk.Repository.Reading.{
  get_node, get_existing_node, get_array, read_chunk_ref, with_session, new_or_existing,
  missing_node,
}
use icechunk.Repository.Editing.{set_chunk_ref, get_chunk_ref, node_at, array_at}

module _ ⦃E : External⦄ ⦃S : Storage⦄ where
  -- What `get_node` takes from a change set
  record SameNodes (cs cs' : ChangeSet) : Type 0 where
    deleted : (p : NodePath) → is_deleted cs p ≡ is_deleted cs' p
    new : (p : NodePath) → get_new_node cs p ≡ get_new_node cs' p
    over : (node : NodeSnapshot) → with_session cs node ≡ with_session cs' node

  get_existing_node_cong :
      (s : S.Store) (cs cs' : ChangeSet) (id : SnapshotId) (path : NodePath)
      → SameNodes cs cs'
      → get_existing_node s cs id path ≡ get_existing_node s cs' id path
  unfolding get_existing_node
  get_existing_node_cong s cs cs' id path same = λ i. do
    snapshot ← map_err storage_error (S.fetch_snapshot s id)
    node ← map_err missing_node (snapshot_get_node snapshot path)
    ok (same.over node i)

  get_node_cong :
      (s : S.Store) (cs cs' : ChangeSet) (id : SnapshotId) (path : NodePath)
      → SameNodes cs cs'
      → get_node s cs id path ≡ get_node s cs' id path
  unfolding get_node
  get_node_cong s cs cs' id path same = λ i.
      if same.deleted path i
      then err (RepositoryError.node_not_found path)
      else new_or_existing (get_existing_node_cong s cs cs' id path same i) (λ p. same.deleted p i)
          path (same.new path i)

  is_deleted_cong :
      (cs cs' : ChangeSet)
      → cs.deleted_groups ≡ cs'.deleted_groups
      → cs.deleted_arrays ≡ cs'.deleted_arrays
      → (p : NodePath) → is_deleted cs p ≡ is_deleted cs' p
  is_deleted_cong cs cs' g a p =
      ground (arith, g, a, is_deleted-any-starts_with cs p, is_deleted-any-starts_with cs' p)

  -- Setting a chunk does not change which nodes a session has.
  get_node-set_chunk_ref :
      (repo : Repository) (n : NodeId) (coord : ChunkIndices) (payload : Option ChunkPayload)
      (path : NodePath)
      → get_node repo.store
          (ChangeSet.set_chunk_ref repo.change_set n coord payload)
          repo.snapshot_id
          path
        ≡ node_at repo path
  unfolding ChangeSet.set_chunk_ref
  get_node-set_chunk_ref repo n coord payload path =
      get_node_cong repo.store (ChangeSet.set_chunk_ref repo.change_set n coord payload)
        repo.change_set repo.snapshot_id path
        (record {
          deleted =
              is_deleted_cong (ChangeSet.set_chunk_ref repo.change_set n coord payload)
                repo.change_set refl refl;
          new = λ p. unfold get_new_node in refl;
          over = λ node. unfold with_session in refl;
        })

  -- `get_array` finds exactly the nodes that `get_node` finds and that are arrays.
  array_at-node :
      (repo : Repository) (path : NodePath) (node : NodeSnapshot)
      → array_at repo path ≡ ok node
      → (node_at repo path ≡ ok node) × (node_type node ≡ NodeType.array)
  unfolding get_array node_type
  array_at-node repo path node h = ground arith

  read_set_chunk :
      (repo : Repository) (path : NodePath) (coord : ChunkIndices) (payload : Option ChunkPayload)
      (node : NodeSnapshot)
      → array_at repo path ≡ ok node
      → read_chunk_ref repo.store
          (ChangeSet.set_chunk_ref repo.change_set node.id coord payload)
          repo.snapshot_id
          path
          coord
        ≡ ok payload
  unfolding read_chunk_ref node_type
  read_set_chunk repo path coord payload node h =
      let (found, is_array) = array_at-node repo path node h in
      ground (
        arith,
        found,
        is_array,
        get_node-set_chunk_ref repo node.id coord payload path,
        get_chunk_ref-set_chunk_ref repo.change_set node.id coord payload node.id coord,
        ==-refl node.id,
        ==-refl coord,
      )

  -- A session that sets a chunk of an array, or deletes it, and reads it back gets what was set,
  -- whatever the array's manifests hold.
  pub get_chunk_ref-set_chunk_ref_self :
      (repo : Repository) (path : NodePath) (coord : ChunkIndices) (payload : Option ChunkPayload)
      (node : NodeSnapshot)
      → array_at repo path ≡ ok node
      → ((set_chunk_ref repo path coord payload).0 ≡ ok tt)
        × (get_chunk_ref (set_chunk_ref repo path coord payload).1 path coord ≡ ok payload)
  unfolding set_chunk_ref get_chunk_ref
  get_chunk_ref-set_chunk_ref_self repo path coord payload node h =
      (ground (arith, h), rw h (read_set_chunk repo path coord payload node h))
