-- ===== src/ChangeSet/Chunks.antt =====
-- The chunk changes of a session: the iterators of icechunk/src/change_set.rs, and what is read
-- after a write.
use icechunk.Prelude.{
  ◌≡◌, Bool, not, ◌&&◌, Option, none, some, List, [], arith, ◌==◌, nat_eq, list_eq, list_beq_iff,
  if◌then◌else◌, option_map, filter_map, flat_map, unwrap_or,
}
use icechunk.Dict.{get, get-insert, get-retain, retain}
use icechunk.Format.{External, NodePath, path_eq, NodeId, ChunkIndices}
use icechunk.Format.Chunks.{ChunkPayload, ChunkInfo}
use icechunk.Format.Nodes.{ZarrArrayMetadata}
use icechunk.ChangeSet.{
  ChangeSet, is_deleted, set_chunk_ref, get_chunk_ref, drop_chunk_changes, put_chunk,
}

module _ ⦃E : External⦄ where
  unfoldable pub array_chunks_iterator :
      ChangeSet → NodeId → NodePath → List (ChunkIndices × Option ChunkPayload)
  array_chunks_iterator cs node_id node_path =
      if is_deleted cs node_path then [] else unwrap_or (get cs.set_chunks node_id) []

  -- A payload that is written, as a `ChunkInfo`; a deleted chunk gives nothing.
  abbrev pub chunk_info : NodeId → ChunkIndices × Option ChunkPayload → Option ChunkInfo
  chunk_info node_id (coord, payload) =
      option_map (λ p. record { node = node_id; coord = coord; payload = p }) payload

  abbrev array_chunks :
      ChangeSet → NodePath × (NodeId × ZarrArrayMetadata) → List (NodePath × ChunkInfo)
  array_chunks cs (path, (node_id, _)) =
      filter_map (λ e. option_map (λ info. (path, info)) (chunk_info node_id e))
        (array_chunks_iterator cs node_id path)

  unfoldable pub new_arrays_chunk_iterator : ChangeSet → List (NodePath × ChunkInfo)
  unfolding array_chunks_iterator
  new_arrays_chunk_iterator cs = flat_map (array_chunks cs) cs.new_arrays

  -- One round of `update_existing_chunks`
  abbrev update_chunk : ChunkInfo → Option (Option ChunkPayload) → Option ChunkInfo
  update_chunk chunk none = some chunk
  update_chunk chunk (some new_payload) =
      option_map (λ pl. record chunk { payload = pl }) new_payload

  unfoldable pub update_existing_chunks : ChangeSet → NodeId → List ChunkInfo → List ChunkInfo
  unfolding get_chunk_ref
  update_existing_chunks cs node chunks =
      filter_map (λ chunk. update_chunk chunk (get_chunk_ref cs node chunk.coord)) chunks

  module _ (cs : ChangeSet) where
    -- After `set_chunk_ref`, a read of that chunk gives what was set, a deletion included, and a
    -- read of any other chunk of any node gives what it gave before.
    pub get_chunk_ref-set_chunk_ref :
        (node : NodeId) (coord : ChunkIndices) (payload : Option ChunkPayload) (node' : NodeId)
        (coord' : ChunkIndices)
        → get_chunk_ref (set_chunk_ref cs node coord payload) node' coord' ≡ (
            if (node == node') && (coord == coord')
            then some payload
            else get_chunk_ref cs node' coord')
    unfolding get_chunk_ref set_chunk_ref get
    get_chunk_ref-set_chunk_ref node coord payload node' coord' = ground (
      arith,
      get-insert cs.set_chunks node (put_chunk (get cs.set_chunks node) coord payload) node',
      get-insert (unwrap_or (get cs.set_chunks node) []) coord payload coord',
      list_beq_iff node node',
    )

    abbrev kept : (ChunkIndices → Bool) → ChunkIndices → Bool
    kept predicate coord = not (predicate coord)

    -- `drop_chunk_changes` forgets exactly the chunks of the node for which the test holds.
    pub get_chunk_ref-drop_chunk_changes :
        (node : NodeId) (predicate : ChunkIndices → Bool) (node' : NodeId) (coord : ChunkIndices)
        → get_chunk_ref (drop_chunk_changes cs node predicate) node' coord
          ≡ (if (node == node') && predicate coord then none else get_chunk_ref cs node' coord)
    unfolding get_chunk_ref drop_chunk_changes
    get_chunk_ref-drop_chunk_changes node predicate node' coord = ground (
      arith,
      get-insert cs.set_chunks node
          (retain (kept predicate) (unwrap_or (get cs.set_chunks node) [])) node',
      get-retain (kept predicate) (unwrap_or (get cs.set_chunks node) []) coord,
      list_beq_iff node node',
    )
