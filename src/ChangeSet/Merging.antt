-- ===== src/ChangeSet/Merging.antt =====
-- `merge`: the change sets of several writers become one, the later ones first in precedence.
use icechunk.Prelude.{
  ◌⊎◌, inl, inr, Bool-cases, false, ◌≡◌, refl, true, ◌||◌, Option, none, some, List, [], ◌∷◌, arith,
  nat_eq, list_eq, list_beq_iff, or_else, any, contains,
}
use icechunk.Dict.{
  Map, get, insert, remove, set_extend, set_insert, get-extend, get-insert, get-remove, Distinct,
  contains_key-get,
}
use icechunk.Format.{External, NodePath, path_eq, path_beq_iff, NodeId, ChunkIndices, starts_with}
use icechunk.Format.Chunks.{ChunkPayload}
use icechunk.Format.Nodes.{ZarrArrayMetadata}
use icechunk.ChangeSet.{
  ChangeSet, merge, merge_chunks, merge_node_chunks, get_chunk_ref, get_group, get_array,
  get_updated_zarr_metadata, get_user_attributes, is_deleted, add_group, add_array,
}
use icechunk.ChangeSet.Visibility.{is_deleted-any-starts_with}

abbrev ChunkChanges : Type 0
ChunkChanges = Map NodeId (Map ChunkIndices (Option ChunkPayload))

module _ ⦃E : External⦄ where
  abbrev chunk_at : ChunkChanges → NodeId → ChunkIndices → Option (Option ChunkPayload)
  chunk_at chunks node coord = elim (get chunks node) [ none ↦ none | some h ↦ get h coord ]

  chunk_at-merge_chunks :
      (chunks others : ChunkChanges) (node : NodeId) (coord : ChunkIndices)
      → Distinct others
      → chunk_at (merge_chunks chunks others) node coord
        ≡ or_else (chunk_at others node coord) (chunk_at chunks node coord)
  unfolding merge_chunks get
  chunk_at-merge_chunks chunks [] node coord d = ground arith
  chunk_at-merge_chunks chunks ((n, h) ∷ others) node coord d =
      let merged = merge_node_chunks (get chunks n) h in
      ground (
        arith,
        chunk_at-merge_chunks (insert (remove chunks n) n merged) others node coord d.1,
        get-insert (remove chunks n) n merged node,
        get-remove chunks n node,
        contains_key-get others n,
        list_beq_iff n node,
        merged_lem (get chunks n) h coord,
      )
    where
      merged_lem :
          (old : Option (Map ChunkIndices (Option ChunkPayload)))
          (h : Map ChunkIndices (Option ChunkPayload)) (c : ChunkIndices)
          → get (merge_node_chunks old h) c
            ≡ or_else (get h c) (elim old [ none ↦ none | some m ↦ get m c ])
      merged_lem none h c = ground arith
      merged_lem (some m) h c = get-extend m h c

  any-contains-insert :
      (p : NodePath) (l : List NodePath) (x : NodePath)
      → any (starts_with p) (set_insert l x) ≡ (starts_with p x || any (starts_with p) l)
  unfolding set_insert
  any-contains-insert p l x = ground (arith, any_of_contains p x l)
    where
      any_of_contains :
          (p x : NodePath) (l : List NodePath)
          → contains l x ≡ true
          → starts_with p x ≡ true
          → any (starts_with p) l ≡ true
      any_of_contains p x (y ∷ l) h k = ground (arith, path_beq_iff y x, any_of_contains p x l)
      any_of_contains p x [] h k = h

  any-extend :
      (p : NodePath) (l m : List NodePath)
      → any (starts_with p) (set_extend l m) ≡ (any (starts_with p) m || any (starts_with p) l)
  unfolding set_extend
  any-extend p l [] = refl
  any-extend p l (x ∷ m) =
      ground (arith, any-contains-insert p (set_extend l m) x, any-extend p l m)

  is_deleted-merge_either :
      (cs other : ChangeSet) (p : NodePath)
      → is_deleted (merge cs other) p ≡ (is_deleted cs p || is_deleted other p)
  unfolding merge
  is_deleted-merge_either cs other p = ground (
    arith,
    is_deleted-any-starts_with (merge cs other) p,
    is_deleted-any-starts_with cs p,
    is_deleted-any-starts_with other p,
    any-extend p cs.deleted_groups other.deleted_groups,
    any-extend p cs.deleted_arrays other.deleted_arrays,
  )

  -- A path is deleted in the merged session exactly if it is deleted in one of the two. So a path that
  -- the first one deleted stays deleted, also when the session that is merged in creates a group or an
  -- array there.
  pub is_deleted-merge :
      (cs other : ChangeSet) (p : NodePath) (id : NodeId) (metadata : ZarrArrayMetadata)
      → (is_deleted (merge cs other) p ≡ (is_deleted cs p || is_deleted other p))
        × ((is_deleted cs p ≡ false)
            ⊎ ((is_deleted (merge cs (add_group other p id)) p ≡ true)
                × (is_deleted (merge cs (add_array other p id metadata)) p ≡ true)))
  is_deleted-merge cs other p id metadata = (
    is_deleted-merge_either cs other p,
    elim (Bool-cases (is_deleted cs p)) [
      | inr kept ↦ inl kept
      | inl gone ↦ inr (
        ground (arith, gone, is_deleted-merge_either cs (add_group other p id) p),
        ground (arith, gone, is_deleted-merge_either cs (add_array other p id metadata) p),
      )
    ],
  )

  -- What the session that is merged in says of a path, a node or a chunk wins, and what it does not
  -- mention is as before. (No node stands twice among its chunk changes.)
  pub record Wins (cs other merged : ChangeSet) : Type 0 where
    pub groups : (p : NodePath) → get_group merged p ≡ or_else (get_group other p) (get_group cs p)
    pub arrays : (p : NodePath) → get_array merged p ≡ or_else (get_array other p) (get_array cs p)
    pub metadata :
        (n : NodeId)
        → get_updated_zarr_metadata merged n
          ≡ or_else (get_updated_zarr_metadata other n) (get_updated_zarr_metadata cs n)
    pub attributes :
        (n : NodeId)
        → get_user_attributes merged n
          ≡ or_else (get_user_attributes other n) (get_user_attributes cs n)
    pub chunks :
        (n : NodeId) (c : ChunkIndices)
        → get_chunk_ref merged n c ≡ or_else (get_chunk_ref other n c) (get_chunk_ref cs n c)

  -- `merge` gives precedence to the change set that is merged in: for new groups, new arrays,
  -- updated metadata, updated attributes and chunks, the merged session reads what the other one
  -- has, and what the first one has where the other has nothing. The chunk changes of the other one
  -- list no node twice.
  pub merge-Wins :
      (cs other : ChangeSet) → Distinct other.set_chunks → Wins cs other (merge cs other)
  unfolding merge get_group get_array get_updated_zarr_metadata get_user_attributes get_chunk_ref
  merge-Wins cs other d = record {
    groups = λ p. get-extend cs.new_groups other.new_groups p;
    arrays = λ p. get-extend cs.new_arrays other.new_arrays p;
    metadata = λ n. get-extend cs.updated_arrays other.updated_arrays n;
    attributes = λ n. get-extend cs.updated_attributes other.updated_attributes n;
    chunks = λ n c. ground (arith, chunk_at-merge_chunks cs.set_chunks other.set_chunks n c d);
  }
