-- ===== src/Manifest/Iteration.antt =====
-- What `Manifest::iter` yields.
use icechunk.Prelude.{
  ℕ, zero, suc, ◌≤◌, ◌<◌, ◌≡◌, ◌≢◌, refl, ap, Bool, true, ◌&&◌, ◌++◌, some, List, [], ◌∷◌, map,
  arith, ◌==◌, nat_eq, list_eq, pair_eq, list_ord, pair_ord, list_lt, list_lt_irrefl, list_lt_trans,
  list_lt_total, list_beq_iff, ok, err, if◌then◌else◌, length, fold, filter_by, take_while,
}
use icechunk.Dict.{Map, get}
use icechunk.Btree.{
  range_from, range_after, Sorted, Above, range_from-next, range_after-next, tree_insert-Sorted,
  get-tree_insert,
}
use icechunk.Format.{NodeId, ChunkIndices}
use icechunk.Format.Chunks.{ChunkPayload, ChunkInfo}
use icechunk.Manifest.{
  Manifest, ChunkKey, item, payloads_within, manifest_iter, from_chunks, new_manifest, insert_chunk,
  get_chunk_payload, chunk_coordinates_not_found,
}

abbrev Chunks : Type 0
Chunks = Map ChunkKey ChunkPayload

abbrev pub same_node : NodeId → ChunkKey × ChunkPayload → Bool
same_node node entry = entry.0.0 == node

-- The entries of a node, in order
abbrev pub node_chunks : NodeId → Chunks → Chunks
node_chunks node chunks = filter_by (same_node node) chunks

length-range_from : (k : ChunkKey) (m : Chunks) → length (range_from k m) ≤ length m
unfolding range_from
length-range_from k [] = omega arith
length-range_from k (x ∷ m) = ground (arith, length-range_from k m)

-- From the second call on, the iterator walks over the entries that follow, while they are the
-- node's.
payloads_within-some :
    (n : ℕ) (m : Manifest) (node : NodeId) (k : ChunkKey) (r : Chunks)
    → Sorted m.chunks
    → range_after k m.chunks ≡ r
    → length r < n
    → payloads_within n m node (some k) ≡ map item (take_while (same_node node) r)
unfolding payloads_within
payloads_within-some zero m node k r s h le = absurd (omega arith)
payloads_within-some (suc n) m node k [] s h le = rw (h, payloads_within) refl
payloads_within-some (suc n) m node k (x ∷ r) s h le =
    ground (arith, payloads_within-some n m node x.0 r s (range_after-next k m.chunks x r s h))

-- The first call yields the first entry from the node on, whatever its node.
manifest_iter-walk :
    (m : Manifest) (node : NodeId) (x : ChunkKey × ChunkPayload) (r : Chunks)
    → Sorted m.chunks
    → range_from (node, []) m.chunks ≡ x ∷ r
    → manifest_iter m node ≡ item x ∷ map item (take_while (same_node node) r)
unfolding manifest_iter
manifest_iter-walk m node x r s h =
    let rest = range_from-next (node, []) m.chunks x r s h in
    let bound : length r < length m.chunks =
      omega (arith, ap length h, length-range_from (node, []) m.chunks) in
    ground (arith, payloads_within-some (length m.chunks) m node x.0 r s rest bound)

-- Behind an entry of a later node no entry of the node follows.
node_chunks-Above :
    (node : NodeId) (x : ChunkKey) (m : Chunks)
    → list_lt node x.0 ≡ true
    → Above x m
    → node_chunks node m ≡ []
node_chunks-Above node (n, c) [] h a = refl
node_chunks-Above node (n, c) (((i, d), p) ∷ m) h a = ground (
  arith,
  node_chunks-Above node (n, c) m h a.1,
  a.0,
  list_beq_iff n i,
  list_beq_iff i node,
  list_lt_irrefl node,
  list_lt_trans node n i,
)

-- The entries of a node stand together, at the start of the range from the node on.
node_chunks-range_from :
    (node : NodeId) (m : Chunks)
    → Sorted m
    → node_chunks node m ≡ take_while (same_node node) (range_from (node, []) m)
unfolding range_from
node_chunks-range_from node [] s = refl
node_chunks-range_from node (((n, c), p) ∷ m) s = ground (
  arith,
  node_chunks-range_from node m s.1,
  node_chunks-Above node (n, c) m,
  s.0,
  list_beq_iff n node,
  list_lt_irrefl node,
  list_lt_total n node,
)

-- On a manifest in order, if the node has a chunk, `Manifest::iter` yields exactly the coordinates
-- and payloads of the node's entries, in their order.
pub manifest_iter-node_chunks :
    (m : Manifest) (node : NodeId)
    → Sorted m.chunks
    → node_chunks node m.chunks ≢ []
    → manifest_iter m node ≡ map item (node_chunks node m.chunks)
manifest_iter-node_chunks m node s some_chunk = go (range_from (node, []) m.chunks) refl
  where
    go :
        (r : Chunks)
        → range_from (node, []) m.chunks ≡ r
        → manifest_iter m node ≡ map item (node_chunks node m.chunks)
    go [] e = absurd (some_chunk (ground (arith, node_chunks-range_from node m.chunks s)))
    go (x ∷ r) e = ground (
      arith,
      node_chunks-range_from node m.chunks s,
      manifest_iter-walk m node x r s e,
      some_chunk,
    )

filter-range_from :
    (node : NodeId) (k : ChunkKey) (m : Chunks)
    → node_chunks node m ≡ []
    → node_chunks node (range_from k m) ≡ []
unfolding range_from
filter-range_from node k [] h = refl
filter-range_from node k (x ∷ m) h = ground (arith, filter-range_from node k m)

take_while-none :
    (node : NodeId) (m : Chunks) → node_chunks node m ≡ [] → take_while (same_node node) m ≡ []
take_while-none node [] h = refl
take_while-none node (x ∷ m) h = ground arith

-- On a manifest in order, if the node has no chunk but a later node has, `Manifest::iter` yields one
-- item all the same: the coordinates and the payload of the first chunk of that later node.
pub manifest_iter_absent :
    (m : Manifest) (node : NodeId) (x : ChunkKey × ChunkPayload) (r : Chunks)
    → Sorted m.chunks
    → node_chunks node m.chunks ≡ []
    → range_from (node, []) m.chunks ≡ x ∷ r
    → (manifest_iter m node ≡ item x ∷ []) × (x.0.0 ≢ node)
manifest_iter_absent m node x r s absent later =
    let none_here = filter-range_from node (node, []) m.chunks absent in
    (
      ground (arith, manifest_iter-walk m node x r s later, none_here, take_while-none node r),
      ground (arith, none_here, list_beq_iff x.0.0 node),
    )

fold-Sorted : (l : List ChunkInfo) (m : Chunks) → Sorted m → Sorted (fold insert_chunk m l)
fold-Sorted [] m s = s
fold-Sorted (c ∷ l) m s =
    fold-Sorted l (insert_chunk m c) (tree_insert-Sorted m (c.node, c.coord) c.payload s)

-- A manifest that is built from chunks, whatever their order, is in order.
pub from_chunks-Sorted : (l : List ChunkInfo) → Sorted (from_chunks l).chunks
unfolding from_chunks new_manifest
from_chunks-Sorted l = fold-Sorted l [] tt

fold-append :
    (l : List ChunkInfo) (m : Chunks) (c : ChunkInfo)
    → fold insert_chunk m (l ++ c ∷ []) ≡ insert_chunk (fold insert_chunk m l) c
fold-append [] m c = refl
fold-append (d ∷ l) m c = fold-append l (insert_chunk m d) c

-- Reading a chunk of a manifest built from chunks gives the payload of the last chunk with that
-- node and those coordinates, and an error if there is none: one more chunk at the end answers for
-- its own node and coordinates, and changes no other read; the empty manifest has nothing.
pub get_chunk_payload-from_chunks :
    (l : List ChunkInfo) (c : ChunkInfo) (node : NodeId) (coord : ChunkIndices)
    → (get_chunk_payload (from_chunks (l ++ c ∷ [])) node coord ≡ (
        if (c.node == node) && (c.coord == coord)
        then ok c.payload
        else get_chunk_payload (from_chunks l) node coord))
      × (get_chunk_payload (from_chunks []) node coord ≡ err (chunk_coordinates_not_found []))
unfolding get_chunk_payload from_chunks new_manifest get
get_chunk_payload-from_chunks l c node coord = (
  ground (
    arith,
    fold-append l [] c,
    get-tree_insert (fold insert_chunk [] l) (c.node, c.coord) c.payload (node, coord),
  ),
  refl,
)
