-- ===== src/Tests/Formats.antt =====
-- A manifest, a snapshot and a transaction log with a few entries.
use icechunk.Prelude.{
  ◌↔◌, ◌≡◌, ◌≢◌, refl, ◌&&◌, not, none, [], ◌∷◌, ◌++◌, arith, nat_eq, list_eq, pair_eq, list_ord,
  pair_ord, ◌==◌, ok, err, contains, if◌then◌else◌, map,
}
use icechunk.Btree.{Sorted, range_from}
use mathlib.Core.List.{Memᴰ}
use icechunk.Manifest.Lookups.{manifest_iter-get_chunk_payload}
use icechunk.Format.{path_eq, path_ord, NodeId, ChunkIndices}
use icechunk.Format.Chunks.{ChunkPayload, ChunkInfo}
use icechunk.Format.Nodes.{NodeType, node_type_eq, NodeData, NodeSnapshot}
use icechunk.Conflicts.PathFinder.{find_each, new_finder, path_of, find_each-new_finder}
use icechunk.Manifest.{
  Manifest, ChunkKey, manifest_iter, item, from_chunks, get_chunk_payload,
  chunk_coordinates_not_found,
}
use icechunk.Manifest.Iteration.{
  node_chunks, manifest_iter-node_chunks, manifest_iter_absent, get_chunk_payload-from_chunks,
}
use icechunk.Snapshot.{
  Snapshot, SnapshotMetadata, from_iter, iter_arc, snapshot_iter, collect_nodes, local_ancestry,
}
use icechunk.Snapshot.Iteration.{iter_arc-snapshot_iter, collect_nodes-Sorted}
use icechunk.Snapshot.History.{HasWholeHistory, from_iter-HasWholeHistory}
use icechunk.TransactionLog.{new_transaction_log}
use icechunk.TransactionLog.Deletions.{has_node, deleted-new_transaction_log}
use icechunk.Tests.Packages.{test_external}
use icechunk.Tests.Sessions.{at, session, metadata}

abbrev node_1 : NodeId
node_1 = 1 ∷ []

abbrev node_2 : NodeId
node_2 = 2 ∷ []

abbrev first_coord : ChunkIndices
first_coord = 0 ∷ []

abbrev some_payload : ChunkPayload
some_payload = ChunkPayload.inline (9 ∷ [])

abbrev entry : ChunkKey × ChunkPayload
entry = ((node_2, first_coord), some_payload)

-- Node 2 has a chunk; node 1 has none.
abbrev manifest : Manifest
manifest = record { format_version = 0; chunks = entry ∷ [] }

abbrev chunk : ChunkInfo
chunk = record { node = node_2; coord = first_coord; payload = some_payload }

manifest_iter-node_chunks_example :
    manifest_iter manifest node_2 ≡ map item (node_chunks node_2 manifest.chunks)
manifest_iter-node_chunks_example =
    manifest_iter-node_chunks manifest node_2 (tt, tt) (λ h. ground (arith, h))

manifest_iter_absent_example :
    (manifest_iter manifest node_1 ≡ item entry ∷ []) × (entry.0.0 ≢ node_1)
unfolding range_from
manifest_iter_absent_example = manifest_iter_absent manifest node_1 entry [] (tt, tt) refl refl

manifest_iter-get_chunk_payload_example :
    Memᴰ (first_coord, some_payload) (manifest_iter (from_chunks (chunk ∷ [])) node_2)
    ↔ (get_chunk_payload (from_chunks (chunk ∷ [])) node_2 first_coord ≡ ok some_payload)
unfolding get_chunk_payload icechunk.Dict.get from_chunks icechunk.Btree.tree_insert
manifest_iter-get_chunk_payload_example =
    manifest_iter-get_chunk_payload (chunk ∷ []) node_2 first_coord first_coord some_payload
      some_payload refl

get_chunk_payload-from_chunks_example :
    (get_chunk_payload (from_chunks ([] ++ chunk ∷ [])) node_2 first_coord ≡ (
      if (chunk.node == node_2) && (chunk.coord == first_coord)
      then ok chunk.payload
      else get_chunk_payload (from_chunks []) node_2 first_coord))
    × (get_chunk_payload (from_chunks []) node_2 first_coord ≡ err (chunk_coordinates_not_found []))
get_chunk_payload-from_chunks_example = get_chunk_payload-from_chunks [] chunk node_2 first_coord

abbrev pub a_group : NodeSnapshot
a_group = record {
  id = node_1;
  path = at (1 ∷ []);
  user_attributes = none;
  node_data = NodeData.group;
}

abbrev pub an_array : NodeSnapshot
an_array = record {
  id = node_2;
  path = at (2 ∷ 1 ∷ []);
  user_attributes = none;
  node_data = NodeData.array metadata [];
}

abbrev pub first_snapshot : Snapshot
first_snapshot = record {
  manifest_files = [];
  attribute_files = [];
  total_parents = 0;
  short_term_parents = 0;
  short_term_history = [];
  metadata = record { id = 1 ∷ []; written_at = 0; message = [] };
  started_at = 0;
  properties = [];
  nodes = (at (1 ∷ []), a_group) ∷ (at (2 ∷ 1 ∷ []), an_array) ∷ [];
}

abbrev later : SnapshotMetadata
later = record { id = 2 ∷ []; written_at = 5; message = [] }

iter_arc-snapshot_iter_example : iter_arc first_snapshot ≡ snapshot_iter first_snapshot
iter_arc-snapshot_iter_example = iter_arc-snapshot_iter first_snapshot ((refl, tt), (tt, tt))

collect_nodes-Sorted_example : Sorted (collect_nodes (an_array ∷ a_group ∷ []))
collect_nodes-Sorted_example = collect_nodes-Sorted (an_array ∷ a_group ∷ [])

from_iter-HasWholeHistory_example :
    HasWholeHistory (from_iter later 5 first_snapshot none [] [] (a_group ∷ []))
    × (local_ancestry (from_iter later 5 first_snapshot none [] [] (a_group ∷ []))
        ≡ first_snapshot.metadata ∷ local_ancestry first_snapshot)
from_iter-HasWholeHistory_example =
    from_iter-HasWholeHistory later 5 first_snapshot none [] [] (a_group ∷ []) refl (omega arith)

deleted-new_transaction_log_example :
    (contains
        (new_transaction_log session (a_group ∷ an_array ∷ []) (a_group ∷ [])).deleted_groups
        node_2
      ≡ (has_node (a_group ∷ an_array ∷ []) node_2 NodeType.group
          && not (has_node (a_group ∷ []) node_2 NodeType.group)))
    × (contains
          (new_transaction_log session (a_group ∷ an_array ∷ []) (a_group ∷ [])).deleted_arrays
          node_2
        ≡ (has_node (a_group ∷ an_array ∷ []) node_2 NodeType.array
            && not (has_node (a_group ∷ []) node_2 NodeType.array)))
deleted-new_transaction_log_example =
    deleted-new_transaction_log session (a_group ∷ an_array ∷ []) (a_group ∷ []) node_2

find_each-new_finder_example :
    find_each (new_finder (a_group ∷ an_array ∷ [])) (node_2 ∷ node_1 ∷ node_2 ∷ [])
    ≡ map (path_of (a_group ∷ an_array ∷ [])) (node_2 ∷ node_1 ∷ node_2 ∷ [])
find_each-new_finder_example =
    find_each-new_finder (a_group ∷ an_array ∷ []) (node_2 ∷ node_1 ∷ node_2 ∷ [])
      ((refl, tt), (tt, tt))
