-- ===== src/Tests/Keys.antt =====
-- Keys of the Zarr store, a chunk that is set and deleted, and a listing.
use icechunk.Prelude.{
  inl, ℕ, ◌+◌, ◌^◌, ◌≡◌, refl, false, true, none, some, List, [], ◌∷◌, ◌++◌, ok, codes, Str, arith,
  strip_suffix, rsplit_once, split, parse_u32, parse_digits,
}
use mathlib.Core.List.{Memᴰ}
use icechunk.Format.{External, NodePath, Bytes, ancestors}
use icechunk.Format.ByteRanges.{bounded, slice}
use icechunk.Format.Nodes.{NodeSnapshot}
use icechunk.Dict.{get}
use icechunk.ChangeSet.{is_deleted}
use icechunk.ChangeSet.Nodes.{get_new_node}
use icechunk.Repository.{Repository}
use icechunk.Repository.Listing.{updated_nodes}
use icechunk.Repository.Reading.{get_array, get_node}
use icechunk.Repository.ChunkIo.{get_chunk_writer}
use icechunk.Repository.Editing.{set_chunk_ref}
use icechunk.ChangeSet
use icechunk.Zarr.{readwrite, StoreResult}
use icechunk.Zarr.ChunkKeys.{get_key-set, exists-delete}
use icechunk.Zarr.Keys.{chunk, metadata, parse, parse_chunk, is_zarr_v2, display}
use icechunk.Zarr.Keys.RoundTrip.{parse-display}
use icechunk.Zarr.Listing.{list_metadata_prefix, is_prefix_match, trim_end_matches}
use icechunk.Zarr.Listing.Keys.{list_metadata_prefix-parse}
use icechunk.Zarr.Reading.{get_key, exists}
use icechunk.Zarr.Writing.{FreshIds, set, delete}
use icechunk.Tests.Packages.{
  test_external, test_storage, test_text, test_documents, test_resolver, test_chunk_writes,
}
use icechunk.Tests.Formats.{a_group, an_array}
use icechunk.Tests.Rebases
use icechunk.Tests.Sessions.{at, repo}

parse-display_example :
    parse (display (chunk (at (2 ∷ 1 ∷ [])) (10 ∷ 0 ∷ [])))
    ≡ ok (chunk (at (2 ∷ 1 ∷ [])) (10 ∷ 0 ∷ []))
parse-display_example =
    parse-display (chunk (at (2 ∷ 1 ∷ [])) (10 ∷ 0 ∷ [])) (omega arith, (omega arith, tt))

-- The key of the chunk 3 of the array
abbrev chunk_key : Str
chunk_key = 202 ∷ 201 ∷ codes "/c/3"

chunk_key_parsed : parse chunk_key ≡ ok (chunk (at (2 ∷ 1 ∷ [])) (3 ∷ []))
unfolding parse strip_suffix parse_chunk is_zarr_v2 rsplit_once split parse_u32 parse_digits
chunk_key_parsed = refl

abbrev ids : FreshIds
ids = record { node_id = 40 ∷ []; chunk_id = 50 ∷ [] }

abbrev value : Bytes
value = 5 ∷ 6 ∷ 7 ∷ []

set_done : (set ids readwrite chunk_key value repo).0 ≡ ok tt
unfolding set parse strip_suffix parse_chunk is_zarr_v2 rsplit_once split parse_u32 parse_digits
    get_chunk_writer set_chunk_ref get_array get_node is_deleted ancestors get_new_node get
set_done = refl

get_key-set_example :
    get_key chunk_key (bounded 1 3) (set ids readwrite chunk_key value repo).1
    ≡ some (ok (6 ∷ 7 ∷ []))
unfolding slice
get_key-set_example =
    get_key-set test_chunk_writes repo ids chunk_key (at (2 ∷ 1 ∷ [])) (3 ∷ []) value (6 ∷ 7 ∷ [])
      (bounded 1 3) chunk_key_parsed set_done refl (inl refl)

delete_done : (delete readwrite chunk_key repo).0 ≡ ok tt
unfolding delete parse strip_suffix parse_chunk is_zarr_v2 rsplit_once split parse_u32 parse_digits
    set_chunk_ref get_array get_node is_deleted ancestors get_new_node get
delete_done = refl

exists-delete_example : exists chunk_key (delete readwrite chunk_key repo).1 ≡ some (ok false)
exists-delete_example =
    exists-delete repo chunk_key (at (2 ∷ 1 ∷ [])) (3 ∷ []) chunk_key_parsed delete_done

-- A session without changes: its nodes are those of its snapshot.
abbrev quiet : Repository
quiet = record Rebases.repo { change_set = ChangeSet.empty }

abbrev nodes : List NodeSnapshot
nodes = a_group ∷ an_array ∷ []

nodes_read : updated_nodes quiet.store quiet.change_set quiet.snapshot_id none ≡ ok nodes
unfolding updated_nodes icechunk.Snapshot.iter_arc icechunk.ChangeSet.Nodes.update_existing_node
    is_deleted ancestors get icechunk.Btree.range_after icechunk.Format.Nodes.node_type
    icechunk.ChangeSet.Nodes.new_nodes_iterator
nodes_read = refl

abbrev group_key : Str
group_key = 201 ∷ codes "/zarr.json"

listed : Memᴰ {A = StoreResult Str} (ok group_key) (list_metadata_prefix quiet (codes "/"))
unfolding updated_nodes list_metadata_prefix display icechunk.Snapshot.iter_arc
    icechunk.ChangeSet.Nodes.update_existing_node is_deleted ancestors is_prefix_match
    icechunk.Prelude.strip_prefix icechunk.Prelude.trim_start_matches
listed = Memᴰ.head refl

list_metadata_prefix-parse_example :
    (node : NodeSnapshot) × (Memᴰ node nodes
      × ((parse group_key ≡ ok (metadata node.path))
          × (is_prefix_match group_key (trim_end_matches 47 (codes "/")) ≡ true)))
list_metadata_prefix-parse_example =
    list_metadata_prefix-parse quiet (codes "/") group_key nodes nodes_read listed
