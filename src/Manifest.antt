-- ===== src/Manifest.antt =====
-- icechunk/src/format/manifest.rs: the manifest, a map in the order of (node, coordinates), and its
-- iterator. The format flags, which nothing reads, are left out.
pub mod Iteration
pub mod Lookups
use icechunk.Prelude.{
  ℕ, zero, suc, ◌≡◌, Bool, Option, none, some, List, [], ◌∷◌, Eq, ◌==◌, nat_eq, list_eq, pair_eq,
  list_ord, pair_ord, Result, ok, err, if◌then◌else◌, length, head_of, fold, and_then, option_map,
}
use icechunk.Dict.{Map, get}
use icechunk.Btree.{tree_insert, range_from, range_after}
use icechunk.Format.{NodeId, ChunkIndices}
use icechunk.Format.Chunks.{ChunkPayload, ChunkInfo}

abbrev pub ChunkKey : Type 0
ChunkKey = NodeId × ChunkIndices

pub record Manifest : Type 0 where
  pub format_version : ℕ
  pub chunks : Map ChunkKey ChunkPayload

-- `IcechunkFormatError`, for the one error that a manifest gives
pub data FormatError : Type 0 where
  chunk_coordinates_not_found : ChunkIndices → FormatError

-- The source reports empty coordinates.
abbrev pub found : Option ChunkPayload → Result FormatError ChunkPayload
found none = err (chunk_coordinates_not_found [])
found (some payload) = ok payload

unfoldable pub get_chunk_payload :
    Manifest → NodeId → ChunkIndices → Result FormatError ChunkPayload
get_chunk_payload m node coord = found (get m.chunks (node, coord))

-- `LATEST_ICECHUNK_MANIFEST_FORMAT`
abbrev pub latest_manifest_format : ℕ
latest_manifest_format = 0

unfoldable pub new_manifest : Map ChunkKey ChunkPayload → Manifest
new_manifest chunks = record { format_version = latest_manifest_format; chunks = chunks }

abbrev pub insert_chunk : Map ChunkKey ChunkPayload → ChunkInfo → Map ChunkKey ChunkPayload
insert_chunk chunks chunk = tree_insert chunks (chunk.node, chunk.coord) chunk.payload

-- `FromIterator<ChunkInfo>`
unfoldable pub from_chunks : List ChunkInfo → Manifest
unfolding new_manifest
from_chunks chunks = new_manifest (fold insert_chunk [] chunks)

-- `from_stream`: the first error of the stream ends the loop.
unfoldable pub collect_stream {ℓ} :
    {E : Type ℓ} → Map ChunkKey ChunkPayload → List (Result E ChunkInfo) → Result E Manifest
unfolding new_manifest
collect_stream chunk_map [] = ok (new_manifest chunk_map)
collect_stream chunk_map (ok chunk ∷ stream) = collect_stream (insert_chunk chunk_map chunk) stream
collect_stream chunk_map (err e ∷ stream) = err e

unfoldable pub from_stream {ℓ} : {E : Type ℓ} → List (Result E ChunkInfo) → Result E Manifest
unfolding collect_stream
from_stream stream = collect_stream [] stream

unfoldable pub manifest_len : Manifest → ℕ
manifest_len m = length m.chunks

-- What `PayloadIterator` yields for an entry, and the entry's key as the new `last_key`
abbrev pub item : ChunkKey × ChunkPayload → ChunkIndices × ChunkPayload
item ((node, coord), payload) = (coord, payload)

abbrev yield_entry : ChunkKey × ChunkPayload → Option ((ChunkIndices × ChunkPayload) × ChunkKey)
yield_entry entry = some (item entry, entry.0)

abbrev yield_same_node :
    NodeId → ChunkKey × ChunkPayload → Option ((ChunkIndices × ChunkPayload) × ChunkKey)
yield_same_node node entry = if entry.0.0 == node then some (item entry, entry.0) else none

-- `PayloadIterator::next`. Only the second and later calls look at the node of the entry.
unfoldable pub next_payload :
    Manifest → NodeId → Option ChunkKey → Option ((ChunkIndices × ChunkPayload) × ChunkKey)
next_payload m for_node none = and_then (head_of (range_from (for_node, []) m.chunks)) yield_entry
next_payload m for_node (some last_key) =
    and_then (head_of (range_after last_key m.chunks)) (yield_same_node for_node)

-- The items until the first `None`; each item is another entry of the map, which bounds the calls.
unfoldable pub payloads_within :
    ℕ → Manifest → NodeId → Option ChunkKey → List (ChunkIndices × ChunkPayload)
unfolding next_payload
payloads_within zero m for_node last_key = []
payloads_within (suc n) m for_node last_key = elim (next_payload m for_node last_key) [
  | none ↦ []
  | some (payload, key) ↦ payload ∷ payloads_within n m for_node (some key)
]

-- `Manifest::iter`, collected
unfoldable pub manifest_iter : Manifest → NodeId → List (ChunkIndices × ChunkPayload)
unfolding payloads_within
manifest_iter m node = payloads_within (suc (length m.chunks)) m node none
