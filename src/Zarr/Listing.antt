-- ===== src/Zarr/Listing.antt =====
-- `is_prefix_match`, and the listings of `Store` of icechunk/src/zarr.rs. A stream is the list of its
-- items; in one that may fail, nothing comes after the first error.
pub mod Keys
use icechunk.Prelude.{
  ℕ, Bool, true, false, ◌||◌, Option, none, some, List, [], ◌∷◌, ◌++◌, map, Result, ok, err, ◌>>=◌,
  map_err, ◌==◌, nat_eq, list_eq, Eq, Str, codes, strip_prefix, if◌then◌else◌, trim_start_matches,
  length, drop, split, leb, any, option_map, map_ok,
}
use mathlib.Core.List.{reverse}
use icechunk.Format.{External, NodePath}
use icechunk.Format.Chunks.{ChunkInfo}
use icechunk.Format.Nodes.{NodeSnapshot}
use icechunk.Storage.{Storage}
use icechunk.Repository.{Repository, RepositoryResult}
use icechunk.Repository.Listing.{updated_nodes, all_chunks}
use icechunk.Zarr.{ZarrStore, StoreError, StoreResult, repository_error}
use icechunk.Zarr.Keys.{PathText, Key, metadata, chunk, display}

abbrev rest_matches : Str → Option Str → Bool
rest_matches prefix none = false
rest_matches prefix (some rest) =
    (prefix == [])
    || ((rest == []) || elim (strip_prefix (codes "/") rest) [ some _ ↦ true | none ↦ false ])

unfoldable pub is_prefix_match : Str → Str → Bool
is_prefix_match key prefix = rest_matches prefix (strip_prefix prefix key)

abbrev pub trim_end_matches : ℕ → Str → Str
trim_end_matches c s = reverse (trim_start_matches c (reverse s))

-- `if` before each `yield`
abbrev pub yield_if : Bool → Str → List Str → List Str
yield_if true key keys = key ∷ keys
yield_if false key keys = keys

pub data ListDirItem : Type 0 where
  key_item : Str → ListDirItem
  prefix_item : Str → ListDirItem

module _ ⦃E : External⦄ ⦃S : Storage⦄ ⦃T : PathText⦄ where
  abbrev Keys : Type 0
  Keys = List (StoreResult Str)

  abbrev pub matching : Str → List Key → List Str
  matching prefix [] = []
  matching prefix (key ∷ keys) =
      yield_if (is_prefix_match (display key) prefix) (display key) (matching prefix keys)

  abbrev pub metadata_keys : Str → RepositoryResult (List NodeSnapshot) → Keys
  metadata_keys prefix (ok nodes) =
      map ok (matching prefix (map (λ n. metadata (NodeSnapshot.path n)) nodes))
  metadata_keys prefix (err e) = err (repository_error e) ∷ []

  unfoldable pub list_metadata_prefix : Repository → Str → Keys
  list_metadata_prefix repo prefix =
      metadata_keys (trim_end_matches 47 prefix)
        (updated_nodes repo.store repo.change_set repo.snapshot_id none)

  abbrev chunk_key : NodePath × ChunkInfo → Key
  chunk_key (path, info) = chunk path info.coord

  -- The first error ends the stream.
  abbrev chunk_keys : Str → List (RepositoryResult (NodePath × ChunkInfo)) → Keys
  chunk_keys prefix [] = []
  chunk_keys prefix (err e ∷ chunks) = err (repository_error e) ∷ []
  chunk_keys prefix (ok info ∷ chunks) =
      let rest = chunk_keys prefix chunks in
      if is_prefix_match (display (chunk_key info)) prefix
      then ok (display (chunk_key info)) ∷ rest
      else rest

  abbrev all_chunk_keys :
      Str → RepositoryResult (List (RepositoryResult (NodePath × ChunkInfo))) → Keys
  all_chunk_keys prefix (ok chunks) = chunk_keys prefix chunks
  all_chunk_keys prefix (err e) = err (repository_error e) ∷ []

  unfoldable pub list_chunks_prefix : Repository → Str → Keys
  list_chunks_prefix repo prefix =
      all_chunk_keys (trim_end_matches 47 prefix)
        (all_chunks repo.store repo.change_set repo.snapshot_id)

  unfoldable pub list_prefix : ZarrStore → Str → Keys
  unfolding list_metadata_prefix list_chunks_prefix
  list_prefix store prefix =
      list_metadata_prefix store.repository prefix ++ list_chunks_prefix store.repository prefix

  unfoldable pub list : ZarrStore → Keys
  unfolding list_prefix
  list store = list_prefix store (codes "/")

  -- `split_once` of what follows the prefix
  abbrev item_of : List Str → Str → ListDirItem
  item_of (first ∷ second ∷ rest) rem = prefix_item first
  item_of _ rem = key_item rem

  -- `none`: the prefix is longer than the key, and the slice panics.
  abbrev dir_item : Str → Str → Option ListDirItem
  dir_item prefix s =
      let idx = if prefix == codes "/" then 0 else length prefix in
      let rem = trim_start_matches 47 (drop idx s) in
      if leb idx (length s) then some (item_of (split 47 rem) rem) else none

  abbrev text_of : ListDirItem → Str
  text_of (key_item k) = k
  text_of (prefix_item p) = p

  abbrev same_item : ListDirItem → ListDirItem → Bool
  same_item (key_item k) (key_item l) = k == l
  same_item (prefix_item p) (prefix_item q) = p == q
  same_item _ _ = false

  -- A `HashSet`, in the order of the last occurrences; the order of the set is arbitrary.
  abbrev distinct : List ListDirItem → List ListDirItem
  distinct [] = []
  distinct (i ∷ is) = let rest = distinct is in if any (same_item i) rest then rest else i ∷ rest

  abbrev with_item :
      Option ListDirItem
      → Option (StoreResult (List ListDirItem))
      → Option (StoreResult (List ListDirItem))
  with_item (some i) (some (ok is)) = some (ok (i ∷ is))
  with_item (some i) rest = rest
  with_item none rest = none

  -- `map_ok` and `try_collect`: the first error or panic decides.
  abbrev dir_items : Str → Keys → Option (StoreResult (List ListDirItem))
  dir_items prefix [] = some (ok [])
  dir_items prefix (err e ∷ keys) = some (err e)
  dir_items prefix (ok key ∷ keys) = with_item (dir_item prefix key) (dir_items prefix keys)

  unfoldable pub list_dir_items : ZarrStore → Str → Option (StoreResult (List ListDirItem))
  unfolding list_prefix
  list_dir_items store prefix =
      option_map (map_ok distinct) (dir_items prefix (list_prefix store prefix))

  unfoldable pub list_dir : ZarrStore → Str → Option (StoreResult (List Str))
  unfolding list_dir_items
  list_dir store prefix = option_map (map_ok (map text_of)) (list_dir_items store prefix)

  abbrev no_items : List Str → Bool
  no_items [] = true
  no_items (_ ∷ _) = false

  unfoldable pub is_empty : ZarrStore → Str → Option (StoreResult Bool)
  unfolding list_dir
  is_empty store prefix = option_map (map_ok no_items) (list_dir store prefix)
