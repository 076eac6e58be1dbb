-- ===== src/Zarr/Reading.antt =====
-- `get_metadata`, `get_chunk_bytes`, `get_key`, `exists` and `Store::get` of icechunk/src/zarr.rs.
-- `none` is a panic: a slice out of bounds, or attributes in a file of their own.
use icechunk.Prelude.{
  Bool, true, false, Option, none, some, ok, err, ◌>>=◌, map_err, ok_or, option_map, and_then, Str,
}
use icechunk.Format.{External, NodePath, ChunkIndices, Bytes}
use icechunk.Format.ByteRanges.{ByteRange, slice, all}
use icechunk.Format.Nodes.{NodeData, NodeSnapshot, UserAttributesSnapshot}
use icechunk.Metadata.{UserAttributes}
use icechunk.Storage.{Storage}
use icechunk.VirtualRefs.Resolver.{VirtualChunkResolver}
use icechunk.Repository.{Repository, RepositoryError, RepositoryResult}
use icechunk.Repository.Editing.{node_at}
use icechunk.Repository.ChunkIo.{Reader, get_chunk_reader, get_chunk}
use icechunk.Zarr.{
  ZarrStore, StoreError, StoreResult, KeyNotFoundError, not_found, repository_error,
  zarr_v2_key_not_found, chunk_not_found,
}
use icechunk.Zarr.Documents.{Documents, new_array_metadata, new_group_metadata}
use icechunk.Zarr.Keys.{PathText, Key, metadata, chunk, zarr_v2, parse}

module _ ⦃E : External⦄ ⦃S : Storage⦄ ⦃V : VirtualChunkResolver⦄ ⦃T : PathText⦄
    ⦃D : Documents⦄ where
  open S use {Store}

  -- What may panic
  abbrev pub Partly : Type 0 → Type 0
  Partly A = Option (StoreResult A)

  abbrev attributes_of : Option UserAttributesSnapshot → Option (Option UserAttributes)
  attributes_of none = some none
  attributes_of (some (UserAttributesSnapshot.inline atts)) = some (some atts)
  attributes_of (some (UserAttributesSnapshot.ref _)) = none

  abbrev document_of : Option UserAttributes → NodeData → Bytes
  document_of atts NodeData.group = D.group_to_bytes (new_group_metadata atts)
  document_of atts (NodeData.array zarr_metadata _) =
      D.array_to_bytes (new_array_metadata atts zarr_metadata)

  abbrev document_slice : NodePath → ByteRange → RepositoryResult NodeSnapshot → Partly Bytes
  document_slice path range (err _) = some (err (not_found (KeyNotFoundError.node_not_found path)))
  document_slice path range (ok node) =
      and_then (attributes_of node.user_attributes)
        λ atts. option_map ok (slice range (document_of atts node.node_data))

  unfoldable pub get_metadata : NodePath → ByteRange → Repository → Partly Bytes
  get_metadata path range repo = document_slice path range (node_at repo path)

  -- The future is awaited at once.
  abbrev pub read_chunk :
      Str → NodePath → ChunkIndices → Store → RepositoryResult (Option Reader) → StoreResult Bytes
  read_chunk key path coords s reader = do
    r ← map_err repository_error reader
    bytes ← map_err repository_error (get_chunk s r)
    ok_or (not_found (chunk_not_found key path coords)) bytes

  unfoldable pub get_chunk_bytes :
      Str → NodePath → ChunkIndices → ByteRange → Repository → Partly Bytes
  get_chunk_bytes key path coords range repo =
      option_map (read_chunk key path coords repo.store) (get_chunk_reader repo path coords range)

  abbrev pub get_of_key : Str → ByteRange → Repository → StoreResult Key → Partly Bytes
  get_of_key key range repo (ok (metadata path)) = get_metadata path range repo
  get_of_key key range repo (ok (chunk path coords)) = get_chunk_bytes key path coords range repo
  get_of_key key range repo (ok (zarr_v2 k)) = some (err (not_found (zarr_v2_key_not_found k)))
  get_of_key key range repo (err e) = some (err e)

  unfoldable pub get_key : Str → ByteRange → Repository → Partly Bytes
  unfolding get_metadata get_chunk_bytes
  get_key key range repo = get_of_key key range repo (parse key)

  -- What is not found does not exist; other errors are errors.
  abbrev pub found : StoreResult Bytes → StoreResult Bool
  found (ok _) = ok true
  found (err (StoreError.not_found _)) = ok false
  found (err (StoreError.repository_error (RepositoryError.node_not_found _))) = ok false
  found (err e) = err e

  unfoldable pub exists : Str → Repository → Partly Bool
  exists key repo = option_map found (get_key key all repo)

  -- `Store::get`
  abbrev pub get : ZarrStore → Str → ByteRange → Partly Bytes
  get store key range = get_key key range store.repository
