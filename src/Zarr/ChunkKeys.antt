-- ===== src/Zarr/ChunkKeys.antt =====
-- What `get` and `exists` answer for a chunk's key after `set` and `delete`.
use icechunk.Prelude.{
  ◌≡◌, refl, ap, sym, ◌∙◌, ◌⊎◌, inl, inr, false, Option, none, some, ok, err, ◌>>=◌, map_err,
  map_err-ok, ok_or, option_map, Str, arith,
}
use icechunk.Exec.{proceed}
use icechunk.ChangeSet.{ChangeSet}
use icechunk.Format.{External, NodePath, ChunkIndices, Bytes}
use icechunk.Format.ByteRanges.{ByteRange, slice, all}
use icechunk.Format.Chunks.{ChunkPayload}
use icechunk.Format.Nodes.{NodeSnapshot}
use icechunk.Storage.{Storage}
use icechunk.Storage.ChunkWrites.{Served, WritesChunks}
use icechunk.VirtualRefs.Resolver.{VirtualChunkResolver}
use icechunk.Repository.{Repository, RepositoryError, RepositoryResult}
use icechunk.Repository.Editing.{on_node, node_at, array_at, set_chunk_ref, get_chunk_ref}
use icechunk.Repository.Edits.{get_chunk_ref-set_chunk_ref_self}
use icechunk.Repository.Reading.{get_array, read_chunk_ref, only_array}
use icechunk.Repository.ChunkIo.{Reader, get_chunk_reader, get_chunk, get_chunk_writer, reader_of}
use icechunk.Repository.ChunkIo.RoundTrip.{
  InlineOr, get_chunk_reader-get_chunk_writer, array_at_store, get_chunk_writer-snapshot,
}
use icechunk.Zarr.{readwrite, StoreResult, repository_error, not_found, chunk_not_found}
use icechunk.Zarr.Documents.{Documents}
use icechunk.Zarr.Keys.{PathText, chunk, parse}
use icechunk.Zarr.Reading.{get_key, get_chunk_bytes, get_of_key, read_chunk, exists, found}
use icechunk.Zarr.Writing.{
  FreshIds, set, edit, set_chunk, set_of_key, write_payload, delete, delete_of_key, forgive,
}

module _ ⦃E : External⦄ ⦃S : Storage⦄ where
  open S use {Store}

  on_node-ok :
      (repo : Repository) (change : NodeSnapshot → ChangeSet) (r : RepositoryResult NodeSnapshot)
      → (on_node repo change r).0 ≡ ok tt
      → (node : NodeSnapshot) × (r ≡ ok node)
  on_node-ok repo change (ok node) h = (node, refl)
  on_node-ok repo change (err e) h = ground (arith, h)

  on_node-store :
      (repo : Repository) (change : NodeSnapshot → ChangeSet) (r : RepositoryResult NodeSnapshot)
      → Repository.store (on_node repo change r).1 ≡ repo.store
  on_node-store repo change (ok node) = refl
  on_node-store repo change (err e) = refl

  -- A chunk is set only in an array.
  set_chunk_ref-ok :
      (repo : Repository) (path : NodePath) (coord : ChunkIndices) (payload : Option ChunkPayload)
      → (set_chunk_ref repo path coord payload).0 ≡ ok tt
      → (node : NodeSnapshot) × (array_at repo path ≡ ok node)
  unfolding set_chunk_ref
  set_chunk_ref-ok repo path coord payload h = on_node-ok repo _ (array_at repo path) h

  set_chunk_ref-store :
      (repo : Repository) (path : NodePath) (coord : ChunkIndices) (payload : Option ChunkPayload)
      → Repository.store (set_chunk_ref repo path coord payload).1 ≡ repo.store
  unfolding set_chunk_ref
  set_chunk_ref-store repo path coord payload = on_node-store repo _ (array_at repo path)

  -- What a `set` of a chunk does when the writer is done
  abbrev finish :
      Repository
      → NodePath
      → ChunkIndices
      → RepositoryResult ChunkPayload × Store
      → StoreResult (Unit {0}) × Repository
  finish repo path coords (r, s) =
      proceed (map_err repository_error r)
        (λ payload. edit (λ q. set_chunk_ref q path coords (some payload)))
        (record repo { store = s })

  finish-ok :
      (repo : Repository) (path : NodePath) (coords : ChunkIndices)
      (r : RepositoryResult ChunkPayload) (s : Store)
      → (finish repo path coords (r, s)).0 ≡ ok tt
      → (payload : ChunkPayload) × ((r ≡ ok payload)
          × (((set_chunk_ref (record repo { store = s }) path coords (some payload)).0 ≡ ok tt)
              × ((finish repo path coords (r, s)).1
                  ≡ (set_chunk_ref (record repo { store = s }) path coords (some payload)).1)))
  finish-ok repo path coords (ok payload) s h =
      (payload, (refl, (map_err-ok repository_error _ tt h, refl)))
  finish-ok repo path coords (err e) s h = ground (arith, h)

  set_chunk-finish :
      (repo : Repository) (ids : FreshIds) (path : NodePath) (coords : ChunkIndices) (value : Bytes)
      → set_chunk ids.chunk_id path coords value repo
        ≡ finish repo path coords (get_chunk_writer repo ids.chunk_id value repo.store)
  unfolding set_chunk write_payload
  set_chunk-finish repo ids path coords value = refl

  module _ ⦃V : VirtualChunkResolver⦄ ⦃T : PathText⦄ ⦃D : Documents⦄ where
    set-chunk :
        (repo : Repository) (ids : FreshIds) (key : Str) (path : NodePath) (coords : ChunkIndices)
        (value : Bytes)
        → parse key ≡ ok (chunk path coords)
        → set ids readwrite key value repo ≡ set_chunk ids.chunk_id path coords value repo
    unfolding set
    set-chunk repo ids key path coords value k =
        ap (λ parsed. proceed parsed (set_of_key ids value) repo) k

    get_key-chunk :
        (repo : Repository) (key : Str) (path : NodePath) (coords : ChunkIndices)
        (range : ByteRange)
        → parse key ≡ ok (chunk path coords)
        → get_key key range repo
          ≡ option_map
              (read_chunk key path coords repo.store)
              (get_chunk_reader repo path coords range)
    unfolding get_key get_chunk_bytes
    get_key-chunk repo key path coords range k = ap (get_of_key key range repo) k

    read_chunk-reader :
        (key : Str) (path : NodePath) (coords : ChunkIndices) (s : Store) (reader : Reader)
        (part : Bytes)
        → get_chunk s (some reader) ≡ ok (some part)
        → read_chunk key path coords s (ok (some reader)) ≡ ok part
    read_chunk-reader key path coords s reader part h =
        ap
          (λ r. map_err repository_error r >>= λ bytes.
            ok_or (not_found (chunk_not_found key path coords)) bytes)
          h

    -- After a `set` of a chunk's key that succeeded, `get` of the key returns the part of the value
    -- that the range asks for, when the range lies within the value, and when either the value is no
    -- longer than the threshold for inline chunks, or the range is not counted from the end and the
    -- part is not empty. The store is one
    -- that serves such parts of a chunk that was written.
    pub get_key-set :
        (W : WritesChunks) (repo : Repository) (ids : FreshIds) (key : Str) (path : NodePath)
        (coords : ChunkIndices) (value part : Bytes) (range : ByteRange)
        → parse key ≡ ok (chunk path coords)
        → (set ids readwrite key value repo).0 ≡ ok tt
        → slice range value ≡ some part
        → InlineOr repo value (Served range part)
        → get_key key range (set ids readwrite key value repo).1 ≡ some (ok part)
    get_key-set W repo ids key path coords value part range k done h served =
        let run =
          set-chunk repo ids key path coords value k
          ∙ set_chunk-finish repo ids path coords value in
        let s = (get_chunk_writer repo ids.chunk_id value repo.store).1 in
        let (payload, (wrote, (was_set, same))) =
          finish-ok repo path coords (get_chunk_writer repo ids.chunk_id value repo.store).0 s
            (sym (ap (λ r. r.0) run) ∙ done) in
        let (node, found) =
          set_chunk_ref-ok (record repo { store = s }) path coords (some payload) was_set in
        let w : get_chunk_writer repo ids.chunk_id value repo.store ≡ (ok payload, s) =
          ap (λ r. (r, s)) wrote in
        let old =
          array_at_store repo s path
            (get_chunk_writer-snapshot W repo ids.chunk_id value s payload w) in
        let (_, (reader, (made, result))) =
          get_chunk_reader-get_chunk_writer W repo ids.chunk_id value part range s payload path
            coords node w (sym old ∙ found) h served in
        let repo' : Repository =
          (set_chunk_ref (record repo { store = s }) path coords (some payload)).1 in
        ap (λ r. get_key key range r) (ap (λ r. r.1) run ∙ same)
        ∙ (get_key-chunk repo' key path coords range k
            ∙ (ap (option_map (read_chunk key path coords repo'.store)) made
                ∙ ap some (
                    read_chunk-reader key path coords repo'.store reader part (
                      ap (λ t. get_chunk t (some reader))
                        (set_chunk_ref-store (record repo { store = s }) path coords (some payload))
                      ∙ result))))

    forgive-ok :
        (r : RepositoryResult (Unit {0}))
        → forgive r ≡ ok tt
        → (r ≡ ok tt) ⊎ ((p : NodePath) × (r ≡ err (RepositoryError.node_not_found p)))
    forgive-ok (ok tt) h = inl refl
    forgive-ok (err (RepositoryError.node_not_found p)) h = inr (p, refl)
    forgive-ok (err e) h = ground (arith, h)

    on_node-err :
        (repo : Repository) (change : NodeSnapshot → ChangeSet) (r : RepositoryResult NodeSnapshot)
        (e : RepositoryError)
        → (on_node repo change r).0 ≡ err e
        → (r ≡ err e) × ((on_node repo change r).1 ≡ repo)
    on_node-err repo change (ok node) e h = ground (arith, h)
    on_node-err repo change (err d) e h = (ground (arith, h), refl)

    array_missing :
        (r : RepositoryResult NodeSnapshot) (p : NodePath)
        → (r >>= λ node. only_array node node.node_data) ≡ err (RepositoryError.node_not_found p)
        → r ≡ err (RepositoryError.node_not_found p)
    array_missing (err e) p h = h
    array_missing (ok node) p h = ground (arith, h)

    -- Where there is no node for `get_array` there is none for a chunk.
    get_chunk_ref_missing :
        (repo : Repository) (path p : NodePath) (coords : ChunkIndices)
        → array_at repo path ≡ err (RepositoryError.node_not_found p)
        → get_chunk_ref repo path coords ≡ err (RepositoryError.node_not_found p)
    unfolding get_array get_chunk_ref read_chunk_ref
    get_chunk_ref_missing repo path p coords h =
        ground (arith, array_missing (node_at repo path) p h)

    exists-chunk :
        (repo : Repository) (key : Str) (path : NodePath) (coords : ChunkIndices)
        → parse key ≡ ok (chunk path coords)
        → (r : RepositoryResult (Option ChunkPayload)) → get_chunk_ref repo path coords ≡ r
        → exists key repo
          ≡ option_map found (option_map (read_chunk key path coords repo.store) (reader_of all r))
    unfolding exists get_chunk_reader
    exists-chunk repo key path coords k r e = ap (option_map found) (
        get_key-chunk repo key path coords all k
        ∙ ap (λ q. option_map (read_chunk key path coords repo.store) (reader_of all q)) e)

    delete-chunk :
        (repo : Repository) (key : Str) (path : NodePath) (coords : ChunkIndices)
        → parse key ≡ ok (chunk path coords)
        → delete readwrite key repo ≡ (
          forgive (set_chunk_ref repo path coords none).0,
          (set_chunk_ref repo path coords none).1,
        )
    unfolding delete
    delete-chunk repo key path coords k = ap (λ parsed. proceed parsed delete_of_key repo) k

    -- After a `delete` of a chunk's key that succeeded, the key does not exist, also when there was no
    -- array.
    pub exists-delete :
        (repo : Repository) (key : Str) (path : NodePath) (coords : ChunkIndices)
        → parse key ≡ ok (chunk path coords)
        → (delete readwrite key repo).0 ≡ ok tt
        → exists key (delete readwrite key repo).1 ≡ some (ok false)
    unfolding set_chunk_ref
    exists-delete repo key path coords k done =
        let run = delete-chunk repo key path coords k in
        ap (λ r. exists key r) (ap (λ r. r.1) run)
        ∙ elim (forgive-ok (set_chunk_ref repo path coords none).0
            (sym (ap (λ r. r.0) run) ∙ done)) [
              | inl was_set ↦
                  let (node, found_array) = set_chunk_ref-ok repo path coords none was_set in
                  exists-chunk (set_chunk_ref repo path coords none).1 key path coords k (ok none)
                    (get_chunk_ref-set_chunk_ref_self repo path coords none node found_array).1
              | inr (p, missing) ↦
                  let (no_array, same) =
                    on_node-err repo _ (array_at repo path) (RepositoryError.node_not_found p)
                      missing in
                  exists-chunk (set_chunk_ref repo path coords none).1 key path coords k
                    (err (RepositoryError.node_not_found p))
                    (ap (λ r. get_chunk_ref r path coords) same
                      ∙ get_chunk_ref_missing repo path p coords no_array)
            ]
