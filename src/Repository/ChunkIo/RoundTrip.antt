-- ===== src/Repository/ChunkIo/RoundTrip.antt =====
-- A chunk that a session writes is read back.
use icechunk.Prelude.{
  ◌⊎◌, true, false, ◌≡◌, refl, ap, sym, ◌∙◌, inl, inr, Bool, some, ok, err, ◌>>=◌, map_err,
  option_map, if◌then◌else◌, length, ltb, Bool-cases, arith,
}
use mathlib.Core.Path.{subst}
use icechunk.Exec.{pure, proceed}
use icechunk.Format.{External, NodePath, SnapshotId, ChunkId, ChunkIndices, Bytes}
use icechunk.Format.ByteRanges.{ByteRange, slice}
use icechunk.Format.Chunks.{ChunkPayload}
use icechunk.Format.Nodes.{NodeSnapshot}
use icechunk.ChangeSet.{ChangeSet, is_deleted}
use icechunk.ChangeSet.Nodes.{get_new_node}
use icechunk.Snapshot.{snapshot_get_node}
use icechunk.Storage.{Storage, StorageResult}
use icechunk.Storage.ChunkWrites.{Served, WritesChunks}
use icechunk.VirtualRefs.Resolver.{VirtualChunkResolver}
use icechunk.Repository.{Repository, RepositoryError, RepositoryResult, storage_error}
use icechunk.Repository.Reading.{
  get_existing_node, get_node, get_array, with_session, missing_node, new_or_existing, only_array,
}
use icechunk.Repository.Editing.{array_at, set_chunk_ref}
use icechunk.Repository.Edits.{get_chunk_ref-set_chunk_ref_self}
use icechunk.Repository.ChunkIo.{
  Reader, reader_of, get_chunk_reader, get_chunk_writer, new_materialized_chunk, new_inline_chunk,
  get_chunk,
}

module _ ⦃E : External⦄ ⦃S : Storage⦄ where
  open S use {Store, fetch_snapshot, write_chunk}

  -- Which nodes a session has depends on the store's snapshot only.
  get_node_store :
      (s s' : Store) (cs : ChangeSet) (id : SnapshotId) (path : NodePath)
      → fetch_snapshot s' id ≡ fetch_snapshot s id
      → get_node s' cs id path ≡ get_node s cs id path
  unfolding get_node get_existing_node
  get_node_store s s' cs id path same = λ i.
      let existing : RepositoryResult NodeSnapshot = map_err storage_error (same i) >>= λ snapshot.
      map_err missing_node (snapshot_get_node snapshot path) >>= λ node.
      ok (with_session cs node) in
      if is_deleted cs path
      then err (RepositoryError.node_not_found path)
      else new_or_existing existing (is_deleted cs) path (get_new_node cs path)

  pub array_at_store :
      (repo : Repository) (s' : Store) (path : NodePath)
      → fetch_snapshot s' repo.snapshot_id ≡ fetch_snapshot repo.store repo.snapshot_id
      → array_at (record repo { store = s' }) path ≡ array_at repo path
  unfolding get_array
  array_at_store repo s' path same =
      ap (λ r. r >>= λ node. only_array node node.node_data)
        (get_node_store repo.store s' repo.change_set repo.snapshot_id path same)

  written :
      (pl payload : ChunkPayload) (r : StorageResult Unit) (s s' : Store)
      → ◌≡◌ {A = RepositoryResult ChunkPayload × Store}
          (proceed (map_err storage_error r) (λ _. pure pl) s)
          (ok payload, s')
      → (r ≡ ok tt) × ((payload ≡ pl) × (s' ≡ s))
  written pl payload (ok tt) s s' h = ground (arith, h)
  written pl payload (err e) s s' h = ground (arith, h)

  -- The length decides where the bytes go.
  by_size :
      (repo : Repository) (id : ChunkId) (bytes : Bytes) (s : Store) {b : Bool}
      → ltb repo.config.inline_chunk_threshold_bytes (length bytes) ≡ b
      → ◌≡◌ {A = RepositoryResult ChunkPayload × Store}
          (get_chunk_writer repo id bytes s)
          ((if b then new_materialized_chunk id bytes else pure (new_inline_chunk bytes)) s)
  unfolding get_chunk_writer
  by_size repo id bytes s size =
      ap (λ b. (if b then new_materialized_chunk id bytes else pure (new_inline_chunk bytes)) s)
        size

  get_chunk-reader :
      (s : Store) (reader : Reader) (part : Bytes)
      → reader s ≡ ok part
      → get_chunk s (some reader) ≡ ok (some part)
  get_chunk-reader s reader part h = ground (arith, h)

  -- The bytes stay in the session, or the condition holds.
  abbrev pub InlineOr : Repository → Bytes → Type 0 → Type 0
  InlineOr repo bytes P = (ltb repo.config.inline_chunk_threshold_bytes (length bytes) ≡ false) ⊎ P

  module _ ⦃V : VirtualChunkResolver⦄ (W : WritesChunks) where
    -- A payload from a writer is one whose reader finds the part of the bytes.
    abbrev Reads : ByteRange → Bytes → ChunkPayload → Store → Type 0
    Reads range part payload s =
        (reader : Reader) × ((reader_of range (ok (some payload)) ≡ some (ok (some reader)))
          × (reader s ≡ ok part))

    materialized-Reads :
        (id : ChunkId) (bytes part : Bytes) (range : ByteRange) (s s' : Store)
        (payload : ChunkPayload)
        → slice range bytes ≡ some part
        → Served range part
        → ◌≡◌ {A = RepositoryResult ChunkPayload × Store}
            (new_materialized_chunk id bytes s)
            (ok payload, s')
        → Reads range part payload s'
    unfolding new_materialized_chunk
    materialized-Reads id bytes part range s s' payload h served e =
        let made : ChunkPayload =
          ChunkPayload.ref (record { id = id; offset = 0; length = length bytes }) in
        let (success, (same, store)) =
          written made payload (write_chunk s id bytes).0 (write_chunk s id bytes).1 s' e in
        subst (λ q. Reads range part q s') (sym same)
          (subst (λ t. Reads range part made t) (sym store)
            (
              (λ t. map_err storage_error (S.fetch_chunk t id range)),
              (
                refl,
                ap (map_err storage_error) (W.fetch_written s id bytes part range success h served),
              ),
            ))

    inline-Reads :
        (bytes part : Bytes) (range : ByteRange) (s s' : Store) (payload : ChunkPayload)
        → slice range bytes ≡ some part
        → ◌≡◌ {A = RepositoryResult ChunkPayload × Store}
            (ok (ChunkPayload.inline bytes), s)
            (ok payload, s')
        → Reads range part payload s'
    inline-Reads bytes part range s s' payload h e =
        let same : ChunkPayload.inline bytes ≡ payload = ground (arith, e) in
        subst (λ q. Reads range part q s') same
          ((λ t. ok part), (ap (option_map (λ p. ok (some λ t. ok p))) h, refl))

    is_served :
        (repo : Repository) (bytes : Bytes) {P : Type 0}
        → InlineOr repo bytes P
        → ltb repo.config.inline_chunk_threshold_bytes (length bytes) ≡ true
        → P
    is_served repo bytes (inl small) large = ground (arith, small, large)
    is_served repo bytes (inr served) large = served

    get_chunk_writer-Reads :
        (repo : Repository) (id : ChunkId) (bytes part : Bytes) (range : ByteRange) (s s' : Store)
        (payload : ChunkPayload)
        → slice range bytes ≡ some part
        → InlineOr repo bytes (Served range part)
        → get_chunk_writer repo id bytes s ≡ (ok payload, s')
        → Reads range part payload s'
    unfolding get_chunk_writer
    get_chunk_writer-Reads repo id bytes part range s s' payload h served e =
        elim (Bool-cases (ltb repo.config.inline_chunk_threshold_bytes (length bytes))) [
          | inl large ↦
              materialized-Reads id bytes part range s s' payload h
                (is_served repo bytes served large) (sym (by_size repo id bytes s large) ∙ e)
          | inr small ↦
              inline-Reads bytes part range s s' payload h (sym (by_size repo id bytes s small) ∙ e)
        ]

    pub get_chunk_writer-snapshot :
        (repo : Repository) (id : ChunkId) (bytes : Bytes) (s' : Store) (payload : ChunkPayload)
        → get_chunk_writer repo id bytes repo.store ≡ (ok payload, s')
        → fetch_snapshot s' repo.snapshot_id ≡ fetch_snapshot repo.store repo.snapshot_id
    unfolding get_chunk_writer new_materialized_chunk
    get_chunk_writer-snapshot repo id bytes s' payload w =
        elim (Bool-cases (ltb repo.config.inline_chunk_threshold_bytes (length bytes))) [
          | inl large ↦
              ap (λ s. fetch_snapshot s repo.snapshot_id)
                (written (ChunkPayload.ref (record { id = id; offset = 0; length = length bytes }))
                  payload (write_chunk repo.store id bytes).0 (write_chunk repo.store id bytes).1 s'
                  (sym (by_size repo id bytes repo.store large) ∙ w)).1.1
              ∙ W.snapshot_beside repo.store id bytes repo.snapshot_id
          | inr small ↦
              ap (λ s. fetch_snapshot s repo.snapshot_id)
                (same_store (sym (by_size repo id bytes repo.store small) ∙ w))
        ]
      where
        same_store :
            ◌≡◌ {A = RepositoryResult ChunkPayload × Store}
              (ok (new_inline_chunk bytes), repo.store)
              (ok payload, s')
            → s' ≡ repo.store
        same_store e = ground (arith, e)

    -- When the writer returned a payload and the session has an array at the path, then setting the
    -- payload succeeds, and the reader of a range that lies within the bytes returns that part of
    -- them: every such range of a chunk that is inline, and the parts that are served of one in the
    -- store.
    pub get_chunk_reader-get_chunk_writer :
        (repo : Repository) (id : ChunkId) (bytes part : Bytes) (range : ByteRange) (s' : Store)
        (payload : ChunkPayload) (path : NodePath) (coord : ChunkIndices) (node : NodeSnapshot)
        → get_chunk_writer repo id bytes repo.store ≡ (ok payload, s')
        → array_at repo path ≡ ok node
        → slice range bytes ≡ some part
        → InlineOr repo bytes (Served range part)
        → ((set_chunk_ref (record repo { store = s' }) path coord (some payload)).0 ≡ ok tt)
          × ((reader : Reader) × ((get_chunk_reader
                    (set_chunk_ref (record repo { store = s' }) path coord (some payload)).1
                    path
                    coord
                    range
                  ≡ some (ok (some reader)))
                × (get_chunk s' (some reader) ≡ ok (some part))))
    unfolding get_chunk_reader
    get_chunk_reader-get_chunk_writer repo id bytes part range s' payload path coord node w a h
          served =
        let repo' : Repository = record repo { store = s' } in
        let found : array_at repo' path ≡ ok node =
          array_at_store repo s' path (get_chunk_writer-snapshot repo id bytes s' payload w) ∙ a in
        let (done, read) =
          get_chunk_ref-set_chunk_ref_self repo' path coord (some payload) node found in
        let (reader, (made, result)) =
          get_chunk_writer-Reads repo id bytes part range repo.store s' payload h served w in
        (done, (reader, (ap (reader_of range) read ∙ made, get_chunk-reader s' reader part result)))
