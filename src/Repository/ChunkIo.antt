-- ===== src/Repository/ChunkIo.antt =====
-- `get_chunk_reader`, `get_chunk_writer` and `get_chunk` of icechunk/src/repository.rs. A future is a
-- function of the store at the time when it is awaited. A random chunk id is an argument.
pub mod RoundTrip
use icechunk.Prelude.{
  ℕ, Bool, Option, none, some, ok, err, map_err, option_map, if◌then◌else◌, length, ltb,
}
use icechunk.Exec.{Exec, pure, writing, ◌>>=◌, ◌>>◌}
use icechunk.Format.{External, NodePath, ChunkId, ChunkIndices, Bytes}
use icechunk.Format.ByteRanges.{ByteRange, slice}
use icechunk.Format.Chunks.{ChunkPayload, ChunkRef}
use icechunk.Storage.{Storage}
use icechunk.VirtualRefs.{construct_valid_byte_range}
use icechunk.VirtualRefs.Resolver.{VirtualChunkResolver}
use icechunk.Repository.{
  Repository, RepositoryError, RepositoryResult, storage_error, virtual_reference_error,
}
use icechunk.Repository.Editing.{get_chunk_ref}

module _ ⦃E : External⦄ ⦃S : Storage⦄ where
  open S use {Store, fetch_chunk, write_chunk}

  -- The future of a chunk's bytes
  abbrev pub Reader : Type 0
  Reader = Store → RepositoryResult Bytes

  module _ ⦃V : VirtualChunkResolver⦄ where
    -- The payload decides; a slice out of an inline chunk's bounds is a panic, the outer `none`.
    abbrev pub reader_of :
        ByteRange
        → RepositoryResult (Option ChunkPayload)
        → Option (RepositoryResult (Option Reader))
    reader_of range (err e) = some (err e)
    reader_of range (ok none) = some (ok none)
    reader_of range (ok (some (ChunkPayload.ref r))) =
        some (ok (some λ s. map_err storage_error (fetch_chunk s (ChunkRef.id r) range)))
    reader_of range (ok (some (ChunkPayload.inline bytes))) =
        option_map (λ part. ok (some λ s. ok part)) (slice range bytes)
    reader_of range (ok (some (ChunkPayload.virtual v))) = some (
        ok (
          some λ s.
            map_err virtual_reference_error
              (V.fetch_chunk v.location (construct_valid_byte_range range v.offset v.length))))

    unfoldable pub get_chunk_reader :
        Repository → NodePath → ChunkIndices → ByteRange → Option (RepositoryResult (Option Reader))
    get_chunk_reader repo path coords range = reader_of range (get_chunk_ref repo path coords)

  abbrev pub get_chunk : Store → Option Reader → RepositoryResult (Option Bytes)
  get_chunk s (some reader) = elim (reader s) [ ok bytes ↦ ok (some bytes) | err e ↦ err e ]
  get_chunk s none = ok none

  unfoldable pub new_materialized_chunk : ChunkId → Bytes → Exec Store RepositoryError ChunkPayload
  new_materialized_chunk new_id bytes =
      writing storage_error (λ s. write_chunk s new_id bytes)
      >> pure (ChunkPayload.ref (record { id = new_id; offset = 0; length = length bytes }))

  abbrev pub new_inline_chunk : Bytes → ChunkPayload
  new_inline_chunk bytes = ChunkPayload.inline bytes

  unfoldable pub get_chunk_writer :
      Repository → ChunkId → Bytes → Exec Store RepositoryError ChunkPayload
  unfolding new_materialized_chunk
  get_chunk_writer repo new_id bytes =
      if ltb repo.config.inline_chunk_threshold_bytes (length bytes)
      then new_materialized_chunk new_id bytes
      else pure (new_inline_chunk bytes)
