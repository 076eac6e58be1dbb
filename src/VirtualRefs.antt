-- ===== src/VirtualRefs.antt =====
-- icechunk/src/storage/virtual_ref.rs, and `VirtualChunkLocation::from_absolute_path` of
-- icechunk/src/format/manifest.rs. A `u64` wraps, as it does in a release build. The packages that
-- parse a URL and fetch an object are parameters.
pub mod Ranges
pub mod Resolver
use icechunk.Prelude.{
  ℕ, ◌+◌, ◌-◌, ◌%◌, ◌^◌, min, Bool, true, false, not, Option, none, some, List, [], ◌∷◌, ◌++◌,
  Result, ok, err, ◌>>=◌, ◌==◌, Str, codes, if◌then◌else◌, strip_prefix, unwrap_or,
}
use icechunk.Format.{Bytes}
use icechunk.Format.ByteRanges.{ByteRange, bounded, from, last}
use icechunk.Format.Chunks.{VirtualChunkLocation, absolute}

pub data VirtualReferenceError : Type 0 where
  cannot_parse_url : VirtualReferenceError
  no_path_segments : Str → VirtualReferenceError
  unsupported_scheme : Str → VirtualReferenceError
  cannot_parse_bucket_name : Str → VirtualReferenceError
  fetch_error : VirtualReferenceError
  other_error : VirtualReferenceError

-- The sum and the difference of two `u64`
abbrev pub add_u64 : ℕ → ℕ → ℕ
add_u64 a b = (a + b) % 2 ^ 64

abbrev pub sub_u64 : ℕ → ℕ → ℕ
sub_u64 a b = (a + (2 ^ 64 - b)) % 2 ^ 64

unfoldable pub construct_valid_byte_range : ByteRange → ℕ → ℕ → ByteRange
construct_valid_byte_range (bounded req_start req_end) chunk_offset chunk_length =
    bounded (min (add_u64 chunk_offset req_start) (sub_u64 (add_u64 chunk_offset chunk_length) 1))
      (min (add_u64 chunk_offset req_end) (add_u64 chunk_offset chunk_length))
construct_valid_byte_range (from n) chunk_offset chunk_length =
    bounded (min (add_u64 chunk_offset n) (sub_u64 (add_u64 chunk_offset chunk_length) 1))
      (add_u64 chunk_offset chunk_length)
construct_valid_byte_range (last n) chunk_offset chunk_length =
    let new_end = add_u64 chunk_offset chunk_length in bounded (sub_u64 new_end n) new_end
