-- ===== src/VirtualRefs/Resolver.antt =====
-- The trait `VirtualChunkResolver` and `ObjectStoreVirtualChunkResolver` of
-- icechunk/src/storage/virtual_ref.rs, `VirtualChunkLocation::from_absolute_path` of
-- icechunk/src/format/manifest.rs, the headers of icechunk/src/storage/s3.rs and the ranges of
-- icechunk/src/storage/object_store.rs.
use icechunk.Prelude.{
  ℕ, Option, none, some, List, [], ◌∷◌, ◌++◌, Result, ok, err, ◌>>=◌, ok_or, ◌==◌, nat_eq, list_eq,
  Str, codes, if◌then◌else◌, strip_prefix, unwrap_or, to_string, join,
}
use icechunk.Format.{Bytes}
use icechunk.Format.ByteRanges.{ByteRange, bounded, from, last}
use icechunk.Format.Chunks.{VirtualChunkLocation, absolute}
use icechunk.VirtualRefs.{
  VirtualReferenceError, cannot_parse_url, no_path_segments, unsupported_scheme,
  cannot_parse_bucket_name, other_error, sub_u64,
}

-- `fetch_chunk` of the trait
pub record VirtualChunkResolver : Type 0 where
  pub fetch_chunk : VirtualChunkLocation → ByteRange → Result VirtualReferenceError Bytes

-- `object_store::GetRange`
pub data GetRange : Type 0 where
  bounded_range : ℕ → ℕ → GetRange
  offset : ℕ → GetRange
  suffix : ℕ → GetRange

-- `From<&ByteRange> for Option<GetRange>`
unfoldable pub get_range : ByteRange → Option GetRange
get_range (bounded start end) = some (bounded_range start end)
get_range (from start) = if start == 0 then none else some (offset start)
get_range (last n) = some (suffix n)

-- `range_to_header`
unfoldable pub range_to_header : ByteRange → Option Str
range_to_header (bounded start end) =
    some (codes "bytes=" ++ (to_string start ++ (codes "-" ++ to_string (sub_u64 end 1))))
range_to_header (from start) =
    if start == 0 then none else some (codes "bytes=" ++ (to_string start ++ codes "-"))
range_to_header (last n) = some (codes "bytes=" ++ (to_string n ++ codes "-"))

-- The packages `url`, `object_store` and `aws_sdk_s3`: a parsed URL's parts, a path that
-- `ObjectPath::parse` accepts, and the reads of a local file and of an object of a bucket, whose
-- failures are `FetchError`s.
pub record VirtualPackages : Type 1 where
  pub Url : Type 0
  pub parse_url : Str → Option Url
  pub scheme : Url → Str
  pub host : Url → Option Str
  pub url_path : Url → Str
  pub path_segments : Url → Option (List Str)
  pub object_path : Str → Option Str
  pub get_file : Str → Option GetRange → Result VirtualReferenceError Bytes
  pub get_object : Str → Str → Option Str → Result VirtualReferenceError Bytes

module _ ⦃P : VirtualPackages⦄ where
  open P use {
    Url, parse_url, scheme, host, url_path, path_segments, object_path, get_file, get_object,
  }

  unfoldable pub fetch_file : Url → ByteRange → Result VirtualReferenceError Bytes
  unfolding get_range
  fetch_file url range = do
    path ← ok_or other_error (object_path (url_path url))
    get_file path (get_range range)

  unfoldable pub fetch_s3 : Url → ByteRange → Result VirtualReferenceError Bytes
  unfolding range_to_header
  fetch_s3 url range = do
    bucket_name ← ok_or (cannot_parse_bucket_name (codes "No bucket name found")) (host url)
    let key = unwrap_or (strip_prefix (codes "/") (url_path url)) (url_path url)
    get_object bucket_name key (range_to_header range)

  abbrev fetch_url : Url → ByteRange → Result VirtualReferenceError Bytes
  fetch_url url range =
      if scheme url == codes "file"
      then fetch_file url range
      else if scheme url == codes "s3"
      then fetch_s3 url range
      else err (unsupported_scheme (scheme url))

  unfoldable pub fetch_location :
      VirtualChunkLocation → ByteRange → Result VirtualReferenceError Bytes
  unfolding fetch_file fetch_s3
  fetch_location (absolute location) range = do
    url ← ok_or cannot_parse_url (parse_url location)
    fetch_url url range

  -- `ObjectStoreVirtualChunkResolver`
  abbrev pub object_store_resolver : VirtualChunkResolver
  unfolding fetch_location
  object_store_resolver = record { fetch_chunk = fetch_location }

  abbrev not_empty : List Str → List Str
  not_empty [] = []
  not_empty ([] ∷ ss) = not_empty ss
  not_empty ((c ∷ s) ∷ ss) = (c ∷ s) ∷ not_empty ss

  abbrev host_or_file : Str → Url → Option Str → Result VirtualReferenceError Str
  host_or_file path url (some h) = ok h
  host_or_file path url none =
      if scheme url == codes "file" then ok [] else err (cannot_parse_bucket_name path)

  -- `VirtualChunkLocation::from_absolute_path`
  unfoldable pub from_absolute_path : Str → Result VirtualReferenceError VirtualChunkLocation
  from_absolute_path path = do
    url ← ok_or cannot_parse_url (parse_url path)
    segments ← ok_or (no_path_segments path) (path_segments url)
    let new_path = join 47 (not_empty segments)
    host_name ← host_or_file path url (host url)
    ok (absolute (scheme url ++ (codes "://" ++ (host_name ++ (codes "/" ++ new_path)))))
