-- ===== src/Zarr/Keys.antt =====
-- `Key` of icechunk/src/zarr.rs, with `parse` and `Display`, and `Path::new` of
-- icechunk/src/format/mod.rs. The text of a path is a parameter.
pub mod RoundTrip
pub mod Text
use icechunk.Prelude.{
  ℕ, ◌≡◌, ◌≢◌, Bool, true, false, ◌||◌, Option, none, some, List, [], ◌∷◌, ◌++◌, map, Result, ok,
  err, ◌==◌, nat_eq, list_eq, collect, ok_or, Str, codes, strip_prefix, strip_suffix, if◌then◌else◌,
  unwrap_or, option_map, and_then, drop, to_string, parse_u32, rsplit_once, split, join,
  trim_start_matches,
}
use icechunk.Format.{External, NodePath, ChunkIndices}
use icechunk.Zarr.{StoreError, StoreResult, invalid_key}

-- `Utf8UnixPathBuf` as a text: `is_absolute`, and the path of a text that is its own normal form. The
-- text of a path that `Path` holds is absolute and has no empty components.
pub record PathText ⦃E : External⦄ : Type 0 where
  pub print : E.PathBuf → Str
  pub is_absolute : Str → Bool
  pub canonic : Str → Option E.PathBuf
  pub is_absolute_lem : (s : Str) → is_absolute (codes "/" ++ s) ≡ true
  pub canonic-print : (p : E.PathBuf) → canonic (print p) ≡ some p
  pub print_root : print E.root ≡ codes "/"
  pub print_absolute : (p : E.PathBuf) → (s : Str) × (print p ≡ codes "/" ++ s)
  pub print_components : (p : E.PathBuf) (s : Str) → print p ≢ codes "//" ++ s

pub data PathError : Type 0 where
  not_absolute : PathError
  not_canonic : PathError

abbrev pub is_some {ℓ} : {A : Type ℓ} → Option A → Bool
is_some none = false
is_some (some a) = true

abbrev pub ends_with : Str → Str → Bool
ends_with s suffix = is_some (strip_suffix suffix s)

unfoldable pub is_zarr_v2 : Str → Bool
is_zarr_v2 key =
    (key == codes ".zgroup")
    || ((key == codes ".zarray")
        || ((key == codes ".zattrs")
            || ((key == codes ".zmetadata")
                || (ends_with key (codes "/.zgroup")
                    || (ends_with key (codes "/.zarray")
                        || (ends_with key (codes "/.zattrs")
                            || ends_with key (codes "/.zmetadata")))))))

module _ ⦃E : External⦄ ⦃T : PathText⦄ where
  open T use {print, is_absolute, canonic}

  abbrev pub or_not_canonic : Option E.PathBuf → Result PathError NodePath
  or_not_canonic none = err not_canonic
  or_not_canonic (some p) = ok (record { buf = p })

  -- `Path::new`, and `try_into` a path
  unfoldable pub path_new : Str → Result PathError NodePath
  path_new s = if is_absolute s then or_not_canonic (canonic s) else err not_absolute

  pub data Key : Type 0 where
    metadata : NodePath → Key
    chunk : NodePath → ChunkIndices → Key
    zarr_v2 : Str → Key

  abbrev pub root_path : NodePath
  root_path = record { buf = E.root }

  -- `.ok()`
  abbrev pub no_error : Result PathError NodePath → Option NodePath
  no_error (ok p) = some p
  no_error (err e) = none

  abbrev pub parse_coords : Str → Option ChunkIndices
  parse_coords coords =
      and_then (strip_prefix (codes "/") coords)
        λ indices. collect (map parse_u32 (split 47 indices))

  abbrev pub chunk_at : Str → Str → Option Key
  chunk_at path [] = option_map (λ p. chunk p []) (no_error (path_new (codes "/" ++ path)))
  chunk_at path (c ∷ coords) =
      and_then (no_error (path_new (codes "/" ++ path)))
        λ p. option_map (chunk p) (parse_coords (c ∷ coords))

  abbrev pub chunk_of_parts : Str × Str → Option Key
  chunk_of_parts (path, coords) = chunk_at (unwrap_or (strip_suffix (codes "/") path) path) coords

  unfoldable pub parse_chunk : Str → StoreResult Key
  unfolding path_new
  parse_chunk key =
      if is_zarr_v2 key
      then ok (zarr_v2 key)
      else if key == codes "c"
      then ok (chunk root_path [])
      else ok_or (invalid_key key) (and_then (rsplit_once 99 key) chunk_of_parts)

  abbrev pub metadata_or_chunk : Str → Option Str → StoreResult Key
  metadata_or_chunk key (some path) =
      ok_or (invalid_key key) (option_map metadata (no_error (path_new (codes "/" ++ path))))
  metadata_or_chunk key none = parse_chunk key

  -- `Key::parse`
  unfoldable pub parse : Str → StoreResult Key
  parse key =
      if key == codes "zarr.json"
      then ok (metadata root_path)
      else metadata_or_chunk key (strip_suffix (codes "/zarr.json") key)

  abbrev pub nonempty : List Str → List Str
  nonempty [] = []
  nonempty ([] ∷ ss) = nonempty ss
  nonempty ((c ∷ s) ∷ ss) = (c ∷ s) ∷ nonempty ss

  -- `Display` of `Key`
  unfoldable pub display : Key → Str
  display (metadata path) = trim_start_matches 47 (drop 1 (print path.buf) ++ codes "/zarr.json")
  display (chunk path coords) =
      join 47 (nonempty (drop 1 (print path.buf) ∷ codes "c" ∷ join 47 (map to_string coords) ∷ []))
  display (zarr_v2 key) = key
