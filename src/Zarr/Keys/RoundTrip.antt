-- ===== src/Zarr/Keys/RoundTrip.antt =====
-- A key that is shown is parsed as itself.
use icechunk.Prelude.{
  ℕ, ◌<◌, ◌≡◌, ◌≢◌, refl, ap, sym, ◌∙◌, false, some, [], ◌∷◌, ◌++◌, map, ok, err, ◌==◌, nat_eq,
  list_eq, collect, ok_or, ◌≤◌, inl, inr, arith, Str, codes, strip_prefix, strip_suffix,
  strip_prefix-append, append_nonempty, strip_suffix-append, if◌then◌else◌, length, unwrap_or,
  option_map, and_then, drop, to_string, parse_u32, Avoids, length-append, rsplit_once,
  rsplit_once-append, split, split-join, join, trim_start_matches,
}
use mathlib.Core.List.{append_assoc}
use icechunk.Format.{External, NodePath, ChunkIndices}
use icechunk.Zarr.{invalid_key}
use icechunk.Zarr.Keys.{
  PathText, path_new, Key, metadata, chunk, zarr_v2, parse, parse_chunk, display, root_path,
  chunk_of_parts, chunk_at, no_error, parse_coords, or_not_canonic, not_absolute, nonempty,
  is_zarr_v2, metadata_or_chunk,
}
use icechunk.Zarr.Keys.Text.{
  AreIndices, collect-map, AllAvoid-to_string, join-Avoids, longer_differs, EndsKey, join_last,
  chunk_key_no_metadata, chunk_key_not_v2,
}

module _ ⦃E : External⦄ ⦃T : PathText⦄ where
  open T use {print}

  -- A key that ends so is split at its last `c`.
  parse_split :
      (key s : Str) (x : ℕ)
      → key ≡ s ++ (x ∷ [])
      → EndsKey x
      → parse key ≡ (
          if key == codes "c"
          then ok (chunk root_path [])
          else ok_or (invalid_key key) (and_then (rsplit_once 99 key) chunk_of_parts))
  unfolding parse parse_chunk
  parse_split key s x e k =
      ap
        (λ b.
          if b
          then ok (metadata root_path)
          else metadata_or_chunk key (strip_suffix (codes "/zarr.json") key))
        (chunk_key_no_metadata key s x e k).0
      ∙ (ap (metadata_or_chunk key) (chunk_key_no_metadata key s x e k).1
          ∙ ap
              (λ b.
                if b
                then ok (zarr_v2 key)
                else (if key == codes "c"
                    then ok (chunk root_path [])
                    else ok_or (invalid_key key) (and_then (rsplit_once 99 key) chunk_of_parts)))
              (chunk_key_not_v2 key s x e k))

  -- What a key shows of a path whose text goes on with `rest` after its `/`, and of indices
  abbrev shown_path : Str → Str
  shown_path [] = []
  shown_path (r ∷ rest) = (r ∷ rest) ++ codes "/"

  abbrev shown_coords : ChunkIndices → Str
  shown_coords [] = []
  shown_coords (c ∷ cs) = 47 ∷ join 47 (map to_string (c ∷ cs))

  path_new-print :
      (p : NodePath) (rest : Str)
      → print p.buf ≡ codes "/" ++ rest
      → path_new (codes "/" ++ rest) ≡ ok p
  unfolding path_new
  path_new-print p rest e =
      ap (λ b. if b then or_not_canonic (T.canonic (codes "/" ++ rest)) else err not_absolute)
        (T.is_absolute_lem rest)
      ∙ ap or_not_canonic (ap T.canonic (sym e) ∙ T.canonic-print p.buf)

  unshown_path :
      (rest : Str) → unwrap_or (strip_suffix (codes "/") (shown_path rest)) (shown_path rest) ≡ rest
  unfolding strip_suffix strip_prefix
  unshown_path [] = refl
  unshown_path (r ∷ rest) =
      ap (λ o. unwrap_or o (shown_path (r ∷ rest))) (strip_suffix-append (r ∷ rest) (codes "/"))

  -- The indices' text behind a `/`, when there is any
  abbrev behind_slash : Str → Str
  behind_slash [] = []
  behind_slash (d ∷ t) = 47 ∷ d ∷ t

  behind_slash_nonempty : (t : Str) → t ≢ [] → behind_slash t ≡ 47 ∷ t
  behind_slash_nonempty [] h = absurd (h refl)
  behind_slash_nonempty (d ∷ t) h = refl

  shown_coords-join :
      (coords : ChunkIndices) → behind_slash (join 47 (map to_string coords)) ≡ shown_coords coords
  unfolding join
  shown_coords-join [] = refl
  shown_coords-join (c ∷ cs) =
      let (u, (y, (e, b))) = join_last c cs in
      behind_slash_nonempty (join 47 (map to_string (c ∷ cs)))
        λ none_left. append_nonempty u y (sym e ∙ none_left)

  join_parts :
      (rest t : Str)
      → join 47 (nonempty (rest ∷ codes "c" ∷ t ∷ [])) ≡ shown_path rest ++ (99 ∷ behind_slash t)
  unfolding join
  join_parts [] [] = refl
  join_parts [] (d ∷ t) = refl
  join_parts (r ∷ rest) [] = sym (append_assoc (r ∷ rest) (codes "/") (99 ∷ []))
  join_parts (r ∷ rest) (d ∷ t) = sym (append_assoc (r ∷ rest) (codes "/") (99 ∷ 47 ∷ d ∷ t))

  display_shown :
      (p : NodePath) (rest : Str) (coords : ChunkIndices)
      → print p.buf ≡ codes "/" ++ rest
      → display (chunk p coords) ≡ shown_path rest ++ (99 ∷ shown_coords coords)
  unfolding display
  display_shown p rest coords e =
      ap
        (λ text. join 47 (nonempty (drop 1 text ∷ codes "c" ∷ join 47 (map to_string coords) ∷ [])))
        e
      ∙ (join_parts rest (join 47 (map to_string coords))
          ∙ ap (λ t. shown_path rest ++ (99 ∷ t)) (shown_coords-join coords))

  key_last :
      (pre : Str) (coords : ChunkIndices)
      → (s : Str) × ((x : ℕ) × ((pre ++ (99 ∷ shown_coords coords) ≡ s ++ (x ∷ [])) × EndsKey x))
  key_last pre [] = (pre, (99, (refl, inl refl)))
  key_last pre (c ∷ cs) =
      let (u, (y, (e, b))) = join_last c cs in
      (
        pre ++ (99 ∷ 47 ∷ u),
        (
          y,
          (ap (λ r. pre ++ (99 ∷ 47 ∷ r)) e ∙ sym (append_assoc pre (99 ∷ 47 ∷ u) (y ∷ [])), inr b),
        ),
      )

  parse_coords-join :
      (c : ℕ) (cs : ChunkIndices)
      → AreIndices (c ∷ cs)
      → parse_coords (47 ∷ join 47 (map to_string (c ∷ cs))) ≡ some (c ∷ cs)
  parse_coords-join c cs h =
      ap (λ o. and_then o λ indices. collect (map parse_u32 (split 47 indices)))
        (strip_prefix-append (codes "/") (join 47 (map to_string (c ∷ cs))))
      ∙ (ap (λ ss. collect (map parse_u32 ss))
            (split-join 47 (to_string c) (map to_string cs) (AllAvoid-to_string (c ∷ cs)))
          ∙ collect-map (c ∷ cs) h)

  shown_coords-Avoids : (coords : ChunkIndices) → Avoids 99 (shown_coords coords)
  shown_coords-Avoids [] = tt
  shown_coords-Avoids (c ∷ cs) = ((λ e. omega (arith, e)), join-Avoids (c ∷ cs))

  chunk_at_shown :
      (p : NodePath) (rest : Str) (coords : ChunkIndices)
      → print p.buf ≡ codes "/" ++ rest
      → AreIndices coords
      → chunk_at rest (shown_coords coords) ≡ some (chunk p coords)
  chunk_at_shown p rest [] e h =
      ap (λ r. option_map (λ q. chunk q []) (no_error r)) (path_new-print p rest e)
  chunk_at_shown p rest (c ∷ cs) e h =
      ap
        (λ r.
          and_then (no_error r)
            λ q. option_map (chunk q) (parse_coords (47 ∷ join 47 (map to_string (c ∷ cs)))))
        (path_new-print p rest e)
      ∙ ap (option_map (chunk p)) (parse_coords-join c cs h)

  parse_shown :
      (p : NodePath) (rest : Str) (coords : ChunkIndices) (key : Str)
      → print p.buf ≡ codes "/" ++ rest
      → AreIndices coords
      → key ≡ shown_path rest ++ (99 ∷ shown_coords coords)
      → (key == codes "c") ≡ false
      → parse key ≡ ok (chunk p coords)
  parse_shown p rest coords key e h k long =
      let (s, (x, (last, ends))) = key_last (shown_path rest) coords in
      parse_split key s x (k ∙ last) ends
      ∙ (ap
            (λ b.
              if b
              then ok (chunk root_path [])
              else ok_or (invalid_key key) (and_then (rsplit_once 99 key) chunk_of_parts))
            long
          ∙ (ap (λ parts. ok_or (invalid_key key) (and_then parts chunk_of_parts))
                (ap (rsplit_once 99) k
                  ∙ rsplit_once-append 99 (shown_path rest) (shown_coords coords)
                      (shown_coords-Avoids coords))
              ∙ (ap (λ path. ok_or (invalid_key key) (chunk_at path (shown_coords coords)))
                    (unshown_path rest)
                  ∙ ap (ok_or (invalid_key key)) (chunk_at_shown p rest coords e h))))

  root_of_text : (p : NodePath) → print p.buf ≡ codes "/" → root_path ≡ p
  root_of_text p e =
      let same : some E.root ≡ some p.buf =
        sym (T.canonic-print E.root)
        ∙ (ap T.canonic (T.print_root ∙ sym e) ∙ T.canonic-print p.buf) in
      ground (arith, same)

  length_shown :
      (pre : Str) (coords : ChunkIndices)
      → 1 ≤ length pre
      → 1 < length (pre ++ (99 ∷ shown_coords coords))
  length_shown pre coords h = omega (arith, h, length-append pre (99 ∷ shown_coords coords))

  parse-display_of_chunk :
      (p : NodePath) (rest : Str) (coords : ChunkIndices)
      → print p.buf ≡ codes "/" ++ rest
      → AreIndices coords
      → parse (display (chunk p coords)) ≡ ok (chunk p coords)
  unfolding parse strip_suffix parse_chunk is_zarr_v2
  parse-display_of_chunk p [] [] e h =
      ap parse (display_shown p [] [] e) ∙ ap (λ q. ok (chunk q [])) (root_of_text p e)
  parse-display_of_chunk p [] (c ∷ cs) e h =
      let shown = display_shown p [] (c ∷ cs) e in
      parse_shown p [] (c ∷ cs) (display (chunk p (c ∷ cs))) e h shown
        (ap (λ key. key == codes "c") shown)
  parse-display_of_chunk p (r ∷ rest) coords e h =
      let shown = display_shown p (r ∷ rest) coords e in
      parse_shown p (r ∷ rest) coords (display (chunk p coords)) e h shown (
        ap (λ key. key == codes "c") shown
        ∙ longer_differs (shown_path (r ∷ rest) ++ (99 ∷ shown_coords coords)) (codes "c")
            (length_shown (shown_path (r ∷ rest)) coords (omega arith)))

  trim_no_slash : (r : ℕ) (s : Str) → r ≢ 47 → trim_start_matches 47 (r ∷ s) ≡ r ∷ s
  unfolding trim_start_matches
  trim_no_slash r s h = ground (arith, h)

  parse-display_of_metadata :
      (p : NodePath) (rest : Str)
      → print p.buf ≡ codes "/" ++ rest
      → parse (display (metadata p)) ≡ ok (metadata p)
  unfolding display parse trim_start_matches
  parse-display_of_metadata p [] e =
      ap (λ text. parse (trim_start_matches 47 (drop 1 text ++ codes "/zarr.json"))) e
      ∙ (refl ∙ ap (λ q. ok (metadata q)) (root_of_text p e))
  parse-display_of_metadata p (r ∷ rest) e =
      ap (λ text. parse (trim_start_matches 47 (drop 1 text ++ codes "/zarr.json"))) e
      ∙ (ap parse (
            trim_no_slash r (rest ++ codes "/zarr.json")
              λ slash. T.print_components p.buf rest (e ∙ ap (λ d. 47 ∷ d ∷ rest) slash))
          ∙ (ap
                (λ b.
                  if b
                  then ok (metadata root_path)
                  else metadata_or_chunk key (strip_suffix (codes "/zarr.json") key))
                long
              ∙ (ap (metadata_or_chunk ((r ∷ rest) ++ codes "/zarr.json"))
                    (strip_suffix-append (r ∷ rest) (codes "/zarr.json"))
                  ∙ ap (λ q. ok_or (invalid_key key) (option_map metadata (no_error q)))
                      (path_new-print p (r ∷ rest) e))))
    where
      key : Str
      key = (r ∷ rest) ++ codes "/zarr.json"

      long : (key == codes "zarr.json") ≡ false
      long =
          longer_differs key (codes "zarr.json")
            (omega (arith, length-append (r ∷ rest) (codes "/zarr.json")))

  -- The keys that stand for a node's metadata or for a chunk with indices of 32 bits
  abbrev IsNodeKey : Key → Type 0
  IsNodeKey (metadata p) = Unit
  IsNodeKey (chunk p coords) = AreIndices coords
  IsNodeKey (zarr_v2 key) = ⊥

  -- The text of a metadata key, and of a chunk key whose indices are of 32 bits, parses as that key.
  pub parse-display : (key : Key) → IsNodeKey key → parse (display key) ≡ ok key
  parse-display (metadata p) h =
      let (rest, e) = T.print_absolute p.buf in parse-display_of_metadata p rest e
  parse-display (chunk p coords) h =
      let (rest, e) = T.print_absolute p.buf in parse-display_of_chunk p rest coords e h
  parse-display (zarr_v2 key) h = absurd h
