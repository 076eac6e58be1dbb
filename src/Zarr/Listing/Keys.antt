-- ===== src/Zarr/Listing/Keys.antt =====
-- The listed metadata keys are those of the session's nodes.
use icechunk.Prelude.{◌≡◌, refl, ap, ◌∙◌, Bool, true, false, none, List, [], ◌∷◌, map, ok, Str}
use mathlib.Core.List.{Memᴰ}
use mathlib.Core.Path.{subst}
use icechunk.Format.{External}
use icechunk.Format.Nodes.{NodeSnapshot}
use icechunk.Storage.{Storage}
use icechunk.Repository.{Repository}
use icechunk.Repository.Listing.{updated_nodes}
use icechunk.Zarr.{StoreResult}
use icechunk.Zarr.Keys.{PathText, metadata, display, parse}
use icechunk.Zarr.Keys.RoundTrip.{parse-display}
use icechunk.Zarr.Listing.{
  is_prefix_match, trim_end_matches, matching, yield_if, metadata_keys, list_metadata_prefix,
}

module _ ⦃E : External⦄ ⦃S : Storage⦄ ⦃T : PathText⦄ where
  -- A listed key is the key of a node.
  abbrev KeyOf : List NodeSnapshot → Str → Type 0
  KeyOf nodes key = (node : NodeSnapshot) × (Memᴰ node nodes × (key ≡ display (metadata node.path)))

  abbrev Listed : Str → List NodeSnapshot → Str → Type 0
  Listed prefix nodes key = KeyOf nodes key × (is_prefix_match key prefix ≡ true)

  one_more :
      (prefix : Str) (n : NodeSnapshot) (nodes : List NodeSnapshot) (key : Str)
      → Listed prefix nodes key
      → Listed prefix (n ∷ nodes) key
  one_more prefix n nodes key ((node, (m, e)), matches) = ((node, (Memᴰ.tail m, e)), matches)

  yielded :
      (prefix : Str) (n : NodeSnapshot) (nodes : List NodeSnapshot) (key : Str) (rest : List Str)
      → (Memᴰ key rest → Listed prefix nodes key)
      → (b : Bool) → is_prefix_match (display (metadata n.path)) prefix ≡ b
      → Memᴰ key (yield_if b (display (metadata n.path)) rest)
      → Listed prefix (n ∷ nodes) key
  yielded prefix n nodes key rest others true h (Memᴰ.head e) =
      ((n, (Memᴰ.head refl, e)), ap (λ k. is_prefix_match k prefix) e ∙ h)
  yielded prefix n nodes key rest others true h (Memᴰ.tail m) =
      one_more prefix n nodes key (others m)
  yielded prefix n nodes key rest others false h m = one_more prefix n nodes key (others m)

  matching-Listed :
      (prefix : Str) (nodes : List NodeSnapshot) (key : Str)
      → Memᴰ key (matching prefix (map (λ n. metadata (NodeSnapshot.path n)) nodes))
      → Listed prefix nodes key
  matching-Listed prefix [] key m = elim m [ ]
  matching-Listed prefix (n ∷ nodes) key m =
      yielded prefix n nodes key _ (matching-Listed prefix nodes key)
        (is_prefix_match (display (metadata n.path)) prefix) refl m

  of_ok :
      (key : Str) (keys : List Str)
      → Memᴰ {A = StoreResult Str} (ok key) (map ok keys)
      → Memᴰ key keys
  of_ok key (k ∷ keys) (Memᴰ.head e) = Memᴰ.head (cc e)
  of_ok key (k ∷ keys) (Memᴰ.tail m) = Memᴰ.tail (of_ok key keys m)
  of_ok key [] m = elim m [ ]

  -- Where the session's nodes can be read, each key that the listing of metadata keys under a prefix
  -- yields parses as the metadata key of one of those nodes, and matches the prefix without its
  -- slashes at the end.
  pub list_metadata_prefix-parse :
      (repo : Repository) (prefix key : Str) (nodes : List NodeSnapshot)
      → updated_nodes repo.store repo.change_set repo.snapshot_id none ≡ ok nodes
      → Memᴰ (ok key) (list_metadata_prefix repo prefix)
      → (node : NodeSnapshot) × (Memᴰ node nodes
          × ((parse key ≡ ok (metadata node.path))
              × (is_prefix_match key (trim_end_matches 47 prefix) ≡ true)))
  unfolding list_metadata_prefix
  list_metadata_prefix-parse repo prefix key nodes read m =
      let ((node, (found, e)), matches) = matching-Listed (trim_end_matches 47 prefix) nodes key (
        of_ok key _
          (subst (λ r. Memᴰ (ok key) (metadata_keys (trim_end_matches 47 prefix) r)) read m)) in
      (node, (found, (ap parse e ∙ parse-display (metadata node.path) tt, matches)))
