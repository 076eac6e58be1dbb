-- ===== src/Manifest/Lookups.antt =====
-- `Manifest::iter` against `Manifest::get_chunk_payload`.
use icechunk.Prelude.{
  Bool, if◌then◌else◌, ◌≡◌, refl, sym, ap, ◌↔◌, Option, none, some, List, [], ◌∷◌, map, arith, ◌==◌,
  ==-refl, eq_of_==, nat_eq, list_eq, pair_eq, list_ord, pair_ord, Bool-cases, inl, inr, ok, Ord,
  Eq, true, false,
}
use mathlib.Core.List.{Memᴰ}
use mathlib.Core.List.Memᴰ
use mathlib.Core.Path.{subst}
use icechunk.Dict.{Map, get}
use icechunk.Btree.{Sorted, Above}
use icechunk.Format.{NodeId, ChunkIndices}
use icechunk.Format.Chunks.{ChunkPayload, ChunkInfo}
use icechunk.Manifest.{ChunkKey, item, manifest_iter, from_chunks, get_chunk_payload, found}
use icechunk.Manifest.Iteration.{node_chunks, manifest_iter-node_chunks, from_chunks-Sorted}

module _ {K V : Type 0} ⦃e : Eq K⦄ ⦃o : Ord K⦄ where
  Above-Memᴰ : (k j : K) (v : V) (m : Map K V) → Above k m → Memᴰ (j, v) m → o.lt k j ≡ true
  Above-Memᴰ k j v ((i, w) ∷ m) a (Memᴰ.head same) =
      subst (λ x. o.lt k x ≡ true) (ap (λ p. p.0) (sym same)) a.0
  Above-Memᴰ k j v ((i, w) ∷ m) a (Memᴰ.tail t) = Above-Memᴰ k j v m a.1 t
  Above-Memᴰ k j v [] a t = elim t [ ]

  get-Memᴰ : (m : Map K V) (k : K) (v : V) → get m k ≡ some v → Memᴰ (k, v) m
  unfolding get
  get-Memᴰ [] k v h = ground (arith, h)
  get-Memᴰ ((j, w) ∷ m) k v h = elim (Bool-cases (j == k)) [
    | inl same ↦
        let value : w ≡ v = ground (arith, same, h) in
        Memᴰ.head (λ i. (sym (eq_of_== j k same) i, sym value i))
    | inr other ↦ Memᴰ.tail (get-Memᴰ m k v (ground (arith, other, h)))
  ]

  Memᴰ-get : (m : Map K V) (k : K) (v : V) → Sorted m → Memᴰ (k, v) m → get m k ≡ some v
  unfolding get
  Memᴰ-get [] k v s t = elim t [ ]
  Memᴰ-get ((j, w) ∷ m) k v s (Memᴰ.head same) =
      subst (λ p. get ((j, w) ∷ m) p.0 ≡ some p.1) (sym same) (rw (==-refl j) refl)
  Memᴰ-get ((j, w) ∷ m) k v s (Memᴰ.tail t) =
      ground (arith, Above-Memᴰ j k v m s.0 t, o.lt_irrefl j, eq_of_== j k, Memᴰ-get m k v s.1 t)

module _ (node : NodeId) (coord : ChunkIndices) (payload : ChunkPayload) where
  Memᴰ-node_chunks :
      (m : Map ChunkKey ChunkPayload)
      → Memᴰ ((node, coord), payload) m
      → Memᴰ (coord, payload) (map item (node_chunks node m))
  Memᴰ-node_chunks [] t = elim t [ ]
  Memᴰ-node_chunks (x ∷ m) (Memᴰ.head same) =
      subst (λ x. Memᴰ (coord, payload) (map item (node_chunks node (x ∷ m)))) same
        (rw (==-refl node) (Memᴰ.head refl))
  Memᴰ-node_chunks (x ∷ m) (Memᴰ.tail t) = elim (Bool-cases (x.0.0 == node)) [
    | inl same ↦ rw same (Memᴰ.tail (Memᴰ-node_chunks m t))
    | inr other ↦ rw other (Memᴰ-node_chunks m t)
  ]

  kept :
      (n : NodeId) (c : ChunkIndices) (p : ChunkPayload) (m rest : Map ChunkKey ChunkPayload)
      (b : Bool)
      → (n == node) ≡ b
      → (Memᴰ (coord, payload) (map item rest) → Memᴰ ((node, coord), payload) m)
      → Memᴰ (coord, payload) (map item (if b then ((n, c), p) ∷ rest else rest))
      → Memᴰ ((node, coord), payload) (((n, c), p) ∷ m)
  kept n c p m rest true e later (Memᴰ.head same) =
      Memᴰ.head (λ i. ((sym (eq_of_== n node e) i, (same i).0), (same i).1))
  kept n c p m rest true e later (Memᴰ.tail t) = Memᴰ.tail (later t)
  kept n c p m rest false e later t = Memᴰ.tail (later t)

  node_chunks-Memᴰ :
      (m : Map ChunkKey ChunkPayload)
      → Memᴰ (coord, payload) (map item (node_chunks node m))
      → Memᴰ ((node, coord), payload) m
  node_chunks-Memᴰ [] t = elim t [ ]
  node_chunks-Memᴰ (((n, c), p) ∷ m) t =
      kept n c p m (node_chunks node m) (n == node) refl (node_chunks-Memᴰ m) t

found-some : (o : Option ChunkPayload) (p : ChunkPayload) → (found o ≡ ok p) ↔ (o ≡ some p)
found-some none p = ground arith
found-some (some q) p = ground arith

-- On a manifest that is built from chunks, for a node with a chunk that can be read: `Manifest::iter`
-- yields coordinates and a payload exactly if `get_chunk_payload` reads that payload at those
-- coordinates.
pub manifest_iter-get_chunk_payload :
    (l : List ChunkInfo) (node : NodeId) (first coord : ChunkIndices) (known payload : ChunkPayload)
    → get_chunk_payload (from_chunks l) node first ≡ ok known
    → Memᴰ (coord, payload) (manifest_iter (from_chunks l) node)
      ↔ (get_chunk_payload (from_chunks l) node coord ≡ ok payload)
unfolding get_chunk_payload
manifest_iter-get_chunk_payload l node first coord known payload has =
    let m = (from_chunks l).chunks in
    let sorted = from_chunks-Sorted l in
    let there =
      Memᴰ-node_chunks node first known m
        (get-Memᴰ m (node, first) known ((found-some (get m (node, first)) known).0 has)) in
    let walk =
      manifest_iter-node_chunks (from_chunks l) node sorted
        (λ empty. Memᴰ.not-nil (subst (λ c. Memᴰ (first, known) (map item c)) empty there)) in
    (
      (λ t. (found-some (get m (node, coord)) payload).1 (
          Memᴰ-get m (node, coord) payload sorted
            (node_chunks-Memᴰ node coord payload m (subst (λ c. Memᴰ (coord, payload) c) walk t)))),
      (λ h.
          subst (λ c. Memᴰ (coord, payload) c) (sym walk)
            (Memᴰ-node_chunks node coord payload m
              (get-Memᴰ m (node, coord) payload ((found-some (get m (node, coord)) payload).0 h)))),
    )
