-- ===== src/Gc/Safety.antt =====
-- Garbage collection (icechunk/src/ops/gc.rs) deletes nothing that a reference leads to.
use icechunk.Prelude.{
  ℕ, ◌≡◌, refl, ◌∙◌, Bool, true, false, List, [], ◌∷◌, arith, nat_eq, list_eq, list_beq_iff, ok,
  err, map_err, if◌then◌else◌, filter_map, contains, bind-ok,
}
use icechunk.Exec.{Exec, pure, reading, writing, ◌>>=◌}
use icechunk.Exec.Keeps.{Keeps, bind-Keeps}
use icechunk.Format.{External, SnapshotId, ManifestId, ChunkId}
use icechunk.Format.ByteRanges.{ByteRange}
use icechunk.Manifest.{Manifest}
use icechunk.Refs.{Codec}
use icechunk.Snapshot.{Snapshot}
use icechunk.Storage.{Storage, StorageResult, ListInfo}
use icechunk.Storage.Deletion.{DeletesOnly}
use icechunk.Gc.{
  GcConfig, GcError, GcResult, GcSummary, no_summary, Marked, nothing_marked, deletes_chunks,
  deletes_manifests, deletes_snapshots, must_delete_chunk, must_delete_manifest,
  must_delete_snapshot, manifest_ids, chunk_ids, action_needed, marks, mark, pointed_snapshots,
}
use icechunk.Gc.Marking.{mark-Passed, Passed-snapshot, Passed-manifest, Passed-chunk}
use icechunk.Gc.Reachability.{Reachable, reachable_listed}
use icechunk.Gc.Sweeping.{
  doomed, swept, sweep_if, summary, sweep, gc_chunks, gc_manifests, gc_snapshots, swept_if_marked,
  garbage_collect,
}

-- What is kept is not deleted.
contains-doomed :
    (must_go : ListInfo → Bool) (keep_ids : List (List ℕ)) (items : List (StorageResult ListInfo))
    (id : List ℕ)
    → contains keep_ids id ≡ true
    → contains (filter_map (doomed must_go keep_ids) items) id ≡ false
contains-doomed must_go keep_ids [] id h = refl
contains-doomed must_go keep_ids (err e ∷ items) id h = contains-doomed must_go keep_ids items id h
contains-doomed must_go keep_ids (ok info ∷ items) id h =
    ground (arith, contains-doomed must_go keep_ids items id h, h, list_beq_iff info.id id)

module _ ⦃E : External⦄ ⦃S : Storage⦄ (P : S.Store → Type 0) where
  open S use {Store}

  swept-Keeps :
      (listing : Store → StorageResult (List (StorageResult ListInfo)))
      (delete : Store → List (List ℕ) → StorageResult ℕ × Store) (must_go : ListInfo → Bool)
      (keep_ids : List (List ℕ))
      → ((s : Store) (items : List (StorageResult ListInfo))
          → P s
          → P (delete s (filter_map (doomed must_go keep_ids) items)).1)
      → Keeps P (swept listing delete must_go keep_ids)
  swept-Keeps listing delete must_go keep_ids k =
      bind-Keeps P (reading (λ s. map_err GcError.storage (listing s)))
        (λ items.
          writing GcError.storage (λ s. delete s (filter_map (doomed must_go keep_ids) items)))
        (λ s h. h) (λ items s h. k s items h)

  sweep_if-Keeps :
      (b : Bool) (gc : Exec Store GcError ℕ) → (b ≡ true → Keeps P gc) → Keeps P (sweep_if b gc)
  sweep_if-Keeps true gc k = k refl
  sweep_if-Keeps false gc k = λ s h. h

  sweep-Keeps :
      (config : GcConfig) (marked : Marked)
      → (deletes_snapshots config ≡ true → Keeps P (gc_snapshots config marked.keep_snapshots))
      → (deletes_manifests config ≡ true → Keeps P (gc_manifests config marked.keep_manifests))
      → (deletes_chunks config ≡ true → Keeps P (gc_chunks config marked.keep_chunks))
      → Keeps P (sweep config marked)
  unfolding sweep
  sweep-Keeps config marked ks km kc =
      let chunks = sweep_if (deletes_chunks config) (gc_chunks config marked.keep_chunks) in
      let manifests =
        sweep_if (deletes_manifests config) (gc_manifests config marked.keep_manifests) in
      bind-Keeps P (sweep_if (deletes_snapshots config) (gc_snapshots config marked.keep_snapshots))
        (λ a. manifests >>= λ b. chunks >>= λ c. pure (summary a b c))
        (sweep_if-Keeps (deletes_snapshots config) (gc_snapshots config marked.keep_snapshots) ks)
        (λ a.
          bind-Keeps P manifests (λ b. chunks >>= λ c. pure (summary a b c))
            (sweep_if-Keeps (deletes_manifests config) (gc_manifests config marked.keep_manifests)
              km)
            (λ b.
              bind-Keeps P chunks (λ c. pure (summary a b c))
                (sweep_if-Keeps (deletes_chunks config) (gc_chunks config marked.keep_chunks) kc)
                (λ c s h. h)))

module _ ⦃E : External⦄ ⦃S : Storage⦄ ⦃C : Codec⦄ (D : DeletesOnly) (config : GcConfig)
    (s : S.Store) where
  open S use {
    fetch_snapshot, fetch_manifests, fetch_chunk, delete_snapshots, delete_manifests, delete_chunks,
  }

  -- The store after garbage collection
  abbrev pub collected : S.Store
  collected = (garbage_collect config s).1

  -- What the marking phase goes over, and what it marks
  record Marks (marked : Marked) : Type 0 where
    items : List (GcResult SnapshotId)
    listed : pointed_snapshots s config.extra_roots ≡ ok items
    passed : mark s config items nothing_marked ≡ ok marked

  marks-Marks : (marked : Marked) → marks s config ≡ ok marked → Marks marked
  marks-Marks marked h =
      let (items, (listed, passed)) =
        bind-ok (pointed_snapshots s config.extra_roots)
          (λ items. mark s config items nothing_marked) marked h in
      record { items = items; listed = listed; passed = passed }

  swept_if_marked-Keeps :
      (P : S.Store → Type 0) (r : GcResult Marked)
      → marks s config ≡ r
      → ((marked : Marked) → Marks marked → Keeps P (sweep config marked))
      → P s
      → P (swept_if_marked config r s).1
  swept_if_marked-Keeps P (err e) h k p = p
  swept_if_marked-Keeps P (ok marked) h k p = k marked (marks-Marks marked h) s p

  if_needed-Keeps :
      (P : S.Store → Type 0) (b : Bool) (r : GcResult GcSummary × S.Store)
      → P r.1
      → P s
      → P (if b then r else (ok no_summary, s)).1
  if_needed-Keeps P true r k p = k
  if_needed-Keeps P false r k p = p

  collected-Keeps :
      (P : S.Store → Type 0)
      → ((marked : Marked) → Marks marked → Keeps P (sweep config marked))
      → P s
      → P collected
  unfolding garbage_collect
  collected-Keeps P k p =
      if_needed-Keeps P (action_needed config) (swept_if_marked config (marks s config) s)
        (swept_if_marked-Keeps P (marks s config) refl k p) p

  -- Whatever its configuration, and whether it succeeds or fails, garbage collection leaves every
  -- snapshot as it was that a tag, a branch or an extra root leads to.
  pub fetch_snapshot-garbage_collect :
      (id : SnapshotId)
      → Reachable s config.extra_roots id
      → fetch_snapshot collected id ≡ fetch_snapshot s id
  unfolding gc_snapshots gc_manifests gc_chunks
  fetch_snapshot-garbage_collect id reachable =
      let P : S.Store → Type 0 = λ s'. fetch_snapshot s' id ≡ fetch_snapshot s id in
      collected-Keeps P
        (λ marked m.
          sweep-Keeps P config marked
            (λ on.
              swept-Keeps P S.list_snapshots delete_snapshots (must_delete_snapshot config)
                marked.keep_snapshots
                (λ s' items h.
                  D.snapshot_kept s'
                    (filter_map (doomed (must_delete_snapshot config) marked.keep_snapshots) items)
                    id
                    (contains-doomed (must_delete_snapshot config) marked.keep_snapshots items id (
                      Passed-snapshot s config m.items nothing_marked marked id on
                        (mark-Passed s config m.items nothing_marked marked m.passed)
                        (reachable_listed s config.extra_roots id m.items m.listed reachable)))
                  ∙ h))
            (λ on.
              swept-Keeps P S.list_manifests delete_manifests (must_delete_manifest config)
                marked.keep_manifests (λ s' items h. D.snapshot_beside_manifests s' _ id ∙ h))
            (λ on.
              swept-Keeps P S.list_chunks delete_chunks (must_delete_chunk config)
                marked.keep_chunks (λ s' items h. D.snapshot_beside_chunks s' _ id ∙ h)))
        refl

  -- Whatever its configuration, and whether it succeeds or fails, garbage collection leaves every
  -- manifest as it was that a reachable snapshot names among its files.
  pub fetch_manifests-garbage_collect :
      (id : SnapshotId) (snap : Snapshot) (mid : ManifestId)
      → Reachable s config.extra_roots id
      → fetch_snapshot s id ≡ ok snap
      → contains (manifest_ids snap) mid ≡ true
      → fetch_manifests collected mid ≡ fetch_manifests s mid
  unfolding gc_snapshots gc_manifests gc_chunks
  fetch_manifests-garbage_collect id snap mid reachable read there =
      let P : S.Store → Type 0 = λ s'. fetch_manifests s' mid ≡ fetch_manifests s mid in
      collected-Keeps P
        (λ marked m.
          sweep-Keeps P config marked
            (λ on.
              swept-Keeps P S.list_snapshots delete_snapshots (must_delete_snapshot config)
                marked.keep_snapshots (λ s' items h. D.manifest_beside_snapshots s' _ mid ∙ h))
            (λ on.
              swept-Keeps P S.list_manifests delete_manifests (must_delete_manifest config)
                marked.keep_manifests
                (λ s' items h.
                  D.manifest_kept s'
                    (filter_map (doomed (must_delete_manifest config) marked.keep_manifests) items)
                    mid
                    (contains-doomed (must_delete_manifest config) marked.keep_manifests items mid (
                      Passed-manifest s config m.items nothing_marked marked id snap mid on
                        (mark-Passed s config m.items nothing_marked marked m.passed)
                        (reachable_listed s config.extra_roots id m.items m.listed reachable) read
                        there))
                  ∙ h))
            (λ on.
              swept-Keeps P S.list_chunks delete_chunks (must_delete_chunk config)
                marked.keep_chunks (λ s' items h. D.manifest_beside_chunks s' _ mid ∙ h)))
        refl

  -- Whatever its configuration, and whether it succeeds or fails, garbage collection leaves every
  -- chunk file as it was that a manifest of a reachable snapshot refers to.
  pub fetch_chunk-garbage_collect :
      (id : SnapshotId) (snap : Snapshot) (mid : ManifestId) (manifest : Manifest) (c : ChunkId)
      (range : ByteRange)
      → Reachable s config.extra_roots id
      → fetch_snapshot s id ≡ ok snap
      → contains (manifest_ids snap) mid ≡ true
      → fetch_manifests s mid ≡ ok manifest
      → contains (chunk_ids manifest) c ≡ true
      → fetch_chunk collected c range ≡ fetch_chunk s c range
  unfolding gc_snapshots gc_manifests gc_chunks
  fetch_chunk-garbage_collect id snap mid manifest c range reachable read there found chunk =
      let P : S.Store → Type 0 = λ s'. fetch_chunk s' c range ≡ fetch_chunk s c range in
      collected-Keeps P
        (λ marked m.
          sweep-Keeps P config marked
            (λ on.
              swept-Keeps P S.list_snapshots delete_snapshots (must_delete_snapshot config)
                marked.keep_snapshots (λ s' items h. D.chunk_beside_snapshots s' _ c range ∙ h))
            (λ on.
              swept-Keeps P S.list_manifests delete_manifests (must_delete_manifest config)
                marked.keep_manifests (λ s' items h. D.chunk_beside_manifests s' _ c range ∙ h))
            (λ on.
              swept-Keeps P S.list_chunks delete_chunks (must_delete_chunk config)
                marked.keep_chunks
                (λ s' items h.
                  D.chunk_kept s'
                    (filter_map (doomed (must_delete_chunk config) marked.keep_chunks) items) c
                    range
                    (contains-doomed (must_delete_chunk config) marked.keep_chunks items c (
                      Passed-chunk s config m.items nothing_marked marked id snap mid manifest c on
                        (mark-Passed s config m.items nothing_marked marked m.passed)
                        (reachable_listed s config.extra_roots id m.items m.listed reachable) read
                        there found chunk))
                  ∙ h)))
        refl
