-- ===== src/Gc/Sweeping.antt =====
-- The second half of icechunk/src/ops/gc.rs: what is not marked is deleted.
use icechunk.Prelude.{
  ℕ, Bool, true, false, not, ◌&&◌, Option, none, some, List, nat_eq, list_eq, ok, err, map_err,
  if◌then◌else◌, filter_map, contains,
}
use icechunk.Exec.{Exec, pure, reading, writing, ◌>>=◌}
use icechunk.Format.{External, SnapshotId, ManifestId, ChunkId}
use icechunk.Refs.{Codec}
use icechunk.Storage.{Storage, StorageResult, ListInfo}
use icechunk.Gc.{
  GcConfig, GcError, GcResult, GcSummary, no_summary, storage, Marked, action_needed,
  deletes_chunks, deletes_manifests, deletes_snapshots, must_delete_chunk, must_delete_manifest,
  must_delete_snapshot, marks, mark,
}

-- What is listed without an error, must be deleted and is not kept
abbrev pub doomed : (ListInfo → Bool) → List (List ℕ) → StorageResult ListInfo → Option (List ℕ)
doomed must_go keep_ids (err e) = none
doomed must_go keep_ids (ok info) =
    if must_go info && not (contains keep_ids info.id) then some info.id else none

module _ ⦃E : External⦄ ⦃S : Storage⦄ where
  open S use {
    Store, list_chunks, list_manifests, list_snapshots, delete_chunks, delete_manifests,
    delete_snapshots,
  }

  abbrev pub swept :
      (Store → StorageResult (List (StorageResult ListInfo)))
      → (Store → List (List ℕ) → StorageResult ℕ × Store)
      → (ListInfo → Bool)
      → List (List ℕ)
      → Exec Store GcError ℕ
  swept listing delete must_go keep_ids = do
    items ← reading (λ s. map_err storage (listing s))
    writing storage (λ s. delete s (filter_map (doomed must_go keep_ids) items))

  unfoldable pub gc_chunks : GcConfig → List ChunkId → Exec Store GcError ℕ
  gc_chunks config keep_ids = swept list_chunks delete_chunks (must_delete_chunk config) keep_ids

  unfoldable pub gc_manifests : GcConfig → List ManifestId → Exec Store GcError ℕ
  gc_manifests config keep_ids =
      swept list_manifests delete_manifests (must_delete_manifest config) keep_ids

  unfoldable pub gc_snapshots : GcConfig → List SnapshotId → Exec Store GcError ℕ
  gc_snapshots config keep_ids =
      swept list_snapshots delete_snapshots (must_delete_snapshot config) keep_ids

  abbrev pub sweep_if : Bool → Exec Store GcError ℕ → Exec Store GcError ℕ
  sweep_if true gc = gc
  sweep_if false gc = pure 0

  abbrev pub summary : ℕ → ℕ → ℕ → GcSummary
  summary snapshots manifests chunks = record no_summary {
    snapshots_deleted = snapshots;
    manifests_deleted = manifests;
    chunks_deleted = chunks;
  }

  unfoldable pub sweep : GcConfig → Marked → Exec Store GcError GcSummary
  unfolding gc_chunks gc_manifests gc_snapshots
  sweep config marked = do
    snapshots ← sweep_if (deletes_snapshots config) (gc_snapshots config marked.keep_snapshots)
    manifests ← sweep_if (deletes_manifests config) (gc_manifests config marked.keep_manifests)
    chunks ← sweep_if (deletes_chunks config) (gc_chunks config marked.keep_chunks)
    pure (summary snapshots manifests chunks)

module _ ⦃E : External⦄ ⦃S : Storage⦄ ⦃C : Codec⦄ where
  open S use {Store}

  abbrev pub swept_if_marked : GcConfig → GcResult Marked → Exec Store GcError GcSummary
  swept_if_marked config (err e) s = (err e, s)
  swept_if_marked config (ok marked) s = sweep config marked s

  unfoldable pub garbage_collect : GcConfig → Exec Store GcError GcSummary
  unfolding mark sweep action_needed
  garbage_collect config s =
      if action_needed config then swept_if_marked config (marks s config) s else (ok no_summary, s)
