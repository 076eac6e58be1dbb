-- ===== src/Tests/Collecting.antt =====
-- Garbage collection of a store with one snapshot to keep, its manifest and its chunk, and one snapshot
-- that nothing leads to.
use icechunk.Prelude.{◌≡◌, refl, some, [], ◌∷◌}
use mathlib.Core.List.Memᴰ
use icechunk.Format.{SnapshotId, ManifestId, ChunkId}
use icechunk.Format.ByteRanges.{all}
use icechunk.Format.Chunks.{ChunkPayload}
use icechunk.Gc.{GcConfig, clean_all}
use icechunk.Gc.Reachability.{Reachable, Root}
use icechunk.Gc.Safety.{
  fetch_snapshot-garbage_collect, fetch_manifests-garbage_collect, fetch_chunk-garbage_collect,
}
use icechunk.Gc.Sweeping.{garbage_collect}
use icechunk.Manifest.{Manifest}
use icechunk.Snapshot.{Snapshot}
use icechunk.Storage.{Storage}
use icechunk.Tests.Formats.{first_snapshot}
use icechunk.Tests.Packages.{test_external, test_codec, test_storage, test_deletes, TestStore}
use icechunk.Tests.Sessions.{no_files}

abbrev kept_id : SnapshotId
kept_id = 1 ∷ []

abbrev manifest_id : ManifestId
manifest_id = 3 ∷ []

abbrev chunk_id : ChunkId
chunk_id = 4 ∷ []

abbrev snapshot : Snapshot
snapshot = record first_snapshot {
  manifest_files = record { id = manifest_id; format_version = 0 } ∷ [];
}

abbrev manifest : Manifest
manifest = record {
  format_version = 0;
  chunks =
      ((2 ∷ [], 0 ∷ []), ChunkPayload.ref (record { id = chunk_id; offset = 0; length = 2 })) ∷ [];
}

abbrev store : TestStore
store = record no_files {
  snapshots = λ id. some snapshot;
  manifests = λ id. some manifest;
  chunks = λ id. some (8 ∷ 9 ∷ []);
  snapshot_infos =
      record { id = 2 ∷ []; created_at = 1 } ∷ record { id = kept_id; created_at = 1 } ∷ [];
  manifest_infos = record { id = manifest_id; created_at = 1 } ∷ [];
  chunk_infos =
      record { id = chunk_id; created_at = 1 } ∷ record { id = 6 ∷ []; created_at = 1 } ∷ [];
}

-- All that is older than 5 goes, but for what snapshot 1 leads to.
abbrev config : GcConfig
unfolding clean_all
config = clean_all 5 5 (some (kept_id ∷ []))

root : Reachable store (kept_id ∷ []) kept_id
root = Reachable.from kept_id snapshot (Root.extra (Memᴰ.head refl)) refl (Memᴰ.head refl)

fetch_snapshot-garbage_collect_example :
    Storage.fetch_snapshot test_storage (garbage_collect config store).1 kept_id
    ≡ Storage.fetch_snapshot test_storage store kept_id
unfolding clean_all
fetch_snapshot-garbage_collect_example =
    fetch_snapshot-garbage_collect test_deletes config store kept_id root

fetch_manifests-garbage_collect_example :
    Storage.fetch_manifests test_storage (garbage_collect config store).1 manifest_id
    ≡ Storage.fetch_manifests test_storage store manifest_id
unfolding clean_all
fetch_manifests-garbage_collect_example =
    fetch_manifests-garbage_collect test_deletes config store kept_id snapshot manifest_id root refl
      refl

fetch_chunk-garbage_collect_example :
    Storage.fetch_chunk test_storage (garbage_collect config store).1 chunk_id all
    ≡ Storage.fetch_chunk test_storage store chunk_id all
unfolding clean_all
fetch_chunk-garbage_collect_example =
    fetch_chunk-garbage_collect test_deletes config store kept_id snapshot manifest_id manifest
      chunk_id all root refl refl refl refl
