-- ===== src/Gc.antt =====
-- icechunk/src/ops/gc.rs: garbage collection. The set of ids to keep is marked from the references and
-- the extra roots; then what is listed, old enough and not marked is deleted.
pub mod Marking
pub mod Sweeping
pub mod Reachability
pub mod Safety
use icechunk.Prelude.{
  ℕ, Bool, true, false, not, ◌&&◌, ◌||◌, Option, none, some, List, [], ◌∷◌, ◌++◌, map, nat_eq,
  list_eq, Eq, ltb, Result, ok, err, map_err, map_ok, ◌>>=◌, if◌then◌else◌, filter_map, flat_map,
  contains, unwrap_or,
}
use icechunk.Dict.{set_extend, set_insert}
use icechunk.Format.{External, SnapshotId, ManifestId, ChunkId, DateTime}
use icechunk.Format.Chunks.{ChunkPayload, ChunkRef}
use icechunk.Manifest.{Manifest}
use icechunk.Refs.{Codec, RefError, RefData, list_refs, ref_fetch}
use icechunk.Snapshot.{Snapshot, SnapshotMetadata, ManifestFileInfo, local_ancestry}
use icechunk.Storage.{Storage, StorageError, StorageResult, ListInfo}

pub data Action : Type 0 where
  keep : Action
  delete_if_created_before : DateTime → Action

pub record GcConfig : Type 0 where
  pub extra_roots : List SnapshotId
  pub dangling_chunks : Action
  pub dangling_manifests : Action
  pub dangling_attributes : Action
  pub dangling_transaction_logs : Action
  pub dangling_snapshots : Action

unfoldable pub clean_all : DateTime → DateTime → Option (List SnapshotId) → GcConfig
clean_all chunks_age metadata_age extra_roots = record {
  extra_roots = unwrap_or extra_roots [];
  dangling_chunks = delete_if_created_before chunks_age;
  dangling_manifests = delete_if_created_before metadata_age;
  dangling_attributes = delete_if_created_before metadata_age;
  dangling_transaction_logs = delete_if_created_before metadata_age;
  dangling_snapshots = delete_if_created_before metadata_age;
}

-- `action != Action::Keep`
abbrev pub deletes : Action → Bool
deletes keep = false
deletes (delete_if_created_before _) = true

abbrev pub must_delete : Action → ListInfo → Bool
must_delete keep info = false
must_delete (delete_if_created_before before) info = ltb info.created_at before

module _ (config : GcConfig) where
  unfoldable pub action_needed : Bool
  action_needed =
      deletes config.dangling_chunks
      || (deletes config.dangling_manifests
          || (deletes config.dangling_attributes
              || (deletes config.dangling_transaction_logs || deletes config.dangling_snapshots)))

  abbrev pub deletes_chunks : Bool
  deletes_chunks = deletes config.dangling_chunks

  abbrev pub deletes_manifests : Bool
  deletes_manifests = deletes config.dangling_manifests

  abbrev pub deletes_snapshots : Bool
  deletes_snapshots = deletes config.dangling_snapshots

  abbrev pub must_delete_chunk : ListInfo → Bool
  must_delete_chunk = must_delete config.dangling_chunks

  abbrev pub must_delete_manifest : ListInfo → Bool
  must_delete_manifest = must_delete config.dangling_manifests

  abbrev pub must_delete_snapshot : ListInfo → Bool
  must_delete_snapshot = must_delete config.dangling_snapshots

pub record GcSummary : Type 0 where
  pub chunks_deleted : ℕ
  pub manifests_deleted : ℕ
  pub snapshots_deleted : ℕ
  pub attributes_deleted : ℕ
  pub transaction_logs_deleted : ℕ

abbrev pub no_summary : GcSummary
no_summary = record {
  chunks_deleted = 0;
  manifests_deleted = 0;
  snapshots_deleted = 0;
  attributes_deleted = 0;
  transaction_logs_deleted = 0;
}

pub data GcError : Type 0 where
  ref : RefError → GcError
  storage : StorageError → GcError

abbrev pub GcResult : Type 0 → Type 0
GcResult A = Result GcError A

-- The sets that the marking fills
pub record Marked : Type 0 where
  pub keep_chunks : List ChunkId
  pub keep_manifests : List ManifestId
  pub keep_snapshots : List SnapshotId

abbrev pub nothing_marked : Marked
nothing_marked = record { keep_chunks = []; keep_manifests = []; keep_snapshots = [] }

-- The id of a chunk that has a file
abbrev pub chunk_id : ChunkPayload → Option ChunkId
chunk_id (ChunkPayload.ref chunk_ref) = some chunk_ref.id
chunk_id (ChunkPayload.inline _) = none
chunk_id (ChunkPayload.virtual _) = none

abbrev pub chunk_ids : Manifest → List ChunkId
chunk_ids manifest = filter_map (λ e. chunk_id e.1) manifest.chunks

module _ ⦃E : External⦄ where
  abbrev pub manifest_ids : Snapshot → List ManifestId
  manifest_ids snap = map (λ mf. ManifestFileInfo.id mf) snap.manifest_files

  -- A snapshot and its parents
  abbrev pub with_parents : SnapshotId → Snapshot → List SnapshotId
  with_parents snap_id snap = snap_id ∷ map (λ m. SnapshotMetadata.id m) (local_ancestry snap)

module _ ⦃E : External⦄ ⦃S : Storage⦄ where
  open S use {
    Store, fetch_snapshot, fetch_manifests, list_chunks, list_manifests, list_snapshots,
    delete_chunks, delete_manifests, delete_snapshots,
  }

  -- The loop over the manifest files of a snapshot
  unfoldable pub mark_chunks : Store → List ManifestId → List ChunkId → GcResult (List ChunkId)
  mark_chunks s [] keep_chunks = ok keep_chunks
  mark_chunks s (id ∷ ids) keep_chunks = map_err storage (fetch_manifests s id) >>= λ manifest.
      mark_chunks s ids (set_extend keep_chunks (chunk_ids manifest))

  abbrev pub mark_snapshot : Store → GcConfig → Marked → SnapshotId → Snapshot → GcResult Marked
  mark_snapshot s config marked snap_id snap = do
    chunks ←
        (if deletes_chunks config
          then mark_chunks s (manifest_ids snap) marked.keep_chunks
          else ok marked.keep_chunks)
    ok (record {
      keep_chunks = chunks;
      keep_manifests =
          if deletes_manifests config
          then set_extend marked.keep_manifests (manifest_ids snap)
          else marked.keep_manifests;
      keep_snapshots =
          if deletes_snapshots config
          then set_insert marked.keep_snapshots snap_id
          else marked.keep_snapshots;
    })

  -- The loop over the pointed snapshots
  unfoldable pub mark : Store → GcConfig → List (GcResult SnapshotId) → Marked → GcResult Marked
  unfolding mark_chunks
  mark s config [] marked = ok marked
  mark s config (item ∷ all_snaps) marked = do
    snap_id ← item
    snap ← map_err storage (fetch_snapshot s snap_id)
    marked' ← mark_snapshot s config marked snap_id snap
    mark s config all_snaps marked'

  abbrev pub followed : SnapshotId → StorageResult Snapshot → List (GcResult SnapshotId)
  followed snap_id (err e) = err (storage e) ∷ []
  followed snap_id (ok snap) = map ok (with_parents snap_id snap)

  -- One root of the stream, with its parents
  abbrev pub follow : Store → GcResult SnapshotId → List (GcResult SnapshotId)
  follow s (err e) = err e ∷ []
  follow s (ok snap_id) = followed snap_id (fetch_snapshot s snap_id)

  unfoldable pub follow_all : Store → List (GcResult SnapshotId) → List (GcResult SnapshotId)
  follow_all s roots = flat_map (follow s) roots

module _ ⦃E : External⦄ ⦃S : Storage⦄ ⦃C : Codec⦄ where
  open S use {Store}

  unfoldable pub all_roots : Store → List SnapshotId → GcResult (List (GcResult SnapshotId))
  all_roots s extra_roots = do
    all_refs ← map_err ref (list_refs s)
    ok (
        map (λ r. map_err ref (map_ok RefData.snapshot (ref_fetch r s))) all_refs
        ++ map ok extra_roots)

  unfoldable pub pointed_snapshots : Store → List SnapshotId → GcResult (List (GcResult SnapshotId))
  unfolding all_roots follow_all
  pointed_snapshots s extra_roots = do roots ← all_roots s extra_roots; ok (follow_all s roots)

  abbrev pub marks : Store → GcConfig → GcResult Marked
  marks s config = do
    all_snaps ← pointed_snapshots s config.extra_roots
    mark s config all_snaps nothing_marked
