-- ===== src/Storage/Caching.antt =====
-- `MemCachingStorage` of icechunk/src/storage/caching.rs: a store with caches in front of it. The cache of
-- the package `quick_cache` is a parameter; it may drop any entry at any time.
pub mod Refinement
use icechunk.Prelude.{
  ℕ, ◌≡◌, ◌⊎◌, Bool, Option, none, some, List, ok, err, Str, Eq, nat_eq, list_eq, pair_eq,
}
use icechunk.Format.{External, SnapshotId, ManifestId, ChunkId, Bytes}
use icechunk.Format.ByteRanges.{ByteRange, byte_range_eq}
use icechunk.Manifest.{Manifest}
use icechunk.Snapshot.{Snapshot}
use icechunk.Storage.{Storage, StorageResult, ListInfo}
use icechunk.TransactionLog.{TransactionLog}

-- `quick_cache::sync::Cache`: what is in a cache was inserted before; a look-up may change the order in
-- which entries are dropped.
pub record CachePackage : Type 1 where
  pub Cache : Type 0 → Type 0 → Type 0
  pub new_cache : {K V : Type 0} → ℕ → Cache K V
  pub lookup : {K V : Type 0} ⦃e : Eq K⦄ → Cache K V → K → Option V
  pub after_lookup : {K V : Type 0} ⦃e : Eq K⦄ → Cache K V → K → Cache K V
  pub insert : {K V : Type 0} ⦃e : Eq K⦄ → Cache K V → K → V → Cache K V
  pub lookup_new :
      {K V : Type 0} ⦃e : Eq K⦄ (n : ℕ) (k : K) → ◌≡◌ {A = Option V} (lookup (new_cache n) k) none
  pub lookup_after :
      {K V : Type 0} ⦃e : Eq K⦄ (c : Cache K V) (k k' : K) (v : V)
      → lookup (after_lookup c k) k' ≡ some v
      → lookup c k' ≡ some v
  pub lookup_insert :
      {K V : Type 0} ⦃e : Eq K⦄ (c : Cache K V) (k k' : K) (v v' : V)
      → lookup (insert c k v) k' ≡ some v'
      → ((k ≡ k') × (v ≡ v')) ⊎ (lookup c k' ≡ some v')

module _ ⦃E : External⦄ ⦃S : Storage⦄ where
  -- The methods of the trait `Storage`
  pub data Call : Type 0 where
    fetch_snapshot : SnapshotId → Call
    fetch_manifests : ManifestId → Call
    fetch_transaction_log : SnapshotId → Call
    fetch_chunk : ChunkId → ByteRange → Call
    write_snapshot : SnapshotId → Snapshot → Call
    write_manifests : ManifestId → Manifest → Call
    write_transaction_log : SnapshotId → TransactionLog → Call
    write_chunk : ChunkId → Bytes → Call
    get_ref : Str → Call
    ref_names : Call
    ref_versions : Str → Call
    write_ref : Str → Bool → Bytes → Call
    list_chunks : Call
    list_manifests : Call
    list_snapshots : Call
    delete_chunks : List ChunkId → Call
    delete_manifests : List ManifestId → Call
    delete_snapshots : List SnapshotId → Call

  pub data Answer : Type 0 where
    a_snapshot : StorageResult Snapshot → Answer
    a_manifest : StorageResult Manifest → Answer
    a_log : StorageResult TransactionLog → Answer
    bytes : StorageResult Bytes → Answer
    written : StorageResult Unit → Answer
    names : StorageResult (List Str) → Answer
    versions : StorageResult (List (StorageResult Str)) → Answer
    listing : StorageResult (List (StorageResult ListInfo)) → Answer
    deleted : StorageResult ℕ → Answer

  -- A call of the backend
  unfoldable pub run_backend : Call → S.Store → Answer × S.Store
  run_backend (Call.fetch_snapshot id) s = (a_snapshot (S.fetch_snapshot s id), s)
  run_backend (Call.fetch_manifests id) s = (a_manifest (S.fetch_manifests s id), s)
  run_backend (Call.fetch_transaction_log id) s = (a_log (S.fetch_transaction_log s id), s)
  run_backend (Call.fetch_chunk id range) s = (bytes (S.fetch_chunk s id range), s)
  run_backend (Call.write_snapshot id a) s =
      let (r, s') = S.write_snapshot s id a in (written r, s')
  run_backend (Call.write_manifests id a) s =
      let (r, s') = S.write_manifests s id a in (written r, s')
  run_backend (Call.write_transaction_log id a) s =
      let (r, s') = S.write_transaction_log s id a in (written r, s')
  run_backend (Call.write_chunk id a) s = let (r, s') = S.write_chunk s id a in (written r, s')
  run_backend (Call.get_ref key) s = (bytes (S.get_ref s key), s)
  run_backend Call.ref_names s = (names (S.ref_names s), s)
  run_backend (Call.ref_versions name) s = (versions (S.ref_versions s name), s)
  run_backend (Call.write_ref key overwrite a) s =
      let (r, s') = S.write_ref s key overwrite a in (written r, s')
  run_backend Call.list_chunks s = (listing (S.list_chunks s), s)
  run_backend Call.list_manifests s = (listing (S.list_manifests s), s)
  run_backend Call.list_snapshots s = (listing (S.list_snapshots s), s)
  run_backend (Call.delete_chunks ids) s = let (r, s') = S.delete_chunks s ids in (deleted r, s')
  run_backend (Call.delete_manifests ids) s =
      let (r, s') = S.delete_manifests s ids in (deleted r, s')
  run_backend (Call.delete_snapshots ids) s =
      let (r, s') = S.delete_snapshots s ids in (deleted r, s')

module _ ⦃P : CachePackage⦄ where
  open P use {Cache, new_cache, lookup, after_lookup, insert}

  -- `get_value_or_guard_async`, and the insertion when the backend answers
  abbrev pub after_miss :
      {K V : Type 0} ⦃e : Eq K⦄ → Cache K V → K → StorageResult V → StorageResult V × Cache K V
  after_miss c k (ok v) = (ok v, insert c k v)
  after_miss c k (err e) = (err e, c)

  abbrev pub hit_or :
      {K V : Type 0} ⦃e : Eq K⦄
      → Cache K V
      → K
      → StorageResult V
      → Option V
      → StorageResult V × Cache K V
  hit_or c k answer (some v) = (ok v, c)
  hit_or c k answer none = after_miss c k answer

  unfoldable pub fetch_cached :
      {K V : Type 0} ⦃e : Eq K⦄ → Cache K V → K → StorageResult V → StorageResult V × Cache K V
  fetch_cached c k answer = hit_or (after_lookup c k) k answer (lookup c k)

  -- An entry for what the backend has written
  abbrev pub insert_written :
      {K V : Type 0} ⦃e : Eq K⦄ → Cache K V → K → V → StorageResult (Unit {0}) → Cache K V
  insert_written c k v (ok _) = insert c k v
  insert_written c k v (err _) = c

module _ ⦃P : CachePackage⦄ ⦃E : External⦄ ⦃S : Storage⦄ where
  open P use {Cache, new_cache}

  -- The cache of the attribute files, which nothing uses, is left out.
  pub record MemCachingStorage : Type 0 where
    pub backend : S.Store
    pub snapshot_cache : Cache SnapshotId Snapshot
    pub manifest_cache : Cache ManifestId Manifest
    pub transactions_cache : Cache SnapshotId TransactionLog
    pub chunk_cache : Cache (ChunkId × ByteRange) Bytes

  abbrev pub new : S.Store → ℕ → ℕ → ℕ → ℕ → MemCachingStorage
  new backend num_snapshots num_manifests num_transactions num_chunks = record {
    backend = backend;
    snapshot_cache = new_cache num_snapshots;
    manifest_cache = new_cache num_manifests;
    transactions_cache = new_cache num_transactions;
    chunk_cache = new_cache num_chunks;
  }

  -- `Repository::add_in_mem_asset_caching`
  abbrev pub add_in_mem_asset_caching : S.Store → MemCachingStorage
  add_in_mem_asset_caching storage = new storage 2 2 0 0

  -- A call that the caches have no part in
  abbrev pub through : Call → MemCachingStorage → Answer × MemCachingStorage
  through call m = let (a, s) = run_backend call m.backend in (a, record m { backend = s })

  -- A call of `MemCachingStorage`
  unfoldable pub run : Call → MemCachingStorage → Answer × MemCachingStorage
  unfolding run_backend fetch_cached
  run (Call.fetch_snapshot id) m =
      let (r, c) = fetch_cached m.snapshot_cache id (S.fetch_snapshot m.backend id) in
      (a_snapshot r, record m { snapshot_cache = c })
  run (Call.fetch_manifests id) m =
      let (r, c) = fetch_cached m.manifest_cache id (S.fetch_manifests m.backend id) in
      (a_manifest r, record m { manifest_cache = c })
  run (Call.fetch_transaction_log id) m =
      let (r, c) = fetch_cached m.transactions_cache id (S.fetch_transaction_log m.backend id) in
      (a_log r, record m { transactions_cache = c })
  run (Call.fetch_chunk id range) m =
      let (r, c) = fetch_cached m.chunk_cache (id, range) (S.fetch_chunk m.backend id range) in
      (bytes r, record m { chunk_cache = c })
  run (Call.write_snapshot id a) m =
      let (r, s) = S.write_snapshot m.backend id a in
      (written r, record m { backend = s; snapshot_cache = insert_written m.snapshot_cache id a r })
  run (Call.write_manifests id a) m =
      let (r, s) = S.write_manifests m.backend id a in
      (written r, record m { backend = s; manifest_cache = insert_written m.manifest_cache id a r })
  run (Call.write_transaction_log id a) m =
      let (r, s) = S.write_transaction_log m.backend id a in
      (
        written r,
        record m { backend = s; transactions_cache = insert_written m.transactions_cache id a r },
      )
  run call m = through call m
