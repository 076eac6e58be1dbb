-- ===== src/Storage/Caching/Refinement.antt =====
-- A cached store answers as its backend does.
use icechunk.Prelude.{
  ℕ, ◌≡◌, refl, ap, sym, ◌∙◌, inl, inr, Option, none, some, List, [], ◌∷◌, ok, err, arith, Eq,
  nat_eq, list_eq, pair_eq,
}
use mathlib.Core.Path.{subst}
use icechunk.Format.{External, SnapshotId, ManifestId, ChunkId, Bytes}
use icechunk.Format.ByteRanges.{ByteRange, byte_range_eq}
use icechunk.Manifest.{Manifest}
use icechunk.Snapshot.{Snapshot}
use icechunk.Storage.{Storage, StorageResult}
use icechunk.TransactionLog.{TransactionLog}
use icechunk.Storage.Caching.{
  CachePackage, fetch_cached, after_miss, hit_or, insert_written, MemCachingStorage, new, Call,
  Answer, run_backend, run,
}

module _ ⦃P : CachePackage⦄ {K V : Type 0} ⦃e : Eq K⦄ where
  open P use {Cache, lookup, after_lookup, insert}

  -- What a cache holds is what the backend answers.
  abbrev pub Valid : Cache K V → (K → StorageResult V) → Type 0
  Valid c f = (k : K) (v : V) → lookup c k ≡ some v → f k ≡ ok v

  pub new-Valid : (n : ℕ) (f : K → StorageResult V) → Valid (P.new_cache n) f
  new-Valid n f k v e = absurd (none_some (sym (P.lookup_new n k) ∙ e))
    where
      none_some : ◌≡◌ {A = Option V} none (some v) → ⊥
      none_some d = ground (arith, d)

  Valid-after_lookup :
      (c : Cache K V) (f : K → StorageResult V) (k : K) → Valid c f → Valid (after_lookup c k) f
  Valid-after_lookup c f k h k' v e = h k' v (P.lookup_after c k k' v e)

  pub Valid-insert :
      (c : Cache K V) (f : K → StorageResult V) (k : K) (v : V)
      → Valid c f
      → f k ≡ ok v
      → Valid (insert c k v) f
  Valid-insert c f k v h e k' v' held = elim (P.lookup_insert c k k' v v' held) [
    | inl both ↦ sym (ap f both.0) ∙ (e ∙ ap ok both.1)
    | inr before ↦ h k' v' before
  ]

  pub Valid-kept :
      (c : Cache K V) (f f' : K → StorageResult V)
      → Valid c f
      → ((k : K) (v : V) → f k ≡ ok v → f' k ≡ ok v)
      → Valid c f'
  Valid-kept c f f' h kept k v e = kept k v (h k v e)

  after_miss-Valid :
      (c : Cache K V) (f : K → StorageResult V) (k : K) (r : StorageResult V)
      → Valid c f
      → f k ≡ r
      → ((after_miss c k r).0 ≡ r) × Valid (after_miss c k r).1 f
  after_miss-Valid c f k (ok v) h e = (refl, Valid-insert c f k v h e)
  after_miss-Valid c f k (err d) h e = (refl, h)

  hit_or-Valid :
      (c : Cache K V) (f : K → StorageResult V) (k : K) (o : Option V)
      → Valid c f
      → ((v : V) → o ≡ some v → f k ≡ ok v)
      → ((hit_or c k (f k) o).0 ≡ f k) × Valid (hit_or c k (f k) o).1 f
  hit_or-Valid c f k none h held = after_miss-Valid c f k (f k) h refl
  hit_or-Valid c f k (some v) h held = (sym (held v refl), h)

  pub fetch_cached-Valid :
      (c : Cache K V) (f : K → StorageResult V) (k : K)
      → Valid c f
      → ((fetch_cached c k (f k)).0 ≡ f k) × Valid (fetch_cached c k (f k)).1 f
  unfolding fetch_cached
  fetch_cached-Valid c f k h =
      hit_or-Valid (after_lookup c k) f k (lookup c k) (Valid-after_lookup c f k h) (h k)

  pub insert_written-Valid :
      (c : Cache K V) (f : K → StorageResult V) (k : K) (v : V) (r : StorageResult (Unit {0}))
      → Valid c f
      → (r ≡ ok tt → f k ≡ ok v)
      → Valid (insert_written c k v r) f
  insert_written-Valid c f k v (ok tt) h e = Valid-insert c f k v h (e refl)
  insert_written-Valid c f k v (err d) h e = h

module _ ⦃E : External⦄ ⦃S : Storage⦄ where
  -- What could be read before can be read after.
  pub record Kept (s s' : S.Store) : Type 0 where
    pub snapshots :
        (id : SnapshotId) (a : Snapshot)
        → S.fetch_snapshot s id ≡ ok a
        → S.fetch_snapshot s' id ≡ ok a
    pub manifests :
        (id : ManifestId) (a : Manifest)
        → S.fetch_manifests s id ≡ ok a
        → S.fetch_manifests s' id ≡ ok a
    pub logs :
        (id : SnapshotId) (a : TransactionLog)
        → S.fetch_transaction_log s id ≡ ok a
        → S.fetch_transaction_log s' id ≡ ok a
    pub chunks :
        (id : ChunkId) (range : ByteRange) (a : Bytes)
        → S.fetch_chunk s id range ≡ ok a
        → S.fetch_chunk s' id range ≡ ok a

  -- What was written can be read.
  pub record ReadsWritten : Type 0 where
    pub snapshot :
        (s : S.Store) (id : SnapshotId) (a : Snapshot)
        → (S.write_snapshot s id a).0 ≡ ok tt
        → S.fetch_snapshot (S.write_snapshot s id a).1 id ≡ ok a
    pub manifest :
        (s : S.Store) (id : ManifestId) (a : Manifest)
        → (S.write_manifests s id a).0 ≡ ok tt
        → S.fetch_manifests (S.write_manifests s id a).1 id ≡ ok a
    pub log :
        (s : S.Store) (id : SnapshotId) (a : TransactionLog)
        → (S.write_transaction_log s id a).0 ≡ ok tt
        → S.fetch_transaction_log (S.write_transaction_log s id a).1 id ≡ ok a

  abbrev pub backend_answers : List Call → S.Store → List Answer
  backend_answers [] s = []
  backend_answers (call ∷ calls) s =
      (run_backend call s).0 ∷ backend_answers calls (run_backend call s).1

  -- No call takes away what could be read, or changes it.
  abbrev pub AllKept : List Call → S.Store → Type 0
  AllKept [] s = Unit
  AllKept (call ∷ calls) s = Kept s (run_backend call s).1 × AllKept calls (run_backend call s).1

module _ ⦃P : CachePackage⦄ ⦃E : External⦄ ⦃S : Storage⦄ where
  pub record Agrees (m : MemCachingStorage) : Type 0 where
    pub snapshots : Valid m.snapshot_cache (S.fetch_snapshot m.backend)
    pub manifests : Valid m.manifest_cache (S.fetch_manifests m.backend)
    pub logs : Valid m.transactions_cache (S.fetch_transaction_log m.backend)
    pub chunks : Valid m.chunk_cache (λ k. S.fetch_chunk m.backend k.0 k.1)

  new-Agrees : (s : S.Store) (n m k l : ℕ) → Agrees (new s n m k l)
  new-Agrees s n m k l = record {
    snapshots = new-Valid n _;
    manifests = new-Valid m _;
    logs = new-Valid k _;
    chunks = new-Valid l _;
  }

  kept-Agrees :
      (m : MemCachingStorage) (s : S.Store)
      → Agrees m
      → Kept m.backend s
      → Agrees (record m { backend = s })
  kept-Agrees m s agrees kept = record {
    snapshots = Valid-kept m.snapshot_cache _ _ agrees.snapshots kept.snapshots;
    manifests = Valid-kept m.manifest_cache _ _ agrees.manifests kept.manifests;
    logs = Valid-kept m.transactions_cache _ _ agrees.logs kept.logs;
    chunks = Valid-kept m.chunk_cache _ _ agrees.chunks λ k a e. kept.chunks k.0 k.1 a e;
  }

  -- What one call must do: answer as the backend does, leave the backend as it does, and stay valid
  abbrev Simulates : Call → MemCachingStorage → Type 0
  Simulates call m =
      ((run call m).0 ≡ (run_backend call m.backend).0)
      × ((MemCachingStorage.backend (run call m).1 ≡ (run_backend call m.backend).1)
          × Agrees (run call m).1)

  run-Simulates :
      (W : ReadsWritten) (call : Call) (m : MemCachingStorage)
      → Agrees m
      → Kept m.backend (run_backend call m.backend).1
      → Simulates call m
  unfolding run run_backend
  run-Simulates W (Call.fetch_snapshot id) m agrees kept =
      let (same, valid) =
        fetch_cached-Valid m.snapshot_cache (S.fetch_snapshot m.backend) id agrees.snapshots in
      (
        ap Answer.a_snapshot same,
        (
          refl,
          record {
            snapshots = valid;
            manifests = agrees.manifests;
            logs = agrees.logs;
            chunks = agrees.chunks;
          },
        ),
      )
  run-Simulates W (Call.fetch_manifests id) m agrees kept =
      let (same, valid) =
        fetch_cached-Valid m.manifest_cache (S.fetch_manifests m.backend) id agrees.manifests in
      (
        ap Answer.a_manifest same,
        (
          refl,
          record {
            snapshots = agrees.snapshots;
            manifests = valid;
            logs = agrees.logs;
            chunks = agrees.chunks;
          },
        ),
      )
  run-Simulates W (Call.fetch_transaction_log id) m agrees kept =
      let (same, valid) =
        fetch_cached-Valid m.transactions_cache (S.fetch_transaction_log m.backend) id
          agrees.logs in
      (
        ap Answer.a_log same,
        (
          refl,
          record {
            snapshots = agrees.snapshots;
            manifests = agrees.manifests;
            logs = valid;
            chunks = agrees.chunks;
          },
        ),
      )
  run-Simulates W (Call.fetch_chunk id range) m agrees kept =
      let (same, valid) =
        fetch_cached-Valid m.chunk_cache (λ k. S.fetch_chunk m.backend k.0 k.1) (id, range)
          agrees.chunks in
      (
        ap Answer.bytes same,
        (
          refl,
          record {
            snapshots = agrees.snapshots;
            manifests = agrees.manifests;
            logs = agrees.logs;
            chunks = valid;
          },
        ),
      )
  run-Simulates W (Call.write_snapshot id a) m agrees kept =
      let after = kept-Agrees m (S.write_snapshot m.backend id a).1 agrees kept in
      let valid =
        insert_written-Valid m.snapshot_cache (S.fetch_snapshot (S.write_snapshot m.backend id a).1)
          id a (S.write_snapshot m.backend id a).0 after.snapshots (W.snapshot m.backend id a) in
      (
        refl,
        (
          refl,
          record {
            snapshots = valid;
            manifests = after.manifests;
            logs = after.logs;
            chunks = after.chunks;
          },
        ),
      )
  run-Simulates W (Call.write_manifests id a) m agrees kept =
      let after = kept-Agrees m (S.write_manifests m.backend id a).1 agrees kept in
      let valid =
        insert_written-Valid m.manifest_cache
          (S.fetch_manifests (S.write_manifests m.backend id a).1) id a
          (S.write_manifests m.backend id a).0 after.manifests (W.manifest m.backend id a) in
      (
        refl,
        (
          refl,
          record {
            snapshots = after.snapshots;
            manifests = valid;
            logs = after.logs;
            chunks = after.chunks;
          },
        ),
      )
  run-Simulates W (Call.write_transaction_log id a) m agrees kept =
      let after = kept-Agrees m (S.write_transaction_log m.backend id a).1 agrees kept in
      let valid =
        insert_written-Valid m.transactions_cache
          (S.fetch_transaction_log (S.write_transaction_log m.backend id a).1) id a
          (S.write_transaction_log m.backend id a).0 after.logs (W.log m.backend id a) in
      (
        refl,
        (
          refl,
          record {
            snapshots = after.snapshots;
            manifests = after.manifests;
            logs = valid;
            chunks = after.chunks;
          },
        ),
      )
  run-Simulates W call m agrees kept =
      (refl, (refl, kept-Agrees m (run_backend call m.backend).1 agrees kept))

  -- The answers to calls, one after the other
  abbrev pub answers : List Call → MemCachingStorage → List Answer
  answers [] m = []
  answers (call ∷ calls) m = (run call m).0 ∷ answers calls (run call m).1

  answers-Agrees :
      (W : ReadsWritten) (calls : List Call) (m : MemCachingStorage) (s : S.Store)
      → m.backend ≡ s
      → Agrees m
      → AllKept calls s
      → answers calls m ≡ backend_answers calls s
  answers-Agrees W [] m s at agrees kept = refl
  answers-Agrees W (call ∷ calls) m s at agrees kept =
      let (same, (backend, after)) =
        run-Simulates W call m agrees
          (subst (λ t. Kept t (run_backend call t).1) (sym at) kept.0) in
      let rest =
        answers-Agrees W calls (run call m).1 (run_backend call s).1
          (backend ∙ ap (λ t. (run_backend call t).1) at) after kept.1 in
      λ i. (same ∙ ap (λ t. (run_backend call t).0) at) i ∷ rest i

  -- For a backend that reads what was written: a new caching store gives to any sequence of calls the
  -- answers that its backend gives, when no call takes away or changes what could be read before.
  pub answers-backend :
      (W : ReadsWritten) (s : S.Store) (n m k l : ℕ) (calls : List Call)
      → AllKept calls s
      → answers calls (new s n m k l) ≡ backend_answers calls s
  answers-backend W s n m k l calls kept =
      answers-Agrees W calls (new s n m k l) s refl (new-Agrees s n m k l) kept
