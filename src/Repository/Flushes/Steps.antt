-- ===== src/Repository/Flushes/Steps.antt =====
-- The steps of `flush_changes`, when each of them succeeds.
use icechunk.Prelude.{
  ℕ, zero, suc, ◌≡◌, refl, ap, sym, ◌∙◌, ◌⊎◌, inl, inr, Option, none, some, List, [], ◌∷◌, map,
  arith, ok, map_err, map_err-ok, map_ok, Str, length,
}
use icechunk.Exec.{pure, reading, writing, lift, ◌>>=◌, ◌>>◌}
use icechunk.Exec.Runs.{proceed-ok}
use icechunk.Format.{External, NodePath, SnapshotId, ManifestId}
use icechunk.Format.Chunks.{ChunkInfo}
use icechunk.Format.Nodes.{NodeSnapshot}
use icechunk.Manifest.{Manifest, from_stream, manifest_len}
use icechunk.Snapshot.{Snapshot, SnapshotProperties, from_iter, local_ancestry, snapshot_iter}
use icechunk.Storage.{Storage}
use icechunk.Storage.Caching.Refinement.{ReadsWritten}
use icechunk.Storage.SessionWrites.{WritesApart}
use icechunk.TransactionLog.{TransactionLog, new_transaction_log}
use icechunk.Repository.{Repository, RepositoryResult, storage_error}
use icechunk.Repository.Listing.{all_chunks, updated_nodes}
use icechunk.Repository.Committing.{
  Fresh, Commit, flush_changes, write_manifest_if_any, make_snapshot,
}
use icechunk.Repository.Flushes.Records.{Stored, Recorded}

module _ ⦃E : External⦄ ⦃S : Storage⦄ where
  open S use {
    Store, fetch_snapshot, fetch_manifests, fetch_transaction_log, write_manifests, write_snapshot,
    write_transaction_log,
  }

  -- The writing of a manifest, when it succeeds
  abbrev Wrote : Store → ManifestId → Manifest → Option ManifestId → Store → Type 0
  Wrote s id manifest written after =
      ((manifest.chunks ≡ []) × ((written ≡ none) × (after ≡ s)))
      ⊎ (((write_manifests s id manifest).0 ≡ ok tt)
          × ((written ≡ some id) × (after ≡ (write_manifests s id manifest).1)))

  no_entry : {A : Type 0} (m : List A) → length m ≡ 0 → m ≡ []
  no_entry [] h = refl
  no_entry (x ∷ m) h = ground (arith, h)

  Wrote-by_length :
      (s after : Store) (id : ManifestId) (manifest : Manifest) (written : Option ManifestId)
      (n : ℕ)
      → length manifest.chunks ≡ n
      → (let m : Commit (Option ManifestId) = elim n [
        | zero ↦ pure none
        | suc _ ↦ writing storage_error (λ s. write_manifests s id manifest) >> pure (some id)
      ] in
          m s)
        ≡ (ok written, after)
      → Wrote s id manifest written after
  Wrote-by_length s after id manifest written zero e h =
      inl (no_entry manifest.chunks e, (ground (arith, h), ground (arith, h)))
  Wrote-by_length s after id manifest written (suc k) n h =
      let (u, (done, e)) =
        proceed-ok (map_err storage_error (write_manifests s id manifest).0) (λ _. pure (some id))
          (write_manifests s id manifest).1 after written h in
      inr (
        map_err-ok storage_error (write_manifests s id manifest).0 tt done,
        (ground (arith, e), ground (arith, e)),
      )

  write_manifest_if_any-Wrote :
      (s after : Store) (id : ManifestId) (manifest : Manifest) (written : Option ManifestId)
      → write_manifest_if_any id manifest s ≡ (ok written, after)
      → Wrote s id manifest written after
  unfolding write_manifest_if_any manifest_len
  write_manifest_if_any-Wrote s after id manifest written h =
      Wrote-by_length s after id manifest written (length manifest.chunks) refl h

  module _ (W : ReadsWritten) (A : WritesApart) (fresh : Fresh) (repo : Repository) (message : Str)
      (properties : SnapshotProperties) (id : SnapshotId) (after : Store) where
    -- The rest of `flush_changes` from each of its steps on
    abbrev log_of : Snapshot → Snapshot → TransactionLog
    log_of old new = new_transaction_log repo.change_set (snapshot_iter old) (snapshot_iter new)

    abbrev write_log : Snapshot → Snapshot → Commit SnapshotId
    write_log old new =
        writing storage_error (λ s. write_transaction_log s new.metadata.id (log_of old new))
        >> pure new.metadata.id

    abbrev write_both : Snapshot → Snapshot → Commit SnapshotId
    write_both old new =
        writing storage_error (λ s. write_snapshot s new.metadata.id new) >> write_log old new

    abbrev made : Manifest → Option ManifestId → List NodeSnapshot → Snapshot → Snapshot
    made manifest mid nodes old = make_snapshot fresh message properties old manifest mid nodes

    abbrev with_nodes : Manifest → Option ManifestId → List NodeSnapshot → Commit SnapshotId
    with_nodes manifest mid nodes =
        reading (λ s. map_err storage_error (fetch_snapshot s repo.snapshot_id)) >>= λ old.
        write_both old (made manifest mid nodes old)

    abbrev with_manifest : Manifest → Option ManifestId → Commit SnapshotId
    with_manifest manifest mid =
        reading (λ s. updated_nodes s repo.change_set repo.snapshot_id mid)
        >>= with_nodes manifest mid

    abbrev with_collected : Manifest → Commit SnapshotId
    with_collected manifest =
        write_manifest_if_any fresh.manifest_id manifest >>= with_manifest manifest

    abbrev with_chunks : List (RepositoryResult (NodePath × ChunkInfo)) → Commit SnapshotId
    with_chunks chunks = lift (from_stream (map (map_ok (λ e. e.1)) chunks)) >>= with_collected

    -- Both writes at the end
    Both : Store → Snapshot → Snapshot → Type 0
    Both s old new =
        (id ≡ new.metadata.id)
        × ((fetch_snapshot after new.metadata.id ≡ ok new)
            × ((fetch_transaction_log after new.metadata.id ≡ ok (log_of old new))
                × ((m : ManifestId) → fetch_manifests after m ≡ fetch_manifests s m)))

    write_both-Both :
        (s : Store) (old new : Snapshot) → write_both old new s ≡ (ok id, after) → Both s old new
    unfolding Both
    write_both-Both s old new h =
        let wrote = write_snapshot s new.metadata.id new in
        let logged = write_transaction_log wrote.1 new.metadata.id (log_of old new) in
        let (_, (snapshot_done, h')) =
          proceed-ok (map_err storage_error wrote.0) (λ _. write_log old new) wrote.1 after id h in
        let (_, (log_done, e)) =
          proceed-ok (map_err storage_error logged.0) (λ _. pure new.metadata.id) logged.1 after id
            h' in
        let same : after ≡ logged.1 = ground (arith, e) in
        (
          ground (arith, e),
          (
            ap (λ s. fetch_snapshot s new.metadata.id) same
                ∙ A.snapshot_beside_log wrote.1 new.metadata.id (log_of old new) new.metadata.id
                ∙ W.snapshot s new.metadata.id new
                    (map_err-ok storage_error wrote.0 tt snapshot_done),
            (
              ap (λ s. fetch_transaction_log s new.metadata.id) same
                  ∙ W.log wrote.1 new.metadata.id (log_of old new)
                      (map_err-ok storage_error logged.0 tt log_done),
              λ m.
                  ap (λ s. fetch_manifests s m) same
                  ∙ A.manifest_beside_log wrote.1 new.metadata.id (log_of old new) m
                  ∙ A.manifest_beside_snapshot s new.metadata.id new m,
            ),
          ),
        )

    -- Writing the manifest leaves the parent, and the manifest is there afterwards.
    Wrote-parent :
        (s' : Store) (manifest : Manifest) (mid : Option ManifestId)
        → Wrote repo.store fresh.manifest_id manifest mid s'
        → fetch_snapshot s' repo.snapshot_id ≡ fetch_snapshot repo.store repo.snapshot_id
    Wrote-parent s' manifest mid (inl (_, (_, same))) =
        ap (λ s. fetch_snapshot s repo.snapshot_id) same
    Wrote-parent s' manifest mid (inr (_, (_, same))) =
        ap (λ s. fetch_snapshot s repo.snapshot_id) same
        ∙ A.snapshot_beside_manifest repo.store fresh.manifest_id manifest repo.snapshot_id

    Wrote-Stored :
        (s' : Store) (manifest : Manifest) (mid : Option ManifestId) (nodes : List NodeSnapshot)
        (old : Snapshot)
        → Wrote repo.store fresh.manifest_id manifest mid s'
        → ((m : ManifestId) → fetch_manifests after m ≡ fetch_manifests s' m)
        → Stored fresh.manifest_id manifest
            (Snapshot.manifest_files (made manifest mid nodes old))
            after
    unfolding make_snapshot from_iter
    Wrote-Stored s' manifest mid nodes old (inl (empty, (nothing, _))) kept =
        inl (empty, ap (λ i. Snapshot.manifest_files (made manifest i nodes old)) nothing)
    Wrote-Stored s' manifest mid nodes old (inr (done, (named, same))) kept = inr (
      ap (λ i. Snapshot.manifest_files (made manifest i nodes old)) named,
      kept fresh.manifest_id
          ∙ ap (λ s. fetch_manifests s fresh.manifest_id) same
          ∙ W.manifest repo.store fresh.manifest_id manifest done,
    )

    pub flush_changes-Recorded :
        flush_changes fresh repo.change_set repo.snapshot_id message properties repo.store
          ≡ (ok id, after)
        → (id ≡ fresh.snapshot_id) × Recorded fresh repo message after
    unfolding flush_changes Both make_snapshot from_iter local_ancestry
    flush_changes-Recorded h =
        let (chunks, (listed, h1)) =
          proceed-ok (all_chunks repo.store repo.change_set repo.snapshot_id) with_chunks repo.store
            after id h in
        let (manifest, (collected, h2)) =
          proceed-ok (from_stream (map (map_ok (λ e. e.1)) chunks)) with_collected repo.store after
            id h1 in
        let wrote = write_manifest_if_any fresh.manifest_id manifest repo.store in
        let (mid, (done, h3)) = proceed-ok wrote.0 (with_manifest manifest) wrote.1 after id h2 in
        let w =
          write_manifest_if_any-Wrote repo.store wrote.1 fresh.manifest_id manifest mid
            (ap (λ r. (r, wrote.1)) done) in
        let (nodes, (_, h4)) =
          proceed-ok (updated_nodes wrote.1 repo.change_set repo.snapshot_id mid)
            (with_nodes manifest mid) wrote.1 after id h3 in
        let (old, (read, h5)) =
          proceed-ok (map_err storage_error (fetch_snapshot wrote.1 repo.snapshot_id))
            (λ old. write_both old (made manifest mid nodes old)) wrote.1 after id h4 in
        let (named, (found, (log, kept))) =
          write_both-Both wrote.1 old (made manifest mid nodes old) h5 in
        (
          named,
          record {
            old = old;
            new = made manifest mid nodes old;
            chunks = chunks;
            manifest = manifest;
            parent =
                sym (Wrote-parent wrote.1 manifest mid w)
                ∙ map_err-ok storage_error (fetch_snapshot wrote.1 repo.snapshot_id) old read;
            found = found;
            named = refl;
            described = refl;
            ancestry = refl;
            log = log;
            listed = listed;
            collected = collected;
            stored = Wrote-Stored wrote.1 manifest mid nodes old w kept;
          },
        )
