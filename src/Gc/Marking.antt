-- ===== src/Gc/Marking.antt =====
-- What the marking phase of icechunk/src/ops/gc.rs keeps.
use icechunk.Prelude.{
  ok_inj, ◌≡◌, sym, ap, ◌∙◌, Bool, true, false, bind-ok, map_err-ok, inl, inr, List, [], ◌∷◌, arith,
  nat_eq, list_eq, ◌==◌, list_beq_iff, ok, err, map_err, if◌then◌else◌, contains, Bool-cases,
  eq_of_==, ◌>>=◌,
}
use mathlib.Core.List.{Memᴰ}
use icechunk.Dict.{set_extend, set_insert, contains-insert, contains-extend}
use icechunk.Format.{External, SnapshotId, ManifestId, ChunkId}
use icechunk.Manifest.{Manifest}
use icechunk.Snapshot.{Snapshot}
use icechunk.Storage.{Storage}
use icechunk.Gc.{
  GcConfig, GcResult, storage, Marked, deletes_chunks, deletes_manifests, deletes_snapshots,
  manifest_ids, chunk_ids, mark_chunks, mark_snapshot, mark,
}

module _ ⦃E : External⦄ ⦃S : Storage⦄ (s : S.Store) where
  open S use {Store, fetch_snapshot, fetch_manifests}

  -- The loop over manifests passed all of them.
  data ChunksMarked : List ManifestId → List ChunkId → List ChunkId → Type 0 where
    done : {before after : List ChunkId} → before ≡ after → ChunksMarked [] before after
    marks :
        {id : ManifestId} {ids : List ManifestId} {before after : List ChunkId} {m : Manifest}
        → fetch_manifests s id ≡ ok m
        → ChunksMarked ids (set_extend before (chunk_ids m)) after
        → ChunksMarked (id ∷ ids) before after

  mark_chunks-ChunksMarked :
      (ids : List ManifestId) (before after : List ChunkId)
      → mark_chunks s ids before ≡ ok after
      → ChunksMarked ids before after
  unfolding mark_chunks
  mark_chunks-ChunksMarked [] before after h = done (ok_inj before after h)
  mark_chunks-ChunksMarked (id ∷ ids) before after h =
      let (m, (read, rest)) =
        bind-ok (map_err storage (fetch_manifests s id))
          (λ manifest. mark_chunks s ids (set_extend before (chunk_ids manifest))) after h in
      marks (map_err-ok storage (fetch_manifests s id) m read)
        (mark_chunks-ChunksMarked ids (set_extend before (chunk_ids m)) after rest)

  ChunksMarked-grows :
      (ids : List ManifestId) (before after : List ChunkId) (c : ChunkId)
      → ChunksMarked ids before after
      → contains before c ≡ true
      → contains after c ≡ true
  ChunksMarked-grows [] before after c (done e) h = ground (arith, e, h)
  ChunksMarked-grows (id ∷ ids) before after c (marks {m} read rest) h =
      ChunksMarked-grows ids (set_extend before (chunk_ids m)) after c rest
        (ground (arith, contains-extend before (chunk_ids m) c, h))

  -- Every chunk of every manifest of the list is marked.
  ChunksMarked-chunk :
      (ids : List ManifestId) (before after : List ChunkId) (id : ManifestId) (m : Manifest)
      (c : ChunkId)
      → ChunksMarked ids before after
      → contains ids id ≡ true
      → fetch_manifests s id ≡ ok m
      → contains (chunk_ids m) c ≡ true
      → contains after c ≡ true
  ChunksMarked-chunk [] before after id m c d h r k = ground (arith, h)
  ChunksMarked-chunk (i ∷ ids) before after id m c (marks {m = m'} read rest) h r k =
      elim (Bool-cases (i == id)) [
        | inl same ↦ ChunksMarked-grows ids (set_extend before (chunk_ids m')) after c rest (
            ground (
              arith,
              contains-extend before (chunk_ids m') c,
              k,
              ok_inj m m' (sym r ∙ ap (fetch_manifests s) (sym (eq_of_== i id same)) ∙ read),
            ))
        | inr other ↦
            ChunksMarked-chunk ids (set_extend before (chunk_ids m')) after id m c rest
              (ground (arith, h, other)) r k
      ]

  module _ (config : GcConfig) where
    -- The loop over the pointed snapshots passed all of them.
    pub data Passed : List (GcResult SnapshotId) → Marked → Marked → Type 0 where
      done : {before after : Marked} → before ≡ after → Passed [] before after
      passes :
          {id : SnapshotId} {items : List (GcResult SnapshotId)} {before next after : Marked}
          {snap : Snapshot}
          → fetch_snapshot s id ≡ ok snap
          → mark_snapshot s config before id snap ≡ ok next
          → Passed items next after
          → Passed (ok id ∷ items) before after

    pub mark-Passed :
        (items : List (GcResult SnapshotId)) (before after : Marked)
        → mark s config items before ≡ ok after
        → Passed items before after
    unfolding mark
    mark-Passed [] before after h = done (ok_inj before after h)
    mark-Passed (err e ∷ items) before after h = ground (arith, h)
    mark-Passed (ok id ∷ items) before after h =
        let (snap, (read, rest)) =
          bind-ok (map_err storage (fetch_snapshot s id))
            (λ snap. mark_snapshot s config before id snap >>= mark s config items) after h in
        let (next, (marked, later)) =
          bind-ok (mark_snapshot s config before id snap) (mark s config items) after rest in
        passes (map_err-ok storage (fetch_snapshot s id) snap read) marked
          (mark-Passed items next after later)

    -- What one snapshot adds to the sets
    record Adds (before : Marked) (id : SnapshotId) (snap : Snapshot) (next : Marked) : Type 0 where
      snapshots : next.keep_snapshots ≡ (
          if deletes_snapshots config
          then set_insert before.keep_snapshots id
          else before.keep_snapshots)
      manifests : next.keep_manifests ≡ (
          if deletes_manifests config
          then set_extend before.keep_manifests (manifest_ids snap)
          else before.keep_manifests)
      chunks :
          (if deletes_chunks config
            then mark_chunks s (manifest_ids snap) before.keep_chunks
            else ok before.keep_chunks)
          ≡ ok next.keep_chunks

    adding : Marked → SnapshotId → Snapshot → List ChunkId → Marked
    adding before id snap chunks = record {
      keep_chunks = chunks;
      keep_manifests =
          if deletes_manifests config
          then set_extend before.keep_manifests (manifest_ids snap)
          else before.keep_manifests;
      keep_snapshots =
          if deletes_snapshots config
          then set_insert before.keep_snapshots id
          else before.keep_snapshots;
    }

    mark_snapshot-Adds :
        (before next : Marked) (id : SnapshotId) (snap : Snapshot)
        → mark_snapshot s config before id snap ≡ ok next
        → Adds before id snap next
    unfolding adding
    mark_snapshot-Adds before next id snap h =
        let (chunks, (marked, e)) =
          bind-ok
            (if deletes_chunks config
              then mark_chunks s (manifest_ids snap) before.keep_chunks
              else ok before.keep_chunks)
            (λ chunks. ok (adding before id snap chunks)) next h in
        let same = ok_inj (adding before id snap chunks) next e in
        record {
          snapshots = sym (ap (λ m. Marked.keep_snapshots m) same);
          manifests = sym (ap (λ m. Marked.keep_manifests m) same);
          chunks = marked ∙ ap (λ m. ok (Marked.keep_chunks m)) same;
        }

    Passed-grows :
        (items : List (GcResult SnapshotId)) (before after : Marked) (id : SnapshotId)
        → Passed items before after
        → contains before.keep_snapshots id ≡ true
        → contains after.keep_snapshots id ≡ true
    Passed-grows [] before after id (done e) h =
        ground (arith, ap (λ m. Marked.keep_snapshots m) e, h)
    Passed-grows (_ ∷ items) before after id
          (passes {id = i} {next = next} {snap = snap} read marked rest) h =
        Passed-grows items next after id rest (
          ground (
            arith,
            (mark_snapshot-Adds before next i snap marked).snapshots,
            contains-insert before.keep_snapshots i id,
            h,
          ))

    -- If snapshots are deleted, every pointed one is marked.
    pub Passed-snapshot :
        (items : List (GcResult SnapshotId)) (before after : Marked) (id : SnapshotId)
        → deletes_snapshots config ≡ true
        → Passed items before after
        → Memᴰ (ok id) items
        → contains after.keep_snapshots id ≡ true
    Passed-snapshot (_ ∷ items) before after id on
          (passes {id = i} {next = next} {snap = snap} read marked rest) (Memᴰ.head e) =
        Passed-grows items next after id rest (
          ground (
            arith,
            (mark_snapshot-Adds before next i snap marked).snapshots,
            contains-insert before.keep_snapshots i id,
            ok_inj id i e,
            list_beq_iff i id,
            on,
          ))
    Passed-snapshot (_ ∷ items) before after id on (passes {next = next} read marked rest)
          (Memᴰ.tail m) =
        Passed-snapshot items next after id on rest m
    Passed-snapshot [] before after id on p m = elim m [ ]

    same_snapshot :
        (id i : SnapshotId) (snap found : Snapshot)
        → fetch_snapshot s id ≡ ok snap
        → fetch_snapshot s i ≡ ok found
        → ◌≡◌ {A = GcResult SnapshotId} (ok id) (ok i)
        → snap ≡ found
    same_snapshot id i snap found r read e =
        ok_inj snap found (sym r ∙ ap (fetch_snapshot s) (ok_inj id i e) ∙ read)

    chunk_kept :
        (before next : Marked) (snap : Snapshot) (c : ChunkId) (b : Bool)
        → (if b
            then mark_chunks s (manifest_ids snap) before.keep_chunks
            else ok before.keep_chunks)
          ≡ ok next.keep_chunks
        → contains before.keep_chunks c ≡ true
        → contains next.keep_chunks c ≡ true
    chunk_kept before next snap c true e h =
        ChunksMarked-grows (manifest_ids snap) before.keep_chunks next.keep_chunks c
          (mark_chunks-ChunksMarked (manifest_ids snap) before.keep_chunks next.keep_chunks e) h
    chunk_kept before next snap c false e h =
        ground (arith, ok_inj before.keep_chunks next.keep_chunks e, h)

    chunk_added :
        (before next : Marked) (snap : Snapshot) (mid : ManifestId) (m : Manifest) (c : ChunkId)
        (b : Bool)
        → b ≡ true
        → (if b
            then mark_chunks s (manifest_ids snap) before.keep_chunks
            else ok before.keep_chunks)
          ≡ ok next.keep_chunks
        → contains (manifest_ids snap) mid ≡ true
        → fetch_manifests s mid ≡ ok m
        → contains (chunk_ids m) c ≡ true
        → contains next.keep_chunks c ≡ true
    chunk_added before next snap mid m c true on e k fm kc =
        ChunksMarked-chunk (manifest_ids snap) before.keep_chunks next.keep_chunks mid m c
          (mark_chunks-ChunksMarked (manifest_ids snap) before.keep_chunks next.keep_chunks e) k fm
          kc
    chunk_added before next snap mid m c false on e k fm kc = ground (arith, on)

    Passed-manifest_grows :
        (items : List (GcResult SnapshotId)) (before after : Marked) (mid : ManifestId)
        → Passed items before after
        → contains before.keep_manifests mid ≡ true
        → contains after.keep_manifests mid ≡ true
    Passed-manifest_grows [] before after mid (done e) h =
        ground (arith, ap (λ m. Marked.keep_manifests m) e, h)
    Passed-manifest_grows (_ ∷ items) before after mid
          (passes {id = i} {next = next} {snap = snap} read marked rest) h =
        Passed-manifest_grows items next after mid rest (
          ground (
            arith,
            (mark_snapshot-Adds before next i snap marked).manifests,
            contains-extend before.keep_manifests (manifest_ids snap) mid,
            h,
          ))

    -- If manifests are deleted, every manifest file of a pointed snapshot is marked.
    pub Passed-manifest :
        (items : List (GcResult SnapshotId)) (before after : Marked) (id : SnapshotId)
        (snap : Snapshot) (mid : ManifestId)
        → deletes_manifests config ≡ true
        → Passed items before after
        → Memᴰ (ok id) items
        → fetch_snapshot s id ≡ ok snap
        → contains (manifest_ids snap) mid ≡ true
        → contains after.keep_manifests mid ≡ true
    Passed-manifest (_ ∷ items) before after id snap mid on
          (passes {id = i} {next = next} {snap = found} read marked rest) (Memᴰ.head e) r k =
        Passed-manifest_grows items next after mid rest (
          ground (
            arith,
            (mark_snapshot-Adds before next i found marked).manifests,
            contains-extend before.keep_manifests (manifest_ids found) mid,
            same_snapshot id i snap found r read e,
            k,
            on,
          ))
    Passed-manifest (_ ∷ items) before after id snap mid on (passes {next = next} read marked rest)
          (Memᴰ.tail m) r k =
        Passed-manifest items next after id snap mid on rest m r k
    Passed-manifest [] before after id snap mid on p m r k = elim m [ ]

    Passed-chunk_grows :
        (items : List (GcResult SnapshotId)) (before after : Marked) (c : ChunkId)
        → Passed items before after
        → contains before.keep_chunks c ≡ true
        → contains after.keep_chunks c ≡ true
    Passed-chunk_grows [] before after c (done e) h =
        ground (arith, ap (λ m. Marked.keep_chunks m) e, h)
    Passed-chunk_grows (_ ∷ items) before after c
          (passes {id = i} {next = next} {snap = snap} read marked rest) h =
        Passed-chunk_grows items next after c rest (
          chunk_kept before next snap c (deletes_chunks config)
            (mark_snapshot-Adds before next i snap marked).chunks h)

    -- If chunks are deleted, every chunk of every manifest file of a pointed snapshot is marked.
    pub Passed-chunk :
        (items : List (GcResult SnapshotId)) (before after : Marked) (id : SnapshotId)
        (snap : Snapshot) (mid : ManifestId) (m : Manifest) (c : ChunkId)
        → deletes_chunks config ≡ true
        → Passed items before after
        → Memᴰ (ok id) items
        → fetch_snapshot s id ≡ ok snap
        → contains (manifest_ids snap) mid ≡ true
        → fetch_manifests s mid ≡ ok m
        → contains (chunk_ids m) c ≡ true
        → contains after.keep_chunks c ≡ true
    Passed-chunk (_ ∷ items) before after id snap mid m c on
          (passes {id = i} {next = next} {snap = found} read marked rest) (Memᴰ.head e) r k fm kc =
        Passed-chunk_grows items next after c rest (
          chunk_added before next found mid m c (deletes_chunks config) on
            (mark_snapshot-Adds before next i found marked).chunks
            (ap (λ sn. contains (manifest_ids sn) mid)
                (sym (same_snapshot id i snap found r read e))
              ∙ k)
            fm kc)
    Passed-chunk (_ ∷ items) before after id snap mid m c on (passes {next = next} read marked rest)
          (Memᴰ.tail t) r k fm kc =
        Passed-chunk items next after id snap mid m c on rest t r k fm kc
    Passed-chunk [] before after id snap mid m c on p t r k fm kc = elim t [ ]
