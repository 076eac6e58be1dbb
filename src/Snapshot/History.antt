-- ===== src/Snapshot/History.antt =====
-- The history that a snapshot carries.
use icechunk.Prelude.{◌+◌, ◌^◌, ◌<◌, ◌≡◌, refl, Option, List, ◌∷◌, arith, length}
use icechunk.Format.{External, SnapshotId, DateTime}
use icechunk.Format.Nodes.{NodeSnapshot}
use icechunk.Snapshot.{
  Snapshot, SnapshotMetadata, SnapshotProperties, ManifestFileInfo, AttributeFileInfo, from_iter,
  empty_snapshot, local_ancestry,
}

module _ ⦃E : External⦄ where
  -- All parents stand in the snapshot's own history.
  abbrev pub HasWholeHistory : Snapshot → Type 0
  HasWholeHistory s = length s.short_term_history ≡ s.total_parents

  pub empty_snapshot-HasWholeHistory :
      (id : SnapshotId) (now : DateTime) → HasWholeHistory (empty_snapshot id now)
  unfolding empty_snapshot
  empty_snapshot-HasWholeHistory id now = refl

  -- A snapshot built on a parent that has its whole history has its whole history too, while there
  -- are fewer than 2^32 - 1 parents; its local ancestry is the parent's metadata followed by the
  -- parent's local ancestry.
  pub from_iter-HasWholeHistory :
      (metadata : SnapshotMetadata) (now : DateTime) (parent : Snapshot)
      (properties : Option SnapshotProperties) (manifests : List ManifestFileInfo)
      (attributes : List AttributeFileInfo) (nodes : List NodeSnapshot)
      → HasWholeHistory parent
      → parent.total_parents + 1 < 2 ^ 32
      → HasWholeHistory (from_iter metadata now parent properties manifests attributes nodes)
        × (local_ancestry (from_iter metadata now parent properties manifests attributes nodes)
            ≡ parent.metadata ∷ local_ancestry parent)
  unfolding from_iter local_ancestry
  from_iter-HasWholeHistory metadata now parent properties manifests attributes nodes whole room =
      (omega arith, refl)
