-- ===== src/Snapshot.antt =====
-- icechunk/src/format/snapshot.rs: a snapshot of the hierarchy with its history. The format version
-- and flags, which nothing reads, are left out.
pub mod Iteration
pub mod History
use icechunk.Prelude.{
  ℕ, zero, suc, ◌+◌, ◌%◌, ◌^◌, ◌≡◌, Bool, Option, none, some, List, [], ◌∷◌, map, Str, codes, Eq,
  Result, ok, err, length, head_of, fold, and_then, unwrap_or,
}
use icechunk.Dict.{Map, get}
use icechunk.Btree.{tree_insert, range_after}
use icechunk.Format.{
  External, NodePath, path_eq, path_ord, SnapshotId, ManifestId, AttributesId, DateTime,
}
use icechunk.Format.Nodes.{NodeSnapshot}

pub record SnapshotMetadata : Type 0 where
  pub id : SnapshotId
  pub written_at : DateTime
  pub message : Str

pub record ManifestFileInfo : Type 0 where
  pub id : ManifestId
  pub format_version : ℕ

pub record AttributeFileInfo : Type 0 where
  pub id : AttributesId
  pub format_version : ℕ

module _ ⦃E : External⦄ where
  open E use {Json}

  -- `SnapshotProperties`
  abbrev pub SnapshotProperties : Type 0
  SnapshotProperties = Map Str Json

  pub record Snapshot : Type 0 where
    pub manifest_files : List ManifestFileInfo
    pub attribute_files : List AttributeFileInfo
    pub total_parents : ℕ
    pub short_term_parents : ℕ
    pub short_term_history : List SnapshotMetadata
    pub metadata : SnapshotMetadata
    pub started_at : DateTime
    pub properties : SnapshotProperties
    pub nodes : Map NodePath NodeSnapshot

  -- `Snapshot::new`. The random id and the time of `SnapshotMetadata::default()` and the time of
  -- `started_at` are arguments.
  unfoldable pub new_snapshot :
      SnapshotMetadata
      → DateTime
      → List SnapshotMetadata
      → ℕ
      → Option SnapshotProperties
      → Map NodePath NodeSnapshot
      → List ManifestFileInfo
      → List AttributeFileInfo
      → Snapshot
  new_snapshot default_metadata now history total properties nodes manifest_files attribute_files =
      record {
        manifest_files = manifest_files;
        attribute_files = attribute_files;
        total_parents = total;
        short_term_parents = length history % 2 ^ 16;
        short_term_history = history;
        metadata = default_metadata;
        started_at = now;
        properties = unwrap_or properties [];
        nodes = nodes;
      }

  abbrev insert_node : Map NodePath NodeSnapshot → NodeSnapshot → Map NodePath NodeSnapshot
  insert_node nodes node = tree_insert nodes node.path node

  -- The `collect` of `from_iter`: a later node at the same path replaces an earlier one.
  unfoldable pub collect_nodes : List NodeSnapshot → Map NodePath NodeSnapshot
  collect_nodes iter = fold insert_node [] iter

  unfoldable pub from_iter :
      SnapshotMetadata
      → DateTime
      → Snapshot
      → Option SnapshotProperties
      → List ManifestFileInfo
      → List AttributeFileInfo
      → List NodeSnapshot
      → Snapshot
  unfolding new_snapshot collect_nodes
  from_iter default_metadata now parent properties manifest_files attribute_files iter =
      new_snapshot default_metadata now (parent.metadata ∷ parent.short_term_history)
        ((parent.total_parents + 1) % 2 ^ 32) properties (collect_nodes iter) manifest_files
        attribute_files

  abbrev pub initial_commit_message : Str
  initial_commit_message = codes "Repository initialized"

  unfoldable pub empty_snapshot : SnapshotId → DateTime → Snapshot
  unfolding new_snapshot
  empty_snapshot id now =
      let metadata : SnapshotMetadata = record {
        id = id;
        written_at = now;
        message = initial_commit_message;
      } in
      record (new_snapshot metadata now [] 0 none [] [] []) { metadata = metadata }

  -- `IcechunkFormatError::NodeNotFound`
  pub data NodeError : Type 0 where
    node_not_found : NodePath → NodeError

  abbrev node_or_error : NodePath → Option NodeSnapshot → Result NodeError NodeSnapshot
  node_or_error path none = err (node_not_found path)
  node_or_error path (some node) = ok node

  unfoldable pub snapshot_get_node : Snapshot → NodePath → Result NodeError NodeSnapshot
  snapshot_get_node snapshot path = node_or_error path (get snapshot.nodes path)

  -- `Snapshot::iter`
  unfoldable pub snapshot_iter : Snapshot → List NodeSnapshot
  snapshot_iter snapshot = map (λ e. e.1) snapshot.nodes

  -- `NodeIterator::next`, with the new `last_key`
  unfoldable pub next_node : Snapshot → Option NodePath → Option (NodeSnapshot × NodePath)
  next_node table none = and_then (head_of table.nodes) (λ e. some (e.1, e.0))
  next_node table (some last_key) =
      and_then (head_of (range_after last_key table.nodes)) (λ e. some (e.1, e.0))

  -- The nodes until the first `None`. The number bounds the calls.
  unfoldable pub nodes_within : ℕ → Snapshot → Option NodePath → List NodeSnapshot
  unfolding next_node
  nodes_within zero table last_key = []
  nodes_within (suc n) table last_key = elim (next_node table last_key) [
    | none ↦ []
    | some (node, key) ↦ node ∷ nodes_within n table (some key)
  ]

  -- `iter_arc`, collected
  unfoldable pub iter_arc : Snapshot → List NodeSnapshot
  unfolding nodes_within
  iter_arc table = nodes_within (suc (length table.nodes)) table none

  unfoldable pub local_ancestry : Snapshot → List SnapshotMetadata
  local_ancestry snapshot = snapshot.short_term_history

  unfoldable pub snapshot_len : Snapshot → ℕ
  snapshot_len snapshot = length snapshot.nodes
