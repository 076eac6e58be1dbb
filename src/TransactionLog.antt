-- ===== src/TransactionLog.antt =====
-- icechunk/src/format/transaction_log.rs: what a commit changed, by node ids.
pub mod Deletions
use icechunk.Prelude.{
  ℕ, ◌≡◌, Bool, true, false, not, List, [], ◌∷◌, map, Eq, ◌==◌, nat_eq, list_eq, pair_eq, contains,
  filter_by, fold,
}
use icechunk.Dict.{Map, keys, set_insert, set_extend}
use icechunk.Format.{External, NodeId, ChunkIndices}
use icechunk.Format.Nodes.{NodeType, node_type_eq, NodeSnapshot, node_type}
use icechunk.ChangeSet.{ChangeSet}

pub record TransactionLog : Type 0 where
  pub format_version : ℕ
  pub new_groups : List NodeId
  pub new_arrays : List NodeId
  pub deleted_groups : List NodeId
  pub deleted_arrays : List NodeId
  pub updated_user_attributes : List NodeId
  pub updated_zarr_metadata : List NodeId
  pub updated_chunks : Map NodeId (List ChunkIndices)

-- `collect` into a `HashSet`
abbrev pub collect_set {ℓ} : {A : Type ℓ} ⦃e : Eq A⦄ → List A → List A
collect_set xs = set_extend [] xs

-- The two sets that the loop over the vanished nodes fills
pub record Deleted : Type 0 where
  pub groups : List NodeId
  pub arrays : List NodeId

abbrev pub note_deleted : Deleted → NodeId × NodeType → Deleted
note_deleted d (node_id, NodeType.group) = record d { groups = set_insert d.groups node_id }
note_deleted d (node_id, NodeType.array) = record d { arrays = set_insert d.arrays node_id }

-- `HashSet::difference`
abbrev pub difference {ℓ} : {A : Type ℓ} ⦃e : Eq A⦄ → List A → List A → List A
difference xs ys = filter_by (λ x. not (contains ys x)) xs

module _ ⦃E : External⦄ where
  abbrev pub typed_ids : List NodeSnapshot → List (NodeId × NodeType)
  typed_ids nodes = collect_set (map (λ n. (n.id, node_type n)) nodes)

  unfoldable pub deleted_nodes : List NodeSnapshot → List NodeSnapshot → Deleted
  unfolding set_insert set_extend
  deleted_nodes parent_nodes child_nodes =
      fold note_deleted (record { groups = []; arrays = [] })
        (difference (typed_ids parent_nodes) (typed_ids child_nodes))

  -- `TransactionLog::new`. The format version is `LATEST_ICECHUNK_TRANSACTION_LOG_FORMAT`.
  unfoldable pub new_transaction_log :
      ChangeSet → List NodeSnapshot → List NodeSnapshot → TransactionLog
  unfolding deleted_nodes
  new_transaction_log cs parent_nodes child_nodes =
      let deleted = deleted_nodes parent_nodes child_nodes in
      record {
        format_version = 0;
        new_groups = collect_set (map (λ e. e.1) cs.new_groups);
        new_arrays = collect_set (map (λ e. e.1.0) cs.new_arrays);
        deleted_groups = deleted.groups;
        deleted_arrays = deleted.arrays;
        updated_user_attributes = collect_set (keys cs.updated_attributes);
        updated_zarr_metadata = collect_set (keys cs.updated_arrays);
        updated_chunks = map (λ e. (e.0, collect_set (keys e.1))) cs.set_chunks;
      }
