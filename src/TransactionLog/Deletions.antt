-- ===== src/TransactionLog/Deletions.antt =====
-- What a transaction log says of deleted nodes and of changed chunks.
use icechunk.Prelude.{
  ◌≡◌, refl, Bool, not, ◌&&◌, ◌||◌, List, [], ◌∷◌, map, arith, Eq, nat_eq, list_eq, pair_eq,
  contains, fold,
}
use icechunk.Dict.{contains-insert, contains-extend}
use icechunk.Format.{External, NodeId}
use icechunk.Format.Nodes.{NodeType, node_type_eq, NodeSnapshot, node_type}
use icechunk.ChangeSet.{ChangeSet}
use icechunk.TransactionLog.{Deleted, note_deleted, difference, collect_set, new_transaction_log}

pub contains-collect_set {ℓ} :
    {A : Type ℓ} ⦃e : Eq A⦄ (xs : List A) (a : A) → contains (collect_set xs) a ≡ contains xs a
contains-collect_set xs a = ground (arith, contains-extend [] xs a)

contains-difference {ℓ} :
    {A : Type ℓ} ⦃e : Eq A⦄ (xs ys : List A) (a : A)
    → contains (difference xs ys) a ≡ (contains xs a && not (contains ys a))
contains-difference [] ys a = ground arith
contains-difference ⦃e⦄ (x ∷ xs) ys a = ground (arith, contains-difference xs ys a, e.beq_iff x a)

fold-note_deleted :
    (l : List (NodeId × NodeType)) (d : Deleted) (id : NodeId)
    → (contains (fold note_deleted d l).groups id
        ≡ (contains l (id, NodeType.group) || contains d.groups id))
      × (contains (fold note_deleted d l).arrays id
          ≡ (contains l (id, NodeType.array) || contains d.arrays id))
fold-note_deleted [] d id = (refl, refl)
fold-note_deleted ((n, NodeType.group) ∷ l) d id = ground (
  arith,
  fold-note_deleted l (note_deleted d (n, NodeType.group)) id,
  contains-insert d.groups n id,
)
fold-note_deleted ((n, NodeType.array) ∷ l) d id = ground (
  arith,
  fold-note_deleted l (note_deleted d (n, NodeType.array)) id,
  contains-insert d.arrays n id,
)

module _ ⦃E : External⦄ where
  -- A node with this id and type is among the nodes.
  abbrev pub has_node : List NodeSnapshot → NodeId → NodeType → Bool
  has_node nodes id t =
      contains {A = NodeId × NodeType} (map (λ n. (n.id, node_type n)) nodes) (id, t)

  -- A transaction log lists an id as a deleted group exactly if the parent has a group with that id
  -- and the child has none, and as a deleted array exactly if the parent has an array with that id
  -- and the child has none, whatever the change set says.
  pub deleted-new_transaction_log :
      (cs : ChangeSet) (parents children : List NodeSnapshot) (id : NodeId)
      → (contains (new_transaction_log cs parents children).deleted_groups id
          ≡ (has_node parents id NodeType.group && not (has_node children id NodeType.group)))
        × (contains (new_transaction_log cs parents children).deleted_arrays id
            ≡ (has_node parents id NodeType.array && not (has_node children id NodeType.array)))
  unfolding new_transaction_log
  deleted-new_transaction_log cs parents children id =
      let ps = map (λ (n : NodeSnapshot). (n.id, node_type n)) parents in
      let ch = map (λ (n : NodeSnapshot). (n.id, node_type n)) children in
      let (gs, bs) =
        fold-note_deleted (difference (collect_set ps) (collect_set ch))
          (record { groups = []; arrays = [] }) id in
      ground (
        arith,
        gs,
        bs,
        contains-difference (collect_set ps) (collect_set ch) (id, NodeType.group),
        contains-difference (collect_set ps) (collect_set ch) (id, NodeType.array),
        contains-collect_set ps (id, NodeType.group),
        contains-collect_set ch (id, NodeType.group),
        contains-collect_set ps (id, NodeType.array),
        contains-collect_set ch (id, NodeType.array),
      )
