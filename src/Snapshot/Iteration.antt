-- ===== src/Snapshot/Iteration.antt =====
-- What the iterators of a snapshot yield, and what a snapshot built from nodes holds.
use icechunk.Prelude.{
  ℕ, zero, suc, ◌<◌, ◌≡◌, refl, ap, Option, none, some, List, [], ◌∷◌, map, arith, ◌==◌,
  if◌then◌else◌, length, fold,
}
use icechunk.Dict.{Map, get}
use icechunk.Btree.{
  range_after, Sorted, range_after-first, range_after-next, tree_insert-Sorted, get-tree_insert,
}
use icechunk.Format.{External, NodePath, path_eq, path_ord}
use icechunk.Format.Nodes.{NodeSnapshot}
use icechunk.Snapshot.{Snapshot, snapshot_iter, nodes_within, iter_arc, collect_nodes, insert_node}

module _ ⦃E : External⦄ where
  nodes_within-some :
      (n : ℕ) (table : Snapshot) (k : NodePath) (r : Map NodePath NodeSnapshot)
      → Sorted table.nodes
      → range_after k table.nodes ≡ r
      → length r < n
      → nodes_within n table (some k) ≡ map (λ e. e.1) r
  unfolding nodes_within
  nodes_within-some zero table k r s h le = absurd (omega arith)
  nodes_within-some (suc n) table k [] s h le = rw (h, nodes_within) refl
  nodes_within-some (suc n) table k (x ∷ r) s h le =
      ground (arith, nodes_within-some n table x.0 r s (range_after-next k table.nodes x r s h))

  iter_arc-cases :
      (table : Snapshot) (nodes : Map NodePath NodeSnapshot)
      → table.nodes ≡ nodes
      → Sorted nodes
      → iter_arc table ≡ map (λ e. e.1) nodes
  unfolding iter_arc
  iter_arc-cases table [] e s = ground arith
  iter_arc-cases table (x ∷ r) e s = ground (
    arith,
    e,
    nodes_within-some (length table.nodes) table x.0 r (rw e s) (rw e (range_after-first x r s))
        (omega (arith, ap length e)),
  )

  -- On a snapshot whose nodes are in the order of their paths, the iterator that owns the snapshot
  -- and looks up the next key each time yields the same nodes in the same order as the iterator over
  -- the map's values.
  pub iter_arc-snapshot_iter :
      (table : Snapshot) → Sorted table.nodes → iter_arc table ≡ snapshot_iter table
  unfolding snapshot_iter
  iter_arc-snapshot_iter table s = iter_arc-cases table table.nodes refl s

  fold-Sorted :
      (l : List NodeSnapshot) (m : Map NodePath NodeSnapshot)
      → Sorted m
      → Sorted (fold insert_node m l)
  fold-Sorted [] m s = s
  fold-Sorted (n ∷ l) m s = fold-Sorted l (insert_node m n) (tree_insert-Sorted m n.path n s)

  -- The nodes of a collected snapshot are in the order of their paths.
  pub collect_nodes-Sorted : (l : List NodeSnapshot) → Sorted (collect_nodes l)
  unfolding collect_nodes
  collect_nodes-Sorted l = fold-Sorted l [] tt

  -- The last node of a list at a path
  unfoldable pub last_at : NodePath → List NodeSnapshot → Option NodeSnapshot
  last_at p [] = none
  last_at p (n ∷ l) = elim (last_at p l) [
    | some m ↦ some m
    | none ↦ if n.path == p then some n else none
  ]

  get-fold :
      (l : List NodeSnapshot) (m : Map NodePath NodeSnapshot) (p : NodePath)
      → get (fold insert_node m l) p ≡ elim (last_at p l) [ some n ↦ some n | none ↦ get m p ]
  unfolding last_at
  get-fold [] m p = refl
  get-fold (n ∷ l) m p =
      ground (arith, get-fold l (insert_node m n) p, get-tree_insert m n.path n p)

  -- Looking up a path in collected nodes gives the last of them at that path.
  pub get-collect_nodes :
      (l : List NodeSnapshot) (p : NodePath) → get (collect_nodes l) p ≡ last_at p l
  unfolding collect_nodes get
  get-collect_nodes l p = ground (arith, get-fold l [] p)
