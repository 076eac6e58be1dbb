-- ===== src/Conflicts/PathFinder.antt =====
-- `PathFinder` of icechunk/src/conflicts/detector.rs: the paths of nodes by their ids, read from an
-- iterator once and kept in a cache.
use icechunk.Prelude.{
  map, ◌≡◌, ◌⊎◌, list_beq_iff, Bool-cases, inl, inr, arith, refl, false, Option, none, some, List,
  [], ◌∷◌, nat_eq, list_eq, ◌==◌, if◌then◌else◌,
}
use icechunk.Dict.{Map, get, insert, get-insert}
use icechunk.Format.{External, NodePath, NodeId}
use icechunk.Format.Nodes.{NodeSnapshot}

module _ ⦃E : External⦄ where
  -- `rest` is `none` once the iterator has ended.
  pub record PathFinder : Type 0 where
    pub cache : Map NodeId NodePath
    pub rest : Option (List NodeSnapshot)

  unfoldable pub new_finder : List NodeSnapshot → PathFinder
  new_finder nodes = record { cache = []; rest = some nodes }

  -- The `for` loop over the iterator. `none` is `ConflictingPathNotFound`.
  unfoldable pub search_rest :
      Map NodeId NodePath → List NodeSnapshot → NodeId → Option NodePath × PathFinder
  search_rest cache [] node_id = (none, record { cache = cache; rest = none })
  search_rest cache (node ∷ nodes) node_id =
      let cache' = insert cache node.id node.path in
      let later = search_rest cache' nodes node_id in
      if node.id == node_id
      then (some node.path, record { cache = cache'; rest = some nodes })
      else later

  abbrev find_uncached :
      PathFinder → Option (List NodeSnapshot) → NodeId → Option NodePath × PathFinder
  find_uncached finder none node_id = (none, finder)
  find_uncached finder (some nodes) node_id = search_rest finder.cache nodes node_id

  abbrev find_with : PathFinder → Option NodePath → NodeId → Option NodePath × PathFinder
  find_with finder (some cached) node_id = (some cached, finder)
  find_with finder none node_id = find_uncached finder finder.rest node_id

  unfoldable pub find : PathFinder → NodeId → Option NodePath × PathFinder
  unfolding search_rest
  find finder node_id = find_with finder (get finder.cache node_id) node_id

  -- The path of the first node with an id
  unfoldable pub path_of : List NodeSnapshot → NodeId → Option NodePath
  path_of [] node_id = none
  path_of (node ∷ nodes) node_id =
      if node.id == node_id then some node.path else path_of nodes node_id

  abbrev pub Fresh : NodeId → List NodeSnapshot → Type 0
  Fresh id [] = Unit
  Fresh id (node ∷ nodes) = ((node.id == id) ≡ false) × Fresh id nodes

  -- No id stands twice.
  abbrev pub DistinctIds : List NodeSnapshot → Type 0
  DistinctIds [] = Unit
  DistinctIds (node ∷ nodes) = Fresh node.id nodes × DistinctIds nodes

  abbrev unread : Option (List NodeSnapshot) → List NodeSnapshot
  unread none = []
  unread (some nodes) = nodes

  -- A state of the finder over some nodes: each id is answered by the cache or by what is unread, and
  -- what is unread has no id that is cached.
  pub record Covers (nodes : List NodeSnapshot) (cache : Map NodeId NodePath)
      (left : List NodeSnapshot) : Type 0 where
    pub answers :
        (id : NodeId)
        → path_of nodes id ≡ elim (get cache id) [ some p ↦ some p | none ↦ path_of left id ]
    pub apart : (id : NodeId) → (get cache id ≡ none) ⊎ (path_of left id ≡ none)
    pub distinct : DistinctIds left

  path_of-Fresh :
      (id : NodeId) (nodes : List NodeSnapshot) → Fresh id nodes → path_of nodes id ≡ none
  unfolding path_of
  path_of-Fresh id [] f = refl
  path_of-Fresh id (node ∷ nodes) f = ground (arith, f, path_of-Fresh id nodes)

  -- Reading one node into the cache
  read-Covers :
      (nodes : List NodeSnapshot) (cache : Map NodeId NodePath) (node : NodeSnapshot)
      (left : List NodeSnapshot)
      → Covers nodes cache (node ∷ left)
      → Covers nodes (insert cache node.id node.path) left
  unfolding path_of
  read-Covers nodes cache node left c = record {
    answers = λ id. ground (
      arith,
      c.answers id,
      c.apart id,
      get-insert cache node.id node.path id,
      list_beq_iff node.id id,
      path_of-Fresh node.id left c.distinct.0,
    );
    apart = λ id. ground (
      arith,
      c.apart id,
      get-insert cache node.id node.path id,
      list_beq_iff node.id id,
      path_of-Fresh node.id left c.distinct.0,
    );
    distinct = c.distinct.1;
  }

  -- The answer is the first node with the id, and the state after it is a state over the same nodes.
  abbrev Answers : List NodeSnapshot → NodeId → Option NodePath × PathFinder → Type 0
  Answers nodes id found =
      (found.0 ≡ path_of nodes id) × Covers nodes found.1.cache (unread found.1.rest)

  search_rest-Answers :
      (nodes : List NodeSnapshot) (id : NodeId) (cache : Map NodeId NodePath)
      (left : List NodeSnapshot)
      → Covers nodes cache left
      → get cache id ≡ none
      → Answers nodes id (search_rest cache left id)
  unfolding search_rest path_of
  search_rest-Answers nodes id cache [] c miss = (ground (arith, c.answers id, miss), c)
  search_rest-Answers nodes id cache (node ∷ left) c miss = elim (Bool-cases (node.id == id)) [
    | inl here ↦
        rw here (ground (arith, c.answers id, miss, here), read-Covers nodes cache node left c)
    | inr other ↦ rw other (
        search_rest-Answers nodes id (insert cache node.id node.path) left
          (read-Covers nodes cache node left c)
          (ground
            (arith, get-insert cache node.id node.path id, miss, other, list_beq_iff node.id id)))
  ]

  find_with-Answers :
      (nodes : List NodeSnapshot) (id : NodeId) (finder : PathFinder) (cached : Option NodePath)
      → Covers nodes finder.cache (unread finder.rest)
      → get finder.cache id ≡ cached
      → Answers nodes id (find_with finder cached id)
  unfolding path_of
  find_with-Answers nodes id finder (some p) c h = (ground (arith, c.answers id, h), c)
  find_with-Answers nodes id finder none c h =
      find_uncached-Answers nodes id finder.cache finder.rest c h
    where
      find_uncached-Answers :
          (nodes : List NodeSnapshot) (id : NodeId) (cache : Map NodeId NodePath)
          (rest : Option (List NodeSnapshot))
          → Covers nodes cache (unread rest)
          → get cache id ≡ none
          → Answers nodes id (find_uncached (record { cache = cache; rest = rest }) rest id)
      find_uncached-Answers nodes id cache none c h = (ground (arith, c.answers id, h), c)
      find_uncached-Answers nodes id cache (some left) c h =
          search_rest-Answers nodes id cache left c h

  find-Answers :
      (nodes : List NodeSnapshot) (id : NodeId) (finder : PathFinder)
      → Covers nodes finder.cache (unread finder.rest)
      → Answers nodes id (find finder id)
  unfolding find
  find-Answers nodes id finder c = find_with-Answers nodes id finder (get finder.cache id) c refl

  new_finder-Covers :
      (nodes : List NodeSnapshot)
      → DistinctIds nodes
      → Covers nodes (new_finder nodes).cache (unread (new_finder nodes).rest)
  unfolding new_finder get
  new_finder-Covers nodes d = record { answers = λ id. refl; apart = λ id. inl refl; distinct = d }

  -- What a finder answers to some ids, one after the other
  unfoldable pub find_each : PathFinder → List NodeId → List (Option NodePath)
  unfolding find
  find_each finder [] = []
  find_each finder (id ∷ ids) =
      let (found, finder') = find finder id in found ∷ find_each finder' ids

  find_each-Covers :
      (nodes : List NodeSnapshot) (ids : List NodeId) (finder : PathFinder)
      → Covers nodes finder.cache (unread finder.rest)
      → find_each finder ids ≡ map (path_of nodes) ids
  unfolding find_each
  find_each-Covers nodes [] finder c = refl
  find_each-Covers nodes (id ∷ ids) finder c =
      let (found, c') = find-Answers nodes id finder c in
      rw (found, find_each-Covers nodes ids (find finder id).1 c')

  -- Over nodes of which no two have one id, a new finder answers any sequence of ids with the paths of
  -- the nodes that have them, in spite of its cache and of the iterator that it reads only once.
  pub find_each-new_finder :
      (nodes : List NodeSnapshot) (ids : List NodeId)
      → DistinctIds nodes
      → find_each (new_finder nodes) ids ≡ map (path_of nodes) ids
  find_each-new_finder nodes ids d =
      find_each-Covers nodes ids (new_finder nodes) (new_finder-Covers nodes d)
