-- ===== src/ChangeSet/Deletion/Loop.antt =====
-- The loops of `delete_children`, for any recursive call that prunes.
use icechunk.Prelude.{
  ℕ, ◌≤◌, ◌<◌, ◌≡◌, refl, Bool, true, false, ◌&&◌, none, some, List, [], ◌∷◌, arith, ◌==◌, nat_eq,
  list_eq, if◌then◌else◌, length, filter_by, fold, inl, inr, Bool-cases, contains,
}
use icechunk.Dict.{Map, get, keys, get-remove}
use icechunk.Format.{External, NodePath, path_eq, path_beq_iff, NodeId, starts_with}
use icechunk.Format.Paths.{starts_with_trans, starts_with_self}
use icechunk.Format.Nodes.{ZarrArrayMetadata}
use icechunk.ChangeSet.{ChangeSet, delete_array}

module _ ⦃E : External⦄ where
  abbrev pub is_new_group : ChangeSet → NodePath → Bool
  is_new_group cs path = elim (get cs.new_groups path) [ none ↦ false | some _ ↦ true ]

  -- What a deletion removes: the new nodes at the path and below it, if the group is a new one.
  pub record Prunes (n : ℕ) (dg : ChangeSet → NodePath → NodeId → ChangeSet) : Type 0 where
    pub groups :
        (cs : ChangeSet) (path : NodePath) (id : NodeId)
        → length cs.new_groups < n
        → (p : NodePath)
        → get (dg cs path id).new_groups p
          ≡ (if is_new_group cs path && starts_with p path then none else get cs.new_groups p)
    pub arrays :
        (cs : ChangeSet) (path : NodePath) (id : NodeId)
        → length cs.new_groups < n
        → (p : NodePath)
        → get (dg cs path id).new_arrays p
          ≡ (if is_new_group cs path && starts_with p path then none else get cs.new_arrays p)
    pub shrinks :
        (cs : ChangeSet) (path : NodePath) (id : NodeId)
        → length (dg cs path id).new_groups ≤ length cs.new_groups

  -- `delete_array` leaves the new groups alone.
  pub new_groups-delete_arrays :
      (l : List (NodePath × (NodeId × ZarrArrayMetadata))) (cs : ChangeSet)
      → (fold (λ c e. delete_array c e.0 e.1.0) cs l).new_groups ≡ cs.new_groups
  unfolding delete_array
  new_groups-delete_arrays [] cs = refl
  new_groups-delete_arrays (e ∷ l) cs = new_groups-delete_arrays l (delete_array cs e.0 e.1.0)

  pub new_arrays-delete_arrays :
      (l : List (NodePath × (NodeId × ZarrArrayMetadata))) (cs : ChangeSet) (p : NodePath)
      → get (fold (λ c e. delete_array c e.0 e.1.0) cs l).new_arrays p
        ≡ (if contains (keys l) p then none else get cs.new_arrays p)
  unfolding delete_array
  new_arrays-delete_arrays [] cs p = refl
  new_arrays-delete_arrays (e ∷ l) cs p = ground (
    arith,
    new_arrays-delete_arrays l (delete_array cs e.0 e.1.0) p,
    get-remove cs.new_arrays e.0 p,
  )

  -- The keys of the entries below a path
  pub contains-keys-filter {ℓ} :
      {V : Type ℓ} (path p : NodePath) (m : Map NodePath V)
      → contains (keys (filter_by (λ e. starts_with e.0 path) m)) p
        ≡ (starts_with p path && contains (keys m) p)
  contains-keys-filter path p [] = ground arith
  contains-keys-filter path p ((q, v) ∷ m) =
      ground (arith, contains-keys-filter path p m, path_beq_iff q p)

  -- All entries stand below the path.
  abbrev pub Below {ℓ} : {V : Type ℓ} → NodePath → Map NodePath V → Type 0
  Below path [] = Unit
  Below path ((q, v) ∷ m) = (starts_with q path ≡ true) × Below path m

  pub filter-Below {ℓ} :
      {V : Type ℓ} (path : NodePath) (m : Map NodePath V)
      → Below path (filter_by (λ e. starts_with e.0 path) m)
  filter-Below path [] = tt
  filter-Below path ((q, v) ∷ m) = elim (Bool-cases (starts_with q path)) [
    | inl h ↦ rw h (h, filter-Below path m)
    | inr h ↦ rw h (filter-Below path m)
  ]

  -- The loop over the groups of `delete_children`
  abbrev pub loop :
      (ChangeSet → NodePath → NodeId → ChangeSet) → ChangeSet → List (NodePath × NodeId) → ChangeSet
  loop dg cs l = fold (λ c e. dg c e.0 e.1) cs l

  module _ (n : ℕ) (dg : ChangeSet → NodePath → NodeId → ChangeSet) (ih : Prunes n dg)
      (path : NodePath) where
    pub loop-shrinks :
        (l : List (NodePath × NodeId)) (cs : ChangeSet)
        → length (loop dg cs l).new_groups ≤ length cs.new_groups
    loop-shrinks [] cs = omega arith
    loop-shrinks (e ∷ l) cs = omega (arith, loop-shrinks l (dg cs e.0 e.1), ih.shrinks cs e.0 e.1)

    -- Outside the path nothing changes.
    pub loop-outside :
        (l : List (NodePath × NodeId)) (cs : ChangeSet) (p : NodePath)
        → Below path l
        → length cs.new_groups < n
        → starts_with p path ≡ false
        → (get (loop dg cs l).new_groups p ≡ get cs.new_groups p)
          × (get (loop dg cs l).new_arrays p ≡ get cs.new_arrays p)
    loop-outside [] cs p b le h = (refl, refl)
    loop-outside ((q, id) ∷ l) cs p b le h =
        let shorter = ih.shrinks cs q id in
        ground (
          arith,
          loop-outside l (dg cs q id) p b.1 (omega arith) h,
          ih.groups cs q id le p,
          ih.arrays cs q id le p,
          starts_with_trans p q path,
          b.0,
        )

    -- What is gone stays gone.
    pub loop-none :
        (l : List (NodePath × NodeId)) (cs : ChangeSet) (p : NodePath)
        → length cs.new_groups < n
        → get cs.new_groups p ≡ none
        → get (loop dg cs l).new_groups p ≡ none
    loop-none [] cs p le h = h
    loop-none ((q, id) ∷ l) cs p le h =
        let shorter = ih.shrinks cs q id in
        loop-none l (dg cs q id) p (omega arith) (ground (arith, ih.groups cs q id le p))

    -- Each group of the list is gone at the end.
    pub loop-removes :
        (l : List (NodePath × NodeId)) (cs : ChangeSet) (p : NodePath)
        → length cs.new_groups < n
        → contains (keys l) p ≡ true
        → get (loop dg cs l).new_groups p ≡ none
    loop-removes ((q, id) ∷ l) cs p le h =
        let shorter = ih.shrinks cs q id in
        elim (Bool-cases (q == p)) [
          | inl same ↦
              loop-none l (dg cs q id) p (omega arith)
                (ground (arith, ih.groups cs q id le p, path_beq_iff q p, starts_with_self p))
          | inr other ↦ loop-removes l (dg cs q id) p (omega arith) (ground arith)
        ]
    loop-removes [] cs p le h = ground arith
