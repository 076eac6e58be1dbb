-- ===== src/ChangeSet/Deletion.antt =====
-- `delete_group` and `delete_children`: what a session forgets when it deletes a group, and the
-- depth of the recursion.
pub mod Loop
use Loop.{
  is_new_group, Prunes, new_groups-delete_arrays, new_arrays-delete_arrays, contains-keys-filter,
  filter-Below, loop, loop-shrinks, loop-outside, loop-none, loop-removes,
}
use icechunk.Prelude.{
  ℕ, zero, suc, ◌≤◌, ◌<◌, ◌≡◌, refl, ◌∙◌, ap, Bool, true, false, ◌&&◌, ◌||◌, ◌⊎◌, Option, none,
  some, List, [], ◌∷◌, arith, Eq, ◌==◌, nat_eq, list_eq, if◌then◌else◌, length, filter_by, fold,
  Option-cases, inl, inr, Bool-cases, contains,
}
use icechunk.Dict.{Map, get, keys, contains-keys, remove, set_insert, get-remove, length-remove-lt}
use icechunk.Format.{External, NodePath, path_eq, path_beq_iff, NodeId, starts_with}
use icechunk.Format.Paths.{starts_with_trans, starts_with_self}
use icechunk.Format.Nodes.{ZarrArrayMetadata}
use icechunk.ChangeSet.{ChangeSet, delete_group, delete_group_within, delete_children, delete_array}

module _ ⦃E : External⦄ where
  module _ (n : ℕ) (dg : ChangeSet → NodePath → NodeId → ChangeSet) (ih : Prunes n dg)
      (path : NodePath) where
    groups_below : ChangeSet → List (NodePath × NodeId)
    groups_below cs = filter_by (λ e. starts_with e.0 path) cs.new_groups

    loop-below :
        (cs : ChangeSet) (p : NodePath)
        → length cs.new_groups < n
        → get (loop dg cs (groups_below cs)).new_groups p
          ≡ (if starts_with p path then none else get cs.new_groups p)
    unfolding groups_below
    loop-below cs p le = elim (Bool-cases (starts_with p path)) [
      | inr outside ↦
          rw outside
            (loop-outside n dg ih path _ cs p (filter-Below path cs.new_groups) le outside).0
      | inl below ↦ elim (Option-cases (get cs.new_groups p)) [
        | inl gone ↦ rw below (loop-none n dg ih path (groups_below cs) cs p le gone)
        | inr (v, there) ↦ rw below (
            loop-removes n dg ih path (groups_below cs) cs p le (
              ground
                (arith, contains-keys-filter path p cs.new_groups, contains-keys cs.new_groups p)))
      ]
    ]

    new_groups-delete_children :
        (cs : ChangeSet) (p : NodePath)
        → length cs.new_groups < n
        → get (delete_children dg cs path).new_groups p
          ≡ (if starts_with p path then none else get cs.new_groups p)
    unfolding delete_children groups_below
    new_groups-delete_children cs p le =
        rw (new_groups-delete_arrays _ (loop dg cs (groups_below cs))) (loop-below cs p le)

    new_arrays-delete_children :
        (cs : ChangeSet) (p : NodePath)
        → length cs.new_groups < n
        → get (delete_children dg cs path).new_arrays p
          ≡ (if starts_with p path then none else get cs.new_arrays p)
    unfolding delete_children groups_below
    new_arrays-delete_children cs p le =
        let after = loop dg cs (groups_below cs) in
        let below =
          filter_by (λ (e : NodePath × (NodeId × ZarrArrayMetadata)). starts_with e.0 path)
            after.new_arrays in
        ground (
          arith,
          new_arrays-delete_arrays below after p,
          contains-keys-filter path p after.new_arrays,
          contains-keys after.new_arrays p,
          loop-outside n dg ih path (groups_below cs) cs p (filter-Below path cs.new_groups) le,
        )

    delete_children-shrinks :
        (cs : ChangeSet) → length (delete_children dg cs path).new_groups ≤ length cs.new_groups
    unfolding delete_children groups_below
    delete_children-shrinks cs =
        rw (new_groups-delete_arrays _ (loop dg cs (groups_below cs)))
          (loop-shrinks n dg ih path (groups_below cs) cs)

  module _ (n : ℕ) (ih : Prunes n (delete_group_within n)) (cs : ChangeSet) (path : NodePath)
      (id : NodeId) where
    unlisted : ChangeSet
    unlisted = record cs {
      updated_attributes = remove cs.updated_attributes id;
      new_groups = remove cs.new_groups path;
    }

    new_groups-step :
        length cs.new_groups < suc n
        → (p : NodePath)
        → get (delete_group_within (suc n) cs path id).new_groups p
          ≡ (if is_new_group cs path && starts_with p path then none else get cs.new_groups p)
    unfolding delete_group_within unlisted
    new_groups-step le p = elim (Option-cases (get cs.new_groups path)) [
      | inl old ↦ ground arith
      | inr (v, new) ↦
          let shorter = length-remove-lt cs.new_groups path v new in
          ground (
            arith,
            new_groups-delete_children n (delete_group_within n) ih path unlisted p (omega arith),
            get-remove cs.new_groups path p,
            path_beq_iff path p,
            starts_with_self path,
          )
    ]

    new_arrays-step :
        length cs.new_groups < suc n
        → (p : NodePath)
        → get (delete_group_within (suc n) cs path id).new_arrays p
          ≡ (if is_new_group cs path && starts_with p path then none else get cs.new_arrays p)
    unfolding delete_group_within unlisted
    new_arrays-step le p = elim (Option-cases (get cs.new_groups path)) [
      | inl old ↦ ground arith
      | inr (v, new) ↦
          let shorter = length-remove-lt cs.new_groups path v new in
          ground (
            arith,
            new_arrays-delete_children n (delete_group_within n) ih path unlisted p (omega arith),
          )
    ]

    shrinks-step : length (delete_group_within (suc n) cs path id).new_groups ≤ length cs.new_groups
    unfolding delete_group_within unlisted
    shrinks-step = elim (Option-cases (get cs.new_groups path)) [
      | inl old ↦ ground arith
      | inr (v, new) ↦ ground (
        arith,
        delete_children-shrinks n (delete_group_within n) ih path unlisted,
        length-remove-lt cs.new_groups path v new,
      )
    ]

  delete_group_within-Prunes : (n : ℕ) → Prunes n (delete_group_within n)
  delete_group_within-Prunes zero = record {
    groups = λ cs path id le p. absurd (omega arith);
    arrays = λ cs path id le p. absurd (omega arith);
    shrinks = λ cs path id. unfold delete_group_within in omega arith;
  }
  delete_group_within-Prunes (suc n) =
      let ih = delete_group_within-Prunes n in
      record {
        groups = new_groups-step n ih;
        arrays = new_arrays-step n ih;
        shrinks = shrinks-step n ih;
      }

  -- Two bounds that give the same on whatever has few enough new groups
  module _ (n m : ℕ)
      (same : (cs : ChangeSet) (path : NodePath) (id : NodeId)
        → length cs.new_groups < n
        → length cs.new_groups < m
        → delete_group_within n cs path id ≡ delete_group_within m cs path id) where
    loop-enough :
        (l : List (NodePath × NodeId)) (cs : ChangeSet)
        → length cs.new_groups < n
        → length cs.new_groups < m
        → loop (delete_group_within n) cs l ≡ loop (delete_group_within m) cs l
    loop-enough [] cs h k = refl
    loop-enough (e ∷ l) cs h k =
        let shorter = (delete_group_within-Prunes n).shrinks cs e.0 e.1 in
        loop-enough l (delete_group_within n cs e.0 e.1) (omega arith) (omega arith)
        ∙ ap (λ c. loop (delete_group_within m) c l) (same cs e.0 e.1 h k)

    delete_children-enough :
        (cs : ChangeSet) (path : NodePath)
        → length cs.new_groups < n
        → length cs.new_groups < m
        → delete_children (delete_group_within n) cs path
          ≡ delete_children (delete_group_within m) cs path
    unfolding delete_children
    delete_children-enough cs path h k =
        ap
          (λ (c : ChangeSet).
            fold (λ d e. delete_array d e.0 e.1.0) c
              (filter_by (λ e. starts_with e.0 path) c.new_arrays))
          (loop-enough (filter_by (λ e. starts_with e.0 path) cs.new_groups) cs h k)

  enough_step :
      (n m : ℕ) (cs : ChangeSet) (path : NodePath) (id : NodeId)
      → length cs.new_groups < suc n
      → length cs.new_groups < suc m
      → ((cs : ChangeSet) (path : NodePath) (id : NodeId)
          → length cs.new_groups < n
          → length cs.new_groups < m
          → delete_group_within n cs path id ≡ delete_group_within m cs path id)
      → delete_group_within (suc n) cs path id ≡ delete_group_within (suc m) cs path id
  unfolding delete_group_within unlisted
  enough_step n m cs path id l k same = elim (Option-cases (get cs.new_groups path)) [
    | inl old ↦ ground arith
    | inr (v, new) ↦
        let shorter = length-remove-lt cs.new_groups path v new in
        ground (
          arith,
          new,
          delete_children-enough n m same (unlisted n (delete_group_within-Prunes n) cs path id)
              path (omega arith) (omega arith),
        )
  ]

  -- With a bound above the number of new groups the bound does not matter.
  delete_group_within-enough :
      (n m : ℕ) (cs : ChangeSet) (path : NodePath) (id : NodeId)
      → length cs.new_groups < n
      → length cs.new_groups < m
      → delete_group_within n cs path id ≡ delete_group_within m cs path id
  delete_group_within-enough zero m cs path id l k = absurd (omega arith)
  delete_group_within-enough (suc n) zero cs path id l k = absurd (omega arith)
  delete_group_within-enough (suc n) (suc m) cs path id l k =
      enough_step n m cs path id l k (delete_group_within-enough n m)

  -- A group that this session did not create is only flagged as deleted, and its attributes are
  -- forgotten.
  delete_group_old :
      (cs : ChangeSet) (path : NodePath) (id : NodeId)
      → is_new_group cs path ≡ false
      → delete_group cs path id ≡ record cs {
        updated_attributes = remove cs.updated_attributes id;
        deleted_groups = set_insert cs.deleted_groups path;
      }
  unfolding delete_group delete_group_within
  delete_group_old cs path id old = ground (arith, old)

  -- Deleting a group that this session created removes exactly the new groups and the new arrays
  -- at the path and below it. Deleting any other group removes no new node, flags the path as deleted
  -- and forgets the attributes that were set by its id. The bound on the depth of the recursion is
  -- enough: every number above that of the new groups gives the same change set.
  pub new_nodes-delete_group :
      (cs : ChangeSet) (path : NodePath) (id : NodeId) (p : NodePath) (n : ℕ)
      → length cs.new_groups < n
      → (get (delete_group cs path id).new_groups p
          ≡ (if is_new_group cs path && starts_with p path then none else get cs.new_groups p))
        × ((get (delete_group cs path id).new_arrays p
              ≡ (if is_new_group cs path && starts_with p path then none else get cs.new_arrays p))
            × (((is_new_group cs path ≡ true)
                  ⊎ (delete_group cs path id ≡ record cs {
                    updated_attributes = remove cs.updated_attributes id;
                    deleted_groups = set_insert cs.deleted_groups path;
                  }))
                × (delete_group_within n cs path id ≡ delete_group cs path id)))
  unfolding delete_group
  new_nodes-delete_group cs path id p n h =
      let bound = suc (length cs.new_groups) in
      let prunes = delete_group_within-Prunes bound in
      (
        prunes.groups cs path id (omega arith) p,
        (
          prunes.arrays cs path id (omega arith) p,
          (
            elim (Bool-cases (is_new_group cs path)) [
              | inl new ↦ inl new
              | inr old ↦ inr (delete_group_old cs path id old)
            ],
            delete_group_within-enough n bound cs path id h (omega arith),
          ),
        ),
      )
