-- ===== src/Conflicts/Solver/Resolution.antt =====
-- What the conflict solver of icechunk/src/conflicts/basic_solver.rs gives.
use icechunk.Prelude.{
  ◌≡◌, refl, sym, ap, ◌∙◌, Bool, true, false, ◌&&◌, Option, none, some, List, [], ◌∷◌, arith,
  nat_eq, list_eq, ◌==◌, if◌then◌else◌, any, contains, ◌⊎◌, inl, inr, Bool-cases,
}
use icechunk.Format.{External, NodeId, ChunkIndices}
use icechunk.ChangeSet.{ChangeSet, get_chunk_ref, drop_chunk_changes, undo_user_attributes_update}
use icechunk.ChangeSet.Chunks.{get_chunk_ref-drop_chunk_changes}
use icechunk.Conflicts.{
  Conflict, new_node_conflicts_with_existing_node, new_node_in_invalid_group,
  zarr_metadata_double_update, zarr_metadata_update_of_deleted_array, user_attributes_double_update,
  user_attributes_update_of_deleted_node, chunk_double_update, chunks_updated_in_deleted_array,
  chunks_updated_in_updated_array, delete_of_updated_array, delete_of_updated_group, patched,
  unsolvable,
}
use icechunk.Conflicts.Solver.{
  VersionSelection, fail, use_ours, use_theirs, BasicConflictSolver, is_fail, is_unsolvable,
  resolve, resolve_all, solve_conflicts, choose, unless,
}

some_inj : {A : Type 0} → (a b : A) → some a ≡ some b → a ≡ b
some_inj a b h = cc h

module _ ⦃E : External⦄ (solver : BasicConflictSolver) where
  choose_returns :
      (v : VersionSelection) (ours theirs : ChangeSet)
      → is_fail v ≡ false
      → (cs : ChangeSet) × (choose solver v ours theirs ≡ some cs)
  choose_returns fail ours theirs h = ground (arith, h)
  choose_returns use_ours ours theirs h = (ours, refl)
  choose_returns use_theirs ours theirs h = (theirs, refl)

  unless_returns :
      (b : Bool) (cs : ChangeSet) → b ≡ false → (cs' : ChangeSet) × (unless solver b cs ≡ some cs')
  unless_returns true cs h = ground (arith, h)
  unless_returns false cs h = (cs, refl)

  -- A conflict that the solver does not refuse is resolved: the panics are not reached.
  resolve_returns :
      (cs : ChangeSet) (c : Conflict)
      → is_unsolvable solver c ≡ false
      → (cs' : ChangeSet) × (resolve solver cs c ≡ some cs')
  unfolding resolve is_unsolvable
  resolve_returns cs (new_node_conflicts_with_existing_node _) h = ground (arith, h)
  resolve_returns cs (new_node_in_invalid_group _) h = ground (arith, h)
  resolve_returns cs (zarr_metadata_double_update _) h = ground (arith, h)
  resolve_returns cs (zarr_metadata_update_of_deleted_array _) h = ground (arith, h)
  resolve_returns cs (user_attributes_update_of_deleted_node _) h = ground (arith, h)
  resolve_returns cs (chunks_updated_in_deleted_array _ _) h = ground (arith, h)
  resolve_returns cs (chunks_updated_in_updated_array _ _) h = ground (arith, h)
  resolve_returns cs (user_attributes_double_update _ id) h =
      choose_returns solver.on_user_attributes_conflict cs (undo_user_attributes_update cs id) h
  resolve_returns cs (chunk_double_update _ id coords) h =
      choose_returns solver.on_chunk_conflict cs (drop_chunk_changes cs id (contains coords)) h
  resolve_returns cs (delete_of_updated_array _) h =
      unless_returns solver.fail_on_delete_of_updated_array cs h
  resolve_returns cs (delete_of_updated_group _) h =
      unless_returns solver.fail_on_delete_of_updated_group cs h

  resolve_all_returns :
      (conflicts : List Conflict) (cs : ChangeSet)
      → any (is_unsolvable solver) conflicts ≡ false
      → (cs' : ChangeSet) × (resolve_all solver cs conflicts ≡ some cs')
  unfolding resolve_all
  resolve_all_returns [] cs h = (cs, refl)
  resolve_all_returns (c ∷ conflicts) cs h =
      let (cs₁, first) = resolve_returns cs c (ground (arith, h)) in
      let (cs₂, rest) = resolve_all_returns conflicts cs₁ (ground (arith, h)) in
      (cs₂, ground (arith, first, rest))

  -- The solver never panics: it refuses, with all the conflicts and the unmodified changes, exactly
  -- when some conflict is unsolvable for it, and gives a patched change set in all other cases.
  pub solve_conflicts_lem :
      (cs : ChangeSet) (conflicts : List Conflict)
      → ((any (is_unsolvable solver) conflicts ≡ true)
          × (solve_conflicts solver cs conflicts ≡ some (unsolvable conflicts cs)))
        ⊎ ((any (is_unsolvable solver) conflicts ≡ false)
            × ((cs' : ChangeSet) × (solve_conflicts solver cs conflicts ≡ some (patched cs'))))
  unfolding solve_conflicts
  solve_conflicts_lem cs conflicts = elim (Bool-cases (any (is_unsolvable solver) conflicts)) [
    | inl refused ↦ inl (refused, ground (arith, refused))
    | inr allowed ↦
        let (cs', done) = resolve_all_returns conflicts cs allowed in
        inr (allowed, (cs', ground (arith, allowed, done)))
  ]

  -- The conflict takes the chunk away.
  abbrev pub is_theirs : VersionSelection → Bool
  is_theirs use_theirs = true
  is_theirs use_ours = false
  is_theirs fail = false

  unfoldable pub takes : NodeId → ChunkIndices → Conflict → Bool
  takes id coord (chunk_double_update _ node_id coords) =
      is_theirs solver.on_chunk_conflict && ((node_id == id) && contains coords coord)
  takes id coord _ = false

  get_chunk_ref-choose :
      (v : VersionSelection) (ours cs' : ChangeSet) (node : NodeId) (coords : List ChunkIndices)
      (id : NodeId) (coord : ChunkIndices)
      → choose solver v ours (drop_chunk_changes ours node (contains coords)) ≡ some cs'
      → get_chunk_ref cs' id coord ≡ (
          if is_theirs v && ((node == id) && contains coords coord)
          then none
          else get_chunk_ref ours id coord)
  get_chunk_ref-choose fail ours cs' node coords id coord h = ground (arith, h)
  get_chunk_ref-choose use_ours ours cs' node coords id coord h =
      ap (λ c. get_chunk_ref c id coord) (sym (some_inj ours cs' h))
  get_chunk_ref-choose use_theirs ours cs' node coords id coord h =
      ap (λ c. get_chunk_ref c id coord)
        (sym (some_inj (drop_chunk_changes ours node (contains coords)) cs' h))
      ∙ get_chunk_ref-drop_chunk_changes ours node (contains coords) id coord

  get_chunk_ref-choose_undo :
      (v : VersionSelection) (ours cs' : ChangeSet) (node id : NodeId) (coord : ChunkIndices)
      → choose solver v ours (undo_user_attributes_update ours node) ≡ some cs'
      → get_chunk_ref cs' id coord ≡ get_chunk_ref ours id coord
  unfolding get_chunk_ref undo_user_attributes_update
  get_chunk_ref-choose_undo fail ours cs' node id coord h = ground (arith, h)
  get_chunk_ref-choose_undo use_ours ours cs' node id coord h =
      ap (λ c. get_chunk_ref c id coord) (sym (some_inj ours cs' h))
  get_chunk_ref-choose_undo use_theirs ours cs' node id coord h =
      ap (λ c. get_chunk_ref c id coord)
        (sym (some_inj (undo_user_attributes_update ours node) cs' h))

  get_chunk_ref-unless :
      (b : Bool) (ours cs' : ChangeSet) (id : NodeId) (coord : ChunkIndices)
      → unless solver b ours ≡ some cs'
      → get_chunk_ref cs' id coord ≡ get_chunk_ref ours id coord
  get_chunk_ref-unless true ours cs' id coord h = ground (arith, h)
  get_chunk_ref-unless false ours cs' id coord h =
      ap (λ c. get_chunk_ref c id coord) (sym (some_inj ours cs' h))

  get_chunk_ref-resolve :
      (c : Conflict) (cs cs' : ChangeSet) (id : NodeId) (coord : ChunkIndices)
      → resolve solver cs c ≡ some cs'
      → get_chunk_ref cs' id coord ≡ (if takes id coord c then none else get_chunk_ref cs id coord)
  unfolding resolve takes
  get_chunk_ref-resolve (new_node_conflicts_with_existing_node _) cs cs' id coord h =
      ground (arith, h)
  get_chunk_ref-resolve (new_node_in_invalid_group _) cs cs' id coord h = ground (arith, h)
  get_chunk_ref-resolve (zarr_metadata_double_update _) cs cs' id coord h = ground (arith, h)
  get_chunk_ref-resolve (zarr_metadata_update_of_deleted_array _) cs cs' id coord h =
      ground (arith, h)
  get_chunk_ref-resolve (user_attributes_update_of_deleted_node _) cs cs' id coord h =
      ground (arith, h)
  get_chunk_ref-resolve (chunks_updated_in_deleted_array _ _) cs cs' id coord h = ground (arith, h)
  get_chunk_ref-resolve (chunks_updated_in_updated_array _ _) cs cs' id coord h = ground (arith, h)
  get_chunk_ref-resolve (user_attributes_double_update _ node) cs cs' id coord h =
      get_chunk_ref-choose_undo solver.on_user_attributes_conflict cs cs' node id coord h
  get_chunk_ref-resolve (chunk_double_update _ node coords) cs cs' id coord h =
      get_chunk_ref-choose solver.on_chunk_conflict cs cs' node coords id coord h
  get_chunk_ref-resolve (delete_of_updated_array _) cs cs' id coord h =
      get_chunk_ref-unless solver.fail_on_delete_of_updated_array cs cs' id coord h
  get_chunk_ref-resolve (delete_of_updated_group _) cs cs' id coord h =
      get_chunk_ref-unless solver.fail_on_delete_of_updated_group cs cs' id coord h

  get_chunk_ref-resolved :
      (c : Conflict) (conflicts : List Conflict) (cs cs' : ChangeSet) (id : NodeId)
      (coord : ChunkIndices) (r : Option ChangeSet)
      → ((first : ChangeSet)
          → resolve_all solver first conflicts ≡ some cs'
          → get_chunk_ref cs' id coord
            ≡ (if any (takes id coord) conflicts then none else get_chunk_ref first id coord))
      → resolve solver cs c ≡ r
      → (elim r [ none ↦ none | some first ↦ resolve_all solver first conflicts ]) ≡ some cs'
      → get_chunk_ref cs' id coord
        ≡ (if any (takes id coord) (c ∷ conflicts) then none else get_chunk_ref cs id coord)
  get_chunk_ref-resolved c conflicts cs cs' id coord none later e k = ground (arith, k)
  get_chunk_ref-resolved c conflicts cs cs' id coord (some first) later e k =
      ground (arith, get_chunk_ref-resolve c cs first id coord e, later first k)

  -- Resolving conflicts takes from a change set exactly the chunks that a chunk conflict names, and
  -- those only when the solver is told to use theirs; every other chunk stays as the session set it.
  pub get_chunk_ref-resolve_all :
      (conflicts : List Conflict) (cs cs' : ChangeSet) (id : NodeId) (coord : ChunkIndices)
      → resolve_all solver cs conflicts ≡ some cs'
      → get_chunk_ref cs' id coord
        ≡ (if any (takes id coord) conflicts then none else get_chunk_ref cs id coord)
  unfolding resolve_all
  get_chunk_ref-resolve_all [] cs cs' id coord h =
      ap (λ c. get_chunk_ref c id coord) (sym (some_inj cs cs' h))
  get_chunk_ref-resolve_all (c ∷ conflicts) cs cs' id coord h =
      get_chunk_ref-resolved c conflicts cs cs' id coord (resolve solver cs c)
        (λ first. get_chunk_ref-resolve_all conflicts first cs' id coord) refl h
