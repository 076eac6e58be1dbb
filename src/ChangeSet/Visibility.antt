-- ===== src/ChangeSet/Visibility.antt =====
-- `is_deleted`: which paths a session hides.
use icechunk.Prelude.{
  ℕ, zero, suc, ◌≤◌, ◌≡◌, refl, ap, ◌∙◌, inl, inr, Bool, true, false, ◌||◌, List, [], ◌∷◌, arith,
  Eq, length, contains, any,
}
use icechunk.Dict.{set_remove}
use icechunk.Format.{
  External, NodePath, path_eq, path_beq_iff, NodeId, ancestors, starts_with, starts_with-contains,
}
use icechunk.Format.Paths.{ancestors_cases, starts_with_trans, starts_with_self}
use icechunk.Format.Nodes.{ZarrArrayMetadata}
use icechunk.ChangeSet.{ChangeSet, is_deleted_within, is_deleted, add_group, add_array}

-- Two lists have a common element, whichever is searched.
any-contains-cons {ℓ} :
    {A : Type ℓ} ⦃e : Eq A⦄ (x : A) (xs ys : List A)
    → any (contains (x ∷ xs)) ys ≡ (contains ys x || any (contains xs) ys)
any-contains-cons x xs [] = refl
any-contains-cons ⦃e⦄ x xs (y ∷ ys) =
    ground (arith, any-contains-cons x xs ys, e.beq_iff x y, e.beq_iff y x)

any-contains-nil {ℓ} : {A : Type ℓ} ⦃e : Eq A⦄ (ys : List A) → any (contains {A = A} []) ys ≡ false
any-contains-nil [] = refl
any-contains-nil (y ∷ ys) = any-contains-nil ys

any-contains_comm {ℓ} :
    {A : Type ℓ} ⦃e : Eq A⦄ (xs ys : List A) → any (contains xs) ys ≡ any (contains ys) xs
any-contains_comm [] ys = any-contains-nil ys
any-contains_comm (x ∷ xs) ys =
    any-contains-cons x xs ys ∙ ap (◌||◌ (contains ys x)) (any-contains_comm xs ys)

any-or {ℓ} :
    {A : Type ℓ} (f g : A → Bool) (xs : List A) → any (λ x. f x || g x) xs ≡ (any f xs || any g xs)
any-or f g [] = refl
any-or f g (x ∷ xs) = ground (arith, any-or f g xs)

module _ ⦃E : External⦄ (cs : ChangeSet) where
  -- The path itself was deleted in this session.
  abbrev pub flagged : NodePath → Bool
  flagged p = contains cs.deleted_groups p || contains cs.deleted_arrays p

  any-within :
      (n : ℕ)
      → ((p : NodePath)
          → length (ancestors p) ≤ n
          → is_deleted_within n cs p ≡ any flagged (ancestors p))
      → (g : ℕ) (q : NodePath) → length (ancestors q) ≤ g
      → g ≤ n
      → any (is_deleted_within n cs) (ancestors q) ≡ any flagged (ancestors q)
  any-within n ih zero q le bound = elim (ancestors_cases q) [
    | inl e ↦ absurd (ground arith)
    | inr (r, e) ↦ absurd (ground arith)
  ]
  any-within n ih (suc g) q le bound = elim (ancestors_cases q) [
    | inl e ↦ ground (arith, ih q)
    | inr (r, e) ↦ ground (arith, ih q, any-within n ih g r)
  ]

  -- With a number at least as large as the depth of the path, the recursion asks for every ancestor.
  pub is_deleted_within-any :
      (n : ℕ) (p : NodePath)
      → length (ancestors p) ≤ n
      → is_deleted_within n cs p ≡ any flagged (ancestors p)
  unfolding is_deleted_within
  is_deleted_within-any zero p le = elim (ancestors_cases p) [
    | inl e ↦ absurd (ground arith)
    | inr (r, e) ↦ absurd (ground arith)
  ]
  is_deleted_within-any (suc n) p le = elim (ancestors_cases p) [
    | inl e ↦ ground arith
    | inr (r, e) ↦ ground (arith, any-within n (is_deleted_within-any n) n r)
  ]

  is_deleted-any-ancestors : (p : NodePath) → is_deleted cs p ≡ any flagged (ancestors p)
  unfolding is_deleted
  is_deleted-any-ancestors p = is_deleted_within-any (length (ancestors p)) p (omega arith)

  any-starts_with :
      (p : NodePath) (l : List NodePath) → any (starts_with p) l ≡ any (contains l) (ancestors p)
  any-starts_with p l = any-map l ∙ any-contains_comm (ancestors p) l
    where
      any-map : (m : List NodePath) → any (starts_with p) m ≡ any (contains (ancestors p)) m
      any-map [] = refl
      any-map (q ∷ m) = ground (arith, starts_with-contains p q, any-map m)

  -- A path counts as deleted exactly if it starts with a path that this session deleted, as a
  -- group or as an array.
  pub is_deleted-any-starts_with :
      (p : NodePath)
      → is_deleted cs p
        ≡ (any (starts_with p) cs.deleted_groups || any (starts_with p) cs.deleted_arrays)
  is_deleted-any-starts_with p = ground (
    arith,
    is_deleted-any-ancestors p,
    any-or (contains cs.deleted_groups) (contains cs.deleted_arrays) (ancestors p),
    any-starts_with p cs.deleted_groups,
    any-starts_with p cs.deleted_arrays,
  )

  any-starts_with_trans :
      (p q : NodePath) (l : List NodePath)
      → starts_with p q ≡ true
      → any (starts_with q) l ≡ true
      → any (starts_with p) l ≡ true
  any-starts_with_trans p q (x ∷ l) h k =
      ground (arith, starts_with_trans p q x, any-starts_with_trans p q l)
  any-starts_with_trans p q [] h k = k

  -- Whatever lies below a deleted path is deleted.
  pub is_deleted_below :
      (p q : NodePath) → starts_with p q ≡ true → is_deleted cs q ≡ true → is_deleted cs p ≡ true
  is_deleted_below p q h k = ground (
    arith,
    is_deleted-any-starts_with p,
    is_deleted-any-starts_with q,
    any-starts_with_trans p q cs.deleted_groups,
    any-starts_with_trans p q cs.deleted_arrays,
  )

any-contains_mem {ℓ} :
    {A : Type ℓ} ⦃e : Eq A⦄ (f : A → Bool) (l : List A) (x : A)
    → contains l x ≡ true
    → f x ≡ true
    → any f l ≡ true
any-contains_mem ⦃e⦄ f (y ∷ l) x h k = ground (arith, e.beq_iff y x, any-contains_mem f l x)
any-contains_mem f [] x h k = h

module _ ⦃E : External⦄ (cs : ChangeSet) where
  -- A path that stands in the session's set of deleted groups stays hidden after `add_array` at
  -- that path: the array that was just added is treated as deleted.
  pub is_deleted-add_array :
      (path : NodePath) (node_id : NodeId) (metadata : ZarrArrayMetadata)
      → contains cs.deleted_groups path ≡ true
      → is_deleted (add_array cs path node_id metadata) path ≡ true
  unfolding add_array
  is_deleted-add_array path node_id metadata h = ground (
    arith,
    is_deleted-any-starts_with (add_array cs path node_id metadata) path,
    any-contains_mem (starts_with path) cs.deleted_groups path,
    starts_with_self path,
  )

  any-remove-le :
      (p path : NodePath) (l : List NodePath)
      → starts_with p path ≡ false
      → any (starts_with p) (set_remove l path) ≡ any (starts_with p) l
  unfolding set_remove
  any-remove-le p path (x ∷ l) h = ground (arith, path_beq_iff x path, any-remove-le p path l)
  any-remove-le p path [] h = refl

  -- `add_group` changes the visibility of no path that lies outside the new group.
  pub is_deleted-add_group_outside :
      (path p : NodePath) (node_id : NodeId)
      → starts_with p path ≡ false
      → is_deleted (add_group cs path node_id) p ≡ is_deleted cs p
  unfolding add_group
  is_deleted-add_group_outside path p node_id h = ground (
    arith,
    is_deleted-any-starts_with (add_group cs path node_id) p,
    is_deleted-any-starts_with cs p,
    any-remove-le p path cs.deleted_groups h,
  )
