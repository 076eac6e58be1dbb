-- ===== src/Format/Paths.antt =====
-- The hierarchy of paths: `ancestors` and `starts_with` of `Path`.
use icechunk.Prelude.{
  ℕ, zero, suc, ◌≤◌, ◌≡◌, ◌⊎◌, inl, inr, true, [], ◌∷◌, arith, ◌==◌, eq_of_==, ==-refl, Bool-cases,
  Option-cases, length, contains,
}
use icechunk.Format.{
  External, NodePath, path_eq, parent, ancestors, starts_with, ancestors_unfold,
  starts_with-contains,
}

module _ ⦃E : External⦄ where
  -- Either a path is the top of its hierarchy, or its other ancestors are those of a path.
  pub ancestors_cases :
      (p : NodePath) → (ancestors p ≡ p ∷ []) ⊎ ((q : NodePath) × (ancestors p ≡ p ∷ ancestors q))
  ancestors_cases p = elim (Option-cases (parent p)) [
    | inl top ↦ inl (ground (arith, ancestors_unfold p))
    | inr (q, above) ↦ inr (q, ground (arith, ancestors_unfold p))
  ]

  -- The ancestors of an ancestor are ancestors.
  contains-ancestors :
      (n : ℕ) (p q r : NodePath)
      → length (ancestors p) ≤ n
      → contains (ancestors p) q ≡ true
      → contains (ancestors q) r ≡ true
      → contains (ancestors p) r ≡ true
  contains-ancestors zero p q r le h k = elim (ancestors_cases p) [
    | inl e ↦ ground arith
    | inr (s, e) ↦ ground arith
  ]
  contains-ancestors (suc n) p q r le h k = elim (Bool-cases (p == q)) [
    | inl same ↦ rw (eq_of_== p q same) k
    | inr other ↦ elim (ancestors_cases p) [
      | inl e ↦ ground arith
      | inr (s, e) ↦ ground (arith, contains-ancestors n s q r)
    ]
  ]

  pub starts_with_trans :
      (p q r : NodePath) → starts_with p q ≡ true → starts_with q r ≡ true → starts_with p r ≡ true
  starts_with_trans p q r h k = ground (
    arith,
    starts_with-contains p q,
    starts_with-contains q r,
    starts_with-contains p r,
    contains-ancestors (length (ancestors p)) p q r,
  )

  pub starts_with_self : (p : NodePath) → starts_with p p ≡ true
  starts_with_self p = ground (arith, starts_with-contains p p, ancestors_unfold p, ==-refl p)
