-- ===== src/Btree.antt =====
-- `BTreeMap` of Rust's standard library, as an association list in the order of its keys.
use icechunk.Prelude.{
  ◌≡◌, refl, ap, inl, inr, Bool, true, not, some, [], ◌∷◌, arith, Eq, Ord, ◌==◌, if◌then◌else◌,
  Bool-cases, filter_by,
}
use icechunk.Dict.{Map, get}

module _ {ℓ κ} {K : Type ℓ} {V : Type κ} ⦃e : Eq K⦄ ⦃o : Ord K⦄ where
  -- `insert`: a key that is present keeps its place.
  unfoldable pub tree_insert : Map K V → K → V → Map K V
  tree_insert [] k v = (k, v) ∷ []
  tree_insert ((j, w) ∷ m) k v =
      let rest = tree_insert m k v in
      if k == j then (k, v) ∷ m else if o.lt k j then (k, v) ∷ (j, w) ∷ m else (j, w) ∷ rest

  -- Every key of the map is above the given one.
  abbrev pub Above : K → Map K V → Type 0
  Above k [] = Unit
  Above k ((j, v) ∷ m) = (o.lt k j ≡ true) × Above k m

  abbrev pub Sorted : Map K V → Type 0
  Sorted [] = Unit
  Sorted ((k, v) ∷ m) = Above k m × Sorted m

  pub get-tree_insert :
      (m : Map K V) (k : K) (v : V) (j : K)
      → get (tree_insert m k v) j ≡ (if k == j then some v else get m j)
  unfolding get tree_insert
  get-tree_insert [] k v j = refl
  get-tree_insert ((i, w) ∷ m) k v j =
      ground (arith, get-tree_insert m k v j, e.beq_iff k i, e.beq_iff k j, e.beq_iff i j)

  pub Above-trans : (i k : K) (m : Map K V) → o.lt i k ≡ true → Above k m → Above i m
  Above-trans i k [] h a = tt
  Above-trans i k ((j, v) ∷ m) h a = (o.lt_trans i k j h a.0, Above-trans i k m h a.1)

  tree_insert-Above :
      (m : Map K V) (k : K) (v : V) (i : K)
      → o.lt i k ≡ true
      → Above i m
      → Above i (tree_insert m k v)
  unfolding tree_insert
  tree_insert-Above [] k v i h a = (h, tt)
  tree_insert-Above ((j, w) ∷ m) k v i h a =
      ground (arith, tree_insert-Above m k v i h a.1, e.beq_iff k j)

  -- `insert` keeps the keys in order.
  pub tree_insert-Sorted : (m : Map K V) (k : K) (v : V) → Sorted m → Sorted (tree_insert m k v)
  unfolding tree_insert
  tree_insert-Sorted [] k v s = (tt, tt)
  tree_insert-Sorted ((j, w) ∷ m) k v s = elim (Bool-cases (k == j)) [
    | inl same ↦ rw same (ground (arith, e.beq_iff k j))
    | inr other ↦ elim (Bool-cases (o.lt k j)) [
      | inl below ↦ rw other (rw below ((below, Above-trans k j m below s.0), s))
      | inr above ↦ rw other (
          rw above (
            tree_insert-Above m k v j (ground (arith, o.lt_total k j, e.beq_iff k j)) s.0,
            tree_insert-Sorted m k v s.1,
          ))
    ]
  ]

  -- `range((Included(k), Unbounded))` and `range((Excluded(k), Unbounded))`
  unfoldable pub range_from : K → Map K V → Map K V
  range_from k m = filter_by (λ x. not (o.lt x.0 k)) m

  unfoldable pub range_after : K → Map K V → Map K V
  range_after k m = filter_by (λ x. o.lt k x.0) m

  range_after_all : (k : K) (m : Map K V) → Above k m → range_after k m ≡ m
  unfolding range_after
  range_after_all k [] a = refl
  range_after_all k ((j, v) ∷ m) a = rw a.0 (ap (◌∷◌ (j, v)) (range_after_all k m a.1))

  module _ (P : K → Bool) (up : (a b : K) → P a ≡ true → o.lt a b ≡ true → P b ≡ true) where
    abbrev upper : Map K V → Map K V
    upper m = filter_by (λ x. P x.0) m

    upper_all : (k : K) (m : Map K V) → P k ≡ true → Above k m → upper m ≡ m
    upper_all k [] h a = refl
    upper_all k ((j, v) ∷ m) h a = rw (up k j h a.0) (ap (◌∷◌ (j, v)) (upper_all k m h a.1))

    upper-head : (m : Map K V) (x : K × V) (r : Map K V) → upper m ≡ x ∷ r → P x.0 ≡ true
    upper-head [] x r h = ground arith
    upper-head ((j, v) ∷ m) x r h = ground (arith, upper-head m x r)

    -- What follows the first key of an upper part is the rest of that part.
    upper-range_after :
        (m : Map K V) (x : K × V) (r : Map K V) → Sorted m → upper m ≡ x ∷ r → range_after x.0 m ≡ r
    unfolding range_after
    upper-range_after [] x r s h = ground arith
    upper-range_after ((j, v) ∷ m) x r s h = elim (Bool-cases (P j)) [
      | inl here ↦ ground (arith, o.lt_irrefl j, range_after_all j m s.0, upper_all j m here s.0)
      | inr later ↦ ground (arith, upper-range_after m x r s.1, upper-head m x r, up x.0 j)
    ]

  -- The next key after the first of a range is the second of that range.
  pub range_from-next :
      (k : K) (m : Map K V) (x : K × V) (r : Map K V)
      → Sorted m
      → range_from k m ≡ x ∷ r
      → range_after x.0 m ≡ r
  unfolding range_from
  range_from-next k =
      upper-range_after (λ j. not (o.lt j k)) (λ a b h q. ground (arith, o.lt_trans a b k q))

  pub range_after-next :
      (k : K) (m : Map K V) (x : K × V) (r : Map K V)
      → Sorted m
      → range_after k m ≡ x ∷ r
      → range_after x.0 m ≡ r
  unfolding range_after
  range_after-next k = upper-range_after (λ j. o.lt k j) (λ a b h q. o.lt_trans k a b h q)

  -- Behind the first key stands the rest of the map.
  pub range_after-first : (x : K × V) (r : Map K V) → Sorted (x ∷ r) → range_after x.0 (x ∷ r) ≡ r
  unfolding range_after
  range_after-first (k, v) r s = ground (arith, o.lt_irrefl k, range_after_all k r s.0)
