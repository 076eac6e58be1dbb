-- ===== src/Dict.antt =====
-- `HashMap` and `HashSet` of Rust's standard library, as association lists. A list stands for one
-- order of iteration; every law about a lookup holds for lists with repeated keys too.
use icechunk.Prelude.{
  ◌≤◌, ◌<◌, ◌≡◌, refl, Bool, true, false, ◌||◌, Option, none, some, List, [], ◌∷◌, map, arith, Eq,
  ◌==◌, if◌then◌else◌, length, contains, or_else,
}

abbrev pub Map {ℓ κ} : Type ℓ → Type κ → Type (ℓ ⊔ κ)
Map K V = List (K × V)

module _ {ℓ κ} {K : Type ℓ} {V : Type κ} ⦃e : Eq K⦄ where
  unfoldable pub get : Map K V → K → Option V
  get [] k = none
  get ((j, v) ∷ m) k = if j == k then some v else get m k

  unfoldable pub remove : Map K V → K → Map K V
  remove [] k = []
  remove ((j, v) ∷ m) k = let rest = remove m k in if j == k then rest else (j, v) ∷ rest

  unfoldable pub insert : Map K V → K → V → Map K V
  unfolding remove
  insert m k v = (k, v) ∷ remove m k

  -- `contains_key`
  unfoldable pub contains_key : Map K V → K → Bool
  contains_key [] k = false
  contains_key ((j, v) ∷ m) k = (j == k) || contains_key m k

  -- `extend`: the entries of the second map win. The first entry of a key is the one that `get`
  -- reads, so it is inserted last.
  unfoldable pub extend : Map K V → Map K V → Map K V
  unfolding insert
  extend m [] = m
  extend m ((k, v) ∷ o) = insert (extend m o) k v

  -- `retain`, by a test on the key
  unfoldable pub retain : (K → Bool) → Map K V → Map K V
  retain p [] = []
  retain p ((j, v) ∷ m) = let rest = retain p m in if p j then (j, v) ∷ rest else rest

abbrev pub keys {ℓ κ} : {K : Type ℓ} {V : Type κ} → Map K V → List K
keys = map (λ e. e.0)

module _ {ℓ κ} {K : Type ℓ} {V : Type κ} ⦃e : Eq K⦄ where
  pub get-remove : (m : Map K V) (k j : K) → get (remove m k) j ≡ (if k == j then none else get m j)
  unfolding get remove
  get-remove [] k j = ground arith
  get-remove ((i, v) ∷ m) k j =
      ground (arith, get-remove m k j, e.beq_iff i k, e.beq_iff i j, e.beq_iff k j)

  pub get-insert :
      (m : Map K V) (k : K) (v : V) (j : K)
      → get (insert m k v) j ≡ (if k == j then some v else get m j)
  unfolding get insert
  get-insert m k v j = ground (arith, get-remove m k j)

  pub get-extend : (m o : Map K V) (j : K) → get (extend m o) j ≡ or_else (get o j) (get m j)
  unfolding get extend
  get-extend m [] j = refl
  get-extend m ((k, v) ∷ o) j = ground (arith, get-insert (extend m o) k v j, get-extend m o j)

  pub get-retain :
      (p : K → Bool) (m : Map K V) (j : K) → get (retain p m) j ≡ (if p j then get m j else none)
  unfolding get retain
  get-retain p [] j = ground arith
  get-retain p ((i, v) ∷ m) j = ground (arith, get-retain p m j, e.beq_iff i j)

  -- Removing a present key makes the map shorter.
  pub length-remove-le : (m : Map K V) (k : K) → length (remove m k) ≤ length m
  unfolding remove
  length-remove-le [] k = omega arith
  length-remove-le ((i, v) ∷ m) k = ground (arith, length-remove-le m k)

  pub length-remove-lt :
      (m : Map K V) (k : K) (v : V) → get m k ≡ some v → length (remove m k) < length m
  unfolding get remove
  length-remove-lt [] k v h = ground arith
  length-remove-lt ((i, w) ∷ m) k v h = ground (arith, length-remove-lt m k v, length-remove-le m k)

  pub contains_key-get :
      (m : Map K V) (k : K) → contains_key m k ≡ elim (get m k) [ none ↦ false | some _ ↦ true ]
  unfolding contains_key get
  contains_key-get [] k = refl
  contains_key-get ((i, v) ∷ m) k = ground (arith, contains_key-get m k)

  pub contains-keys :
      (m : Map K V) (k : K) → contains (keys m) k ≡ elim (get m k) [ none ↦ false | some _ ↦ true ]
  unfolding get
  contains-keys [] k = refl
  contains-keys ((i, v) ∷ m) k = ground (arith, contains-keys m k)

  -- No key stands twice, as in a `HashMap`.
  abbrev pub Distinct : Map K V → Type 0
  Distinct [] = Unit
  Distinct ((k, v) ∷ m) = (contains_key m k ≡ false) × Distinct m

  contains_key-remove :
      (m : Map K V) (k j : K) → contains_key m j ≡ false → contains_key (remove m k) j ≡ false
  unfolding contains_key remove
  contains_key-remove [] k j h = refl
  contains_key-remove ((i, v) ∷ m) k j h = ground (arith, contains_key-remove m k j)

  contains_key-remove_self : (m : Map K V) (k : K) → contains_key (remove m k) k ≡ false
  unfolding contains_key remove
  contains_key-remove_self [] k = refl
  contains_key-remove_self ((i, v) ∷ m) k = ground (arith, contains_key-remove_self m k)

  pub remove-Distinct : (m : Map K V) (k : K) → Distinct m → Distinct (remove m k)
  unfolding remove
  remove-Distinct [] k d = tt
  remove-Distinct ((i, v) ∷ m) k d =
      ground (arith, remove-Distinct m k d.1, contains_key-remove m k i d.0)

  pub insert-Distinct : (m : Map K V) (k : K) (v : V) → Distinct m → Distinct (insert m k v)
  unfolding insert
  insert-Distinct m k v d = (contains_key-remove_self m k, remove-Distinct m k d)

pub ruleset dict_laws = (get-remove, get-insert, get-extend, get-retain)

-- `HashSet` as a list of its elements
module _ {ℓ} {A : Type ℓ} ⦃e : Eq A⦄ where
  unfoldable pub set_remove : List A → A → List A
  set_remove [] a = []
  set_remove (x ∷ xs) a = let rest = set_remove xs a in if x == a then rest else x ∷ rest

  unfoldable pub set_insert : List A → A → List A
  set_insert xs a = if contains xs a then xs else a ∷ xs

  unfoldable pub set_extend : List A → List A → List A
  unfolding set_insert
  set_extend xs [] = xs
  set_extend xs (y ∷ ys) = set_insert (set_extend xs ys) y

  pub contains-remove :
      (xs : List A) (a b : A)
      → contains (set_remove xs a) b ≡ (if a == b then false else contains xs b)
  unfolding set_remove
  contains-remove [] a b = ground arith
  contains-remove (x ∷ xs) a b =
      ground (arith, contains-remove xs a b, e.beq_iff x a, e.beq_iff x b, e.beq_iff a b)

  pub contains-insert :
      (xs : List A) (a b : A) → contains (set_insert xs a) b ≡ ((a == b) || contains xs b)
  unfolding set_insert
  contains-insert xs a b = ground (arith, e.beq_iff a b)

  pub contains-extend :
      (xs ys : List A) (b : A) → contains (set_extend xs ys) b ≡ (contains ys b || contains xs b)
  unfolding set_extend
  contains-extend xs [] b = refl
  contains-extend xs (y ∷ ys) b =
      ground (arith, contains-insert (set_extend xs ys) y b, contains-extend xs ys b)

pub ruleset set_laws = (contains-remove, contains-insert, contains-extend)
