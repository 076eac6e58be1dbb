-- ===== src/Prelude/Equality.antt =====
-- Equality tests (`PartialEq`) and strict orders (`Ord`) as interfaces, with the instances for
-- numbers, lists and pairs. The order on lists and pairs is lexicographic, as Rust derives it.
use Prim.Native.Nat.{ℕ}
use mathlib.Core.Path.{◌≡◌, refl}
use mathlib.Core.Logic.{◌↔◌, ◌⊎◌, inl, inr}
use mathlib.Core.Bool.{Bool, true, false, ◌&&◌, ◌||◌}
use mathlib.Core.List.{List, [], ◌∷◌}
use native.Mathlib.Omega.{arith}
use icechunk.Prelude.Tests.{ltb, nat_beq, nat_beq_iff}

pub record Eq {κ} (T : Type κ) : Type κ where
  pub beq : T → T → Bool
  pub beq_iff : (x y : T) → (beq x y ≡ true) ↔ (x ≡ y)

instance abbrev pub nat_eq : Eq ℕ
nat_eq = record { beq = nat_beq; beq_iff = nat_beq_iff }

module _ {ℓ} {A : Type ℓ} ⦃e : Eq A⦄ where
  infix 50 ◌==◌
  abbrev pub ◌==◌ : A → A → Bool
  x == y = e.beq x y

  pub ==-refl : (a : A) → (a == a) ≡ true
  ==-refl a = (e.beq_iff a a).1 refl

  pub eq_of_== : (a b : A) → (a == b) ≡ true → a ≡ b
  eq_of_== a b h = (e.beq_iff a b).0 h

module _ {ℓ} {A : Type ℓ} ⦃e : Eq A⦄ where
  abbrev pub list_beq : List A → List A → Bool
  list_beq [] [] = true
  list_beq (x ∷ xs) (y ∷ ys) = (x == y) && list_beq xs ys
  list_beq _ _ = false

  pub list_beq_iff : (xs ys : List A) → (list_beq xs ys ≡ true) ↔ (xs ≡ ys)
  list_beq_iff [] [] = ground arith
  list_beq_iff [] (y ∷ ys) = ground arith
  list_beq_iff (x ∷ xs) [] = ground arith
  list_beq_iff (x ∷ xs) (y ∷ ys) = ground (arith, e.beq_iff x y, list_beq_iff xs ys)

instance abbrev pub list_eq {ℓ} : {A : Type ℓ} ⦃e : Eq A⦄ → Eq (List A)
list_eq = record { beq = list_beq; beq_iff = list_beq_iff }

module _ {ℓ κ} {A : Type ℓ} {B : Type κ} ⦃e : Eq A⦄ ⦃f : Eq B⦄ where
  abbrev pub pair_beq : A × B → A × B → Bool
  pair_beq (a, b) (c, d) = (a == c) && (b == d)

  pub pair_beq_iff : (p q : A × B) → (pair_beq p q ≡ true) ↔ (p ≡ q)
  pair_beq_iff (a, b) (c, d) = ground (arith, e.beq_iff a c, f.beq_iff b d)

instance abbrev pub pair_eq {ℓ κ} : {A : Type ℓ} {B : Type κ} ⦃e : Eq A⦄ ⦃f : Eq B⦄ → Eq (A × B)
pair_eq = record { beq = pair_beq; beq_iff = pair_beq_iff }

-- A strict total order.
pub record Ord {ℓ} (A : Type ℓ) : Type ℓ where
  pub lt : A → A → Bool
  pub lt_irrefl : (a : A) → lt a a ≡ false
  pub lt_trans : (a b c : A) → lt a b ≡ true → lt b c ≡ true → lt a c ≡ true
  pub lt_total : (a b : A) → (lt a b ≡ true) ⊎ (a ≡ b) ⊎ (lt b a ≡ true)

-- `Vec<u32>` and byte arrays: lexicographic.
abbrev pub list_lt : List ℕ → List ℕ → Bool
list_lt _ [] = false
list_lt [] (y ∷ ys) = true
list_lt (x ∷ xs) (y ∷ ys) = ltb x y || (nat_beq x y && list_lt xs ys)

pub list_lt_irrefl : (xs : List ℕ) → list_lt xs xs ≡ false
list_lt_irrefl [] = refl
list_lt_irrefl (x ∷ xs) = ground (arith, list_lt_irrefl xs)

pub list_lt_trans :
    (xs ys zs : List ℕ) → list_lt xs ys ≡ true → list_lt ys zs ≡ true → list_lt xs zs ≡ true
list_lt_trans xs ys [] h k = ground arith
list_lt_trans xs [] (z ∷ zs) h k = ground arith
list_lt_trans [] (y ∷ ys) (z ∷ zs) h k = refl
list_lt_trans (x ∷ xs) (y ∷ ys) (z ∷ zs) h k = ground (arith, list_lt_trans xs ys zs)

pub list_lt_total : (xs ys : List ℕ) → (list_lt xs ys ≡ true) ⊎ (xs ≡ ys) ⊎ (list_lt ys xs ≡ true)
list_lt_total [] [] = inr (inl refl)
list_lt_total [] (y ∷ ys) = inl refl
list_lt_total (x ∷ xs) [] = inr (inr refl)
list_lt_total (x ∷ xs) (y ∷ ys) = ground (arith, list_lt_total xs ys)

instance abbrev pub list_ord : Ord (List ℕ)
list_ord = record {
  lt = list_lt;
  lt_irrefl = list_lt_irrefl;
  lt_trans = list_lt_trans;
  lt_total = list_lt_total;
}

module _ {ℓ κ} {A : Type ℓ} {B : Type κ} ⦃e : Eq A⦄ ⦃o : Ord A⦄ ⦃p : Ord B⦄ where
  abbrev pub pair_lt : A × B → A × B → Bool
  pair_lt (a, b) (c, d) = o.lt a c || ((a == c) && p.lt b d)

  pub pair_lt_irrefl : (x : A × B) → pair_lt x x ≡ false
  pair_lt_irrefl (a, b) = ground (arith, o.lt_irrefl a, p.lt_irrefl b)

  pub pair_lt_trans : (x y z : A × B) → pair_lt x y ≡ true → pair_lt y z ≡ true → pair_lt x z ≡ true
  pair_lt_trans (a, b) (c, d) (f, g) h k =
      ground
        (arith, o.lt_trans a c f, p.lt_trans b d g, e.beq_iff a c, e.beq_iff c f, e.beq_iff a f)

  pub pair_lt_total : (x y : A × B) → (pair_lt x y ≡ true) ⊎ (x ≡ y) ⊎ (pair_lt y x ≡ true)
  pair_lt_total (a, b) (c, d) =
      ground (arith, o.lt_total a c, p.lt_total b d, e.beq_iff a c, e.beq_iff c a)

instance abbrev pub pair_ord {ℓ κ} :
    {A : Type ℓ} {B : Type κ} ⦃e : Eq A⦄ ⦃o : Ord A⦄ ⦃p : Ord B⦄ → Ord (A × B)
pair_ord = record {
  lt = pair_lt;
  lt_irrefl = pair_lt_irrefl;
  lt_trans = pair_lt_trans;
  lt_total = pair_lt_total;
}
