-- ===== src/Format/ByteRanges/Slices.antt =====
-- `Bytes::slice` of a slice.
use icechunk.Prelude.{
  ℕ, zero, suc, ◌+◌, ◌-◌, ◌≤◌, ◌≡◌, refl, ap, sym, ◌∙◌, List, [], ◌∷◌, arith, length, take, drop,
}
use icechunk.Format.ByteRanges.{slice_bytes}

module _ {ℓ} {A : Type ℓ} where
  pub length-take : (n : ℕ) (xs : List A) → n ≤ length xs → length (take n xs) ≡ n
  length-take zero xs h = refl
  length-take (suc n) [] h = absurd (omega (arith, h))
  length-take (suc n) (x ∷ xs) h = ground (arith, length-take n xs, h)

  pub length-drop : (n : ℕ) (xs : List A) → length (drop n xs) ≡ length xs - n
  length-drop zero xs = omega arith
  length-drop (suc n) [] = omega arith
  length-drop (suc n) (x ∷ xs) = ground (arith, length-drop n xs)

  take_nil : (n : ℕ) → ◌≡◌ {A = List A} (take n []) []
  take_nil zero = refl
  take_nil (suc n) = refl

  drop_nil : (n : ℕ) → ◌≡◌ {A = List A} (drop n []) []
  drop_nil zero = refl
  drop_nil (suc n) = refl

  drop-drop : (n m : ℕ) (xs : List A) → drop n (drop m xs) ≡ drop (m + n) xs
  drop-drop n zero xs = ap (λ k. drop k xs) (omega arith)
  drop-drop n (suc m) [] = drop_nil n ∙ sym (drop_nil (suc m + n))
  drop-drop n (suc m) (x ∷ xs) =
      let e : suc (m + n) ≡ suc m + n = omega arith in
      drop-drop n m xs ∙ ap (λ k. drop k (x ∷ xs)) e

  take-take : (n m : ℕ) (xs : List A) → n ≤ m → take n (take m xs) ≡ take n xs
  take-take zero m xs h = refl
  take-take (suc n) zero xs h = absurd (omega (arith, h))
  take-take (suc n) (suc m) [] h = refl
  take-take (suc n) (suc m) (x ∷ xs) h = ap (λ ys. x ∷ ys) (take-take n m xs (omega (arith, h)))

  drop-take : (n m : ℕ) (xs : List A) → drop n (take m xs) ≡ take (m - n) (drop n xs)
  drop-take zero m xs = ap (λ k. take k xs) (omega arith)
  drop-take (suc n) zero xs =
      let e : 0 ≡ 0 - suc n = omega arith in ap (λ k. take k (drop (suc n) xs)) e
  drop-take (suc n) (suc m) [] = sym (take_nil (suc m - suc n))
  drop-take (suc n) (suc m) (x ∷ xs) = drop-take n m xs ∙ ap (λ k. take k (drop n xs)) (omega arith)

  slice_of_slice :
      (xs : List A) (offset l start end : ℕ)
      → end ≤ l
      → take (end - start) (drop start (take l (drop offset xs)))
        ≡ take ((offset + end) - (offset + start)) (drop (offset + start) xs)
  slice_of_slice xs offset l start end h =
      ap (take (end - start)) (drop-take start l (drop offset xs))
      ∙ (take-take (end - start) (l - start) (drop start (drop offset xs)) (omega (arith, h))
          ∙ (ap (take (end - start)) (drop-drop start offset xs)
              ∙ ap (λ k. take k (drop (offset + start) xs)) (omega arith)))

-- Of the slice of `file` that is `l` bytes long, the slice from `start` to `end` is a slice of `file`.
pub slice_bytes-slice :
    (file : List ℕ) (offset l start end : ℕ)
    → start ≤ end
    → end ≤ l
    → offset + l ≤ length file
    → slice_bytes (take l (drop offset file)) start end
      ≡ slice_bytes file (offset + start) (offset + end)
slice_bytes-slice file offset l start end h k b = grind (
  arith,
  slice_of_slice file offset l start end k,
  length-take l (drop offset file),
  length-drop offset file,
  h,
  k,
  b,
)
