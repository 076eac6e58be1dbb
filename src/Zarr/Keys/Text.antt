-- ===== src/Zarr/Keys/Text.antt =====
-- The texts of chunk indices, and what the last character of a key excludes.
use icechunk.Prelude.{
  ℕ, ◌^◌, ◌<◌, ◌≡◌, ◌≢◌, refl, ap, sym, ◌∙◌, false, none, some, [], ◌∷◌, ◌++◌, map, ◌==◌, nat_eq,
  list_eq, collect, eq_of_==, Bool-cases, ◌≤◌, ◌⊎◌, inl, inr, arith, Str, codes, strip_prefix,
  strip_suffix, strip_suffix-append, length, to_string, parse_u32, parse_u32-to_string,
  to_string-AllDigits, to_string_nonempty, AllDigits, Avoids, AllAvoid, Avoids-append, join,
}
use mathlib.Core.List.{reverse, reverse-append, append_assoc}
use icechunk.Format.{ChunkIndices}
use icechunk.Zarr.Keys.{is_zarr_v2, is_some, ends_with}

-- The indices of a chunk are `u32`.
abbrev pub AreIndices : ChunkIndices → Type 0
AreIndices [] = Unit
AreIndices (c ∷ cs) = (c < 2 ^ 32) × AreIndices cs

pub AllDigits-Avoids : (c : ℕ) (s : Str) → (c < 48) → AllDigits s → Avoids c s
AllDigits-Avoids c [] h k = tt
AllDigits-Avoids c (d ∷ s) h k = ((λ e. omega (arith, k.0.0, h, e)), AllDigits-Avoids c s h k.1)

pub collect-map :
    (coords : ChunkIndices)
    → AreIndices coords
    → collect (map parse_u32 (map to_string coords)) ≡ some coords
collect-map [] h = refl
collect-map (c ∷ cs) h = rw (parse_u32-to_string c h.0, collect-map cs h.1)

pub AllAvoid-to_string : (coords : ChunkIndices) → AllAvoid 47 (map to_string coords)
AllAvoid-to_string [] = tt
AllAvoid-to_string (c ∷ cs) =
    (AllDigits-Avoids 47 (to_string c) (omega arith) (to_string-AllDigits c), AllAvoid-to_string cs)

-- No `c` in the text of indices
pub AllDigits-Avoids_above : (c : ℕ) (s : Str) → (57 < c) → AllDigits s → Avoids c s
AllDigits-Avoids_above c [] h k = tt
AllDigits-Avoids_above c (d ∷ s) h k =
    ((λ e. omega (arith, k.0.1, h, e)), AllDigits-Avoids_above c s h k.1)

pub join-Avoids : (coords : ChunkIndices) → Avoids 99 (join 47 (map to_string coords))
unfolding join
join-Avoids [] = tt
join-Avoids (c ∷ []) = AllDigits-Avoids_above 99 (to_string c) (omega arith) (to_string-AllDigits c)
join-Avoids (c ∷ d ∷ cs) =
    Avoids-append 99 (to_string c) _
      (AllDigits-Avoids_above 99 (to_string c) (omega arith) (to_string-AllDigits c))
      ((λ e. omega (arith, e)), join-Avoids (d ∷ cs))

-- What ends with a text ends with its last character.
pub strip_suffix_last :
    (p s : Str) (x y : ℕ) (q : Str)
    → reverse p ≡ y ∷ q
    → x ≢ y
    → strip_suffix p (s ++ (x ∷ [])) ≡ none
unfolding strip_suffix strip_prefix
strip_suffix_last p s x y q h k = rw (h, reverse-append s (x ∷ [])) (ground (arith, k))

pub not_suffix : (p key : Str) → strip_suffix p key ≡ none → (key == p) ≡ false
not_suffix p key h = elim (Bool-cases (key == p)) [
  | inl same ↦ ground (arith, eq_of_== key p same, strip_suffix-append [] p, h)
  | inr other ↦ other
]

pub longer_differs : (s t : Str) → length t < length s → (s == t) ≡ false
longer_differs s t h = elim (Bool-cases (s == t)) [
  | inl same ↦ absurd (omega (arith, ap length (eq_of_== s t same), h))
  | inr other ↦ other
]

-- The characters that a chunk's key may end with
abbrev pub EndsKey : ℕ → Type 0
EndsKey x = (x ≡ 99) ⊎ ((48 ≤ x) × (x ≤ 57))

pub EndsKey-above : (x y : ℕ) → EndsKey x → 99 < y → x ≢ y
EndsKey-above x y (inl e) h = λ k. omega (arith, e, h, k)
EndsKey-above x y (inr e) h = λ k. omega (arith, e.1, h, k)

pub EndsKey-no_a : (x : ℕ) → EndsKey x → x ≢ 97
EndsKey-no_a x (inl e) = λ k. omega (arith, e, k)
EndsKey-no_a x (inr e) = λ k. omega (arith, e.1, k)

-- A text that is not empty has a last character.
pub AllDigits-snoc :
    (s : Str)
    → AllDigits s
    → s ≢ []
    → (u : Str) × ((x : ℕ) × ((s ≡ u ++ (x ∷ [])) × ((48 ≤ x) × (x ≤ 57))))
AllDigits-snoc [] h k = absurd (k refl)
AllDigits-snoc (x ∷ []) h k = ([], (x, (refl, h.0)))
AllDigits-snoc (x ∷ d ∷ s) h k =
    let nonempty : (d ∷ s) ≢ [] = ground arith in
    let (u, (y, (e, b))) = AllDigits-snoc (d ∷ s) h.1 nonempty in
    (x ∷ u, (y, (ap (λ r. x ∷ r) e, b)))

pub join_last :
    (c : ℕ) (cs : ChunkIndices)
    → (u : Str) × ((x : ℕ) × ((join 47 (map to_string (c ∷ cs)) ≡ u ++ (x ∷ []))
          × ((48 ≤ x) × (x ≤ 57))))
unfolding join
join_last c [] = AllDigits-snoc (to_string c) (to_string-AllDigits c) (to_string_nonempty c)
join_last c (d ∷ cs) =
    let (u, (y, (e, b))) = join_last d cs in
    (
      to_string c ++ (47 ∷ u),
      (
        y,
        (
          ap (λ r. to_string c ++ (47 ∷ r)) e ∙ sym (append_assoc (to_string c) (47 ∷ u) (y ∷ [])),
          b,
        ),
      ),
    )

module _ (key s : Str) (x : ℕ) (last : key ≡ s ++ (x ∷ [])) (ends : EndsKey x) where
  ends_otherwise :
      (p : Str) (y : ℕ) (q : Str) → reverse p ≡ y ∷ q → x ≢ y → strip_suffix p key ≡ none
  ends_otherwise p y q h d = ap (strip_suffix p) last ∙ strip_suffix_last p s x y q h d

  differs : (p : Str) (y : ℕ) (q : Str) → reverse p ≡ y ∷ q → x ≢ y → (key == p) ≡ false
  differs p y q h d = not_suffix p key (ends_otherwise p y q h d)

  pub chunk_key_no_metadata :
      ((key == codes "zarr.json") ≡ false) × (strip_suffix (codes "/zarr.json") key ≡ none)
  chunk_key_no_metadata =
      let not_n : x ≢ 110 = EndsKey-above x 110 ends (omega arith) in
      (differs _ 110 _ refl not_n, ends_otherwise _ 110 _ refl not_n)

  does_not_end : (p : Str) (y : ℕ) (q : Str) → reverse p ≡ y ∷ q → x ≢ y → ends_with key p ≡ false
  does_not_end p y q h d = ap is_some (ends_otherwise p y q h d)

  pub chunk_key_not_v2 : is_zarr_v2 key ≡ false
  unfolding is_zarr_v2
  chunk_key_not_v2 =
      let not_p : x ≢ 112 = EndsKey-above x 112 ends (omega arith) in
      let not_y : x ≢ 121 = EndsKey-above x 121 ends (omega arith) in
      let not_s : x ≢ 115 = EndsKey-above x 115 ends (omega arith) in
      let not_a : x ≢ 97 = EndsKey-no_a x ends in
      rw (
        differs (codes ".zgroup") 112 _ refl not_p,
        differs (codes ".zarray") 121 _ refl not_y,
        differs (codes ".zattrs") 115 _ refl not_s,
        differs (codes ".zmetadata") 97 _ refl not_a,
        does_not_end (codes "/.zgroup") 112 _ refl not_p,
        does_not_end (codes "/.zarray") 121 _ refl not_y,
        does_not_end (codes "/.zattrs") 115 _ refl not_s,
        does_not_end (codes "/.zmetadata") 97 _ refl not_a,
      )
