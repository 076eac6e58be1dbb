-- ===== src/Refs/Versions.antt =====
-- Branch versions and their encoding.
use icechunk.Prelude.{
  ℕ, ◌+◌, ◌-◌, ◌/◌, ◌%◌, ◌^◌, ◌≤◌, ◌<◌, ◌≡◌, refl, ap, ◌∙◌, true, some, List, [], ◌∷◌, arith,
  list_lt, ok,
}
use icechunk.Refs.{
  Codec, AreBytes, low_bytes, from_low_bytes, max_version_number, crock_encode_int,
  crock_decode_int, decode_version, encode_version,
}

low_bytes-AreBytes : (n : ℕ) → AreBytes (low_bytes n)
unfolding low_bytes
low_bytes-AreBytes n = omega arith

from_low_bytes-low_bytes : (n : ℕ) → n ≤ max_version_number → from_low_bytes (low_bytes n) ≡ some n
unfolding low_bytes from_low_bytes
from_low_bytes-low_bytes n h = ap some (omega arith)

list_lt_step :
    (a b : ℕ) (xs ys : List ℕ)
    → a ≤ b
    → (a ≡ b → list_lt xs ys ≡ true)
    → list_lt (a ∷ xs) (b ∷ ys) ≡ true
list_lt_step a b xs ys h k = ground arith

list_lt_last : (a b : ℕ) → a < b → list_lt (a ∷ []) (b ∷ []) ≡ true
list_lt_last a b h = ground arith

abbrev two_bytes : ℕ → List ℕ
two_bytes n = (n / 2 ^ 8 % 256) ∷ (n % 256) ∷ []

abbrev three_bytes : ℕ → List ℕ
three_bytes n = (n / 2 ^ 16 % 256) ∷ two_bytes n

abbrev four_bytes : ℕ → List ℕ
four_bytes n = (n / 2 ^ 24 % 256) ∷ three_bytes n

-- The order of numbers is the order of their bytes.
low_bytes-lt :
    (m n : ℕ)
    → m ≤ max_version_number
    → n ≤ max_version_number
    → m < n
    → list_lt (low_bytes m) (low_bytes n) ≡ true
unfolding low_bytes
low_bytes-lt m n hm hn h =
    list_lt_step (m / 2 ^ 32 % 256) (n / 2 ^ 32 % 256) (four_bytes m) (four_bytes n) (omega arith)
      λ p.
        list_lt_step (m / 2 ^ 24 % 256) (n / 2 ^ 24 % 256) (three_bytes m) (three_bytes n)
          (omega arith)
          λ q.
            list_lt_step (m / 2 ^ 16 % 256) (n / 2 ^ 16 % 256) (two_bytes m) (two_bytes n)
              (omega arith)
              λ r.
                list_lt_step (m / 2 ^ 8 % 256) (n / 2 ^ 8 % 256) ((m % 256) ∷ []) ((n % 256) ∷ [])
                  (omega arith) λ s. list_lt_last (m % 256) (n % 256) (omega arith)

module _ ⦃C : Codec⦄ where
  crock_decode-encode :
      (n : ℕ) → n ≤ max_version_number → crock_decode_int (crock_encode_int n) ≡ some n
  unfolding crock_decode_int crock_encode_int
  crock_decode-encode n h =
      rw (C.base32_round_trip (low_bytes n) (low_bytes-AreBytes n), crock_decode_int)
        (from_low_bytes-low_bytes n h)

  -- A branch version up to the maximum that is encoded and decoded again is the same version.
  pub decode-encode_version :
      (v : ℕ) → v ≤ max_version_number → decode_version (encode_version v) ≡ ok v
  unfolding decode_version encode_version
  decode-encode_version v h =
      rw
        (
          crock_decode-encode ((max_version_number + 2 ^ 64 - v) % 2 ^ 64) (omega arith),
          decode_version,
        )
        (ap ok (omega arith))

  -- The encoding reverses the order: a later version, up to the maximum, has a smaller name.
  pub encode_version_antitone :
      (v w : ℕ)
      → v < w
      → w ≤ max_version_number
      → list_lt (encode_version w) (encode_version v) ≡ true
  unfolding encode_version low_bytes
  encode_version_antitone v w h top =
      let m = (max_version_number + 2 ^ 64 - w) % 2 ^ 64 in
      let n = (max_version_number + 2 ^ 64 - v) % 2 ^ 64 in
      C.base32_order (low_bytes m) (low_bytes n) (low_bytes-AreBytes m) (low_bytes-AreBytes n) refl
      ∙ low_bytes-lt m n (omega arith) (omega arith) (omega arith)
