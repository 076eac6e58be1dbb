-- ===== src/Tests/Ranges.antt =====
-- Byte ranges of a virtual chunk in an object of ten bytes.
use icechunk.Prelude.{ℕ, ◌+◌, ◌≡◌, ◌≤◌, refl, some, List, [], ◌∷◌, arith}
use icechunk.Format.ByteRanges.{bounded, last, slice}
use icechunk.VirtualRefs.{construct_valid_byte_range}
use icechunk.VirtualRefs.Ranges.{
  construct_valid_byte_range-within, slice-construct_valid_byte_range,
}

abbrev object : List ℕ
object = 0 ∷ 1 ∷ 2 ∷ 3 ∷ 4 ∷ 5 ∷ 6 ∷ 7 ∷ 8 ∷ 9 ∷ []

slice-construct_valid_byte_range_example :
    slice (construct_valid_byte_range (last 2) 3 4) object ≡ some (5 ∷ 6 ∷ [])
unfolding slice
slice-construct_valid_byte_range_example =
    slice-construct_valid_byte_range object 3 4 (last 2) (5 ∷ 6 ∷ []) (omega arith) (omega arith)
      (omega arith) refl

construct_valid_byte_range-within_example :
    (start : ℕ) × ((end : ℕ) × ((construct_valid_byte_range (bounded 1 9) 3 4 ≡ bounded start end)
        × ((3 ≤ start) × ((start ≤ end) × (end ≤ 3 + 4)))))
construct_valid_byte_range-within_example =
    construct_valid_byte_range-within (bounded 1 9) 3 4 (omega arith) (omega arith) (omega arith)
      (omega arith)
