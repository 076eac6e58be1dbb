-- ===== src/VirtualRefs/Ranges.antt =====
-- What a range of a virtual chunk reads of the object that holds the chunk.
use icechunk.Prelude.{
  ℕ, ◌+◌, ◌-◌, ◌^◌, ◌≤◌, ◌<◌, ◌≡◌, refl, ap, sym, ◌∙◌, some, List, arith, length, take, drop,
}
use icechunk.Format.ByteRanges.{ByteRange, bounded, from, last, slice, slice_bytes}
use icechunk.Format.ByteRanges.Slices.{slice_bytes-slice, length-take, length-drop}
use icechunk.VirtualRefs.{construct_valid_byte_range}

-- The bytes of the chunk in the object
abbrev pub chunk_of : List ℕ → ℕ → ℕ → List ℕ
chunk_of object offset l = take l (drop offset object)

-- The offset where the range starts is one of the chunk.
abbrev pub StartsInside : ByteRange → ℕ → Type 0
StartsInside (bounded start end) l = start < l
StartsInside (from n) l = n < l
StartsInside (last n) l = n ≤ l

abbrev pub EndsInOrder : ByteRange → Type 0
EndsInOrder (bounded start end) = start ≤ end
EndsInOrder (from n) = Unit
EndsInOrder (last n) = Unit

-- The greatest offset that the range names
abbrev pub last_end : ByteRange → ℕ
last_end (bounded start end) = end
last_end (from n) = n
last_end (last n) = 0

bounded_ext : (a b c d : ℕ) → a ≡ c → b ≡ d → bounded a b ≡ bounded c d
bounded_ext a b c d h k = rw (h, k)

constructed_bounded :
    (start end offset l : ℕ)
    → start < l
    → end ≤ l
    → offset + l < 2 ^ 64
    → construct_valid_byte_range (bounded start end) offset l
      ≡ bounded (offset + start) (offset + end)
unfolding construct_valid_byte_range
constructed_bounded start end offset l h k b =
    bounded_ext _ _ (offset + start) (offset + end) (omega (arith, h, k, b))
      (omega (arith, h, k, b))

constructed_from :
    (start offset l : ℕ)
    → start < l
    → offset + l < 2 ^ 64
    → construct_valid_byte_range (from start) offset l ≡ bounded (offset + start) (offset + l)
unfolding construct_valid_byte_range
constructed_from start offset l h b =
    bounded_ext _ _ (offset + start) (offset + l) (omega (arith, h, b)) (omega (arith, h, b))

constructed_last :
    (n offset l : ℕ)
    → n ≤ l
    → offset + l < 2 ^ 64
    → construct_valid_byte_range (last n) offset l ≡ bounded (offset + (l - n)) (offset + l)
unfolding construct_valid_byte_range
constructed_last n offset l h b =
    bounded_ext _ _ (offset + (l - n)) (offset + l) (omega (arith, h, b)) (omega (arith, h, b))

length-chunk_of :
    (object : List ℕ) (offset l : ℕ)
    → offset + l ≤ length object
    → length (chunk_of object offset l) ≡ l
length-chunk_of object offset l h =
    length-take l (drop offset object) (omega (arith, length-drop offset object, h))

slice_bytes_inside :
    (bytes : List ℕ) (start end : ℕ) (part : List ℕ)
    → slice_bytes bytes start end ≡ some part
    → (start ≤ end) × (end ≤ length bytes)
slice_bytes_inside bytes start end part h = ground (arith, h)

last_bytes :
    (bytes : List ℕ) (n : ℕ) (part : List ℕ)
    → slice (last n) bytes ≡ some part
    → slice_bytes bytes (length bytes - n) (length bytes) ≡ some part
unfolding slice
last_bytes bytes n part h = ground (arith, h)

-- A range of the object at the place of a slice of the chunk reads that slice.
slice_at :
    (object : List ℕ) (offset l start end : ℕ) (range : ByteRange) (part : List ℕ)
    → offset + l ≤ length object
    → slice_bytes (chunk_of object offset l) start end ≡ some part
    → range ≡ bounded (offset + start) (offset + end)
    → slice range object ≡ some part
unfolding slice
slice_at object offset l start end range part inside h e =
    let ends = slice_bytes_inside (chunk_of object offset l) start end part h in
    let within : end ≤ l = omega (arith, ends.1, length-chunk_of object offset l inside) in
    ap (λ r. slice r object) e
    ∙ (sym (slice_bytes-slice object offset l start end ends.0 within inside) ∙ h)

-- What a range reads of the chunk's bytes, the constructed range reads of the object, when the chunk
-- lies in an object of less than 2^64 bytes and the range starts inside the chunk.
pub slice-construct_valid_byte_range :
    (object : List ℕ) (offset l : ℕ) (request : ByteRange) (part : List ℕ)
    → offset + l ≤ length object
    → length object < 2 ^ 64
    → StartsInside request l
    → slice request (chunk_of object offset l) ≡ some part
    → slice (construct_valid_byte_range request offset l) object ≡ some part
unfolding slice
slice-construct_valid_byte_range object offset l (bounded start end) part inside small starts h =
    let ends = slice_bytes_inside (chunk_of object offset l) start end part h in
    slice_at object offset l start end _ part inside h (
      constructed_bounded start end offset l starts
        (omega (arith, ends.1, length-chunk_of object offset l inside))
        (omega (arith, inside, small)))
slice-construct_valid_byte_range object offset l (from n) part inside small starts h =
    slice_at object offset l n l _ part inside
      (ap (slice_bytes (chunk_of object offset l) n) (sym (length-chunk_of object offset l inside))
        ∙ h)
      (constructed_from n offset l starts (omega (arith, inside, small)))
slice-construct_valid_byte_range object offset l (last n) part inside small starts h =
    slice_at object offset l (l - n) l _ part inside
      (ap (λ k. slice_bytes (chunk_of object offset l) (k - n) k)
          (sym (length-chunk_of object offset l inside))
        ∙ last_bytes (chunk_of object offset l) n part h)
      (constructed_last n offset l starts (omega (arith, inside, small)))

-- Inside the chunk, and without a wrap at 2^64: what a range that starts inside a chunk of an object
-- of less than 2^64 bytes, and whose ends are in order, is taken to: a range from an offset of the
-- chunk to one that is not beyond its end, the ends still in order.
pub construct_valid_byte_range-within :
    (request : ByteRange) (offset l : ℕ)
    → StartsInside request l
    → EndsInOrder request
    → offset + l < 2 ^ 64
    → offset + last_end request < 2 ^ 64
    → (start : ℕ) × ((end : ℕ) × ((construct_valid_byte_range request offset l ≡ bounded start end)
          × ((offset ≤ start) × ((start ≤ end) × (end ≤ offset + l)))))
unfolding construct_valid_byte_range
construct_valid_byte_range-within (bounded start end) offset l starts order small small' = (
  _,
  (
    _,
    (
      refl,
      (
        omega (arith, starts, order, small, small'),
        (omega (arith, starts, order, small, small'), omega (arith, starts, order, small, small')),
      ),
    ),
  ),
)
construct_valid_byte_range-within (from n) offset l starts order small small' = (
  _,
  (
    _,
    (
      refl,
      (
        omega (arith, starts, small, small'),
        (omega (arith, starts, small, small'), omega (arith, starts, small, small')),
      ),
    ),
  ),
)
construct_valid_byte_range-within (last n) offset l starts order small small' = (
  _,
  (
    _,
    (
      refl,
      (
        omega (arith, starts, small, small'),
        (omega (arith, starts, small, small'), omega (arith, starts, small, small')),
      ),
    ),
  ),
)
