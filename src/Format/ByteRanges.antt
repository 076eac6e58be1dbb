-- ===== src/Format/ByteRanges.antt =====
-- `ByteRange` of icechunk/src/format/mod.rs. A range of a slice that is out of bounds is a panic.
pub mod Slices
use icechunk.Prelude.{
  ℕ, ◌+◌, ◌-◌, ◌≡◌, ◌↔◌, arith, nat_beq, Eq, true, false, Bool, ◌&&◌, Option, none, some, List,
  if◌then◌else◌, length, take, drop, leb,
}

pub data ByteRange : Type 0 where
  -- From the first offset to before the second
  bounded : ℕ → ℕ → ByteRange
  from : ℕ → ByteRange
  last : ℕ → ByteRange

abbrev pub byte_range_beq : ByteRange → ByteRange → Bool
byte_range_beq (bounded a b) (bounded c d) = nat_beq a c && nat_beq b d
byte_range_beq (from a) (from c) = nat_beq a c
byte_range_beq (last a) (last c) = nat_beq a c
byte_range_beq _ _ = false

pub byte_range_beq_iff : (r s : ByteRange) → (byte_range_beq r s ≡ true) ↔ (r ≡ s)
byte_range_beq_iff r s = ground arith

instance abbrev pub byte_range_eq : Eq ByteRange
byte_range_eq = record { beq = byte_range_beq; beq_iff = byte_range_beq_iff }

-- `ByteRange::ALL`
abbrev pub all : ByteRange
all = from 0

-- `from_offset`, `from_offset_with_length` and `to_offset`
abbrev pub from_offset : ℕ → ByteRange
from_offset offset = from offset

abbrev pub from_offset_with_length : ℕ → ℕ → ByteRange
from_offset_with_length offset length = bounded offset (offset + length)

abbrev pub to_offset : ℕ → ByteRange
to_offset offset = bounded 0 offset

-- `From<(Option<ChunkOffset>, Option<ChunkOffset>)>`
unfoldable pub of_options : Option ℕ → Option ℕ → ByteRange
of_options (some start) (some end) = bounded start end
of_options (some start) none = from start
of_options none (some end) = bounded 0 end
of_options none none = all

-- `Bytes::slice` of a range from one offset to another; `none` is its panic.
abbrev pub slice_bytes : List ℕ → ℕ → ℕ → Option (List ℕ)
slice_bytes bytes start end =
    if leb start end && leb end (length bytes)
    then some (take (end - start) (drop start bytes))
    else none

-- `ByteRange::slice`
unfoldable pub slice : ByteRange → List ℕ → Option (List ℕ)
slice (bounded start end) bytes = slice_bytes bytes start end
slice (from start) bytes = slice_bytes bytes start (length bytes)
slice (last n) bytes =
    if leb n (length bytes) then slice_bytes bytes (length bytes - n) (length bytes) else none
