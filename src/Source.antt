-- ===== src/Source.antt =====
-- crates/lamfold/src/source.rs: the byte source that a frontend reads.
-- A source is read-only, so `read_at` is a function of the offset and of the length of the buffer,
-- and returns the buffer's new content.
pub mod Region
pub mod Pieces
use lamfold.Prelude.{
  ℕ, ◌+◌, ◌^◌, ◌≤◌, ltb, leb, if◌then◌else◌, Bytes, length, take, drop, length-take, length-drop,
  ◌≡◌, arith,
}
use lamfold.Error.{Result, ok, err, io}

-- `usize` has 64 bits here, as `u64` has.
abbrev pub usize_end : ℕ
usize_end = 2 ^ 64

-- `BlockSource`. The law is what the trait documents: a successful read has filled the buffer, from
-- bytes of the source.
pub record BlockSource : Type 0 where
  pub len : ℕ
  pub read_at : ℕ → ℕ → Result Bytes
  pub read_at_fills : (off n : ℕ) {bs : Bytes} → read_at off n ≡ ok bs → length bs ≡ n

-- `SliceSource::read_at`.
unfoldable pub slice_read_at : Bytes → ℕ → ℕ → Result Bytes
unfolding take drop
slice_read_at bytes off n =
    if leb usize_end off
    then err (io "offset overflows usize")
    else if leb usize_end (off + n)
    then err (io "offset+len overflow")
    else if ltb (length bytes) (off + n)
    then err (io "read past end of source")
    else ok (take n (drop off bytes))

pub slice_read_at_fills :
    (bytes : Bytes) (off n : ℕ) {bs : Bytes} → slice_read_at bytes off n ≡ ok bs → length bs ≡ n
unfolding slice_read_at
slice_read_at_fills bytes off n h =
    ground (arith, length-take n (drop off bytes), length-drop off bytes)

abbrev pub slice_source : Bytes → BlockSource
slice_source bytes = record {
  len = length bytes;
  read_at = slice_read_at bytes;
  read_at_fills = slice_read_at_fills bytes;
}

-- Within the data a slice source returns just the bytes asked for.
pub slice_read_at-eq_ok :
    (bytes : Bytes) (off n : ℕ)
    → off + n ≤ length bytes
    → length bytes ≤ 2 ^ 63
    → slice_read_at bytes off n ≡ ok (take n (drop off bytes))
unfolding slice_read_at
slice_read_at-eq_ok bytes off n h fits = ground arith
