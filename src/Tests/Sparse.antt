-- ===== src/Tests/Sparse.antt =====
-- Sources for the tests that are zero but for a few bytes.
use lamfold.Prelude.{
  ℕ, ◌+◌, ◌-◌, ◌≤◌, ◌<◌, true, false, ◌&&◌, leb, ltb, if◌then◌else◌, Bytes, List, [], ◌∷◌, ◌++◌,
  length, take, drop, replicate, length-append, length-drop, take-append_le, ap, length-take,
  length-replicate, ◌≡◌, arith,
}
use lamfold.Error.{Result, ok, ok-injective}
use lamfold.Source.{BlockSource}
use lamfold.Iso9660.{key_ord}

-- A source that is zero but for some segments, each in a block of 2048 bytes.
unfoldable pub segment_at : List (ℕ × Bytes) → ℕ → Bytes
unfolding drop
segment_at [] off = []
segment_at ((start, bytes) ∷ rest) off =
    let later = segment_at rest off in
    if leb start off && ltb off (start + 2048) then drop (off - start) bytes else later

unfoldable pub sparse_read : List (ℕ × Bytes) → ℕ → ℕ → Result Bytes
unfolding segment_at take replicate
sparse_read segments off n = ok (take n (segment_at segments off ++ replicate n 0))

pub sparse_fills :
    (segments : List (ℕ × Bytes)) (off n : ℕ) {bs : Bytes}
    → sparse_read segments off n ≡ ok bs
    → length bs ≡ n
unfolding sparse_read
sparse_fills segments off n h = ground (
  arith,
  ok-injective h,
  length-take n (segment_at segments off ++ replicate n 0),
  length-append (segment_at segments off) (replicate n 0),
  length-replicate {A = ℕ} n 0,
)

abbrev pub sparse : List (ℕ × Bytes) → BlockSource
sparse segments = record {
  len = 1_000_000;
  read_at = sparse_read segments;
  read_at_fills = sparse_fills segments;
}

abbrev pub zeros : ℕ → Bytes
unfolding replicate
zeros n = replicate n 0

-- A segment reads as its bytes.
pub segment_read :
    (start n : ℕ) (bytes : Bytes) (rest : List (ℕ × Bytes)) (off : ℕ)
    → off < 2048
    → off + n ≤ length bytes
    → sparse_read ((start, bytes) ∷ rest) (start + off) n ≡ ok (take n (drop off bytes))
unfolding sparse_read segment_at
segment_read start n bytes rest off near le =
    let at : (leb start (start + off) && ltb (start + off) (start + 2048)) ≡ true = ground arith in
    let back : start + off - start ≡ off = omega arith in
    let short : n ≤ length (drop off bytes) = omega (arith, length-drop off bytes) in
    rw (at, back) (ap ok (take-append_le (drop off bytes) (replicate n 0) n short))

pub segment_skip :
    (start n : ℕ) (bytes : Bytes) (rest : List (ℕ × Bytes)) (off : ℕ)
    → start + 2048 ≤ off
    → sparse_read ((start, bytes) ∷ rest) off n ≡ sparse_read rest off n
unfolding sparse_read segment_at
segment_skip start n bytes rest off le =
    let at : (leb start off && ltb off (start + 2048)) ≡ false = ground arith in rw at
