-- ===== src/ReadCap/Bounds.antt =====
-- What the two read caps accept and refuse (crates/lamfold/src/read_cap.rs).
use lamfold.Prelude.{ℕ, ◌^◌, ◌≤◌, ◌<◌, ◌≡◌, ◌↔◌, arith}
use lamfold.Error.{ok}
use lamfold.ReadCap.{
  max_boot_file_bytes, max_decompressed_block_bytes, checked_full_read_len, checked_block_len,
}

pub checked_full_read_len-eq-ok :
    (usize_end size : ℕ) {n : ℕ}
    → checked_full_read_len usize_end size ≡ ok n
    → (n ≡ size) × (size ≤ max_boot_file_bytes) × (n < usize_end)
unfolding checked_full_read_len
checked_full_read_len-eq-ok usize_end size h = ground arith

pub checked_block_len-eq-ok :
    (usize_end size : ℕ) {n : ℕ}
    → checked_block_len usize_end size ≡ ok n
    → (n ≡ size) × (size ≤ max_decompressed_block_bytes) × (n < usize_end)
unfolding checked_block_len
checked_block_len-eq-ok usize_end size h = ground arith

-- The whole-file cap passes exactly the sizes within it, unchanged, wherever `usize` has at least
-- 32 bits: there the conversion never refuses what the cap allows.
pub checked_full_read_len_iff :
    (usize_end size : ℕ)
    → 2 ^ 32 ≤ usize_end
    → (checked_full_read_len usize_end size ≡ ok size) ↔ (size ≤ max_boot_file_bytes)
unfolding checked_full_read_len
checked_full_read_len_iff usize_end size wide = ground arith
