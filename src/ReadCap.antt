-- ===== src/ReadCap.antt =====
-- crates/lamfold/src/read_cap.rs: the bound on every allocation that a size field asks for.
pub mod Bounds
use lamfold.Prelude.{ℕ, ◌*◌, ltb, if◌then◌else◌}
use lamfold.Error.{Result, ok, err, file_too_large}

abbrev pub max_boot_file_bytes : ℕ
max_boot_file_bytes = 512 * 1024 * 1024

abbrev pub max_decompressed_block_bytes : ℕ
max_decompressed_block_bytes = 16 * 1024 * 1024

-- `usize::try_from(size)` on a machine whose `usize` holds the numbers below `usize_end`.
unfoldable pub checked_len : ℕ → ℕ → ℕ → Result ℕ
checked_len usize_end size max =
    if ltb max size
    then err (file_too_large size max)
    else if ltb size usize_end
    then ok size
    else err (file_too_large size max)

unfoldable pub checked_full_read_len : ℕ → ℕ → Result ℕ
unfolding checked_len
checked_full_read_len usize_end size = checked_len usize_end size max_boot_file_bytes

unfoldable pub checked_block_len : ℕ → ℕ → Result ℕ
unfolding checked_len
checked_block_len usize_end size = checked_len usize_end size max_decompressed_block_bytes
