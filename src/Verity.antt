-- ===== src/Verity.antt =====
-- crates/lamfold/src/verity.rs and the `Verifier` of crates/lamfold/src/verify.rs: fs-verity's Merkle
-- tree over SHA-256, which is a parameter. `none` stands for a panic, and for a loop that does not end.
pub mod Trust
pub mod Root
pub mod Verifier
use lamfold.Prelude.{
  ℕ, zero, suc, ◌+◌, ◌-◌, ◌*◌, ◌/◌, ◌%◌, ◌^◌, min, Bool, true, false, ltb, leb, ◌==◌, if◌then◌else◌,
  Bytes, List, [], ◌∷◌, ◌++◌, length, take, drop, get_elem?, replicate, bytes_eq, le32_bytes,
  Option, none, some, ◌≡◌,
}
use lamfold.Error.{Result, ok, err, verify_failed}

-- `sha2`'s SHA-256.
pub record Sha256 : Type 0 where
  pub digest : Bytes → Bytes
  pub digest_len : (bytes : Bytes) → length (digest bytes) ≡ 32

abbrev pub hash_len : ℕ
hash_len = 32

abbrev pub sha256_input_block : ℕ
sha256_input_block = 64

unfoldable pub padded_salt : Bytes → Bytes
unfolding replicate
padded_salt [] = []
padded_salt (b ∷ bs) =
    let salt = b ∷ bs in
    let rem = length salt % sha256_input_block in
    if rem == 0 then salt else salt ++ replicate (sha256_input_block - rem) 0

-- `while pad > 0` of `hash_block`, on fuel: the zeros that it feeds, 64 at most in a turn.
unfoldable pub pad_loop : ℕ → ℕ → Bytes
unfolding replicate
pad_loop zero pad = []
pad_loop (suc fuel) pad =
    let n = min pad sha256_input_block in
    let rest = pad_loop fuel (pad - n) in if ltb 0 pad then replicate n 0 ++ rest else []

-- The input of one block's hash, zero-padded up to the block size.
abbrev pub block_input : Bytes → Bytes → ℕ → Bytes
block_input salt_prefix block bs = salt_prefix ++ (block ++ replicate (bs - length block) 0)

-- The part of `level` from `start`, a block at most.
abbrev pub block_at : Bytes → ℕ → ℕ → Bytes
block_at level bs start = take (min (start + bs) (length level) - start) (drop start level)

unfoldable pub div_ceil : ℕ → ℕ → ℕ
div_ceil n bs = n / bs + (if n % bs == 0 then 0 else 1)

-- `(n as u64).to_le_bytes()`.
unfoldable pub le64_bytes : ℕ → Bytes
unfolding le32_bytes
le64_bytes n = le32_bytes (n % 2 ^ 32) ++ le32_bytes (n / 2 ^ 32)

-- `1usize << block_log`: a shift by the width of `usize` or more is an overflow. It is a panic in a build
-- with overflow checks; another build masks the shift, which is not modelled.
unfoldable pub shift_one : ℕ → Option ℕ
shift_one block_log = if ltb block_log 64 then some (2 ^ block_log) else none

pub record MerkleVerifier : Type 0 where
  pub block_size : ℕ
  pub salt_prefix : Bytes
  pub leaves : List Bytes
  pub measurement : Bytes

module _ (sha : Sha256) where
  unfoldable pub hash_block : Bytes → Bytes → ℕ → Option Bytes
  unfolding pad_loop
  hash_block salt_prefix block bs =
      let pad = bs - length block in
      if ltb bs (length block)
      then none
      else some (sha.digest (salt_prefix ++ (block ++ pad_loop pad pad)))

  -- `for i in 0..nblocks`, over the turns left.
  unfoldable pub next_level : ℕ → ℕ → Bytes → ℕ → Bytes → Option Bytes
  unfolding hash_block take drop
  next_level zero i salt_prefix bs level = some []
  next_level (suc turns) i salt_prefix bs level =
      elim (hash_block salt_prefix (block_at level bs (i * bs)) bs) [
        | none ↦ none
        | some h ↦ elim (next_level turns (suc i) salt_prefix bs level) [
          | none ↦ none
          | some rest ↦ some (h ++ rest)
        ]
      ]

  -- The loop of `merkle_root`, on fuel: a level is shorter than the one below it.
  unfoldable pub merkle_loop : ℕ → Bytes → ℕ → Bytes → Option Bytes
  unfolding div_ceil hash_block next_level
  merkle_loop zero salt_prefix bs level = none
  merkle_loop (suc fuel) salt_prefix bs level = elim (leb (div_ceil (length level) bs) 1) [
    | true ↦ hash_block salt_prefix level bs
    | false ↦ elim (next_level (div_ceil (length level) bs) 0 salt_prefix bs level) [
      | none ↦ none
      | some next ↦ merkle_loop fuel salt_prefix bs next
    ]
  ]

  unfoldable pub merkle_root : Bytes → ℕ → Bytes → Option Bytes
  unfolding merkle_loop replicate
  merkle_root [] bs salt_prefix = some (replicate hash_len 0)
  merkle_root (b ∷ bytes) bs salt_prefix =
      merkle_loop (length (b ∷ bytes) + 1) salt_prefix bs (b ∷ bytes)

  -- The 256 bytes of the descriptor.
  unfoldable pub descriptor : ℕ → ℕ → Bytes → Bytes → Bytes
  unfolding le64_bytes replicate take
  descriptor block_log len salt root =
      1
      ∷ 1
      ∷ block_log
      ∷ length salt % 256
      ∷ 0
      ∷ 0
      ∷ 0
      ∷ 0
      ∷ (le64_bytes len
          ++ (root
              ++ (replicate 32 0
                  ++ (take 32 salt
                      ++ (replicate (32 - length (take 32 salt)) 0 ++ replicate 144 0)))))

  unfoldable pub fsverity_digest_sha256 : Bytes → ℕ → Bytes → Option Bytes
  unfolding shift_one merkle_root padded_salt descriptor
  fsverity_digest_sha256 bytes block_log salt = elim (shift_one block_log) [
    | none ↦ none
    | some bs ↦ elim (merkle_root bytes bs (padded_salt salt)) [
      | none ↦ none
      | some root ↦ some (sha.digest (descriptor block_log (length bytes) salt root))
    ]
  ]

  -- The leaves, `while i < data.len()`, on fuel: `i` grows by a block.
  unfoldable pub leaf_loop : ℕ → ℕ → Bytes → ℕ → Bytes → Option (List Bytes)
  unfolding hash_block take drop
  leaf_loop zero i salt_prefix bs bytes = none
  leaf_loop (suc fuel) i salt_prefix bs bytes = elim (ltb i (length bytes)) [
    | false ↦ some []
    | true ↦ elim (hash_block salt_prefix (block_at bytes bs i) bs) [
      | none ↦ none
      | some h ↦ elim (leaf_loop fuel (i + bs) salt_prefix bs bytes) [
        | none ↦ none
        | some hs ↦ some (h ∷ hs)
      ]
    ]
  ]

  unfoldable pub over : Bytes → ℕ → Bytes → Option MerkleVerifier
  unfolding shift_one padded_salt leaf_loop fsverity_digest_sha256
  over bytes block_log salt = elim (shift_one block_log) [
    | none ↦ none
    | some bs ↦ elim (leaf_loop (length bytes + 1) 0 (padded_salt salt) bs bytes) [
      | none ↦ none
      | some leaves ↦ elim (fsverity_digest_sha256 bytes block_log salt) [
        | none ↦ none
        | some measurement ↦ some (record {
          block_size = bs;
          salt_prefix = padded_salt salt;
          leaves = leaves;
          measurement = measurement;
        })
      ]
    ]
  ]

  unfoldable pub verify_block : MerkleVerifier → ℕ → Bytes → Option (Result (Unit {0}))
  unfolding get_elem? hash_block bytes_eq
  verify_block v offset block = elim (offset % v.block_size == 0) [
    | false ↦ some (err (verify_failed "unaligned verify offset"))
    | true ↦ elim (get_elem? v.leaves (offset / v.block_size)) [
      | none ↦ some (err (verify_failed "block past Merkle tree"))
      | some want ↦ elim (hash_block v.salt_prefix block v.block_size) [
        | none ↦ none
        | some h ↦
            some (if bytes_eq h want then ok tt else err (verify_failed "block hash mismatch"))
      ]
    ]
  ]

-- `NoVerifier`.
unfoldable pub no_verify_block : ℕ → Bytes → Result (Unit {0})
no_verify_block offset block = ok tt
