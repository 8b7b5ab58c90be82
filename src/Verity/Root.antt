-- ===== src/Verity/Root.antt =====
-- The loop of `merkle_root` of crates/lamfold/src/verity.rs ends for blocks of 64 bytes or more.
use native.Mathlib.Nat.{div-add-mod, mod-lt, mul-le-mul_right}
use lamfold.Prelude.{
  ℕ, zero, suc, ◌+◌, ◌*◌, ◌/◌, ◌%◌, ◌≤◌, ◌<◌, leb, leb→le, ◌==◌, if◌then◌else◌, Bytes, [], ◌∷◌,
  ◌++◌, length, length-append, replicate, some, ◌≡◌, refl, arith, Bool-cases, inl, inr,
}
use lamfold.Verity.{
  Sha256, block_input, block_at, div_ceil, next_level, merkle_loop, merkle_root, hash_len,
}
use lamfold.Verity.Trust.{length-block_at, hash_block_short}

one_block :
    (bs q r len : ℕ) → bs * q + r ≡ len → r < bs → q + (if r == 0 then 0 else 1) ≤ 1 → len ≤ bs
one_block bs zero r len e small h = omega arith
one_block bs (suc zero) r len e small h = ground (arith, e, h)
one_block bs (suc (suc q)) r len e small h = absurd (ground (arith, h))

shorter :
    (bs q r len : ℕ)
    → 64 ≤ bs
    → bs * q + r ≡ len
    → 2 ≤ q + (if r == 0 then 0 else 1)
    → (q + (if r == 0 then 0 else 1)) * 32 < len
shorter bs zero r len big e h = absurd (ground (arith, h))
shorter bs (suc zero) r len big e h = ground (arith, e, h, big)
shorter bs (suc (suc q)) r len big e h =
    let wide : 64 * suc (suc q) ≤ bs * suc (suc q) = mul-le-mul_right (suc (suc q)) big in
    ground (arith, e, wide)

module _ (sha : Sha256) where
  next_level_total :
      (turns i : ℕ) (salt_prefix : Bytes) (bs : ℕ) (level : Bytes)
      → (next : Bytes) × (next_level sha turns i salt_prefix bs level ≡ some next)
        × (length next ≡ turns * 32)
  unfolding next_level
  next_level_total zero i salt_prefix bs level = ([], refl, omega arith)
  next_level_total (suc turns) i salt_prefix bs level =
      let block = block_at level bs (i * bs) in
      let hashed = hash_block_short sha salt_prefix block bs (length-block_at level bs (i * bs)) in
      let (rest, ran, size) = next_level_total turns (suc i) salt_prefix bs level in
      let h = sha.digest (block_input salt_prefix block bs) in
      (
        h ++ rest,
        rw (hashed, next_level, ran) refl,
        omega
            (arith, length-append h rest, sha.digest_len (block_input salt_prefix block bs), size),
      )

  merkle_loop_total :
      (fuel : ℕ) (salt_prefix : Bytes) (bs : ℕ) (level : Bytes)
      → 64 ≤ bs
      → length level < fuel
      → (root : Bytes) × (merkle_loop sha fuel salt_prefix bs level ≡ some root)
  unfolding merkle_loop div_ceil
  merkle_loop_total zero salt_prefix bs level big enough = absurd (omega arith)
  merkle_loop_total (suc fuel) salt_prefix bs level big enough =
      let len = length level in
      let split = div-add-mod len bs in
      let small = mod-lt len {m = bs} (omega arith) in
      elim (Bool-cases (leb (div_ceil len bs) 1)) [
        | inl one ↦
            let fits =
              one_block bs (len / bs) (len % bs) len split small (leb→le (div_ceil len bs) 1 one) in
            let hashed = hash_block_short sha salt_prefix level bs fits in
            (sha.digest (block_input salt_prefix level bs), rw (one, merkle_loop) hashed)
        | inr more ↦
            let (next, ran, size) = next_level_total (div_ceil len bs) 0 salt_prefix bs level in
            let less = shorter bs (len / bs) (len % bs) len big split (ground (arith, more)) in
            let (root, done) =
              merkle_loop_total fuel salt_prefix bs next big (omega (arith, less, size, enough)) in
            (root, rw (more, merkle_loop, ran) done)
      ]

  pub merkle_root_total :
      (bytes : Bytes) (bs : ℕ) (salt_prefix : Bytes)
      → 64 ≤ bs
      → (root : Bytes) × (merkle_root sha bytes bs salt_prefix ≡ some root)
  unfolding merkle_root
  merkle_root_total [] bs salt_prefix big = (replicate hash_len 0, refl)
  merkle_root_total (b ∷ bytes) bs salt_prefix big =
      merkle_loop_total (length (b ∷ bytes) + 1) salt_prefix bs (b ∷ bytes) big (omega arith)
