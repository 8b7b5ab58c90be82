-- ===== src/Verity/Trust.antt =====
-- What a verifier of crates/lamfold/src/verity.rs accepts.
use native.Mathlib.Nat.{mul-suc}
use lamfold.Prelude.{
  ℕ, zero, suc, ◌+◌, ◌-◌, ◌*◌, ◌≤◌, ◌<◌, min, true, false, ltb, if◌then◌else◌, Bytes, List, [], ◌∷◌,
  ◌++◌, length, length-take, length-drop, drop, get_elem?, replicate, bytes_eq, bytes_eq→eq, none,
  some, ◌≡◌, ◌⊎◌, inl, inr, refl, ap, arith, Bool-cases,
}
use lamfold.Verity.{Sha256, pad_loop, block_input, block_at, hash_block, leaf_loop}

pub length-block_at : (level : Bytes) (bs start : ℕ) → length (block_at level bs start) ≤ bs
length-block_at level bs start = omega (
  arith,
  length-take (min (start + bs) (length level) - start) (drop start level),
  length-drop start level,
)

replicate-add : (x a b n : ℕ) → n ≡ a + b → replicate a x ++ replicate b x ≡ replicate n x
unfolding replicate
replicate-add x zero b n e = let same : n ≡ b = omega arith in rw same refl
replicate-add x (suc a) b zero e = absurd (omega arith)
replicate-add x (suc a) b (suc n) e = ap (◌∷◌ x) (replicate-add x a b n (omega arith))

pub pad_loop_zeros : (fuel pad : ℕ) → pad ≤ fuel → pad_loop fuel pad ≡ replicate pad 0
unfolding pad_loop replicate
pad_loop_zeros zero pad le = let none_ : pad ≡ 0 = omega arith in rw none_ refl
pad_loop_zeros (suc fuel) pad le = elim (Bool-cases (ltb 0 pad)) [
  | inr done ↦ let none_ : pad ≡ 0 = ground (arith, done) in rw none_ refl
  | inl more ↦
      let rest = pad_loop_zeros fuel (pad - min pad 64) (ground (arith, more, le)) in
      rw (more, rest) (replicate-add 0 (min pad 64) (pad - min pad 64) pad (omega arith))
]

module _ (sha : Sha256) where
  pub hash_block_short :
      (salt_prefix block : Bytes) (bs : ℕ)
      → length block ≤ bs
      → hash_block sha salt_prefix block bs ≡ some (sha.digest (block_input salt_prefix block bs))
  unfolding hash_block
  hash_block_short salt_prefix block bs le =
      let pad = bs - length block in
      let short : ltb bs (length block) ≡ false = ground (arith, le) in
      rw (short, pad_loop_zeros pad pad (omega arith)) refl

  pub hash_block_long :
      (salt_prefix block : Bytes) (bs : ℕ)
      → ltb bs (length block) ≡ true
      → hash_block sha salt_prefix block bs ≡ none
  unfolding hash_block
  hash_block_long salt_prefix block bs long = rw long refl

  -- The hash of the block of `bytes` at `start`.
  abbrev pub leaf_at : Bytes → ℕ → Bytes → ℕ → Bytes
  leaf_at salt_prefix bs bytes start =
      sha.digest (block_input salt_prefix (block_at bytes bs start) bs)

  -- The leaves from `i` on: one for each block that has a byte.
  abbrev pub Leaves : Bytes → ℕ → Bytes → ℕ → List Bytes → Type 0
  Leaves salt_prefix bs bytes i leaves =
      (k start : ℕ)
      → start ≡ i + bs * k
      → get_elem? leaves k
        ≡ (if ltb start (length bytes) then some (leaf_at salt_prefix bs bytes start) else none)

  Leaves-cons :
      (salt_prefix : Bytes) (bs : ℕ) (bytes : Bytes) (i : ℕ) (hs : List Bytes)
      → ltb i (length bytes) ≡ true
      → Leaves salt_prefix bs bytes (i + bs) hs
      → Leaves salt_prefix bs bytes i (leaf_at salt_prefix bs bytes i ∷ hs)
  unfolding get_elem?
  Leaves-cons salt_prefix bs bytes i hs more rest zero start e =
      let here : start ≡ i = omega arith in rw (here, more) refl
  Leaves-cons salt_prefix bs bytes i hs more rest (suc k) start e =
      rest k start (omega (arith, mul-suc bs k, e))

  pub leaf_loop-Leaves :
      (fuel i : ℕ) (salt_prefix : Bytes) (bs : ℕ) (bytes : Bytes)
      → 0 < bs
      → length bytes - i < fuel
      → (leaves : List Bytes) × (leaf_loop sha fuel i salt_prefix bs bytes ≡ some leaves)
        × Leaves salt_prefix bs bytes i leaves
  unfolding leaf_loop get_elem?
  leaf_loop-Leaves zero i salt_prefix bs bytes pos enough = absurd (omega arith)
  leaf_loop-Leaves (suc fuel) i salt_prefix bs bytes pos enough =
      elim (Bool-cases (ltb i (length bytes))) [
        | inr done ↦ (
          [],
          rw (done, leaf_loop) refl,
          λ k start e.
              let past : ltb start (length bytes) ≡ false = ground (arith, done, e) in rw past refl,
        )
        | inl more ↦
            let (hs, ran, rest) =
              leaf_loop-Leaves fuel (i + bs) salt_prefix bs bytes pos
                (ground (arith, more, enough)) in
            let hashed =
              hash_block_short salt_prefix (block_at bytes bs i) bs (length-block_at bytes bs i) in
            (
              leaf_at salt_prefix bs bytes i ∷ hs,
              rw (more, leaf_loop, hashed, ran) refl,
              Leaves-cons salt_prefix bs bytes i hs more rest,
            )
      ]

  -- A block that is taken for the leaf's is that leaf's, up to its zero padding, or it shows two
  -- inputs of SHA-256 with the same digest.
  abbrev pub GenuineOrCollision : Bytes → Bytes → Type 0
  GenuineOrCollision given genuine =
      (given ≡ genuine)
      ⊎ ((bytes_eq given genuine ≡ false) × (sha.digest given ≡ sha.digest genuine))

  pub digests_agree :
      (given genuine : Bytes)
      → bytes_eq (sha.digest given) (sha.digest genuine) ≡ true
      → GenuineOrCollision given genuine
  digests_agree given genuine h = elim (Bool-cases (bytes_eq given genuine)) [
    | inl same ↦ inl (bytes_eq→eq given genuine same)
    | inr differ ↦ inr (differ, bytes_eq→eq (sha.digest given) (sha.digest genuine) h)
  ]
