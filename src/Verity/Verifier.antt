-- ===== src/Verity/Verifier.antt =====
-- `MerkleVerifier` of crates/lamfold/src/verity.rs: what it is over, and what it lets through.
use native.Mathlib.Nat.{div-add-mod}
use lamfold.Prelude.{
  ℕ, ◌+◌, ◌/◌, ◌%◌, ◌^◌, ◌≤◌, ◌<◌, ltb, ltb→lt, ==→eq, ◌==◌, Bytes, List, length, get_elem?,
  bytes_eq, bytes_eq_refl, none, some, some-injective, ◌≡◌, refl, ◌∙◌, arith, Bool-cases, inl, inr,
  if-split, lt→ltb,
}
use lamfold.Error.{ok}
use lamfold.Verity.{
  shift_one, Sha256, block_input, block_at, fsverity_digest_sha256, descriptor, MerkleVerifier,
  over, verify_block, padded_salt,
}
use lamfold.Verity.Trust.{
  length-block_at, hash_block_short, hash_block_long, Leaves, leaf_at, leaf_loop-Leaves,
  GenuineOrCollision, digests_agree,
}
use lamfold.Verity.Root.{merkle_root_total}

shift_one-lt : (block_log : ℕ) → block_log < 64 → shift_one block_log ≡ some (2 ^ block_log)
unfolding shift_one
shift_one-lt block_log h = ground (arith, h)

module _ (sha : Sha256) (bytes : Bytes) (block_log : ℕ) (salt : Bytes) where
  abbrev bs : ℕ
  bs = 2 ^ block_log

  abbrev prefix_ : Bytes
  prefix_ = padded_salt salt

  -- The verifier lets a block through where the content has one, if it is that block up to zero
  -- padding; it lets no other through without a collision of SHA-256.
  pub record Guards (v : MerkleVerifier) : Type 0 where
    pub accepts :
        (offset : ℕ)
        → offset % bs ≡ 0
        → offset < length bytes
        → verify_block sha v offset (block_at bytes bs offset) ≡ some (ok tt)
    pub refuses :
        (offset : ℕ) (given : Bytes)
        → verify_block sha v offset given ≡ some (ok tt)
        → (offset % bs ≡ 0)
          × (offset < length bytes)
          × GenuineOrCollision sha
              (block_input prefix_ given bs)
              (block_input prefix_ (block_at bytes bs offset) bs)

  abbrev verifier : List Bytes → Bytes → MerkleVerifier
  verifier leaves measurement = record {
    block_size = bs;
    salt_prefix = prefix_;
    leaves = leaves;
    measurement = measurement;
  }

  accepts_leaf :
      (leaves : List Bytes) (measurement : Bytes) (offset : ℕ)
      → Leaves sha prefix_ bs bytes 0 leaves
      → offset % bs ≡ 0
      → offset < length bytes
      → verify_block sha (verifier leaves measurement) offset (block_at bytes bs offset)
        ≡ some (ok tt)
  unfolding verify_block
  accepts_leaf leaves measurement offset all aligned inside =
      let place = all (offset / bs) offset (omega (arith, div-add-mod offset bs, aligned)) in
      let more = lt→ltb offset (length bytes) inside in
      let found : get_elem? leaves (offset / bs) ≡ some (leaf_at sha prefix_ bs bytes offset) =
        place ∙ rw more refl in
      let hashed =
        hash_block_short sha prefix_ (block_at bytes bs offset) bs
          (length-block_at bytes bs offset) in
      rw (aligned, verify_block, found, hashed, bytes_eq_refl (leaf_at sha prefix_ bs bytes offset))
        refl

  refuses_others :
      (leaves : List Bytes) (measurement : Bytes) (offset : ℕ) (given : Bytes)
      → Leaves sha prefix_ bs bytes 0 leaves
      → verify_block sha (verifier leaves measurement) offset given ≡ some (ok tt)
      → (offset % bs ≡ 0)
        × (offset < length bytes)
        × GenuineOrCollision sha
            (block_input prefix_ given bs)
            (block_input prefix_ (block_at bytes bs offset) bs)
  unfolding verify_block
  refuses_others leaves measurement offset given all h = elim (Bool-cases (offset % bs == 0)) [
    | inr askew ↦ absurd (let bad = rw (askew, verify_block) at h in cc)
    | inl even_ ↦
        let aligned = ==→eq (offset % bs) 0 even_ in
        let place = all (offset / bs) offset (omega (arith, div-add-mod offset bs, aligned)) in
        elim (Bool-cases (ltb offset (length bytes))) [
          | inr past ↦ absurd (
              let none_ : get_elem? leaves (offset / bs) ≡ none = place ∙ rw past refl in
              let bad = rw (even_, verify_block, none_) at h in cc)
          | inl more ↦
              let found : get_elem? leaves (offset / bs)
                  ≡ some (leaf_at sha prefix_ bs bytes offset) =
                place ∙ rw more refl in
              elim (Bool-cases (ltb bs (length given))) [
                | inr fits ↦
                    let hashed = hash_block_short sha prefix_ given bs (ground (arith, fits)) in
                    let same = rw (even_, verify_block, found, hashed) at h in
                    elim (if-split
                      (bytes_eq (sha.digest (block_input prefix_ given bs))
                        (leaf_at sha prefix_ bs bytes offset))
                      _ _ (some-injective same)) [
                        | inl (equal, _) ↦ (
                          aligned,
                          ltb→lt offset (length bytes) more,
                          digests_agree sha (block_input prefix_ given bs)
                              (block_input prefix_ (block_at bytes bs offset) bs) equal,
                        )
                        | inr (_, bad) ↦ absurd (cc)
                      ]
                | inl long ↦ absurd (
                    let none_ = hash_block_long sha prefix_ given bs long in
                    let bad = rw (even_, verify_block, found, none_) at h in cc)
              ]
        ]
  ]

  -- `over` at this content, block size and salt gives a verifier that guards the content.
  abbrev pub Guarded : Type 0
  Guarded = (v : MerkleVerifier) × (over sha bytes block_log salt ≡ some v) × Guards v

  -- With blocks of 64 bytes or more, and a `block_log` below 64, the width of `usize`, building a
  -- verifier over a content ends without a panic. The verifier accepts every block of the content at its offset. A block that it accepts at any offset
  -- stands at a multiple of the block size within the content, and is the block that the content has
  -- there, up to the zeros that both are padded with, or else the two hashed inputs are different
  -- and have the same SHA-256 digest.
  pub over-Guards : 64 ≤ 2 ^ block_log → block_log < 64 → Guarded
  unfolding over fsverity_digest_sha256
  over-Guards big narrow =
      let shifted = shift_one-lt block_log narrow in
      let (leaves, ran, all) =
        leaf_loop-Leaves sha (length bytes + 1) 0 prefix_ bs bytes (omega arith) (omega arith) in
      let (root, rooted) = merkle_root_total sha bytes bs prefix_ big in
      let measurement = sha.digest (descriptor sha block_log (length bytes) salt root) in
      (
        verifier leaves measurement,
        rw (over, shifted, ran, fsverity_digest_sha256, shifted, rooted) refl,
        record {
          accepts =
              λ offset aligned inside. accepts_leaf leaves measurement offset all aligned inside;
          refuses = λ offset given h. refuses_others leaves measurement offset given all h;
        },
      )
