-- ===== src/Stream/Lz4.antt =====
-- The legacy lz4 format of crates/lamfold/src/stream.rs.
use lamfold.Prelude.{
  subst, ℕ, zero, suc, ◌+◌, ◌-◌, ◌*◌, ◌/◌, ◌≤◌, min, Bool, true, false, not, ◌&&◌, ltb, leb, ◌==◌,
  if◌then◌else◌, Bytes, [], ◌++◌, length, take, drop, slice?, slice?_bound, length-append, le32,
  bytes_eq, none, some, ◌≡◌, arith, inl, inr, Option-cases,
}
use lamfold.Error.{
  ok-injective, Result, ok, err, corrupt, decompress, file_too_large, ◌>>=◌, ◌>>◌, guard,
  bind-eq-ok, if-eq-ok, option-eq-ok, guard-eq-ok,
}
use lamfold.Stream.Parts.{
  BlockDecoder, starts_with, starts_with_long, lz4_legacy_magic, Within, ok-Within,
}

abbrev pub lz4_legacy_block : ℕ
lz4_legacy_block = 8 * 1024 * 1024

abbrev pub lz4_legacy_max_compressed : ℕ
lz4_legacy_max_compressed = lz4_legacy_block + lz4_legacy_block / 255 + 16

-- A size that can be a block's, with `left` bytes behind it.
unfoldable pub is_block_size : ℕ → ℕ → Bool
is_block_size size left = not (size == 0) && (leb size lz4_legacy_max_compressed && leb size left)

block-inside :
    (input : Bytes) (pos : ℕ) (head : Bytes)
    → pos + 4 ≤ length input
    → is_block_size (le32 head) (length input - pos - 4) ≡ true
    → pos + (4 + le32 head) ≤ length input
unfolding is_block_size
block-inside input pos head there fits = ground (arith, there, fits)

module _ (z : BlockDecoder) where
  unfoldable pub lz4_block : Bytes → Bytes → ℕ → Result Bytes
  lz4_block block out max_out =
      let room = min lz4_legacy_block (max_out - length out) in
      elim (z.decompress_into block room) [
        | some bytes ↦ ok (out ++ bytes)
        | none ↦
            if ltb room lz4_legacy_block
            then err (file_too_large (length out + room + 1) max_out)
            else err (decompress "lz4 legacy block failed")
      ]

  -- The loop, on fuel: each turn passes over four bytes or more of the input.
  unfoldable pub lz4_loop : ℕ → Bytes → ℕ → ℕ → Bytes → Result (Bytes × ℕ)
  unfolding slice? bytes_eq le32 is_block_size lz4_block
  lz4_loop zero input max_out pos out = ok (out, pos)
  lz4_loop (suc fuel) input max_out pos out = elim (slice? input pos 4) [
    | none ↦ ok (out, pos)
    | some head ↦ elim (bytes_eq head lz4_legacy_magic) [
      | true ↦ lz4_loop fuel input max_out (pos + 4) out
      | false ↦ elim (is_block_size (le32 head) (length input - pos - 4)) [
        | true ↦ do
          out' ← lz4_block (take (le32 head) (drop (pos + 4) input)) out max_out
          lz4_loop fuel input max_out (pos + (4 + le32 head)) out'
        | false ↦ ok (out, pos)
      ]
    ]
  ]

  unfoldable pub lz4_legacy : Bytes → ℕ → Result (Bytes × ℕ)
  unfolding starts_with lz4_loop
  lz4_legacy input max_out = do
    guard (starts_with lz4_legacy_magic input) (corrupt "lz4_legacy_magic")
    lz4_loop (length input + 1) input max_out 4 []

  lz4_block_capped :
      (block out : Bytes) (max_out : ℕ) {out' : Bytes}
      → length out ≤ max_out
      → lz4_block block out max_out ≡ ok out'
      → length out' ≤ max_out
  unfolding lz4_block
  lz4_block_capped block out max_out le h =
      let room = min lz4_legacy_block (max_out - length out) in
      elim (Option-cases (z.decompress_into block room)) [
        | inl e ↦ ground (arith, e, h)
        | inr (bytes, e) ↦ ground (arith, e, h, z.fits block room e, length-append out bytes)
      ]

  lz4_loop-Within :
      (fuel : ℕ) (input : Bytes) (max_out pos : ℕ) (out : Bytes) {res : Bytes × ℕ}
      → pos ≤ length input
      → length out ≤ max_out
      → lz4_loop fuel input max_out pos out ≡ ok res
      → Within max_out (length input) res
  unfolding lz4_loop is_block_size
  lz4_loop-Within zero input max_out pos out inside capped h =
      ok-Within max_out (length input) out pos h capped inside
  lz4_loop-Within (suc fuel) input max_out pos out inside capped h =
      elim (option-eq-ok (slice? input pos 4) _ _ h) [
        | inl (_, last) ↦ ok-Within max_out (length input) out pos last capped inside
        | inr (head, sliced, h1) ↦
            let there = slice?_bound input pos 4 sliced in
            elim (if-eq-ok (bytes_eq head lz4_legacy_magic) _ _ h1) [
              | inl (_, again) ↦ lz4_loop-Within fuel input max_out (pos + 4) out there capped again
              | inr (_, h2) ↦
                  elim (if-eq-ok (is_block_size (le32 head) (length input - pos - 4)) _ _ h2) [
                    | inr (_, last) ↦ ok-Within max_out (length input) out pos last capped inside
                    | inl (fits, h3) ↦
                        let block = take (le32 head) (drop (pos + 4) input) in
                        let (out', decoded, again) =
                          bind-eq-ok (lz4_block block out max_out) _ h3 in
                        lz4_loop-Within fuel input max_out (pos + (4 + le32 head)) out'
                          (omega (arith, block-inside input pos head there fits))
                          (lz4_block_capped block out max_out capped decoded) again
                  ]
            ]
      ]

  lz4_loop_forward :
      (fuel : ℕ) (input : Bytes) (max_out pos : ℕ) (out : Bytes) {res : Bytes × ℕ}
      → lz4_loop fuel input max_out pos out ≡ ok res
      → pos ≤ res.1
  unfolding lz4_loop
  lz4_loop_forward zero input max_out pos out h =
      subst (λ (r : Bytes × ℕ). pos ≤ r.1) (ok-injective h) (omega arith)
  lz4_loop_forward (suc fuel) input max_out pos out h =
      elim (option-eq-ok (slice? input pos 4) _ _ h) [
        | inl (_, last) ↦ subst (λ (r : Bytes × ℕ). pos ≤ r.1) (ok-injective last) (omega arith)
        | inr (head, _, h1) ↦ elim (if-eq-ok (bytes_eq head lz4_legacy_magic) _ _ h1) [
          | inl (_, again) ↦ omega (arith, lz4_loop_forward fuel input max_out (pos + 4) out again)
          | inr (_, h2) ↦
              elim (if-eq-ok (is_block_size (le32 head) (length input - pos - 4)) _ _ h2) [
                | inr (_, last) ↦
                    subst (λ (r : Bytes × ℕ). pos ≤ r.1) (ok-injective last) (omega arith)
                | inl (_, h3) ↦
                    let block = take (le32 head) (drop (pos + 4) input) in
                    let (out', _, again) = bind-eq-ok (lz4_block block out max_out) _ h3 in
                    let rest =
                      lz4_loop_forward fuel input max_out (pos + (4 + le32 head)) out' again in
                    omega (arith, rest)
              ]
        ]
      ]

  -- A legacy stream has at least its magic.
  pub lz4_legacy_takes :
      (input : Bytes) (max_out : ℕ) {res : Bytes × ℕ}
      → lz4_legacy input max_out ≡ ok res
      → 4 ≤ res.1
  unfolding lz4_legacy
  lz4_legacy_takes input max_out h =
      let (_, _, h1) =
        bind-eq-ok (guard (starts_with lz4_legacy_magic input) (corrupt "lz4_legacy_magic")) _ h in
      lz4_loop_forward (length input + 1) input max_out 4 [] h1

  pub lz4_legacy-Within :
      (input : Bytes) (max_out : ℕ) {res : Bytes × ℕ}
      → lz4_legacy input max_out ≡ ok res
      → Within max_out (length input) res
  unfolding lz4_legacy
  lz4_legacy-Within input max_out h =
      let (_, magic, h1) =
        bind-eq-ok (guard (starts_with lz4_legacy_magic input) (corrupt "lz4_legacy_magic")) _ h in
      let long = starts_with_long lz4_legacy_magic input (guard-eq-ok _ _ magic) in
      lz4_loop-Within (length input + 1) input max_out 4 [] long (omega arith) h1
