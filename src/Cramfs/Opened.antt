-- ===== src/Cramfs/Opened.antt =====
-- `probe` and `open` of crates/lamfold-cramfs/src/cramfs.rs, on an image in memory.
use lamfold.Prelude.{
  ℕ, zero, suc, ◌+◌, ◌^◌, ◌≤◌, Bool, true, false, not, ltb, leb, ◌==◌, Bytes, [], ◌∷◌, ◌++◌, length,
  drop, take, le32, be32, le32_bytes, be32_bytes, Bool-cases, inl, inr, ◌↔◌, ◌≡◌, refl, ap, ◌∙◌,
  arith,
}
use lamfold.Error.{FoldError, ok, err, corrupt, unsupported, guard, ◌>>=◌, ◌>>◌}
use lamfold.Source.{slice_source, slice_read_at-eq_ok}
use lamfold.Cramfs.{magic, ext_block_pointers, bad_magic, open_volume, probe}

le32-take : (n : ℕ) (xs : Bytes) → 4 ≤ n → le32 (take n xs) ≡ le32 xs
unfolding le32 take
le32-take zero xs le = absurd (omega arith)
le32-take (suc zero) xs le = absurd (omega arith)
le32-take (suc (suc zero)) xs le = absurd (omega arith)
le32-take (suc (suc (suc zero))) xs le = absurd (omega arith)
le32-take (suc (suc (suc (suc n)))) [] le = refl
le32-take (suc (suc (suc (suc n)))) (a ∷ []) le = refl
le32-take (suc (suc (suc (suc n)))) (a ∷ b ∷ []) le = refl
le32-take (suc (suc (suc (suc n)))) (a ∷ b ∷ c ∷ []) le = refl
le32-take (suc (suc (suc (suc n)))) (a ∷ b ∷ c ∷ d ∷ xs) le = refl

drop-take : (k n m : ℕ) (xs : Bytes) → m ≡ k + n → drop k (take m xs) ≡ take n (drop k xs)
unfolding take drop
drop-take zero n m xs e = let same : m ≡ n = omega arith in rw same
drop-take (suc k) zero zero [] e = absurd (omega arith)
drop-take (suc k) (suc n) zero [] e = absurd (omega arith)
drop-take (suc k) zero (suc m) [] e = refl
drop-take (suc k) (suc n) (suc m) [] e = refl
drop-take (suc k) n zero (x ∷ xs) e = absurd (omega arith)
drop-take (suc k) n (suc m) (x ∷ xs) e = drop-take k n m xs (omega arith)

guards_iff :
    (is_magic extended : Bool) (why why' : FoldError)
    → ((guard is_magic why >> guard (not extended) why') ≡ ok tt)
      ↔ ((ok is_magic ≡ ok true) × (extended ≡ false))
guards_iff true true why why' = (λ h. absurd (cc), λ h. absurd (cc))
guards_iff true false why why' = (λ h. (refl, refl), λ h. refl)
guards_iff false extended why why' = (λ h. absurd (cc), λ h. absurd (cc))

module _ (img : Bytes) (small : length img ≤ 2 ^ 63) where
  head_at : (n : ℕ) → n ≤ length img → (slice_source img).read_at 0 n ≡ ok (take n img)
  unfolding drop
  head_at n le = slice_read_at-eq_ok img 0 n (omega arith) small

  probe_long : leb 76 (length img) ≡ true → probe (slice_source img) ≡ ok (le32 img == magic)
  unfolding probe
  probe_long long =
      let not_short : ltb (length img) 76 ≡ false = ground arith in
      rw (probe, not_short, head_at 4 (ground arith), ◌>>=◌, le32-take 4 img (omega arith)) refl

  probe_short : leb 76 (length img) ≡ false → probe (slice_source img) ≡ ok false
  unfolding probe
  probe_short short = let s : ltb (length img) 76 ≡ true = ground arith in rw (probe, s) refl

  open_long :
      leb 76 (length img) ≡ true
      → open_volume (slice_source img) ≡ (
          guard (le32 img == magic) (bad_magic (le32 img))
          >> guard
              (not (ext_block_pointers (le32 (drop 8 img))))
              (unsupported "cramfs: EXT_BLOCK_POINTERS extension"))
  unfolding open_volume
  open_long long =
      let w0 = le32-take 12 img (omega arith) in
      let w2 = ap le32 (drop-take 8 4 12 img refl) ∙ le32-take 4 (drop 8 img) (omega arith) in
      rw (open_volume, long, ◌>>=◌, head_at 12 (ground arith), w0, w2) refl

  open_short :
      leb 76 (length img) ≡ false
      → open_volume (slice_source img) ≡ err (corrupt "cramfs: shorter than superblock")
  unfolding open_volume
  open_short short = rw (open_volume, short) refl

  -- The image can be opened exactly when `probe` accepts it and its flags lack the block pointers
  -- extension.
  pub open_volume_iff :
      (open_volume (slice_source img) ≡ ok tt)
      ↔ ((probe (slice_source img) ≡ ok true) × (ext_block_pointers (le32 (drop 8 img)) ≡ false))
  open_volume_iff = elim (Bool-cases (leb 76 (length img))) [
    | inr short ↦ (
      λ h. absurd (let bad = open_short short in cc),
      λ h. absurd (let bad = probe_short short in cc),
    )
    | inl long ↦
        rw (open_long long, probe_long long)
          (guards_iff (le32 img == magic) (ext_block_pointers (le32 (drop 8 img)))
            (bad_magic (le32 img)) (unsupported "cramfs: EXT_BLOCK_POINTERS extension"))
  ]

  -- A big-endian image, whose magic stands with its bytes reversed, is refused as unsupported, and is
  -- not taken by `probe`.
  pub big_endian_refused :
      (rest : Bytes)
      → img ≡ be32_bytes magic ++ rest
      → 76 ≤ length img
      → (open_volume (slice_source img) ≡ err (unsupported "cramfs: big-endian image"))
        × (probe (slice_source img) ≡ ok false)
  unfolding le32 be32 le32_bytes be32_bytes
  big_endian_refused rest e long =
      let swapped : le32 img ≡ 0x453d_cd28 = ap le32 e in
      let fits : leb 76 (length img) ≡ true = ground arith in
      (open_long fits ∙ rw swapped refl, probe_long fits ∙ rw swapped refl)
