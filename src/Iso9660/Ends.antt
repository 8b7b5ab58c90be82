-- ===== src/Iso9660/Ends.antt =====
-- The loops of crates/lamfold-iso/src/iso9660.rs that run on fuel come to their end.
use lamfold.Prelude.{
  ℕ, zero, suc, ◌+◌, ◌-◌, ◌*◌, ◌/◌, ◌≤◌, min, true, false, ltb, leb, ◌==◌, Bool-cases, inl, inr,
  Bytes, ◌++◌, length, take, drop, get_or, ◌≡◌, refl, sym, ◌∙◌, arith,
}
use lamfold.Codec.{Codecs}
use lamfold.Error.{FoldError, Result, ok, err, Result-cases, ◌>>=◌}
use lamfold.Source.{BlockSource}
use lamfold.Iso9660.{Reading}
use lamfold.Iso9660.Compressed.{ptr, read_block, read_blocks}
use lamfold.Iso9660.Records.{Scan, scan_record, scan_from}

module _ (src : BlockSource) (v : Reading) (dir_lba : ℕ) (buf : Bytes) where
  pub scan_over :
      (turns pos : ℕ) (s : Scan)
      → ltb pos (length buf) ≡ false
      → scan_from src v dir_lba buf turns pos s ≡ ok s
  unfolding scan_from
  scan_over zero pos s h = refl
  scan_over (suc turns) pos s h = rw (scan_from, h) refl

  -- What the loop does at `pos`, by the byte there.
  scan_stuck :
      (turns pos : ℕ) (s : Scan)
      → ltb pos (length buf) ≡ true
      → (get_or buf pos 0 == 0) ≡ true
      → leb ((pos / v.block_size + 1) * v.block_size) pos ≡ true
      → scan_from src v dir_lba buf (suc turns) pos s ≡ ok s
  unfolding scan_from
  scan_stuck turns pos s on z e = rw (scan_from, on, z, e) refl

  pub scan_padding :
      (turns pos : ℕ) (s : Scan)
      → ltb pos (length buf) ≡ true
      → (get_or buf pos 0 == 0) ≡ true
      → leb ((pos / v.block_size + 1) * v.block_size) pos ≡ false
      → scan_from src v dir_lba buf (suc turns) pos s
        ≡ scan_from src v dir_lba buf turns ((pos / v.block_size + 1) * v.block_size) s
  unfolding scan_from
  scan_padding turns pos s on z e = rw (scan_from, on, z, e) refl

  scan_fails :
      (turns pos : ℕ) (s : Scan) (why : FoldError)
      → ltb pos (length buf) ≡ true
      → (get_or buf pos 0 == 0) ≡ false
      → scan_record src v dir_lba buf pos (get_or buf pos 0) s ≡ err why
      → scan_from src v dir_lba buf (suc turns) pos s ≡ err why
  unfolding scan_from
  scan_fails turns pos s why on nz e = rw (scan_from, on, nz, e, ◌>>=◌) refl

  pub scan_next :
      (turns pos : ℕ) (s s' : Scan)
      → ltb pos (length buf) ≡ true
      → (get_or buf pos 0 == 0) ≡ false
      → scan_record src v dir_lba buf pos (get_or buf pos 0) s ≡ ok s'
      → scan_from src v dir_lba buf (suc turns) pos s
        ≡ scan_from src v dir_lba buf turns (pos + get_or buf pos 0) s'
  unfolding scan_from
  scan_next turns pos s s' on nz e = rw (scan_from, on, nz, e, ◌>>=◌) refl

  -- The scan of a directory ends by itself: with a turn for each byte that is left, more turns change
  -- nothing, since padding and records both move the cursor on.
  pub scan_from_fuel :
      (t t' pos : ℕ) (s : Scan)
      → length buf ≤ pos + t
      → length buf ≤ pos + t'
      → scan_from src v dir_lba buf t pos s ≡ scan_from src v dir_lba buf t' pos s
  scan_from_fuel zero t' pos s e e' =
      let over : ltb pos (length buf) ≡ false = ground arith in
      scan_over zero pos s over ∙ sym (scan_over t' pos s over)
  scan_from_fuel (suc t) zero pos s e e' =
      let over : ltb pos (length buf) ≡ false = ground arith in
      scan_over (suc t) pos s over ∙ sym (scan_over zero pos s over)
  scan_from_fuel (suc t) (suc t') pos s e e' = elim (Bool-cases (ltb pos (length buf))) [
    | inr over ↦ scan_over (suc t) pos s over ∙ sym (scan_over (suc t') pos s over)
    | inl on ↦ elim (Bool-cases (get_or buf pos 0 == 0)) [
      | inl z ↦
          let next = (pos / v.block_size + 1) * v.block_size in
          elim (Bool-cases (leb next pos)) [
            | inl same ↦ scan_stuck t pos s on z same ∙ sym (scan_stuck t' pos s on z same)
            | inr moved ↦
                scan_padding t pos s on z moved
                ∙ scan_from_fuel t t' next s (ground arith) (ground arith)
                ∙ sym (scan_padding t' pos s on z moved)
          ]
      | inr nz ↦
          let len = get_or buf pos 0 in
          elim (Result-cases (scan_record src v dir_lba buf pos len s)) [
            | inr (why, bad) ↦
                scan_fails t pos s why on nz bad ∙ sym (scan_fails t' pos s why on nz bad)
            | inl (s', done) ↦
                scan_next t pos s s' on nz done
                ∙ scan_from_fuel t t' (pos + len) s' (ground arith) (ground arith)
                ∙ sym (scan_next t' pos s s' on nz done)
          ]
    ]
  ]

module _ (codecs : Codecs) (src : BlockSource) (head : Bytes) (at uncompressed size want : ℕ) where
  abbrev pub base : ℕ → ℕ
  base cur = cur / size * size

  abbrev pub block : ℕ → Result Bytes
  block cur =
      read_block codecs src at (ptr head (cur / size)) (ptr head (cur / size + 1))
        (min size (uncompressed - base cur))

  abbrev pub room : ℕ → Bytes → Bytes → ℕ
  room cur out bytes = min (length bytes - (cur - base cur)) (want - length out)

  abbrev pub loop : ℕ → ℕ → Bytes → Result Bytes
  loop turns cur out = read_blocks codecs src head at uncompressed size want turns cur out

  pub blocks_full :
      (turns cur : ℕ) (out : Bytes) → ltb (length out) want ≡ false → loop turns cur out ≡ ok out
  unfolding read_blocks
  blocks_full zero cur out h = refl
  blocks_full (suc turns) cur out h = rw (read_blocks, h) refl

  blocks_fail :
      (turns cur : ℕ) (out : Bytes) (why : FoldError)
      → ltb (length out) want ≡ true
      → block cur ≡ err why
      → loop (suc turns) cur out ≡ err why
  unfolding read_blocks
  blocks_fail turns cur out why on e = rw (read_blocks, on, e, ◌>>=◌) refl

  blocks_none :
      (turns cur : ℕ) (out bytes : Bytes)
      → ltb (length out) want ≡ true
      → block cur ≡ ok bytes
      → (room cur out bytes == 0) ≡ true
      → loop (suc turns) cur out ≡ ok out
  unfolding read_blocks
  blocks_none turns cur out bytes on e z = rw (read_blocks, on, e, ◌>>=◌, z) refl

  pub blocks_next :
      (turns cur : ℕ) (out bytes : Bytes)
      → ltb (length out) want ≡ true
      → block cur ≡ ok bytes
      → (room cur out bytes == 0) ≡ false
      → loop (suc turns) cur out
        ≡ loop turns
            (cur + room cur out bytes)
            (out ++ take (room cur out bytes) (drop (cur - base cur) bytes))
  unfolding read_blocks
  blocks_next turns cur out bytes on e nz = rw (read_blocks, on, e, ◌>>=◌, nz) refl
