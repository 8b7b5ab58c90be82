-- ===== src/Iso9660/Blocks.antt =====
-- The content of a zisofs file, for `read_zisofs` of crates/lamfold-iso/src/iso9660.rs.
use native.Mathlib.Nat.{div-add-mod', mod-lt}
use lamfold.Prelude.{
  List, get_elem?, some, ℕ, zero, suc, ◌+◌, ◌-◌, ◌*◌, ◌/◌, ◌^◌, ◌≤◌, ◌<◌, min, true, false, ltb,
  ltb→lt, leb, ◌==◌, Bool-cases, inl, inr, Bytes, [], ◌∷◌, ◌++◌, length, length-append, length-take,
  length-drop, take, drop, take-add, drop-drop, append_assoc, append-nil, bytes_eq, ◌≡◌, refl, sym,
  ap, ◌∙◌, arith,
}
use lamfold.Codec.{Codecs}
use lamfold.Error.{ok, ◌>>=◌}
use lamfold.RockRidge.{Zisofs}
use lamfold.Source.{BlockSource}
use lamfold.Iso9660.{Inode}
use lamfold.Iso9660.Compressed.{zisofs_magic, ptr, read_block, read_blocks, read_zisofs}
use lamfold.Iso9660.Packed.{
  table, AreWords, AreBlocks, IsCompressed, head_magic, ptr-table, pow_pos, checked_len_ok,
  read_block-Block,
}
use lamfold.Iso9660.Ends.{blocks_full, blocks_next}

-- A piece inside the front of a list.
take-take : (n w m : ℕ) (xs : Bytes) → w + n ≤ m → take n (drop w (take m xs)) ≡ take n (drop w xs)
unfolding take drop
take-take zero w m xs h = refl
take-take (suc n) zero zero xs h = absurd (omega arith)
take-take (suc n) zero (suc m) [] h = refl
take-take (suc n) zero (suc m) (x ∷ xs) h = ap (◌∷◌ x) (take-take n zero m xs (omega arith))
take-take (suc n) (suc w) zero xs h = absurd (omega arith)
take-take (suc n) (suc w) (suc m) [] h = refl
take-take (suc n) (suc w) (suc m) (x ∷ xs) h = take-take (suc n) w m xs (omega arith)

-- The start of the block that holds a position.
block_base :
    (cur size : ℕ) → 1 ≤ size → (cur / size * size ≤ cur) × (cur < cur / size * size + size)
block_base cur size h = (
  omega (arith, div-add-mod' cur size),
  omega (arith, div-add-mod' cur size, mod-lt cur {m = size} h),
)

module _ (codecs : Codecs) (src : BlockSource) (head : Bytes) (at size : ℕ) (content : Bytes) where
  -- Each block reads as the part of the content at its place.
  abbrev AreRead : Type 0
  AreRead =
      (blk : ℕ)
      → blk * size < length content
      → read_block codecs src at (ptr head blk) (ptr head (blk + 1))
          (min size (length content - blk * size))
        ≡ ok (take size (drop (blk * size) content))

  -- What a turn takes out of its block, in place of the content there.
  part_of_block :
      (cur base n : ℕ)
      → base ≤ cur
      → cur - base + n ≤ size
      → take n (drop (cur - base) (take size (drop base content))) ≡ take n (drop cur content)
  part_of_block cur base n le fits =
      take-take n (cur - base) size (drop base content) fits
      ∙ ap (take n) (drop-drop (cur - base) base cur content (omega arith))

  content_step :
      (k n cur next : ℕ)
      → n ≤ k
      → next ≡ cur + n
      → take k (drop cur content) ≡ take n (drop cur content) ++ take (k - n) (drop next content)
  content_step k n cur next le e =
      take-add n (k - n) k (drop cur content) (omega arith)
      ∙ ap (λ xs. take n (drop cur content) ++ take (k - n) xs) (drop-drop n cur next content e)

  read_blocks-AreRead :
      (want off turns cur : ℕ) (out : Bytes)
      → AreRead
      → 1 ≤ size
      → off + want ≤ length content
      → length out ≤ want
      → want ≤ turns + length out
      → cur ≡ off + length out
      → read_blocks codecs src head at (length content) size want turns cur out
        ≡ ok (out ++ take (want - length out) (drop cur content))
  unfolding take
  read_blocks-AreRead want off zero cur out h pos inside le enough e =
      let z : want - length out ≡ 0 = omega arith in
      blocks_full codecs src head at (length content) size want zero cur out (ground arith)
      ∙ rw z (ap ok (sym (append-nil out)))
  read_blocks-AreRead want off (suc turns) cur out h pos inside le enough e =
      elim (Bool-cases (ltb (length out) want)) [
        | inr full ↦
            let z : want - length out ≡ 0 = ground arith in
            blocks_full codecs src head at (length content) size want (suc turns) cur out full
            ∙ rw z (ap ok (sym (append-nil out)))
        | inl more ↦
            let base = cur / size * size in
            let bytes = take size (drop base content) in
            let at_base = block_base cur size pos in
            let some_ = ltb→lt _ _ more in
            let here = h (cur / size) (omega (arith, at_base.0)) in
            let k = want - length out in
            let n = min (length bytes - (cur - base)) k in
            let long = length-take size (drop base content) in
            let behind = length-drop base content in
            let fits : cur - base + n ≤ size = omega (arith, at_base.0, at_base.1, long, behind) in
            let moved : (n == 0) ≡ false = ground (arith, at_base.0, at_base.1, long, behind) in
            let part = part_of_block cur base n at_base.0 fits in
            let out' = out ++ take n (drop (cur - base) bytes) in
            let longer = length-append out (take n (drop (cur - base) bytes)) in
            let got = length-take n (drop (cur - base) bytes) in
            let there = length-drop (cur - base) bytes in
            let grown : length out' ≡ length out + n = omega (arith, at_base.0) in
            let rest =
              read_blocks-AreRead want off turns (cur + n) out' h pos inside (omega arith)
                (ground (arith, moved)) (omega arith) in
            let left : want - length out' ≡ k - n = omega arith in
            blocks_next codecs src head at (length content) size want turns cur out bytes more here
              moved
            ∙ rest
            ∙ ap ok (
                append_assoc out (take n (drop (cur - base) bytes))
                  (take (want - length out') (drop (cur + n) content))
                ∙ ap (λ xs. out ++ xs)
                    (rw (left, part) (sym (content_step k n cur (cur + n) (omega arith) refl))))
      ]

module _ (codecs : Codecs) (src : BlockSource) (at : ℕ) where
  AreBlocks-read :
      (size : ℕ) (sizes : Bytes) (pointers : List ℕ) (content : Bytes)
      → length sizes ≡ 8
      → AreWords pointers
      → AreBlocks codecs src at size pointers content
      → AreRead codecs src (zisofs_magic ++ (sizes ++ table pointers)) at size content
  AreBlocks-read size sizes pointers content eight fit blocks blk inside =
      let (p, q, first, second, block) = blocks blk inside in
      let bytes = take size (drop (blk * size) content) in
      let n : min size (length content - blk * size) ≡ length bytes =
        omega
          (arith, length-take size (drop (blk * size) content), length-drop (blk * size) content) in
      let next : get_elem? pointers (blk + 1) ≡ some q =
        let k : blk + 1 ≡ suc blk = omega arith in ap (get_elem? pointers) k ∙ second in
      rw
        (
          ptr-table sizes pointers blk eight fit first,
          ptr-table sizes pointers (blk + 1) eight fit next,
          n,
        )
        (read_block-Block codecs src at p q bytes block)

module _ (codecs : Codecs) (src : BlockSource) (block_size : ℕ) (inode : Inode) (zi : Zisofs)
    (content : Bytes) (c : IsCompressed codecs src block_size inode zi content) where
  -- A zisofs file, whose table of pointers stands behind its header and whose blocks between the pointers
  -- hold its content, each as a zlib stream or as a hole of zeros, reads as its content: from `off` on, as
  -- many bytes as are wanted and there, none from the end on.
  pub read_zisofs-IsCompressed :
      (off want : ℕ)
      → read_zisofs codecs src block_size inode zi off want
        ≡ ok (take (min want (length content - off)) (drop off content))
  unfolding read_zisofs take
  read_zisofs-IsCompressed off want =
      let n = min want (length content - off) in
      let head = zisofs_magic ++ (c.sizes ++ table c.pointers) in
      let are_read =
        AreBlocks-read codecs src (inode.lba * block_size) (2 ^ zi.block_size_log2) c.sizes
          c.pointers content c.sizes_are c.pointers_fit c.are_blocks in
      elim (Bool-cases (leb (length content) off)) [
        | inl past ↦ let z : n ≡ 0 = ground arith in rw (read_zisofs, c.size_is, past, z) refl
        | inr inside ↦
            let walked =
              read_blocks-AreRead codecs src head (inode.lba * block_size) (2 ^ zi.block_size_log2)
                content n off n off [] are_read (pow_pos zi.block_size_log2) (ground arith)
                (omega arith) (omega arith) (omega arith) in
            let small : ltb zi.block_size_log2 31 ≡ true = ground (arith, c.log2_fits) in
            let cap = checked_len_ok (16 + length c.pointers * 4) c.head_fits in
            let on : leb zi.uncompressed_size off ≡ false = ground (arith, c.size_is) in
            let same_ : n - 0 ≡ n = omega arith in
            let whole : ok (take (n - 0) (drop off content)) ≡ ok (take n (drop off content)) =
              rw same_ refl in
            let magic : bytes_eq (take 8 head) zisofs_magic ≡ true =
              head_magic (c.sizes ++ table c.pointers) in
            rw
              (
                read_zisofs,
                on,
                small,
                c.size_is,
                sym c.pointers_are,
                cap,
                ◌>>=◌,
                c.head_read,
                magic,
              )
              (walked ∙ whole)
      ]
