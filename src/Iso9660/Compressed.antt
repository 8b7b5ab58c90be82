-- ===== src/Iso9660/Compressed.antt =====
-- zisofs files of crates/lamfold-iso/src/iso9660.rs: `read_zisofs`. A block size is a power of two below 2^31, so
-- that no cursor leaves 64 bits; the table of a size below 2^32 does not either.
use lamfold.Prelude.{
  ℕ, zero, suc, ◌+◌, ◌-◌, ◌*◌, ◌/◌, ◌^◌, min, true, false, leb, ltb, ◌==◌, Bytes, [], ◌∷◌, ◌++◌,
  length, take, drop, replicate, le32, bytes_eq,
}
use lamfold.Codec.{Codecs, zlib, decode}
use lamfold.Error.{Result, ok, corrupt, ◌>>=◌, ◌>>◌, guard}
use lamfold.ReadCap.{checked_full_read_len}
use lamfold.RockRidge.{Zisofs}
use lamfold.Source.{BlockSource, usize_end}
use lamfold.Iso9660.{Inode}

abbrev pub zisofs_magic : Bytes
zisofs_magic = 0x37 ∷ 0xe4 ∷ 0x53 ∷ 0x96 ∷ 0xc9 ∷ 0xdb ∷ 0xd6 ∷ 0x07 ∷ []

-- `ptr(i)`.
unfoldable pub ptr : Bytes → ℕ → ℕ
unfolding le32 drop
ptr head i = le32 (drop (16 + i * 4) head)

module _ (codecs : Codecs) (src : BlockSource) where
  -- The block in the bytes from `cstart` to `cend` of the extent.
  unfoldable pub read_block : ℕ → ℕ → ℕ → ℕ → Result Bytes
  unfolding decode replicate checked_full_read_len
  read_block extent_off cstart cend this_uncomp = elim (leb cend cstart) [
    | true ↦ ok (replicate this_uncomp 0)
    | false ↦ do
      clen ← checked_full_read_len usize_end (cend - cstart)
      cbuf ← src.read_at (extent_off + cstart) clen
      decode codecs zlib cbuf this_uncomp
  ]

  -- The loop, on fuel: a turn writes a byte or more.
  unfoldable pub read_blocks : Bytes → ℕ → ℕ → ℕ → ℕ → ℕ → ℕ → Bytes → Result Bytes
  unfolding ptr read_block
  read_blocks head extent_off uncompressed block_size want zero cur out = ok out
  read_blocks head extent_off uncompressed block_size want (suc turns) cur out =
      elim (ltb (length out) want) [
        | false ↦ ok out
        | true ↦
            let blk = cur / block_size in
            let blk_base = blk * block_size in
            do
              decompressed ←
                  read_block extent_off (ptr head blk) (ptr head (blk + 1))
                    (min block_size (uncompressed - blk_base))
              let in_blk = cur - blk_base
              let n = min (length decompressed - in_blk) (want - length out)
              elim (n == 0) [
                | true ↦ ok out
                | false ↦
                    read_blocks head extent_off uncompressed block_size want turns (cur + n)
                      (out ++ take n (drop in_blk decompressed))
              ]
      ]

  unfoldable pub read_zisofs : ℕ → Inode → Zisofs → ℕ → ℕ → Result Bytes
  read_zisofs block_size inode zi off len = elim (leb zi.uncompressed_size off) [
    | true ↦ ok []
    | false ↦ do
      guard (ltb zi.block_size_log2 31) (corrupt "zisofs: implausible block size")
      let zblock = 2 ^ zi.block_size_log2
      let n_blocks = (zi.uncompressed_size + (zblock - 1)) / zblock
      head_len ← checked_full_read_len usize_end (16 + (n_blocks + 1) * 4)
      let extent_off = inode.lba * block_size
      head ← src.read_at extent_off head_len
      guard (bytes_eq (take 8 head) zisofs_magic) (corrupt "zisofs: bad magic")
      let want = min len (zi.uncompressed_size - off)
      read_blocks head extent_off zi.uncompressed_size zblock want want off []
  ]
