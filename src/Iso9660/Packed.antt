-- ===== src/Iso9660/Packed.antt =====
-- How a zisofs file stands in an image, for `read_zisofs` of crates/lamfold-iso/src/iso9660.rs: a header, a
-- table of pointers, and the blocks between them.
use native.Mathlib.Nat.{two-pow-succ}
use lamfold.Prelude.{
  List, replicate, get_elem?, le32, le32_bytes, le32-le32_bytes, length-le32_bytes, drop-append_add,
  some, some-injective, ℕ, zero, suc, ◌+◌, ◌-◌, ◌*◌, ◌/◌, ◌^◌, ◌≤◌, ◌<◌, true, false, leb, Bytes,
  [], ◌∷◌, ◌++◌, length, take, drop, bytes_eq, ◌≡◌, refl, sym, ap, ◌∙◌, arith,
}
use lamfold.Codec.{Codecs, Inflate, zlib, decode, decode_as, inflate_zlib}
use lamfold.Error.{ok, ◌>>=◌}
use lamfold.ReadCap.{
  checked_full_read_len, checked_block_len, max_boot_file_bytes, max_decompressed_block_bytes,
}
use lamfold.RockRidge.{Zisofs}
use lamfold.Source.{BlockSource, usize_end}
use lamfold.Iso9660.{Inode}
use lamfold.Iso9660.Compressed.{zisofs_magic, ptr, read_block}

-- A block of `bytes` between two pointers into the extent at `at`: a hole of zeros, if no byte stands between
-- them, or else the zlib stream that stands there.
pub data Block (codecs : Codecs) (src : BlockSource) (at p q : ℕ) (bytes : Bytes) : Type 0 where
  hole : q ≤ p → bytes ≡ replicate (length bytes) 0 → Block codecs src at p q bytes
  packed :
      (lib : Inflate) (comp : Bytes)
      → p < q
      → q - p ≤ max_boot_file_bytes
      → src.read_at (at + p) (q - p) ≡ ok comp
      → codecs.deflate ≡ some lib
      → length bytes ≤ max_decompressed_block_bytes
      → lib.zlib_with_limit comp (length bytes) ≡ some bytes
      → Block codecs src at p q bytes

abbrev pub table : List ℕ → Bytes
table [] = []
table (p ∷ ps) = le32_bytes p ++ table ps

abbrev pub AreWords : List ℕ → Type 0
AreWords [] = Unit
AreWords (p ∷ ps) = (p < 2 ^ 32) × AreWords ps

-- The pointers of each block of the content, and the block between them.
abbrev pub AreBlocks : Codecs → BlockSource → ℕ → ℕ → List ℕ → Bytes → Type 0
AreBlocks codecs src at size pointers content =
    (blk : ℕ)
    → blk * size < length content
    → (p : ℕ) × (q : ℕ) × (get_elem? pointers blk ≡ some p)
      × (get_elem? pointers (suc blk) ≡ some q)
      × Block codecs src at p q (take size (drop (blk * size) content))

-- The header, the table of pointers and the blocks of a compressed file stand in the source, and hold
-- `content`. The header has two sizes behind its magic, which the reader passes over.
pub record IsCompressed (codecs : Codecs) (src : BlockSource) (block_size : ℕ) (inode : Inode)
    (zi : Zisofs) (content : Bytes) : Type 0 where
  pub sizes : Bytes
  pub pointers : List ℕ
  pub sizes_are : length sizes ≡ 8
  pub pointers_fit : AreWords pointers
  pub size_is : zi.uncompressed_size ≡ length content
  pub log2_fits : zi.block_size_log2 < 31
  pub pointers_are :
      length pointers ≡ (length content + (2 ^ zi.block_size_log2 - 1)) / 2 ^ zi.block_size_log2 + 1
  pub head_fits : 16 + length pointers * 4 ≤ max_boot_file_bytes
  pub head_read :
      src.read_at (inode.lba * block_size) (16 + length pointers * 4)
      ≡ ok (zisofs_magic ++ (sizes ++ table pointers))
  pub are_blocks :
      AreBlocks codecs src (inode.lba * block_size) (2 ^ zi.block_size_log2) pointers content

pub head_magic : (rest : Bytes) → bytes_eq (take 8 (zisofs_magic ++ rest)) zisofs_magic ≡ true
unfolding bytes_eq take
head_magic rest = refl

le32-table :
    (ps : List ℕ) (i : ℕ) {p : ℕ}
    → AreWords ps
    → get_elem? ps i ≡ some p
    → le32 (drop (i * 4) (table ps)) ≡ p
unfolding get_elem? drop
le32-table [] i fit e = absurd (cc)
le32-table (x ∷ ps) zero fit e = le32-le32_bytes x (table ps) fit.0 ∙ some-injective e
le32-table (x ∷ ps) (suc i) fit e =
    ap le32 (
      drop-append_add (le32_bytes x) (table ps) (suc i * 4) (i * 4)
        (omega (arith, length-le32_bytes x)))
    ∙ le32-table ps i fit.1 e

pub ptr-table :
    (sizes : Bytes) (ps : List ℕ) (i : ℕ) {p : ℕ}
    → length sizes ≡ 8
    → AreWords ps
    → get_elem? ps i ≡ some p
    → ptr (zisofs_magic ++ (sizes ++ table ps)) i ≡ p
unfolding ptr
ptr-table sizes ps i eight fit e =
    ap le32 (
      drop-append_add zisofs_magic (sizes ++ table ps) (16 + i * 4) (8 + i * 4) (omega arith)
      ∙ drop-append_add sizes (table ps) (8 + i * 4) (i * 4) (omega (arith, eight)))
    ∙ le32-table ps i fit e

pub pow_pos : (n : ℕ) → 1 ≤ 2 ^ n
pow_pos zero = omega arith
pow_pos (suc n) = let more = two-pow-succ n in omega (arith, pow_pos n, more)

pub checked_len_ok : (n : ℕ) → n ≤ max_boot_file_bytes → checked_full_read_len usize_end n ≡ ok n
unfolding checked_full_read_len
checked_len_ok n h = ground arith

checked_block_ok : (n : ℕ) → n ≤ max_decompressed_block_bytes → checked_block_len usize_end n ≡ ok n
unfolding checked_block_len
checked_block_ok n h = ground arith

-- zlib through `decode`.
decode_zlib :
    (codecs : Codecs) (lib : Inflate) (comp bytes : Bytes)
    → codecs.deflate ≡ some lib
    → length bytes ≤ max_decompressed_block_bytes
    → lib.zlib_with_limit comp (length bytes) ≡ some bytes
    → decode codecs zlib comp (length bytes) ≡ ok bytes
unfolding decode decode_as inflate_zlib checked_block_len
decode_zlib codecs lib comp bytes feature small inflated =
    let cap = checked_block_ok (length bytes) small in
    rw (decode, cap, ◌>>=◌, decode_as, inflate_zlib, feature, ◌>>=◌, inflated) refl

module _ (codecs : Codecs) (src : BlockSource) (at : ℕ) where
  pub read_block-Block :
      (p q : ℕ) (bytes : Bytes)
      → Block codecs src at p q bytes
      → read_block codecs src at p q (length bytes) ≡ ok bytes
  unfolding read_block
  read_block-Block p q bytes (hole le zeros) =
      let none_ : leb q p ≡ true = ground (arith, le) in rw (read_block, none_) (ap ok (sym zeros))
  read_block-Block p q bytes (packed lib comp lt small read feature block inflated) =
      let some_ : leb q p ≡ false = ground (arith, lt) in
      let cap = checked_len_ok (q - p) small in
      let decoded : decode codecs zlib comp (length bytes) ≡ ok bytes =
        decode_zlib codecs lib comp bytes feature block inflated in
      rw (read_block, some_, cap, ◌>>=◌, read, decoded) refl
