-- ===== src/Cramfs/Layout.antt =====
-- The inode of crates/lamfold-cramfs/src/cramfs.rs: what a writer of the format puts down, `parse_inode`
-- gives back, wherever in the image it stands.
use lamfold.Prelude.{
  ℕ, ◌+◌, ◌*◌, ◌/◌, ◌%◌, ◌^◌, ◌<◌, ◌≤◌, Bytes, ◌++◌, length, drop, le32_bytes, le32-le32_bytes,
  le32_bytes_lem, ◌≡◌, refl, sym, ap, arith,
}
use lamfold.Error.{ok}
use lamfold.Source.{slice_source}
use lamfold.Source.Region.{Stands-whole, slice-Stands}
use lamfold.Cramfs.{CrInode, inode_of, parse_inode}

-- The fields of an inode as the format packs them: the length of the name and the offset count words.
pub record RawInode : Type 0 where
  pub mode : ℕ
  pub uid : ℕ
  pub size : ℕ
  pub gid : ℕ
  pub name_words : ℕ
  pub off_words : ℕ

pub record Fits (r : RawInode) : Type 0 where
  pub mode_fits : r.mode < 2 ^ 16
  pub uid_fits : r.uid < 2 ^ 16
  pub size_fits : r.size < 2 ^ 24
  pub gid_fits : r.gid < 2 ^ 8
  pub name_fits : r.name_words < 2 ^ 6
  pub off_fits : r.off_words < 2 ^ 26

abbrev pub word0 : RawInode → ℕ
word0 r = r.mode + 2 ^ 16 * r.uid

abbrev pub word1 : RawInode → ℕ
word1 r = r.size + 2 ^ 24 * r.gid

abbrev pub word2 : RawInode → ℕ
word2 r = r.name_words + 64 * r.off_words

unfoldable pub image_of : RawInode → Bytes
unfolding le32_bytes
image_of r = le32_bytes (word0 r) ++ (le32_bytes (word1 r) ++ le32_bytes (word2 r))

abbrev pub read_as : RawInode → CrInode
read_as r = record {
  mode = r.mode;
  size = r.size;
  namelen = r.name_words * 4;
  data_off = r.off_words * 4;
}

pub length-image_of : (r : RawInode) → length (image_of r) ≡ 12
unfolding image_of le32_bytes
length-image_of r = refl

-- The bit fields of three words.
abbrev unpacked : ℕ → ℕ → ℕ → CrInode
unpacked a b c = record {
  mode = a % 2 ^ 16;
  size = b % 2 ^ 24;
  namelen = c % 64 * 4;
  data_off = c / 64 * 4;
}

unpacked_lem : (r : RawInode) → Fits r → unpacked (word0 r) (word1 r) (word2 r) ≡ read_as r
unpacked_lem r f = ground arith

pub inode_of-image_of : (r : RawInode) → Fits r → inode_of (image_of r) ≡ read_as r
unfolding inode_of image_of le32_bytes drop
inode_of-image_of r f =
    let w1 = le32_bytes (word1 r) in
    let w2 = le32_bytes (word2 r) in
    let first = le32-le32_bytes (word0 r) (w1 ++ w2) (ground (arith, f)) in
    let second = le32-le32_bytes (word1 r) w2 (ground (arith, f)) in
    let third = le32_bytes_lem (word2 r) (ground (arith, f)) in
    rw (sym first, sym second, sym third) at (unpacked_lem r f)

-- An inode that stands in an image as the format packs it, mode and uid in one word, size and gid in
-- the next, name length and offset in the last, is read back as its mode, its size, and the name length
-- and data offset in bytes.
pub parse_inode-image_of :
    (r : RawInode) (before after : Bytes)
    → Fits r
    → length (before ++ (image_of r ++ after)) ≤ 2 ^ 63
    → parse_inode (slice_source (before ++ (image_of r ++ after))) (length before) ≡ ok (read_as r)
unfolding parse_inode
parse_inode-image_of r before after f small =
    let src = slice_source (before ++ (image_of r ++ after)) in
    rw
      (Stands-whole src (length before) 12 (image_of r) (sym (length-image_of r))
        (slice-Stands before (image_of r) after (length before) refl small))
      (ap ok (inode_of-image_of r f))
