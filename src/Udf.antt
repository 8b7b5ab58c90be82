-- ===== src/Udf.antt =====
-- crates/lamfold-udf/src/udf.rs: the UDF frontend, its state and the parts that read descriptors. The methods
-- stand in Udf/Volume. `usize` cursors into a buffer stay below 2^63; the sums of block numbers, which are
-- `u32`, wrap as in a release build.
pub mod Volume
pub mod Names
pub mod Written
pub mod Listed
pub mod Extents
pub mod Nodes
pub mod Mounted
pub mod Entries
pub mod Descriptors
use lamfold.Prelude.{
  ℕ, zero, suc, ◌+◌, ◌-◌, ◌*◌, ◌/◌, ◌%◌, ◌^◌, min, Bool, true, false, not, ◌&&◌, ◌||◌, ltb, leb,
  ◌==◌, if◌then◌else◌, Bytes, List, [], ◌∷◌, ◌++◌, length, take, drop, get_elem?, get_or, slice?,
  le16, le32, Option, none, some,
}
use lamfold.Error.{
  FoldError, Result, ok, err, corrupt, unsupported, invalid_path, not_found, ◌>>=◌, ◌>>◌, guard,
  ok_or,
}
use lamfold.Frontend.{NodeId, FileKind, regular, directory, symlink, other}
use lamfold.Prelude.TreeMap.{TreeMap, lookup, insert, nat_ord}
use lamfold.ReadCap.{checked_full_read_len}
use lamfold.Source.{BlockSource, usize_end}

abbrev pub sector : ℕ
sector = 2048

abbrev pub avdp_sector : ℕ
avdp_sector = 256

-- An extent that is not recorded has no block, and reads as zeros.
pub record Extent : Type 0 where
  pub lba : Option ℕ
  pub len : ℕ

pub data FileData : Type 0 where
  inline : Bytes → FileData
  extents : List Extent → FileData

pub record UdfInode : Type 0 where
  pub kind : FileKind
  pub size : ℕ
  pub data_ : FileData

-- The fields of `Udf` but for the source.
pub record Udf : Type 0 where
  pub block_size : ℕ
  pub partition_start : ℕ
  pub nodes : List UdfInode
  pub by_lba : TreeMap ℕ NodeId

abbrev pub add_node : ℕ → UdfInode → Udf → NodeId × Udf
add_node fe_lba inode v =
    let id = length v.nodes in
    (id, record v { nodes = v.nodes ++ inode ∷ []; by_lba = insert fe_lba id v.by_lba })

unfoldable pub intern : ℕ → UdfInode → Udf → NodeId × Udf
unfolding lookup insert
intern fe_lba inode v = elim (lookup fe_lba v.by_lba) [
  | some id ↦ (id, v)
  | none ↦ add_node fe_lba inode v
]

unfoldable pub inode_at : Udf → NodeId → Result UdfInode
unfolding get_elem?
inode_at v node = ok_or (get_elem? v.nodes node) not_found

unfoldable pub le_u16 : Bytes → ℕ → Result ℕ
unfolding slice? le16
le_u16 b o = do s ← ok_or (slice? b o 2) (corrupt "udf: truncated u16"); ok (le16 s)

unfoldable pub le_u32 : Bytes → ℕ → Result ℕ
unfolding slice? le32
le_u32 b o = do s ← ok_or (slice? b o 4) (corrupt "udf: truncated u32"); ok (le32 s)

unfoldable pub le_u64 : Bytes → ℕ → Result ℕ
unfolding slice? le32 drop
le_u64 b o = do
  s ← ok_or (slice? b o 8) (corrupt "udf: truncated u64")
  ok (le32 s + 2 ^ 32 * le32 (drop 4 s))

abbrev pub kind_of : ℕ → FileKind
kind_of file_type =
    if file_type == 4
    then directory
    else if file_type == 5
    then regular
    else if file_type == 12
    then symlink
    else other

-- A sum of block numbers.
abbrev pub block_add : ℕ → ℕ → ℕ
block_add a b = (a + b) % 2 ^ 32

-- One allocation descriptor of `parse_extents`: its length and type share a word.
unfoldable pub parse_extent : ℕ → Bytes → List Extent → Result (List Extent)
unfolding le32 drop
parse_extent partition_start c ex =
    let raw = le32 c in
    let len = raw % 2 ^ 30 in
    let etype = raw / 2 ^ 30 in
    if len == 0
    then ok ex
    else if etype == 3
    then err (unsupported "udf: allocation-extent continuation not supported")
    else ok (
        ex
        ++ record {
          lba = if etype == 0 then some (block_add partition_start (le32 (drop 4 c))) else none;
          len = len;
        }
          ∷ [])

-- The loop over `chunks_exact(stride)`, on fuel: each turn takes a chunk.
unfoldable pub extents_from : ℕ → ℕ → ℕ → Bytes → List Extent → Result (List Extent)
unfolding parse_extent take drop
extents_from zero partition_start stride ads ex = ok ex
extents_from (suc turns) partition_start stride ads ex = elim (leb stride (length ads)) [
  | false ↦ ok ex
  | true ↦ do
    ex' ← parse_extent partition_start (take stride ads) ex
    extents_from turns partition_start stride (drop stride ads) ex'
]

unfoldable pub parse_extents : ℕ → Bytes → ℕ → ℕ → ℕ → Result FileData
unfolding slice? extents_from
parse_extents partition_start buf ad_off l_ad stride = do
  ads ← ok_or (slice? buf ad_off l_ad) (corrupt "udf: allocation descriptors out of bounds")
  ex ← extents_from (length ads) partition_start stride ads []
  ok (extents ex)

-- Where a File Entry and an Extended File Entry have the lengths of their areas, and where these start.
abbrev pub layout_of : ℕ → Result (ℕ × ℕ × ℕ)
layout_of tag =
    if tag == 261
    then ok (168, 172, 176)
    else if tag == 266
    then ok (208, 212, 216)
    else err (corrupt "udf: expected a File Entry")

unfoldable pub parse_inline : Bytes → ℕ → ℕ → Result FileData
unfolding slice? checked_full_read_len
parse_inline buf ad_off info_len = do
  n ← checked_full_read_len usize_end info_len
  bytes ← ok_or (slice? buf ad_off n) (corrupt "udf: inline data out of bounds")
  ok (inline bytes)

-- The `match` on the type of the allocation descriptors.
unfoldable pub parse_data : ℕ → ℕ → Bytes → ℕ → ℕ → ℕ → Result FileData
unfolding parse_inline parse_extents
parse_data partition_start ad_type buf ad_off l_ad info_len =
    if ad_type == 3
    then parse_inline buf ad_off info_len
    else if ad_type == 0
    then parse_extents partition_start buf ad_off l_ad 8
    else if ad_type == 1
    then parse_extents partition_start buf ad_off l_ad 16
    else err (unsupported "udf: extended_ad allocation descriptors not supported")

-- What `read_fe` makes of the block that it has read.
unfoldable pub parse_fe : ℕ → Bytes → Result UdfInode
unfolding le_u16 le_u32 le_u64 get_elem? parse_data
parse_fe partition_start buf = do
  tag ← le_u16 buf 0
  (l_ea_at, l_ad_at, ea_start) ← layout_of tag
  file_type ← ok_or (get_elem? buf 27) (corrupt "udf: short ICBTag")
  flags ← le_u16 buf 34
  info_len ← le_u64 buf 56
  l_ea ← le_u32 buf l_ea_at
  l_ad ← le_u32 buf l_ad_at
  data_ ← parse_data partition_start (flags % 8) buf (ea_start + l_ea) l_ad info_len
  ok (record { kind = kind_of file_type; size = info_len; data_ = data_ })

module _ (src : BlockSource) where
  unfoldable pub read_block : ℕ → ℕ → Result Bytes
  read_block block_size lba =
      let off = lba * block_size in
      do
        guard (leb (off + block_size) src.len) (corrupt "udf: block past end of source")
        src.read_at off block_size

  unfoldable pub read_fe : ℕ → ℕ → ℕ → Result UdfInode
  unfolding read_block parse_fe
  read_fe block_size partition_start fe_lba = do
    buf ← read_block block_size fe_lba
    parse_fe partition_start buf
