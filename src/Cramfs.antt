-- ===== src/Cramfs.antt =====
-- crates/lamfold-cramfs/src/cramfs.rs: cramfs. A mounted volume is its source, which no method changes.
-- The masks and shifts of the bit fields are written by `%` and `/`.
pub mod Layout
pub mod Listing
pub mod Written
pub mod Pages
pub mod Files
pub mod Opened
use lamfold.Prelude.{
  ℕ, zero, suc, ◌+◌, ◌-◌, ◌*◌, ◌/◌, ◌%◌, ◌^◌, min, Bool, true, false, not, ltb, leb, ◌==◌,
  if◌then◌else◌, Bytes, List, [], ◌∷◌, ◌++◌, length, take, drop, replicate, position, le32, be32,
  le32_bytes, Option, none, some,
}
use lamfold.Codec.{Codecs, zlib, decode}
use lamfold.Error.{
  FoldError, Result, ok, err, corrupt, unsupported, not_directory, is_directory, ◌>>=◌, ◌>>◌, guard,
}
use lamfold.Frontend.{
  NodeId, FileKind, regular, directory, symlink, other, Metadata, DirEntry, View,
}
use lamfold.ReadCap.{checked_full_read_len}
use lamfold.Romfs.{find_name}
use lamfold.Source.{BlockSource, usize_end}
use lamfold.Utf8.{from_utf8_lossy}

abbrev pub magic : ℕ
magic = 0x28cd_3d45

abbrev pub root_inode_off : ℕ
root_inode_off = 64

abbrev pub page : ℕ
page = 4096

-- `flags & FLAG_EXT_BLOCK_POINTERS != 0`.
abbrev pub ext_block_pointers : ℕ → Bool
ext_block_pointers flags = flags / 0x800 % 2 == 1

pub record CrInode : Type 0 where
  pub mode : ℕ
  pub size : ℕ
  pub namelen : ℕ
  pub data_off : ℕ

-- The fields of the three words of an inode.
unfoldable pub inode_of : Bytes → CrInode
unfolding le32 drop
inode_of b = record {
  mode = le32 b % 2 ^ 16;
  size = le32 (drop 4 b) % 2 ^ 24;
  namelen = le32 (drop 8 b) % 64 * 4;
  data_off = le32 (drop 8 b) / 64 * 4;
}

abbrev pub kind : ℕ → FileKind
kind mode =
    let file_type = mode / 4096 % 16 * 4096 in
    if file_type == 0x8000
    then regular
    else if file_type == 0x4000
    then directory
    else if file_type == 0xa000
    then symlink
    else other

abbrev pub is_directory_kind : FileKind → Bool
is_directory_kind directory = true
is_directory_kind _ = false

abbrev pub is_symlink_kind : FileKind → Bool
is_symlink_kind symlink = true
is_symlink_kind _ = false

-- `ptr(i)`.
unfoldable pub ptr : Bytes → ℕ → ℕ
unfolding le32 drop
ptr idx i = le32 (drop (i * 4) idx)

-- `name.split(|&b| b == 0).next()`: the name up to its first NUL.
unfoldable pub unpad : Bytes → Bytes
unfolding position take
unpad name = elim (position 0 name) [ none ↦ name | some nul ↦ take nul name ]

-- `magic.swap_bytes()`.
abbrev pub bad_magic : ℕ → FoldError
unfolding be32 le32_bytes
bad_magic found =
    if be32 (le32_bytes found) == magic
    then unsupported "cramfs: big-endian image"
    else corrupt "cramfs: bad magic"

module _ (src : BlockSource) where
  unfoldable pub parse_inode : ℕ → Result CrInode
  unfolding inode_of
  parse_inode off = do b ← src.read_at off 12; ok (inode_of b)

  unfoldable pub probe : Result Bool
  unfolding le32
  probe =
      if ltb src.len (root_inode_off + 12)
      then ok false
      else do m ← src.read_at 0 4; ok (le32 m == magic)

  -- `open`: the volume is its source.
  unfoldable pub open_volume : Result (Unit {0})
  unfolding le32 drop
  open_volume = do
    guard (leb (root_inode_off + 12) src.len) (corrupt "cramfs: shorter than superblock")
    head ← src.read_at 0 12
    guard (le32 head == magic) (bad_magic (le32 head))
    guard (not (ext_block_pointers (le32 (drop 8 head))))
        (unsupported "cramfs: EXT_BLOCK_POINTERS extension")

  -- The record at `p`: the entry it lists, and where the next one stands.
  unfoldable pub read_entry : ℕ → Result (DirEntry × ℕ)
  unfolding parse_inode unpad from_utf8_lossy
  read_entry p = do
    child ← parse_inode p
    name ← src.read_at (p + 12) child.namelen
    ok (
      record { name = from_utf8_lossy (unpad name); node = p; kind = kind child.mode },
      p + (12 + child.namelen),
    )

  -- The loop of `read_dir`, over the turns left.
  unfoldable pub list_from : ℕ → ℕ → ℕ → List DirEntry → Result (List DirEntry)
  unfolding read_entry
  list_from zero end p out = ok out
  list_from (suc turns) end p out = elim (ltb p end) [
    | false ↦ ok out
    | true ↦ do (entry, next) ← read_entry p; list_from turns end next (out ++ entry ∷ [])
  ]

  unfoldable pub read_dir : NodeId → Result (List DirEntry)
  unfolding parse_inode list_from
  read_dir dir = do
    inode ← parse_inode dir
    guard (is_directory_kind (kind inode.mode)) not_directory
    list_from inode.size (inode.data_off + inode.size) inode.data_off []

  unfoldable pub lookup : NodeId → Bytes → Result (Option NodeId)
  unfolding read_dir find_name
  lookup dir name = do entries ← read_dir dir; ok (find_name name entries)

  unfoldable pub metadata : NodeId → Result Metadata
  unfolding parse_inode
  metadata node = do
    inode ← parse_inode node
    ok (record { kind = kind inode.mode; size = inode.size; mode = inode.mode % 4096 })

module _ (codecs : Codecs) (src : BlockSource) where
  -- One page of `read_whole`, in the bytes from `start` to `end`.
  unfoldable pub read_page : ℕ → ℕ → ℕ → Result Bytes
  unfolding decode replicate
  read_page start end want = elim (leb end start) [
    | true ↦ ok (replicate want 0)
    | false ↦ do comp ← src.read_at start (end - start); decode codecs zlib comp want
  ]

  -- The loop of `read_whole` over the pages left, from page `i`.
  unfoldable pub read_pages : Bytes → ℕ → ℕ → ℕ → ℕ → Bytes → Result Bytes
  read_pages idx total zero i start out = ok out
  read_pages idx total (suc left) i start out = do
    let end = ptr idx i
    bytes ← read_page start end (min page (total - length out))
    read_pages idx total left (suc i) end (out ++ bytes)

  unfoldable pub read_whole : CrInode → Result Bytes
  unfolding checked_full_read_len read_pages take
  read_whole inode = do
    total ← checked_full_read_len usize_end inode.size
    elim (total == 0) [
      | true ↦ ok []
      | false ↦ do
        let nblocks = (inode.size + (page - 1)) / page
        idx ← src.read_at inode.data_off (nblocks * 4)
        out ← read_pages idx total nblocks 0 (inode.data_off + nblocks * 4) []
        ok (take total out)
    ]

  unfoldable pub read_at : NodeId → ℕ → ℕ → Result Bytes
  unfolding parse_inode read_whole take drop
  read_at node off want = do
    inode ← parse_inode src node
    guard (not (is_directory_kind (kind inode.mode))) is_directory
    elim (leb inode.size off) [
      | true ↦ ok []
      | false ↦ do
        data_ ← read_whole inode
        ok (take (min want (length data_ - off)) (drop off data_))
    ]

  unfoldable pub read_link : NodeId → Result (Option Bytes)
  unfolding parse_inode read_whole
  read_link node = do
    inode ← parse_inode src node
    elim (is_symlink_kind (kind inode.mode)) [
      | false ↦ ok none
      | true ↦ do target ← read_whole inode; ok (some target)
    ]

  abbrev pub volume : View
  volume = record {
    root = root_inode_off;
    lookup = lookup src;
    read_dir = read_dir src;
    metadata = metadata src;
    read_at = read_at;
    read_link = read_link;
  }
