-- ===== src/Romfs.antt =====
-- crates/lamfold-romfs/src/romfs.rs: Linux romfs. A mounted volume is its source and the offset of the
-- first header; no method changes either. `x & 7` and `x & 0xFFFF_FFF0` are written by `%` and `/`.
pub mod Links
pub mod Listing
pub mod Layout
pub mod Files
use lamfold.Prelude.{
  ℕ, zero, suc, ◌+◌, ◌-◌, ◌*◌, ◌/◌, ◌%◌, min, Bool, true, false, not, ◌&&◌, ◌||◌, ltb, leb, ◌==◌,
  if◌then◌else◌, Bytes, List, [], ◌∷◌, ◌++◌, length, take, drop, slice?, position, be32, bytes_eq,
  Option, none, some,
}
use lamfold.Error.{
  FoldError, Result, ok, err, corrupt, not_directory, is_directory, ◌>>=◌, ◌>>◌, guard, ok_or,
}
use lamfold.Frontend.{
  NodeId, FileKind, regular, directory, symlink, other, Metadata, DirEntry, View,
}
use lamfold.ReadCap.{checked_full_read_len}
use lamfold.Source.{BlockSource, usize_end}
use lamfold.Utf8.{from_utf8_lossy}

abbrev pub magic : Bytes
magic = b'-' ∷ b'r' ∷ b'o' ∷ b'm' ∷ b'1' ∷ b'f' ∷ b's' ∷ b'-' ∷ []

abbrev pub max_name : ℕ
max_name = 256

abbrev pub max_link_hops : ℕ
max_link_hops = 8

abbrev pub ft_hardlink : ℕ
ft_hardlink = 0

abbrev pub ft_directory : ℕ
ft_directory = 1

abbrev pub ft_regular : ℕ
ft_regular = 2

abbrev pub ft_symlink : ℕ
ft_symlink = 3

pub record Header : Type 0 where
  pub next_off : ℕ
  pub ftype : ℕ
  pub info : ℕ
  pub size : ℕ
  pub name : Bytes
  pub data_off : ℕ

unfoldable pub align16 : ℕ → ℕ
align16 n = (n + 15) / 16 * 16

-- `be_u32(b, o)`.
unfoldable pub be_u32 : Bytes → ℕ → Result ℕ
unfolding slice? be32
be_u32 b o = elim (slice? b o 4) [
  | none ↦ err (corrupt "romfs: truncated u32")
  | some s ↦ ok (be32 s)
]

abbrev pub kind : ℕ → FileKind
kind ftype =
    if ftype == ft_directory
    then directory
    else if ftype == ft_regular
    then regular
    else if ftype == ft_symlink
    then symlink
    else other

-- What `read_header` makes of the window that it has read at `off`.
unfoldable pub parse_header : ℕ → Bytes → Result Header
unfolding be_u32 position from_utf8_lossy take drop align16
parse_header off win = do
  next_raw ← be_u32 win 0
  info ← be_u32 win 4
  size ← be_u32 win 8
  nul ← ok_or (position 0 (drop 16 win)) (corrupt "romfs: unterminated name")
  ok (record {
    next_off = next_raw / 16 * 16;
    ftype = next_raw % 8;
    info = info;
    size = size;
    data_off = off + 16 + align16 (nul + 1);
    name = from_utf8_lossy (take nul (drop 16 win));
  })

abbrev pub is_dot : Bytes → Bool
is_dot name = bytes_eq name (b'.' ∷ []) || bytes_eq name (b'.' ∷ b'.' ∷ [])

abbrev pub max_entries : ℕ
max_entries = 1_000_000

unfoldable pub find_name : Bytes → List DirEntry → Option NodeId
unfolding bytes_eq
find_name name [] = none
find_name name (e ∷ es) = if bytes_eq e.name name then some e.node else find_name name es

module _ (src : BlockSource) where
  unfoldable pub read_header : ℕ → Result Header
  unfolding parse_header
  read_header off =
      let avail = min (16 + max_name) (src.len - off) in
      do
        guard (leb 16 avail) (corrupt "romfs: truncated header")
        win ← src.read_at off avail
        parse_header off win

  -- The loop of `resolved_header`; the first argument is the turns left of `0..=MAX_LINK_HOPS`.
  unfoldable pub follow_links : ℕ → ℕ → Result (ℕ × Header)
  unfolding read_header
  follow_links zero off = err (corrupt "romfs: hard link chain too long")
  follow_links (suc turns) off = do
    h ← read_header off
    elim (h.ftype == ft_hardlink) [ false ↦ ok (off, h) | true ↦ follow_links turns h.info ]

  unfoldable pub resolved_header : ℕ → Result (ℕ × Header)
  unfolding follow_links
  resolved_header off = follow_links (max_link_hops + 1) off

  -- The entry that the header `h` at `o` adds to the listing.
  unfoldable pub list_entry : ℕ → Header → List DirEntry → Result (List DirEntry)
  unfolding resolved_header bytes_eq
  list_entry o h out = elim (is_dot h.name) [
    | true ↦ ok out
    | false ↦ do
      (node, target) ← resolved_header o
      ok (out ++ record { name = h.name; node = node; kind = kind target.ftype } ∷ [])
  ]

  -- The loop of `read_dir`, over the turns left of `0..1_000_000`.
  unfoldable pub list_from : ℕ → ℕ → List DirEntry → Result (List DirEntry)
  unfolding read_header list_entry
  list_from zero o out = ok out
  list_from (suc turns) o out = elim (o == 0) [
    | true ↦ ok out
    | false ↦ do h ← read_header o; out' ← list_entry o h out; list_from turns h.next_off out'
  ]

  unfoldable pub read_dir : NodeId → Result (List DirEntry)
  unfolding resolved_header
  read_dir dir = do
    (_, head) ← resolved_header dir
    guard (head.ftype == ft_directory) not_directory
    list_from max_entries head.info []

  unfoldable pub lookup : NodeId → Bytes → Result (Option NodeId)
  unfolding read_dir find_name
  lookup dir name = do entries ← read_dir dir; ok (find_name name entries)

  unfoldable pub metadata : NodeId → Result Metadata
  unfolding resolved_header
  metadata node = do
    (_, h) ← resolved_header node
    ok (record { kind = kind h.ftype; size = h.size; mode = 0 })

  unfoldable pub read_at : NodeId → ℕ → ℕ → Result Bytes
  unfolding resolved_header
  read_at node off want = do
    (_, h) ← resolved_header node
    guard (not (h.ftype == ft_directory)) is_directory
    if leb h.size off then ok [] else src.read_at (h.data_off + off) (min want (h.size - off))

  unfoldable pub read_link : NodeId → Result (Option Bytes)
  unfolding resolved_header checked_full_read_len
  read_link node = do
    (_, h) ← resolved_header node
    elim (h.ftype == ft_symlink) [
      | false ↦ ok none
      | true ↦ do
        len ← checked_full_read_len usize_end h.size
        target ← src.read_at h.data_off len
        ok (some target)
    ]

  unfoldable pub probe : Result Bool
  unfolding bytes_eq
  probe = if ltb src.len 16 then ok false else do m ← src.read_at 0 8; ok (bytes_eq m magic)

  -- `open`: the offset of the first header.
  unfoldable pub open_volume : Result ℕ
  unfolding bytes_eq position take drop align16
  open_volume = do
    guard (leb 16 src.len) (corrupt "romfs: shorter than header")
    head ← src.read_at 0 (min (16 + max_name) src.len)
    guard (bytes_eq (take 8 head) magic) (corrupt "romfs: bad magic")
    nul ← ok_or (position 0 (drop 16 head)) (corrupt "romfs: unterminated volume name")
    ok (16 + align16 (nul + 1))

  -- The mounted volume whose first header is at `first_hdr`.
  abbrev pub volume : ℕ → View
  volume first_hdr = record {
    root = first_hdr;
    lookup = lookup;
    read_dir = read_dir;
    metadata = metadata;
    read_at = read_at;
    read_link = read_link;
  }
