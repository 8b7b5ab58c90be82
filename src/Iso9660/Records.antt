-- ===== src/Iso9660/Records.antt =====
-- The directory records of crates/lamfold-iso/src/iso9660.rs: `for_each_entry` with what it calls. What it
-- passes to `f` one by one is a list here; a failing scan passes nothing on, since its callers drop
-- what they have gathered.
use lamfold.Prelude.{
  ℕ, zero, suc, ◌+◌, ◌*◌, ◌/◌, ◌%◌, ◌^◌, Bool, true, false, not, ◌&&◌, ◌||◌, ltb, leb, ◌==◌,
  if◌then◌else◌, Bytes, List, [], ◌∷◌, ◌++◌, length, drop, get_or, get_elem?, slice?, bytes_eq,
  Option, none, some,
}
use lamfold.Error.{Result, ok, err, corrupt, ◌>>=◌, ◌>>◌, guard, ok_or}
use lamfold.Frontend.{regular, directory, symlink}
use lamfold.RockRidge.{RrInfo, RrParser, Continuation, default, feed, finish}
use lamfold.Source.{BlockSource}
use lamfold.Iso9660.{Key, Inode, Reading, le_u32, decode_name, decode_name_joliet, read_dir_extent}

abbrev pub max_continuations : ℕ
max_continuations = 16

abbrev pub max_extents : ℕ
max_extents = 4096

abbrev pub flag_directory : ℕ → Bool
flag_directory flags = flags / 2 % 2 == 1

abbrev pub flag_multi_extent : ℕ → Bool
flag_multi_extent flags = flags / 128 % 2 == 1

-- The record of `len` bytes at `pos`.
unfoldable pub record_at : Bytes → ℕ → ℕ → Result Bytes
unfolding slice?
record_at buf pos len = ok_or (slice? buf pos len) (corrupt "iso: directory record overruns extent")

-- The file identifier of a record.
unfoldable pub file_id : Bytes → Result Bytes
unfolding get_elem? slice?
file_id rec = do
  fi_len ← ok_or (get_elem? rec 32) (corrupt "iso: short record")
  ok_or (slice? rec 33 fi_len) (corrupt "iso: file id overruns record")

unfoldable pub first_fi : Bytes → ℕ → Result Bytes
unfolding get_elem? record_at file_id
first_fi buf pos = do
  len ← ok_or (get_elem? buf pos) (corrupt "iso: short record")
  rec ← record_at buf pos len
  file_id rec

-- "." and "..".
abbrev pub is_dot : Bytes → Bool
is_dot (b ∷ []) = b == 0 || b == 1
is_dot _ = false

-- A later record of a multi-extent file adds its extent.
abbrev pub with_extent : ℕ → ℕ → Inode → Inode
with_extent lba size inode = record inode {
  extents = inode.extents ++ (lba, size) ∷ [];
  size = inode.size + size;
}

-- Where the entries of a System Use area start: a pad byte follows an identifier of even length.
abbrev pub su_start : Bytes → ℕ
su_start fi = 33 + length fi + (if length fi % 2 == 0 then 1 else 0)

-- What Rock Ridge changes of an entry.
abbrev pub with_rock_ridge : RrInfo → Bytes × Inode → Bytes × Inode
with_rock_ridge rr (name, inode) = (
  elim rr.name [ some n ↦ n | none ↦ name ],
  record inode {
    kind = elim rr.symlink_target [ some _ ↦ symlink | none ↦ inode.kind ];
    link_target = rr.symlink_target;
    zisofs = rr.zisofs;
  },
)

module _ (src : BlockSource) where
  -- The loop of `parse_rock_ridge`, over the hops left.
  unfoldable pub follow : ℕ → ℕ → RrParser → Option Continuation → Result RrInfo
  unfolding feed finish
  follow hops block_size p none = ok (finish p)
  follow zero block_size p (some ce) = err (corrupt "iso: bad Rock Ridge continuation area")
  follow (suc hops) block_size p (some ce) =
      let at = ce.block * block_size + ce.offset in
      do
        guard (not (ce.len == 0 || ltb block_size ce.len))
            (corrupt "iso: bad Rock Ridge continuation area")
        guard (leb (at + ce.len) src.len) (corrupt "iso: Rock Ridge continuation past the volume")
        area ← src.read_at at ce.len
        follow hops block_size (feed area p).0 (feed area p).1

  unfoldable pub parse_rock_ridge : ℕ → Bytes → Result RrInfo
  unfolding follow feed
  parse_rock_ridge block_size su =
      follow max_continuations block_size (feed su default).0 (feed su default).1

  -- The entry with Rock Ridge, if the volume has it and the record has room for a System Use area.
  unfoldable pub apply_rock_ridge : Reading → Bytes → Bytes → Bytes × Inode → Result (Bytes × Inode)
  unfolding parse_rock_ridge drop
  apply_rock_ridge v rec fi e = elim (v.rock_ridge && leb (su_start fi) (length rec)) [
    | false ↦ ok e
    | true ↦ do
      rr ← parse_rock_ridge v.block_size (drop v.susp_skip (drop (su_start fi) rec))
      ok (with_rock_ridge rr e)
  ]

  -- The name and the inode of a file's first record.
  unfoldable pub new_entry : Reading → Key → Bytes → Bytes → Bool → ℕ → ℕ → Result (Bytes × Inode)
  unfolding decode_name decode_name_joliet apply_rock_ridge
  new_entry v key rec fi is_dir lba size = do
    name ← if v.joliet then decode_name_joliet fi is_dir else decode_name fi is_dir
    let inode : Inode = record {
      key = key;
      lba = lba;
      size = size;
      extents = (lba, size) ∷ [];
      kind = if is_dir then directory else regular;
      link_target = none;
      zisofs = none;
    }
    apply_rock_ridge v rec fi (name, inode)

-- A multi-extent file whose last record has not been met, and the entries so far.
abbrev pub Scan : Type 0
Scan = Option (Bytes × Inode) × List (Bytes × Inode)

-- An entry whose record is the last of its file, or not.
abbrev pub put : Bool → Bytes × Inode → List (Bytes × Inode) → Scan
put more e out = if more then (some e, out) else (none, out ++ e ∷ [])

unfoldable pub add_extent :
    Bytes → Bytes → Bool → Bool → ℕ → ℕ → Bytes × Inode → List (Bytes × Inode) → Result Scan
unfolding first_fi bytes_eq
add_extent buf fi is_dir more lba size (first, inode) out = do
  guard (not is_dir) (corrupt "iso: broken multi-extent chain")
  first_id ← first_fi buf inode.key.1
  guard (bytes_eq fi first_id) (corrupt "iso: broken multi-extent chain")
  guard (ltb (length inode.extents) max_extents) (corrupt "iso: too many extents")
  ok (put more (first, with_extent lba size inode) out)

module _ (src : BlockSource) (v : Reading) (dir_lba : ℕ) (buf : Bytes) where
  -- The record at `pos`, which has `len` bytes.
  unfoldable pub scan_record : ℕ → ℕ → Scan → Result Scan
  unfolding record_at file_id get_elem? le_u32 add_extent new_entry
  scan_record pos len (pending, out) = do
    rec ← record_at buf pos len
    fi ← file_id rec
    elim (is_dot fi) [
      | true ↦ ok (pending, out)
      | false ↦ do
        flags ← ok_or (get_elem? rec 25) (corrupt "iso: short flags")
        lba ← le_u32 rec 2
        size ← le_u32 rec 10
        let is_dir = flag_directory flags
        let more = flag_multi_extent flags
        elim pending [
          | some e ↦ add_extent buf fi is_dir more lba size e out
          | none ↦ do
            e ← new_entry src v (dir_lba, pos % 2 ^ 32) rec fi is_dir lba size
            ok (put (more && not is_dir) e out)
        ]
    ]

  -- The loop of `for_each_entry`, on fuel: each turn moves `pos` on. A length of 0 is padding up to the next
  -- block.
  unfoldable pub scan_from : ℕ → ℕ → Scan → Result Scan
  unfolding get_or scan_record
  scan_from zero pos s = ok s
  scan_from (suc turns) pos s = elim (ltb pos (length buf)) [
    | false ↦ ok s
    | true ↦
        let len = get_or buf pos 0 in
        let next = (pos / v.block_size + 1) * v.block_size in
        elim (len == 0) [
          | true ↦ elim (leb next pos) [ true ↦ ok s | false ↦ scan_from turns next s ]
          | false ↦ do s' ← scan_record pos len s; scan_from turns (pos + len) s'
        ]
  ]

-- What is left of a scan.
abbrev pub end_scan : Scan → Result (List (Bytes × Inode))
end_scan (none, out) = ok out
end_scan (some e, out) = err (corrupt "iso: multi-extent file without its last record")

-- The names and inodes that `for_each_entry` calls `f` with.
unfoldable pub entries_of : BlockSource → Reading → Inode → Result (List (Bytes × Inode))
unfolding read_dir_extent scan_from
entries_of src v dir = do
  buf ← read_dir_extent src v.block_size dir
  s ← scan_from src v dir.lba buf (length buf) 0 (none, [])
  end_scan s
