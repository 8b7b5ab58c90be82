-- ===== src/Udf/Volume.antt =====
-- `probe`, `open` and the methods of crates/lamfold-udf/src/udf.rs.
use lamfold.Prelude.{
  ℕ, zero, suc, ◌+◌, ◌-◌, ◌*◌, ◌/◌, min, Bool, true, false, not, ltb, leb, ◌==◌, if◌then◌else◌,
  Bytes, List, [], ◌∷◌, ◌++◌, length, take, drop, replicate, le16, Option, none, some,
}
use lamfold.Error.{Result, ok, err, corrupt, not_directory, is_directory, ◌>>=◌, ◌>>◌, guard, ok_or}
use lamfold.Exec.{Exec}
use lamfold.Frontend.{NodeId, FileKind, directory, Metadata, DirEntry, FoldFrontend, no_read_link}
use lamfold.ReadCap.{checked_full_read_len}
use lamfold.Romfs.{find_name}
use lamfold.Source.{BlockSource, usize_end}
use lamfold.Udf.{
  sector, avdp_sector, Extent, inline, extents, UdfInode, Udf, intern, inode_at, block_add, le_u16,
  le_u32, read_block, read_fe,
}
use lamfold.Udf.Names.{Fid, parse_fids}

abbrev pub is_dir_kind : FileKind → Bool
is_dir_kind directory = true
is_dir_kind _ = false

-- What the walk over the Main Volume Descriptor Sequence has found: the partition, and the block size with the
-- block of the File Set Descriptor.
pub record Found : Type 0 where
  pub partition : Option ℕ
  pub volume : Option (ℕ × ℕ)

unfoldable pub take_descriptor : ℕ → Bytes → Found → Result Found
unfolding le_u32
take_descriptor tag b st =
    if tag == 5
    then (do start ← le_u32 b 188; ok (record st { partition = some start }))
    else if tag == 6
    then (do
      lbs ← le_u32 b 212
      fsd_lb ← le_u32 b 252
      ok (record st { volume = some (lbs, fsd_lb) }))
    else ok st

module _ (src : BlockSource) where
  unfoldable pub probe : Result Bool
  unfolding le16
  probe =
      let off = avdp_sector * sector in
      if ltb src.len (off + 4) then ok false else do t ← src.read_at off 4; ok (le16 t == 2)

  -- The loop over the sectors of the sequence, at sector `i`.
  unfoldable pub scan_sequence : ℕ → ℕ → ℕ → Found → Result Found
  unfolding read_block le_u16 take_descriptor
  scan_sequence zero mvds_loc i st = ok st
  scan_sequence (suc turns) mvds_loc i st = do
    b ← read_block src sector (block_add mvds_loc i)
    tag ← le_u16 b 0
    elim (tag == 8) [
      | true ↦ ok st
      | false ↦ do st' ← take_descriptor tag b st; scan_sequence turns mvds_loc (suc i) st'
    ]

  -- The File Set Descriptor leads to the root, which becomes node 0.
  unfoldable pub open_file_set : ℕ → ℕ → ℕ → Result Udf
  unfolding read_block le_u16 le_u32 read_fe intern
  open_file_set block_size partition_start fsd_lb = do
    fsd ← read_block src block_size (block_add partition_start fsd_lb)
    tag ← le_u16 fsd 0
    guard (tag == 256) (corrupt "udf: no File Set Descriptor")
    root_icb_lb ← le_u32 fsd 404
    let root_fe_lba = block_add partition_start root_icb_lb
    root ← read_fe src block_size partition_start root_fe_lba
    ok
        (intern root_fe_lba root (record {
          block_size = block_size;
          partition_start = partition_start;
          nodes = [];
          by_lba = [];
        })).1

  unfoldable pub open_volume : Result Udf
  unfolding read_block le_u16 le_u32 scan_sequence open_file_set
  open_volume = do
    avdp ← read_block src sector avdp_sector
    tag ← le_u16 avdp 0
    guard (tag == 2) (corrupt "udf: no Anchor VD Pointer at sector 256")
    mvds_len ← le_u32 avdp 16
    mvds_loc ← le_u32 avdp 20
    st ←
        scan_sequence (min (mvds_len / sector) 64) mvds_loc 0
          (record { partition = none; volume = none })
    partition_start ← ok_or st.partition (corrupt "udf: no Partition Descriptor")
    (lbs, fsd_lb) ← ok_or st.volume (corrupt "udf: no Logical Volume Descriptor")
    open_file_set (if lbs == 0 then sector else lbs) partition_start fsd_lb

  -- The bytes of an extent, from `intra` on.
  unfoldable pub read_extent : ℕ → Extent → ℕ → ℕ → Result Bytes
  unfolding replicate
  read_extent block_size e intra n = elim e.lba [
    | none ↦ ok (replicate n 0)
    | some lba ↦ src.read_at (lba * block_size + intra) n
  ]

  -- The loop of `read_all`.
  unfoldable pub all_from : ℕ → ℕ → List Extent → Bytes → Result Bytes
  unfolding read_extent
  all_from block_size total [] out = ok out
  all_from block_size total (e ∷ es) out = elim (leb total (length out)) [
    | true ↦ ok out
    | false ↦ do
      chunk ← read_extent block_size e 0 (min e.len (total - length out))
      all_from block_size total es (out ++ chunk)
  ]

  unfoldable pub read_all : ℕ → UdfInode → Result Bytes
  unfolding all_from checked_full_read_len take
  read_all block_size inode = elim inode.data_ [
    | inline b ↦ ok b
    | extents ex ↦ do
      total ← checked_full_read_len usize_end inode.size
      out ← all_from block_size total ex []
      ok (take total out)
  ]

  -- The loop of `read_at`: `file_pos` is where the next extent starts in the file.
  unfoldable pub read_extents : ℕ → ℕ → ℕ → List Extent → ℕ → Bytes → Result Bytes
  unfolding read_extent
  read_extents block_size off want [] file_pos out = ok out
  read_extents block_size off want (e ∷ es) file_pos out =
      let cur = off + length out in
      elim (leb want (length out)) [
        | true ↦ ok out
        | false ↦ elim (leb (file_pos + e.len) cur) [
          | true ↦ read_extents block_size off want es (file_pos + e.len) out
          | false ↦ do
            let intra = cur - file_pos
            piece ← read_extent block_size e intra (min (e.len - intra) (want - length out))
            read_extents block_size off want es (file_pos + e.len) (out ++ piece)
        ]
      ]

  -- What `read_at` reads of a file that is no directory.
  unfoldable pub read_inode : ℕ → UdfInode → ℕ → ℕ → Result Bytes
  unfolding read_extents take drop
  read_inode block_size inode off len = elim (leb inode.size off) [
    | true ↦ ok []
    | false ↦
        let want = min len (inode.size - off) in
        elim inode.data_ [
          | inline b ↦ ok (take (min want (length b - off)) (drop off b))
          | extents ex ↦ read_extents block_size off want ex 0 []
        ]
  ]

  -- The entries of a directory node.
  unfoldable pub dir_fids : Udf → NodeId → Result (List Fid)
  unfolding inode_at read_all parse_fids
  dir_fids v dir = do
    inode ← inode_at v dir
    guard (is_dir_kind inode.kind) not_directory
    data_ ← read_all v.block_size inode
    parse_fids v.partition_start data_

  -- The loop of `read_dir`. A child that cannot be read ends it, with the nodes before it interned.
  unfoldable pub list_fids : List Fid → List DirEntry → Exec Udf (List DirEntry)
  unfolding read_fe intern
  list_fids [] out v = (ok out, v)
  list_fids ((name, fe_lba) ∷ fids) out v =
      elim (read_fe src v.block_size v.partition_start fe_lba) [
        | err why ↦ (err why, v)
        | ok child ↦
            let (node, w) = intern fe_lba child v in
            list_fids fids (out ++ record { name = name; node = node; kind = child.kind } ∷ []) w
      ]

  unfoldable pub read_dir : NodeId → Exec Udf (List DirEntry)
  unfolding dir_fids list_fids
  read_dir dir v = elim (dir_fids v dir) [ err why ↦ (err why, v) | ok fids ↦ list_fids fids [] v ]

  unfoldable pub lookup : NodeId → Bytes → Exec Udf (Option NodeId)
  unfolding read_dir find_name
  lookup dir name v =
      let (listing, w) = read_dir dir v in ((do es ← listing; ok (find_name name es)), w)

  unfoldable pub metadata_at : Udf → NodeId → Result Metadata
  unfolding inode_at
  metadata_at v node = do
    inode ← inode_at v node
    ok (record { kind = inode.kind; size = inode.size; mode = 0 })

  unfoldable pub read_at : Udf → NodeId → ℕ → ℕ → Result Bytes
  unfolding inode_at read_inode
  read_at v node off want = do
    inode ← inode_at v node
    guard (not (is_dir_kind inode.kind)) is_directory
    read_inode v.block_size inode off want

  -- The mounted volume: its root is node 0.
  abbrev pub frontend : FoldFrontend Udf
  frontend = record {
    root = λ v. 0;
    lookup = lookup;
    read_dir = read_dir;
    metadata = λ node v. (metadata_at v node, v);
    read_at = λ node off want v. (read_at v node off want, v);
    read_link = no_read_link;
  }
