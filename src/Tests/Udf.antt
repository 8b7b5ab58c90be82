-- ===== src/Tests/Udf.antt =====
-- A UDF image with a root directory that holds one file, which ends in an extent that is not recorded.
use lamfold.Prelude.{
  ℕ, ◌+◌, ◌-◌, ◌*◌, min, true, Bytes, List, [], ◌∷◌, ◌++◌, length, take, drop, le32_bytes, le32,
  le16, get_elem?, get_or, slice?, bytes_eq, replicate, some, none, ◌≡◌, refl, arith,
}
use lamfold.Error.{ok}
use lamfold.Frontend.{regular, directory}
use lamfold.Prelude.TreeMap
use lamfold.Source.{BlockSource}
use lamfold.Udf.{
  Extent, inline, extents, UdfInode, Udf, intern, inode_at, le_u16, le_u32, le_u64, parse_extent,
  extents_from, parse_extents, parse_inline, parse_data, parse_fe, read_block, read_fe,
}
use lamfold.Udf.Descriptors.{RawExtent}
use lamfold.Udf.Entries.{RawEntry, FitsEntry, long_ads, image, inode_of, read_fe_written}
use lamfold.Udf.Extents.{AreStored, stored, read_inode-HasContent}
use lamfold.Udf.Listed.{parse_fids_written}
use lamfold.Udf.Mounted.{here, listed, Lists, mounted-Lists}
use lamfold.Udf.Names.{decode_udf_name, latin1, parse_fid, fids_from, parse_fids}
use lamfold.Udf.Volume.{
  take_descriptor, probe, scan_sequence, open_file_set, open_volume, read_extent, read_all,
  read_extents, read_inode, dir_fids, list_fids, read_dir, lookup, metadata_at, read_at,
}
use lamfold.Udf.Written
use lamfold.Udf.Written.{RawFid, FitsFid, FitsAll, le16_bytes, dir_bytes}
use lamfold.Tests.Sparse.{segment_at, sparse_read, sparse, zeros, segment_read}

program : Unit {0}
unfolding segment_at sparse_read replicate le32_bytes le32 le16 take drop get_elem? get_or slice?
    bytes_eq TreeMap.lookup TreeMap.insert intern inode_at le_u16 le_u32 le_u64 parse_extent
    extents_from parse_extents parse_inline parse_data parse_fe read_block read_fe decode_udf_name
    latin1 parse_fid fids_from parse_fids take_descriptor probe scan_sequence open_file_set
    open_volume read_extent read_all read_extents read_inode dir_fids list_fids read_dir lookup
    metadata_at read_at
program = tt

-- A descriptor of a fixed layout, with these fields.
abbrev file_entry : ℕ → ℕ → ℕ → Bytes → Bytes
file_entry file_type ad_type info_len ads =
    le16_bytes 261
    ++ (zeros 25
        ++ (file_type
            ∷ (zeros 6
                ++ (le16_bytes ad_type
                    ++ (zeros 20
                        ++ (le32_bytes info_len
                            ++ (zeros 4
                                ++ (zeros 104
                                    ++ (le32_bytes 0 ++ (le32_bytes (length ads) ++ ads))))))))))

abbrev raw_fid : ℕ → ℕ → Bytes → Bytes → ℕ → RawFid
raw_fid characteristics block identifier name pad = record {
  characteristics = characteristics;
  icb_block = block;
  implementation_use = [];
  identifier = identifier;
  name = name;
  tag_rest = zeros 16;
  icb_length = zeros 4;
  icb_rest = zeros 8;
  pad = pad;
}

abbrev fids : List RawFid
fids = raw_fid 10 1 [] [] 2 ∷ raw_fid 0 2 (8 ∷ b'a' ∷ []) (b'a' ∷ []) 0 ∷ []

abbrev src : BlockSource
src = sparse (
    (524288, le16_bytes 2 ++ (zeros 14 ++ (le32_bytes 6144 ++ le32_bytes 257)))
    ∷ (526336, le16_bytes 5 ++ (zeros 186 ++ le32_bytes 300))
    ∷ (528384, le16_bytes 6 ++ (zeros 210 ++ (le32_bytes 2048 ++ zeros 40)))
    ∷ (530432, le16_bytes 8)
    ∷ (614400, le16_bytes 256 ++ (zeros 402 ++ le32_bytes 1))
    ∷ (616448, file_entry 4 3 80 (dir_bytes fids))
    ∷ (
      618496,
      file_entry 5 0 5
          (le32_bytes 3 ++ (le32_bytes 3 ++ (le32_bytes (2 * 1073741824 + 4) ++ le32_bytes 0))),
    )
    ∷ (620544, 1 ∷ 2 ∷ 3 ∷ [])
    ∷ [])

mounts : probe src ≡ ok true
unfolding program
mounts = refl

abbrev root_inode : UdfInode
root_inode = record { kind = directory; size = 80; data_ = inline (dir_bytes fids) }

abbrev mounted : Udf
mounted = record {
  block_size = 2048;
  partition_start = 300;
  nodes = root_inode ∷ [];
  by_lba = (301, 0) ∷ [];
}

opens : open_volume src ≡ ok mounted
unfolding program
opens = refl

lists_root :
    (read_dir src 0 mounted).0 ≡ ok (record { name = b'a' ∷ []; node = 1; kind = regular } ∷ [])
unfolding program
lists_root = refl

reads_file : read_at src (read_dir src 0 mounted).1 1 1 10 ≡ ok (2 ∷ 3 ∷ 0 ∷ 0 ∷ [])
unfolding program
reads_file = refl

mounted-Lists_example :
    Lists src (read_dir src 0 mounted).1 (read_dir src 0 (read_dir src 0 mounted).1)
mounted-Lists_example = mounted-Lists src mounted (read_dir src 0 mounted).1 0 opens (listed 0 here)

fids-FitsAll : FitsAll fids
unfolding program
fids-FitsAll = (
  record {
    block_fits = omega arith;
    use_fits = omega arith;
    tag_rest_is = refl;
    icb_length_is = refl;
    icb_rest_is = refl;
    decodes = refl;
    padded = refl;
  },
  (
    record {
      block_fits = omega arith;
      use_fits = omega arith;
      tag_rest_is = refl;
      icb_length_is = refl;
      icb_rest_is = refl;
      decodes = refl;
      padded = refl;
    },
    tt,
  ),
)

parse_fids_written_example :
    parse_fids 300 (dir_bytes fids ++ zeros 7) ≡ ok (Written.listed 300 fids)
unfolding replicate
parse_fids_written_example = parse_fids_written 300 fids (zeros 7) fids-FitsAll (omega arith)

-- Three bytes in the source, and four of a hole, of which two are in the file.
abbrev three : Bytes
three = 1 ∷ 2 ∷ 3 ∷ []

abbrev small_src : BlockSource
small_src = sparse ((620544, three) ∷ [])

abbrev file_parts : List (Extent × Bytes)
file_parts =
    (record { lba = some 303; len = 3 }, three) ∷ (record { lba = none; len = 4 }, zeros 4) ∷ []

abbrev file_inode : UdfInode
file_inode = record {
  kind = regular;
  size = 5;
  data_ = extents (record { lba = some 303; len = 3 } ∷ record { lba = none; len = 4 } ∷ []);
}

parts-AreStored : AreStored small_src 2048 file_parts
unfolding replicate
parts-AreStored =
    (refl, λ off n le. segment_read 620544 n three [] off (omega arith) le, (refl, refl, tt))

read_inode-HasContent_example :
    read_inode small_src 2048 file_inode 1 10
    ≡ ok (take (min 10 (5 - 1)) (drop 1 (1 ∷ 2 ∷ 3 ∷ 0 ∷ 0 ∷ [])))
unfolding replicate
read_inode-HasContent_example =
    read_inode-HasContent small_src 2048 file_inode (1 ∷ 2 ∷ 3 ∷ 0 ∷ 0 ∷ []) 1 10
      (stored file_parts (0 ∷ 0 ∷ []) parts-AreStored refl) refl

-- An Extended File Entry with three long descriptors: one of a file's start, an empty one, and a hole.
abbrev raw_extent : ℕ → ℕ → ℕ → RawExtent
raw_extent etype len block = record { etype = etype; len = len; block = block; rest = zeros 8 }

abbrev entry : RawEntry
entry = record {
  extended = true;
  file_type = 5;
  flags = 1;
  size = 5;
  attributes = 7 ∷ 8 ∷ [];
  area = long_ads (raw_extent 0 3 3 ∷ raw_extent 0 0 9 ∷ raw_extent 2 4 0 ∷ []);
  tag_rest = zeros 25;
  parent_icb = zeros 6;
  owner = zeros 20;
  times = zeros 144;
  slack = zeros 6;
}

entry-FitsEntry : FitsEntry entry
unfolding program
entry-FitsEntry = record {
  flags_fit = omega arith;
  flags_are = refl;
  size_fits = omega arith;
  attributes_fit = omega arith;
  area_fits = omega arith;
  tag_rest_is = refl;
  parent_icb_is = refl;
  owner_is = refl;
  times_are = refl;
  fits = (
    record {
      etype_fits = omega arith;
      len_fits = omega arith;
      block_fits = omega arith;
      rest_is = refl;
    },
    (
      record {
        etype_fits = omega arith;
        len_fits = omega arith;
        block_fits = omega arith;
        rest_is = refl;
      },
      (
        record {
          etype_fits = omega arith;
          len_fits = omega arith;
          block_fits = omega arith;
          rest_is = refl;
        },
        tt,
      ),
    ),
  );
}

abbrev entry_src : BlockSource
entry_src = sparse ((544, image entry entry-FitsEntry) ∷ [])

stands_at : entry_src.read_at (2 * 272) 272 ≡ ok (image entry entry-FitsEntry)
unfolding program
stands_at = refl

read_fe_written_example : read_fe entry_src 272 300 2 ≡ ok (inode_of 300 entry)
read_fe_written_example =
    read_fe_written entry_src 272 300 2 entry entry-FitsEntry (omega arith) stands_at

reads_entry : inode_of 300 entry ≡ record {
  kind = regular;
  size = 5;
  data_ = extents (record { lba = some 303; len = 3 } ∷ record { lba = none; len = 4 } ∷ []);
}
reads_entry = refl
