-- ===== src/Tests/Iso9660.antt =====
-- An ISO image with Rock Ridge that holds one file of two extents.
use lamfold.Prelude.{
  ℕ, ◌+◌, ◌-◌, min, true, false, Bytes, List, [], ◌∷◌, ◌++◌, length, take, drop, replicate,
  le32_bytes, le32, le16, get_elem?, get_or, slice?, bytes_eq, position, some, none, ◌≡◌, refl, ◌∙◌,
  arith,
}
use lamfold.Codec.{decode}
use lamfold.Error.{ok}
use lamfold.Frontend.{regular, directory, DirEntry}
use lamfold.Prelude.TreeMap
use lamfold.RockRidge.{feed, finish, detect_sp}
use lamfold.RockRidge.Entries.{take_entries}
use lamfold.Romfs.{find_name}
use lamfold.Source.{BlockSource}
use lamfold.Utf8.{is_utf8}
use lamfold.Iso9660.{key_ord, Inode, Iso, intern}
use lamfold.Iso9660.Compressed.{read_block, ptr, read_blocks, read_zisofs}
use lamfold.Iso9660.Descriptors.{probe, open_volume}
use lamfold.Iso9660.Extents.{AreStored, read_plain-extents}
use lamfold.Iso9660.Interned.{IsInterned, Extends}
use lamfold.Iso9660.Listed.{here, listed, lookup-read_dir}
use lamfold.Iso9660.Mounted.{HasRoot, open-Calls}
use lamfold.Iso9660.Records.{scan_from, entries_of, parse_rock_ridge}
use lamfold.Iso9660.Volume.{lookup, read_dir, metadata_at, read_at, read_link, read_plain}
use lamfold.Tests.Codec.{build, stored}
use lamfold.Tests.Sparse.{sparse_read, sparse, zeros, segment_read, segment_skip}

abbrev cd001 : Bytes
cd001 = b'C' ∷ b'D' ∷ b'0' ∷ b'0' ∷ b'1' ∷ []

-- A directory record with an identifier of one byte.
abbrev dir_record : ℕ → ℕ → ℕ → ℕ → Bytes → Bytes
dir_record lba size flags id su =
    (34 + length su)
    ∷ 0
    ∷ (le32_bytes lba
        ++ (zeros 4
            ++ (le32_bytes size
                ++ (zeros 4 ++ (zeros 7 ++ (flags ∷ 0 ∷ 0 ∷ (zeros 4 ++ (1 ∷ id ∷ su))))))))

abbrev sp : Bytes
sp = b'S' ∷ b'P' ∷ 7 ∷ 1 ∷ 0xbe ∷ 0xef ∷ 0 ∷ []

abbrev nm : Bytes
nm = b'N' ∷ b'M' ∷ 7 ∷ 1 ∷ 0 ∷ b'a' ∷ b'b' ∷ []

abbrev root_dir : Bytes
root_dir =
    dir_record 20 150 2 0 sp
    ++ (dir_record 20 150 2 1 [] ++ (dir_record 21 3 128 b'A' nm ++ dir_record 22 2 0 b'A' []))

abbrev pvd : Bytes
pvd = 1 ∷ (cd001 ++ (zeros 122 ++ (0 ∷ 8 ∷ (zeros 26 ++ dir_record 20 150 2 0 []))))

abbrev src : BlockSource
src = sparse (
    (32768, pvd)
    ∷ (34816, 255 ∷ cd001)
    ∷ (40960, root_dir)
    ∷ (43008, 1 ∷ 2 ∷ 3 ∷ [])
    ∷ (45056, 4 ∷ 5 ∷ [])
    ∷ [])

program : Unit {0}
unfolding sparse_read replicate le32_bytes le32 le16 take drop get_elem? get_or slice? bytes_eq
    position is_utf8 intern TreeMap.lookup TreeMap.insert decode stored probe open_volume read_dir
    lookup metadata_at read_at read_link read_plain detect_sp feed finish scan_from find_name
    take_entries read_zisofs read_blocks read_block ptr parse_rock_ridge entries_of
program = tt

mounts : probe src ≡ ok true
unfolding program
mounts = refl

abbrev root_inode : Inode
root_inode = record {
  key = (4_294_967_295, 4_294_967_295);
  lba = 20;
  size = 150;
  extents = (20, 150) ∷ [];
  kind = directory;
  link_target = none;
  zisofs = none;
}

abbrev mounted : Iso
mounted = record {
  block_size = 2048;
  nodes = root_inode ∷ [];
  by_record = (root_inode.key, 0) ∷ [];
  rock_ridge = true;
  susp_skip = 0;
  joliet = false;
  el_torito_catalog_lba = none;
}

opens : open_volume src ≡ ok mounted
unfolding program
opens = refl

abbrev listing : List DirEntry
listing = record { name = b'a' ∷ b'b' ∷ []; node = 1; kind = regular } ∷ []

lists_root : (read_dir src 0 mounted).0 ≡ ok listing
unfolding program
lists_root = refl

abbrev after_listing : Iso
unfolding program
after_listing = (read_dir src 0 mounted).1

finds_and_reads :
    ((lookup src 0 (b'a' ∷ b'b' ∷ []) after_listing).0 ≡ ok (some 1))
    × (read_at true build src after_listing 1 1 10 ≡ ok (2 ∷ 3 ∷ 4 ∷ 5 ∷ []))
    × (read_link after_listing 1 ≡ ok none)
unfolding program
finds_and_reads = (refl, refl, refl)

open-Calls_example :
    IsInterned (read_dir src 0 mounted).1
    × HasRoot (read_dir src 0 mounted).1
    × Extends mounted (read_dir src 0 mounted).1
open-Calls_example =
    open-Calls src mounted mounted (read_dir src 0 mounted).1 opens here (listed 0 here)

mounted-IsInterned : IsInterned mounted
mounted-IsInterned = (open-Calls src mounted mounted mounted opens here here).0

lookup-read_dir_example :
    lookup src 0 (b'a' ∷ b'b' ∷ []) (read_dir src 0 mounted).1
    ≡ (ok (find_name (b'a' ∷ b'b' ∷ []) listing), (read_dir src 0 mounted).1)
lookup-read_dir_example =
    lookup-read_dir src 0 (b'a' ∷ b'b' ∷ []) mounted (read_dir src 0 mounted).1 listing
      mounted-IsInterned lists_root here

-- The file as its first record and its second one give it.
abbrev file_inode : Inode
file_inode = record {
  key = (20, 75);
  lba = 21;
  size = 5;
  extents = (21, 3) ∷ (22, 2) ∷ [];
  kind = regular;
  link_target = none;
  zisofs = none;
}

abbrev file_extents : List ((ℕ × ℕ) × Bytes)
file_extents = ((21, 3), 1 ∷ 2 ∷ 3 ∷ []) ∷ ((22, 2), 4 ∷ 5 ∷ []) ∷ []

abbrev first_part : Bytes
first_part = 1 ∷ 2 ∷ 3 ∷ []

abbrev second_part : Bytes
second_part = 4 ∷ 5 ∷ []

abbrev two : BlockSource
two = sparse ((43008, first_part) ∷ (45056, second_part) ∷ [])

two-AreStored : AreStored two 2048 file_extents
two-AreStored = (
  refl,
  λ off n le. segment_read 43008 n first_part ((45056, second_part) ∷ []) off (omega arith) le,
  (
    refl,
    λ off n le.
        segment_skip 43008 n first_part ((45056, second_part) ∷ []) (45056 + off) (omega arith)
        ∙ segment_read 45056 n second_part [] off (omega arith) le,
    tt,
  ),
)

read_plain-extents_example :
    read_plain two 2048 file_inode 2 9 ≡ ok (take (min 9 (5 - 2)) (drop 2 (1 ∷ 2 ∷ 3 ∷ 4 ∷ 5 ∷ [])))
read_plain-extents_example =
    read_plain-extents two 2048 file_inode file_extents 2 9 refl refl two-AreStored
