-- ===== src/Tests/Zisofs.antt =====
-- A compressed file of an ISO image.
use lamfold.Prelude.{
  zero, suc, ◌-◌, min, Bytes, [], ◌∷◌, ◌++◌, length, take, drop, replicate, le32_bytes, le32, le16,
  get_elem?, get_or, slice?, bytes_eq, position, some, none, ◌≡◌, refl, arith,
}
use lamfold.Codec.{decode}
use lamfold.Error.{ok}
use lamfold.Frontend.{regular}
use lamfold.Prelude.TreeMap
use lamfold.RockRidge.{Zisofs, feed, finish, detect_sp}
use lamfold.RockRidge.Entries.{take_entries}
use lamfold.Romfs.{find_name}
use lamfold.Source.{BlockSource}
use lamfold.Utf8.{is_utf8}
use lamfold.Iso9660.{key_ord, Inode, intern}
use lamfold.Iso9660.Blocks.{read_zisofs-IsCompressed}
use lamfold.Iso9660.Packed.{hole, packed, AreWords, AreBlocks, IsCompressed}
use lamfold.Iso9660.Compressed.{zisofs_magic, read_block, ptr, read_blocks, read_zisofs}
use lamfold.Iso9660.Descriptors.{probe, open_volume}
use lamfold.Iso9660.Records.{scan_from, entries_of, parse_rock_ridge}
use lamfold.Iso9660.Volume.{lookup, read_dir, metadata_at, read_at, read_link, read_plain}
use lamfold.Tests.Codec.{build, deflate_lib, stored}
use lamfold.Tests.Sparse.{sparse_read, sparse, zeros}

program : Unit {0}
unfolding sparse_read replicate le32_bytes le32 le16 take drop get_elem? get_or slice? bytes_eq
    position is_utf8 intern TreeMap.lookup TreeMap.insert decode stored probe open_volume read_dir
    lookup metadata_at read_at read_link read_plain detect_sp feed finish scan_from find_name
    take_entries read_zisofs read_blocks read_block ptr parse_rock_ridge entries_of
program = tt

-- A compressed file of six bytes in blocks of four, the second one a hole.
abbrev zhead : Bytes
zhead = zisofs_magic ++ (zeros 8 ++ (le32_bytes 28 ++ (le32_bytes 32 ++ le32_bytes 32)))

abbrev zbytes : Bytes
zbytes = 1 ∷ 2 ∷ 3 ∷ 4 ∷ []

abbrev zcontent : Bytes
zcontent = 1 ∷ 2 ∷ 3 ∷ 4 ∷ 0 ∷ 0 ∷ []

abbrev zsrc : BlockSource
zsrc = sparse ((61440, zhead ++ zbytes) ∷ [])

abbrev zparams : Zisofs
zparams = record { uncompressed_size = 6; block_size_log2 = 2 }

abbrev zinode : Inode
zinode = record {
  key = (20, 0);
  lba = 30;
  size = 32;
  extents = (30, 32) ∷ [];
  kind = regular;
  link_target = none;
  zisofs = some zparams;
}

zpointers : AreWords (28 ∷ 32 ∷ 32 ∷ [])
zpointers = (omega arith, (omega arith, (omega arith, tt)))

zblocks : AreBlocks build zsrc 61440 4 (28 ∷ 32 ∷ 32 ∷ []) zcontent
unfolding program
zblocks zero h = (
  28,
  32,
  refl,
  refl,
  packed deflate_lib zbytes (omega arith) (omega arith) refl refl (omega arith) refl,
)
zblocks (suc zero) h = (32, 32, refl, refl, hole (omega arith) refl)
zblocks (suc (suc n)) h = absurd (omega arith)

zfile-IsCompressed : IsCompressed build zsrc 2048 zinode zparams zcontent
unfolding program
zfile-IsCompressed = record {
  sizes = zeros 8;
  pointers = 28 ∷ 32 ∷ 32 ∷ [];
  sizes_are = refl;
  pointers_fit = zpointers;
  size_is = refl;
  log2_fits = omega arith;
  pointers_are = refl;
  head_fits = omega arith;
  head_read = refl;
  are_blocks = zblocks;
}

read_zisofs-IsCompressed_example :
    read_zisofs build zsrc 2048 zinode zparams 3 9
    ≡ ok (take (min 9 (length zcontent - 3)) (drop 3 zcontent))
read_zisofs-IsCompressed_example =
    read_zisofs-IsCompressed build zsrc 2048 zinode zparams zcontent zfile-IsCompressed 3 9
