-- ===== src/Tests/Cramfs.antt =====
-- A cramfs image with a root directory that holds one file, as mkcramfs lays it out.
use lamfold.Prelude.{
  ℕ, ◌≤◌, true, false, Bytes, List, [], ◌∷◌, ◌++◌, length, ◌≡◌, ◌↔◌, refl, arith, le32_bytes, le32,
  be32_bytes, replicate, take, drop, none,
}
use lamfold.Error.{ok}
use lamfold.Frontend.{regular, DirEntry}
use lamfold.Path.{resolve, read_path}
use lamfold.Path.Pure.{of_view}
use lamfold.Source.{BlockSource, slice_source, slice_read_at}
use lamfold.Source.Region.{slice-Stands}
use lamfold.Codec.{decode}
use lamfold.Cramfs.{
  CrInode, magic, ext_block_pointers, parse_inode, read_whole, probe, open_volume, read_dir, lookup,
  metadata, read_at, read_link, volume, ptr, read_page, read_pages, unpad, read_entry, list_from,
  inode_of,
}
use lamfold.Cramfs.Files.{IsFile, cramfs_read_path}
use lamfold.Cramfs.Layout.{RawInode, Fits, image_of, read_as}
use lamfold.Cramfs.Opened.{open_volume_iff}
use lamfold.Cramfs.Pages.{packed, IsContent}
use lamfold.Cramfs.Written.{RawEntry, FitsEntry, dir_bytes, listed, read_dir_written}
use lamfold.Tests.Codec.{build, stored}

abbrev zeros : ℕ → Bytes
unfolding replicate
zeros n = replicate n 0

abbrev root_raw : RawInode
root_raw = record { mode = 0x41ed; uid = 0; size = 16; gid = 0; name_words = 0; off_words = 19 }

abbrev file_raw : RawInode
file_raw = record { mode = 0x81a4; uid = 1000; size = 2; gid = 7; name_words = 1; off_words = 23 }

abbrev file_inode : CrInode
file_inode = read_as file_raw

abbrev entry : RawEntry
entry = record { raw = file_raw; name = b'a' ∷ []; pad = 3 }

abbrev hello : Bytes
hello = b'h' ∷ b'i' ∷ []

-- The superblock, and the root inode at its end.
abbrev before : Bytes
before = le32_bytes magic ++ (zeros 60 ++ image_of root_raw)

abbrev after : Bytes
after = le32_bytes 98 ++ hello

abbrev img : Bytes
img = before ++ (dir_bytes (entry ∷ []) ++ after)

abbrev src : BlockSource
src = slice_source img

program : Unit {0}
unfolding replicate image_of le32_bytes le32 be32_bytes drop take decode stored parse_inode inode_of
    read_whole probe open_volume read_dir lookup metadata read_at read_link ptr read_page read_pages
    unpad read_entry list_from resolve read_path slice_read_at
program = tt

mounts : (probe src ≡ ok true) × (open_volume src ≡ ok tt)
unfolding program
mounts = (refl, refl)

file_at : parse_inode src 76 ≡ ok file_inode
unfolding program
file_at = refl

abbrev listing : List DirEntry
listing = record { name = b'a' ∷ []; node = 76; kind = regular } ∷ []

lists_root : read_dir src 64 ≡ ok listing
unfolding program
lists_root = refl

links : read_link build src 76 ≡ ok none
unfolding program
links = refl

by_path : (resolve (of_view (volume build src)) (b'/' ∷ b'a' ∷ []) tt).0 ≡ ok 76
unfolding program
by_path = refl

hello-IsContent : IsContent build src file_inode hello
unfolding program
hello-IsContent = record {
  pages = packed hello hello ∷ [];
  is_content = refl;
  page_count = refl;
  index_read = refl;
  are_pages = (refl, omega arith, (omega arith, refl, refl), tt);
  size_fits = omega arith;
}

hello-IsFile : IsFile build src 76 file_inode hello
hello-IsFile = record { at = file_at; not_dir = refl; has_content = hello-IsContent }

cramfs_reads_example : (read_path (of_view (volume build src)) (b'/' ∷ b'a' ∷ []) tt).0 ≡ ok hello
cramfs_reads_example =
    cramfs_read_path build src 76 file_inode hello hello-IsFile (b'/' ∷ b'a' ∷ []) by_path

file_raw-Fits : Fits file_raw
file_raw-Fits = record {
  mode_fits = omega arith;
  uid_fits = omega arith;
  size_fits = omega arith;
  gid_fits = omega arith;
  name_fits = omega arith;
  off_fits = omega arith;
}

root_at : parse_inode src 64 ≡ ok (read_as root_raw)
unfolding program
root_at = refl

small : length img ≤ 9223372036854775808
unfolding program
small = omega arith

entry-FitsEntry : FitsEntry entry
entry-FitsEntry = record { inode_fits = file_raw-Fits; no_nul = (refl, tt); padded = refl }

read_dir_written_example : read_dir src 64 ≡ ok (listed 76 (entry ∷ []))
unfolding image_of le32_bytes replicate
read_dir_written_example =
    read_dir_written src 64 (read_as root_raw) (entry ∷ []) root_at refl refl
      (slice-Stands before (dir_bytes (entry ∷ [])) after 76 refl small) (entry-FitsEntry, tt)

open_volume_iff_example :
    (open_volume src ≡ ok tt)
    ↔ ((probe src ≡ ok true) × (ext_block_pointers (le32 (drop 8 img)) ≡ false))
open_volume_iff_example = open_volume_iff img small
