-- ===== src/Tests/Romfs.antt =====
-- A romfs image with a directory, a file and a hard link to it, as genromfs lays it out.
use lamfold.Prelude.{ℕ, ◌+◌, true, Bytes, List, [], ◌∷◌, ◌++◌, ◌≡◌, ◌↔◌, refl, arith, be32_bytes}
use lamfold.Error.{ok}
use lamfold.Frontend.{regular, DirEntry}
use lamfold.Path.{resolve, read_path}
use lamfold.Path.Pure.{of_view}
use lamfold.Romfs.{
  Header, magic, max_entries, max_link_hops, read_header, resolved_header, list_from, read_dir,
  lookup, metadata, read_at, probe, open_volume, volume,
}
use lamfold.Romfs.Files.{Stored-slice, IsFile, read_path-IsFile}
use lamfold.Romfs.Layout.{RawHeader, Fits, image_of, read_as, read_header-image_of}
use lamfold.Romfs.Links.{LinksTo, resolved_header_iff}
use lamfold.Romfs.Listing.{Siblings, last, next, dot, named, read_dir-Siblings}
use lamfold.Source.{BlockSource, slice_source, slice_read_at}

abbrev zeros14 : Bytes
zeros14 = 0 ∷ 0 ∷ 0 ∷ 0 ∷ 0 ∷ 0 ∷ 0 ∷ 0 ∷ 0 ∷ 0 ∷ 0 ∷ 0 ∷ 0 ∷ 0 ∷ []

abbrev raw : ℕ → ℕ → ℕ → Bytes → RawHeader
raw spec info size name = record {
  spec = spec;
  info = info;
  size = size;
  checksum = 0;
  name = name;
}

abbrev hello : Bytes
hello = b'h' ∷ b'i' ∷ []

-- The volume header, then the entries ".", ".." and "a".
abbrev before : Bytes
before =
    magic
    ++ (be32_bytes 176
        ++ (be32_bytes 0
            ++ (b'v' ∷ 0 ∷ zeros14
                ++ (image_of (raw (64 + 1) 32 0 (b'.' ∷ [])) zeros14
                    ++ (image_of (raw (96 + 0) 32 0 (b'.' ∷ b'.' ∷ []))
                          (0 ∷ 0 ∷ 0 ∷ 0 ∷ 0 ∷ 0 ∷ 0 ∷ 0 ∷ 0 ∷ 0 ∷ 0 ∷ 0 ∷ 0 ∷ [])
                        ++ image_of (raw (144 + 2) 0 2 (b'a' ∷ [])) zeros14)))))

-- What follows the data of "a": its padding, and the hard link "l".
abbrev after : Bytes
after = zeros14 ++ image_of (raw 0 96 0 (b'l' ∷ [])) zeros14

abbrev src : BlockSource
src = slice_source (before ++ (hello ++ after))

abbrev file_header : Header
file_header = record {
  next_off = 144;
  ftype = 2;
  info = 0;
  size = 2;
  name = b'a' ∷ [];
  data_off = 128;
}

program : Unit {0}
unfolding be32_bytes read_header resolved_header list_from read_dir metadata read_at probe
    open_volume lookup resolve read_path slice_read_at
program = tt

mounts : (probe src ≡ ok true) × (open_volume src ≡ ok 32)
unfolding program
mounts = (refl, refl)

abbrev listing : List DirEntry
listing =
    record { name = b'a' ∷ []; node = 96; kind = regular }
    ∷ record { name = b'l' ∷ []; node = 96; kind = regular }
    ∷ []

lists : read_dir src 32 ≡ ok listing
unfolding program
lists = refl

link_resolves : resolved_header src 144 ≡ ok (96, file_header)
unfolding program
link_resolves = refl

by_path : (resolve (of_view (volume src 32)) (b'/' ∷ b'l' ∷ []) tt).0 ≡ ok 96
unfolding program
by_path = refl

hello-IsFile : IsFile src 96 file_header hello
unfolding program
hello-IsFile = record {
  target = 96;
  resolved = refl;
  not_dir = refl;
  stored = Stored-slice before hello after file_header refl refl (omega arith);
}

read_path-IsFile_example : (read_path (of_view (volume src 32)) (b'/' ∷ b'l' ∷ []) tt).0 ≡ ok hello
read_path-IsFile_example =
    read_path-IsFile src 96 file_header hello hello-IsFile 32 (b'/' ∷ b'l' ∷ []) by_path
      (omega arith)

resolved_header_iff_example :
    (resolved_header src 144 ≡ ok (96, file_header))
    ↔ LinksTo src (max_link_hops + 1) 144 96 file_header
resolved_header_iff_example = resolved_header_iff src 144 96 file_header

abbrev dir_header : Header
dir_header = record {
  next_off = 64;
  ftype = 1;
  info = 32;
  size = 0;
  name = b'.' ∷ [];
  data_off = 64;
}

abbrev up_header : Header
up_header = record {
  next_off = 96;
  ftype = 0;
  info = 32;
  size = 0;
  name = b'.' ∷ b'.' ∷ [];
  data_off = 96;
}

abbrev link_header : Header
link_header = record {
  next_off = 0;
  ftype = 0;
  info = 96;
  size = 0;
  name = b'l' ∷ [];
  data_off = 176;
}

listing-Siblings : Siblings src max_entries 32 listing
unfolding program
listing-Siblings = next {h = dir_header} {es = []} refl refl (dot refl) (
    next {h = up_header} {es = []} refl refl (dot refl) (
      next {h = file_header} {es = record { name = b'a' ∷ []; node = 96; kind = regular } ∷ []} refl
        refl (named {target = file_header} refl refl)
        (next {h = link_header} {es = record { name = b'l' ∷ []; node = 96; kind = regular } ∷ []}
          refl refl (named {target = file_header} refl refl) (last refl))))

read_dir-Siblings_example : read_dir src 32 ≡ ok listing
unfolding program
read_dir-Siblings_example =
    read_dir-Siblings src 32 32 dir_header listing refl refl listing-Siblings

a_header-Fits : Fits (raw (144 + 2) 0 2 (b'a' ∷ []))
a_header-Fits = record {
  spec_fits = omega arith;
  info_fits = omega arith;
  size_fits = omega arith;
  name_fits = omega arith;
  no_nul = (refl, tt);
}

read_header-image_of_example :
    read_header (slice_source (hello ++ image_of (raw (144 + 2) 0 2 (b'a' ∷ [])) zeros14)) 2
    ≡ ok (read_as (raw (144 + 2) 0 2 (b'a' ∷ [])) 2)
unfolding be32_bytes
read_header-image_of_example =
    read_header-image_of (raw (144 + 2) 0 2 (b'a' ∷ [])) hello zeros14 a_header-Fits (omega arith)
