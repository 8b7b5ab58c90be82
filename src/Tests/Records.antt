-- ===== src/Tests/Records.antt =====
-- A directory of an ISO 9660 volume in blocks of 64 bytes: ".", a file in two records, and a directory.
use lamfold.Prelude.{
  ℕ, ◌*◌, ◌^◌, ◌<◌, false, Bytes, List, [], ◌∷◌, ◌++◌, length, take, drop, replicate, get_or,
  get_elem?, slice?, le32, le32_bytes, bytes_eq, position, none, ◌≡◌, refl, arith,
}
use lamfold.Error.{ok}
use lamfold.Frontend.{regular, directory}
use lamfold.Source.{BlockSource}
use lamfold.Utf8.{is_utf8}
use lamfold.Iso9660.{Inode, Reading, up_to, strip_dot, base_name, decode_name}
use lamfold.Iso9660.Held.{at_once, padded, last_record, Holds, ended, dot, whole, in_parts}
use lamfold.Iso9660.Records.{entries_of}
use lamfold.Iso9660.Scanned.{entries_of-Holds}
use lamfold.Iso9660.Written.{RawRecord, FitsRecord, image}
use lamfold.Tests.Sparse.{segment_at, sparse_read, sparse, zeros}

program : Unit {0}
unfolding segment_at sparse_read replicate le32_bytes le32 take drop get_elem? get_or slice?
    bytes_eq position is_utf8 up_to strip_dot base_name decode_name
program = tt

abbrev record_of : ℕ → ℕ → ℕ → ℕ → RawRecord
record_of id flags lba size = record {
  flags = flags;
  lba = lba;
  size = size;
  identifier = id ∷ [];
  attributes = 0;
  lba_be = zeros 4;
  size_be = zeros 4;
  date = zeros 7;
  unit = zeros 6;
  tail = [];
}

abbrev itself : RawRecord
itself = record_of 0 2 20 226

abbrev first : RawRecord
first = record_of b'a' 128 30 64

abbrev second : RawRecord
second = record_of b'a' 0 31 5

abbrev sub : RawRecord
sub = record_of b'd' 2 40 64

abbrev dir_bytes : Bytes
dir_bytes =
    image itself
    ++ (zeros 30 ++ (image first ++ (zeros 30 ++ (image second ++ (zeros 30 ++ image sub)))))

abbrev dir_src : BlockSource
dir_src = sparse ((1280, dir_bytes) ∷ [])

abbrev how : Reading
how = record { block_size = 64; rock_ridge = false; susp_skip = 0; joliet = false }

abbrev dir : Inode
dir = record {
  key = (16, 0);
  lba = 20;
  size = 226;
  extents = (20, 226) ∷ [];
  kind = directory;
  link_target = none;
  zisofs = none;
}

abbrev file_entry : Bytes × Inode
file_entry = (
  b'a' ∷ [],
  record {
    key = (20, 64);
    lba = 30;
    size = 69;
    extents = (30, 64) ∷ (31, 5) ∷ [];
    kind = regular;
    link_target = none;
    zisofs = none;
  },
)

abbrev sub_entry : Bytes × Inode
sub_entry = (
  b'd' ∷ [],
  record {
    key = (20, 192);
    lba = 40;
    size = 64;
    extents = (40, 64) ∷ [];
    kind = directory;
    link_target = none;
    zisofs = none;
  },
)

abbrev entries : List (Bytes × Inode)
entries = file_entry ∷ sub_entry ∷ []

fits :
    (id flags lba size : ℕ)
    → lba < 2 ^ 32
    → size < 2 ^ 32
    → FitsRecord (record_of id flags lba size)
unfolding replicate
fits id flags lba size a b = record {
  lba_fits = a;
  size_fits = b;
  lba_be_is = refl;
  size_be_is = refl;
  date_is = refl;
  unit_is = refl;
}

dir-Holds : Holds how 20 dir_bytes 0 entries
unfolding program
dir-Holds =
    dot 0 0 itself entries (at_once 0) refl (fits 0 2 20 226 (omega arith) (omega arith)) refl (
      in_parts 34 64 162 first (b'a' ∷ []) ((31, 5) ∷ []) (sub_entry ∷ [])
        (padded 34 64 (omega arith) refl (at_once 64)) refl
        (fits b'a' 128 30 64 (omega arith) (omega arith)) refl refl refl
        (last_record 98 128 second (padded 98 128 (omega arith) refl (at_once 128)) refl
          (fits b'a' 0 31 5 (omega arith) (omega arith)) refl refl refl)
        (omega arith)
        (whole 162 192 sub (b'd' ∷ []) [] (padded 162 192 (omega arith) refl (at_once 192)) refl
          (fits b'd' 2 40 64 (omega arith) (omega arith)) refl refl refl
          (ended 226 226 (at_once 226) (omega arith))))

reads : dir_src.read_at (20 * 64) 226 ≡ ok dir_bytes
unfolding program
reads = refl

length-dir_bytes : 226 ≡ length dir_bytes
unfolding program
length-dir_bytes = refl

entries_of-Holds_example : entries_of dir_src how dir ≡ ok entries
entries_of-Holds_example =
    entries_of-Holds dir_src how dir dir_bytes entries (omega arith) refl length-dir_bytes
      (omega arith) reads dir-Holds
