-- ===== src/Tests/Cpio.antt =====
-- Runs of the cpio frontend on a newc archive with the file "a/b", and on trees made by hand.
use lamfold.Prelude.{
  ℕ, zero, suc, ◌+◌, true, Bytes, [], ◌∷◌, ◌++◌, length, get_elem?, some, ◌≡◌, refl, arith, not,
  ◌==◌, inl, inr, subst, drop, le32,
}
use lamfold.Error.{ok, corrupt, guard, ok_or, bind-eq-ok, if-eq-ok, ok-injective, guard-eq-ok}
use lamfold.Frontend.{regular, directory}
use lamfold.Path.{resolve}
use lamfold.Path.Pure.{of_view}
use lamfold.Stream.Parts.{StreamCodec, zstd, xz, lzma, lz4_legacy, bzip2, lzo, starts_with}
use lamfold.Cpio.Record.{parse_record, newc_magic, crc_magic, align4, trailer, byte_sum}
use lamfold.Cpio.Tree.{Node, no_span}
use lamfold.Cpio.Tree.Shape.{IsTree}
use lamfold.Cpio.Tree.Insert.{Places, insert-Inserts}
use lamfold.Cpio.Volume.{Cpio, CpioReader, mount, volume, root_nodes, lookup, metadata}
use lamfold.Prelude.Order.{bytes_cmp}
use lamfold.Cpio.Spans.{Outcome}
use lamfold.Cpio.Mounted.{Safe}
use lamfold.Cpio.Opened.{Mounted, mount-Mounted}
use lamfold.Cpio.Served.{ReadsSpan, ListsDir, read_path-Safe, read_dir-Safe}
use lamfold.Cpio.Chain.{Chain, chain_loop, refuse_member, decode_member, insert_chain}
use lamfold.Cpio.Archive.{records_from}
use lamfold.Cpio.Ends.{Takes, chain_turn, insert_chain-Halts}
use lamfold.Cpio.Turns.{record_turn}
use lamfold.Prelude.Halts.{Halts}
use lamfold.Stream.Decode.{decode_stream}
use lamfold.Cpio.Layout.{RawRecord, Fits, image_of, read_as, parse_record-image_of}
use lamfold.Stream.Gzip.{gzip-Verified, tail_from}
use lamfold.Stream.Frames
use lamfold.Stream.Lz4
use lamfold.Tests.Stream.{decoders, no_reader}

abbrev hi : Bytes
hi = b'h' ∷ b'i' ∷ []

abbrev a_b : Bytes
a_b = b'a' ∷ b'/' ∷ b'b' ∷ []

abbrev raw : ℕ → ℕ → Bytes → Bytes → RawRecord
raw mode check name content = record {
  ino = 5;
  mode = mode;
  uid = 0;
  gid = 0;
  nlink = 1;
  mtime = 0;
  devmajor = 0;
  devminor = 0;
  rdevmajor = 0;
  rdevminor = 0;
  check = check;
  name = name;
  content = content;
}

abbrev file : RawRecord
file = raw 0o100644 209 a_b hi

-- The file, its padding to four bytes, and the trailer.
abbrev archive : Bytes
archive =
    image_of crc_magic file (0 ∷ 0 ∷ [])
    ++ (0 ∷ 0 ∷ (image_of newc_magic (raw 0 0 trailer []) (0 ∷ 0 ∷ 0 ∷ []) ++ 0 ∷ 0 ∷ []))

abbrev no_entries : CpioReader
no_entries = record { iter_files = λ archive. []; files_within = λ archive. tt }

-- The volume that the archive opens to.
abbrev opened : Cpio
opened = record {
  buffers = archive ∷ [];
  nodes =
      record { kind = directory; data_ = no_span; mode = 0o755; children = (b'a' ∷ [], 1) ∷ [] }
      ∷ record { kind = directory; data_ = no_span; mode = 0o755; children = (b'b' ∷ [], 2) ∷ [] }
      ∷ record {
        kind = regular;
        data_ = record { buf = 0; off = 116; len = 2 };
        mode = 0o644;
        children = [];
      }
      ∷ [];
}

archive_mounts : mount decoders no_entries 1000 archive ≡ some (ok opened)
unfolding mount image_of
archive_mounts = refl

mount-Mounted_example : Outcome (Mounted 1000 archive) (mount decoders no_entries 1000 archive)
mount-Mounted_example = mount-Mounted decoders no_entries 1000 archive

root-IsTree : IsTree root_nodes
root-IsTree = (omega arith, ((tt, tt), tt))

insert-Inserts_example :
    Places regular 0o644 (record { buf = 0; off = 116; len = 2 }) root_nodes a_b
insert-Inserts_example =
    insert-Inserts regular 0o644 (record { buf = 0; off = 116; len = 2 }) root_nodes a_b root-IsTree

file-Fits : Fits [] crc_magic file (0 ∷ 0 ∷ []) (0 ∷ []) true
unfolding image_of byte_sum align4
file-Fits = record {
  magic_six = refl;
  small = (
    omega arith,
    (
      omega arith,
      (
        omega arith,
        (
          omega arith,
          (
            omega arith,
            (
              omega arith,
              (
                omega arith,
                (
                  omega arith,
                  (omega arith, (omega arith, (omega arith, (omega arith, (omega arith, tt))))),
                ),
              ),
            ),
          ),
        ),
      ),
    ),
  );
  name_fits = omega arith;
  padded = refl;
  bounded = omega arith;
  checked = λ _ _. refl;
}

parse_record-image_of_example :
    parse_record ([] ++ (image_of crc_magic file (0 ∷ 0 ∷ []) ++ 0 ∷ [])) 0 true
    ≡ ok (read_as [] file (0 ∷ 0 ∷ []))
parse_record-image_of_example =
    parse_record-image_of [] crc_magic file (0 ∷ 0 ∷ []) (0 ∷ []) true file-Fits

opened-Safe : Safe opened.buffers opened.nodes
unfolding get_elem? image_of
opened-Safe = (
  (
    omega arith,
    (
      ((omega arith, omega arith, tt), (tt, tt)),
      (((omega arith, omega arith, tt), (tt, tt)), ((tt, tt), tt)),
    ),
  ),
  (
    (archive, refl, omega arith),
    ((archive, refl, omega arith), ((archive, refl, omega arith), tt)),
  ),
)

abbrev file_node : Node
file_node = record {
  kind = regular;
  data_ = record { buf = 0; off = 116; len = 2 };
  mode = 0o644;
  children = [];
}

abbrev dir_of : Bytes → ℕ → Node
dir_of name child = record {
  kind = directory;
  data_ = no_span;
  mode = 0o755;
  children = (name, child) ∷ [];
}

file_there : get_elem? opened.nodes 2 ≡ some file_node
unfolding get_elem?
file_there = refl

root_there : get_elem? opened.nodes 0 ≡ some (dir_of (b'a' ∷ []) 1)
unfolding get_elem?
root_there = refl

a_b_resolves : (resolve (of_view (volume opened)) a_b tt).0 ≡ ok 2
unfolding resolve lookup metadata bytes_cmp
a_b_resolves = refl

read_path-Safe_example : ReadsSpan opened a_b file_node
read_path-Safe_example =
    read_path-Safe opened a_b 2 file_node opened-Safe file_there refl (omega arith) a_b_resolves

read_dir-Safe_example : ListsDir opened 0 (dir_of (b'a' ∷ []) 1)
read_dir-Safe_example = read_dir-Safe opened 0 (dir_of (b'a' ∷ []) 1) opened-Safe root_there refl

abbrev chain : Chain
chain = record { buffers = archive ∷ []; nodes = root_nodes; budget = 1000 }

-- Without a reader no frame is counted.
no_frames :
    (fuel : ℕ) (rest : Bytes) (max_out : ℕ) (out : Bytes) (frames : ℕ) {res : Bytes × ℕ × ℕ}
    → Frames.zstd_loop no_reader fuel rest max_out out frames ≡ ok res
    → res.2 ≡ frames
unfolding Frames.zstd_loop
no_frames zero rest max_out out frames h = absurd (cc)
no_frames (suc fuel) rest max_out out frames h =
    elim (if-eq-ok (Frames.is_skippable no_reader rest) _ _ h) [
      | inl (_, h1) ↦
          let (rest', _, h2) =
            bind-eq-ok (ok_or (tail_from rest (8 + le32 (drop 4 rest))) (corrupt "zstd_truncated"))
              _ h1 in
          no_frames fuel rest' max_out out frames h2
      | inr (_, h1) ↦ elim (if-eq-ok (starts_with (0x28 ∷ 0xb5 ∷ 0x2f ∷ 0xfd ∷ []) rest) _ _ h1) [
        | inl (_, h2) ↦ absurd (cc)
        | inr (_, last) ↦ subst (λ (r : Bytes × ℕ × ℕ). r.2 ≡ frames) (ok-injective last) refl
      ]
    ]

-- Decoders of which only gzip's and lz4's can succeed.
decoders-Takes : Takes decoders
unfolding decode_stream Frames.one_stream Frames.zstd
decoders-Takes StreamCodec.gzip input max_out out used h =
    let (_, start, e, _, _, _) = gzip-Verified decoders.inflater input max_out h in omega (arith, e)
decoders-Takes zstd input max_out out used h =
    let ((_, left, frames), looped, h1) =
      bind-eq-ok (Frames.zstd_loop no_reader (length input + 1) input max_out [] 0) _ h in
    let (_, counted, _) = bind-eq-ok (guard (not (frames == 0)) (corrupt "zstd_no_frame")) _ h1 in
    let none_ = no_frames (length input + 1) input max_out [] 0 looped in
    absurd (ground (arith, guard-eq-ok (not (frames == 0)) _ counted, none_))
decoders-Takes xz input max_out out used h = absurd (cc)
decoders-Takes lzma input max_out out used h = absurd (cc)
decoders-Takes lz4_legacy input max_out out used h =
    let four = Lz4.lz4_legacy_takes decoders.lz4_block input max_out h in omega (arith, four)
decoders-Takes bzip2 input max_out out used h = absurd (cc)
decoders-Takes lzo input max_out out used h = absurd (cc)

insert_chain-Halts_example :
    Halts
      (chain_turn (decode_member decoders) archive 0)
      (0, chain)
      (insert_chain decoders archive chain)
    × Halts
        (chain_turn refuse_member archive 0)
        (0, chain)
        (chain_loop refuse_member (length archive + 1) archive 0 0 chain)
    × Halts (record_turn archive) ([], 0) (records_from (length archive + 1) archive 0)
insert_chain-Halts_example = insert_chain-Halts decoders decoders-Takes archive 0 0 chain
