-- ===== src/Lib.antt =====
-- lamfold reads files out of read-only filesystem images before an operating system is up. This
-- library models its core, its file verification, its block codecs, and its frontends for
-- cpio, romfs, cramfs, ISO 9660 and UDF, and proves what makes them correct.
--
-- The parts of the program. A host opens an image through a `BlockSource`, mounts it with a
-- frontend (`FoldFrontend`), and reads it by path. A frontend parses untrusted bytes: it answers
-- `lookup`, `read_dir`, `metadata`, `read_at` and `read_link` for numbered nodes, keeps decoded
-- blocks in a bounded cache, and holds every allocation below a cap. Path access (`resolve`,
-- `read_path`, `read_dir_path`, `metadata_path`) is one piece of code over any frontend. The cpio
-- frontend decompresses the members of an initramfs with `decode_stream`, which stands over
-- third-party decoders.
--
-- The files, and the code that each models:
--   Error      crates/lamfold/src/error.rs: FoldError, its tokens, and results
--   ReadCap    crates/lamfold/src/read_cap.rs: checked_full_read_len, checked_block_len
--   Source     crates/lamfold/src/source.rs: BlockSource with its documented law, SliceSource;
--              Source/Region says where bytes stand in a source, Source/Pieces is about a walk
--              over extents
--   Cache      crates/lamfold/src/cache.rs: BlockCache::new, get, insert, evict_one;
--              Cache/Entries has the facts on the map, Cache/Room the eviction loop,
--              Cache/Recency the order of use
--   Frontend   crates/lamfold/src/frontend.rs: FoldFrontend over an explicit state, and its view
--   Path       crates/lamfold/src/path.rs: resolve, read_path, read_dir_path, metadata_path,
--              push_components; Path/Resolve specifies resolution by a relation, Path/Read the
--              reading loop, Path/Chunks the chunks that it reads, Path/Pure and Path/Served the frontends
--              with a state, Path/Components the splitting of paths
--   Romfs      crates/lamfold-romfs/src/romfs.rs: the whole frontend; Romfs/Layout writes a
--              header out, Romfs/Links is about hard links, Romfs/Listing about directories,
--              Romfs/Files about content
--   Stream     crates/lamfold/src/stream.rs: StreamCodec::sniff and push_capped in Stream/Parts,
--              gzip in Stream/Gzip, zstd, xz and lzma in Stream/Frames, lz4_legacy in Stream/Lz4,
--              decode_stream in Stream/Decode; Stream/Turns and Stream/Ends are about the loops
--   Cpio       crates/lamfold-cpio/src/cpio.rs: parse_record in Cpio/Record, insert in Cpio/Tree,
--              insert_newc_archive in Cpio/Archive, insert_chain in Cpio/Chain, probe, open and
--              the methods in Cpio/Volume; Cpio/Hex and Cpio/Layout write a record out, Cpio/Tree
--              has the shape of the tree and what an insertion does to it, Cpio/Spans, Cpio/Fits,
--              Cpio/Grown, Cpio/Mounted and Cpio/Opened carry the bounds of the spans from a
--              record to a mounted volume, Cpio/Served is about its methods, Cpio/Turns and
--              Cpio/Ends about its loops
--   Verity     crates/lamfold/src/verity.rs: hash_block, merkle_root, fsverity_digest_sha256, and
--              MerkleVerifier; NoVerifier of crates/lamfold/src/verify.rs; Verity/Trust is about
--              the leaves, Verity/Root about the loop, Verity/Verifier about what is let through
--   ElTorito   crates/lamfold-iso/src/el_torito.rs: parse_catalog and fat_image_sectors;
--              ElTorito/Layout, ElTorito/Sections and ElTorito/Catalog write a catalogue out and
--              read it back
--   Codec      crates/lamfold/src/codec.rs: decode, lz4_block_with_dict, microlzma_block_decode;
--              Codec/Fill is about the read loop, Codec/Blocks about the length of a block
--   Cramfs     crates/lamfold-cramfs/src/cramfs.rs: the whole frontend; Cramfs/Layout packs an
--              inode, Cramfs/Written lays a directory out, Cramfs/Listing is about directories,
--              Cramfs/Pages about the pages of a file, Cramfs/Files about content, Cramfs/Opened
--              about probe and open
--   RockRidge  crates/lamfold-iso/src/rock_ridge.rs: detect_sp, RrParser::feed and finish,
--              parse_sl_components; RockRidge/Entries writes an area out, RockRidge/Names is about
--              names, RockRidge/Targets and RockRidge/Links about the targets of symlinks
--   Iso9660    crates/lamfold-iso/src/iso9660.rs: the state, intern and single fields;
--              for_each_entry and parse_rock_ridge in Iso9660/Records, read_zisofs in
--              Iso9660/Compressed, open and el_torito_uefi_image in Iso9660/Descriptors, the
--              methods in Iso9660/Volume; Iso9660/Interned, Iso9660/Listed and Iso9660/Mounted
--              are about nodes, Iso9660/Areas about continuation areas, Iso9660/Written lays a
--              directory record out, Iso9660/Held says what a directory holds, Iso9660/Turns and
--              Iso9660/Scanned that the scan finds it; Iso9660/Extents is about
--              content, Iso9660/Packed and Iso9660/Blocks about compressed content, Iso9660/Ends
--              about the loops
--   Udf        crates/lamfold-udf/src/udf.rs: the state, descriptors and file entries; parse_fids in
--              Udf/Names, open and the methods in Udf/Volume; Udf/Written and Udf/Listed lay a
--              directory out, Udf/Descriptors and Udf/Entries a File Entry, Udf/Nodes and
--              Udf/Mounted are about nodes, Udf/Extents about content
--   Utf8       Rust's from_utf8 and from_utf8_lossy, which the frontends and the paths call
--   Exec       methods that change a state and may fail
--   Prelude    lists over native numbers, machine words in bytes, BTreeMap, and the orders of its
--              keys
--   Tests      runs on concrete images, with an input for each theorem that has hypotheses
--
-- How the code is carried over. A byte is a number below 256, and a slice, a `Vec<u8>` and a
-- `String` are lists of bytes. Integers are native numbers; where the source wraps, the `% 2 ^ w`
-- is written out. A `usize` has 64 bits; offsets, lengths and cursors into a buffer that is in
-- memory are below 2^63 and are not reduced. A `Result` is a value of Error.Result; an index out
-- of range, where Rust panics, is `none` of an Option (while cpio is opened) or an error of its
-- own (in its methods), and the theorems show that neither is met. A frontend's `&mut self` is a
-- state that goes in and comes out. A shift of `1usize` by 64 or more is a panic. A `BTreeMap` is
-- the list of its entries in key order.
--
-- Fuel. The loops of the source run on fuel, and each bound is one that the loop cannot use up:
-- reading a file takes at most as many rounds as it has bytes, eviction as many as there are
-- entries; inflate turns are no more than the bytes of the input and of the capped output
-- together; an lz4 turn passes over four bytes; a zstd turn takes a frame; a capped read adds a
-- byte to each chunk, and a decoder's read loop a byte to the block; a cpio record and an archive
-- stand behind the one before; a record of a cramfs directory takes twelve bytes, a Rock Ridge
-- entry four, and a directory record or its padding one; a zisofs turn writes a byte; a UDF turn
-- takes an allocation descriptor or a File Identifier Descriptor; a level of a Merkle tree is
-- shorter than the one below it for blocks of 64 bytes or more. How the loops of cpio and of the
-- stream decoders end is said by Prelude/Halts, without fuel. romfs bounds its own loops, at
-- 1,000,000 siblings and nine hard links, and ISO 9660 its own, at 64 descriptors and sixteen
-- continuation areas, UDF at 64 sectors, and these bounds are kept.
--
-- Parameters. The block source, the inflater (miniz_oxide), the readers (ruzstd, lzma-rust2), the
-- lz4 block decoder (lz4_flex), SHA-256 (sha2) and the parser of old archives (cpio_reader) are
-- records of operations with what their documents promise: no more input is taken than given, no
-- more output written than there is room for, and a file of an archive is a slice of it.
--
-- Not modelled: the text of errors and Display, which only format; running out of memory; the
-- bodies of decode_stream for a build without a codec; the frontends for SquashFS and EROFS, which
-- no modelled part calls; fixtures.
pub mod Prelude
pub mod Error
pub mod ReadCap
pub mod Source
pub mod Cache
pub mod Utf8
pub mod Exec
pub mod Frontend
pub mod Path
pub mod RockRidge
pub mod Iso9660
pub mod Udf
pub mod Romfs
pub mod Stream
pub mod Codec
pub mod Cpio
pub mod Cramfs
pub mod Verity
pub mod ElTorito
mod Tests
