-- ===== src/Cpio/Volume.antt =====
-- The mounted archive of crates/lamfold-cpio/src/cpio.rs. An index out of range, where the code stops
-- with a panic, is `none` while the archive is opened, and the error `panicked` in a method.
use lamfold.Prelude.{
  ℕ, ◌+◌, ◌-◌, ◌%◌, min, Bool, true, false, ◌&&◌, ◌||◌, ltb, leb, ◌==◌, if◌then◌else◌, Bytes, List,
  [], ◌∷◌, length, take, drop, slice?, get_elem?, get_or, bytes_eq, Option, none, some, ◌≤◌,
}
use lamfold.Prelude.TreeMap
use lamfold.Prelude.TreeMap.{TreeMap}
use lamfold.Prelude.Order.{bytes_ord}
use lamfold.Error.{
  FoldError, Result, ok, err, io, not_found, not_directory, is_directory, ◌>>=◌, ok_or,
}
use lamfold.Frontend.{NodeId, Metadata, DirEntry, View}
use lamfold.Path.{is_dir, is_symlink}
use lamfold.ReadCap.{max_boot_file_bytes, checked_full_read_len}
use lamfold.Source.{BlockSource, usize_end}
use lamfold.Stream.Parts.{Decoders, starts_with}
use lamfold.Cpio.Record.{newc_magic, crc_magic, file_kind}
use lamfold.Cpio.Tree.{Node, Span, dir_node, insert}
use lamfold.Cpio.Chain.{Chain, insert_chain}

-- An entry that `cpio_reader::iter_files` yields of an odc or binary archive: its file is a slice of
-- the archive.
pub record Entry : Type 0 where
  pub name : Bytes
  pub mode : ℕ
  pub off : ℕ
  pub len : ℕ

abbrev pub WithinArchive : ℕ → List Entry → Type 0
WithinArchive size [] = Unit
WithinArchive size (e ∷ es) = (e.off + e.len ≤ size) × WithinArchive size es

pub record CpioReader : Type 0 where
  pub iter_files : Bytes → List Entry
  pub files_within : (archive : Bytes) → WithinArchive (length archive) (iter_files archive)

unfoldable pub insert_single : List Entry → List Node → Option (List Node)
unfolding insert file_kind
insert_single [] nodes = some nodes
insert_single (e ∷ es) nodes =
    elim (insert nodes e.name (file_kind e.mode) (e.mode % 4096)
      (record { buf = 0; off = e.off; len = e.len })) [
        | none ↦ none
        | some nodes' ↦ insert_single es nodes'
      ]

-- `Cpio`: the input and each decompressed member, and the nodes.
pub record Cpio : Type 0 where
  pub buffers : List Bytes
  pub nodes : List Node

abbrev pub of_chain : Option (Result Chain) → Option (Result Cpio)
of_chain none = none
of_chain (some (err why)) = some (err why)
of_chain (some (ok c)) = some (ok (record { buffers = c.buffers; nodes = c.nodes }))

abbrev pub of_nodes : Bytes → Option (List Node) → Option (Result Cpio)
of_nodes archive none = none
of_nodes archive (some nodes) = some (ok (record { buffers = archive ∷ []; nodes = nodes }))

abbrev pub root_nodes : List Node
root_nodes = dir_node 0o755 ∷ []

-- `open`, once the input is in memory.
unfoldable pub mount : Decoders → CpioReader → ℕ → Bytes → Option (Result Cpio)
unfolding starts_with insert_chain insert_single
mount d reader budget archive =
    if starts_with newc_magic archive || starts_with crc_magic archive
    then of_chain (
        insert_chain d archive
          (record { buffers = archive ∷ []; nodes = root_nodes; budget = budget }))
    else of_nodes archive (insert_single (reader.iter_files archive) root_nodes)

abbrev pub after_read :
    Result (ℕ × Bytes) → (ℕ → Bytes → Option (Result Cpio)) → Option (Result Cpio)
after_read (err why) next = some (err why)
after_read (ok (budget, archive)) next = next budget archive

unfoldable pub open_volume : Decoders → CpioReader → BlockSource → Option (Result Cpio)
unfolding checked_full_read_len mount
open_volume d reader src =
    after_read
      (do
        len ← checked_full_read_len usize_end src.len
        archive ← src.read_at 0 len
        budget ← checked_full_read_len usize_end max_boot_file_bytes
        ok (budget, archive))
      (mount d reader)

unfoldable pub probe : BlockSource → Result Bool
unfolding bytes_eq get_or
probe src = if ltb src.len 6 then ok false else (do
  m ← src.read_at 0 6
  let ascii =
      bytes_eq m newc_magic
      || (bytes_eq m crc_magic || bytes_eq m (b'0' ∷ b'7' ∷ b'0' ∷ b'7' ∷ b'0' ∷ b'7' ∷ []))
  let a = get_or m 0 0
  let b = get_or m 1 0
  ok (ascii || (a == 0o161 && b == 0o307 || a == 0o307 && b == 0o161)))

abbrev pub panicked : FoldError
panicked = io "index out of range"

-- `node`.
unfoldable pub node_of : Cpio → NodeId → Result Node
unfolding get_elem?
node_of v id = ok_or (get_elem? v.nodes id) not_found

-- `bytes`.
unfoldable pub bytes : Cpio → Span → Result Bytes
unfolding get_elem? slice?
bytes v span = do
  buffer ← ok_or (get_elem? v.buffers span.buf) panicked
  ok_or (slice? buffer span.off span.len) panicked

unfoldable pub lookup : Cpio → NodeId → Bytes → Result (Option NodeId)
unfolding node_of TreeMap.lookup
lookup v dir name = do
  node ← node_of v dir
  if is_dir node.kind then ok (TreeMap.lookup name node.children) else err not_directory

unfoldable pub dir_entries : Cpio → TreeMap Bytes NodeId → Result (List DirEntry)
unfolding get_elem?
dir_entries v [] = ok []
dir_entries v ((name, child) ∷ children) = do
  node ← ok_or (get_elem? v.nodes child) panicked
  rest ← dir_entries v children
  ok (record { name = name; node = child; kind = node.kind } ∷ rest)

unfoldable pub read_dir : Cpio → NodeId → Result (List DirEntry)
unfolding node_of dir_entries
read_dir v dir = do
  node ← node_of v dir
  if is_dir node.kind then dir_entries v node.children else err not_directory

unfoldable pub metadata : Cpio → NodeId → Result Metadata
unfolding node_of
metadata v id = do
  n ← node_of v id
  ok (record { kind = n.kind; size = if is_dir n.kind then 0 else n.data_.len; mode = n.mode })

unfoldable pub read_at : Cpio → NodeId → ℕ → ℕ → Result Bytes
unfolding node_of bytes take drop
read_at v id off want = do
  n ← node_of v id
  elim (is_dir n.kind) [
    | true ↦ err is_directory
    | false ↦ do
      content ← bytes v n.data_
      elim (leb (length content) off) [
        | true ↦ ok []
        | false ↦ ok (take (min want (length content - off)) (drop off content))
      ]
  ]

unfoldable pub read_link : Cpio → NodeId → Result (Option Bytes)
unfolding node_of bytes
read_link v id = do
  n ← node_of v id
  elim (is_symlink n.kind) [
    | false ↦ ok none
    | true ↦ do target ← bytes v n.data_; ok (some target)
  ]

-- The methods as a host sees them.
abbrev pub volume : Cpio → View
volume v = record {
  root = 0;
  lookup = lookup v;
  read_dir = read_dir v;
  metadata = metadata v;
  read_at = read_at v;
  read_link = read_link v;
}
