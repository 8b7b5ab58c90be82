-- ===== src/Cpio/Archive.antt =====
-- One archive of crates/lamfold-cpio/src/cpio.rs: its records, its hard links, its place in the tree.
-- `none` stands for an index out of range, where the code stops with a panic.
use lamfold.Prelude.{
  ℕ, zero, suc, ◌+◌, ◌%◌, Bool, true, false, ◌&&◌, ◌||◌, ltb, ◌==◌, if◌then◌else◌, Bytes, List, [],
  ◌∷◌, length, take, drop, slice?, bytes_eq, Option, none, some,
}
use lamfold.Prelude.TreeMap
use lamfold.Prelude.TreeMap.{TreeMap}
use lamfold.Prelude.Order.{bytes_ord}
use lamfold.Error.{Result, ok, err, corrupt, unsupported, ◌>>=◌, ◌>>◌, guard, ok_or}
use lamfold.Frontend.{FileKind, regular}
use lamfold.Utf8.{is_utf8}
use lamfold.Cpio.Record.{
  Record, file_type, file_kind, s_ifreg, newc_magic, crc_magic, trailer, parse_record,
}
use lamfold.Cpio.Tree.{Node, Span, insert}

-- `archive[name_off..name_off + name_len]`.
unfoldable pub name_of : Bytes → Record → Bytes
unfolding take drop
name_of archive r = take r.name.1 (drop r.name.0 archive)

-- The records up to the trailer and the offset behind it, on fuel: each record is behind the last.
unfoldable pub records_from : ℕ → Bytes → ℕ → Result (List Record × ℕ)
unfolding slice? bytes_eq parse_record name_of
records_from zero archive pos = err (corrupt "cpio_no_trailer")
records_from (suc fuel) archive pos = do
  magic ← ok_or (slice? archive pos 6) (corrupt "cpio_no_trailer")
  let crc = bytes_eq magic crc_magic
  guard (crc || bytes_eq magic newc_magic) (corrupt "cpio_bad_magic")
  (record_, next) ← parse_record archive pos crc
  elim (bytes_eq (name_of archive record_) trailer) [
    | true ↦ ok ([], next)
    | false ↦ do (records, end) ← records_from fuel archive next; ok (record_ ∷ records, end)
  ]

unfoldable pub has_links : Record → Bool
has_links r = file_type r.mode == s_ifreg && ltb 1 r.nlink

-- The data of every hard-linked file, by its inode: a later record's replaces an earlier one's.
unfoldable pub link_data : TreeMap (List ℕ) (ℕ × ℕ) → List Record → TreeMap (List ℕ) (ℕ × ℕ)
unfolding has_links TreeMap.insert
link_data linked [] = linked
link_data linked (r ∷ records) =
    link_data
      (if has_links r && ltb 0 r.data_.1 then TreeMap.insert r.inode r.data_ linked else linked)
      records

abbrev pub or_else : Option (ℕ × ℕ) → ℕ × ℕ → ℕ × ℕ
or_else (some a) b = a
or_else none b = b

abbrev pub is_regular : FileKind → Bool
is_regular regular = true
is_regular _ = false

-- Where a record's bytes are, its own or those of its hard link.
unfoldable pub data_of : TreeMap (List ℕ) (ℕ × ℕ) → Record → ℕ × ℕ
unfolding file_kind TreeMap.lookup
data_of linked r =
    if is_regular (file_kind r.mode) && ltb 1 r.nlink
    then or_else (TreeMap.lookup r.inode linked) r.data_
    else r.data_

abbrev pub span_of : ℕ → TreeMap (List ℕ) (ℕ × ℕ) → Record → Span
span_of idx linked r = record { buf = idx; off = (data_of linked r).0; len = (data_of linked r).1 }

unfoldable pub insert_records :
    Bytes → ℕ → TreeMap (List ℕ) (ℕ × ℕ) → List Node → List Record → Option (Result (List Node))
unfolding name_of is_utf8 file_kind insert data_of
insert_records archive idx linked nodes [] = some (ok nodes)
insert_records archive idx linked nodes (r ∷ records) = elim (is_utf8 (name_of archive r)) [
  | false ↦ some (err (unsupported "cpio_name_not_utf8"))
  | true ↦
      elim (insert nodes (name_of archive r) (file_kind r.mode) (r.mode % 4096)
        (span_of idx linked r)) [
          | none ↦ none
          | some nodes' ↦ insert_records archive idx linked nodes' records
        ]
]

-- The records' nodes, with the offset behind the archive.
abbrev pub with_end : ℕ → Option (Result (List Node)) → Option (Result (List Node × ℕ))
with_end end none = none
with_end end (some (err why)) = some (err why)
with_end end (some (ok nodes)) = some (ok (nodes, end))

unfoldable pub insert_newc_archive : Bytes → ℕ → List Node → ℕ → Option (Result (List Node × ℕ))
unfolding records_from link_data insert_records
insert_newc_archive archive idx nodes start =
    elim (records_from (length archive + 1) archive start) [
      | err why ↦ some (err why)
      | ok (records, end) ↦
          with_end end (insert_records archive idx (link_data [] records) nodes records)
    ]
