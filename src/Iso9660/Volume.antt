-- ===== src/Iso9660/Volume.antt =====
-- The methods of crates/lamfold-iso/src/iso9660.rs. A method is a function of the state, which only `lookup`
-- and `read_dir` change, by `intern`.
use lamfold.Prelude.{
  ℕ, ◌+◌, ◌-◌, ◌*◌, min, Bool, true, false, not, leb, ltb, ◌==◌, if◌then◌else◌, Bytes, List, [],
  ◌∷◌, ◌++◌, length, bytes_eq, Option, none, some,
}
use lamfold.Codec.{Codecs}
use lamfold.Error.{Result, ok, err, unsupported, not_directory, is_directory, ◌>>=◌, ◌>>◌, guard}
use lamfold.Exec.{Exec}
use lamfold.Frontend.{NodeId, FileKind, directory, Metadata, DirEntry, FoldFrontend}
use lamfold.Source.{BlockSource}
use lamfold.Iso9660.{Inode, Iso, intern, inode_at, reading}
use lamfold.Iso9660.Compressed.{read_zisofs}
use lamfold.Iso9660.Records.{entries_of}

abbrev pub is_dir_kind : FileKind → Bool
is_dir_kind directory = true
is_dir_kind _ = false

module _ (src : BlockSource) where
  -- The entries of a directory node.
  unfoldable pub dir_entries : Iso → NodeId → Result (List (Bytes × Inode))
  unfolding inode_at
  dir_entries v dir = do
    inode ← inode_at v dir
    guard (is_dir_kind inode.kind) not_directory
    entries_of src (reading v) inode

  -- The walk over the extents: `start` is the file offset of the first one left.
  unfoldable pub read_extents : ℕ → ℕ → ℕ → List (ℕ × ℕ) → ℕ → Bytes → Result Bytes
  read_extents bs off n [] start out = ok out
  read_extents bs off n ((lba, len) ∷ rest) start out =
      let pos = off + length out in
      elim (length out == n) [
        | true ↦ ok out
        | false ↦ elim (ltb pos (start + len)) [
          | false ↦ read_extents bs off n rest (start + len) out
          | true ↦ do
            let within = pos - start
            piece ← src.read_at (lba * bs + within) (min (n - length out) (len - within))
            read_extents bs off n rest (start + len) (out ++ piece)
        ]
      ]

-- The first entry with this name.
unfoldable pub find_entry : Bytes → List (Bytes × Inode) → Option Inode
unfolding bytes_eq
find_entry name [] = none
find_entry name ((n, inode) ∷ es) = if bytes_eq n name then some inode else find_entry name es

-- The loop of `read_dir` over what it has collected.
unfoldable pub intern_all : List (Bytes × Inode) → Iso → List DirEntry × Iso
unfolding intern
intern_all [] v = ([], v)
intern_all ((name, inode) ∷ es) v =
    let (node, w) = intern inode v in
    let (rest, last) = intern_all es w in
    (record { name = name; node = node; kind = inode.kind } ∷ rest, last)

-- A method that interns what it has found, or fails and changes nothing.
abbrev pub then_intern : {A B : Type 0} → Result A → (A → Iso → B × Iso) → Exec Iso B
then_intern (ok a) f v = (ok (f a v).0, (f a v).1)
then_intern (err why) f v = (err why, v)

abbrev pub intern_found : Option Inode → Iso → Option NodeId × Iso
intern_found none v = (none, v)
intern_found (some inode) v = (some (intern inode v).0, (intern inode v).1)

module _ (src : BlockSource) where
  unfoldable pub lookup : NodeId → Bytes → Exec Iso (Option NodeId)
  unfolding dir_entries find_entry
  lookup dir name v =
      then_intern (dir_entries src v dir) (λ es w. intern_found (find_entry name es) w) v

  unfoldable pub read_dir : NodeId → Exec Iso (List DirEntry)
  unfolding dir_entries intern_all
  read_dir dir v = then_intern (dir_entries src v dir) intern_all v

  -- What `read_at` reads of a file that is not compressed.
  unfoldable pub read_plain : ℕ → Inode → ℕ → ℕ → Result Bytes
  unfolding read_extents
  read_plain block_size inode off want = elim (leb inode.size off) [
    | true ↦ ok []
    | false ↦ read_extents src block_size off (min want (inode.size - off)) inode.extents 0 []
  ]

unfoldable pub metadata_at : Iso → NodeId → Result Metadata
unfolding inode_at
metadata_at v node = do
  inode ← inode_at v node
  ok (record {
    kind = inode.kind;
    size = elim inode.zisofs [ none ↦ inode.size | some z ↦ z.uncompressed_size ];
    mode = 0;
  })

unfoldable pub read_link : Iso → NodeId → Result (Option Bytes)
unfolding inode_at
read_link v node = do inode ← inode_at v node; ok inode.link_target

-- `zisofs` is the feature of that name.
module _ (zisofs : Bool) (codecs : Codecs) (src : BlockSource) where
  unfoldable pub read_inode : ℕ → Inode → ℕ → ℕ → Result Bytes
  unfolding read_zisofs read_plain
  read_inode block_size inode off want = elim inode.zisofs [
    | none ↦ read_plain src block_size inode off want
    | some zi ↦ elim zisofs [
      | true ↦ read_zisofs codecs src block_size inode zi off want
      | false ↦ err (unsupported "zisofs-compressed file: enable the `zisofs` feature")
    ]
  ]

  unfoldable pub read_at : Iso → NodeId → ℕ → ℕ → Result Bytes
  unfolding inode_at read_inode
  read_at v node off want = do
    inode ← inode_at v node
    guard (not (is_dir_kind inode.kind)) is_directory
    read_inode v.block_size inode off want

  -- The mounted volume: its root is node 0.
  abbrev pub frontend : FoldFrontend Iso
  frontend = record {
    root = λ v. 0;
    lookup = lookup src;
    read_dir = read_dir src;
    metadata = λ node v. (metadata_at v node, v);
    read_at = λ node off want v. (read_at v node off want, v);
    read_link = λ node v. (read_link v node, v);
  }
