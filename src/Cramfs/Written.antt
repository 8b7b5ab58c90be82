-- ===== src/Cramfs/Written.antt =====
-- A directory of crates/lamfold-cramfs/src/cramfs.rs as a writer of the format lays it out: inode and
-- padded name, one record behind the other.
use lamfold.Prelude.{
  ℕ, zero, suc, ◌+◌, ◌*◌, true, Bytes, List, [], ◌∷◌, ◌++◌, length, length-append, length-replicate,
  append-nil, replicate, take-append, position, position-append, Avoids, none, ◌≡◌, refl, sym, ap,
  ◌∙◌, arith,
}
use lamfold.Error.{ok, ◌>>=◌}
use lamfold.Frontend.{NodeId, DirEntry}
use lamfold.Source.{BlockSource}
use lamfold.Source.Region.{Stands, Stands-whole, Stands-front, Stands-behind}
use lamfold.Utf8.{from_utf8_lossy}
use lamfold.Cramfs.{CrInode, kind, is_directory_kind, unpad, parse_inode, read_entry, read_dir}
use lamfold.Cramfs.Layout.{RawInode, Fits, image_of, read_as, length-image_of, inode_of-image_of}
use lamfold.Cramfs.Listing.{Records, last, next, lists, read_dir-ListsDir}

pub record RawEntry : Type 0 where
  pub raw : RawInode
  pub name : Bytes
  pub pad : ℕ

pub record FitsEntry (e : RawEntry) : Type 0 where
  pub inode_fits : Fits e.raw
  pub no_nul : Avoids 0 e.name
  pub padded : length e.name + e.pad ≡ e.raw.name_words * 4

abbrev pub padded_name : RawEntry → Bytes
padded_name e = e.name ++ replicate e.pad 0

abbrev pub entry_bytes : RawEntry → Bytes
entry_bytes e = image_of e.raw ++ padded_name e

abbrev pub dir_bytes : List RawEntry → Bytes
dir_bytes [] = []
dir_bytes (e ∷ es) = entry_bytes e ++ dir_bytes es

abbrev pub FitsAll : List RawEntry → Type 0
FitsAll [] = Unit
FitsAll (e ∷ es) = FitsEntry e × FitsAll es

abbrev pub entry_at : NodeId → RawEntry → DirEntry
entry_at p e = record { name = from_utf8_lossy e.name; node = p; kind = kind e.raw.mode }

-- What the reader lists, with the records from `p` on.
abbrev pub listed : NodeId → List RawEntry → List DirEntry
listed p [] = []
listed p (e ∷ es) = entry_at p e ∷ listed (p + (12 + e.raw.name_words * 4)) es

position-none : (bs : Bytes) → Avoids 0 bs → position 0 bs ≡ none
unfolding position
position-none [] h = refl
position-none (b ∷ bs) h = rw (h.0, position-none bs h.1) refl

unpad_clean : (name : Bytes) → Avoids 0 name → unpad name ≡ name
unfolding unpad
unpad_clean name h = rw (unpad, position-none name h) refl

-- A name with its padding is cut back to the name.
unpad_lem : (name : Bytes) (pad : ℕ) → Avoids 0 name → unpad (name ++ replicate pad 0) ≡ name
unfolding unpad replicate
unpad_lem name zero h = ap unpad (append-nil name) ∙ unpad_clean name h
unpad_lem name (suc pad) h =
    rw (unpad, position-append 0 name (replicate pad 0) h)
      (take-append name (0 ∷ replicate pad 0) (length name) refl)

length-padded_name : (e : RawEntry) → FitsEntry e → length (padded_name e) ≡ e.raw.name_words * 4
length-padded_name e f =
    length-append e.name (replicate e.pad 0)
    ∙ ap (λ n. length e.name + n) (length-replicate {A = ℕ} e.pad 0)
    ∙ f.padded

length-entry_bytes :
    (e : RawEntry) → FitsEntry e → length (entry_bytes e) ≡ 12 + e.raw.name_words * 4
length-entry_bytes e f = omega (
  arith,
  length-append (image_of e.raw) (padded_name e),
  length-image_of e.raw,
  length-padded_name e f,
)

module _ (src : BlockSource) where
  -- An inode that stands at `p` is read back.
  pub parse_inode-Stands :
      (p : NodeId) (r : RawInode)
      → Fits r
      → Stands src p (image_of r)
      → parse_inode src p ≡ ok (read_as r)
  unfolding parse_inode
  parse_inode-Stands p r f h =
      rw (Stands-whole src p 12 (image_of r) (sym (length-image_of r)) h)
        (ap ok (inode_of-image_of r f))

  read_entry_written :
      (p : NodeId) (e : RawEntry)
      → FitsEntry e
      → Stands src p (entry_bytes e)
      → read_entry src p ≡ ok (entry_at p e, p + (12 + e.raw.name_words * 4))
  unfolding read_entry
  read_entry_written p e f h =
      let inode =
        parse_inode-Stands p e.raw f.inode_fits
          (Stands-front src p (image_of e.raw) (padded_name e) h) in
      let behind =
        Stands-behind src p (p + 12) (image_of e.raw) (padded_name e)
          (omega (arith, length-image_of e.raw)) h in
      let name =
        Stands-whole src (p + 12) (e.raw.name_words * 4) (padded_name e)
          (sym (length-padded_name e f)) behind in
      rw (inode, ◌>>=◌, name, unpad_lem e.name e.pad f.no_nul) refl

  written-Records :
      (end p : NodeId) (es : List RawEntry)
      → FitsAll es
      → end ≡ p + length (dir_bytes es)
      → Stands src p (dir_bytes es)
      → Records src end p (listed p es)
  written-Records end p [] f e h = last (ground arith)
  written-Records end p (x ∷ es) f e h =
      let q = p + (12 + x.raw.name_words * 4) in
      let len = length-entry_bytes x f.0 in
      let both = length-append (entry_bytes x) (dir_bytes es) in
      let behind = Stands-behind src p q (entry_bytes x) (dir_bytes es) (omega arith) h in
      let front = Stands-front src p (entry_bytes x) (dir_bytes es) h in
      next (ground arith) (read_entry_written p x f.0 front)
        (written-Records end q es f.1 (omega arith) behind)

  -- A directory written out in the source is listed: its entries in order, each with the name before
  -- the padding, the kind of its mode and the place of its record as its node.
  pub read_dir_written :
      (node : NodeId) (inode : CrInode) (es : List RawEntry)
      → parse_inode src node ≡ ok inode
      → is_directory_kind (kind inode.mode) ≡ true
      → inode.size ≡ length (dir_bytes es)
      → Stands src inode.data_off (dir_bytes es)
      → FitsAll es
      → read_dir src node ≡ ok (listed inode.data_off es)
  read_dir_written node inode es at dir size h f =
      (read_dir-ListsDir src node (listed inode.data_off es)).1 (
        lists inode at dir (
          written-Records (inode.data_off + inode.size) inode.data_off es f
            (ap (λ n. inode.data_off + n) size) h))
