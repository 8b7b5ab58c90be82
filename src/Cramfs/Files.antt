-- ===== src/Cramfs/Files.antt =====
-- Files and symlinks of crates/lamfold-cramfs/src/cramfs.rs, up to reading a file by path.
use lamfold.Prelude.{
  ℕ, ◌-◌, ◌%◌, ◌≤◌, min, true, false, leb, Bytes, [], length, take, drop, Bool-cases, inl, inr,
  some, none, ◌≡◌, refl, sym, ap, ◌∙◌, arith,
}
use lamfold.Codec.{Codecs}
use lamfold.Error.{ok, ◌>>=◌}
use lamfold.Frontend.{FileKind, regular, directory, symlink, other}
use lamfold.Path.{is_dir, resolve, read_path}
use lamfold.Path.Pure.{of_view}
use lamfold.Path.Read.{Holds, read_path-content}
use lamfold.ReadCap.{max_boot_file_bytes}
use lamfold.Source.{BlockSource}
use lamfold.Cramfs.{
  CrInode, kind, is_directory_kind, is_symlink_kind, parse_inode, metadata, read_whole, read_at,
  read_link, volume,
}
use lamfold.Cramfs.Pages.{IsContent, length-IsContent, read_whole-IsContent}

-- `node` has the inode of a file that is no directory, and its data is `bytes`.
pub record IsFile (codecs : Codecs) (src : BlockSource) (node : ℕ) (inode : CrInode) (bytes : Bytes)
    : Type 0 where
  pub at : parse_inode src node ≡ ok inode
  pub not_dir : is_directory_kind (kind inode.mode) ≡ false
  pub has_content : IsContent codecs src inode bytes

is_dir-kind : (k : FileKind) → is_directory_kind k ≡ false → is_dir k ≡ false
is_dir-kind regular h = refl
is_dir-kind directory h = absurd (cc)
is_dir-kind symlink h = refl
is_dir-kind other h = refl

module _ (codecs : Codecs) (src : BlockSource) (node : ℕ) (inode : CrInode) (bytes : Bytes)
    (f : IsFile codecs src node inode bytes) where
  read_at_end :
      (off want : ℕ) → leb inode.size off ≡ true → read_at codecs src node off want ≡ ok []
  unfolding read_at
  read_at_end off want e = rw (read_at, f.at, ◌>>=◌, f.not_dir, e) refl

  read_at_inside :
      (off want : ℕ) (data_ : Bytes)
      → leb inode.size off ≡ false
      → read_whole codecs src inode ≡ ok data_
      → read_at codecs src node off want
        ≡ ok (take (min want (length data_ - off)) (drop off data_))
  unfolding read_at
  read_at_inside off want data_ e w = rw (read_at, f.at, ◌>>=◌, f.not_dir, e, w) refl

  take_none :
      (off want : ℕ)
      → length bytes ≤ off
      → take (min want (length bytes - off)) (drop off bytes) ≡ []
  unfolding take
  take_none off want le = let z : min want (length bytes - off) ≡ 0 = omega arith in rw z

  -- A read gives the bytes from `off` on, as many as are wanted and there: none from the end on.
  pub read_at-IsFile :
      (off want : ℕ)
      → read_at codecs src node off want
        ≡ ok (take (min want (length bytes - off)) (drop off bytes))
  read_at-IsFile off want =
      let size = length-IsContent codecs src inode bytes f.has_content in
      elim (Bool-cases (leb inode.size off)) [
        | inl past ↦
            let past' : length bytes ≤ off = ground (arith, size) in
            read_at_end off want past ∙ ap ok (sym (take_none off want past'))
        | inr inside ↦
            read_at_inside off want bytes inside
              (read_whole-IsContent codecs src inode bytes f.has_content)
      ]

  metadata-IsFile :
      metadata src node
      ≡ ok (record { kind = kind inode.mode; size = inode.size; mode = inode.mode % 4096 })
  unfolding metadata
  metadata-IsFile = rw (metadata, f.at) refl

  -- The target of a symlink is its whole data; another file has none.
  pub read_link-IsFile :
      read_link codecs src node
      ≡ ok (elim (is_symlink_kind (kind inode.mode)) [ true ↦ some bytes | false ↦ none ])
  unfolding read_link
  read_link-IsFile = elim (Bool-cases (is_symlink_kind (kind inode.mode))) [
    | inl link ↦
        let whole = read_whole-IsContent codecs src inode bytes f.has_content in
        rw (read_link, f.at, ◌>>=◌, link, whole) refl
    | inr plain_ ↦ rw (read_link, f.at, ◌>>=◌, plain_) refl
  ]

  volume-Holds : Holds (volume codecs src) node bytes
  volume-Holds = record {
    md = record { kind = kind inode.mode; size = inode.size; mode = inode.mode % 4096 };
    has_md = metadata-IsFile;
    not_dir = is_dir-kind (kind inode.mode) f.not_dir;
    size_is = sym (length-IsContent codecs src inode bytes f.has_content);
    count = λ off want. min want (length bytes - off);
    count_pos = λ off want inside pos. omega arith;
    count_want = λ off want. omega arith;
    count_fits = λ off want inside. omega arith;
    reads = λ off want inside. read_at-IsFile off want;
  }

  -- A file of a cramfs volume reads by path as its content: the pages of its index decompressed, in
  -- order, with zeros for holes.
  pub cramfs_read_path :
      (path : Bytes)
      → (resolve (of_view (volume codecs src)) path tt).0 ≡ ok node
      → (read_path (of_view (volume codecs src)) path tt).0 ≡ ok bytes
  cramfs_read_path path found =
      let small : length bytes ≤ max_boot_file_bytes =
        omega
          (arith, f.has_content.size_fits, length-IsContent codecs src inode bytes f.has_content) in
      read_path-content (volume codecs src) node bytes volume-Holds path found small
