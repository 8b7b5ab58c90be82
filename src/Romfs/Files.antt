-- ===== src/Romfs/Files.antt =====
-- File content of crates/lamfold-romfs/src/romfs.rs, up to reading it by path.
use lamfold.Prelude.{
  ℕ, ◌+◌, ◌-◌, ◌≤◌, ◌<◌, min, true, false, ◌==◌, leb, Bytes, length, take, drop, Bool-cases, inl,
  inr, ◌≡◌, sym, ap, ◌∙◌, arith, [], ◌++◌, ◌^◌, length-append, take-drop_inside,
}
use lamfold.Error.{ok}
use lamfold.Path.{is_dir, resolve, read_path}
use lamfold.Path.Pure.{of_view}
use lamfold.Path.Read.{Holds, read_path-content}
use lamfold.ReadCap.{max_boot_file_bytes}
use lamfold.Romfs.{Header, ft_directory, kind, resolved_header, metadata, read_at, volume}
use lamfold.Source.{BlockSource, slice_source, slice_read_at-eq_ok}

-- The bytes of the file with header `h` lie in the source.
pub record Stored (src : BlockSource) (h : Header) (content : Bytes) : Type 0 where
  pub size_is : h.size ≡ length content
  pub region :
      (off n : ℕ)
      → off + n ≤ length content
      → src.read_at (h.data_off + off) n ≡ ok (take n (drop off content))

-- In an image a file is stored where its bytes stand.
pub Stored-slice :
    (before content after : Bytes) (h : Header)
    → h.size ≡ length content
    → h.data_off ≡ length before
    → length (before ++ (content ++ after)) ≤ 2 ^ 63
    → Stored (slice_source (before ++ (content ++ after))) h content
Stored-slice before content after h size at small =
    let l1 = length-append before (content ++ after) in
    let l2 = length-append content after in
    record {
      size_is = size;
      region = λ off n le.
          slice_read_at-eq_ok (before ++ (content ++ after)) (h.data_off + off) n (omega arith)
            small
          ∙ ap ok (take-drop_inside before content after off n (h.data_off + off) (omega arith) le);
    }

-- `node` resolves to the header `h` of a file that is no directory, and its bytes are `content`.
pub record IsFile (src : BlockSource) (node : ℕ) (h : Header) (content : Bytes) : Type 0 where
  pub target : ℕ
  pub resolved : resolved_header src node ≡ ok (target, h)
  pub not_dir : (h.ftype == ft_directory) ≡ false
  pub stored : Stored src h content

module _ (src : BlockSource) (node : ℕ) (h : Header) (content : Bytes)
    (f : IsFile src node h content) where
  read_at_end : (off want : ℕ) → leb h.size off ≡ true → read_at src node off want ≡ ok []
  unfolding read_at
  read_at_end off want e = rw (f.resolved, f.not_dir, e)

  read_at_inside :
      (off want : ℕ)
      → leb h.size off ≡ false
      → read_at src node off want ≡ src.read_at (h.data_off + off) (min want (h.size - off))
  unfolding read_at
  read_at_inside off want e = rw (f.resolved, f.not_dir, e)

  take_none :
      (off want : ℕ)
      → length content ≤ off
      → take (min want (length content - off)) (drop off content) ≡ []
  unfolding take
  take_none off want le = let z : min want (length content - off) ≡ 0 = omega arith in rw z

  -- A read gives the bytes from `off` on, as many as are wanted and there: none from the end on.
  pub read_at-IsFile :
      (off want : ℕ)
      → read_at src node off want ≡ ok (take (min want (length content - off)) (drop off content))
  read_at-IsFile off want = elim (Bool-cases (leb h.size off)) [
    | inl past ↦
        let past' : length content ≤ off = ground (arith, f.stored.size_is) in
        read_at_end off want past ∙ ap ok (sym (take_none off want past'))
    | inr inside ↦
        let here : off < length content = ground (arith, f.stored.size_is) in
        read_at_inside off want inside
        ∙ rw f.stored.size_is (f.stored.region off (min want (length content - off)) (omega arith))
  ]

  metadata-IsFile : metadata src node ≡ ok (record { kind = kind h.ftype; size = h.size; mode = 0 })
  unfolding metadata
  metadata-IsFile = rw f.resolved

  not_dir_kind : is_dir (kind h.ftype) ≡ false
  not_dir_kind = ground (arith, f.not_dir)

  volume-Holds : (first_hdr : ℕ) → Holds (volume src first_hdr) node content
  volume-Holds first_hdr = record {
    md = record { kind = kind h.ftype; size = h.size; mode = 0 };
    has_md = metadata-IsFile;
    not_dir = not_dir_kind;
    size_is = f.stored.size_is;
    count = λ off want. min want (length content - off);
    count_pos = λ off want inside pos. omega arith;
    count_want = λ off want. omega arith;
    count_fits = λ off want inside. omega arith;
    reads = λ off want inside. read_at-IsFile off want;
  }

  -- A file of a mounted volume, up to the read cap, reads by path as its content.
  pub read_path-IsFile :
      (first_hdr : ℕ) (path : Bytes)
      → (resolve (of_view (volume src first_hdr)) path tt).0 ≡ ok node
      → length content ≤ max_boot_file_bytes
      → (read_path (of_view (volume src first_hdr)) path tt).0 ≡ ok content
  read_path-IsFile first_hdr path found small =
      read_path-content (volume src first_hdr) node content (volume-Holds first_hdr) path found
        small
