-- ===== src/Cramfs/Pages.antt =====
-- File content of crates/lamfold-cramfs/src/cramfs.rs: an index of end offsets, and the pages behind it.
use lamfold.Prelude.{
  length-le32_bytes, ℕ, suc, ◌+◌, ◌-◌, ◌*◌, ◌/◌, ◌^◌, ◌≤◌, ◌<◌, min, leb, true, false, ◌==◌,
  Bool-cases, inl, inr, Bytes, List, [], ◌∷◌, ◌++◌, length, length-append, append_assoc, append-nil,
  take, drop, take_of_length-le, replicate, length-replicate, drop-append_add, le32_bytes,
  le32-le32_bytes, ◌≡◌, refl, sym, ap, ◌∙◌, arith,
}
use lamfold.Codec.{Codecs, zlib, decode}
use lamfold.Error.{ok, ◌>>=◌}
use lamfold.ReadCap.{checked_full_read_len}
use lamfold.Source.{BlockSource, usize_end}
use lamfold.Cramfs.{CrInode, page, ptr, read_page, read_pages, read_whole}

-- A page of a file: a hole of zeros, or compressed bytes with what they hold.
pub data Page : Type 0 where
  hole : ℕ → Page
  packed : Bytes → Bytes → Page

abbrev pub stored : Page → Bytes
stored (hole n) = []
stored (packed comp bytes) = comp

abbrev pub plain : Page → Bytes
plain (hole n) = replicate n 0
plain (packed comp bytes) = bytes

abbrev pub content : List Page → Bytes
content [] = []
content (p ∷ ps) = plain p ++ content ps

-- The index: where the stored bytes of each page end.
abbrev pub index : ℕ → List Page → Bytes
index start [] = []
index start (p ∷ ps) =
    le32_bytes (start + length (stored p)) ++ index (start + length (stored p)) ps

module _ (codecs : Codecs) (src : BlockSource) where
  -- The page is found at `start`, and decodes to what it holds.
  abbrev pub IsPage : ℕ → Page → Type 0
  IsPage start (hole n) = Unit
  IsPage start (packed comp bytes) =
      (1 ≤ length comp)
      × (src.read_at start (length comp) ≡ ok comp)
      × (decode codecs zlib comp (length bytes) ≡ ok bytes)

  -- The pages from `start` on follow each other below 4 GiB, and hold a page of the `total` bytes each,
  -- the last one what is left; `done` bytes stand before them.
  abbrev pub IsPages : ℕ → ℕ → ℕ → List Page → Type 0
  IsPages total start done [] = Unit
  IsPages total start done (p ∷ ps) =
      (length (plain p) ≡ min page (total - done))
      × (start + length (stored p) < 2 ^ 32)
      × IsPage start p
      × IsPages total (start + length (stored p)) (done + length (plain p)) ps

  read_page-IsPage :
      (start want : ℕ) (p : Page)
      → want ≡ length (plain p)
      → IsPage start p
      → read_page codecs src start (start + length (stored p)) want ≡ ok (plain p)
  unfolding read_page
  read_page-IsPage start want (hole n) e h =
      let none_ : leb (start + 0) start ≡ true = ground arith in
      rw (none_, read_page) (ap (λ k. ok (replicate k 0)) (e ∙ length-replicate {A = ℕ} n 0))
  read_page-IsPage start want (packed comp bytes) e h =
      let some_ : leb (start + length comp) start ≡ false = ground arith in
      let n : start + length comp - start ≡ length comp = omega arith in
      rw (some_, read_page, n, h.1, ◌>>=◌, e) h.2

  read_pages_step :
      (idx : Bytes) (total left i start end : ℕ) (out bytes : Bytes)
      → ptr idx i ≡ end
      → read_page codecs src start end (min page (total - length out)) ≡ ok bytes
      → read_pages codecs src idx total (suc left) i start out
        ≡ read_pages codecs src idx total left (suc i) end (out ++ bytes)
  unfolding read_pages
  read_pages_step idx total left i start end out bytes e h = rw (read_pages, e, h, ◌>>=◌)

  -- The entry of the index behind `before`.
  ptr_index :
      (before rest : Bytes) (i end : ℕ)
      → length before ≡ i * 4
      → end < 2 ^ 32
      → ptr (before ++ (le32_bytes end ++ rest)) i ≡ end
  unfolding ptr drop
  ptr_index before rest i end at small =
      rw (drop-append_add before (le32_bytes end ++ rest) (i * 4) 0 (omega arith))
        (le32-le32_bytes end rest small)

  read_pages-IsPages :
      (before : Bytes) (total i start : ℕ) (out : Bytes) (ps : List Page)
      → length before ≡ i * 4
      → IsPages total start (length out) ps
      → read_pages codecs src (before ++ index start ps) total (length ps) i start out
        ≡ ok (out ++ content ps)
  unfolding read_pages
  read_pages-IsPages before total i start out [] at h = ap ok (sym (append-nil out))
  read_pages-IsPages before total i start out (p ∷ ps) at h =
      let end = start + length (stored p) in
      let next_index = index end ps in
      let idx = before ++ index start (p ∷ ps) in
      let bytes = read_page-IsPage start (min page (total - length out)) p (sym h.0) h.2 in
      let ends = ptr_index before next_index i end at h.1 in
      let longer : length (before ++ le32_bytes end) ≡ suc i * 4 =
        omega (arith, length-append before (le32_bytes end), length-le32_bytes end) in
      let rest =
        read_pages-IsPages (before ++ le32_bytes end) total (suc i) end (out ++ plain p) ps longer
          (rw (length-append out (plain p)) h.3) in
      read_pages_step idx total (length ps) i start end out (plain p) ends bytes
      ∙ ap (λ b. read_pages codecs src b total (length ps) (suc i) end (out ++ plain p))
          (sym (append_assoc before (le32_bytes end) next_index))
      ∙ rest
      ∙ ap ok (append_assoc out (plain p) (content ps))

  -- How far the pages reach.
  length-content :
      (total start done : ℕ) (ps : List Page)
      → done ≤ total
      → IsPages total start done ps
      → done + length (content ps) ≡ min total (done + page * length ps)
  length-content total start done [] le h = omega arith
  length-content total start done (p ∷ ps) le h = omega (
    arith,
    h.0,
    length-append (plain p) (content ps),
    length-content total (start + length (stored p)) (done + length (plain p)) ps
        (omega (arith, h.0)) h.3,
  )

  -- The data of the inode is `bytes`: its index stands in the source, one entry to a page, and the pages
  -- of the index behind it.
  pub record IsContent (inode : CrInode) (bytes : Bytes) : Type 0 where
    pub pages : List Page
    pub is_content : content pages ≡ bytes
    pub page_count : length pages ≡ (inode.size + (page - 1)) / page
    pub index_read :
        src.read_at inode.data_off (length pages * 4)
        ≡ ok (index (inode.data_off + length pages * 4) pages)
    pub are_pages : IsPages inode.size (inode.data_off + length pages * 4) 0 pages
    pub size_fits : inode.size < 2 ^ 24

  pub length-IsContent :
      (inode : CrInode) (bytes : Bytes) → IsContent inode bytes → length bytes ≡ inode.size
  length-IsContent inode bytes c =
      let all =
        length-content inode.size (inode.data_off + length c.pages * 4) 0 c.pages (omega arith)
          c.are_pages in
      let count = c.page_count in ap length (sym c.is_content) ∙ omega arith

  read_whole_some :
      (inode : CrInode) (idx out : Bytes) (n : ℕ)
      → (inode.size == 0) ≡ false
      → checked_full_read_len usize_end inode.size ≡ ok inode.size
      → (inode.size + (page - 1)) / page ≡ n
      → src.read_at inode.data_off (n * 4) ≡ ok idx
      → read_pages codecs src idx inode.size n 0 (inode.data_off + n * 4) [] ≡ ok out
      → read_whole codecs src inode ≡ ok (take inode.size out)
  unfolding read_whole
  read_whole_some inode idx out n nz cap count at run = rw (cap, ◌>>=◌, nz, count, at, run) refl

  read_whole_empty : (inode : CrInode) → inode.size ≡ 0 → read_whole codecs src inode ≡ ok []
  unfolding read_whole checked_full_read_len
  read_whole_empty inode z = rw (read_whole, z) refl

  checked_size : (size : ℕ) → size < 2 ^ 24 → checked_full_read_len usize_end size ≡ ok size
  unfolding checked_full_read_len
  checked_size size small = ground arith

  -- The whole data of an inode is read page by page: each hole as zeros, and each other page as what
  -- its stored bytes decode to.
  pub read_whole-IsContent :
      (inode : CrInode) (bytes : Bytes)
      → IsContent inode bytes
      → read_whole codecs src inode ≡ ok bytes
  unfolding take
  read_whole-IsContent inode bytes c = elim (Bool-cases (inode.size == 0)) [
    | inl z ↦
        let none_ : length bytes ≡ 0 = ground (arith, length-IsContent inode bytes c) in
        read_whole_empty inode (ground arith) ∙ ap ok (take_of_length-le 0 bytes (omega arith))
    | inr nz ↦
        let n = length c.pages in
        let start = inode.data_off + n * 4 in
        let run =
          read_pages-IsPages [] inode.size 0 start [] c.pages refl c.are_pages
          ∙ ap ok c.is_content in
        read_whole_some inode (index start c.pages) bytes n nz (checked_size inode.size c.size_fits)
          (sym c.page_count) c.index_read run
        ∙ ap ok (take_of_length-le inode.size bytes (omega (arith, length-IsContent inode bytes c)))
  ]
