-- ===== src/Udf/Extents.antt =====
-- File content of crates/lamfold-udf/src/udf.rs: inline, or in extents of which some are not recorded.
use lamfold.Prelude.{
  ℕ, zero, suc, ◌+◌, ◌-◌, ◌*◌, ◌≤◌, ◌<◌, min, true, false, leb, leb→le, Bool-cases, inl, inr, Bytes,
  List, [], ◌∷◌, ◌++◌, length, take, drop, replicate, length-append, length-take, length-drop,
  take-append_le, drop-append_le, drop-append_add, Option, none, some, ◌≡◌, refl, sym, ap, ◌∙◌,
  arith,
}
use lamfold.Error.{ok, ◌>>=◌}
use lamfold.Source.{BlockSource}
use lamfold.Source.Pieces.{none_left, last_piece, piece_behind}
use lamfold.Source.Region.{Stands}
use lamfold.Udf.{Extent, FileData, inline, extents, UdfInode}
use lamfold.Udf.Volume.{read_extent, read_extents, read_inode}

-- Each extent with the bytes that it holds.
abbrev pub content : List (Extent × Bytes) → Bytes
content [] = []
content ((_, bytes) ∷ xs) = bytes ++ content xs

abbrev pub extents_of : List (Extent × Bytes) → List Extent
extents_of [] = []
extents_of ((e, _) ∷ xs) = e ∷ extents_of xs

drop-replicate : (w n : ℕ) → drop {A = ℕ} w (replicate n 0) ≡ replicate (n - w) 0
unfolding drop replicate
drop-replicate zero n = let e : n - 0 ≡ n = omega arith in rw e
drop-replicate (suc w) zero = let e : 0 - suc w ≡ 0 = omega arith in rw e
drop-replicate (suc w) (suc n) =
    let e : suc n - suc w ≡ n - w = omega arith in
    drop-replicate w n ∙ ap (λ k. replicate k 0) (sym e)

take-replicate : (k n : ℕ) → k ≤ n → take {A = ℕ} k (replicate n 0) ≡ replicate k 0
unfolding take replicate
take-replicate zero n le = refl
take-replicate (suc k) zero le = absurd (omega arith)
take-replicate (suc k) (suc n) le = ap (◌∷◌ 0) (take-replicate k n (omega arith))

module _ (src : BlockSource) (bs : ℕ) where
  abbrev pub HoldsAt : Option ℕ → ℕ → Bytes → Type 0
  HoldsAt none len bytes = bytes ≡ replicate len 0
  HoldsAt (some lba) len bytes = Stands src (lba * bs) bytes

  -- A recorded extent has its bytes in the source, another one has zeros.
  abbrev pub AreStored : List (Extent × Bytes) → Type 0
  AreStored [] = Unit
  AreStored ((e, bytes) ∷ xs) = (e.len ≡ length bytes) × HoldsAt e.lba e.len bytes × AreStored xs

  read_extent-HoldsAt :
      (lba : Option ℕ) (len intra n : ℕ) (bytes : Bytes)
      → len ≡ length bytes
      → HoldsAt lba len bytes
      → intra + n ≤ len
      → read_extent src bs (record { lba = lba; len = len }) intra n
        ≡ ok (take n (drop intra bytes))
  unfolding read_extent
  read_extent-HoldsAt none len intra n bytes e h le = ap ok (
      sym (
        ap (λ b. take n (drop intra b)) h
        ∙ ap (take n) (drop-replicate intra len)
        ∙ take-replicate n (len - intra) (omega arith)))
  read_extent-HoldsAt (some lba) len intra n bytes e h le = h intra n (omega arith)

  full :
      (off n pos : ℕ) (es : List Extent) (out : Bytes)
      → n ≤ length out
      → read_extents src bs off n es pos out ≡ ok out
  unfolding read_extents
  full off n pos [] out e = refl
  full off n pos (x ∷ es) out e =
      let done : leb n (length out) ≡ true = ground arith in rw (read_extents, done) refl

  turn_skip :
      (off n pos : ℕ) (e : Extent) (es : List Extent) (out : Bytes)
      → leb n (length out) ≡ false
      → leb (pos + e.len) (off + length out) ≡ true
      → read_extents src bs off n (e ∷ es) pos out ≡ read_extents src bs off n es (pos + e.len) out
  unfolding read_extents
  turn_skip off n pos e es out more past = rw (read_extents, more, past) refl

  turn_read :
      (off n pos : ℕ) (e : Extent) (es : List Extent) (out piece : Bytes)
      → leb n (length out) ≡ false
      → leb (pos + e.len) (off + length out) ≡ false
      → let intra = off + length out - pos in
        read_extent src bs e intra (min (e.len - intra) (n - length out)) ≡ ok piece
        → read_extents src bs off n (e ∷ es) pos out
          ≡ read_extents src bs off n es (pos + e.len) (out ++ piece)
  unfolding read_extents
  turn_read off n pos e es out piece more inside h = rw (read_extents, more, inside, h, ◌>>=◌) refl

module _ (src : BlockSource) (bs off n : ℕ) where
  -- With `pos` bytes of the file behind, and the cursor in what is left, the walk goes on with the bytes at
  -- the cursor.
  walk_extents :
      (xs : List (Extent × Bytes)) (pos : ℕ) (out : Bytes)
      → AreStored src bs xs
      → length out ≤ n
      → pos ≤ off + length out
      → off + n ≤ pos + length (content xs)
      → read_extents src bs off n (extents_of xs) pos out
        ≡ ok (out ++ take (n - length out) (drop (off + length out - pos) (content xs)))
  walk_extents [] pos out h le from to =
      full src bs off n pos [] out (omega arith)
      ∙ none_left n out (drop (off + length out - pos) []) (omega arith)
  walk_extents ((e, b) ∷ xs) pos out h le from to =
      let w = off + length out - pos in
      let len = e.len in
      let both = length-append b (content xs) in
      elim (Bool-cases (leb n (length out))) [
        | inl done ↦
            let all : length out ≡ n = ground arith in
            full src bs off n pos (extents_of ((e, b) ∷ xs)) out (omega arith)
            ∙ none_left n out (drop w (b ++ content xs)) all
        | inr more ↦ elim (Bool-cases (leb (pos + len) (off + length out))) [
          | inl past ↦
              let far = leb→le (pos + len) (off + length out) past in
              let cut =
                drop-append_add b (content xs) w (off + length out - (pos + len))
                  (omega (arith, h.0)) in
              turn_skip src bs off n pos e (extents_of xs) out more past
              ∙ rw cut (walk_extents xs (pos + len) out h.2 le far (omega (arith, h.0)))
          | inr inside ↦
              let near : off + length out < pos + len = ground arith in
              let unread : length out < n = ground arith in
              let k = min (len - w) (n - length out) in
              let read = read_extent-HoldsAt src bs e.lba len w k b h.0 h.1 (omega arith) in
              let piece = take k (drop w b) in
              let longer = length-append out piece in
              let got = length-take k (drop w b) in
              let there = length-drop w b in
              turn_read src bs off n pos e (extents_of xs) out piece more inside read
              ∙ elim (Bool-cases (leb (n - length out) (len - w))) [
                | inl ends ↦
                    let size : k ≡ n - length out = ground arith in
                    full src bs off n (pos + len) (extents_of xs) (out ++ piece)
                      (omega (arith, h.0))
                    ∙ ap ok (last_piece n w out b (content xs) k size (ground (arith, h.0)))
                | inr on ↦
                    let size : k ≡ length b - w = ground (arith, h.0) in
                    walk_extents xs (pos + len) (out ++ piece) h.2 (omega (arith, h.0))
                      (ground (arith, h.0)) (omega (arith, h.0))
                    ∙ ap ok (
                        piece_behind off n pos len out b (content xs) k h.0 from near (ground arith)
                          size)
              ]
        ]
      ]

-- The data of the inode is `bytes`.
pub data HasContent (src : BlockSource) (bs : ℕ) (bytes : Bytes) : FileData → Type 0 where
  inlined : HasContent src bs bytes (inline bytes)
  stored :
      (xs : List (Extent × Bytes)) (slack : Bytes)
      → AreStored src bs xs
      → content xs ≡ bytes ++ slack
      → HasContent src bs bytes (extents (extents_of xs))

module _ (src : BlockSource) (bs : ℕ) (inode : UdfInode) (bytes : Bytes) where
  read_inode_of :
      (d : FileData) (off want : ℕ)
      → inode.data_ ≡ d
      → HasContent src bs bytes d
      → inode.size ≡ length bytes
      → leb inode.size off ≡ false
      → read_inode src bs inode off want
        ≡ ok (take (min want (length bytes - off)) (drop off bytes))
  unfolding read_inode
  read_inode_of (inline b) off want e inlined size inside =
      let n = min want (length bytes - off) in
      let once : min n (length bytes - off) ≡ n = omega arith in
      rw (read_inode, inside, e, size, once) refl
  read_inode_of (extents ex) off want e (stored xs slack h whole) size inside =
      let n = min want (length bytes - off) in
      let here : off < length bytes = ground (arith, size) in
      let long = ap length whole ∙ length-append bytes slack in
      let walked = walk_extents src bs off n xs 0 [] h (omega arith) (omega arith) (omega arith) in
      let a : n - 0 ≡ n = omega arith in
      let b : off + 0 - 0 ≡ off = omega arith in
      let short : n ≤ length (drop off bytes) = omega (arith, length-drop off bytes) in
      let front = drop-append_le bytes slack off (omega arith) in
      let piece : ok (take (n - 0) (drop (off + 0 - 0) (content xs)))
          ≡ ok (take n (drop off bytes)) =
        rw (a, b, whole, front) (ap ok (take-append_le (drop off bytes) slack n short)) in
      rw (read_inode, inside, e, size) (walked ∙ piece)

  -- A file reads as its bytes, inline or in extents, of which those that are not recorded give zeros: from
  -- `off` on, as many as are wanted and there, none from the end on. The extents may go on behind the end.
  pub read_inode-HasContent :
      (off want : ℕ)
      → HasContent src bs bytes inode.data_
      → inode.size ≡ length bytes
      → read_inode src bs inode off want
        ≡ ok (take (min want (length bytes - off)) (drop off bytes))
  unfolding read_inode take
  read_inode-HasContent off want h size = elim (Bool-cases (leb inode.size off)) [
    | inl past ↦
        let z : min want (length bytes - off) ≡ 0 = ground (arith, size) in
        rw (read_inode, past, z) refl
    | inr inside ↦ read_inode_of inode.data_ off want refl h size inside
  ]
