-- ===== src/Iso9660/Extents.antt =====
-- Files of several extents, for `read_at` of crates/lamfold-iso/src/iso9660.rs.
use lamfold.Prelude.{
  ℕ, ◌+◌, ◌-◌, ◌*◌, ◌≤◌, ◌<◌, min, true, false, ltb, ltb→lt, leb, leb→le, ◌==◌, ==→eq, Bool-cases,
  inl, inr, Bytes, List, [], ◌∷◌, ◌++◌, length, take, drop, length-append, length-take, length-drop,
  append_assoc, drop-append_add, take_of_length-le, ◌≡◌, refl, sym, ap, ◌∙◌, arith,
}
use lamfold.Error.{ok, ◌>>=◌}
use lamfold.Source.{BlockSource}
use lamfold.Source.Pieces.{take_behind, none_left, last_piece}
use lamfold.Source.Region.{Stands}
use lamfold.Iso9660.{Inode}
use lamfold.Iso9660.Volume.{read_extents, read_plain}

-- Each extent with the bytes that it holds.
abbrev pub content : List ((ℕ × ℕ) × Bytes) → Bytes
content [] = []
content ((_, bytes) ∷ xs) = bytes ++ content xs

abbrev pub extents : List ((ℕ × ℕ) × Bytes) → List (ℕ × ℕ)
extents [] = []
extents ((extent, _) ∷ xs) = extent ∷ extents xs

module _ (src : BlockSource) (bs : ℕ) where
  -- The bytes stand in the source where their extents say.
  abbrev pub AreStored : List ((ℕ × ℕ) × Bytes) → Type 0
  AreStored [] = Unit
  AreStored (((lba, len), bytes) ∷ xs) =
      (len ≡ length bytes) × Stands src (lba * bs) bytes × AreStored xs

  full :
      (off n start : ℕ) (es : List (ℕ × ℕ)) (out : Bytes)
      → length out ≡ n
      → read_extents src bs off n es start out ≡ ok out
  unfolding read_extents
  full off n start [] out e = refl
  full off n start ((lba, len) ∷ es) out e =
      let done : (length out == n) ≡ true = ground arith in rw (read_extents, done) refl

  turn_skip :
      (off n start lba len : ℕ) (es : List (ℕ × ℕ)) (out : Bytes)
      → (length out == n) ≡ false
      → ltb (off + length out) (start + len) ≡ false
      → read_extents src bs off n ((lba, len) ∷ es) start out
        ≡ read_extents src bs off n es (start + len) out
  unfolding read_extents
  turn_skip off n start lba len es out more past = rw (read_extents, more, past) refl

  turn_read :
      (off n start lba len : ℕ) (es : List (ℕ × ℕ)) (out piece : Bytes)
      → (length out == n) ≡ false
      → ltb (off + length out) (start + len) ≡ true
      → let within = off + length out - start in
        src.read_at (lba * bs + within) (min (n - length out) (len - within)) ≡ ok piece
        → read_extents src bs off n ((lba, len) ∷ es) start out
          ≡ read_extents src bs off n es (start + len) (out ++ piece)
  unfolding read_extents
  turn_read off n start lba len es out piece more inside h =
      rw (read_extents, more, inside, h, ◌>>=◌) refl

module _ (src : BlockSource) (bs off n : ℕ) where
  -- With `start` bytes of the file behind, and the cursor in what is left, the walk goes on with the bytes
  -- at the cursor.
  abbrev Walks : List ((ℕ × ℕ) × Bytes) → ℕ → Bytes → Type 0
  Walks xs start out =
      read_extents src bs off n (extents xs) start out
      ≡ ok (out ++ take (n - length out) (drop (off + length out - start) (content xs)))

  -- The read ends in this extent.
  last_extent :
      (lba len start : ℕ) (b : Bytes) (xs : List ((ℕ × ℕ) × Bytes)) (out : Bytes)
      → len ≡ length b
      → Stands src (lba * bs) b
      → length out < n
      → start ≤ off + length out
      → off + n ≤ start + len
      → Walks (((lba, len), b) ∷ xs) start out
  last_extent lba len start b xs out e at le from to =
      let w = off + length out - start in
      let k = n - length out in
      let more : (length out == n) ≡ false = ground arith in
      let inside : ltb (off + length out) (start + len) ≡ true = ground arith in
      let size : min k (len - w) ≡ k = omega arith in
      let read = ap (src.read_at (lba * bs + w)) size ∙ at w k (omega arith) in
      let short : k ≤ length (drop w b) = omega (arith, length-drop w b) in
      let longer = length-append out (take k (drop w b)) in
      let got = length-take k (drop w b) in
      turn_read src bs off n start lba len (extents xs) out (take k (drop w b)) more inside read
      ∙ full src bs off n (start + len) (extents xs) (out ++ take k (drop w b)) (omega arith)
      ∙ ap ok (last_piece n w out b (content xs) k refl (omega arith))

  -- What is behind an extent that the read passes over.
  rest_behind :
      (start len : ℕ) (out b rest : Bytes)
      → len ≡ length b
      → start ≤ off + length out
      → off + length out < start + len
      → start + len ≤ off + n
      → let d = drop (off + length out - start) b in
        (out ++ d)
          ++ take (n - length (out ++ d)) (drop (off + length (out ++ d) - (start + len)) rest)
        ≡ out ++ take (n - length out) (drop (off + length out - start) (b ++ rest))
  unfolding drop
  rest_behind start len out b rest e from near far =
      let w = off + length out - start in
      let k = n - length out - (length b - w) in
      let longer = length-append out (drop w b) in
      let got = length-drop w b in
      let left : n - length (out ++ drop w b) ≡ k = omega arith in
      let first : off + length (out ++ drop w b) - (start + len) ≡ 0 = omega arith in
      rw (left, first)
        (append_assoc out (drop w b) (take k rest)
          ∙ ap (λ t. out ++ t)
              (sym (take_behind b rest w (n - length out) (omega arith) (omega arith))))

  walk_extents :
      (xs : List ((ℕ × ℕ) × Bytes)) (start : ℕ) (out : Bytes)
      → AreStored src bs xs
      → length out ≤ n
      → start ≤ off + length out
      → off + n ≤ start + length (content xs)
      → Walks xs start out
  walk_extents [] start out h le from to =
      full src bs off n start [] out (omega arith)
      ∙ none_left n out (drop (off + length out - start) []) (omega arith)
  walk_extents (((lba, len), b) ∷ xs) start out h le from to =
      let w = off + length out - start in
      let both = length-append b (content xs) in
      elim (Bool-cases (length out == n)) [
        | inl done ↦
            let all = ==→eq (length out) n done in
            full src bs off n start (extents (((lba, len), b) ∷ xs)) out all
            ∙ none_left n out (drop w (b ++ content xs)) all
        | inr more ↦ elim (Bool-cases (ltb (off + length out) (start + len))) [
          | inr past ↦
              let m = off + length out - (start + len) in
              let far : start + len ≤ off + length out = ground arith in
              let cut = drop-append_add b (content xs) w m (omega (arith, h.0)) in
              turn_skip src bs off n start lba len (extents xs) out more past
              ∙ rw cut (walk_extents xs (start + len) out h.2 le far (omega (arith, h.0)))
          | inl inside ↦ elim (Bool-cases (leb (off + n) (start + len))) [
            | inl ends ↦
                last_extent lba len start b xs out h.0 h.1 (ground arith) from (leb→le _ _ ends)
            | inr on ↦
                let k = len - w in
                let near : off + length out < start + len = ltb→lt _ _ inside in
                let far : start + len < off + n = ground arith in
                let size : min (n - length out) (len - w) ≡ k = omega arith in
                let whole = take_of_length-le k (drop w b) (omega (arith, length-drop w b, h.0)) in
                let read =
                  ap (src.read_at (lba * bs + w)) size
                  ∙ h.1 w k (omega (arith, h.0))
                  ∙ ap ok whole in
                let longer = length-append out (drop w b) in
                let got = length-drop w b in
                let next =
                  walk_extents xs (start + len) (out ++ drop w b) h.2 (omega (arith, h.0))
                    (omega (arith, h.0)) (omega (arith, h.0)) in
                turn_read src bs off n start lba len (extents xs) out (drop w b) more inside read
                ∙ next
                ∙ ap ok (rest_behind start len out b (content xs) h.0 from near (omega arith))
          ]
        ]
      ]

-- A file that is not compressed, in one extent or in several, reads as the bytes of its extents one behind
-- the other: from `off` on, as many as are wanted and there, none from the end on.
pub read_plain-extents :
    (src : BlockSource) (block_size : ℕ) (inode : Inode) (xs : List ((ℕ × ℕ) × Bytes))
    (off want : ℕ)
    → inode.extents ≡ extents xs
    → inode.size ≡ length (content xs)
    → AreStored src block_size xs
    → read_plain src block_size inode off want
      ≡ ok (take (min want (length (content xs) - off)) (drop off (content xs)))
unfolding read_plain take
read_plain-extents src block_size inode xs off want ext size h =
    let n = min want (length (content xs) - off) in
    elim (Bool-cases (leb inode.size off)) [
      | inl past ↦ let z : n ≡ 0 = ground (arith, size) in rw (read_plain, past, z) refl
      | inr inside ↦
          let walked =
            walk_extents src block_size off n xs 0 [] h (omega arith) (omega arith)
              (ground (arith, size)) in
          let whole : n - 0 ≡ n = omega arith in
          let start : off + 0 - 0 ≡ off = omega arith in
          let same : ok (take (n - 0) (drop (off + 0 - 0) (content xs)))
              ≡ ok (take n (drop off (content xs))) =
            rw (whole, start) refl in
          rw (read_plain, inside, ext, size) (walked ∙ same)
    ]
