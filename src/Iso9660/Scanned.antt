-- ===== src/Iso9660/Scanned.antt =====
-- The scan of a directory of crates/lamfold-iso/src/iso9660.rs, on a volume without Rock Ridge, against what
-- the directory holds.
use lamfold.Prelude.{
  ℕ, ◌+◌, ◌*◌, ◌%◌, ◌^◌, ◌≤◌, ◌<◌, false, Bytes, List, [], ◌∷◌, ◌++◌, length, append-nil,
  append_assoc, none, some, ◌≡◌, refl, sym, ap, ◌∙◌, length-append, arith,
}
use lamfold.Error.{Result, ok, ◌>>=◌}
use lamfold.ReadCap.{max_boot_file_bytes, checked_full_read_len}
use lamfold.ReadCap.Bounds.{checked_full_read_len_iff}
use lamfold.Source.{BlockSource, usize_end}
use lamfold.Iso9660.{Inode, Reading, read_dir_extent}
use lamfold.Iso9660.Ends.{scan_over}
use lamfold.Iso9660.Held.{
  inode_of, total, with_extents, goes_on, Named, Reaches, Later, last_record, one_more, Holds,
  ended, dot, whole, in_parts,
}
use lamfold.Iso9660.Records.{
  max_extents, flag_multi_extent, is_dot, with_extent, Scan, put, first_fi, entries_of,
}
use lamfold.Iso9660.Written.{
  RawRecord, FitsRecord, record_length, HasRecord, ends_inside, first_fi_written,
}
use lamfold.Iso9660.Turns.{
  scan, reach, scan_over_record, record_dot, record_new, record_later, new_entry-Named,
  add_extent_same,
}

with_extents-cons :
    (lba size : ℕ) (xs : List (ℕ × ℕ)) (inode : Inode)
    → with_extents xs (with_extent lba size inode) ≡ with_extents ((lba, size) ∷ xs) inode
with_extents-cons lba size xs inode =
    let e = append_assoc inode.extents ((lba, size) ∷ []) xs in
    let n : inode.size + size + total xs ≡ inode.size + (size + total xs) = omega arith in
    rw (e, n) refl

with_extents-one :
    (lba size : ℕ) (inode : Inode)
    → with_extent lba size inode ≡ with_extents ((lba, size) ∷ []) inode
with_extents-one lba size inode =
    let n : inode.size + (size + 0) ≡ inode.size + size = omega arith in rw n refl

module _ (src : BlockSource) (v : Reading) (dir_lba : ℕ) (buf : Bytes) where
  -- The later records of a file end it.
  scan-Later :
      {identifier : Bytes} {p e : ℕ} {xs : List (ℕ × ℕ)} (name : Bytes) (inode : Inode)
      (out : List (Bytes × Inode))
      → 1 ≤ v.block_size
      → is_dot identifier ≡ false
      → first_fi buf inode.key.1 ≡ ok identifier
      → length inode.extents + length xs ≤ max_extents
      → Later v dir_lba buf identifier p xs e
      → scan src v dir_lba buf p (some (name, inode), out)
        ≡ scan src v dir_lba buf e (none, out ++ (name, with_extents xs inode) ∷ [])
  scan-Later name inode out sized d first room (last_record p q r on h fits same file end) =
      let added =
        add_extent_same src v dir_lba buf q r h fits name inode out file (first ∙ ap ok (sym same))
          (omega (arith, room)) in
      let whole' = with_extents-one r.lba r.size inode in
      reach src v dir_lba buf (some (name, inode), out) sized on
      ∙ scan_over_record src v dir_lba buf q r (some (name, inode), out)
          (put (flag_multi_extent r.flags) (name, with_extent r.lba r.size inode) out) h
          (record_later src v dir_lba buf q r h fits (name, inode) out
            (put (flag_multi_extent r.flags) (name, with_extent r.lba r.size inode) out)
            (ap is_dot same ∙ d) added)
      ∙ rw (end, whole') refl
  scan-Later name inode out sized d first room
        (one_more p q e r xs on h fits same file more later) =
      let added =
        add_extent_same src v dir_lba buf q r h fits name inode out file (first ∙ ap ok (sym same))
          (omega (arith, room)) in
      let next = with_extent r.lba r.size inode in
      let grown = length-append inode.extents ((r.lba, r.size) ∷ []) in
      reach src v dir_lba buf (some (name, inode), out) sized on
      ∙ scan_over_record src v dir_lba buf q r (some (name, inode), out)
          (put (flag_multi_extent r.flags) (name, next) out) h
          (record_later src v dir_lba buf q r h fits (name, inode) out
            (put (flag_multi_extent r.flags) (name, next) out) (ap is_dot same ∙ d) added)
      ∙ ap (λ b. scan src v dir_lba buf (q + record_length r) (put b (name, next) out)) more
      ∙ scan-Later name next out sized d first (omega (arith, room, grown)) later
      ∙ ap (λ i. scan src v dir_lba buf e (none, out ++ (name, i) ∷ []))
          (with_extents-cons r.lba r.size xs inode)

module _ (src : BlockSource) (v : Reading) (dir_lba : ℕ) (buf : Bytes) where
  abbrev walk : ℕ → Scan → Result Scan
  walk p s = scan src v dir_lba buf p s

  scan_new :
      {p q : ℕ} (r : RawRecord) (name : Bytes) (out : List (Bytes × Inode))
      → 1 ≤ v.block_size
      → v.rock_ridge ≡ false
      → Reaches v dir_lba buf p q
      → HasRecord buf q r
      → FitsRecord r
      → is_dot r.identifier ≡ false
      → Named v r name
      → walk p (none, out)
        ≡ walk (q + record_length r) (put (goes_on r) (name, inode_of dir_lba q r) out)
  scan_new {q = q} r name out sized plain on h fits d named =
      let e : Bytes × Inode = (name, inode_of dir_lba q r) in
      reach src v dir_lba buf (none, out) sized on
      ∙ scan_over_record src v dir_lba buf q r (none, out) (put (goes_on r) e out) h
          (record_new src v dir_lba buf q r h fits e out d
            (new_entry-Named src v dir_lba buf q r h fits name plain named))

  scan-Holds :
      {p : ℕ} {es : List (Bytes × Inode)} (out : List (Bytes × Inode))
      → 1 ≤ v.block_size
      → v.rock_ridge ≡ false
      → length buf < 2 ^ 32
      → Holds v dir_lba buf p es
      → walk p (none, out) ≡ ok (none, out ++ es)
  scan-Holds out sized plain small (ended p q on over) =
      reach src v dir_lba buf (none, out) sized on
      ∙ scan_over src v dir_lba buf (length buf) q (none, out) (ground (arith, over))
      ∙ ap (λ l. ok (none, l)) (sym (append-nil out))
  scan-Holds out sized plain small (dot p q r es on h fits d rest) =
      reach src v dir_lba buf (none, out) sized on
      ∙ scan_over_record src v dir_lba buf q r (none, out) (none, out) h
          (record_dot src v dir_lba buf q r h fits (none, out) d)
      ∙ scan-Holds out sized plain small rest
  scan-Holds out sized plain small (whole p q r name es on h fits d named end rest) =
      let e : Bytes × Inode = (name, inode_of dir_lba q r) in
      scan_new r name out sized plain on h fits d named
      ∙ ap (λ b. walk (q + record_length r) (put b e out)) end
      ∙ scan-Holds (out ++ e ∷ []) sized plain small rest
      ∙ ap (λ l. ok (none, l)) (append_assoc out (e ∷ []) es)
  scan-Holds out sized plain small
        (in_parts p q k r name xs es on h fits d named more later room rest) =
      let inode = inode_of dir_lba q r in
      let e : Bytes × Inode = (name, with_extents xs inode) in
      let here : q % 2 ^ 32 ≡ q = omega (arith, ends_inside buf q r h, small) in
      scan_new r name out sized plain on h fits d named
      ∙ ap (λ b. walk (q + record_length r) (put b (name, inode) out)) more
      ∙ scan-Later src v dir_lba buf name inode out sized d
          (ap (λ n. first_fi buf n) here ∙ first_fi_written buf q r h fits) (omega (arith, room))
          later
      ∙ scan-Holds (out ++ e ∷ []) sized plain small rest
      ∙ ap (λ l. ok (none, l)) (append_assoc out (e ∷ []) es)

module _ (src : BlockSource) (v : Reading) (dir : Inode) (buf : Bytes) where
  fetched :
      dir.size ≤ max_boot_file_bytes
      → src.read_at (dir.lba * v.block_size) dir.size ≡ ok buf
      → read_dir_extent src v.block_size dir ≡ ok buf
  unfolding read_dir_extent
  fetched capped read =
      let cap : checked_full_read_len usize_end dir.size ≡ ok dir.size =
        (checked_full_read_len_iff usize_end dir.size (omega arith)).1 capped in
      rw (read_dir_extent, cap, ◌>>=◌) read

  -- On a volume without Rock Ridge a directory of up to the read cap reads as the entries that it holds, in
  -- order, over the padding at the ends of blocks and without "." and "..": each with its name decoded, the
  -- place of its first record, and the extents of all its records.
  pub entries_of-Holds :
      (es : List (Bytes × Inode))
      → 1 ≤ v.block_size
      → v.rock_ridge ≡ false
      → dir.size ≡ length buf
      → dir.size ≤ max_boot_file_bytes
      → src.read_at (dir.lba * v.block_size) dir.size ≡ ok buf
      → Holds v dir.lba buf 0 es
      → entries_of src v dir ≡ ok es
  unfolding entries_of
  entries_of-Holds es sized plain size capped read holds =
      let done : walk src v dir.lba buf 0 (none, []) ≡ ok (none, es) =
        scan-Holds src v dir.lba buf [] sized plain (omega (arith, size, capped)) holds in
      rw (entries_of, fetched capped read, ◌>>=◌, done) refl
