-- ===== src/Iso9660/Turns.antt =====
-- The turns of the scan of crates/lamfold-iso/src/iso9660.rs over the records that are written out: padding,
-- ".", and the first and the later records of a file.
use native.Mathlib.Nat.{div-add-mod', mod-lt}
use lamfold.Prelude.{
  ℕ, suc, ◌+◌, ◌-◌, ◌*◌, ◌/◌, ◌%◌, ◌^◌, ◌≤◌, ◌<◌, true, false, ltb, Bytes, List, length, get_or,
  bytes_eq_refl, none, some, ◌≡◌, refl, ap, ◌∙◌, arith,
}
use lamfold.Error.{Result, ok, ◌>>=◌, ◌>>◌}
use lamfold.Source.{BlockSource}
use lamfold.Iso9660.{Inode, Reading}
use lamfold.Iso9660.Ends.{scan_padding, scan_next, scan_from_fuel}
use lamfold.Iso9660.Held.{inode_of, goes_on, Named, Reaches, at_once, padded}
use lamfold.Iso9660.Records.{
  max_extents, flag_directory, flag_multi_extent, is_dot, with_extent, new_entry, apply_rock_ridge,
  Scan, put, add_extent, first_fi, scan_record, scan_from,
}
use lamfold.Iso9660.Written.{
  RawRecord, FitsRecord, record_length, image, HasRecord, has_lba, has_size, has_flags,
  file_id_written, has_length, ends_inside, record_at_written,
}

block_after : (p size : ℕ) → 1 ≤ size → p < (p / size + 1) * size
block_after p size h = omega (arith, div-add-mod' p size, mod-lt p {m = size} h)

module _ (src : BlockSource) (v : Reading) (dir_lba : ℕ) (buf : Bytes) where
  -- The loop with a turn for each byte.
  abbrev pub scan : ℕ → Scan → Result Scan
  scan pos s = scan_from src v dir_lba buf (length buf) pos s

  scan_over_padding :
      (p : ℕ) (s : Scan)
      → 1 ≤ v.block_size
      → p < length buf
      → get_or buf p 0 ≡ 0
      → scan p s ≡ scan ((p / v.block_size + 1) * v.block_size) s
  scan_over_padding p s sized inside z =
      let next = (p / v.block_size + 1) * v.block_size in
      let far = block_after p v.block_size sized in
      let t = length buf - 1 in
      let turns : length buf ≡ suc t = omega arith in
      ap (λ n. scan_from src v dir_lba buf n p s) turns
      ∙ scan_padding src v dir_lba buf t p s (ground arith) (ground arith) (ground arith)
      ∙ scan_from_fuel src v dir_lba buf t (length buf) next s (omega arith) (omega arith)

  pub reach :
      {p q : ℕ} (s : Scan) → 1 ≤ v.block_size → Reaches v dir_lba buf p q → scan p s ≡ scan q s
  reach s sized (at_once p) = refl
  reach s sized (padded p q inside z on) = scan_over_padding p s sized inside z ∙ reach s sized on

  -- A record that the scan takes in.
  pub scan_over_record :
      (q : ℕ) (r : RawRecord) (s s' : Scan)
      → HasRecord buf q r
      → scan_record src v dir_lba buf q (record_length r) s ≡ ok s'
      → scan q s ≡ scan (q + record_length r) s'
  scan_over_record q r s s' h e =
      let t = length buf - 1 in
      let inside = ends_inside buf q r h in
      let turns : length buf ≡ suc t = omega (arith, inside) in
      let len = has_length buf q r h in
      ap (λ n. scan_from src v dir_lba buf n q s) turns
      ∙ scan_next src v dir_lba buf t q s s' (ground (arith, inside)) (ground (arith, len))
          (ap (λ n. scan_record src v dir_lba buf q n s) len ∙ e)
      ∙ ap (λ n. scan_from src v dir_lba buf t (q + n) s') len
      ∙ scan_from_fuel src v dir_lba buf t (length buf) (q + record_length r) s'
          (omega (arith, inside)) (omega arith)

  module _ (q : ℕ) (r : RawRecord) (h : HasRecord buf q r) (fits : FitsRecord r) where
    pub record_dot :
        (s : Scan)
        → is_dot r.identifier ≡ true
        → scan_record src v dir_lba buf q (record_length r) s ≡ ok s
    unfolding scan_record
    record_dot s d =
        rw (scan_record, record_at_written buf q r h, ◌>>=◌, file_id_written r fits, d) refl

    pub record_new :
        (e : Bytes × Inode) (out : List (Bytes × Inode))
        → is_dot r.identifier ≡ false
        → new_entry src v
            (dir_lba, q % 2 ^ 32)
            (image r)
            r.identifier
            (flag_directory r.flags)
            r.lba
            r.size
          ≡ ok e
        → scan_record src v dir_lba buf q (record_length r) (none, out) ≡ ok (put (goes_on r) e out)
    unfolding scan_record
    record_new e out d made =
        rw
          (
            scan_record,
            record_at_written buf q r h,
            ◌>>=◌,
            file_id_written r fits,
            d,
            has_flags r fits,
            has_lba r fits,
            has_size r fits,
            made,
          )
          refl

    pub record_later :
        (e : Bytes × Inode) (out : List (Bytes × Inode)) (s' : Scan)
        → is_dot r.identifier ≡ false
        → add_extent buf r.identifier
            (flag_directory r.flags)
            (flag_multi_extent r.flags)
            r.lba
            r.size
            e
            out
          ≡ ok s'
        → scan_record src v dir_lba buf q (record_length r) (some e, out) ≡ ok s'
    unfolding scan_record
    record_later e out s' d made =
        rw
          (
            scan_record,
            record_at_written buf q r h,
            ◌>>=◌,
            file_id_written r fits,
            d,
            has_flags r fits,
            has_lba r fits,
            has_size r fits,
            made,
          )
          refl

    pub new_entry-Named :
        (name : Bytes)
        → v.rock_ridge ≡ false
        → Named v r name
        → new_entry src v
            (dir_lba, q % 2 ^ 32)
            (image r)
            r.identifier
            (flag_directory r.flags)
            r.lba
            r.size
          ≡ ok (name, inode_of dir_lba q r)
    unfolding new_entry apply_rock_ridge
    new_entry-Named name plain named = rw (new_entry, named, ◌>>=◌, apply_rock_ridge, plain) refl

    pub add_extent_same :
        (name : Bytes) (inode : Inode) (out : List (Bytes × Inode))
        → flag_directory r.flags ≡ false
        → first_fi buf inode.key.1 ≡ ok r.identifier
        → length inode.extents < max_extents
        → add_extent buf r.identifier
            (flag_directory r.flags)
            (flag_multi_extent r.flags)
            r.lba
            r.size
            (name, inode)
            out
          ≡ ok (put (flag_multi_extent r.flags) (name, with_extent r.lba r.size inode) out)
    unfolding add_extent
    add_extent_same name inode out file first room =
        let fits' : ltb (length inode.extents) max_extents ≡ true = ground (arith, room) in
        rw (add_extent, file, first, ◌>>=◌, ◌>>◌, bytes_eq_refl r.identifier, fits') refl
