-- ===== src/Cpio/Fits.antt =====
-- The records of crates/lamfold-cpio/src/cpio.rs lie in their archive, and so do the spans of their
-- nodes.
use lamfold.Prelude.{
  ℕ, zero, suc, ◌+◌, ◌-◌, ◌≤◌, ◌<◌, Bool, true, not, ◌&&◌, ◌||◌, ltb, leb, ◌==◌, if◌then◌else◌,
  Bytes, List, [], ◌∷◌, length, get_elem?, slice?, take, drop, bytes_eq, ◌≡◌, arith, inl, inr,
  subst,
}
use lamfold.Prelude.TreeMap.{TreeMap}
use lamfold.Prelude.Order.{bytes_ord}
use lamfold.Error.{ok, corrupt, guard, ok_or, bind-eq-ok, guard-eq-ok, ok-injective, if-eq-ok}
use lamfold.Source.{usize_end}
use lamfold.Cpio.Record.{
  Record, Fields, align4, max_name, newc_header, is_nul, byte_sum, file_type, s_ifreg, crc_magic,
  newc_magic, trailer, read_fields, place_record, parse_record,
}
use lamfold.Cpio.Archive.{name_of, records_from}

-- An offset and a length within `size` bytes.
abbrev pub Fit : ℕ → ℕ × ℕ → Type 0
Fit size (off, len) = off + len ≤ size

abbrev pub AllFit : ℕ → List Record → Type 0
AllFit size [] = Unit
AllFit size (r ∷ records) = Fit size r.data_ × AllFit size records

abbrev pub LinksFit : ℕ → TreeMap (List ℕ) (ℕ × ℕ) → Type 0
LinksFit size [] = Unit
LinksFit size ((k, d) ∷ m) = Fit size d × LinksFit size m

-- A record that is read has its data in the archive, and the next one stands behind it.
abbrev pub Placed : Bytes → ℕ → Record × ℕ → Type 0
Placed archive start (r, next) = Fit (length archive) r.data_ × (start < next)

within : (a b c : ℕ) → (ltb a b && leb a c) ≡ true → a ≤ c
within a b c h = ground (arith, h)

place_record-Placed :
    (archive : Bytes) (start : ℕ) (crc : Bool) (f : Fields) {res : Record × ℕ}
    → place_record archive start crc f ≡ ok res
    → Placed archive start res
unfolding place_record align4
place_record-Placed archive start crc f h =
    let name_start = start + newc_header in
    let data_start = align4 (name_start + f.namesize) in
    let data_end = data_start + f.filesize in
    let (_, _, h1) =
      bind-eq-ok
        (guard (not (f.namesize == 0) && leb f.namesize max_name) (corrupt "cpio_bad_namesize")) _
        h in
    let (_, _, h2) =
      bind-eq-ok
        (guard (is_nul (get_elem? archive (name_start + f.namesize - 1))) (corrupt "cpio_bad_name"))
        _ h1 in
    let (_, inside, h3) =
      bind-eq-ok
        (guard (ltb data_end usize_end && leb data_end (length archive))
          (corrupt "cpio_short_data"))
        _ h2 in
    let (_, _, h4) =
      bind-eq-ok
        (guard
          (if crc && file_type f.mode == s_ifreg
            then byte_sum 0 (take f.filesize (drop data_start archive)) == f.check
            else true)
          (corrupt "cpio_bad_crc"))
        _ h3 in
    let fits =
      within _ _ _
        (guard-eq-ok (ltb data_end usize_end && leb data_end (length archive)) _ inside) in
    subst (Placed archive start) (ok-injective h4) (fits, omega arith)

pub parse_record-Placed :
    (archive : Bytes) (start : ℕ) (crc : Bool) {res : Record × ℕ}
    → parse_record archive start crc ≡ ok res
    → Placed archive start res
unfolding parse_record
parse_record-Placed archive start crc h =
    let (f, _, h1) = bind-eq-ok (read_fields archive start) _ h in
    place_record-Placed archive start crc f h1

abbrev pub Listed : Bytes → ℕ → List Record × ℕ → Type 0
Listed archive start (records, end) = AllFit (length archive) records × (start < end)

pub records_from-Listed :
    (fuel : ℕ) (archive : Bytes) (pos : ℕ) {res : List Record × ℕ}
    → records_from fuel archive pos ≡ ok res
    → Listed archive pos res
unfolding records_from
records_from-Listed zero archive pos h = absurd (cc)
records_from-Listed (suc fuel) archive pos h =
    let (magic, _, h1) =
      bind-eq-ok (ok_or (slice? archive pos 6) (corrupt "cpio_no_trailer")) _ h in
    let crc = bytes_eq magic crc_magic in
    let (_, _, h2) =
      bind-eq-ok (guard (crc || bytes_eq magic newc_magic) (corrupt "cpio_bad_magic")) _ h1 in
    let ((r, next), parsed, h3) = bind-eq-ok (parse_record archive pos crc) _ h2 in
    let (fits, behind) = parse_record-Placed archive pos crc parsed in
    elim (if-eq-ok (bytes_eq (name_of archive r) trailer) _ _ h3) [
      | inl (_, last) ↦ subst (Listed archive pos) (ok-injective last) (tt, behind)
      | inr (_, h4) ↦
          let ((records, end), rest, last) = bind-eq-ok (records_from fuel archive next) _ h4 in
          let (all, after) = records_from-Listed fuel archive next rest in
          subst (Listed archive pos) (ok-injective last) ((fits, all), omega (arith, behind, after))
    ]
