-- ===== src/Cpio/Layout.antt =====
-- The newc layout that crates/lamfold-cpio/src/cpio.rs reads, written out, and read back.
use lamfold.Prelude.{
  ℕ, zero, suc, ◌+◌, ◌*◌, ◌-◌, ◌/◌, ◌^◌, ◌≤◌, ◌<◌, Bool, true, not, ◌&&◌, ltb, leb, ◌==◌,
  if◌then◌else◌, Bytes, List, [], ◌∷◌, ◌++◌, length, length-append, append_assoc, get_elem?, take,
  drop, drop-append, take-append, some, ◌≡◌, arith, Bool-cases, ==→eq, ==_refl, inl, inr, refl,
}
use lamfold.Error.{ok}
use lamfold.Source.{usize_end}
use lamfold.Cpio.Record.{
  Record, Fields, align4, hex_field, byte_sum, file_type, s_ifreg, read_fields, place_record,
  parse_record,
}
use lamfold.Cpio.Hex.{hex_bytes, length-hex_bytes, hex_field-hex_bytes}

-- A record as the format has it: the numbers of its header, but for the two lengths.
pub record RawRecord : Type 0 where
  pub ino : ℕ
  pub mode : ℕ
  pub uid : ℕ
  pub gid : ℕ
  pub nlink : ℕ
  pub mtime : ℕ
  pub devmajor : ℕ
  pub devminor : ℕ
  pub rdevmajor : ℕ
  pub rdevminor : ℕ
  pub check : ℕ
  pub name : Bytes
  pub content : Bytes

abbrev pub numbers : RawRecord → List ℕ
numbers r =
    r.ino
    ∷ r.mode
    ∷ r.uid
    ∷ r.gid
    ∷ r.nlink
    ∷ r.mtime
    ∷ (length r.content)
    ∷ r.devmajor
    ∷ r.devminor
    ∷ r.rdevmajor
    ∷ r.rdevminor
    ∷ (length r.name + 1)
    ∷ r.check
    ∷ []

-- The record behind `magic`, with the padding of its name.
unfoldable pub image_of : Bytes → RawRecord → Bytes → Bytes
unfolding hex_bytes
image_of magic r pad = magic ++ (hex_bytes (numbers r) ++ (r.name ++ (0 ∷ (pad ++ r.content))))

-- The record's place in an archive, cut before its name's NUL and before its content.
module _ (before magic : Bytes) (r : RawRecord) (pad after : Bytes) where
  abbrev pub archive : Bytes
  archive = before ++ (image_of magic r pad ++ after)

  abbrev to_name : Bytes
  to_name = before ++ (magic ++ (hex_bytes (numbers r) ++ r.name))

  abbrev to_content : Bytes
  to_content = before ++ (magic ++ (hex_bytes (numbers r) ++ (r.name ++ (0 ∷ pad))))

  at_fields :
      archive
      ≡ before
        ++ (magic ++ (hex_bytes (numbers r) ++ (r.name ++ (0 ∷ (pad ++ (r.content ++ after))))))
  unfolding image_of
  at_fields = simp append_assoc

  at_name : archive ≡ to_name ++ (0 ∷ (pad ++ (r.content ++ after)))
  unfolding image_of
  at_name = simp append_assoc

  at_content : archive ≡ to_content ++ (r.content ++ after)
  unfolding image_of
  at_content = simp append_assoc

ends_within : (a b c : ℕ) → a < b → a ≤ c → (ltb a b && leb a c) ≡ true
ends_within a b c p q = ground (arith, p, q)

get_elem?-append_here :
    (xs : Bytes) (x : ℕ) (ys : Bytes) (n : ℕ) → n ≡ length xs → get_elem? (xs ++ x ∷ ys) n ≡ some x
unfolding get_elem?
get_elem?-append_here [] x ys zero e = refl
get_elem?-append_here [] x ys (suc n) e = absurd (omega arith)
get_elem?-append_here (y ∷ xs) x ys zero e = absurd (omega arith)
get_elem?-append_here (y ∷ xs) x ys (suc n) e = get_elem?-append_here xs x ys n (omega arith)

abbrev pub AllSmall : List ℕ → Type 0
AllSmall [] = Unit
AllSmall (n ∷ ns) = (n < 2 ^ 32) × AllSmall ns

-- The record fits its format at the end of `before`: 32-bit numbers, a name within the limit, the
-- padding up to the next multiple of four, and in the CRC format a file's byte sum.
pub record Fits (before magic : Bytes) (r : RawRecord) (pad after : Bytes) (crc : Bool)
    : Type 0 where
  pub magic_six : length magic ≡ 6
  pub small : AllSmall (numbers r)
  pub name_fits : length r.name < 4096
  pub padded :
      align4 (length before + 110 + (length r.name + 1))
      ≡ length before + 110 + (length r.name + 1) + length pad
  pub bounded : length (before ++ (image_of magic r pad ++ after)) < usize_end
  pub checked : crc ≡ true → file_type r.mode ≡ s_ifreg → byte_sum 0 r.content ≡ r.check

-- What `parse_record` makes of it.
abbrev pub read_as : Bytes → RawRecord → Bytes → Record × ℕ
read_as before r pad =
    let name_start = length before + 110 in
    let data_start = name_start + (length r.name + 1) + length pad in
    (
      record {
        name = (name_start, length r.name);
        mode = r.mode;
        inode = r.devmajor ∷ r.devminor ∷ r.ino ∷ [];
        nlink = r.nlink;
        data_ = (data_start, length r.content);
      },
      align4 (data_start + length r.content),
    )

abbrev fields_of : RawRecord → Fields
fields_of r = record {
  ino = r.ino;
  mode = r.mode;
  nlink = r.nlink;
  filesize = length r.content;
  devmajor = r.devmajor;
  devminor = r.devminor;
  namesize = length r.name + 1;
  check = r.check;
}

module _ (before magic : Bytes) (r : RawRecord) (pad after : Bytes) (crc : Bool)
    (f : Fits before magic r pad after crc) where
  field_at :
      (i n : ℕ)
      → get_elem? (numbers r) i ≡ some n
      → n < 2 ^ 32
      → hex_field (archive before magic r pad after) (length before) i ≡ ok n
  field_at i n found small = rw (at_fields before magic r pad after) (
      hex_field-hex_bytes before magic (numbers r) _ (length before) i n refl f.magic_six found
        small)

  read_fields-image_of :
      read_fields (archive before magic r pad after) (length before) ≡ ok (fields_of r)
  unfolding read_fields get_elem?
  read_fields-image_of =
      let (
        ino,
        (
          mode,
          (
            _,
            (_, (nlink, (_, (filesize, (devmajor, (devminor, (_, (_, (namesize, (check, _)))))))))),
          ),
        ),
      ) =
        f.small in
      rw
        (
          field_at 0 r.ino refl ino,
          field_at 1 r.mode refl mode,
          field_at 4 r.nlink refl nlink,
          field_at 6 (length r.content) refl filesize,
          field_at 7 r.devmajor refl devmajor,
          field_at 8 r.devminor refl devminor,
          field_at 11 (length r.name + 1) refl namesize,
          field_at 12 r.check refl check,
        )
        refl

  length-archive :
      length (archive before magic r pad after)
      ≡ length before + 110 + (length r.name + 1) + length pad + length r.content + length after
  length-archive =
      let h = hex_bytes (numbers r) in
      rw (at_fields before magic r pad after) (
        omega (
          arith,
          f.magic_six,
          length-hex_bytes (numbers r),
          length-append before (magic ++ (h ++ (r.name ++ (0 ∷ (pad ++ (r.content ++ after)))))),
          length-append magic (h ++ (r.name ++ (0 ∷ (pad ++ (r.content ++ after))))),
          length-append h (r.name ++ (0 ∷ (pad ++ (r.content ++ after)))),
          length-append r.name (0 ∷ (pad ++ (r.content ++ after))),
          length-append pad (r.content ++ after),
          length-append r.content after,
        ))

  length-to_name : length (to_name before magic r pad after) ≡ length before + 110 + length r.name
  length-to_name =
      let h = hex_bytes (numbers r) in
      omega (
        arith,
        f.magic_six,
        length-hex_bytes (numbers r),
        length-append before (magic ++ (h ++ r.name)),
        length-append magic (h ++ r.name),
        length-append h r.name,
      )

  length-to_content :
      length (to_content before magic r pad after)
      ≡ length before + 110 + (length r.name + 1) + length pad
  length-to_content =
      let h = hex_bytes (numbers r) in
      omega (
        arith,
        f.magic_six,
        length-hex_bytes (numbers r),
        length-append before (magic ++ (h ++ (r.name ++ (0 ∷ pad)))),
        length-append magic (h ++ (r.name ++ (0 ∷ pad))),
        length-append h (r.name ++ (0 ∷ pad)),
        length-append r.name (0 ∷ pad),
      )

  nul_at :
      get_elem? (archive before magic r pad after) (length before + 110 + (length r.name + 1) - 1)
      ≡ some 0
  nul_at = rw (at_name before magic r pad after) (
      get_elem?-append_here (to_name before magic r pad after) 0 (pad ++ (r.content ++ after)) _
        (omega (arith, length-to_name)))

  content_at :
      take (length r.content) (
        drop
          (length before + 110 + (length r.name + 1) + length pad)
          (archive before magic r pad after))
      ≡ r.content
  content_at =
      let there =
        drop-append (to_content before magic r pad after) (r.content ++ after)
          (length before + 110 + (length r.name + 1) + length pad)
          (omega (arith, length-to_content)) in
      rw (at_content before magic r pad after, there)
        (take-append r.content after (length r.content) refl)

  crc_passes :
      (if crc && file_type r.mode == s_ifreg then byte_sum 0 r.content == r.check else true) ≡ true
  crc_passes = elim (Bool-cases crc) [
    | inr e ↦ rw e refl
    | inl e ↦ elim (Bool-cases (file_type r.mode == s_ifreg)) [
      | inr m ↦ rw (e, m) refl
      | inl m ↦
          let sums = f.checked e (==→eq (file_type r.mode) s_ifreg m) in
          rw (e, m, sums) (==_refl r.check)
    ]
  ]

  place_record-image_of :
      place_record (archive before magic r pad after) (length before) crc (fields_of r)
      ≡ ok (read_as before r pad)
  unfolding place_record align4
  place_record-image_of =
      let name_end = length before + 110 + (length r.name + 1) in
      let size = length-archive in
      let named : (not (length r.name + 1 == 0) && leb (length r.name + 1) 4096) ≡ true =
        ground (arith, f.name_fits) in
      let aligned : (name_end + 3) / 4 * 4 ≡ name_end + length pad = f.padded in
      let fits : (ltb (name_end + length pad + length r.content) usize_end
            && leb (name_end + length pad + length r.content)
                (length (archive before magic r pad after)))
          ≡ true =
        ends_within (name_end + length pad + length r.content) usize_end
          (length (archive before magic r pad after)) (omega (arith, f.bounded, size))
          (omega (arith, size)) in
      let short : name_end - 1 - (length before + 110) ≡ length r.name = omega arith in
      rw (named, nul_at, aligned, fits, content_at, crc_passes, short) refl

  -- A newc or CRC record that is written at any place of an archive, with its name padded to a
  -- multiple of four, is read back with all of its fields: where its name and its content stand, its
  -- mode, its link count, its inode; and the next record is looked for behind it, four-aligned.
  pub parse_record-image_of :
      parse_record (archive before magic r pad after) (length before) crc
      ≡ ok (read_as before r pad)
  unfolding parse_record
  parse_record-image_of = rw (read_fields-image_of, place_record-image_of) refl
