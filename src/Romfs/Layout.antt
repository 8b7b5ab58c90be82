-- ===== src/Romfs/Layout.antt =====
-- The header layout of crates/lamfold-romfs/src/romfs.rs: what a writer of the format puts down,
-- `read_header` gives back, wherever in the image it stands.
use lamfold.Prelude.{
  ℕ, suc, ◌+◌, ◌-◌, ◌*◌, ◌/◌, ◌%◌, ◌^◌, ◌≤◌, ◌<◌, min, leb, true, Bytes, [], ◌∷◌, ◌++◌, length,
  le→leb, take, drop, slice?-append, length-append, drop-append, take-append, take-append_add,
  be32_bytes, be32_bytes_lem, Avoids, position-append, append_assoc, ◌≡◌, refl, sym, ap, ◌∙◌, arith,
}
use lamfold.Error.{ok}
use lamfold.Romfs.{Header, max_name, align16, be_u32, parse_header, read_header}
use lamfold.Source.{slice_source, slice_read_at-eq_ok}
use lamfold.Utf8.{from_utf8_lossy}

-- The fields of a header as the format stores them: `spec` is the next offset with the type bits.
pub record RawHeader : Type 0 where
  pub spec : ℕ
  pub info : ℕ
  pub size : ℕ
  pub checksum : ℕ
  pub name : Bytes

pub record Fits (r : RawHeader) : Type 0 where
  pub spec_fits : r.spec < 2 ^ 32
  pub info_fits : r.info < 2 ^ 32
  pub size_fits : r.size < 2 ^ 32
  pub name_fits : length r.name < max_name
  pub no_nul : Avoids 0 r.name

abbrev pub words : RawHeader → Bytes
words r = be32_bytes r.spec ++ (be32_bytes r.info ++ (be32_bytes r.size ++ be32_bytes r.checksum))

-- The four numbers, the name and the NUL behind it, with `rest` behind that.
abbrev pub image_of : RawHeader → Bytes → Bytes
image_of r rest = words r ++ (r.name ++ 0 ∷ rest)

-- What the reader makes of it at offset `off`.
abbrev pub read_as : RawHeader → ℕ → Header
read_as r off = record {
  next_off = r.spec / 16 * 16;
  ftype = r.spec % 8;
  info = r.info;
  size = r.size;
  name = from_utf8_lossy r.name;
  data_off = off + 16 + align16 (length r.name + 1);
}

length-be32_bytes : (n : ℕ) → length (be32_bytes n) ≡ 4
unfolding be32_bytes
length-be32_bytes n = refl

length-words : (r : RawHeader) → length (words r) ≡ 16
unfolding be32_bytes
length-words r = refl

be_u32-append :
    (xs zs : Bytes) (n o : ℕ)
    → o ≡ length xs
    → n < 2 ^ 32
    → be_u32 (xs ++ (be32_bytes n ++ zs)) o ≡ ok n
unfolding be_u32
be_u32-append xs zs n o h small =
    let e = slice?-append xs (be32_bytes n) zs o 4 h (sym (length-be32_bytes n)) in
    rw (be_u32, e) (ap ok (be32_bytes_lem n small))

module _ (r : RawHeader) (fits : Fits r) (rest : Bytes) where
  spec_at : be_u32 (image_of r rest) 0 ≡ ok r.spec
  spec_at = rw append_assoc (be_u32-append [] _ r.spec 0 refl fits.spec_fits)

  info_at : be_u32 (image_of r rest) 4 ≡ ok r.info
  info_at =
      rw (append_assoc, append_assoc)
        (be_u32-append (be32_bytes r.spec) _ r.info 4 (sym (length-be32_bytes r.spec))
          fits.info_fits)

  size_at : be_u32 (image_of r rest) 8 ≡ ok r.size
  size_at =
      let before = be32_bytes r.spec ++ be32_bytes r.info in
      let behind = be32_bytes r.checksum ++ (r.name ++ 0 ∷ rest) in
      let regroup : image_of r rest ≡ before ++ (be32_bytes r.size ++ behind) = simp append_assoc in
      let eight : length before ≡ 8 = omega (
        arith,
        length-append (be32_bytes r.spec) (be32_bytes r.info),
        length-be32_bytes r.spec,
        length-be32_bytes r.info,
      ) in
      ap (λ w. be_u32 w 8) regroup ∙ be_u32-append before behind r.size 8 (sym eight) fits.size_fits

  name_from : drop 16 (image_of r rest) ≡ r.name ++ 0 ∷ rest
  name_from = drop-append (words r) (r.name ++ 0 ∷ rest) 16 (sym (length-words r))

  parse_header-image_of : (off : ℕ) → parse_header off (image_of r rest) ≡ ok (read_as r off)
  unfolding parse_header
  parse_header-image_of off =
      let at_nul = position-append 0 r.name rest fits.no_nul in
      let named = take-append r.name (0 ∷ rest) (length r.name) refl in
      rw (spec_at, info_at, size_at, name_from, at_nul, named)

  -- A window that ends behind the NUL shows the same header.
  take-image_of :
      (n m : ℕ) → n ≡ 17 + length r.name + m → take n (image_of r rest) ≡ image_of r (take m rest)
  unfolding take
  take-image_of n m h =
      let size = length-words r in
      let inner =
        take-append_add r.name (0 ∷ rest) (suc (length r.name + m)) (suc m) (omega arith) in
      take-append_add (words r) (r.name ++ 0 ∷ rest) n (suc (length r.name + m)) (omega arith)
      ∙ ap (λ t. words r ++ t) inner

  length-image_of : length (image_of r rest) ≡ 17 + length r.name + length rest
  length-image_of = omega (
    arith,
    length-append (words r) (r.name ++ 0 ∷ rest),
    length-append r.name (0 ∷ rest),
    length-words r,
  )

-- Whatever stands before and behind it, a header in an image is read back field by field: the type
-- and the next offset out of one word, the name up to its NUL, and the data on the next 16-byte
-- boundary.
pub read_header-image_of :
    (r : RawHeader) (before rest : Bytes)
    → Fits r
    → length (before ++ image_of r rest) ≤ 2 ^ 63
    → read_header (slice_source (before ++ image_of r rest)) (length before)
      ≡ ok (read_as r (length before))
unfolding read_header
read_header-image_of r before rest fits small =
    let image = image_of r rest in
    let size = length-image_of r fits rest in
    let all = length-append before image in
    let avail = min (16 + max_name) (length (before ++ image) - length before) in
    let enough : leb 16 avail ≡ true = le→leb 16 avail (omega arith) in
    let m = avail - (17 + length r.name) in
    let window = slice_read_at-eq_ok (before ++ image) (length before) avail (omega arith) small in
    let cut = take-image_of r fits rest avail m (omega arith) in
    let start = drop-append before image (length before) refl in
    rw (enough, window, start, cut) (parse_header-image_of r fits (take m rest) (length before))
