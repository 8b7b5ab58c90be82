-- ===== src/Iso9660/Written.antt =====
-- The directory record of crates/lamfold-iso/src/iso9660.rs as a writer of the format lays it out, and what
-- the scan reads of it.
use lamfold.Prelude.{
  length-le32_bytes, ℕ, zero, suc, ◌+◌, ◌≤◌, ◌<◌, ◌^◌, true, leb, Bytes, List, [], ◌∷◌, length,
  take, drop, get_or, get_elem?, slice?, slice?_bound, le32_bytes, le32_bytes_lem, some,
  some-injective, ◌≡◌, refl, sym, ap, ◌∙◌, arith,
}
use lamfold.Error.{ok, ◌>>=◌}
use lamfold.Iso9660.{le_u32}
use lamfold.Iso9660.Records.{record_at, file_id, first_fi}
use lamfold.Prelude.Parts.{join, length-join, slice?-part, get_elem?-part}

-- A record, with the fields that the reader passes over: the length of the extended attributes, the copies
-- of the numbers in the other order, the date, the unit and interleave fields with the volume number, and
-- what follows the identifier.
pub record RawRecord : Type 0 where
  pub flags : ℕ
  pub lba : ℕ
  pub size : ℕ
  pub identifier : Bytes
  pub attributes : ℕ
  pub lba_be : Bytes
  pub size_be : Bytes
  pub date : Bytes
  pub unit : Bytes
  pub tail : Bytes

pub record FitsRecord (r : RawRecord) : Type 0 where
  pub lba_fits : r.lba < 2 ^ 32
  pub size_fits : r.size < 2 ^ 32
  pub lba_be_is : length r.lba_be ≡ 4
  pub size_be_is : length r.size_be ≡ 4
  pub date_is : length r.date ≡ 7
  pub unit_is : length r.unit ≡ 6

abbrev pub record_length : RawRecord → ℕ
record_length r = 33 + length r.identifier + length r.tail

abbrev pub parts : RawRecord → List Bytes
parts r =
    (record_length r ∷ [])
    ∷ (r.attributes ∷ [])
    ∷ le32_bytes r.lba
    ∷ r.lba_be
    ∷ le32_bytes r.size
    ∷ r.size_be
    ∷ r.date
    ∷ (r.flags ∷ [])
    ∷ r.unit
    ∷ (length r.identifier ∷ [])
    ∷ r.identifier
    ∷ r.tail
    ∷ []

abbrev pub image : RawRecord → Bytes
image r = join (parts r)

le_u32_slice :
    (b : Bytes) (n o : ℕ) → n < 2 ^ 32 → slice? b o 4 ≡ some (le32_bytes n) → le_u32 b o ≡ ok n
unfolding le_u32
le_u32_slice b n o fits h = rw (le_u32, h, ◌>>=◌) (ap ok (le32_bytes_lem n fits))

module _ (r : RawRecord) (h : FitsRecord r) where
  pub length-image : length (image r) ≡ record_length r
  length-image = omega (
    arith,
    length-join (parts r),
    length-le32_bytes r.lba,
    length-le32_bytes r.size,
    h.lba_be_is,
    h.size_be_is,
    h.date_is,
    h.unit_is,
  )

  -- The fields where the reader looks for them.
  pub has_lba : le_u32 (image r) 2 ≡ ok r.lba
  unfolding take get_elem?
  has_lba =
      le_u32_slice (image r) r.lba 2 h.lba_fits
        (slice?-part (parts r) 2 2 4 refl refl (sym (length-le32_bytes r.lba)))

  pub has_size : le_u32 (image r) 10 ≡ ok r.size
  unfolding take get_elem?
  has_size = le_u32_slice (image r) r.size 10 h.size_fits (
      slice?-part (parts r) 4 10 4 refl (omega (arith, h.lba_be_is, length-le32_bytes r.lba))
        (sym (length-le32_bytes r.size)))

  pub has_flags : get_elem? (image r) 25 ≡ some r.flags
  unfolding take get_elem?
  has_flags = get_elem?-part (parts r) 7 25 refl (
      omega (
        arith,
        h.lba_be_is,
        h.size_be_is,
        h.date_is,
        length-le32_bytes r.lba,
        length-le32_bytes r.size,
      ))

  has_identifier_length : get_elem? (image r) 32 ≡ some (length r.identifier)
  unfolding take get_elem?
  has_identifier_length = get_elem?-part (parts r) 9 32 refl (
      omega (
        arith,
        h.lba_be_is,
        h.size_be_is,
        h.date_is,
        h.unit_is,
        length-le32_bytes r.lba,
        length-le32_bytes r.size,
      ))

  has_identifier : slice? (image r) 33 (length r.identifier) ≡ some r.identifier
  unfolding take get_elem?
  has_identifier =
      slice?-part (parts r) 10 33 (length r.identifier) refl
        (omega (
          arith,
          h.lba_be_is,
          h.size_be_is,
          h.date_is,
          h.unit_is,
          length-le32_bytes r.lba,
          length-le32_bytes r.size,
        ))
        refl

  pub file_id_written : file_id (image r) ≡ ok r.identifier
  unfolding file_id
  file_id_written = rw (file_id, has_identifier_length, ◌>>=◌, has_identifier) refl

-- The record stands at `pos`.
abbrev pub HasRecord : Bytes → ℕ → RawRecord → Type 0
HasRecord buf pos r = slice? buf pos (record_length r) ≡ some (image r)

-- The first byte of a slice.
take-drop_head :
    (buf bs : Bytes) (pos n b : ℕ)
    → take (suc n) (drop pos buf) ≡ b ∷ bs
    → get_elem? buf pos ≡ some b
unfolding take drop get_elem?
take-drop_head [] bs zero n b e = absurd (cc)
take-drop_head [] bs (suc pos) n b e = absurd (cc)
take-drop_head (x ∷ buf) bs zero n b e = cc
take-drop_head (x ∷ buf) bs (suc pos) n b e = take-drop_head buf bs pos n b e

slice?_head :
    (buf : Bytes) (pos n : ℕ) {b : ℕ} {bs : Bytes}
    → slice? buf pos (suc n) ≡ some (b ∷ bs)
    → get_elem? buf pos ≡ some b
unfolding slice?
slice?_head buf pos n {b = b} {bs = bs} e =
    let inside : leb (pos + suc n) (length buf) ≡ true =
      ground (arith, slice?_bound buf pos (suc n) e) in
    take-drop_head buf bs pos n b (some-injective (sym (rw (slice?, inside) refl) ∙ e))

get_or-get_elem? : (xs : Bytes) (i d : ℕ) {b : ℕ} → get_elem? xs i ≡ some b → get_or xs i d ≡ b
unfolding get_or get_elem?
get_or-get_elem? [] i d e = absurd (cc)
get_or-get_elem? (x ∷ xs) zero d e = some-injective e
get_or-get_elem? (x ∷ xs) (suc i) d e = get_or-get_elem? xs i d e

module _ (buf : Bytes) (pos : ℕ) (r : RawRecord) (h : HasRecord buf pos r) where
  length_byte : get_elem? buf pos ≡ some (record_length r)
  length_byte =
      let n = 32 + length r.identifier + length r.tail in
      let l : suc n ≡ record_length r = omega arith in
      slice?_head buf pos n (ap (slice? buf pos) l ∙ h)

  pub has_length : get_or buf pos 0 ≡ record_length r
  has_length = get_or-get_elem? buf pos 0 length_byte

  pub ends_inside : pos + record_length r ≤ length buf
  ends_inside = slice?_bound buf pos (record_length r) h

  pub record_at_written : record_at buf pos (record_length r) ≡ ok (image r)
  unfolding record_at
  record_at_written = rw (record_at, h) refl

  pub first_fi_written : FitsRecord r → first_fi buf pos ≡ ok r.identifier
  unfolding first_fi
  first_fi_written fits =
      rw (first_fi, length_byte, ◌>>=◌, record_at_written, file_id_written r fits) refl
