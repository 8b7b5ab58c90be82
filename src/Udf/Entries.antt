-- ===== src/Udf/Entries.antt =====
-- The File Entry of crates/lamfold-udf/src/udf.rs as a writer of the format lays it out, in both of its forms.
use lamfold.Prelude.{
  length-le32_bytes, ℕ, ◌+◌, ◌*◌, ◌/◌, ◌%◌, ◌^◌, ◌≤◌, ◌<◌, Bool, true, false, leb, Bytes, List, [],
  ◌∷◌, ◌++◌, length, take, drop, get_elem?, slice?, le16, le32_bytes, le32_bytes_lem,
  le32-le32_bytes, some, ◌≡◌, refl, sym, ap, ◌∙◌, arith,
}
use lamfold.Error.{ok, ◌>>=◌, ◌>>◌}
use lamfold.Prelude.Parts.{join, slice?-part, get_elem?-part}
use lamfold.ReadCap.{max_boot_file_bytes, checked_full_read_len}
use lamfold.ReadCap.Bounds.{checked_full_read_len_iff}
use lamfold.Source.{BlockSource, usize_end}
use lamfold.Udf.{
  FileData, inline, extents, UdfInode, kind_of, le_u16, le_u32, le_u64, layout_of, parse_inline,
  parse_data, parse_fe, read_block, read_fe,
}
use lamfold.Udf.Descriptors.{RawExtent, ads_bytes, FitExtents, extents_of, parse_extents_written}
use lamfold.Udf.Written.{le16_bytes, le16_bytes_lem, le_u16_slice, le_u32_slice}

-- The area behind the attributes: the data itself, or descriptors of eight or sixteen bytes.
pub data Area : Type 0 where
  contents : Bytes → Area
  short_ads long_ads : List RawExtent → Area

abbrev pub area_bytes : Area → Bytes
area_bytes (contents bytes) = bytes
area_bytes (short_ads xs) = ads_bytes xs
area_bytes (long_ads xs) = ads_bytes xs

-- The number that the flags have for it.
abbrev pub ad_type : Area → ℕ
ad_type (contents bytes) = 3
ad_type (short_ads xs) = 0
ad_type (long_ads xs) = 1

abbrev pub data_of : ℕ → Area → FileData
data_of partition_start (contents bytes) = inline bytes
data_of partition_start (short_ads xs) = extents (extents_of partition_start xs)
data_of partition_start (long_ads xs) = extents (extents_of partition_start xs)

abbrev pub FitsArea : ℕ → Area → Type 0
FitsArea size (contents bytes) = (size ≡ length bytes) × (size ≤ max_boot_file_bytes)
FitsArea size (short_ads xs) = FitExtents 8 xs
FitsArea size (long_ads xs) = FitExtents 16 xs

-- An entry, with the fields that the reader passes over.
pub record RawEntry : Type 0 where
  pub extended : Bool
  pub file_type : ℕ
  pub flags : ℕ
  pub size : ℕ
  pub attributes : Bytes
  pub area : Area
  pub tag_rest : Bytes
  pub parent_icb : Bytes
  pub owner : Bytes
  pub times : Bytes
  pub slack : Bytes

abbrev pub tag_of : Bool → ℕ
tag_of true = 266
tag_of false = 261

-- From the information length to the lengths of the two areas.
abbrev pub times_length : Bool → ℕ
times_length true = 144
times_length false = 104

pub record FitsEntry (e : RawEntry) : Type 0 where
  pub flags_fit : e.flags < 2 ^ 16
  pub flags_are : e.flags % 8 ≡ ad_type e.area
  pub size_fits : e.size < 2 ^ 64
  pub attributes_fit : length e.attributes < 2 ^ 32
  pub area_fits : length (area_bytes e.area) < 2 ^ 32
  pub tag_rest_is : length e.tag_rest ≡ 25
  pub parent_icb_is : length e.parent_icb ≡ 6
  pub owner_is : length e.owner ≡ 20
  pub times_are : length e.times ≡ times_length e.extended
  pub fits : FitsArea e.size e.area

abbrev pub le64_bytes : ℕ → Bytes
le64_bytes n = le32_bytes (n % 2 ^ 32) ++ le32_bytes (n / 2 ^ 32)

abbrev pub parts : RawEntry → List Bytes
parts e =
    le16_bytes (tag_of e.extended)
    ∷ e.tag_rest
    ∷ (e.file_type ∷ [])
    ∷ e.parent_icb
    ∷ le16_bytes e.flags
    ∷ e.owner
    ∷ le64_bytes e.size
    ∷ e.times
    ∷ le32_bytes (length e.attributes)
    ∷ le32_bytes (length (area_bytes e.area))
    ∷ e.attributes
    ∷ area_bytes e.area
    ∷ e.slack
    ∷ []

abbrev pub inode_of : ℕ → RawEntry → UdfInode
inode_of partition_start e = record {
  kind = kind_of e.file_type;
  size = e.size;
  data_ = data_of partition_start e.area;
}

length-le64_bytes : (n : ℕ) → length (le64_bytes n) ≡ 8
unfolding le32_bytes
length-le64_bytes n = refl

le_u64_slice :
    (b : Bytes) (n o : ℕ) → n < 2 ^ 64 → slice? b o 8 ≡ some (le64_bytes n) → le_u64 b o ≡ ok n
unfolding le_u64 le32_bytes drop
le_u64_slice b n o fits h =
    let low = le32-le32_bytes (n % 2 ^ 32) (le32_bytes (n / 2 ^ 32)) (omega arith) in
    let high = le32_bytes_lem (n / 2 ^ 32) (omega arith) in
    rw (le_u64, h, ◌>>=◌, low, high) (ap ok (omega arith))

layout_of_tag :
    (b : Bool)
    → layout_of (tag_of b) ≡ ok (64 + times_length b, 68 + times_length b, 72 + times_length b)
layout_of_tag true = refl
layout_of_tag false = refl

le16_tag : (b : Bool) → le16 (le16_bytes (tag_of b)) ≡ tag_of b
unfolding le16
le16_tag true = refl
le16_tag false = refl

module _ (e : RawEntry) (h : FitsEntry e) where
  abbrev pub image : Bytes
  image = join (parts e)

  abbrev pub spare : ℕ
  spare = times_length e.extended

  -- The fields where the reader looks for them.
  has_tag : le_u16 image 0 ≡ ok (tag_of e.extended)
  unfolding take get_elem?
  has_tag =
      le_u16_slice image (le16_bytes (tag_of e.extended)) 0
        (slice?-part (parts e) 0 0 2 refl refl refl)
      ∙ ap ok (le16_tag e.extended)

  has_file_type : get_elem? image 27 ≡ some e.file_type
  unfolding take get_elem?
  has_file_type = get_elem?-part (parts e) 2 27 refl (omega (arith, h.tag_rest_is))

  has_flags : le_u16 image 34 ≡ ok e.flags
  unfolding take get_elem?
  has_flags =
      le_u16_slice image (le16_bytes e.flags) 34
        (slice?-part (parts e) 4 34 2 refl (omega (arith, h.tag_rest_is, h.parent_icb_is)) refl)
      ∙ ap ok (le16_bytes_lem e.flags h.flags_fit)

  has_size : le_u64 image 56 ≡ ok e.size
  unfolding take get_elem?
  has_size = le_u64_slice image e.size 56 h.size_fits (
      slice?-part (parts e) 6 56 8 refl (omega (arith, h.tag_rest_is, h.parent_icb_is, h.owner_is))
        (sym (length-le64_bytes e.size)))

  has_l_ea : le_u32 image (64 + spare) ≡ ok (length e.attributes)
  unfolding take get_elem?
  has_l_ea =
      let n = length e.attributes in
      le_u32_slice image (le32_bytes n) (64 + spare) (
        slice?-part (parts e) 8 (64 + spare) 4 refl
          (omega (
            arith,
            h.tag_rest_is,
            h.parent_icb_is,
            h.owner_is,
            h.times_are,
            length-le64_bytes e.size,
          ))
          (sym (length-le32_bytes n)))
      ∙ ap ok (le32_bytes_lem n h.attributes_fit)

  has_l_ad : le_u32 image (68 + spare) ≡ ok (length (area_bytes e.area))
  unfolding take get_elem?
  has_l_ad =
      let n = length (area_bytes e.area) in
      le_u32_slice image (le32_bytes n) (68 + spare) (
        slice?-part (parts e) 9 (68 + spare) 4 refl
          (omega (
            arith,
            h.tag_rest_is,
            h.parent_icb_is,
            h.owner_is,
            h.times_are,
            length-le64_bytes e.size,
            length-le32_bytes (length e.attributes),
          ))
          (sym (length-le32_bytes n)))
      ∙ ap ok (le32_bytes_lem n h.area_fits)

  has_area :
      slice? image (72 + spare + length e.attributes) (length (area_bytes e.area))
      ≡ some (area_bytes e.area)
  unfolding take get_elem?
  has_area =
      slice?-part (parts e) 11 (72 + spare + length e.attributes) (length (area_bytes e.area)) refl
        (omega (
          arith,
          h.tag_rest_is,
          h.parent_icb_is,
          h.owner_is,
          h.times_are,
          length-le64_bytes e.size,
          length-le32_bytes (length e.attributes),
          length-le32_bytes (length (area_bytes e.area)),
        ))
        refl

parse_data_written :
    (partition_start : ℕ) (buf : Bytes) (at size : ℕ) (area : Area)
    → FitsArea size area
    → slice? buf at (length (area_bytes area)) ≡ some (area_bytes area)
    → parse_data partition_start (ad_type area) buf at (length (area_bytes area)) size
      ≡ ok (data_of partition_start area)
unfolding parse_data parse_inline
parse_data_written partition_start buf at size (contents bytes) fits h =
    let n : size ≡ length bytes = fits.0 in
    let capped : checked_full_read_len usize_end size ≡ ok size =
      (checked_full_read_len_iff usize_end size (omega arith)).1 fits.1 in
    let there : slice? buf at size ≡ some bytes = ap (slice? buf at) n ∙ h in
    rw (parse_data, parse_inline, capped, ◌>>=◌, there) refl
parse_data_written partition_start buf at size (short_ads xs) fits h =
    parse_extents_written 8 partition_start buf at (length (ads_bytes xs)) xs (omega arith) fits h
parse_data_written partition_start buf at size (long_ads xs) fits h =
    parse_extents_written 16 partition_start buf at (length (ads_bytes xs)) xs (omega arith) fits h

parse_fe_written :
    (partition_start : ℕ) (e : RawEntry) (h : FitsEntry e)
    → parse_fe partition_start (image e h) ≡ ok (inode_of partition_start e)
unfolding parse_fe
parse_fe_written partition_start e h =
    let at = 72 + spare e h + length e.attributes in
    let body =
      parse_data_written partition_start (image e h) at e.size e.area h.fits (has_area e h) in
    rw
      (
        parse_fe,
        has_tag e h,
        layout_of_tag e.extended,
        has_file_type e h,
        has_flags e h,
        has_size e h,
        has_l_ea e h,
        has_l_ad e h,
        ◌>>=◌,
        h.flags_are,
        body,
      )
      refl

-- A File Entry or an Extended File Entry that is written out in a block of the volume is read back: the kind
-- of its file type, its size, and its data, which is inline or the extents of its short or long allocation
-- descriptors, where empty ones are left out and those that are not recorded have no block.
pub read_fe_written :
    (src : BlockSource) (block_size partition_start fe_lba : ℕ) (e : RawEntry) (h : FitsEntry e)
    → fe_lba * block_size + block_size ≤ src.len
    → src.read_at (fe_lba * block_size) block_size ≡ ok (image e h)
    → read_fe src block_size partition_start fe_lba ≡ ok (inode_of partition_start e)
unfolding read_fe read_block
read_fe_written src block_size partition_start fe_lba e h inside there =
    let far : leb (fe_lba * block_size + block_size) src.len ≡ true = ground (arith, inside) in
    rw (read_fe, read_block, far, ◌>>◌, ◌>>=◌, there, parse_fe_written partition_start e h) refl
