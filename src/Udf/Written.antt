-- ===== src/Udf/Written.antt =====
-- The directory of crates/lamfold-udf/src/udf.rs as a writer of the format lays it out: File Identifier
-- Descriptors, one behind the other.
use lamfold.Prelude.{
  length-le32_bytes, ℕ, suc, ◌+◌, ◌/◌, ◌%◌, ◌^◌, ◌≤◌, ◌<◌, true, leb, Bool-cases, inl, inr, Bytes,
  List, [], ◌∷◌, ◌++◌, length, append-nil, replicate, length-replicate, get_or, get_elem?, take,
  slice?, le16, le32, le32_bytes, le32_bytes_lem, some, ◌≡◌, refl, sym, ap, ◌∙◌, arith,
  if◌then◌else◌,
}
use lamfold.Error.{ok, ◌>>=◌}
use lamfold.Prelude.Parts.{join, length-join, slice?-part, get_or-part}
use lamfold.Udf.{block_add, le_u16, le_u32}
use lamfold.Udf.Names.{Fid, is_listed, align4, decode_udf_name, parse_fid, fids_from}

-- A descriptor: its characteristics, the block of the entry that it names, the implementation use and the
-- identifier, the name that this decodes to, the fields that the reader passes over, and the padding.
pub record RawFid : Type 0 where
  pub characteristics : ℕ
  pub icb_block : ℕ
  pub implementation_use : Bytes
  pub identifier : Bytes
  pub name : Bytes
  pub tag_rest : Bytes
  pub icb_length : Bytes
  pub icb_rest : Bytes
  pub pad : ℕ

pub record FitsFid (f : RawFid) : Type 0 where
  pub block_fits : f.icb_block < 2 ^ 32
  pub use_fits : length f.implementation_use < 2 ^ 16
  pub tag_rest_is : length f.tag_rest ≡ 16
  pub icb_length_is : length f.icb_length ≡ 4
  pub icb_rest_is : length f.icb_rest ≡ 8
  pub decodes : decode_udf_name f.identifier ≡ ok f.name
  pub padded :
      38 + length f.implementation_use + length f.identifier + f.pad
      ≡ align4 (38 + length f.implementation_use + length f.identifier)

abbrev pub le16_bytes : ℕ → Bytes
le16_bytes n = n % 256 ∷ n / 256 % 256 ∷ []

pub le16_bytes_lem : (n : ℕ) → n < 2 ^ 16 → le16 (le16_bytes n) ≡ n
unfolding le16
le16_bytes_lem n h = omega arith

abbrev pub parts : RawFid → List Bytes
parts f =
    le16_bytes 257
    ∷ f.tag_rest
    ∷ (f.characteristics ∷ [])
    ∷ (length f.identifier ∷ [])
    ∷ f.icb_length
    ∷ le32_bytes f.icb_block
    ∷ f.icb_rest
    ∷ le16_bytes (length f.implementation_use)
    ∷ f.implementation_use
    ∷ f.identifier
    ∷ replicate f.pad 0
    ∷ []

abbrev pub dir_bytes : List RawFid → Bytes
dir_bytes [] = []
dir_bytes (f ∷ fs) = join (parts f) ++ dir_bytes fs

abbrev pub FitsAll : List RawFid → Type 0
FitsAll [] = Unit
FitsAll (f ∷ fs) = FitsFid f × FitsAll fs

-- What is listed: no parent, and nothing that is deleted.
abbrev pub add_listed : ℕ → RawFid → List Fid → List Fid
add_listed partition_start f rest =
    if is_listed f.characteristics
    then (f.name, block_add partition_start f.icb_block) ∷ rest
    else rest

abbrev pub listed : ℕ → List RawFid → List Fid
listed partition_start [] = []
listed partition_start (f ∷ fs) = add_listed partition_start f (listed partition_start fs)

pub le_u16_slice : (b s : Bytes) (o : ℕ) → slice? b o 2 ≡ some s → le_u16 b o ≡ ok (le16 s)
unfolding le_u16
le_u16_slice b s o h = rw (le_u16, h) refl

pub le_u32_slice : (b s : Bytes) (o : ℕ) → slice? b o 4 ≡ some s → le_u32 b o ≡ ok (le32 s)
unfolding le_u32
le_u32_slice b s o h = rw (le_u32, h) refl

pub length-parts :
    (f : RawFid)
    → FitsFid f
    → length (join (parts f)) ≡ align4 (38 + length f.implementation_use + length f.identifier)
length-parts f h = omega (
  arith,
  length-join (parts f),
  length-le32_bytes f.icb_block,
  length-replicate {A = ℕ} f.pad 0,
  h.padded,
  h.tag_rest_is,
  h.icb_length_is,
  h.icb_rest_is,
)

module _ (f : RawFid) (h : FitsFid f) (before after : Bytes) where
  abbrev pub buffer : Bytes
  buffer = join (before ∷ (parts f ++ after ∷ []))

  abbrev pub start : ℕ
  start = length before

  abbrev pub all_parts : List Bytes
  all_parts = before ∷ (parts f ++ after ∷ [])

  -- The fields where the reader looks for them.
  has_tag : le_u16 buffer start ≡ ok 257
  unfolding take get_elem? le16
  has_tag =
      le_u16_slice buffer (le16_bytes 257) start
        (slice?-part all_parts 1 start 2 refl (omega arith) refl)

  has_characteristics : get_or buffer (start + 18) 0 ≡ f.characteristics
  unfolding take get_elem?
  has_characteristics = get_or-part all_parts 3 (start + 18) 0 refl (omega (arith, h.tag_rest_is))

  has_identifier_length : get_or buffer (start + 19) 0 ≡ length f.identifier
  unfolding take get_elem?
  has_identifier_length = get_or-part all_parts 4 (start + 19) 0 refl (omega (arith, h.tag_rest_is))

  has_block : le_u32 buffer (start + 24) ≡ ok f.icb_block
  unfolding take get_elem?
  has_block =
      le_u32_slice buffer (le32_bytes f.icb_block) (start + 24) (
        slice?-part all_parts 6 (start + 24) 4 refl (omega (arith, h.tag_rest_is, h.icb_length_is))
          (sym (length-le32_bytes f.icb_block)))
      ∙ ap ok (le32_bytes_lem f.icb_block h.block_fits)

  has_use_length : le_u16 buffer (start + 36) ≡ ok (length f.implementation_use)
  unfolding take get_elem?
  has_use_length =
      le_u16_slice buffer (le16_bytes (length f.implementation_use)) (start + 36) (
        slice?-part all_parts 8 (start + 36) 2 refl
          (omega
            (arith, h.tag_rest_is, h.icb_length_is, h.icb_rest_is, length-le32_bytes f.icb_block))
          refl)
      ∙ ap ok (le16_bytes_lem (length f.implementation_use) h.use_fits)

  has_identifier :
      slice? buffer (start + 38 + length f.implementation_use) (length f.identifier)
      ≡ some f.identifier
  unfolding take get_elem?
  has_identifier =
      slice?-part all_parts 10 (start + 38 + length f.implementation_use) (length f.identifier) refl
        (omega
          (arith, h.tag_rest_is, h.icb_length_is, h.icb_rest_is, length-le32_bytes f.icb_block))
        refl

  abbrev pub next : ℕ
  next = start + align4 (38 + length f.implementation_use + length f.identifier)

  pub parse_fid_written :
      (partition_start : ℕ) (out : List Fid)
      → parse_fid partition_start buffer start out
        ≡ ok (out ++ add_listed partition_start f [], next)
  unfolding parse_fid
  parse_fid_written partition_start out = elim (Bool-cases (is_listed f.characteristics)) [
    | inl shown ↦
        rw
          (
            parse_fid, has_characteristics, has_identifier_length, has_block, ◌>>=◌, has_use_length,
            has_identifier, shown, h.decodes, has_identifier_length,
          )
          refl
    | inr hidden ↦
        rw
          (
            parse_fid, has_characteristics, has_identifier_length, has_block, ◌>>=◌, has_use_length,
            has_identifier, hidden, has_identifier_length,
          )
          (ap (λ l. ok (l, next)) (sym (append-nil out)))
  ]

  length-buffer : 38 + start ≤ length buffer
  length-buffer = omega (
    arith,
    length-join all_parts,
    h.tag_rest_is,
    h.icb_length_is,
    h.icb_rest_is,
    length-le32_bytes f.icb_block,
  )

  pub fids_from_step :
      (turns partition_start : ℕ) (out : List Fid)
      → fids_from (suc turns) partition_start buffer start out
        ≡ fids_from turns partition_start buffer next (out ++ add_listed partition_start f [])
  unfolding fids_from
  fids_from_step turns partition_start out =
      let long : leb (start + 38) (length buffer) ≡ true = ground (arith, length-buffer) in
      rw (fids_from, long, has_tag, ◌>>=◌, parse_fid_written partition_start out) refl
