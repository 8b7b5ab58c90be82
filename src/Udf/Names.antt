-- ===== src/Udf/Names.antt =====
-- Directories of crates/lamfold-udf/src/udf.rs: `parse_fids` and `decode_udf_name`.
use lamfold.Prelude.{
  ℕ, zero, suc, ◌+◌, ◌-◌, ◌*◌, ◌/◌, ◌%◌, Bool, true, false, not, ◌&&◌, ◌||◌, leb, ◌==◌,
  if◌then◌else◌, Bytes, List, [], ◌∷◌, ◌++◌, length, get_or, slice?,
}
use lamfold.Error.{Result, ok, err, corrupt, invalid_path, ◌>>=◌, ok_or}
use lamfold.Iso9660.{utf8_char, utf16_units, high, low}
use lamfold.Udf.{block_add, le_u16, le_u32}

-- `b as char`, collected into a `String`.
unfoldable pub latin1 : Bytes → Bytes
latin1 [] = []
latin1 (b ∷ bs) = utf8_char b ++ latin1 bs

-- The loop over `char::decode_utf16`.
unfoldable pub utf16_text : List ℕ → Bytes → Result Bytes
utf16_text [] s = ok s
utf16_text (u ∷ []) s =
    if high u || low u then err (invalid_path "udf: bad UTF-16 in name") else ok (s ++ utf8_char u)
utf16_text (u ∷ v ∷ rest) s = elim (high u && low v) [
  | true ↦ utf16_text rest (s ++ utf8_char (0x10000 + (u - 0xd800) * 1024 + (v - 0xdc00)))
  | false ↦ elim (high u || low u) [
    | true ↦ err (invalid_path "udf: bad UTF-16 in name")
    | false ↦ utf16_text (v ∷ rest) (s ++ utf8_char u)
  ]
]

unfoldable pub decode_udf_name : Bytes → Result Bytes
unfolding latin1 utf16_units utf16_text
decode_udf_name [] = ok []
decode_udf_name (id ∷ rest) =
    if id == 8
    then ok (latin1 rest)
    else if id == 16
    then utf16_text (utf16_units rest) []
    else err (invalid_path "udf: unknown name compression id")

-- A name and the block of the entry that it names.
abbrev pub Fid : Type 0
Fid = Bytes × ℕ

-- Bit 3 is for the parent, bit 2 for what is deleted.
abbrev pub is_listed : ℕ → Bool
is_listed fc = not (fc / 8 % 2 == 1) && not (fc / 4 % 2 == 1)

-- `(n + 3) & !3`.
abbrev pub align4 : ℕ → ℕ
align4 n = (n + 3) / 4 * 4

-- The descriptor at `p`, whose tag has been read: what it adds, and where the next one stands.
unfoldable pub parse_fid : ℕ → Bytes → ℕ → List Fid → Result (List Fid × ℕ)
unfolding get_or le_u16 le_u32 slice? decode_udf_name
parse_fid partition_start data_ p out = do
  let fc = get_or data_ (p + 18) 0
  let l_fi = get_or data_ (p + 19) 0
  icb_lb ← le_u32 data_ (p + 24)
  l_iu ← le_u16 data_ (p + 36)
  fi ← ok_or (slice? data_ (p + 38 + l_iu) l_fi) (corrupt "udf: FID name out of bounds")
  let next = p + align4 (38 + l_iu + l_fi)
  elim (is_listed fc) [
    | false ↦ ok (out, next)
    | true ↦ do
      name ← decode_udf_name fi
      ok (out ++ (name, block_add partition_start icb_lb) ∷ [], next)
  ]

-- The loop of `parse_fids`, on fuel: a descriptor takes 38 bytes or more.
unfoldable pub fids_from : ℕ → ℕ → Bytes → ℕ → List Fid → Result (List Fid)
unfolding le_u16 parse_fid
fids_from zero partition_start data_ p out = ok out
fids_from (suc turns) partition_start data_ p out = elim (leb (p + 38) (length data_)) [
  | false ↦ ok out
  | true ↦ do
    tag ← le_u16 data_ p
    elim (tag == 257) [
      | false ↦ ok out
      | true ↦ do
        (out', next) ← parse_fid partition_start data_ p out
        fids_from turns partition_start data_ next out'
    ]
]

unfoldable pub parse_fids : ℕ → Bytes → Result (List Fid)
unfolding fids_from
parse_fids partition_start data_ = fids_from (length data_) partition_start data_ 0 []
