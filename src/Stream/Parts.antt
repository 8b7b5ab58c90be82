-- ===== src/Stream/Parts.antt =====
-- What the decoders of crates/lamfold/src/stream.rs share: the formats and their magic bytes, the
-- capped output, the checksum, and the interface to the third-party decoders.
use Prim.Native.Nat.{bit_and, bit_xor}
use lamfold.Prelude.{
  ℕ, zero, suc, ◌+◌, ◌*◌, ◌/◌, ◌%◌, ◌≤◌, Bool, true, false, ltb, ◌==◌, if◌then◌else◌, Bytes, List,
  [], ◌∷◌, ◌++◌, length, length-append, Option, none, some, ◌≡◌, arith, subst,
}
use lamfold.Error.{Result, ok, err, file_too_large, ok-injective}

pub data StreamCodec : Type 0 where
  gzip zstd xz lzma lz4_legacy bzip2 lzo : StreamCodec

-- `input.starts_with(magic)`.
unfoldable pub starts_with : Bytes → Bytes → Bool
starts_with [] input = true
starts_with (m ∷ magic) [] = false
starts_with (m ∷ magic) (b ∷ input) =
    let rest = starts_with magic input in if m == b then rest else false

pub starts_with_long :
    (magic input : Bytes) → starts_with magic input ≡ true → length magic ≤ length input
unfolding starts_with
starts_with_long [] input h = omega arith
starts_with_long (m ∷ magic) [] h = absurd (cc)
starts_with_long (m ∷ magic) (b ∷ input) h = ground (arith, starts_with_long magic input)

abbrev pub lz4_legacy_magic : Bytes
lz4_legacy_magic = 0x02 ∷ 0x21 ∷ 0x4c ∷ 0x18 ∷ []

abbrev pub magics : List (Bytes × StreamCodec)
magics =
    (0x1f ∷ 0x8b ∷ [], gzip)
    ∷ (0x28 ∷ 0xb5 ∷ 0x2f ∷ 0xfd ∷ [], zstd)
    ∷ (0xfd ∷ b'7' ∷ b'z' ∷ b'X' ∷ b'Z' ∷ 0x00 ∷ [], xz)
    ∷ (0x5d ∷ 0x00 ∷ 0x00 ∷ [], lzma)
    ∷ (lz4_legacy_magic, lz4_legacy)
    ∷ (b'B' ∷ b'Z' ∷ b'h' ∷ [], bzip2)
    ∷ (0x89 ∷ b'L' ∷ b'Z' ∷ b'O' ∷ [], lzo)
    ∷ []

-- `iter().find(|(magic, _)| input.starts_with(magic))`.
unfoldable pub find_magic : List (Bytes × StreamCodec) → Bytes → Option StreamCodec
unfolding starts_with
find_magic [] input = none
find_magic ((magic, codec) ∷ rest) input =
    if starts_with magic input then some codec else find_magic rest input

unfoldable pub sniff : Bytes → Option StreamCodec
unfolding find_magic
sniff input = find_magic magics input

-- Bytes decoded in one step.
abbrev pub chunk_len : ℕ
chunk_len = 64 * 1024

-- `push_capped`; that memory can run out is not modelled.
unfoldable pub push_capped : Bytes → Bytes → ℕ → Result Bytes
push_capped out chunk max_out =
    let want = length out + length chunk in
    if ltb max_out want then err (file_too_large want max_out) else ok (out ++ chunk)

pub push_capped-eq-ok :
    (out chunk : Bytes) (max_out : ℕ) {res : Bytes}
    → push_capped out chunk max_out ≡ ok res
    → (res ≡ out ++ chunk) × (length res ≤ max_out) × (length res ≡ length out + length chunk)
unfolding push_capped
push_capped-eq-ok out chunk max_out h = ground (arith, length-append out chunk)

-- One step of the table's inner loop.
crc_round : ℕ → ℕ
crc_round c = if c % 2 == 0 then c / 2 else bit_xor 0xedb8_8320 (c / 2)

crc_rounds : ℕ → ℕ → ℕ
unfolding crc_round
crc_rounds zero c = c
crc_rounds (suc k) c = crc_rounds k (crc_round c)

-- `CRC32_TABLE[i]`.
unfoldable pub crc32_entry : ℕ → ℕ
unfolding crc_rounds
crc32_entry i = crc_rounds 8 i

-- The fold of `crc32` from the register `c`.
unfoldable pub crc32_from : ℕ → Bytes → ℕ
unfolding crc32_entry
crc32_from c [] = c
crc32_from c (b ∷ bs) = crc32_from (bit_xor (crc32_entry (bit_and (bit_xor c b) 0xff)) (c / 256)) bs

unfoldable pub crc32 : Bytes → ℕ
unfolding crc32_from
crc32 bytes = bit_xor (crc32_from 0xffff_ffff bytes) 0xffff_ffff

pub data Status : Type 0 where
  stream_end more failed : Status

-- One call of `miniz_oxide::inflate::stream::inflate`.
pub record Inflated (S : Type 0) : Type 0 where
  pub state : S
  pub bytes_consumed : ℕ
  pub written : Bytes
  pub status : Status

-- `miniz_oxide`'s streaming inflate: a call consumes no more than it is given and fills no more than
-- the buffer.
pub record Inflater : Type 1 where
  pub State : Type 0
  pub new_boxed : State
  pub inflate : State → Bytes → ℕ → Inflated State
  pub consumed_le :
      (s : State) (input : Bytes) (room : ℕ) → (inflate s input room).bytes_consumed ≤ length input
  pub written_le :
      (s : State) (input : Bytes) (room : ℕ) → length (inflate s input room).written ≤ room

-- A reader over a slice (`ruzstd`, `lzma-rust2`): it opens or refuses the input, a read fills no more
-- than the buffer, and what is left of the slice is a suffix of it, here its length.
pub record Decoder : Type 1 where
  pub State : Type 0
  pub new : Bytes → Option State
  pub read : State → ℕ → Option (Bytes × State)
  pub left : State → ℕ
  pub new_left : (input : Bytes) {s : State} → new input ≡ some s → left s ≤ length input
  pub read_left :
      (s : State) (room : ℕ) {bs : Bytes} {t : State} → read s room ≡ some (bs, t) → left t ≤ left s

-- `lz4_flex::block::decompress_into`: the bytes written, if they fit the room.
pub record BlockDecoder : Type 0 where
  pub decompress_into : Bytes → ℕ → Option Bytes
  pub fits :
      (block : Bytes) (room : ℕ) {out : Bytes}
      → decompress_into block room ≡ some out
      → length out ≤ room

-- The third-party decoders that a build has.
pub record Decoders : Type 1 where
  pub inflater : Inflater
  pub zstd_frame : Decoder
  pub xz_stream : Decoder
  pub lzma_stream : Decoder
  pub lz4_block : BlockDecoder

-- The output is within the cap, and the stream within the input.
abbrev pub Within : ℕ → ℕ → Bytes × ℕ → Type 0
Within max_out len (out, used) = (length out ≤ max_out) × (used ≤ len)

pub ok-Within :
    (max_out len : ℕ) (out : Bytes) (used : ℕ) {res : Bytes × ℕ}
    → ok (out, used) ≡ ok res
    → length out ≤ max_out
    → used ≤ len
    → Within max_out len res
ok-Within max_out len out used e capped inside =
    subst (Within max_out len) (ok-injective e) (capped, inside)
