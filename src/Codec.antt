-- ===== src/Codec.antt =====
-- crates/lamfold/src/codec.rs: the registry of block decoders. The decoders are third-party crates, which
-- a build has or not: each is an optional field of `Codecs`, and `none` is a feature that is off.
pub mod Fill
pub mod Blocks
use lamfold.Prelude.{
  ℕ, zero, suc, ◌-◌, ◌%◌, ◌^◌, ◌≤◌, max, Bool, true, false, ltb, ◌==◌, if◌then◌else◌, Bytes, List,
  [], ◌∷◌, ◌++◌, length, take, replicate, Option, none, some, ◌≡◌,
}
use lamfold.Error.{FoldError, Result, ok, err, decompress, unsupported, ◌>>=◌, ◌>>◌, guard, ok_or}
use lamfold.ReadCap.{checked_block_len}
use lamfold.Source.{usize_end}

pub data Codec : Type 0 where
  deflate zlib lz4 xz zstd lzo : Codec

-- `miniz_oxide::inflate`: the limit bounds the output.
pub record Inflate : Type 0 where
  pub with_limit : Bytes → ℕ → Option Bytes
  pub zlib_with_limit : Bytes → ℕ → Option Bytes
  pub with_limit_le :
      (input : Bytes) (limit : ℕ) {out : Bytes}
      → with_limit input limit ≡ some out
      → length out ≤ limit
  pub zlib_with_limit_le :
      (input : Bytes) (limit : ℕ) {out : Bytes}
      → zlib_with_limit input limit ≡ some out
      → length out ≤ limit

-- `lz4_flex::block`: `decompress` makes no more than the size it is given; `decompress_into_with_dict`
-- writes into a buffer, and returns the number of bytes written with the buffer.
pub record Lz4Block : Type 0 where
  pub decompress : Bytes → ℕ → Option Bytes
  pub decompress_into_with_dict : Bytes → Bytes → Bytes → Option (ℕ × Bytes)
  pub decompress_le :
      (input : Bytes) (size : ℕ) {out : Bytes}
      → decompress input size ≡ some out
      → length out ≤ size
  pub into_length :
      (input buf dict : Bytes) {n : ℕ} {out : Bytes}
      → decompress_into_with_dict input buf dict ≡ some (n, out)
      → length out ≡ length buf

-- A `Read` of `ruzstd` or `lzma_rust2`: a read into a buffer of some length fails, or gives the bytes
-- written and the reader's next state.
pub record Reader : Type 1 where
  pub State : Type 0
  pub read : State → ℕ → Option (Bytes × State)
  pub read_le :
      (s : State) (room : ℕ) {bs : Bytes} {t : State}
      → read s room ≡ some (bs, t)
      → length bs ≤ room

-- `lzma_rust2`: `XzReader::new(input, false)` and `LzmaReader::new_with_props` of the input, the
-- decompressed length, the properties byte and the window.
pub record Lzma : Type 1 where
  pub xz_reader : Reader
  pub xz_new : Bytes → xz_reader.State
  pub lzma_reader : Reader
  pub new_with_props : Bytes → ℕ → ℕ → ℕ → Option lzma_reader.State

-- `ruzstd::decoding::StreamingDecoder`.
pub record Zstd : Type 1 where
  pub reader : Reader
  pub new : Bytes → Option reader.State

-- `lzokay::decompress::decompress`: the real length, and the buffer.
pub record Lzo : Type 0 where
  pub decompress : Bytes → Bytes → Option (ℕ × Bytes)
  pub decompress_length :
      (input buf : Bytes) {n : ℕ} {out : Bytes}
      → decompress input buf ≡ some (n, out)
      → length out ≡ length buf

pub record Codecs : Type 1 where
  pub deflate : Option Inflate
  pub lz4 : Option Lz4Block
  pub xz : Option Lzma
  pub zstd : Option Zstd
  pub lzo : Option Lzo

-- The loop that fills the output, over the turns left: `out` is the part of it that is filled. The code
-- reads into `out[filled..]` and leaves at a read of no bytes.
unfoldable pub fill : (r : Reader) → FoldError → ℕ → ℕ → r.State → Bytes → Result Bytes
fill r why len zero s out = ok out
fill r why len (suc turns) s out = elim (ltb (length out) len) [
  | false ↦ ok out
  | true ↦ do
    (bs, t) ← ok_or (r.read s (len - length out)) why
    elim (length bs == 0) [ true ↦ ok out | false ↦ fill r why len turns t (out ++ bs) ]
]

module _ (codecs : Codecs) where
  unfoldable pub inflate_zlib : Bytes → ℕ → Result Bytes
  inflate_zlib input expected_len = do
    lib ← ok_or codecs.deflate (unsupported "codec-deflate feature disabled")
    ok_or (lib.zlib_with_limit input expected_len) (decompress "zlib inflate failed")

  unfoldable pub inflate_raw : Bytes → ℕ → Result Bytes
  inflate_raw input expected_len = do
    lib ← ok_or codecs.deflate (unsupported "codec-deflate feature disabled")
    ok_or (lib.with_limit input expected_len) (decompress "raw inflate failed")

  unfoldable pub lz4_block : Bytes → ℕ → Result Bytes
  lz4_block input expected_len = do
    lib ← ok_or codecs.lz4 (unsupported "codec-lz4 feature disabled")
    ok_or (lib.decompress input expected_len) (decompress "lz4 block decompress failed")

  unfoldable pub zstd_decode : Bytes → ℕ → Result Bytes
  unfolding fill
  zstd_decode input expected_len = do
    lib ← ok_or codecs.zstd (unsupported "codec-zstd feature disabled")
    s ← ok_or (lib.new input) (decompress "zstd frame init failed")
    fill lib.reader (decompress "zstd read failed") expected_len expected_len s []

  unfoldable pub xz_decode : Bytes → ℕ → Result Bytes
  unfolding fill
  xz_decode input expected_len = do
    lib ← ok_or codecs.xz (unsupported "codec-xz feature disabled")
    let s = lib.xz_new input
    fill lib.xz_reader (decompress "xz read failed") expected_len expected_len s []

  unfoldable pub lzo_decode : Bytes → ℕ → Result Bytes
  unfolding replicate take
  lzo_decode input expected_len = do
    lib ← ok_or codecs.lzo (unsupported "codec-lzo feature disabled")
    (n, out) ←
        ok_or (lib.decompress input (replicate expected_len 0)) (decompress "lzo decompress failed")
    ok (take n out)

  unfoldable pub decode_as : Codec → Bytes → ℕ → Result Bytes
  unfolding inflate_zlib inflate_raw lz4_block zstd_decode xz_decode lzo_decode
  decode_as deflate input expected_len = inflate_raw input expected_len
  decode_as zlib input expected_len = inflate_zlib input expected_len
  decode_as lz4 input expected_len = lz4_block input expected_len
  decode_as xz input expected_len = xz_decode input expected_len
  decode_as zstd input expected_len = zstd_decode input expected_len
  decode_as lzo input expected_len = lzo_decode input expected_len

  -- `decode`: the declared size is checked before the codec is chosen.
  unfoldable pub decode : Codec → Bytes → ℕ → Result Bytes
  unfolding checked_block_len decode_as
  decode codec input expected_len = do
    _ ← checked_block_len usize_end expected_len
    decode_as codec input expected_len

  unfoldable pub lz4_block_with_dict : Bytes → ℕ → Bytes → Result Bytes
  unfolding checked_block_len replicate
  lz4_block_with_dict input expected_len dict = do
    lib ← ok_or codecs.lz4 (unsupported "codec-lz4 feature disabled")
    _ ← checked_block_len usize_end expected_len
    (n, out) ←
        ok_or (lib.decompress_into_with_dict input (replicate expected_len 0) dict)
          (decompress "erofs lz4 dict decompress failed")
    guard (n == expected_len) (decompress "erofs lz4 dict decompress: short output")
    ok out

  -- `span.split_first()`, with the first byte replaced by 0.
  abbrev pub restore_slot : Bytes → Result Bytes
  restore_slot [] = err (decompress "erofs microlzma: empty span")
  restore_slot (discard ∷ body) = ok (0 ∷ body)

  unfoldable pub microlzma_block_decode : Bytes → ℕ → ℕ → ℕ → Result Bytes
  unfolding checked_block_len fill
  microlzma_block_decode span props dict_size expected_len = do
    lib ← ok_or codecs.xz (unsupported "codec-xz feature disabled")
    _ ← checked_block_len usize_end expected_len
    stream ← restore_slot span
    let window = max dict_size (expected_len % 2 ^ 32)
    s ←
        ok_or (lib.new_with_props stream expected_len props window)
          (decompress "erofs microlzma: init")
    out ← fill lib.lzma_reader (decompress "erofs microlzma: read") expected_len expected_len s []
    guard (length out == expected_len) (decompress "erofs microlzma: short output")
    ok out
