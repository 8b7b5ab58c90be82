-- ===== src/Tests/Stream.antt =====
-- Runs of the stream decoder with a small inflater: a stream of plain bytes that ends in a zero.
use lamfold.Prelude.{
  ℕ, zero, suc, ◌+◌, ◌≤◌, Bytes, [], ◌∷◌, ◌++◌, length, leb, Option, none, some, ◌≡◌, refl, arith,
  le32_bytes, if◌then◌else◌,
}
use lamfold.Error.{ok}
use lamfold.Stream.Parts.{
  gzip, bzip2, sniff, crc32, stream_end, more, failed, Inflated, Inflater, Decoder, Decoders,
  Within,
}
use lamfold.Stream.Gzip.{inflate_loop, inflate_raw_stream, Verified, gzip-Verified}
use lamfold.Stream.Gzip
use lamfold.Stream.Frames
use lamfold.Stream.Lz4
use lamfold.Stream.Decode.{decode_stream, decode_stream-Within}
use lamfold.Stream.Ends.{inflate_turn, ReadsEnd, decode_stream-Halts}
use lamfold.Stream.Turns.{lz4_turn, zstd_turn}
use lamfold.Prelude.Halts.{Halts}

crc32_known_answer :
    crc32 (b'1' ∷ b'2' ∷ b'3' ∷ b'4' ∷ b'5' ∷ b'6' ∷ b'7' ∷ b'8' ∷ b'9' ∷ []) ≡ 0xcbf43926
unfolding crc32
crc32_known_answer = refl

sniff_bzip2 : sniff (b'B' ∷ b'Z' ∷ b'h' ∷ b'9' ∷ []) ≡ some bzip2
unfolding sniff
sniff_bzip2 = refl

sniff_cpio : sniff (b'0' ∷ b'7' ∷ b'0' ∷ b'7' ∷ []) ≡ none
unfolding sniff
sniff_cpio = refl

-- One byte at a time, as far as there is room.
abbrev pub step : Bytes → ℕ → Inflated (Unit {0})
step [] room = record { state = tt; bytes_consumed = 0; written = []; status = more }
step (b ∷ bs) zero = record { state = tt; bytes_consumed = 0; written = []; status = failed }
step (zero ∷ bs) (suc room) = record {
  state = tt;
  bytes_consumed = 1;
  written = [];
  status = stream_end;
}
step (suc b ∷ bs) (suc room) = record {
  state = tt;
  bytes_consumed = 1;
  written = suc b ∷ [];
  status = more;
}

pub step_consumed_le : (input : Bytes) (room : ℕ) → (step input room).bytes_consumed ≤ length input
step_consumed_le [] room = omega arith
step_consumed_le (b ∷ bs) zero = omega arith
step_consumed_le (zero ∷ bs) (suc room) = omega arith
step_consumed_le (suc b ∷ bs) (suc room) = omega arith

pub step_written_le : (input : Bytes) (room : ℕ) → length (step input room).written ≤ room
step_written_le [] room = omega arith
step_written_le (b ∷ bs) zero = omega arith
step_written_le (zero ∷ bs) (suc room) = omega arith
step_written_le (suc b ∷ bs) (suc room) = omega arith

abbrev pub plain_inflater : Inflater
plain_inflater = record {
  State = Unit {0};
  new_boxed = tt;
  inflate = λ s. step;
  consumed_le = λ s. step_consumed_le;
  written_le = λ s. step_written_le;
}

-- A reader that refuses every input, and a block that stands for itself.
abbrev pub no_reader : Decoder
no_reader = record {
  State = Unit {0};
  new = λ input. none;
  read = λ s room. none;
  left = λ s. 0;
  new_left = λ input h. omega arith;
  read_left = λ s room h. omega arith;
}

abbrev pub as_is : Bytes → ℕ → Option Bytes
as_is block room = if leb (length block) room then some block else none

pub as_is_fits :
    (block : Bytes) (room : ℕ) {out : Bytes} → as_is block room ≡ some out → length out ≤ room
as_is_fits block room h = ground (arith, h)

abbrev pub decoders : Decoders
decoders = record {
  inflater = plain_inflater;
  zstd_frame = no_reader;
  xz_stream = no_reader;
  lzma_stream = no_reader;
  lz4_block = record { decompress_into = as_is; fits = as_is_fits };
}

abbrev hi : Bytes
hi = b'h' ∷ b'i' ∷ []

abbrev gz : Bytes
gz =
    0x1f
    ∷ 0x8b
    ∷ 8
    ∷ 0
    ∷ 0
    ∷ 0
    ∷ 0
    ∷ 0
    ∷ 2
    ∷ 0xff
    ∷ b'h'
    ∷ b'i'
    ∷ 0
    ∷ (le32_bytes (crc32 hi) ++ (le32_bytes 2 ++ b'X' ∷ []))

gz_decodes : decode_stream decoders gzip gz 16 ≡ ok (hi, 21)
unfolding decode_stream le32_bytes crc32 Gzip.gzip inflate_raw_stream inflate_loop
gz_decodes = refl

decode_stream-Within_example : Within 16 (length gz) (hi, 21)
decode_stream-Within_example = decode_stream-Within decoders gzip gz 16 gz_decodes

gz_gunzips : Gzip.gzip plain_inflater gz 16 ≡ ok (hi, 21)
unfolding Gzip.gzip le32_bytes crc32 inflate_raw_stream inflate_loop
gz_gunzips = refl

gzip-Verified_example : Verified gz (hi, 21)
gzip-Verified_example = gzip-Verified plain_inflater gz 16 gz_gunzips

no_reader_Eats : Frames.Eats no_reader
no_reader_Eats input state h = absurd (cc)

decode_stream-Halts_example :
    Halts (inflate_turn plain_inflater gz 16) (tt, 0, []) (inflate_raw_stream plain_inflater gz 16)
    × Halts
        (zstd_turn no_reader 16)
        (gz, [], 0)
        (Frames.zstd_loop no_reader (length gz + 1) gz 16 [] 0)
    × ReadsEnd no_reader "zstd read failed"
    × ReadsEnd no_reader "xz read failed"
    × ReadsEnd no_reader "lzma read failed"
    × Halts
        (lz4_turn decoders.lz4_block gz 16)
        (4, [])
        (Lz4.lz4_loop decoders.lz4_block (length gz + 1) gz 16 4 [])
decode_stream-Halts_example = decode_stream-Halts decoders no_reader_Eats gz 16
