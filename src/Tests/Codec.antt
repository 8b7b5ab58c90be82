-- ===== src/Tests/Codec.antt =====
-- A build whose decoders store their input, with a reader that gives two bytes at a time.
use lamfold.Prelude.{
  ℕ, ◌≤◌, min, Bytes, [], ◌∷◌, ◌++◌, length, take, drop, length-take, length-drop, length-append,
  Option, some, none, ◌≡◌, ◌↔◌, refl, arith,
}
use lamfold.Error.{ok, err, decompress, file_too_large}
use lamfold.ReadCap.{max_decompressed_block_bytes}
use lamfold.Codec.{
  zlib, zstd, xz, lzo, Codecs, Reader, Inflate, Lz4Block, Lzma, fill, decode, lz4_block_with_dict,
  microlzma_block_decode,
}
use lamfold.Codec.Blocks.{decode_le, bomb_refused}
use lamfold.Codec.Fill.{Drains, fill-Drains}

unfoldable pub stored : Bytes → ℕ → Option Bytes
unfolding take
stored input limit = some (take limit input)

pub stored_le :
    (input : Bytes) (limit : ℕ) {out : Bytes} → stored input limit ≡ some out → length out ≤ limit
unfolding stored
stored_le input limit h = ground (arith, length-take limit input)

abbrev pub deflate_lib : Inflate
deflate_lib = record {
  with_limit = stored;
  zlib_with_limit = stored;
  with_limit_le = stored_le;
  zlib_with_limit_le = stored_le;
}

-- Fills the buffer from the front, and leaves the rest.
unfoldable pub into : Bytes → Bytes → Option (ℕ × Bytes)
unfolding take drop
into input buf =
    some (min (length input) (length buf), take (length buf) input ++ drop (length input) buf)

pub into-length :
    (input buf : Bytes) {n : ℕ} {out : Bytes}
    → into input buf ≡ some (n, out)
    → length out ≡ length buf
unfolding into
into-length input buf h = ground (
  arith,
  length-append (take (length buf) input) (drop (length input) buf),
  length-take (length buf) input,
  length-drop (length input) buf,
)

abbrev pub lz4_lib : Lz4Block
lz4_lib = record {
  decompress = stored;
  decompress_into_with_dict = λ input buf dict. into input buf;
  decompress_le = stored_le;
  into_length = λ input buf dict h. into-length input buf h;
}

unfoldable pub read_two : Bytes → ℕ → Option (Bytes × Bytes)
unfolding take drop
read_two s room = some (take (min 2 room) s, drop (min 2 room) s)

pub read_two_le :
    (s : Bytes) (room : ℕ) {bs t : Bytes} → read_two s room ≡ some (bs, t) → length bs ≤ room
unfolding read_two
read_two_le s room h = ground (arith, length-take (min 2 room) s)

abbrev pub reader : Reader
reader = record { State = Bytes; read = read_two; read_le = read_two_le }

abbrev pub lzma_lib : Lzma
lzma_lib = record {
  xz_reader = reader;
  xz_new = λ input. input;
  lzma_reader = reader;
  new_with_props = λ input len props window. some input;
}

abbrev pub build : Codecs
build = record {
  deflate = some deflate_lib;
  lz4 = some lz4_lib;
  xz = some lzma_lib;
  zstd = none;
  lzo = some (record { decompress = into; decompress_length = into-length });
}

abbrev data3 : Bytes
data3 = 7 ∷ 8 ∷ 9 ∷ []

program : Unit {0}
unfolding stored into read_two fill decode lz4_block_with_dict microlzma_block_decode
program = tt

decodes :
    (decode build zlib data3 4 ≡ ok data3)
    × (decode build xz data3 4 ≡ ok data3)
    × (decode build lzo data3 2 ≡ ok (7 ∷ 8 ∷ []))
unfolding program
decodes = (refl, refl, refl)

decode_le_example : (length data3 ≤ 4) × (4 ≤ max_decompressed_block_bytes)
decode_le_example = decode_le build data3 4 xz data3 decodes.1

lz4_decodes : lz4_block_with_dict build data3 3 [] ≡ ok data3
unfolding program
lz4_decodes = refl

micro_decodes : microlzma_block_decode build data3 93 4096 3 ≡ ok (0 ∷ 8 ∷ 9 ∷ [])
unfolding program
micro_decodes = refl

bomb_refused_example :
    let refused = err (file_too_large 16_777_217 max_decompressed_block_bytes) in
    (decode build zstd [] 16_777_217 ≡ refused)
    × (lz4_block_with_dict build [] 16_777_217 [] ≡ refused)
    × (microlzma_block_decode build [] 93 4096 16_777_217 ≡ refused)
bomb_refused_example =
    bomb_refused build lz4_lib lzma_lib zstd [] [] 93 4096 16_777_217 refl refl (omega arith)

fill-Drains_example :
    (fill reader (decompress "xz read failed") 3 3 data3 [] ≡ ok data3)
    ↔ Drains reader 3 data3 [] data3
fill-Drains_example = fill-Drains reader (decompress "xz read failed") 3 data3 data3
