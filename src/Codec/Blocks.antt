-- ===== src/Codec/Blocks.antt =====
-- The decoded blocks of crates/lamfold/src/codec.rs: their length, and the guard on a declared length.
use lamfold.Prelude.{
  ℕ, ◌%◌, ◌^◌, ◌≤◌, ◌<◌, max, ◌==◌, ==→eq, Bytes, [], length, replicate, length-take,
  length-replicate, some, ◌≡◌, refl, arith,
}
use lamfold.Error.{
  ok, err, file_too_large, decompress, ◌>>=◌, guard, ok_or, bind-eq-ok, ok_or-eq-ok, guard-eq-ok,
  ok-injective,
}
use lamfold.ReadCap.{checked_block_len, max_decompressed_block_bytes}
use lamfold.Source.{usize_end}
use lamfold.Codec.{
  Codec, deflate, zlib, lz4, xz, zstd, lzo, Lz4Block, Lzma, Codecs, fill, inflate_zlib, inflate_raw,
  lz4_block, zstd_decode, xz_decode, lzo_decode, decode_as, decode, lz4_block_with_dict,
  restore_slot, microlzma_block_decode,
}
use lamfold.Codec.Fill.{fill_le}

checked_block_len-eq-ok :
    (n : ℕ) {m : ℕ} → checked_block_len usize_end n ≡ ok m → n ≤ max_decompressed_block_bytes
unfolding checked_block_len
checked_block_len-eq-ok n h = ground arith

checked_block_len_over :
    (n : ℕ)
    → max_decompressed_block_bytes < n
    → checked_block_len usize_end n ≡ err (file_too_large n max_decompressed_block_bytes)
unfolding checked_block_len
checked_block_len_over n h = ground arith

module _ (codecs : Codecs) (input : Bytes) (len : ℕ) where
  inflate_zlib_le : {out : Bytes} → inflate_zlib codecs input len ≡ ok out → length out ≤ len
  unfolding inflate_zlib
  inflate_zlib_le h =
      let (lib, _, h1) = bind-eq-ok (ok_or codecs.deflate _) _ h in
      lib.zlib_with_limit_le input len (ok_or-eq-ok (lib.zlib_with_limit input len) _ h1)

  inflate_raw_le : {out : Bytes} → inflate_raw codecs input len ≡ ok out → length out ≤ len
  unfolding inflate_raw
  inflate_raw_le h =
      let (lib, _, h1) = bind-eq-ok (ok_or codecs.deflate _) _ h in
      lib.with_limit_le input len (ok_or-eq-ok (lib.with_limit input len) _ h1)

  lz4_block_le : {out : Bytes} → lz4_block codecs input len ≡ ok out → length out ≤ len
  unfolding lz4_block
  lz4_block_le h =
      let (lib, _, h1) = bind-eq-ok (ok_or codecs.lz4 _) _ h in
      lib.decompress_le input len (ok_or-eq-ok (lib.decompress input len) _ h1)

  zstd_decode_le : {out : Bytes} → zstd_decode codecs input len ≡ ok out → length out ≤ len
  unfolding zstd_decode
  zstd_decode_le h =
      let (lib, _, h1) = bind-eq-ok (ok_or codecs.zstd _) _ h in
      let (s, _, h2) = bind-eq-ok (ok_or (lib.new input) _) _ h1 in
      fill_le lib.reader (decompress "zstd read failed") len len s [] h2 (omega arith)

  xz_decode_le : {out : Bytes} → xz_decode codecs input len ≡ ok out → length out ≤ len
  unfolding xz_decode
  xz_decode_le h =
      let (lib, _, h1) = bind-eq-ok (ok_or codecs.xz _) _ h in
      fill_le lib.xz_reader (decompress "xz read failed") len len (lib.xz_new input) [] h1
        (omega arith)

  lzo_decode_le : {out : Bytes} → lzo_decode codecs input len ≡ ok out → length out ≤ len
  unfolding lzo_decode
  lzo_decode_le h =
      let (lib, _, h1) = bind-eq-ok (ok_or codecs.lzo _) _ h in
      let (r, e, h2) =
        bind-eq-ok
          (ok_or (lib.decompress input (replicate len 0)) (decompress "lzo decompress failed")) _
          h1 in
      let whole =
        lib.decompress_length input (replicate len 0)
          (ok_or-eq-ok (lib.decompress input (replicate len 0)) _ e) in
      ground (arith, ok-injective h2, length-take r.0 r.1, length-replicate {A = ℕ} len 0)

  decode_as_le :
      (c : Codec) {out : Bytes} → decode_as codecs c input len ≡ ok out → length out ≤ len
  unfolding decode_as
  decode_as_le deflate h = inflate_raw_le h
  decode_as_le zlib h = inflate_zlib_le h
  decode_as_le lz4 h = lz4_block_le h
  decode_as_le xz h = xz_decode_le h
  decode_as_le zstd h = zstd_decode_le h
  decode_as_le lzo h = lzo_decode_le h

  -- A block that any codec decodes has at most the declared length, which is then at most the 16 MiB cap.
  pub decode_le :
      (c : Codec) (out : Bytes)
      → decode codecs c input len ≡ ok out
      → (length out ≤ len) × (len ≤ max_decompressed_block_bytes)
  unfolding decode
  decode_le c out h =
      let (_, e, h1) = bind-eq-ok (checked_block_len usize_end len) _ h in
      (decode_as_le c h1, checked_block_len-eq-ok len e)

  lz4_block_with_dict-length :
      (dict : Bytes) {out : Bytes}
      → lz4_block_with_dict codecs input len dict ≡ ok out
      → (length out ≡ len) × (len ≤ max_decompressed_block_bytes)
  unfolding lz4_block_with_dict
  lz4_block_with_dict-length dict h =
      let (lib, _, h1) = bind-eq-ok (ok_or codecs.lz4 _) _ h in
      let (_, cap, h2) = bind-eq-ok (checked_block_len usize_end len) _ h1 in
      let run = lib.decompress_into_with_dict input (replicate len 0) dict in
      let (r, e, h3) = bind-eq-ok (ok_or run _) _ h2 in
      let (_, _, h4) = bind-eq-ok (guard (r.0 == len) _) _ h3 in
      let whole = lib.into_length input (replicate len 0) dict (ok_or-eq-ok run _ e) in
      (
        ground (arith, ok-injective h4, length-replicate {A = ℕ} len 0),
        checked_block_len-eq-ok len cap,
      )

  microlzma_block_decode-length :
      (props dict_size : ℕ) {out : Bytes}
      → microlzma_block_decode codecs input props dict_size len ≡ ok out
      → (length out ≡ len) × (len ≤ max_decompressed_block_bytes)
  unfolding microlzma_block_decode
  microlzma_block_decode-length props dict_size h =
      let (lib, _, h1) = bind-eq-ok (ok_or codecs.xz _) _ h in
      let (_, cap, h2) = bind-eq-ok (checked_block_len usize_end len) _ h1 in
      let (stream, _, h3) = bind-eq-ok (restore_slot codecs input) _ h2 in
      let init = lib.new_with_props stream len props (max dict_size (len % 2 ^ 32)) in
      let (s, _, h4) = bind-eq-ok (ok_or init _) _ h3 in
      let (out', _, h5) =
        bind-eq-ok (fill lib.lzma_reader (decompress "erofs microlzma: read") len len s []) _ h4 in
      let (_, g, h6) = bind-eq-ok (guard (length out' == len) _) _ h5 in
      (
        ground (arith, ok-injective h6, ==→eq (length out') len (guard-eq-ok _ _ g)),
        checked_block_len-eq-ok len cap,
      )

-- A block that one of the two erofs decoders has given.
pub data ErofsBlock (codecs : Codecs) (input : Bytes) (len : ℕ) (out : Bytes) : Type 0 where
  with_dict :
      (dict : Bytes)
      → lz4_block_with_dict codecs input len dict ≡ ok out
      → ErofsBlock codecs input len out
  microlzma :
      (props dict_size : ℕ)
      → microlzma_block_decode codecs input props dict_size len ≡ ok out
      → ErofsBlock codecs input len out

-- A block that `lz4_block_with_dict` or `microlzma_block_decode` gives has exactly the declared length,
-- which is at most the 16 MiB cap.
pub ErofsBlock-exact :
    (codecs : Codecs) (input : Bytes) (len : ℕ) (out : Bytes)
    → ErofsBlock codecs input len out
    → (length out ≡ len) × (len ≤ max_decompressed_block_bytes)
ErofsBlock-exact codecs input len out (with_dict dict h) =
    lz4_block_with_dict-length codecs input len dict h
ErofsBlock-exact codecs input len out (microlzma props dict_size h) =
    microlzma_block_decode-length codecs input len props dict_size h

-- With the lz4 and xz features on, a declared length above the 16 MiB cap is refused as too large by
-- all three entry points, whatever the codec, the input (an empty one too), the dictionary and the
-- properties are.
pub bomb_refused :
    (codecs : Codecs) (lz : Lz4Block) (xz_lib : Lzma) (c : Codec) (input dict : Bytes)
    (props dict_size len : ℕ)
    → codecs.lz4 ≡ some lz
    → codecs.xz ≡ some xz_lib
    → max_decompressed_block_bytes < len
    → let refused = err (file_too_large len max_decompressed_block_bytes) in
      (decode codecs c input len ≡ refused)
      × (lz4_block_with_dict codecs input len dict ≡ refused)
      × (microlzma_block_decode codecs input props dict_size len ≡ refused)
unfolding decode lz4_block_with_dict microlzma_block_decode
bomb_refused codecs lz xz_lib c input dict props dict_size len has_lz4 has_xz over =
    let cap = checked_block_len_over len over in
    (rw cap refl, rw (has_lz4, ◌>>=◌, cap) refl, rw (has_xz, ◌>>=◌, cap) refl)
