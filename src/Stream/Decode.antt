-- ===== src/Stream/Decode.antt =====
-- `decode_stream` of crates/lamfold/src/stream.rs, with every codec built in.
use lamfold.Prelude.{ℕ, Bytes, length, ◌≡◌}
use lamfold.Error.{Result, ok, err, corrupt, decompress, unsupported}
use lamfold.Stream.Parts.{StreamCodec, zstd, xz, lzma, lz4_legacy, bzip2, lzo, Decoders, Within}
use lamfold.Stream.Gzip.{gzip, gzip-Within}
use lamfold.Stream.Frames
use lamfold.Stream.Lz4

module _ (d : Decoders) where
  -- `XzReader::new` refuses nothing; a reader that does, does so as at its first read.
  unfoldable pub decode_stream : StreamCodec → Bytes → ℕ → Result (Bytes × ℕ)
  decode_stream StreamCodec.gzip input max_out = gzip d.inflater input max_out
  decode_stream zstd input max_out = Frames.zstd d.zstd_frame input max_out
  decode_stream xz input max_out =
      Frames.one_stream d.xz_stream (decompress "xz read failed") "xz read failed" input max_out
  decode_stream lzma input max_out =
      Frames.one_stream d.lzma_stream (corrupt "lzma_header") "lzma read failed" input max_out
  decode_stream lz4_legacy input max_out = Lz4.lz4_legacy d.lz4_block input max_out
  decode_stream bzip2 input max_out = err (unsupported "stream_bzip2")
  decode_stream lzo input max_out = err (unsupported "stream_lzo")

  -- A stream of any format that decodes gives no more than `max_out` bytes and takes no more of the
  -- input than there is, whatever the decoders of the single formats write.
  pub decode_stream-Within :
      (codec : StreamCodec) (input : Bytes) (max_out : ℕ) {res : Bytes × ℕ}
      → decode_stream codec input max_out ≡ ok res
      → Within max_out (length input) res
  unfolding decode_stream
  decode_stream-Within StreamCodec.gzip input max_out h = gzip-Within d.inflater input max_out h
  decode_stream-Within zstd input max_out h = Frames.zstd-Within d.zstd_frame input max_out h
  decode_stream-Within xz input max_out h = Frames.one_stream-Within d.xz_stream _ _ input max_out h
  decode_stream-Within lzma input max_out h =
      Frames.one_stream-Within d.lzma_stream _ _ input max_out h
  decode_stream-Within lz4_legacy input max_out h =
      Lz4.lz4_legacy-Within d.lz4_block input max_out h
  decode_stream-Within bzip2 input max_out h = absurd (cc)
  decode_stream-Within lzo input max_out h = absurd (cc)
