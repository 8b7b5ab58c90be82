-- ===== src/Stream/Ends.antt =====
-- The loops of crates/lamfold/src/stream.rs end: their turns, from the first one on, come to the result.
use lamfold.Prelude.{
  ℕ, zero, suc, ◌+◌, ◌-◌, ◌≤◌, ◌<◌, String, Bool, true, false, ◌||◌, ltb, Bytes, [], length, drop,
  length-drop, ◌≡◌, refl, arith, inl, inr,
}
use lamfold.Prelude.Halts.{Turn, stop, go, Halts, stops, goes}
use lamfold.Error.{Result, ok, err, corrupt, Result-cases}
use lamfold.Stream.Parts.{
  Status, stream_end, more, failed, Inflater, Decoder, Decoders, chunk_len, push_capped,
  push_capped-eq-ok,
}
use lamfold.Stream.Gzip.{next_turn, inflate_loop, inflate_raw_stream}
use lamfold.Stream.Frames.{read_all_capped, zstd_loop, Eats}
use lamfold.Stream.Turns.{
  lz4_turn, lz4_loop-Halts, read_turn, read_all_capped-Halts, zstd_turn, zstd_loop-Halts,
}
use lamfold.Stream.Lz4.{lz4_loop}

module _ {S R : Type 0} where
  -- How a turn of the inflate loop goes on.
  abbrev pub after : Status → Bool → Result R → S → Turn S (Result R)
  after stream_end going last next = stop last
  after more true last next = go next
  after more false last next = stop (err (corrupt "deflate_truncated"))
  after failed going last next = stop (err (corrupt "deflate_truncated"))

module _ (z : Inflater) (input : Bytes) (max_out : ℕ) where
  abbrev pub Inflating : Type 0
  Inflating = z.State × ℕ × Bytes

  -- A turn of the inflate loop: it goes on after progress.
  unfoldable pub inflate_turn : Inflating → Turn Inflating (Result (Bytes × ℕ))
  inflate_turn (state, pos, out) =
      let r = z.inflate state (drop pos input) chunk_len in
      elim (push_capped out r.written max_out) [
        | err why ↦ stop (err why)
        | ok out' ↦
            after r.status (ltb 0 r.bytes_consumed || ltb 0 (length r.written))
              (ok (out', pos + r.bytes_consumed)) (r.state, pos + r.bytes_consumed, out')
      ]

  next_turn-Halts :
      (s t : Inflating) (status : Status) (going : Bool) (last again : Result (Bytes × ℕ))
      → inflate_turn s ≡ after status going last t
      → (going ≡ true → Halts inflate_turn t again)
      → Halts inflate_turn s (next_turn status going last again)
  unfolding next_turn
  next_turn-Halts s t stream_end going last again e h = stops e
  next_turn-Halts s t more true last again e h = goes e (h refl)
  next_turn-Halts s t more false last again e h = stops e
  next_turn-Halts s t failed going last again e h = stops e

  inflate_loop-Halts :
      (fuel : ℕ) (state : z.State) (pos : ℕ) (out : Bytes)
      → pos ≤ length input
      → length out ≤ max_out
      → (length input - pos) + (max_out - length out) < fuel
      → Halts inflate_turn (state, pos, out) (inflate_loop z fuel state input max_out pos out)
  unfolding inflate_loop inflate_turn
  inflate_loop-Halts zero state pos out le short p = absurd (omega arith)
  inflate_loop-Halts (suc fuel) state pos out le short p =
      let r = z.inflate state (drop pos input) chunk_len in
      let inside : pos + r.bytes_consumed ≤ length input =
        omega (arith, z.consumed_le state (drop pos input) chunk_len, length-drop pos input) in
      elim (Result-cases (push_capped out r.written max_out)) [
        | inr (why, e) ↦ rw (inflate_loop, e) (stops (rw (inflate_turn, e) refl))
        | inl (out', e) ↦
            let (_, capped, grown) = push_capped-eq-ok out r.written max_out e in
            rw (inflate_loop, e)
              (next_turn-Halts (state, pos, out) (r.state, pos + r.bytes_consumed, out') r.status
                (ltb 0 r.bytes_consumed || ltb 0 (length r.written))
                (ok (out', pos + r.bytes_consumed))
                (inflate_loop z fuel r.state input max_out (pos + r.bytes_consumed) out')
                (rw (inflate_turn, e) refl)
                (λ going.
                  inflate_loop-Halts fuel r.state (pos + r.bytes_consumed) out' inside capped
                    (ground (arith, going, grown, capped, inside))))
      ]

-- The capped reads of a decoder come to an end, whatever the cap.
abbrev pub ReadsEnd : Decoder → String → Type 0
ReadsEnd r what =
    (state : r.State) (cap : ℕ)
    → Halts (read_turn r cap what) (state, []) (read_all_capped r state cap what)

module _ (d : Decoders) where
  -- The loops of the stream decoders end by themselves: turn after turn, each comes from its first state
  -- to a turn that stops it, with the result that the decoder of its format works with. The inflate loop,
  -- the capped reads of zstd, xz and lzma and the lz4 loop need nothing of their decoders for it; the loop
  -- over zstd frames needs that a frame that opens has taken at least one byte of the input.
  pub decode_stream-Halts :
      Eats d.zstd_frame
      → (input : Bytes) (max_out : ℕ)
      → Halts
          (inflate_turn d.inflater input max_out)
          (d.inflater.new_boxed, 0, [])
          (inflate_raw_stream d.inflater input max_out)
        × Halts
            (zstd_turn d.zstd_frame max_out)
            (input, [], 0)
            (zstd_loop d.zstd_frame (length input + 1) input max_out [] 0)
        × ReadsEnd d.zstd_frame "zstd read failed"
        × ReadsEnd d.xz_stream "xz read failed"
        × ReadsEnd d.lzma_stream "lzma read failed"
        × Halts
            (lz4_turn d.lz4_block input max_out)
            (4, [])
            (lz4_loop d.lz4_block (length input + 1) input max_out 4 [])
  unfolding inflate_raw_stream
  decode_stream-Halts eats input max_out = (
    inflate_loop-Halts d.inflater input max_out (length input + max_out + 2) d.inflater.new_boxed 0
        [] (omega arith) (omega arith) (omega arith),
    zstd_loop-Halts d.zstd_frame max_out (length input + 1) input [] 0 eats (omega arith),
    λ state cap. read_all_capped-Halts d.zstd_frame cap "zstd read failed" state,
    λ state cap. read_all_capped-Halts d.xz_stream cap "xz read failed" state,
    λ state cap. read_all_capped-Halts d.lzma_stream cap "lzma read failed" state,
    lz4_loop-Halts d.lz4_block input max_out (length input + 1) 4 [] (omega arith),
  )
