-- ===== src/Stream/Turns.antt =====
-- The turns of the lz4 loop, of a capped read and of the loop over zstd frames of crates/lamfold/src/stream.rs:
-- one after the other they come to an end.
use lamfold.Prelude.{
  ℕ, zero, suc, ◌+◌, ◌-◌, ◌≤◌, ◌<◌, String, true, false, ◌==◌, Bytes, [], ◌∷◌, length, take, drop,
  slice?, slice?_bound, length-drop, le32, bytes_eq, none, some, refl, arith, inl, inr,
  Option-cases, Bool-cases,
}
use lamfold.Prelude.Halts.{Turn, stop, go, Halts, stops, goes}
use lamfold.Error.{Result, ok, err, corrupt, decompress, ok_or, ◌>>=◌, Result-cases}
use lamfold.Stream.Parts.{
  BlockDecoder, Decoder, chunk_len, push_capped, push_capped-eq-ok, starts_with, lz4_legacy_magic,
}
use lamfold.Stream.Gzip.{tail_from}
use lamfold.Stream.Frames.{
  read_loop, read_all_capped, is_skippable, zstd_loop, Eats, tail_from_short, is_skippable_long,
  read_loop-Read,
}
use lamfold.Stream.Lz4.{is_block_size, lz4_block, lz4_loop}

module _ (z : BlockDecoder) (input : Bytes) (max_out : ℕ) where
  -- A turn of the lz4 loop: a repeated magic or a block is passed over, anything else ends the stream.
  unfoldable pub lz4_turn : ℕ × Bytes → Turn (ℕ × Bytes) (Result (Bytes × ℕ))
  lz4_turn (pos, out) = elim (slice? input pos 4) [
    | none ↦ stop (ok (out, pos))
    | some head ↦ elim (bytes_eq head lz4_legacy_magic) [
      | true ↦ go (pos + 4, out)
      | false ↦ elim (is_block_size (le32 head) (length input - pos - 4)) [
        | false ↦ stop (ok (out, pos))
        | true ↦ elim (lz4_block z (take (le32 head) (drop (pos + 4) input)) out max_out) [
          | err why ↦ stop (err why)
          | ok out' ↦ go (pos + (4 + le32 head), out')
        ]
      ]
    ]
  ]

  pub lz4_loop-Halts :
      (fuel pos : ℕ) (out : Bytes)
      → length input - pos < fuel
      → Halts lz4_turn (pos, out) (lz4_loop z fuel input max_out pos out)
  unfolding lz4_loop lz4_turn
  lz4_loop-Halts zero pos out p = absurd (omega arith)
  lz4_loop-Halts (suc fuel) pos out p = elim (Option-cases (slice? input pos 4)) [
    | inl e ↦ rw (lz4_loop, e) (stops (rw (lz4_turn, e) refl))
    | inr (head, e) ↦
        let there = slice?_bound input pos 4 e in
        elim (Bool-cases (bytes_eq head lz4_legacy_magic)) [
          | inl m ↦
              rw (lz4_loop, e, m)
                (goes (rw (lz4_turn, e, m) refl) (lz4_loop-Halts fuel (pos + 4) out (omega arith)))
          | inr m ↦ elim (Bool-cases (is_block_size (le32 head) (length input - pos - 4))) [
            | inr s ↦ rw (lz4_loop, e, m, s) (stops (rw (lz4_turn, e, m, s) refl))
            | inl s ↦
                let block = take (le32 head) (drop (pos + 4) input) in
                elim (Result-cases (lz4_block z block out max_out)) [
                  | inr (why, r) ↦
                      rw (lz4_loop, e, m, s, r) (stops (rw (lz4_turn, e, m, s, r) refl))
                  | inl (out', r) ↦
                      rw (lz4_loop, e, m, s, r)
                        (goes (rw (lz4_turn, e, m, s, r) refl)
                          (lz4_loop-Halts fuel (pos + (4 + le32 head)) out' (omega arith)))
                ]
          ]
        ]
  ]

module _ (d : Decoder) (max_out : ℕ) (what : String) where
  -- A turn of a capped read: an empty chunk ends it.
  unfoldable pub read_turn : d.State × Bytes → Turn (d.State × Bytes) (Result (Bytes × d.State))
  read_turn (state, out) = elim (ok_or (d.read state chunk_len) (decompress what)) [
    | err why ↦ stop (err why)
    | ok (chunk, state') ↦ elim (length chunk == 0) [
      | true ↦ stop (ok (out, state'))
      | false ↦ elim (push_capped out chunk max_out) [
        | err why ↦ stop (err why)
        | ok out' ↦ go (state', out')
      ]
    ]
  ]

  read_loop-Halts :
      (fuel : ℕ) (state : d.State) (out : Bytes)
      → length out ≤ max_out
      → max_out - length out < fuel
      → Halts read_turn (state, out) (read_loop d fuel state max_out what out)
  unfolding read_loop read_turn
  read_loop-Halts zero state out le p = absurd (omega arith)
  read_loop-Halts (suc fuel) state out le p =
      elim (Result-cases (ok_or (d.read state chunk_len) (decompress what))) [
        | inr (why, e) ↦ rw (read_loop, e, ◌>>=◌) (stops (rw (read_turn, e) refl))
        | inl ((chunk, state'), e) ↦ elim (Bool-cases (length chunk == 0)) [
          | inl last ↦ rw (read_loop, e, ◌>>=◌, last) (stops (rw (read_turn, e, last) refl))
          | inr on ↦ elim (Result-cases (push_capped out chunk max_out)) [
            | inr (why, r) ↦ rw (read_loop, e, ◌>>=◌, on, r) (stops (rw (read_turn, e, on, r) refl))
            | inl (out', r) ↦
                let (_, capped, grown) = push_capped-eq-ok out chunk max_out r in
                rw (read_loop, e, ◌>>=◌, on, r)
                  (goes (rw (read_turn, e, on, r) refl)
                    (read_loop-Halts fuel state' out' capped (ground (arith, on, grown))))
          ]
        ]
      ]

  pub read_all_capped-Halts :
      (state : d.State) → Halts read_turn (state, []) (read_all_capped d state max_out what)
  unfolding read_all_capped
  read_all_capped-Halts state = read_loop-Halts (max_out + 2) state [] (omega arith) (omega arith)

module _ (d : Decoder) (max_out : ℕ) where
  -- A turn of the loop over zstd frames: a skippable frame is passed over, a frame is read, and anything
  -- else ends the stream.
  unfoldable pub zstd_turn : Bytes × Bytes × ℕ → Turn (Bytes × Bytes × ℕ) (Result (Bytes × ℕ × ℕ))
  zstd_turn (rest, out, frames) = elim (is_skippable d rest) [
    | true ↦ elim (ok_or (tail_from rest (8 + le32 (drop 4 rest))) (corrupt "zstd_truncated")) [
      | err why ↦ stop (err why)
      | ok rest' ↦ go (rest', out, frames)
    ]
    | false ↦ elim (starts_with (0x28 ∷ 0xb5 ∷ 0x2f ∷ 0xfd ∷ []) rest) [
      | false ↦ stop (ok (out, length rest, frames))
      | true ↦ elim (ok_or (d.new rest) (decompress "zstd frame init failed")) [
        | err why ↦ stop (err why)
        | ok state ↦ elim (read_all_capped d state (max_out - length out) "zstd read failed") [
          | err why ↦ stop (err why)
          | ok (frame, state') ↦ elim (push_capped out frame max_out) [
            | err why ↦ stop (err why)
            | ok out' ↦ go (drop (length rest - d.left state') rest, out', frames + 1)
          ]
        ]
      ]
    ]
  ]

  pub zstd_loop-Halts :
      (fuel : ℕ) (rest out : Bytes) (frames : ℕ)
      → Eats d
      → length rest < fuel
      → Halts zstd_turn (rest, out, frames) (zstd_loop d fuel rest max_out out frames)
  unfolding zstd_loop zstd_turn read_all_capped
  zstd_loop-Halts zero rest out frames eats p = absurd (omega arith)
  zstd_loop-Halts (suc fuel) rest out frames eats p = elim (Bool-cases (is_skippable d rest)) [
    | inl skip ↦
        let long = is_skippable_long d rest skip in
        elim (Option-cases (tail_from rest (8 + le32 (drop 4 rest)))) [
          | inl e ↦ rw (zstd_loop, skip, e) (stops (rw (zstd_turn, skip, e) refl))
          | inr (tail, e) ↦
              let size = tail_from_short d rest (8 + le32 (drop 4 rest)) e in
              rw (zstd_loop, skip, e)
                (goes (rw (zstd_turn, skip, e) refl)
                  (zstd_loop-Halts fuel tail out frames eats (omega arith)))
        ]
    | inr plain ↦ elim (Bool-cases (starts_with (0x28 ∷ 0xb5 ∷ 0x2f ∷ 0xfd ∷ []) rest)) [
      | inr end ↦ rw (zstd_loop, plain, end) (stops (rw (zstd_turn, plain, end) refl))
      | inl frame_ ↦ elim (Option-cases (d.new rest)) [
        | inl e ↦ rw (zstd_loop, plain, frame_, e) (stops (rw (zstd_turn, plain, frame_, e) refl))
        | inr (state, e) ↦
            let room = max_out - length out in
            elim (Result-cases (read_loop d (room + 2) state room "zstd read failed" [])) [
              | inr (why, r) ↦
                  rw (zstd_loop, plain, frame_, e, r)
                    (stops (rw (zstd_turn, plain, frame_, e, r) refl))
              | inl ((frame, state'), r) ↦ elim (Result-cases (push_capped out frame max_out)) [
                | inr (why, o) ↦
                    rw (zstd_loop, plain, frame_, e, r, o)
                      (stops (rw (zstd_turn, plain, frame_, e, r, o) refl))
                | inl (out', o) ↦
                    let used = length rest - d.left state' in
                    let (_, less) =
                      read_loop-Read d (room + 2) state room "zstd read failed" [] (omega arith)
                        r in
                    let ate = eats rest state e in
                    let size = length-drop used rest in
                    rw (zstd_loop, plain, frame_, e, r, o)
                      (goes (rw (zstd_turn, plain, frame_, e, r, o) refl) (
                        zstd_loop-Halts fuel (drop used rest) out' (frames + 1) eats (omega arith)))
              ]
            ]
      ]
    ]
  ]
