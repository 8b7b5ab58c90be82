-- ===== src/Stream/Frames.antt =====
-- zstd, xz, lzma and lz4 of crates/lamfold/src/stream.rs.
use lamfold.Prelude.{
  some, length-drop, ◌<◌, ℕ, zero, suc, ◌+◌, ◌-◌, ◌/◌, ◌≤◌, String, Bool, true, false, not, ◌&&◌,
  leb, ◌==◌, Bytes, [], ◌∷◌, length, take, drop, get_or, le32, bytes_eq, ◌≡◌, arith, inl, inr,
  subst,
}
use lamfold.Error.{
  FoldError, Result, ok, err, corrupt, decompress, ◌>>=◌, ◌>>◌, guard, ok_or, bind-eq-ok,
  ok-injective, ok_or-eq-ok, if-eq-ok,
}
use lamfold.Stream.Parts.{
  Decoder, chunk_len, push_capped, push_capped-eq-ok, starts_with, Within, ok-Within,
}
use lamfold.Stream.Gzip.{tail_from}

module _ (d : Decoder) where
  -- The loop of `read_all_capped!`, on fuel: each turn adds a byte to the capped output, or is the
  -- last.
  unfoldable pub read_loop : ℕ → d.State → ℕ → String → Bytes → Result (Bytes × d.State)
  unfolding push_capped
  read_loop zero state max_out what out = err (decompress what)
  read_loop (suc fuel) state max_out what out = do
    (chunk, state') ← ok_or (d.read state chunk_len) (decompress what)
    elim (length chunk == 0) [
      | true ↦ ok (out, state')
      | false ↦ do out' ← push_capped out chunk max_out; read_loop fuel state' max_out what out'
    ]

  unfoldable pub read_all_capped : d.State → ℕ → String → Result (Bytes × d.State)
  read_all_capped state max_out what = read_loop (max_out + 2) state max_out what []

  -- `xz` and `lzma`: one stream.
  unfoldable pub one_stream : FoldError → String → Bytes → ℕ → Result (Bytes × ℕ)
  unfolding read_all_capped
  one_stream refused what input max_out = do
    state ← ok_or (d.new input) refused
    (out, state') ← read_all_capped state max_out what
    ok (out, length input - d.left state')

  -- The header of a skippable frame.
  unfoldable pub is_skippable : Bytes → Bool
  unfolding get_or bytes_eq take drop
  is_skippable rest =
      leb 8 (length rest)
      && (get_or rest 0 0 / 16 == 5 && bytes_eq (take 3 (drop 1 rest)) (0x2a ∷ 0x4d ∷ 0x18 ∷ []))

  -- The loop of `zstd`, on fuel: a turn leaves less of the input, if only by the frame's header.
  unfoldable pub zstd_loop : ℕ → Bytes → ℕ → Bytes → ℕ → Result (Bytes × ℕ × ℕ)
  unfolding is_skippable tail_from drop le32 starts_with read_all_capped push_capped
  zstd_loop zero rest max_out out frames = err (corrupt "zstd_truncated")
  zstd_loop (suc fuel) rest max_out out frames = elim (is_skippable rest) [
    | true ↦ do
      rest' ← ok_or (tail_from rest (8 + le32 (drop 4 rest))) (corrupt "zstd_truncated")
      zstd_loop fuel rest' max_out out frames
    | false ↦ elim (starts_with (0x28 ∷ 0xb5 ∷ 0x2f ∷ 0xfd ∷ []) rest) [
      | false ↦ ok (out, length rest, frames)
      | true ↦ do
        state ← ok_or (d.new rest) (decompress "zstd frame init failed")
        (frame, state') ← read_all_capped state (max_out - length out) "zstd read failed"
        out' ← push_capped out frame max_out
        zstd_loop fuel (drop (length rest - d.left state') rest) max_out out' (frames + 1)
    ]
  ]

  unfoldable pub zstd : Bytes → ℕ → Result (Bytes × ℕ)
  unfolding zstd_loop
  zstd input max_out = do
    (out, left, frames) ← zstd_loop (length input + 1) input max_out [] 0
    guard (not (frames == 0)) (corrupt "zstd_no_frame")
    ok (out, length input - left)

  -- What a capped read leaves: an output within the cap, and no more input than it had.
  abbrev pub Read : ℕ → d.State → Bytes × d.State → Type 0
  Read max_out state (out, state') = (length out ≤ max_out) × (d.left state' ≤ d.left state)

  pub read_loop-Read :
      (fuel : ℕ) (state : d.State) (max_out : ℕ) (what : String) (out : Bytes)
      {res : Bytes × d.State}
      → length out ≤ max_out
      → read_loop fuel state max_out what out ≡ ok res
      → Read max_out state res
  unfolding read_loop
  read_loop-Read zero state max_out what out le h = absurd (cc)
  read_loop-Read (suc fuel) state max_out what out le h =
      let ((chunk, state'), opened, h1) =
        bind-eq-ok (ok_or (d.read state chunk_len) (decompress what)) _ h in
      let less = d.read_left state chunk_len (ok_or-eq-ok _ _ opened) in
      elim (if-eq-ok (length chunk == 0) _ _ h1) [
        | inl (_, last) ↦ subst (Read max_out state) (ok-injective last) (le, less)
        | inr (_, next) ↦
            let (out', pushed, again) = bind-eq-ok (push_capped out chunk max_out) _ next in
            let (_, capped, _) = push_capped-eq-ok out chunk max_out pushed in
            let (short, later) = read_loop-Read fuel state' max_out what out' capped again in
            (short, omega (arith, later, less))
      ]

  pub one_stream-Within :
      (refused : FoldError) (what : String) (input : Bytes) (max_out : ℕ) {res : Bytes × ℕ}
      → one_stream refused what input max_out ≡ ok res
      → Within max_out (length input) res
  unfolding one_stream read_all_capped
  one_stream-Within refused what input max_out h =
      let (state, opened, h1) = bind-eq-ok (ok_or (d.new input) refused) _ h in
      let ((out, state'), read, last) = bind-eq-ok (read_all_capped state max_out what) _ h1 in
      let (capped, _) = read_loop-Read (max_out + 2) state max_out what [] (omega arith) read in
      ok-Within max_out (length input) out (length input - d.left state') last capped (omega arith)

  zstd_loop_capped :
      (fuel : ℕ) (rest : Bytes) (max_out : ℕ) (out : Bytes) (frames : ℕ) {res : Bytes × ℕ × ℕ}
      → length out ≤ max_out
      → zstd_loop fuel rest max_out out frames ≡ ok res
      → length res.0 ≤ max_out
  unfolding zstd_loop
  zstd_loop_capped zero rest max_out out frames le h = absurd (cc)
  zstd_loop_capped (suc fuel) rest max_out out frames le h =
      elim (if-eq-ok (is_skippable rest) _ _ h) [
        | inl (_, h1) ↦
            let (rest', _, h2) =
              bind-eq-ok
                (ok_or (tail_from rest (8 + le32 (drop 4 rest))) (corrupt "zstd_truncated")) _ h1 in
            zstd_loop_capped fuel rest' max_out out frames le h2
        | inr (_, h1) ↦ elim (if-eq-ok (starts_with (0x28 ∷ 0xb5 ∷ 0x2f ∷ 0xfd ∷ []) rest) _ _ h1) [
          | inr (_, last) ↦ subst (λ r. length r.0 ≤ max_out) (ok-injective last) le
          | inl (_, h2) ↦
              let (state, _, h3) =
                bind-eq-ok (ok_or (d.new rest) (decompress "zstd frame init failed")) _ h2 in
              let ((frame, state'), _, h4) =
                bind-eq-ok (read_all_capped state (max_out - length out) "zstd read failed") _ h3 in
              let (out', pushed, h5) = bind-eq-ok (push_capped out frame max_out) _ h4 in
              let (_, capped, _) = push_capped-eq-ok out frame max_out pushed in
              zstd_loop_capped fuel (drop (length rest - d.left state') rest) max_out out'
                (frames + 1) capped h5
        ]
      ]

  pub zstd-Within :
      (input : Bytes) (max_out : ℕ) {res : Bytes × ℕ}
      → zstd input max_out ≡ ok res
      → Within max_out (length input) res
  unfolding zstd
  zstd-Within input max_out h =
      let ((out, left, frames), looped, h1) =
        bind-eq-ok (zstd_loop (length input + 1) input max_out [] 0) _ h in
      let (_, _, last) = bind-eq-ok (guard (not (frames == 0)) (corrupt "zstd_no_frame")) _ h1 in
      let capped = zstd_loop_capped (length input + 1) input max_out [] 0 (omega arith) looped in
      ok-Within max_out (length input) out (length input - left) last capped (omega arith)

  -- A frame that opens has taken at least a byte of the input: its header starts with its magic.
  abbrev pub Eats : Type 0
  Eats = (input : Bytes) (state : d.State) → d.new input ≡ some state → d.left state < length input

  pub tail_from_short :
      (rest : Bytes) (n : ℕ) {tail : Bytes}
      → tail_from rest n ≡ some tail
      → length tail ≡ length rest - n
  unfolding tail_from
  tail_from_short rest n h = ground (arith, length-drop n rest)

  pub is_skippable_long : (rest : Bytes) → is_skippable rest ≡ true → 8 ≤ length rest
  unfolding is_skippable
  is_skippable_long rest h = ground (arith, h)
