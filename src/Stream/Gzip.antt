-- ===== src/Stream/Gzip.antt =====
-- gzip of crates/lamfold/src/stream.rs: the header, the inflate loop and the trailer.
use lamfold.Prelude.{
  ℕ, zero, suc, ◌+◌, ◌/◌, ◌%◌, ◌^◌, ◌≤◌, Bool, true, false, ◌&&◌, ◌||◌, ltb, leb, ◌==◌,
  if◌then◌else◌, Bytes, [], ◌∷◌, length, take, drop, get_or, slice?, slice?_bound, length-drop,
  position, le16, le32, bytes_eq, Option, none, some, ◌≡◌, refl, subst, arith, inl, inr, ◌⊎◌,
}
use lamfold.Error.{
  Result, ok, err, corrupt, ◌>>=◌, ◌>>◌, guard, ok_or, bind-eq-ok, ok-injective, ok_or-eq-ok,
  guard-eq-ok,
}
use lamfold.Stream.Parts.{
  Status, stream_end, more, failed, Inflater, chunk_len, push_capped, push_capped-eq-ok, crc32,
  Within, ok-Within,
}

-- `input.get(pos..)`.
unfoldable pub tail_from : Bytes → ℕ → Option Bytes
unfolding drop
tail_from input pos = if leb pos (length input) then some (drop pos input) else none

-- How a turn of the inflate loop goes on: `last` at the end of the stream, `again` after progress.
unfoldable pub next_turn :
    Status → Bool → Result (Bytes × ℕ) → Result (Bytes × ℕ) → Result (Bytes × ℕ)
next_turn stream_end going last again = last
next_turn more true last again = again
next_turn more false last again = err (corrupt "deflate_truncated")
next_turn failed going last again = err (corrupt "deflate_truncated")

next_turn-eq-ok :
    (status : Status) (going : Bool) (last again : Result (Bytes × ℕ)) {res : Bytes × ℕ}
    → next_turn status going last again ≡ ok res
    → (last ≡ ok res) ⊎ (again ≡ ok res)
unfolding next_turn
next_turn-eq-ok stream_end going last again h = inl h
next_turn-eq-ok more true last again h = inr h
next_turn-eq-ok more false last again h = absurd (cc)
next_turn-eq-ok failed going last again h = absurd (cc)

sums_match : (a b c d : ℕ) → (a == b && c == d) ≡ true → (a ≡ b) × (c ≡ d)
sums_match a b c d h = ground (arith, h)

-- The stream that ends at `used` ends in the trailer of `out`.
abbrev pub Verified : Bytes → Bytes × ℕ → Type 0
Verified input (out, used) =
    (trailer : Bytes) × (start : ℕ) × (used ≡ start + 8)
    × (slice? input start 8 ≡ some trailer)
    × (le32 trailer ≡ crc32 out)
    × (le32 (drop 4 trailer) ≡ length out % 2 ^ 32)

module _ (z : Inflater) where
  -- The loop of `inflate_raw_stream`, on fuel: each turn consumes or writes a byte, or is the last.
  unfoldable pub inflate_loop : ℕ → z.State → Bytes → ℕ → ℕ → Bytes → Result (Bytes × ℕ)
  unfolding push_capped next_turn
  inflate_loop zero state input max_out pos out = err (corrupt "deflate_truncated")
  inflate_loop (suc fuel) state input max_out pos out =
      let r = z.inflate state (drop pos input) chunk_len in
      do
        out' ← push_capped out r.written max_out
        next_turn r.status (ltb 0 r.bytes_consumed || ltb 0 (length r.written))
            (ok (out', pos + r.bytes_consumed))
            (inflate_loop fuel r.state input max_out (pos + r.bytes_consumed) out')

  -- Every turn but the last takes a byte of the input or adds one to the capped output.
  unfoldable pub inflate_raw_stream : Bytes → ℕ → Result (Bytes × ℕ)
  inflate_raw_stream input max_out =
      inflate_loop (length input + max_out + 2) z.new_boxed input max_out 0 []

  -- `FEXTRA`.
  unfoldable pub skip_extra : Bool → Bytes → ℕ → Result ℕ
  unfolding slice? le16
  skip_extra false input pos = ok pos
  skip_extra true input pos = do
    xlen ← ok_or (slice? input pos 2) (corrupt "gzip_header")
    ok (pos + (2 + le16 xlen))

  -- `FNAME` and `FCOMMENT`: up to and over the next NUL.
  unfoldable pub skip_text : Bool → Bytes → ℕ → Result ℕ
  unfolding tail_from position
  skip_text false input pos = ok pos
  skip_text true input pos = do
    rest ← ok_or (tail_from input pos) (corrupt "gzip_header")
    nul ← ok_or (position 0 rest) (corrupt "gzip_header")
    ok (pos + (nul + 1))

  abbrev pub flag : ℕ → ℕ → Bool
  flag flg bit = flg / bit % 2 == 1

  unfoldable pub gzip_body : Bytes → Result ℕ
  unfolding get_or bytes_eq take skip_extra skip_text
  gzip_body input = do
    guard (leb 10 (length input)) (corrupt "gzip_header")
    guard (bytes_eq (take 3 input) (0x1f ∷ 0x8b ∷ 8 ∷ [])) (corrupt "gzip_header")
    let flg = get_or input 3 0
    guard (flg / 32 % 8 == 0) (corrupt "gzip_header")
    extra ← skip_extra (flag flg 4) input 10
    name ← skip_text (flag flg 8) input extra
    comment ← skip_text (flag flg 16) input name
    ok (if flag flg 2 then comment + 2 else comment)

  unfoldable pub gzip : Bytes → ℕ → Result (Bytes × ℕ)
  unfolding gzip_body tail_from slice? take drop le32
  gzip input max_out = do
    pos ← gzip_body input
    body ← ok_or (tail_from input pos) (corrupt "gzip_header")
    (out, used) ← inflate_raw_stream body max_out
    trailer ← ok_or (slice? input (pos + used) 8) (corrupt "gzip_truncated")
    guard (le32 trailer == crc32 out && le32 (drop 4 trailer) == length out % 2 ^ 32)
        (corrupt "gzip_checksum")
    ok (out, pos + used + 8)

  inflate_loop-Within :
      (fuel : ℕ) (state : z.State) (input : Bytes) (max_out pos : ℕ) (out : Bytes) {res : Bytes × ℕ}
      → pos ≤ length input
      → inflate_loop fuel state input max_out pos out ≡ ok res
      → Within max_out (length input) res
  unfolding inflate_loop
  inflate_loop-Within zero state input max_out pos out le h = absurd (cc)
  inflate_loop-Within (suc fuel) state input max_out pos out le h =
      let r = z.inflate state (drop pos input) chunk_len in
      let (out', pushed, next) = bind-eq-ok (push_capped out r.written max_out) _ h in
      let (_, capped, _) = push_capped-eq-ok out r.written max_out pushed in
      let inside : pos + r.bytes_consumed ≤ length input =
        omega (arith, z.consumed_le state (drop pos input) chunk_len, length-drop pos input) in
      elim (next_turn-eq-ok r.status (ltb 0 r.bytes_consumed || ltb 0 (length r.written))
        (ok (out', pos + r.bytes_consumed))
        (inflate_loop fuel r.state input max_out (pos + r.bytes_consumed) out') next) [
          | inl e ↦ ok-Within max_out (length input) out' (pos + r.bytes_consumed) e capped inside
          | inr again ↦
              inflate_loop-Within fuel r.state input max_out (pos + r.bytes_consumed) out' inside
                again
        ]

  -- When `gzip` succeeds, the eight bytes before the end that it reports are a trailer with the CRC-32
  -- and the size modulo 2^32 of the output that it returns.
  pub gzip-Verified :
      (input : Bytes) (max_out : ℕ) {res : Bytes × ℕ}
      → gzip input max_out ≡ ok res
      → Verified input res
  unfolding gzip
  gzip-Verified input max_out h =
      let (pos, _, h1) = bind-eq-ok (gzip_body input) _ h in
      let (body, _, h2) = bind-eq-ok (ok_or (tail_from input pos) (corrupt "gzip_header")) _ h1 in
      let ((out, used), _, h3) = bind-eq-ok (inflate_raw_stream body max_out) _ h2 in
      let (trailer, sliced, h4) =
        bind-eq-ok (ok_or (slice? input (pos + used) 8) (corrupt "gzip_truncated")) _ h3 in
      let sums = le32 trailer == crc32 out && le32 (drop 4 trailer) == length out % 2 ^ 32 in
      let (_, checked, h5) = bind-eq-ok (guard sums (corrupt "gzip_checksum")) _ h4 in
      let here = ok_or-eq-ok (slice? input (pos + used) 8) _ sliced in
      let matched = guard-eq-ok sums _ checked in
      subst (Verified input) (ok-injective h5) (
        trailer,
        pos + used,
        refl,
        here,
        (sums_match _ _ _ _ matched).0,
        (sums_match _ _ _ _ matched).1,
      )

  pub gzip-Within :
      (input : Bytes) (max_out : ℕ) {res : Bytes × ℕ}
      → gzip input max_out ≡ ok res
      → Within max_out (length input) res
  unfolding gzip inflate_raw_stream
  gzip-Within input max_out h =
      let (pos, _, h1) = bind-eq-ok (gzip_body input) _ h in
      let (body, _, h2) = bind-eq-ok (ok_or (tail_from input pos) (corrupt "gzip_header")) _ h1 in
      let ((out, used), inflated, h3) = bind-eq-ok (inflate_raw_stream body max_out) _ h2 in
      let (trailer, sliced, h4) =
        bind-eq-ok (ok_or (slice? input (pos + used) 8) (corrupt "gzip_truncated")) _ h3 in
      let (_, _, h5) =
        bind-eq-ok
          (guard (le32 trailer == crc32 out && le32 (drop 4 trailer) == length out % 2 ^ 32)
            (corrupt "gzip_checksum"))
          _ h4 in
      let (capped, _) =
        inflate_loop-Within (length body + max_out + 2) z.new_boxed body max_out 0 [] (omega arith)
          inflated in
      let inside =
        slice?_bound input (pos + used) 8 (ok_or-eq-ok (slice? input (pos + used) 8) _ sliced) in
      ok-Within max_out (length input) out (pos + used + 8) h5 capped inside
