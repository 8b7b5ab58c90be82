-- ===== src/Codec/Fill.antt =====
-- The read loop of crates/lamfold/src/codec.rs: what it reads, and that its turns are enough.
use lamfold.Prelude.{
  ℕ, zero, suc, ◌+◌, ◌-◌, ◌≤◌, true, false, ltb, ◌==◌, Bytes, [], ◌++◌, ◌∙◌, length, length-append,
  some, none, Bool-cases, Option-cases, inl, inr, ◌↔◌, ◌≡◌, refl, arith, sym,
}
use lamfold.Error.{FoldError, ok, err, ◌>>=◌, ok-injective}
use lamfold.Codec.{Reader, fill}

-- From the state `s`, with `out` filled, the reader fills `len` bytes or reaches its end, and `res` is
-- then filled.
pub data Drains (r : Reader) (len : ℕ) : r.State → Bytes → Bytes → Type 0 where
  full : {s : r.State} {out : Bytes} → ltb (length out) len ≡ false → Drains r len s out out
  ended :
      {s t : r.State} {out bs : Bytes}
      → r.read s (len - length out) ≡ some (bs, t)
      → (length bs == 0) ≡ true
      → Drains r len s out out
  reads :
      {s t : r.State} {out bs res : Bytes}
      → ltb (length out) len ≡ true
      → r.read s (len - length out) ≡ some (bs, t)
      → (length bs == 0) ≡ false
      → Drains r len t (out ++ bs) res
      → Drains r len s out res

module _ (r : Reader) (why : FoldError) (len : ℕ) where
  -- One turn, by what the reader answers.
  fill_full :
      (turns : ℕ) (s : r.State) (out : Bytes)
      → ltb (length out) len ≡ false
      → fill r why len (suc turns) s out ≡ ok out
  unfolding fill
  fill_full turns s out e = rw (e, fill)

  fill_fails :
      (turns : ℕ) (s : r.State) (out : Bytes)
      → ltb (length out) len ≡ true
      → r.read s (len - length out) ≡ none
      → fill r why len (suc turns) s out ≡ err why
  unfolding fill
  fill_fails turns s out e f = rw (fill, e, f, ◌>>=◌)

  fill_ended :
      (turns : ℕ) (s : r.State) (out bs : Bytes) (t : r.State)
      → ltb (length out) len ≡ true
      → r.read s (len - length out) ≡ some (bs, t)
      → (length bs == 0) ≡ true
      → fill r why len (suc turns) s out ≡ ok out
  unfolding fill
  fill_ended turns s out bs t e f z = rw (fill, e, f, ◌>>=◌, z)

  fill_reads :
      (turns : ℕ) (s : r.State) (out bs : Bytes) (t : r.State)
      → ltb (length out) len ≡ true
      → r.read s (len - length out) ≡ some (bs, t)
      → (length bs == 0) ≡ false
      → fill r why len (suc turns) s out ≡ fill r why len turns t (out ++ bs)
  unfolding fill
  fill_reads turns s out bs t e f z = rw (fill, e, f, ◌>>=◌, z)

  -- The part filled never passes the buffer.
  pub fill_le :
      (turns : ℕ) (s : r.State) (out : Bytes) {res : Bytes}
      → fill r why len turns s out ≡ ok res
      → length out ≤ len
      → length res ≤ len
  unfolding fill
  fill_le zero s out h le = ground arith
  fill_le (suc turns) s out h le = elim (Bool-cases (ltb (length out) len)) [
    | inl room ↦ elim (Option-cases (r.read s (len - length out))) [
      | inl none_ ↦ absurd (let bad = sym (fill_fails turns s out room none_) in cc)
      | inr ((bs, t), some_) ↦ elim (Bool-cases (length bs == 0)) [
        | inl z ↦
            let e = sym (fill_ended turns s out bs t room some_ z) ∙ h in
            ground (arith, ok-injective e)
        | inr nz ↦
            fill_le turns t (out ++ bs) (sym (fill_reads turns s out bs t room some_ nz) ∙ h)
              (omega (arith, length-append out bs, r.read_le s (len - length out) some_))
      ]
    ]
    | inr no_room ↦
        let e = sym (fill_full turns s out no_room) ∙ h in ground (arith, ok-injective e)
  ]

  -- With a turn for each byte that is missing, a successful loop stopped at the end of the buffer or
  -- of the reader.
  fill→Drains :
      (turns : ℕ) (s : r.State) (out res : Bytes)
      → len ≤ turns + length out
      → fill r why len turns s out ≡ ok res
      → Drains r len s out res
  unfolding fill
  fill→Drains zero s out res enough h =
      rw (sym (ok-injective h)) (full {s = s} {out = out} (ground arith))
  fill→Drains (suc turns) s out res enough h = elim (Bool-cases (ltb (length out) len)) [
    | inl room ↦ elim (Option-cases (r.read s (len - length out))) [
      | inl none_ ↦ absurd (let bad = sym (fill_fails turns s out room none_) in cc)
      | inr ((bs, t), some_) ↦ elim (Bool-cases (length bs == 0)) [
        | inl z ↦
            rw (sym (ok-injective (sym (fill_ended turns s out bs t room some_ z) ∙ h)))
              (ended {s = s} {out = out} some_ z)
        | inr nz ↦ reads room some_ nz (
            fill→Drains turns t (out ++ bs) res (ground (arith, length-append out bs))
              (sym (fill_reads turns s out bs t room some_ nz) ∙ h))
      ]
    ]
    | inr no_room ↦
        rw (sym (ok-injective (sym (fill_full turns s out no_room) ∙ h))) (full {s = s} no_room)
  ]

  Drains→fill :
      (turns : ℕ) (s : r.State) (out res : Bytes)
      → len ≤ turns + length out
      → Drains r len s out res
      → fill r why len turns s out ≡ ok res
  unfolding fill
  Drains→fill zero s out res enough (full no_room) = refl
  Drains→fill zero s out res enough (ended some_ z) = refl
  Drains→fill zero s out res enough (reads room some_ nz rest) = absurd (ground arith)
  Drains→fill (suc turns) s out res enough (full no_room) = fill_full turns s out no_room
  Drains→fill (suc turns) s out res enough (ended {t = t} {bs = bs} some_ z) =
      elim (Bool-cases (ltb (length out) len)) [
        | inl room ↦ fill_ended turns s out bs t room some_ z
        | inr no_room ↦ fill_full turns s out no_room
      ]
  Drains→fill (suc turns) s out res enough (reads {t = t} {bs = bs} room some_ nz rest) =
      fill_reads turns s out bs t room some_ nz
      ∙ Drains→fill turns t (out ++ bs) res (ground (arith, length-append out bs)) rest

  -- The loop of a decoder gives `res` exactly when reading on from its first state, until the buffer
  -- is full or a read is empty, fills `res`: a turn for each byte of the buffer is enough.
  pub fill-Drains :
      (s : r.State) (res : Bytes) → (fill r why len len s [] ≡ ok res) ↔ Drains r len s [] res
  fill-Drains s res =
      (fill→Drains len s [] res (omega arith), Drains→fill len s [] res (omega arith))
