-- ===== src/Path/Chunks.antt =====
-- The reading loop of `read_path` of crates/lamfold/src/path.rs against the chunks that the volume gives.
use lamfold.Prelude.{
  ℕ, zero, suc, ◌+◌, ◌-◌, ◌≤◌, ◌<◌, ◌++◌, true, false, ltb, ltb→lt, lt→ltb, Bytes, [], ◌∷◌, length,
  length-append, ◌≡◌, refl, sym, ◌∙◌, ap, subst, arith, inl, inr, ◌⊎◌, Bool-cases,
}
use lamfold.Error.{FoldError, Result-cases, ok, err, ok-injective}
use lamfold.Frontend.{NodeId, FoldFrontend, View}
use lamfold.Path.{read_loop}
use lamfold.Path.Pure.{of_view}

-- Reading on behind `out`, chunk after chunk, up to `total` bytes or an empty chunk, gives these bytes.
pub data Chunks (v : View) (node : NodeId) (total : ℕ) : Bytes → Bytes → Type 0 where
  full : {out : Bytes} → total ≤ length out → Chunks v node total out out
  dry :
      {out : Bytes}
      → length out < total
      → v.read_at node (length out) (total - length out) ≡ ok []
      → Chunks v node total out out
  chunk :
      {out res : Bytes} (b : ℕ) (bs : Bytes)
      → length out < total
      → v.read_at node (length out) (total - length out) ≡ ok (b ∷ bs)
      → Chunks v node total (out ++ (b ∷ bs)) res
      → Chunks v node total out res

chunk-cases : (xs : Bytes) → (xs ≡ []) ⊎ ((b : ℕ) × (bs : Bytes) × (xs ≡ b ∷ bs))
chunk-cases [] = inl refl
chunk-cases (b ∷ bs) = inr (b, bs, refl)

module _ (v : View) where
  abbrev fs : FoldFrontend (Unit {0})
  fs = of_view v

  loop_full :
      (fuel : ℕ) (node : NodeId) (total : ℕ) (out : Bytes)
      → total ≤ length out
      → (read_loop fs fuel node total out tt).0 ≡ ok out
  unfolding read_loop
  loop_full zero node total out h = refl
  loop_full (suc fuel) node total out h =
      let e : ltb (length out) total ≡ false = ground arith in rw (read_loop, e)

  loop_dry :
      (fuel : ℕ) (node : NodeId) (total : ℕ) (out : Bytes)
      → ltb (length out) total ≡ true
      → v.read_at node (length out) (total - length out) ≡ ok []
      → (read_loop fs (suc fuel) node total out tt).0 ≡ ok out
  unfolding read_loop
  loop_dry fuel node total out more e = rw (read_loop, more, e)

  loop_chunk :
      (fuel : ℕ) (node : NodeId) (total : ℕ) (out : Bytes) (b : ℕ) (bs : Bytes)
      → ltb (length out) total ≡ true
      → v.read_at node (length out) (total - length out) ≡ ok (b ∷ bs)
      → (read_loop fs (suc fuel) node total out tt).0
        ≡ (read_loop fs fuel node total (out ++ (b ∷ bs)) tt).0
  unfolding read_loop
  loop_chunk fuel node total out b bs more e = rw (read_loop, more, e)

  loop_fails :
      (fuel : ℕ) (node : NodeId) (total : ℕ) (out : Bytes) (why : FoldError)
      → ltb (length out) total ≡ true
      → v.read_at node (length out) (total - length out) ≡ err why
      → (read_loop fs (suc fuel) node total out tt).0 ≡ err why
  unfolding read_loop
  loop_fails fuel node total out why more e = rw (read_loop, more, e)

  pub Chunks-read_loop :
      (node : NodeId) (total fuel : ℕ) {out res : Bytes}
      → total ≤ length out + fuel
      → Chunks v node total out res
      → (read_loop fs fuel node total out tt).0 ≡ ok res
  Chunks-read_loop node total fuel enough (full {out} h) = loop_full fuel node total out h
  Chunks-read_loop node total zero enough (dry {out} more e) = absurd (omega arith)
  Chunks-read_loop node total (suc fuel) enough (dry {out} more e) =
      loop_dry fuel node total out (lt→ltb _ _ more) e
  Chunks-read_loop node total zero enough (chunk b bs more e rest) = absurd (omega arith)
  Chunks-read_loop node total (suc fuel) enough (chunk {out} b bs more e rest) =
      loop_chunk fuel node total out b bs (lt→ltb _ _ more) e
      ∙ Chunks-read_loop node total fuel (omega (arith, length-append out (b ∷ bs))) rest

  pub read_loop-Chunks :
      (fuel : ℕ) (node : NodeId) (total : ℕ) (out res : Bytes)
      → total ≤ length out + fuel
      → (read_loop fs fuel node total out tt).0 ≡ ok res
      → Chunks v node total out res
  read_loop-Chunks zero node total out res enough h =
      subst (Chunks v node total out)
        (ok-injective (sym (loop_full zero node total out (omega arith)) ∙ h)) (full (omega arith))
  read_loop-Chunks (suc fuel) node total out res enough h =
      elim (Bool-cases (ltb (length out) total)) [
        | inr over ↦
            let all : total ≤ length out = ground arith in
            subst (Chunks v node total out)
              (ok-injective (sym (loop_full (suc fuel) node total out all) ∙ h)) (full all)
        | inl more ↦
            let less = ltb→lt _ _ more in
            elim (Result-cases (v.read_at node (length out) (total - length out))) [
              | inr (why, e) ↦ absurd (let bad = loop_fails fuel node total out why more e in cc)
              | inl (got, e) ↦ elim (chunk-cases got) [
                | inl none_ ↦
                    let e' = e ∙ ap ok none_ in
                    subst (Chunks v node total out)
                      (ok-injective (sym (loop_dry fuel node total out more e') ∙ h)) (dry less e')
                | inr (b, bs, some_) ↦
                    let e' = e ∙ ap ok some_ in
                    chunk b bs less e' (
                      read_loop-Chunks fuel node total (out ++ (b ∷ bs)) res
                        (omega (arith, length-append out (b ∷ bs)))
                        (sym (loop_chunk fuel node total out b bs more e') ∙ h))
              ]
            ]
      ]
