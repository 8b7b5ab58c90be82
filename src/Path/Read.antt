-- ===== src/Path/Read.antt =====
-- `read_path` of crates/lamfold/src/path.rs: the loop over short reads yields the whole file.
use lamfold.Prelude.{
  ℕ, zero, suc, ◌+◌, ◌-◌, ◌≤◌, ◌<◌, ◌++◌, false, ltb, Bytes, [], ◌∷◌, length, take, drop,
  length-take, length-drop, take-add, take_of_length-le, lt→ltb, ◌≡◌, refl, sym, ◌∙◌, ap, arith,
}
use lamfold.Error.{ok}
use lamfold.Frontend.{NodeId, FoldFrontend, View, Metadata}
use lamfold.Path.{is_dir, resolve, read_loop, read_path}
use lamfold.Path.Pure.{of_view}
use lamfold.ReadCap.{max_boot_file_bytes, checked_full_read_len}
use lamfold.ReadCap.Bounds.{checked_full_read_len_iff}
use lamfold.Source.{usize_end}
use native.Mathlib.Decide.{dec_lt}

-- The node is a file with this content: a read inside it gives at least one byte and at most what was
-- asked for, from the content. That is all that `FoldFrontend::read_at` promises.
pub record Holds (v : View) (node : NodeId) (content : Bytes) : Type 0 where
  pub md : Metadata
  pub has_md : v.metadata node ≡ ok md
  pub not_dir : is_dir md.kind ≡ false
  pub size_is : md.size ≡ length content
  pub count : ℕ → ℕ → ℕ
  pub count_pos : (off want : ℕ) → off < length content → 0 < want → 0 < count off want
  pub count_want : (off want : ℕ) → count off want ≤ want
  pub count_fits : (off want : ℕ) → off < length content → off + count off want ≤ length content
  pub reads :
      (off want : ℕ)
      → off < length content
      → v.read_at node off want ≡ ok (take (count off want) (drop off content))

cons_of_length-pos : (bs : Bytes) → 0 < length bs → (c : ℕ) × (cs : Bytes) × (bs ≡ c ∷ cs)
cons_of_length-pos [] h = absurd (omega arith)
cons_of_length-pos (c ∷ cs) h = (c, cs, refl)

module _ (v : View) (node : NodeId) where
  abbrev fs : FoldFrontend (Unit {0})
  fs = of_view v

  read_loop_step :
      (fuel total c : ℕ) (out chunk cs : Bytes)
      → length out < total
      → v.read_at node (length out) (total - length out) ≡ ok chunk
      → chunk ≡ c ∷ cs
      → read_loop fs (suc fuel) node total out tt ≡ read_loop fs fuel node total (out ++ chunk) tt
  unfolding read_loop
  read_loop_step fuel total c out chunk cs more read e = rw (read_loop, lt→ltb _ _ more, read, e)

  read_loop_stop :
      (fuel total : ℕ) (out : Bytes)
      → total ≤ length out
      → (read_loop fs fuel node total out tt).0 ≡ ok out
  unfolding read_loop
  read_loop_stop zero total out h = refl
  read_loop_stop (suc fuel) total out h =
      let e : ltb (length out) total ≡ false = ground arith in rw (e, read_loop)

  module _ (content : Bytes) (h : Holds v node content) where
    read_loop-content :
        (fuel done : ℕ)
        → done ≤ length content
        → length content ≤ done + fuel
        → (read_loop fs fuel node (length content) (take done content) tt).0 ≡ ok content
    read_loop-content zero done small enough =
        let whole = take_of_length-le done content (omega arith) in
        rw whole (read_loop_stop zero (length content) content (omega arith))
    read_loop-content (suc fuel) done small enough = elim (dec_lt done (length content)) [
      | no all ↦
          let whole = take_of_length-le done content (omega arith) in
          rw whole (read_loop_stop (suc fuel) (length content) content (omega arith))
      | yes more ↦
          let here : length (take done content) ≡ done = omega (arith, length-take done content) in
          let want = length content - done in
          let n = h.count done want in
          let chunk = take n (drop done content) in
          let got : length chunk ≡ n = omega (
            arith,
            length-take n (drop done content),
            length-drop done content,
            h.count_fits done want more,
          ) in
          let pos : 0 < length chunk = omega (arith, h.count_pos done want more (omega arith)) in
          let (c, cs, e) = cons_of_length-pos chunk pos in
          let read : v.read_at node (length (take done content))
                (length content - length (take done content))
              ≡ ok chunk =
            rw here (h.reads done want more) in
          let step =
            read_loop_step fuel (length content) c (take done content) chunk cs (omega arith) read
              e in
          let joined : take done content ++ chunk ≡ take (done + n) content =
            sym (take-add done n (done + n) content refl) in
          ap (λ r. r.0) step
          ∙ rw joined (
              read_loop-content fuel (done + n) (omega (arith, h.count_fits done want more))
                (omega arith))
    ]

    size_passes :
        length content ≤ max_boot_file_bytes
        → checked_full_read_len usize_end h.md.size ≡ ok (length content)
    size_passes small =
        rw h.size_is ((checked_full_read_len_iff usize_end (length content) (omega arith)).1 small)

    read_all : (read_loop fs (length content) node (length content) [] tt).0 ≡ ok content
    unfolding take
    read_all = read_loop-content (length content) 0 (omega arith) (omega arith)

    -- A path that resolves to a file within the read cap reads as its whole content, however short
    -- the single reads are.
    pub read_path-content :
        (path : Bytes)
        → (resolve fs path tt).0 ≡ ok node
        → length content ≤ max_boot_file_bytes
        → (read_path fs path tt).0 ≡ ok content
    unfolding read_path
    read_path-content path found small =
        let whole = read_all in let cap = size_passes small in ground arith
