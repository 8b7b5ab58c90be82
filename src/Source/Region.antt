-- ===== src/Source/Region.antt =====
-- Where the bytes of a structure stand in a source of crates/lamfold/src/source.rs.
use lamfold.Prelude.{
  ℕ, ◌+◌, ◌^◌, ◌≤◌, Bytes, ◌++◌, length, take, drop, length-append, length-drop, drop-append_add,
  take-append_le, drop-append_le, take-drop_inside, take_of_length-le, ◌≡◌, refl, sym, ap, ◌∙◌,
  arith,
}
use lamfold.Error.{ok}
use lamfold.Source.{BlockSource, slice_source, slice_read_at-eq_ok}

-- The bytes `content` stand at `base`.
abbrev pub Stands : BlockSource → ℕ → Bytes → Type 0
Stands src base content =
    (off n : ℕ)
    → off + n ≤ length content
    → src.read_at (base + off) n ≡ ok (take n (drop off content))

-- In an image.
pub slice-Stands :
    (before content after : Bytes) (base : ℕ)
    → base ≡ length before
    → length (before ++ (content ++ after)) ≤ 2 ^ 63
    → Stands (slice_source (before ++ (content ++ after))) base content
slice-Stands before content after base at small off n le =
    let l1 = length-append before (content ++ after) in
    let l2 = length-append content after in
    slice_read_at-eq_ok (before ++ (content ++ after)) (base + off) n (omega arith) small
    ∙ ap ok (take-drop_inside before content after off n (base + off) (omega arith) le)

module _ (src : BlockSource) where
  -- The whole of it.
  pub Stands-whole :
      (base n : ℕ) (content : Bytes)
      → n ≡ length content
      → Stands src base content
      → src.read_at base n ≡ ok content
  unfolding drop
  Stands-whole base n content e h =
      let at : base + 0 ≡ base = omega arith in
      ap (λ b. src.read_at b n) (sym at)
      ∙ h 0 n (omega arith)
      ∙ ap ok (take_of_length-le n content (omega arith))

  -- The first part of it, and what stands behind that.
  pub Stands-front : (base : ℕ) (a b : Bytes) → Stands src base (a ++ b) → Stands src base a
  Stands-front base a b h off n le =
      let short : n ≤ length (drop off a) = omega (arith, length-drop off a) in
      h off n (omega (arith, length-append a b))
      ∙ rw (drop-append_le a b off (omega arith)) (ap ok (take-append_le (drop off a) b n short))

  pub Stands-behind :
      (base k : ℕ) (a b : Bytes) → k ≡ base + length a → Stands src base (a ++ b) → Stands src k b
  Stands-behind base k a b e h off n le =
      let at : k + off ≡ base + (length a + off) = omega arith in
      ap (λ p. src.read_at p n) at
      ∙ h (length a + off) n (omega (arith, length-append a b))
      ∙ ap (λ t. ok (take n t)) (drop-append_add a b (length a + off) off refl)
