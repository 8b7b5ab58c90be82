-- ===== src/Source/Pieces.antt =====
-- The pieces of a content that a walk over extents takes, one extent after the other.
use lamfold.Prelude.{
  ℕ, ◌+◌, ◌-◌, ◌≤◌, ◌<◌, Bytes, ◌++◌, length, take, drop, length-append, length-drop, append_assoc,
  append-nil, drop-append_le, take-append_le, take-append_add, take_of_length-le, ◌≡◌, sym, ap, ◌∙◌,
  arith,
}
use lamfold.Error.{ok}

-- What is taken behind a front part of a list.
pub take_behind :
    (a b : Bytes) (w n : ℕ)
    → w ≤ length a
    → length a - w ≤ n
    → take n (drop w (a ++ b)) ≡ drop w a ++ take (n - (length a - w)) b
take_behind a b w n le far =
    let front = drop-append_le a b w le in
    let len = length-drop w a in
    rw front (take-append_add (drop w a) b n (n - (length a - w)) (omega arith))

-- With all of the `n` bytes there, nothing is left to take.
pub none_left :
    (n : ℕ) (out xs : Bytes) → length out ≡ n → ok out ≡ ok (out ++ take (n - length out) xs)
unfolding take
none_left n out xs e =
    let z : n - length out ≡ 0 = omega arith in rw z (ap ok (sym (append-nil out)))

-- The last piece lies in the extent that holds `b`.
pub last_piece :
    (n w : ℕ) (out b rest : Bytes) (k : ℕ)
    → k ≡ n - length out
    → w + k ≤ length b
    → out ++ take k (drop w b) ≡ out ++ take (n - length out) (drop w (b ++ rest))
last_piece n w out b rest k e fits =
    let short : k ≤ length (drop w b) = omega (arith, length-drop w b) in
    ap (λ t. out ++ t)
      (sym (
        ap (take (n - length out)) (drop-append_le b rest w (omega arith))
        ∙ rw (sym e) (take-append_le (drop w b) rest k short)))

-- A piece up to the end of its extent, and what is taken behind it.
pub piece_behind :
    (off n start len : ℕ) (out b rest : Bytes) (k : ℕ)
    → len ≡ length b
    → start ≤ off + length out
    → off + length out < start + len
    → start + len ≤ off + n
    → k ≡ length b - (off + length out - start)
    → let p = take k (drop (off + length out - start) b) in
      (out ++ p)
        ++ take (n - length (out ++ p)) (drop (off + length (out ++ p) - (start + len)) rest)
      ≡ out ++ take (n - length out) (drop (off + length out - start) (b ++ rest))
unfolding drop
piece_behind off n start len out b rest k e from near far size =
    let w = off + length out - start in
    let j = n - length out - (length b - w) in
    let there = length-drop w b in
    let whole = take_of_length-le k (drop w b) (omega arith) in
    let longer = length-append out (drop w b) in
    let left : n - length (out ++ drop w b) ≡ j = omega arith in
    let first : off + length (out ++ drop w b) - (start + len) ≡ 0 = omega arith in
    rw (whole, left, first)
      (append_assoc out (drop w b) (take j rest)
        ∙ ap (λ t. out ++ t)
            (sym (take_behind b rest w (n - length out) (omega arith) (omega arith))))
