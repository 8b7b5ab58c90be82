-- ===== src/Udf/Descriptors.antt =====
-- The allocation descriptors of crates/lamfold-udf/src/udf.rs as a writer of the format lays them out.
use lamfold.Prelude.{
  ℕ, zero, suc, ◌+◌, ◌*◌, ◌/◌, ◌%◌, ◌^◌, ◌≤◌, ◌<◌, true, false, leb, ◌==◌, Bool-cases, inl, inr,
  Bytes, List, [], ◌∷◌, ◌++◌, length, append-nil, append_assoc, length-append, take, drop,
  take-append_le, take_of_length-le, drop-append_add, slice?, le32, le32_bytes, le32-le32_bytes,
  some, none, ◌≡◌, refl, sym, ap, ◌∙◌, arith, if◌then◌else◌,
}
use lamfold.Error.{ok, ◌>>=◌}
use lamfold.Udf.{Extent, extents, block_add, parse_extent, extents_from, parse_extents}

-- An allocation descriptor: its type, length and block, and what a long one has behind them.
pub record RawExtent : Type 0 where
  pub etype : ℕ
  pub len : ℕ
  pub block : ℕ
  pub rest : Bytes

abbrev pub word : RawExtent → ℕ
word x = x.len + 2 ^ 30 * x.etype

abbrev pub ad_bytes : RawExtent → Bytes
ad_bytes x = le32_bytes (word x) ++ le32_bytes x.block ++ x.rest

abbrev pub ads_bytes : List RawExtent → Bytes
ads_bytes [] = []
ads_bytes (x ∷ xs) = ad_bytes x ++ ads_bytes xs

-- A descriptor of `stride` bytes that does not lead to further descriptors.
pub record FitsExtent (stride : ℕ) (x : RawExtent) : Type 0 where
  pub etype_fits : x.etype < 3
  pub len_fits : x.len < 2 ^ 30
  pub block_fits : x.block < 2 ^ 32
  pub rest_is : 8 + length x.rest ≡ stride

abbrev pub FitExtents : ℕ → List RawExtent → Type 0
FitExtents stride [] = Unit
FitExtents stride (x ∷ xs) = FitsExtent stride x × FitExtents stride xs

-- An empty extent is passed over, and one that is not recorded has no block.
abbrev pub extent_of : ℕ → RawExtent → List Extent
extent_of partition_start x =
    if x.len == 0
    then []
    else record {
      lba = if x.etype == 0 then some (block_add partition_start x.block) else none;
      len = x.len;
    }
      ∷ []

abbrev pub extents_of : ℕ → List RawExtent → List Extent
extents_of partition_start [] = []
extents_of partition_start (x ∷ xs) = extent_of partition_start x ++ extents_of partition_start xs

length-ad_bytes : (stride : ℕ) (x : RawExtent) → FitsExtent stride x → length (ad_bytes x) ≡ stride
unfolding le32_bytes
length-ad_bytes stride x h = omega (arith, h.rest_is)

parse_extent_written :
    (stride partition_start : ℕ) (x : RawExtent) (ex : List Extent)
    → FitsExtent stride x
    → parse_extent partition_start (ad_bytes x) ex ≡ ok (ex ++ extent_of partition_start x)
unfolding parse_extent drop le32_bytes
parse_extent_written stride partition_start x ex h =
    let w =
      le32-le32_bytes (word x) (le32_bytes x.block ++ x.rest)
        (omega (arith, h.etype_fits, h.len_fits)) in
    let b : le32 (drop 4 (ad_bytes x)) ≡ x.block = le32-le32_bytes x.block x.rest h.block_fits in
    let l : word x % 2 ^ 30 ≡ x.len = omega (arith, h.len_fits) in
    let t : word x / 2 ^ 30 ≡ x.etype = omega (arith, h.len_fits) in
    let on : (x.etype == 3) ≡ false = ground (arith, h.etype_fits) in
    elim (Bool-cases (x.len == 0)) [
      | inl empty ↦ rw (parse_extent, w, l, empty) (ap ok (sym (append-nil ex)))
      | inr full ↦ rw (parse_extent, w, b, l, t, full, on) refl
    ]

-- One turn of the loop over the descriptors.
turn_extent :
    (turns stride partition_start : ℕ) (x : RawExtent) (after : Bytes) (ex : List Extent)
    → FitsExtent stride x
    → extents_from (suc turns) partition_start stride (ad_bytes x ++ after) ex
      ≡ extents_from turns partition_start stride after (ex ++ extent_of partition_start x)
unfolding extents_from drop
turn_extent turns stride partition_start x after ex h =
    let c = ad_bytes x in
    let size = length-ad_bytes stride x h in
    let more : leb stride (length (c ++ after)) ≡ true =
      ground (arith, size, length-append c after) in
    let first : take stride (c ++ after) ≡ c =
      take-append_le c after stride (omega (arith, size))
      ∙ take_of_length-le stride c (omega (arith, size)) in
    let behind : drop stride (c ++ after) ≡ after =
      drop-append_add c after stride 0 (omega (arith, size)) in
    rw
      (extents_from, more, first, ◌>>=◌, parse_extent_written stride partition_start x ex h, behind)
      refl

extents_from_written :
    (turns stride partition_start : ℕ) (xs : List RawExtent) (ex : List Extent)
    → 8 ≤ stride
    → FitExtents stride xs
    → length xs ≤ turns
    → extents_from turns partition_start stride (ads_bytes xs) ex
      ≡ ok (ex ++ extents_of partition_start xs)
unfolding extents_from
extents_from_written zero stride partition_start [] ex wide h le = ap ok (sym (append-nil ex))
extents_from_written (suc turns) stride partition_start [] ex wide h le =
    let done : leb stride 0 ≡ false = ground arith in
    rw (extents_from, done) (ap ok (sym (append-nil ex)))
extents_from_written zero stride partition_start (x ∷ xs) ex wide h le = absurd (omega arith)
extents_from_written (suc turns) stride partition_start (x ∷ xs) ex wide h le =
    let ex' = ex ++ extent_of partition_start x in
    turn_extent turns stride partition_start x (ads_bytes xs) ex h.0
    ∙ extents_from_written turns stride partition_start xs ex' wide h.1 (omega arith)
    ∙ ap ok (append_assoc ex (extent_of partition_start x) (extents_of partition_start xs))

length-ads_bytes :
    (stride : ℕ) (xs : List RawExtent)
    → 8 ≤ stride
    → FitExtents stride xs
    → length xs ≤ length (ads_bytes xs)
length-ads_bytes stride [] wide h = omega arith
length-ads_bytes stride (x ∷ xs) wide h = omega (
  arith,
  length-append (ad_bytes x) (ads_bytes xs),
  length-ad_bytes stride x h.0,
  length-ads_bytes stride xs wide h.1,
)

-- The area of the descriptors, where it stands in a buffer.
pub parse_extents_written :
    (stride partition_start : ℕ) (buf : Bytes) (ad_off l_ad : ℕ) (xs : List RawExtent)
    → 8 ≤ stride
    → FitExtents stride xs
    → slice? buf ad_off l_ad ≡ some (ads_bytes xs)
    → parse_extents partition_start buf ad_off l_ad stride
      ≡ ok (extents (extents_of partition_start xs))
unfolding parse_extents
parse_extents_written stride partition_start buf ad_off l_ad xs wide h at =
    let e =
      extents_from_written (length (ads_bytes xs)) stride partition_start xs [] wide h
        (length-ads_bytes stride xs wide h) in
    rw (parse_extents, at, ◌>>=◌, e) refl
